-- ===== src/Worker/Receipts/Advance.antt =====
-- One read receipt, and its redelivery.
use mqtt_chat.Base.{
  ℕ, String, some, Bool, true, false, ◌&&◌, List, [], ◌∷◌, min, ◌==◌, string_eq, nat_eq,
  if◌then◌else◌, ltb, filter, find, length, ◌≡◌, ap, ◌∙◌, inl, inr, arith, Bool-cases,
}
use mqtt_chat.Contracts.Envelope.{CommandEnvelope, truthy}
use mqtt_chat.Contracts.Commands.{ReadReceiptCommand}
use mqtt_chat.Store.Rows.{Db, Member}
use mqtt_chat.Store.Prisma.{Prisma, IsPrisma, tables, by_tables, update_rows}
use mqtt_chat.Store.Redis.{RedisClient, IsRedis, Redis, by_cells, reset_unread, get_unread}
use mqtt_chat.Worker.Context.{Env, World, acked, after}
use mqtt_chat.Worker.Receipts.{is_member_of, conversation_last, read_phase, handle_receipt_read}
use mqtt_chat.Worker.Receipts.Marks.{behind_read, set_read, read_db, advance_phase-tables}

behind-nonempty :
    (k user_id : String) (accepted : ℕ) (ms : List Member) (m : Member)
    → find (is_member_of k user_id) ms ≡ some m
    → ltb m.last_read_sequence accepted ≡ true
    → (length (filter (behind_read k user_id accepted) ms) == 0) ≡ false
behind-nonempty k user_id accepted [] m e h = cc
behind-nonempty k user_id accepted (x ∷ ms) m e h =
    ground (arith, behind-nonempty k user_id accepted ms m)

find-set_read :
    (k user_id : String) (accepted : ℕ) (ms : List Member) (m : Member)
    → find (is_member_of k user_id) ms ≡ some m
    → ltb m.last_read_sequence accepted ≡ true
    → find
        (is_member_of k user_id)
        (update_rows (behind_read k user_id accepted) (set_read k user_id accepted) ms)
      ≡ some (set_read k user_id accepted m)
find-set_read k user_id accepted [] m e h = cc
find-set_read k user_id accepted (x ∷ ms) m e h =
    ground (arith, find-set_read k user_id accepted ms m)

reset-unread :
    {R : RedisClient} (s : IsRedis R) (user_id k : String) (r : Redis) (u j : String)
    → get_unread (reset_unread R user_id k r) u j
      ≡ (if u == user_id && j == k then 0 else get_unread r u j)
unfolding reset_unread get_unread
reset-unread s user_id k r u j =
    by_cells
      (λ R.
        get_unread (reset_unread R user_id k r) u j
        ≡ (if u == user_id && j == k then 0 else get_unread r u j))
      s (ground arith)

-- What the sender of a receipt may mark: at most what exists.
abbrev pub acceptable : CommandEnvelope ReadReceiptCommand → Db → ℕ
acceptable envelope db =
    min envelope.payload.last_read_sequence
      (conversation_last (find (λ c. c.id == envelope.payload.conversation_id) db.conversations))

module _ (R : RedisClient) (env : Env) (envelope : CommandEnvelope ReadReceiptCommand) (w : World)
    (user_id : String) (m : Member) (identified : truthy envelope.actor.user_id ≡ some user_id)
    (found : find (is_member_of envelope.payload.conversation_id user_id) w.db.members
      ≡ some m) where
  -- The mark and the events move together, and the unread counter goes, exactly if the mark advances.
  abbrev pub read_world : World
  read_world =
      if ltb m.last_read_sequence (acceptable envelope w.db)
      then record w {
        db = read_db env envelope user_id (acceptable envelope w.db) w.db;
        redis = reset_unread R user_id envelope.payload.conversation_id w.redis;
      }
      else w

  read-tables : handle_receipt_read tables R env envelope w ≡ acked read_world
  unfolding handle_receipt_read read_phase
  read-tables = ground (
    arith,
    advance_phase-tables env envelope user_id (acceptable envelope w.db) w.db,
    behind-nonempty envelope.payload.conversation_id user_id (acceptable envelope w.db) w.db.members
        m found,
  )

  read_lem :
      (P : Prisma) (h : IsPrisma P) → handle_receipt_read P R env envelope w ≡ acked read_world
  read_lem P h =
      by_tables (λ P. handle_receipt_read P R env envelope w ≡ acked read_world) h read-tables

  -- Whether the receipt clears this counter.
  abbrev pub clears : String → String → Bool
  clears u j =
      ltb m.last_read_sequence (acceptable envelope w.db)
      && (u == user_id && j == envelope.payload.conversation_id)

  -- A read receipt of a member moves the member's mark to the sequence of the command, or to the last
  -- message of the conversation if that is less, queues one event for every member, the reader
  -- included, and sets the reader's unread counter of the conversation to 0, no other counter changing;
  -- a receipt that is not ahead of the mark does nothing.
  pub read_receipt :
      (P : Prisma) (h : IsPrisma P) (s : IsRedis R) (u j : String)
      → (handle_receipt_read P R env envelope w ≡ acked read_world)
        × (get_unread (after (handle_receipt_read P R env envelope w)).redis u j
            ≡ (if clears u j then 0 else get_unread w.redis u j))
  read_receipt P h s u j = (
    read_lem P h,
    ap (λ o. get_unread (after o).redis u j) (read_lem P h)
        ∙ ground (arith, reset-unread s user_id envelope.payload.conversation_id w.redis u j),
  )

module _ (P : Prisma) (h : IsPrisma P) (R : RedisClient) (env : Env)
    (envelope : CommandEnvelope ReadReceiptCommand) (w : World) (user_id : String) (m : Member)
    (identified : truthy envelope.actor.user_id ≡ some user_id)
    (found : find (is_member_of envelope.payload.conversation_id user_id) w.db.members
      ≡ some m) where
  -- The same receipt delivered a second time changes nothing: no event is queued again.
  pub read_redelivery :
      (again : Env)
      → let once = after (handle_receipt_read P R env envelope w) in
        handle_receipt_read P R again envelope once ≡ acked once
  read_redelivery again =
      rw (read_lem R env envelope w user_id m identified found P h)
        (elim (Bool-cases (ltb m.last_read_sequence (acceptable envelope w.db))) [
          | inl ahead ↦ rw ahead (
              read_lem R again envelope
                (record w {
                  db = read_db env envelope user_id (acceptable envelope w.db) w.db;
                  redis = reset_unread R user_id envelope.payload.conversation_id w.redis;
                })
                user_id
                (set_read envelope.payload.conversation_id user_id (acceptable envelope w.db) m)
                identified
                (find-set_read envelope.payload.conversation_id user_id (acceptable envelope w.db)
                  w.db.members m found ahead)
                P h
              ∙ ground arith)
          | inr behind ↦
              rw behind (
                read_lem R again envelope w user_id m identified found P h ∙ ground (arith, behind))
        ])
