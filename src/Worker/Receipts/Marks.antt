-- ===== src/Worker/Receipts/Marks.antt =====
-- The two transactions of a receipt, as equations, and what they do to the marks of the members.
use mqtt_chat.Base.{
  ℕ, ◌≤◌, String, Bool, true, false, not, ◌&&◌, List, [], ◌∷◌, ◌++◌, map, ◌==◌, string_eq, nat_eq,
  if◌then◌else◌, ltb, filter, length, All, ◌≡◌, refl, sym, subst, string_discrete, ◌∙◌, arith,
  any_never,
}
use mathlib.Core.List.{append-nil, append_assoc}
use mqtt_chat.Contracts.Envelope.{CommandEnvelope}
use mqtt_chat.Contracts.Commands.{ReadReceiptCommand, DeliveredReceiptCommand}
use mqtt_chat.Store.Rows.{Db, Member, Conversation, OutboxEvent}
use mqtt_chat.Store.Prisma.{tables, update_rows}
use mqtt_chat.Worker.Context.{Env, ok}
use mqtt_chat.Worker.Messages.Sequence.{last_of, advanced}
use mqtt_chat.Worker.Receipts.{
  is_member_of, read_row, read_event, delivered_row, delivered_event, create_many, advance_phase,
  advance_delivered,
}

-- The same members, with marks that are nowhere lower.
abbrev pub IsForward : List Member → List Member → Type 0
IsForward [] [] = Unit
IsForward [] (n ∷ ns) = ⊥
IsForward (m ∷ ms) [] = ⊥
IsForward (m ∷ ms) (n ∷ ns) =
    (n.conversation_id ≡ m.conversation_id)
    × (n.user_id ≡ m.user_id)
    × (n.role ≡ m.role)
    × (m.last_read_sequence ≤ n.last_read_sequence)
    × (m.last_delivered_sequence ≤ n.last_delivered_sequence)
    × IsForward ms ns

pub IsForward-refl : (ms : List Member) → IsForward ms ms
IsForward-refl [] = tt
IsForward-refl (m ∷ ms) = (refl, refl, refl, omega arith, omega arith, IsForward-refl ms)

pub IsForward-trans : (ls ms ns : List Member) → IsForward ls ms → IsForward ms ns → IsForward ls ns
IsForward-trans [] [] [] h k = tt
IsForward-trans [] [] (c ∷ cs) h k = k
IsForward-trans [] (b ∷ bs) ns h k = absurd h
IsForward-trans (a ∷ ls) [] ns h k = absurd h
IsForward-trans (a ∷ ls) (b ∷ bs) [] h k = k
IsForward-trans (a ∷ ls) (b ∷ ms) (c ∷ ns) h k =
    (k.0 ∙ h.0, k.1 ∙ h.1, k.2 ∙ h.2, omega arith, omega arith, IsForward-trans ls ms ns h.5 k.5)

-- No mark lies beyond the last message of its conversation.
abbrev pub IsWithin : List Conversation → Member → Type 0
IsWithin rows m =
    (m.last_read_sequence ≤ last_of m.conversation_id rows)
    × (m.last_delivered_sequence ≤ last_of m.conversation_id rows)

module _ (k user_id : String) (accepted : ℕ) where
  abbrev pub behind_read : Member → Bool
  behind_read m = is_member_of k user_id m && ltb m.last_read_sequence accepted

  abbrev pub set_read : Member → Member
  set_read m = record m { last_read_sequence = accepted }

  abbrev pub behind_delivered : Member → Bool
  behind_delivered m = is_member_of k user_id m && ltb m.last_delivered_sequence accepted

  abbrev pub set_delivered : Member → Member
  set_delivered m = record m { last_delivered_sequence = accepted }

  pub set_read-IsForward : (ms : List Member) → IsForward ms (update_rows behind_read set_read ms)
  set_read-IsForward [] = tt
  set_read-IsForward (m ∷ ms) = ground (arith, set_read-IsForward ms)

  pub set_delivered-IsForward :
      (ms : List Member) → IsForward ms (update_rows behind_delivered set_delivered ms)
  set_delivered-IsForward [] = tt
  set_delivered-IsForward (m ∷ ms) = ground (arith, set_delivered-IsForward ms)

  pub set_read-IsWithin :
      (rows : List Conversation) (ms : List Member)
      → accepted ≤ last_of k rows
      → All (IsWithin rows) ms
      → All (IsWithin rows) (update_rows behind_read set_read ms)
  set_read-IsWithin rows [] h a = tt
  set_read-IsWithin rows (m ∷ ms) h a = elim (string_discrete m.conversation_id k) [
    | yes e ↦
        let here : accepted ≤ last_of m.conversation_id rows =
          subst (λ j. accepted ≤ last_of j rows) (sym e) h in
        ground (arith, set_read-IsWithin rows ms h a.1)
    | no n ↦ ground (arith, set_read-IsWithin rows ms h a.1)
  ]

module _ (k user_id : String) (accepted : ℕ) where
  pub set_delivered-IsWithin :
      (rows : List Conversation) (ms : List Member)
      → accepted ≤ last_of k rows
      → All (IsWithin rows) ms
      → All
          (IsWithin rows)
          (update_rows (behind_delivered k user_id accepted) (set_delivered k user_id accepted) ms)
  set_delivered-IsWithin rows [] h a = tt
  set_delivered-IsWithin rows (m ∷ ms) h a = elim (string_discrete m.conversation_id k) [
    | yes e ↦
        let here : accepted ≤ last_of m.conversation_id rows =
          subst (λ j. accepted ≤ last_of j rows) (sym e) h in
        ground (arith, set_delivered-IsWithin rows ms h a.1)
    | no n ↦ ground (arith, set_delivered-IsWithin rows ms h a.1)
  ]

-- The last sequences only grow, so marks that lie within them stay within.
pub last_of-grows :
    (now : ℕ) (j k : String) (rows : List Conversation)
    → last_of k rows ≤ last_of k (advanced now j rows)
last_of-grows now j k [] = omega arith
last_of-grows now j k (r ∷ rows) = ground (arith, last_of-grows now j k rows)

pub IsWithin-advanced :
    (now : ℕ) (j : String) (rows : List Conversation) (ms : List Member)
    → All (IsWithin rows) ms
    → All (IsWithin (advanced now j rows)) ms
IsWithin-advanced now j rows [] a = tt
IsWithin-advanced now j rows (m ∷ ms) a = (
  (
    omega (arith, last_of-grows now j m.conversation_id rows),
    omega (arith, last_of-grows now j m.conversation_id rows),
  ),
  IsWithin-advanced now j rows ms a.1,
)

create_many-append : (rs rows : List OutboxEvent) → create_many tables rs rows ≡ ok (rows ++ rs)
create_many-append [] rows = rw append-nil
create_many-append (r ∷ rs) rows =
    rw (any_never rows, create_many-append rs (rows ++ r ∷ []), append_assoc rows (r ∷ []) rs)

module _ (env : Env) (envelope : CommandEnvelope ReadReceiptCommand) (user_id : String)
    (accepted : ℕ) (db : Db) where
  abbrev read_id : String
  read_id = envelope.payload.conversation_id

  abbrev pub read_members : List Member
  read_members =
      update_rows (behind_read read_id user_id accepted) (set_read read_id user_id accepted)
        db.members

  -- One row for each member of the conversation, the reader included.
  abbrev pub read_db : Db
  read_db = record db {
    members = read_members;
    outbox =
        db.outbox
        ++ map
            (λ (m : Member).
              read_row env (read_event env envelope user_id accepted) read_id m.user_id)
            (filter (λ m. m.conversation_id == read_id) read_members);
  }

  pub advance_phase-tables : advance_phase tables env envelope user_id accepted db ≡ (
      if length (filter (behind_read read_id user_id accepted) db.members) == 0
      then ok (false, db)
      else ok (true, read_db))
  unfolding advance_phase
  advance_phase-tables =
      rw
        (create_many-append
          (map
            (λ (m : Member).
              read_row env (read_event env envelope user_id accepted) read_id m.user_id)
            (filter (λ m. m.conversation_id == read_id) read_members))
          db.outbox)
        refl

module _ (env : Env) (envelope : CommandEnvelope DeliveredReceiptCommand) (user_id : String)
    (accepted : ℕ) (db : Db) where
  abbrev delivered_id : String
  delivered_id = envelope.payload.conversation_id

  abbrev pub delivered_members : List Member
  delivered_members =
      update_rows (behind_delivered delivered_id user_id accepted)
        (set_delivered delivered_id user_id accepted) db.members

  -- One row for each other member of the conversation.
  abbrev pub delivered_db : Db
  delivered_db = record db {
    members = delivered_members;
    outbox =
        db.outbox
        ++ map
            (λ (m : Member).
              delivered_row env (delivered_event env envelope user_id accepted) delivered_id
                m.user_id)
            (filter (λ m. m.conversation_id == delivered_id && not (m.user_id == user_id))
              delivered_members);
  }

  pub advance_delivered-tables : advance_delivered tables env envelope user_id accepted db ≡ (
      if length (filter (behind_delivered delivered_id user_id accepted) db.members) == 0
      then ok db
      else ok delivered_db)
  unfolding advance_delivered
  advance_delivered-tables =
      rw
        (create_many-append
          (map
            (λ (m : Member).
              delivered_row env (delivered_event env envelope user_id accepted) delivered_id
                m.user_id)
            (filter (λ m. m.conversation_id == delivered_id && not (m.user_id == user_id))
              delivered_members))
          db.outbox)
        refl
