-- ===== src/Worker/Messages/Acceptance.antt =====
-- Which sends `handleMessageSend` accepts, and what a second delivery of one does.
use mqtt_chat.Base.{
  ℕ, zero, suc, ◌≤◌, String, none, some, Bool, true, false, ◌&&◌, ◌||◌, List, [], ◌∷◌, ◌==◌,
  string_eq, nat_eq, find, any, ◌≡◌, refl, string_discrete, ◌⊎◌, inl, inr, arith, Option-cases,
  any_never, any-append, any_of_find,
}
use mqtt_chat.Contracts.Envelope.{CommandEnvelope, truthy}
use mqtt_chat.Contracts.Commands.{SendMessageCommand}
use mqtt_chat.Store.Rows.{Db, Message, Conversation}
use mqtt_chat.Store.Prisma.{Prisma, IsPrisma, tables, by_tables}
use mqtt_chat.Store.Redis.{RedisClient}
use mqtt_chat.Worker.Context.{Env, World, unique_violation, conversation_not_found, acked, ok, fail}
use mqtt_chat.Worker.Messages.Send.{
  message_clash, new_message, reject_send, check_send, next_sequence, store_message, recover_send,
  commit_send, count_unread, other_members, handle_message_send,
}
use mqtt_chat.Worker.Messages.Sequence.{
  IsNumbered, sequences, one_to, last_of, advance, advanced, stored_message, stored_db,
}

abbrev pub same_client : SendMessageCommand → Message → Bool
same_client cmd m = m.client_message_id == cmd.client_message_id

abbrev same_place : String → ℕ → Message → Bool
same_place k n m = m.conversation_id == k && m.sequence == n

any-message_clash :
    (m : Message) (ms : List Message)
    → any (message_clash m) ms
      ≡ any (λ x. x.client_message_id == m.client_message_id) ms
        || any (same_place m.conversation_id m.sequence) ms
any-message_clash m [] = refl
any-message_clash m (x ∷ ms) = ground (arith, any-message_clash m ms)

any-sequences :
    (k : String) (n : ℕ) (ms : List Message)
    → any (same_place k n) ms ≡ any (λ s. s == n) (sequences k ms)
any-sequences k n [] = refl
any-sequences k n (m ∷ ms) = ground (arith, any-sequences k n ms)

any-one_to : (k n : ℕ) → n ≤ k → any (λ s. s == suc k) (one_to n) ≡ false
any-one_to k zero h = refl
any-one_to k (suc n) h =
    rw (any-append (λ s. s == suc k) (one_to n) (suc n ∷ []), any-one_to k n (omega arith))
      (ground arith)

-- In a numbered database the next sequence is free.
next-free :
    (db : Db) (k : String)
    → IsNumbered db
    → any (same_place k (suc (last_of k db.conversations))) db.messages ≡ false
next-free db k numbered =
    rw (any-sequences k (suc (last_of k db.conversations)) db.messages, numbered k)
      (any-one_to (last_of k db.conversations) (last_of k db.conversations) (omega arith))

find-advanced_exists :
    (now : ℕ) (k : String) (rows : List Conversation) (c : Conversation)
    → find (λ c. c.id == k) rows ≡ some c
    → (d : Conversation) × (find (λ c. c.id == k) (advanced now k rows) ≡ some d)
      × (d.last_sequence ≡ suc (last_of k rows))
find-advanced_exists now k [] c e = cc
find-advanced_exists now k (r ∷ rows) c e = elim (string_discrete r.id k) [
  | yes p ↦ (advance now r, ground arith, ground arith)
  | no p ↦
      let (d, found, next) = find-advanced_exists now k rows c (ground arith) in
      (d, ground arith, ground arith)
]

module _ (env : Env) (envelope : CommandEnvelope SendMessageCommand) (user_id : String)
    (db : Db) where
  abbrev k : String
  k = envelope.payload.conversation_id

  pub store_message-accepts :
      (c : Conversation)
      → IsNumbered db
      → find (λ c. c.id == k) db.conversations ≡ some c
      → any (same_client envelope.payload) db.messages ≡ false
      → store_message tables env envelope user_id db
        ≡ ok (stored_message env envelope user_id db, stored_db env envelope user_id db)
  unfolding store_message
  store_message-accepts c numbered exists fresh =
      let (d, found, next) = find-advanced_exists env.now k db.conversations c exists in
      let free : any (message_clash (new_message env envelope.payload user_id d.last_sequence))
            db.messages
          ≡ false =
        rw
          (
            any-message_clash (new_message env envelope.payload user_id d.last_sequence)
                db.messages,
            fresh,
            next,
          )
          (next-free db k numbered) in
      ground (arith, found, free, next, any_never db.outbox)

  -- A client message id that is stored already rolls the transaction back.
  store_message-refuses :
      any (same_client envelope.payload) db.messages ≡ true
      → (store_message tables env envelope user_id db ≡ fail unique_violation)
        ⊎ (store_message tables env envelope user_id db ≡ fail conversation_not_found)
  unfolding store_message
  store_message-refuses taken =
      elim (Option-cases (find (λ c. c.id == k) (advanced env.now k db.conversations))) [
        | inl missing ↦ inr (rw (missing, next_sequence))
        | inr (c, found) ↦
            let clash : any
                  (message_clash (new_message env envelope.payload user_id c.last_sequence))
                  db.messages
                ≡ true =
              rw (
                any-message_clash (new_message env envelope.payload user_id c.last_sequence)
                    db.messages,
                taken,
              ) in
            inl (rw (found, next_sequence, clash))
      ]

module _ (R : RedisClient) (env : Env) (envelope : CommandEnvelope SendMessageCommand)
    (w : World) where
  pub send-eq-commit :
      (user_id : String)
      → truthy envelope.actor.user_id ≡ some user_id
      → check_send tables w.db envelope.payload user_id ≡ none
      → handle_message_send tables R env envelope w ≡ commit_send tables R env envelope user_id w
  unfolding handle_message_send
  send-eq-commit user_id identified allowed = ground arith

  send_accepts-tables :
      (user_id : String) (c : Conversation)
      → IsNumbered w.db
      → truthy envelope.actor.user_id ≡ some user_id
      → check_send tables w.db envelope.payload user_id ≡ none
      → find (λ c. c.id == envelope.payload.conversation_id) w.db.conversations ≡ some c
      → any (same_client envelope.payload) w.db.messages ≡ false
      → (w' : World) × (handle_message_send tables R env envelope w ≡ acked w')
        × (w'.db ≡ stored_db env envelope user_id w.db)
        × (w'.sent ≡ w.sent)
  unfolding commit_send
  send_accepts-tables user_id c numbered identified allowed exists fresh = (
    record w {
      db = stored_db env envelope user_id w.db;
      redis =
          count_unread R envelope.payload.conversation_id
            (other_members tables (stored_db env envelope user_id w.db)
              envelope.payload.conversation_id user_id)
            w.redis;
    },
    rw
        (
          send-eq-commit user_id identified allowed,
          store_message-accepts env envelope user_id w.db c numbered exists fresh,
          commit_send,
        )
        refl,
    refl,
    refl,
  )

  commit_send_again :
      (user_id : String) (m : Message)
      → find (same_client envelope.payload) w.db.messages ≡ some m
      → m.conversation_id ≡ envelope.payload.conversation_id
      → (commit_send tables R env envelope user_id w ≡ acked w)
        ⊎ (commit_send tables R env envelope user_id w
            ≡ acked (reject_send env envelope "unknown conversation" w))
  unfolding commit_send recover_send
  commit_send_again user_id m found same =
      elim (store_message-refuses env envelope user_id w.db
        (any_of_find (same_client envelope.payload) w.db.messages m found)) [
          | inl clash ↦ inl (rw (clash, commit_send) (ground arith))
          | inr missing ↦ inr (rw (missing, commit_send) refl)
        ]

  send_redelivery-tables :
      (m : Message)
      → find (same_client envelope.payload) w.db.messages ≡ some m
      → m.conversation_id ≡ envelope.payload.conversation_id
      → (w' : World) × (handle_message_send tables R env envelope w ≡ acked w')
        × (w'.db ≡ w.db)
        × (w'.redis ≡ w.redis)
  unfolding handle_message_send reject_send
  send_redelivery-tables m found same = elim (Option-cases (truthy envelope.actor.user_id)) [
    | inl anonymous ↦ (reject_send env envelope "missing actor userId" w, ground arith, refl, refl)
    | inr (user_id, identified) ↦
        elim (Option-cases (check_send tables w.db envelope.payload user_id)) [
          | inl allowed ↦ elim (commit_send_again user_id m found same) [
            | inl quiet ↦ (w, rw (send-eq-commit user_id identified allowed) quiet, refl, refl)
            | inr announced ↦ (
              reject_send env envelope "unknown conversation" w,
              rw (send-eq-commit user_id identified allowed) announced,
              refl,
              refl,
            )
          ]
          | inr (reason, refused) ↦ (reject_send env envelope reason w, ground arith, refl, refl)
        ]
  ]

-- In a numbered database, a send that names its user, passes the checks, addresses an existing
-- conversation and has a new client message id is acknowledged without a rejection, and the
-- database then holds its message, its event and the advanced sequence.
pub send_accepts :
    (P : Prisma) (h : IsPrisma P) (R : RedisClient) (env : Env)
    (envelope : CommandEnvelope SendMessageCommand) (w : World) (user_id : String)
    (c : Conversation)
    → IsNumbered w.db
    → truthy envelope.actor.user_id ≡ some user_id
    → check_send P w.db envelope.payload user_id ≡ none
    → find (λ c. c.id == envelope.payload.conversation_id) w.db.conversations ≡ some c
    → any (same_client envelope.payload) w.db.messages ≡ false
    → (w' : World) × (handle_message_send P R env envelope w ≡ acked w')
      × (w'.db ≡ stored_db env envelope user_id w.db)
      × (w'.sent ≡ w.sent)
send_accepts P h R env envelope w user_id c numbered identified =
    by_tables
      (λ P.
        check_send P w.db envelope.payload user_id ≡ none
        → find (λ c. c.id == envelope.payload.conversation_id) w.db.conversations ≡ some c
        → any (same_client envelope.payload) w.db.messages ≡ false
        → (w' : World) × (handle_message_send P R env envelope w ≡ acked w')
          × (w'.db ≡ stored_db env envelope user_id w.db)
          × (w'.sent ≡ w.sent))
      h (send_accepts-tables R env envelope w user_id c numbered identified)

-- A send whose client message id is stored in its conversation already, as that of a command that is
-- delivered again, is acknowledged and changes neither the database nor the unread counters.
pub send_redelivery :
    (P : Prisma) (h : IsPrisma P) (R : RedisClient) (env : Env)
    (envelope : CommandEnvelope SendMessageCommand) (w : World) (m : Message)
    → find (same_client envelope.payload) w.db.messages ≡ some m
    → m.conversation_id ≡ envelope.payload.conversation_id
    → (w' : World) × (handle_message_send P R env envelope w ≡ acked w')
      × (w'.db ≡ w.db)
      × (w'.redis ≡ w.redis)
send_redelivery P h R env envelope w m found same =
    by_tables
      (λ P.
        (w' : World) × (handle_message_send P R env envelope w ≡ acked w')
        × (w'.db ≡ w.db)
        × (w'.redis ≡ w.redis))
      h (send_redelivery-tables R env envelope w m found same)
