-- ===== src/Worker/Messages/Sequence.antt =====
-- The numbering of messages: what the transaction of a send does to the sequence of a conversation.
use mqtt_chat.Base.{
  ℕ, zero, suc, String, Option, none, some, List, [], ◌∷◌, ◌++◌, map, ◌==◌, string_eq, nat_eq,
  if◌then◌else◌, filter, find, any, ◌≡◌, refl, sym, ◌∙◌, subst, string_discrete, ==_refl, ◌≢◌, ◌⊎◌,
  inl, inr, arith, Option-cases, Bool-cases, any_never,
}
use mqtt_chat.Contracts.Envelope.{CommandEnvelope}
use mqtt_chat.Contracts.Commands.{SendMessageCommand}
use mqtt_chat.Store.Rows.{Db, Conversation, Message}
use mqtt_chat.Store.Prisma.{tables, update_rows}
use mqtt_chat.Worker.Context.{Env, Failure, unique_violation, conversation_not_found, ok, fail}
use mqtt_chat.Worker.Messages.Send.{
  message_clash, next_sequence, new_message, created_row, store_message,
}

abbrev pub sequences : String → List Message → List ℕ
sequences k ms = map (λ m. m.sequence) (filter (λ m. m.conversation_id == k) ms)

-- 1, 2, …, n.
abbrev pub one_to : ℕ → List ℕ
one_to zero = []
one_to (suc n) = one_to n ++ suc n ∷ []

abbrev pub sequence_of : Option Conversation → ℕ
sequence_of none = 0
sequence_of (some c) = c.last_sequence

abbrev pub last_of : String → List Conversation → ℕ
last_of k rows = sequence_of (find (λ c. c.id == k) rows)

-- The messages of every conversation are numbered 1, 2, … up to its last sequence, in the order
-- in which they were stored.
abbrev pub IsNumbered : Db → Type 0
IsNumbered db = (k : String) → sequences k db.messages ≡ one_to (last_of k db.conversations)

abbrev pub advance : ℕ → Conversation → Conversation
advance now c = record c { last_sequence = suc c.last_sequence; updated_at = now }

abbrev pub advanced : ℕ → String → List Conversation → List Conversation
advanced now k = update_rows (λ c. c.id == k) (advance now)

pub find-advanced :
    (now : ℕ) (k : String) (rows : List Conversation) (c : Conversation)
    → find (λ c. c.id == k) (advanced now k rows) ≡ some c
    → c.last_sequence ≡ suc (last_of k rows)
find-advanced now k [] c e = cc
find-advanced now k (r ∷ rows) c e = ground (arith, find-advanced now k rows c)

last_of-advanced :
    (now : ℕ) (j k : String) (rows : List Conversation)
    → k ≢ j
    → last_of k (advanced now j rows) ≡ last_of k rows
last_of-advanced now j k [] h = refl
last_of-advanced now j k (r ∷ rows) h = ground (arith, last_of-advanced now j k rows)

module _ (env : Env) (envelope : CommandEnvelope SendMessageCommand) (user_id : String)
    (db : Db) where
  abbrev conversation_id : String
  conversation_id = envelope.payload.conversation_id

  abbrev pub stored_message : Message
  stored_message =
      new_message env envelope.payload user_id (suc (last_of conversation_id db.conversations))

  abbrev pub stored_db : Db
  stored_db = record db {
    conversations = advanced env.now conversation_id db.conversations;
    messages = db.messages ++ stored_message ∷ [];
    outbox = db.outbox ++ created_row env envelope user_id stored_message ∷ [];
  }

  -- The transaction either commits exactly this, or rolls back.
  pub store_message-cases :
      (store_message tables env envelope user_id db ≡ ok (stored_message, stored_db))
        × (last_of conversation_id (advanced env.now conversation_id db.conversations)
            ≡ suc (last_of conversation_id db.conversations))
      ⊎ ((f : Failure) × (store_message tables env envelope user_id db ≡ fail f))
  unfolding store_message
  store_message-cases =
      elim (Option-cases
        (find (λ c. c.id == conversation_id) (advanced env.now conversation_id db.conversations))) [
          | inl missing ↦ inr (conversation_not_found, rw (missing, next_sequence) refl)
          | inr (c, found) ↦
              let e = find-advanced env.now conversation_id db.conversations c found in
              elim (Bool-cases (
                any (message_clash (new_message env envelope.payload user_id c.last_sequence))
                  db.messages)) [
                    | inl clash ↦ inr (unique_violation, rw (found, next_sequence, clash) refl)
                    | inr free ↦
                        inl (ground (arith, found, free, e, any_never db.outbox), rw found e)
                  ]
        ]

sequences-concat :
    (k : String) (ms : List Message) (m : Message)
    → sequences k (ms ++ m ∷ [])
      ≡ sequences k ms ++ (if m.conversation_id == k then m.sequence ∷ [] else [])
sequences-concat k [] m = ground arith
sequences-concat k (x ∷ ms) m = ground (arith, sequences-concat k ms m)

sequences-concat_ne :
    (k : String) (ms : List Message) (m : Message)
    → m.conversation_id ≢ k
    → sequences k (ms ++ m ∷ []) ≡ sequences k ms
sequences-concat_ne k [] m h = ground arith
sequences-concat_ne k (x ∷ ms) m h = ground (arith, sequences-concat_ne k ms m)

-- A message with the next sequence of its conversation keeps the numbering.
pub concat-IsNumbered :
    (now : ℕ) (message : Message) (db : Db) (id : String)
    → message.conversation_id ≡ id
    → message.sequence ≡ suc (last_of id db.conversations)
    → last_of id (advanced now id db.conversations) ≡ suc (last_of id db.conversations)
    → IsNumbered db
    → (k : String)
    → sequences k (db.messages ++ message ∷ [])
      ≡ one_to (last_of k (advanced now id db.conversations))
concat-IsNumbered now message db id place number grown h k = elim (string_discrete id k) [
  | yes same ↦
      subst
        (λ j.
          sequences j (db.messages ++ message ∷ [])
          ≡ one_to (last_of j (advanced now id db.conversations)))
        same
        (rw (sequences-concat id db.messages message, grown, h id, place, ==_refl id, number) refl)
  | no other ↦
      rw
        (
          sequences-concat_ne k db.messages message (λ e. other (sym place ∙ e)),
          last_of-advanced now id k db.conversations (λ e. other (sym e)),
        )
        (h k)
]

pub stored_db-IsNumbered :
    (env : Env) (envelope : CommandEnvelope SendMessageCommand) (user_id : String) (db : Db)
    → last_of envelope.payload.conversation_id
        (advanced env.now envelope.payload.conversation_id db.conversations)
      ≡ suc (last_of envelope.payload.conversation_id db.conversations)
    → IsNumbered db
    → IsNumbered (stored_db env envelope user_id db)
stored_db-IsNumbered env envelope user_id db grown h =
    concat-IsNumbered env.now (stored_message env envelope user_id db) db
      envelope.payload.conversation_id refl refl grown h
