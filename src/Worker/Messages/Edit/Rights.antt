-- ===== src/Worker/Messages/Edit/Rights.antt =====
-- Who may edit and delete a message, and what is left of it.
use mqtt_chat.Base.{
  String, Option, none, some, Bool, not, ◌&&◌, ◌||◌, List, [], ◌∷◌, ◌++◌, ◌==◌, string_eq,
  if◌then◌else◌, find, ◌≡◌, refl, subst, ◌⊎◌, inl, inr, arith, Option-cases, any_never,
}
use mqtt_chat.Contracts.Envelope.{CommandEnvelope, truthy}
use mqtt_chat.Contracts.Commands.{EditMessageCommand, DeleteMessageCommand}
use mqtt_chat.Contracts.Events.{SenderType}
use mqtt_chat.Store.Rows.{Db, Message}
use mqtt_chat.Store.Prisma.{Prisma, IsPrisma, tables, by_tables, update_rows}
use mqtt_chat.Worker.Context.{Env, World, Outcome, acked, is_some}
use mqtt_chat.Worker.Messages.Edit.{
  is_user, is_admin, edited_row, deleted_row, handle_message_edit, handle_message_delete,
}
use mqtt_chat.Worker.Messages.Sequence.{sequences}

abbrev pub target : Db → String → Option Message
target db id = find (λ m. m.id == id) db.messages

-- The message is in the named conversation, its author is the user, and it is not deleted.
pub record MayEdit (cmd : EditMessageCommand) (user_id : String) (m : Message) : Type 0 where
  pub in_place : m.conversation_id ≡ cmd.conversation_id
  pub author : m.sender_id ≡ user_id
  pub human : m.sender_type ≡ SenderType.user
  pub alive : m.deleted_at ≡ none

module _ (env : Env) where
  abbrev pub edit : EditMessageCommand → Message → Message
  edit cmd m = record m { content = cmd.content; edited_at = some env.now }

  abbrev pub edited_db : CommandEnvelope EditMessageCommand → String → Message → Db → Db
  edited_db envelope user_id m db = record db {
    messages =
        update_rows (λ x. x.id == envelope.payload.message_id) (edit envelope.payload) db.messages;
    outbox = db.outbox ++ edited_row env envelope user_id (edit envelope.payload m) ∷ [];
  }

  abbrev pub erase : Message → Message
  erase m = record m { deleted_at = some env.now; content = "" }

  abbrev pub erased_db : CommandEnvelope DeleteMessageCommand → String → Db → Db
  erased_db envelope user_id db = record db {
    messages = update_rows (λ x. x.id == envelope.payload.message_id) erase db.messages;
    outbox = db.outbox ++ deleted_row env envelope user_id ∷ [];
  }

-- A user and a message of the command that the rule lets through, and the world that results.
pub record Edited (env : Env) (envelope : CommandEnvelope EditMessageCommand) (w : World)
    (o : Outcome) : Type 0 where
  pub user_id : String
  pub message : Message
  pub identified : truthy envelope.actor.user_id ≡ some user_id
  pub found : target w.db envelope.payload.message_id ≡ some message
  pub right : MayEdit envelope.payload user_id message
  pub outcome : o ≡ acked (record w { db = edited_db env envelope user_id message w.db })

pub record EditRefused (envelope : CommandEnvelope EditMessageCommand) (w : World) (o : Outcome)
    : Type 0 where
  pub outcome : o ≡ acked w
  pub no_right : ¬ (
      (user_id : String) × (m : Message) × (truthy envelope.actor.user_id ≡ some user_id)
      × (target w.db envelope.payload.message_id ≡ some m)
      × MayEdit envelope.payload user_id m)

module _ (env : Env) (envelope : CommandEnvelope EditMessageCommand) (w : World) where
  edit_found :
      (user_id : String) (m : Message)
      → truthy envelope.actor.user_id ≡ some user_id
      → target w.db envelope.payload.message_id ≡ some m
      → (MayEdit envelope.payload user_id m
          × (handle_message_edit tables env envelope w
              ≡ acked (record w { db = edited_db env envelope user_id m w.db })))
        ⊎ ((¬ MayEdit envelope.payload user_id m)
            × (handle_message_edit tables env envelope w ≡ acked w))
  unfolding handle_message_edit
  edit_found user_id m identified found = ground (arith, any_never w.db.outbox)

  edit_cases :
      Edited env envelope w (handle_message_edit tables env envelope w)
      ⊎ EditRefused envelope w (handle_message_edit tables env envelope w)
  unfolding handle_message_edit
  edit_cases = elim (Option-cases (truthy envelope.actor.user_id)) [
    | inl anonymous ↦
        inr
          (record { outcome = ground arith; no_right = λ (user_id, m, identified, found, may). cc })
    | inr (user_id, identified) ↦ elim (Option-cases (target w.db envelope.payload.message_id)) [
      | inl missing ↦
          inr (record { outcome = ground arith; no_right = λ (other, m, named, found, may). cc })
      | inr (m, found) ↦ elim (edit_found user_id m identified found) [
        | inl (right, outcome) ↦ inl (record {
          user_id = user_id;
          message = m;
          identified = identified;
          found = found;
          right = right;
          outcome = outcome;
        })
        | inr (none_of, outcome) ↦ inr (record {
          outcome = outcome;
          no_right = λ (other, x, named, there, may).
              let same_user : other ≡ user_id = cc in
              let same_message : x ≡ m = cc in
              none_of (
                subst (MayEdit envelope.payload user_id) same_message
                  (subst (λ u. MayEdit envelope.payload u x) same_user may));
        })
      ]
    ]
  ]

-- An edit is carried out, on its message and with its event, if the user is the human author of the
-- message, in the named conversation, and the message is not deleted; otherwise nothing changes.
pub edit_rights :
    (P : Prisma) (h : IsPrisma P) (env : Env) (envelope : CommandEnvelope EditMessageCommand)
    (w : World)
    → Edited env envelope w (handle_message_edit P env envelope w)
      ⊎ EditRefused envelope w (handle_message_edit P env envelope w)
edit_rights P h env envelope w =
    by_tables
      (λ P.
        Edited env envelope w (handle_message_edit P env envelope w)
        ⊎ EditRefused envelope w (handle_message_edit P env envelope w))
      h (edit_cases env envelope w)

-- The user wrote the message, or is an admin of the conversation; deleted or not.
abbrev pub may_delete : Db → DeleteMessageCommand → String → Message → Bool
may_delete db cmd user_id m =
    m.conversation_id == cmd.conversation_id
    && (m.sender_id == user_id && is_user m.sender_type
        || is_admin (
            find (λ x. x.conversation_id == cmd.conversation_id && x.user_id == user_id)
              db.members))

module _ (env : Env) (envelope : CommandEnvelope DeleteMessageCommand) (w : World)
    (user_id : String) (m : Message) (identified : truthy envelope.actor.user_id ≡ some user_id)
    (found : target w.db envelope.payload.message_id ≡ some m) where
  -- The world after a deletion, by the message's state and the user's right.
  abbrev pub deleted_world : World
  deleted_world =
      if may_delete w.db envelope.payload user_id m && not (is_some m.deleted_at)
      then record w { db = erased_db env envelope user_id w.db }
      else w

  delete-tables : handle_message_delete tables env envelope w ≡ acked deleted_world
  unfolding handle_message_delete
  delete-tables = ground (arith, any_never w.db.outbox)

  -- A deletion by a named user of an existing message erases the message and records its event if the
  -- user wrote it or is an admin of the conversation, it is in the named conversation and it is not
  -- deleted yet, and otherwise changes nothing.
  pub delete_rights :
      (P : Prisma) (h : IsPrisma P) → handle_message_delete P env envelope w ≡ acked deleted_world
  delete_rights P h =
      by_tables (λ P. handle_message_delete P env envelope w ≡ acked deleted_world) h delete-tables

pub find-update_rows :
    (id : String) (f : Message → Message) (ms : List Message) (m : Message)
    → ((x : Message) → (f x).id ≡ x.id)
    → find (λ x. x.id == id) ms ≡ some m
    → find (λ x. x.id == id) (update_rows (λ x. x.id == id) f ms) ≡ some (f m)
find-update_rows id f [] m keep e = cc
find-update_rows id f (x ∷ ms) m keep e = ground (arith, keep x, find-update_rows id f ms m keep)

pub sequences-update_rows :
    (k : String) (p : Message → Bool) (f : Message → Message) (ms : List Message)
    → ((x : Message) → (f x).conversation_id ≡ x.conversation_id)
    → ((x : Message) → (f x).sequence ≡ x.sequence)
    → sequences k (update_rows p f ms) ≡ sequences k ms
sequences-update_rows k p f [] c s = refl
sequences-update_rows k p f (x ∷ ms) c s =
    ground (arith, c x, s x, sequences-update_rows k p f ms c s)
