-- ===== src/Api/Members/Deletion.antt =====
-- Deletion of a group.
use mqtt_chat.Base.{
  String, Option, some, true, false, not, ◌&&◌, List, [], ◌∷◌, ◌++◌, ◌==◌, string_eq, nat_eq, ◌≡◌,
  sym, subst, ◌⊎◌, inl, inr, arith, Option-cases, Bool-cases, any_never,
}
use mqtt_chat.Contracts.Envelope.{truthy, CommandEnvelope}
use mqtt_chat.Contracts.Events.{EventData}
use mqtt_chat.Contracts.Topics.{EventTopic, event_topic}
use mqtt_chat.Store.Rows.{Db, Member, Conversation}
use mqtt_chat.Store.Prisma.{Prisma, IsPrisma, tables, by_tables, update_rows}
use mqtt_chat.Worker.Context
use mqtt_chat.Worker.Context.{World, after, is_some}
use mqtt_chat.Worker.Messages.Send.{check_send, handle_message_send}
use mqtt_chat.Worker.Messages.Outcome.{sent_world-cases}
use mqtt_chat.Contracts.Commands.{SendMessageCommand}
use mqtt_chat.Store.Redis.{RedisClient}
use mqtt_chat.Api.Reply.{
  conversation_outbox, user_event, conversation_outbox, user_event, Env, db_after, conversation_row,
  members_of, member_named,
}
use mqtt_chat.Api.Members.{
  delete_transaction, delete_conversation, add_members, tombstone, tombstone_parses, is_group,
  is_admin, named,
}
use mqtt_chat.Api.Members.Remove.{JoinOrder, remove_member_at, remove_member}

-- The row of a conversation that its admin deletes.
abbrev pub deleted_row : Env → String → Conversation → Conversation
deleted_row env actor_user_id x = record x {
  deleted_at = some env.now;
  deleted_by = some actor_user_id;
  updated_at = env.now;
}

pub record IsDeletion (P : Prisma) (env : Env) (id : String) (actor : Option String) (db db' : Db)
    : Type 0 where
  pub conversation : Conversation
  pub row : conversation_row P db id ≡ some conversation
  pub group : is_group conversation.type ≡ true
  pub live : is_some conversation.deleted_at ≡ false
  pub actor_user_id : String
  pub identified : truthy actor ≡ some actor_user_id
  pub member : Member
  pub membership : member_named actor_user_id (members_of P db id) ≡ some member
  pub ruling : is_admin member.role ≡ true
  pub conversations :
      db'.conversations
      ≡ update_rows (λ x. x.id == conversation.id) (deleted_row env actor_user_id) db.conversations
  pub members : db'.members ≡ db.members
  pub messages : db'.messages ≡ db.messages
  pub outbox :
      db'.outbox
      ≡ db.outbox
        ++ conversation_outbox env "conversation.deleted" conversation.id
            (event_topic env.namespace EventTopic.conversation_deleted)
            (user_event env "conversation.deleted" actor_user_id conversation.id (
              EventData.conversation_deleted
                (tombstone conversation (members_of P db id) actor_user_id env.now)))
          ∷ []

conversation_rights-tables :
    (env : Env) (id : String) (actor : Option String) (db : Db)
    → let db' = db_after db (delete_conversation tables env id actor db) in
      (db' ≡ db) ⊎ IsDeletion tables env id actor db db'
unfolding delete_conversation delete_transaction
conversation_rights-tables env id actor db = elim (Option-cases (truthy actor)) [
  | inl anonymous ↦ inl (ground arith)
  | inr (actor_user_id, identified) ↦ elim (Option-cases (conversation_row tables db id)) [
    | inl missing ↦ inl (ground arith)
    | inr (c, row) ↦ elim (Option-cases (member_named actor_user_id (members_of tables db id))) [
      | inl stranger ↦ inl (ground arith)
      | inr (m, membership) ↦
          elim (Bool-cases (
            not (is_some c.deleted_at)
            && (is_group c.type
                && (is_admin m.role
                    && tombstone_parses
                        (tombstone c (members_of tables db id) actor_user_id env.now))))) [
                          | inr refused ↦ inl (ground arith)
                          | inl lawful ↦ inr (record {
                            conversation = c;
                            row = row;
                            group = ground arith;
                            live = ground arith;
                            actor_user_id = actor_user_id;
                            identified = identified;
                            member = m;
                            membership = membership;
                            ruling = ground arith;
                            conversations = ground (arith, any_never db.outbox);
                            members = ground (arith, any_never db.outbox);
                            messages = ground (arith, any_never db.outbox);
                            outbox = ground (arith, any_never db.outbox);
                          })
                        ]
    ]
  ]
]

-- A request to delete a conversation changes nothing, or the conversation is a group that is not
-- deleted yet and the actor is one of its admins; its row then becomes a tombstone, its messages and
-- members stay, and the one event added carries the members from before.
pub conversation_rights :
    (P : Prisma) (h : IsPrisma P) (env : Env) (id : String) (actor : Option String) (db : Db)
    → let db' = db_after db (delete_conversation P env id actor db) in
      (db' ≡ db) ⊎ IsDeletion P env id actor db db'
conversation_rights P h env id actor db =
    by_tables
      (λ P.
        (db_after db (delete_conversation P env id actor db) ≡ db)
        ⊎ IsDeletion P env id actor db (db_after db (delete_conversation P env id actor db)))
      h (conversation_rights-tables env id actor db)

module _ (R : RedisClient) (id : String) (w : World) (c : Conversation)
    (row : conversation_row tables w.db id ≡ some c) (dead : is_some c.deleted_at ≡ true) where
  send-refused :
      (env : Context.Env) (e : CommandEnvelope SendMessageCommand)
      → e.payload.conversation_id ≡ id
      → (after (handle_message_send tables R env e w)).db ≡ w.db
  unfolding check_send
  send-refused env e here = elim (sent_world-cases R env e w) [
    | inl same ↦ same
    | inr stored ↦
        let found : conversation_row tables w.db e.payload.conversation_id ≡ some c =
          subst (λ j. conversation_row tables w.db j ≡ some c) (sym here) row in
        let allowed = stored.allowed in ground (arith, found, allowed)
  ]

  closed :
      (env : Env) (actor : Option String) (user_id : String) (user_ids : List String)
      (order : JoinOrder)
      → (db_after w.db (add_members tables env id actor user_ids w.db) ≡ w.db)
        × (db_after w.db (remove_member tables order env id user_id actor w.db) ≡ w.db)
        × (db_after w.db (delete_conversation tables env id actor w.db) ≡ w.db)
  unfolding add_members remove_member_at delete_conversation
  closed env actor user_id user_ids order = elim (Option-cases (truthy actor)) [
    | inl anonymous ↦ (ground arith, ground arith, ground arith)
    | inr (a, named) ↦ (ground arith, ground arith, ground arith)
  ]

-- In a deleted group no member is added or removed through the API, a second deletion changes nothing, and a user's send
-- stores no message.
pub tombstone_final :
    (P : Prisma) (h : IsPrisma P) (R : RedisClient) (order : JoinOrder) (env : Env)
    (worker_env : Context.Env) (id user_id : String) (user_ids : List String)
    (actor : Option String) (e : CommandEnvelope SendMessageCommand) (w : World) (c : Conversation)
    → conversation_row P w.db id ≡ some c
    → is_some c.deleted_at ≡ true
    → e.payload.conversation_id ≡ id
    → (db_after w.db (add_members P env id actor user_ids w.db) ≡ w.db)
      × (db_after w.db (remove_member P order env id user_id actor w.db) ≡ w.db)
      × (db_after w.db (delete_conversation P env id actor w.db) ≡ w.db)
      × ((after (handle_message_send P R worker_env e w)).db ≡ w.db)
tombstone_final P h R order env worker_env id user_id user_ids actor e w c =
    by_tables
      (λ P.
        conversation_row P w.db id ≡ some c
        → is_some c.deleted_at ≡ true
        → e.payload.conversation_id ≡ id
        → (db_after w.db (add_members P env id actor user_ids w.db) ≡ w.db)
          × (db_after w.db (remove_member P order env id user_id actor w.db) ≡ w.db)
          × (db_after w.db (delete_conversation P env id actor w.db) ≡ w.db)
          × ((after (handle_message_send P R worker_env e w)).db ≡ w.db))
      h
      (λ row dead here.
        let (added, left, again) = closed R id w c row dead env actor user_id user_ids order in
        (added, left, again, send-refused R id w c row dead worker_env e here))
