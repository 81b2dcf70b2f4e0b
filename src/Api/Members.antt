-- ===== src/Api/Members.antt =====
-- `deleteConversation`, `addMembers` and `emitConversationMembersChanged` of
-- apps/api/src/controllers/chat.controller.ts.
pub mod Remove
pub mod Admins
pub mod Governed
pub mod Direct
pub mod Deletion
use Prim.Native.String
use mqtt_chat.Base.{
  ℕ, zero, suc, String, Option, none, some, Bool, true, false, not, ◌&&◌, ◌||◌, List, [], ◌∷◌, ◌++◌,
  ◌==◌, string_eq, nat_eq, if◌then◌else◌, map, find, filter, any, all, length,
}
use mqtt_chat.Contracts.Topics.{EventTopic, event_topic}
use mqtt_chat.Contracts.Envelope.{truthy}
use mqtt_chat.Contracts.Events.{
  EventData, MemberRole, MemberSummary, ConversationSummary, Tombstone, ConversationType,
}
use mqtt_chat.Store.Rows.{Db, Member, Conversation}
use mqtt_chat.Store.Prisma.{Prisma}
use mqtt_chat.Worker.Context.{is_some}
use mqtt_chat.Api.Reply.{
  Env, Status, Raised, http, unique_violation, record_not_found, schema_error, bad_request,
  not_found, forbidden, Attempt, done, raised, ◌>>=◌, bad, join, includes, unknown_ids,
  conversation_row, members_of, member_named, summary_of, user_event, conversation_outbox, enqueue,
}

abbrev pub is_group : ConversationType → Bool
is_group ConversationType.group = true
is_group ConversationType.direct = false

abbrev pub is_admin : MemberRole → Bool
is_admin MemberRole.admin = true
is_admin MemberRole.member = false

-- `startsWith`.
unfoldable pub starts_with : String → String → Bool
starts_with s String.[] = true
starts_with String.[] (String.◌∷◌ c p) = false
starts_with (String.◌∷◌ d s) (String.◌∷◌ c p) =
    let rest = starts_with s p in
    if Prim.Native.Char.code d == Prim.Native.Char.code c then rest else false

abbrev pub named : String → Bool
named s = not (s == "")

-- The checks of `conversationCreatedDataSchema` that a row can fail.
abbrev pub summary_parses : ConversationSummary → Bool
summary_parses s =
    named s.id
    && (not (s.member_count == 0) && all (λ (m : MemberSummary). named m.user_id) s.members)

abbrev pub tombstone_parses : Tombstone → Bool
tombstone_parses t =
    named t.id && (named t.deleted_by && (not (length t.member_ids == 0) && all named t.member_ids))

abbrev pub conversation_summary : Conversation → List Member → ConversationSummary
conversation_summary c members = record {
  id = c.id;
  type = c.type;
  title = c.title;
  member_count = length members;
  last_sequence = c.last_sequence;
  last_message_preview = none;
  last_message_at = none;
  members = map summary_of members;
  created_at = c.created_at;
}

abbrev pub tombstone : Conversation → List Member → String → ℕ → Tombstone
tombstone c members actor_user_id deleted_at = record {
  id = c.id;
  title = c.title;
  deleted_by = actor_user_id;
  deleted_at = deleted_at;
  last_sequence = c.last_sequence;
  member_ids = map (λ m. m.user_id) members;
}

-- `{ deleted: true }`, with `absent` if there was nothing to delete.
pub data Deleted : Type 0 where
  deleted absent : Deleted

abbrev pub new_member : Env → String → String → Member
new_member env conversation_id user_id = record {
  conversation_id = conversation_id;
  user_id = user_id;
  role = MemberRole.member;
  last_read_sequence = 0;
  last_delivered_sequence = 0;
  joined_at = env.now;
}

abbrev pub is_row_of : String → String → Member → Bool
is_row_of conversation_id user_id m = m.conversation_id == conversation_id && m.user_id == user_id

module _ (P : Prisma) where
  -- The update and its event, in one transaction.
  unfoldable pub delete_transaction : Env → Conversation → List Member → String → Db → Attempt Db
  delete_transaction env c members actor_user_id db =
      let conversations =
        (P.update_many Conversation (λ x. x.id == c.id)
          (λ x. record x {
            deleted_at = some env.now;
            deleted_by = some actor_user_id;
            updated_at = env.now;
          })
          db.conversations).0 in
      let data_ = tombstone c members actor_user_id env.now in
      if tombstone_parses data_
      then enqueue P
          (conversation_outbox env "conversation.deleted" c.id
            (event_topic env.namespace EventTopic.conversation_deleted)
            (user_event env "conversation.deleted" actor_user_id c.id
              (EventData.conversation_deleted data_)))
          (record db { conversations = conversations })
      else raised schema_error

  unfoldable pub delete_conversation : Env → String → Option String → Db → Attempt (Deleted × Db)
  delete_conversation env id actor db = elim (truthy actor) [
    | none ↦ bad "Missing actor query parameter"
    | some actor_user_id ↦ elim (conversation_row P db id) [
      | none ↦ done (absent, db)
      | some c ↦
          if is_some c.deleted_at
          then done (absent, db)
          else if not (is_group c.type)
          then bad "DIRECT conversations cannot be deleted"
          else elim (member_named actor_user_id (members_of P db id)) [
            | none ↦ raised (http forbidden "FORBIDDEN" "Only a group admin can delete the group")
            | some m ↦
                if not (is_admin m.role)
                then raised (http forbidden "FORBIDDEN" "Only a group admin can delete the group")
                else do
                  db' ← delete_transaction env c (members_of P db id) actor_user_id db
                  done (deleted, db')
          ]
    ]
  ]

  -- The summary of the conversation as the transaction has left it, sent to its members; `event_data`
  -- adds who joined or left.
  unfoldable pub emit_members_changed :
      Env
      → String
      → String
      → String
      → EventTopic
      → (ConversationSummary → EventData)
      → Bool
      → Db
      → Attempt (Conversation × Db)
  emit_members_changed env conversation_id actor_user_id event_type topic event_data changed_parses
        db =
      elim (conversation_row P db conversation_id) [
        | none ↦ raised record_not_found
        | some c ↦
            let summary = conversation_summary c (members_of P db conversation_id) in
            if not (summary_parses summary && changed_parses) then raised schema_error else do
              db' ←
                  enqueue P
                    (conversation_outbox env event_type conversation_id
                      (event_topic env.namespace topic)
                      (user_event env event_type actor_user_id conversation_id
                        (event_data summary)))
                    db
              done (c, db')
      ]

  -- `createMany` with `skipDuplicates`.
  unfoldable pub add_rows : Env → String → List String → List Member → List Member
  add_rows env conversation_id [] members = members
  add_rows env conversation_id (user_id ∷ user_ids) members =
      add_rows env conversation_id user_ids
        (elim (P.create Member (is_row_of conversation_id user_id)
          (new_member env conversation_id user_id) members) [ none ↦ members | some grown ↦ grown ])

  -- What follows the checks of the actor.
  unfoldable pub add_known :
      Env → String → String → List String → Db → Attempt ((ℕ × Conversation) × Db)
  add_known env id actor_user_id user_ids db =
      let users = P.find_many String (λ u. includes user_ids u) db.users in
      elim (unknown_ids users user_ids) [
        | (u ∷ us) ↦ raised (
            http not_found "USER_NOT_FOUND"
              (String.◌++◌ "Unknown userId(s): " (join ", " (u ∷ us))))
        | [] ↦ do
          (c, db') ←
              emit_members_changed env id actor_user_id "conversation.member-joined"
                EventTopic.conversation_member_joined (λ s. EventData.member_joined s user_ids)
                (not (length user_ids == 0) && all named user_ids)
                (record db { members = add_rows env id user_ids db.members })
          done ((length user_ids, c), db')
      ]

  unfoldable pub add_members :
      Env → String → Option String → List String → Db → Attempt ((ℕ × Conversation) × Db)
  add_members env id actor user_ids db = elim (truthy actor) [
    | none ↦ bad "Missing actor query parameter"
    | some actor_user_id ↦ elim (conversation_row P db id) [
      | none ↦ raised (http not_found "CONVERSATION_NOT_FOUND" "Conversation not found")
      | some c ↦
          if is_some c.deleted_at
          then raised (http not_found "CONVERSATION_NOT_FOUND" "Conversation not found")
          else if not (is_group c.type)
          then bad "Members can only be added to GROUP conversations"
          else elim (member_named actor_user_id (members_of P db id)) [
            | none ↦ raised (http forbidden "FORBIDDEN" "Only a group admin can add members")
            | some m ↦
                if not (is_admin m.role)
                then raised (http forbidden "FORBIDDEN" "Only a group admin can add members")
                else add_known env id actor_user_id user_ids db
          ]
    ]
  ]
