-- ===== src/Client/Normalize.antt =====
-- `normalizeConversation` and `normalizeMessage` of packages/realtime-core/src/index.ts: from what comes over the wire
-- to what the clients show. Of a role only ADMIN and MEMBER are told apart; a count is a natural number,
-- and what JavaScript's `Number` makes of a value is a parameter.
pub mod Canonical
use mqtt_chat.Base.{
  ℕ, String, Option, none, some, Bool, true, false, not, ◌&&◌, List, [], ◌∷◌, ◌==◌, string_eq,
  if◌then◌else◌, length, filter,
}
use mqtt_chat.Contracts.Commands.{MessageType}
use mqtt_chat.Contracts.Events.{
  ReactionRef, MemberSummary, MemberRole, ConversationType, SenderType,
}
use mqtt_chat.Bots.Value.{
  Value, undefined, null, string, array, object, Items, nil, cons, Fields, empty, own_field,
}
use mqtt_chat.Client.Conversations.{NormalizedConversation}

-- `metadata`: whatever JavaScript takes for an object, an array too.
pub data Metadata (N : Type 0) : Type 0 where
  entries : Fields N → Metadata N
  listed : Items N → Metadata N

pub record NormalizedMessage (N : Type 0) : Type 0 where
  pub id : String
  pub client_message_id : String
  pub conversation_id : String
  pub sender_id : String
  pub sender_type : SenderType
  pub sender_name : String
  pub sequence : ℕ
  pub type : MessageType
  pub content : String
  pub reply_to_id : Option String
  pub metadata : Option (Metadata N)
  pub reactions : List ReactionRef
  pub created_at : String
  pub edited_at : Option String
  pub deleted_at : Option String

abbrev pub filled : String → Option String
filled s = if s == "" then none else some s

abbrev or_else : Option String → String → String
or_else none t = t
or_else (some s) t = s

abbrev pub role_of : String → MemberRole
role_of s = if s == "ADMIN" then MemberRole.admin else MemberRole.member

module _ {N : Type 0} where
  -- `asNullableIso`.
  unfoldable pub as_nullable : Value N → Option String
  as_nullable (string s) = filled s
  as_nullable _ = none

  unfoldable pub as_string : Value N → String → String
  unfolding as_nullable
  as_string v fallback = or_else (as_nullable v) fallback

  abbrev pub source_of : Value N → Fields N
  source_of (object fields) = fields
  source_of _ = empty

  abbrev pub read : Fields N → String → Value N
  read fields key = elim (own_field key fields) [ none ↦ undefined | some v ↦ v ]

  abbrev pub content_text : Value N → String
  content_text (string s) = s
  content_text _ = ""

  abbrev text : Value N → Option String
  text (string s) = some s
  text _ = none

  -- `a ?? b`.
  abbrev pub coalesce : Value N → Value N → Value N
  coalesce undefined b = b
  coalesce null b = b
  coalesce a b = a

  -- A reaction whose two parts are texts, or nothing.
  abbrev reaction_in : Value N → List ReactionRef → List ReactionRef
  reaction_in v rest = elim (text (read (source_of v) "emoji")) [
    | none ↦ rest
    | some emoji ↦ elim (text (read (source_of v) "userId")) [
      | none ↦ rest
      | some user_id ↦ record { emoji = emoji; user_id = user_id } ∷ rest
    ]
  ]

  unfoldable pub reactions_in : Items N → List ReactionRef
  reactions_in nil = []
  reactions_in (cons v vs) = reaction_in v (reactions_in vs)

  abbrev pub reactions_of : Value N → List ReactionRef
  reactions_of (array items) = reactions_in items
  reactions_of _ = []

  abbrev pub sender_type_of : Value N → SenderType
  sender_type_of (string s) =
      if s == "BOT"
      then SenderType.bot
      else if s == "SYSTEM"
      then SenderType.system
      else SenderType.user
  sender_type_of _ = SenderType.user

  abbrev pub message_type_of : Value N → MessageType
  message_type_of (string s) =
      if s == "IMAGE"
      then MessageType.image
      else if s == "VIDEO"
      then MessageType.video
      else if s == "FILE"
      then MessageType.file
      else if s == "VOICE"
      then MessageType.voice
      else if s == "SYSTEM"
      then MessageType.system
      else MessageType.text
  message_type_of _ = MessageType.text

  abbrev pub metadata_of : Value N → Option (Metadata N)
  metadata_of (object fields) = some (entries fields)
  metadata_of (array xs) = some (listed xs)
  metadata_of _ = none

  abbrev pub conversation_type_of : Value N → ConversationType
  conversation_type_of (string s) =
      if s == "DIRECT" then ConversationType.direct else ConversationType.group
  conversation_type_of _ = ConversationType.group

  abbrev is_object : Value N → Bool
  is_object (object fields) = true
  is_object (array items) = true
  is_object _ = false

  -- `to_count` is `Number(v)`, where that is finite.
  module _ (to_count : Value N → Option ℕ) where
    abbrev pub count_or : Value N → ℕ → ℕ
    count_or v fallback = elim (to_count v) [ none ↦ fallback | some n ↦ n ]

    unfoldable pub member_of : Value N → MemberSummary
    unfolding as_string
    member_of v =
        let m = source_of v in
        record {
          user_id = as_string (read m "userId") "";
          role = role_of (as_string (read m "role") "MEMBER");
          last_read_sequence = count_or (read m "lastReadSequence") 0;
        }

    -- An entry that is no object, or has no user id, is dropped.
    unfoldable pub members_in : Items N → List MemberSummary
    unfolding member_of
    members_in nil = []
    members_in (cons v vs) =
        let rest = members_in vs in
        if is_object v && not ((member_of v).user_id == "") then member_of v ∷ rest else rest

    abbrev pub members_of : Value N → List MemberSummary
    members_of (array items) = members_in items
    members_of _ = []

    unfoldable pub normalize_conversation : Value N → NormalizedConversation
    unfolding as_string as_nullable members_in
    normalize_conversation raw =
        let source = source_of raw in
        let members = members_of (read source "members") in
        record {
          id = as_string (read source "id") "";
          type = conversation_type_of (read source "type");
          title = as_nullable (read source "title");
          member_count = count_or (read source "memberCount") (length members);
          last_sequence = count_or (read source "lastSequence") 0;
          last_message_preview = as_nullable (read source "lastMessagePreview");
          last_message_at = as_nullable (read source "lastMessageAt");
          members = members;
        }

    -- The dates of a row that has none: `new Date(0).toISOString()`.
    unfoldable pub normalize_message : Value N → NormalizedMessage N
    unfolding as_string as_nullable reactions_in
    normalize_message raw =
        let source = source_of raw in
        let sender_id = as_string (read source "senderId") "unknown" in
        record {
          id = as_string (coalesce (read source "id") (read source "messageId")) "";
          client_message_id = as_string (read source "clientMessageId") "";
          conversation_id = as_string (read source "conversationId") "";
          sender_id = sender_id;
          sender_type = sender_type_of (read source "senderType");
          sender_name = as_string (read source "senderName") sender_id;
          sequence = count_or (read source "sequence") 0;
          type = message_type_of (read source "type");
          content = content_text (read source "content");
          reply_to_id = as_nullable (read source "replyToId");
          metadata = metadata_of (read source "metadata");
          reactions = reactions_of (read source "reactions");
          created_at = as_string (read source "createdAt") "1970-01-01T00:00:00.000Z";
          edited_at = as_nullable (read source "editedAt");
          deleted_at = as_nullable (read source "deletedAt");
        }
