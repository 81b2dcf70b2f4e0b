-- ===== src/Client/Normalize/Canonical.antt =====
-- What the boundary makes of a message that is canonical already.
use mqtt_chat.Base.{
  ℕ, String, Option, none, some, false, List, [], ◌∷◌, ◌==◌, string_eq, ◌≡◌, refl, ap, arith,
  ==_iff, string_discrete,
}
use mqtt_chat.Contracts.Commands.{MessageType}
use mqtt_chat.Contracts.Events.{ReactionRef, SenderType}
use mqtt_chat.Bots.Value.{
  Value, null, number, string, array, object, Items, nil, cons, empty, field,
}
use mqtt_chat.Client.Normalize.{
  NormalizedMessage, Metadata, entries, listed, normalize_message, as_string, as_nullable,
  reactions_in, sender_type_of, message_type_of, metadata_of, count_or,
}

abbrev sender_text : SenderType → String
sender_text SenderType.user = "USER"
sender_text SenderType.bot = "BOT"
sender_text SenderType.system = "SYSTEM"

abbrev type_text : MessageType → String
type_text MessageType.text = "TEXT"
type_text MessageType.image = "IMAGE"
type_text MessageType.video = "VIDEO"
type_text MessageType.file = "FILE"
type_text MessageType.voice = "VOICE"
type_text MessageType.system = "SYSTEM"

-- A text that is there is not empty.
abbrev pub IsFilled : Option String → Type 0
IsFilled none = Unit
IsFilled (some s) = (s == "") ≡ false

module _ {N : Type 0} where
  abbrev nullable : Option String → Value N
  nullable none = null
  nullable (some s) = string s

  abbrev reaction_values : List ReactionRef → Items N
  reaction_values [] = nil
  reaction_values (r ∷ rs) =
      cons (object (field "emoji" (string r.emoji) (field "userId" (string r.user_id) empty)))
        (reaction_values rs)

  abbrev metadata_value : Option (Metadata N) → Value N
  metadata_value none = null
  metadata_value (some (entries fields)) = object fields
  metadata_value (some (listed xs)) = array xs

  -- The message as the JSON that a client or the API would make of it.
  abbrev pub message_value : (ℕ → N) → NormalizedMessage N → Value N
  message_value of_nat m = object (
      field "id" (string m.id) (
        field "clientMessageId" (string m.client_message_id) (
          field "conversationId" (string m.conversation_id) (
            field "senderId" (string m.sender_id) (
              field "senderType" (string (sender_text m.sender_type)) (
                field "senderName" (string m.sender_name) (
                  field "sequence" (number (of_nat m.sequence)) (
                    field "type" (string (type_text m.type)) (
                      field "content" (string m.content) (
                        field "replyToId" (nullable m.reply_to_id) (
                          field "metadata" (metadata_value m.metadata) (
                            field "reactions" (array (reaction_values m.reactions)) (
                              field "createdAt" (string m.created_at) (
                                field "editedAt" (nullable m.edited_at)
                                  (field "deletedAt" (nullable m.deleted_at) empty)))))))))))))))

module _ (N : Type 0) where
  filled-text : (s t : String) → (s == "") ≡ false → as_string {N = N} (string s) t ≡ s
  unfolding as_string as_nullable
  filled-text s t h = rw h refl

  any-text : (s : String) → as_string {N = N} (string s) "" ≡ s
  unfolding as_string as_nullable
  any-text s = ground (arith, ==_iff s "")

  filled-nullable : (o : Option String) → IsFilled o → as_nullable {N = N} (nullable o) ≡ o
  unfolding as_nullable
  filled-nullable none h = refl
  filled-nullable (some s) h = rw h refl

  same-sender : (t : SenderType) → sender_type_of {N = N} (string (sender_text t)) ≡ t
  unfolding string_discrete
  same-sender SenderType.user = refl
  same-sender SenderType.bot = refl
  same-sender SenderType.system = refl

  same-type : (t : MessageType) → message_type_of {N = N} (string (type_text t)) ≡ t
  unfolding string_discrete
  same-type MessageType.text = refl
  same-type MessageType.image = refl
  same-type MessageType.video = refl
  same-type MessageType.file = refl
  same-type MessageType.voice = refl
  same-type MessageType.system = refl

  same-metadata : (o : Option (Metadata N)) → metadata_of (metadata_value o) ≡ o
  same-metadata none = refl
  same-metadata (some (entries fields)) = refl
  same-metadata (some (listed xs)) = refl

  same-reactions : (rs : List ReactionRef) → reactions_in {N = N} (reaction_values rs) ≡ rs
  unfolding reactions_in string_discrete
  same-reactions [] = refl
  same-reactions (r ∷ rs) = ap (λ l. r ∷ l) (same-reactions rs)

  -- A message in the canonical form, written as JSON and normalized, is the same message, if its sender, its sender's
  -- name and its date are not empty, nor the other texts that it has.
  pub normalize_canonical :
      (to_count : Value N → Option ℕ) (of_nat : ℕ → N) (m : NormalizedMessage N)
      → ((n : ℕ) → to_count (number (of_nat n)) ≡ some n)
      → (m.sender_id == "") ≡ false
      → (m.sender_name == "") ≡ false
      → (m.created_at == "") ≡ false
      → IsFilled m.reply_to_id
      → IsFilled m.edited_at
      → IsFilled m.deleted_at
      → normalize_message to_count (message_value of_nat m) ≡ m
  unfolding normalize_message string_discrete
  normalize_canonical to_count of_nat m counts sender name date reply edited deleted =
      let count_at : count_or to_count (number (of_nat m.sequence)) 0 ≡ m.sequence =
        ground (arith, counts m.sequence) in
      λ i. record {
        id = any-text m.id i;
        client_message_id = any-text m.client_message_id i;
        conversation_id = any-text m.conversation_id i;
        sender_id = filled-text m.sender_id "unknown" sender i;
        sender_type = same-sender m.sender_type i;
        sender_name =
            filled-text m.sender_name (as_string {N = N} (string m.sender_id) "unknown") name i;
        sequence = count_at i;
        type = same-type m.type i;
        content = m.content;
        reply_to_id = filled-nullable m.reply_to_id reply i;
        metadata = same-metadata m.metadata i;
        reactions = same-reactions m.reactions i;
        created_at = filled-text m.created_at "1970-01-01T00:00:00.000Z" date i;
        edited_at = filled-nullable m.edited_at edited i;
        deleted_at = filled-nullable m.deleted_at deleted i;
      }
