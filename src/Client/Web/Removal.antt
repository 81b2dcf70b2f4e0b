-- ===== src/Client/Web/Removal.antt =====
-- What a deleted conversation leaves in the web client.
use mqtt_chat.Base.{
  String, none, some, false, not, List, [], ◌∷◌, filter, any, ◌==◌, string_eq, if◌then◌else◌, ◌≡◌,
  ◌≢◌, refl, arith, ==_refl,
}
use mqtt_chat.Client.Model.{PendingMessage}
use mqtt_chat.Client.Conversations.{NormalizedConversation}
use mqtt_chat.Client.Dict.{get, get-drop}
use mqtt_chat.Client.Web.{ChatState, remove_conversation}

none-listed :
    (id : String) (cs : List NormalizedConversation)
    → any (λ c. c.id == id) (filter (λ c. not (c.id == id)) cs) ≡ false
none-listed id [] = refl
none-listed id (c ∷ cs) = ground (arith, none-listed id cs)

none-pending :
    (id : String) (ps : List PendingMessage)
    → any (λ p. p.conversation_id == id) (filter (λ p. not (p.conversation_id == id)) ps) ≡ false
none-pending id [] = refl
none-pending id (p ∷ ps) = ground (arith, none-pending id ps)

-- After a conversation is removed there is no entity of it, no cached message and no pending send, and it is not open; the
-- messages of every other conversation are there as before.
pub no_trace :
    (id other : String) (s : ChatState)
    → let next = remove_conversation id s in
      (any (λ c. c.id == id) next.conversations ≡ false)
      × (any (λ p. p.conversation_id == id) next.pending_messages ≡ false)
      × (get other next.messages_by_conversation
          ≡ (if id == other then none else get other s.messages_by_conversation))
      × (next.active_conversation_id ≢ some id)
unfolding remove_conversation
no_trace id other s = (
  none-listed id s.conversations,
  none-pending id s.pending_messages,
  get-drop id other s.messages_by_conversation,
  λ open_. ground (arith, ==_refl id),
)
