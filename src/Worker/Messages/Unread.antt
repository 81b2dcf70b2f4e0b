-- ===== src/Worker/Messages/Unread.antt =====
-- The unread counters after a send.
use mqtt_chat.Base.{
  ◌+◌, String, none, some, Bool, false, not, ◌&&◌, List, [], ◌∷◌, ◌==◌, string_eq, if◌then◌else◌,
  find, filter, any, count, ◌≡◌, refl, ap, ◌∙◌, arith,
}
use mqtt_chat.Contracts.Envelope.{CommandEnvelope, truthy}
use mqtt_chat.Contracts.Commands.{SendMessageCommand}
use mqtt_chat.Store.Rows.{Member, Conversation}
use mqtt_chat.Store.Prisma.{Prisma, IsPrisma, tables, by_tables}
use mqtt_chat.Store.Redis.{
  RedisClient, IsRedis, Redis, cells, by_cells, increment_unread, get_unread,
}
use mqtt_chat.Worker.Context.{Env, World, after}
use mqtt_chat.Worker.Messages.Send.{
  check_send, count_unread, other_members, commit_send, handle_message_send,
}
use mqtt_chat.Worker.Messages.Sequence.{IsNumbered}
use mqtt_chat.Worker.Messages.Acceptance.{same_client, store_message-accepts, send-eq-commit}

increment-unread :
    (user_id k j u : String) (r : Redis)
    → get_unread (increment_unread cells user_id k r) u j
      ≡ get_unread r u j + (if j == k && user_id == u then 1 else 0)
unfolding increment_unread get_unread
increment-unread user_id k j u r = ground arith

count_unread-cells :
    (k j u : String) (ms : List Member) (r : Redis)
    → get_unread (count_unread cells k ms r) u j
      ≡ get_unread r u j + (if j == k then count (λ m. m.user_id == u) ms else 0)
unfolding count_unread
count_unread-cells k j u [] r = ground arith
count_unread-cells k j u (m ∷ ms) r = ground (
  arith,
  count_unread-cells k j u ms (increment_unread cells m.user_id k r),
  increment-unread m.user_id k j u r,
)

-- The rows that make `u` another member of the conversation than the sender.
abbrev pub is_recipient : String → String → String → Member → Bool
is_recipient k sender u m = m.conversation_id == k && (m.user_id == u && not (u == sender))

count-others :
    (k sender u : String) (ms : List Member)
    → count
        (λ m. m.user_id == u)
        (filter (λ m. m.conversation_id == k && not (m.user_id == sender)) ms)
      ≡ count (is_recipient k sender u) ms
count-others k sender u [] = refl
count-others k sender u (m ∷ ms) = ground (arith, count-others k sender u ms)

module _ (env : Env) (envelope : CommandEnvelope SendMessageCommand) (w : World)
    (user_id : String) where
  abbrev k : String
  k = envelope.payload.conversation_id

  accepted-redis :
      (R : RedisClient) (c : Conversation)
      → IsNumbered w.db
      → truthy envelope.actor.user_id ≡ some user_id
      → check_send tables w.db envelope.payload user_id ≡ none
      → find (λ c. c.id == k) w.db.conversations ≡ some c
      → any (same_client envelope.payload) w.db.messages ≡ false
      → (after (handle_message_send tables R env envelope w)).redis
        ≡ count_unread R k (other_members tables w.db k user_id) w.redis
  unfolding commit_send
  accepted-redis R c numbered identified allowed exists fresh =
      ap (λ o. (after o).redis) (send-eq-commit R env envelope w user_id identified allowed)
      ∙ ground (arith, store_message-accepts env envelope user_id w.db c numbered exists fresh)

-- A send that is accepted raises the unread counter of the conversation by one for each row that makes a
-- user a member of it, other than the sender, and leaves the sender's counters and those of every
-- other conversation and user as they were.
pub send_unread :
    (P : Prisma) (h : IsPrisma P) (R : RedisClient) (s : IsRedis R) (env : Env)
    (envelope : CommandEnvelope SendMessageCommand) (w : World) (user_id : String)
    (c : Conversation) (j u : String)
    → IsNumbered w.db
    → truthy envelope.actor.user_id ≡ some user_id
    → check_send P w.db envelope.payload user_id ≡ none
    → find (λ c. c.id == envelope.payload.conversation_id) w.db.conversations ≡ some c
    → any (same_client envelope.payload) w.db.messages ≡ false
    → get_unread (after (handle_message_send P R env envelope w)).redis u j
      ≡ get_unread w.redis u j
        + (if j == envelope.payload.conversation_id
            then count (is_recipient envelope.payload.conversation_id user_id u) w.db.members
            else 0)
send_unread P h R s env envelope w user_id c j u numbered identified =
    by_tables
      (λ P.
        check_send P w.db envelope.payload user_id ≡ none
        → find (λ c. c.id == envelope.payload.conversation_id) w.db.conversations ≡ some c
        → any (same_client envelope.payload) w.db.messages ≡ false
        → get_unread (after (handle_message_send P R env envelope w)).redis u j
          ≡ get_unread w.redis u j
            + (if j == envelope.payload.conversation_id
                then count (is_recipient envelope.payload.conversation_id user_id u) w.db.members
                else 0))
      h
      (λ allowed exists fresh.
        by_cells
          (λ R.
            get_unread (after (handle_message_send tables R env envelope w)).redis u j
            ≡ get_unread w.redis u j
              + (if j == envelope.payload.conversation_id
                  then count (is_recipient envelope.payload.conversation_id user_id u) w.db.members
                  else 0))
          s
          (ap (λ r. get_unread r u j)
              (accepted-redis env envelope w user_id cells c numbered identified allowed exists
                fresh)
            ∙ count_unread-cells envelope.payload.conversation_id j u
                (other_members tables w.db envelope.payload.conversation_id user_id) w.redis
            ∙ ground (arith, count-others envelope.payload.conversation_id user_id u w.db.members)))
