-- ===== src/Worker/Receipts.antt =====
-- apps/chat-worker/src/handlers/receipts.ts. A handler is two parts, as other transactions may
-- commit between them: it reads the membership, and it advances the mark if that is still behind.
pub mod Marks
pub mod Race
pub mod Bounded
pub mod Advance
use Prim.Native.String
use mqtt_chat.Base.{
  ℕ, zero, suc, String, Option, none, some, Bool, true, false, not, ◌&&◌, List, [], ◌∷◌, ◌++◌, map,
  min, ◌==◌, string_eq, nat_eq, if◌then◌else◌, leb, ltb,
}
use mqtt_chat.Contracts.Topics.{user_event_topic}
use mqtt_chat.Contracts.Envelope.{CommandEnvelope, truthy, EventEnvelope, build_event_envelope}
use mqtt_chat.Contracts.Commands.{ReadReceiptCommand, DeliveredReceiptCommand}
use mqtt_chat.Contracts.Events.{EventData}
use mqtt_chat.Store.Rows.{Db, Member, Conversation, OutboxEvent}
use mqtt_chat.Store.Prisma.{Prisma}
use mqtt_chat.Store.Redis.{RedisClient, Redis, reset_unread}
use mqtt_chat.Worker.Context.{
  Env, World, Outcome, acked, thrown, Failure, unique_violation, Tx, ok, fail, ◌>>=◌, or_fail,
  find_member, find_conversation, create_outbox, outbox_row, user_origin, user_actor,
}

-- `membership.conversation.lastSequence`, through the relation of the row.
abbrev pub conversation_last : Option Conversation → ℕ
conversation_last none = 0
conversation_last (some c) = c.last_sequence

abbrev pub read_row : Env → EventEnvelope EventData → String → String → OutboxEvent
read_row env event conversation_id recipient =
    outbox_row env "receipt.read" "ConversationMember"
      (String.◌++◌ conversation_id (String.◌++◌ ":" recipient))
      (user_event_topic env.namespace recipient "receipt/read") event

abbrev pub delivered_row : Env → EventEnvelope EventData → String → String → OutboxEvent
delivered_row env event conversation_id recipient =
    outbox_row env "receipt.delivered" "ConversationMember"
      (String.◌++◌ conversation_id (String.◌++◌ ":" recipient))
      (user_event_topic env.namespace recipient "receipt/delivered") event

abbrev pub read_event :
    Env → CommandEnvelope ReadReceiptCommand → String → ℕ → EventEnvelope EventData
read_event env envelope user_id accepted = build_event_envelope env.uuid env.now (record {
  event_type = "receipt.read";
  origin = user_origin user_id;
  actor = user_actor user_id envelope.actor.device_id;
  conversation_id = some envelope.payload.conversation_id;
  correlation_id = envelope.correlation_id;
  causation_id = none;
  payload = EventData.receipt_read envelope.payload.conversation_id user_id accepted;
})

abbrev pub delivered_event :
    Env → CommandEnvelope DeliveredReceiptCommand → String → ℕ → EventEnvelope EventData
delivered_event env envelope user_id accepted = build_event_envelope env.uuid env.now (record {
  event_type = "receipt.delivered";
  origin = user_origin user_id;
  actor = user_actor user_id envelope.actor.device_id;
  conversation_id = some envelope.payload.conversation_id;
  correlation_id = envelope.correlation_id;
  causation_id = none;
  payload = EventData.receipt_delivered envelope.payload.conversation_id user_id accepted;
})

abbrev pub is_member_of : String → String → Member → Bool
is_member_of conversation_id user_id m =
    m.conversation_id == conversation_id && m.user_id == user_id

module _ (P : Prisma) where
  -- `tx.outboxEvent.createMany`.
  abbrev pub create_many : List OutboxEvent → List OutboxEvent → Tx (List OutboxEvent)
  create_many [] rows = ok rows
  create_many (r ∷ rs) rows = create_outbox P r rows >>= create_many rs

  -- The sequence that is accepted, if the mark that was read lies behind it.
  unfoldable pub read_phase : String → ℕ → String → Db → Option ℕ
  read_phase conversation_id sequence user_id db = elim (find_member P db conversation_id user_id) [
    | none ↦ none
    | some m ↦
        let accepted = min sequence (conversation_last (find_conversation P db conversation_id)) in
        if leb accepted m.last_read_sequence then none else some accepted
  ]

  -- Compare and advance, then one event for each member.
  unfoldable pub advance_phase :
      Env → CommandEnvelope ReadReceiptCommand → String → ℕ → Db → Tx (Bool × Db)
  advance_phase env envelope user_id accepted db =
      let k = envelope.payload.conversation_id in
      let (members, count) =
        P.update_many Member (λ m. is_member_of k user_id m && ltb m.last_read_sequence accepted)
          (λ m. record m { last_read_sequence = accepted }) db.members in
      if count == 0 then ok (false, db) else do
        let recipients = P.find_many Member (λ m. m.conversation_id == k) members
        let event = read_event env envelope user_id accepted
        outbox ←
            create_many (map (λ (m : Member). read_row env event k m.user_id) recipients) db.outbox
        ok (true, record db { members = members; outbox = outbox })

  unfoldable pub read_transaction :
      Env → CommandEnvelope ReadReceiptCommand → String → Db → Tx (Bool × Db)
  read_transaction env envelope user_id db =
      elim (read_phase envelope.payload.conversation_id envelope.payload.last_read_sequence user_id
        db) [
          | none ↦ ok (false, db)
          | some accepted ↦ advance_phase env envelope user_id accepted db
        ]

  unfoldable pub handle_receipt_read :
      RedisClient → Env → CommandEnvelope ReadReceiptCommand → World → Outcome
  unfolding read_transaction
  handle_receipt_read R env envelope w = elim (truthy envelope.actor.user_id) [
    | none ↦ acked w
    | some user_id ↦ elim (read_transaction env envelope user_id w.db) [
      | fail failure ↦ thrown failure w
      | ok (advanced, db) ↦ acked (record w {
        db = db;
        redis =
            if advanced
            then reset_unread R user_id envelope.payload.conversation_id w.redis
            else w.redis;
      })
    ]
  ]

  unfoldable pub delivered_phase : String → ℕ → String → Db → Option ℕ
  delivered_phase conversation_id sequence user_id db =
      elim (find_member P db conversation_id user_id) [
        | none ↦ none
        | some m ↦
            let accepted =
              min sequence (conversation_last (find_conversation P db conversation_id)) in
            if leb accepted m.last_delivered_sequence then none else some accepted
      ]

  -- As for a read, but the reader gets no event.
  unfoldable pub advance_delivered :
      Env → CommandEnvelope DeliveredReceiptCommand → String → ℕ → Db → Tx Db
  advance_delivered env envelope user_id accepted db =
      let k = envelope.payload.conversation_id in
      let (members, count) =
        P.update_many Member
          (λ m. is_member_of k user_id m && ltb m.last_delivered_sequence accepted)
          (λ m. record m { last_delivered_sequence = accepted }) db.members in
      if count == 0 then ok db else do
        let others =
            P.find_many Member (λ m. m.conversation_id == k && not (m.user_id == user_id)) members
        let event = delivered_event env envelope user_id accepted
        outbox ←
            create_many (map (λ (m : Member). delivered_row env event k m.user_id) others) db.outbox
        ok (record db { members = members; outbox = outbox })

  unfoldable pub handle_receipt_delivered :
      Env → CommandEnvelope DeliveredReceiptCommand → World → Outcome
  handle_receipt_delivered env envelope w = elim (truthy envelope.actor.user_id) [
    | none ↦ acked w
    | some user_id ↦
        elim (delivered_phase envelope.payload.conversation_id
          envelope.payload.last_delivered_sequence user_id w.db) [
            | none ↦ acked w
            | some accepted ↦ elim (advance_delivered env envelope user_id accepted w.db) [
              | fail failure ↦ thrown failure w
              | ok db ↦ acked (record w { db = db })
            ]
          ]
  ]
