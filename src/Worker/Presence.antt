-- ===== src/Worker/Presence.antt =====
-- apps/chat-worker/src/handlers/presence.ts.
pub mod Devices
use Prim.Native.String
use mqtt_chat.Base.{
  ℕ, String, Option, none, some, Bool, true, false, not, List, [], ◌∷◌, ◌++◌, ◌==◌, string_eq, ◌&&◌,
  if◌then◌else◌,
}
use mqtt_chat.Contracts.Topics.{EventTopic, event_topic}
use mqtt_chat.Contracts.Envelope.{CommandEnvelope, truthy, build_event_envelope}
use mqtt_chat.Contracts.Commands.{PresenceSetCommand}
use mqtt_chat.Contracts.Events.{EventData}
use mqtt_chat.Store.Rows.{Db, Device, OutboxEvent}
use mqtt_chat.Store.Prisma.{Prisma}
use mqtt_chat.Store.Redis.{
  RedisClient, Redis, PresenceInfo, add_connection, remove_connection, touch_activity,
}
use mqtt_chat.Worker.Context.{
  Env, World, Outcome, acked, thrown, Failure, Tx, ok, fail, create_outbox, outbox_row, user_origin,
  user_actor,
}

abbrev pub presence_row :
    Env
    → CommandEnvelope PresenceSetCommand
    → String
    → String
    → String
    → EventTopic
    → PresenceInfo
    → OutboxEvent
presence_row env envelope user_id device_id event_type topic info =
    outbox_row env event_type "User" user_id (event_topic env.namespace topic) (
      build_event_envelope env.uuid env.now (record {
        event_type = event_type;
        origin = user_origin user_id;
        actor = user_actor user_id (some device_id);
        conversation_id = none;
        correlation_id = envelope.correlation_id;
        causation_id = none;
        payload = EventData.presence user_id device_id info.connection_count env.now;
      }))

abbrev pub client_id : String → String → String
client_id user_id device_id = String.◌++◌ user_id (String.◌++◌ ":" device_id)

module _ (P : Prisma) (R : RedisClient) where
  -- `db.device.upsert`, by the unique client id.
  unfoldable pub upsert_device : ℕ → String → String → List Device → List Device
  upsert_device now user_id device_id rows =
      elim (P.find_first Device (λ d. d.client_id == client_id user_id device_id) rows) [
        | some _ ↦
            (P.update_many Device (λ d. d.client_id == client_id user_id device_id)
              (λ d. record d { last_seen_at = now }) rows).0
        | none ↦
            elim (P.create Device (λ d. d.client_id == client_id user_id device_id)
              (record {
                client_id = client_id user_id device_id;
                user_id = user_id;
                platform = "web";
                last_seen_at = now;
              })
              rows) [ some rows' ↦ rows' | none ↦ rows ]
      ]

  -- The outbox row of a presence event; it is not in a transaction with the rest.
  unfoldable pub queue_presence : OutboxEvent → World → Outcome
  queue_presence row w = elim (create_outbox P row w.db.outbox) [
    | ok outbox ↦ acked (record w { db = record (w.db) { outbox = outbox } })
    | fail failure ↦ thrown failure w
  ]

  unfoldable pub go_online :
      Env → CommandEnvelope PresenceSetCommand → String → String → World → Outcome
  unfolding upsert_device queue_presence
  go_online env envelope user_id device_id w =
      let (transition, redis) = add_connection R env.now user_id device_id w.redis in
      let w' : World = record w {
        db = record (w.db) { devices = upsert_device env.now user_id device_id w.db.devices };
        redis = touch_activity env.now user_id redis;
      } in
      if not transition.changed
      then acked w'
      else queue_presence
          (presence_row env envelope user_id device_id "presence.online" EventTopic.presence_online
            transition.info)
          w'

  unfoldable pub go_offline :
      Env → CommandEnvelope PresenceSetCommand → String → String → World → Outcome
  unfolding queue_presence
  go_offline env envelope user_id device_id w =
      let (transition, redis) = remove_connection R env.now user_id device_id w.redis in
      if not transition.changed
      then acked (record w { redis = redis })
      else queue_presence
          (presence_row env envelope user_id device_id "presence.offline"
            EventTopic.presence_offline transition.info)
          (record w { redis = touch_activity env.now user_id redis })

  unfoldable pub handle_presence_set : Env → CommandEnvelope PresenceSetCommand → World → Outcome
  unfolding go_online go_offline
  handle_presence_set env envelope w = elim (truthy envelope.actor.user_id) [
    | none ↦ acked w
    | some user_id ↦ elim (truthy envelope.actor.device_id) [
      | none ↦ acked w
      | some device_id ↦
          if envelope.payload.is_online
          then go_online env envelope user_id device_id w
          else go_offline env envelope user_id device_id w
    ]
  ]
