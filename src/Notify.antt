-- ===== src/Notify.antt =====
-- apps/notification-worker/src/index.ts, and `NotificationDeliveryRepository` of packages/redis/src/index.ts. The
-- provider, and what Redis answers, are parameters.
pub mod Offline
use mqtt_chat.Base.{
  ℕ, ◌+◌, String, Option, none, some, Bool, true, false, not, ◌&&◌, List, [], ◌∷◌, ◌++◌, ◌==◌,
  string_eq, if◌then◌else◌,
}
use Prim.Native.String.{◌++◌ as ◌+++◌}
use mqtt_chat.Contracts.Commands.{MessageType}
use mqtt_chat.Contracts.Events.{MessageEventData, SenderType}
use mqtt_chat.Store.Rows.{Member}
use mqtt_chat.Store.Prisma.{Prisma}
use mqtt_chat.Store.Redis.{Redis, is_online, update₂}

pub record NotificationPayload : Type 0 where
  pub recipient_id : String
  pub conversation_id : String
  pub message_id : String
  pub sender_id : String
  pub preview : String

-- The audit trail: when a delivery was recorded, and until when it is kept.
pub record Delivery : Type 0 where
  pub payload : NotificationPayload
  pub provider : String
  pub delivered_at : ℕ
  pub expires : ℕ

-- What was sent, the earliest first, and the trail by recipient and message.
pub record Notified : Type 0 where
  pub sent : List NotificationPayload
  pub deliveries : String → String → Option Delivery

pub record Surroundings : Type 0 where
  pub now : ℕ
  pub provider : String
  -- whether `send` succeeds
  pub takes : NotificationPayload → Bool
  -- whether Redis answers for a user, and takes the record of a delivery
  pub reads : String → Bool
  pub writes : String → Bool
  -- `slice(0, 120)`
  pub first_120 : String → String

abbrev type_name : MessageType → String
type_name MessageType.text = "text"
type_name MessageType.image = "image"
type_name MessageType.video = "video"
type_name MessageType.file = "file"
type_name MessageType.voice = "voice"
type_name MessageType.system = "system"

abbrev is_text : MessageType → Bool
is_text MessageType.text = true
is_text _ = false

abbrev pub is_system : SenderType → Bool
is_system SenderType.system = true
is_system _ = false

-- `recordDelivery`: kept for ten minutes.
unfoldable pub record_delivery :
    ℕ → String → String → NotificationPayload → String → Notified → Notified
record_delivery now recipient_id message_id payload provider n = record n {
  deliveries = update₂ n.deliveries recipient_id message_id (
      some (record {
        payload = payload;
        provider = provider;
        delivered_at = now;
        expires = now + 600000;
      }));
}

module _ (P : Prisma) (S : Surroundings) where
  unfoldable pub payload_for : MessageEventData → String → NotificationPayload
  payload_for data_of user_id = record {
    recipient_id = user_id;
    conversation_id = data_of.conversation_id;
    message_id = data_of.message_id;
    sender_id = data_of.sender_id;
    preview =
        if is_text data_of.type
        then S.first_120 data_of.content
        else "[" +++ (type_name data_of.type +++ "]");
  }

  -- A user whose presence cannot be read counts as online.
  abbrev pub counts_online : Redis → String → Bool
  counts_online redis user_id = if S.reads user_id then is_online redis user_id else true

  -- What is done for one member; an error of the provider or of the trail is logged.
  unfoldable pub notify_member : Redis → MessageEventData → Notified → Member → Notified
  unfolding payload_for record_delivery is_online
  notify_member redis data_of n m =
      let payload = payload_for data_of m.user_id in
      let n' : Notified = record n { sent = n.sent ++ payload ∷ [] } in
      if counts_online redis m.user_id
      then n
      else if not (S.takes payload)
      then n
      else if S.writes m.user_id
      then record_delivery S.now m.user_id data_of.message_id payload S.provider n'
      else n'

  unfoldable pub notify_all : Redis → MessageEventData → List Member → Notified → Notified
  unfolding notify_member
  notify_all redis data_of [] n = n
  notify_all redis data_of (m ∷ ms) n =
      notify_all redis data_of ms (notify_member redis data_of n m)

  unfoldable pub handle_message_created :
      Redis → List Member → MessageEventData → Notified → Notified
  unfolding notify_all
  handle_message_created redis members data_of n =
      let recipients =
        P.find_many Member
          (λ m.
            m.conversation_id == data_of.conversation_id && not (m.user_id == data_of.sender_id))
          members in
      if is_system data_of.sender_type then n else notify_all redis data_of recipients n
