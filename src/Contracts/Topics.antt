-- ===== src/Contracts/Topics.antt =====
-- packages/mqtt-contracts/src/topics.ts: the topic names, under a namespace that the process
-- takes from its environment.
use mqtt_chat.Base.{String}
use Prim.Native.String.{◌++◌}
use mqtt_chat.Base.Uri.{encode_uri_component}

-- `CommandTopicKey`.
pub data CommandTopic : Type 0 where
  message_send message_edit message_delete reaction_add reaction_remove : CommandTopic
  receipt_read receipt_delivered typing_set presence_set bot_send : CommandTopic

abbrev command_path : CommandTopic → String
command_path message_send = "/commands/message/send"
command_path message_edit = "/commands/message/edit"
command_path message_delete = "/commands/message/delete"
command_path reaction_add = "/commands/reaction/add"
command_path reaction_remove = "/commands/reaction/remove"
command_path receipt_read = "/commands/receipt/read"
command_path receipt_delivered = "/commands/receipt/delivered"
command_path typing_set = "/commands/typing/set"
command_path presence_set = "/commands/presence/set"
command_path bot_send = "/commands/bot/send"

-- `COMMAND_TOPICS[key]`.
unfoldable pub command_topic : String → CommandTopic → String
command_topic namespace key = namespace ++ command_path key

-- `EventTopicKey`.
pub data EventTopic : Type 0 where
  message_created message_edited message_deleted message_rejected : EventTopic
  reaction_added reaction_removed : EventTopic
  receipt_delivered receipt_read : EventTopic
  typing_started typing_stopped : EventTopic
  presence_online presence_offline : EventTopic
  conversation_created conversation_updated conversation_deleted : EventTopic
  conversation_member_joined conversation_member_left : EventTopic
  media_uploaded system_error : EventTopic

abbrev event_path : EventTopic → String
event_path message_created = "/events/message/created"
event_path message_edited = "/events/message/edited"
event_path message_deleted = "/events/message/deleted"
event_path message_rejected = "/events/message/rejected"
event_path reaction_added = "/events/reaction/added"
event_path reaction_removed = "/events/reaction/removed"
event_path receipt_delivered = "/events/receipt/delivered"
event_path receipt_read = "/events/receipt/read"
event_path typing_started = "/events/typing/started"
event_path typing_stopped = "/events/typing/stopped"
event_path presence_online = "/events/presence/online"
event_path presence_offline = "/events/presence/offline"
event_path conversation_created = "/events/conversation/created"
event_path conversation_updated = "/events/conversation/updated"
event_path conversation_deleted = "/events/conversation/deleted"
event_path conversation_member_joined = "/events/conversation/member-joined"
event_path conversation_member_left = "/events/conversation/member-left"
event_path media_uploaded = "/events/media/uploaded"
event_path system_error = "/events/system/error"

-- `EVENT_TOPICS[key]`.
unfoldable pub event_topic : String → EventTopic → String
event_topic namespace key = namespace ++ event_path key

unfoldable pub user_event_topic : String → String → String → String
user_event_topic namespace user_id event =
    namespace ++ ("/users/" ++ (encode_uri_component user_id ++ ("/events/" ++ event)))

unfoldable pub user_events_wildcard_topic : String → String → String
user_events_wildcard_topic namespace user_id =
    namespace ++ ("/users/" ++ (encode_uri_component user_id ++ "/events/#"))

unfoldable pub conversation_event_topic : String → String → String → String
conversation_event_topic namespace conversation_id suffix =
    namespace
    ++ ("/conversations/" ++ (encode_uri_component conversation_id ++ ("/events/" ++ suffix)))

unfoldable pub bot_events_topic : String → String → String
bot_events_topic namespace bot_id =
    namespace ++ ("/bots/" ++ (encode_uri_component bot_id ++ "/events"))

-- `SUBSCRIPTION_PATTERNS`.
unfoldable pub all_commands : String → String
all_commands namespace = namespace ++ "/commands/#"

unfoldable pub all_events : String → String
all_events namespace = namespace ++ "/events/#"

unfoldable pub shared_subscription : String → String → String
shared_subscription group pattern_ = "$share/" ++ (group ++ ("/" ++ pattern_))
