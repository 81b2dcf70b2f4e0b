-- ===== src/Tests/Sending.antt =====
-- Messages: sends, edits, deletions, and the sends of bots.
use mqtt_chat.Base.{
  ℕ, suc, String, string_discrete, Option, none, some, Bool, true, false, List, [], ◌∷◌, ◌++◌, ◌&&◌,
  ◌==◌, string_eq, find, any, ◌≡◌, refl, ◌⊎◌, arith, map,
}
use mqtt_chat.Contracts.Envelope.{CommandEnvelope, truthy}
use mqtt_chat.Contracts.Commands.{
  MessageType, SendMessageCommand, EditMessageCommand, DeleteMessageCommand, BotSendCommand,
}
use mqtt_chat.Store.Prisma.{tables, tables-IsPrisma}
use mqtt_chat.Store.Redis.{cells, cells-IsRedis, get_unread}
use mqtt_chat.Worker.Messages.Unread.{send_unread}
use mqtt_chat.Worker.Context.{World, acked, after}
use mqtt_chat.Worker.Messages.Send.{check_send, reject_send, next_sequence, handle_message_send}
use mqtt_chat.Worker.Messages.Sequence.{stored_db}
use mqtt_chat.Worker.Messages.Delivery.{IsStoredOnce, send_atomic}
use mqtt_chat.Worker.Messages.Acceptance.{send_accepts, send_redelivery}
use mqtt_chat.Worker.Messages.Edit.{handle_message_edit, handle_message_delete}
use mqtt_chat.Worker.Messages.Edit.Rights.{
  target, Edited, EditRefused, deleted_world, edit_rights, delete_rights,
}
use mqtt_chat.Worker.BotSend.{store_bot_message, bot_outcome, bot_may_send, handle_bot_send}
use mqtt_chat.Worker.BotSend.Numbering.{IsBotStored, bot_atomic}
use mqtt_chat.Tests.Fixtures.{
  env, group, hello, db, redis, world, command, send_command, db-IsNumbered,
}

abbrev fresh : CommandEnvelope SendMessageCommand
fresh = send_command "bob" "k2"

-- The second delivery of the stored message.
abbrev again : CommandEnvelope SendMessageCommand
again = send_command "alice" "k1"

abbrev editing : CommandEnvelope EditMessageCommand
editing =
    command "message.edit" "alice"
      (record { message_id = "m1"; conversation_id = "g"; content = "hello!" })

abbrev deleting : CommandEnvelope DeleteMessageCommand
deleting = command "message.delete" "alice" (record { message_id = "m1"; conversation_id = "g" })

abbrev bot_command : CommandEnvelope BotSendCommand
bot_command = command "bot.send" "bot" (record {
  conversation_id = "g";
  client_message_id = "b1";
  bot_id = "bot";
  type = MessageType.text;
  content = "beep";
  reply_to_id = none;
  metadata = none;
  correlation_id = none;
  causation_id = none;
  rule_id = none;
})

send_atomic_example :
    ((after (handle_message_send tables cells env fresh world)).db ≡ db)
    ⊎ IsStoredOnce env fresh db (after (handle_message_send tables cells env fresh world)).db
send_atomic_example = send_atomic tables tables-IsPrisma cells env fresh world

send_accepts_example :
    (w' : World) × (handle_message_send tables cells env fresh world ≡ acked w')
    × (w'.db ≡ stored_db env fresh "bob" db)
    × (w'.sent ≡ [])
unfolding string_discrete check_send
send_accepts_example =
    send_accepts tables tables-IsPrisma cells env fresh world "bob" group db-IsNumbered refl refl
      refl refl

send_redelivery_example :
    (w' : World) × (handle_message_send tables cells env again world ≡ acked w')
    × (w'.db ≡ db)
    × (w'.redis ≡ redis)
unfolding string_discrete
send_redelivery_example =
    send_redelivery tables tables-IsPrisma cells env again world hello refl refl

edit_rights_example :
    Edited env editing world (handle_message_edit tables env editing world)
    ⊎ EditRefused editing world (handle_message_edit tables env editing world)
edit_rights_example = edit_rights tables tables-IsPrisma env editing world

deleting_user : truthy deleting.actor.user_id ≡ some "alice"
unfolding string_discrete
deleting_user = refl

deleting_target : target db deleting.payload.message_id ≡ some hello
unfolding string_discrete
deleting_target = refl

delete_rights_example :
    handle_message_delete tables env deleting world
    ≡ acked (deleted_world env deleting world "alice" hello deleting_user deleting_target)
delete_rights_example =
    delete_rights env deleting world "alice" hello deleting_user deleting_target tables
      tables-IsPrisma

bot_atomic_example :
    ((after (handle_bot_send tables env bot_command world)).db ≡ db)
    ⊎ IsBotStored env bot_command world tables
        (after (handle_bot_send tables env bot_command world)).db
bot_atomic_example = bot_atomic tables tables-IsPrisma env bot_command world

-- The group after its deletion: a user's send is refused, a bot's is stored.
abbrev deleted_world_ : World
deleted_world_ = record world {
  db = record db {
    conversations = record group { deleted_at = some 99; deleted_by = some "alice" } ∷ [];
  };
}

abbrev message_ids : World → List String
message_ids w = map (λ m. m.id) w.db.messages

deleted_group_user :
    message_ids (after (handle_message_send tables cells env fresh deleted_world_)) ≡ "m1" ∷ []
unfolding string_discrete handle_message_send check_send reject_send
deleted_group_user = refl

deleted_group_bot :
    message_ids (after (handle_bot_send tables env bot_command deleted_world_)) ≡ "m1" ∷ "m2" ∷ []
unfolding string_discrete handle_bot_send bot_may_send store_bot_message next_sequence bot_outcome
    mqtt_chat.Base.ℕ_discrete
deleted_group_bot = refl

send_unread_example :
    get_unread (after (handle_message_send tables cells env fresh world)).redis "alice" "g" ≡ 1
unfolding string_discrete check_send get_unread
send_unread_example =
    send_unread tables tables-IsPrisma cells cells-IsRedis env fresh world "bob" group "g" "alice"
      db-IsNumbered refl refl refl refl
