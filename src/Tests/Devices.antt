-- ===== src/Tests/Devices.antt =====
-- Presence, and the deliveries of commands.
use mqtt_chat.Base.{
  String, string_discrete, Option, none, some, false, List, [], ◌∷◌, if◌then◌else◌, ◌==◌, string_eq,
  ◌≡◌, refl, arith,
}
use mqtt_chat.Contracts.Envelope.{CommandEnvelope}
use mqtt_chat.Contracts.Commands.{PresenceSetCommand, SendMessageCommand}
use mqtt_chat.Store.Prisma.{tables, tables-IsPrisma}
use mqtt_chat.Store.Redis.{Redis, cells, cells-IsRedis}
use mqtt_chat.Worker.Context.{Env, World, acked, after}
use mqtt_chat.Worker.Messages.Sequence.{IsNumbered}
use mqtt_chat.Worker.Presence.{handle_presence_set}
use mqtt_chat.Worker.Presence.Devices.{IsConsistent, WentOffline, presence_offline}
use mqtt_chat.Worker.Dispatch.{Schemas, ChatWorker}
use mqtt_chat.Worker.Dispatch.Run.{run, run-IsNumbered}
use mqtt_chat.Tests.Fixtures.{env, redis, world, command, send_command, db-IsNumbered}

abbrev leaving : CommandEnvelope PresenceSetCommand
leaving = command "presence.set" "bob" (record { is_online = false })

-- Bob is online with his phone and his laptop.
abbrev online_redis : Redis
online_redis = record redis {
  presence_user = λ user_id. if user_id == "bob" then "phone" ∷ "laptop" ∷ [] else [];
  connection = λ user_id device_id.
      if user_id == "bob"
      then (if device_id == "phone" then some 1 else if device_id == "laptop" then some 1 else none)
      else none;
}

abbrev online_world : World
online_world = record world { redis = online_redis }

online-IsConsistent : IsConsistent online_redis
online-IsConsistent user_id device_id = ground arith

presence_offline_example :
    (handle_presence_set tables cells env leaving online_world
      ≡ acked (after (handle_presence_set tables cells env leaving online_world)))
    × WentOffline env leaving "bob" "phone" online_world
        (after (handle_presence_set tables cells env leaving online_world))
unfolding string_discrete
presence_offline_example =
    presence_offline tables tables-IsPrisma cells cells-IsRedis env leaving "bob" "phone"
      online_world refl refl refl online-IsConsistent

-- What a delivery can be: a send, or an envelope of another type, or no JSON.
data Wire : Type 0 where
  sent : String → Wire
  typed : String → Wire
  garbage : Wire

abbrev parse_wire : Wire → Option (CommandEnvelope Wire)
parse_wire (sent id) = some (command "message.send" "bob" (sent id))
parse_wire (typed type) = some (command type "bob" garbage)
parse_wire garbage = none

abbrev parse_send : Wire → Option SendMessageCommand
parse_send (sent id) = some (send_command "bob" id).payload
parse_send (typed type) = none
parse_send garbage = none

abbrev schemas : Schemas Wire Wire
schemas = record {
  parse_command_envelope = parse_wire;
  send_message = parse_send;
  edit_message = λ raw. none;
  delete_message = λ raw. none;
  add_reaction = λ raw. none;
  remove_reaction = λ raw. none;
  read_receipt = λ raw. none;
  delivered_receipt = λ raw. none;
  presence_set = λ raw. none;
  typing_set = λ raw. none;
  bot_send = λ raw. none;
}

abbrev worker : ChatWorker
worker = record { processing = 0; stopped = false; nacked_on_stop = 0 }

-- A send that is delivered twice, between garbage.
abbrev deliveries : List (Env × Wire)
deliveries = (env, garbage) ∷ (env, sent "k2") ∷ (env, sent "k2") ∷ (env, typed "constructor") ∷ []

run-IsNumbered_example : IsNumbered (run schemas tables cells deliveries worker world).1.db
run-IsNumbered_example =
    run-IsNumbered schemas tables tables-IsPrisma cells deliveries worker world db-IsNumbered
