-- ===== src/Tests/Marking.antt =====
-- Receipts, reactions and typing.
use mqtt_chat.Base.{
  ℕ, String, string_discrete, Option, none, some, Bool, true, false, List, [], ◌∷◌, ◌++◌, ◌≡◌, refl,
  arith, All, find,
}
use mqtt_chat.Contracts.Envelope.{CommandEnvelope, truthy}
use mqtt_chat.Contracts.Commands.{
  TypingSetCommand, AddReactionCommand, ReadReceiptCommand, DeliveredReceiptCommand,
}
use mqtt_chat.Store.Rows.{Db}
use mqtt_chat.Store.Prisma.{tables, tables-IsPrisma}
use mqtt_chat.Store.Redis.{cells, cells-IsRedis, get_unread}
use mqtt_chat.Worker.Context.{World, Tx, ok, fail, acked, after}
use mqtt_chat.Worker.Receipts.{
  is_member_of, read_phase, advance_phase, handle_receipt_read, delivered_phase, advance_delivered,
}
use mqtt_chat.Worker.Receipts.Marks.{IsForward}
use mqtt_chat.Worker.Receipts.Race.{
  Flight, System, Reach, here, next, begin, commit, marks_monotone, Delivery, begin_delivery,
  commit_delivery,
}
use mqtt_chat.Worker.Receipts.Bounded.{IsSafe, marks_bounded}
use mqtt_chat.Worker.Receipts.Advance.{read_world, read_receipt}
use mqtt_chat.Worker.Reactions.{handle_reaction_add, handle_reaction_remove}
use mqtt_chat.Worker.Reactions.Toggle.{CanReact, remove-add}
use mqtt_chat.Tests.Fixtures.{redis, env, bob, hello, db, world, command}

abbrev reading : CommandEnvelope ReadReceiptCommand
reading = command "receipt.read" "bob" (record { conversation_id = "g"; last_read_sequence = 1 })

reading_user : truthy reading.actor.user_id ≡ some "bob"
unfolding string_discrete
reading_user = refl

reading_member : find (is_member_of reading.payload.conversation_id "bob") db.members ≡ some bob
unfolding string_discrete
reading_member = refl

-- Bob has three unread messages in the group.
abbrev unread_world : World
unread_world = record world { redis = record redis { unread = λ user_id conversation_id. some 3 } }

read_receipt_example :
    (handle_receipt_read tables cells env reading unread_world
      ≡ acked (read_world cells env reading unread_world "bob" bob reading_user reading_member))
    × (get_unread
          (after (handle_receipt_read tables cells env reading unread_world)).redis
          "bob"
          "g"
        ≡ 0)
unfolding string_discrete mqtt_chat.Base.ℕ_discrete
read_receipt_example =
    read_receipt cells env reading unread_world "bob" bob reading_user reading_member tables
      tables-IsPrisma cells-IsRedis "bob" "g"

abbrev flight : Flight
flight = record { env = env; envelope = reading; user_id = "bob"; accepted = 1 }

abbrev idle : System
idle = record { db = db; flights = []; deliveries = [] }

-- Bob's receipt has read the marks.
abbrev waiting : System
waiting = record { db = db; flights = flight ∷ []; deliveries = [] }

reading_phase : read_phase tables "g" 1 "bob" db ≡ some 1
unfolding read_phase string_discrete
reading_phase = refl

abbrev tx_db : Tx (Bool × Db) → Db
tx_db (ok (moved, db)) = db
tx_db (fail f) = db

-- It commits.
abbrev marked : System
unfolding advance_phase string_discrete mqtt_chat.Base.ℕ_discrete
marked = record {
  db = tx_db (advance_phase tables env reading "bob" 1 db);
  flights = [];
  deliveries = [];
}

abbrev delivering : CommandEnvelope DeliveredReceiptCommand
delivering =
    command "receipt.delivered" "bob"
      (record { conversation_id = "g"; last_delivered_sequence = 7 })

-- A delivered receipt beyond the last message, which is the first.
abbrev delivery : Delivery
delivery = record { env = env; envelope = delivering; user_id = "bob"; accepted = 1 }

abbrev tx_rows : Db → Tx Db → Db
tx_rows before (ok db) = db
tx_rows before (fail f) = before

abbrev delivered : System
unfolding advance_phase advance_delivered string_discrete mqtt_chat.Base.ℕ_discrete
delivered = record marked {
  db = tx_rows marked.db (advance_delivered tables env delivering "bob" 1 marked.db);
}

idle-delivered : Reach tables idle delivered
unfolding advance_phase delivered_phase advance_delivered string_discrete mqtt_chat.Base.ℕ_discrete
idle-delivered =
    next
      (next
        (next (next here (begin idle flight reading_phase))
          (commit waiting [] flight [] true marked.db refl refl))
        (begin_delivery marked delivery refl))
      (commit_delivery (record marked { deliveries = delivery ∷ [] }) [] delivery [] delivered.db
        refl refl)

marks_monotone_example : IsForward db.members delivered.db.members
marks_monotone_example = marks_monotone tables tables-IsPrisma idle delivered idle-delivered

idle-IsSafe : IsSafe idle
idle-IsSafe = record {
  marks = (
    (omega arith, omega arith),
    (
      (omega arith, omega arith),
      ((omega arith, omega arith), ((omega arith, omega arith), ((omega arith, omega arith), tt))),
    ),
  );
  flights = tt;
  deliveries = tt;
}

marks_bounded_example : IsSafe delivered
marks_bounded_example =
    marks_bounded tables tables-IsPrisma idle delivered idle-delivered idle-IsSafe

abbrev liking : CommandEnvelope AddReactionCommand
liking =
    command "reaction.add" "bob" (record { message_id = "m1"; conversation_id = "g"; emoji = "+1" })

liking-CanReact : CanReact liking db "bob"
unfolding string_discrete
liking-CanReact = record {
  message = hello;
  member = bob;
  identified = refl;
  found = refl;
  in_place = refl;
  alive = refl;
  belongs = refl;
}

remove-add_example :
    (after (
      handle_reaction_remove tables env liking
        (after (handle_reaction_add tables env liking world)))).db.reactions
    ≡ []
remove-add_example =
    remove-add tables tables-IsPrisma env env liking world "bob" liking-CanReact refl

abbrev typing : CommandEnvelope TypingSetCommand
typing = command "typing.set" "bob" (record { conversation_id = "g"; is_typing = true })
