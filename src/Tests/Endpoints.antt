-- ===== src/Tests/Endpoints.antt =====
-- The API's endpoints.
use mqtt_chat.Base.{
  ℕ, suc, String, string_discrete, Option, none, some, Bool, true, false, List, [], ◌∷◌, ◌++◌,
  filter, count, ◌≡◌, refl, ◌⊎◌, arith, map, ◌≤◌,
}
use mqtt_chat.Base.Utf16.{utf16, before_units}
use mqtt_chat.Contracts.Events.{MemberRole, ConversationType}
use mqtt_chat.Store.Rows.{Db, Conversation}
use mqtt_chat.Store.Prisma.{tables, tables-IsPrisma}
use mqtt_chat.Store.Redis.{cells}
use mqtt_chat.Worker.Context.{World, after}
use mqtt_chat.Worker.Messages.Send.{handle_message_send}
use mqtt_chat.Api.Reply
use mqtt_chat.Api.Reply.{Attempt, done, raised, db_after}
use mqtt_chat.Api.PairKey.{direct_pair_key_for}
use mqtt_chat.Api.Members.{emit_members_changed, add_members, delete_conversation}
use mqtt_chat.Api.Members.Remove.{JoinOrder, remove_transaction, remove_member, remove_member_at}
use mqtt_chat.Api.Members.Admins.{IsKeyed, has_admin}
use mqtt_chat.Api.Members.Governed.{remove_keeps_admin}
use mqtt_chat.Api.Members.Deletion.{IsDeletion, conversation_rights, tombstone_final}
use mqtt_chat.Api.Create.{
  CreateConversation, Created, create_conversation_at, create_direct, create_with_outbox_event,
  create_members, reply,
}
use mqtt_chat.Tests.Fixtures
use mqtt_chat.Tests.Fixtures.{group, direct, member, alice, bob, apart, db, world, send_command}

abbrev env : Reply.Env
env = record {
  namespace = "chat/v1";
  now = 300;
  uuid = "e-2";
  conversation_id = "n";
  outbox_id = "o";
}

abbrev as_joined : JoinOrder
as_joined members = members

-- Two different pairs of ids with a colon share a key.
pair_key_collision : direct_pair_key_for "a:b" "c" ≡ direct_pair_key_for "a" "b:c"
unfolding direct_pair_key_for string_discrete utf16 before_units mqtt_chat.Base.ℕ_discrete
pair_key_collision = refl

members-IsKeyed : IsKeyed db.members
unfolding string_discrete
members-IsKeyed id user_id = ground (
  arith,
  apart "g" "d" refl,
  apart "alice" "bob" refl,
  apart "alice" "bot" refl,
  apart "bob" "bot" refl,
)

-- Alice, the only admin, leaves; Bob is promoted.
remove_keeps_admin_example :
    has_admin "g"
      (db_after db (remove_member tables as_joined env "g" "alice" (some "alice") db)).members
    ≡ true
unfolding string_discrete
remove_keeps_admin_example =
    remove_keeps_admin tables tables-IsPrisma as_joined env "g" "alice" (some "alice") db "g"
      members-IsKeyed refl

conversation_rights_example :
    (db_after db (delete_conversation tables env "g" (some "alice") db) ≡ db)
    ⊎ IsDeletion tables env "g"
        (some "alice")
        db
        (db_after db (delete_conversation tables env "g" (some "alice") db))
conversation_rights_example = conversation_rights tables tables-IsPrisma env "g" (some "alice") db

abbrev gone : Conversation
gone = record group { deleted_at = some 99; deleted_by = some "alice" }

abbrev after_deletion : World
after_deletion = record world { db = record db { conversations = gone ∷ direct ∷ [] } }

tombstone_final_example :
    (db_after after_deletion.db
        (add_members tables env "g" (some "alice") ("carol" ∷ []) after_deletion.db)
      ≡ after_deletion.db)
    × (db_after after_deletion.db
          (remove_member tables as_joined env "g" "bob" (some "alice") after_deletion.db)
        ≡ after_deletion.db)
    × (db_after after_deletion.db
          (delete_conversation tables env "g" (some "alice") after_deletion.db)
        ≡ after_deletion.db)
    × ((after (
          handle_message_send tables cells Fixtures.env
            (send_command "bob" "k2")
            after_deletion)).db
        ≡ after_deletion.db)
unfolding string_discrete
tombstone_final_example =
    tombstone_final tables tables-IsPrisma cells as_joined env Fixtures.env "g" "bob" ("carol" ∷ [])
      (some "alice") (send_command "bob" "k2") after_deletion gone refl refl refl

abbrev pair_request : CreateConversation
pair_request = record {
  type = ConversationType.direct;
  title = none;
  created_by = "bob";
  member_ids = "bob" ∷ "carol" ∷ [];
}

abbrev answer_in : Db → Attempt (Created × Db) → Created × Db
answer_in before (done x) = x
answer_in before (raised e) = (reply direct false false false, before)

-- Bob and Carol ask for their conversation at the same time: both requests read the rows before
-- either commits.
abbrev first_answer : Created × Db
unfolding create_conversation_at create_direct create_with_outbox_event create_members
    direct_pair_key_for string_discrete utf16 before_units mqtt_chat.Base.ℕ_discrete
first_answer = answer_in db (create_conversation_at tables (λ rows. rows) env pair_request db db)

abbrev swapped_request : CreateConversation
swapped_request = record pair_request { created_by = "carol"; member_ids = "carol" ∷ "bob" ∷ [] }

abbrev later_env : Reply.Env
later_env = record env { conversation_id = "n2"; outbox_id = "o2"; uuid = "e-3" }

-- Two admins who leave at the same time: each request reads the group before the other commits, and
-- no admin is left.
abbrev both_admins : Db
both_admins = record db {
  members =
      alice ∷ record bob { role = MemberRole.admin } ∷ member "g" "carol" MemberRole.member ∷ [];
}

abbrev first_left : Db
first_left =
    db_after both_admins
      (remove_member_at tables as_joined env "g" "alice" (some "alice") both_admins both_admins)

abbrev both_left : Db
both_left =
    db_after first_left
      (remove_member_at tables as_joined env "g" "bob" (some "bob") both_admins first_left)

removal_race :
    (has_admin "g" both_admins.members ≡ true)
    × (has_admin "g" both_left.members ≡ false)
    × (map (λ m. m.user_id) both_left.members ≡ "carol" ∷ [])
unfolding string_discrete remove_member_at remove_transaction emit_members_changed
    mqtt_chat.Base.ℕ_discrete
removal_race = (refl, refl, refl)
