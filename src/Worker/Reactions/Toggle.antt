-- ===== src/Worker/Reactions/Toggle.antt =====
-- Reactions as target states.
use mqtt_chat.Base.{
  String, none, some, Bool, true, false, not, ◌&&◌, List, [], ◌∷◌, ◌++◌, ◌==◌, string_eq, nat_eq,
  if◌then◌else◌, filter, find, any, length, ◌≡◌, refl, ◌∙◌, inl, inr, arith, Bool-cases, any_never,
  any-append,
}
use mqtt_chat.Contracts.Envelope.{CommandEnvelope, truthy}
use mqtt_chat.Contracts.Commands.{AddReactionCommand}
use mqtt_chat.Store.Rows.{Db, Member, Message, Reaction}
use mqtt_chat.Store.Prisma.{Prisma, IsPrisma, tables, by_tables}
use mqtt_chat.Worker.Context.{Env, World, acked, after}
use mqtt_chat.Worker.Receipts.{is_member_of}
use mqtt_chat.Worker.Messages.Edit.Rights.{target}
use mqtt_chat.Worker.Reactions.{
  same_reaction, new_reaction, added_row, removed_row, handle_reaction_add, handle_reaction_remove,
}

abbrev pub has_reaction : AddReactionCommand → String → List Reaction → Bool
has_reaction cmd user_id rs = any (same_reaction cmd user_id) rs

abbrev pub in_conversation : AddReactionCommand → String → Reaction → Bool
in_conversation cmd user_id r =
    same_reaction cmd user_id r && r.conversation_id == cmd.conversation_id

-- A member of the conversation, and a message of it that is not deleted.
pub record CanReact (envelope : CommandEnvelope AddReactionCommand) (db : Db) (user_id : String)
    : Type 0 where
  pub message : Message
  pub member : Member
  pub identified : truthy envelope.actor.user_id ≡ some user_id
  pub found : target db envelope.payload.message_id ≡ some message
  pub in_place : message.conversation_id ≡ envelope.payload.conversation_id
  pub alive : message.deleted_at ≡ none
  pub belongs :
      find (is_member_of envelope.payload.conversation_id user_id) db.members ≡ some member

length-filter-zero :
    (p : Reaction → Bool) (rs : List Reaction) → (length (filter p rs) == 0) ≡ not (any p rs)
length-filter-zero p [] = ground arith
length-filter-zero p (r ∷ rs) = ground (arith, length-filter-zero p rs)

module _ (env : Env) (envelope : CommandEnvelope AddReactionCommand) (w : World)
    (user_id : String) where
  abbrev pub added_world : World
  added_world = if has_reaction envelope.payload user_id w.db.reactions then w else record w {
    db = record (w.db) {
      reactions = w.db.reactions ++ new_reaction env envelope.payload user_id ∷ [];
      outbox = w.db.outbox ++ added_row env envelope user_id ∷ [];
    };
  }

  abbrev pub removed_world : World
  removed_world =
      if any (in_conversation envelope.payload user_id) w.db.reactions
      then record w {
        db = record (w.db) {
          reactions = filter (λ r. not (in_conversation envelope.payload user_id r)) w.db.reactions;
          outbox = w.db.outbox ++ removed_row env envelope user_id ∷ [];
        };
      }
      else w

  add-tables :
      CanReact envelope w.db user_id → handle_reaction_add tables env envelope w ≡ acked added_world
  unfolding handle_reaction_add
  add-tables can = ground (
    arith,
    can.identified,
    can.found,
    can.in_place,
    can.alive,
    can.belongs,
    any_never w.db.outbox,
  )

  remove-tables :
      (m : Member)
      → truthy envelope.actor.user_id ≡ some user_id
      → find (is_member_of envelope.payload.conversation_id user_id) w.db.members ≡ some m
      → handle_reaction_remove tables env envelope w ≡ acked removed_world
  unfolding handle_reaction_remove
  remove-tables m identified belongs = ground (
    arith,
    any_never w.db.outbox,
    length-filter-zero (in_conversation envelope.payload user_id) w.db.reactions,
  )

  CanReact-added : CanReact envelope w.db user_id → CanReact envelope added_world.db user_id
  CanReact-added can = elim (Bool-cases (has_reaction envelope.payload user_id w.db.reactions)) [
    | inl there ↦ rw there can
    | inr fresh ↦ rw fresh (record {
      message = can.message;
      member = can.member;
      identified = can.identified;
      found = can.found;
      in_place = can.in_place;
      alive = can.alive;
      belongs = can.belongs;
    })
  ]

  added_world-has : has_reaction envelope.payload user_id added_world.db.reactions ≡ true
  added_world-has = elim (Bool-cases (has_reaction envelope.payload user_id w.db.reactions)) [
    | inl there ↦ rw there there
    | inr fresh ↦
        rw
          (
            fresh,
            any-append (same_reaction envelope.payload user_id) w.db.reactions
                (new_reaction env envelope.payload user_id ∷ []),
            fresh,
          )
          (ground arith)
  ]

module _ (P : Prisma) (h : IsPrisma P) (env : Env) (envelope : CommandEnvelope AddReactionCommand)
    (w : World) (user_id : String) where
  -- Where a user may react, `reaction.add` puts the reaction there with one event if it is missing,
  -- and otherwise does nothing.
  pub reaction_add :
      CanReact envelope w.db user_id
      → handle_reaction_add P env envelope w ≡ acked (added_world env envelope w user_id)
  reaction_add can =
      by_tables
        (λ P. handle_reaction_add P env envelope w ≡ acked (added_world env envelope w user_id)) h
        (add-tables env envelope w user_id can)

  -- A member's `reaction.remove` takes the reaction away with one event if it is there, and otherwise
  -- does nothing.
  pub reaction_remove :
      (m : Member)
      → truthy envelope.actor.user_id ≡ some user_id
      → find (is_member_of envelope.payload.conversation_id user_id) w.db.members ≡ some m
      → handle_reaction_remove P env envelope w ≡ acked (removed_world env envelope w user_id)
  reaction_remove m identified belongs =
      by_tables
        (λ P.
          handle_reaction_remove P env envelope w ≡ acked (removed_world env envelope w user_id))
        h (remove-tables env envelope w user_id m identified belongs)

  -- After a `reaction.add` that the rules let through the reaction is there, and the same command
  -- delivered again, at any later time, changes nothing and queues no event.
  pub add_redelivery :
      CanReact envelope w.db user_id
      → (again : Env)
      → let once = after (handle_reaction_add P env envelope w) in
        (has_reaction envelope.payload user_id once.db.reactions ≡ true)
        × (handle_reaction_add P again envelope once ≡ acked once)
  add_redelivery can again = rw (reaction_add can) (
    added_world-has env envelope w user_id,
    by_tables
          (λ P.
            handle_reaction_add P again envelope (added_world env envelope w user_id)
            ≡ acked (added_world again envelope (added_world env envelope w user_id) user_id))
          h
          (add-tables again envelope (added_world env envelope w user_id) user_id
            (CanReact-added env envelope w user_id can))
        ∙ rw (added_world-has env envelope w user_id) refl,
  )

filter-absent :
    (cmd : AddReactionCommand) (user_id : String) (rs : List Reaction)
    → has_reaction cmd user_id rs ≡ false
    → filter (λ r. not (in_conversation cmd user_id r)) rs ≡ rs
filter-absent cmd user_id [] e = refl
filter-absent cmd user_id (r ∷ rs) e = ground (arith, filter-absent cmd user_id rs)

filter-concat_removed :
    (cmd : AddReactionCommand) (user_id : String) (rs : List Reaction) (r : Reaction)
    → has_reaction cmd user_id rs ≡ false
    → in_conversation cmd user_id r ≡ true
    → (filter (λ x. not (in_conversation cmd user_id x)) (rs ++ r ∷ []) ≡ rs)
      × (any (in_conversation cmd user_id) (rs ++ r ∷ []) ≡ true)
filter-concat_removed cmd user_id [] r e q = ground arith
filter-concat_removed cmd user_id (x ∷ rs) r e q =
    ground (arith, filter-concat_removed cmd user_id rs r)

-- Adding a reaction that is missing and removing it again leaves the reactions as they were.
pub remove-add :
    (P : Prisma) (h : IsPrisma P) (env later : Env) (envelope : CommandEnvelope AddReactionCommand)
    (w : World) (user_id : String)
    → CanReact envelope w.db user_id
    → has_reaction envelope.payload user_id w.db.reactions ≡ false
    → (after (
        handle_reaction_remove P later envelope
          (after (handle_reaction_add P env envelope w)))).db.reactions
      ≡ w.db.reactions
remove-add P h env later envelope w user_id can fresh =
    rw (reaction_add P h env envelope w user_id can, fresh)
      (rw
        (reaction_remove P h later envelope
          (record w {
            db = record (w.db) {
              reactions = w.db.reactions ++ new_reaction env envelope.payload user_id ∷ [];
              outbox = w.db.outbox ++ added_row env envelope user_id ∷ [];
            };
          })
          user_id can.member can.identified can.belongs)
        (ground (
          arith,
          filter-concat_removed envelope.payload user_id w.db.reactions
              (new_reaction env envelope.payload user_id) fresh (ground arith),
        )))
