-- ===== src/Api/Members/Remove.antt =====
-- `removeMember` of apps/api/src/controllers/chat.controller.ts.
use mqtt_chat.Base.{
  String, Option, none, some, Bool, false, not, ◌&&◌, List, ◌==◌, string_eq, nat_eq, if◌then◌else◌,
  find, filter, length,
}
use mqtt_chat.Contracts.Topics.{EventTopic}
use mqtt_chat.Contracts.Envelope.{truthy}
use mqtt_chat.Contracts.Events.{EventData, MemberRole}
use mqtt_chat.Store.Rows.{Db, Member}
use mqtt_chat.Store.Prisma.{Prisma}
use mqtt_chat.Worker.Context.{is_some}
use mqtt_chat.Api.Reply.{
  Env, http, record_not_found, not_found, forbidden, Attempt, done, raised, ◌>>=◌, bad,
  conversation_row, members_of, member_named,
}
use mqtt_chat.Api.Members.{is_group, is_admin, starts_with, named, is_row_of, emit_members_changed}

pub data Removed : Type 0 where
  removed absent : Removed

-- ORDER BY "joinedAt" ASC.
abbrev pub JoinOrder : Type 0
JoinOrder = List Member → List Member

abbrev pub is_human : Member → Bool
is_human m = not (starts_with m.user_id "system-bot")

abbrev pub promote : Member → Member
promote m = record m { role = MemberRole.admin }

abbrev pub has_admin_role : Option Member → Bool
has_admin_role none = false
has_admin_role (some m) = is_admin m.role

module _ (P : Prisma) (order : JoinOrder) where
  -- The only admin hands the role to the oldest human member that is left.
  unfoldable pub promote_successor : String → List Member → Attempt (List Member)
  promote_successor id members =
      elim (find is_human (order (P.find_many Member (λ m. m.conversation_id == id) members))) [
        | none ↦ bad "Cannot remove the only admin — no other human member to promote"
        | some successor ↦
            let (rows, found) =
              P.update_many Member (is_row_of id successor.user_id) promote members in
            if found == 0 then raised record_not_found else done rows
      ]

  -- `members` are those that were read before the transaction.
  unfoldable pub remove_transaction :
      Env → String → String → String → List Member → Db → Attempt (Removed × Db)
  remove_transaction env id user_id actor_user_id members db = do
    let remaining = (P.delete_many Member (is_row_of id user_id) db.members).0
    let admins = filter (λ m. is_admin m.role) members
    let target_is_admin = has_admin_role (member_named user_id members)
    rows ←
        (if target_is_admin && length admins == 1
          then promote_successor id remaining
          else done remaining)
    (c, db') ←
        emit_members_changed P env id actor_user_id "conversation.member-left"
          EventTopic.conversation_member_left (λ s. EventData.member_left s user_id) (named user_id)
          (record db { members = rows })
    done (removed, db')

  -- The endpoint reads the conversation from `seen`; its transaction works on `db`, in which another
  -- request may have committed since.
  unfoldable pub remove_member_at :
      Env → String → String → Option String → Db → Db → Attempt (Removed × Db)
  remove_member_at env id user_id actor seen db = elim (truthy actor) [
    | none ↦ bad "Missing actor query parameter"
    | some actor_user_id ↦ elim (conversation_row P seen id) [
      | none ↦ raised (http not_found "CONVERSATION_NOT_FOUND" "Conversation not found")
      | some c ↦
          if is_some c.deleted_at
          then raised (http not_found "CONVERSATION_NOT_FOUND" "Conversation not found")
          else if not (is_group c.type)
          then bad "Members cannot leave or be removed from DIRECT conversations"
          else elim (member_named actor_user_id (members_of P seen id)) [
            | none ↦ raised (http forbidden "FORBIDDEN" "Not a member of this group")
            | some actor_member ↦
                if not (actor_user_id == user_id) && not (is_admin actor_member.role)
                then raised
                    (http forbidden "FORBIDDEN" "Only a group admin can remove other members")
                else if not (is_some (member_named user_id (members_of P seen id)))
                then done (absent, db)
                else if length (members_of P seen id) == 1
                then bad "The last member cannot leave — delete the conversation instead"
                else remove_transaction env id user_id actor_user_id (members_of P seen id) db
          ]
    ]
  ]

  -- With no other request in between.
  abbrev pub remove_member : Env → String → String → Option String → Db → Attempt (Removed × Db)
  remove_member env id user_id actor db = remove_member_at env id user_id actor db db
