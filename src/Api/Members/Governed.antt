-- ===== src/Api/Members/Governed.antt =====
-- A removal, from the request to the database.
use mqtt_chat.Base.{
  String, string_discrete, Option, some, true, false, ◌&&◌, List, ◌==◌, string_eq, nat_eq, filter,
  length, ◌≡◌, sym, subst, ◌∙◌, ◌⊎◌, inl, inr, arith, Option-cases, Bool-cases,
}
use mqtt_chat.Contracts.Envelope.{truthy}
use mqtt_chat.Contracts.Events.{EventData}
use mqtt_chat.Contracts.Topics.{EventTopic}
use mqtt_chat.Store.Rows.{Db, Member, Conversation}
use mqtt_chat.Store.Prisma.{Prisma, IsPrisma, tables, by_tables}
use mqtt_chat.Api.Reply.{
  Attempt-cases, Env, Attempt, done, db_after, conversation_row, members_of, member_named,
}
use mqtt_chat.Api.Members.{is_group, is_admin, is_row_of, named, emit_members_changed}
use mqtt_chat.Api.Members.Admins.{
  has_admin, IsKeyed, without_row, promote-keeps, without_row-other, another_admin, emit-members,
  successor_governs,
}
use mqtt_chat.Api.Members.Remove.{
  Removed, JoinOrder, has_admin_role, promote_successor, remove_transaction, remove_member_at,
  remove_member,
}

module _ (order : JoinOrder) (env : Env) (id user_id : String) where
  -- The cases of a transaction that commits.
  unfoldable pub Committed : Db → List Member → Db → Type 0
  Committed db members db' =
      ((rows : List Member) × (promote_successor tables order id (without_row id user_id db.members)
          ≡ done rows)
        × (db'.members ≡ rows))
      ⊎ ((has_admin_role (member_named user_id members)
              && length (filter (λ m. is_admin m.role) members) == 1
            ≡ false)
          × (db'.members ≡ without_row id user_id db.members))

  abbrev emit_left : String → Db → List Member → Attempt (Conversation × Db)
  emit_left actor db rows =
      emit_members_changed tables env id actor "conversation.member-left"
        EventTopic.conversation_member_left (λ s. EventData.member_left s user_id) (named user_id)
        (record db { members = rows })

  transaction-cases :
      (actor : String) (members : List Member) (db : Db) (r : Removed) (db' : Db)
      → remove_transaction tables order env id user_id actor members db ≡ done (r, db')
      → Committed db members db'
  unfolding remove_transaction Committed
  transaction-cases actor members db r db' e =
      elim (Bool-cases (
        has_admin_role (member_named user_id members)
        && length (filter (λ m. is_admin m.role) members) == 1)) [
          | inl only ↦
              elim (Attempt-cases
                (promote_successor tables order id (without_row id user_id db.members))) [
                  | inl (rows, promoted) ↦ inl (
                    rows,
                    promoted,
                    elim (Attempt-cases (emit_left actor db rows)) [
                      | inl ((c, d), sent) ↦
                          ground (arith, (emit-members env id actor _ _ _ _ _ c d sent).0)
                      | inr (f, failed) ↦ ground arith
                    ],
                  )
                  | inr (f, failed) ↦ ground arith
                ]
          | inr others ↦ inr (
            others,
            elim (Attempt-cases (emit_left actor db (without_row id user_id db.members))) [
              | inl ((c, d), sent) ↦
                  ground (arith, (emit-members env id actor _ _ _ _ _ c d sent).0)
              | inr (f, failed) ↦ ground arith
            ],
          )
        ]

  -- An endpoint that answers has changed nothing, or has run its transaction for a member of a group.
  pub record IsRemoval (db db' : Db) : Type 0 where
    pub conversation : Conversation
    pub row : conversation_row tables db id ≡ some conversation
    pub group : is_group conversation.type ≡ true
    pub target : Member
    pub target_found : member_named user_id (members_of tables db id) ≡ some target
    pub committed : Committed db (members_of tables db id) db'

  pub IsRemoval-cases :
      (actor : Option String) (db : Db) (r : Removed) (db' : Db)
      → remove_member tables order env id user_id actor db ≡ done (r, db')
      → (db' ≡ db) ⊎ IsRemoval db db'
  unfolding remove_member_at
  IsRemoval-cases actor db r db' e = elim (Option-cases (truthy actor)) [
    | inl anonymous ↦ ground arith
    | inr (actor_user_id, named_actor) ↦ elim (Option-cases (conversation_row tables db id)) [
      | inl missing ↦ ground arith
      | inr (c, row) ↦ elim (Option-cases (member_named actor_user_id (members_of tables db id))) [
        | inl stranger ↦ ground arith
        | inr (a, known) ↦ elim (Option-cases (member_named user_id (members_of tables db id))) [
          | inl absent ↦ inl (ground arith)
          | inr (m, found) ↦ inr (record {
            conversation = c;
            row = row;
            group = ground arith;
            target = m;
            target_found = found;
            committed =
                transaction-cases actor_user_id (members_of tables db id) db r db' (ground arith);
          })
        ]
      ]
    ]
  ]

  committed-governed :
      (k : String) (db db' : Db)
      → IsKeyed db.members
      → has_admin k db.members ≡ true
      → IsRemoval db db'
      → has_admin k db'.members ≡ true
  unfolding Committed
  committed-governed k db db' keyed governed removal = elim (removal.committed) [
    | inl (rows, promoted, same) ↦
        let (s, grown, ruled) =
          successor_governs order id (without_row id user_id db.members) rows promoted in
        subst (λ ms. has_admin k ms ≡ true) (sym same)
          (elim (string_discrete k id) [
            | yes here ↦ subst (λ j. has_admin j rows ≡ true) (sym here) ruled
            | no there ↦
                subst (λ ms. has_admin k ms ≡ true) (sym grown)
                  (promote-keeps k (is_row_of id s.user_id) (without_row id user_id db.members)
                    (without_row-other k id user_id db.members there ∙ governed))
          ])
    | inr (others, same) ↦
        subst (λ ms. has_admin k ms ≡ true) (sym same)
          (elim (string_discrete k id) [
            | yes here ↦
                subst (λ j. has_admin j (without_row id user_id db.members) ≡ true) (sym here)
                  (another_admin id user_id db.members removal.target keyed
                    (subst (λ j. has_admin j db.members ≡ true) here governed) removal.target_found
                    (subst
                      (λ o.
                        has_admin_role o
                          && length (filter (λ m. is_admin m.role) (members_of tables db id)) == 1
                        ≡ false)
                      removal.target_found others))
            | no there ↦ without_row-other k id user_id db.members there ∙ governed
          ])
  ]

  governed-tables :
      (k : String) (actor : Option String) (db : Db)
      → IsKeyed db.members
      → has_admin k db.members ≡ true
      → has_admin k (db_after db (remove_member tables order env id user_id actor db)).members
        ≡ true
  governed-tables k actor db keyed governed =
      elim (Attempt-cases (remove_member tables order env id user_id actor db)) [
        | inr (f, failed) ↦
            subst (λ x. has_admin k (db_after db x).members ≡ true) (sym failed) governed
        | inl ((r, db'), answered) ↦
            subst (λ x. has_admin k (db_after db x).members ≡ true) (sym answered)
              (elim (IsRemoval-cases actor db r db' answered) [
                | inl same ↦ subst (λ d. has_admin k d.members ≡ true) (sym same) governed
                | inr removal ↦ committed-governed k db db' keyed governed removal
              ])
      ]

-- A removal that no other request interleaves with never takes its last admin from a group: every
-- conversation that has an admin before has one after, whatever the outcome, with an ORDER BY that
-- gives any order. The table's primary key is the hypothesis.
pub remove_keeps_admin :
    (P : Prisma) (h : IsPrisma P) (order : JoinOrder) (env : Env) (id user_id : String)
    (actor : Option String) (db : Db) (k : String)
    → IsKeyed db.members
    → has_admin k db.members ≡ true
    → has_admin k (db_after db (remove_member P order env id user_id actor db)).members ≡ true
remove_keeps_admin P h order env id user_id actor db k keyed governed =
    by_tables
      (λ P.
        has_admin k (db_after db (remove_member P order env id user_id actor db)).members ≡ true)
      h (governed-tables order env id user_id k actor db keyed governed)
