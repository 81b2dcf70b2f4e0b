-- ===== src/Api/Members/Direct.antt =====
-- Changes of the members of a DIRECT conversation.
use mqtt_chat.Base.{
  ℕ, String, Option, some, Bool, true, false, not, ◌&&◌, List, [], ◌∷◌, ◌++◌, ◌==◌, string_eq,
  nat_eq, filter, any, all, length, ◌≡◌, refl, ap, subst, ◌∙◌, ◌≢◌, inl, inr, arith, Option-cases,
  Bool-cases,
}
use mqtt_chat.Contracts.Envelope.{truthy}
use mqtt_chat.Contracts.Events.{EventData}
use mqtt_chat.Contracts.Topics.{EventTopic}
use mqtt_chat.Store.Rows.{Db, Member, Conversation}
use mqtt_chat.Store.Prisma.{Prisma, IsPrisma, tables, by_tables, update_rows}
use mqtt_chat.Api.Reply.{
  Attempt-cases, Env, done, db_after, conversation_row, members_of, member_named,
}
use mqtt_chat.Api.Members.{
  add_rows, add_known, add_members, new_member, is_group, is_row_of, named, emit_members_changed,
}
use mqtt_chat.Api.Members.Admins.{without_row, emit-members, successor_governs}
use mqtt_chat.Api.Members.Governed.{Committed, IsRemoval-cases}
use mqtt_chat.Api.Members.Remove.{JoinOrder, promote, remove_member}

abbrev pub in_conversation : String → List Member → List Member
in_conversation k rows = filter (λ m. m.conversation_id == k) rows

filter_skip :
    (p : Member → Bool) (rows : List Member) (m : Member)
    → p m ≡ false
    → filter p (rows ++ m ∷ []) ≡ filter p rows
filter_skip p [] m h = ground arith
filter_skip p (r ∷ rows) m h = ground (arith, filter_skip p rows m h)

add_rows-other :
    (env : Env) (k id : String) (user_ids : List String) (rows : List Member)
    → k ≢ id
    → in_conversation k (add_rows tables env id user_ids rows) ≡ in_conversation k rows
unfolding add_rows
add_rows-other env k id [] rows h = refl
add_rows-other env k id (u ∷ us) rows h = elim (Bool-cases (any (is_row_of id u) rows)) [
  | inl present ↦ ground (arith, present, add_rows-other env k id us rows)
  | inr fresh ↦ ground (
    arith,
    fresh,
    add_rows-other env k id us (rows ++ new_member env id u ∷ []),
    filter_skip (λ m. m.conversation_id == k) rows (new_member env id u) (ground arith),
  )
]

-- Of a group, or nothing.
pub record IsAddition (env : Env) (id : String) (user_ids : List String) (db db' : Db)
    : Type 0 where
  pub conversation : Conversation
  pub row : conversation_row tables db id ≡ some conversation
  pub group : is_group conversation.type ≡ true
  pub grown : db'.members ≡ add_rows tables env id user_ids db.members

known-cases :
    (env : Env) (id actor : String) (user_ids : List String) (db : Db) (r : ℕ × Conversation)
    (db' : Db)
    → add_known tables env id actor user_ids db ≡ done (r, db')
    → db'.members ≡ add_rows tables env id user_ids db.members
unfolding add_known
known-cases env id actor user_ids db r db' e =
    elim (Attempt-cases (
      emit_members_changed tables env id actor "conversation.member-joined"
        EventTopic.conversation_member_joined (λ s. EventData.member_joined s user_ids)
        (not (length user_ids == 0) && all named user_ids)
        (record db { members = add_rows tables env id user_ids db.members }))) [
          | inl ((c, d), sent) ↦ ground (arith, (emit-members env id actor _ _ _ _ _ c d sent).0)
          | inr (f, failed) ↦ ground arith
        ]

IsAddition-cases :
    (env : Env) (id : String) (actor : Option String) (user_ids : List String) (db : Db)
    (r : ℕ × Conversation) (db' : Db)
    → add_members tables env id actor user_ids db ≡ done (r, db')
    → IsAddition env id user_ids db db'
unfolding add_members
IsAddition-cases env id actor user_ids db r db' e = elim (Option-cases (truthy actor)) [
  | inl anonymous ↦ ground arith
  | inr (actor_user_id, named_actor) ↦ elim (Option-cases (conversation_row tables db id)) [
    | inl missing ↦ ground arith
    | inr (c, row) ↦ elim (Option-cases (member_named actor_user_id (members_of tables db id))) [
      | inl stranger ↦ ground arith
      | inr (a, known) ↦ record {
        conversation = c;
        row = row;
        group = ground arith;
        grown = known-cases env id actor_user_id user_ids db r db' (ground arith);
      }
    ]
  ]
]

update-other :
    (k id user_id : String) (rows : List Member)
    → k ≢ id
    → in_conversation k (update_rows (is_row_of id user_id) promote rows) ≡ in_conversation k rows
update-other k id user_id [] h = refl
update-other k id user_id (m ∷ ms) h = ground (arith, update-other k id user_id ms)

without-other :
    (k id user_id : String) (rows : List Member)
    → k ≢ id
    → in_conversation k (without_row id user_id rows) ≡ in_conversation k rows
without-other k id user_id [] h = refl
without-other k id user_id (m ∷ ms) h = ground (arith, without-other k id user_id ms)

-- The conversation of a request is a group, so it is not the direct one.
elsewhere :
    (k id : String) (c d : Conversation) (db : Db)
    → conversation_row tables db k ≡ some c
    → is_group c.type ≡ false
    → conversation_row tables db id ≡ some d
    → is_group d.type ≡ true
    → k ≢ id
elsewhere k id c d db found direct row group same =
    (let other : conversation_row tables db id ≡ some c =
        subst (λ j. conversation_row tables db j ≡ some c) same found in
      ground arith)

removal-other :
    (order : JoinOrder) (env : Env) (k id user_id : String) (db db' : Db)
    → k ≢ id
    → Committed order env id user_id db (members_of tables db id) db'
    → in_conversation k db'.members ≡ in_conversation k db.members
unfolding Committed
removal-other order env k id user_id db db' there (inl (rows, promoted, same)) =
    let (s, grown, ruled) =
      successor_governs order id (without_row id user_id db.members) rows promoted in
    ap (in_conversation k) (same ∙ grown)
    ∙ update-other k id s.user_id (without_row id user_id db.members) there
    ∙ without-other k id user_id db.members there
removal-other order env k id user_id db db' there (inr (others, same)) =
    ap (in_conversation k) same ∙ without-other k id user_id db.members there

module _ (env : Env) (k id : String) (actor : Option String) (db : Db) (c : Conversation)
    (found : conversation_row tables db k ≡ some c) (direct : is_group c.type ≡ false) where
  addition-fixed :
      (user_ids : List String)
      → in_conversation k (db_after db (add_members tables env id actor user_ids db)).members
        ≡ in_conversation k db.members
  addition-fixed user_ids = elim (Attempt-cases (add_members tables env id actor user_ids db)) [
    | inr (f, failed) ↦ ap (λ x. in_conversation k (db_after db x).members) failed
    | inl ((r, db'), answered) ↦
        let a = IsAddition-cases env id actor user_ids db r db' answered in
        ap (λ x. in_conversation k (db_after db x).members) answered
        ∙ ap (in_conversation k) a.grown
        ∙ add_rows-other env k id user_ids db.members
            (elsewhere k id c a.conversation db found direct a.row a.group)
  ]

  removal-fixed :
      (order : JoinOrder) (user_id : String)
      → in_conversation k (db_after db (remove_member tables order env id user_id actor db)).members
        ≡ in_conversation k db.members
  removal-fixed order user_id =
      elim (Attempt-cases (remove_member tables order env id user_id actor db)) [
        | inr (f, failed) ↦ ap (λ x. in_conversation k (db_after db x).members) failed
        | inl ((r, db'), answered) ↦
            ap (λ x. in_conversation k (db_after db x).members) answered
            ∙ elim (IsRemoval-cases order env id user_id actor db r db' answered) [
              | inl same ↦ ap (λ d. in_conversation k d.members) same
              | inr removal ↦
                  removal-other order env k id user_id db db'
                    (elsewhere k id c removal.conversation db found direct removal.row
                      removal.group)
                    removal.committed
            ]
      ]

-- Neither an addition nor a removal, of whatever users, by whatever actor, in whatever conversation,
-- changes the membership of a DIRECT conversation: it stays exactly its pair.
pub direct_fixed :
    (P : Prisma) (h : IsPrisma P) (order : JoinOrder) (env : Env) (k id user_id : String)
    (user_ids : List String) (actor : Option String) (db : Db) (c : Conversation)
    → conversation_row P db k ≡ some c
    → is_group c.type ≡ false
    → (in_conversation k (db_after db (add_members P env id actor user_ids db)).members
        ≡ in_conversation k db.members)
      × (in_conversation k (db_after db (remove_member P order env id user_id actor db)).members
          ≡ in_conversation k db.members)
direct_fixed P h order env k id user_id user_ids actor db c =
    by_tables
      (λ P.
        conversation_row P db k ≡ some c
        → is_group c.type ≡ false
        → (in_conversation k (db_after db (add_members P env id actor user_ids db)).members
            ≡ in_conversation k db.members)
          × (in_conversation k (db_after db (remove_member P order env id user_id actor db)).members
              ≡ in_conversation k db.members))
      h
      (λ found direct. (
        addition-fixed env k id actor db c found direct user_ids,
        removal-fixed env k id actor db c found direct order user_id,
      ))
