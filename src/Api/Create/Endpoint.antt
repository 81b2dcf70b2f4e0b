-- ===== src/Api/Create/Endpoint.antt =====
-- `createConversation` as a whole.
use mqtt_chat.Base.{
  String, none, true, false, ◌||◌, List, [], ◌∷◌, ◌++◌, string_eq, nat_eq, filter, any, map, ◌≡◌,
  refl, ap, ◌∙◌, inl, inr, arith, Bool-cases, any_never, any-append, List-cases,
}
use Prim.Native.String
use mqtt_chat.Store.Rows.{Db, Member}
use mqtt_chat.Store.Prisma.{Prisma, IsPrisma, tables, by_tables}
use mqtt_chat.Api.Reply.{
  Env, Raised, http, not_found, Attempt, done, raised, Attempt-cases, unknown_ids, bad_request,
  join, includes,
}
use mqtt_chat.Api.Members.{is_row_of, is_group, new_member}
use mqtt_chat.Api.Members.Admins.{has_admin, governs}
use mqtt_chat.Api.Create.{
  has_duplicates, role_of, CreateConversation, Created, CreationOrder, unique_ids,
  created_conversation, created_members, create_members, create_with_outbox_event, create_direct,
  create_group, create_conversation_at,
}

module _ (order : CreationOrder) (env : Env) (data_ : CreateConversation) (seen db : Db) where
  abbrev unknown_users : List String
  unknown_users =
      let candidates = unique_ids [] (data_.member_ids ++ data_.created_by ∷ []) in
      unknown_ids (filter (λ u. includes candidates u) seen.users) candidates

  abbrev grouped : Attempt (Created × Db)
  grouped = create_group tables order env data_ db

  -- The endpoint refuses, or creates a group, or deals with a pair.
  pub data Answer : Type 0 where
    refused :
        (e : Raised) → create_conversation_at tables order env data_ seen db ≡ raised e → Answer
    made_group :
        is_group data_.type ≡ true
        → includes data_.member_ids data_.created_by ≡ true
        → create_conversation_at tables order env data_ seen db ≡ grouped
        → Answer
    made_pair :
        (a b : String)
        → is_group data_.type ≡ false
        → create_conversation_at tables order env data_ seen db
          ≡ create_direct tables order env data_ a b seen db
        → data_.member_ids ≡ a ∷ b ∷ []
        → Answer

  abbrev not_two : Raised
  not_two =
      http not_found "BAD_REQUEST" "DIRECT conversations require exactly two distinct memberIds"

  by_ids :
      (ids : List String)
      → data_.member_ids ≡ ids
      → unknown_users ≡ []
      → has_duplicates data_.member_ids ≡ false
      → includes data_.member_ids data_.created_by ≡ true
      → is_group data_.type ≡ false
      → Answer
  unfolding create_conversation_at
  by_ids [] e known once inside direct =
      refused not_two (rw (known, once, inside, direct, e, create_conversation_at) refl)
  by_ids (a ∷ []) e known once inside direct =
      refused not_two (rw (known, once, inside, direct, e, create_conversation_at) refl)
  by_ids (a ∷ b ∷ []) e known once inside direct = made_pair a b direct (ground (arith, e)) e
  by_ids (a ∷ b ∷ c ∷ rest) e known once inside direct =
      refused not_two (rw (known, once, inside, direct, e, create_conversation_at) refl)

  pub path-cases : Answer
  unfolding create_conversation_at
  path-cases = elim (List-cases unknown_users) [
    | inr (x, xs, unknown) ↦
        refused
          (http not_found "USER_NOT_FOUND" (String.◌++◌ "Unknown userId(s): " (join ", " (x ∷ xs))))
          (rw (unknown, create_conversation_at) refl)
    | inl known ↦ elim (Bool-cases (has_duplicates data_.member_ids)) [
      | inl twice ↦
          refused (http bad_request "BAD_REQUEST" "memberIds contains duplicate userIds")
            (rw (known, twice, create_conversation_at) refl)
      | inr once ↦ elim (Bool-cases (includes data_.member_ids data_.created_by)) [
        | inr outside ↦
            refused (http bad_request "BAD_REQUEST" "createdBy must be one of memberIds")
              (rw (known, once, outside, create_conversation_at) refl)
        | inl inside ↦ elim (Bool-cases (is_group data_.type)) [
          | inl group ↦
              made_group group inside (rw (known, once, inside, group, create_conversation_at) refl)
          | inr direct ↦ by_ids data_.member_ids refl known once inside direct
        ]
      ]
    ]
  ]

create_members-governs :
    (k : String) (ms rows grown : List Member)
    → create_members tables ms rows ≡ done grown
    → has_admin k grown ≡ has_admin k rows || has_admin k ms
unfolding create_members
create_members-governs k [] rows grown e = ground arith
create_members-governs k (m ∷ ms) rows grown e =
    elim (Bool-cases (any (is_row_of m.conversation_id m.user_id) rows)) [
      | inl clash ↦ ground arith
      | inr fresh ↦ ground (
        arith,
        fresh,
        any-append (governs k) rows (m ∷ []),
        create_members-governs k ms (rows ++ m ∷ []) grown,
      )
    ]

creator_governs :
    (env : Env) (data_ : CreateConversation) (ids : List String)
    → is_group data_.type ≡ true
    → includes ids data_.created_by ≡ true
    → has_admin env.conversation_id (
        map
          (λ user_id. record (new_member env env.conversation_id user_id) {
            role = role_of data_ user_id;
          })
          ids)
      ≡ true
creator_governs env data_ [] group inside = cc
creator_governs env data_ (x ∷ xs) group inside = ground (arith, creator_governs env data_ xs)

group-tables :
    (order : CreationOrder) (env : Env) (data_ : CreateConversation) (seen db : Db) (r : Created)
    (db' : Db)
    → is_group data_.type ≡ true
    → create_conversation_at tables order env data_ seen db ≡ done (r, db')
    → (r.conversation ≡ created_conversation env data_ none)
      × (has_admin env.conversation_id db'.members ≡ true)
unfolding create_with_outbox_event
group-tables order env data_ seen db r db' group e = elim (path-cases order env data_ seen db) [
  | refused f same ↦ ground arith
  | made_pair a b direct same e ↦ ground arith
  | made_group g inside same ↦
      elim (Attempt-cases (create_members tables (created_members env data_) db.members)) [
        | inr (f, failed) ↦ ground (arith, same, failed)
        | inl (rows, made) ↦
            let ruled =
              create_members-governs env.conversation_id (created_members env data_) db.members rows
                made in
            let ruler = creator_governs env data_ data_.member_ids group inside in
            let stored : db'.members ≡ rows = ground (arith, same, made, any_never db.outbox) in
            let governed : has_admin env.conversation_id rows ≡ true =
              ground (arith, ruled, ruler) in
            (ground (arith, same, made), ap (has_admin env.conversation_id) stored ∙ governed)
      ]
]

-- A request to create a GROUP that is answered has created a new conversation, never reused one, and
-- its creator governs it from the start as an admin.
pub create_governed :
    (P : Prisma) (h : IsPrisma P) (order : CreationOrder) (env : Env) (data_ : CreateConversation)
    (seen db : Db) (r : Created) (db' : Db)
    → is_group data_.type ≡ true
    → create_conversation_at P order env data_ seen db ≡ done (r, db')
    → (r.conversation ≡ created_conversation env data_ none)
      × (has_admin env.conversation_id db'.members ≡ true)
create_governed P h order env data_ seen db r db' group =
    by_tables
      (λ P.
        create_conversation_at P order env data_ seen db ≡ done (r, db')
        → (r.conversation ≡ created_conversation env data_ none)
          × (has_admin env.conversation_id db'.members ≡ true))
      h (group-tables order env data_ seen db r db' group)
