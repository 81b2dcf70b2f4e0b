-- ===== src/Api/Create/Handed.antt =====
-- The conversation that has the key of a pair of users, after a create and after an adoption.
use mqtt_chat.Base.{
  String, Option, none, some, true, false, not, ◌&&◌, List, [], ◌∷◌, ◌++◌, ◌==◌, string_eq, nat_eq,
  find, filter, any, length, map, ◌≡◌, refl, sym, ap, ◌∙◌, subst, inl, inr, arith, Option-cases,
  Bool-cases, find-test, any_never,
}
use mqtt_chat.Store.Rows.{Db, Member, Conversation}
use mqtt_chat.Store.Prisma.{update_rows, tables}
use mqtt_chat.Api.Reply.{
  Env, unique_violation, record_not_found, Attempt, done, raised, ◌>>=◌, Attempt-cases, includes,
}
use mqtt_chat.Api.Members.{new_member}
use mqtt_chat.Api.Create.{
  CreateConversation, Created, has_key, created_conversation, created_members, conversation_clash,
  create_members, add_missing, reread, create_with_outbox_event, adopt,
}

-- The id of the conversation that has the key.
abbrev pub holder : String → List Conversation → Option String
holder key rows = elim (find (has_key key) rows) [ none ↦ none | some c ↦ some c.id ]

-- What has been read may be out of date, but a conversation that had the key then has it still.
abbrev pub IsKept : String → Db → Db → Type 0
IsKept key seen db =
    (i : String) → holder key seen.conversations ≡ some i → holder key db.conversations ≡ some i

-- An answer that hands out the conversation `id`, which has the key.
abbrev pub IsAt : String → String → Attempt (Conversation × Db) → Type 0
IsAt key id (done (c, d)) = (c.id ≡ id) × (holder key d.conversations ≡ some id)
IsAt key id (raised e) = Unit

-- An answer that hands out the conversation that has the key, and no other one had it before.
abbrev pub Hands : String → Db → Conversation → Db → Type 0
Hands key db c d =
    (holder key d.conversations ≡ some c.id)
    × ((i : String) → holder key db.conversations ≡ some i → i ≡ c.id)

abbrev pub HandsRow : String → Db → Attempt (Conversation × Db) → Type 0
HandsRow key db (done (c, d)) = Hands key db c d
HandsRow key db (raised e) = Unit

abbrev pub HandsOut : String → Db → Attempt (Created × Db) → Type 0
HandsOut key db (done (r, d)) = Hands key db r.conversation d
HandsOut key db (raised e) = Unit

pub at-HandsRow :
    (key id : String) (db : Db) (x : Attempt (Conversation × Db))
    → ((i : String) → holder key db.conversations ≡ some i → i ≡ id)
    → IsAt key id x
    → HandsRow key db x
at-HandsRow key id db (done (c, d)) before (same, held) =
    (held ∙ ap some (sym same), λ i h. before i h ∙ sym same)
at-HandsRow key id db (raised e) before at = tt

reread-IsAt :
    (key id : String) (db : Db)
    → holder key db.conversations ≡ some id
    → IsAt key id (reread tables id db)
reread-IsAt key id db held = elim (Option-cases (find (λ c. c.id == id) db.conversations)) [
  | inl missing ↦
      let e : reread tables id db ≡ raised record_not_found = ground arith in
      subst (IsAt key id) (sym e) tt
  | inr (c, found) ↦
      let e : reread tables id db ≡ done (c, db) = ground arith in
      let same : c.id ≡ id = ground (arith, find-test (λ c. c.id == id) db.conversations c found) in
      subst (IsAt key id) (sym e) (same, held)
]

pub missing-IsAt :
    (env : Env) (key id : String) (pair : List String) (members : List Member) (db : Db)
    → holder key db.conversations ≡ some id
    → IsAt key id (add_missing tables env id pair members db >>= reread tables id)
unfolding add_missing
missing-IsAt env key id pair members db held =
    elim (Attempt-cases (create_members tables fresh db.members)) [
      | inl (rows, made) ↦
          let e : add_missing tables env id pair members db ≡ done (record db { members = rows }) =
            rw made refl in
          subst (λ x. IsAt key id (x >>= reread tables id)) (sym e)
            (reread-IsAt key id (record db { members = rows }) held)
      | inr (f, failed) ↦
          let e : add_missing tables env id pair members db ≡ raised f = rw failed refl in
          subst (λ x. IsAt key id (x >>= reread tables id)) (sym e) tt
    ]
  where
    fresh : List Member
    fresh =
        map (new_member env id)
          (filter (λ u. not (includes (map (λ (m : Member). m.user_id) members) u)) pair)

holder-concat :
    (key : String) (c : Conversation) (rows : List Conversation)
    → holder key rows ≡ none
    → has_key key c ≡ true
    → holder key (rows ++ c ∷ []) ≡ some c.id
holder-concat key c [] free mine = ground arith
holder-concat key c (r ∷ rows) free mine = ground (arith, holder-concat key c rows)

no_clash-holder :
    (key : String) (new : Conversation) (rows : List Conversation)
    → new.direct_pair_key ≡ some key
    → any (conversation_clash new) rows ≡ false
    → holder key rows ≡ none
no_clash-holder key new [] mine free = refl
no_clash-holder key new (r ∷ rows) mine free = ground (arith, no_clash-holder key new rows)

-- The only row that a key may have had before an adoption is the adopted one, which has it afterwards.
pub holder-before :
    (key id : String) (rows : List Conversation) (i : String)
    → any (λ c. has_key key c && not (c.id == id)) rows ≡ false
    → holder key rows ≡ some i
    → i ≡ id
holder-before key id [] i free held = cc
holder-before key id (r ∷ rows) i free held = ground (arith, holder-before key id rows i)

-- The rows with the key given to one of them.
abbrev pub keyed : Env → String → String → List Conversation → List Conversation
keyed env key id =
    update_rows (λ c. c.id == id)
      (λ c. record c { direct_pair_key = some key; updated_at = env.now })

pub holder-keyed :
    (env : Env) (key id : String) (rows : List Conversation)
    → any (λ c. has_key key c && not (c.id == id)) rows ≡ false
    → (length (filter (λ c. c.id == id) rows) == 0) ≡ false
    → holder key (keyed env key id rows) ≡ some id
holder-keyed env key id [] free there = ground arith
holder-keyed env key id (r ∷ rows) free there = ground (arith, holder-keyed env key id rows)

pub create-HandsRow :
    (env : Env) (data_ : CreateConversation) (key : String) (db : Db)
    → HandsRow key db (create_with_outbox_event tables env data_ (some key) db)
unfolding create_with_outbox_event
create-HandsRow env data_ key db =
    elim (Attempt-cases (create_with_outbox_event tables env data_ (some key) db)) [
      | inr (f, failed) ↦ subst (HandsRow key db) (sym failed) tt
      | inl ((c, d), committed) ↦
          elim (Bool-cases (any (conversation_clash created) db.conversations)) [
            | inl clash ↦ absurd (ground arith)
            | inr free ↦
                elim (Attempt-cases
                  (create_members tables (created_members env data_) db.members)) [
                    | inr (f, failed) ↦ absurd (ground arith)
                    | inl (rows, made) ↦
                        let e : d.conversations ≡ db.conversations ++ created ∷ [] =
                          ground (arith, any_never db.outbox) in
                        let same : c ≡ created = ground (arith, any_never db.outbox) in
                        let unheld = no_clash-holder key created db.conversations refl free in
                        let held =
                          holder-concat key created db.conversations unheld (ground arith) in
                        subst (HandsRow key db) (sym committed) (
                          ap (holder key) e ∙ held ∙ ap (λ x. some x.id) (sym same),
                          λ i h. cc (unheld, h),
                        )
                  ]
          ]
    ]
  where
    created : Conversation
    created = created_conversation env data_ (some key)

pub adopt-HandsRow :
    (env : Env) (key a b : String) (legacy : Conversation) (members : List Member) (db : Db)
    → HandsRow key db (adopt tables env key a b legacy members db)
unfolding adopt
adopt-HandsRow env key a b legacy members db =
    elim (Bool-cases (any (λ c. has_key key c && not (c.id == legacy.id)) db.conversations)) [
      | inl taken ↦
          let e : adopt tables env key a b legacy members db ≡ raised unique_violation =
            ground arith in
          subst (HandsRow key db) (sym e) tt
      | inr free ↦
          elim (Bool-cases (length (filter (λ c. c.id == legacy.id) db.conversations) == 0)) [
            | inl gone ↦
                let e : adopt tables env key a b legacy members db ≡ raised record_not_found =
                  ground arith in
                subst (HandsRow key db) (sym e) tt
            | inr there ↦
                let db' : Db = record db {
                  conversations = keyed env key legacy.id db.conversations;
                } in
                let answer =
                  add_missing tables env legacy.id (a ∷ b ∷ []) members db'
                  >>= reread tables legacy.id in
                let e : adopt tables env key a b legacy members db ≡ answer =
                  rw (free, there) refl in
                subst (HandsRow key db) (sym e) (
                  at-HandsRow key legacy.id db answer
                    (λ i h. holder-before key legacy.id db.conversations i free h)
                    (missing-IsAt env key legacy.id (a ∷ b ∷ []) members db'
                      (holder-keyed env key legacy.id db.conversations free there)))
          ]
    ]
