-- ===== src/Api/Create/Caught.antt =====
-- How a create and an adoption end when the key of the pair is taken.
use mqtt_chat.Base.{
  String, none, some, true, false, not, ◌&&◌, List, [], ◌∷◌, ◌++◌, ◌==◌, string_eq, nat_eq, find,
  filter, any, length, map, ◌≡◌, refl, sym, ap, ◌∙◌, subst, inl, inr, arith, Option-cases,
  Bool-cases,
}
use mqtt_chat.Store.Rows.{Db, Member, Conversation}
use mqtt_chat.Store.Prisma.{tables}
use mqtt_chat.Api.Reply.{
  Env, http, unique_violation, record_not_found, schema_error, Attempt, done, raised, ◌>>=◌,
  includes,
}
use mqtt_chat.Api.Members.{new_member, is_row_of}
use mqtt_chat.Api.Create.{
  CreateConversation, Created, has_key, created_conversation, reply, conversation_clash,
  create_members, add_missing, reread, create_with_outbox_event, reuse_winner, adopt,
}
use mqtt_chat.Api.Create.Handed.{holder, keyed, holder-keyed, holder-before}

abbrev pub IsDone : {A : Type 0} → Attempt A → Type 0
IsDone (done a) = Unit
IsDone (raised e) = ⊥

-- An attempt that ends well, or on which the endpoint looks for the row that won the race.
abbrev pub IsCaught : {A : Type 0} → Attempt A → Type 0
IsCaught (done a) = Unit
IsCaught (raised unique_violation) = Unit
IsCaught (raised (http status code message)) = ⊥
IsCaught (raised record_not_found) = ⊥
IsCaught (raised schema_error) = ⊥

holder-named :
    (key id : String) (rows : List Conversation)
    → holder key rows ≡ some id
    → find (λ c. c.id == id) rows ≡ none
    → ⊥
holder-named key id [] held missing = cc
holder-named key id (r ∷ rows) held missing = ground (arith, holder-named key id rows)

holder-counted :
    (key id : String) (rows : List Conversation)
    → holder key rows ≡ some id
    → (length (filter (λ c. c.id == id) rows) == 0) ≡ false
holder-counted key id [] held = cc
holder-counted key id (r ∷ rows) held = ground (arith, holder-counted key id rows)

holder-clashes :
    (key id : String) (new : Conversation) (rows : List Conversation)
    → new.direct_pair_key ≡ some key
    → holder key rows ≡ some id
    → any (conversation_clash new) rows ≡ true
holder-clashes key id new [] mine held = cc
holder-clashes key id new (r ∷ rows) mine held = ground (arith, holder-clashes key id new rows)

reread-IsDone :
    (key id : String) (db : Db)
    → holder key db.conversations ≡ some id
    → IsDone (reread tables id db)
reread-IsDone key id db held = elim (Option-cases (find (λ c. c.id == id) db.conversations)) [
  | inl missing ↦ absurd (holder-named key id db.conversations held missing)
  | inr (c, found) ↦
      let e : reread tables id db ≡ done (c, db) = ground arith in subst IsDone (sym e) tt
]

create_members-IsCaught : (ms rows : List Member) → IsCaught (create_members tables ms rows)
unfolding create_members
create_members-IsCaught [] rows = tt
create_members-IsCaught (m ∷ ms) rows =
    elim (Bool-cases (any (is_row_of m.conversation_id m.user_id) rows)) [
      | inl clash ↦
          let e : create_members tables (m ∷ ms) rows ≡ raised unique_violation =
            rw (clash, create_members) refl in
          subst IsCaught (sym e) tt
      | inr fresh ↦
          let e : create_members tables (m ∷ ms) rows ≡ create_members tables ms (rows ++ m ∷ []) =
            rw (fresh, create_members) refl in
          subst IsCaught (sym e) (create_members-IsCaught ms (rows ++ m ∷ []))
    ]

pub reread-after :
    (key id : String) (db : Db) (x : Attempt (List Member))
    → holder key db.conversations ≡ some id
    → (IsCaught x
        → IsCaught ((x >>= (λ rows. done (record db { members = rows }))) >>= reread tables id))
      × (IsDone x
          → IsDone ((x >>= (λ rows. done (record db { members = rows }))) >>= reread tables id))
reread-after key id db (done rows) held =
    let ends = reread-IsDone key id (record db { members = rows }) held in
    (λ caught. done-IsCaught (reread tables id (record db { members = rows })) ends, λ d. ends)
  where
    done-IsCaught : {A : Type 0} (x : Attempt A) → IsDone x → IsCaught x
    done-IsCaught (done a) d = tt
    done-IsCaught (raised e) d = absurd d
reread-after key id db (raised unique_violation) held = (λ caught. tt, λ d. d)
reread-after key id db (raised (http status code message)) held = (λ caught. caught, λ d. d)
reread-after key id db (raised record_not_found) held = (λ caught. caught, λ d. d)
reread-after key id db (raised schema_error) held = (λ caught. caught, λ d. d)

-- The users of a pair that are not members yet, and their rows.
abbrev pub newcomers : Env → String → List String → List Member → List Member
newcomers env id pair members =
    map (new_member env id)
      (filter (λ u. not (includes (map (λ (m : Member). m.user_id) members) u)) pair)

pub winner-IsDone :
    (key i : String) (db : Db) (x : Attempt (Conversation × Db)) (answer : Conversation → Created)
    → holder key db.conversations ≡ some i
    → IsCaught x
    → IsDone (reuse_winner tables key db x answer)
unfolding reuse_winner
winner-IsDone key i db (done (c, d)) answer held caught = tt
winner-IsDone key i db (raised unique_violation) answer held caught =
    elim (Option-cases (find (has_key key) db.conversations)) [
      | inl missing ↦ absurd (ground (arith, missing))
      | inr (c, found) ↦
          let e : reuse_winner tables key db (raised unique_violation) answer
              ≡ done (reply c true false false, db) =
            ground arith in
          subst IsDone (sym e) tt
    ]
winner-IsDone key i db (raised (http status code message)) answer held caught = absurd caught
winner-IsDone key i db (raised record_not_found) answer held caught = absurd caught
winner-IsDone key i db (raised schema_error) answer held caught = absurd caught

pub create-IsCaught :
    (env : Env) (data_ : CreateConversation) (key i : String) (db : Db)
    → holder key db.conversations ≡ some i
    → IsCaught (create_with_outbox_event tables env data_ (some key) db)
unfolding create_with_outbox_event
create-IsCaught env data_ key i db held =
    let clash =
      holder-clashes key i (created_conversation env data_ (some key)) db.conversations refl held in
    let e : create_with_outbox_event tables env data_ (some key) db ≡ raised unique_violation =
      rw (clash, create_with_outbox_event) refl in
    subst IsCaught (sym e) tt

pub adopt-IsCaught :
    (env : Env) (key a b i : String) (legacy : Conversation) (members : List Member) (db : Db)
    → holder key db.conversations ≡ some i
    → IsCaught (adopt tables env key a b legacy members db)
unfolding adopt add_missing
adopt-IsCaught env key a b i legacy members db held =
    elim (Bool-cases (any (λ c. has_key key c && not (c.id == legacy.id)) db.conversations)) [
      | inl taken ↦
          let e : adopt tables env key a b legacy members db ≡ raised unique_violation =
            rw taken refl in
          subst IsCaught (sym e) tt
      | inr free ↦
          let same = holder-before key legacy.id db.conversations i free held in
          let there : (length (filter (λ c. c.id == legacy.id) db.conversations) == 0) ≡ false =
            holder-counted key legacy.id db.conversations (held ∙ ap some same) in
          let db' : Db = record db { conversations = keyed env key legacy.id db.conversations } in
          let made =
            create_members tables (newcomers env legacy.id (a ∷ b ∷ []) members) db.members in
          let e : adopt tables env key a b legacy members db ≡ (
              (made >>= (λ rows. done (record db' { members = rows })))
              >>= reread tables legacy.id) =
            rw (free, there) refl in
          subst IsCaught (sym e) (
            (reread-after key legacy.id db' made
                (holder-keyed env key legacy.id db.conversations free there)).0
              (create_members-IsCaught (newcomers env legacy.id (a ∷ b ∷ []) members) db.members))
    ]
