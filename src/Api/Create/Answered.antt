-- ===== src/Api/Create/Answered.antt =====
-- That a request for a DIRECT conversation that exists already is answered.
use mqtt_chat.Base.{
  String, some, true, false, List, [], ◌∷◌, ◌++◌, ◌==◌, string_eq, nat_eq, find, filter, any,
  length, map, ◌≡◌, refl, sym, subst, inl, inr, arith, Option-cases, Bool-cases, any-append,
}
use mqtt_chat.Store.Rows.{Db, Member, Conversation}
use mqtt_chat.Store.Prisma.{tables}
use mqtt_chat.Api.Reply.{Env, Attempt, done, raised, ◌>>=◌, members_of, includes}
use mqtt_chat.Api.Members.{new_member, is_row_of}
use mqtt_chat.Api.PairKey.{direct_pair_key_for}
use mqtt_chat.Api.Create.{
  CreateConversation, Created, CreationOrder, reply, create_members, add_missing,
  repair_direct_membership, create_with_outbox_event, keyed_row, reuse_winner, is_legacy, adopt,
  create_direct,
}
use mqtt_chat.Api.Create.Handed.{holder, IsKept}
use mqtt_chat.Api.Create.Caught.{
  IsDone, newcomers, reread-after, winner-IsDone, create-IsCaught, adopt-IsCaught,
}

outsider :
    (id u : String) (rows : List Member)
    → includes (map (λ (m : Member). m.user_id) (filter (λ m. m.conversation_id == id) rows)) u
      ≡ false
    → any (is_row_of id u) rows ≡ false
outsider id u [] h = refl
outsider id u (m ∷ rows) h = ground (arith, outsider id u rows)

create_one :
    (m : Member) (rows : List Member)
    → any (is_row_of m.conversation_id m.user_id) rows ≡ false
    → create_members tables (m ∷ []) rows ≡ done (rows ++ m ∷ [])
unfolding create_members
create_one m rows fresh = rw (fresh, create_members) refl

create_two :
    (m n : Member) (rows : List Member)
    → any (is_row_of m.conversation_id m.user_id) rows ≡ false
    → any (is_row_of n.conversation_id n.user_id) (rows ++ m ∷ []) ≡ false
    → create_members tables (m ∷ n ∷ []) rows ≡ done ((rows ++ m ∷ []) ++ n ∷ [])
unfolding create_members
create_two m n rows fresh fresh_too = rw (fresh, fresh_too, create_members) refl

newcomers-IsDone :
    (env : Env) (id a b : String) (rows : List Member)
    → (a == b) ≡ false
    → IsDone (
        create_members tables
          (newcomers env id (a ∷ b ∷ []) (filter (λ m. m.conversation_id == id) rows))
          rows)
unfolding create_members
newcomers-IsDone env id a b rows differ =
    let present = map (λ (m : Member). m.user_id) (filter (λ m. m.conversation_id == id) rows) in
    let m = new_member env id a in
    let n = new_member env id b in
    elim (Bool-cases (includes present a)) [
      | inl a_in ↦ elim (Bool-cases (includes present b)) [
        | inl b_in ↦ rw (a_in, b_in) tt
        | inr b_out ↦ rw (a_in, b_out, create_one n rows (outsider id b rows b_out)) tt
      ]
      | inr a_out ↦ elim (Bool-cases (includes present b)) [
        | inl b_in ↦ rw (a_out, b_in, create_one m rows (outsider id a rows a_out)) tt
        | inr b_out ↦
            let fresh = outsider id a rows a_out in
            let fresh_too : any (is_row_of id b) (rows ++ m ∷ []) ≡ false =
              ground (arith, outsider id b rows b_out, any-append (is_row_of id b) rows (m ∷ [])) in
            rw (a_out, b_out, create_two m n rows fresh fresh_too) tt
      ]
    ]

repair-IsDone :
    (env : Env) (key id a b : String) (db : Db)
    → (a == b) ≡ false
    → holder key db.conversations ≡ some id
    → IsDone (repair_direct_membership tables env id (a ∷ b ∷ []) db)
unfolding repair_direct_membership add_missing
repair-IsDone env key id a b db differ held =
    let members = filter (λ m. m.conversation_id == id) db.members in
    let made = create_members tables (newcomers env id (a ∷ b ∷ []) members) db.members in
    (reread-after key id db made held).1 (newcomers-IsDone env id a b db.members differ)

map-IsDone :
    (x : Attempt (Conversation × Db)) (answer : Conversation → Created)
    → IsDone x
    → IsDone (◌>>=◌ {B = Created × Db} x (λ p. done (answer p.0, p.1)))
map-IsDone (done (c, d)) answer ends = tt
map-IsDone (raised e) answer ends = absurd ends

pub keys_differ : (a b key : String) → direct_pair_key_for a b ≡ some key → (a == b) ≡ false
unfolding direct_pair_key_for
keys_differ a b key e = ground arith

-- Whatever a request has read, if a conversation has the key of its pair when it commits.
pub direct-IsDone :
    (order : CreationOrder) (env : Env) (data_ : CreateConversation) (seen db : Db)
    (a b key i : String)
    → IsKept key seen db
    → holder key db.conversations ≡ some i
    → direct_pair_key_for a b ≡ some key
    → IsDone (create_direct tables order env data_ a b seen db)
unfolding create_direct
direct-IsDone order env data_ seen db a b key i kept held keyed_by =
    elim (Option-cases (keyed_row tables seen key)) [
      | inr (c, found) ↦ elim (Bool-cases (length (members_of tables seen c.id) == 2)) [
        | inl whole ↦
            let e : create_direct tables order env data_ a b seen db
                ≡ done (reply c true false false, db) =
              ground arith in
            subst IsDone (sym e) tt
        | inr partial ↦
            let repaired = repair_direct_membership tables env c.id (a ∷ b ∷ []) db in
            let answer : Conversation → Created = λ c. reply c true true false in
            let e : create_direct tables order env data_ a b seen db
                ≡ ◌>>=◌ {B = Created × Db} repaired (λ p. done (answer p.0, p.1)) =
              ground arith in
            subst IsDone (sym e) (
              map-IsDone repaired answer (
                repair-IsDone env key c.id a b db (keys_differ a b key keyed_by)
                  (kept c.id (ground (arith, found)))))
      ]
      | inl missing ↦
          elim (Option-cases
            (find (λ _. true) (order (filter (is_legacy tables seen a b) seen.conversations)))) [
              | inr (legacy, old) ↦
                  let members = members_of tables seen legacy.id in
                  let adopted = adopt tables env key a b legacy members db in
                  let answer : Conversation → Created = λ c. reply c true false true in
                  let e : create_direct tables order env data_ a b seen db
                      ≡ reuse_winner tables key db adopted answer =
                    ground arith in
                  subst IsDone (sym e) (
                    winner-IsDone key i db adopted answer held
                      (adopt-IsCaught env key a b i legacy members db held))
              | inl new ↦
                  let created = create_with_outbox_event tables env data_ (some key) db in
                  let answer : Conversation → Created = λ c. reply c false false false in
                  let e : create_direct tables order env data_ a b seen db
                      ≡ reuse_winner tables key db created answer =
                    ground arith in
                  subst IsDone (sym e) (
                    winner-IsDone key i db created answer held
                      (create-IsCaught env data_ key i db held))
            ]
    ]
