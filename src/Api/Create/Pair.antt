-- ===== src/Api/Create/Pair.antt =====
-- Which conversation two users get who ask for their DIRECT conversation.
use mqtt_chat.Base.{
  String, some, true, false, [], ◌∷◌, ◌==◌, string_eq, nat_eq, find, filter, length, ◌≡◌, refl, sym,
  ap, ◌∙◌, subst, inl, inr, arith, Option-cases, Bool-cases,
}
use mqtt_chat.Store.Rows.{Db, Conversation}
use mqtt_chat.Store.Prisma.{tables}
use mqtt_chat.Api.Reply.{
  Env, http, unique_violation, record_not_found, schema_error, Attempt, done, raised, ◌>>=◌,
  members_of,
}
use mqtt_chat.Api.Members.{is_group}
use mqtt_chat.Api.PairKey.{direct_pair_key_for}
use mqtt_chat.Api.Create.Endpoint.{path-cases, refused, made_group, made_pair}
use mqtt_chat.Api.Create.{
  CreateConversation, Created, CreationOrder, has_key, reply, repair_direct_membership,
  create_with_outbox_event, keyed_row, reuse_winner, is_legacy, adopt, create_direct,
  create_conversation_at,
}
use mqtt_chat.Api.Create.Handed.{
  holder, IsKept, Hands, HandsRow, HandsOut, at-HandsRow, missing-IsAt, create-HandsRow,
  adopt-HandsRow,
}

winner-HandsOut :
    (key : String) (db : Db) (x : Attempt (Conversation × Db)) (answer : Conversation → Created)
    → ((c : Conversation) → (answer c).conversation ≡ c)
    → HandsRow key db x
    → HandsOut key db (reuse_winner tables key db x answer)
unfolding reuse_winner
winner-HandsOut key db (done (c, d)) answer same (held, before) = (
  held ∙ ap (λ (x : Conversation). some x.id) (sym (same c)),
  λ i h. before i h ∙ ap (λ (x : Conversation). x.id) (sym (same c)),
)
winner-HandsOut key db (raised unique_violation) answer same hands =
    elim (Option-cases (find (has_key key) db.conversations)) [
      | inl missing ↦
          let e : reuse_winner tables key db (raised unique_violation) answer
              ≡ raised unique_violation =
            ground arith in
          subst (HandsOut key db) (sym e) tt
      | inr (c, found) ↦
          let e : reuse_winner tables key db (raised unique_violation) answer
              ≡ done (reply c true false false, db) =
            ground arith in
          subst (HandsOut key db) (sym e) (ground (arith, found), λ i h. ground (arith, found))
    ]
winner-HandsOut key db (raised (http status code message)) answer same hands = tt
winner-HandsOut key db (raised record_not_found) answer same hands = tt
winner-HandsOut key db (raised schema_error) answer same hands = tt

map-HandsOut :
    (key : String) (db : Db) (x : Attempt (Conversation × Db)) (answer : Conversation → Created)
    → ((c : Conversation) → (answer c).conversation ≡ c)
    → HandsRow key db x
    → HandsOut key db (◌>>=◌ {B = Created × Db} x (λ p. done (answer p.0, p.1)))
map-HandsOut key db (done (c, d)) answer same (held, before) = (
  held ∙ ap (λ (x : Conversation). some x.id) (sym (same c)),
  λ i h. before i h ∙ ap (λ (x : Conversation). x.id) (sym (same c)),
)
map-HandsOut key db (raised e) answer same hands = tt

HandsOut-by :
    (key : String) (db : Db) {x : Attempt (Created × Db)} (y : Attempt (Created × Db))
    → x ≡ y
    → HandsOut key db y
    → HandsOut key db x
HandsOut-by key db y e hands = subst (HandsOut key db) (sym e) hands

module _ (order : CreationOrder) (env : Env) (data_ : CreateConversation) (seen db : Db)
    (key : String) (kept : IsKept key seen db) where
  abbrev repaired_as : Conversation → Created
  repaired_as c = reply c true true false

  existing-HandsOut :
      (a b : String) (c : Conversation)
      → direct_pair_key_for a b ≡ some key
      → keyed_row tables seen key ≡ some c
      → HandsOut key db (create_direct tables order env data_ a b seen db)
  unfolding create_direct repair_direct_membership
  existing-HandsOut a b c keyed_by found =
      let held : holder key db.conversations ≡ some c.id = kept c.id (ground (arith, found)) in
      elim (Bool-cases (length (members_of tables seen c.id) == 2)) [
        | inl whole ↦
            HandsOut-by key db (done (reply c true false false, db)) (ground arith)
              (held, λ i h. ground arith)
        | inr partial ↦
            let repaired = repair_direct_membership tables env c.id (a ∷ b ∷ []) db in
            HandsOut-by key db
              (◌>>=◌ {B = Created × Db} repaired (λ p. done (repaired_as p.0, p.1))) (ground arith)
              (map-HandsOut key db repaired repaired_as (λ c. refl)
                (at-HandsRow key c.id db repaired (λ i h. ground arith)
                  (missing-IsAt env key c.id (a ∷ b ∷ []) (members_of tables db c.id) db held)))
      ]

  direct-HandsOut :
      (a b : String)
      → direct_pair_key_for a b ≡ some key
      → HandsOut key db (create_direct tables order env data_ a b seen db)
  unfolding create_direct
  direct-HandsOut a b keyed_by = elim (Option-cases (keyed_row tables seen key)) [
    | inr (c, found) ↦ existing-HandsOut a b c keyed_by found
    | inl missing ↦
        elim (Option-cases
          (find (λ _. true) (order (filter (is_legacy tables seen a b) seen.conversations)))) [
            | inr (legacy, old) ↦
                let members = members_of tables seen legacy.id in
                let adopted = adopt tables env key a b legacy members db in
                HandsOut-by key db
                  (reuse_winner tables key db adopted (λ c. reply c true false true)) (ground arith)
                  (winner-HandsOut key db adopted (λ c. reply c true false true) (λ c. refl)
                    (adopt-HandsRow env key a b legacy members db))
            | inl new ↦
                let created = create_with_outbox_event tables env data_ (some key) db in
                HandsOut-by key db
                  (reuse_winner tables key db created (λ c. reply c false false false))
                  (ground arith)
                  (winner-HandsOut key db created (λ c. reply c false false false) (λ c. refl)
                    (create-HandsRow env data_ key db))
          ]
  ]

  pub endpoint-Hands :
      (a b : String) (r : Created) (db' : Db)
      → is_group data_.type ≡ false
      → data_.member_ids ≡ a ∷ b ∷ []
      → direct_pair_key_for a b ≡ some key
      → create_conversation_at tables order env data_ seen db ≡ done (r, db')
      → Hands key db r.conversation db'
  endpoint-Hands a b r db' direct ids keyed_by e = elim (path-cases order env data_ seen db) [
    | refused f same ↦ absurd (ground arith)
    | made_group group inside same ↦ absurd (ground arith)
    | made_pair c d other same pair ↦
        let keyed_too : direct_pair_key_for c d ≡ some key =
          cc (ap direct_pair_key_for (the_first c d pair), the_second c d pair, keyed_by) in
        subst (HandsOut key db) (sym same ∙ e) (direct-HandsOut c d keyed_too)
  ]
    where
      the_first : (c d : String) → data_.member_ids ≡ c ∷ d ∷ [] → c ≡ a
      the_first c d pair = cc

      the_second : (c d : String) → data_.member_ids ≡ c ∷ d ∷ [] → d ≡ b
      the_second c d pair = cc
