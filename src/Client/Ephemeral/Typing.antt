-- ===== src/Client/Ephemeral/Typing.antt =====
-- How long the web client shows a user as typing.
use mqtt_chat.Base.{
  ℕ, String, string_discrete, none, Bool, true, false, not, List, [], ◌∷◌, filter, ◌==◌, string_eq,
  nat_eq, length, ◌≡◌, ◌≢◌, refl, sym, ap, ◌∙◌, subst, arith, Bool-cases, Option-cases, inl, inr,
  any, ==_refl, List-cases, ◌⊎◌, length-filter-le,
}
use mqtt_chat.Client.Dict.{Dict, get, get-put, get-drop}
use mqtt_chat.Client.Ephemeral.{
  Ephemeral, includes, typers, seen_in, expired, drop_all, sweep_one, keys, sweep_keys, sweep,
  set_presence, grace_over, forget_typing, reset_ephemeral, Event, typing, presence_changed, swept,
  timer, removed, reset, step, run,
}
use mqtt_chat.Client.Ephemeral.Receipts.{
  stamped, fresh, IsStamped, IsFresh, includes-filter, get-drop_all, by_key, typing-IsStamped,
}
use mqtt_chat.Client.Ephemeral.Traces.{began_lately, sweep-seen, run-seen, lately}

-- What the sweep of a conversation leaves there.
abbrev SweptAt : ℕ → Ephemeral → String → Type 0
SweptAt now s k =
    (v : String)
    → includes v (typers s k) ≡ true
    → (stamped v (seen_in s k) ≡ true) × (fresh now v (seen_in s k) ≡ true)

length-filter-all :
    (p : String → Bool) (us : List String) → length (filter p us) ≡ length us → filter p us ≡ us
length-filter-all p [] h = refl
length-filter-all p (u ∷ us) h = elim (Bool-cases (p u)) [
  | inl passes ↦
      let rest = length-filter-all p us (ground (arith, passes)) in ground (arith, passes, rest)
  | inr fails ↦ absurd (ground (arith, fails, length-filter-le p us))
]

module _ (now : ℕ) (k v : String) (seen : Dict ℕ) (current : List String) where
  abbrev alive : List String
  alive = filter (λ u. not (expired now seen u)) current

  abbrev rest : Dict ℕ
  rest = drop_all (filter (expired now seen) current) seen

  swept-alive :
      includes v alive ≡ true
      → (includes v current ≡ true → stamped v seen ≡ true)
      → (stamped v rest ≡ true) × (fresh now v rest ≡ true)
  swept-alive h receipt =
      let kept = includes-filter v (λ u. not (expired now seen u)) current in
      let gone = includes-filter v (expired now seen) current in
      let at = get-drop_all v (filter (expired now seen) current) seen in
      let there : includes v current ≡ true = ground arith in
      let living : expired now seen v ≡ false = ground arith in
      let has = receipt there in (ground arith, ground arith)

sweep-here :
    (now : ℕ) (k : String) (s : Ephemeral) → IsStamped s → SweptAt now (sweep_one now k s) k
unfolding sweep_one
sweep-here now k s inv v = elim (Option-cases (get k s.typing_seen)) [
  | inl unseen ↦ λ h. absurd (ground (arith, unseen, inv.receipt k v))
  | inr (seen, there) ↦
      let current = typers s k in
      let receipt : includes v current ≡ true → stamped v seen ≡ true =
        λ h. ground (arith, there, inv.receipt k v) in
      let there_now = alive now k v seen current in
      let left = rest now k v seen current in
      elim (List-cases current) [
        | inl nobody ↦ λ h. absurd (ground (arith, there, nobody))
        | inr (x, xs, somebody) ↦
            let busy : (length current == 0) ≡ false = ground (arith, somebody) in
            let seen_now : seen_in (sweep_one now k s) k ≡ left =
              ground (arith, there, busy, get-put k k left s.typing_seen, ==_refl k) in
            let typing_now : typers (sweep_one now k s) k ≡ there_now =
              elim (Bool-cases (length there_now == length current)) [
                | inl same ↦
                    let all_there =
                      length-filter-all (λ u. not (expired now seen u)) current (ground arith) in
                    ground (arith, there, busy, same, all_there)
                | inr fewer ↦
                    ground
                      (arith, there, busy, fewer, get-put k k there_now s.typing_users, ==_refl k)
              ] in
            λ h.
              let kept =
                swept-alive now k v seen current (sym (ap (includes v) typing_now) ∙ h) receipt in
              (ap (stamped v) seen_now ∙ kept.0, ap (fresh now v) seen_now ∙ kept.1)
      ]
]

sweep-other :
    (now : ℕ) (k j : String) (s : Ephemeral)
    → k ≢ j
    → (typers (sweep_one now k s) j ≡ typers s j) × (seen_in (sweep_one now k s) j ≡ seen_in s j)
unfolding sweep_one
sweep-other now k j s other = elim (Option-cases (get k s.typing_seen)) [
  | inl unseen ↦ (ground (arith, unseen), ground (arith, unseen))
  | inr (seen, there) ↦
      let current = typers s k in
      let alive = filter (λ u. not (expired now seen u)) current in
      let rest = drop_all (filter (expired now seen) current) seen in
      (
        ground (arith, there, get-put k j alive s.typing_users),
        ground (arith, there, get-put k j rest s.typing_seen),
      )
]

sweep_one-IsStamped :
    (now : ℕ) (k : String) (s : Ephemeral) → IsStamped s → IsStamped (sweep_one now k s)
sweep_one-IsStamped now k s inv =
    by_key (sweep_one now k s) k (λ v h. (sweep-here now k s inv v h).0)
      (λ j other v h.
        let same = sweep-other now k j s other in
        ap (stamped v) same.1 ∙ inv.receipt j v (sym (ap (includes v) same.0) ∙ h))

sweep_one-keeps :
    (now : ℕ) (k j : String) (s : Ephemeral)
    → IsStamped s
    → IsFresh now s j
    → IsFresh now (sweep_one now k s) j
sweep_one-keeps now k j s inv h = elim (string_discrete k j) [
  | yes same ↦ subst (IsFresh now (sweep_one now k s)) same (λ v g. (sweep-here now k s inv v g).1)
  | no other ↦ λ v g.
      let at_j = sweep-other now k j s other in
      ap (fresh now v) at_j.1 ∙ h v (sym (ap (includes v) at_j.0) ∙ g)
]

sweep_keys-IsFresh :
    (now : ℕ) (ks : List String) (j : String) (s : Ephemeral)
    → IsStamped s
    → (includes j ks ≡ true) ⊎ IsFresh now s j
    → IsStamped (sweep_keys now ks s) × IsFresh now (sweep_keys now ks s) j
unfolding sweep_keys
sweep_keys-IsFresh now [] j s inv (inl h) = cc
sweep_keys-IsFresh now [] j s inv (inr h) = (inv, h)
sweep_keys-IsFresh now (k ∷ ks) j s inv (inr h) =
    sweep_keys-IsFresh now ks j (sweep_one now k s) (sweep_one-IsStamped now k s inv)
      (inr (sweep_one-keeps now k j s inv h))
sweep_keys-IsFresh now (k ∷ ks) j s inv (inl h) = elim (string_discrete k j) [
  | yes same ↦
      sweep_keys-IsFresh now ks j (sweep_one now k s) (sweep_one-IsStamped now k s inv)
        (inr (subst (IsFresh now (sweep_one now k s)) same (λ v g. (sweep-here now k s inv v g).1)))
  | no other ↦
      sweep_keys-IsFresh now ks j (sweep_one now k s) (sweep_one-IsStamped now k s inv)
        (inl (ground arith))
]

keys-get : (k : String) (d : Dict (Dict ℕ)) → includes k (keys d) ≡ false → get k d ≡ none
keys-get k [] h = refl
keys-get k ((j, x) ∷ d) h = ground (arith, keys-get k d)

sweep-IsFresh :
    (now : ℕ) (j : String) (s : Ephemeral)
    → IsStamped s
    → IsStamped (sweep now s) × IsFresh now (sweep now s) j
unfolding sweep
sweep-IsFresh now j s inv =
    sweep_keys-IsFresh now (keys s.typing_seen) j s inv
      (elim (Bool-cases (includes j (keys s.typing_seen))) [
        | inl listed ↦ inl listed
        | inr unseen ↦
            inr (λ v h. absurd (ground (arith, inv.receipt j v, keys-get j s.typing_seen unseen)))
      ])

step-IsStamped : (e : ℕ × Event) (s : Ephemeral) → IsStamped s → IsStamped (step e s)
unfolding step set_presence grace_over forget_typing reset_ephemeral
step-IsStamped (now, typing k u started) s inv = typing-IsStamped now k u started s inv
step-IsStamped (now, presence_changed u true) s inv = record { receipt = inv.receipt }
step-IsStamped (now, presence_changed u false) s inv = record {
  receipt = λ k v h. ground (arith, inv.receipt k v);
}
step-IsStamped (now, swept) s inv = (sweep-IsFresh now "" s inv).0
step-IsStamped (now, timer u) s inv = record { receipt = λ k v h. ground (arith, inv.receipt k v) }
step-IsStamped (now, removed k) s inv = record {
  receipt = λ j v h. ground (arith, inv.receipt j v, get-drop k j s.typing_users);
}
step-IsStamped (now, reset) s inv = record { receipt = λ k v h. cc }

run-IsStamped : (es : List (ℕ × Event)) (s : Ephemeral) → IsStamped s → IsStamped (run es s)
unfolding run
run-IsStamped [] s inv = inv
run-IsStamped (e ∷ es) s inv = run-IsStamped es (step e s) (step-IsStamped e s inv)

-- Whatever events come, from a state in which nobody types and no receipt is left, if a user is shown as typing in a
-- conversation after a sweep, then one of the events was that the user began, or went on, to type there, less
-- than eight seconds before the sweep.
pub typing_ends :
    (es : List (ℕ × Event)) (s : Ephemeral) (now : ℕ) (k u : String)
    → s.typing_users ≡ []
    → s.typing_seen ≡ []
    → includes u (typers (sweep now (run es s)) k) ≡ true
    → any (began_lately now k u) es ≡ true
typing_ends es s now k u nobody unseen shown =
    let inv = run-IsStamped es s (record { receipt = λ j v h. ground arith }) in
    let is_fresh = (sweep-IsFresh now k (run es s) inv).1 u shown in
    elim (Option-cases (get u (seen_in (sweep now (run es s)) k))) [
      | inl missing ↦ absurd (ground (arith, missing))
      | inr (at, found) ↦
          let before = sweep-seen k u at now (run es s) (ground (arith, found)) in
          let began = run-seen k u at es s before in
          lately k u at now es (ground (arith, found)) (ground (arith, unseen))
    ]
