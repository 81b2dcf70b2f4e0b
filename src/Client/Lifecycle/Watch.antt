-- ===== src/Client/Lifecycle/Watch.antt =====
-- What watches over an entry: an armed timer, or a publish of its own under way.
use mqtt_chat.Base.{
  ℕ, zero, suc, String, string_discrete, some, Bool, true, false, not, ◌||◌, List, [], ◌∷◌, ◌++◌,
  map, filter, any, all, ◌==◌, string_eq, if◌then◌else◌, ◌≡◌, refl, arith, Bool-cases, Option-cases,
  inl, inr,
}
use mqtt_chat.Client.Model.{PendingMessage}
use mqtt_chat.Client.Lifecycle.{
  Lifecycle, Flight, is_failed, named, set_pending, without_timeout, take_flight,
}

abbrev pub armed : List String → String → Bool
armed ts id = any (λ t. t == id) ts

abbrev pub flying : List Flight → String → Bool
flying fs id = any (λ (f : Flight). f.client_message_id == id) fs

abbrev pub is_watched : List String → List Flight → PendingMessage → Bool
is_watched ts fs p = is_failed p || (armed ts p.client_message_id || flying fs p.client_message_id)

abbrev pub IsWatched : Lifecycle → Type 0
IsWatched s = all (is_watched s.timeouts s.flights) s.pending ≡ true

pub armed-without :
    (id : String) (ts : List String) (j : String)
    → (j == id) ≡ false
    → armed (without_timeout id ts) j ≡ armed ts j
armed-without id [] j other = refl
armed-without id (t ∷ ts) j other = ground (arith, armed-without id ts j)

pub armed-append :
    (ts : List String) (id j : String) → armed (ts ++ id ∷ []) j ≡ (armed ts j || (id == j))
armed-append [] id j = ground arith
armed-append (t ∷ ts) id j = ground (arith, armed-append ts id j)

-- A change about one message: whatever has another id is watched as before.
abbrev pub Spares : List String → List Flight → List String → List Flight → String → Type 0
Spares ts fs ts' fs' id =
    (q : PendingMessage)
    → named id q ≡ false
    → is_watched ts fs q ≡ true
    → is_watched ts' fs' q ≡ true

module _ (ts : List String) (fs : List Flight) (ts' : List String) (fs' : List Flight) where
  all-replaced :
      (p : PendingMessage) (ps : List PendingMessage)
      → Spares ts fs ts' fs' p.client_message_id
      → is_watched ts' fs' p ≡ true
      → all (is_watched ts fs) ps ≡ true
      → all (is_watched ts' fs') (map (λ q. if named p.client_message_id q then p else q) ps) ≡ true
  all-replaced p [] spares new h = refl
  all-replaced p (q ∷ ps) spares new h = ground (arith, spares q, all-replaced p ps spares new)

  all-added :
      (p : PendingMessage) (ps : List PendingMessage)
      → Spares ts fs ts' fs' p.client_message_id
      → is_watched ts' fs' p ≡ true
      → any (named p.client_message_id) ps ≡ false
      → all (is_watched ts fs) ps ≡ true
      → all (is_watched ts' fs') (ps ++ p ∷ []) ≡ true
  all-added p [] spares new fresh h = ground arith
  all-added p (q ∷ ps) spares new fresh h = ground (arith, spares q, all-added p ps spares new)

  pub all-set :
      (p : PendingMessage) (ps : List PendingMessage)
      → Spares ts fs ts' fs' p.client_message_id
      → is_watched ts' fs' p ≡ true
      → all (is_watched ts fs) ps ≡ true
      → all (is_watched ts' fs') (set_pending ps p) ≡ true
  all-set p ps spares new h = elim (Bool-cases (any (named p.client_message_id) ps)) [
    | inl known ↦ ground (arith, all-replaced p ps spares new h)
    | inr fresh ↦ ground (arith, all-added p ps spares new fresh h)
  ]

  pub all-dropped :
      (id : String) (ps : List PendingMessage)
      → Spares ts fs ts' fs' id
      → all (is_watched ts fs) ps ≡ true
      → all (is_watched ts' fs') (filter (λ p. not (named id p)) ps) ≡ true
  all-dropped id [] spares h = refl
  all-dropped id (q ∷ ps) spares h = ground (arith, spares q, all-dropped id ps spares)

  pub all-absent :
      (id : String) (ps : List PendingMessage)
      → Spares ts fs ts' fs' id
      → any (named id) ps ≡ false
      → all (is_watched ts fs) ps ≡ true
      → all (is_watched ts' fs') ps ≡ true
  all-absent id [] spares none_there h = refl
  all-absent id (q ∷ ps) spares none_there h = ground (arith, spares q, all-absent id ps spares)

  pub all-same :
      (id : String) (ps : List PendingMessage)
      → Spares ts fs ts' fs' id
      → (armed ts' id || flying fs' id) ≡ true
      → all (is_watched ts fs) ps ≡ true
      → all (is_watched ts' fs') ps ≡ true
  all-same id [] spares there h = refl
  all-same id (q ∷ ps) spares there h = elim (string_discrete q.client_message_id id) [
    | yes same ↦ ground (arith, all-same id ps spares there)
    | no other ↦ ground (arith, spares q, all-same id ps spares there)
  ]

pub flying-take :
    (n : ℕ) (fs : List Flight) (f : Flight) (rest : List Flight) (j : String)
    → take_flight n fs ≡ some (f, rest)
    → flying fs j ≡ ((f.client_message_id == j) || flying rest j)
unfolding take_flight
flying-take n [] f rest j e = cc
flying-take zero (g ∷ fs) f rest j e = ground arith
flying-take (suc n) (g ∷ fs) f rest j e = elim (Option-cases (take_flight n fs)) [
  | inl missing ↦ ground (arith, missing)
  | inr ((h, more), found) ↦ ground (arith, found, flying-take n fs h more j found)
]
