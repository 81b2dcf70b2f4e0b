-- ===== src/Client/Realtime/Ready.antt =====
-- When a client says that it is connected.
use mqtt_chat.Base.{
  ℕ, String, Option, none, some, Bool, true, false, not, ◌&&◌, ◌||◌, List, [], ◌∷◌, filter, any,
  all, count, length, ◌==◌, string_eq, nat_eq, ◌≡◌, refl, arith, Bool-cases, List-cases, ==_refl,
  inl, inr,
}
use mqtt_chat.Client.Realtime.{
  Options, patterns, Restoration, Session, ConnectionStatus, connected, offline, Event, opened,
  reconnect, closed, disconnected, error, granted, refused, has, acknowledge, is_done, without,
  report, grant, refuse, close, step, run, new_session, restore_subscriptions, settle,
}

abbrev pub acked : List (ℕ × String) → ℕ → String → Bool
acked grants n p = any (λ (g : ℕ × String). g.0 == n && g.1 == p) grants

-- Every pattern of the list is acknowledged for a connection.
abbrev pub complete : List (ℕ × String) → List String → ℕ → Bool
complete grants wanted n = all (acked grants n) wanted

abbrev tracked : List (ℕ × String) → List String → Restoration → Bool
tracked grants wanted r = all (λ p. has p r.waiting || acked grants r.connection p) wanted

all-imp :
    {A : Type 0} (p q : A → Bool) (xs : List A)
    → ((x : A) → p x ≡ true → q x ≡ true)
    → all p xs ≡ true
    → all q xs ≡ true
all-imp p q [] h a = refl
all-imp p q (x ∷ xs) h a = ground (arith, h x, all-imp p q xs h)

all-keep :
    {A : Type 0} (p q : A → Bool) (xs : List A) → all p xs ≡ true → all p (filter q xs) ≡ true
all-keep p q [] a = refl
all-keep p q (x ∷ xs) a = ground (arith, all-keep p q xs)

has-filter :
    (p q : String) (ps : List String)
    → (q == p) ≡ false
    → has q (filter (λ r. not (r == p)) ps) ≡ has q ps
has-filter p q [] other = refl
has-filter p q (r ∷ ps) other = ground (arith, has-filter p q ps other)

complete_more :
    (g : ℕ × String) (grants : List (ℕ × String)) (wanted : List String) (ns : List ℕ)
    → all (complete grants wanted) ns ≡ true
    → all (complete (g ∷ grants) wanted) ns ≡ true
complete_more g grants wanted ns =
    all-imp (complete grants wanted) (complete (g ∷ grants) wanted) ns
      (λ n. all-imp (acked grants n) (acked (g ∷ grants) n) wanted (λ p h. ground (arith, h)))

acknowledge-tracked :
    (n : ℕ) (p : String) (grants : List (ℕ × String)) (wanted : List String) (rs : List Restoration)
    → all (tracked grants wanted) rs ≡ true
    → all (tracked ((n, p) ∷ grants) wanted) (acknowledge n p rs) ≡ true
unfolding acknowledge
acknowledge-tracked n p grants wanted [] h = refl
acknowledge-tracked n p grants wanted (r ∷ rs) h =
    let same : all (tracked ((n, p) ∷ grants) wanted) (r ∷ []) ≡ true = ground (
      arith,
      all-imp (λ q. has q r.waiting || acked grants r.connection q)
          (λ q. has q r.waiting || acked ((n, p) ∷ grants) r.connection q) wanted
          (λ q a. ground (arith, a)),
    ) in
    let less : (r.connection == n) ≡ true
        → tracked ((n, p) ∷ grants) wanted
            (record r { waiting = filter (λ q. not (q == p)) r.waiting })
          ≡ true =
      λ mine.
        all-imp (λ q. has q r.waiting || acked grants r.connection q)
          (λ q.
            has q (filter (λ q'. not (q' == p)) r.waiting)
            || acked ((n, p) ∷ grants) r.connection q)
          wanted (λ q a. ground (arith, a, mine, has-filter p q r.waiting)) (ground arith) in
    elim (Bool-cases (r.connection == n)) [
      | inl mine ↦ ground (arith, mine, less mine, acknowledge-tracked n p grants wanted rs)
      | inr other ↦ ground (arith, other, same, acknowledge-tracked n p grants wanted rs)
    ]

done-complete :
    (n : ℕ) (grants : List (ℕ × String)) (wanted : List String) (rs : List Restoration)
    → all (tracked grants wanted) rs ≡ true
    → is_done n rs ≡ true
    → complete grants wanted n ≡ true
done-complete n grants wanted [] h d = cc
done-complete n grants wanted (r ∷ rs) h d = elim (Bool-cases (r.connection == n)) [
  | inr other ↦ done-complete n grants wanted rs (ground (arith, h)) (ground (arith, other, d))
  | inl mine ↦ elim (List-cases r.waiting) [
    | inl finished ↦
        all-imp (λ p. has p r.waiting || acked grants r.connection p) (acked grants n) wanted
          (λ p a. grind (arith, mine, finished, a)) (ground (arith, h))
    | inr (p, ps, waits) ↦
        done-complete n grants wanted rs (ground (arith, h)) (ground (arith, mine, waits, d))
  ]
]

all-has : (other : String → Bool) (ps : List String) → all (λ p. has p ps || other p) ps ≡ true
all-has other [] = refl
all-has other (p ∷ ps) = ground (
  arith,
  ==_refl p,
  all-imp (λ q. has q ps || other q) (λ q. has q (p ∷ ps) || other q) ps (λ q a. ground (arith, a))
      (all-has other ps),
)

abbrev pub is_connected : ConnectionStatus → Bool
is_connected status = elim status [ connected ↦ true | _ ↦ false ]

abbrev pub is_resolved : Option Bool → Bool
is_resolved none = false
is_resolved (some outcome) = outcome

abbrev pub is_never : List ℕ → Bool
is_never [] = true
is_never (n ∷ ns) = false

record IsTracked (wanted : List String) (s : Session) : Type 0 where
  rows : all (tracked s.granted wanted) s.restorations ≡ true
  done : all (complete s.granted wanted) s.ready ≡ true
  shown : count is_connected s.statuses ≡ length s.ready
  kept : (is_resolved s.settled && is_never s.ready) ≡ false

settle-false : (o : Option Bool) → is_resolved (settle false o) ≡ is_resolved o
settle-false none = refl
settle-false (some b) = refl

report-IsTracked :
    (wanted : List String) (n : ℕ) (s : Session)
    → complete s.granted wanted n ≡ true
    → IsTracked wanted s
    → IsTracked wanted (report n s)
unfolding report
report-IsTracked wanted n s whole h = elim (Bool-cases s.current) [
  | inr stale ↦ rw stale (record { rows = h.rows; done = h.done; shown = h.shown; kept = h.kept })
  | inl now ↦ rw now (record {
    rows = h.rows;
    done = ground (arith, whole, h.done);
    shown = ground (arith, h.shown);
    kept = ground arith;
  })
]

grant-IsTracked :
    (wanted : List String) (n : ℕ) (p : String) (s : Session)
    → IsTracked wanted s
    → IsTracked wanted (grant n p s)
unfolding grant
grant-IsTracked wanted n p s h =
    let grants = (n, p) ∷ s.granted in
    let rs = acknowledge n p s.restorations in
    let rows = acknowledge-tracked n p s.granted wanted s.restorations h.rows in
    let done = complete_more (n, p) s.granted wanted s.ready h.done in
    elim (Bool-cases (is_done n rs)) [
      | inr waits ↦ rw waits (record { rows = rows; done = done; shown = h.shown; kept = h.kept })
      | inl finished ↦ rw finished (
          report-IsTracked wanted n (record s { granted = grants; restorations = without n rs })
            (done-complete n grants wanted rs rows finished)
            (record {
              rows = all-keep (tracked grants wanted) (λ r. not (r.connection == n)) rs rows;
              done = done;
              shown = h.shown;
              kept = h.kept;
            }))
    ]

fail-IsTracked :
    (wanted : List String) (s : Session)
    → IsTracked wanted s
    → IsTracked wanted (record s { settled = settle false s.settled })
fail-IsTracked wanted s h = record {
  rows = h.rows;
  done = h.done;
  shown = h.shown;
  kept = ground (arith, h.kept, settle-false s.settled);
}

refuse-IsTracked :
    (wanted : List String) (n : ℕ) (s : Session)
    → IsTracked wanted s
    → IsTracked wanted (refuse n s)
unfolding refuse
refuse-IsTracked wanted n s h =
    elim (Bool-cases (any (λ (r : Restoration). r.connection == n) s.restorations)) [
      | inr gone ↦ rw gone h
      | inl there ↦ rw there (
          fail-IsTracked wanted (record s { restorations = without n s.restorations })
            (record {
              rows =
                  all-keep (tracked s.granted wanted) (λ r. not (r.connection == n)) s.restorations
                    h.rows;
              done = h.done;
              shown = h.shown;
              kept = h.kept;
            }))
    ]

step-IsTracked :
    (wanted : List String) (e : Event) (s : Session)
    → IsTracked wanted s
    → IsTracked wanted (step wanted e s)
unfolding step restore_subscriptions close
step-IsTracked wanted opened s h = record {
  rows = ground (arith, h.rows, all-has (acked s.granted s.connections) wanted);
  done = h.done;
  shown = h.shown;
  kept = h.kept;
}
step-IsTracked wanted reconnect s h = record {
  rows = h.rows;
  done = h.done;
  shown = h.shown;
  kept = h.kept;
}
step-IsTracked wanted closed s h =
    fail-IsTracked wanted (record s { statuses = offline ∷ s.statuses })
      (record { rows = h.rows; done = h.done; shown = h.shown; kept = h.kept })
step-IsTracked wanted disconnected s h = record {
  rows = h.rows;
  done = h.done;
  shown = h.shown;
  kept = h.kept;
}
step-IsTracked wanted (error true) s h = h
step-IsTracked wanted (error false) s h = fail-IsTracked wanted s h
step-IsTracked wanted (granted n p) s h = grant-IsTracked wanted n p s h
step-IsTracked wanted (refused n p) s h = refuse-IsTracked wanted n s h

run-IsTracked :
    (wanted : List String) (es : List Event) (s : Session)
    → IsTracked wanted s
    → IsTracked wanted (run wanted es s)
unfolding run
run-IsTracked wanted [] s h = h
run-IsTracked wanted (e ∷ es) s h =
    run-IsTracked wanted es (step wanted e s) (step-IsTracked wanted e s h)

-- Whatever happens to a session, through any number of reconnections: `onConnect` is called for a connection only
-- once every topic pattern is acknowledged on that very connection, the client reports `connected` as
-- often as it calls `onConnect`, and the promise of `connect` is resolved only if it has done so.
pub ready_after_grants :
    (o : Options) (es : List Event)
    → let s = run (patterns o) es new_session in
      (all (complete s.granted (patterns o)) s.ready ≡ true)
      × (count is_connected s.statuses ≡ length s.ready)
      × ((is_resolved s.settled && is_never s.ready) ≡ false)
ready_after_grants o es =
    let h =
      run-IsTracked (patterns o) es new_session
        (record { rows = refl; done = refl; shown = refl; kept = refl }) in
    (h.done, h.shown, h.kept)
