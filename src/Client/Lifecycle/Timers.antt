-- ===== src/Client/Lifecycle/Timers.antt =====
-- The timers and publishes that watch over the entries of the mobile store.
use mqtt_chat.Base.{
  ℕ, String, some, Bool, true, false, ◌||◌, List, [], ◌∷◌, ◌++◌, filter, find, all, any, string_eq,
  ◌≡◌, refl, sym, subst, arith, Bool-cases, Option-cases, inl, inr, find-test, find-eq-none_iff,
}
use mqtt_chat.Client.Model.{ApiMessage, PendingMessage, PendingStatus}
use mqtt_chat.Client.Lifecycle.{
  Lifecycle, Flight, Event, sent, reconnected, retried, rejected, timed_out, landed, reconciled,
  history, disposed, is_failed, is_pending, is_queued, named, set_pending, without_timeout, publish,
  arm_timeout, mark_failed, send, flush_next, flush_queued, retry, reconcile, apply_history, settle,
  take_flight, step, run, new_store,
}
use mqtt_chat.Client.Lifecycle.Watch.{
  armed, flying, is_watched, IsWatched, armed-without, armed-append, Spares, all-set, all-dropped,
  all-absent, all-same, flying-take,
}

-- `fs` are the flights before: the one that ends may be among them.
module _ (fs : List Flight) (s : Lifecycle) where
  mark_failed-IsWatched :
      (id : String)
      → Spares s.timeouts fs (without_timeout id s.timeouts) s.flights id
      → all (is_watched s.timeouts fs) s.pending ≡ true
      → IsWatched (mark_failed id s)
  unfolding mark_failed
  mark_failed-IsWatched id spares h = elim (Option-cases (find (named id) s.pending)) [
    | inl missing ↦
        let same =
          all-absent s.timeouts fs (without_timeout id s.timeouts) s.flights id s.pending spares
            ((find-eq-none_iff (named id) s.pending).0 missing) h in
        ground arith
    | inr (p, found) ↦
        let p' : PendingMessage = record p { status = PendingStatus.failed } in
        let at_id : p.client_message_id ≡ id =
          ground (arith, find-test (named id) s.pending p found) in
        let new =
          all-set s.timeouts fs (without_timeout id s.timeouts) s.flights p' s.pending
            (λ q other. spares q (ground arith)) refl h in
        ground (arith, new)
  ]

  arm-IsWatched :
      (id : String)
      → Spares s.timeouts fs (without_timeout id s.timeouts ++ id ∷ []) s.flights id
      → all (is_watched s.timeouts fs) s.pending ≡ true
      → IsWatched (arm_timeout id s)
  unfolding arm_timeout
  arm-IsWatched id spares h =
      all-same s.timeouts fs (without_timeout id s.timeouts ++ id ∷ []) s.flights id s.pending
        spares (ground (arith, armed-append (without_timeout id s.timeouts) id id)) h

without-Spares :
    (id : String) (ts : List String) (fs : List Flight) → Spares ts fs (without_timeout id ts) fs id
without-Spares id ts fs q other h = ground (arith, armed-without id ts q.client_message_id)

-- Putting a pending entry while its publish begins.
publish-IsWatched :
    (p published : PendingMessage) (rest : List PendingMessage) (s : Lifecycle)
    → published.client_message_id ≡ p.client_message_id
    → IsWatched s
    → IsWatched (publish published rest (record s { pending = set_pending s.pending p }))
publish-IsWatched p published rest s same h =
    all-set s.timeouts s.flights s.timeouts
      (record { client_message_id = published.client_message_id; rest = rest } ∷ s.flights) p
      s.pending (λ q other g. ground arith) (ground arith) h

flush_next-IsWatched :
    (rest : List PendingMessage) (s : Lifecycle) → IsWatched s → IsWatched (flush_next rest s)
unfolding flush_next
flush_next-IsWatched [] s h = h
flush_next-IsWatched (q ∷ rest) s h =
    let p : PendingMessage = record q { status = PendingStatus.pending } in
    publish-IsWatched p p rest s refl h

send-IsWatched :
    (connected : Bool) (input : PendingMessage) (s : Lifecycle)
    → IsWatched s
    → IsWatched (send connected input s)
unfolding send
send-IsWatched true input s h =
    let p : PendingMessage = record input { status = PendingStatus.pending } in
    publish-IsWatched p p [] s refl h
send-IsWatched false input s h =
    let p : PendingMessage = record input { status = PendingStatus.queued } in
    let id = input.client_message_id in
    let ts = without_timeout id s.timeouts ++ id ∷ [] in
    unfold arm_timeout in
    all-set s.timeouts s.flights ts s.flights p s.pending
      (λ q other g. ground (
        arith,
        armed-append (without_timeout id s.timeouts) id q.client_message_id,
        armed-without id s.timeouts q.client_message_id,
      ))
      (ground (arith, armed-append (without_timeout id s.timeouts) id id)) h

retry-IsWatched : (id : String) (s : Lifecycle) → IsWatched s → IsWatched (retry id s)
unfolding retry
retry-IsWatched id s h = elim (Option-cases (find (named id) s.pending)) [
  | inl missing ↦ let e : retry id s ≡ s = ground (arith, missing) in subst IsWatched (sym e) h
  | inr (p, found) ↦ elim (Bool-cases (is_pending p)) [
    | inl already ↦ ground (arith, found)
    | inr not_yet ↦
        let p' : PendingMessage = record p { status = PendingStatus.pending } in
        let done = publish-IsWatched p' p [] s refl h in ground (arith, found, done)
  ]
]

reconcile-IsWatched :
    (id : String) (m : ApiMessage) (s : Lifecycle) → IsWatched s → IsWatched (reconcile id m s)
unfolding reconcile
reconcile-IsWatched id m s h =
    all-dropped s.timeouts s.flights (without_timeout id s.timeouts) s.flights id s.pending
      (without-Spares id s.timeouts s.flights) h

settle-IsWatched :
    (n : ℕ) (ok : Bool) (f : Flight) (rest : List Flight) (s : Lifecycle)
    → take_flight n s.flights ≡ some (f, rest)
    → IsWatched s
    → IsWatched (settle f ok (record s { flights = rest }))
unfolding settle
settle-IsWatched n true f rest s taken h =
    let id = f.client_message_id in
    flush_next-IsWatched f.rest (arm_timeout id (record s { flights = rest })) (
      arm-IsWatched s.flights (record s { flights = rest }) id
        (λ q other g. ground (
          arith,
          armed-append (without_timeout id s.timeouts) id q.client_message_id,
          armed-without id s.timeouts q.client_message_id,
          flying-take n s.flights f rest q.client_message_id taken,
        ))
        h)
settle-IsWatched n false f rest s taken h =
    let id = f.client_message_id in
    flush_next-IsWatched f.rest (mark_failed id (record s { flights = rest })) (
      mark_failed-IsWatched s.flights (record s { flights = rest }) id
        (λ q other g. ground (
          arith,
          armed-without id s.timeouts q.client_message_id,
          flying-take n s.flights f rest q.client_message_id taken,
        ))
        h)

abbrev pub is_disposal : Event → Bool
is_disposal e = elim e [ disposed ↦ true | _ ↦ false ]

step-IsWatched :
    (s : Lifecycle) (e : Event) → is_disposal e ≡ false → IsWatched s → IsWatched (step s e)
unfolding step flush_queued apply_history
step-IsWatched s (sent connected p) alive h = send-IsWatched connected p s h
step-IsWatched s reconnected alive h = flush_next-IsWatched (filter is_queued s.pending) s h
step-IsWatched s (retried id) alive h = retry-IsWatched id s h
step-IsWatched s (rejected id) alive h =
    mark_failed-IsWatched s.flights s id (without-Spares id s.timeouts s.flights) h
step-IsWatched s (timed_out id) alive h = elim (Bool-cases (armed s.timeouts id)) [
  | inl fires ↦
      rw fires (mark_failed-IsWatched s.flights s id (without-Spares id s.timeouts s.flights) h)
  | inr idle ↦ rw idle h
]
step-IsWatched s (landed n ok) alive h = elim (Option-cases (take_flight n s.flights)) [
  | inl missing ↦
      let e : step s (landed n ok) ≡ s = ground (arith, missing) in subst IsWatched (sym e) h
  | inr ((f, rest), taken) ↦
      let e : step s (landed n ok) ≡ settle f ok (record s { flights = rest }) =
        ground (arith, taken) in
      subst IsWatched (sym e) (settle-IsWatched n ok f rest s taken h)
]
step-IsWatched s (reconciled id m) alive h = reconcile-IsWatched id m s h
step-IsWatched s (history ms) alive h = h
step-IsWatched s disposed alive h = cc

run-IsWatched :
    (s : Lifecycle) (es : List Event)
    → any is_disposal es ≡ false
    → IsWatched s
    → IsWatched (run s es)
unfolding run
run-IsWatched s [] alive h = h
run-IsWatched s (e ∷ es) alive h =
    run-IsWatched (step s e) es (ground arith) (step-IsWatched s e (ground arith) h)

all-find :
    (q r : PendingMessage → Bool) (ps : List PendingMessage) (p : PendingMessage)
    → all q ps ≡ true
    → find r ps ≡ some p
    → q p ≡ true
all-find q r [] p h e = cc
all-find q r (x ∷ ps) p h e = ground (arith, all-find q r ps p)

-- Whatever happens to a new store, as long as it is not disposed of, each entry that has not failed has
-- an armed timer, or a publish of its own under way.
pub lifecycle_watched :
    (es : List Event) (id : String) (p : PendingMessage)
    → any is_disposal es ≡ false
    → find (named id) (run new_store es).pending ≡ some p
    → is_failed p ≡ false
    → (armed (run new_store es).timeouts id || flying (run new_store es).flights id) ≡ true
lifecycle_watched es id p kept found alive =
    let s = run new_store es in
    ground (
      arith,
      all-find (is_watched s.timeouts s.flights) (named id) s.pending p
          (run-IsWatched new_store es kept refl) found,
      find-test (named id) s.pending p found,
    )
