-- ===== src/Client/Lifecycle/Origins.antt =====
-- Where the messages come from that the mobile store publishes.
use mqtt_chat.Base.{
  ℕ, zero, suc, String, some, Bool, true, false, not, List, [], ◌∷◌, ◌++◌, map, filter, find, any,
  all, ◌==◌, string_eq, if◌then◌else◌, ◌≡◌, refl, sym, subst, arith, Bool-cases, Option-cases, inl,
  inr,
}
use mqtt_chat.Client.Model.{PendingMessage, PendingStatus}
use mqtt_chat.Client.Lifecycle.{
  Lifecycle, Flight, Event, sent, reconnected, retried, rejected, timed_out, landed, reconciled,
  history, disposed, is_pending, is_queued, named, set_pending, arm_timeout, mark_failed, send,
  flush_next, flush_queued, retry, reconcile, apply_history, dispose, settle, take_flight, step,
  run, new_store,
}

-- A test of messages that does not look at their status.
module _ (q : PendingMessage → Bool)
    (blind : (p : PendingMessage) (st : PendingStatus) → q (record p { status = st }) ≡ q p) where
  abbrev pub rest_from : Flight → Bool
  rest_from f = all q f.rest

  record IsFrom (s : Lifecycle) : Type 0 where
    stored : all q s.pending ≡ true
    waiting : all rest_from s.flights ≡ true
    outgoing : all q s.published ≡ true

  abbrev pub sends_from : Event → Bool
  sends_from (sent connected p) = q p
  sends_from reconnected = true
  sends_from (retried id) = true
  sends_from (rejected id) = true
  sends_from (timed_out id) = true
  sends_from (landed n ok) = true
  sends_from (reconciled id m) = true
  sends_from (history ms) = true
  sends_from disposed = true

  all-replace :
      (p : PendingMessage) (ps : List PendingMessage)
      → q p ≡ true
      → all q ps ≡ true
      → all q (map (λ x. if named p.client_message_id x then p else x) ps) ≡ true
  all-replace p [] new h = refl
  all-replace p (x ∷ ps) new h = ground (arith, all-replace p ps new)

  all-add :
      (p : PendingMessage) (ps : List PendingMessage)
      → q p ≡ true
      → all q ps ≡ true
      → all q (ps ++ p ∷ []) ≡ true
  all-add p [] new h = ground arith
  all-add p (x ∷ ps) new h = ground (arith, all-add p ps new)

  all-set_pending :
      (p : PendingMessage) (ps : List PendingMessage)
      → q p ≡ true
      → all q ps ≡ true
      → all q (set_pending ps p) ≡ true
  all-set_pending p ps new h = ground (arith, all-replace p ps new h, all-add p ps new h)

  all-filter :
      (r : PendingMessage → Bool) (ps : List PendingMessage)
      → all q ps ≡ true
      → all q (filter r ps) ≡ true
  all-filter r [] h = refl
  all-filter r (x ∷ ps) h = ground (arith, all-filter r ps)

  find-from :
      (r : PendingMessage → Bool) (ps : List PendingMessage) (p : PendingMessage)
      → all q ps ≡ true
      → find r ps ≡ some p
      → q p ≡ true
  find-from r [] p h e = cc
  find-from r (x ∷ ps) p h e = ground (arith, find-from r ps p)

  take-from :
      (n : ℕ) (fs : List Flight) (f : Flight) (rest : List Flight)
      → take_flight n fs ≡ some (f, rest)
      → all rest_from fs ≡ true
      → (all q f.rest ≡ true) × (all rest_from rest ≡ true)
  unfolding take_flight
  take-from n [] f rest e h = cc
  take-from zero (g ∷ fs) f rest e h = ground arith
  take-from (suc n) (g ∷ fs) f rest e h = elim (Option-cases (take_flight n fs)) [
    | inl missing ↦ ground (arith, missing)
    | inr ((k, more), found) ↦ ground (arith, found, take-from n fs k more found)
  ]

  flush-IsFrom :
      (rest : List PendingMessage) (s : Lifecycle)
      → all q rest ≡ true
      → IsFrom s
      → IsFrom (flush_next rest s)
  unfolding flush_next
  flush-IsFrom [] s h from = from
  flush-IsFrom (x ∷ rest) s h from =
      let p : PendingMessage = record x { status = PendingStatus.pending } in
      let new : q p ≡ true = ground (arith, blind x PendingStatus.pending) in
      record {
        stored = all-set_pending p s.pending new from.stored;
        waiting = ground (arith, from.waiting);
        outgoing = ground (arith, from.outgoing);
      }

  failed-IsFrom : (id : String) (s : Lifecycle) → IsFrom s → IsFrom (mark_failed id s)
  unfolding mark_failed
  failed-IsFrom id s from = elim (Option-cases (find (named id) s.pending)) [
    | inl missing ↦ record {
      stored = ground (arith, missing, from.stored);
      waiting = from.waiting;
      outgoing = from.outgoing;
    }
    | inr (p, found) ↦
        let p' : PendingMessage = record p { status = PendingStatus.failed } in
        let new : q p' ≡ true = ground (
          arith,
          blind p PendingStatus.failed,
          find-from (named id) s.pending p from.stored found,
        ) in
        record {
          stored = ground (arith, found, all-set_pending p' s.pending new from.stored);
          waiting = from.waiting;
          outgoing = from.outgoing;
        }
  ]

  send-IsFrom :
      (connected : Bool) (p : PendingMessage) (s : Lifecycle)
      → q p ≡ true
      → IsFrom s
      → IsFrom (send connected p s)
  unfolding send arm_timeout
  send-IsFrom true p s new from =
      let p' : PendingMessage = record p { status = PendingStatus.pending } in
      let ok : q p' ≡ true = ground (arith, blind p PendingStatus.pending) in
      record {
        stored = all-set_pending p' s.pending ok from.stored;
        waiting = ground (arith, from.waiting);
        outgoing = ground (arith, from.outgoing);
      }
  send-IsFrom false p s new from =
      let p' : PendingMessage = record p { status = PendingStatus.queued } in
      let ok : q p' ≡ true = ground (arith, blind p PendingStatus.queued) in
      record {
        stored = all-set_pending p' s.pending ok from.stored;
        waiting = from.waiting;
        outgoing = from.outgoing;
      }

  retry-IsFrom : (id : String) (s : Lifecycle) → IsFrom s → IsFrom (retry id s)
  unfolding retry
  retry-IsFrom id s from = elim (Option-cases (find (named id) s.pending)) [
    | inl missing ↦ let e : retry id s ≡ s = ground (arith, missing) in subst IsFrom (sym e) from
    | inr (p, found) ↦ elim (Bool-cases (is_pending p)) [
      | inl already ↦ let e : retry id s ≡ s = ground (arith, found) in subst IsFrom (sym e) from
      | inr not_yet ↦
          let p' : PendingMessage = record p { status = PendingStatus.pending } in
          let old : q p ≡ true = find-from (named id) s.pending p from.stored found in
          let new : q p' ≡ true = ground (arith, blind p PendingStatus.pending) in
          record {
            stored = ground (arith, found, all-set_pending p' s.pending new from.stored);
            waiting = ground (arith, found, from.waiting);
            outgoing = ground (arith, found, from.outgoing);
          }
    ]
  ]

  settle-IsFrom :
      (f : Flight) (ok : Bool) (s : Lifecycle)
      → all q f.rest ≡ true
      → IsFrom s
      → IsFrom (settle f ok s)
  unfolding settle arm_timeout
  settle-IsFrom f true s h from =
      flush-IsFrom f.rest (arm_timeout f.client_message_id s) h
        (record { stored = from.stored; waiting = from.waiting; outgoing = from.outgoing })
  settle-IsFrom f false s h from =
      flush-IsFrom f.rest (mark_failed f.client_message_id s) h
        (failed-IsFrom f.client_message_id s from)

  step-IsFrom : (s : Lifecycle) (e : Event) → sends_from e ≡ true → IsFrom s → IsFrom (step s e)
  unfolding step flush_queued reconcile apply_history dispose
  step-IsFrom s (sent connected p) ok from = send-IsFrom connected p s ok from
  step-IsFrom s reconnected ok from =
      flush-IsFrom (filter is_queued s.pending) s (all-filter is_queued s.pending from.stored) from
  step-IsFrom s (retried id) ok from = retry-IsFrom id s from
  step-IsFrom s (rejected id) ok from = failed-IsFrom id s from
  step-IsFrom s (timed_out id) ok from = elim (Bool-cases (any (λ t. t == id) s.timeouts)) [
    | inl fires ↦ rw fires (failed-IsFrom id s from)
    | inr idle ↦ rw idle from
  ]
  step-IsFrom s (landed n done) ok from = elim (Option-cases (take_flight n s.flights)) [
    | inl missing ↦
        let e : step s (landed n done) ≡ s = ground (arith, missing) in subst IsFrom (sym e) from
    | inr ((f, rest), taken) ↦
        let e : step s (landed n done) ≡ settle f done (record s { flights = rest }) =
          ground (arith, taken) in
        let (left, others) = take-from n s.flights f rest taken from.waiting in
        subst IsFrom (sym e) (
          settle-IsFrom f done (record s { flights = rest }) left
            (record { stored = from.stored; waiting = others; outgoing = from.outgoing }))
  ]
  step-IsFrom s (reconciled id m) ok from = record {
    stored = all-filter (λ p. not (named id p)) s.pending from.stored;
    waiting = from.waiting;
    outgoing = from.outgoing;
  }
  step-IsFrom s (history ms) ok from = record {
    stored = from.stored;
    waiting = from.waiting;
    outgoing = from.outgoing;
  }
  step-IsFrom s disposed ok from = record {
    stored = from.stored;
    waiting = from.waiting;
    outgoing = from.outgoing;
  }

  run-IsFrom :
      (s : Lifecycle) (es : List Event) → all sends_from es ≡ true → IsFrom s → IsFrom (run s es)
  unfolding run
  run-IsFrom s [] ok from = from
  run-IsFrom s (e ∷ es) ok from =
      run-IsFrom (step s e) es (ground arith) (step-IsFrom s e (ground arith) from)

  -- A test that does not look at the status of a message, and that every message passes with which
  -- `send` is called, is passed by every message that the store publishes, at the first send, a
  -- flush or a retry.
  pub published_as_sent :
      (es : List Event) → all sends_from es ≡ true → all q (run new_store es).published ≡ true
  published_as_sent es ok =
      (run-IsFrom new_store es ok
        (record { stored = refl; waiting = refl; outgoing = refl })).outgoing
