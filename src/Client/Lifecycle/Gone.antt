-- ===== src/Client/Lifecycle/Gone.antt =====
-- How long a message that is not pending stays so.
use mqtt_chat.Base.{
  ℕ, zero, suc, String, some, Bool, true, false, not, List, [], ◌∷◌, map, filter, find, any, ◌==◌,
  string_eq, if◌then◌else◌, ◌≡◌, refl, sym, subst, arith, Bool-cases, Option-cases, inl, inr,
  any-append,
}
use mqtt_chat.Client.Model.{PendingMessage, PendingStatus}
use mqtt_chat.Client.Lifecycle.{
  Lifecycle, Flight, Event, sent, reconnected, retried, rejected, timed_out, landed, reconciled,
  history, disposed, is_pending, is_queued, named, set_pending, arm_timeout, mark_failed, send,
  flush_next, flush_queued, retry, reconcile, apply_history, dispose, settle, take_flight, step,
  run,
}

-- A flush has yet to publish the message.
abbrev pub to_publish : String → List Flight → Bool
to_publish id fs = any (λ (f : Flight). any (named id) f.rest) fs

abbrev pub sends : String → Event → Bool
sends id (sent connected p) = named id p
sends id reconnected = false
sends id (retried j) = false
sends id (rejected j) = false
sends id (timed_out j) = false
sends id (landed n ok) = false
sends id (reconciled j m) = false
sends id (history ms) = false
sends id disposed = false

module _ (id : String) where
  pub record IsGone (s : Lifecycle) : Type 0 where
    pub absent : any (named id) s.pending ≡ false
    pub unplanned : to_publish id s.flights ≡ false

  any-replaced :
      (p : PendingMessage) (ps : List PendingMessage)
      → named id p ≡ false
      → any (named id) ps ≡ false
      → any (named id) (map (λ x. if named p.client_message_id x then p else x) ps) ≡ false
  any-replaced p [] other h = refl
  any-replaced p (x ∷ ps) other h = ground (arith, any-replaced p ps other)

  any-set :
      (p : PendingMessage) (ps : List PendingMessage)
      → named id p ≡ false
      → any (named id) ps ≡ false
      → any (named id) (set_pending ps p) ≡ false
  any-set p ps other h =
      ground (arith, any-replaced p ps other h, any-append (named id) ps (p ∷ []))

  any-filter :
      (r : PendingMessage → Bool) (ps : List PendingMessage)
      → any (named id) ps ≡ false
      → any (named id) (filter r ps) ≡ false
  any-filter r [] h = refl
  any-filter r (x ∷ ps) h = ground (arith, any-filter r ps)

  pub any-dropped :
      (ps : List PendingMessage) → any (named id) (filter (λ p. not (named id p)) ps) ≡ false
  any-dropped [] = refl
  any-dropped (x ∷ ps) = ground (arith, any-dropped ps)

  find-other :
      (r : PendingMessage → Bool) (ps : List PendingMessage) (p : PendingMessage)
      → any (named id) ps ≡ false
      → find r ps ≡ some p
      → named id p ≡ false
  find-other r [] p h e = cc
  find-other r (x ∷ ps) p h e = ground (arith, find-other r ps p)

  take-unplanned :
      (n : ℕ) (fs : List Flight) (f : Flight) (rest : List Flight)
      → take_flight n fs ≡ some (f, rest)
      → to_publish id fs ≡ false
      → (any (named id) f.rest ≡ false) × (to_publish id rest ≡ false)
  unfolding take_flight
  take-unplanned n [] f rest e h = cc
  take-unplanned zero (g ∷ fs) f rest e h = ground arith
  take-unplanned (suc n) (g ∷ fs) f rest e h = elim (Option-cases (take_flight n fs)) [
    | inl missing ↦ ground (arith, missing)
    | inr ((k, more), found) ↦ ground (arith, found, take-unplanned n fs k more found)
  ]

  flush-IsGone :
      (rest : List PendingMessage) (s : Lifecycle)
      → any (named id) rest ≡ false
      → IsGone s
      → IsGone (flush_next rest s)
  unfolding flush_next
  flush-IsGone [] s h gone = gone
  flush-IsGone (x ∷ rest) s h gone = record {
    absent =
        any-set (record x { status = PendingStatus.pending }) s.pending (ground arith) gone.absent;
    unplanned = ground (arith, gone.unplanned);
  }

  failed-IsGone : (j : String) (s : Lifecycle) → IsGone s → IsGone (mark_failed j s)
  unfolding mark_failed
  failed-IsGone j s gone = elim (Option-cases (find (named j) s.pending)) [
    | inl missing ↦ record {
      absent = ground (arith, missing, gone.absent);
      unplanned = gone.unplanned;
    }
    | inr (p, found) ↦
        let other = find-other (named j) s.pending p gone.absent found in
        record {
          absent = ground (
            arith,
            found,
            any-set (record p { status = PendingStatus.failed }) s.pending other gone.absent,
          );
          unplanned = gone.unplanned;
        }
  ]

  retry-IsGone : (j : String) (s : Lifecycle) → IsGone s → IsGone (retry j s)
  unfolding retry
  retry-IsGone j s gone = elim (Option-cases (find (named j) s.pending)) [
    | inl missing ↦ let e : retry j s ≡ s = ground (arith, missing) in subst IsGone (sym e) gone
    | inr (p, found) ↦ elim (Bool-cases (is_pending p)) [
      | inl already ↦ let e : retry j s ≡ s = ground (arith, found) in subst IsGone (sym e) gone
      | inr not_yet ↦
          let other = find-other (named j) s.pending p gone.absent found in
          record {
            absent = ground (
              arith,
              found,
              any-set (record p { status = PendingStatus.pending }) s.pending other gone.absent,
            );
            unplanned = ground (arith, found, gone.unplanned);
          }
    ]
  ]

  send-IsGone :
      (connected : Bool) (p : PendingMessage) (s : Lifecycle)
      → named id p ≡ false
      → IsGone s
      → IsGone (send connected p s)
  unfolding send arm_timeout
  send-IsGone true p s other gone = record {
    absent = any-set (record p { status = PendingStatus.pending }) s.pending other gone.absent;
    unplanned = ground (arith, gone.unplanned);
  }
  send-IsGone false p s other gone = record {
    absent = any-set (record p { status = PendingStatus.queued }) s.pending other gone.absent;
    unplanned = gone.unplanned;
  }

  settle-IsGone :
      (f : Flight) (ok : Bool) (s : Lifecycle)
      → any (named id) f.rest ≡ false
      → IsGone s
      → IsGone (settle f ok s)
  unfolding settle arm_timeout
  settle-IsGone f true s h gone =
      flush-IsGone f.rest (arm_timeout f.client_message_id s) h
        (record { absent = gone.absent; unplanned = gone.unplanned })
  settle-IsGone f false s h gone =
      flush-IsGone f.rest (mark_failed f.client_message_id s) h
        (failed-IsGone f.client_message_id s gone)

  step-IsGone : (s : Lifecycle) (e : Event) → sends id e ≡ false → IsGone s → IsGone (step s e)
  unfolding step flush_queued reconcile apply_history dispose
  step-IsGone s (sent connected p) other gone = send-IsGone connected p s other gone
  step-IsGone s reconnected other gone =
      flush-IsGone (filter is_queued s.pending) s (any-filter is_queued s.pending gone.absent) gone
  step-IsGone s (retried j) other gone = retry-IsGone j s gone
  step-IsGone s (rejected j) other gone = failed-IsGone j s gone
  step-IsGone s (timed_out j) other gone = elim (Bool-cases (any (λ t. t == j) s.timeouts)) [
    | inl fires ↦ rw fires (failed-IsGone j s gone)
    | inr idle ↦ rw idle gone
  ]
  step-IsGone s (landed n ok) other gone = elim (Option-cases (take_flight n s.flights)) [
    | inl missing ↦
        let e : step s (landed n ok) ≡ s = ground (arith, missing) in subst IsGone (sym e) gone
    | inr ((f, rest), taken) ↦
        let e : step s (landed n ok) ≡ settle f ok (record s { flights = rest }) =
          ground (arith, taken) in
        let (left, others) = take-unplanned n s.flights f rest taken gone.unplanned in
        subst IsGone (sym e) (
          settle-IsGone f ok (record s { flights = rest }) left
            (record { absent = gone.absent; unplanned = others }))
  ]
  step-IsGone s (reconciled j m) other gone = record {
    absent = any-filter (λ p. not (named j p)) s.pending gone.absent;
    unplanned = gone.unplanned;
  }
  step-IsGone s (history ms) other gone = record {
    absent = gone.absent;
    unplanned = gone.unplanned;
  }
  step-IsGone s disposed other gone = record { absent = gone.absent; unplanned = gone.unplanned }

  pub run-IsGone :
      (s : Lifecycle) (es : List Event) → any (sends id) es ≡ false → IsGone s → IsGone (run s es)
  unfolding run
  run-IsGone s [] other gone = gone
  run-IsGone s (e ∷ es) other gone =
      run-IsGone (step s e) es (ground arith) (step-IsGone s e (ground arith) gone)
