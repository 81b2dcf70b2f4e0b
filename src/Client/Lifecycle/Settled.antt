-- ===== src/Client/Lifecycle/Settled.antt =====
-- What a canonical event does to the mobile store, and for how long.
use mqtt_chat.Base.{
  ℕ, String, none, some, true, false, List, [], ◌∷◌, find, any, string_eq, ◌≡◌, refl, sym, subst,
  arith, find-eq-none_iff,
}
use mqtt_chat.Client.Model.{ApiMessage, PendingMessage, PendingStatus}
use mqtt_chat.Client.Lifecycle.{
  Lifecycle, Flight, Event, landed, reconciled, named, set_pending, arm_timeout, flush_next,
  reconcile, settle, take_flight, step, run, publish,
}
use mqtt_chat.Client.Lifecycle.Gone.{to_publish, sends, run-IsGone, any-dropped}
use mqtt_chat.Client.Lifecycle.Stored.{reconciles, message_of, run-messages, message-stored}

-- Once a canonical event has reconciled a message that no flush has yet to publish, the store never again
-- holds it as pending, unless `send` is called with its id; and the stored row is the event's,
-- whatever history pages come, unless another canonical event brings the same message.
pub reconciled_final :
    (s : Lifecycle) (id : String) (m : ApiMessage) (es : List Event)
    → to_publish id s.flights ≡ false
    → any (sends id) es ≡ false
    → any (reconciles m.id) es ≡ false
    → (find (named id) (run (step s (reconciled id m)) es).pending ≡ none)
      × (message_of m.id (run (step s (reconciled id m)) es).messages ≡ some m)
unfolding step reconcile
reconciled_final s id m es unplanned unsent once =
    let gone =
      run-IsGone id (step s (reconciled id m)) es unsent
        (record { absent = any-dropped id s.pending; unplanned = unplanned }) in
    (
      (find-eq-none_iff (named id) (run (step s (reconciled id m)) es).pending).1 gone.absent,
      run-messages (step s (reconciled id m)) es m.id m once (message-stored m s.messages),
    )

find-put :
    (p : PendingMessage) (ps : List PendingMessage)
    → any (named p.client_message_id) ps ≡ false
    → find (named p.client_message_id) (set_pending ps p) ≡ some p
find-put p [] h = ground arith
find-put p (x ∷ ps) h = ground (arith, find-put p ps)

-- A message that is reconciled while a flush has it next in turn comes back: when the publish that the
-- flush waits for ends well, the message is pending again and is published again.
pub flush_resurrects :
    (s : Lifecycle) (n : ℕ) (f : Flight) (others : List Flight) (q : PendingMessage)
    (more : List PendingMessage) (m : ApiMessage)
    → take_flight n s.flights ≡ some (f, others)
    → f.rest ≡ q ∷ more
    → let id = q.client_message_id in
      let again : PendingMessage = record q { status = PendingStatus.pending } in
      let s' = step (step s (reconciled id m)) (landed n true) in
      (find (named id) s'.pending ≡ some again) × (s'.published ≡ again ∷ s.published)
unfolding step reconcile settle arm_timeout
flush_resurrects s n f others q more m taken next =
    let id = q.client_message_id in
    let again : PendingMessage = record q { status = PendingStatus.pending } in
    let gone = any-dropped id s.pending in
    let t : Lifecycle =
      arm_timeout f.client_message_id (record (reconcile id m s) { flights = others }) in
    let e : step (step s (reconciled id m)) (landed n true)
        ≡ publish again more (record t { pending = set_pending t.pending again }) =
      unfold flush_next in ground (arith, taken, next) in
    (
      subst (λ (u : Lifecycle). find (named id) u.pending ≡ some again) (sym e)
          (find-put again t.pending gone),
      subst (λ (u : Lifecycle). u.published ≡ again ∷ s.published) (sym e) refl,
    )
