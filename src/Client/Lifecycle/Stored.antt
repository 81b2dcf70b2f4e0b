-- ===== src/Client/Lifecycle/Stored.antt =====
-- How long the row of a canonical event stays.
use mqtt_chat.Base.{
  String, string_discrete, Option, some, Bool, true, false, List, [], ◌∷◌, ◌++◌, map, filter, find,
  any, ◌==◌, string_eq, if◌then◌else◌, ◌≡◌, refl, subst, arith, Bool-cases, Option-cases, inl, inr,
}
use mqtt_chat.Client.Model.{ApiMessage, PendingMessage}
use mqtt_chat.Client.Lifecycle.{
  Lifecycle, Event, sent, reconnected, retried, rejected, timed_out, landed, reconciled, history,
  disposed, is_queued, set_message, add_history, arm_timeout, mark_failed, send, flush_next,
  flush_queued, retry, reconcile, apply_history, dispose, settle, take_flight, step, run,
}

abbrev pub reconciles : String → Event → Bool
reconciles id (sent connected p) = false
reconciles id reconnected = false
reconciles id (retried j) = false
reconciles id (rejected j) = false
reconciles id (timed_out j) = false
reconciles id (landed n ok) = false
reconciles id (reconciled j m) = m.id == id
reconciles id (history ms) = false
reconciles id disposed = false

abbrev pub message_of : String → List ApiMessage → Option ApiMessage
message_of id = find (λ n. n.id == id)

message-set :
    (id : String) (m : ApiMessage) (ms : List ApiMessage) (n : ApiMessage)
    → (m.id == id) ≡ false
    → message_of id ms ≡ some n
    → message_of id (map (λ x. if x.id == m.id then m else x) ms) ≡ some n
message-set id m [] n other h = cc
message-set id m (x ∷ ms) n other h = ground (arith, message-set id m ms n other)

message-append :
    (id : String) (m : ApiMessage) (ms : List ApiMessage) (n : ApiMessage)
    → message_of id ms ≡ some n
    → message_of id (ms ++ m ∷ []) ≡ some n
message-append id m [] n h = cc
message-append id m (x ∷ ms) n h = ground (arith, message-append id m ms n)

message-set_message :
    (id : String) (m : ApiMessage) (ms : List ApiMessage) (n : ApiMessage)
    → (m.id == id) ≡ false
    → message_of id ms ≡ some n
    → message_of id (set_message ms m) ≡ some n
message-set_message id m ms n other h =
    ground (arith, message-set id m ms n other h, message-append id m ms n h)

message-added :
    (m : ApiMessage) (ms : List ApiMessage)
    → any (λ n. n.id == m.id) ms ≡ false
    → message_of m.id (ms ++ m ∷ []) ≡ some m
message-added m [] h = ground arith
message-added m (x ∷ ms) h = ground (arith, message-added m ms)

message-replaced :
    (m : ApiMessage) (ms : List ApiMessage)
    → any (λ n. n.id == m.id) ms ≡ true
    → message_of m.id (map (λ x. if x.id == m.id then m else x) ms) ≡ some m
message-replaced m [] h = cc
message-replaced m (x ∷ ms) h = ground (arith, message-replaced m ms)

pub message-stored :
    (m : ApiMessage) (ms : List ApiMessage) → message_of m.id (set_message ms m) ≡ some m
message-stored m ms = elim (Bool-cases (any (λ n. n.id == m.id) ms)) [
  | inl known ↦ ground (arith, message-replaced m ms known)
  | inr fresh ↦ ground (arith, message-added m ms fresh)
]

any-message :
    (id : String) (ms : List ApiMessage) (n : ApiMessage)
    → message_of id ms ≡ some n
    → any (λ x. x.id == id) ms ≡ true
any-message id [] n h = cc
any-message id (x ∷ ms) n h = ground (arith, any-message id ms n)

message-history :
    (id : String) (new ms : List ApiMessage) (n : ApiMessage)
    → message_of id ms ≡ some n
    → message_of id (add_history ms new) ≡ some n
message-history id [] ms n h = h
message-history id (m ∷ new) ms n h = elim (Bool-cases (any (λ x. x.id == m.id) ms)) [
  | inl known ↦ ground (arith, message-history id new ms n h)
  | inr fresh ↦ elim (string_discrete m.id id) [
    | yes same ↦ cc (any-message id ms n h, subst (λ j. any (λ x. x.id == j) ms ≡ false) same fresh)
    | no other ↦
        let kept = message-set_message id m ms n (ground arith) h in
        ground (arith, message-history id new (set_message ms m) n kept)
  ]
]

flush-messages :
    (rest : List PendingMessage) (s : Lifecycle) → (flush_next rest s).messages ≡ s.messages
unfolding flush_next
flush-messages [] s = refl
flush-messages (x ∷ rest) s = refl

step-messages :
    (s : Lifecycle) (e : Event) (id : String) (n : ApiMessage)
    → reconciles id e ≡ false
    → message_of id s.messages ≡ some n
    → message_of id (step s e).messages ≡ some n
unfolding step send arm_timeout flush_queued retry mark_failed settle reconcile apply_history
    dispose
step-messages s (sent true p) id n other h = h
step-messages s (sent false p) id n other h = h
step-messages s reconnected id n other h =
    ground (arith, flush-messages (filter is_queued s.pending) s)
step-messages s (retried j) id n other h = ground arith
step-messages s (rejected j) id n other h = h
step-messages s (timed_out j) id n other h = ground arith
step-messages s (landed k true) id n other h = elim (Option-cases (take_flight k s.flights)) [
  | inl missing ↦ ground (arith, missing)
  | inr ((f, rest), taken) ↦ ground (
    arith,
    taken,
    flush-messages f.rest (arm_timeout f.client_message_id (record s { flights = rest })),
  )
]
step-messages s (landed k false) id n other h = elim (Option-cases (take_flight k s.flights)) [
  | inl missing ↦ ground (arith, missing)
  | inr ((f, rest), taken) ↦ ground (
    arith,
    taken,
    flush-messages f.rest (mark_failed f.client_message_id (record s { flights = rest })),
  )
]
step-messages s (reconciled j m) id n other h = message-set_message id m s.messages n other h
step-messages s (history ms) id n other h = message-history id ms s.messages n h
step-messages s disposed id n other h = h

pub run-messages :
    (s : Lifecycle) (es : List Event) (id : String) (n : ApiMessage)
    → any (reconciles id) es ≡ false
    → message_of id s.messages ≡ some n
    → message_of id (run s es).messages ≡ some n
unfolding run
run-messages s [] id n other h = h
run-messages s (e ∷ es) id n other h =
    run-messages (step s e) es id n (ground arith) (step-messages s e id n (ground arith) h)
