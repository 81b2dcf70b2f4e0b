-- ===== src/Client/Lifecycle.antt =====
-- `MessageLifecycleStore` of apps/mobile/src/features/messaging/message-lifecycle.ts. A `Map` is the list of
-- its values in the order of their keys' insertion. A method that awaits `sendFn` ends there: what is left of
-- it is a flight, which `settle` resumes with the outcome of the publish.
pub mod Watch
pub mod Timers
pub mod Origins
pub mod Gone
pub mod Stored
pub mod Settled
use mqtt_chat.Base.{
  ℕ, zero, suc, String, Option, none, some, Bool, true, false, not, List, [], ◌∷◌, ◌++◌, map,
  filter, find, any, leb, ◌==◌, string_eq, if◌then◌else◌,
}
use mqtt_chat.Client.Sort.{sort_by}
use mqtt_chat.Client.Model.{ApiMessage, PendingMessage, PendingStatus}

abbrev pub is_queued : PendingMessage → Bool
is_queued p = elim p.status [ PendingStatus.queued ↦ true | _ ↦ false ]

abbrev pub is_pending : PendingMessage → Bool
is_pending p = elim p.status [ PendingStatus.pending ↦ true | _ ↦ false ]

abbrev pub is_failed : PendingMessage → Bool
is_failed p = elim p.status [ PendingStatus.failed ↦ true | _ ↦ false ]

abbrev pub named : String → PendingMessage → Bool
named id p = p.client_message_id == id

-- What a method still has to do: note the outcome for one message, then publish the rest.
pub record Flight : Type 0 where
  pub client_message_id : String
  pub rest : List PendingMessage

-- The three maps of the store, the suspended methods, and the calls of `sendFn`, the latest first.
pub record Lifecycle : Type 0 where
  pub pending : List PendingMessage
  pub messages : List ApiMessage
  pub timeouts : List String
  pub flights : List Flight
  pub published : List PendingMessage

-- `this.pending.set(p.clientMessageId, p)`.
abbrev pub set_pending : List PendingMessage → PendingMessage → List PendingMessage
set_pending ps p =
    if any (named p.client_message_id) ps
    then map (λ q. if named p.client_message_id q then p else q) ps
    else ps ++ p ∷ []

abbrev pub set_message : List ApiMessage → ApiMessage → List ApiMessage
set_message ms m =
    if any (λ n. n.id == m.id) ms then map (λ n. if n.id == m.id then m else n) ms else ms ++ m ∷ []

-- `getPending`.
unfoldable pub get_pending : Lifecycle → String → List PendingMessage
get_pending s conversation_id = filter (λ p. p.conversation_id == conversation_id) s.pending

-- `getMessages`.
unfoldable pub get_messages : Lifecycle → String → List ApiMessage
get_messages s conversation_id =
    sort_by (λ (m : ApiMessage). m.sequence)
      (filter (λ m. m.conversation_id == conversation_id) s.messages)

abbrev pub without_timeout : String → List String → List String
without_timeout id ids = filter (λ t. not (t == id)) ids

-- `armTimeout`: an armed timer is cleared and a new one set.
unfoldable pub arm_timeout : String → Lifecycle → Lifecycle
arm_timeout id s = record s { timeouts = without_timeout id s.timeouts ++ id ∷ [] }

-- `markFailed`: also what an armed timer calls, and what a rejection of the server calls.
unfoldable pub mark_failed : String → Lifecycle → Lifecycle
mark_failed id s = record s {
  pending = elim (find (named id) s.pending) [
    | none ↦ s.pending
    | some p ↦ set_pending s.pending (record p { status = PendingStatus.failed })
  ];
  timeouts = without_timeout id s.timeouts;
}

-- `await this.sendFn(p)`: the call is made at once, and the method waits.
abbrev pub publish : PendingMessage → List PendingMessage → Lifecycle → Lifecycle
publish p rest s = record s {
  flights = record { client_message_id = p.client_message_id; rest = rest } ∷ s.flights;
  published = p ∷ s.published;
}

-- `send`; the connection is an argument.
unfoldable pub send : Bool → PendingMessage → Lifecycle → Lifecycle
unfolding arm_timeout
send connected input s =
    let p : PendingMessage = record input {
      status = if connected then PendingStatus.pending else PendingStatus.queued;
    } in
    let s' : Lifecycle = record s { pending = set_pending s.pending p } in
    if connected then publish p [] s' else arm_timeout input.client_message_id s'

-- The loop of `flushQueued`, up to its next `await`.
unfoldable pub flush_next : List PendingMessage → Lifecycle → Lifecycle
flush_next [] s = s
flush_next (q ∷ rest) s =
    let p : PendingMessage = record q { status = PendingStatus.pending } in
    publish p rest (record s { pending = set_pending s.pending p })

unfoldable pub flush_queued : Lifecycle → Lifecycle
unfolding flush_next
flush_queued s = flush_next (filter is_queued s.pending) s

-- `retry` publishes the entry as it was found, and stores it as pending.
unfoldable pub retry : String → Lifecycle → Lifecycle
retry id s = elim (find (named id) s.pending) [
  | none ↦ s
  | some p ↦
      if is_pending p
      then s
      else publish p [] (record s {
        pending = set_pending s.pending (record p { status = PendingStatus.pending });
      })
]

unfoldable pub reconcile : String → ApiMessage → Lifecycle → Lifecycle
reconcile id m s = record s {
  pending = filter (λ p. not (named id p)) s.pending;
  timeouts = without_timeout id s.timeouts;
  messages = set_message s.messages m;
}

abbrev pub add_history : List ApiMessage → List ApiMessage → List ApiMessage
add_history known [] = known
add_history known (m ∷ ms) =
    add_history (if any (λ n. n.id == m.id) known then known else set_message known m) ms

unfoldable pub apply_history : List ApiMessage → Lifecycle → Lifecycle
apply_history ms s = record s { messages = add_history s.messages ms }

-- The publish that a flight waits for ends, and the method goes on.
unfoldable pub settle : Flight → Bool → Lifecycle → Lifecycle
unfolding arm_timeout mark_failed flush_next
settle f true s = flush_next f.rest (arm_timeout f.client_message_id s)
settle f false s = flush_next f.rest (mark_failed f.client_message_id s)

-- `dispose`, the teardown.
unfoldable pub dispose : Lifecycle → Lifecycle
dispose s = record s { timeouts = [] }

unfoldable pub take_flight : ℕ → List Flight → Option (Flight × List Flight)
take_flight n [] = none
take_flight zero (f ∷ fs) = some (f, fs)
take_flight (suc n) (f ∷ fs) = elim (take_flight n fs) [
  | none ↦ none
  | some (g, rest) ↦ some (g, f ∷ rest)
]

-- What happens to a store, one turn of the event loop at a time.
pub data Event : Type 0 where
  -- whether the connection is up, and the message
  sent : Bool → PendingMessage → Event
  reconnected : Event
  retried : String → Event
  rejected : String → Event
  -- the armed timer of a message fires
  timed_out : String → Event
  -- which of the flights ends, and whether its publish succeeded
  landed : ℕ → Bool → Event
  reconciled : String → ApiMessage → Event
  history : List ApiMessage → Event
  disposed : Event

unfoldable pub step : Lifecycle → Event → Lifecycle
unfolding send flush_queued retry mark_failed settle reconcile apply_history dispose
step s (sent connected p) = send connected p s
step s reconnected = flush_queued s
step s (retried id) = retry id s
step s (rejected id) = mark_failed id s
step s (timed_out id) = if any (λ t. t == id) s.timeouts then mark_failed id s else s
step s (landed n ok) = elim (take_flight n s.flights) [
  | none ↦ s
  | some (f, rest) ↦ settle f ok (record s { flights = rest })
]
step s (reconciled id m) = reconcile id m s
step s (history ms) = apply_history ms s
step s disposed = dispose s

unfoldable pub run : Lifecycle → List Event → Lifecycle
unfolding step
run s [] = s
run s (e ∷ es) = run (step s e) es

abbrev pub new_store : Lifecycle
new_store = record { pending = []; messages = []; timeouts = []; flights = []; published = [] }
