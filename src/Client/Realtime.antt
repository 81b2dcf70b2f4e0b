-- ===== src/Client/Realtime.antt =====
-- `ChatRealtimeClient` of packages/realtime-core/src/index.ts: its connection and what it publishes. The client of
-- mqtt.js is a source of events; a callback of the application is what it was called with.
pub mod Ready
pub mod Publish
use mqtt_chat.Base.{
  ℕ, suc, ◌+◌, String, Option, none, some, Bool, true, false, not, ◌&&◌, ◌||◌, List, [], ◌∷◌, ◌++◌,
  filter, any, ◌==◌, string_eq, nat_eq, if◌then◌else◌,
}
use mqtt_chat.Contracts.Topics.{all_events, user_events_wildcard_topic}

pub data ConnectionStatus : Type 0 where
  connecting connected reconnecting offline : ConnectionStatus

-- `ChatRealtimeClientOptions`.
pub record Options : Type 0 where
  pub namespace : String
  pub user_id : String
  pub extra_event_wildcards : List String
  pub subscribe_user_events : Bool

-- The subscriptions of one connection: its number, and the patterns that have no SUBACK yet.
pub record Restoration : Type 0 where
  pub connection : ℕ
  pub waiting : List String

pub record Session : Type 0 where
  -- whether `this.client` is the client of this session
  pub current : Bool
  -- how the promise of `connect` was settled: resolved or rejected
  pub settled : Option Bool
  -- the calls of `onStatus`, the latest first
  pub statuses : List ConnectionStatus
  pub restorations : List Restoration
  -- the connections for which `onConnect` was called, the latest first
  pub ready : List ℕ
  -- the SUBACKs, the latest first
  pub granted : List (ℕ × String)
  pub connections : ℕ

abbrev pub has : String → List String → Bool
has p ps = any (λ q. q == p) ps

-- `[...new Set(patterns)]`.
unfoldable pub unique : List String → List String → List String
unique seen [] = seen
unique seen (p ∷ ps) = unique (if has p seen then seen else seen ++ p ∷ []) ps

unfoldable pub patterns : Options → List String
unfolding unique
patterns o = unique [] (
    (all_events o.namespace ∷ o.extra_event_wildcards)
    ++ (if o.subscribe_user_events
        then user_events_wildcard_topic o.namespace o.user_id ∷ []
        else []))

-- `if (!settled)`.
abbrev pub settle : Bool → Option Bool → Option Bool
settle outcome none = some outcome
settle outcome (some before) = some before

abbrev pub notify : ConnectionStatus → Session → Session
notify status s = record s { statuses = status ∷ s.statuses }

-- `connect`: the promise is pending, and no event has come.
abbrev pub new_session : Session
new_session = record {
  current = true;
  settled = none;
  statuses = connecting ∷ [];
  restorations = [];
  ready = [];
  granted = [];
  connections = 0;
}

-- `restoreSubscriptions`, up to its `await`.
unfoldable pub restore_subscriptions : List String → Session → Session
restore_subscriptions wanted s = record s {
  restorations = record { connection = s.connections; waiting = wanted } ∷ s.restorations;
  connections = suc s.connections;
}

unfoldable pub acknowledge : ℕ → String → List Restoration → List Restoration
acknowledge n p [] = []
acknowledge n p (r ∷ rs) =
    let rest = acknowledge n p rs in
    if r.connection == n
    then record r { waiting = filter (λ q. not (q == p)) r.waiting } ∷ rest
    else r ∷ rest

abbrev pub is_empty : List String → Bool
is_empty [] = true
is_empty (p ∷ ps) = false

abbrev pub is_done : ℕ → List Restoration → Bool
is_done n rs = any (λ (r : Restoration). r.connection == n && is_empty r.waiting) rs

abbrev pub without : ℕ → List Restoration → List Restoration
without n rs = filter (λ (r : Restoration). not (r.connection == n)) rs

-- Every subscription of a connection is acknowledged.
unfoldable pub report : ℕ → Session → Session
report n s =
    if s.current
    then record s {
      ready = n ∷ s.ready;
      statuses = connected ∷ s.statuses;
      settled = settle true s.settled;
    }
    else s

-- A SUBACK; the last one that a connection waits for ends the restoration.
unfoldable pub grant : ℕ → String → Session → Session
unfolding acknowledge report
grant n p s =
    let rs = acknowledge n p s.restorations in
    let s' : Session = record s { granted = (n, p) ∷ s.granted; restorations = rs } in
    if is_done n rs then report n (record s' { restorations = without n rs }) else s'

-- The first subscription that fails rejects the promise and ends the client.
unfoldable pub refuse : ℕ → Session → Session
refuse n s =
    if any (λ (r : Restoration). r.connection == n) s.restorations
    then record s { restorations = without n s.restorations; settled = settle false s.settled }
    else s

unfoldable pub close : Session → Session
close s = record s { statuses = offline ∷ s.statuses; settled = settle false s.settled }

pub data Event : Type 0 where
  opened reconnect closed disconnected : Event
  -- whether `client.connected`
  error : Bool → Event
  granted refused : ℕ → String → Event

unfoldable pub step : List String → Event → Session → Session
unfolding restore_subscriptions grant refuse close
step wanted opened s = restore_subscriptions wanted s
step wanted reconnect s = notify reconnecting s
step wanted closed s = close s
step wanted disconnected s = record s { current = false }
step wanted (error true) s = s
step wanted (error false) s = record s { settled = settle false s.settled }
step wanted (granted n p) s = grant n p s
step wanted (refused n p) s = refuse n s

unfoldable pub run : List String → List Event → Session → Session
unfolding step
run wanted [] s = s
run wanted (e ∷ es) s = run wanted es (step wanted e s)
