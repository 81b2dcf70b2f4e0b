-- ===== src/Client/Ephemeral.antt =====
-- apps/web/src/store/chat-store.ts: who is typing and who is online, with the timers outside the store.
pub mod Receipts
pub mod Traces
pub mod Typing
pub mod Grace
use mqtt_chat.Base.{
  ℕ, ◌+◌, String, Option, none, some, Bool, true, false, not, ◌&&◌, List, [], ◌∷◌, ◌++◌, filter,
  any, leb, ltb, ◌==◌, string_eq, if◌then◌else◌, length, nat_eq,
}
use mqtt_chat.Base.Utf16.{before}
use mqtt_chat.Client.Dict.{Dict, get, put, drop}

-- `typingUsers`, `presence` and the two maps of the module: when each user last began to type in a conversation, and
-- when the timer fires that shows a user offline.
pub record Ephemeral : Type 0 where
  pub self : Option String
  pub typing_users : Dict (List String)
  pub presence : Dict Bool
  pub typing_seen : Dict (Dict ℕ)
  pub grace_timers : Dict ℕ

abbrev pub includes : String → List String → Bool
includes u us = any (λ v. v == u) us

-- `sort()` of texts.
unfoldable pub insert_text : String → List String → List String
insert_text u [] = u ∷ []
insert_text u (v ∷ vs) = let rest = insert_text u vs in if before v u then v ∷ rest else u ∷ v ∷ vs

unfoldable pub sort_texts : List String → List String
unfolding insert_text
sort_texts [] = []
sort_texts (u ∷ us) = insert_text u (sort_texts us)

abbrev pub or_empty {ℓ} : {A : Type ℓ} → Option (List A) → List A
or_empty none = []
or_empty (some xs) = xs

abbrev is_self : Option String → String → Bool
is_self none u = false
is_self (some self) u = u == self

abbrev pub typers : Ephemeral → String → List String
typers s k = or_empty (get k s.typing_users)

abbrev pub seen_in : Ephemeral → String → Dict ℕ
seen_in s k = or_empty (get k s.typing_seen)

-- `setTyping`: the user's own events are passed over.
unfoldable pub set_typing : ℕ → String → String → Bool → Ephemeral → Ephemeral
unfolding sort_texts
set_typing now k u true s =
    let seen = put k (put u now (seen_in s k)) s.typing_seen in
    let s' : Ephemeral = record s { typing_seen = seen } in
    if is_self s.self u
    then s
    else if includes u (typers s k)
    then s'
    else record s' { typing_users = put k (sort_texts (typers s k ++ u ∷ [])) s.typing_users }
set_typing now k u false s =
    let seen : Dict (Dict ℕ) = elim (get k s.typing_seen) [
      | none ↦ s.typing_seen
      | some d ↦ put k (drop u d) s.typing_seen
    ] in
    if is_self s.self u then s else record s {
      typing_seen = seen;
      typing_users = put k (filter (λ v. not (v == u)) (typers s k)) s.typing_users;
    }

-- `TYPING_TTL_MS` is 8000. A user without a receipt does not expire.
abbrev pub expired : ℕ → Dict ℕ → String → Bool
expired now seen u = elim (get u seen) [ none ↦ false | some at ↦ leb (at + 8000) now ]

abbrev pub drop_all : List String → Dict ℕ → Dict ℕ
drop_all [] d = d
drop_all (u ∷ us) d = drop_all us (drop u d)

-- The sweep of one conversation that has receipts.
unfoldable pub sweep_one : ℕ → String → Ephemeral → Ephemeral
sweep_one now k s = elim (get k s.typing_seen) [
  | none ↦ s
  | some seen ↦
      let current = typers s k in
      let alive = filter (λ u. not (expired now seen u)) current in
      let rest = drop_all (filter (expired now seen) current) seen in
      if length current == 0 then s else record s {
        typing_seen = put k rest s.typing_seen;
        typing_users =
            if length alive == length current then s.typing_users else put k alive s.typing_users;
      }
]

abbrev pub keys : Dict (Dict ℕ) → List String
keys [] = []
keys ((k, d) ∷ rest) = k ∷ keys rest

unfoldable pub sweep_keys : ℕ → List String → Ephemeral → Ephemeral
unfolding sweep_one
sweep_keys now [] s = s
sweep_keys now (k ∷ ks) s = sweep_keys now ks (sweep_one now k s)

-- The interval's callback.
unfoldable pub sweep : ℕ → Ephemeral → Ephemeral
unfolding sweep_keys
sweep now s = sweep_keys now (keys s.typing_seen) s

-- `setPresence`; `PRESENCE_GRACE_MS` is 10000.
unfoldable pub set_presence : ℕ → String → Bool → Ephemeral → Ephemeral
set_presence now u true s = record s {
  grace_timers = drop u s.grace_timers;
  presence = put u true s.presence;
}
set_presence now u false s = elim (get u s.grace_timers) [
  | some at ↦ s
  | none ↦ record s { grace_timers = put u (now + 10000) s.grace_timers }
]

-- The callback of the timer of a user.
unfoldable pub grace_over : String → Ephemeral → Ephemeral
grace_over u s = record s {
  grace_timers = drop u s.grace_timers;
  presence = put u false s.presence;
}

-- The typing part of `removeConversation`.
unfoldable pub forget_typing : String → Ephemeral → Ephemeral
forget_typing k s = record s { typing_users = drop k s.typing_users }

-- `resetTransient` and `clearEphemeralBookkeeping`.
unfoldable pub reset_ephemeral : Ephemeral → Ephemeral
reset_ephemeral s = record s {
  typing_users = [];
  presence = [];
  typing_seen = [];
  grace_timers = [];
}

pub data Event : Type 0 where
  -- conversation, user, whether typing started
  typing : String → String → Bool → Event
  presence_changed : String → Bool → Event
  swept : Event
  -- the timer of a user fires
  timer : String → Event
  removed : String → Event
  reset : Event

-- An event at a time. A timer fires if it is set and its time has come.
unfoldable pub step : ℕ × Event → Ephemeral → Ephemeral
unfolding set_typing set_presence sweep grace_over forget_typing reset_ephemeral
step (now, typing k u started) s = set_typing now k u started s
step (now, presence_changed u online) s = set_presence now u online s
step (now, swept) s = sweep now s
step (now, timer u) s = elim (get u s.grace_timers) [
  | none ↦ s
  | some at ↦ if leb at now then grace_over u s else s
]
step (now, removed k) s = forget_typing k s
step (now, reset) s = reset_ephemeral s

unfoldable pub run : List (ℕ × Event) → Ephemeral → Ephemeral
unfolding step
run [] s = s
run (e ∷ es) s = run es (step e s)
