-- ===== src/Client/Ephemeral/Grace.antt =====
-- The grace of the presence indicator of the web client.
use mqtt_chat.Base.{
  ℕ, ◌+◌, String, Option, none, some, Bool, true, false, not, ◌&&◌, List, [], ◌∷◌, all, ltb, ◌==◌,
  string_eq, nat_eq, ◌≡◌, string_discrete, subst, refl, sym, ap, ◌∙◌, arith, ==_refl,
}
use mqtt_chat.Client.Dict.{get, get-put, get-drop}
use mqtt_chat.Client.Ephemeral.{
  Ephemeral, set_typing, sweep, sweep_keys, sweep_one, keys, set_presence, grace_over,
  forget_typing, Event, typing, presence_changed, swept, timer, removed, reset, step, run,
}

-- The presence part of the state is left alone.
abbrev SamePresence : Ephemeral → Ephemeral → Type 0
SamePresence s t = (t.presence ≡ s.presence) × (t.grace_timers ≡ s.grace_timers)

typing-same :
    (now : ℕ) (k u : String) (started : Bool) (s : Ephemeral)
    → SamePresence s (set_typing now k u started s)
unfolding set_typing
typing-same now k u true s = (ground arith, ground arith)
typing-same now k u false s = (ground arith, ground arith)

sweep_one-same : (now : ℕ) (k : String) (s : Ephemeral) → SamePresence s (sweep_one now k s)
unfolding sweep_one
sweep_one-same now k s = (ground arith, ground arith)

sweep_keys-same :
    (now : ℕ) (ks : List String) (s : Ephemeral) → SamePresence s (sweep_keys now ks s)
unfolding sweep_keys
sweep_keys-same now [] s = (refl, refl)
sweep_keys-same now (k ∷ ks) s =
    let one = sweep_one-same now k s in
    let rest = sweep_keys-same now ks (sweep_one now k s) in (rest.0 ∙ one.0, rest.1 ∙ one.1)

sweep-same : (now : ℕ) (s : Ephemeral) → SamePresence s (sweep now s)
unfolding sweep
sweep-same now s = sweep_keys-same now (keys s.typing_seen) s

-- An event before a time that does not tell whether a user is online, and does not reset the session.
abbrev pub is_quiet : String → ℕ → ℕ × Event → Bool
is_quiet u deadline (now, typing k v started) = ltb now deadline
is_quiet u deadline (now, presence_changed v online) = ltb now deadline && not (v == u)
is_quiet u deadline (now, swept) = ltb now deadline
is_quiet u deadline (now, timer v) = ltb now deadline
is_quiet u deadline (now, removed k) = ltb now deadline
is_quiet u deadline (now, reset) = false

record IsHeld (u : String) (deadline : ℕ) (shown : Option Bool) (s : Ephemeral) : Type 0 where
  armed : get u s.grace_timers ≡ some deadline
  kept : get u s.presence ≡ shown

step-IsHeld :
    (u : String) (deadline : ℕ) (shown : Option Bool) (e : ℕ × Event) (s : Ephemeral)
    → is_quiet u deadline e ≡ true
    → IsHeld u deadline shown s
    → IsHeld u deadline shown (step e s)
unfolding step set_presence grace_over forget_typing
step-IsHeld u deadline shown (now, typing k v started) s quiet held =
    let same = typing-same now k v started s in
    record { armed = ap (get u) same.1 ∙ held.armed; kept = ap (get u) same.0 ∙ held.kept }
step-IsHeld u deadline shown (now, presence_changed v true) s quiet held = record {
  armed = ground (arith, get-drop v u s.grace_timers, held.armed);
  kept = ground (arith, get-put v u true s.presence, held.kept);
}
step-IsHeld u deadline shown (now, presence_changed v false) s quiet held = record {
  armed = ground (arith, get-put v u (now + 10000) s.grace_timers, held.armed);
  kept = ground (arith, held.kept);
}
step-IsHeld u deadline shown (now, swept) s quiet held =
    let same = sweep-same now s in
    record { armed = ap (get u) same.1 ∙ held.armed; kept = ap (get u) same.0 ∙ held.kept }
step-IsHeld u deadline shown (now, timer v) s quiet held = elim (string_discrete v u) [
  | yes same ↦
      let early : step (now, timer v) s ≡ s =
        ground (arith, ap (λ w. get w s.grace_timers) same, held.armed) in
      subst (IsHeld u deadline shown) (sym early) held
  | no other ↦ record {
    armed = ground (arith, get-drop v u s.grace_timers, held.armed);
    kept = ground (arith, get-put v u false s.presence, held.kept);
  }
]
step-IsHeld u deadline shown (now, removed k) s quiet held = record {
  armed = held.armed;
  kept = held.kept;
}
step-IsHeld u deadline shown (now, reset) s quiet held = cc

run-IsHeld :
    (u : String) (deadline : ℕ) (shown : Option Bool) (es : List (ℕ × Event)) (s : Ephemeral)
    → all (is_quiet u deadline) es ≡ true
    → IsHeld u deadline shown s
    → IsHeld u deadline shown (run es s)
unfolding run
run-IsHeld u deadline shown [] s quiet held = held
run-IsHeld u deadline shown (e ∷ es) s quiet held =
    run-IsHeld u deadline shown es (step e s) (ground arith)
      (step-IsHeld u deadline shown e s (ground arith) held)

-- After a user is reported offline, and while less than ten seconds pass with no further report about that user and no
-- change of identity, the client shows the user as before. An online report then shows the user online
-- and takes the timer back; a timer that fires at the end of the ten seconds or later shows the user
-- offline.
pub presence_grace :
    (u : String) (now later wait : ℕ) (es : List (ℕ × Event)) (s : Ephemeral)
    → get u s.grace_timers ≡ none
    → all (is_quiet u (now + 10000)) es ≡ true
    → let t = run es (step (now, presence_changed u false) s) in
      (get u t.presence ≡ get u s.presence)
      × (get u (step (later, presence_changed u true) t).presence ≡ some true)
      × (get u (step (later, presence_changed u true) t).grace_timers ≡ none)
      × (get u (step (now + 10000 + wait, timer u) t).presence ≡ some false)
unfolding step set_presence grace_over
presence_grace u now later wait es s idle quiet =
    let held =
      run-IsHeld u (now + 10000) (get u s.presence) es (step (now, presence_changed u false) s)
        quiet
        (record {
          armed = ground (arith, idle, get-put u u (now + 10000) s.grace_timers, ==_refl u);
          kept = ground (arith, idle);
        }) in
    let t = run es (step (now, presence_changed u false) s) in
    (
      held.kept,
      ground (arith, get-put u u true t.presence, ==_refl u),
      ground (arith, get-drop u u t.grace_timers, ==_refl u),
      ground (arith, held.armed, get-put u u false t.presence, ==_refl u),
    )
