-- ===== src/Client/Ephemeral/Traces.antt =====
-- Which events the receipts of the typing indicator come from.
use mqtt_chat.Base.{
  ℕ, String, none, some, Bool, true, false, ◌&&◌, ◌||◌, List, [], ◌∷◌, filter, any, ltb, ◌==◌,
  string_eq, nat_eq, ◌+◌, ◌≡◌, arith, Option-cases, inl, inr,
}
use mqtt_chat.Client.Dict.{put, drop, get, get-put, get-drop}
use mqtt_chat.Client.Ephemeral.{
  Ephemeral, typers, seen_in, expired, drop_all, set_typing, sweep_one, keys, sweep_keys, sweep,
  set_presence, grace_over, forget_typing, reset_ephemeral, Event, typing, presence_changed, swept,
  timer, removed, reset, step, run,
}
use mqtt_chat.Client.Ephemeral.Receipts.{get-drop_all}

-- The event that a user begins to type, or goes on to.
abbrev pub began : String → String → ℕ × Event → Bool
began k u (now, typing j v started) = started && (j == k && v == u)
began k u (now, presence_changed v online) = false
began k u (now, swept) = false
began k u (now, timer v) = false
began k u (now, removed j) = false
began k u (now, reset) = false

abbrev pub began_at : String → String → ℕ → ℕ × Event → Bool
began_at k u at e = began k u e && e.0 == at

-- Less than eight seconds before `now`.
abbrev pub began_lately : ℕ → String → String → ℕ × Event → Bool
began_lately now k u e = began k u e && ltb now (e.0 + 8000)

-- The receipt of a user carries this time.
abbrev pub seen_at : Ephemeral → String → String → ℕ → Bool
seen_at s k u at = elim (get u (seen_in s k)) [ none ↦ false | some t ↦ t == at ]

module _ (k u : String) (at : ℕ) where
  typing-seen :
      (now : ℕ) (j v : String) (started : Bool) (s : Ephemeral)
      → seen_at (set_typing now j v started s) k u at ≡ true
      → (began_at k u at (now, typing j v started) || seen_at s k u at) ≡ true
  unfolding set_typing
  typing-seen now j v true s h =
      ground
        (arith, get-put j k (put v now (seen_in s j)) s.typing_seen, get-put v u now (seen_in s j))
  typing-seen now j v false s h = elim (Option-cases (get j s.typing_seen)) [
    | inl unseen ↦ ground (arith, unseen)
    | inr (d, seen) ↦ ground (arith, seen, get-put j k (drop v d) s.typing_seen, get-drop v u d)
  ]

  sweep_one-seen :
      (now : ℕ) (j : String) (s : Ephemeral)
      → seen_at (sweep_one now j s) k u at ≡ true
      → seen_at s k u at ≡ true
  unfolding sweep_one
  sweep_one-seen now j s h = elim (Option-cases (get j s.typing_seen)) [
    | inl unseen ↦ ground (arith, unseen)
    | inr (d, seen) ↦
        let gone = filter (expired now d) (typers s j) in
        ground (arith, seen, get-put j k (drop_all gone d) s.typing_seen, get-drop_all u gone d)
  ]

  sweep_keys-seen :
      (now : ℕ) (ks : List String) (s : Ephemeral)
      → seen_at (sweep_keys now ks s) k u at ≡ true
      → seen_at s k u at ≡ true
  unfolding sweep_keys
  sweep_keys-seen now [] s h = h
  sweep_keys-seen now (j ∷ ks) s h =
      sweep_one-seen now j s (sweep_keys-seen now ks (sweep_one now j s) h)

  pub sweep-seen :
      (now : ℕ) (s : Ephemeral) → seen_at (sweep now s) k u at ≡ true → seen_at s k u at ≡ true
  unfolding sweep
  sweep-seen now s h = sweep_keys-seen now (keys s.typing_seen) s h

  step-seen :
      (e : ℕ × Event) (s : Ephemeral)
      → seen_at (step e s) k u at ≡ true
      → (began_at k u at e || seen_at s k u at) ≡ true
  unfolding step set_presence grace_over forget_typing reset_ephemeral
  step-seen (now, typing j v started) s h = typing-seen now j v started s h
  step-seen (now, presence_changed v true) s h = h
  step-seen (now, presence_changed v false) s h = ground arith
  step-seen (now, swept) s h = sweep-seen now s h
  step-seen (now, timer v) s h = ground arith
  step-seen (now, removed j) s h = h
  step-seen (now, reset) s h = cc

  -- A receipt that is there after some events is from one of them, or was there before.
  pub run-seen :
      (es : List (ℕ × Event)) (s : Ephemeral)
      → seen_at (run es s) k u at ≡ true
      → (any (began_at k u at) es || seen_at s k u at) ≡ true
  unfolding run
  run-seen [] s h = h
  run-seen (e ∷ es) s h = ground (arith, run-seen es (step e s) h, step-seen e s)

  pub lately :
      (now : ℕ) (es : List (ℕ × Event))
      → ltb now (at + 8000) ≡ true
      → any (began_at k u at) es ≡ true
      → any (began_lately now k u) es ≡ true
  lately now [] recent h = cc
  lately now (e ∷ es) recent h = ground (arith, lately now es recent)
