-- ===== src/Client/Watermark.antt =====
-- packages/realtime-core/src/read-watermark.ts.
use mqtt_chat.Base.{
  ℕ, max, String, Option, none, some, false, List, [], ◌∷◌, map, any, ◌==◌, string_eq, ltb,
  if◌then◌else◌, ◌≡◌, refl, sym, ap, ◌∙◌, ◌&&◌, arith, Bool-cases, inl, inr,
}
use mqtt_chat.Contracts.Events.{MemberSummary}

abbrev pub advance_mark : String → ℕ → MemberSummary → MemberSummary
advance_mark user_id sequence m =
    if m.user_id == user_id && ltb m.last_read_sequence sequence
    then record m { last_read_sequence = sequence }
    else m

-- `null` if no mark moves; `members` may be undefined, and every ℕ is finite.
unfoldable pub advance_member_watermark :
    Option (List MemberSummary) → String → ℕ → Option (List MemberSummary)
advance_member_watermark none user_id sequence = none
advance_member_watermark (some members) user_id sequence =
    if any (λ (m : MemberSummary). m.user_id == user_id && ltb m.last_read_sequence sequence)
      members
    then some (map (advance_mark user_id sequence) members)
    else none

-- A caller keeps its members where the result is `null`.
abbrev pub receive : List MemberSummary → String × ℕ → List MemberSummary
receive members (user_id, sequence) =
    elim (advance_member_watermark (some members) user_id sequence) [
      | none ↦ members
      | some next ↦ next
    ]

abbrev raise_to : String → ℕ → MemberSummary → MemberSummary
raise_to user_id sequence m =
    if m.user_id == user_id
    then record m { last_read_sequence = max m.last_read_sequence sequence }
    else m

raise-mark : (u : String) (n : ℕ) (m : MemberSummary) → raise_to u n m ≡ advance_mark u n m
raise-mark u n m = ground arith

still :
    (u : String) (n : ℕ) (ms : List MemberSummary)
    → any (λ (m : MemberSummary). m.user_id == u && ltb m.last_read_sequence n) ms ≡ false
    → map (advance_mark u n) ms ≡ ms
still u n [] h = refl
still u n (m ∷ ms) h = ground (arith, still u n ms)

receive-eq :
    (ms : List MemberSummary) (u : String) (n : ℕ) → receive ms (u, n) ≡ map (advance_mark u n) ms
unfolding advance_member_watermark
receive-eq ms u n =
    elim (Bool-cases
      (any (λ (m : MemberSummary). m.user_id == u && ltb m.last_read_sequence n) ms)) [
        | inl moves ↦ ground arith
        | inr stays ↦ ground (arith, still u n ms stays)
      ]

raise-all :
    (u : String) (n : ℕ) (ms : List MemberSummary)
    → map (advance_mark u n) ms ≡ map (raise_to u n) ms
raise-all u n [] = refl
raise-all u n (m ∷ ms) = ground (arith, raise-mark u n m, raise-all u n ms)

swap-all :
    (u v : String) (n k : ℕ) (ms : List MemberSummary)
    → map (raise_to u n) (map (raise_to v k) ms) ≡ map (raise_to v k) (map (raise_to u n) ms)
swap-all u v n k [] = refl
swap-all u v n k (m ∷ ms) = ground (arith, swap-all u v n k ms)

same-all :
    (u : String) (n : ℕ) (ms : List MemberSummary)
    → map (raise_to u n) (map (raise_to u n) ms) ≡ map (raise_to u n) ms
same-all u n [] = refl
same-all u n (m ∷ ms) = ground (arith, same-all u n ms)

received :
    (ms : List MemberSummary) (u : String) (n : ℕ) → receive ms (u, n) ≡ map (raise_to u n) ms
received ms u n = receive-eq ms u n ∙ raise-all u n ms

-- A receipt raises the member's mark to the greater of the two sequences and leaves the others; two
-- receipts give the same in either order, and one that is delivered again changes nothing.
pub watermark_merges :
    (ms : List MemberSummary) (u v : String) (n k : ℕ)
    → (receive ms (u, n)
        ≡ map
            (λ (m : MemberSummary).
              if m.user_id == u
              then record m { last_read_sequence = max m.last_read_sequence n }
              else m)
            ms)
      × (receive (receive ms (u, n)) (v, k) ≡ receive (receive ms (v, k)) (u, n))
      × (receive (receive ms (u, n)) (u, n) ≡ receive ms (u, n))
watermark_merges ms u v n k = (
  received ms u n,
  received (receive ms (u, n)) v k
      ∙ ap (map (raise_to v k)) (received ms u n)
      ∙ swap-all v u k n ms
      ∙ sym (ap (map (raise_to u n)) (received ms v k))
      ∙ sym (received (receive ms (v, k)) u n),
  received (receive ms (u, n)) u n
      ∙ ap (map (raise_to u n)) (received ms u n)
      ∙ same-all u n ms
      ∙ sym (received ms u n),
)
