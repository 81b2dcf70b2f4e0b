-- ===== src/Client/Snapshot.antt =====
-- `mergeMessageSnapshot` of packages/realtime-core/src/index.ts: a history page that arrives after live
-- events.
use mqtt_chat.Base.{
  ◌+◌, ◌≤◌, String, string_discrete, Bool, false, not, ◌&&◌, List, [], ◌∷◌, filter, any,
  count-filter, count, leb, ◌==◌, string_eq, if◌then◌else◌, ◌≡◌, refl, sym, subst, arith,
  Bool-cases, inl, inr,
}
use mqtt_chat.Store.Order.{IsSorted}
use mqtt_chat.Store.Rows.{Message}

-- `Map.set`: a known key keeps its place, a new one comes last.
abbrev pub map_set : List Message → Message → List Message
map_set [] m = m ∷ []
map_set (x ∷ xs) m = let rest = map_set xs m in if x.id == m.id then m ∷ xs else x ∷ rest

abbrev pub set_all : List Message → List Message → List Message
set_all base [] = base
set_all base (m ∷ ms) = set_all (map_set base m) ms

-- `sort((a, b) => a.sequence - b.sequence)`, which is stable.
abbrev insert_sorted : Message → List Message → List Message
insert_sorted m [] = m ∷ []
insert_sorted m (x ∷ xs) =
    let rest = insert_sorted m xs in if leb m.sequence x.sequence then m ∷ x ∷ xs else x ∷ rest

abbrev pub sort_by_sequence : List Message → List Message
sort_by_sequence [] = []
sort_by_sequence (m ∷ ms) = insert_sorted m (sort_by_sequence ms)

unfoldable pub merge_message_snapshot : List Message → List Message → List Message
merge_message_snapshot snapshot live = sort_by_sequence (set_all (set_all [] snapshot) live)

abbrev pub with_id : String → Message → Bool
with_id id m = m.id == id

abbrev pub IsDistinct : List Message → Type 0
IsDistinct [] = Unit
IsDistinct (m ∷ ms) = (any (with_id m.id) ms ≡ false) × IsDistinct ms

abbrev pub is_new : List Message → Message → Bool
is_new live m = not (any (with_id m.id) live)

count-insert :
    (p : Message → Bool) (m : Message) (ms : List Message)
    → count p (insert_sorted m ms) ≡ count p (m ∷ ms)
count-insert p m [] = refl
count-insert p m (x ∷ xs) = ground (arith, count-insert p m xs)

count-sort : (p : Message → Bool) (ms : List Message) → count p (sort_by_sequence ms) ≡ count p ms
count-sort p [] = refl
count-sort p (m ∷ ms) = ground (arith, count-insert p m (sort_by_sequence ms), count-sort p ms)

abbrev IsInOrder : List Message → Type 0
IsInOrder = IsSorted (λ x. x.sequence)

cons-insert :
    (x m y : Message) (rest : List Message)
    → x.sequence ≤ m.sequence
    → x.sequence ≤ y.sequence
    → IsInOrder (insert_sorted m (y ∷ rest))
    → IsInOrder (x ∷ insert_sorted m (y ∷ rest))
cons-insert x m y rest a b h = elim (Bool-cases (leb m.sequence y.sequence)) [
  | inl first ↦
      let e : insert_sorted m (y ∷ rest) ≡ m ∷ y ∷ rest = ground arith in
      subst (λ l. IsInOrder (x ∷ l)) (sym e) (a, subst IsInOrder e h)
  | inr later ↦
      let e : insert_sorted m (y ∷ rest) ≡ y ∷ insert_sorted m rest = ground arith in
      subst (λ l. IsInOrder (x ∷ l)) (sym e) (b, subst IsInOrder e h)
]

insert-IsSorted : (m : Message) (ms : List Message) → IsInOrder ms → IsInOrder (insert_sorted m ms)
insert-IsSorted m [] h = tt
insert-IsSorted m (x ∷ []) h = elim (Bool-cases (leb m.sequence x.sequence)) [
  | inl first ↦
      let e : insert_sorted m (x ∷ []) ≡ m ∷ x ∷ [] = ground arith in
      subst IsInOrder (sym e) (ground arith, tt)
  | inr later ↦
      let e : insert_sorted m (x ∷ []) ≡ x ∷ m ∷ [] = ground arith in
      subst IsInOrder (sym e) (ground arith, tt)
]
insert-IsSorted m (x ∷ y ∷ rest) (le, h) =
    let tail = insert-IsSorted m (y ∷ rest) h in
    elim (Bool-cases (leb m.sequence x.sequence)) [
      | inl first ↦
          let e : insert_sorted m (x ∷ y ∷ rest) ≡ m ∷ x ∷ y ∷ rest = ground arith in
          subst IsInOrder (sym e) (ground arith, (le, h))
      | inr later ↦
          let e : insert_sorted m (x ∷ y ∷ rest) ≡ x ∷ insert_sorted m (y ∷ rest) = ground arith in
          subst IsInOrder (sym e) (cons-insert x m y rest (ground arith) le tail)
    ]

sort-IsSorted : (ms : List Message) → IsSorted (λ x. x.sequence) (sort_by_sequence ms)
sort-IsSorted [] = tt
sort-IsSorted (m ∷ ms) = insert-IsSorted m (sort_by_sequence ms) (sort-IsSorted ms)

-- Where no later key is the new one, and none is in the list twice.
filter-is_new :
    (p : Message → Bool) (m : Message) (rest xs : List Message)
    → any (with_id m.id) xs ≡ false
    → count p (filter (is_new (m ∷ rest)) xs) ≡ count p (filter (is_new rest) xs)
filter-is_new p m rest [] h = refl
filter-is_new p m rest (x ∷ xs) h = ground (arith, filter-is_new p m rest xs)

count-map_set :
    (p : Message → Bool) (base : List Message) (m : Message) (rest : List Message)
    → IsDistinct base
    → any (with_id m.id) rest ≡ false
    → count p (filter (is_new rest) (map_set base m))
      ≡ count p (filter (is_new (m ∷ rest)) base) + (if p m then 1 else 0)
count-map_set p [] m rest d fresh = ground arith
count-map_set p (x ∷ xs) m rest (lone, d) fresh = elim (string_discrete x.id m.id) [
  | yes same ↦
      ground
        (arith, filter-is_new p m rest xs (subst (λ id. any (with_id id) xs ≡ false) same lone))
  | no other ↦ ground (arith, count-map_set p xs m rest d fresh)
]

any-map_set :
    (id : String) (base : List Message) (m : Message)
    → any (with_id id) base ≡ false
    → (m.id == id) ≡ false
    → any (with_id id) (map_set base m) ≡ false
any-map_set id [] m h other = ground arith
any-map_set id (x ∷ xs) m h other = ground (arith, any-map_set id xs m)

map_set-IsDistinct :
    (base : List Message) (m : Message) → IsDistinct base → IsDistinct (map_set base m)
map_set-IsDistinct [] m d = (refl, tt)
map_set-IsDistinct (x ∷ xs) m (lone, d) = elim (string_discrete x.id m.id) [
  | yes same ↦
      let e : map_set (x ∷ xs) m ≡ m ∷ xs = ground arith in
      subst IsDistinct (sym e) (subst (λ id. any (with_id id) xs ≡ false) same lone, d)
  | no other ↦
      let e : map_set (x ∷ xs) m ≡ x ∷ map_set xs m = ground arith in
      subst IsDistinct (sym e)
        (any-map_set x.id xs m lone (ground arith), map_set-IsDistinct xs m d)
]

filter-all :
    (p : Message → Bool) (base : List Message) → count p (filter (is_new []) base) ≡ count p base
filter-all p [] = refl
filter-all p (x ∷ xs) = ground (arith, filter-all p xs)

count-set_all :
    (p : Message → Bool) (base live : List Message)
    → IsDistinct base
    → IsDistinct live
    → count p (set_all base live) ≡ count p (filter (is_new live) base) + count p live
count-set_all p base [] d e = omega (arith, filter-all p base)
count-set_all p base (m ∷ ms) d (fresh, e) = ground (
  arith,
  count-set_all p (map_set base m) ms (map_set-IsDistinct base m d) e,
  count-map_set p base m ms d fresh,
)

set_all-IsDistinct : (base live : List Message) → IsDistinct base → IsDistinct (set_all base live)
set_all-IsDistinct base [] d = d
set_all-IsDistinct base (m ∷ ms) d =
    set_all-IsDistinct (map_set base m) ms (map_set-IsDistinct base m d)

-- A history page whose ids are distinct, merged with live messages whose ids are distinct, is in the
-- order of the sequences, and holds each live message as often as before, and of the page exactly
-- the messages with an id that no live message has: no live message is lost or overwritten.
pub snapshot_merges :
    (snapshot live : List Message) (p : Message → Bool)
    → IsDistinct snapshot
    → IsDistinct live
    → IsSorted (λ m. m.sequence) (merge_message_snapshot snapshot live)
      × (count p (merge_message_snapshot snapshot live)
          ≡ count p live + count (λ m. p m && is_new live m) snapshot)
unfolding merge_message_snapshot
snapshot_merges snapshot live p ds dl =
    let base = set_all [] snapshot in
    (
      sort-IsSorted (set_all base live),
      omega (
        arith,
        count-sort p (set_all base live),
        count-set_all p base live (set_all-IsDistinct [] snapshot tt) dl,
        count-filter p (is_new live) base,
        count-set_all (λ m. p m && is_new live m) [] snapshot tt ds,
      ),
    )
