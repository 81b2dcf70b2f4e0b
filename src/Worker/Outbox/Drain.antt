-- ===== src/Worker/Outbox/Drain.antt =====
-- The polls of the publisher, one after the other.
use mqtt_chat.Base.{
  ◌+◌, ◌*◌, ◌-◌, ◌≤◌, ◌≡◌, refl, ◌∙◌, sym, ap, subst, String, string_discrete, none, Bool, true,
  false, ◌&&◌, List, [], ◌∷◌, map, ◌==◌, string_eq, nat_eq, count, length, find, any, All,
  count-and-le, find-eq-none_iff, any_of_find, arith, Option-cases, ==_refl, inl, inr,
}
use mqtt_chat.Store.Rows.{OutboxEvent}
use mqtt_chat.Store.Prisma.{Prisma, IsPrisma, tables, by_tables}
use mqtt_chat.Worker.Context.{World}
use mqtt_chat.Worker.Outbox.{
  batch_size, Attempt, OrderBy, IsOrderBy, is_pending, select_batch, process_batch,
}
use mqtt_chat.Worker.Outbox.Settled.{
  IsDistinct, settle_all, eligible, committed, count-batch-le, batch-IsDistinct, length-batch,
}
use mqtt_chat.Worker.Outbox.Batch.{result_row, map-result, settle_all-id}

abbrev in_batch : List OutboxEvent → OutboxEvent → Bool
in_batch events row = any (λ e. e.id == row.id) events

-- A broker that takes everything, and no other worker.
abbrev pub IsClear : Attempt → Type 0
IsClear a =
    (a.commits ≡ true)
    × ((e : OutboxEvent) → a.refusal e ≡ none)
    × ((e : OutboxEvent) → a.locked e ≡ false)

count-result :
    (a : Attempt) (events rows : List OutboxEvent)
    → ((e : OutboxEvent) → a.refusal e ≡ none)
    → count is_pending (map (result_row a events) rows)
        + count (λ r. in_batch events r && is_pending r) rows
      ≡ count is_pending rows
count-result a events [] taken = refl
count-result a events (r ∷ rows) taken = elim (Option-cases (find (λ e. e.id == r.id) events)) [
  | inl absent ↦ ground (
    arith,
    absent,
    (find-eq-none_iff (λ e. e.id == r.id) events).0 absent,
    count-result a events rows taken,
  )
  | inr (e, found) ↦ ground (
    arith,
    found,
    taken e,
    any_of_find (λ e. e.id == r.id) events e found,
    count-result a events rows taken,
  )
]

count-batch :
    (e : OutboxEvent) (es rows : List OutboxEvent)
    → any (λ x. x.id == e.id) es ≡ false
    → count (λ r. in_batch (e ∷ es) r && is_pending r) rows
      ≡ count (λ r. r.id == e.id && is_pending r) rows
        + count (λ r. in_batch es r && is_pending r) rows
count-batch e es [] fresh = refl
count-batch e es (r ∷ rows) fresh = elim (string_discrete e.id r.id) [
  | no other ↦ ground (arith, count-batch e es rows fresh)
  | yes same ↦ ground (
    arith,
    count-batch e es rows fresh,
    subst (λ id. any (λ x. x.id == id) es ≡ false) same fresh,
  )
]

any-count : (p : OutboxEvent → Bool) (xs : List OutboxEvent) → count p xs ≡ 0 → any p xs ≡ false
any-count p [] e = refl
any-count p (x ∷ xs) e = ground (arith, any-count p xs)

fresh_head :
    (e : OutboxEvent) (es : List OutboxEvent)
    → IsDistinct (e ∷ es)
    → any (λ x. x.id == e.id) es ≡ false
fresh_head e es distinct =
    any-count (λ x. x.id == e.id) es (ground (arith, distinct e.id, ==_refl e.id))

IsDistinct-tail : (e : OutboxEvent) (es : List OutboxEvent) → IsDistinct (e ∷ es) → IsDistinct es
IsDistinct-tail e es distinct id = ground (arith, distinct id)

-- When every event of the batch has one pending row.
count-events :
    (events rows : List OutboxEvent)
    → IsDistinct events
    → ((id : String)
        → count (λ e. e.id == id) events ≤ count (λ r. r.id == id && is_pending r) rows)
    → IsDistinct rows
    → count (λ r. in_batch events r && is_pending r) rows ≡ length events
count-events [] rows distinct within unique = never rows
  where
    never : (rows : List OutboxEvent) → count (λ r. in_batch [] r && is_pending r) rows ≡ 0
    never [] = refl
    never (r ∷ rows) = never rows
count-events (e ∷ es) rows distinct within unique = ground (
  arith,
  count-batch e es rows (fresh_head e es distinct),
  within e.id,
  ==_refl e.id,
  unique e.id,
  count-and-le (λ r. r.id == e.id) is_pending rows,
  count-events es rows (IsDistinct-tail e es distinct) (λ id. ground (arith, within id)) unique,
)

pending_after :
    (order : OrderBy) (ordered : IsOrderBy order) (a : Attempt) (w : World)
    → IsClear a
    → IsDistinct w.db.outbox
    → count is_pending (process_batch tables order a w).0.db.outbox
      ≡ count is_pending w.db.outbox - batch_size
pending_after order ordered a w (commits, taken, free) distinct =
    ap (λ r. count is_pending r.0.db.outbox) (committed order a w commits)
    ∙ ap (count is_pending)
        (map-result a events w.db.outbox (batch-IsDistinct order ordered a w.db.outbox distinct))
    ∙ omega (
      arith,
      count-result a events w.db.outbox taken,
      count-events events w.db.outbox (batch-IsDistinct order ordered a w.db.outbox distinct)
          (λ id. omega (
            arith,
            count-batch-le order ordered a w.db.outbox (λ e. e.id == id),
            all_free (λ r. r.id == id) w.db.outbox,
          ))
          distinct,
      length-batch order ordered a w.db.outbox,
      all_free (λ _. true) w.db.outbox,
    )
  where
    events : List OutboxEvent
    events = select_batch tables order a w.db.outbox

    all_free :
        (p : OutboxEvent → Bool) (rows : List OutboxEvent)
        → count (λ r. p r && eligible a r) rows ≡ count (λ r. p r && is_pending r) rows
    all_free p [] = refl
    all_free p (r ∷ rows) = ground (arith, free r, all_free p rows)

map-IsDistinct :
    (a : Attempt) (events rows : List OutboxEvent)
    → IsDistinct rows
    → IsDistinct (map (settle_all a events) rows)
map-IsDistinct a events rows distinct id = omega (arith, same rows, distinct id)
  where
    same :
        (rows : List OutboxEvent)
        → count (λ r. r.id == id) (map (settle_all a events) rows) ≡ count (λ r. r.id == id) rows
    same [] = refl
    same (r ∷ rows) = ground (arith, settle_all-id a events r, same rows)

-- One poll after another.
abbrev pub poll : Prisma → OrderBy → List Attempt → World → World
poll P order [] w = w
poll P order (a ∷ polls) w = poll P order polls (process_batch P order a w).0

empties-tables :
    (order : OrderBy) (ordered : IsOrderBy order) (polls : List Attempt) (w : World)
    → All IsClear polls
    → IsDistinct w.db.outbox
    → count is_pending (poll tables order polls w).db.outbox
      ≡ count is_pending w.db.outbox - batch_size * length polls
empties-tables order ordered [] w clear distinct = omega arith
empties-tables order ordered (a ∷ polls) w (clear, rest) distinct = omega (
  arith,
  pending_after order ordered a w clear distinct,
  empties-tables order ordered polls (process_batch tables order a w).0 rest (
      subst (λ r. IsDistinct r.0.db.outbox) (sym (committed order a w clear.0))
        (map-IsDistinct a (select_batch tables order a w.db.outbox) w.db.outbox distinct)),
)

-- Over rows with distinct ids, while the broker takes every event, every transaction commits and
-- no other worker holds a lock, each poll leaves 50 fewer pending rows until none is left.
pub outbox_empties :
    (P : Prisma) (h : IsPrisma P) (order : OrderBy) (ordered : IsOrderBy order)
    (polls : List Attempt) (w : World)
    → All IsClear polls
    → IsDistinct w.db.outbox
    → count is_pending (poll P order polls w).db.outbox
      ≡ count is_pending w.db.outbox - batch_size * length polls
outbox_empties P h order ordered polls w clear distinct =
    by_tables
      (λ P.
        count is_pending (poll P order polls w).db.outbox
        ≡ count is_pending w.db.outbox - batch_size * length polls)
      h (empties-tables order ordered polls w clear distinct)
