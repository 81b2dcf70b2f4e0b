-- ===== src/Tests/Publishing.antt =====
-- The outbox.
use mqtt_chat.Base.{
  ℕ, ◌-◌, ◌*◌, ◌≤◌, String, string_discrete, none, some, Bool, true, false, List, [], ◌∷◌, length,
  count, if◌then◌else◌, leb, ◌≡◌, refl, sym, ◌==◌, string_eq, arith, inl, inr, Bool-cases, subst,
}
use mqtt_chat.Contracts.Envelope.{OriginType, EventEnvelope}
use mqtt_chat.Contracts.Events.{EventData}
use mqtt_chat.Store.Rows.{OutboxEvent}
use mqtt_chat.Store.Prisma.{tables, tables-IsPrisma}
use mqtt_chat.Worker.Context.{World}
use mqtt_chat.Worker.Outbox.{
  Attempt, OrderBy, IsOrderBy, IsOldestFirst, batch_size, is_pending, select_batch, process_batch,
}
use mqtt_chat.Worker.Outbox.Settled.{IsDistinct}
use mqtt_chat.Worker.Outbox.Batch.{IsProcessed, outbox_batch}
use mqtt_chat.Worker.Outbox.Drain.{poll, outbox_empties}
use mqtt_chat.Tests.Fixtures.{db, world, apart}

-- A stable sort, for ORDER BY.
abbrev insert_row : OutboxEvent → List OutboxEvent → List OutboxEvent
insert_row m [] = m ∷ []
insert_row m (x ∷ xs) =
    let rest = insert_row m xs in if leb m.created_at x.created_at then m ∷ x ∷ xs else x ∷ rest

abbrev by_time : OrderBy
by_time [] = []
by_time (m ∷ ms) = insert_row m (by_time ms)

count-insert :
    (p : OutboxEvent → Bool) (m : OutboxEvent) (ms : List OutboxEvent)
    → count p (insert_row m ms) ≡ count p (m ∷ ms)
count-insert p m [] = refl
count-insert p m (x ∷ xs) = ground (arith, count-insert p m xs)

count-sort : (p : OutboxEvent → Bool) (ms : List OutboxEvent) → count p (by_time ms) ≡ count p ms
count-sort p [] = refl
count-sort p (m ∷ ms) = ground (arith, count-insert p m (by_time ms), count-sort p ms)

cons-insert :
    (x m y : OutboxEvent) (rest : List OutboxEvent)
    → x.created_at ≤ m.created_at
    → x.created_at ≤ y.created_at
    → IsOldestFirst (insert_row m (y ∷ rest))
    → IsOldestFirst (x ∷ insert_row m (y ∷ rest))
cons-insert x m y rest a b h = elim (Bool-cases (leb m.created_at y.created_at)) [
  | inl first ↦
      let e : insert_row m (y ∷ rest) ≡ m ∷ y ∷ rest = ground arith in
      subst (λ l. IsOldestFirst (x ∷ l)) (sym e) (a, subst IsOldestFirst e h)
  | inr later ↦
      let e : insert_row m (y ∷ rest) ≡ y ∷ insert_row m rest = ground arith in
      subst (λ l. IsOldestFirst (x ∷ l)) (sym e) (b, subst IsOldestFirst e h)
]

insert-IsOldestFirst :
    (m : OutboxEvent) (ms : List OutboxEvent) → IsOldestFirst ms → IsOldestFirst (insert_row m ms)
insert-IsOldestFirst m [] h = tt
insert-IsOldestFirst m (x ∷ []) h = elim (Bool-cases (leb m.created_at x.created_at)) [
  | inl first ↦
      let e : insert_row m (x ∷ []) ≡ m ∷ x ∷ [] = ground arith in
      subst IsOldestFirst (sym e) (ground arith, tt)
  | inr later ↦
      let e : insert_row m (x ∷ []) ≡ x ∷ m ∷ [] = ground arith in
      subst IsOldestFirst (sym e) (ground arith, tt)
]
insert-IsOldestFirst m (x ∷ y ∷ rest) (le, h) =
    let tail = insert-IsOldestFirst m (y ∷ rest) h in
    elim (Bool-cases (leb m.created_at x.created_at)) [
      | inl first ↦
          let e : insert_row m (x ∷ y ∷ rest) ≡ m ∷ x ∷ y ∷ rest = ground arith in
          subst IsOldestFirst (sym e) (ground arith, (le, h))
      | inr later ↦
          let e : insert_row m (x ∷ y ∷ rest) ≡ x ∷ insert_row m (y ∷ rest) = ground arith in
          subst IsOldestFirst (sym e) (cons-insert x m y rest (ground arith) le tail)
    ]

sort-IsOldestFirst : (ms : List OutboxEvent) → IsOldestFirst (by_time ms)
sort-IsOldestFirst [] = tt
sort-IsOldestFirst (m ∷ ms) = insert-IsOldestFirst m (by_time ms) (sort-IsOldestFirst ms)

by_time-IsOrderBy : IsOrderBy by_time
by_time-IsOrderBy = record { same_rows = count-sort; sorted = sort-IsOldestFirst }

abbrev event : EventEnvelope EventData
event = record {
  event_id = "e";
  event_type = "typing.started";
  version = 1;
  timestamp = 1;
  actor = none;
  conversation_id = some "g";
  origin = record { type = OriginType.system; id = none; rule_id = none };
  correlation_id = none;
  causation_id = none;
  payload = EventData.typing "g" "bob";
}

abbrev row : String → ℕ → ℕ → OutboxEvent
row id created_at attempts = record {
  id = id;
  event_type = "typing.started";
  aggregate_type = "Conversation";
  aggregate_id = "g";
  payload = event;
  topic = "t";
  created_at = created_at;
  published_at = none;
  attempt_count = attempts;
  last_error = none;
}

-- Two rows are pending, and the third was refused ten times.
abbrev queued : World
queued = record world {
  db = record db { outbox = row "o1" 5 0 ∷ row "o2" 3 9 ∷ row "o3" 1 10 ∷ [] };
}

-- The broker refuses the first.
abbrev attempt : Attempt
attempt = record {
  now = 200;
  refusal = λ e. if e.id == "o1" then some "offline" else none;
  locked = λ e. false;
  commits = true;
}

abbrev clear : Attempt
clear = record { now = 200; refusal = λ e. none; locked = λ e. false; commits = true }

queued-IsDistinct : IsDistinct queued.db.outbox
unfolding string_discrete
queued-IsDistinct id =
    ground (arith, apart "o1" "o2" refl, apart "o1" "o3" refl, apart "o2" "o3" refl)

outbox_batch_example :
    IsProcessed attempt
      (select_batch tables by_time attempt queued.db.outbox)
      queued
      (process_batch tables by_time attempt queued).0
      (process_batch tables by_time attempt queued).1
outbox_batch_example =
    outbox_batch tables tables-IsPrisma by_time by_time-IsOrderBy attempt queued refl
      queued-IsDistinct

outbox_empties_example :
    count is_pending (poll tables by_time (clear ∷ []) queued).db.outbox
    ≡ count is_pending queued.db.outbox - batch_size * length (clear ∷ [])
outbox_empties_example =
    outbox_empties tables tables-IsPrisma by_time by_time-IsOrderBy (clear ∷ []) queued
      ((refl, (λ e. refl), (λ e. refl)), tt) queued-IsDistinct
