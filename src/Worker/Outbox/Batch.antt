-- ===== src/Worker/Outbox/Batch.antt =====
-- One call of `processBatch`.
use mqtt_chat.Base.{
  ℕ, zero, suc, ◌≤◌, ltb, leb, any, ◌&&◌, Bool, count-take-le, count-filter, ◌≡◌, refl, ◌∙◌, ap,
  String, Option, none, some, true, false, List, [], ◌∷◌, ◌++◌, map, ◌==◌, string_eq, nat_eq, take,
  count, filter, find, min, count-and_find, arith, Bool-cases, inl, inr,
}
use mqtt_chat.Store.Rows.{OutboxEvent}
use mqtt_chat.Store.Prisma.{Prisma, IsPrisma, tables, by_tables}
use mqtt_chat.Worker.Context.{World}
use mqtt_chat.Worker.Outbox.{
  batch_size, Attempt, OrderBy, IsOrderBy, IsOldestFirst, select_batch, process_batch,
}
use mqtt_chat.Worker.Outbox.Settled.{
  IsDistinct, settled, settle_all, settle_all-find, settle_all-missing, settled-id, accepted,
  eligible, committed, count-batch-le, batch-IsDistinct, length-batch,
}

take-IsOldestFirst :
    (n : ℕ) (rows : List OutboxEvent) → IsOldestFirst rows → IsOldestFirst (take n rows)
take-IsOldestFirst zero rows h = tt
take-IsOldestFirst (suc n) [] h = tt
take-IsOldestFirst (suc zero) (x ∷ []) h = tt
take-IsOldestFirst (suc (suc n)) (x ∷ []) h = tt
take-IsOldestFirst (suc zero) (x ∷ y ∷ rest) h = tt
take-IsOldestFirst (suc (suc n)) (x ∷ y ∷ rest) (le, h) =
    (le, take-IsOldestFirst (suc n) (y ∷ rest) h)

batch-IsOldestFirst :
    (order : OrderBy) (ordered : IsOrderBy order) (a : Attempt) (rows : List OutboxEvent)
    → IsOldestFirst (select_batch tables order a rows)
unfolding select_batch
batch-IsOldestFirst order ordered a rows =
    take-IsOldestFirst batch_size (order (filter (eligible a) rows))
      (ordered.sorted (filter (eligible a) rows))

later-count :
    (p : OutboxEvent → Bool) (t : ℕ) (x : OutboxEvent) (rows : List OutboxEvent)
    → ltb t x.created_at ≡ true
    → IsOldestFirst (x ∷ rows)
    → count (λ e. p e && leb e.created_at t) (x ∷ rows) ≡ 0
later-count p t x [] later h = ground arith
later-count p t x (y ∷ rows) later (le, h) =
    let after_y : ltb t y.created_at ≡ true = ground arith in
    ground (arith, later-count p t y rows after_y h)

tail-IsOldestFirst :
    (x : OutboxEvent) (rows : List OutboxEvent) → IsOldestFirst (x ∷ rows) → IsOldestFirst rows
tail-IsOldestFirst x [] h = tt
tail-IsOldestFirst x (y ∷ rows) (le, h) = h

-- A cut that keeps a row later than `t` keeps every row up to `t`.
take-oldest :
    (p : OutboxEvent → Bool) (t n : ℕ) (rows : List OutboxEvent)
    → IsOldestFirst rows
    → any (λ e. ltb t e.created_at) (take n rows) ≡ true
    → count (λ e. p e && leb e.created_at t) (take n rows)
      ≡ count (λ e. p e && leb e.created_at t) rows
take-oldest p t zero rows h some_later = cc
take-oldest p t (suc n) [] h some_later = cc
take-oldest p t (suc n) (x ∷ rows) h some_later = elim (Bool-cases (ltb t x.created_at)) [
  | inl later ↦ omega (
    arith,
    later-count p t x rows later h,
    count-take-le (λ e. p e && leb e.created_at t) (suc n) (x ∷ rows),
  )
  | inr early ↦
      ground (arith, early, take-oldest p t n rows (tail-IsOldestFirst x rows h) (ground arith))
]

batch-oldest :
    (order : OrderBy) (ordered : IsOrderBy order) (a : Attempt) (rows : List OutboxEvent)
    (p : OutboxEvent → Bool) (t : ℕ)
    → any (λ e. ltb t e.created_at) (select_batch tables order a rows) ≡ true
    → count (λ e. p e && leb e.created_at t) (select_batch tables order a rows)
      ≡ count (λ r. (p r && leb r.created_at t) && eligible a r) rows
unfolding select_batch
batch-oldest order ordered a rows p t some_later =
    take-oldest p t batch_size (order (filter (eligible a) rows))
      (ordered.sorted (filter (eligible a) rows)) some_later
    ∙ ordered.same_rows (λ e. p e && leb e.created_at t) (filter (eligible a) rows)
    ∙ count-filter (λ e. p e && leb e.created_at t) (eligible a) rows

-- What a batch makes of a row: the event with the row's id, if it is in the batch, settles it.
abbrev pub result_row : Attempt → List OutboxEvent → OutboxEvent → OutboxEvent
result_row a events row = elim (find (λ e. e.id == row.id) events) [
  | none ↦ row
  | some e ↦ settled a e row
]

pub map-result :
    (a : Attempt) (events rows : List OutboxEvent)
    → IsDistinct events
    → map (settle_all a events) rows ≡ map (result_row a events) rows
map-result a events [] distinct = refl
map-result a events (r ∷ rows) distinct =
    ground (arith, settle_all-find a events r (distinct r.id), map-result a events rows distinct)

-- The outcome of a committed batch.
pub record IsProcessed (a : Attempt) (events : List OutboxEvent) (old new : World)
    (processed : Option ℕ) : Type 0 where
  pub rows : new.db.outbox ≡ map (result_row a events) old.db.outbox
  pub sent : new.sent ≡ old.sent ++ accepted a events
  pub number : processed ≡ some (min batch_size (count (eligible a) old.db.outbox))
  pub oldest_first : IsOldestFirst events
  -- of any rows, no more are taken than are eligible
  pub only_eligible :
      (p : OutboxEvent → Bool) → count p events ≤ count (λ r. p r && eligible a r) old.db.outbox
  -- if something later than `t` is taken, so are all eligible rows up to `t`
  pub none_skipped :
      (p : OutboxEvent → Bool) (t : ℕ)
      → any (λ e. ltb t e.created_at) events ≡ true
      → count (λ e. p e && leb e.created_at t) events
        ≡ count (λ r. (p r && leb r.created_at t) && eligible a r) old.db.outbox

-- A batch whose transaction commits, over rows with distinct ids, takes the eligible rows (pending,
-- with fewer than ten attempts, and not locked) and no others, 50 at most, of which no older one is
-- passed over for a later one, the oldest first; it publishes
-- exactly those that the broker takes, in that order, marks them published, counts an attempt for
-- those that it refuses, and leaves every other row as it was.
pub outbox_batch :
    (P : Prisma) (h : IsPrisma P) (order : OrderBy) (ordered : IsOrderBy order) (a : Attempt)
    (w : World)
    → a.commits ≡ true
    → IsDistinct w.db.outbox
    → IsProcessed a
        (select_batch P order a w.db.outbox)
        w
        (process_batch P order a w).0
        (process_batch P order a w).1
outbox_batch P h order ordered a w commits distinct =
    by_tables
      (λ P.
        IsProcessed a (select_batch P order a w.db.outbox) w (process_batch P order a w).0
          (process_batch P order a w).1)
      h
      (let e = committed order a w commits in
        let events = select_batch tables order a w.db.outbox in
        record {
          rows =
              ap (λ r. r.0.db.outbox) e
              ∙ map-result a events w.db.outbox
                  (batch-IsDistinct order ordered a w.db.outbox distinct);
          sent = ap (λ r. r.0.sent) e;
          number = ap (λ r. r.1) e ∙ ap some (length-batch order ordered a w.db.outbox);
          oldest_first = batch-IsOldestFirst order ordered a w.db.outbox;
          only_eligible = count-batch-le order ordered a w.db.outbox;
          none_skipped = batch-oldest order ordered a w.db.outbox;
        })

pub settle_all-id :
    (a : Attempt) (events : List OutboxEvent) (row : OutboxEvent)
    → (settle_all a events row).id ≡ row.id
settle_all-id a [] row = refl
settle_all-id a (e ∷ es) row = elim (Bool-cases (row.id == e.id)) [
  | inl same ↦ ground (arith, settle_all-id a es (settled a e row), settled-id a e row)
  | inr other ↦ ground (arith, settle_all-id a es row)
]

find-map :
    (a : Attempt) (events : List OutboxEvent) (id : String) (rows : List OutboxEvent)
    (row : OutboxEvent)
    → find (λ r. r.id == id) rows ≡ some row
    → find (λ r. r.id == id) (map (settle_all a events) rows) ≡ some (settle_all a events row)
find-map a events id [] row found = cc
find-map a events id (r ∷ rows) row found =
    ground (arith, settle_all-id a events r, find-map a events id rows row)

-- The events of the batch with an id are no more than the eligible rows with it.
not_in_batch :
    (order : OrderBy) (ordered : IsOrderBy order) (a : Attempt) (rows : List OutboxEvent)
    (row : OutboxEvent)
    → IsDistinct rows
    → find (λ r. r.id == row.id) rows ≡ some row
    → eligible a row ≡ false
    → count (λ e. e.id == row.id) (select_batch tables order a rows) ≡ 0
not_in_batch order ordered a rows row distinct found barred = omega (
  arith,
  count-batch-le order ordered a rows (λ e. e.id == row.id),
  count-and_find (λ e. e.id == row.id) (eligible a) rows row found barred (distinct row.id),
)

untouched-tables :
    (order : OrderBy) (ordered : IsOrderBy order) (a : Attempt) (w : World) (row : OutboxEvent)
    → IsDistinct w.db.outbox
    → find (λ r. r.id == row.id) w.db.outbox ≡ some row
    → eligible a row ≡ false
    → find (λ r. r.id == row.id) (process_batch tables order a w).0.db.outbox ≡ some row
unfolding process_batch
untouched-tables order ordered a w row distinct found barred = elim (Bool-cases a.commits) [
  | inr lost ↦ ground arith
  | inl commits ↦
      ap (λ r. find (λ r. r.id == row.id) r.0.db.outbox) (committed order a w commits)
      ∙ find-map a (select_batch tables order a w.db.outbox) row.id w.db.outbox row found
      ∙ ap some (
          settle_all-missing a (select_batch tables order a w.db.outbox) row
            (not_in_batch order ordered a w.db.outbox row distinct found barred))
]

-- In an outbox with distinct ids a batch, committed or not, leaves a row unchanged that is
-- published already, or was refused ten times, or is locked by another worker.
pub outbox_untouched :
    (P : Prisma) (h : IsPrisma P) (order : OrderBy) (ordered : IsOrderBy order) (a : Attempt)
    (w : World) (row : OutboxEvent)
    → IsDistinct w.db.outbox
    → find (λ r. r.id == row.id) w.db.outbox ≡ some row
    → eligible a row ≡ false
    → find (λ r. r.id == row.id) (process_batch P order a w).0.db.outbox ≡ some row
outbox_untouched P h order ordered a w row distinct found barred =
    by_tables (λ P. find (λ r. r.id == row.id) (process_batch P order a w).0.db.outbox ≡ some row) h
      (untouched-tables order ordered a w row distinct found barred)
