-- ===== src/Worker/Outbox.antt =====
-- apps/chat-worker/src/outbox.ts: the publisher of the rows that the handlers leave in the outbox.
pub mod Settled
pub mod Batch
pub mod Drain
use mqtt_chat.Base.{
  ℕ, zero, suc, ◌+◌, ◌*◌, ◌≤◌, ◌≡◌, String, Option, none, some, Bool, true, false, not, ◌&&◌, List,
  [], ◌∷◌, ◌++◌, ◌==◌, string_eq, nat_eq, if◌then◌else◌, ltb, leb, take, count, length,
}
use mqtt_chat.Store.Rows.{Db, OutboxEvent}
use mqtt_chat.Store.Prisma.{Prisma}
use mqtt_chat.Store.Order
use mqtt_chat.Store.Order.{IsSorted}
use mqtt_chat.Worker.Context.{World, Publication, is_some}

abbrev pub batch_size : ℕ
batch_size = 50

abbrev pub max_attempts : ℕ
max_attempts = 10

abbrev pub poll_interval_ms : ℕ
poll_interval_ms = 500

-- What one transaction meets: the clock, the error with which the broker refuses a publish, the
-- rows that another worker has locked, and whether the transaction commits within its timeout.
pub record Attempt : Type 0 where
  pub now : ℕ
  pub refusal : OutboxEvent → Option String
  pub locked : OutboxEvent → Bool
  pub commits : Bool

-- The database's ORDER BY "createdAt" ASC, which leaves the order of equal times open.
abbrev pub OrderBy : Type 0
OrderBy = List OutboxEvent → List OutboxEvent

abbrev pub IsOldestFirst : List OutboxEvent → Type 0
IsOldestFirst = IsSorted (λ row. row.created_at)

abbrev pub IsOrderBy : OrderBy → Type 0
IsOrderBy = Order.IsOrderBy (λ row. row.created_at)

abbrev pub is_pending : OutboxEvent → Bool
is_pending row = not (is_some row.published_at) && ltb row.attempt_count max_attempts

abbrev pub mark_published : ℕ → OutboxEvent → OutboxEvent
mark_published now row = record row { published_at = some now; last_error = none }

abbrev pub mark_failed : String → OutboxEvent → OutboxEvent
mark_failed message row = record row {
  attempt_count = suc row.attempt_count;
  last_error = some message;
}

abbrev pub publication : OutboxEvent → Publication
publication event = record { topic = event.topic; event = event.payload; qos = 1 }

module _ (P : Prisma) where
  -- What becomes of the rows when the event is published; `update` throws when it finds no row,
  -- and the error is then written like a refusal of the broker's.
  unfoldable pub settle_rows : Attempt → OutboxEvent → List OutboxEvent → List OutboxEvent
  settle_rows a event rows = elim (a.refusal event) [
    | some message ↦
        (P.update_many OutboxEvent (λ r. r.id == event.id) (mark_failed message) rows).0
    | none ↦
        let (published, found) =
          P.update_many OutboxEvent (λ r. r.id == event.id) (mark_published a.now) rows in
        if found == 0
        then (P.update_many OutboxEvent (λ r. r.id == event.id)
            (mark_failed "Record to update not found.") rows).0
        else published
  ]

  unfoldable pub publish_one : Attempt → OutboxEvent → World → World
  unfolding settle_rows
  publish_one a event w = record w {
    db = record w.db { outbox = settle_rows a event w.db.outbox };
    sent = if is_some (a.refusal event) then w.sent else w.sent ++ publication event ∷ [];
  }

  -- for (const event of events) await this.publishOne(tx, event)
  unfoldable pub publish_all : Attempt → List OutboxEvent → World → World
  publish_all a [] w = w
  publish_all a (event ∷ events) w = publish_all a events (publish_one a event w)

  -- SELECT … WHERE "publishedAt" IS NULL AND "attemptCount" < 10 ORDER BY "createdAt" ASC LIMIT 50
  -- FOR UPDATE SKIP LOCKED.
  unfoldable pub select_batch : OrderBy → Attempt → List OutboxEvent → List OutboxEvent
  select_batch order a rows =
      take batch_size (order (P.find_many OutboxEvent (λ r. is_pending r && not (a.locked r)) rows))

  -- The world after a batch, and the number of its events, or none if the transaction is rolled
  -- back: what was published stays published then.
  unfoldable pub process_batch : OrderBy → Attempt → World → World × Option ℕ
  process_batch order a w =
      let events = select_batch order a w.db.outbox in
      let w' = publish_all a events w in
      if a.commits then (w', some (length events)) else (record w' { db = w.db }, none)

-- The timers of the class: `timer` is the delay of the pending timeout.
pub record Publisher : Type 0 where
  pub timer : Option ℕ
  pub running : Bool
  pub stopped : Bool

abbrev pub schedule_next : ℕ → Publisher → Publisher
schedule_next delay_ms p = if p.stopped then p else record p { timer = some delay_ms }

abbrev pub start : Publisher → Publisher
start p = schedule_next poll_interval_ms p

module _ (P : Prisma) (order : OrderBy) where
  -- The timeout has fired, so that no timer is left.
  unfoldable pub tick : Attempt → Publisher × World → Publisher × World
  tick a (p, w) =
      let fired = record p { timer = none } in
      if p.running
      then (schedule_next poll_interval_ms fired, w)
      else let (w', processed) = process_batch P order a w in
        (
          elim processed [
            | some n ↦ schedule_next (if leb batch_size n then 0 else poll_interval_ms) fired
            | none ↦ schedule_next (poll_interval_ms * 2) fired
          ],
          w',
        )

  -- With no poll in flight.
  unfoldable pub stop : Attempt → Publisher × World → Publisher × World
  stop a (p, w) = (record p { timer = none; stopped = true }, (process_batch P order a w).0)
