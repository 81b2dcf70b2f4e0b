-- ===== src/Worker/Outbox/Settled.antt =====
-- What a batch of the publisher makes of each row of the outbox.
use mqtt_chat.Base.{
  ◌≤◌, ◌≡◌, refl, ◌∙◌, sym, ap, String, string_discrete, none, some, Bool, true, not, ◌&&◌, List,
  [], ◌∷◌, ◌++◌, map, ◌==◌, string_eq, nat_eq, if◌then◌else◌, count, length, filter, find, min,
  length-filter, count-filter, count-and-le, count-take-le, length-take, count-always, arith,
  Option-cases, inl, inr,
}
use mqtt_chat.Store.Rows.{OutboxEvent}
use mqtt_chat.Store.Prisma.{tables, update_rows}
use mqtt_chat.Worker.Context.{World, Publication, is_some}
use mqtt_chat.Worker.Outbox.{
  batch_size, Attempt, OrderBy, IsOrderBy, is_pending, mark_published, mark_failed, publication,
  settle_rows, publish_one, publish_all, select_batch, process_batch,
}

abbrev pub same_id : OutboxEvent → OutboxEvent → Bool
same_id a b = a.id == b.id

-- No id twice.
abbrev pub IsDistinct : List OutboxEvent → Type 0
IsDistinct rows = (id : String) → count (λ r. r.id == id) rows ≤ 1

-- A row whose own event the broker has been given.
abbrev pub settled : Attempt → OutboxEvent → OutboxEvent → OutboxEvent
settled a event row = elim (a.refusal event) [
  | none ↦ mark_published a.now row
  | some message ↦ mark_failed message row
]

abbrev pub settle : Attempt → OutboxEvent → OutboxEvent → OutboxEvent
settle a event row = if row.id == event.id then settled a event row else row

abbrev pub settle_all : Attempt → List OutboxEvent → OutboxEvent → OutboxEvent
settle_all a [] row = row
settle_all a (e ∷ es) row = settle_all a es (settle a e row)

update-none :
    (p : OutboxEvent → Bool) (f g : OutboxEvent → OutboxEvent) (rows : List OutboxEvent)
    → length (filter p rows) ≡ 0
    → update_rows p f rows ≡ update_rows p g rows
update-none p f g [] e = refl
update-none p f g (r ∷ rows) e = ground (arith, update-none p f g rows)

settle_rows-eq :
    (a : Attempt) (event : OutboxEvent) (rows : List OutboxEvent)
    → settle_rows tables a event rows ≡ map (settle a event) rows
unfolding settle_rows
settle_rows-eq a event rows = elim (Option-cases (a.refusal event)) [
  | inr (message, refused) ↦ ground arith
  | inl accepted ↦ ground (
    arith,
    update-none (λ r. r.id == event.id) (mark_failed "Record to update not found.")
        (mark_published a.now) rows,
  )
]

pub map-map :
    (f g : OutboxEvent → OutboxEvent) (rows : List OutboxEvent)
    → map f (map g rows) ≡ map (λ r. f (g r)) rows
map-map f g [] = refl
map-map f g (r ∷ rows) = ap (λ rest. f (g r) ∷ rest) (map-map f g rows)

pub map-id : (rows : List OutboxEvent) → map (λ r. r) rows ≡ rows
map-id [] = refl
map-id (r ∷ rows) = ap (λ rest. r ∷ rest) (map-id rows)

-- The publications of the events that the broker takes.
abbrev pub accepted : Attempt → List OutboxEvent → List Publication
accepted a events = map publication (filter (λ e. not (is_some (a.refusal e))) events)

append_assoc : (xs ys zs : List Publication) → (xs ++ ys) ++ zs ≡ xs ++ (ys ++ zs)
append_assoc [] ys zs = refl
append_assoc (x ∷ xs) ys zs = ap (λ rest. x ∷ rest) (append_assoc xs ys zs)

append_nil : (xs : List Publication) → xs ++ [] ≡ xs
append_nil [] = refl
append_nil (x ∷ xs) = ap (λ rest. x ∷ rest) (append_nil xs)

accepted-cons :
    (a : Attempt) (e : OutboxEvent) (es : List OutboxEvent) (sent : List Publication)
    → (if is_some (a.refusal e) then sent else sent ++ publication e ∷ []) ++ accepted a es
      ≡ sent ++ accepted a (e ∷ es)
accepted-cons a e es sent = ground (arith, append_assoc sent (publication e ∷ []) (accepted a es))

abbrev pub published_world : Attempt → List OutboxEvent → World → World
published_world a events w = record w {
  db = record w.db { outbox = map (settle_all a events) w.db.outbox };
  sent = w.sent ++ accepted a events;
}

pub publish_all-eq :
    (a : Attempt) (events : List OutboxEvent) (w : World)
    → publish_all tables a events w ≡ published_world a events w
unfolding publish_all publish_one
publish_all-eq a [] w = λ i. record w {
  db = record w.db { outbox = sym (map-id w.db.outbox) i };
  sent = sym (append_nil w.sent) i;
}
publish_all-eq a (e ∷ es) w = publish_all-eq a es (publish_one tables a e w) ∙ (λ i. record w {
  db = record w.db {
    outbox =
        (ap (map (settle_all a es)) (settle_rows-eq a e w.db.outbox)
            ∙ map-map (settle_all a es) (settle a e) w.db.outbox)
          i;
  };
  sent = accepted-cons a e es w.sent i;
})

pub settle_all-missing :
    (a : Attempt) (events : List OutboxEvent) (row : OutboxEvent)
    → count (λ e. e.id == row.id) events ≡ 0
    → settle_all a events row ≡ row
settle_all-missing a [] row none_left = refl
settle_all-missing a (e ∷ es) row none_left = ground (arith, settle_all-missing a es row)

pub settled-id : (a : Attempt) (e row : OutboxEvent) → (settled a e row).id ≡ row.id
settled-id a e row = ground arith

-- With distinct events at most one of them concerns a row.
pub settle_all-find :
    (a : Attempt) (events : List OutboxEvent) (row : OutboxEvent)
    → count (λ e. e.id == row.id) events ≤ 1
    → settle_all a events row
      ≡ (elim (find (λ e. e.id == row.id) events) [ none ↦ row | some e ↦ settled a e row ])
settle_all-find a [] row h = refl
settle_all-find a (e ∷ es) row h = elim (string_discrete e.id row.id) [
  | yes same ↦ ground (arith, settle_all-missing a es (settled a e row), settled-id a e row)
  | no other ↦ ground (arith, settle_all-find a es row)
]

abbrev pub eligible : Attempt → OutboxEvent → Bool
eligible a row = is_pending row && not (a.locked row)

module _ (order : OrderBy) (ordered : IsOrderBy order) (a : Attempt) (rows : List OutboxEvent) where
  pub count-batch-le :
      (p : OutboxEvent → Bool)
      → count p (select_batch tables order a rows) ≤ count (λ r. p r && eligible a r) rows
  unfolding select_batch
  count-batch-le p = omega (
    arith,
    count-take-le p batch_size (order (filter (eligible a) rows)),
    ordered.same_rows p (filter (eligible a) rows),
    count-filter p (eligible a) rows,
  )

  pub batch-IsDistinct : IsDistinct rows → IsDistinct (select_batch tables order a rows)
  batch-IsDistinct distinct id = omega (
    arith,
    distinct id,
    count-batch-le (λ r. r.id == id),
    count-and-le (λ r. r.id == id) (eligible a) rows,
  )

  pub length-batch :
      length (select_batch tables order a rows) ≡ min batch_size (count (eligible a) rows)
  unfolding select_batch
  length-batch = omega (
    arith,
    length-take batch_size (order (filter (eligible a) rows)),
    ordered.same_rows (λ _. true) (filter (eligible a) rows),
    count-always (order (filter (eligible a) rows)),
    count-always (filter (eligible a) rows),
    length-filter (eligible a) rows,
  )

pub committed :
    (order : OrderBy) (a : Attempt) (w : World)
    → a.commits ≡ true
    → let events = select_batch tables order a w.db.outbox in
      process_batch tables order a w ≡ (published_world a events w, some (length events))
unfolding process_batch
committed order a w commits =
    ground (arith, publish_all-eq a (select_batch tables order a w.db.outbox) w)
