-- ===== src/Worker/Receipts/Bounded.antt =====
-- How far receipts that race may set the marks.
use mqtt_chat.Base.{
  ℕ, ◌≤◌, String, some, List, [], ◌∷◌, ◌++◌, string_eq, nat_eq, All, ◌≡◌, subst, inl, inr, arith,
}
use mqtt_chat.Store.Rows.{Db, Conversation}
use mqtt_chat.Store.Prisma.{Prisma, IsPrisma, tables, by_tables}
use mqtt_chat.Worker.Messages.Sequence.{last_of, advanced}
use mqtt_chat.Worker.Receipts.{read_phase, delivered_phase}
use mqtt_chat.Worker.Receipts.Marks.{
  IsWithin, IsWithin-advanced, last_of-grows, set_delivered-IsWithin, set_read-IsWithin,
}
use mqtt_chat.Worker.Receipts.Race.{
  Flight, Delivery, System, Step, begin, commit, begin_delivery, commit_delivery, send, Reach, here,
  next, read-forward, delivered-forward,
}

abbrev pub FlightWithin : List Conversation → Flight → Type 0
FlightWithin rows f = f.accepted ≤ last_of f.envelope.payload.conversation_id rows

abbrev pub DeliveryWithin : List Conversation → Delivery → Type 0
DeliveryWithin rows d = d.accepted ≤ last_of d.envelope.payload.conversation_id rows

-- No mark, and no mark that is about to be set, lies beyond the last message of its conversation.
pub record IsSafe (s : System) : Type 0 where
  pub marks : All (IsWithin s.db.conversations) s.db.members
  pub flights : All (FlightWithin s.db.conversations) s.flights
  pub deliveries : All (DeliveryWithin s.db.conversations) s.deliveries

All-remove {ℓ κ} :
    {A : Type ℓ} (Q : A → Type κ) (xs : List A) (x : A) (ys : List A)
    → All Q (xs ++ x ∷ ys)
    → Q x × All Q (xs ++ ys)
All-remove Q [] x ys a = a
All-remove Q (y ∷ xs) x ys a = let (q, rest) = All-remove Q xs x ys a.1 in (q, (a.0, rest))

read_phase-within :
    (k : String) (n : ℕ) (user_id : String) (db : Db) (accepted : ℕ)
    → read_phase tables k n user_id db ≡ some accepted
    → accepted ≤ last_of k db.conversations
unfolding read_phase
read_phase-within k n user_id db accepted e = ground arith

delivered_phase-within :
    (k : String) (n : ℕ) (user_id : String) (db : Db) (accepted : ℕ)
    → delivered_phase tables k n user_id db ≡ some accepted
    → accepted ≤ last_of k db.conversations
unfolding delivered_phase
delivered_phase-within k n user_id db accepted e = ground arith

FlightWithin-advanced :
    (now : ℕ) (j : String) (rows : List Conversation) (fs : List Flight)
    → All (FlightWithin rows) fs
    → All (FlightWithin (advanced now j rows)) fs
FlightWithin-advanced now j rows [] a = tt
FlightWithin-advanced now j rows (f ∷ fs) a = (
  omega (arith, last_of-grows now j f.envelope.payload.conversation_id rows),
  FlightWithin-advanced now j rows fs a.1,
)

DeliveryWithin-advanced :
    (now : ℕ) (j : String) (rows : List Conversation) (ds : List Delivery)
    → All (DeliveryWithin rows) ds
    → All (DeliveryWithin (advanced now j rows)) ds
DeliveryWithin-advanced now j rows [] a = tt
DeliveryWithin-advanced now j rows (d ∷ ds) a = (
  omega (arith, last_of-grows now j d.envelope.payload.conversation_id rows),
  DeliveryWithin-advanced now j rows ds a.1,
)

Step-IsSafe : {s t : System} → Step tables s t → IsSafe s → IsSafe t
Step-IsSafe (begin s f e) safe = record {
  marks = safe.marks;
  flights = (
    read_phase-within f.envelope.payload.conversation_id f.envelope.payload.last_read_sequence
        f.user_id s.db f.accepted e,
    safe.flights,
  );
  deliveries = safe.deliveries;
}
Step-IsSafe (commit s earlier f later moved db e done) safe =
    let (within, rest) =
      All-remove (FlightWithin s.db.conversations) earlier f later
        (subst (All (FlightWithin s.db.conversations)) e safe.flights) in
    elim (read-forward f s.db db moved done) [
      | inl same ↦
          rw same (record { marks = safe.marks; flights = rest; deliveries = safe.deliveries })
      | inr new ↦ rw new (record {
        marks =
            set_read-IsWithin f.envelope.payload.conversation_id f.user_id f.accepted
              s.db.conversations s.db.members within safe.marks;
        flights = rest;
        deliveries = safe.deliveries;
      })
    ]
Step-IsSafe (begin_delivery s d e) safe = record {
  marks = safe.marks;
  flights = safe.flights;
  deliveries = (
    delivered_phase-within d.envelope.payload.conversation_id
        d.envelope.payload.last_delivered_sequence d.user_id s.db d.accepted e,
    safe.deliveries,
  );
}
Step-IsSafe (commit_delivery s earlier d later db e done) safe =
    let (within, rest) =
      All-remove (DeliveryWithin s.db.conversations) earlier d later
        (subst (All (DeliveryWithin s.db.conversations)) e safe.deliveries) in
    elim (delivered-forward d.env d.envelope d.user_id d.accepted s.db db done) [
      | inl same ↦
          rw same (record { marks = safe.marks; flights = safe.flights; deliveries = rest })
      | inr new ↦ rw new (record {
        marks =
            set_delivered-IsWithin d.envelope.payload.conversation_id d.user_id d.accepted
              s.db.conversations s.db.members within safe.marks;
        flights = safe.flights;
        deliveries = rest;
      })
    ]
Step-IsSafe (send s env envelope user_id e) safe = record {
  marks =
      IsWithin-advanced env.now envelope.payload.conversation_id s.db.conversations s.db.members
        safe.marks;
  flights =
      FlightWithin-advanced env.now envelope.payload.conversation_id s.db.conversations s.flights
        safe.flights;
  deliveries =
      DeliveryWithin-advanced env.now envelope.payload.conversation_id s.db.conversations
        s.deliveries safe.deliveries;
}

Reach-IsSafe : {s t : System} → Reach tables s t → IsSafe s → IsSafe t
Reach-IsSafe here safe = safe
Reach-IsSafe (next r st) safe = Step-IsSafe st (Reach-IsSafe r safe)

-- Whatever transactions of read and of delivered receipts are open and in whatever order they commit,
-- no mark, and no mark that an open transaction is about to set, ever lies beyond the last message of its conversation, if none did at
-- the start: a receipt cannot mark as read or as delivered what does not exist.
pub marks_bounded : (P : Prisma) (h : IsPrisma P) (s t : System) → Reach P s t → IsSafe s → IsSafe t
marks_bounded P h s t = by_tables (λ P. Reach P s t → IsSafe s → IsSafe t) h Reach-IsSafe
