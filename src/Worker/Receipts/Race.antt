-- ===== src/Worker/Receipts/Race.antt =====
-- Receipts that race: several transactions are open at once, each has read the marks at some
-- earlier time, and they commit in any order, between sends.
use mqtt_chat.Base.{
  ℕ, String, some, Bool, List, ◌∷◌, ◌++◌, ◌==◌, string_eq, nat_eq, filter, length, ◌≡◌, ◌⊎◌, inl,
  inr, arith, Bool-cases,
}
use mqtt_chat.Contracts.Envelope.{CommandEnvelope}
use mqtt_chat.Contracts.Commands.{ReadReceiptCommand, DeliveredReceiptCommand, SendMessageCommand}
use mqtt_chat.Store.Rows.{Db}
use mqtt_chat.Store.Prisma.{Prisma, IsPrisma, tables, by_tables}
use mqtt_chat.Worker.Context.{Env, ok}
use mqtt_chat.Worker.Messages.Send.{store_message}
use mqtt_chat.Worker.Messages.Sequence.{stored_db, stored_message}
use mqtt_chat.Worker.Receipts.{read_phase, advance_phase, delivered_phase, advance_delivered}
use mqtt_chat.Worker.Receipts.Marks.{
  IsForward, IsForward-refl, IsForward-trans, behind_read, behind_delivered, set_read-IsForward,
  set_delivered-IsForward, read_db, advance_phase-tables, delivered_db, advance_delivered-tables,
}

-- A read receipt that has passed its first part.
pub record Flight : Type 0 where
  pub env : Env
  pub envelope : CommandEnvelope ReadReceiptCommand
  pub user_id : String
  pub accepted : ℕ

-- A delivered receipt that has passed its first part.
pub record Delivery : Type 0 where
  pub env : Env
  pub envelope : CommandEnvelope DeliveredReceiptCommand
  pub user_id : String
  pub accepted : ℕ

pub record System : Type 0 where
  pub db : Db
  pub flights : List Flight
  pub deliveries : List Delivery

pub data Step (P : Prisma) : System → System → Type 0 where
  begin :
      (s : System) (f : Flight)
      → read_phase P f.envelope.payload.conversation_id f.envelope.payload.last_read_sequence
          f.user_id s.db
        ≡ some f.accepted
      → Step P s (record s { flights = f ∷ s.flights })
  commit :
      (s : System) (earlier : List Flight) (f : Flight) (later : List Flight) (moved : Bool)
      (db : Db)
      → s.flights ≡ earlier ++ f ∷ later
      → advance_phase P f.env f.envelope f.user_id f.accepted s.db ≡ ok (moved, db)
      → Step P s (record s { db = db; flights = earlier ++ later })
  begin_delivery :
      (s : System) (d : Delivery)
      → delivered_phase P d.envelope.payload.conversation_id
          d.envelope.payload.last_delivered_sequence d.user_id s.db
        ≡ some d.accepted
      → Step P s (record s { deliveries = d ∷ s.deliveries })
  commit_delivery :
      (s : System) (earlier : List Delivery) (d : Delivery) (later : List Delivery) (db : Db)
      → s.deliveries ≡ earlier ++ d ∷ later
      → advance_delivered P d.env d.envelope d.user_id d.accepted s.db ≡ ok db
      → Step P s (record s { db = db; deliveries = earlier ++ later })
  send :
      (s : System) (env : Env) (envelope : CommandEnvelope SendMessageCommand) (user_id : String)
      → store_message P env envelope user_id s.db
        ≡ ok (stored_message env envelope user_id s.db, stored_db env envelope user_id s.db)
      → Step P s (record s { db = stored_db env envelope user_id s.db })

pub data Reach (P : Prisma) (s : System) : System → Type 0 where
  here : Reach P s s
  next : {t u : System} → Reach P s t → Step P t u → Reach P s u

pub read-forward :
    (f : Flight) (db db' : Db) (moved : Bool)
    → advance_phase tables f.env f.envelope f.user_id f.accepted db ≡ ok (moved, db')
    → (db' ≡ db) ⊎ (db' ≡ read_db f.env f.envelope f.user_id f.accepted db)
read-forward f db db' moved e =
    elim (Bool-cases (
      length
        (filter (behind_read f.envelope.payload.conversation_id f.user_id f.accepted) db.members)
      == 0)) [
        | inl idle ↦
            inl
              (ground (arith, idle, advance_phase-tables f.env f.envelope f.user_id f.accepted db))
        | inr busy ↦
            inr
              (ground (arith, busy, advance_phase-tables f.env f.envelope f.user_id f.accepted db))
      ]

pub delivered-forward :
    (env : Env) (envelope : CommandEnvelope DeliveredReceiptCommand) (user_id : String)
    (accepted : ℕ) (db db' : Db)
    → advance_delivered tables env envelope user_id accepted db ≡ ok db'
    → (db' ≡ db) ⊎ (db' ≡ delivered_db env envelope user_id accepted db)
delivered-forward env envelope user_id accepted db db' e =
    elim (Bool-cases (
      length
        (filter (behind_delivered envelope.payload.conversation_id user_id accepted) db.members)
      == 0)) [
        | inl idle ↦
            inl (ground (arith, idle, advance_delivered-tables env envelope user_id accepted db))
        | inr busy ↦
            inr (ground (arith, busy, advance_delivered-tables env envelope user_id accepted db))
      ]

Step-IsForward : {s t : System} → Step tables s t → IsForward s.db.members t.db.members
Step-IsForward (begin s f e) = IsForward-refl s.db.members
Step-IsForward (commit s earlier f later moved db e done) =
    elim (read-forward f s.db db moved done) [
      | inl same ↦ rw same (IsForward-refl s.db.members)
      | inr new ↦
          rw new (
            set_read-IsForward f.envelope.payload.conversation_id f.user_id f.accepted s.db.members)
    ]
Step-IsForward (begin_delivery s d e) = IsForward-refl s.db.members
Step-IsForward (commit_delivery s earlier d later db e done) =
    elim (delivered-forward d.env d.envelope d.user_id d.accepted s.db db done) [
      | inl same ↦ rw same (IsForward-refl s.db.members)
      | inr new ↦ rw new (
          set_delivered-IsForward d.envelope.payload.conversation_id d.user_id d.accepted
            s.db.members)
    ]
Step-IsForward (send s env envelope user_id e) = IsForward-refl s.db.members

Reach-IsForward : {s t : System} → Reach tables s t → IsForward s.db.members t.db.members
Reach-IsForward {s} here = IsForward-refl s.db.members
Reach-IsForward {s} (next {t} {u} r st) =
    IsForward-trans s.db.members t.db.members u.db.members (Reach-IsForward r) (Step-IsForward st)

-- Whatever transactions are open and in whatever order they commit, no mark of any member moves
-- backwards, and no member changes its role, is added or is lost.
pub marks_monotone :
    (P : Prisma) (h : IsPrisma P) (s t : System) → Reach P s t → IsForward s.db.members t.db.members
marks_monotone P h s t =
    by_tables (λ P. Reach P s t → IsForward s.db.members t.db.members) h Reach-IsForward
