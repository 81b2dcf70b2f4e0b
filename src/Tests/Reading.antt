-- ===== src/Tests/Reading.antt =====
-- A history of three messages read back page by page, and the notifications of a message.
use mqtt_chat.Base.{
  ℕ, zero, suc, ◌≤◌, String, string_discrete, none, Bool, true, false, List, [], ◌∷◌, ℕ_discrete,
  count, leb, ◌==◌, string_eq, nat_eq, if◌then◌else◌, ◌≡◌, ◌≢◌, refl, ap, sym, subst, arith,
  Bool-cases, inl, inr,
}
use Prim.Native.Char.{code}
use mqtt_chat.Contracts.Commands.{MessageType}
use mqtt_chat.Contracts.Events.{MessageEventData, SenderType}
use mqtt_chat.Store.Rows.{Message}
use mqtt_chat.Store.Prisma.{tables, tables-IsPrisma}
use mqtt_chat.Api.History.{Parsed, nan, natural}
use mqtt_chat.Api.History.Pages.{IsFalling}
use mqtt_chat.Api.History.Walk.{read_back, history_complete}
use mqtt_chat.Store.Redis.{is_online}
use mqtt_chat.Notify.{NotificationPayload, Surroundings, handle_message_created}
use mqtt_chat.Notify.Offline.{notify_offline}
use mqtt_chat.Tests.Fixtures.{db, redis, hello}

-- A number is written as its strokes and a 0.
abbrev strokes : ℕ → String
strokes zero = "0"
strokes (suc n) = String.◌∷◌ "1" (strokes n)

abbrev one_more : Parsed → Parsed
one_more (natural n) = natural (suc n)
one_more p = p

abbrev read_strokes : String → Parsed
read_strokes String.[] = nan
read_strokes (String.◌∷◌ c s) =
    let rest = read_strokes s in if code c == b'0' then natural 0 else one_more rest

read_strokes-strokes : (n : ℕ) → read_strokes (strokes n) ≡ natural n
unfolding ℕ_discrete
read_strokes-strokes zero = refl
read_strokes-strokes (suc n) = rw (read_strokes-strokes n) refl

abbrev has_char : String → Bool
has_char String.[] = false
has_char (String.◌∷◌ c s) = true

strokes-has_char : (n : ℕ) → has_char (strokes n) ≡ true
strokes-has_char zero = refl
strokes-has_char (suc n) = refl

strokes-shown : (n : ℕ) → (strokes n == "") ≡ false
strokes-shown n =
    let shown : has_char (strokes n) ≡ true = strokes-has_char n in
    let apart : strokes n ≢ "" = λ e. ground (arith, ap has_char e, shown) in ground (arith, apart)

abbrev insert : Message → List Message → List Message
insert m [] = m ∷ []
insert m (x ∷ xs) =
    let rest = insert m xs in if leb x.sequence m.sequence then m ∷ x ∷ xs else x ∷ rest

abbrev latest_first : List Message → List Message
latest_first [] = []
latest_first (m ∷ ms) = insert m (latest_first ms)

count-insert :
    (p : Message → Bool) (m : Message) (xs : List Message)
    → count p (insert m xs) ≡ count p (m ∷ xs)
count-insert p m [] = refl
count-insert p m (x ∷ xs) = ground (arith, count-insert p m xs)

count-latest_first :
    (p : Message → Bool) (ms : List Message) → count p (latest_first ms) ≡ count p ms
count-latest_first p [] = refl
count-latest_first p (m ∷ ms) =
    ground (arith, count-insert p m (latest_first ms), count-latest_first p ms)

cons-insert :
    (x m y : Message) (rest : List Message)
    → m.sequence ≤ x.sequence
    → y.sequence ≤ x.sequence
    → IsFalling (insert m (y ∷ rest))
    → IsFalling (x ∷ insert m (y ∷ rest))
cons-insert x m y rest le le' h = elim (Bool-cases (leb y.sequence m.sequence)) [
  | inl first ↦
      let e : insert m (y ∷ rest) ≡ m ∷ y ∷ rest = ground (arith, first) in
      subst (λ l. IsFalling (x ∷ l)) (sym e) (le, subst IsFalling e h)
  | inr later ↦
      let e : insert m (y ∷ rest) ≡ y ∷ insert m rest = ground (arith, later) in
      subst (λ l. IsFalling (x ∷ l)) (sym e) (le', subst IsFalling e h)
]

insert-IsFalling : (m : Message) (xs : List Message) → IsFalling xs → IsFalling (insert m xs)
insert-IsFalling m [] h = tt
insert-IsFalling m (x ∷ []) h = elim (Bool-cases (leb x.sequence m.sequence)) [
  | inl first ↦
      let e : insert m (x ∷ []) ≡ m ∷ x ∷ [] = ground (arith, first) in
      subst IsFalling (sym e) (ground arith, tt)
  | inr later ↦
      let e : insert m (x ∷ []) ≡ x ∷ m ∷ [] = ground (arith, later) in
      subst IsFalling (sym e) (ground arith, tt)
]
insert-IsFalling m (x ∷ y ∷ rest) (le, h) =
    let tail = insert-IsFalling m (y ∷ rest) h in
    elim (Bool-cases (leb x.sequence m.sequence)) [
      | inl first ↦
          let e : insert m (x ∷ y ∷ rest) ≡ m ∷ x ∷ y ∷ rest = ground (arith, first) in
          subst IsFalling (sym e) (ground arith, (le, h))
      | inr later ↦
          let e : insert m (x ∷ y ∷ rest) ≡ x ∷ insert m (y ∷ rest) = ground (arith, later) in
          subst IsFalling (sym e) (cons-insert x m y rest (ground arith) le tail)
    ]

latest_first-IsFalling : (ms : List Message) → IsFalling (latest_first ms)
latest_first-IsFalling [] = tt
latest_first-IsFalling (m ∷ ms) = insert-IsFalling m (latest_first ms) (latest_first-IsFalling ms)

abbrev as_inserted : List Message → List Message
as_inserted ms = ms

abbrev history : List Message
history =
    hello
    ∷ record hello { id = "m2"; client_message_id = "k2"; sequence = 2 }
    ∷ record hello { id = "m3"; client_message_id = "k3"; sequence = 3 }
    ∷ []

-- A page is one message: "50" reads as one stroke.
history_complete_example :
    count
      (λ m. m.sequence == 1)
      (read_back tables read_strokes strokes as_inserted latest_first history "g" 3 none)
    ≡ 1
unfolding string_discrete ℕ_discrete
history_complete_example =
    history_complete tables read_strokes strokes as_inserted latest_first history "g"
      tables-IsPrisma (record { same_rows = count-latest_first; falling = latest_first-IsFalling })
      read_strokes-strokes strokes-shown (λ s. ground arith) (λ m. m.sequence == 1) 3 (omega arith)

abbrev surroundings : Surroundings
surroundings = record {
  now = 100;
  provider = "console";
  takes = λ p. true;
  reads = λ user_id. true;
  writes = λ user_id. true;
  first_120 = λ s. s;
}

abbrev posted : MessageEventData
posted = record {
  message_id = "m1";
  client_message_id = "k1";
  conversation_id = "g";
  sender_id = "alice";
  sender_type = SenderType.user;
  sequence = 1;
  type = MessageType.text;
  content = "hello";
  reply_to_id = none;
  metadata = none;
  reactions = [];
  created_at = 50;
}

notify_offline_example :
    count
      (λ (p : NotificationPayload). p.recipient_id == "bob")
      (handle_message_created tables surroundings redis db.members posted
        (record { sent = []; deliveries = λ u m. none })).sent
    ≡ 1
unfolding string_discrete is_online
notify_offline_example =
    notify_offline tables surroundings redis posted db.members
      (record { sent = []; deliveries = λ u m. none }) "bob" tables-IsPrisma
