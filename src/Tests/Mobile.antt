-- ===== src/Tests/Mobile.antt =====
-- The clients: pending sends, the transcript, typing and presence, reactions.
use mqtt_chat.Base.{
  ℕ, String, string_discrete, ℕ_discrete, Option, none, some, true, false, not, ◌||◌, List, [], ◌∷◌,
  ◌++◌, find, all, any, ◌==◌, string_eq, if◌then◌else◌, ◌≡◌, refl,
}
use mqtt_chat.Contracts.Commands.{MessageType}
use mqtt_chat.Contracts.Events.{SenderType}
use mqtt_chat.Bots.Value.{Value, number}
use mqtt_chat.Client.Model.{ApiMessage, PendingMessage, PendingStatus}
use mqtt_chat.Client.Lifecycle.{
  Event, sent, reconnected, landed, reconciled, history, named, new_store, run, step, take_flight,
  Lifecycle,
}
use mqtt_chat.Client.Lifecycle.Watch.{armed, flying}
use mqtt_chat.Client.Lifecycle.Timers.{lifecycle_watched}
use mqtt_chat.Client.Lifecycle.Origins.{published_as_sent}
use mqtt_chat.Client.Lifecycle.Stored.{message_of}
use mqtt_chat.Client.Lifecycle.Settled.{reconciled_final, flush_resurrects}
use mqtt_chat.Client.Rows.{
  Calendar, Options, ChatRow, date_row, message_row, MessageRow, date_label, starts_day,
  build_chat_rows,
}
use mqtt_chat.Client.Rows.Separators.{separator_below}
use mqtt_chat.Client.Dict.{get}
use mqtt_chat.Client.Ephemeral.{
  Ephemeral, typing, presence_changed, swept, timer, typers, seen_in, sweep,
}
use mqtt_chat.Client.Ephemeral
use mqtt_chat.Client.Ephemeral.Traces.{began_lately}
use mqtt_chat.Client.Ephemeral.Typing.{typing_ends}
use mqtt_chat.Client.Ephemeral.Grace.{presence_grace}
use mqtt_chat.Client.Web.{apply_reaction_list, is_reaction, same}
use mqtt_chat.Client.Events.{apply_reaction_event}
use mqtt_chat.Client.Events.Reactions.{reaction_value, reactions_agree}
use mqtt_chat.Client.Normalize.{NormalizedMessage, normalize_message}
use mqtt_chat.Client.Normalize.Canonical.{message_value, normalize_canonical}

abbrev draft : String → PendingMessage
draft id = record {
  client_message_id = id;
  conversation_id = "g";
  content = "hi";
  reply_to_id = none;
  status = PendingStatus.pending;
  type = some MessageType.text;
  metadata = none;
}

abbrev bubble : String → ℕ → String → ApiMessage
bubble id sequence at = record {
  id = id;
  client_message_id = "c";
  conversation_id = "g";
  sender_id = "alice";
  sender_type = SenderType.user;
  sender_name = "Alice";
  sequence = sequence;
  type = MessageType.text;
  content = "hi";
  reply_to_id = none;
  metadata = none;
  reactions = record { emoji = "+1"; user_id = "bob" } ∷ [];
  created_at = at;
  edited_at = none;
  deleted_at = none;
}

-- A send while the connection is up, of which the publish succeeds.
abbrev published_one : List Event
published_one = sent true (draft "k1") ∷ landed 0 true ∷ []

lifecycle_watched_example :
    (armed (run new_store published_one).timeouts "k1"
      || flying (run new_store published_one).flights "k1")
    ≡ true
unfolding run take_flight string_discrete
lifecycle_watched_example = lifecycle_watched published_one "k1" (draft "k1") refl refl refl

published_as_sent_example :
    all (λ (p : PendingMessage). p.content == "hi") (run new_store published_one).published ≡ true
unfolding string_discrete
published_as_sent_example =
    published_as_sent (λ p. p.content == "hi") (λ p st. refl) published_one refl

-- The message comes back as an event, and an older page follows.
reconciled_final_example :
    (find
        (named "k1")
        (run
          (step (run new_store published_one) (reconciled "k1" (bubble "m1" 1 "a")))
          (history (bubble "m1" 1 "b" ∷ []) ∷ reconnected ∷ [])).pending
      ≡ none)
    × (message_of "m1"
          (run
            (step (run new_store published_one) (reconciled "k1" (bubble "m1" 1 "a")))
            (history (bubble "m1" 1 "b" ∷ []) ∷ reconnected ∷ [])).messages
        ≡ some (bubble "m1" 1 "a"))
unfolding run take_flight string_discrete
reconciled_final_example =
    reconciled_final (run new_store published_one) "k1" (bubble "m1" 1 "a")
      (history (bubble "m1" 1 "b" ∷ []) ∷ reconnected ∷ []) refl refl refl

-- Two messages are queued, and a flush waits for the publish of the first.
abbrev flushing : Lifecycle
flushing = run new_store (sent false (draft "k1") ∷ sent false (draft "k2") ∷ reconnected ∷ [])

abbrev queued : PendingMessage
queued = record (draft "k2") { status = PendingStatus.queued }

flush_resurrects_example :
    (find
        (named "k2")
        (step (step flushing (reconciled "k2" (bubble "m2" 2 "a"))) (landed 0 true)).pending
      ≡ some (draft "k2"))
    × ((step (step flushing (reconciled "k2" (bubble "m2" 2 "a"))) (landed 0 true)).published
        ≡ draft "k2" ∷ flushing.published)
unfolding run take_flight string_discrete
flush_resurrects_example =
    flush_resurrects flushing 0 (record { client_message_id = "k1"; rest = queued ∷ [] }) [] queued
      [] (bubble "m2" 2 "a") refl refl

-- A day is a text.
abbrev calendar : Calendar
calendar = record {
  time = λ s. if s == "today" then some 90000000 else some 1;
  year = λ t. 0;
  month = λ t. 0;
  date = λ t. t;
  midnight = λ y m d. d;
  weekday = λ t. "Monday";
  day_month = λ t. "1 Jan";
  day_month_year = λ t. "1 Jan 1970";
  first_ten = λ s. s;
}

abbrev options : Options
options = record { identity_user_id = some "alice"; is_group = true; read_watermark = 1 }

abbrev transcript : List ApiMessage
transcript = bubble "m1" 1 "yesterday" ∷ bubble "m2" 2 "today" ∷ []

separator_below_example :
    (newer : List ChatRow) × (key : String) × (r : MessageRow) × (older : List ChatRow)
    × (build_chat_rows calendar 90000000 transcript [] options
        ≡ newer ++ (date_row key (date_label calendar 90000000 "today") ∷ message_row r ∷ older))
    × (r.message ≡ bubble "m2" 2 "today")
unfolding date_label starts_day string_discrete ℕ_discrete
separator_below_example =
    separator_below calendar 90000000 (bubble "m1" 1 "yesterday" ∷ []) (bubble "m2" 2 "today") [] []
      options refl refl

abbrev quiet : Ephemeral
quiet = record {
  self = some "alice";
  typing_users = [];
  presence = ("bob", true) ∷ [];
  typing_seen = [];
  grace_timers = [];
}

abbrev bob_types : List (ℕ × Ephemeral.Event)
bob_types = (100, typing "g" "bob" true) ∷ []

typing_ends_example : any (began_lately 200 "g" "bob") bob_types ≡ true
unfolding Ephemeral.run sweep string_discrete ℕ_discrete
typing_ends_example = typing_ends bob_types quiet 200 "g" "bob" refl refl refl

presence_grace_example :
    (get "bob"
        (Ephemeral.run
          ((120, swept) ∷ [])
          (Ephemeral.step (100, presence_changed "bob" false) quiet)).presence
      ≡ some true)
    × (get "bob"
          (Ephemeral.step
            (150, presence_changed "bob" true)
            (Ephemeral.run
              ((120, swept) ∷ [])
              (Ephemeral.step (100, presence_changed "bob" false) quiet))).presence
        ≡ some true)
    × (get "bob"
          (Ephemeral.step
            (150, presence_changed "bob" true)
            (Ephemeral.run
              ((120, swept) ∷ [])
              (Ephemeral.step (100, presence_changed "bob" false) quiet))).grace_timers
        ≡ none)
    × (get "bob"
          (Ephemeral.step
            (10105, timer "bob")
            (Ephemeral.run
              ((120, swept) ∷ [])
              (Ephemeral.step (100, presence_changed "bob" false) quiet))).presence
        ≡ some false)
unfolding string_discrete
presence_grace_example = presence_grace "bob" 100 150 5 ((120, swept) ∷ []) quiet refl refl

reactions_agree_example :
    (apply_reaction_event transcript true (reaction_value {N = ℕ} "m1" "+1" "carol")
      ≡ apply_reaction_list transcript "m1" "+1" "carol" true)
    × (all
          (λ m. not (m.id == "m1") || same true (any (is_reaction "+1" "carol") m.reactions))
          (apply_reaction_event transcript true (reaction_value {N = ℕ} "m1" "+1" "carol"))
        ≡ true)
    × (apply_reaction_event
          (apply_reaction_event transcript true (reaction_value {N = ℕ} "m1" "+1" "carol"))
          true
          (reaction_value {N = ℕ} "m1" "+1" "carol")
        ≡ apply_reaction_event transcript true (reaction_value {N = ℕ} "m1" "+1" "carol"))
unfolding string_discrete
reactions_agree_example = reactions_agree ℕ transcript "m1" "+1" "carol" true refl refl refl

abbrev canonical : NormalizedMessage ℕ
canonical = record {
  id = "m1";
  client_message_id = "k1";
  conversation_id = "g";
  sender_id = "alice";
  sender_type = SenderType.user;
  sender_name = "Alice";
  sequence = 1;
  type = MessageType.image;
  content = "";
  reply_to_id = some "m0";
  metadata = none;
  reactions = record { emoji = "+1"; user_id = "bob" } ∷ [];
  created_at = "2026-08-24T10:01:00.000Z";
  edited_at = none;
  deleted_at = none;
}

abbrev as_count : Value ℕ → Option ℕ
as_count (number n) = some n
as_count _ = none

normalize_canonical_example :
    normalize_message as_count (message_value (λ n. n) canonical) ≡ canonical
unfolding string_discrete
normalize_canonical_example =
    normalize_canonical ℕ as_count (λ n. n) canonical (λ n. refl) refl refl refl refl tt tt
