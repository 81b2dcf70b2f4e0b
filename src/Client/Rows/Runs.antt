-- ===== src/Client/Rows/Runs.antt =====
-- Which rows the mobile transcript has, in which order, and how they form runs.
use mqtt_chat.Base.{Option, some, Bool, true, false, not, List, [], ◌∷◌, string_eq}
use mqtt_chat.Client.Model.{ApiMessage}
use mqtt_chat.Client.Rows.{
  Calendar, ChatRow, date_row, message_row, pending_row, MessageRow, groups_with,
}

-- A part of each message row.
abbrev pub rows_of {ℓ} : {A : Type ℓ} → (MessageRow → A) → List ChatRow → List A
rows_of f [] = []
rows_of f (date_row key label ∷ rows) = rows_of f rows
rows_of f (message_row r ∷ rows) = f r ∷ rows_of f rows
rows_of f (pending_row p media ∷ rows) = rows_of f rows

-- Each element gives way to the one before it.
abbrev pub shift : Bool → List Bool → List Bool
shift b [] = []
shift b (x ∷ xs) = b ∷ shift x xs

-- Which messages begin a run: the first, and each that does not group with the one before it.
abbrev pub run_starts : Calendar → Option ApiMessage → List ApiMessage → List Bool
run_starts cal previous [] = []
run_starts cal previous (m ∷ ms) = not (groups_with cal previous m) ∷ run_starts cal (some m) ms

abbrev is_sent : ChatRow → Bool
is_sent (date_row key label) = false
is_sent (message_row r) = false
is_sent (pending_row p media) = true
