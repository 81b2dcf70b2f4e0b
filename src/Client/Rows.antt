-- ===== src/Client/Rows.antt =====
-- apps/mobile/src/features/messaging/message-rows.ts: the transcript as render rows, newest first.
pub mod Runs
pub mod Separators
pub mod Chips
use mqtt_chat.Base.{
  ℕ, zero, suc, ◌+◌, ◌-◌, String, Option, none, some, Bool, true, false, not, ◌&&◌, ◌||◌, List, [],
  ◌∷◌, ◌++◌, map, ltb, leb, ◌==◌, string_eq, nat_eq, if◌then◌else◌,
}
use Prim.Native.Nat.{◌/◌}
use Prim.Native.String.{◌++◌ as ◌+++◌}
use mqtt_chat.Base.Utf16.{before}
use mqtt_chat.Contracts.Commands.{MessageType, JsonValue, Metadata}
use mqtt_chat.Contracts.Events.{SenderType, ReactionRef}
use mqtt_chat.Contracts.Envelope.{truthy}
use mqtt_chat.Client.Model.{ApiMessage, PendingMessage}

-- JavaScript's `Date` and its formats in the user's zone and language: parameters. `time` is `getTime()` of
-- the date that a text names, from 1970 on, and `none` where that is NaN.
pub record Calendar : Type 0 where
  pub time : String → Option ℕ
  pub year : ℕ → ℕ
  pub month : ℕ → ℕ
  pub date : ℕ → ℕ
  -- `new Date(year, month, date).getTime()`
  pub midnight : ℕ → ℕ → ℕ → ℕ
  pub weekday : ℕ → String
  pub day_month : ℕ → String
  pub day_month_year : ℕ → String
  -- `slice(0, 10)`
  pub first_ten : String → String

pub record ReactionChip : Type 0 where
  pub emoji : String
  pub count : ℕ
  pub mine : Bool

pub record MessageRow : Type 0 where
  pub message : ApiMessage
  pub mine : Bool
  pub starts_group : Bool
  pub ends_group : Bool
  pub show_sender : Bool
  pub reply_source : Option ApiMessage
  pub chips : List ReactionChip
  pub read : Bool

pub data PendingMedia : Type 0 where
  image file : String → PendingMedia

-- The key of a message row is the id of its message, and that of a pending row its client message id.
pub data ChatRow : Type 0 where
  date_row : String → String → ChatRow
  message_row : MessageRow → ChatRow
  pending_row : PendingMessage → Option PendingMedia → ChatRow

pub record Options : Type 0 where
  pub identity_user_id : Option String
  pub is_group : Bool
  pub read_watermark : ℕ

-- `GROUP_GAP_MS`.
abbrev pub group_gap : ℕ
group_gap = 300000

abbrev pub is_same_sender : SenderType → SenderType → Bool
is_same_sender SenderType.user SenderType.user = true
is_same_sender SenderType.bot SenderType.bot = true
is_same_sender SenderType.system SenderType.system = true
is_same_sender _ _ = false

abbrev pub is_user : SenderType → Bool
is_user SenderType.user = true
is_user _ = false

-- `a === b` of ids, one of which may be null.
abbrev pub is_identity : Option String → String → Bool
is_identity none id = false
is_identity (some self) id = id == self

unfoldable pub get_chip : String → List ReactionChip → Option ReactionChip
get_chip emoji [] = none
get_chip emoji (c ∷ cs) = if c.emoji == emoji then some c else get_chip emoji cs

-- `map.set`.
unfoldable pub set_chip : ReactionChip → List ReactionChip → List ReactionChip
set_chip c [] = c ∷ []
set_chip c (x ∷ xs) = let rest = set_chip c xs in if x.emoji == c.emoji then c ∷ xs else x ∷ rest

unfoldable pub count_reaction : Option String → ReactionRef → List ReactionChip → List ReactionChip
unfolding get_chip set_chip
count_reaction identity r chips =
    let entry : ReactionChip = elim (get_chip r.emoji chips) [
      | none ↦ record { emoji = r.emoji; count = 0; mine = false }
      | some c ↦ c
    ] in
    set_chip
      (record {
        emoji = entry.emoji;
        count = entry.count + 1;
        mine = entry.mine || is_identity identity r.user_id;
      })
      chips

unfoldable pub count_reactions :
    Option String → List ReactionRef → List ReactionChip → List ReactionChip
count_reactions identity [] chips = chips
count_reactions identity (r ∷ rs) chips =
    count_reactions identity rs (count_reaction identity r chips)

-- Most reactions first, then the order of the emoji.
abbrev pub chip_first : ReactionChip → ReactionChip → Bool
chip_first a b = ltb b.count a.count || (a.count == b.count && before a.emoji b.emoji)

unfoldable pub insert_chip : ReactionChip → List ReactionChip → List ReactionChip
insert_chip c [] = c ∷ []
insert_chip c (x ∷ xs) =
    let rest = insert_chip c xs in if chip_first c x then c ∷ x ∷ xs else x ∷ rest

unfoldable pub sort_chips : List ReactionChip → List ReactionChip
sort_chips [] = []
sort_chips (c ∷ cs) = insert_chip c (sort_chips cs)

unfoldable pub aggregate_chips : Option String → List ReactionRef → List ReactionChip
unfolding count_reactions sort_chips
aggregate_chips identity reactions = sort_chips (count_reactions identity reactions [])

-- `new Map(messages.map((m) => [m.id, m])).get(id)`: the last message of an id counts.
unfoldable pub message_by_id : String → List ApiMessage → Option ApiMessage
message_by_id id [] = none
message_by_id id (m ∷ ms) = elim (message_by_id id ms) [
  | some later ↦ some later
  | none ↦ if m.id == id then some m else none
]

module _ (cal : Calendar) where
  abbrev start_of_day : ℕ → ℕ
  start_of_day t = cal.midnight (cal.year t) (cal.month t) (cal.date t)

  -- `Math.round((startOfDay(now) - startOfDay(date)) / 86_400_000)`; `none` if that is negative.
  unfoldable pub diff_days : ℕ → ℕ → Option ℕ
  diff_days now t =
      let today = start_of_day now in
      let day = start_of_day t in
      if leb day today
      then some ((today - day + 43200000) / 86400000)
      else if leb (day - today) 43200000
      then some 0
      else none

  unfoldable pub date_label : ℕ → String → String
  unfolding diff_days
  date_label now timestamp = elim (cal.time timestamp) [
    | none ↦ ""
    | some t ↦
        let other = if cal.year t == cal.year now then cal.day_month t else cal.day_month_year t in
        elim (diff_days now t) [
          | none ↦ other
          | some d ↦
              if d == 0
              then "Today"
              else if d == 1
              then "Yesterday"
              else if ltb 1 d && ltb d 7
              then cal.weekday t
              else other
        ]
  ]

  -- NaN equals nothing.
  unfoldable pub same_day : String → String → Bool
  same_day a b = elim (cal.time a) [
    | none ↦ false
    | some s ↦ elim (cal.time b) [
      | none ↦ false
      | some t ↦
          cal.year s == cal.year t && (cal.month s == cal.month t && cal.date s == cal.date t)
    ]
  ]

  -- The gap between two times, one of which may be NaN, is less than `GROUP_GAP_MS`.
  abbrev pub within_gap : String → String → Bool
  within_gap later earlier = elim (cal.time later) [
    | none ↦ false
    | some t ↦ elim (cal.time earlier) [ none ↦ false | some s ↦ ltb t (s + group_gap) ]
  ]

  unfoldable pub groups_with : Option ApiMessage → ApiMessage → Bool
  groups_with none m = false
  groups_with (some previous) m =
      previous.sender_id == m.sender_id
      && (is_same_sender previous.sender_type m.sender_type
          && within_gap m.created_at previous.created_at)

  unfoldable pub starts_day : Option ApiMessage → ApiMessage → Bool
  unfolding same_day
  starts_day none m = true
  starts_day (some previous) m = not (same_day m.created_at previous.created_at)

  unfoldable pub date_rows : ℕ → Option ApiMessage → ApiMessage → List ChatRow
  unfolding starts_day date_label
  date_rows now previous m =
      let label = date_label now m.created_at in
      if starts_day previous m && not (label == "")
      then date_row ("date-" +++ (cal.first_ten m.created_at +++ ("-" +++ m.id))) label ∷ []
      else []

  unfoldable pub message_row_of :
      Options → List ApiMessage → Option ApiMessage → ApiMessage → MessageRow
  unfolding groups_with aggregate_chips message_by_id
  message_row_of opts messages previous m =
      let mine = is_identity opts.identity_user_id m.sender_id && is_user m.sender_type in
      let grouped = groups_with previous m in
      record {
        message = m;
        mine = mine;
        starts_group = not grouped;
        ends_group = true;
        show_sender = opts.is_group && (not mine && not grouped);
        reply_source = elim (truthy m.reply_to_id) [
          | none ↦ none
          | some id ↦ message_by_id id messages
        ];
        chips = aggregate_chips opts.identity_user_id m.reactions;
        read = ltb 0 m.sequence && leb m.sequence opts.read_watermark;
      }

  -- The first pass, from the last message to the first; `previous` stands before `ms`.
  unfoldable pub first_pass :
      ℕ → Options → List ApiMessage → Option ApiMessage → List ApiMessage → List ChatRow
  unfolding date_rows message_row_of
  first_pass now opts messages previous [] = []
  first_pass now opts messages previous (m ∷ ms) =
      first_pass now opts messages (some m) ms
      ++ (date_rows now previous m ++ message_row (message_row_of opts messages previous m) ∷ [])

-- The inner loop of the second pass, over the rows that stand before one, the nearest first.
unfoldable pub next_row : List ChatRow → Option ChatRow
next_row [] = none
next_row (date_row key label ∷ rows) = next_row rows
next_row (row ∷ rows) = some row

abbrev pub continues : Option ChatRow → Bool
continues none = false
continues (some (date_row key label)) = false
continues (some (message_row r)) = not r.starts_group
continues (some (pending_row p media)) = false

-- The second pass; `seen` holds the rows before, the nearest first.
unfoldable pub second_pass : List ChatRow → List ChatRow → List ChatRow
unfolding next_row
second_pass seen [] = []
second_pass seen (message_row r ∷ rows) =
    let row = message_row (record r { ends_group = not (continues (next_row seen)) }) in
    row ∷ second_pass (row ∷ seen) rows
second_pass seen (row ∷ rows) = row ∷ second_pass (row ∷ seen) rows

abbrev pub filename_in : Metadata → Option String
filename_in [] = none
filename_in ((key, JsonValue.string text) ∷ entries) =
    let rest = filename_in entries in if key == "filename" then some text else rest
filename_in ((key, JsonValue.raw text) ∷ entries) =
    let rest = filename_in entries in if key == "filename" then none else rest

abbrev pub filename_of : Option Metadata → Option String
filename_of none = none
filename_of (some meta) = truthy (filename_in meta)

abbrev pub media_of : Option MessageType → Option String → Option PendingMedia
media_of (some MessageType.image) (some name) = some (image name)
media_of (some MessageType.file) (some name) = some (file name)
media_of _ _ = none

unfoldable pub pending_row_of : PendingMessage → ChatRow
pending_row_of p = pending_row p (media_of p.type (filename_of p.metadata))

unfoldable pub newest_first : List PendingMessage → List ChatRow
unfolding pending_row_of
newest_first [] = []
newest_first (p ∷ ps) = newest_first ps ++ pending_row_of p ∷ []

unfoldable pub build_chat_rows :
    Calendar → ℕ → List ApiMessage → List PendingMessage → Options → List ChatRow
unfolding first_pass second_pass newest_first
build_chat_rows cal now messages pending opts =
    newest_first pending ++ second_pass [] (first_pass cal now opts messages none messages)
