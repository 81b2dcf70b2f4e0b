-- ===== src/Api/History.antt =====
-- `listMessages` of apps/api/src/controllers/chat.controller.ts: one page of a conversation's history. The query is
-- the client's `findMany`; what its ORDER BY does is a parameter. The sender's name and the
-- reactions, which the query joins to each row, are left out.
pub mod Pages
pub mod Cursor
pub mod Walk
use mqtt_chat.Base.{
  ℕ, min, String, Option, none, some, Bool, true, false, ◌&&◌, List, [], ◌∷◌, ◌++◌, length, take,
  ltb, ◌==◌, string_eq, nat_eq, if◌then◌else◌,
}
use mqtt_chat.Contracts.Envelope.{truthy}
use mqtt_chat.Store.Rows.{Message}
use mqtt_chat.Store.Prisma.{Prisma}

-- What `Number.parseInt(s, 10)` makes of a text.
pub data Parsed : Type 0 where
  nan below_zero : Parsed
  natural : ℕ → Parsed

pub record Query : Type 0 where
  pub before : Option String
  pub after : Option String
  pub limit : Option String

pub record Page : Type 0 where
  pub messages : List Message
  pub has_more : Bool

abbrev clamp : ℕ → ℕ
clamp n = if n == 0 then 50 else min n 100

abbrev pub limit_of : Parsed → ℕ
limit_of nan = 50
limit_of below_zero = 1
limit_of (natural n) = clamp n

-- `sequence < n`, for a cursor.
abbrev is_before : Parsed → ℕ → Bool
is_before (natural n) sequence = ltb sequence n
is_before _ sequence = false

abbrev is_after : Parsed → ℕ → Bool
is_after nan sequence = ltb 0 sequence
is_after below_zero sequence = true
is_after (natural n) sequence = ltb n sequence

abbrev pub or_fifty : Option String → String
or_fifty none = "50"
or_fifty (some s) = s

unfoldable pub reversed : List Message → List Message
reversed [] = []
reversed (m ∷ ms) = reversed ms ++ m ∷ []

abbrev pub asks : Option String → Bool
asks o = elim (truthy o) [ none ↦ false | some s ↦ true ]

module _ (P : Prisma) (parse_int : String → Parsed)
    (ascending descending : List Message → List Message) where
  unfoldable pub parsed_limit : Option String → ℕ
  parsed_limit limit = limit_of (parse_int (or_fifty limit))

  -- The WHERE clause.
  unfoldable pub page_test : String → Query → Message → Bool
  page_test id q m =
      m.conversation_id == id
      && ((elim (truthy q.before) [ none ↦ true | some s ↦ is_before (parse_int s) m.sequence ])
          && (elim (truthy q.after) [ none ↦ true | some s ↦ is_after (parse_int s) m.sequence ]))

  unfoldable pub list_messages : List Message → String → Query → Page
  unfolding parsed_limit page_test reversed
  list_messages table id q =
      let rows = P.find_many Message (page_test id q) table in
      let limit = parsed_limit q.limit in
      let messages = take limit (if asks q.after then ascending rows else descending rows) in
      record {
        messages = if asks q.after then messages else reversed messages;
        has_more = length messages == limit;
      }
