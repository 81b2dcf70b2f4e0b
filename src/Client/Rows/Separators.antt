-- ===== src/Client/Rows/Separators.antt =====
-- Where the separator of a day stands.
use mqtt_chat.Base.{
  ℕ, String, Option, none, some, true, false, not, List, [], ◌∷◌, ◌++◌, ◌==◌, string_eq, ◌≡◌, refl,
  sym, ap, ◌∙◌,
}
use Prim.Native.String.{◌++◌ as ◌+++◌}
use mathlib.Core.List.{append_assoc}
use mqtt_chat.Client.Model.{ApiMessage, PendingMessage}
use mqtt_chat.Client.Rows.{
  Calendar, Options, ChatRow, date_row, message_row, pending_row, MessageRow, starts_day,
  date_label, date_rows, message_row_of, first_pass, second_pass, next_row, continues, newest_first,
  build_chat_rows,
}

abbrev pub last_of : Option ApiMessage → List ApiMessage → Option ApiMessage
last_of previous [] = previous
last_of previous (m ∷ ms) = last_of (some m) ms

first_pass-append :
    (cal : Calendar) (now : ℕ) (opts : Options) (messages : List ApiMessage)
    (previous : Option ApiMessage) (ms : List ApiMessage) (m : ApiMessage) (after : List ApiMessage)
    → first_pass cal now opts messages previous (ms ++ m ∷ after)
      ≡ first_pass cal now opts messages (some m) after
        ++ (date_rows cal now (last_of previous ms) m
            ++ message_row (message_row_of cal opts messages (last_of previous ms) m)
              ∷ first_pass cal now opts messages previous ms)
unfolding first_pass
first_pass-append cal now opts messages previous [] m after = refl
first_pass-append cal now opts messages previous (x ∷ ms) m after =
    rw (first_pass-append cal now opts messages (some x) ms m after) (simp append_assoc)

second_pass-append :
    (seen xs ys : List ChatRow)
    → (seen' : List ChatRow) × (second_pass seen (xs ++ ys)
        ≡ second_pass seen xs ++ second_pass seen' ys)
unfolding second_pass
second_pass-append seen [] ys = (seen, refl)
second_pass-append seen (date_row key label ∷ xs) ys =
    let (s, e) = second_pass-append (date_row key label ∷ seen) xs ys in
    (s, ap (λ l. date_row key label ∷ l) e)
second_pass-append seen (message_row r ∷ xs) ys =
    let row = message_row (record r { ends_group = not (continues (next_row seen)) }) in
    let (s, e) = second_pass-append (row ∷ seen) xs ys in (s, ap (λ l. row ∷ l) e)
second_pass-append seen (pending_row p media ∷ xs) ys =
    let (s, e) = second_pass-append (pending_row p media ∷ seen) xs ys in
    (s, ap (λ l. pending_row p media ∷ l) e)

-- Where a message begins a day that has a label, its separator stands among the rows, which are
-- newest first, directly before that message.
pub separator_below :
    (cal : Calendar) (now : ℕ) (before : List ApiMessage) (m : ApiMessage) (after : List ApiMessage)
    (pending : List PendingMessage) (opts : Options)
    → starts_day cal (last_of none before) m ≡ true
    → (date_label cal now m.created_at == "") ≡ false
    → (newer : List ChatRow) × (key : String) × (r : MessageRow) × (older : List ChatRow)
      × (build_chat_rows cal now (before ++ m ∷ after) pending opts
          ≡ newer ++ (date_row key (date_label cal now m.created_at) ∷ message_row r ∷ older))
      × (r.message ≡ m)
unfolding build_chat_rows second_pass date_rows message_row_of
separator_below cal now before m after pending opts opens labelled =
    let ms : List ApiMessage = before ++ m ∷ after in
    let key : String = "date-" +++ (cal.first_ten m.created_at +++ ("-" +++ m.id)) in
    let label = date_label cal now m.created_at in
    let r = message_row_of cal opts ms (last_of none before) m in
    let earlier = first_pass cal now opts ms none before in
    let later = first_pass cal now opts ms (some m) after in
    let separator : date_rows cal now (last_of none before) m ≡ date_row key label ∷ [] =
      rw (opens, labelled) refl in
    let (seen, split) =
      second_pass-append [] later (date_row key label ∷ message_row r ∷ earlier) in
    let r' : MessageRow = record r {
      ends_group = not (continues (next_row (date_row key label ∷ seen)));
    } in
    (
      newest_first pending ++ second_pass [] later,
      key,
      r',
      second_pass (message_row r' ∷ date_row key label ∷ seen) earlier,
      ap (λ rows. newest_first pending ++ second_pass [] rows)
            (first_pass-append cal now opts ms none before m after
              ∙ ap (λ l. later ++ (l ++ message_row r ∷ earlier)) separator)
          ∙ ap (λ rows. newest_first pending ++ rows) split
          ∙ sym (
              append_assoc (newest_first pending) (second_pass [] later)
                (second_pass seen (date_row key label ∷ message_row r ∷ earlier))),
      refl,
    )
