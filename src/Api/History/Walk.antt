-- ===== src/Api/History/Walk.antt =====
-- Reading a history back to its beginning, page by page, as the clients do.
use mqtt_chat.Base.{
  ℕ, zero, suc, ◌+◌, ◌≤◌, String, Option, none, some, Bool, true, false, not, ◌&&◌, List, [], ◌∷◌,
  ◌++◌, length, take, filter, count, ltb, ◌==◌, string_eq, nat_eq, if◌then◌else◌, ◌≡◌, ◌≢◌, ◌-◌,
  sym, ap, ◌∙◌, subst, arith, Bool-cases, List-cases, inl, inr, length-take, count-filter,
  count-append, count-take-le,
}
use mathlib.Core.Path.{fun_ext}
use mqtt_chat.Store.Rows.{Message}
use mqtt_chat.Store.Prisma.{Prisma, IsPrisma}
use mqtt_chat.Api.History.{
  Parsed, natural, Page, reversed, parsed_limit, page_test, list_messages, limit_of,
}
use mqtt_chat.Api.History.Pages.{
  IsDescending, IsStrict, oldest, distinct-IsStrict, count-take-below, count-reversed, limit_bounds,
  oldest-le,
}
use mqtt_chat.Api.History.Cursor.{
  page_query, first_sequence, below, take-all, first-reversed, count-imp, count-same, count-never,
  below_mono,
}

module _ (P : Prisma) (parse_int : String → Parsed) (print : ℕ → String)
    (ascending descending : List Message → List Message) (table : List Message) (id : String) where
  abbrev pub page_at : Option ℕ → Page
  page_at cursor = list_messages P parse_int ascending descending table id (page_query print cursor)

  -- The pages from a cursor on, at most so many more after the first, in the order of time.
  unfoldable pub read_back : ℕ → Option ℕ → List Message
  read_back zero cursor = (page_at cursor).messages
  read_back (suc fuel) cursor =
      let page = page_at cursor in
      let rest = read_back fuel (first_sequence page.messages) in
      if page.has_more then rest ++ page.messages else page.messages

  abbrev in_window : Option ℕ → Message → Bool
  in_window cursor m = m.conversation_id == id && below cursor m.sequence

  module _ (prisma : IsPrisma P) (order : IsDescending descending)
      (readable : (n : ℕ) → parse_int (print n) ≡ natural n)
      (shown : (n : ℕ) → (print n == "") ≡ false)
      (distinct : (s : ℕ)
        → count (λ (m : Message). m.conversation_id == id && m.sequence == s) table ≤ 1) where
    window-test :
        (cursor : Option ℕ) (m : Message)
        → page_test P parse_int ascending descending id (page_query print cursor) m
          ≡ in_window cursor m
    unfolding page_test
    window-test none m = ground arith
    window-test (some n) m = ground (arith, shown n, readable n)

    abbrev rows : Option ℕ → List Message
    rows cursor = descending (filter (in_window cursor) table)

    abbrev limit : ℕ
    limit = limit_of (parse_int "50")

    abbrev page_of : List Message → Page
    page_of ms = record {
      messages = reversed (take limit ms);
      has_more = length (take limit ms) == limit;
    }

    page-eq : (cursor : Option ℕ) → page_at cursor ≡ page_of (rows cursor)
    unfolding list_messages parsed_limit
    page-eq cursor =
        ap (λ found. page_of (descending found))
          (prisma.find_many_lem Message
              (page_test P parse_int ascending descending id (page_query print cursor)) table
            ∙ ap (λ test. filter test table) (fun_ext (window-test cursor)))

    count-rows :
        (p : Message → Bool) (cursor : Option ℕ)
        → count p (rows cursor) ≡ count (λ m. p m && in_window cursor m) table
    count-rows p cursor =
        order.same_rows p (filter (in_window cursor) table)
        ∙ count-filter p (in_window cursor) table

    rows-IsStrict : (cursor : Option ℕ) → IsStrict (rows cursor)
    rows-IsStrict cursor =
        distinct-IsStrict (rows cursor) (order.falling (filter (in_window cursor) table)) (λ s.
          omega (
            arith,
            count-rows (λ m. m.sequence == s) cursor,
            count-imp (λ m. m.sequence == s && in_window cursor m)
                (λ m. m.conversation_id == id && m.sequence == s) table (λ m h. ground arith),
            distinct s,
          ))

    head-in_window :
        (cursor : Option ℕ) (x : Message) (rest : List Message)
        → rows cursor ≡ x ∷ rest
        → in_window cursor x ≡ true
    head-in_window cursor x rest e =
        let none_out : count (λ m. not (in_window cursor m)) (x ∷ rest) ≡ 0 =
          subst (λ l. count (λ m. not (in_window cursor m)) l ≡ 0) e
            (count-rows (λ m. not (in_window cursor m)) cursor
              ∙ count-same (λ m. not (in_window cursor m) && in_window cursor m) (λ m. false) table
                  (λ m. ground arith)
              ∙ count-never table) in
        ground arith

    -- A full page is not empty, and what it leaves lies below its oldest message.
    module _ (cursor : Option ℕ) (n : ℕ) (x : Message) (rest : List Message) (full : limit ≡ suc n)
        (found : rows cursor ≡ x ∷ rest) where
      abbrev cut : ℕ
      cut = (oldest x (take n rest)).sequence

      page-messages : (page_at cursor).messages ≡ reversed (x ∷ take n rest)
      page-messages =
          ap (λ (p : Page). p.messages) (page-eq cursor)
          ∙ ap (λ l. reversed (take limit l)) found
          ∙ ap (λ k. reversed (take k (x ∷ rest))) full

      next-cursor : first_sequence (page_at cursor).messages ≡ some cut
      next-cursor = ap first_sequence page-messages ∙ first-reversed x (take n rest)

      cut-below : below cursor cut ≡ true
      cut-below =
          let strict = subst IsStrict found (rows-IsStrict cursor) in
          below_mono cursor cut x.sequence (oldest-le x rest n strict)
            (ground (arith, head-in_window cursor x rest found))

      count-split :
          (p : Message → Bool)
          → count (λ m. p m && in_window cursor m) table
            ≡ count p (page_at cursor).messages + count (λ m. p m && in_window (some cut) m) table
      count-split p =
          let strict = subst IsStrict found (rows-IsStrict cursor) in
          let whole : count p (x ∷ rest) ≡ count (λ m. p m && in_window cursor m) table =
            ap (count p) (sym found) ∙ count-rows p cursor in
          let page : count p (page_at cursor).messages ≡ count p (x ∷ take n rest) =
            ap (count p) page-messages ∙ count-reversed p (x ∷ take n rest) in
          let older : count (λ m. p m && ltb m.sequence cut) (x ∷ rest)
              ≡ count (λ m. p m && in_window (some cut) m) table =
            ap (count (λ m. p m && ltb m.sequence cut)) (sym found)
            ∙ count-rows (λ m. p m && ltb m.sequence cut) cursor
            ∙ count-same (λ m. (p m && ltb m.sequence cut) && in_window cursor m)
                (λ m. p m && in_window (some cut) m) table
                (λ m. grind (arith, below_mono cursor m.sequence cut, cut-below)) in
          omega (arith, count-take-below p n x rest strict, whole, page, older)

    page-le :
        (p : Message → Bool) (cursor : Option ℕ)
        → count p (page_at cursor).messages ≤ count (λ m. p m && in_window cursor m) table
    page-le p cursor = omega (
      arith,
      ap (λ (q : Page). count p q.messages) (page-eq cursor),
      count-reversed p (take limit (rows cursor)),
      count-take-le p limit (rows cursor),
      count-rows p cursor,
    )

    last-page :
        (p : Message → Bool) (cursor : Option ℕ)
        → (page_at cursor).has_more ≡ false
        → count p (page_at cursor).messages ≡ count (λ m. p m && in_window cursor m) table
    last-page p cursor last =
        let short : (length (take limit (rows cursor)) == limit) ≡ false =
          sym (ap (λ (q : Page). q.has_more) (page-eq cursor)) ∙ last in
        let few : length (rows cursor) ≤ limit = ground (arith, length-take limit (rows cursor)) in
        ap (λ (q : Page). count p q.messages) (page-eq cursor)
        ∙ count-reversed p (take limit (rows cursor))
        ∙ ap (count p) (take-all limit (rows cursor) few)
        ∙ count-rows p cursor

    full-page : (cursor : Option ℕ) → (page_at cursor).has_more ≡ true → rows cursor ≢ []
    full-page cursor more none_there =
        let full : (length (take limit (rows cursor)) == limit) ≡ true =
          sym (ap (λ (q : Page). q.has_more) (page-eq cursor)) ∙ more in
        let nothing : length (rows cursor) ≡ 0 = ap length none_there in
        ground (arith, length-take limit (rows cursor), limit_bounds (parse_int "50"))

    read_back-count :
        (p : Message → Bool) (fuel : ℕ) (cursor : Option ℕ)
        → count (in_window cursor) table ≤ fuel
        → count p (read_back fuel cursor) ≡ count (λ m. p m && in_window cursor m) table
    unfolding read_back
    read_back-count p zero cursor few = omega (
      arith,
      page-le p cursor,
      count-imp (λ m. p m && in_window cursor m) (in_window cursor) table (λ m h. ground arith),
    )
    read_back-count p (suc fuel) cursor few = elim (Bool-cases (page_at cursor).has_more) [
      | inr last ↦ rw last (last-page p cursor last)
      | inl more ↦ elim (List-cases (rows cursor)) [
        | inl none_there ↦ absurd (full-page cursor more none_there)
        | inr (x, rest, found) ↦
            let n = limit - 1 in
            let full : limit ≡ suc n = omega (arith, limit_bounds (parse_int "50")) in
            let oldest_there = cut cursor n x rest full found in
            let page = page_at cursor in
            let shrinks = count-split cursor n x rest full found (λ m. true) in
            let one : 1 ≤ count (λ m. true) page.messages = omega (
              arith,
              ap (count (λ (m : Message). true)) (page-messages cursor n x rest full found),
              count-reversed (λ m. true) (x ∷ take n rest),
            ) in
            let older = read_back-count p fuel (some oldest_there) (omega arith) in
            rw more (
              count-append p (read_back fuel (first_sequence page.messages)) page.messages
              ∙ omega (
                arith,
                ap (λ c. count p (read_back fuel c)) (next-cursor cursor n x rest full found),
                older,
                count-split cursor n x rest full found p,
              ))
      ]
    ]

    -- Let no two messages of the conversation have the same sequence. Read back from the newest page, each next
    -- page ending before the oldest message that is there, for as many further pages as the conversation has
    -- messages, or more, as long as there are more, the history holds each of its messages as often
    -- as the table, and nothing else.
    pub history_complete :
        (p : Message → Bool) (fuel : ℕ)
        → count (λ (m : Message). m.conversation_id == id) table ≤ fuel
        → count p (read_back fuel none)
          ≡ count (λ (m : Message). p m && m.conversation_id == id) table
    history_complete p fuel few =
        read_back-count p fuel none (
          omega (
            arith,
            count-same (in_window none) (λ m. m.conversation_id == id) table (λ m. ground arith),
          ))
        ∙ count-same (λ m. p m && in_window none m) (λ m. p m && m.conversation_id == id) table
            (λ m. ground arith)
