-- ===== src/Client/Rows/Chips.antt =====
-- The reaction chips of a message.
use mqtt_chat.Base.{
  ℕ, ◌+◌, String, string_discrete, Option, none, some, Bool, true, false, ◌&&◌, ◌||◌, List, [], ◌∷◌,
  any, count, ◌==◌, string_eq, nat_eq, if◌then◌else◌, ◌≡◌, ◌≢◌, refl, sym, subst, ap, Option-cases,
  arith, Bool-cases, inl, inr,
}
use mqtt_chat.Base.Utf16.{before-not}
use mqtt_chat.Contracts.Events.{ReactionRef}
use mqtt_chat.Client.Rows.{
  ReactionChip, is_identity, get_chip, set_chip, count_reaction, count_reactions, chip_first,
  insert_chip, sort_chips, aggregate_chips,
}

abbrev pub count_of : String → List ReactionChip → ℕ
count_of emoji chips = elim (get_chip emoji chips) [ none ↦ 0 | some c ↦ c.count ]

abbrev pub mine_of : String → List ReactionChip → Bool
mine_of emoji chips = elim (get_chip emoji chips) [ none ↦ false | some c ↦ c.mine ]

abbrev pub IsRanked : List ReactionChip → Type 0
IsRanked [] = Unit
IsRanked (x ∷ []) = Unit
IsRanked (x ∷ y ∷ rest) = (chip_first x y ≡ true) × IsRanked (y ∷ rest)

abbrev IsDistinct : List ReactionChip → Type 0
IsDistinct [] = Unit
IsDistinct (c ∷ cs) = (get_chip c.emoji cs ≡ none) × IsDistinct cs

get-set :
    (e : String) (c : ReactionChip) (cs : List ReactionChip)
    → get_chip e (set_chip c cs) ≡ (if c.emoji == e then some c else get_chip e cs)
unfolding get_chip set_chip
get-set e c [] = refl
get-set e c (x ∷ cs) = ground (arith, get-set e c cs)

set-IsDistinct :
    (c : ReactionChip) (cs : List ReactionChip) → IsDistinct cs → IsDistinct (set_chip c cs)
unfolding set_chip get_chip
set-IsDistinct c [] d = (refl, tt)
set-IsDistinct c (x ∷ cs) (lone, d) = elim (string_discrete x.emoji c.emoji) [
  | yes same ↦
      let e : set_chip c (x ∷ cs) ≡ c ∷ cs = ground arith in
      subst IsDistinct (sym e) (subst (λ k. get_chip k cs ≡ none) same lone, d)
  | no other ↦
      let e : set_chip c (x ∷ cs) ≡ x ∷ set_chip c cs = ground arith in
      subst IsDistinct (sym e) (ground (arith, get-set x.emoji c cs), set-IsDistinct c cs d)
]

counted-IsDistinct :
    (identity : Option String) (rs : List ReactionRef) (cs : List ReactionChip)
    → IsDistinct cs
    → IsDistinct (count_reactions identity rs cs)
unfolding count_reactions count_reaction
counted-IsDistinct identity [] cs d = d
counted-IsDistinct identity (r ∷ rs) cs d =
    counted-IsDistinct identity rs (count_reaction identity r cs) (set-IsDistinct _ cs d)

get-emoji :
    (e : String) (cs : List ReactionChip) (c : ReactionChip) → get_chip e cs ≡ some c → c.emoji ≡ e
unfolding get_chip
get-emoji e [] c h = cc
get-emoji e (x ∷ cs) c h = ground (arith, get-emoji e cs c)

abbrev counted : Option String → ReactionRef → List ReactionChip → ReactionChip
counted identity r cs = record {
  emoji = r.emoji;
  count = count_of r.emoji cs + 1;
  mine = mine_of r.emoji cs || is_identity identity r.user_id;
}

count_reaction_lem :
    (identity : Option String) (r : ReactionRef) (cs : List ReactionChip)
    → count_reaction identity r cs ≡ set_chip (counted identity r cs) cs
unfolding count_reaction
count_reaction_lem identity r cs = elim (Option-cases (get_chip r.emoji cs)) [
  | inl fresh ↦ ground (arith, fresh)
  | inr (c, known) ↦ ground (arith, known, get-emoji r.emoji cs c known)
]

count-step :
    (identity : Option String) (r : ReactionRef) (cs : List ReactionChip) (e : String)
    → (count_of e (count_reaction identity r cs) ≡ count_of e cs + (if r.emoji == e then 1 else 0))
      × (mine_of e (count_reaction identity r cs)
          ≡ (mine_of e cs || (r.emoji == e && is_identity identity r.user_id)))
count-step identity r cs e =
    let got = get-set e (counted identity r cs) cs in
    let step = count_reaction_lem identity r cs in
    elim (string_discrete r.emoji e) [
      | yes same ↦
          let old : (count_of r.emoji cs ≡ count_of e cs) × (mine_of r.emoji cs ≡ mine_of e cs) =
            (ap (λ k. count_of k cs) same, ap (λ k. mine_of k cs) same) in
          (ground (arith, got, step, old), ground (arith, got, step, old))
      | no other ↦ (ground (arith, got, step), ground (arith, got, step))
    ]

counts :
    (identity : Option String) (rs : List ReactionRef) (cs : List ReactionChip) (e : String)
    → (count_of e (count_reactions identity rs cs)
        ≡ count_of e cs + count (λ (r : ReactionRef). r.emoji == e) rs)
      × (mine_of e (count_reactions identity rs cs) ≡ (
          mine_of e cs
          || any (λ (r : ReactionRef). r.emoji == e && is_identity identity r.user_id) rs))
unfolding count_reactions
counts identity [] cs e = (ground arith, ground arith)
counts identity (r ∷ rs) cs e =
    let rest = counts identity rs (count_reaction identity r cs) e in
    let one = count-step identity r cs e in
    (ground (arith, rest.0, one.0), ground (arith, rest.1, one.1))

get-insert :
    (e : String) (c : ReactionChip) (cs : List ReactionChip)
    → get_chip c.emoji cs ≡ none
    → get_chip e (insert_chip c cs) ≡ (if c.emoji == e then some c else get_chip e cs)
unfolding get_chip insert_chip
get-insert e c [] fresh = refl
get-insert e c (x ∷ cs) fresh = ground (arith, get-insert e c cs)

get-sort :
    (e : String) (cs : List ReactionChip)
    → IsDistinct cs
    → get_chip e (sort_chips cs) ≡ get_chip e cs
unfolding get_chip sort_chips
get-sort e [] d = refl
get-sort e (c ∷ cs) (lone, d) =
    let fresh : get_chip c.emoji (sort_chips cs) ≡ none = ground (arith, get-sort c.emoji cs d) in
    ground (arith, get-insert e c (sort_chips cs) fresh, get-sort e cs d)

chip_first-total :
    (a b : ReactionChip) → a.emoji ≢ b.emoji → chip_first a b ≡ false → chip_first b a ≡ true
chip_first-total a b differ h = ground (arith, before-not a.emoji b.emoji differ)

cons-insert :
    (x c y : ReactionChip) (rest : List ReactionChip)
    → chip_first x c ≡ true
    → chip_first x y ≡ true
    → IsRanked (insert_chip c (y ∷ rest))
    → IsRanked (x ∷ insert_chip c (y ∷ rest))
unfolding insert_chip
cons-insert x c y rest a b h = elim (Bool-cases (chip_first c y)) [
  | inl first ↦
      let e : insert_chip c (y ∷ rest) ≡ c ∷ y ∷ rest = ground (arith, first) in
      subst (λ l. IsRanked (x ∷ l)) (sym e) (a, subst IsRanked e h)
  | inr later ↦
      let e : insert_chip c (y ∷ rest) ≡ y ∷ insert_chip c rest = ground (arith, later) in
      subst (λ l. IsRanked (x ∷ l)) (sym e) (b, subst IsRanked e h)
]

insert-IsRanked :
    (c : ReactionChip) (cs : List ReactionChip)
    → get_chip c.emoji cs ≡ none
    → IsRanked cs
    → IsRanked (insert_chip c cs)
unfolding insert_chip get_chip
insert-IsRanked c [] fresh h = tt
insert-IsRanked c (x ∷ []) fresh h = elim (Bool-cases (chip_first c x)) [
  | inl first ↦
      let e : insert_chip c (x ∷ []) ≡ c ∷ x ∷ [] = ground (arith, first) in
      subst IsRanked (sym e) (first, tt)
  | inr later ↦
      let e : insert_chip c (x ∷ []) ≡ x ∷ c ∷ [] = ground (arith, later) in
      subst IsRanked (sym e) (chip_first-total c x (λ same. ground arith) later, tt)
]
insert-IsRanked c (x ∷ y ∷ rest) fresh (le, h) =
    let tail = insert-IsRanked c (y ∷ rest) (ground arith) h in
    elim (Bool-cases (chip_first c x)) [
      | inl first ↦
          let e : insert_chip c (x ∷ y ∷ rest) ≡ c ∷ x ∷ y ∷ rest = ground (arith, first) in
          subst IsRanked (sym e) (first, (le, h))
      | inr later ↦
          let e : insert_chip c (x ∷ y ∷ rest) ≡ x ∷ insert_chip c (y ∷ rest) =
            ground (arith, later) in
          let ranked = chip_first-total c x (λ same. ground arith) later in
          subst IsRanked (sym e) (cons-insert x c y rest ranked le tail)
    ]

sort-IsRanked : (cs : List ReactionChip) → IsDistinct cs → IsRanked (sort_chips cs)
unfolding sort_chips
sort-IsRanked [] d = tt
sort-IsRanked (c ∷ cs) (lone, d) =
    insert-IsRanked c (sort_chips cs) (ground (arith, get-sort c.emoji cs d)) (sort-IsRanked cs d)

-- The chips of a message count, for every emoji, the reactions with it, and are marked as the user's own
-- exactly if one of those is; they come in the order of their counts, the greatest first, and equal
-- counts in the order of the emoji.
pub chips_count :
    (identity : Option String) (rs : List ReactionRef) (e : String)
    → let chips = aggregate_chips identity rs in
      (count_of e chips ≡ count (λ (r : ReactionRef). r.emoji == e) rs)
      × (mine_of e chips
          ≡ any (λ (r : ReactionRef). r.emoji == e && is_identity identity r.user_id) rs)
      × IsRanked chips
unfolding aggregate_chips
chips_count identity rs e =
    let cs = count_reactions identity rs [] in
    let d = counted-IsDistinct identity rs [] tt in
    let total = counts identity rs [] e in
    let kept = get-sort e cs d in
    let none_yet : (count_of e [] ≡ 0) × (mine_of e [] ≡ false) = unfold get_chip in (refl, refl) in
    (
      ground (arith, total.0, kept, none_yet.0),
      ground (arith, total.1, kept, none_yet.1),
      sort-IsRanked cs d,
    )
