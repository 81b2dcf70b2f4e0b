-- ===== src/Api/Members/Admins.antt =====
-- Who governs a group after a removal.
use mqtt_chat.Base.{
  ◌+◌, ◌≤◌, String, some, Bool, true, false, not, ◌&&◌, List, [], ◌∷◌, ◌==◌, string_eq, nat_eq,
  find, filter, any, count, length, ◌≡◌, refl, sym, subst, ◌∙◌, ◌≢◌, inl, inr, arith, Option-cases,
  Bool-cases, length-filter, count-filter, count-and-le, count-and_find, find-filter, any-count,
  any_of_count,
}
use mqtt_chat.Contracts.Events.{EventData, ConversationSummary}
use mqtt_chat.Contracts.Topics.{EventTopic}
use mqtt_chat.Store.Rows.{Db, Member, Conversation}
use mqtt_chat.Store.Prisma.{tables, update_rows}
use mqtt_chat.Api.Reply.{Env, done, member_named}
use mqtt_chat.Api.Members.{is_admin, is_row_of, emit_members_changed}
use mqtt_chat.Api.Members.Remove.{JoinOrder, is_human, promote, promote_successor}

abbrev pub governs : String → Member → Bool
governs id m = m.conversation_id == id && is_admin m.role

abbrev pub has_admin : String → List Member → Bool
has_admin id members = any (governs id) members

-- The primary key of the table.
abbrev pub IsKeyed : List Member → Type 0
IsKeyed members = (id user_id : String) → count (is_row_of id user_id) members ≤ 1

abbrev pub without_row : String → String → List Member → List Member
without_row id user_id members = filter (λ m. not (is_row_of id user_id m)) members

pub promote-keeps :
    (k : String) (p : Member → Bool) (rows : List Member)
    → has_admin k rows ≡ true
    → has_admin k (update_rows p promote rows) ≡ true
promote-keeps k p [] h = cc
promote-keeps k p (m ∷ ms) h = ground (arith, promote-keeps k p ms)

promoted-governs :
    (id user_id : String) (rows : List Member)
    → length (filter (is_row_of id user_id) rows) ≢ 0
    → has_admin id (update_rows (is_row_of id user_id) promote rows) ≡ true
promoted-governs id user_id [] h = ground arith
promoted-governs id user_id (m ∷ ms) h = ground (arith, promoted-governs id user_id ms)

pub without_row-other :
    (k id user_id : String) (rows : List Member)
    → k ≢ id
    → has_admin k (without_row id user_id rows) ≡ has_admin k rows
without_row-other k id user_id [] h = refl
without_row-other k id user_id (m ∷ ms) h = ground (arith, without_row-other k id user_id ms)

count-without :
    (id user_id : String) (rows : List Member)
    → count (governs id) (without_row id user_id rows)
        + count (λ m. is_row_of id user_id m && is_admin m.role) rows
      ≡ count (governs id) rows
count-without id user_id [] = refl
count-without id user_id (m ∷ ms) = ground (arith, count-without id user_id ms)

-- A removal that is not of the only admin leaves one.
pub another_admin :
    (id user_id : String) (rows : List Member) (m : Member)
    → IsKeyed rows
    → has_admin id rows ≡ true
    → member_named user_id (filter (λ m. m.conversation_id == id) rows) ≡ some m
    → is_admin m.role
        && length (filter (λ m. is_admin m.role) (filter (λ m. m.conversation_id == id) rows)) == 1
      ≡ false
    → has_admin id (without_row id user_id rows) ≡ true
another_admin id user_id rows m keyed governed found others =
    any_of_count (governs id) (without_row id user_id rows) (elim (Bool-cases (is_admin m.role)) [
      | inr plain ↦ omega (
        arith,
        count-without id user_id rows,
        any-count (governs id) rows governed,
        count-and_find (is_row_of id user_id) (λ m. is_admin m.role) rows m
            (sym (find-filter (λ m. m.user_id == user_id) (λ m. m.conversation_id == id) rows)
              ∙ found)
            plain (keyed id user_id),
      )
      | inl ruling ↦ omega (
        arith,
        count-without id user_id rows,
        any-count (governs id) rows governed,
        keyed id user_id,
        count-and-le (is_row_of id user_id) (λ m. is_admin m.role) rows,
        several rows ruling others,
      )
    ])
  where
    swapped :
        (rows : List Member)
        → count (λ m. is_admin m.role && m.conversation_id == id) rows ≡ count (governs id) rows
    swapped [] = refl
    swapped (x ∷ xs) = ground (arith, swapped xs)

    several :
        (rows : List Member)
        → is_admin m.role ≡ true
        → is_admin m.role
            && length (filter (λ m. is_admin m.role) (filter (λ m. m.conversation_id == id) rows))
              == 1
          ≡ false
        → count (governs id) rows ≢ 1
    several rows ruling others = ground (
      arith,
      swapped rows,
      length-filter (λ m. is_admin m.role) (filter (λ m. m.conversation_id == id) rows),
      count-filter (λ m. is_admin m.role) (λ m. m.conversation_id == id) rows,
    )

pub emit-members :
    (env : Env) (id actor event_type : String) (topic : EventTopic)
    (f : ConversationSummary → EventData) (ok : Bool) (db : Db) (c : Conversation) (db' : Db)
    → emit_members_changed tables env id actor event_type topic f ok db ≡ done (c, db')
    → (db'.members ≡ db.members) × (db'.conversations ≡ db.conversations)
unfolding emit_members_changed
emit-members env id actor event_type topic f ok db c db' e = (ground arith, ground arith)

module _ (order : JoinOrder) where
  pub successor_governs :
      (id : String) (rows grown : List Member)
      → promote_successor tables order id rows ≡ done grown
      → (s : Member) × (grown ≡ update_rows (is_row_of id s.user_id) promote rows)
        × (has_admin id grown ≡ true)
  unfolding promote_successor
  successor_governs id rows grown e =
      elim (Option-cases (find is_human (order (filter (λ m. m.conversation_id == id) rows)))) [
        | inl missing ↦ ground arith
        | inr (s, found) ↦
            let same : grown ≡ update_rows (is_row_of id s.user_id) promote rows = ground arith in
            (
              s,
              same,
              subst (λ g. has_admin id g ≡ true) (sym same)
                  (promoted-governs id s.user_id rows (ground arith)),
            )
      ]
