-- ===== src/Client/Events/Reactions.antt =====
-- A reaction event in the two clients.
use mqtt_chat.Base.{
  String, string_discrete, Bool, true, false, not, ◌||◌, List, [], ◌∷◌, filter, any, all, ◌==◌,
  string_eq, if◌then◌else◌, ◌≡◌, refl, sym, ap, ◌∙◌, arith, Bool-cases, inl, inr, any-append,
  ==_refl,
}
use mqtt_chat.Contracts.Events.{ReactionRef}
use mqtt_chat.Bots.Value.{Value, string, object, empty, field}
use mqtt_chat.Client.Model.{ApiMessage}
use mqtt_chat.Client.Web.{apply_reaction_list, is_reaction, with_reaction, same}
use mqtt_chat.Client.Events.{react, apply_reaction_event}

any-removed :
    (e u : String) (rs : List ReactionRef)
    → any (is_reaction e u) (filter (λ r. not (is_reaction e u r)) rs) ≡ false
any-removed e u [] = refl
any-removed e u (r ∷ rs) = ground (arith, any-removed e u rs)

-- The state that an event names is reached, and applying it again changes nothing.
reached :
    (e u : String) (present : Bool) (m : ApiMessage)
    → any (is_reaction e u) (with_reaction e u present m).reactions ≡ present
reached e u true m = elim (Bool-cases (any (is_reaction e u) m.reactions)) [
  | inl there ↦ ground (arith, there)
  | inr missing ↦ ground (
    arith,
    missing,
    any-append (is_reaction e u) m.reactions (record { emoji = e; user_id = u } ∷ []),
    ==_refl e,
    ==_refl u,
  )
]
reached e u false m = elim (Bool-cases (any (is_reaction e u) m.reactions)) [
  | inl there ↦ ground (arith, there, any-removed e u m.reactions)
  | inr missing ↦ ground (arith, missing)
]

again :
    (e u : String) (present : Bool) (m : ApiMessage)
    → with_reaction e u present (with_reaction e u present m) ≡ with_reaction e u present m
again e u true m = ground (arith, reached e u true m)
again e u false m = ground (arith, reached e u false m)

abbrev driven : String → String → String → Bool → ApiMessage → ApiMessage
driven id e u present m = if m.id == id then with_reaction e u present m else m

driven-again :
    (id e u : String) (present : Bool) (m : ApiMessage)
    → driven id e u present (driven id e u present m) ≡ driven id e u present m
driven-again id e u true m = ground (arith, again e u true m)
driven-again id e u false m = ground (arith, again e u false m)

again-list :
    (list : List ApiMessage) (id e u : String) (present : Bool)
    → apply_reaction_list (apply_reaction_list list id e u present) id e u present
      ≡ apply_reaction_list list id e u present
unfolding apply_reaction_list
again-list [] id e u present = refl
again-list (m ∷ ms) id e u present =
    λ i. driven-again id e u present m i ∷ again-list ms id e u present i

react-eq :
    (list : List ApiMessage) (id e u : String) (present : Bool)
    → ((react list id e u present).0 ≡ apply_reaction_list list id e u present)
      × ((react list id e u present).1 ≡ false → apply_reaction_list list id e u present ≡ list)
unfolding react apply_reaction_list
react-eq [] id e u present = (refl, λ h. refl)
react-eq (m ∷ ms) id e u true =
    let rest = react-eq ms id e u true in
    (ground (arith, rest.0), λ h. ground (arith, rest.0, rest.1))
react-eq (m ∷ ms) id e u false =
    let rest = react-eq ms id e u false in
    (ground (arith, rest.0), λ h. ground (arith, rest.0, rest.1))

-- The payload of a canonical reaction event.
abbrev pub reaction_value : {N : Type 0} → String → String → String → Value N
reaction_value message_id emoji user_id = object (
    field "messageId" (string message_id)
      (field "emoji" (string emoji) (field "userId" (string user_id) empty)))

all-reached :
    (list : List ApiMessage) (id e u : String) (present : Bool)
    → all
        (λ m. not (m.id == id) || same present (any (is_reaction e u) m.reactions))
        (apply_reaction_list list id e u present)
      ≡ true
unfolding apply_reaction_list
all-reached [] id e u present = refl
all-reached (m ∷ ms) id e u true = ground (arith, reached e u true m, all-reached ms id e u true)
all-reached (m ∷ ms) id e u false = ground (arith, reached e u false m, all-reached ms id e u false)

applied :
    (N : Type 0) (list : List ApiMessage) (id e u : String) (added : Bool)
    → (id == "") ≡ false
    → (e == "") ≡ false
    → (u == "") ≡ false
    → apply_reaction_event list added (reaction_value {N = N} id e u)
      ≡ apply_reaction_list list id e u added
unfolding apply_reaction_event string_discrete
applied N list id e u added fi fe fu =
    let eq = react-eq list id e u added in
    elim (Bool-cases (react list id e u added).1) [
      | inl changed ↦ ground (arith, fi, fe, fu, changed, eq.0)
      | inr idle ↦ ground (arith, fi, fe, fu, idle, eq.1 idle)
    ]

-- The mobile and the web client make the same of a reaction event of which no part is empty: afterwards each message
-- with the id has the reaction exactly if the event adds it, and the event applied a second time
-- changes nothing.
pub reactions_agree :
    (N : Type 0) (list : List ApiMessage) (id e u : String) (added : Bool)
    → (id == "") ≡ false
    → (e == "") ≡ false
    → (u == "") ≡ false
    → let next = apply_reaction_event list added (reaction_value {N = N} id e u) in
      (next ≡ apply_reaction_list list id e u added)
      × (all (λ m. not (m.id == id) || same added (any (is_reaction e u) m.reactions)) next ≡ true)
      × (apply_reaction_event next added (reaction_value {N = N} id e u) ≡ next)
unfolding apply_reaction_event string_discrete
reactions_agree N list id e u added fi fe fu =
    let next = apply_reaction_list list id e u added in
    let first = applied N list id e u added fi fe fu in
    let second = applied N next id e u added fi fe fu ∙ again-list list id e u added in
    (
      first,
      ap (all (λ m. not (m.id == id) || same added (any (is_reaction e u) m.reactions))) first
          ∙ all-reached list id e u added,
      ap (λ l. apply_reaction_event l added (reaction_value {N = N} id e u)) first
          ∙ second
          ∙ sym first,
    )
