-- ===== src/Client/Web/Cache.antt =====
-- The message cache of the web client.
use mqtt_chat.Base.{
  ◌+◌, String, Bool, false, not, ◌&&◌, List, ◌++◌, filter, count, ◌==◌, string_eq, ◌≡◌, sym, ap,
  ◌∙◌, subst, arith, count-append, count-filter, ==_refl,
}
use mqtt_chat.Store.Order.{IsSorted}
use mqtt_chat.Client.Model.{ApiMessage}
use mqtt_chat.Client.Dict.{get-put}
use mqtt_chat.Client.Sort.{sort_by, count-sort_by, sort_by-IsSorted}
use mqtt_chat.Client.Web.{ChatState, cached, known, with_list, sort_messages, prepend_messages}

abbrev with_id : String → ApiMessage → Bool
with_id id m = m.id == id

cached-put :
    (id : String) (list : List ApiMessage) (s : ChatState) → cached id (with_list id list s) ≡ list
cached-put id list s = ground (arith, get-put id id list s.messages_by_conversation, ==_refl id)

cached-other :
    (id j : String) (list : List ApiMessage) (s : ChatState)
    → (id == j) ≡ false
    → cached j (with_list id list s) ≡ cached j s
cached-other id j list s other = ground (arith, get-put id j list s.messages_by_conversation)

-- An older page that is put before the messages that are there leaves each of these as often as before, adds exactly the
-- rows of the page with an id that none of these has, and is in the order of the sequences; the other
-- conversations stay as they were.
pub prepend_merges :
    (id : String) (page : List ApiMessage) (more : Bool) (s : ChatState) (p : ApiMessage → Bool)
    (j : String)
    → (id == j) ≡ false
    → let next = prepend_messages id page more s in
      (count p (cached id next)
        ≡ count p (cached id s) + count (λ m. p m && not (known (cached id s) m)) page)
      × IsSorted (λ (m : ApiMessage). m.sequence) (cached id next)
      × (cached j next ≡ cached j s)
unfolding prepend_messages sort_messages
prepend_merges id page more s p j other =
    let fresh = λ (m : ApiMessage). not (known (cached id s) m) in
    let all_there : List ApiMessage = cached id s ++ filter fresh page in
    let list = sort_by (λ (m : ApiMessage). m.sequence) all_there in
    let there : cached id (prepend_messages id page more s) ≡ list = cached-put id list s in
    (
      ap (count p) there
          ∙ omega (
            arith,
            count-sort_by (λ (m : ApiMessage). m.sequence) p all_there,
            count-append p (cached id s) (filter fresh page),
            count-filter p fresh page,
          ),
      subst (IsSorted (λ (m : ApiMessage). m.sequence)) (sym there)
          (sort_by-IsSorted (λ (m : ApiMessage). m.sequence) all_there),
      cached-other id j list s other,
    )
