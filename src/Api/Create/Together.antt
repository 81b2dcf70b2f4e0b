-- ===== src/Api/Create/Together.antt =====
-- Two requests of the same two users for their DIRECT conversation.
use mqtt_chat.Base.{String, List, ◌++◌, some, true, [], ◌∷◌, string_eq, nat_eq, ◌≡◌, ◌⊎◌}
use mqtt_chat.Store.Rows.{Db}
use mqtt_chat.Store.Prisma.{Prisma}
use mqtt_chat.Api.Reply.{Env, done, includes, unknown_ids}
use mqtt_chat.Api.Create.{
  CreateConversation, Created, CreationOrder, create_conversation_at, unique_ids,
}
use mqtt_chat.Api.Create.Handed.{holder}

-- The two ids of a request for a DIRECT conversation, in either order.
abbrev pub IsFor : String → String → CreateConversation → Type 0
IsFor a b data_ = (data_.member_ids ≡ a ∷ b ∷ []) ⊎ (data_.member_ids ≡ b ∷ a ∷ [])

-- The checks that a request must pass: all its users exist, and who asks is one of the two.
abbrev pub candidates_of : CreateConversation → List String
candidates_of data_ = unique_ids [] (data_.member_ids ++ data_.created_by ∷ [])

abbrev pub IsAccepted : Prisma → CreateConversation → Db → Type 0
IsAccepted P data_ seen =
    (unknown_ids (P.find_many String (λ u. includes (candidates_of data_) u) seen.users)
        (candidates_of data_)
      ≡ [])
    × (includes data_.member_ids data_.created_by ≡ true)

-- The request is answered with the conversation `i`, which has the key of the pair afterwards.
abbrev pub IsAnswered :
    Prisma → CreationOrder → Env → CreateConversation → Db → Db → String → String → Type 0
IsAnswered P order env data_ seen db key i =
    (r : Created) × (db' : Db) × (create_conversation_at P order env data_ seen db ≡ done (r, db'))
    × (r.conversation.id ≡ i)
    × (holder key db'.conversations ≡ some i)
