-- ===== src/Api/Create.antt =====
-- `createConversation`, `repairDirectMembership` and `createWithOutboxEvent` of
-- apps/api/src/controllers/chat.controller.ts.
pub mod Endpoint
pub mod Handed
pub mod Pair
pub mod Caught
pub mod Answered
pub mod Together
use Prim.Native.String
use mqtt_chat.Base.{
  ℕ, suc, String, Option, none, some, Bool, true, false, not, ◌&&◌, ◌||◌, List, [], ◌∷◌, ◌++◌, ◌==◌,
  string_eq, nat_eq, if◌then◌else◌, map, find, filter, any, all, length,
}
use mqtt_chat.Contracts.Topics.{EventTopic, event_topic}
use mqtt_chat.Contracts.Events.{EventData, MemberRole, ConversationType}
use mqtt_chat.Store.Rows.{Db, Member, Conversation}
use mqtt_chat.Store.Prisma.{Prisma}
use mqtt_chat.Api.Reply.{
  Env, Raised, http, unique_violation, record_not_found, schema_error, not_found, Attempt, done,
  raised, ◌>>=◌, bad, join, includes, unknown_ids, conversation_row, members_of, user_event,
  conversation_outbox, enqueue,
}
use mqtt_chat.Api.Members.{is_group, summary_parses, conversation_summary, is_row_of, new_member}
use mqtt_chat.Api.PairKey.{direct_pair_key_for}

-- `createConversationSchema`.
pub record CreateConversation : Type 0 where
  pub type : ConversationType
  pub title : Option String
  pub created_by : String
  pub member_ids : List String

-- The reply: the conversation, and how it came about.
pub record Created : Type 0 where
  pub conversation : Conversation
  pub reused : Bool
  pub repaired : Bool
  pub adopted_legacy : Bool

abbrev pub reply : Conversation → Bool → Bool → Bool → Created
reply c reused repaired adopted = record {
  conversation = c;
  reused = reused;
  repaired = repaired;
  adopted_legacy = adopted;
}

-- ORDER BY "createdAt" ASC.
abbrev pub CreationOrder : Type 0
CreationOrder = List Conversation → List Conversation

abbrev pub has_key : String → Conversation → Bool
has_key key c = elim c.direct_pair_key [ none ↦ false | some k ↦ k == key ]

-- `[...new Set(ids)]`, without those seen already.
abbrev pub unique_ids : List String → List String → List String
unique_ids seen [] = []
unique_ids seen (x ∷ xs) = elim (includes seen x) [
  | true ↦ unique_ids seen xs
  | false ↦ x ∷ unique_ids (x ∷ seen) xs
]

-- `new Set(ids).size !== ids.length`.
abbrev pub has_duplicates : List String → Bool
has_duplicates [] = false
has_duplicates (x ∷ xs) = let rest = has_duplicates xs in includes xs x || rest

abbrev pub role_of : CreateConversation → String → MemberRole
role_of data_ user_id =
    if user_id == data_.created_by && is_group data_.type
    then MemberRole.admin
    else MemberRole.member

abbrev pub created_conversation : Env → CreateConversation → Option String → Conversation
created_conversation env data_ key = record {
  id = env.conversation_id;
  type = data_.type;
  direct_pair_key = key;
  title = data_.title;
  created_by = data_.created_by;
  last_sequence = 0;
  created_at = env.now;
  updated_at = env.now;
  deleted_at = none;
  deleted_by = none;
}

abbrev pub created_members : Env → CreateConversation → List Member
created_members env data_ =
    map
      (λ user_id. record (new_member env env.conversation_id user_id) {
        role = role_of data_ user_id;
      })
      data_.member_ids

-- A row clashes on the id, or on the pair key; NULL clashes with nothing.
abbrev pub conversation_clash : Conversation → Conversation → Bool
conversation_clash new old =
    old.id == new.id || (elim new.direct_pair_key [ none ↦ false | some key ↦ has_key key old ])

module _ (P : Prisma) where
  -- `createMany` without `skipDuplicates`.
  unfoldable pub create_members : List Member → List Member → Attempt (List Member)
  create_members [] rows = done rows
  create_members (m ∷ ms) rows =
      elim (P.create Member (is_row_of m.conversation_id m.user_id) m rows) [
        | none ↦ raised unique_violation
        | some grown ↦ create_members ms grown
      ]

  -- Those of the pair that are not among the members become members.
  unfoldable pub add_missing : Env → String → List String → List Member → Db → Attempt Db
  add_missing env id pair members db = do
    let present = map (λ (m : Member). m.user_id) members
    rows ←
        create_members (map (new_member env id) (filter (λ u. not (includes present u)) pair))
          db.members
    done (record db { members = rows })

  -- `findUniqueOrThrow`.
  abbrev pub reread : String → Db → Attempt (Conversation × Db)
  reread id db = elim (conversation_row P db id) [
    | none ↦ raised record_not_found
    | some c ↦ done (c, db)
  ]

  unfoldable pub repair_direct_membership :
      Env → String → List String → Db → Attempt (Conversation × Db)
  repair_direct_membership env id pair db =
      add_missing env id pair (members_of P db id) db >>= reread id

  unfoldable pub create_with_outbox_event :
      Env → CreateConversation → Option String → Db → Attempt (Conversation × Db)
  create_with_outbox_event env data_ key db =
      let created = created_conversation env data_ key in
      let members = created_members env data_ in
      let summary = conversation_summary created members in
      elim (P.create Conversation (conversation_clash created) created db.conversations) [
        | none ↦ raised unique_violation
        | some conversations ↦ do
          rows ← create_members members db.members
          db' ←
              (if summary_parses summary
                then enqueue P
                    (conversation_outbox env "conversation.created" created.id
                      (event_topic env.namespace EventTopic.conversation_created)
                      (user_event env "conversation.created" data_.created_by created.id
                        (EventData.conversation_created summary)))
                    (record db { conversations = conversations; members = rows })
                else raised schema_error)
          done (created, db')
      ]

  abbrev pub keyed_row : Db → String → Option Conversation
  keyed_row db key = P.find_first Conversation (has_key key) db.conversations

  -- The catch block of a create or an adoption: the row that won the race, if there is one.
  unfoldable pub reuse_winner :
      String → Db → Attempt (Conversation × Db) → (Conversation → Created) → Attempt (Created × Db)
  reuse_winner key db (done (c, db')) answer = done (answer c, db')
  reuse_winner key db (raised unique_violation) answer = elim (keyed_row db key) [
    | none ↦ raised unique_violation
    | some winner ↦ done (reply winner true false false, db)
  ]
  reuse_winner key db (raised (http status code message)) answer = raised (http status code message)
  reuse_winner key db (raised record_not_found) answer = raised record_not_found
  reuse_winner key db (raised schema_error) answer = raised schema_error

  -- A DIRECT conversation without a key whose members are all of the pair.
  abbrev pub is_legacy : Db → String → String → Conversation → Bool
  is_legacy db a b c =
      not (is_group c.type)
      && ((elim c.direct_pair_key [ none ↦ true | some _ ↦ false ])
          && all (λ (m : Member). includes (a ∷ b ∷ []) m.user_id) (members_of P db c.id))

  -- The unique index refuses a key that another row has; `members` are the legacy row's, as read.
  unfoldable pub adopt :
      Env → String → String → String → Conversation → List Member → Db → Attempt (Conversation × Db)
  adopt env key a b legacy members db =
      if any (λ c. has_key key c && not (c.id == legacy.id)) db.conversations
      then raised unique_violation
      else let (conversations, found) =
          P.update_many Conversation (λ c. c.id == legacy.id)
            (λ c. record c { direct_pair_key = some key; updated_at = env.now }) db.conversations in
        if found == 0
        then raised record_not_found
        else add_missing env legacy.id (a ∷ b ∷ []) members
            (record db { conversations = conversations })
          >>= reread legacy.id

  module _ (order : CreationOrder) where
    -- The endpoint reads from `seen`; what it writes goes to `db`, in which another request may have
    -- committed since.
    unfoldable pub create_direct :
        Env → CreateConversation → String → String → Db → Db → Attempt (Created × Db)
    create_direct env data_ a b seen db = elim (direct_pair_key_for a b) [
      | none ↦ raised (
          http not_found "BAD_REQUEST"
            "DIRECT conversations require exactly two distinct memberIds")
      | some key ↦ elim (keyed_row seen key) [
        | some existing ↦
            if length (members_of P seen existing.id) == 2
            then done (reply existing true false false, db)
            else do
              (c, db') ← repair_direct_membership env existing.id (a ∷ b ∷ []) db
              done (reply c true true false, db')
        | none ↦
            elim (find (λ _. true)
              (order (P.find_many Conversation (is_legacy seen a b) seen.conversations))) [
                | some legacy ↦
                    reuse_winner key db (adopt env key a b legacy (members_of P seen legacy.id) db)
                      (λ c. reply c true false true)
                | none ↦
                    reuse_winner key db (create_with_outbox_event env data_ (some key) db)
                      (λ c. reply c false false false)
              ]
      ]
    ]

    abbrev pub create_group : Env → CreateConversation → Db → Attempt (Created × Db)
    create_group env data_ db = do
      (c, db') ← create_with_outbox_event env data_ none db
      done (reply c false false false, db')

    unfoldable pub create_conversation_at :
        Env → CreateConversation → Db → Db → Attempt (Created × Db)
    create_conversation_at env data_ seen db =
        let candidates = unique_ids [] (data_.member_ids ++ data_.created_by ∷ []) in
        let users = P.find_many String (λ u. includes candidates u) seen.users in
        elim (unknown_ids users candidates) [
          | (u ∷ us) ↦ raised (
              http not_found "USER_NOT_FOUND"
                (String.◌++◌ "Unknown userId(s): " (join ", " (u ∷ us))))
          | [] ↦
              if has_duplicates data_.member_ids
              then bad "memberIds contains duplicate userIds"
              else if not (includes data_.member_ids data_.created_by)
              then bad "createdBy must be one of memberIds"
              else if is_group data_.type
              then create_group env data_ db
              else elim data_.member_ids [
                | (a ∷ b ∷ []) ↦ create_direct env data_ a b seen db
                | _ ↦ raised (
                    http not_found "BAD_REQUEST"
                      "DIRECT conversations require exactly two distinct memberIds")
              ]
        ]
