-- ===== src/Store/Redis.antt =====
-- packages/redis/src/index.ts: the repositories that the worker writes. The commands of the Redis
-- client are a parameter. A key is named by its parts (packages/redis/src/keys.ts); two keys are
-- taken to differ when their parts do.
use mqtt_chat.Base.{
  ℕ, suc, String, Option, none, some, Bool, true, false, not, ◌&&◌, List, [], ◌∷◌, ◌++◌, ◌≡◌, refl,
  sym, subst, ◌==◌, string_eq, nat_eq, if◌then◌else◌, filter, any, length, ◌+◌, ltb,
}

-- SADD, SREM and DEL answer how many entries changed.
pub record RedisClient : Type 1 where
  pub sadd : String → List String → List String × ℕ
  pub srem : String → List String → List String × ℕ
  pub del : (A : Type 0) → Option A → Option A × ℕ
  pub incr : Option ℕ → Option ℕ

abbrev pub has : String → List String → Bool
has s set = any (λ t. t == s) set

abbrev pub without : String → List String → List String
without s set = filter (λ t. not (t == s)) set

abbrev pub removed {ℓ} : {A : Type ℓ} → Option A → ℕ
removed none = 0
removed (some _) = 1

abbrev pub succ_or_one : Option ℕ → Option ℕ
succ_or_one none = some 1
succ_or_one (some n) = some (suc n)

-- The documented behaviour of those commands.
pub record IsRedis (R : RedisClient) : Type 1 where
  pub sadd_lem :
      (s : String) (set : List String)
      → R.sadd s set ≡ (if has s set then (set, 0) else (set ++ s ∷ [], 1))
  pub srem_lem :
      (s : String) (set : List String)
      → R.srem s set ≡ (without s set, (if has s set then 1 else 0))
  pub del_lem : (A : Type 0) (o : Option A) → R.del A o ≡ (none, removed o)
  pub incr_lem : (o : Option ℕ) → R.incr o ≡ succ_or_one o

abbrev pub cells : RedisClient
cells = record {
  sadd = λ s set. if has s set then (set, 0) else (set ++ s ∷ [], 1);
  srem = λ s set. (without s set, (if has s set then 1 else 0));
  del = λ A o. (none, removed o);
  incr = succ_or_one;
}

pub cells-IsRedis : IsRedis cells
cells-IsRedis = record {
  sadd_lem = λ s set. refl;
  srem_lem = λ s set. refl;
  del_lem = λ A o. refl;
  incr_lem = λ o. refl;
}

eq-cells : {R : RedisClient} → IsRedis R → cells ≡ R
eq-cells {R} h = λ i. record {
  sadd = λ s set. sym (h.sadd_lem s set) i;
  srem = λ s set. sym (h.srem_lem s set) i;
  del = λ A o. sym (h.del_lem A o) i;
  incr = λ o. sym (h.incr_lem o) i;
}

pub by_cells : (S : RedisClient → Type 0) {R : RedisClient} → IsRedis R → S cells → S R
by_cells S h s = subst S (eq-cells h) s

-- The keys in use; a typing key holds the time at which it expires.
pub record Redis : Type 0 where
  pub presence_user : String → List String
  pub presence_last_seen : String → Option ℕ
  pub connection : String → String → Option ℕ
  pub activity : String → Option ℕ
  pub typing : String → String → Option ℕ
  pub unread : String → String → Option ℕ

abbrev pub update {ℓ} : {A : Type ℓ} → (String → A) → String → A → String → A
update f k a j = if j == k then a else f j

abbrev pub update₂ {ℓ} :
    {A : Type ℓ} → (String → String → A) → String → String → A → String → String → A
update₂ f k l a i j = if i == k && j == l then a else f i j

pub record PresenceInfo : Type 0 where
  pub online : Bool
  pub connection_count : ℕ
  pub devices : List String
  pub last_seen_at : Option ℕ

abbrev presence_of : List String → Option ℕ → PresenceInfo
presence_of [] seen = record {
  online = false;
  connection_count = 0;
  devices = [];
  last_seen_at = seen;
}
presence_of (d ∷ ds) seen = record {
  online = true;
  connection_count = length (d ∷ ds);
  devices = d ∷ ds;
  last_seen_at = none;
}

unfoldable pub get_presence : Redis → String → PresenceInfo
get_presence r user_id = presence_of (r.presence_user user_id) (r.presence_last_seen user_id)

unfoldable pub is_online : Redis → String → Bool
is_online r user_id = ltb 0 (length (r.presence_user user_id))

unfoldable pub touch_activity : ℕ → String → Redis → Redis
touch_activity now user_id r = record r { activity = update r.activity user_id (some now) }

pub record PresenceTransition : Type 0 where
  pub info : PresenceInfo
  pub changed : Bool

module _ (R : RedisClient) where
  unfoldable pub add_connection : ℕ → String → String → Redis → PresenceTransition × Redis
  unfolding get_presence
  add_connection now user_id device_id r =
      let (set, added) = R.sadd device_id (r.presence_user user_id) in
      let r' : Redis = record r {
        connection = update₂ r.connection user_id device_id (some now);
        presence_user = update r.presence_user user_id set;
      } in
      (record { info = get_presence r' user_id; changed = added == 1 }, r')

  -- The last-seen time is written when nothing is left, and the empty set goes.
  unfoldable pub remove_connection : ℕ → String → String → Redis → PresenceTransition × Redis
  unfolding get_presence
  remove_connection now user_id device_id r =
      let (conn, connection_removed) = R.del ℕ (r.connection user_id device_id) in
      let (set, membership_removed) = R.srem device_id (r.presence_user user_id) in
      let r' : Redis = record r {
        connection = update₂ r.connection user_id device_id conn;
        presence_user = update r.presence_user user_id set;
      } in
      let info = get_presence r' user_id in
      let changed : Bool = if connection_removed == 1 then true else membership_removed == 1 in
      (
        record { info = info; changed = changed },
        (if info.online then r' else record r' {
          presence_last_seen = update r'.presence_last_seen user_id (some now);
          presence_user = update r'.presence_user user_id [];
        }),
      )

  -- `TYPING_TTL_SECONDS` is 8.
  unfoldable pub set_typing : ℕ → String → String → Bool → Redis → Redis
  set_typing now conversation_id user_id is_typing r =
      let cell : Option ℕ =
        if is_typing then some (now + 8000) else (R.del ℕ (r.typing conversation_id user_id)).0 in
      record r { typing = update₂ r.typing conversation_id user_id cell }

  unfoldable pub increment_unread : String → String → Redis → Redis
  increment_unread user_id conversation_id r = record r {
    unread = update₂ r.unread user_id conversation_id (R.incr (r.unread user_id conversation_id));
  }

  unfoldable pub reset_unread : String → String → Redis → Redis
  reset_unread user_id conversation_id r = record r {
    unread =
        update₂ r.unread user_id conversation_id (R.del ℕ (r.unread user_id conversation_id)).0;
  }

unfoldable pub get_unread : Redis → String → String → ℕ
get_unread r user_id conversation_id = elim (r.unread user_id conversation_id) [
  | none ↦ 0
  | some n ↦ n
]
