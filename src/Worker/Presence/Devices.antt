-- ===== src/Worker/Presence/Devices.antt =====
-- The devices of a user: who is online, and which commands queue an event.
use mqtt_chat.Base.{
  ℕ, String, none, some, Bool, true, false, not, ◌&&◌, List, [], ◌∷◌, ◌++◌, ◌==◌, string_eq, nat_eq,
  if◌then◌else◌, length-append, any-append, ◌≡◌, refl, inl, inr, arith, Option-cases, Bool-cases,
  any_never,
}
use mqtt_chat.Contracts.Topics.{EventTopic}
use mqtt_chat.Contracts.Envelope.{CommandEnvelope, truthy}
use mqtt_chat.Contracts.Commands.{PresenceSetCommand}
use mqtt_chat.Store.Prisma.{Prisma, IsPrisma, tables, by_tables}
use mqtt_chat.Store.Redis.{
  RedisClient, IsRedis, cells, by_cells, Redis, has, without, get_presence, is_online,
  add_connection, remove_connection, touch_activity,
}
use mqtt_chat.Worker.Context.{Env, World, acked, after}
use mqtt_chat.Worker.Presence.{presence_row, handle_presence_set}

abbrev pub devices_of : Redis → String → List String
devices_of r user_id = r.presence_user user_id

-- A connection key exists exactly for the devices in the set of the user.
abbrev pub IsConsistent : Redis → Type 0
IsConsistent r =
    (user_id device_id : String)
    → has device_id (r.presence_user user_id)
      ≡ elim (r.connection user_id device_id) [ none ↦ false | some _ ↦ true ]

module _ (now : ℕ) (user_id device_id : String) (r : Redis) where
  add_connection-cells :
      let (transition, r') = add_connection cells now user_id device_id r in
      (transition.changed ≡ not (has device_id (devices_of r user_id)))
      × (devices_of r' user_id ≡ (
          if has device_id (devices_of r user_id)
          then devices_of r user_id
          else devices_of r user_id ++ device_id ∷ []))
  unfolding add_connection
  add_connection-cells = ground arith

  remove_connection-cells :
      has device_id (devices_of r user_id)
        ≡ elim (r.connection user_id device_id) [ none ↦ false | some _ ↦ true ]
      → let (transition, r') = remove_connection cells now user_id device_id r in
        (transition.changed ≡ has device_id (devices_of r user_id))
        × (devices_of r' user_id ≡ without device_id (devices_of r user_id))
  unfolding remove_connection
  remove_connection-cells e = ground arith

-- What an online command of a device does: the device is in the user's set, nobody else's set
-- changes, and an event with the new number of devices is queued exactly if the device is new.
pub record WentOnline (env : Env) (envelope : CommandEnvelope PresenceSetCommand)
    (user_id device_id : String) (w w' : World) : Type 0 where
  pub devices :
      (other : String)
      → devices_of w'.redis other ≡ (
          if other == user_id && not (has device_id (devices_of w.redis user_id))
          then devices_of w.redis user_id ++ device_id ∷ []
          else devices_of w.redis other)
  pub online : is_online w'.redis user_id ≡ true
  pub outbox : w'.db.outbox ≡ (
      if has device_id (devices_of w.redis user_id)
      then w.db.outbox
      else w.db.outbox
        ++ presence_row env envelope user_id device_id "presence.online" EventTopic.presence_online
            (get_presence w'.redis user_id)
          ∷ [])

-- What an offline command of a device does: the device leaves the set, the user's other devices and
-- everybody else's stay, the user is last seen now if no device is left, and an event is queued
-- exactly if the device was there.
pub record WentOffline (env : Env) (envelope : CommandEnvelope PresenceSetCommand)
    (user_id device_id : String) (w w' : World) : Type 0 where
  pub devices :
      (other : String)
      → devices_of w'.redis other ≡ (
          if other == user_id
          then without device_id (devices_of w.redis user_id)
          else devices_of w.redis other)
  pub last_seen :
      w'.redis.presence_last_seen user_id
      ≡ (if is_online w'.redis user_id then w.redis.presence_last_seen user_id else some env.now)
  pub outbox : w'.db.outbox ≡ (
      if has device_id (devices_of w.redis user_id)
      then w.db.outbox
        ++ presence_row env envelope user_id device_id "presence.offline"
            EventTopic.presence_offline
            (get_presence w'.redis user_id)
          ∷ []
      else w.db.outbox)

module _ (env : Env) (envelope : CommandEnvelope PresenceSetCommand) (user_id device_id : String)
    (w : World) (named : truthy envelope.actor.user_id ≡ some user_id)
    (on_device : truthy envelope.actor.device_id ≡ some device_id) where
  abbrev seen : Bool
  seen = has device_id (devices_of w.redis user_id)

  online-cells :
      envelope.payload.is_online ≡ true
      → let w' = after (handle_presence_set tables cells env envelope w) in
        (handle_presence_set tables cells env envelope w ≡ acked w')
        × WentOnline env envelope user_id device_id w w'
  unfolding handle_presence_set add_connection touch_activity is_online
  online-cells on = elim (Bool-cases seen) [
    | inl there ↦ (
      ground arith,
      record { devices = λ other. ground arith; online = ground arith; outbox = ground arith },
    )
    | inr fresh ↦ (
      ground (arith, any_never w.db.outbox),
      record {
        devices = λ other. ground (arith, any_never w.db.outbox);
        online = ground (
          arith,
          any_never w.db.outbox,
          length-append (devices_of w.redis user_id) (device_id ∷ []),
        );
        outbox = ground (arith, any_never w.db.outbox);
      },
    )
  ]

  offline-cells :
      envelope.payload.is_online ≡ false
      → seen ≡ elim (w.redis.connection user_id device_id) [ none ↦ false | some _ ↦ true ]
      → let w' = after (handle_presence_set tables cells env envelope w) in
        (handle_presence_set tables cells env envelope w ≡ acked w')
        × WentOffline env envelope user_id device_id w w'
  unfolding handle_presence_set remove_connection touch_activity is_online get_presence
  offline-cells off consistent = (
    ground (arith, any_never w.db.outbox),
    record {
      devices = λ other. ground (arith, any_never w.db.outbox);
      last_seen = ground (arith, any_never w.db.outbox);
      outbox = ground (arith, any_never w.db.outbox);
    },
  )

-- Both services as documented: a statement about the handler is proved for the concrete ones.
by_services :
    (S : Prisma → RedisClient → Type 0) {P : Prisma} {R : RedisClient}
    → IsPrisma P
    → IsRedis R
    → S tables cells
    → S P R
by_services S {R = R} h k s = by_tables (λ P. S P R) h (by_cells (S tables) k s)

module _ (P : Prisma) (h : IsPrisma P) (R : RedisClient) (k : IsRedis R) (env : Env)
    (envelope : CommandEnvelope PresenceSetCommand) (user_id device_id : String) (w : World)
    (named : truthy envelope.actor.user_id ≡ some user_id)
    (on_device : truthy envelope.actor.device_id ≡ some device_id) where
  -- An online command of an identified device is acknowledged and adds the device to its user's set,
  -- with an event exactly if it was not there, and changes nobody else's.
  pub presence_online :
      envelope.payload.is_online ≡ true
      → let w' = after (handle_presence_set P R env envelope w) in
        (handle_presence_set P R env envelope w ≡ acked w')
        × WentOnline env envelope user_id device_id w w'
  presence_online on =
      by_services
        (λ P R.
          (handle_presence_set P R env envelope w
            ≡ acked (after (handle_presence_set P R env envelope w)))
          × WentOnline env envelope user_id device_id w
              (after (handle_presence_set P R env envelope w)))
        h k (online-cells env envelope user_id device_id w named on_device on)

  -- An offline command, where the connection keys agree with the sets, removes that device alone: the
  -- user stays online while another device is left, and is last seen now otherwise; an event is
  -- queued exactly if the device was there.
  pub presence_offline :
      envelope.payload.is_online ≡ false
      → IsConsistent w.redis
      → let w' = after (handle_presence_set P R env envelope w) in
        (handle_presence_set P R env envelope w ≡ acked w')
        × WentOffline env envelope user_id device_id w w'
  presence_offline off consistent =
      by_services
        (λ P R.
          (handle_presence_set P R env envelope w
            ≡ acked (after (handle_presence_set P R env envelope w)))
          × WentOffline env envelope user_id device_id w
              (after (handle_presence_set P R env envelope w)))
        h k
        (offline-cells env envelope user_id device_id w named on_device off
          (consistent user_id device_id))

has-without : (s t : String) (set : List String) → has s (without t set) ≡ has s set && not (s == t)
has-without s t [] = refl
has-without s t (x ∷ set) = ground (arith, has-without s t set)

module _ (now : ℕ) (user_id device_id : String) (r : Redis) (consistent : IsConsistent r) where
  add_connection-IsConsistent : IsConsistent (add_connection cells now user_id device_id r).1
  unfolding add_connection
  add_connection-IsConsistent u d =
      ground
        (arith, consistent u d, any-append (λ t. t == d) (r.presence_user user_id) (device_id ∷ []))

  remove_connection-IsConsistent : IsConsistent (remove_connection cells now user_id device_id r).1
  unfolding remove_connection
  remove_connection-IsConsistent u d =
      ground (arith, consistent u d, has-without d device_id (r.presence_user user_id))

presence-cells :
    (env : Env) (envelope : CommandEnvelope PresenceSetCommand) (w : World)
    → IsConsistent w.redis
    → IsConsistent (after (handle_presence_set tables cells env envelope w)).redis
unfolding handle_presence_set touch_activity
presence-cells env envelope w consistent u d = elim (Option-cases (truthy envelope.actor.user_id)) [
  | inl anonymous ↦ ground (arith, consistent u d)
  | inr (user_id, named) ↦ elim (Option-cases (truthy envelope.actor.device_id)) [
    | inl nowhere ↦ ground (arith, consistent u d)
    | inr (device_id, on_device) ↦ ground (
      arith,
      any_never w.db.outbox,
      add_connection-IsConsistent env.now user_id device_id w.redis consistent u d,
      remove_connection-IsConsistent env.now user_id device_id w.redis consistent u d,
    )
  ]
]

-- The connection keys agree with the sets of devices after any presence command, if they did before.
pub presence-IsConsistent :
    (P : Prisma) (h : IsPrisma P) (R : RedisClient) (k : IsRedis R) (env : Env)
    (envelope : CommandEnvelope PresenceSetCommand) (w : World)
    → IsConsistent w.redis
    → IsConsistent (after (handle_presence_set P R env envelope w)).redis
presence-IsConsistent P h R k env envelope w consistent =
    by_services (λ P R. IsConsistent (after (handle_presence_set P R env envelope w)).redis) h k
      (presence-cells env envelope w consistent)
