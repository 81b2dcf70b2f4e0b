-- ===== src/Notify/Offline.antt =====
-- Who is notified of a message.
use mqtt_chat.Base.{
  ◌+◌, String, Bool, not, ◌&&◌, List, [], ◌∷◌, count, ◌==◌, string_eq, if◌then◌else◌, ◌≡◌, ap,
  arith, Bool-cases, inl, inr, count-append, count-filter,
}
use mqtt_chat.Contracts.Events.{MessageEventData}
use mqtt_chat.Store.Rows.{Member}
use mqtt_chat.Store.Prisma.{Prisma, IsPrisma}
use mqtt_chat.Store.Redis.{Redis}
use mqtt_chat.Notify.{
  NotificationPayload, Notified, Surroundings, is_system, counts_online, payload_for, notify_member,
  notify_all, handle_message_created, record_delivery,
}

module _ (P : Prisma) (S : Surroundings) (redis : Redis) (event : MessageEventData) where
  abbrev reached : Member → Bool
  reached m = not (counts_online P S redis m.user_id) && S.takes (payload_for P S event m.user_id)

  abbrev to : String → NotificationPayload → Bool
  to user_id p = p.recipient_id == user_id

  notify-member :
      (n : Notified) (m : Member) (u : String)
      → count (to u) (notify_member P S redis event n m).sent
        ≡ count (to u) n.sent + (if m.user_id == u && reached m then 1 else 0)
  unfolding notify_member payload_for record_delivery
  notify-member n m u =
      ground (arith, count-append (to u) n.sent (payload_for P S event m.user_id ∷ []))

  notify-all :
      (ms : List Member) (n : Notified) (u : String)
      → count (to u) (notify_all P S redis event ms n).sent
        ≡ count (to u) n.sent + count (λ (m : Member). m.user_id == u && reached m) ms
  unfolding notify_all
  notify-all [] n u = omega arith
  notify-all (m ∷ ms) n u =
      ground (arith, notify-all ms (notify_member P S redis event n m) u, notify-member n m u)

  -- A message of a user or a bot is sent to each member of its conversation other than the sender who is known to be
  -- offline, once for each row that makes it a member, unless the provider refuses; that one is refused
  -- keeps no other from being notified, and nobody else is. A message of the system notifies nobody.
  pub notify_offline :
      (members : List Member) (n : Notified) (u : String)
      → IsPrisma P
      → count (to u) (handle_message_created P S redis members event n).sent
        ≡ count (to u) n.sent
          + (if is_system event.sender_type
              then 0
              else count
                  (λ (m : Member).
                    (m.user_id == u && reached m)
                    && (m.conversation_id == event.conversation_id
                        && not (m.user_id == event.sender_id)))
                  members)
  unfolding handle_message_created
  notify_offline members n u prisma = elim (Bool-cases (is_system event.sender_type)) [
    | inl system ↦ rw system (omega arith)
    | inr other ↦
        let wanted = λ (m : Member).
          m.conversation_id == event.conversation_id && not (m.user_id == event.sender_id) in
        let rows = P.find_many Member wanted members in
        rw other (
          omega (
            arith,
            notify-all rows n u,
            ap (count (λ (m : Member). m.user_id == u && reached m))
                (prisma.find_many_lem Member wanted members),
            count-filter (λ m. m.user_id == u && reached m) wanted members,
          ))
  ]
