-- ===== src/Tests/Connecting.antt =====
-- A session that connects, loses its connection and connects again.
use mqtt_chat.Base.{true, false, ◌&&◌, List, [], ◌∷◌, all, count, length, ◌≡◌}
use mqtt_chat.Client.Realtime.{
  Options, patterns, Event, opened, closed, granted, Session, new_session, run,
}
use mqtt_chat.Client.Realtime.Ready.{
  complete, is_connected, is_resolved, is_never, ready_after_grants,
}

abbrev options : Options
options = record {
  namespace = "chat/v1";
  user_id = "alice";
  extra_event_wildcards = [];
  subscribe_user_events = false;
}

abbrev happened : List Event
happened =
    opened ∷ granted 0 "chat/v1/events/#" ∷ closed ∷ opened ∷ granted 1 "chat/v1/events/#" ∷ []

abbrev session : Session
unfolding run
session = run (patterns options) happened new_session

ready_after_grants_example :
    (all (complete session.granted (patterns options)) session.ready ≡ true)
    × (count is_connected session.statuses ≡ length session.ready)
    × ((is_resolved session.settled && is_never session.ready) ≡ false)
unfolding session run
ready_after_grants_example = ready_after_grants options happened
