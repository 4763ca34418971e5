-- ===== src/Gateway/Media.antt =====
-- src/gateway/signaling.gateway.ts: the events of group calls.
use video_calling.Base.{ℕ, Bool, not, Option, none, some}
use video_calling.Database.{
  EventType, room_created, participant_joined, room_only, group_calls_unavailable, Action, pure,
  gets, modify, throw_if, ◌>>=◌, ◌>>◌,
}
use video_calling.Audit.{AuditEntry, log}
use video_calling.Sfu.{
  Router, RoomInfo, is_available, get_room_info, create_room, create_web_rtc_transport,
  connect_transport, produce, consume, resume_consumer,
}
use video_calling.Gateway.{
  SocketMeta, World, sfu_new_producer, with_database, on_sfu, emit_to_others, join_room, get_meta,
  set_meta, Event,
}

abbrev room_event : SocketMeta → EventType → (room_id : ℕ) → AuditEntry
room_event meta event_type room_id = record {
  user_id = meta.user_id;
  anonymous_id = none;
  event_type = event_type;
  payload = some (room_only room_id);
  ip_address = some meta.ip_address;
  user_agent = none;
}

-- The room that is there, or a new one.
unfoldable pub open_room :
    (router_id now room_id : ℕ) → SocketMeta → Option RoomInfo → Action World RoomInfo
open_room router_id now room_id meta (some info) = pure info
open_room router_id now room_id meta none = on_sfu (create_room router_id room_id) >>= λ info.
    modify (with_database (log now (room_event meta room_created room_id))) >> pure info

unfoldable pub enter_room : (socket now room_id : ℕ) → SocketMeta → World → World
enter_room socket now room_id meta w =
    with_database (log now (room_event meta participant_joined room_id)) (
      emit_to_others room_id socket (Event.participant_joined socket meta.user_id)
        (join_room room_id socket (set_meta socket (λ m. record m { room_id = some room_id }) w)))

-- The result stands for the router's capabilities.
unfoldable pub on_sfu_join : (router_id socket now room_id : ℕ) → Action World Router
on_sfu_join router_id socket now room_id = gets (λ w. is_available w.sfu) >>= λ available.
    throw_if (not available) group_calls_unavailable >> get_meta socket >>= λ meta.
    gets (λ w. get_room_info room_id w.sfu) >>= λ found.
    open_room router_id now room_id meta found >>= λ info.
    modify (enter_room socket now room_id meta) >> pure info.router

-- The peer is the socket.
unfoldable pub on_create_transport : (transport_id socket room_id : ℕ) → Action World ℕ
on_create_transport transport_id socket room_id =
    on_sfu (create_web_rtc_transport transport_id room_id socket)

unfoldable pub on_connect_transport : (room_id transport_id : ℕ) → Action World (Unit {0})
on_connect_transport room_id transport_id = on_sfu (connect_transport room_id transport_id)

unfoldable pub on_produce : (producer_id socket room_id transport_id : ℕ) → Action World ℕ
on_produce producer_id socket room_id transport_id =
    on_sfu (produce producer_id room_id transport_id) >>= λ producer.
    modify (emit_to_others room_id socket (sfu_new_producer producer socket)) >> pure producer

unfoldable pub on_consume :
    (can_consume : Router → ℕ → ℕ → Bool)
    (consumer_id room_id producer_id capabilities transport_id : ℕ)
    → Action World ℕ
on_consume can_consume consumer_id room_id producer_id capabilities transport_id =
    on_sfu (consume can_consume consumer_id room_id producer_id capabilities transport_id)

unfoldable pub on_resume_consumer : (room_id consumer_id : ℕ) → Action World (Unit {0})
on_resume_consumer room_id consumer_id = on_sfu (resume_consumer room_id consumer_id)
