-- ===== src/Gateway/Matching.antt =====
-- src/gateway/signaling.gateway.ts: the queue of strangers, tryPairUsers and the contact requests.
use video_calling.Base.{
  ℕ, Bool, true, false, not, ◌&&◌, Option, none, some, [], ◌∷◌, if◌then◌else◌, or_else,
  truthy_option, lookup, length, non_empty, is_some,
}
use video_calling.Database.{
  CallType, video, CallSession, Action, pure, gets, modify, or_throw, ◌>>=◌, ◌>>◌,
  registration_required,
}
use video_calling.Matchmaking.{QueueEntry, same_type, enqueue, try_match, queue_depth}
use video_calling.Calls.{CallDraw, Origin, initiate_call, accept_call}
use video_calling.Contacts.{request_contact_save}
use video_calling.Gateway.{
  SocketMeta, World, match_queued, match_found, match_queue_status, contact_save_request,
  on_database, store, with_store, send_all, emit_to_socket, join_room, get_meta, set_meta, set_call,
  count_online_users, broadcast_queue_status,
}
use video_calling.Gateway.Connection.{dequeued}

-- 'anonymous', which is no address, and no user agent.
abbrev pub nowhere : Origin
nowhere = record {
  ip_address = b'a' ∷ b'n' ∷ b'o' ∷ b'n' ∷ b'y' ∷ b'm' ∷ b'o' ∷ b'u' ∷ b's' ∷ [];
  user_agent = 0;
}

-- The ids of the rows: the call and its host, and the participation of the guest.
pub record PairDraw : Type 0 where
  pub call : CallDraw
  pub guest : ℕ

abbrev pub pair_type : QueueEntry → QueueEntry → CallType
pair_type a b = if same_type a.preferred_type b.preferred_type then a.preferred_type else video

-- `!!a.userId && !!b.userId`
abbrev pub both_registered : QueueEntry → QueueEntry → Bool
both_registered a b = truthy_option a.user_id && truthy_option b.user_id

abbrev pub found_for :
    (call_id : ℕ) (is_initiator : Bool) (a b partner : QueueEntry) → (socket : ℕ) → World → World
found_for call_id is_initiator a b partner socket =
    emit_to_socket socket
      (match_found call_id (pair_type a b) is_initiator (both_registered a b) partner.user_id)

-- The gateway has the metadata of every connected socket. `server.in(id).socketsJoin` and
-- `server.to(id).emit` reach a connected socket only.
abbrev pub is_online : (socket : ℕ) → World → Bool
is_online socket w = is_some (lookup socket w.sockets)

abbrev pub if_online : (socket : ℕ) → (World → World) → World → World
if_online socket f w = let done = f w in if is_online socket w then done else w

-- Both sockets join the room of the call, and are told.
unfoldable pub connect_pair : (call_id : ℕ) (a b : QueueEntry) → World → World
connect_pair call_id a b w =
    let joined =
      if_online b.socket_id (join_room call_id b.socket_id)
        (if_online a.socket_id (join_room call_id a.socket_id) w) in
    let marked =
      set_meta b.socket_id (set_call (some call_id))
        (set_meta a.socket_id (set_call (some call_id)) joined) in
    if_online b.socket_id (found_for call_id false a b a b.socket_id)
      (if_online a.socket_id (found_for call_id true a b b a.socket_id) marked)

unfoldable pub host_pair : PairDraw → (now : ℕ) (a b : QueueEntry) → Action World CallSession
host_pair draw now a b = on_database (
    initiate_call draw.call now a.user_id
      (if truthy_option a.user_id then none else some a.anonymous_id) (pair_type a b) true nowhere)

unfoldable pub admit_pair :
    PairDraw → (now : ℕ) (a b : QueueEntry) → CallSession → Action World CallSession
admit_pair draw now a b session = on_database (
    accept_call draw.guest now session.id
      (some (if truthy_option b.user_id then or_else b.user_id 0 else b.anonymous_id))
      (if truthy_option b.user_id then none else some b.anonymous_id)
      (some (not (truthy_option b.user_id))) (pair_type a b) nowhere)

unfoldable pub call_pair :
    PairDraw → (now : ℕ) → Option (QueueEntry × QueueEntry) → Action World (Unit {0})
call_pair draw now none = pure tt
call_pair draw now (some (a, b)) = host_pair draw now a b >>= λ session.
    admit_pair draw now a b session >> modify (connect_pair session.id a b)

-- An error is logged and thrown again.
unfoldable pub try_pair_users : PairDraw → (now : ℕ) → Action World (Unit {0})
try_pair_users draw now w =
    let (pair, s) = try_match now (store w) in call_pair draw now pair (with_store w s)

abbrev pub queued : (socket now : ℕ) (preferred_type : Option CallType) → SocketMeta → QueueEntry
queued socket now preferred_type meta = record {
  anonymous_id = meta.anonymous_id;
  user_id = meta.user_id;
  socket_id = socket;
  preferred_type = or_else preferred_type video;
  is_anonymous = not (truthy_option meta.user_id);
}

-- The socket is queued and told its position; the counts are taken after it joined.
unfoldable pub join_queue :
    (socket now : ℕ) (preferred_type : Option CallType) → SocketMeta → World → World
join_queue socket now preferred_type meta w =
    let (position, s) = enqueue (queued socket now preferred_type meta) now (store w) in
    let waiting = with_store w s in
    emit_to_socket socket
      (match_queued position (count_online_users waiting) (queue_depth (store waiting))) waiting

-- The counts that are returned.
abbrev pub status : World → ℕ × ℕ
status w = (count_online_users w, queue_depth (store w))

unfoldable pub on_join_queue :
    PairDraw → (socket now : ℕ) (preferred_type : Option CallType) → Action World (ℕ × ℕ)
on_join_queue draw socket now preferred_type = get_meta socket >>= λ meta.
    modify (join_queue socket now preferred_type meta) >> gets status >>= λ counts.
    try_pair_users draw now >> modify broadcast_queue_status >> pure counts

unfoldable pub on_leave_queue : (socket now : ℕ) → World → World
on_leave_queue socket now w = broadcast_queue_status (dequeued socket now w)

-- Here every socket counts.
unfoldable pub on_queue_status_request : (socket : ℕ) → Action World (ℕ × ℕ)
on_queue_status_request socket = gets (λ w. (length w.sockets, queue_depth (store w))) >>= λ counts.
    modify (emit_to_socket socket (match_queue_status counts.0 counts.1)) >> pure counts

-- The user of the call's other side is told on all sockets.
unfoldable pub tell_target : (call_id to_user from_user request_id : ℕ) → World → World
tell_target call_id to_user from_user request_id w =
    send_all (or_else (lookup to_user w.user_sockets) [])
      (contact_save_request request_id call_id from_user) w

unfoldable pub on_request_contact_save : (id socket now call_id to_user : ℕ) → Action World ℕ
on_request_contact_save id socket now call_id to_user = get_meta socket >>= λ meta.
    or_throw (non_empty meta.user_id) registration_required >>= λ user_id.
    on_database (request_contact_save id now call_id user_id to_user meta.ip_address) >>= λ request.
    modify (tell_target call_id to_user user_id request.id) >> pure request.id
