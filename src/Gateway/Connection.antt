-- ===== src/Gateway/Connection.antt =====
-- src/gateway/signaling.gateway.ts: handleConnection and handleDisconnect.
use video_calling.Base.{
  ℕ, Option, none, some, List, [], ◌∷◌, ◌++◌, if◌then◌else◌, ◌==◌, Assoc, lookup, insert, erase,
  or_else, truthy, exists_where, delete_where, length, non_empty,
}
use video_calling.Database.{Text}
use video_calling.Matchmaking.{dequeue}
use video_calling.Sfu.{remove_participant}
use video_calling.Calls.{end_call, hung_up}
use video_calling.Gateway.{
  SocketMeta, World, peer_disconnected, call_ended, participant_left, store, with_store,
  with_database, emit_to_room, name, anonymous_name, origin, cancel_timer, broadcast_queue_status,
}

-- What the handshake of a socket carries. `x-forwarded-for` and the peer's address may be missing.
pub record Handshake : Type 0 where
  pub token : Option ℕ
  pub forwarded_for : Option Text
  pub address : Option Text
  pub user_agent : Option ℕ

-- `Set.add` and `Set.delete`.
abbrev pub add_socket : ℕ → List ℕ → List ℕ
add_socket s ss = if exists_where (λ x. x == s) ss then ss else ss ++ s ∷ []

abbrev pub remove_socket : ℕ → List ℕ → List ℕ
remove_socket s ss = delete_where (λ x. x == s) ss

-- `userSockets` with the socket in the user's set, which may be there already.
abbrev pub register_in : Option (List ℕ) → (user socket : ℕ) → Assoc (List ℕ) → Assoc (List ℕ)
register_in none user socket m = insert user (socket ∷ []) m
register_in (some existing) user socket m = insert user (add_socket socket existing) m

abbrev pub register : (user socket : ℕ) → Assoc (List ℕ) → Assoc (List ℕ)
register user socket m = register_in (lookup user m) user socket m

-- `userSockets` without it; a set that becomes empty is deleted.
abbrev pub unregister_in : Option (List ℕ) → (user socket : ℕ) → Assoc (List ℕ) → Assoc (List ℕ)
unregister_in none user socket m = m
unregister_in (some set) user socket m =
    if length (remove_socket socket set) == 0
    then erase user m
    else insert user (remove_socket socket set) m

abbrev pub unregister : (user socket : ℕ) → Assoc (List ℕ) → Assoc (List ℕ)
unregister user socket m = unregister_in (lookup user m) user socket m

-- The user of a token: `verify` gives the subject, trimmed, of a token that verifies; a token that does
-- not, or has no subject or an empty one, is anonymous.
abbrev pub user_of : (verify : ℕ → Option ℕ) → Option ℕ → Option ℕ
user_of verify none = none
user_of verify (some token) = if truthy token then non_empty (verify token) else none

-- 'unknown'
abbrev unknown : Text
unknown = b'u' ∷ b'n' ∷ b'k' ∷ b'n' ∷ b'o' ∷ b'w' ∷ b'n' ∷ []

abbrev pub register_user : Option ℕ → (socket : ℕ) → Assoc (List ℕ) → Assoc (List ℕ)
register_user none socket m = m
register_user (some user) socket m = register user socket m

abbrev pub unregister_user : Option ℕ → (socket : ℕ) → Assoc (List ℕ) → Assoc (List ℕ)
unregister_user none socket m = m
unregister_user (some user) socket m = unregister user socket m

-- `anonymous_id` is `uuidv4()`.
abbrev pub new_meta : (verify : ℕ → Option ℕ) (anonymous_id : ℕ) → Handshake → SocketMeta
new_meta verify anonymous_id h = record {
  user_id = user_of verify h.token;
  anonymous_id = anonymous_id;
  call_id = none;
  room_id = none;
  ip_address = or_else h.forwarded_for (or_else h.address unknown);
  user_agent = or_else h.user_agent 0;
}

abbrev pub connected : (socket : ℕ) → SocketMeta → World → World
connected socket meta w = record w {
  user_sockets = register_user meta.user_id socket w.user_sockets;
  sockets = insert socket meta w.sockets;
}

unfoldable pub handle_connection :
    (verify : ℕ → Option ℕ) (socket anonymous_id : ℕ) → Handshake → World → World
handle_connection verify socket anonymous_id h w =
    broadcast_queue_status (connected socket (new_meta verify anonymous_id h) w)

-- The call of the socket, if it has one, is ended for it.
unfoldable pub end_own_call : (now : ℕ) → SocketMeta → Option ℕ → World → World
end_own_call now meta none w = w
end_own_call now meta (some call_id) w = cancel_timer call_id (
    emit_to_room call_id (call_ended call_id peer_disconnected) (
      with_database (end_call now call_id (name meta) (anonymous_name meta) hung_up (origin meta))
        w))

-- The socket is taken out of its SFU room, if it has one.
unfoldable pub leave_own_room : (socket : ℕ) → Option ℕ → World → World
leave_own_room socket none w = w
leave_own_room socket (some room_id) w =
    emit_to_room room_id (participant_left socket)
      (record w { sfu = remove_participant room_id socket w.sfu })

-- Socket.IO takes the socket out of its rooms before.
abbrev pub left_rooms : ℕ → World → World
left_rooms socket w = record w { rooms = delete_where (λ p. p.1 == socket) w.rooms }

abbrev pub dequeued : (socket now : ℕ) → World → World
dequeued socket now w = with_store w (dequeue socket now (store w))

abbrev pub forget_socket : (socket : ℕ) → SocketMeta → World → World
forget_socket socket meta w = record w {
  user_sockets = unregister_user meta.user_id socket w.user_sockets;
  sockets = erase socket w.sockets;
}

unfoldable pub disconnect : (socket now : ℕ) → SocketMeta → World → World
disconnect socket now meta w = broadcast_queue_status (
    forget_socket socket meta (
      leave_own_room socket (non_empty meta.room_id) (
        end_own_call now meta (non_empty meta.call_id)
          (dequeued socket now (left_rooms socket w)))))

unfoldable pub disconnect_known : (socket now : ℕ) → Option SocketMeta → World → World
disconnect_known socket now none w = w
disconnect_known socket now (some meta) w = disconnect socket now meta w

unfoldable pub handle_disconnect : (socket now : ℕ) → World → World
handle_disconnect socket now w = disconnect_known socket now (lookup socket w.sockets) w
