-- ===== src/Gateway.antt =====
-- src/gateway/signaling.gateway.ts: the state of the gateway and of what it works on. A handler runs
-- to its end before the next event is taken; the ids that are drawn and the time are arguments.
pub mod Connection
pub mod Calling
pub mod Matching
pub mod Media
pub mod Membership
pub mod Presence
pub mod Answering
pub mod Ringing
pub mod Rooms
pub mod Strangers
pub mod Joining
mod Tests
use video_calling.Base.{
  ℕ, ◌+◌, Bool, true, false, not, ◌&&◌, Option, none, some, List, [], ◌∷◌, ◌++◌, if◌then◌else◌,
  ◌==◌, Assoc, lookup, insert, erase, or_else, exists_where, delete_where, length, truthy_option,
  non_empty,
}
use video_calling.Database.{
  Text, Database, CallType, Result, ok, err, Action, Error, socket_not_initialised, or_throw, gets,
  modify, throw_if, ◌>>=◌, ◌>>◌,
}
use video_calling.Matchmaking.{Redis, Store, queue_depth}
use video_calling.Sfu.{Sfu}
use video_calling.Calls.{Origin}

pub record SocketMeta : Type 0 where
  pub user_id : Option ℕ
  pub anonymous_id : ℕ
  pub call_id : Option ℕ
  pub room_id : Option ℕ
  pub ip_address : Text
  pub user_agent : ℕ

pub data EndCause : Type 0 where
  peer_disconnected hung_up : EndCause

-- The events that are sent, by their names.
pub data Event : Type 0 where
  match_queue_status : (online searching : ℕ) → Event
  match_queued : (position online searching : ℕ) → Event
  match_found :
      (call_id : ℕ) (call_type : CallType) (is_initiator both_registered : Bool)
      (partner : Option ℕ)
      → Event
  call_incoming : (call_id : ℕ) (caller : Option ℕ) (call_type : CallType) → Event
  call_accepted : (call_id acceptor : ℕ) (initiator : Option ℕ) → Event
  call_rejected call_missed : (call_id : ℕ) → Event
  call_ended : (call_id : ℕ) → EndCause → Event
  call_type_changed : (call_id : ℕ) (new_type : CallType) → Event
  signal_offer signal_answer signal_ice : (call_id body : ℕ) → Event
  participant_media : (socket : ℕ) (user_id : Option ℕ) (mic camera : Option Bool) → Event
  participant_joined : (socket : ℕ) (user_id : Option ℕ) → Event
  participant_left : (socket : ℕ) → Event
  sfu_new_producer : (producer socket : ℕ) → Event
  contact_save_request : (request_id call_id from_user : ℕ) → Event

-- A timer of onCallInitiate with what its callback holds on to; the fields of the meta data that it
-- reads are never written.
pub record Timer : Type 0 where
  pub socket : ℕ
  pub caller : SocketMeta
  pub due : ℕ

-- `rooms` are the pairs of a Socket.IO room and a socket in it; `emitted` is what each socket was sent.
pub record World : Type 0 where
  pub database : Database
  pub redis : Redis
  pub sfu : Sfu
  pub sockets : Assoc SocketMeta
  pub user_sockets : Assoc (List ℕ)
  pub pending_call_targets : Assoc ℕ
  pub missed_call_timers : Assoc Timer
  pub rooms : List (ℕ × ℕ)
  pub emitted : List (ℕ × Event)

-- The services, on their part of the state

abbrev pub on_database : {A : Type 0} → Action Database A → Action World A
on_database m w = let (r, d) = m w.database in (r, record w { database = d })

abbrev pub with_database : (Database → Database) → World → World
with_database f w = record w { database = f w.database }

abbrev pub store : World → Store
store w = record { redis = w.redis; database = w.database }

abbrev pub with_store : World → Store → World
with_store w s = record w { redis = s.redis; database = s.database }

abbrev pub on_sfu : {A : Type 0} → Action Sfu A → Action World A
on_sfu m w = let (r, s) = m w.sfu in (r, record w { sfu = s })

-- Socket.IO

-- The sockets of a room, in the order in which they joined. Every socket is in the room of its own id.
abbrev pub members : ℕ → List (ℕ × ℕ) → List ℕ
members room [] = []
members room ((r, s) ∷ rooms) = if r == room then s ∷ members room rooms else members room rooms

abbrev pub send_all : List ℕ → Event → World → World
send_all [] event w = w
send_all (s ∷ ss) event w = send_all ss event (record w { emitted = w.emitted ++ (s, event) ∷ [] })

-- `server.to(socketId).emit`
abbrev pub emit_to_socket : ℕ → Event → World → World
emit_to_socket socket event w = send_all (socket ∷ []) event w

-- `server.to(room).emit`
abbrev pub emit_to_room : ℕ → Event → World → World
emit_to_room room event w = send_all (members room w.rooms) event w

-- `socket.to(room).emit`: the sender is left out.
abbrev pub emit_to_others : (room socket : ℕ) → Event → World → World
emit_to_others room socket event w =
    send_all (delete_where (λ s. s == socket) (members room w.rooms)) event w

abbrev pub in_pair : (room socket : ℕ) → ℕ × ℕ → Bool
in_pair room socket (r, s) = r == room && s == socket

abbrev pub join_room : (room socket : ℕ) → World → World
join_room room socket w =
    if exists_where (in_pair room socket) w.rooms
    then w
    else record w { rooms = w.rooms ++ (room, socket) ∷ [] }

abbrev pub leave_room : (room socket : ℕ) → World → World
leave_room room socket w = record w { rooms = delete_where (in_pair room socket) w.rooms }

-- Helpers of the gateway

unfoldable pub get_meta : ℕ → Action World SocketMeta
get_meta socket =
    gets (λ w. lookup socket w.sockets) >>= λ meta. or_throw meta socket_not_initialised

-- `userId ?? anonymousId`
abbrev pub name : SocketMeta → ℕ
name meta = or_else meta.user_id meta.anonymous_id

-- `meta.userId ? undefined : meta.anonymousId`
abbrev pub anonymous_name : SocketMeta → Option ℕ
anonymous_name meta = if truthy_option meta.user_id then none else some meta.anonymous_id

abbrev pub origin : SocketMeta → Origin
origin meta = record { ip_address = meta.ip_address; user_agent = meta.user_agent }

-- The metadata is one object that all holders share: a field is set where the socket's entry is.
abbrev pub set_meta : ℕ → (SocketMeta → SocketMeta) → World → World
set_meta socket f w = elim (lookup socket w.sockets) [
  | none ↦ w
  | some meta ↦ record w { sockets = insert socket (f meta) w.sockets }
]

abbrev pub set_call : Option ℕ → SocketMeta → SocketMeta
set_call call_id meta = record meta { call_id = call_id }

-- `clearTimeout` and `missedCallTimers.delete`
abbrev pub cancel_timer : ℕ → World → World
cancel_timer call_id w = record w { missed_call_timers = erase call_id w.missed_call_timers }

abbrev pub forget_target : ℕ → World → World
forget_target call_id w = record w { pending_call_targets = erase call_id w.pending_call_targets }

abbrev distinct : List ℕ → Assoc SocketMeta → ℕ
distinct seen [] = 0
distinct seen ((s, meta) ∷ sockets) = elim (exists_where (λ x. x == name meta) seen) [
  | true ↦ distinct seen sockets
  | false ↦ 1 + distinct (name meta ∷ seen) sockets
]

abbrev pub ids : Assoc SocketMeta → List ℕ
ids [] = []
ids ((s, meta) ∷ sockets) = s ∷ ids sockets

unfoldable pub count_online_users : World → ℕ
count_online_users w = distinct [] w.sockets

-- `server.emit`: to every socket of the namespace.
unfoldable pub broadcast_queue_status : World → World
broadcast_queue_status w =
    send_all (ids w.sockets) (match_queue_status (count_online_users w) (queue_depth (store w))) w
