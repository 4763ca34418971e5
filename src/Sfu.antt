-- ===== src/Sfu.antt =====
-- src/sfu/sfu.service.ts. Workers, routers, transports, producers and consumers are objects of the
-- media server: here they are their ids, drawn as arguments, and what the code asks of them is an
-- event. A transport's key `peer:id` is the pair; peer ids are socket ids, which have no colon.
pub mod Rooms
pub mod Leaving
mod Tests
use video_calling.Base.{
  ℕ, zero, suc, ◌+◌, ◌%◌, Bool, true, false, not, ◌&&◌, ◌||◌, Option, none, some, List, [], ◌∷◌,
  ◌++◌, map, if◌then◌else◌, ltb, ◌==◌, is_some, Assoc, lookup, insert, erase, find_row,
  delete_where, select_where, exists_where, length,
}
use video_calling.Database.{
  Result, ok, err, Action, throw, media_unavailable, room_not_found, transport_not_found,
  consumer_not_found, cannot_consume,
}

pub record Transport : Type 0 where
  pub peer : ℕ
  pub id : ℕ

pub record Router : Type 0 where
  pub id : ℕ
  pub worker : ℕ

pub record Room : Type 0 where
  pub router : Router
  pub transports : List Transport
  pub producers : Assoc ℕ
  pub consumers : Assoc ℕ
  pub participants : List ℕ

-- What the code asks of the media server's objects.
pub data MediaEvent : Type 0 where
  worker_closed transport_closed router_closed : ℕ → MediaEvent
  transport_connected consumer_resumed : ℕ → MediaEvent

pub record Sfu : Type 0 where
  pub loaded : Bool
  pub workers : List ℕ
  pub worker_index : ℕ
  pub rooms : Assoc Room
  pub events : List MediaEvent

-- Lifetime

-- Math.max(1, Math.min(numCpu, 4))
abbrev pub worker_count : (cpus : ℕ) → ℕ
worker_count cpus = if cpus == 0 then 1 else if ltb cpus 4 then cpus else 4

abbrev spawned : (fresh : ℕ → ℕ) → (count : ℕ) → List ℕ
spawned fresh zero = []
spawned fresh (suc n) = spawned fresh n ++ fresh n ∷ []

-- `fresh` gives the ids of the workers; `available` says whether the native module loads.
unfoldable pub on_module_init : (available : Bool) (cpus : ℕ) (fresh : ℕ → ℕ) → Sfu → Sfu
on_module_init available cpus fresh s =
    if available
    then record s { loaded = true; workers = s.workers ++ spawned fresh (worker_count cpus) }
    else s

unfoldable pub on_module_destroy : Sfu → Sfu
on_module_destroy s = record s { events = s.events ++ map worker_closed s.workers }

-- `workers[idx] = worker` at the first index of the dead one, if there is one.
abbrev replace_first : (dead worker : ℕ) → List ℕ → List ℕ
replace_first dead worker [] = []
replace_first dead worker (w ∷ ws) =
    if w == dead then worker ∷ ws else w ∷ replace_first dead worker ws

unfoldable pub replace_worker : (dead worker : ℕ) → Sfu → Sfu
replace_worker dead worker s =
    if s.loaded then record s { workers = replace_first dead worker s.workers } else s

abbrev pub get_elem? : List ℕ → ℕ → Option ℕ
get_elem? [] i = none
get_elem? (w ∷ ws) zero = some w
get_elem? (w ∷ ws) (suc i) = get_elem? ws i

unfoldable pub next_worker : Sfu → Option ℕ × Sfu
next_worker s = if length s.workers == 0 then (none, s) else (
  get_elem? s.workers (s.worker_index % length s.workers),
  record s { worker_index = s.worker_index + 1 },
)

unfoldable pub is_available : Sfu → Bool
is_available s = s.loaded && ltb 0 (length s.workers)

-- Rooms

pub record RoomInfo : Type 0 where
  pub room_id : ℕ
  pub router : Router
  pub participant_count : ℕ

abbrev pub put_room : ℕ → Room → Sfu → Sfu
put_room room_id room s = record s { rooms = insert room_id room s.rooms }

abbrev pub new_room : (router_id worker : ℕ) → Room
new_room router_id worker = record {
  router = record { id = router_id; worker = worker };
  transports = [];
  producers = [];
  consumers = [];
  participants = [];
}

abbrev pub with_router : (router_id room_id : ℕ) → Option ℕ × Sfu → Result RoomInfo × Sfu
with_router router_id room_id (none, s) = (err media_unavailable, s)
with_router router_id room_id (some worker, s) = (
  ok (record {
    room_id = room_id;
    router = (new_room router_id worker).router;
    participant_count = 0;
  }),
  put_room room_id (new_room router_id worker) s,
)

unfoldable pub create_room : (router_id room_id : ℕ) → Action Sfu RoomInfo
unfolding next_worker
create_room router_id room_id s =
    if not s.loaded || length s.workers == 0
    then (err media_unavailable, s)
    else with_router router_id room_id (next_worker s)

-- `Set.add`
abbrev pub add_peer : ℕ → List ℕ → List ℕ
add_peer p ps = if exists_where (λ q. q == p) ps then ps else ps ++ p ∷ []

abbrev pub same_transport : (peer id : ℕ) → Transport → Bool
same_transport peer id t = t.peer == peer && t.id == id

abbrev pub add_transport : Transport → List Transport → List Transport
add_transport t ts = if exists_where (same_transport t.peer t.id) ts then ts else ts ++ t ∷ []

-- What an operation does with the room that it looked up, and with the transport.

abbrev pub on_room : {A : Type 0} → Option Room → (Room → Action Sfu A) → Action Sfu A
on_room none f s = (err room_not_found, s)
on_room (some room) f s = f room s

abbrev pub on_transport :
    {A : Type 0} → Option Transport → (Transport → Action Sfu A) → Action Sfu A
on_transport none f s = (err transport_not_found, s)
on_transport (some t) f s = f t s

abbrev pub in_room : {A : Type 0} → ℕ → (Room → Action Sfu A) → Action Sfu A
in_room room_id f s = on_room (lookup room_id s.rooms) f s

-- The result is the transport's id.
unfoldable pub create_web_rtc_transport : (transport_id room_id peer_id : ℕ) → Action Sfu ℕ
create_web_rtc_transport transport_id room_id peer_id = in_room room_id (λ room. λ s. (
  ok transport_id,
  put_room room_id
      (record room {
        transports = add_transport (record { peer = peer_id; id = transport_id }) room.transports;
        participants = add_peer peer_id room.participants;
      })
      s,
))

abbrev pub find_transport : ℕ → Room → Option Transport
find_transport transport_id room = find_row (λ t. t.id == transport_id) room.transports

unfoldable pub connect_transport : (room_id transport_id : ℕ) → Action Sfu (Unit {0})
connect_transport room_id transport_id = in_room room_id (λ room.
    on_transport (find_transport transport_id room)
      (λ t. λ s. (ok tt, record s { events = s.events ++ transport_connected t.id ∷ [] })))

-- The peer id is not used.
unfoldable pub produce : (producer_id room_id transport_id : ℕ) → Action Sfu ℕ
produce producer_id room_id transport_id = in_room room_id (λ room.
    on_transport (find_transport transport_id room) (λ t. λ s. (
      ok producer_id,
      put_room room_id (record room { producers = insert producer_id t.id room.producers }) s,
    )))

-- `can_consume` is the router's answer for the producer and the capabilities.
unfoldable pub consume :
    (can_consume : Router → ℕ → ℕ → Bool)
    (consumer_id room_id producer_id capabilities transport_id : ℕ)
    → Action Sfu ℕ
consume can_consume consumer_id room_id producer_id capabilities transport_id =
    in_room room_id (λ room.
      if can_consume room.router producer_id capabilities
      then on_transport (find_transport transport_id room) (λ t. λ s. (
        ok consumer_id,
        put_room room_id (record room { consumers = insert consumer_id producer_id room.consumers })
            s,
      ))
      else throw cannot_consume)

unfoldable pub resume_consumer : (room_id consumer_id : ℕ) → Action Sfu (Unit {0})
resume_consumer room_id consumer_id = in_room room_id (λ room. λ s.
    elim (lookup consumer_id room.consumers) [
      | none ↦ (err consumer_not_found, s)
      | some producer ↦ (ok tt, record s { events = s.events ++ consumer_resumed consumer_id ∷ [] })
    ])

abbrev pub of_peer : ℕ → Transport → Bool
of_peer peer t = t.peer == peer

-- The room without the peer: `participants.delete`, and its transports closed and deleted.
abbrev pub without_peer : ℕ → Room → Room
without_peer peer_id room = record room {
  participants = delete_where (λ p. p == peer_id) room.participants;
  transports = delete_where (of_peer peer_id) room.transports;
}

abbrev pub closing : ℕ → Room → List MediaEvent
closing peer_id room =
    map (λ t. transport_closed t.id) (select_where (of_peer peer_id) room.transports)

abbrev pub drop_peer : (room_id peer_id : ℕ) → Option Room → Sfu → Sfu
drop_peer room_id peer_id none s = s
drop_peer room_id peer_id (some room) s =
    if length (without_peer peer_id room).participants == 0
    then record s {
      rooms = erase room_id s.rooms;
      events = (s.events ++ closing peer_id room) ++ router_closed room.router.id ∷ [];
    }
    else record s {
      rooms = insert room_id (without_peer peer_id room) s.rooms;
      events = s.events ++ closing peer_id room;
    }

unfoldable pub remove_participant : (room_id peer_id : ℕ) → Sfu → Sfu
remove_participant room_id peer_id s = drop_peer room_id peer_id (lookup room_id s.rooms) s

unfoldable pub get_room_info : ℕ → Sfu → Option RoomInfo
get_room_info room_id s = elim (lookup room_id s.rooms) [
  | none ↦ none
  | some room ↦ some (record {
    room_id = room_id;
    router = room.router;
    participant_count = length room.participants;
  })
]
