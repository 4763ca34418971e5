-- ===== src/Gateway/Joining.antt =====
-- A socket that joins while another waits: onJoinQueue of src/gateway/signaling.gateway.ts.
use video_calling.Base.{
  ℕ, ◌≡◌, refl, ap, ◌∙◌, arith, true, Option, some, [], ◌∷◌, ◌++◌, lookup, is_some,
}
use video_calling.Database.{CallType, ok, Action, ◌>>=◌, ◌>>◌, >>=-ok, gets, pure, modify}
use video_calling.Matchmaking.{QueueEntry, TimedEntry, timed, enqueue, is_fresh}
use video_calling.Audit.Append.{log-KeepsRest}
use video_calling.Gateway.{SocketMeta, World, get_meta, broadcast_queue_status}
use video_calling.Gateway.Matching.{
  PairDraw, is_online, queued, status, join_queue, on_join_queue, try_pair_users,
}
use video_calling.Gateway.Strangers.{CanCall, CanCall-same, IsAnswered, try_pair_users-IsAnswered}

get_meta-known :
    (k : ℕ) (meta : SocketMeta) (w : World)
    → lookup k w.sockets ≡ some meta
    → get_meta k w ≡ (ok meta, w)
unfolding get_meta
get_meta-known k meta w known = ground arith

join_queue-keeps :
    (k now : ℕ) (preferred : Option CallType) (meta : SocketMeta) (w : World)
    → ((join_queue k now preferred meta w).database.users ≡ w.database.users)
      × ((join_queue k now preferred meta w).database.call_sessions ≡ w.database.call_sessions)
unfolding join_queue enqueue
join_queue-keeps k now preferred meta w =
    ((log-KeepsRest now _ _).users, (log-KeepsRest now _ _).call_sessions)

join_queue-sockets :
    (k now : ℕ) (preferred : Option CallType) (meta : SocketMeta) (w : World)
    → (join_queue k now preferred meta w).sockets ≡ w.sockets
unfolding join_queue
join_queue-sockets k now preferred meta w = refl

join_queue-queue :
    (k now : ℕ) (preferred : Option CallType) (meta : SocketMeta) (w : World)
    → (join_queue k now preferred meta w).redis.queue
      ≡ w.redis.queue ++ timed (queued k now preferred meta) now ∷ []
unfolding join_queue enqueue
join_queue-queue k now preferred meta w = refl

-- A known socket that joins while one other entry waits, which is fresh and whose socket is
-- connected still, is matched with it at once, if the users of both are stored and the drawn id of
-- the call is new: the call is active from then, both sockets are in its room and each is told of the other, the one that waited to make the
-- offer; and the counts are returned and sent to everybody.
pub on_join_queue-IsAnswered :
    (draw : PairDraw) (k now : ℕ) (preferred : Option CallType) (meta : SocketMeta) (a : TimedEntry)
    (w : World)
    → lookup k w.sockets ≡ some meta
    → w.redis.queue ≡ a ∷ []
    → is_fresh now a ≡ true
    → is_online a.entry.socket_id w ≡ true
    → CanCall draw a.entry (queued k now preferred meta) w.database
    → (w' : World) × (on_join_queue draw k now preferred w
        ≡ (ok (status (join_queue k now preferred meta w)), broadcast_queue_status w'))
      × IsAnswered draw now a.entry
          (queued k now preferred meta)
          (join_queue k now preferred meta w)
          w'
unfolding on_join_queue
on_join_queue-IsAnswered draw k now preferred meta a w known waits fresh waiting_online can =
    let b : QueueEntry = queued k now preferred meta in
    let wj : World = join_queue k now preferred meta w in
    let (users, calls) = join_queue-keeps k now preferred meta w in
    let same : wj.sockets ≡ w.sockets = join_queue-sockets k now preferred meta w in
    let sockets : (s : ℕ) → is_online s w ≡ true → is_online s wj ≡ true =
      λ s. λ h. ap (λ ss. is_some (lookup s ss)) same ∙ h in
    let joined_online : is_online k wj ≡ true = sockets k (ap is_some known) in
    let (w', paired, done) =
      try_pair_users-IsAnswered draw now a (timed b now) [] wj
        (join_queue-queue k now preferred meta w ∙ ap (λ q. q ++ timed b now ∷ []) waits) fresh
        (ground arith) (CanCall-same draw a.entry b w.database wj.database users calls can)
        (sockets a.entry.socket_id waiting_online, joined_online) in
    let counts = status wj in
    let tell : Action World (Unit {0}) = modify broadcast_queue_status in
    let next : SocketMeta → Action World (ℕ × ℕ) = λ m.
      modify (join_queue k now preferred m) >> gets status >>= λ c.
      try_pair_users draw now >> tell >> pure c in
    let joined = >>=-ok next (get_meta k) w (get_meta-known k meta w known) in
    let told = >>=-ok (λ _. tell) (try_pair_users draw now) wj paired in
    (
      w',
      joined ∙ >>=-ok (λ _. pure {A = ℕ × ℕ} counts) (try_pair_users draw now >> tell) wj told,
      done,
    )
