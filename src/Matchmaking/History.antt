-- ===== src/Matchmaking/History.antt =====
-- Pairs: who is matched with whom, in what order, over every history of the queue.
use video_calling.Base.{
  ℕ, ◌+◌, ◌<◌, ◌≡◌, ◌≢◌, refl, sym, ◌∙◌, ap, subst, Assoc, true, Option, none, some, List, [], ◌∷◌,
  ◌++◌, arith, ◌==◌, lookup, erase, find_row, lookup-erase, Bool-cases, Option-cases, inl, inr,
  if◌then◌else◌,
}
use video_calling.Database.{Database}
use video_calling.Matchmaking.{
  QueueEntry, TimedEntry, Store, timed, enqueue, dequeue_raw, is_fresh, pair_up, match_queue,
  try_match, dequeue, ttl_ms,
}
use video_calling.Matchmaking.Queue.{
  of_socket, HasDistinctSockets, IsIndexed, enqueue-IsIndexed, try_match-IsIndexed,
  dequeue-IsIndexed,
}

-- A store that the service's calls make from an empty Redis. A socket that waits does not join.
pub data IsReachable : Store → Type 0 where
  start :
      (d : Database)
      → IsReachable (record { redis = record { queue = []; sockets = [] }; database = d })
  join :
      (entry : QueueEntry) (now : ℕ) (s : Store)
      → lookup entry.socket_id s.redis.sockets ≡ none
      → IsReachable s
      → IsReachable (enqueue entry now s).1
  pair : (now : ℕ) (s : Store) → IsReachable s → IsReachable (try_match now s).1
  leave : (socket_id now : ℕ) (s : Store) → IsReachable s → IsReachable (dequeue socket_id now s)

-- In a store that calls make from an empty Redis, where a waiting socket does not join again, the
-- index holds for each socket exactly the entry that it waits with, and no socket waits twice.
pub reachable-IsIndexed : (s : Store) → IsReachable s → IsIndexed s.redis
reachable-IsIndexed _ (start d) = record { indexed = λ k. refl; distinct = tt }
reachable-IsIndexed _ (join entry now s new r) =
    enqueue-IsIndexed entry now s new (reachable-IsIndexed s r)
reachable-IsIndexed _ (pair now s r) = try_match-IsIndexed now s (reachable-IsIndexed s r)
reachable-IsIndexed _ (leave k now s r) = dequeue-IsIndexed k now s (reachable-IsIndexed s r)

abbrev pub IsPair : (now : ℕ) → QueueEntry → QueueEntry → List TimedEntry → Store → Type 0
IsPair now x y queue t =
    (a : TimedEntry) × (b : TimedEntry) × (queue ≡ a ∷ b ∷ t.redis.queue)
    × (a.entry ≡ x)
    × (b.entry ≡ y)
    × (is_fresh now a ≡ true)
    × (is_fresh now b ≡ true)
    × (lookup a.socket_id t.redis.sockets ≡ none)
    × (lookup b.socket_id t.redis.sockets ≡ none)

erased : (k j : ℕ) (m : Assoc TimedEntry) → lookup k (erase j (erase k m)) ≡ none
erased k j m = ground (arith, lookup-erase j k (erase k m), lookup-erase k k m)

pair_up-some :
    (now : ℕ) (a b : TimedEntry) (rest : List TimedEntry) (s t : Store) (x y : QueueEntry)
    → pair_up now a b rest s ≡ (some (x, y), t)
    → IsPair now x y (a ∷ b ∷ rest) t
unfolding pair_up
pair_up-some now a b rest s t x y h = elim (Bool-cases (is_fresh now a)) [
  | inl fa ↦ elim (Bool-cases (is_fresh now b)) [
    | inl fb ↦
        let e = rw (fa, fb) at h in
        let queue : rest ≡ t.redis.queue = ap (λ r. r.1.redis.queue) e in
        let sockets : erase b.socket_id (erase a.socket_id s.redis.sockets) ≡ t.redis.sockets =
          ap (λ r. r.1.redis.sockets) e in
        let found : ◌≡◌ {A = Option (QueueEntry × QueueEntry)} (some (a.entry, b.entry))
            (some (x, y)) =
          ap (λ r. r.0) e in
        let first : a.entry ≡ x = cc in
        let second : b.entry ≡ y = cc in
        (
          a,
          b,
          ap (λ r. a ∷ b ∷ r) queue,
          first,
          second,
          fa,
          fb,
          ap (λ m. lookup a.socket_id m) (sym sockets)
              ∙ erased a.socket_id b.socket_id s.redis.sockets,
          ap (λ m. lookup b.socket_id m) (sym sockets)
              ∙ ground
                  (arith, lookup-erase b.socket_id b.socket_id (erase a.socket_id s.redis.sockets)),
        )
    | inr sb ↦ absurd (ground (arith, h))
  ]
  | inr sa ↦ absurd (ground (arith, h))
]

match_queue-some :
    (now : ℕ) (queue : List TimedEntry) (s t : Store) (x y : QueueEntry)
    → match_queue now queue s ≡ (some (x, y), t)
    → IsPair now x y queue t
unfolding match_queue
match_queue-some now [] s t x y h = absurd (cc)
match_queue-some now (a ∷ []) s t x y h = absurd (cc)
match_queue-some now (a ∷ b ∷ rest) s t x y h = pair_up-some now a b rest s t x y h

-- In a store that calls make from an empty Redis, where a waiting socket does not join again, a
-- match is of the two entries that have waited longest, neither of them stale, and of two
-- different sockets; it takes both, and no other, off the queue, and none of the two sockets
-- waits afterwards.
pub match-partners :
    (now : ℕ) (s t : Store) (x y : QueueEntry)
    → IsReachable s
    → try_match now s ≡ (some (x, y), t)
    → IsPair now x y s.redis.queue t × (x.socket_id ≢ y.socket_id)
unfolding try_match
match-partners now s t x y r h =
    let found : IsPair now x y s.redis.queue t = match_queue-some now s.redis.queue s t x y h in
    let (a, b, q, ea, eb, fa, fb, la, lb) = found in
    let distinct : HasDistinctSockets (a ∷ b ∷ t.redis.queue) =
      subst HasDistinctSockets q (reachable-IsIndexed s r).distinct in
    (
      found,
      λ same. ground (arith, ap (λ e. e.socket_id) ea, ap (λ e. e.socket_id) eb, same, distinct.0),
    )

-- In a store that calls make from an empty Redis, where a waiting socket does not join again,
-- leaving takes the entry of the socket off the queue, and every other socket waits afterwards
-- with the entry that it waited with.
pub dequeue-waiting :
    (k now : ℕ) (s : Store)
    → IsReachable s
    → (j : ℕ)
    → find_row (of_socket j) (dequeue k now s).redis.queue
      ≡ (if k == j then none else find_row (of_socket j) s.redis.queue)
unfolding dequeue
dequeue-waiting k now s r j =
    let v = reachable-IsIndexed s r in
    sym ((dequeue-IsIndexed k now s v).indexed j) ∙ elim (Option-cases (lookup k s.redis.sockets)) [
      | inl absent ↦ rw (absent, dequeue_raw) (ground (arith, v.indexed j))
      | inr (raw, waits) ↦
          rw (waits, dequeue_raw) (ground (arith, lookup-erase k j s.redis.sockets, v.indexed j))
    ]

-- When the two entries at the left end of the queue are fresh, they are matched.
pub try_match-fresh :
    (now : ℕ) (a b : TimedEntry) (rest : List TimedEntry) (s : Store)
    → s.redis.queue ≡ a ∷ b ∷ rest
    → is_fresh now a ≡ true
    → is_fresh now b ≡ true
    → (try_match now s).0 ≡ some (a.entry, b.entry)
unfolding try_match
try_match-fresh now a b rest s q fa fb =
    ap (λ r. (match_queue now r s).0) q ∙ rw (match_queue, pair_up, fa, fb) refl

-- A socket that joins an empty queue twice within the time to live is matched with itself.
pub enqueue-twice :
    (entry : QueueEntry) (first second : ℕ) (s : Store)
    → s.redis.queue ≡ []
    → second < first + ttl_ms
    → (try_match second (enqueue entry second (enqueue entry first s).1).1).0 ≡ some (entry, entry)
unfolding enqueue
enqueue-twice entry first second s none_waits soon =
    let t : Store = (enqueue entry second (enqueue entry first s).1).1 in
    try_match-fresh second (timed entry first) (timed entry second) [] t
      (ap (λ q. (q ++ timed entry first ∷ []) ++ timed entry second ∷ []) none_waits) (ground arith)
      (ground arith)
