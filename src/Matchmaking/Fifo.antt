-- ===== src/Matchmaking/Fifo.antt =====
-- What the matchmaking service promises: a queue of waiting sockets, in the order in which they
-- joined. The index, the serialised strings and the audit log are forgotten.
use video_calling.Base.{
  ℕ, ◌+◌, ◌≡◌, refl, sym, ◌∙◌, ap, subst, true, ◌&&◌, Option, none, some, List, [], ◌∷◌, ◌++◌,
  arith, ◌==◌, if◌then◌else◌, lookup, find_row, find_row-holds, select_where, delete_where, length,
  length-append, ==_iff, Bool-cases, Option-cases, inl, inr,
}
use video_calling.Database.{Database}
use video_calling.Matchmaking.{
  QueueEntry, TimedEntry, Store, same_raw, remove_first, timed, enqueue, dequeue_raw, is_fresh,
  pair_up, match_queue, try_match, dequeue,
}
use video_calling.Matchmaking.Queue.{
  of_socket, HasDistinctSockets, IsIndexed, same_raw_self, same_raw-socket,
}
use video_calling.Matchmaking.History.{IsReachable, start, join, pair, leave, reachable-IsIndexed}

-- A call of the service.
pub data Request : Type 0 where
  joins : QueueEntry → (now : ℕ) → Request
  pairs : (now : ℕ) → Request
  leaves : (socket_id now : ℕ) → Request

-- Its answer: the position of who joined, the pair that was found.
pub data Answer : Type 0 where
  position : ℕ → Answer
  matched : Option (QueueEntry × QueueEntry) → Answer
  left : Answer

abbrev pub run : Request → Store → Answer × Store
run (joins entry now) s = let (n, t) = enqueue entry now s in (position n, t)
run (pairs now) s = let (found, t) = try_match now s in (matched found, t)
run (leaves socket_id now) s = (left, dequeue socket_id now s)

-- The promise: joining appends, leaving takes out every entry of the socket, and pairing takes the
-- two at the front when both are fresh, and otherwise drops the stale ones of the two.
abbrev pub promised_pair :
    (now : ℕ) → List TimedEntry → Option (QueueEntry × QueueEntry) × List TimedEntry
promised_pair now [] = (none, [])
promised_pair now (a ∷ []) = (none, a ∷ [])
promised_pair now (a ∷ b ∷ rest) =
    if is_fresh now a && is_fresh now b
    then (some (a.entry, b.entry), rest)
    else (none, select_where (is_fresh now) (a ∷ b ∷ []) ++ rest)

abbrev pub promised : Request → List TimedEntry → Answer × List TimedEntry
promised (joins entry now) queue = (position (length queue + 1), queue ++ timed entry now ∷ [])
promised (pairs now) queue = let (found, rest) = promised_pair now queue in (matched found, rest)
promised (leaves socket_id now) queue = (left, delete_where (of_socket socket_id) queue)

-- A history of calls, with what each answers.
unfoldable pub run_all : List Request → Store → List Answer × Store
run_all [] s = ([], s)
run_all (r ∷ rs) s =
    let (a, t) = run r s in let (answers, final) = run_all rs t in (a ∷ answers, final)

unfoldable pub promised_all : List Request → List TimedEntry → List Answer × List TimedEntry
promised_all [] queue = ([], queue)
promised_all (r ∷ rs) queue =
    let (a, rest) = promised r queue in
    let (answers, final) = promised_all rs rest in (a ∷ answers, final)

-- A socket that waits does not join.
abbrev pub CanRun : Request → List TimedEntry → Type 0
CanRun (joins entry now) queue = find_row (of_socket entry.socket_id) queue ≡ none
CanRun (pairs now) queue = Unit
CanRun (leaves socket_id now) queue = Unit

abbrev pub JoinsOnce : List Request → List TimedEntry → Type 0
JoinsOnce [] queue = Unit
JoinsOnce (r ∷ rs) queue = CanRun r queue × JoinsOnce rs (promised r queue).1

delete-absent :
    (k : ℕ) (queue : List TimedEntry)
    → find_row (of_socket k) queue ≡ none
    → delete_where (of_socket k) queue ≡ queue
delete-absent k [] h = refl
delete-absent k (x ∷ queue) h = ground (arith, delete-absent k queue)

-- LREM of the string of a waiting socket takes out what the socket waits with.
remove-delete :
    (k : ℕ) (raw : TimedEntry) (queue : List TimedEntry)
    → HasDistinctSockets queue
    → find_row (of_socket k) queue ≡ some raw
    → remove_first raw queue ≡ delete_where (of_socket k) queue
unfolding remove_first
remove-delete k raw [] h e = absurd (cc)
remove-delete k raw (x ∷ queue) h e = elim (Bool-cases (x.socket_id == k)) [
  | inl here ↦
      let same : x ≡ raw = ground arith in
      let equal : same_raw x raw ≡ true = subst (λ y. same_raw x y ≡ true) same (same_raw_self x) in
      let gone : find_row (of_socket k) queue ≡ none =
        subst (λ j. find_row (of_socket j) queue ≡ none) ((==_iff x.socket_id k).0 here) h.0 in
      rw (here, equal) (sym (delete-absent k queue gone))
  | inr elsewhere ↦
      let socket : raw.socket_id ≡ k =
        (==_iff raw.socket_id k).0 (find_row-holds (of_socket k) (x ∷ queue) {x = raw} e) in
      elim (Bool-cases (same_raw x raw)) [
        | inl same ↦ absurd (ground (arith, same_raw-socket x raw same))
        | inr other ↦
            rw (elsewhere, other) (ap (λ q. x ∷ q) (remove-delete k raw queue h.1 (ground arith)))
      ]
]

match_queue-promised :
    (now : ℕ) (queue : List TimedEntry) (s : Store)
    → s.redis.queue ≡ queue
    → ((match_queue now queue s).0 ≡ (promised_pair now queue).0)
      × ((match_queue now queue s).1.redis.queue ≡ (promised_pair now queue).1)
unfolding match_queue pair_up
match_queue-promised now [] s e = (refl, e)
match_queue-promised now (a ∷ []) s e = (refl, e)
match_queue-promised now (a ∷ b ∷ rest) s e = elim (Bool-cases (is_fresh now a)) [
  | inl fa ↦ elim (Bool-cases (is_fresh now b)) [
    | inl fb ↦ rw (fa, fb) (refl, refl)
    | inr sb ↦ rw (fa, sb) (refl, refl)
  ]
  | inr sa ↦ elim (Bool-cases (is_fresh now b)) [
    | inl fb ↦ rw (sa, fb) (refl, refl)
    | inr sb ↦ rw (sa, sb) (refl, refl)
  ]
]

dequeue-promised :
    (k now : ℕ) (s : Store)
    → IsIndexed s.redis
    → (dequeue k now s).redis.queue ≡ delete_where (of_socket k) s.redis.queue
unfolding dequeue
dequeue-promised k now s v = elim (Option-cases (lookup k s.redis.sockets)) [
  | inl absent ↦
      rw (absent, dequeue_raw) (sym (delete-absent k s.redis.queue (sym (v.indexed k) ∙ absent)))
  | inr (raw, waits) ↦
      rw (waits, dequeue_raw)
        (remove-delete k raw s.redis.queue v.distinct (sym (v.indexed k) ∙ waits))
]

-- In a store that calls make from an empty Redis, where a waiting socket does not join again, every
-- call answers as the promised queue does and leaves the queue that it promises.
pub run-promised :
    (request : Request) (s : Store)
    → IsReachable s
    → ((run request s).0 ≡ (promised request s.redis.queue).0)
      × ((run request s).1.redis.queue ≡ (promised request s.redis.queue).1)
unfolding enqueue try_match
run-promised (joins entry now) s r =
    let e : length (s.redis.queue ++ timed entry now ∷ []) ≡ length s.redis.queue + 1 =
      length-append s.redis.queue (timed entry now ∷ []) ∙ omega arith in
    (ap position e, refl)
run-promised (pairs now) s r =
    let (found, rest) = match_queue-promised now s.redis.queue s refl in (ap matched found, rest)
run-promised (leaves k now) s r = (refl, dequeue-promised k now s (reachable-IsIndexed s r))

run-IsReachable :
    (request : Request) (s : Store)
    → CanRun request s.redis.queue
    → IsReachable s
    → IsReachable (run request s).1
run-IsReachable (joins entry now) s new r =
    join entry now s ((reachable-IsIndexed s r).indexed entry.socket_id ∙ new) r
run-IsReachable (pairs now) s new r = pair now s r
run-IsReachable (leaves k now) s new r = leave k now s r

run_all-from :
    (requests : List Request) (queue : List TimedEntry) (s : Store)
    → s.redis.queue ≡ queue
    → IsReachable s
    → JoinsOnce requests queue
    → ((run_all requests s).0 ≡ (promised_all requests queue).0)
      × ((run_all requests s).1.redis.queue ≡ (promised_all requests queue).1)
unfolding run_all promised_all
run_all-from [] queue s e r once = (refl, e)
run_all-from (q ∷ qs) queue s e r (new, once) =
    let (answer, rest) = run-promised q s r in
    let next : (run q s).1.redis.queue ≡ (promised q queue).1 =
      rest ∙ ap (λ x. (promised q x).1) e in
    let (answers, final) =
      run_all-from qs (promised q queue).1 (run q s).1 next
        (run-IsReachable q s (subst (CanRun q) (sym e) new) r) once in
    let first : (run q s).0 ≡ (promised q queue).0 = answer ∙ ap (λ x. (promised q x).0) e in
    (
      ap (λ a. a ∷ (run_all qs (run q s).1).0) first ∙ ap (λ xs. (promised q queue).0 ∷ xs) answers,
      final,
    )

-- From an empty Redis, every history of calls in which no waiting socket joins again gets the
-- answers that the queue of the promise gives, call by call, and leaves its queue.
pub run_all-promised :
    (requests : List Request) (d : Database)
    → JoinsOnce requests []
    → let s : Store = record { redis = record { queue = []; sockets = [] }; database = d } in
      ((run_all requests s).0 ≡ (promised_all requests []).0)
      × ((run_all requests s).1.redis.queue ≡ (promised_all requests []).1)
run_all-promised requests d once = run_all-from requests [] _ refl (start d) once
