-- ===== src/Matchmaking/Queue.antt =====
-- The invariant of the waiting queue and its socket index, operation by operation.
use video_calling.Base.{
  ℕ, ◌≡◌, inl, inr, refl, ◌∙◌, sym, ap, subst, Bool, true, false, none, some, List, [], ◌∷◌, ◌++◌,
  arith, ◌==◌, if◌then◌else◌, lookup, erase, lookup-insert, lookup-erase, find_row, find_row-append,
  find_row-holds, ==_iff, Bool-cases, Option-cases,
}
use video_calling.Matchmaking.{
  QueueEntry, TimedEntry, Redis, Store, same_raw, remove_first, timed, pushed, enqueue, match_queue,
  try_match, dequeue_raw, dequeue,
}

abbrev pub of_socket : ℕ → TimedEntry → Bool
of_socket s e = e.socket_id == s

-- No socket waits twice.
abbrev pub HasDistinctSockets : List TimedEntry → Type 0
HasDistinctSockets [] = Unit
HasDistinctSockets (e ∷ queue) =
    (find_row (of_socket e.socket_id) queue ≡ none) × HasDistinctSockets queue

-- The index has exactly the entries that wait, each under its socket, and no socket waits twice.
pub record IsIndexed (r : Redis) : Type 0 where
  pub indexed : (s : ℕ) → lookup s r.sockets ≡ find_row (of_socket s) r.queue
  pub distinct : HasDistinctSockets r.queue

distinct-push :
    (e : TimedEntry) (queue : List TimedEntry)
    → find_row (of_socket e.socket_id) queue ≡ none
    → HasDistinctSockets queue
    → HasDistinctSockets (queue ++ e ∷ [])
distinct-push e [] new h = (refl, tt)
distinct-push e (x ∷ queue) new h = (
  find_row-append (of_socket x.socket_id) queue (e ∷ []) h.0 ∙ ground arith,
  distinct-push e queue (ground arith) h.1,
)

find-push :
    (s : ℕ) (e : TimedEntry) (queue : List TimedEntry)
    → find_row (of_socket e.socket_id) queue ≡ none
    → find_row (of_socket s) (queue ++ e ∷ [])
      ≡ (if e.socket_id == s then some e else find_row (of_socket s) queue)
find-push s e [] new = refl
find-push s e (x ∷ queue) new = ground (arith, find-push s e queue)

pub pushed-IsIndexed :
    (e : TimedEntry) (r : Redis)
    → lookup e.socket_id r.sockets ≡ none
    → IsIndexed r
    → IsIndexed (pushed e r)
pushed-IsIndexed e r new v =
    let absent : find_row (of_socket e.socket_id) r.queue ≡ none =
      sym (v.indexed e.socket_id) ∙ new in
    record {
      indexed = λ s. ground (
        arith,
        lookup-insert e.socket_id s e r.sockets,
        find-push s e r.queue absent,
        v.indexed s,
      );
      distinct = distinct-push e r.queue absent v.distinct;
    }

-- A socket that does not wait, under an equal name.
absent-find :
    (k s : ℕ) (queue : List TimedEntry)
    → find_row (of_socket k) queue ≡ none
    → k ≡ s
    → find_row (of_socket s) queue ≡ none
absent-find k s queue h e = subst (λ x. find_row (of_socket x) queue ≡ none) e h

-- The two entries at the left end are taken off, and one of them or none is put back.
pub popped-IsIndexed :
    (a b : TimedEntry) (rest : List TimedEntry) (r : Redis)
    → r.queue ≡ a ∷ b ∷ rest
    → IsIndexed r
    → IsIndexed (record { queue = rest; sockets = erase b.socket_id (erase a.socket_id r.sockets) })
      × IsIndexed (record { queue = b ∷ rest; sockets = erase a.socket_id r.sockets })
      × IsIndexed (record { queue = a ∷ rest; sockets = erase b.socket_id r.sockets })
popped-IsIndexed a b rest r e v =
    let distinct : HasDistinctSockets (a ∷ b ∷ rest) = subst HasDistinctSockets e v.distinct in
    let indexed : (s : ℕ) → lookup s r.sockets ≡ find_row (of_socket s) (a ∷ b ∷ rest) =
      λ s. v.indexed s ∙ ap (find_row (of_socket s)) e in
    (
      record {
        indexed = λ s. ground (
          arith,
          indexed s,
          absent-find a.socket_id s rest,
          absent-find b.socket_id s rest,
          lookup-erase b.socket_id s (erase a.socket_id r.sockets),
          lookup-erase a.socket_id s r.sockets,
        );
        distinct = distinct.1.1;
      },
      record {
        indexed = λ s. ground (
          arith,
          indexed s,
          absent-find a.socket_id s rest,
          lookup-erase a.socket_id s r.sockets,
        );
        distinct = distinct.1;
      },
      record {
        indexed = λ s. ground (
          arith,
          indexed s,
          absent-find b.socket_id s rest,
          lookup-erase b.socket_id s r.sockets,
        );
        distinct = (ground arith, distinct.1.1);
      },
    )

pub same_raw_self : (e : TimedEntry) → same_raw e e ≡ true
unfolding same_raw
same_raw_self e = ground arith

pub same_raw-socket : (a b : TimedEntry) → same_raw a b ≡ true → a.socket_id ≡ b.socket_id
unfolding same_raw
same_raw-socket a b h = ground arith

-- Removing the entry that a socket waits with leaves every other socket's entry.
find-remove :
    (k s : ℕ) (raw : TimedEntry) (queue : List TimedEntry)
    → HasDistinctSockets queue
    → find_row (of_socket k) queue ≡ some raw
    → find_row (of_socket s) (remove_first raw queue)
      ≡ (if k == s then none else find_row (of_socket s) queue)
unfolding remove_first
find-remove k s raw [] h e = absurd (cc)
find-remove k s raw (x ∷ queue) h e = elim (Bool-cases (same_raw x raw)) [
  | inl same ↦
      let socket : raw.socket_id ≡ k =
        (==_iff raw.socket_id k).0 (find_row-holds (of_socket k) (x ∷ queue) {x = raw} e) in
      rw same (ground (arith, same_raw-socket x raw same, absent-find x.socket_id s queue h.0))
  | inr other ↦
      let apart : (x.socket_id == k) ≡ false = ground (arith, same_raw_self x) in
      rw other (ground (arith, find-remove k s raw queue h.1))
]

remove-absent :
    (s : ℕ) (raw : TimedEntry) (queue : List TimedEntry)
    → find_row (of_socket s) queue ≡ none
    → find_row (of_socket s) (remove_first raw queue) ≡ none
unfolding remove_first
remove-absent s raw [] h = refl
remove-absent s raw (x ∷ queue) h = ground (arith, remove-absent s raw queue)

distinct-remove :
    (raw : TimedEntry) (queue : List TimedEntry)
    → HasDistinctSockets queue
    → HasDistinctSockets (remove_first raw queue)
unfolding remove_first
distinct-remove raw [] h = tt
distinct-remove raw (x ∷ queue) h =
    ground (arith, remove-absent x.socket_id raw queue h.0, distinct-remove raw queue h.1)

-- A socket that does not wait yet joins.
pub enqueue-IsIndexed :
    (entry : QueueEntry) (now : ℕ) (s : Store)
    → lookup entry.socket_id s.redis.sockets ≡ none
    → IsIndexed s.redis
    → IsIndexed (enqueue entry now s).1.redis
unfolding enqueue
enqueue-IsIndexed entry now s new v = pushed-IsIndexed (timed entry now) s.redis new v

match_queue-IsIndexed :
    (now : ℕ) (queue : List TimedEntry) (s : Store)
    → s.redis.queue ≡ queue
    → IsIndexed s.redis
    → IsIndexed (match_queue now queue s).1.redis
unfolding match_queue
match_queue-IsIndexed now [] s e v = v
match_queue-IsIndexed now (a ∷ []) s e v = v
match_queue-IsIndexed now (a ∷ b ∷ rest) s e v =
    ground (arith, popped-IsIndexed a b rest s.redis e v)

pub try_match-IsIndexed :
    (now : ℕ) (s : Store) → IsIndexed s.redis → IsIndexed (try_match now s).1.redis
unfolding try_match
try_match-IsIndexed now s v = match_queue-IsIndexed now s.redis.queue s refl v

pub dequeue-IsIndexed :
    (socket_id now : ℕ) (s : Store) → IsIndexed s.redis → IsIndexed (dequeue socket_id now s).redis
unfolding dequeue
dequeue-IsIndexed socket_id now s v = elim (Option-cases (lookup socket_id s.redis.sockets)) [
  | inl absent ↦ rw (absent, dequeue_raw) v
  | inr (raw, waits) ↦
      rw (waits, dequeue_raw)
        (record {
          indexed = λ k.
              lookup-erase socket_id k s.redis.sockets
              ∙ (ground (arith, v.indexed k)
                  ∙ sym (
                      find-remove socket_id k raw s.redis.queue v.distinct
                        (sym (v.indexed socket_id) ∙ waits)));
          distinct = distinct-remove raw s.redis.queue v.distinct;
        })
]
