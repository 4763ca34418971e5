-- ===== src/Matchmaking.antt =====
-- src/matchmaking/matchmaking.service.ts. A queued string is the record that it serialises: the
-- parser gives back what was printed, and two strings are equal when the records are. The Redis
-- commands are the list and hash operations that they document; the Lua script is one step.
pub mod Queue
pub mod History
pub mod Fifo
mod Tests
use video_calling.Base.{
  ℕ, ◌+◌, ◌*◌, Bool, true, false, Option, none, some, List, [], ◌∷◌, ◌++◌, ltb, ◌==◌, ◌&&◌, ◌||◌,
  not, if◌then◌else◌, Assoc, lookup, insert, erase, length, or_else,
}
use video_calling.Database.{
  Database, CallType, voice, video, group, match_queued, match_found, match_cancelled, socket_typed,
  socket_only, users_matched,
}
use video_calling.Audit.{AuditEntry, log}

pub record QueueEntry : Type 0 where
  pub anonymous_id : ℕ
  pub user_id : Option ℕ
  pub socket_id : ℕ
  pub preferred_type : CallType
  pub is_anonymous : Bool

-- `{ ...entry, enqueuedAt }`, serialised.
pub record TimedEntry : Type 0 where
  pub entry : QueueEntry
  pub open entry use *
  pub enqueued_at : ℕ

-- `matchmaking:queue`, its left end first, and `matchmaking:sockets`.
pub record Redis : Type 0 where
  pub queue : List TimedEntry
  pub sockets : Assoc TimedEntry

pub record Store : Type 0 where
  pub redis : Redis
  pub database : Database

-- QUEUE_TTL * 1000
abbrev pub ttl_ms : ℕ
ttl_ms = 300 * 1000

-- Equality of two serialised entries.

abbrev pub same_type : CallType → CallType → Bool
same_type voice voice = true
same_type video video = true
same_type group group = true
same_type _ _ = false

abbrev same_bool : Bool → Bool → Bool
same_bool true b = b
same_bool false b = not b

abbrev same_option : Option ℕ → Option ℕ → Bool
same_option none none = true
same_option (some a) (some b) = a == b
same_option _ _ = false

unfoldable pub same_raw : TimedEntry → TimedEntry → Bool
same_raw a b =
    a.anonymous_id == b.anonymous_id
    && (same_option a.user_id b.user_id
        && (a.socket_id == b.socket_id
            && (same_type a.preferred_type b.preferred_type
                && (same_bool a.is_anonymous b.is_anonymous && a.enqueued_at == b.enqueued_at))))

-- LREM queue 1 raw: the first equal element.
unfoldable pub remove_first : TimedEntry → List TimedEntry → List TimedEntry
remove_first raw [] = []
remove_first raw (e ∷ queue) = if same_raw e raw then queue else e ∷ remove_first raw queue

abbrev pub timed : QueueEntry → (now : ℕ) → TimedEntry
timed entry now = record { entry = entry; enqueued_at = now }

abbrev pub pushed : TimedEntry → Redis → Redis
pushed e r = record { queue = r.queue ++ e ∷ []; sockets = insert e.socket_id e r.sockets }

-- The position is the length of the queue.
unfoldable pub enqueue : QueueEntry → (now : ℕ) → Store → ℕ × Store
enqueue entry now s =
    (length redis.queue, record { redis = redis; database = log now event s.database })
  where
    redis : Redis
    redis = pushed (timed entry now) s.redis

    event : AuditEntry
    event = record {
      user_id = entry.user_id;
      anonymous_id = some entry.anonymous_id;
      event_type = match_queued;
      payload = some (socket_typed entry.socket_id entry.preferred_type);
      ip_address = none;
      user_agent = none;
    }

-- `!enqueuedAt || now - enqueuedAt < ttlMs`
abbrev pub is_fresh : (now : ℕ) → TimedEntry → Bool
is_fresh now e = e.enqueued_at == 0 || ltb now (e.enqueued_at + ttl_ms)

abbrev name_of : QueueEntry → ℕ
name_of e = or_else e.user_id e.anonymous_id

-- What becomes of the two entries that were popped, over the rest of the queue.
unfoldable pub pair_up :
    (now : ℕ) (a b : TimedEntry)
    → List TimedEntry
    → Store
    → Option (QueueEntry × QueueEntry) × Store
pair_up now a b rest s =
    if not (is_fresh now a) && not (is_fresh now b)
    then (
      none,
      record s {
        redis = record { queue = rest; sockets = erase b.socket_id (erase a.socket_id sockets) };
      },
    )
    else if not (is_fresh now a)
    then (
      none,
      record s { redis = record { queue = b ∷ rest; sockets = erase a.socket_id sockets } },
    )
    else if not (is_fresh now b)
    then (
      none,
      record s { redis = record { queue = a ∷ rest; sockets = erase b.socket_id sockets } },
    )
    else (
      some (a.entry, b.entry),
      record {
        redis = record { queue = rest; sockets = erase b.socket_id (erase a.socket_id sockets) };
        database = log now event s.database;
      },
    )
  where
    sockets : Assoc TimedEntry
    sockets = s.redis.sockets

    event : AuditEntry
    event = record {
      user_id = none;
      anonymous_id = none;
      event_type = match_found;
      payload = some (users_matched (name_of a.entry) (name_of b.entry));
      ip_address = none;
      user_agent = none;
    }

unfoldable pub match_queue :
    (now : ℕ) → List TimedEntry → Store → Option (QueueEntry × QueueEntry) × Store
unfolding pair_up
match_queue now [] s = (none, s)
match_queue now (a ∷ []) s = (none, s)
match_queue now (a ∷ b ∷ rest) s = pair_up now a b rest s

unfoldable pub try_match : (now : ℕ) → Store → Option (QueueEntry × QueueEntry) × Store
unfolding match_queue
try_match now s = match_queue now s.redis.queue s

dequeue_raw : (socket_id now : ℕ) → Option TimedEntry → Store → Store
unfolding remove_first
dequeue_raw socket_id now none s = s
dequeue_raw socket_id now (some raw) s = record {
  redis = record {
    queue = remove_first raw s.redis.queue;
    sockets = erase socket_id s.redis.sockets;
  };
  database = log now event s.database;
}
  where
    event : AuditEntry
    event = record {
      user_id = raw.user_id;
      anonymous_id = some raw.anonymous_id;
      event_type = match_cancelled;
      payload = some (socket_only socket_id);
      ip_address = none;
      user_agent = none;
    }

unfoldable pub dequeue : (socket_id now : ℕ) → Store → Store
unfolding dequeue_raw
dequeue socket_id now s = dequeue_raw socket_id now (lookup socket_id s.redis.sockets) s

unfoldable pub queue_depth : Store → ℕ
queue_depth s = length s.redis.queue
