-- ===== src/Matchmaking/Tests.antt =====
-- The properties of this component at concrete inputs.
use video_calling.Base.{◌≡◌, refl, true, none, some, List, [], ◌∷◌, arith, lookup}
use video_calling.Database.{voice, video}
use video_calling.Samples.{empty}
use video_calling.Matchmaking.{QueueEntry, Store, timed, enqueue, try_match, match_queue, pair_up}
use video_calling.Matchmaking.Fifo.{
  joins, pairs, leaves, Request, run_all, promised_all, run_all-promised,
}
use video_calling.Matchmaking.History.{IsReachable, start, join, enqueue-twice}

abbrev fresh_store : Store
fresh_store = record { redis = record { queue = []; sockets = [] }; database = empty }

abbrev ann : QueueEntry
ann = record {
  anonymous_id = 11;
  user_id = none;
  socket_id = 1;
  preferred_type = voice;
  is_anonymous = true;
}

abbrev ben : QueueEntry
ben = record {
  anonymous_id = 12;
  user_id = none;
  socket_id = 2;
  preferred_type = video;
  is_anonymous = true;
}

abbrev one_waits : Store
one_waits = (enqueue ann 100 fresh_store).1

abbrev two_wait : Store
two_wait = (enqueue ben 200 one_waits).1

is_absent : lookup 2 one_waits.redis.sockets ≡ none
unfolding enqueue
is_absent = refl

waits : IsReachable two_wait
waits = join ben 200 one_waits is_absent (join ann 100 fresh_store refl (start empty))

is_match : try_match 300 two_wait ≡ (some (ann, ben), (try_match 300 two_wait).1)
unfolding try_match match_queue pair_up enqueue
is_match = refl

queue_of_two : two_wait.redis.queue ≡ timed ann 100 ∷ timed ben 200 ∷ []
unfolding enqueue
queue_of_two = refl

enqueue-twice_example :
    (try_match 200 (enqueue ann 200 (enqueue ann 100 fresh_store).1).1).0 ≡ some (ann, ann)
enqueue-twice_example = enqueue-twice ann 100 200 fresh_store refl (omega arith)

-- Ann joins, Ben joins, Ann leaves and joins again, and the two are matched, Ben first.
abbrev history : List Request
history = joins ann 100 ∷ joins ben 200 ∷ leaves 1 250 ∷ joins ann 260 ∷ pairs 300 ∷ []

run_all-promised_example :
    ((run_all history fresh_store).0 ≡ (promised_all history []).0)
    × ((run_all history fresh_store).1.redis.queue ≡ (promised_all history []).1)
run_all-promised_example = run_all-promised history empty (refl, (refl, (tt, (refl, (tt, tt)))))
