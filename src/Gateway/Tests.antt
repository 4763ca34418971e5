-- ===== src/Gateway/Tests.antt =====
-- The properties of this component at concrete inputs.
use video_calling.Base.{ℕ, ◌≡◌, refl, true, false, none, some, [], ◌∷◌, arith, lookup, non_empty}
use video_calling.Database.{Status, video, CallSession, ok, err, not_the_recipient}
use video_calling.Samples.{signed_in}
use video_calling.Audit.{log, is_valid_ip}
use video_calling.Sfu.{Sfu}
use video_calling.Calls.{
  CallDraw, find_by_id, accept_call, get_call_by_id, admit, update_status, add_participant,
}
use video_calling.Gateway.{SocketMeta, World, Timer, call_missed, get_meta}
use video_calling.Gateway.Connection.{Handshake, handle_disconnect}
use video_calling.Gateway.Calling.{
  accept_as, on_call_accept, on_timeout, is_other_target, rings_still,
}
use video_calling.Gateway.Answering.{on_call_accept-refused, on_call_accept-answered}
use video_calling.Gateway.Ringing.{on_timeout-missed}
use video_calling.Matchmaking.{TimedEntry}
use video_calling.Gateway.{broadcast_queue_status}
use video_calling.Gateway.Matching.{PairDraw, queued, status, join_queue, on_join_queue}
use video_calling.Gateway.Strangers.{IsAnswered}
use video_calling.Gateway.Joining.{on_join_queue-IsAnswered}
use video_calling.Gateway.Membership.{AreInStep}
use video_calling.Gateway.Presence.{handle_disconnect-AreInStep}

abbrev no_media : Sfu
no_media = record { loaded = false; workers = []; worker_index = 0; rooms = []; events = [] }

abbrev quiet : World
quiet = record {
  database = signed_in;
  redis = record { queue = []; sockets = [] };
  sfu = no_media;
  sockets = [];
  user_sockets = [];
  pending_call_targets = [];
  missed_call_timers = [];
  rooms = [];
  emitted = [];
}

abbrev stranger : SocketMeta
stranger = record {
  user_id = none;
  anonymous_id = 99;
  call_id = none;
  room_id = none;
  ip_address = [];
  user_agent = 0;
}

abbrev bob_here : SocketMeta
bob_here = record stranger { user_id = some 2 }

abbrev ringing : CallSession
ringing = record {
  id = 60;
  initiator_id = some 1;
  call_type = video;
  status = Status.initiated;
  is_anonymous = false;
  room_id = none;
  started_at = 0;
  answered_at = none;
  ended_at = none;
}

abbrev timer : Timer
timer = record { socket = 4; caller = record stranger { user_id = some 1 }; due = 30000 }

-- Bob is connected, and a call of Ada's rings for the user 7.
abbrev busy : World
busy = record quiet {
  database = record signed_in { call_sessions = ringing ∷ [] };
  sockets = (5, bob_here) ∷ [];
  user_sockets = (2, 5 ∷ []) ∷ [];
  pending_call_targets = (60, 7) ∷ [];
  missed_call_timers = (60, timer) ∷ [];
}

on_call_accept-refused_example :
    on_call_accept 70 5 10 60 video busy ≡ (err not_the_recipient, busy)
on_call_accept-refused_example =
    ((on_call_accept-refused 70 5 10 60 video busy).1 bob_here refl).1 2 7 refl refl (ground arith)
      (ground arith)

on_timeout-missed_example :
    let v : World = on_timeout 60 30000 busy in
    (lookup 60 v.missed_call_timers ≡ none)
    × (lookup 60 v.pending_call_targets ≡ none)
    × ((rings_still (some ringing) ≡ true)
        → (find_by_id 60 v.database
            ≡ some (record ringing { status = Status.missed; ended_at = some 30000 }))
          × (v.emitted ≡ (4, call_missed 60) ∷ []))
    × ((rings_still (some ringing) ≡ false) → (v.database ≡ busy.database) × (v.emitted ≡ []))
on_timeout-missed_example = on_timeout-missed 60 30000 busy timer ringing refl refl

abbrev draw : CallDraw
draw = record { call = 60; participant = 61; room = 62 }

abbrev strange : World
strange = record quiet { sockets = (5, stranger) ∷ [] }

abbrev hello : Handshake
hello = record { token = some 20; forwarded_for = none; address = none; user_agent = none }

in_step : AreInStep busy.sockets busy.user_sockets
in_step = record { same = λ u. λ s. ground arith; filled = λ u. λ ss. λ e. ground arith }

handle_disconnect-AreInStep_example :
    let v : World = handle_disconnect 5 10 busy in
    AreInStep v.sockets v.user_sockets × (lookup 5 v.sockets ≡ none)
handle_disconnect-AreInStep_example = handle_disconnect-AreInStep 5 10 busy bob_here refl in_step

-- Ada's call rings for Bob.
abbrev for_bob : World
for_bob = record busy { pending_call_targets = (60, 2) ∷ [] }

answers :
    on_call_accept 70 5 10 60 video for_bob ≡ (ok tt, (on_call_accept 70 5 10 60 video for_bob).1)
unfolding on_call_accept get_meta accept_as accept_call get_call_by_id admit update_status
    add_participant log is_valid_ip
answers = refl

on_call_accept-answered_example :
    let v : World = (on_call_accept 70 5 10 60 video for_bob).1 in
    (m : SocketMeta) × (u : ℕ) × (lookup 5 for_bob.sockets ≡ some m)
    × (non_empty m.user_id ≡ some u)
    × (is_other_target (lookup 60 for_bob.pending_call_targets) u ≡ false)
    × (lookup 60 v.missed_call_timers ≡ none)
    × (lookup 60 v.pending_call_targets ≡ none)
on_call_accept-answered_example =
    on_call_accept-answered 70 5 10 60 video for_bob (on_call_accept 70 5 10 60 video for_bob).1
      answers

abbrev waiting : TimedEntry
waiting = record {
  entry = record {
    anonymous_id = 98;
    user_id = some 1;
    socket_id = 4;
    preferred_type = video;
    is_anonymous = false;
  };
  enqueued_at = 100;
}

-- Ada waits, connected, and a stranger is connected.
abbrev one_waits : World
one_waits = record strange {
  redis = record { queue = waiting ∷ []; sockets = (4, waiting) ∷ [] };
  sockets = (5, stranger) ∷ (4, record stranger { user_id = some 1; anonymous_id = 98 }) ∷ [];
}

abbrev pair_draw : PairDraw
pair_draw = record { call = draw; guest = 64 }

on_join_queue-IsAnswered_example :
    (w' : World) × (on_join_queue pair_draw 5 200 (some video) one_waits
      ≡ (ok (status (join_queue 5 200 (some video) stranger one_waits)), broadcast_queue_status w'))
    × IsAnswered pair_draw 200 waiting.entry
        (queued 5 200 (some video) stranger)
        (join_queue 5 200 (some video) stranger one_waits)
        w'
on_join_queue-IsAnswered_example =
    on_join_queue-IsAnswered pair_draw 5 200 (some video) stranger waiting one_waits refl refl refl
      refl (record { fresh = refl; host_known = refl; guest_known = λ t. absurd (cc) })
