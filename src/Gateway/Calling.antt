-- ===== src/Gateway/Calling.antt =====
-- src/gateway/signaling.gateway.ts: the events of 1:1 calls, the relay and the media controls.
use video_calling.Base.{
  ℕ, ◌+◌, Bool, true, false, not, ◌&&◌, Option, none, some, [], if◌then◌else◌, ◌==◌, lookup, insert,
  truthy, truthy_option, or_else, non_empty,
}
use video_calling.Database.{
  CallType, Status, initiated, CallSession, Action, pure, gets, modify, throw_if, or_throw, ◌>>=◌,
  ◌>>◌, target_missing, target_unknown, authentication_required, not_the_recipient,
}
use video_calling.Users.{find_by_email}
use video_calling.Calls.{
  CallDraw, initiate_call, accept_call, end_call, find_by_id, toggle_call_type, toggle_media,
  turned_down, unanswered, Reason,
}
use video_calling.Gateway.{
  SocketMeta, World, Timer, hung_up, call_incoming, call_accepted, call_rejected, call_missed,
  call_ended, call_type_changed, signal_offer, signal_answer, signal_ice, participant_media,
  on_database, with_database, send_all, emit_to_room, emit_to_others, emit_to_socket, join_room,
  leave_room, get_meta, name, anonymous_name, origin, set_meta, set_call, cancel_timer,
  forget_target,
}

-- `normalize` is `trim().toLowerCase()` of an e-mail address.
abbrev pub find_user : (email : ℕ) → Action World (Option ℕ)
find_user email = gets (λ w. find_by_email email w.database) >>= λ user.
    or_throw user target_unknown >>= λ u. pure (some u.id)

abbrev pub find_target :
    (normalize : ℕ → ℕ) (target_email target_user_id : Option ℕ) → Action World (Option ℕ)
find_target normalize none target_user_id = pure target_user_id
find_target normalize (some email) target_user_id =
    if truthy email then find_user (normalize email) else pure target_user_id

-- 30_000
abbrev pub missed_after : ℕ
missed_after = 30000

-- Everything that follows the creation of the session.
unfoldable pub ring : (socket now target : ℕ) → CallType → SocketMeta → CallSession → World → World
ring socket now target call_type meta session w =
    let joined = join_room session.id socket (set_meta socket (set_call (some session.id)) w) in
    let tracked : World = record joined {
      pending_call_targets = insert session.id target joined.pending_call_targets;
    } in
    let told : World =
      send_all (or_else (lookup target w.user_sockets) [])
        (call_incoming session.id meta.user_id call_type) tracked in
    record told {
      missed_call_timers =
          insert session.id (record { socket = socket; caller = meta; due = now + missed_after })
            told.missed_call_timers;
    }

unfoldable pub place_call :
    CallDraw → (socket now : ℕ) → CallType → SocketMeta → (target : ℕ) → Action World ℕ
place_call draw socket now call_type meta target =
    on_database (
      initiate_call draw now (some (name meta)) (anonymous_name meta) call_type
        (not (truthy_option meta.user_id)) (origin meta))
    >>= λ session. modify (ring socket now target call_type meta session) >> pure session.id

-- The result is the call's id.
unfoldable pub on_call_initiate :
    (normalize : ℕ → ℕ)
    → CallDraw
    → (socket now : ℕ) (target_email target_user_id : Option ℕ) → CallType
    → Action World ℕ
on_call_initiate normalize draw socket now target_email target_user_id call_type =
    get_meta socket >>= λ meta. find_target normalize target_email target_user_id >>= λ target.
    or_throw (non_empty target) target_missing >>= λ target_id.
    place_call draw socket now call_type meta target_id

-- The callback of the timer, when it is due. A timer that was cleared is not in the map.
abbrev is_initiated : Status → Bool
is_initiated initiated = true
is_initiated _ = false

abbrev pub rings_still : Option CallSession → Bool
rings_still none = false
rings_still (some c) = is_initiated c.status

abbrev pub give_up : (call_id now : ℕ) → Timer → World → World
give_up call_id now t w =
    if rings_still (find_by_id call_id w.database)
    then emit_to_socket t.socket (call_missed call_id) (
        with_database
          (end_call now call_id (name t.caller) (anonymous_name t.caller) unanswered
            (origin t.caller))
          w)
    else w

abbrev pub fire : (call_id now : ℕ) → Option Timer → World → World
fire call_id now none w = w
fire call_id now (some t) w = give_up call_id now t (forget_target call_id (cancel_timer call_id w))

unfoldable pub on_timeout : (call_id now : ℕ) → World → World
on_timeout call_id now w = fire call_id now (lookup call_id w.missed_call_timers) w

-- `!meta.userId`
abbrev pub require_user : SocketMeta → Action World ℕ
require_user meta = or_throw (non_empty meta.user_id) authentication_required

-- `expectedTarget && expectedTarget !== meta.userId`
abbrev pub is_other_target : Option ℕ → (user_id : ℕ) → Bool
is_other_target none user_id = false
is_other_target (some expected) user_id = truthy expected && not (expected == user_id)

unfoldable pub answer : (socket user_id call_id : ℕ) → CallSession → World → World
answer socket user_id call_id session w =
    emit_to_room call_id (call_accepted call_id user_id session.initiator_id) (
      forget_target call_id (
        cancel_timer call_id
          (join_room call_id socket (set_meta socket (set_call (some call_id)) w))))

unfoldable pub accept_as :
    (participant socket now call_id : ℕ)
    → CallType
    → SocketMeta
    → (user_id : ℕ) → Action World (Unit {0})
accept_as participant socket now call_id call_type meta user_id =
    gets (λ w. is_other_target (lookup call_id w.pending_call_targets) user_id) >>= λ other.
    throw_if other not_the_recipient
    >> on_database
        (accept_call participant now call_id (some user_id) none none call_type (origin meta))
    >>= λ session. modify (answer socket user_id call_id session)

unfoldable pub on_call_accept :
    (participant socket now call_id : ℕ) → CallType → Action World (Unit {0})
on_call_accept participant socket now call_id call_type = get_meta socket >>= λ meta.
    require_user meta >>= accept_as participant socket now call_id call_type meta

unfoldable pub turn_down : (now call_id user_id : ℕ) → SocketMeta → World → World
turn_down now call_id user_id meta w = emit_to_room call_id (call_rejected call_id) (
    forget_target call_id (
      cancel_timer call_id
        (with_database (end_call now call_id user_id none turned_down (origin meta)) w)))

unfoldable pub on_call_reject : (socket now call_id : ℕ) → Action World (Unit {0})
on_call_reject socket now call_id = get_meta socket >>= λ meta.
    require_user meta >>= λ user_id. modify (turn_down now call_id user_id meta)

unfoldable pub hang_up : (socket now call_id : ℕ) → SocketMeta → World → World
hang_up socket now call_id meta w = set_meta socket (set_call none) (
    leave_room call_id socket (
      emit_to_room call_id (call_ended call_id hung_up) (
        forget_target call_id (
          cancel_timer call_id (
            with_database
              (end_call now call_id (name meta) (anonymous_name meta) Reason.hung_up (origin meta))
              w)))))

unfoldable pub on_call_end : (socket now call_id : ℕ) → Action World (Unit {0})
on_call_end socket now call_id =
    get_meta socket >>= λ meta. modify (hang_up socket now call_id meta)

-- The relay looks nothing up: a description or a candidate goes to the others in the call's room.

unfoldable pub on_offer : (socket call_id sdp : ℕ) → World → World
on_offer socket call_id sdp = emit_to_others call_id socket (signal_offer call_id sdp)

unfoldable pub on_answer : (socket call_id sdp : ℕ) → World → World
on_answer socket call_id sdp = emit_to_others call_id socket (signal_answer call_id sdp)

unfoldable pub on_ice : (socket call_id candidate : ℕ) → World → World
on_ice socket call_id candidate = emit_to_others call_id socket (signal_ice call_id candidate)

unfoldable pub on_media_toggle :
    (socket now call_id : ℕ) (mic camera : Option Bool) → Action World (Unit {0})
on_media_toggle socket now call_id mic camera = get_meta socket >>= λ meta.
    modify (with_database (toggle_media now call_id (name meta) (anonymous_name meta) mic camera))
    >> modify (emit_to_others call_id socket (participant_media socket meta.user_id mic camera))

unfoldable pub on_switch_type : (socket now call_id : ℕ) → CallType → Action World (Unit {0})
on_switch_type socket now call_id new_type = get_meta socket >>= λ meta.
    modify (with_database (toggle_call_type now call_id (name meta) new_type (origin meta)))
    >> modify (emit_to_room call_id (call_type_changed call_id new_type))
