-- ===== src/Calls.antt =====
-- src/calls: calls.repository.ts and calls.service.ts. The defaults of the columns are those of
-- src/database/migrations/002_create_comms_tables.sql; `gen_random_uuid()` and `uuidv4()` are
-- arguments, as is NOW(), and `duration_seconds`, which the server computes, is left out.
pub mod Participants
pub mod Rows
pub mod Lifecycle
pub mod Initiate
pub mod Accept
pub mod Anonymity
pub mod History
mod Tests
use video_calling.Base.{
  ℕ, ◌+◌, Bool, true, false, not, ◌&&◌, ◌||◌, Option, none, some, List, [], ◌∷◌, ◌++◌,
  if◌then◌else◌, ◌==◌, eq_some, or_else, or_option, is_some, truthy_option, find_row, update_where,
  select_where, exists_where,
}
use video_calling.Database.{
  Text, Database, CallType, voice, video, group, Status, initiated, active, CallSession, Role, host,
  guest, Participant, call_initiated, call_accepted, call_rejected, call_ended, call_missed,
  call_upgraded, call_downgraded, media_mic_toggled, media_camera_toggled, EventType, call_created,
  call_only, call_retyped, mic_set, camera_set, Payload, Result, ok, err, Action, pure, throw, gets,
  or_throw, modify, ◌>>=◌, ◌>>◌, not_found, call_not_found, fk_violation, user_exists_or_null,
}
use video_calling.Audit.{AuditEntry, log}

-- Calls repository

unfoldable pub create_session :
    (id now : ℕ) (initiator_id : Option ℕ) (call_type : CallType) (is_anonymous : Bool)
    (room_id : Option ℕ)
    → Action Database CallSession
create_session id now initiator_id call_type is_anonymous room_id d =
    if user_exists_or_null initiator_id d
    then (ok row, record d { call_sessions = d.call_sessions ++ row ∷ [] })
    else (err fk_violation, d)
  where
    row : CallSession
    row = record {
      id = id;
      initiator_id = initiator_id;
      call_type = call_type;
      status = initiated;
      is_anonymous = is_anonymous;
      room_id = room_id;
      started_at = now;
      answered_at = none;
      ended_at = none;
    }

-- `extra` of updateStatus; no caller passes `roomId`.
pub record Extra : Type 0 where
  pub answered : Bool
  pub ended : Bool

abbrev pub restatus : (now : ℕ) → Status → Extra → CallSession → CallSession
restatus now status extra c = record c {
  status = status;
  answered_at = if extra.answered then some now else c.answered_at;
  ended_at = if extra.ended then some now else c.ended_at;
}

unfoldable pub update_status : (now call_id : ℕ) → Status → Extra → Database → Database
update_status now call_id status extra d = record d {
  call_sessions = update_where (λ c. c.id == call_id) (restatus now status extra) d.call_sessions;
}

abbrev pub find_by_id : ℕ → Database → Option CallSession
find_by_id id d = find_row (λ c. c.id == id) d.call_sessions

unfoldable pub add_participant :
    (id now call_session_id : ℕ) (user_id anonymous_id : Option ℕ) (role : Role)
    (camera_enabled : Bool)
    → Action Database Participant
add_participant id now call_session_id user_id anonymous_id role camera_enabled d =
    if is_some (find_by_id call_session_id d) && user_exists_or_null user_id d
    then (ok row, record d { call_participants = d.call_participants ++ row ∷ [] })
    else (err fk_violation, d)
  where
    row : Participant
    row = record {
      id = id;
      call_session_id = call_session_id;
      user_id = user_id;
      anonymous_id = anonymous_id;
      role = role;
      joined_at = now;
      left_at = none;
      mic_enabled = true;
      camera_enabled = camera_enabled;
    }

-- `anonymous_id = $2` if an anonymous id is given, else `user_id = $2`.
abbrev pub identified : (user_id : ℕ) (anonymous_id : Option ℕ) → Participant → Bool
identified user_id none p = eq_some p.user_id user_id
identified user_id (some a) p =
    if a == 0 then eq_some p.user_id user_id else eq_some p.anonymous_id a

-- `call_session_id = $1 AND … AND left_at IS NULL`
abbrev pub is_present : (call_id user_id : ℕ) (anonymous_id : Option ℕ) → Participant → Bool
is_present call_id user_id anonymous_id p =
    p.call_session_id == call_id && (identified user_id anonymous_id p && not (is_some p.left_at))

-- With nothing to set no statement is sent, and the update is of no column.
abbrev pub with_media : (mic camera : Option Bool) → Participant → Participant
with_media mic camera p = record p {
  mic_enabled = or_else mic p.mic_enabled;
  camera_enabled = or_else camera p.camera_enabled;
}

unfoldable pub update_participant_media :
    (call_id user_id : ℕ) (mic camera : Option Bool) (anonymous_id : Option ℕ) → Database → Database
update_participant_media call_id user_id mic camera anonymous_id d =
    if not (is_some mic) && not (is_some camera) then d else record d {
      call_participants =
          update_where (is_present call_id user_id anonymous_id) (with_media mic camera)
            d.call_participants;
    }

abbrev pub departed : (now : ℕ) → Participant → Participant
departed now p = record p { left_at = some now }

unfoldable pub mark_participant_left :
    (now call_id user_id : ℕ) (anonymous_id : Option ℕ) → Database → Database
mark_participant_left now call_id user_id anonymous_id d = record d {
  call_participants =
      update_where (is_present call_id user_id anonymous_id) (departed now) d.call_participants;
}

abbrev pub get_participants : ℕ → Database → List Participant
get_participants call_id d = select_where (λ p. p.call_session_id == call_id) d.call_participants

-- Calls service

-- The caller's address and user agent.
pub record Origin : Type 0 where
  pub ip_address : Text
  pub user_agent : ℕ

-- The ids that the server draws for the rows, and `uuidv4()` for the room.
pub record CallDraw : Type 0 where
  pub call : ℕ
  pub participant : ℕ
  pub room : ℕ

abbrev is_group : CallType → Bool
is_group group = true
is_group _ = false

abbrev is_video : CallType → Bool
is_video video = true
is_video _ = false

abbrev is_voice : CallType → Bool
is_voice voice = true
is_voice _ = false

abbrev call_event : (user_id : Option ℕ) → EventType → Payload → Origin → AuditEntry
call_event user_id event_type payload from = record {
  user_id = user_id;
  anonymous_id = none;
  event_type = event_type;
  payload = some payload;
  ip_address = some from.ip_address;
  user_agent = some from.user_agent;
}

abbrev pub host_participant :
    CallDraw
    → (now : ℕ) (initiator_id anonymous_id : Option ℕ) (call_type : CallType) (is_anonymous : Bool)
    → CallSession
    → Action Database Participant
host_participant draw now initiator_id anonymous_id call_type is_anonymous session =
    add_participant draw.participant now session.id (if is_anonymous then none else initiator_id)
      (if is_anonymous then or_option anonymous_id initiator_id else none) host
      (not (is_voice call_type))

abbrev pub host_event :
    (initiator_id : Option ℕ) (call_type : CallType) (is_anonymous : Bool)
    → Origin
    → CallSession
    → AuditEntry
host_event initiator_id call_type is_anonymous from session =
    call_event initiator_id call_initiated (call_created session.id call_type is_anonymous) from

unfoldable pub host_call :
    CallDraw
    → (now : ℕ) (initiator_id anonymous_id : Option ℕ) (call_type : CallType) (is_anonymous : Bool)
    → Origin
    → CallSession
    → Action Database CallSession
host_call draw now initiator_id anonymous_id call_type is_anonymous from session =
    host_participant draw now initiator_id anonymous_id call_type is_anonymous session
    >> modify (log now (host_event initiator_id call_type is_anonymous from session))
    >> pure session

unfoldable pub initiate_call :
    CallDraw
    → (now : ℕ) (initiator_id anonymous_id : Option ℕ) (call_type : CallType) (is_anonymous : Bool)
    → Origin
    → Action Database CallSession
initiate_call draw now initiator_id anonymous_id call_type is_anonymous from =
    create_session draw.call now initiator_id call_type is_anonymous
      (if is_group call_type then some draw.room else none)
    >>= host_call draw now initiator_id anonymous_id call_type is_anonymous from

unfoldable pub get_call_by_id : ℕ → Action Database CallSession
get_call_by_id call_id =
    gets (find_by_id call_id) >>= λ session. or_throw session (not_found call_not_found)

abbrev pub activate : (now call_id : ℕ) → Database → Database
activate now call_id = update_status now call_id active (record { answered = true; ended = false })

abbrev pub guest_participant :
    (participant now call_id : ℕ) (user_id anonymous_id : Option ℕ) (is_anonymous : Bool)
    (call_type : CallType)
    → Action Database Participant
guest_participant participant now call_id user_id anonymous_id is_anonymous call_type =
    add_participant participant now call_id (if is_anonymous then none else user_id)
      (if is_anonymous then or_option anonymous_id user_id else none) guest (is_video call_type)

abbrev pub guest_event :
    (call_id : ℕ) (user_id : Option ℕ) (is_anonymous : Bool) → Origin → AuditEntry
guest_event call_id user_id is_anonymous from =
    call_event (if is_anonymous then none else user_id) call_accepted (call_only call_id) from

-- acceptCall once the call is found. The call that it reads at the end is there still.
unfoldable pub admit :
    (participant now call_id : ℕ) (user_id anonymous_id : Option ℕ) (is_anonymous : Bool)
    (call_type : CallType)
    → Origin
    → Action Database CallSession
admit participant now call_id user_id anonymous_id is_anonymous call_type from =
    modify (activate now call_id)
    >> (guest_participant participant now call_id user_id anonymous_id is_anonymous call_type
        >> modify (log now (guest_event call_id user_id is_anonymous from)))
    >> get_call_by_id call_id

unfoldable pub accept_call :
    (participant now call_id : ℕ) (user_id anonymous_id : Option ℕ) (is_anonymous : Option Bool)
    (call_type : CallType)
    → Origin
    → Action Database CallSession
accept_call participant now call_id user_id anonymous_id is_anonymous call_type from =
    get_call_by_id call_id
    >> admit participant now call_id user_id anonymous_id
        (or_else is_anonymous (not (truthy_option user_id))) call_type from

-- `'ended' | 'rejected' | 'missed'`
pub data Reason : Type 0 where
  hung_up turned_down unanswered : Reason

abbrev pub final_status : Reason → Status
final_status hung_up = Status.ended
final_status turned_down = Status.rejected
final_status unanswered = Status.missed

abbrev pub final_event : Reason → EventType
final_event hung_up = call_ended
final_event turned_down = call_rejected
final_event unanswered = call_missed

abbrev pub ending : Extra
ending = record { answered = false; ended = true }

unfoldable pub end_call :
    (now call_id user_id : ℕ) (anonymous_id : Option ℕ) → Reason → Origin → Database → Database
end_call now call_id user_id anonymous_id reason from d =
    let finished = update_status now call_id (final_status reason) ending d in
    let left = mark_participant_left now call_id user_id anonymous_id finished in
    log now (call_event (some user_id) (final_event reason) (call_only call_id) from) left

unfoldable pub toggle_call_type :
    (now call_id user_id : ℕ) (new_type : CallType) → Origin → Database → Database
toggle_call_type now call_id user_id new_type from d =
    log now
      (call_event (some user_id) (if is_video new_type then call_upgraded else call_downgraded)
        (call_retyped call_id new_type) from)
      (update_status now call_id active (record { answered = false; ended = false }) d)

-- One audit row for each switch that is set.
abbrev pub log_switch :
    (now user_id : ℕ) → EventType → (Bool → Payload) → Option Bool → Database → Database
log_switch now user_id event_type payload none d = d
log_switch now user_id event_type payload (some value) d =
    log now
      (record {
        user_id = some user_id;
        anonymous_id = none;
        event_type = event_type;
        payload = some (payload value);
        ip_address = none;
        user_agent = none;
      })
      d

unfoldable pub toggle_media :
    (now call_id user_id : ℕ) (anonymous_id : Option ℕ) (mic camera : Option Bool)
    → Database
    → Database
toggle_media now call_id user_id anonymous_id mic camera d =
    log_switch now user_id media_camera_toggled (camera_set call_id) camera (
      log_switch now user_id media_mic_toggled (mic_set call_id) mic
        (update_participant_media call_id user_id mic camera anonymous_id d))
