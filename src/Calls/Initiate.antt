-- ===== src/Calls/Initiate.antt =====
-- What starting a call returns and stores, on every branch.
use video_calling.Base.{
  ℕ, ◌≡◌, refl, ◌∙◌, ap, Bool, true, false, not, Option, none, some, [], ◌∷◌, ◌++◌, ◌==◌,
  find_row-append, if◌then◌else◌, or_option, ==-self,
}
use video_calling.Database.{
  Database, CallType, initiated, CallSession, host, Participant, user_exists_or_null, fk_violation,
  ok, err, >>=-ok, >>=-err, pure, modify, ◌>>◌,
}
use video_calling.Audit.{AuditEntry, log}
use video_calling.Audit.Append.{log-KeepsRest}
use video_calling.Calls.{
  create_session, find_by_id, add_participant, Origin, CallDraw, host_participant, host_event,
  host_call, initiate_call, is_group, is_voice,
}

-- The row of a call that starts.
abbrev pub new_call :
    CallDraw
    → (now : ℕ) (initiator_id : Option ℕ) (call_type : CallType) (is_anonymous : Bool) → CallSession
new_call draw now initiator_id call_type is_anonymous = record {
  id = draw.call;
  initiator_id = initiator_id;
  call_type = call_type;
  status = initiated;
  is_anonymous = is_anonymous;
  room_id = if is_group call_type then some draw.room else none;
  started_at = now;
  answered_at = none;
  ended_at = none;
}

-- The participation of its host.
abbrev pub new_host :
    CallDraw
    → (now : ℕ) (initiator_id anonymous_id : Option ℕ) (call_type : CallType) (is_anonymous : Bool)
    → Participant
new_host draw now initiator_id anonymous_id call_type is_anonymous = record {
  id = draw.participant;
  call_session_id = draw.call;
  user_id = if is_anonymous then none else initiator_id;
  anonymous_id = if is_anonymous then or_option anonymous_id initiator_id else none;
  role = host;
  joined_at = now;
  left_at = none;
  mic_enabled = true;
  camera_enabled = not (is_voice call_type);
}

known_or_anonymous :
    (anonymous : Bool) (u : Option ℕ) (d : Database)
    → user_exists_or_null u d ≡ true
    → user_exists_or_null (if anonymous then none else u) d ≡ true
known_or_anonymous true u d h = refl
known_or_anonymous false u d h = h

abbrev pub with_call : CallSession → Database → Database
with_call c d = record d { call_sessions = d.call_sessions ++ c ∷ [] }

abbrev pub with_participant : Participant → Database → Database
with_participant p d = record d { call_participants = d.call_participants ++ p ∷ [] }

create_session-ok :
    (draw : CallDraw) (now : ℕ) (i : Option ℕ) (t : CallType) (anonymous : Bool) (d : Database)
    → user_exists_or_null i d ≡ true
    → create_session draw.call now i t anonymous (if is_group t then some draw.room else none) d
      ≡ (ok (new_call draw now i t anonymous), with_call (new_call draw now i t anonymous) d)
unfolding create_session
create_session-ok draw now i t anonymous d known = rw known refl

create_session-err :
    (id now : ℕ) (i : Option ℕ) (t : CallType) (anonymous : Bool) (room : Option ℕ) (d : Database)
    → user_exists_or_null i d ≡ false
    → create_session id now i t anonymous room d ≡ (err fk_violation, d)
unfolding create_session
create_session-err id now i t anonymous room d unknown = rw unknown refl

host_participant-ok :
    (draw : CallDraw) (now : ℕ) (i a : Option ℕ) (t : CallType) (anonymous : Bool) (d : Database)
    → find_by_id draw.call d ≡ some (new_call draw now i t anonymous)
    → user_exists_or_null i d ≡ true
    → host_participant draw now i a t anonymous (new_call draw now i t anonymous) d ≡ (
      ok (new_host draw now i a t anonymous),
      with_participant (new_host draw now i a t anonymous) d,
    )
unfolding add_participant
host_participant-ok draw now i a t anonymous d found known =
    rw (found, known_or_anonymous anonymous i d known) refl

host_call-ok :
    (draw : CallDraw) (now : ℕ) (i a : Option ℕ) (t : CallType) (anonymous : Bool) (from : Origin)
    (d : Database)
    → find_by_id draw.call d ≡ some (new_call draw now i t anonymous)
    → user_exists_or_null i d ≡ true
    → host_call draw now i a t anonymous from (new_call draw now i t anonymous) d ≡ (
      ok (new_call draw now i t anonymous),
      log now
          (host_event i t anonymous from (new_call draw now i t anonymous))
          (with_participant (new_host draw now i a t anonymous) d),
    )
unfolding host_call
host_call-ok draw now i a t anonymous from d found known =
    let c : CallSession = new_call draw now i t anonymous in
    let event : AuditEntry = host_event i t anonymous from c in
    >>=-ok (λ _. pure c) (host_participant draw now i a t anonymous c >> modify (log now event)) d
      (>>=-ok (λ _. modify (log now event)) (host_participant draw now i a t anonymous c) d
        (host_participant-ok draw now i a t anonymous d found known))

known_with_call :
    (c : CallSession) (u : Option ℕ) (d : Database)
    → user_exists_or_null u d ≡ true
    → user_exists_or_null u (with_call c d) ≡ true
known_with_call c none d h = h
known_with_call c (some u) d h = h

pub initiate_call-ok :
    (draw : CallDraw) (now : ℕ) (i a : Option ℕ) (t : CallType) (anonymous : Bool) (from : Origin)
    (d : Database)
    → find_by_id draw.call d ≡ none
    → user_exists_or_null i d ≡ true
    → initiate_call draw now i a t anonymous from d ≡ (
      ok (new_call draw now i t anonymous),
      log now (host_event i t anonymous from (new_call draw now i t anonymous)) (
          with_participant
            (new_host draw now i a t anonymous)
            (with_call (new_call draw now i t anonymous) d)),
    )
unfolding initiate_call
initiate_call-ok draw now i a t anonymous from d fresh known =
    let c : CallSession = new_call draw now i t anonymous in
    >>=-ok (host_call draw now i a t anonymous from)
      (create_session draw.call now i t anonymous (if is_group t then some draw.room else none)) d
      (create_session-ok draw now i t anonymous d known)
    ∙ host_call-ok draw now i a t anonymous from (with_call c d)
        (find_row-append (λ x. x.id == draw.call) d.call_sessions (c ∷ []) fresh
          ∙ rw (==-self draw.call) refl)
        (known_with_call (new_call draw now i t anonymous) i d known)

pub initiate_call-err :
    (draw : CallDraw) (now : ℕ) (i a : Option ℕ) (t : CallType) (anonymous : Bool) (from : Origin)
    (d : Database)
    → user_exists_or_null i d ≡ false
    → initiate_call draw now i a t anonymous from d ≡ (err fk_violation, d)
unfolding initiate_call
initiate_call-err draw now i a t anonymous from d unknown =
    >>=-err (host_call draw now i a t anonymous from)
      (create_session draw.call now i t anonymous (if is_group t then some draw.room else none)) d
      (create_session-err draw.call now i t anonymous _ d unknown)

-- If the drawn id is no call's yet, a call starts exactly for an initiator that is a registered
-- user or none; there is then one new call, which waits for an answer, and the host as one new
-- participant. Any other initiator, an anonymous id among them, is refused with a foreign key
-- violation, and nothing is stored.
pub initiate_call-outcome :
    (draw : CallDraw) (now : ℕ) (i a : Option ℕ) (t : CallType) (anonymous : Bool) (from : Origin)
    (d : Database)
    → find_by_id draw.call d ≡ none
    → ((user_exists_or_null i d ≡ true)
        → ((initiate_call draw now i a t anonymous from d).0 ≡ ok (new_call draw now i t anonymous))
          × ((initiate_call draw now i a t anonymous from d).1.call_sessions
              ≡ d.call_sessions ++ new_call draw now i t anonymous ∷ [])
          × ((initiate_call draw now i a t anonymous from d).1.call_participants
              ≡ d.call_participants ++ new_host draw now i a t anonymous ∷ []))
      × ((user_exists_or_null i d ≡ false)
          → initiate_call draw now i a t anonymous from d ≡ (err fk_violation, d))
initiate_call-outcome draw now i a t anonymous from d fresh = (
  λ known.
      let e = initiate_call-ok draw now i a t anonymous from d fresh known in
      (
        ap (λ r. r.0) e,
        ap (λ r. r.1.call_sessions) e ∙ (log-KeepsRest now _ _).call_sessions,
        ap (λ r. r.1.call_participants) e ∙ (log-KeepsRest now _ _).call_participants,
      ),
  initiate_call-err draw now i a t anonymous from d,
)
