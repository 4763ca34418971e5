-- ===== src/Calls/Participants.antt =====
-- What ending a call and switching a microphone or a camera do to the participations.
use video_calling.Base.{
  ℕ, sym, ap, ◌∙◌, subst, not, is_some, eq_some, truthy, truthy_option, ◌≡◌, ◌≢◌, refl, Bool, true,
  false, ◌&&◌, Option, none, some, List, [], ◌∷◌, arith, ◌==◌, find_row, update_where,
  find_row-update, find_row-holds, Bool-cases, inl, inr, if◌then◌else◌,
}
use video_calling.Database.{
  Database, Status, media_mic_toggled, media_camera_toggled, mic_set, camera_set, EventType,
  Payload, Participant, CallSession,
}
use video_calling.Audit.Append.{log-KeepsRest}
use video_calling.Calls.{
  restatus, update_status, find_by_id, with_media, is_present, update_participant_media, departed,
  mark_participant_left, Origin, Extra, ending, Reason, final_status, end_call, log_switch,
  toggle_media,
}

pub end_call-tables :
    (now call_id user_id : ℕ) (a : Option ℕ) (reason : Reason) (from : Origin) (d : Database)
    → let e : Database = end_call now call_id user_id a reason from d in
      (e.call_sessions
        ≡ update_where
            (λ c. c.id == call_id)
            (restatus now (final_status reason) ending)
            d.call_sessions)
      × (e.call_participants
          ≡ update_where (is_present call_id user_id a) (departed now) d.call_participants)
unfolding end_call update_status mark_participant_left
end_call-tables now call_id user_id a reason from d =
    ((log-KeepsRest now _ _).call_sessions, (log-KeepsRest now _ _).call_participants)

-- An update at one id is not seen at another.
find-elsewhere :
    (k j now : ℕ) (status : Status) (extra : Extra) (cs : List CallSession)
    → j ≢ k
    → find_row (λ x. x.id == j) (update_where (λ x. x.id == k) (restatus now status extra) cs)
      ≡ find_row (λ x. x.id == j) cs
find-elsewhere k j now status extra [] other = refl
find-elsewhere k j now status extra (c ∷ cs) other =
    ground (arith, find-elsewhere k j now status extra cs other)

-- Hanging up, turning down or not answering a call that is stored gives it the final status that
-- goes with the reason, and it ends now; no other call changes.
pub end_call-call :
    (now call_id user_id : ℕ) (a : Option ℕ) (reason : Reason) (from : Origin) (d : Database)
    (c : CallSession)
    → find_by_id call_id d ≡ some c
    → (find_by_id call_id (end_call now call_id user_id a reason from d)
        ≡ some (record c { status = final_status reason; ended_at = some now }))
      × ((k : ℕ)
          → k ≢ call_id
          → find_by_id k (end_call now call_id user_id a reason from d) ≡ find_by_id k d)
end_call-call now call_id user_id a reason from d c e =
    let k = (end_call-tables now call_id user_id a reason from d).0 in
    let keep : Status = final_status reason in
    (
      rw k (
          rw
            (
              find_row-update (λ x. x.id == call_id) (λ x. x.id == call_id)
                  (restatus now keep ending) d.call_sessions {x = c} (λ x. refl) e,
              find_row-holds (λ x. x.id == call_id) d.call_sessions {x = c} e,
            )
            refl),
      λ j. λ other. rw k (find-elsewhere call_id j now keep ending d.call_sessions other),
    )

eq_some-holds : (o : Option ℕ) (k : ℕ) → o ≡ some k → eq_some o k ≡ true
eq_some-holds none k e = absurd (cc)
eq_some-holds (some j) k e = ground (arith, e)

eq_some-fails : (o : Option ℕ) (k : ℕ) → o ≢ some k → eq_some o k ≡ false
eq_some-fails none k other = refl
eq_some-fails (some j) k other = elim (Bool-cases (j == k)) [
  | inl same ↦ absurd (other (ap some (ground arith)))
  | inr differ ↦ differ
]

-- What becomes of a participation `p` when the one who is `who` by the column `own` leaves the call:
-- it ends now if it is of this call, open and of `who`; in each other case it stays as it was.
abbrev pub LeavesOwn :
    (now call_id : ℕ) (own : Participant → Option ℕ) (who : ℕ)
    → Participant
    → Option Participant
    → Type 0
LeavesOwn now call_id own who p after =
    (p.call_session_id ≡ call_id
      → p.left_at ≡ none
      → own p ≡ some who
      → after ≡ some (record p { left_at = some now }))
    × (p.call_session_id ≢ call_id → after ≡ some p)
    × ((t : ℕ) → p.left_at ≡ some t → after ≡ some p)
    × (own p ≢ some who → after ≡ some p)

leaves-own :
    (now call_id : ℕ) (own : Participant → Option ℕ) (who : ℕ) (p : Participant)
    → LeavesOwn now call_id own who p (
        some (
          if p.call_session_id == call_id && (eq_some (own p) who && not (is_some p.left_at))
          then record p { left_at = some now }
          else p))
leaves-own now call_id own who p = (
  λ here. λ there. λ mine. ground (arith, here, there, eq_some-holds (own p) who mine),
  λ elsewhere. ground (arith, elsewhere),
  λ t. λ gone. ground (arith, gone),
  λ other. ground (arith, eq_some-fails (own p) who other),
)

-- When a call is ended, a participation that is looked up by its id ends now if it is an open one in
-- this call and its user id is the caller's, or, where the caller gives an anonymous id, its
-- anonymous id is the one given; every other participation stays as it was, also one of the caller
-- that is stored under the other kind of id.
pub end_call-participants :
    (now call_id user_id : ℕ) (a : Option ℕ) (reason : Reason) (from : Origin) (d : Database)
    (k : ℕ) (p : Participant)
    → find_row (λ q. q.id == k) d.call_participants ≡ some p
    → let after =
        find_row
          (λ q. q.id == k)
          (end_call now call_id user_id a reason from d).call_participants in
      (truthy_option a ≡ false → LeavesOwn now call_id (λ q. q.user_id) user_id p after)
      × ((x : ℕ)
          → truthy x ≡ true
          → a ≡ some x
          → LeavesOwn now call_id (λ q. q.anonymous_id) x p after)
end_call-participants now call_id user_id a reason from d k p stored =
    let tables = (end_call-tables now call_id user_id a reason from d).1 in
    let updated =
      ap (find_row (λ q. q.id == k)) tables
      ∙ find_row-update (λ q. q.id == k) (is_present call_id user_id a) (departed now)
          d.call_participants {x = p} (λ q. refl) stored in
    (
      λ registered.
          subst (LeavesOwn now call_id (λ q. q.user_id) user_id p) (sym updated)
            (by_user a registered),
      λ x. λ there. λ given.
          subst (LeavesOwn now call_id (λ q. q.anonymous_id) x p) (sym updated)
            (by_name a x there given),
    )
  where
    by_name :
        (b : Option ℕ) (x : ℕ)
        → truthy x ≡ true
        → b ≡ some x
        → LeavesOwn now call_id
            (λ q. q.anonymous_id)
            x
            p
            (some (if is_present call_id user_id b p then departed now p else p))
    by_name b x there given = rw given (elim (Bool-cases (x == 0)) [
      | inl empty ↦ absurd (ground arith)
      | inr named ↦ rw named (leaves-own now call_id (λ q. q.anonymous_id) x p)
    ])

    by_user :
        (b : Option ℕ)
        → truthy_option b ≡ false
        → LeavesOwn now call_id
            (λ q. q.user_id)
            user_id
            p
            (some (if is_present call_id user_id b p then departed now p else p))
    by_user none h = leaves-own now call_id (λ q. q.user_id) user_id p
    by_user (some x) h = elim (Bool-cases (x == 0)) [
      | inl empty ↦ rw empty (leaves-own now call_id (λ q. q.user_id) user_id p)
      | inr there ↦ absurd (ground arith)
    ]

log_switch-same :
    (now user_id : ℕ) (event_type : EventType) (payload : Bool → Payload) (v : Option Bool)
    (d : Database)
    → (log_switch now user_id event_type payload v d).call_participants ≡ d.call_participants
log_switch-same now user_id event_type payload none d = refl
log_switch-same now user_id event_type payload (some b) d =
    (log-KeepsRest now _ d).call_participants

update_media-find :
    (call_id user_id : ℕ) (a : Option ℕ) (mic camera : Option Bool) (d : Database) (k : ℕ)
    (p : Participant)
    → find_row (λ q. q.id == k) d.call_participants ≡ some p
    → find_row
        (λ q. q.id == k)
        (update_participant_media call_id user_id mic camera a d).call_participants
      ≡ some (if is_present call_id user_id a p then with_media mic camera p else p)
unfolding update_participant_media
update_media-find call_id user_id a none none d k p e =
    elim (Bool-cases (is_present call_id user_id a p)) [
      | inl here ↦ rw here e
      | inr gone ↦ rw gone e
    ]
update_media-find call_id user_id a (some m) camera d k p e =
    find_row-update (λ q. q.id == k) (is_present call_id user_id a) (with_media (some m) camera)
      d.call_participants {x = p} (λ q. refl) e
update_media-find call_id user_id a none (some c) d k p e =
    find_row-update (λ q. q.id == k) (is_present call_id user_id a) (with_media none (some c))
      d.call_participants {x = p} (λ q. refl) e

-- Switching a microphone or a camera changes, for those that are given, the switches of the
-- caller's open participation in the call, and of no other participation, looked up by its id.
pub toggle_media-participants :
    (now call_id user_id : ℕ) (a : Option ℕ) (mic camera : Option Bool) (d : Database) (k : ℕ)
    (p : Participant)
    → find_row (λ q. q.id == k) d.call_participants ≡ some p
    → find_row (λ q. q.id == k) (toggle_media now call_id user_id a mic camera d).call_participants
      ≡ some (if is_present call_id user_id a p then with_media mic camera p else p)
unfolding toggle_media
toggle_media-participants now call_id user_id a mic camera d k p e =
    rw
      (
        log_switch-same now user_id media_camera_toggled (camera_set call_id) camera (
            log_switch now user_id media_mic_toggled (mic_set call_id) mic
              (update_participant_media call_id user_id mic camera a d)),
        log_switch-same now user_id media_mic_toggled (mic_set call_id) mic
            (update_participant_media call_id user_id mic camera a d),
      )
      (update_media-find call_id user_id a mic camera d k p e)
