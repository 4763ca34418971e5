-- ===== src/Calls/Accept.antt =====
-- What accepting a call returns and stores, on every branch.
use video_calling.Calls.Initiate.{with_participant}
use video_calling.Base.{
  ℕ, ◌≡◌, refl, ◌∙◌, ap, Bool, true, false, not, Option, none, some, [], ◌∷◌, ◌++◌, ◌==◌,
  find_row-update, find_row-holds, if◌then◌else◌, or_else, or_option, truthy_option,
}
use video_calling.Database.{
  Database, CallType, active, CallSession, guest, Participant, user_exists_or_null, fk_violation,
  not_found, call_not_found, Result, ok, err, Action, >>=-ok, >>=-err, modify, ◌>>◌,
}
use video_calling.Audit.{AuditEntry, log}
use video_calling.Audit.Append.{log-KeepsRest}
use video_calling.Calls.{
  restatus, update_status, find_by_id, add_participant, Origin, get_call_by_id, activate,
  guest_participant, guest_event, admit, accept_call, is_video,
}

-- The participation of the callee.
abbrev pub new_guest :
    (participant now call_id : ℕ) (user_id anonymous_id : Option ℕ) (is_anonymous : Bool)
    (call_type : CallType)
    → Participant
new_guest participant now call_id user_id anonymous_id is_anonymous call_type = record {
  id = participant;
  call_session_id = call_id;
  user_id = if is_anonymous then none else user_id;
  anonymous_id = if is_anonymous then or_option anonymous_id user_id else none;
  role = guest;
  joined_at = now;
  left_at = none;
  mic_enabled = true;
  camera_enabled = is_video call_type;
}

-- A call that is answered now.
abbrev pub answered : (now : ℕ) → CallSession → CallSession
answered now c = record c { status = active; answered_at = some now }

activate-find :
    (now call_id : ℕ) (d : Database) (c : CallSession)
    → find_by_id call_id d ≡ some c
    → find_by_id call_id (activate now call_id d) ≡ some (answered now c)
unfolding update_status
activate-find now call_id d c found =
    rw
      (
        find_row-update (λ x. x.id == call_id) (λ x. x.id == call_id) (restatus now active _)
            d.call_sessions {x = c} (λ x. refl) found,
        find_row-holds (λ x. x.id == call_id) d.call_sessions {x = c} found,
      )
      refl

activate-known :
    (now call_id : ℕ) (u : Option ℕ) (d : Database)
    → user_exists_or_null u (activate now call_id d) ≡ user_exists_or_null u d
unfolding update_status
activate-known now call_id none d = refl
activate-known now call_id (some u) d = refl

activate-participants :
    (now call_id : ℕ) (d : Database)
    → (activate now call_id d).call_participants ≡ d.call_participants
unfolding update_status
activate-participants now call_id d = refl

get_call_by_id-found :
    (call_id : ℕ) (d : Database) (c : CallSession)
    → find_by_id call_id d ≡ some c
    → get_call_by_id call_id d ≡ (ok c, d)
unfolding get_call_by_id
get_call_by_id-found call_id d c found = rw found refl

get_call_by_id-missing :
    (call_id : ℕ) (d : Database)
    → find_by_id call_id d ≡ none
    → get_call_by_id call_id d ≡ (err (not_found call_not_found), d)
unfolding get_call_by_id
get_call_by_id-missing call_id d missing = rw missing refl

guest_participant-outcome :
    (p now k : ℕ) (u a : Option ℕ) (anonymous : Bool) (t : CallType) (d : Database)
    (c : CallSession)
    → find_by_id k d ≡ some c
    → ((user_exists_or_null (if anonymous then none else u) d ≡ true)
        → guest_participant p now k u a anonymous t d ≡ (
          ok (new_guest p now k u a anonymous t),
          with_participant (new_guest p now k u a anonymous t) d,
        ))
      × ((user_exists_or_null (if anonymous then none else u) d ≡ false)
          → guest_participant p now k u a anonymous t d ≡ (err fk_violation, d))
unfolding add_participant
guest_participant-outcome p now k u a anonymous t d c found =
    (λ known. rw (found, known) refl, λ unknown. rw (found, unknown) refl)

pub log-find :
    (now k : ℕ) (event : AuditEntry) (d : Database) (c : CallSession)
    → find_by_id k d ≡ some c
    → find_by_id k (log now event d) ≡ some c
log-find now k event d c found = rw (log-KeepsRest now event d).call_sessions found

admit-ok :
    (p now k : ℕ) (u a : Option ℕ) (anonymous : Bool) (t : CallType) (from : Origin) (d : Database)
    (c : CallSession)
    → find_by_id k d ≡ some c
    → user_exists_or_null (if anonymous then none else u) d ≡ true
    → admit p now k u a anonymous t from d ≡ (
      ok (answered now c),
      log now
          (guest_event k u anonymous from)
          (with_participant (new_guest p now k u a anonymous t) (activate now k d)),
    )
unfolding admit
admit-ok p now k u a anonymous t from d c found known =
    let add : Action Database Participant = guest_participant p now k u a anonymous t in
    let event : AuditEntry = guest_event k u anonymous from in
    let e : Database = with_participant (new_guest p now k u a anonymous t) (activate now k d) in
    >>=-ok (λ _. get_call_by_id k) (modify (activate now k) >> (add >> modify (log now event))) d
      (>>=-ok (λ _. modify (log now event)) add (activate now k d)
        ((guest_participant-outcome p now k u a anonymous t (activate now k d) (answered now c)
            (activate-find now k d c found)).0
          (activate-known now k (if anonymous then none else u) d ∙ known)))
    ∙ get_call_by_id-found k (log now event e) (answered now c)
        (log-find now k event e (answered now c) (activate-find now k d c found))

admit-err :
    (p now k : ℕ) (u a : Option ℕ) (anonymous : Bool) (t : CallType) (from : Origin) (d : Database)
    (c : CallSession)
    → find_by_id k d ≡ some c
    → user_exists_or_null (if anonymous then none else u) d ≡ false
    → admit p now k u a anonymous t from d ≡ (err fk_violation, activate now k d)
unfolding admit
admit-err p now k u a anonymous t from d c found unknown =
    let add : Action Database Participant = guest_participant p now k u a anonymous t in
    let event : AuditEntry = guest_event k u anonymous from in
    >>=-err (λ _. get_call_by_id k) (modify (activate now k) >> (add >> modify (log now event))) d
      (>>=-err (λ _. modify (log now event)) add (activate now k d)
        ((guest_participant-outcome p now k u a anonymous t (activate now k d) (answered now c)
            (activate-find now k d c found)).1
          (activate-known now k (if anonymous then none else u) d ∙ unknown)))

-- Accepting a call that is there, with callee a registered user or nobody, answers it, so that
-- it is active from now, and adds the callee as one new participant. A call that is not there is not
-- found, and nothing is stored. A callee that is no user is refused with a foreign key violation,
-- and the call has become active although nobody joined.
pub accept_call-outcome :
    (p now k : ℕ) (u a : Option ℕ) (anon : Option Bool) (t : CallType) (from : Origin)
    (d : Database)
    → let anonymous : Bool = or_else anon (not (truthy_option u)) in
      let run : Result CallSession × Database = accept_call p now k u a anon t from d in
      ((find_by_id k d ≡ none) → run ≡ (err (not_found call_not_found), d))
      × ((c : CallSession)
          → find_by_id k d ≡ some c
          → ((user_exists_or_null (if anonymous then none else u) d ≡ true)
              → (run.0 ≡ ok (answered now c))
                × (find_by_id k run.1 ≡ some (answered now c))
                × (run.1.call_participants
                    ≡ d.call_participants ++ new_guest p now k u a anonymous t ∷ []))
            × ((user_exists_or_null (if anonymous then none else u) d ≡ false)
                → (run ≡ (err fk_violation, activate now k d))
                  × (find_by_id k run.1 ≡ some (answered now c))
                  × (run.1.call_participants ≡ d.call_participants)))
unfolding accept_call
accept_call-outcome p now k u a anon t from d =
    let anonymous : Bool = or_else anon (not (truthy_option u)) in
    let next : Action Database CallSession = admit p now k u a anonymous t from in
    (
      λ missing. >>=-err (λ _. next) (get_call_by_id k) d (get_call_by_id-missing k d missing),
      λ c. λ found.
          let start = >>=-ok (λ _. next) (get_call_by_id k) d (get_call_by_id-found k d c found) in
          (
            λ known.
                let e = start ∙ admit-ok p now k u a anonymous t from d c found known in
                let g : Database =
                  with_participant (new_guest p now k u a anonymous t) (activate now k d) in
                let event : AuditEntry = guest_event k u anonymous from in
                (
                  ap (λ r. r.0) e,
                  ap (λ r. find_by_id k r.1) e
                      ∙ log-find now k event g (answered now c) (activate-find now k d c found),
                  ap (λ r. r.1.call_participants) e
                      ∙ ((log-KeepsRest now event g).call_participants
                          ∙ ap (λ ps. ps ++ new_guest p now k u a anonymous t ∷ [])
                              (activate-participants now k d)),
                ),
            λ unknown.
                let e = start ∙ admit-err p now k u a anonymous t from d c found unknown in
                (
                  e,
                  ap (λ r. find_by_id k r.1) e ∙ activate-find now k d c found,
                  ap (λ r. r.1.call_participants) e ∙ activate-participants now k d,
                ),
          ),
    )
