-- ===== src/Calls/Lifecycle.antt =====
-- The invariant of the call tables, over every call of the service.
use video_calling.Base.{
  ℕ, ◌≡◌, refl, sym, subst, Bool, true, false, Option, none, some, Option-cases, inl, inr, or_else,
  not, truthy_option,
}
use video_calling.Database.{
  Database, CallType, EventType, Payload, active, CallSession, host, guest, Participant, Action,
  >>=-after, ◌>>◌, modify, pure,
}
use video_calling.Audit.{AuditEntry, log}
use video_calling.Calls.Rows.{
  IsConsistent, log-IsConsistent, create_session-IsConsistent, update_status-IsConsistent,
  add_participant-IsConsistent, participants-update, update_participant_media-IsConsistent, IsTimed,
}
use video_calling.Calls.{
  create_session, find_by_id, is_present, departed, mark_participant_left, Origin, CallDraw,
  host_call, host_participant, host_event, guest_participant, guest_event, activate, initiate_call,
  get_call_by_id, admit, accept_call, Reason, hung_up, turned_down, unanswered, final_status,
  end_call, toggle_call_type, log_switch, toggle_media,
}

-- A participation is added, and a row logged.
joined_and_logged :
    (add : Action Database Participant) (now : ℕ) (event : AuditEntry) (d : Database)
    → IsConsistent (add d).1
    → IsConsistent ((add >> modify (log now event)) d).1
joined_and_logged add now event d v =
    >>=-after IsConsistent (λ _. modify (log now event)) add d v
      (λ p. λ e. λ w. log-IsConsistent now event e w)

host_call-IsConsistent :
    (draw : CallDraw) (now : ℕ) (initiator_id anonymous_id : Option ℕ) (call_type : CallType)
    (is_anonymous : Bool) (from : Origin) (c : CallSession) (d : Database)
    → IsConsistent d
    → IsConsistent (host_call draw now initiator_id anonymous_id call_type is_anonymous from c d).1
unfolding host_call
host_call-IsConsistent draw now initiator_id anonymous_id call_type is_anonymous from c d v =
    >>=-after IsConsistent (λ _. pure c)
      (host_participant draw now initiator_id anonymous_id call_type is_anonymous c
        >> modify (log now (host_event initiator_id call_type is_anonymous from c)))
      d
      (joined_and_logged
        (host_participant draw now initiator_id anonymous_id call_type is_anonymous c) now
        (host_event initiator_id call_type is_anonymous from c) d
        (add_participant-IsConsistent draw.participant now c.id _ _ host _ d v))
      (λ _. λ e. λ w. w)

initiate_call-IsConsistent :
    (draw : CallDraw) (now : ℕ) (initiator_id anonymous_id : Option ℕ) (call_type : CallType)
    (is_anonymous : Bool) (from : Origin) (d : Database)
    → IsConsistent d
    → IsConsistent
        (initiate_call draw now initiator_id anonymous_id call_type is_anonymous from d).1
unfolding initiate_call
initiate_call-IsConsistent draw now initiator_id anonymous_id call_type is_anonymous from d v =
    >>=-after IsConsistent
      (host_call draw now initiator_id anonymous_id call_type is_anonymous from)
      (create_session draw.call now initiator_id call_type is_anonymous _) d
      (create_session-IsConsistent draw.call now initiator_id call_type is_anonymous _ d v)
      (λ c. λ e. λ w.
        host_call-IsConsistent draw now initiator_id anonymous_id call_type is_anonymous from c e w)

get_call_by_id-same : (call_id : ℕ) (d : Database) → (get_call_by_id call_id d).1 ≡ d
unfolding get_call_by_id
get_call_by_id-same call_id d = elim (Option-cases (find_by_id call_id d)) [
  | inl absent ↦ rw absent refl
  | inr (c, e) ↦ rw e refl
]

admit-IsConsistent :
    (participant now call_id : ℕ) (user_id anonymous_id : Option ℕ) (is_anonymous : Bool)
    (call_type : CallType) (from : Origin) (d : Database)
    → IsConsistent d
    → IsConsistent
        (admit participant now call_id user_id anonymous_id is_anonymous call_type from d).1
unfolding admit
admit-IsConsistent participant now call_id user_id anonymous_id is_anonymous call_type from d v =
    let add : Action Database Participant =
      guest_participant participant now call_id user_id anonymous_id is_anonymous call_type in
    let event : AuditEntry = guest_event call_id user_id is_anonymous from in
    >>=-after IsConsistent (λ _. get_call_by_id call_id)
      (modify (activate now call_id) >> (add >> modify (log now event))) d
      (joined_and_logged add now event (activate now call_id d) (
        add_participant-IsConsistent participant now call_id _ _ guest _ (activate now call_id d)
          (update_status-IsConsistent now call_id active _ d (λ c. tt) v)))
      (λ _. λ e. λ w. subst IsConsistent (sym (get_call_by_id-same call_id e)) w)

accept_call-IsConsistent :
    (participant now call_id : ℕ) (user_id anonymous_id : Option ℕ) (is_anonymous : Option Bool)
    (call_type : CallType) (from : Origin) (d : Database)
    → IsConsistent d
    → IsConsistent
        (accept_call participant now call_id user_id anonymous_id is_anonymous call_type from d).1
unfolding accept_call
accept_call-IsConsistent participant now call_id user_id anonymous_id is_anonymous call_type from d
      v =
    let anonymous : Bool = or_else is_anonymous (not (truthy_option user_id)) in
    >>=-after IsConsistent
      (λ _. admit participant now call_id user_id anonymous_id anonymous call_type from)
      (get_call_by_id call_id) d (subst IsConsistent (sym (get_call_by_id-same call_id d)) v)
      (λ _. λ e. λ w.
        admit-IsConsistent participant now call_id user_id anonymous_id anonymous call_type from e
          w)

final-IsTimed :
    (reason : Reason) (a : Option ℕ) (now : ℕ) → IsTimed (final_status reason) a (some now)
final-IsTimed hung_up a now = refl
final-IsTimed turned_down a now = refl
final-IsTimed unanswered a now = refl

end_call-IsConsistent :
    (now call_id user_id : ℕ) (anonymous_id : Option ℕ) (reason : Reason) (from : Origin)
    (d : Database)
    → IsConsistent d
    → IsConsistent (end_call now call_id user_id anonymous_id reason from d)
unfolding end_call mark_participant_left
end_call-IsConsistent now call_id user_id anonymous_id reason from d v = log-IsConsistent now _ _ (
    participants-update (is_present call_id user_id anonymous_id) (departed now) _ (λ p. refl)
      (update_status-IsConsistent now call_id (final_status reason)
        (record { answered = false; ended = true }) d (λ c. final-IsTimed reason c.answered_at now)
        v))

toggle_call_type-IsConsistent :
    (now call_id user_id : ℕ) (new_type : CallType) (from : Origin) (d : Database)
    → IsConsistent d
    → IsConsistent (toggle_call_type now call_id user_id new_type from d)
unfolding toggle_call_type
toggle_call_type-IsConsistent now call_id user_id new_type from d v =
    log-IsConsistent now _ _ (update_status-IsConsistent now call_id active _ d (λ c. tt) v)

log_switch-IsConsistent :
    (now user_id : ℕ) (event_type : EventType) (payload : Bool → Payload) (value : Option Bool)
    (d : Database)
    → IsConsistent d
    → IsConsistent (log_switch now user_id event_type payload value d)
log_switch-IsConsistent now user_id event_type payload none d v = v
log_switch-IsConsistent now user_id event_type payload (some b) d v = log-IsConsistent now _ d v

toggle_media-IsConsistent :
    (now call_id user_id : ℕ) (anonymous_id : Option ℕ) (mic camera : Option Bool) (d : Database)
    → IsConsistent d
    → IsConsistent (toggle_media now call_id user_id anonymous_id mic camera d)
unfolding toggle_media
toggle_media-IsConsistent now call_id user_id anonymous_id mic camera d v =
    log_switch-IsConsistent now user_id _ _ camera _ (
      log_switch-IsConsistent now user_id _ _ mic _
        (update_participant_media-IsConsistent call_id user_id mic camera anonymous_id d v))

-- One call of the service that changes the database.
pub data CallsStep : Database → Database → Type 0 where
  initiates :
      (draw : CallDraw) (now : ℕ) (initiator_id anonymous_id : Option ℕ) (call_type : CallType)
      (is_anonymous : Bool) (from : Origin) (d : Database)
      → CallsStep d
          (initiate_call draw now initiator_id anonymous_id call_type is_anonymous from d).1
  accepts :
      (participant now call_id : ℕ) (user_id anonymous_id : Option ℕ) (is_anonymous : Option Bool)
      (call_type : CallType) (from : Origin) (d : Database)
      → CallsStep d
          (accept_call participant now call_id user_id anonymous_id is_anonymous call_type from d).1
  ends :
      (now call_id user_id : ℕ) (anonymous_id : Option ℕ) (reason : Reason) (from : Origin)
      (d : Database)
      → CallsStep d (end_call now call_id user_id anonymous_id reason from d)
  retypes :
      (now call_id user_id : ℕ) (new_type : CallType) (from : Origin) (d : Database)
      → CallsStep d (toggle_call_type now call_id user_id new_type from d)
  switches :
      (now call_id user_id : ℕ) (anonymous_id : Option ℕ) (mic camera : Option Bool) (d : Database)
      → CallsStep d (toggle_media now call_id user_id anonymous_id mic camera d)

-- Whatever the calls service does, also where it fails, it keeps this: a call that still waits
-- for an answer has neither an answer time nor an end time, an ended, missed or rejected one has
-- an end time, and every participation is of a call that is there.
pub step-IsConsistent : (d e : Database) → CallsStep d e → IsConsistent d → IsConsistent e
step-IsConsistent _ _ (initiates draw now i a t anonymous from d) v =
    initiate_call-IsConsistent draw now i a t anonymous from d v
step-IsConsistent _ _ (accepts p now c u a anonymous t from d) v =
    accept_call-IsConsistent p now c u a anonymous t from d v
step-IsConsistent _ _ (ends now c u a reason from d) v =
    end_call-IsConsistent now c u a reason from d v
step-IsConsistent _ _ (retypes now c u t from d) v =
    toggle_call_type-IsConsistent now c u t from d v
step-IsConsistent _ _ (switches now c u a mic camera d) v =
    toggle_media-IsConsistent now c u a mic camera d v
