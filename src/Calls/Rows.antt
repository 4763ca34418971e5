-- ===== src/Calls/Rows.antt =====
-- The invariant of the call tables, statement by statement.
use video_calling.Base.{
  ℕ, ◌≡◌, refl, sym, subst, Bool, true, Option, none, List, [], ◌∷◌, ◌++◌, arith, ◌==◌, is_some,
  ◌&&◌, find_row, update_where, All, All-append, All-update, find_row-append_some, find_row-update,
  Bool-cases, Option-cases, inl, inr, not,
}
use video_calling.Database.{
  Database, CallType, Status, initiated, active, CallSession, Role, Participant,
  user_exists_or_null,
}
use video_calling.Audit.{AuditEntry, log}
use video_calling.Audit.Append.{log-KeepsRest}
use video_calling.Calls.{
  create_session, Extra, restatus, update_status, find_by_id, add_participant, with_media,
  is_present, update_participant_media,
}

-- A call that waits for an answer has neither been answered nor ended, and one with a final status
-- has an end.
abbrev pub IsTimed : Status → (answered_at ended_at : Option ℕ) → Type 0
IsTimed initiated a e = (a ≡ none) × (e ≡ none)
IsTimed active a e = Unit
IsTimed _ a e = is_some e ≡ true

abbrev pub IsTimedCall : CallSession → Type 0
IsTimedCall c = IsTimed c.status c.answered_at c.ended_at

abbrev pub IsJoined : List CallSession → Participant → Type 0
IsJoined calls p = is_some (find_row (λ c. c.id == p.call_session_id) calls) ≡ true

-- Every call is timed, and the call of every participation is there.
pub record IsConsistent (d : Database) : Type 0 where
  pub timed : All IsTimedCall d.call_sessions
  pub joined : All (IsJoined d.call_sessions) d.call_participants

All-weaken :
    {A : Type 0} (P Q : A → Type 0) (xs : List A) → ((x : A) → P x → Q x) → All P xs → All Q xs
All-weaken P Q [] f h = tt
All-weaken P Q (x ∷ xs) f h = (f x h.0, All-weaken P Q xs f h.1)

-- The rows of a table that has grown, or where an update leaves the ids, still have their calls.
IsJoined-append :
    (calls more : List CallSession) (ps : List Participant)
    → All (IsJoined calls) ps
    → All (IsJoined (calls ++ more)) ps
IsJoined-append calls more ps h =
    All-weaken (IsJoined calls) (IsJoined (calls ++ more)) ps
      (λ p. λ found. elim (Option-cases (find_row (λ c. c.id == p.call_session_id) calls)) [
        | inl absent ↦ absurd (ground (arith, found, absent))
        | inr (c, e) ↦
            rw (find_row-append_some (λ c. c.id == p.call_session_id) calls more {x = c} e) refl
      ])
      h

IsJoined-update :
    (call_id now : ℕ) (status : Status) (extra : Extra) (calls : List CallSession)
    (ps : List Participant)
    → All (IsJoined calls) ps
    → All (IsJoined (update_where (λ c. c.id == call_id) (restatus now status extra) calls)) ps
IsJoined-update call_id now status extra calls ps h =
    All-weaken (IsJoined calls)
      (IsJoined (update_where (λ c. c.id == call_id) (restatus now status extra) calls)) ps
      (λ p. λ found. elim (Option-cases (find_row (λ c. c.id == p.call_session_id) calls)) [
        | inl absent ↦ absurd (ground (arith, found, absent))
        | inr (c, e) ↦
            rw
              (find_row-update (λ c. c.id == p.call_session_id) (λ c. c.id == call_id)
                (restatus now status extra) calls {x = c} (λ y. refl) e)
              refl
      ])
      h

pub log-IsConsistent :
    (now : ℕ) (e : AuditEntry) (d : Database) → IsConsistent d → IsConsistent (log now e d)
log-IsConsistent now e d v =
    let k = log-KeepsRest now e d in
    record {
      timed = subst (All IsTimedCall) (sym k.call_sessions) v.timed;
      joined = rw (k.call_sessions, k.call_participants) v.joined;
    }

pub create_session-IsConsistent :
    (id now : ℕ) (initiator_id : Option ℕ) (call_type : CallType) (is_anonymous : Bool)
    (room_id : Option ℕ) (d : Database)
    → IsConsistent d
    → IsConsistent (create_session id now initiator_id call_type is_anonymous room_id d).1
unfolding create_session
create_session-IsConsistent id now initiator_id call_type is_anonymous room_id d v =
    elim (Bool-cases (user_exists_or_null initiator_id d)) [
      | inl known ↦ rw known (record {
        timed = All-append IsTimedCall d.call_sessions _ v.timed ((refl, refl), tt);
        joined = IsJoined-append d.call_sessions _ d.call_participants v.joined;
      })
      | inr unknown ↦ rw unknown v
    ]

-- A status that is not `initiated`, and `ended` only with an end.
pub update_status-IsConsistent :
    (now call_id : ℕ) (status : Status) (extra : Extra) (d : Database)
    → ((c : CallSession) → IsTimedCall (restatus now status extra c))
    → IsConsistent d
    → IsConsistent (update_status now call_id status extra d)
unfolding update_status
update_status-IsConsistent now call_id status extra d h v = record {
  timed =
      All-update IsTimedCall (λ c. c.id == call_id) (restatus now status extra) d.call_sessions
        (λ c. λ _. λ _. h c) v.timed;
  joined = IsJoined-update call_id now status extra d.call_sessions d.call_participants v.joined;
}

pub add_participant-IsConsistent :
    (id now call_id : ℕ) (user_id anonymous_id : Option ℕ) (role : Role) (camera : Bool)
    (d : Database)
    → IsConsistent d
    → IsConsistent (add_participant id now call_id user_id anonymous_id role camera d).1
unfolding add_participant
add_participant-IsConsistent id now call_id user_id anonymous_id role camera d v =
    elim (Bool-cases (is_some (find_by_id call_id d) && user_exists_or_null user_id d)) [
      | inl known ↦ rw known (record {
        timed = v.timed;
        joined =
            All-append (IsJoined d.call_sessions) d.call_participants _ v.joined (ground arith, tt);
      })
      | inr unknown ↦ rw unknown v
    ]

-- An update of participations that leaves their call ids.
pub participants-update :
    (q : Participant → Bool) (f : Participant → Participant) (d : Database)
    → ((p : Participant) → (f p).call_session_id ≡ p.call_session_id)
    → IsConsistent d
    → IsConsistent (record d { call_participants = update_where q f d.call_participants })
participants-update q f d keep v = record {
  timed = v.timed;
  joined =
      All-update (IsJoined d.call_sessions) q f d.call_participants
        (λ p. λ _. λ found.
          subst (λ k. is_some (find_row (λ c. c.id == k) d.call_sessions) ≡ true) (sym (keep p))
            found)
        v.joined;
}

pub update_participant_media-IsConsistent :
    (call_id user_id : ℕ) (mic camera : Option Bool) (anonymous_id : Option ℕ) (d : Database)
    → IsConsistent d
    → IsConsistent (update_participant_media call_id user_id mic camera anonymous_id d)
unfolding update_participant_media
update_participant_media-IsConsistent call_id user_id mic camera anonymous_id d v =
    elim (Bool-cases (not (is_some mic) && not (is_some camera))) [
      | inl nothing ↦ rw nothing v
      | inr something ↦ rw something (
          participants-update (is_present call_id user_id anonymous_id) (with_media mic camera) d
            (λ p. refl) v)
    ]
