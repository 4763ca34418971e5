-- ===== src/Calls/Anonymity.antt =====
-- Calls whose registered host is stored under an anonymous id, and calls that have ended.
use video_calling.Base.{
  ℕ, ◌≡◌, refl, ◌∙◌, ap, Bool, true, false, not, ◌&&◌, Option, none, some, List, [], ◌∷◌, ◌++◌,
  arith, ◌==◌, is_some, find_row, update_where, exists_where, find_row-update, find_row-holds,
  ==-self,
}
use video_calling.Database.{Database, CallType, active, CallSession, Participant, user_exists}
use video_calling.Audit.Append.{log-KeepsRest}
use video_calling.Calls.{
  restatus, update_status, find_by_id, is_present, departed, Origin, CallDraw, Reason, final_status,
  end_call, initiate_call, toggle_call_type,
}
use video_calling.Calls.Initiate.{new_host, initiate_call-outcome}
use video_calling.Calls.Participants.{end_call-tables, end_call-call}

exists-last :
    (q c : Participant → Bool) (f : Participant → Participant) (ps : List Participant)
    (p : Participant)
    → q p ≡ true
    → c p ≡ false
    → exists_where q (update_where c f (ps ++ p ∷ [])) ≡ true
exists-last q c f [] p qp cp = ground arith
exists-last q c f (x ∷ ps) p qp cp = ground (arith, exists-last q c f ps p qp cp)

-- An open participation in a call.
abbrev pub is_open : ℕ → Participant → Bool
is_open call_id p = p.call_session_id == call_id && not (is_some p.left_at)

-- When a registered user starts a call, under a new id, as an anonymous one, which is how a match
-- is stored, and ends it under the user id, which is how the gateway ends it, a participation in
-- the call stays open.
pub end_call-anonymous_host :
    (draw : CallDraw) (now later u : ℕ) (t : CallType) (reason : Reason) (from : Origin)
    (d : Database)
    → find_by_id draw.call d ≡ none
    → user_exists u d ≡ true
    → exists_where
        (is_open draw.call)
        (end_call later draw.call u none reason from
          (initiate_call draw now (some u) none t true from d).1).call_participants
      ≡ true
end_call-anonymous_host draw now later u t reason from d fresh known =
    let started : Database = (initiate_call draw now (some u) none t true from d).1 in
    let rows = ((initiate_call-outcome draw now (some u) none t true from d fresh).0 known).2 in
    let p : Participant = new_host draw now (some u) none t true in
    ap (exists_where (is_open draw.call)) (
      (end_call-tables later draw.call u none reason from started).1
      ∙ ap (update_where (is_present draw.call u none) (departed later)) rows)
    ∙ exists-last (is_open draw.call) (is_present draw.call u none) (departed later)
        d.call_participants p (rw (==-self draw.call) refl) (rw (==-self draw.call) refl)

-- Switching between voice and video makes a call active again that has ended, with its end time kept.
pub toggle_call_type-end_call :
    (now later k u v : ℕ) (a : Option ℕ) (t : CallType) (reason : Reason) (from : Origin)
    (d : Database) (c : CallSession)
    → find_by_id k d ≡ some c
    → find_by_id k (toggle_call_type later k v t from (end_call now k u a reason from d))
      ≡ some (record c { status = active; ended_at = some now })
unfolding toggle_call_type update_status
toggle_call_type-end_call now later k u v a t reason from d c found =
    let ended : Database = end_call now k u a reason from d in
    let x : CallSession = record c { status = final_status reason; ended_at = some now } in
    let e : find_by_id k ended ≡ some x = (end_call-call now k u a reason from d c found).0 in
    ap (find_row (λ y. y.id == k)) (log-KeepsRest later _ _).call_sessions
    ∙ (find_row-update (λ y. y.id == k) (λ y. y.id == k)
          (restatus later active (record { answered = false; ended = false })) ended.call_sessions
          {x = x} (λ y. refl) e
        ∙ rw (find_row-holds (λ y. y.id == k) ended.call_sessions {x = x} e) refl)
