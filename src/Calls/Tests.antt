-- ===== src/Calls/Tests.antt =====
-- The properties of this component at concrete inputs.
use video_calling.Base.{
  truthy, truthy_option, find_row, ℕ, ◌≡◌, refl, true, false, none, some, [], ◌∷◌, ◌==◌, ◌≤◌,
  length, All, IsDescending, find_row, exists_where,
}
use video_calling.Database.{Database, CallSession, Participant, voice, video, active, ok}
use video_calling.Samples.{signed_in}
use video_calling.Calls.{
  Origin, CallDraw, hung_up, end_call, toggle_call_type, initiate_call, accept_call, find_by_id,
}
use video_calling.Calls.History.{
  joined_calls, get_call_history, find_history, started, has_joined, get_call_history-page,
}
use video_calling.Calls.Rows.{IsConsistent}
use video_calling.Calls.Lifecycle.{step-IsConsistent, ends}
use video_calling.Calls.Participants.{LeavesOwn, end_call-participants}
use video_calling.Calls.Initiate.{initiate_call-outcome, new_call, new_host}
use video_calling.Calls.Accept.{accept_call-outcome, answered, new_guest}
use video_calling.Calls.Anonymity.{is_open, end_call-anonymous_host, toggle_call_type-end_call}

abbrev from : Origin
from = record { ip_address = []; user_agent = 0 }

abbrev draw : CallDraw
draw = record { call = 60; participant = 61; room = 62 }

abbrev ringing : CallSession
ringing = new_call draw 1000 (some 1) video false

abbrev ada_there : Participant
ada_there = new_host draw 1000 (some 1) none video false

-- Ada has called.
abbrev called : Database
called = record signed_in { call_sessions = ringing ∷ []; call_participants = ada_there ∷ [] }

step-IsConsistent_example : IsConsistent (end_call 2000 60 1 none hung_up from called)
step-IsConsistent_example =
    step-IsConsistent called (end_call 2000 60 1 none hung_up from called)
      (ends 2000 60 1 none hung_up from called)
      (record { timed = ((refl, refl), tt); joined = (refl, tt) })

end_call-participants_example :
    let after =
      find_row (λ q. q.id == 61) (end_call 2000 60 1 none hung_up from called).call_participants in
    (truthy_option none ≡ false → LeavesOwn 2000 60 (λ q. q.user_id) 1 ada_there after)
    × ((x : ℕ)
        → truthy x ≡ true
        → none ≡ some x
        → LeavesOwn 2000 60 (λ q. q.anonymous_id) x ada_there after)
end_call-participants_example =
    end_call-participants 2000 60 1 none hung_up from called 61 ada_there refl

initiate_call-outcome_example :
    ((initiate_call draw 1000 (some 1) none video false from signed_in).0 ≡ ok ringing)
    × ((initiate_call draw 1000 (some 1) none video false from signed_in).1.call_sessions
        ≡ ringing ∷ [])
    × ((initiate_call draw 1000 (some 1) none video false from signed_in).1.call_participants
        ≡ ada_there ∷ [])
initiate_call-outcome_example =
    (initiate_call-outcome draw 1000 (some 1) none video false from signed_in refl).0 refl

accept_call-outcome_example :
    ((accept_call 63 1500 60 (some 2) none none video from called).0 ≡ ok (answered 1500 ringing))
    × (find_by_id 60 (accept_call 63 1500 60 (some 2) none none video from called).1
        ≡ some (answered 1500 ringing))
    × ((accept_call 63 1500 60 (some 2) none none video from called).1.call_participants
        ≡ ada_there ∷ new_guest 63 1500 60 (some 2) none false video ∷ [])
accept_call-outcome_example =
    ((accept_call-outcome 63 1500 60 (some 2) none none video from called).1 ringing refl).0 refl

end_call-anonymous_host_example :
    exists_where
      (is_open 60)
      (end_call 2000 60 1 none hung_up from
        (initiate_call draw 1000 (some 1) none video true from signed_in).1).call_participants
    ≡ true
end_call-anonymous_host_example =
    end_call-anonymous_host draw 1000 2000 1 video hung_up from signed_in refl refl

toggle_call_type-end_call_example :
    find_by_id 60
      (toggle_call_type 3000 60 1 voice from (end_call 2000 60 1 none hung_up from called))
    ≡ some (record ringing { status = active; ended_at = some 2000 })
toggle_call_type-end_call_example =
    toggle_call_type-end_call 2000 3000 60 1 1 none voice hung_up from called ringing refl

-- Ada took part in two calls.
abbrev twice : Database
twice = record called {
  call_sessions = ringing ∷ record ringing { id = 61; started_at = 2000 } ∷ [];
  call_participants = ada_there ∷ record ada_there { call_session_id = 61 } ∷ [];
}

newest_first :
    get_call_history 1 20 0 twice ≡ record ringing { id = 61; started_at = 2000 } ∷ ringing ∷ []
unfolding get_call_history find_history joined_calls
newest_first = refl

get_call_history-page_example :
    (length (get_call_history 1 1 0 twice) ≤ 1)
    × IsDescending started (get_call_history 1 1 0 twice)
    × All (λ c. has_joined 1 twice.call_participants c ≡ true) (get_call_history 1 1 0 twice)
get_call_history-page_example = get_call_history-page 1 1 0 twice
