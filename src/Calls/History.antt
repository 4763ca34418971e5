-- ===== src/Calls/History.antt =====
-- The history of calls: findHistory of src/calls/calls.repository.ts, and getCallHistory of
-- calls.service.ts. The sizes of a page are natural numbers; the server refuses negative ones.
use video_calling.Base.{
  ℕ, ◌≤◌, ◌≡◌, arith, Bool, true, ◌&&◌, List, [], ◌∷◌, ◌++◌, if◌then◌else◌, ◌==◌, eq_some,
  select_where, exists_where, count_where, length, All, All-append, take, drop, order_desc,
  IsDescending, All-take, All-drop, All-order, order-IsDescending, take-IsDescending,
  drop-IsDescending, length-take, take_all, count-order,
}
use video_calling.Database.{Database, CallSession, Participant}

-- `call_sessions JOIN call_participants … WHERE cp.user_id = $1`: a call once for each
-- participation of the user.
unfoldable pub joined_calls : (user_id : ℕ) → List CallSession → List Participant → List CallSession
joined_calls user_id calls [] = []
joined_calls user_id calls (p ∷ ps) =
    (if eq_some p.user_id user_id then select_where (λ c. c.id == p.call_session_id) calls else [])
    ++ joined_calls user_id calls ps

abbrev pub started : CallSession → ℕ
started c = c.started_at

abbrev pub ordered_calls : (user_id : ℕ) → Database → List CallSession
ordered_calls user_id d =
    order_desc started (joined_calls user_id d.call_sessions d.call_participants)

-- `findHistory`
unfoldable pub find_history : (user_id limit offset : ℕ) → Database → List CallSession
find_history user_id limit offset d = take limit (drop offset (ordered_calls user_id d))

-- `limit = 20, offset = 0` are the defaults of the parameters.
unfoldable pub get_call_history : (user_id limit offset : ℕ) → Database → List CallSession
unfolding find_history
get_call_history user_id limit offset d = find_history user_id limit offset d

-- The call has a participation of the user.
abbrev pub has_joined : (user_id : ℕ) → List Participant → CallSession → Bool
has_joined user_id ps c =
    exists_where (λ p. eq_some p.user_id user_id && p.call_session_id == c.id) ps

joined-one :
    (user_id : ℕ) (p : Participant) (ps : List Participant) (cs : List CallSession)
    → eq_some p.user_id user_id ≡ true
    → All
        (λ c. has_joined user_id (p ∷ ps) c ≡ true)
        (select_where (λ c. c.id == p.call_session_id) cs)
joined-one user_id p ps [] mine = tt
joined-one user_id p ps (c ∷ cs) mine = ground (arith, joined-one user_id p ps cs mine)

joined-more :
    (user_id : ℕ) (p : Participant) (ps : List Participant) (cs : List CallSession)
    → All (λ c. has_joined user_id ps c ≡ true) cs
    → All (λ c. has_joined user_id (p ∷ ps) c ≡ true) cs
joined-more user_id p ps [] h = tt
joined-more user_id p ps (c ∷ cs) h = (ground (arith, h.0), joined-more user_id p ps cs h.1)

joined_calls-joined :
    (user_id : ℕ) (cs : List CallSession) (ps : List Participant)
    → All (λ c. has_joined user_id ps c ≡ true) (joined_calls user_id cs ps)
unfolding joined_calls
joined_calls-joined user_id cs [] = tt
joined_calls-joined user_id cs (p ∷ ps) =
    All-append (λ c. has_joined user_id (p ∷ ps) c ≡ true) _ (joined_calls user_id cs ps)
      (ground (arith, joined-one user_id p ps cs))
      (joined-more user_id p ps (joined_calls user_id cs ps) (joined_calls-joined user_id cs ps))

-- A page holds at most `limit` calls, the most recently started first, and only calls that the user
-- takes part in under the user's id.
pub get_call_history-page :
    (user_id limit offset : ℕ) (d : Database)
    → (length (get_call_history user_id limit offset d) ≤ limit)
      × IsDescending started (get_call_history user_id limit offset d)
      × All
          (λ c. has_joined user_id d.call_participants c ≡ true)
          (get_call_history user_id limit offset d)
unfolding get_call_history
get_call_history-page user_id limit offset d =
    let joined : CallSession → Type 0 = λ c. has_joined user_id d.call_participants c ≡ true in
    let calls = joined_calls user_id d.call_sessions d.call_participants in
    let ordered = order_desc started calls in
    (
      length-take limit (drop offset ordered),
      take-IsDescending started limit (drop offset ordered)
          (drop-IsDescending started offset ordered (order-IsDescending started calls)),
      All-take joined limit (drop offset ordered) (
          All-drop joined offset ordered (
            All-order joined started calls
              (joined_calls-joined user_id d.call_sessions d.call_participants))),
    )

-- With a limit that is large enough the history has each call once for each participation of the
-- user in it.
pub get_call_history_complete :
    (user_id limit : ℕ) (d : Database) (q : CallSession → Bool)
    → length (ordered_calls user_id d) ≤ limit
    → count_where q (get_call_history user_id limit 0 d)
      ≡ count_where q (joined_calls user_id d.call_sessions d.call_participants)
unfolding get_call_history
get_call_history_complete user_id limit d q h =
    rw (take_all limit (ordered_calls user_id d) h) (count-order q started _)
