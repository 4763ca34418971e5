-- ===== src/Sessions/Live.antt =====
-- Which sessions are active after one is opened or revoked (src/sessions/repositories/session.repository.ts).
use video_calling.Base.{
  ℕ, ◌+◌, ◌<◌, ◌≡◌, ◌≢◌, refl, ◌∙◌, none, some, List, [], ◌∷◌, arith, find_row, update_where,
  find_row-append,
}
use video_calling.Database.{Database, Session, Text}
use video_calling.Sessions.{
  seven_days, session_with_id, session_of_user, is_live, revoked, new_session, create_session,
  find_active_session, revoke_session, revoke_all_user_sessions,
}

not_live_of_absent :
    (id now : ℕ) (rows : List Session)
    → find_row (session_with_id id) rows ≡ none
    → find_row (is_live id now) rows ≡ none
not_live_of_absent id now [] h = refl
not_live_of_absent id now (s ∷ rows) h = ground (arith, not_live_of_absent id now rows)

-- A session under a new id is active until its seven days are over.
pub find_active-create :
    (id user_id : ℕ) (ip_address : Text) (user_agent now later : ℕ) (d : Database)
    → find_row (session_with_id id) d.sessions ≡ none
    → later < now + seven_days
    → find_active_session id later (create_session id user_id ip_address user_agent now d)
      ≡ some (new_session id user_id ip_address user_agent now)
unfolding find_active_session create_session
find_active-create id user_id ip_address user_agent now later d new h =
    find_row-append (is_live id later) d.sessions _ (not_live_of_absent id later d.sessions new)
    ∙ ground arith

revoked-not_live :
    (id now : ℕ) (rows : List Session)
    → find_row (is_live id now) (update_where (session_with_id id) revoked rows) ≡ none
revoked-not_live id now [] = refl
revoked-not_live id now (s ∷ rows) = ground (arith, revoked-not_live id now rows)

-- A revoked session is active at no instant.
pub find_active-revoke :
    (id now : ℕ) (d : Database) → find_active_session id now (revoke_session id d) ≡ none
unfolding find_active_session revoke_session
find_active-revoke id now d = revoked-not_live id now d.sessions

kept-live :
    (id other now : ℕ) (rows : List Session)
    → id ≢ other
    → find_row (is_live id now) (update_where (session_with_id other) revoked rows)
      ≡ find_row (is_live id now) rows
kept-live id other now [] h = refl
kept-live id other now (s ∷ rows) h = ground (arith, kept-live id other now rows h)

-- The other sessions stay as they were.
pub find_active-revoke_ne :
    (id other now : ℕ) (d : Database)
    → id ≢ other
    → find_active_session id now (revoke_session other d) ≡ find_active_session id now d
unfolding find_active_session revoke_session
find_active-revoke_ne id other now d h = kept-live id other now d.sessions h

revoked_user-not_live :
    (id now user_id : ℕ) (rows : List Session) {s : Session}
    → find_row (is_live id now) (update_where (session_of_user user_id) revoked rows) ≡ some s
    → s.user_id ≢ user_id
revoked_user-not_live id now user_id [] h = cc
revoked_user-not_live id now user_id (r ∷ rows) {s} h =
    ground (arith, revoked_user-not_live id now user_id rows {s = s})

-- After all sessions of a user are revoked, a session that is active belongs to somebody else.
pub find_active-revoke_all :
    (id now user_id : ℕ) (d : Database) (s : Session)
    → find_active_session id now (revoke_all_user_sessions user_id d) ≡ some s
    → s.user_id ≢ user_id
unfolding find_active_session revoke_all_user_sessions
find_active-revoke_all id now user_id d s h = revoked_user-not_live id now user_id d.sessions h
