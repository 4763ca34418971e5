-- ===== src/Auth/Access.antt =====
-- Refreshing, logging out, and what the guard of a protected route lets through.
use video_calling.Base.{
  ℕ, ◌≡◌, ◌≢◌, ◌⊎◌, inl, inr, refl, ap, sym, ◌∙◌, false, Option, none, some, arith, find_row,
  Option-cases,
}
use video_calling.Database.{
  Database, Session, RefreshToken, unauthorized, auth_required, ok, err, >>=-eq-ok,
}
use video_calling.External.{External}
use video_calling.Sessions.{
  Rotated, rotate, rotate_refresh_token, upsert_csrf, with_hash, find_active_session, is_live,
  revoke_session, revoke_all_user_sessions, with_new_csrf,
}
use video_calling.Sessions.Rotation.{HasRotated, rotate-HasRotated}
use video_calling.Sessions.Live.{find_active-revoke, find_active-revoke_ne, find_active-revoke_all}
use video_calling.Auth.{
  AuthTokens, Draws, Config, JwtPayload, refresh, logout, logout_all, jwt_can_activate,
  refresh_answer,
}

-- A protected route runs exactly for a verified token whose session is active, with that token's
-- claims; every other call gets the one answer, and the guard writes nothing.
pub guard_passes :
    (now : ℕ) (verified : Option JwtPayload) (d : Database)
    → ((p : JwtPayload) × (s : Session) × (verified ≡ some p)
        × (find_active_session p.sid now d ≡ some s)
        × (jwt_can_activate now false verified d ≡ (ok (some p), d)))
      ⊎ (((p : JwtPayload) → verified ≡ some p → find_active_session p.sid now d ≡ none)
          × (jwt_can_activate now false verified d ≡ (err (unauthorized auth_required), d)))
unfolding jwt_can_activate
guard_passes now none d = inr (λ p e. cc, refl)
guard_passes now (some p) d = elim (Option-cases (find_active_session p.sid now d)) [
  | inl dead ↦ inr (λ q e. ground arith, ground arith)
  | inr (s, live) ↦ inl (p, s, refl, live, ground arith)
]

-- After a logout no token of that session passes at any instant, and tokens of other sessions fare
-- as before.
pub logout_effect :
    (now user_id sid : ℕ) (p : JwtPayload) (d : Database)
    → (p.sid ≡ sid
        → (jwt_can_activate now false (some p) (logout sid user_id d)).0
          ≡ err (unauthorized auth_required))
      × (p.sid ≢ sid
          → (jwt_can_activate now false (some p) (logout sid user_id d)).0
            ≡ (jwt_can_activate now false (some p) d).0)
unfolding jwt_can_activate logout
logout_effect now user_id sid p d = (
  λ same. ground (arith, find_active-revoke sid now d),
  λ other. ground (arith, find_active-revoke_ne p.sid sid now d),
)

-- After a logout from everywhere a token that still passes has the session of another user.
pub logout_all_effect :
    (now user_id : ℕ) (p q : JwtPayload) (d d' : Database)
    → jwt_can_activate now false (some p) (logout_all user_id d) ≡ (ok (some q), d')
    → (s : Session) × (find_active_session p.sid now (logout_all user_id d) ≡ some s)
      × (s.user_id ≢ user_id)
unfolding jwt_can_activate logout_all
logout_all_effect now user_id p q d d' h =
    elim (Option-cases (find_active_session p.sid now (revoke_all_user_sessions user_id d))) [
      | inl dead ↦ absurd (ground arith)
      | inr (s, live) ↦ (s, live, find_active-revoke_all p.sid now user_id d s live)
    ]

find_active_of_sessions :
    (id now : ℕ) (d e : Database)
    → e.sessions ≡ d.sessions
    → find_active_session id now e ≡ find_active_session id now d
unfolding find_active_session
find_active_of_sessions id now d e h = ap (find_row (is_live id now)) h

module _ (ext : External) (config : Config) where
  rotate_refresh_token-HasRotated :
      (draws : Draws) (now raw : ℕ) (d e : Database) (r : Rotated)
      → rotate_refresh_token ext.sha256 draws.token draws.raw_csrf now raw d ≡ (ok r, e)
      → (e' : Database) × HasRotated ext.sha256 draws.token now raw d r e'
        × (e.sessions ≡ d.sessions)
  unfolding rotate_refresh_token upsert_csrf
  rotate_refresh_token-HasRotated draws now raw d e r h =
      let (r', e', first, second) =
        >>=-eq-ok (with_new_csrf ext.sha256 draws.raw_csrf now)
          (rotate ext.sha256 draws.token now raw) d h in
      let same : r' ≡ r = cc in
      let done = rotate-HasRotated ext.sha256 draws.token now raw d e' r (rw (← same) first) in
      let kept : e.sessions ≡ e'.sessions = sym (ap (λ x. x.1.sessions) second) in
      (e', done, kept ∙ done.sessions_kept)

  -- A refresh that succeeds has rotated the token that was presented, its session is active at that
  -- instant, and the new access token names that session and its user.
  pub refresh_ok :
      (draws : Draws) (now raw : ℕ) (d d' : Database) (t : AuthTokens)
      → refresh ext config draws now raw d ≡ (ok t, d')
      → (r : Rotated) × (e : Database) × (s : Session) × HasRotated ext.sha256 draws.token now raw d
          r e
        × (find_active_session r.session_id now d ≡ some s)
        × (t.access_token ≡ ext.jwt_sign s.user_id r.session_id)
        × (t.refresh_token ≡ draws.token.raw)
  unfolding refresh
  refresh_ok draws now raw d d' t h =
      let (r, e, rotated, rest) =
        >>=-eq-ok (refresh_answer ext config draws now)
          (rotate_refresh_token ext.sha256 draws.token draws.raw_csrf now raw) d h in
      let (e', done, kept) = rotate_refresh_token-HasRotated draws now raw d e r rotated in
      elim (Option-cases (find_active_session r.session_id now e)) [
        | inl dead ↦ absurd (ground arith)
        | inr (s, live) ↦ (
          r,
          e',
          s,
          done,
          sym (find_active_of_sessions r.session_id now d e kept) ∙ live,
          ground arith,
          ground (arith, done.returned),
        )
      ]

  -- After a logout the refresh tokens of that session are refused at every instant.
  pub refresh-logout :
      (draws : Draws) (now user_id raw : ℕ) (d d' : Database) (t : AuthTokens) (held : RefreshToken)
      → find_row (with_hash (ext.sha256 raw)) d.refresh_tokens ≡ some held
      → refresh ext config draws now raw (logout held.session_id user_id d) ≢ (ok t, d')
  unfolding logout
  refresh-logout draws now user_id raw d d' t held e h =
      let (r, e', s, done, live, _, _) =
        refresh_ok draws now raw (revoke_session held.session_id d) d' t h in
      let shown : find_row (with_hash (ext.sha256 raw)) d.refresh_tokens ≡ some done.token =
        unfold revoke_session in done.presented in
      let same : done.token ≡ held = ground arith in
      ground (arith, done.returned, find_active-revoke held.session_id now d)
