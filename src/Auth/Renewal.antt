-- ===== src/Auth/Renewal.antt =====
-- `AuthService.login` followed by `AuthService.refresh`: the token that was handed out is accepted.
use video_calling.Base.{
  ℕ, ◌+◌, ◌≤◌, ◌<◌, ◌≡◌, inl, inr, refl, ap, ◌∙◌, true, false, none, some, [], ◌∷◌, ◌++◌, arith,
  find_row, update_where, find_row-append, find_row-update_none,
}
use video_calling.Database.{Database, User, Session, RefreshToken, Text, ok, >>=-ok}
use video_calling.External.{External}
use video_calling.Users.{find_by_email, is_locked, reset_failed_attempts}
use video_calling.Sessions.{
  seven_days, with_hash, token_with_id, used, new_token, new_session, session_with_id,
  create_session, find_active_session, upsert_csrf, insert_token, rotate, replace_token,
  rotate_refresh_token, with_new_csrf,
}
use video_calling.Sessions.Rotation.{replaced}
use video_calling.Sessions.Live.{find_active-create}
use video_calling.Auth.{
  AuthTokens, Draws, Config, login, refresh, issue_tokens, refresh_answer,
  access_token_expiry_seconds,
}
use video_calling.Auth.Login.{issued, issue_tokens-cases}

module _ (ext : External) (config : Config) where
  -- What a refresh hands out for a session of the user.
  abbrev pub renewed_tokens : Draws → (user_id session_id : ℕ) → AuthTokens
  renewed_tokens draws user_id session_id = record {
    access_token = ext.jwt_sign user_id session_id;
    refresh_token = draws.token.raw;
    csrf_token = draws.raw_csrf;
    expires_in = access_token_expiry_seconds config.jwt_access_expiry;
  }

  replace_succeeds :
      (draws : Draws) (now : ℕ) (t : RefreshToken) (d : Database)
      → find_row
          (with_hash (ext.sha256 draws.token.raw))
          (update_where (token_with_id t.id) used d.refresh_tokens)
        ≡ none
      → replace_token ext.sha256 draws.token now t d ≡ (
        ok (record { new_raw_token = draws.token.raw; session_id = t.session_id }),
        record d { refresh_tokens = replaced ext.sha256 draws.token now t d.refresh_tokens },
      )
  unfolding replace_token insert_token
  replace_succeeds draws now t d free = ground arith

  rotate_succeeds :
      (draws : Draws) (now raw : ℕ) (t : RefreshToken) (d : Database)
      → find_row (with_hash (ext.sha256 raw)) d.refresh_tokens ≡ some t
      → now ≤ t.expires_at
      → t.is_used ≡ false
      → find_row (with_hash (ext.sha256 draws.token.raw)) d.refresh_tokens ≡ none
      → rotate ext.sha256 draws.token now raw d ≡ (
        ok (record { new_raw_token = draws.token.raw; session_id = t.session_id }),
        record d { refresh_tokens = replaced ext.sha256 draws.token now t d.refresh_tokens },
      )
  unfolding rotate
  rotate_succeeds draws now raw t d found le fresh free = ground (
    arith,
    replace_succeeds draws now t d (
        find_row-update_none (with_hash (ext.sha256 draws.token.raw)) (token_with_id t.id) used
          d.refresh_tokens (λ y. refl) free),
  )

  answer_live :
      (draws : Draws) (now session_id : ℕ) (s : Session) (d : Database)
      → find_active_session session_id now d ≡ some s
      → (refresh_answer ext config draws now
          (record { new_raw_token = draws.token.raw; session_id = session_id })
          d).0
        ≡ ok (renewed_tokens draws s.user_id session_id)
  answer_live draws now session_id s d live = ground arith

  -- A stored token that is unused and unexpired, of an active session, is exchanged for new ones of
  -- that session and its user, if the drawn token's digest is new.
  pub refresh_succeeds :
      (draws : Draws) (now raw : ℕ) (t : RefreshToken) (s : Session) (d : Database)
      → find_row (with_hash (ext.sha256 raw)) d.refresh_tokens ≡ some t
      → now ≤ t.expires_at
      → t.is_used ≡ false
      → find_row (with_hash (ext.sha256 draws.token.raw)) d.refresh_tokens ≡ none
      → find_active_session t.session_id now d ≡ some s
      → (refresh ext config draws now raw d).0 ≡ ok (renewed_tokens draws s.user_id t.session_id)
  unfolding refresh rotate_refresh_token
  refresh_succeeds draws now raw t s d found le fresh free live =
      let rotated = rotate_succeeds draws now raw t d found le fresh free in
      let stored =
        >>=-ok (with_new_csrf ext.sha256 draws.raw_csrf now) (rotate ext.sha256 draws.token now raw)
          d rotated in
      let after : Database =
        upsert_csrf ext.sha256 draws.raw_csrf t.session_id now
          (record d { refresh_tokens = replaced ext.sha256 draws.token now t d.refresh_tokens }) in
      let still : find_active_session t.session_id now after ≡ some s =
        unfold upsert_csrf find_active_session in live in
      ap (λ r. r.0)
        (>>=-ok (refresh_answer ext config draws now)
          (rotate_refresh_token ext.sha256 draws.token draws.raw_csrf now raw) d stored)
      ∙ answer_live draws now t.session_id s after still

  -- An active user who is not locked signs in with the right password, if the drawn digest and the
  -- session's id are new. For the seven days that follow, the refresh token of that answer is
  -- accepted if the digest drawn then is new, and the new tokens are of the same session and user.
  pub login-refresh :
      (draws again : Draws) (now later email password : ℕ) (ip_address : Text) (user_agent : ℕ)
      (d : Database) (u : User)
      → find_by_email email d ≡ some u
      → ext.argon2_verify u.password_hash password ≡ true
      → u.is_active ≡ true
      → is_locked u now ≡ false
      → find_row (with_hash (ext.sha256 draws.token.raw)) d.refresh_tokens ≡ none
      → find_row (session_with_id draws.session_id) d.sessions ≡ none
      → later < now + seven_days
      → let (answer, after) = login ext config draws now email password ip_address user_agent d in
        (answer ≡ ok (issued ext config draws u.id))
        × (find_row (with_hash (ext.sha256 again.token.raw)) after.refresh_tokens ≡ none
            → (refresh ext config again later draws.token.raw after).0
              ≡ ok (renewed_tokens again u.id draws.session_id))
  unfolding login
  login-refresh draws again now later email password ip_address user_agent d u found right active
        unlocked free new le =
      elim (issue_tokens-cases ext config draws now u.id ip_address user_agent
        (reset_failed_attempts u.id d)) [
          | inl (_, taken, _) ↦ absurd (unfold reset_failed_attempts in ground arith)
          | inr (_, done) ↦
              let entered : login ext config draws now email password ip_address user_agent d
                  ≡ issue_tokens ext config draws now u.id ip_address user_agent
                      (reset_failed_attempts u.id d) =
                ground arith in
              let row : RefreshToken =
                new_token draws.token.token_id draws.session_id (ext.sha256 draws.token.raw)
                  draws.family_id now in
              let stored : find_row (with_hash (ext.sha256 draws.token.raw))
                    (d.refresh_tokens ++ row ∷ [])
                  ≡ some row =
                find_row-append _ d.refresh_tokens (row ∷ []) free ∙ ground arith in
              rw (entered, done)
                (
                  refl,
                  λ unseen.
                      refresh_succeeds again later draws.token.raw row
                        (new_session draws.session_id u.id ip_address user_agent now) _
                        (unfold upsert_csrf reset_failed_attempts in stored) (omega (arith, le))
                        refl unseen
                        (unfold find_active_session upsert_csrf create_session in
                          find_active-create draws.session_id u.id ip_address user_agent now later
                            (reset_failed_attempts u.id d) (unfold reset_failed_attempts in new)
                            le),
                )
        ]
