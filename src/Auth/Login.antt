-- ===== src/Auth/Login.antt =====
-- `AuthService.login`: who gets in, what a refusal says, and the lockout.
use video_calling.Base.{
  ℕ, ◌≡◌, ◌⊎◌, inl, inr, refl, sym, ap, ◌∙◌, not, ◌&&◌, Bool-cases, true, false, none, some, [],
  ◌∷◌, ◌++◌, arith, find_row, Option-cases,
}
use video_calling.Database.{
  Database, User, RefreshToken, Text, Error, unauthorized, invalid_credentials, unique_violation,
  ok, err,
}
use video_calling.External.{External}
use video_calling.Users.{
  find_by_email, increment_failed_attempts, reset_failed_attempts, is_locked, clear_failures,
}
use video_calling.Users.Lockout.{find_by_email-reset}
use video_calling.Sessions.Live.{find_active-create}
use video_calling.Sessions.{
  issue_token_set, insert_token, upsert_csrf, create_session, find_active_session, with_hash,
  new_token, new_session, session_with_id,
}
use video_calling.Auth.{AuthTokens, Draws, Config, issue_tokens, login, access_token_expiry_seconds}

module _ (ext : External) (config : Config) where
  -- The tokens that a call hands out.
  abbrev pub issued : Draws → (user_id : ℕ) → AuthTokens
  issued draws user_id = record {
    access_token = ext.jwt_sign user_id draws.session_id;
    refresh_token = draws.token.raw;
    csrf_token = draws.raw_csrf;
    expires_in = access_token_expiry_seconds config.jwt_access_expiry;
  }

  -- The session is written before the token; the token's digest may be taken.
  pub issue_tokens-cases :
      (draws : Draws) (now user_id : ℕ) (ip_address : Text) (user_agent : ℕ) (d : Database)
      → ((t : RefreshToken) × (find_row (with_hash (ext.sha256 draws.token.raw)) d.refresh_tokens
            ≡ some t)
          × (issue_tokens ext config draws now user_id ip_address user_agent d ≡ (
            err unique_violation,
            create_session draws.session_id user_id ip_address user_agent now d,
          )))
        ⊎ ((find_row (with_hash (ext.sha256 draws.token.raw)) d.refresh_tokens ≡ none)
            × (issue_tokens ext config draws now user_id ip_address user_agent d ≡ (
              ok (issued draws user_id),
              upsert_csrf ext.sha256 draws.raw_csrf draws.session_id now
                  (record (create_session draws.session_id user_id ip_address user_agent now d) {
                    refresh_tokens =
                        d.refresh_tokens
                        ++ new_token draws.token.token_id draws.session_id
                            (ext.sha256 draws.token.raw)
                            draws.family_id
                            now
                          ∷ [];
                  }),
            )))
  unfolding issue_tokens issue_token_set insert_token create_session
  issue_tokens-cases draws now user_id ip_address user_agent d =
      elim (Option-cases (find_row (with_hash (ext.sha256 draws.token.raw)) d.refresh_tokens)) [
        | inl free ↦ inr (free, ground arith)
        | inr (old, taken) ↦ inl (old, taken, ground arith)
      ]

  -- A successful login found an active user who is not locked, by a password that verifies.
  pub login_ok :
      (draws : Draws) (now email password : ℕ) (ip_address : Text) (user_agent : ℕ)
      (d d' : Database) (t : AuthTokens)
      → login ext config draws now email password ip_address user_agent d ≡ (ok t, d')
      → (u : User) × (find_by_email email d ≡ some u)
        × (ext.argon2_verify u.password_hash password ≡ true)
        × (u.is_active ≡ true)
        × (is_locked u now ≡ false)
  unfolding login
  login_ok draws now email password ip_address user_agent d d' t h =
      elim (Option-cases (find_by_email email d)) [
        | inl missing ↦ absurd (ground arith)
        | inr (u, found) ↦ (u, found, ground arith, ground arith, ground arith)
      ]

  -- The account of the e-mail address, by which a login gets in.
  abbrev pub GetsIn : (now email password : ℕ) → Database → User → Type 0
  GetsIn now email password d u =
      (find_by_email email d ≡ some u)
      × (ext.argon2_verify u.password_hash password ≡ true)
      × (u.is_active ≡ true)
      × (is_locked u now ≡ false)

  -- A refused login either gives the one answer for wrong credentials, and then no session, refresh
  -- token or CSRF token is written; or it fails because the drawn token's digest is taken, and then
  -- the account is active and not locked, the password verifies, and no refresh token is written.
  pub login_refused :
      (draws : Draws) (now email password : ℕ) (ip_address : Text) (user_agent : ℕ)
      (d d' : Database) (e : Error)
      → login ext config draws now email password ip_address user_agent d ≡ (err e, d')
      → ((e ≡ unauthorized invalid_credentials)
          × (d'.sessions ≡ d.sessions)
          × (d'.refresh_tokens ≡ d.refresh_tokens)
          × (d'.csrf_tokens ≡ d.csrf_tokens))
        ⊎ ((e ≡ unique_violation)
            × (u : User) × GetsIn now email password d u
            × (t : RefreshToken) × (find_row
                  (with_hash (ext.sha256 draws.token.raw))
                  d.refresh_tokens
                ≡ some t)
            × (d'.refresh_tokens ≡ d.refresh_tokens))
  unfolding login increment_failed_attempts reset_failed_attempts create_session
  login_refused draws now email password ip_address user_agent d d' e h =
      elim (Option-cases (find_by_email email d)) [
        | inl missing ↦ inl (ground arith)
        | inr (u, found) ↦
            elim (Bool-cases (
              ext.argon2_verify u.password_hash password
              && (u.is_active && not (is_locked u now)))) [
                | inr stopped ↦ inl (ground arith)
                | inl passed ↦
                    let d0 = reset_failed_attempts u.id d in
                    let entered : login ext config draws now email password ip_address user_agent d
                        ≡ issue_tokens ext config draws now u.id ip_address user_agent d0 =
                      ground arith in
                    elim (issue_tokens-cases draws now u.id ip_address user_agent d0) [
                      | inl (t, taken, failed) ↦
                          let same = sym h ∙ (entered ∙ failed) in
                          inr (
                            ground (arith, same),
                            u,
                            (found, ground arith, ground arith, ground arith),
                            t,
                            taken,
                            ap (λ r. r.1.refresh_tokens) same,
                          )
                      | inr (free, done) ↦ absurd (ground (arith, sym h ∙ (entered ∙ done)))
                    ]
              ]
      ]

  -- An active user who is not locked and gives the right password is let in, whatever the number of
  -- failures before, if the drawn token's digest is new; the failures are forgotten and the new
  -- session is active until seven days have passed.
  pub login_succeeds :
      (draws : Draws) (now email password : ℕ) (ip_address : Text) (user_agent : ℕ) (d : Database)
      (u : User)
      → find_by_email email d ≡ some u
      → ext.argon2_verify u.password_hash password ≡ true
      → u.is_active ≡ true
      → is_locked u now ≡ false
      → find_row (with_hash (ext.sha256 draws.token.raw)) d.refresh_tokens ≡ none
      → find_row (session_with_id draws.session_id) d.sessions ≡ none
      → let (answer, after) = login ext config draws now email password ip_address user_agent d in
        (answer ≡ ok (issued draws u.id))
        × (find_by_email email after ≡ some (clear_failures u))
        × (find_active_session draws.session_id now after
            ≡ some (new_session draws.session_id u.id ip_address user_agent now))
  unfolding login
  login_succeeds draws now email password ip_address user_agent d u found right active unlocked free
        new =
      elim (issue_tokens-cases draws now u.id ip_address user_agent
        (reset_failed_attempts u.id d)) [
          | inl (_, taken, _) ↦ absurd (unfold reset_failed_attempts in ground arith)
          | inr (_, done) ↦
              let entered : login ext config draws now email password ip_address user_agent d
                  ≡ issue_tokens ext config draws now u.id ip_address user_agent
                      (reset_failed_attempts u.id d) =
                ground arith in
              rw (entered, done)
                (
                  refl,
                  unfold find_by_email upsert_csrf create_session in
                      find_by_email-reset email d u found,
                  unfold find_active_session upsert_csrf create_session in
                      find_active-create draws.session_id u.id ip_address user_agent now now
                        (reset_failed_attempts u.id d) (unfold reset_failed_attempts in new)
                        (omega arith),
                )
        ]
