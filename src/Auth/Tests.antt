-- ===== src/Auth/Tests.antt =====
-- The properties of this component at concrete inputs.
use video_calling.Base.{find_row, some, ℕ, ◌≡◌, ◌⊎◌, refl, List, [], ◌∷◌, arith}
use video_calling.Database.{Error, unauthorized, invalid_credentials, unique_violation, err}
use video_calling.Samples.{ext, config, draws, signed_in, ada}
use video_calling.Users.{find_by_email, increment_failed_attempts, reset_failed_attempts}
use video_calling.Sessions.{
  rotate, find_active_session, upsert_csrf, issue_token_set, insert_token, create_session,
  rotate_refresh_token,
}
use video_calling.Sessions.{with_hash}
use video_calling.Database.{User, RefreshToken}
use video_calling.Auth.{
  JwtPayload, access_token_expiry_seconds, issue_tokens, login, refresh, logout, logout_all,
}
use video_calling.Auth.Expiry.{IsDuration}
use video_calling.Auth.Login.{GetsIn, login_refused}
use video_calling.Auth.Lockout.{Attempt, attack, try, lockout}

all : Unit {0}
unfolding login refresh find_by_email issue_tokens issue_token_set insert_token create_session
    upsert_csrf reset_failed_attempts increment_failed_attempts access_token_expiry_seconds
    rotate_refresh_token rotate find_active_session logout logout_all
all = tt

fifteen_minutes : access_token_expiry_seconds (b'1' ∷ b'5' ∷ b'm' ∷ []) ≡ 900
unfolding access_token_expiry_seconds
fifteen_minutes = refl

seconds_not_IsDuration : ¬ IsDuration (b's' ∷ [])
seconds_not_IsDuration d = ground (arith, d.all_digits, d.shape)

login_refused_example :
    let e : Error = unauthorized invalid_credentials in
    let after = (login ext config draws 10 100 41 [] 0 signed_in).1 in
    ((e ≡ unauthorized invalid_credentials)
      × (after.sessions ≡ signed_in.sessions)
      × (after.refresh_tokens ≡ signed_in.refresh_tokens)
      × (after.csrf_tokens ≡ signed_in.csrf_tokens))
    ⊎ ((e ≡ unique_violation)
        × (u : User) × GetsIn ext config 10 100 41 signed_in u
        × (t : RefreshToken) × (find_row
              (with_hash (ext.sha256 draws.token.raw))
              signed_in.refresh_tokens
            ≡ some t)
        × (after.refresh_tokens ≡ signed_in.refresh_tokens))
unfolding all
login_refused_example =
    login_refused ext config draws 10 100 41 [] 0 signed_in
      (login ext config draws 10 100 41 [] 0 signed_in).1 (unauthorized invalid_credentials) refl

abbrev attempt : (now password : ℕ) → Attempt
attempt now password = record {
  draws = draws;
  now = now;
  password = password;
  ip_address = [];
  user_agent = 0;
}

abbrev guesses : List Attempt
guesses = attempt 1 7 ∷ attempt 2 8 ∷ attempt 3 9 ∷ attempt 4 10 ∷ []

lockout_example :
    let locked = try ext config 100 (attempt 5 11) (attack ext config 100 guesses signed_in) in
    login ext config draws 900_004 100 42 [] 0 locked
    ≡ (err (unauthorized invalid_credentials), locked)
unfolding all
lockout_example =
    lockout ext config 100 guesses (attempt 5 11) (attempt 900_004 42) signed_in ada refl refl refl
      (refl, (refl, (refl, (refl, tt)))) refl refl (omega arith)

abbrev payload : JwtPayload
payload = record { sub = 1; sid = 7 }
