-- ===== src/Sessions.antt =====
-- src/sessions: sessions.service.ts over its three repositories. The log lines of `AppLogger` are
-- left out. `hash` is SHA-256; UUIDs and random bytes are arguments of the calls that draw them.
pub mod Rotation
pub mod Live
pub mod Family
pub mod Csrf
mod Tests
use video_calling.Base.{
  ℕ, ◌+◌, ◌*◌, Bool, true, false, Option, none, some, List, ◌∷◌, [], ◌++◌, ltb, ◌==◌, ◌&&◌, not,
  if◌then◌else◌, find_row, update_where, is_some, exists_where,
}
use video_calling.Database.{
  Database, Session, RefreshToken, CsrfToken, Text, Error, unauthorized, unique_violation,
  invalid_refresh_token, refresh_token_expired, Result, ok, err, Action, gets, modify, pure, ◌>>=◌,
  ◌>>◌,
}

-- The column defaults `now() + INTERVAL '7 days'` and '24 hours'.
abbrev pub seven_days : ℕ
seven_days = 7 * 86_400_000

abbrev pub one_day : ℕ
one_day = 86_400_000

-- session.repository.ts

abbrev pub session_with_id : ℕ → Session → Bool
session_with_id id s = s.id == id

abbrev pub session_of_user : ℕ → Session → Bool
session_of_user user_id s = s.user_id == user_id

-- The WHERE clause of `findActiveById`.
abbrev pub is_live : (id now : ℕ) → Session → Bool
is_live id now s = s.id == id && (not s.is_revoked && ltb now s.expires_at)

abbrev pub revoked : Session → Session
revoked s = record s { is_revoked = true }

abbrev pub new_session : (id user_id : ℕ) (ip_address : Text) (user_agent now : ℕ) → Session
new_session id user_id ip_address user_agent now = record {
  id = id;
  user_id = user_id;
  ip_address = ip_address;
  user_agent = user_agent;
  is_revoked = false;
  created_at = now;
  expires_at = now + seven_days;
}

-- The caller has just read the user, so the foreign key holds.
unfoldable pub create_session :
    (id user_id : ℕ) (ip_address : Text) (user_agent now : ℕ) → Database → Database
create_session id user_id ip_address user_agent now d = record d {
  sessions = d.sessions ++ new_session id user_id ip_address user_agent now ∷ [];
}

unfoldable pub find_active_session : (session_id now : ℕ) → Database → Option Session
find_active_session session_id now d = find_row (is_live session_id now) d.sessions

unfoldable pub revoke_session : (session_id : ℕ) → Database → Database
revoke_session session_id d = record d {
  sessions = update_where (session_with_id session_id) revoked d.sessions;
}

unfoldable pub revoke_all_user_sessions : (user_id : ℕ) → Database → Database
revoke_all_user_sessions user_id d = record d {
  sessions = update_where (session_of_user user_id) revoked d.sessions;
}

-- csrf-token.repository.ts

abbrev csrf_of_session : ℕ → CsrfToken → Bool
csrf_of_session session_id t = t.session_id == session_id

abbrev csrf_matches : (session_id token_hash now : ℕ) → CsrfToken → Bool
csrf_matches session_id token_hash now t =
    t.session_id == session_id && (t.token_hash == token_hash && ltb now t.expires_at)

-- INSERT … ON CONFLICT (session_id) DO UPDATE
upsert_row : (session_id token_hash now : ℕ) → List CsrfToken → List CsrfToken
upsert_row session_id token_hash now rows =
    if exists_where (csrf_of_session session_id) rows
    then update_where (csrf_of_session session_id)
        (λ t. record t { token_hash = token_hash; expires_at = now + one_day }) rows
    else rows
      ++ record { session_id = session_id; token_hash = token_hash; expires_at = now + one_day }
        ∷ []

module _ (hash : ℕ → ℕ) where
  unfoldable pub upsert_csrf : (raw session_id now : ℕ) → Database → Database
  unfolding upsert_row
  upsert_csrf raw session_id now d = record d {
    csrf_tokens = upsert_row session_id (hash raw) now d.csrf_tokens;
  }

  -- `CsrfTokenRepository.isValid`, and `SessionsService.validateCsrfToken`
  unfoldable pub is_valid_csrf : (session_id raw now : ℕ) → Database → Bool
  is_valid_csrf session_id raw now d =
      exists_where (csrf_matches session_id (hash raw) now) d.csrf_tokens

-- refresh-token.repository.ts

abbrev pub with_hash : ℕ → RefreshToken → Bool
with_hash token_hash t = t.token_hash == token_hash

abbrev pub token_with_id : ℕ → RefreshToken → Bool
token_with_id id t = t.id == id

abbrev pub in_family : ℕ → RefreshToken → Bool
in_family family_id t = t.family_id == family_id

abbrev pub used : RefreshToken → RefreshToken
used t = record t { is_used = true }

-- What a call of the token repository draws: the row's id and the random bytes.
pub record Drawn : Type 0 where
  pub token_id : ℕ
  pub raw : ℕ

abbrev pub new_token : (id session_id token_hash family_id now : ℕ) → RefreshToken
new_token id session_id token_hash family_id now = record {
  id = id;
  session_id = session_id;
  token_hash = token_hash;
  family_id = family_id;
  is_used = false;
  expires_at = now + seven_days;
}

-- The INSERT: `token_hash` is UNIQUE.
unfoldable pub insert_token : RefreshToken → Action Database (Unit {0})
insert_token t d =
    if is_some (find_row (with_hash t.token_hash) d.refresh_tokens)
    then (err unique_violation, d)
    else (ok tt, record d { refresh_tokens = d.refresh_tokens ++ t ∷ [] })

abbrev mark_used : (id : ℕ) → Database → Database
mark_used id d = record d { refresh_tokens = update_where (token_with_id id) used d.refresh_tokens }

-- Reuse: the whole family is used up and the session revoked.
unfoldable pub revoke_family : RefreshToken → Database → Database
revoke_family t d = record d {
  refresh_tokens = update_where (in_family t.family_id) used d.refresh_tokens;
  sessions = update_where (session_with_id t.session_id) revoked d.sessions;
}

-- ROLLBACK, when a statement after BEGIN throws: the database is as it was.
abbrev rollback_on_error {ℓ} : {A : Type ℓ} → Database → Result A × Database → Result A × Database
rollback_on_error d (ok a, d') = (ok a, d')
rollback_on_error d (err e, d') = (err e, d)

pub record Rotated : Type 0 where
  pub new_raw_token : ℕ
  pub session_id : ℕ

module _ (hash : ℕ → ℕ) where
  -- The happy path, inside the transaction.
  unfoldable pub replace_token : Drawn → (now : ℕ) → RefreshToken → Action Database Rotated
  unfolding insert_token
  replace_token drawn now t d = rollback_on_error d (
      (do
        modify (mark_used t.id)
        insert_token (new_token drawn.token_id t.session_id (hash drawn.raw) t.family_id now)
        pure (record { new_raw_token = drawn.raw; session_id = t.session_id }))
        d)

  rotate_row : Drawn → (now : ℕ) → Option RefreshToken → Action Database Rotated
  unfolding replace_token revoke_family
  rotate_row drawn now none d = (err (unauthorized invalid_refresh_token), d)
  rotate_row drawn now (some t) d =
      if ltb t.expires_at now
      then (err (unauthorized refresh_token_expired), d)
      else if t.is_used
      then (err (unauthorized invalid_refresh_token), revoke_family t d)
      else replace_token drawn now t d

  -- The row lock makes the transaction one step.
  unfoldable pub rotate : Drawn → (now raw : ℕ) → Action Database Rotated
  unfolding rotate_row
  rotate drawn now raw d = rotate_row drawn now (find_row (with_hash (hash raw)) d.refresh_tokens) d

  -- `SessionsService.issueTokenSet`
  unfoldable pub issue_token_set :
      Drawn → (family_id raw_csrf session_id now : ℕ) → Action Database (Unit {0})
  unfolding insert_token upsert_csrf
  issue_token_set drawn family_id raw_csrf session_id now = do
    insert_token (new_token drawn.token_id session_id (hash drawn.raw) family_id now)
    modify (upsert_csrf hash raw_csrf session_id now)

  abbrev pub with_new_csrf : (raw_csrf now : ℕ) → Rotated → Action Database Rotated
  with_new_csrf raw_csrf now result = do
    modify (upsert_csrf hash raw_csrf result.session_id now)
    pure result

  -- `SessionsService.rotateRefreshToken`
  unfoldable pub rotate_refresh_token : Drawn → (raw_csrf now raw : ℕ) → Action Database Rotated
  unfolding rotate upsert_csrf
  rotate_refresh_token drawn raw_csrf now raw = rotate drawn now raw >>= with_new_csrf raw_csrf now
