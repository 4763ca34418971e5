-- ===== src/Auth.antt =====
-- src/auth: auth.service.ts, strategies/jwt.strategy.ts and the guards. `now` is the instant of the
-- call; what a call draws at random is in `Draws`. Log lines are left out.
pub mod Expiry
pub mod Login
pub mod Access
pub mod Lockout
pub mod Guards
pub mod Renewal
mod Tests
use video_calling.Base.{
  ℕ, ◌+◌, ◌*◌, ◌-◌, Bool, true, false, Option, none, some, List, ◌∷◌, [], ltb, ◌==◌, ◌&&◌, ◌||◌,
  not, if◌then◌else◌, is_some, or_else, truthy,
}
use video_calling.Database.{
  Database, User, Session, Text, Error, Message, unauthorized, bad_request, forbidden, conflict,
  invalid_credentials, session_invalid, csrf_missing, csrf_invalid, no_active_session,
  auth_required, password_too_weak, suggestion, Result, ok, err, Action, gets, modify, pure, throw,
  or_throw, throw_if, ◌>>=◌, ◌>>◌,
}
use video_calling.External.{External}
use video_calling.Users.{
  find_by_email, create, increment_failed_attempts, reset_failed_attempts, is_locked,
}
use video_calling.Sessions.{
  Drawn, Rotated, create_session, find_active_session, revoke_session, revoke_all_user_sessions,
  issue_token_set, rotate_refresh_token, is_valid_csrf,
}

-- `AuthTokens`
pub record AuthTokens : Type 0 where
  pub access_token : ℕ
  pub refresh_token : ℕ
  pub csrf_token : ℕ
  pub expires_in : ℕ

-- The random values of one call.
pub record Draws : Type 0 where
  pub session_id : ℕ
  pub token : Drawn
  pub family_id : ℕ
  pub raw_csrf : ℕ

-- `DUMMY_HASH`, and the configured `JWT_ACCESS_EXPIRY` ('15m' if it is not set).
pub record Config : Type 0 where
  pub dummy_hash : ℕ
  pub jwt_access_expiry : Text

-- accessTokenExpirySeconds: /^(\d+)(m|h|d)$/

abbrev pub is_digit : ℕ → Bool
is_digit c = if ltb c b'0' then false else ltb c (b'9' + 1)

-- The unit, which must be the last character, and the product.
unit_seconds : (n c : ℕ) → Text → Option ℕ
unit_seconds n c (_ ∷ _) = none
unit_seconds n c [] =
    if c == b'm'
    then some (n * 60)
    else if c == b'h'
    then some (n * 3600)
    else if c == b'd'
    then some (n * 86400)
    else none

-- `n` is the number read so far, `seen` whether there was a digit.
expiry_from : (n : ℕ) (seen : Bool) → Text → Option ℕ
unfolding unit_seconds
expiry_from n seen [] = none
expiry_from n seen (c ∷ rest) =
    let more = expiry_from (n * 10 + (c - b'0')) true rest in
    if is_digit c then more else if seen then unit_seconds n c rest else none

unfoldable pub access_token_expiry_seconds : Text → ℕ
unfolding expiry_from
access_token_expiry_seconds expiry = or_else (expiry_from 0 false expiry) 900

abbrev minimum_password_score : ℕ
minimum_password_score = 2

module _ (ext : External) (config : Config) where
  -- Registration answers `RegisterMessage.SUCCESS`, which is the unit value here.
  abbrev swallow_conflict : Result User × Database → Result (Unit {0}) × Database
  swallow_conflict (ok user, d) = (ok tt, d)
  swallow_conflict (err (conflict _), d) = (ok tt, d)
  swallow_conflict (err e, d) = (err e, d)

  unfoldable pub register : (user_id salt email password : ℕ) → Action Database (Unit {0})
  register user_id salt email password d =
      if ltb (ext.zxcvbn_score password email) minimum_password_score
      then (err (bad_request advice), d)
      else if is_some (find_by_email email d)
      then (ok tt, d)
      else swallow_conflict (create user_id email (ext.argon2_hash password salt) d)
    where
      advice : Message
      advice = elim (ext.zxcvbn_suggestion password email) [
        | none ↦ password_too_weak
        | some a ↦ suggestion a
      ]

  unfoldable pub issue_tokens :
      Draws → (now user_id : ℕ) (ip_address : Text) (user_agent : ℕ) → Action Database AuthTokens
  issue_tokens draws now user_id ip_address user_agent = do
    modify (create_session draws.session_id user_id ip_address user_agent now)
    issue_token_set ext.sha256 draws.token draws.family_id draws.raw_csrf draws.session_id now
    pure (record {
      access_token = ext.jwt_sign user_id draws.session_id;
      refresh_token = draws.token.raw;
      csrf_token = draws.raw_csrf;
      expires_in = access_token_expiry_seconds config.jwt_access_expiry;
    })

  -- What a failed login does to the account.
  abbrev count_rejection : User → (now : ℕ) → Database → Database
  count_rejection user now d =
      if not user.is_active
      then d
      else if is_locked user now
      then d
      else increment_failed_attempts user.id now d

  -- `user?.passwordHash ?? DUMMY_HASH`: a password is verified whether or not there is a user.
  abbrev hash_to_verify : Option User → ℕ
  hash_to_verify none = config.dummy_hash
  hash_to_verify (some user) = user.password_hash

  -- `login` once the user has been looked up and the password verified.
  login_as :
      Draws
      → (now : ℕ) (ip_address : Text) (user_agent : ℕ) (password_valid : Bool) → Option User
      → Action Database AuthTokens
  login_as draws now ip_address user_agent password_valid none d =
      (err (unauthorized invalid_credentials), d)
  login_as draws now ip_address user_agent password_valid (some user) d =
      if not password_valid || not user.is_active
      then (err (unauthorized invalid_credentials), count_rejection user now d)
      else if is_locked user now
      then (err (unauthorized invalid_credentials), d)
      else issue_tokens draws now user.id ip_address user_agent (reset_failed_attempts user.id d)

  unfoldable pub login :
      Draws
      → (now email password : ℕ) (ip_address : Text) (user_agent : ℕ) → Action Database AuthTokens
  unfolding login_as
  login draws now email password ip_address user_agent d =
      let user = find_by_email email d in
      let password_valid = ext.argon2_verify (hash_to_verify user) password in
      login_as draws now ip_address user_agent password_valid user d

  -- `refresh` after the rotation.
  abbrev refresh_answer : Draws → (now : ℕ) → Rotated → Action Database AuthTokens
  refresh_answer draws now rotated = do
    session ← gets (find_active_session rotated.session_id now)
    live ← or_throw session (unauthorized session_invalid)
    pure (record {
      access_token = ext.jwt_sign live.user_id rotated.session_id;
      refresh_token = rotated.new_raw_token;
      csrf_token = draws.raw_csrf;
      expires_in = access_token_expiry_seconds config.jwt_access_expiry;
    })

  unfoldable pub refresh : Draws → (now raw_refresh_token : ℕ) → Action Database AuthTokens
  refresh draws now raw_refresh_token =
      rotate_refresh_token ext.sha256 draws.token draws.raw_csrf now raw_refresh_token
      >>= refresh_answer draws now

unfoldable pub logout : (session_id user_id : ℕ) → Database → Database
logout session_id user_id d = revoke_session session_id d

unfoldable pub logout_all : (user_id : ℕ) → Database → Database
logout_all user_id d = revoke_all_user_sessions user_id d

-- The claims of a verified access token.
pub record JwtPayload : Type 0 where
  pub sub : ℕ
  pub sid : ℕ

-- `JwtStrategy.validate`
unfoldable pub validate : (now : ℕ) → JwtPayload → Action Database JwtPayload
validate now payload d =
    if is_some (find_active_session payload.sid now d)
    then (ok payload, d)
    else (err (unauthorized session_invalid), d)

-- `JwtAuthGuard`: `verified` is the payload of a token that passport accepted; `handleRequest`
-- turns every failure into one answer. The result is `request.user`.
abbrev one_answer : Result JwtPayload × Database → Result (Option JwtPayload) × Database
one_answer (ok payload, d) = (ok (some payload), d)
one_answer (err e, d) = (err (unauthorized auth_required), d)

unfoldable pub jwt_can_activate :
    (now : ℕ) (is_public : Bool) (verified : Option JwtPayload)
    → Action Database (Option JwtPayload)
unfolding validate
jwt_can_activate now true verified d = (ok none, d)
jwt_can_activate now false none d = (err (unauthorized auth_required), d)
jwt_can_activate now false (some payload) d = one_answer (validate now payload d)

pub data HttpMethod : Type 0 where
  get head options post put patch delete : HttpMethod

-- `UnsafeHttpMethod`
abbrev pub is_unsafe : HttpMethod → Bool
is_unsafe post = true
is_unsafe put = true
is_unsafe patch = true
is_unsafe delete = true
is_unsafe _ = false

-- A header: absent, one text, or several.
pub data Header : Type 0 where
  absent repeated : Header
  single : ℕ → Header

abbrev header_text : Header → Option ℕ
header_text (single value) = if value == 0 then none else some value
header_text _ = none

check_csrf : (hash : ℕ → ℕ) (now sid : ℕ) → Option ℕ → Database → Result Bool
check_csrf hash now sid none d = err (forbidden csrf_missing)
check_csrf hash now sid (some incoming) d =
    if not (truthy sid)
    then err (forbidden no_active_session)
    else if is_valid_csrf hash sid incoming now d
    then ok true
    else err (forbidden csrf_invalid)

-- `request.user?.sid`, 0 where there is none
abbrev session_id_of : Option JwtPayload → ℕ
session_id_of none = 0
session_id_of (some payload) = payload.sid

-- `CsrfGuard.canActivate`, with the payload that the JWT guard left on the request.
unfoldable pub csrf_can_activate :
    (hash : ℕ → ℕ) (now : ℕ) (is_public : Bool)
    → HttpMethod
    → Header
    → Option JwtPayload
    → Database
    → Result Bool
unfolding check_csrf
csrf_can_activate hash now is_public method header user d =
    if is_public
    then ok true
    else if not (is_unsafe method)
    then ok true
    else check_csrf hash now (session_id_of user) (header_text header) d
