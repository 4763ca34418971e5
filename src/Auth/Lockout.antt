-- ===== src/Auth/Lockout.antt =====
-- The lockout of an account by `AuthService.login`, over a sequence of calls.
use video_calling.Base.{
  ℕ, ◌+◌, ◌<◌, ◌≡◌, true, false, none, some, List, [], ◌∷◌, arith, All, length,
}
use video_calling.Database.{Database, User, Text, unauthorized, invalid_credentials, err}
use video_calling.External.{External}
use video_calling.Users.{
  find_by_email, count_failure, increment_failed_attempts, is_locked, lockout_ms,
  max_failed_attempts,
}
use video_calling.Users.Lockout.{find_by_email-increment}
use video_calling.Auth.{Draws, Config, login}

-- One call of `login`.
pub record Attempt : Type 0 where
  pub draws : Draws
  pub now : ℕ
  pub password : ℕ
  pub ip_address : Text
  pub user_agent : ℕ

module _ (ext : External) (config : Config) (email : ℕ) where
  abbrev pub try : Attempt → Database → Database
  try a d = (login ext config a.draws a.now email a.password a.ip_address a.user_agent d).1

  pub attack : List Attempt → Database → Database
  attack [] d = d
  attack (a ∷ rest) d = attack rest (try a d)

  abbrev pub IsWrong : User → Attempt → Type 0
  IsWrong u a = ext.argon2_verify u.password_hash a.password ≡ false

  -- A wrong password counts, if the account is active and not locked.
  pub login_wrong :
      (a : Attempt) (d : Database) (u : User)
      → find_by_email email d ≡ some u
      → IsWrong u a
      → u.is_active ≡ true
      → is_locked u a.now ≡ false
      → login ext config a.draws a.now email a.password a.ip_address a.user_agent d
        ≡ (err (unauthorized invalid_credentials), increment_failed_attempts u.id a.now d)
  unfolding login
  login_wrong a d u found wrong active unlocked = ground arith

  -- A locked account refuses every password, and the call writes nothing.
  pub login_locked :
      (a : Attempt) (d : Database) (u : User)
      → find_by_email email d ≡ some u
      → is_locked u a.now ≡ true
      → login ext config a.draws a.now email a.password a.ip_address a.user_agent d
        ≡ (err (unauthorized invalid_credentials), d)
  unfolding login
  login_locked a d u found locked = ground arith

  -- Below the limit, wrong passwords are counted one by one.
  attack-counts :
      (attempts : List Attempt) (d : Database) (u : User)
      → find_by_email email d ≡ some u
      → u.is_active ≡ true
      → u.locked_until ≡ none
      → All (IsWrong u) attempts
      → u.failed_attempts + length attempts < max_failed_attempts
      → find_by_email email (attack attempts d)
        ≡ some (record u { failed_attempts = u.failed_attempts + length attempts })
  unfolding attack
  attack-counts [] d u found active free wrong lt = ground arith
  attack-counts (a ∷ rest) d u found active free wrong lt =
      let counted : User = record u { failed_attempts = u.failed_attempts + 1 } in
      let row : find_by_email email (try a d) ≡ some counted =
        ground (arith, login_wrong a d u, find_by_email-increment email d u found a.now) in
      ground (arith, attack-counts rest (try a d) counted row active free wrong.1 (omega arith))

  -- The fifth wrong password in a row, at the instant `last.now`, locks the account: until fifteen
  -- minutes later every login is refused with the usual answer, the right password included, and
  -- writes nothing.
  pub lockout :
      (attempts : List Attempt) (last then_on : Attempt) (d : Database) (u : User)
      → find_by_email email d ≡ some u
      → u.is_active ≡ true
      → u.locked_until ≡ none
      → All (IsWrong u) attempts
      → IsWrong u last
      → u.failed_attempts + length attempts + 1 ≡ max_failed_attempts
      → then_on.now < last.now + lockout_ms
      → let locked = try last (attack attempts d) in
        login ext config then_on.draws then_on.now email then_on.password then_on.ip_address
          then_on.user_agent locked
        ≡ (err (unauthorized invalid_credentials), locked)
  lockout attempts last then_on d u found active free wrong wrong_last five early =
      let before = attack-counts attempts d u found active free wrong (omega arith) in
      let counted : User = record u { failed_attempts = u.failed_attempts + length attempts } in
      let row : find_by_email email (try last (attack attempts d))
          ≡ some (count_failure last.now counted) =
        ground (
          arith,
          login_wrong last (attack attempts d) counted before,
          find_by_email-increment email (attack attempts d) counted before last.now,
        ) in
      login_locked then_on _ (count_failure last.now counted) row (ground arith)
