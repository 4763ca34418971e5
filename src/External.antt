-- ===== src/External.antt =====
-- The packages that the services call and do not define, as functions: SHA-256, argon2, zxcvbn
-- and the JWT library. `random` values (UUIDs and random bytes) are arguments of the calls that
-- draw them.
use video_calling.Base.{ℕ, Bool, Option}

pub record External : Type 0 where
  -- `createHash('sha256').update(raw).digest('hex')`
  pub sha256 : ℕ → ℕ
  -- `argon2.hash(password)` under a salt
  pub argon2_hash : (password salt : ℕ) → ℕ
  -- `argon2.verify(hash, password)`
  pub argon2_verify : (hash password : ℕ) → Bool
  -- `zxcvbn(password, [email]).score`
  pub zxcvbn_score : (password email : ℕ) → ℕ
  -- `zxcvbn(password, [email]).feedback.suggestions[0]`
  pub zxcvbn_suggestion : (password email : ℕ) → Option ℕ
  -- `jwtService.sign({ sub, sid })`
  pub jwt_sign : (sub sid : ℕ) → ℕ
