-- ===== src/Users.antt =====
-- src/users: users.service.ts over repositories/user.repository.ts.
pub mod Lockout
use video_calling.Base.{
  ℕ, ◌+◌, ◌*◌, Bool, true, false, Option, none, some, List, ◌∷◌, [], ◌++◌, ltb, ◌==◌, if◌then◌else◌,
  find_row, update_where, is_some, not,
}
use video_calling.Database.{
  Database, User, Error, unique_violation, conflict, not_found, duplicate, user_not_found, Result,
  ok, err, Action, gets, throw, or_throw, ◌>>=◌,
}

-- `LockoutPolicy`
abbrev pub max_failed_attempts : ℕ
max_failed_attempts = 5

abbrev pub lockout_minutes : ℕ
lockout_minutes = 15

-- now() + ($3 || ' minutes')::INTERVAL
abbrev pub lockout_ms : ℕ
lockout_ms = lockout_minutes * 60_000

abbrev pub with_email : ℕ → User → Bool
with_email email u = u.email == email

abbrev pub with_id : ℕ → User → Bool
with_id id u = u.id == id

unfoldable pub find_by_email : ℕ → Database → Option User
find_by_email email d = find_row (with_email email) d.users

find_by_id : ℕ → Database → Option User
find_by_id id d = find_row (with_id id) d.users

pub find_by_id_or_throw : ℕ → Action Database User
unfolding find_by_id
find_by_id_or_throw id = do or_throw (← gets (find_by_id id)) (not_found user_not_found)

abbrev new_user : (id email password_hash : ℕ) → User
new_user id email password_hash = record {
  id = id;
  email = email;
  password_hash = password_hash;
  mfa_enabled = false;
  failed_attempts = 0;
  locked_until = none;
  is_active = true;
}

-- The INSERT of `UserRepository.create`: `email` is UNIQUE.
insert_user : (id email password_hash : ℕ) → Action Database User
insert_user id email password_hash d =
    if is_some (find_row (with_email email) d.users)
    then (err unique_violation, d)
    else (ok user, record d { users = d.users ++ user ∷ [] })
  where
    user : User
    user = new_user id email password_hash

-- The `catch` of `UsersService.create`.
abbrev rethrow_duplicate {ℓ} : {A : Type ℓ} → Result A → Result A
rethrow_duplicate (err unique_violation) = err (conflict duplicate)
rethrow_duplicate r = r

unfoldable pub create : (id email password_hash : ℕ) → Action Database User
unfolding insert_user
create id email password_hash d =
    let (r, d') = insert_user id email password_hash d in (rethrow_duplicate r, d')

-- CASE WHEN failed_attempts + 1 >= 5 THEN now() + 15 minutes ELSE locked_until END
abbrev pub count_failure : ℕ → User → User
count_failure now u = record u {
  failed_attempts = u.failed_attempts + 1;
  locked_until =
      if ltb (u.failed_attempts + 1) max_failed_attempts
      then u.locked_until
      else some (now + lockout_ms);
}

unfoldable pub increment_failed_attempts : (user_id now : ℕ) → Database → Database
increment_failed_attempts user_id now d = record d {
  users = update_where (with_id user_id) (count_failure now) d.users;
}

abbrev pub clear_failures : User → User
clear_failures u = record u { failed_attempts = 0; locked_until = none }

unfoldable pub reset_failed_attempts : (user_id : ℕ) → Database → Database
reset_failed_attempts user_id d = record d {
  users = update_where (with_id user_id) clear_failures d.users;
}

-- `lockedUntil !== null && lockedUntil > new Date()`
abbrev pub is_locked : User → ℕ → Bool
is_locked u now = elim u.locked_until [ none ↦ false | some t ↦ ltb now t ]
