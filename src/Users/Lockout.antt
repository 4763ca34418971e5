-- ===== src/Users/Lockout.antt =====
-- What counting and clearing failures does to the row that a login reads.
use video_calling.Base.{ℕ, ◌≡◌, ◌≢◌, refl, ◌∙◌, some, arith, find_row-update}
use video_calling.Database.{Database, User}
use video_calling.Users.{
  with_email, with_id, find_by_email, count_failure, clear_failures, increment_failed_attempts,
  reset_failed_attempts,
}

module _ (email : ℕ) (d : Database) (u : User) (found : find_by_email email d ≡ some u) where
  pub find_by_email-increment :
      (now : ℕ)
      → find_by_email email (increment_failed_attempts u.id now d) ≡ some (count_failure now u)
  unfolding find_by_email increment_failed_attempts
  find_by_email-increment now =
      find_row-update (with_email email) (with_id u.id) (count_failure now) d.users (λ y. refl)
        found
      ∙ ground arith

  pub find_by_email-reset :
      find_by_email email (reset_failed_attempts u.id d) ≡ some (clear_failures u)
  unfolding find_by_email reset_failed_attempts
  find_by_email-reset =
      find_row-update (with_email email) (with_id u.id) clear_failures d.users (λ y. refl) found
      ∙ ground arith

  -- The row of another user stays.
  pub find_by_email-increment_ne :
      (now id : ℕ) → u.id ≢ id → find_by_email email (increment_failed_attempts id now d) ≡ some u
  unfolding find_by_email increment_failed_attempts
  find_by_email-increment_ne now id ne =
      find_row-update (with_email email) (with_id id) (count_failure now) d.users (λ y. refl) found
      ∙ ground arith
