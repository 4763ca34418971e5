-- ===== src/Database/Errors.antt =====
-- Failures as values: the exceptions of the services with their messages, the violations that
-- PostgreSQL reports (src/auth/constants/auth.enums.ts, `PgErrorCode`), and the monad of a service
-- method: it reads and writes the database and returns a result or throws. A statement outside a
-- transaction is committed at once, so what was written stays written after a throw.
use video_calling.Base.{
  ℕ, ◌≡◌, refl, ap, Bool, Option, none, some, true, if◌then◌else◌, find_row, is_some, ◌==◌,
}
use video_calling.Database.Tables.{Database}

pub data Message : Type 0 where
  invalid_credentials session_invalid csrf_missing csrf_invalid no_active_session : Message
  invalid_refresh_token refresh_token_expired no_refresh_token auth_required : Message
  password_too_weak unexpected_error call_not_found user_not_found duplicate : Message
  -- an advice of zxcvbn, and what a rule of the validation says
  suggestion violated : ℕ → Message

pub data Error : Type 0 where
  unauthorized bad_request forbidden : Message → Error
  not_found conflict : Message → Error
  unique_violation fk_violation : Error
  -- a property read of `undefined`
  type_error : Error
  -- `WsException`, by its text
  socket_not_initialised target_missing target_unknown authentication_required : Error
  not_the_recipient group_calls_unavailable registration_required : Error
  -- `Error` of the media server's wrapper
  media_unavailable room_not_found transport_not_found consumer_not_found cannot_consume : Error

pub data Result {ℓ} (A : Type ℓ) : Type ℓ where
  ok : A → Result A
  err : Error → Result A

-- A method over a state `S`.
abbrev pub Action : Type 0 → Type 0 → Type 0
Action S A = S → Result A × S

module _ {S A : Type 0} where
  abbrev pub pure : A → Action S A
  pure a s = (ok a, s)

  abbrev pub throw : Error → Action S A
  throw e s = (err e, s)

  abbrev pub gets : (S → A) → Action S A
  gets f s = (ok (f s), s)

  abbrev pub or_throw : Option A → Error → Action S A
  or_throw none e = throw e
  or_throw (some a) e = pure a

abbrev pub modify : {S : Type 0} → (S → S) → Action S (Unit {0})
modify f s = (ok tt, f s)

abbrev pub throw_if : {S : Type 0} → Bool → Error → Action S (Unit {0})
throw_if c e s = (if c then err e else ok tt, s)

infixl 5 ◌>>=◌ ◌>>◌
abbrev pub ◌>>=◌ : {S A B : Type 0} → Action S A → (A → Action S B) → Action S B
◌>>=◌ m f s = let (r, s') = m s in elim r [ ok a ↦ f a s' | err e ↦ throw e s' ]

abbrev pub ◌>>◌ : {S A B : Type 0} → Action S A → Action S B → Action S B
m >> k = m >>= λ _. k

-- A foreign key to `users`: the row is there.
abbrev pub user_exists : ℕ → Database → Bool
user_exists user_id d = is_some (find_row (λ u. u.id == user_id) d.users)

-- The same for a column that may be NULL.
abbrev pub user_exists_or_null : Option ℕ → Database → Bool
user_exists_or_null none d = true
user_exists_or_null (some u) d = user_exists u d

-- What holds after a method holds after a chain that begins with it, if the rest keeps it.
module _ {ℓ} {S A B : Type 0} (P : S → Type ℓ) (f : A → Action S B) where
  after_result :
      (r : Result A) (s : S)
      → P s
      → ((a : A) (s' : S) → P s' → P (f a s').1)
      → P (let x : Result B × S = elim r [ ok a ↦ f a s | err e ↦ (err e, s) ] in x).1
  after_result (ok a) s h k = k a s h
  after_result (err e) s h k = h

  pub >>=-after :
      (m : Action S A) (s : S)
      → P (m s).1
      → ((a : A) (s' : S) → P s' → P (f a s').1)
      → P ((m >>= f) s).1
  >>=-after m s h k = after_result (m s).0 (m s).1 h k

-- Inversion of a chain that succeeds.
module _ {S A B : Type 0} (f : A → Action S B) {b : B} {t : S} where
  result-eq-ok :
      (r : Result A) (s : S)
      → (let x : Result B × S = elim r [ ok a ↦ f a s | err e ↦ (err e, s) ] in x) ≡ (ok b, t)
      → (a : A) × (r ≡ ok a) × (f a s ≡ (ok b, t))
  result-eq-ok (ok a) s h = (a, refl, h)
  result-eq-ok (err e) s h = absurd (cc)

  pub >>=-eq-ok :
      (m : Action S A) (s : S)
      → (m >>= f) s ≡ (ok b, t)
      → (a : A) × (s' : S) × (m s ≡ (ok a, s')) × (f a s' ≡ (ok b, t))
  >>=-eq-ok m s h =
      let (a, e, rest) = result-eq-ok (m s).0 (m s).1 h in
      (a, (m s).1, ap (λ r. (r, (m s).1)) e, rest)

-- A chain after a first step whose outcome is known.
module _ {S A B : Type 0} (f : A → Action S B) (m : Action S A) (s : S) where
  pub >>=-ok : {a : A} {t : S} → m s ≡ (ok a, t) → (m >>= f) s ≡ f a t
  >>=-ok {a} {t} e =
      ap (λ r. let x : Result B × S = elim r.0 [ ok b ↦ f b r.1 | err c ↦ (err c, r.1) ] in x) e

  pub >>=-err : {e : Error} {t : S} → m s ≡ (err e, t) → (m >>= f) s ≡ (err e, t)
  >>=-err {e} {t} h =
      ap (λ r. let x : Result B × S = elim r.0 [ ok b ↦ f b r.1 | err c ↦ (err c, r.1) ] in x) h
