-- ===== src/Auth/Expiry.antt =====
-- `AuthService.accessTokenExpirySeconds` against the decimal notation that it reads.
use video_calling.Base.{
  ℕ, zero, suc, ◌+◌, ◌*◌, ◌-◌, ◌≡◌, inl, inr, refl, ap, true, false, some, [], ◌∷◌, ◌++◌, arith,
  ◌==◌, All, length, Option-cases, Bool-cases,
}
use video_calling.Database.{Text}
use video_calling.Auth.{is_digit, unit_seconds, expiry_from, access_token_expiry_seconds}

power10 : ℕ → ℕ
power10 zero = 1
power10 (suc k) = 10 * power10 k

-- The number that a row of decimal digits stands for.
pub value : Text → ℕ
value [] = 0
value (c ∷ digits) = (c - b'0') * power10 (length digits) + value digits

pub data TimeUnit : Type 0 where
  minutes hours days : TimeUnit

abbrev pub letter : TimeUnit → ℕ
letter minutes = b'm'
letter hours = b'h'
letter days = b'd'

abbrev pub seconds : TimeUnit → ℕ
seconds minutes = 60
seconds hours = 3600
seconds days = 86400

abbrev pub AreDigits : Text → Type 0
AreDigits = All (λ c. is_digit c ≡ true)

unit_seconds-letter : (n : ℕ) (u : TimeUnit) → unit_seconds n (letter u) [] ≡ some (n * seconds u)
unfolding unit_seconds
unit_seconds-letter n minutes = refl
unit_seconds-letter n hours = refl
unit_seconds-letter n days = refl

letter-not_digit : (u : TimeUnit) → is_digit (letter u) ≡ false
letter-not_digit minutes = refl
letter-not_digit hours = refl
letter-not_digit days = refl

expiry_from-append :
    (n : ℕ) (digits : Text) (u : TimeUnit)
    → AreDigits digits
    → expiry_from n true (digits ++ letter u ∷ [])
      ≡ some ((n * power10 (length digits) + value digits) * seconds u)
unfolding expiry_from value power10
expiry_from-append n [] u h = ground (arith, letter-not_digit u, unit_seconds-letter n u)
expiry_from-append n (c ∷ digits) u h =
    ground (arith, expiry_from-append (n * 10 + (c - b'0')) digits u h.1)

-- One or more digits and a unit give the number of that many units, in seconds.
pub expiry_of_digits :
    (c : ℕ) (digits : Text) (u : TimeUnit)
    → AreDigits (c ∷ digits)
    → access_token_expiry_seconds ((c ∷ digits) ++ letter u ∷ []) ≡ value (c ∷ digits) * seconds u
unfolding access_token_expiry_seconds value
expiry_of_digits c digits u h = ground (arith, expiry_from-append (c - b'0') digits u h.1)

-- What the pattern accepts.
pub record IsDuration (text : Text) : Type 0 where
  pub first : ℕ
  pub digits : Text
  pub unit : TimeUnit
  pub all_digits : AreDigits (first ∷ digits)
  pub shape : text ≡ (first ∷ digits) ++ letter unit ∷ []

unit_seconds-some :
    (n c : ℕ) (rest : Text) {m : ℕ}
    → unit_seconds n c rest ≡ some m
    → (u : TimeUnit) × (c ∷ rest ≡ letter u ∷ [])
unfolding unit_seconds
unit_seconds-some n c (x ∷ rest) h = absurd (cc)
unit_seconds-some n c [] {m} h = elim (Bool-cases (c == b'm')) [
  | inl e ↦ (minutes, ground arith)
  | inr not_m ↦ elim (Bool-cases (c == b'h')) [
    | inl e ↦ (hours, ground arith)
    | inr not_h ↦ (days, ground arith)
  ]
]

-- After a digit the rest is digits and a unit.
expiry_from-shape :
    (n : ℕ) (text : Text) {m : ℕ}
    → expiry_from n true text ≡ some m
    → (digits : Text) × (u : TimeUnit) × AreDigits digits × (text ≡ digits ++ letter u ∷ [])
unfolding expiry_from
expiry_from-shape n [] h = absurd (cc)
expiry_from-shape n (c ∷ rest) {m} h = elim (Bool-cases (is_digit c)) [
  | inl digit ↦
      let (digits, u, all, shape) =
        expiry_from-shape (n * 10 + (c - b'0')) rest {m = m} (ground arith) in
      (c ∷ digits, u, (digit, all), ap (◌∷◌ c) shape)
  | inr other ↦
      let (u, shape) = unit_seconds-some n c rest {m = m} (ground arith) in ([], u, tt, shape)
]

expiry_from-IsDuration :
    (c : ℕ) (rest : Text) {m : ℕ} → expiry_from 0 false (c ∷ rest) ≡ some m → IsDuration (c ∷ rest)
unfolding expiry_from
expiry_from-IsDuration c rest {m} e = elim (Bool-cases (is_digit c)) [
  | inl digit ↦
      let (digits, u, all, shape) =
        expiry_from-shape (0 * 10 + (c - b'0')) rest {m = m} (ground arith) in
      record {
        first = c;
        digits = digits;
        unit = u;
        all_digits = (digit, all);
        shape = ap (◌∷◌ c) shape;
      }
  | inr other ↦ absurd (ground arith)
]

-- Every text that is not of that form gives the default, 900 seconds.
pub expiry_of_other : (text : Text) → ¬ IsDuration text → access_token_expiry_seconds text ≡ 900
unfolding access_token_expiry_seconds
expiry_of_other [] h = unfold expiry_from in refl
expiry_of_other (c ∷ rest) h = elim (Option-cases (expiry_from 0 false (c ∷ rest))) [
  | inl e ↦ rw e refl
  | inr (m, e) ↦ absurd (h (expiry_from-IsDuration c rest e))
]

-- A decimal number of one or more digits, followed by m, h or d and nothing else, is read as that
-- many minutes, hours or days in seconds; every other text gives 900 seconds.
pub access_token_expiry_seconds-value :
    ((c : ℕ) (digits : Text) (u : TimeUnit)
      → AreDigits (c ∷ digits)
      → access_token_expiry_seconds ((c ∷ digits) ++ letter u ∷ [])
        ≡ value (c ∷ digits) * seconds u)
    × ((text : Text) → ¬ IsDuration text → access_token_expiry_seconds text ≡ 900)
access_token_expiry_seconds-value = (expiry_of_digits, expiry_of_other)
