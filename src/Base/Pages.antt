-- ===== src/Base/Pages.antt =====
-- ORDER BY key DESC and LIMIT … OFFSET … on a table. SQL leaves the order of rows with the same key
-- open; here they keep the order of the table.
use Prim.Native.Nat.{ℕ, zero, suc, ◌+◌, ◌≤◌}
use mathlib.Core.Path.{◌≡◌, refl, ap}
use mathlib.Core.Bool.{Bool}
use mathlib.Core.List.{List, [], ◌∷◌}
use native.Mathlib.Omega.{arith}
use video_calling.Base.Tests.{if◌then◌else◌, ltb}
use video_calling.Base.Rows.{All, length, count_where}

module _ {ℓ} {A : Type ℓ} where
  abbrev pub take : ℕ → List A → List A
  take zero xs = []
  take (suc n) [] = []
  take (suc n) (x ∷ xs) = x ∷ take n xs

  abbrev pub drop : ℕ → List A → List A
  drop zero xs = xs
  drop (suc n) [] = []
  drop (suc n) (x ∷ xs) = drop n xs

  abbrev pub insert_desc : (A → ℕ) → A → List A → List A
  insert_desc key x [] = x ∷ []
  insert_desc key x (y ∷ ys) = if ltb (key x) (key y) then y ∷ insert_desc key x ys else x ∷ y ∷ ys

  abbrev pub order_desc : (A → ℕ) → List A → List A
  order_desc key [] = []
  order_desc key (x ∷ xs) = insert_desc key x (order_desc key xs)

  -- No row has a larger key than an earlier one.
  abbrev pub IsDescending : (A → ℕ) → List A → Type 0
  IsDescending key [] = Unit
  IsDescending key (x ∷ xs) = All (λ y. key y ≤ key x) xs × IsDescending key xs

  pub All-insert {κ} :
      (P : A → Type κ) (key : A → ℕ) (x : A) (xs : List A)
      → P x
      → All P xs
      → All P (insert_desc key x xs)
  All-insert P key x [] px h = (px, tt)
  All-insert P key x (y ∷ ys) px h = ground (arith, All-insert P key x ys px h.1)

  pub All-order {κ} :
      (P : A → Type κ) (key : A → ℕ) (xs : List A) → All P xs → All P (order_desc key xs)
  All-order P key [] h = tt
  All-order P key (x ∷ xs) h = All-insert P key x (order_desc key xs) h.0 (All-order P key xs h.1)

  All-trans :
      (key : A → ℕ) (a b : ℕ) (xs : List A)
      → a ≤ b
      → All (λ y. key y ≤ a) xs
      → All (λ y. key y ≤ b) xs
  All-trans key a b [] le h = tt
  All-trans key a b (x ∷ xs) le h = (omega (arith, h.0), All-trans key a b xs le h.1)

  insert-IsDescending :
      (key : A → ℕ) (x : A) (xs : List A)
      → IsDescending key xs
      → IsDescending key (insert_desc key x xs)
  insert-IsDescending key x [] h = (tt, tt)
  insert-IsDescending key x (y ∷ ys) h = ground (
    arith,
    insert-IsDescending key x ys h.1,
    All-insert (λ z. key z ≤ key y) key x ys,
    All-trans key (key y) (key x) ys,
  )

  pub order-IsDescending : (key : A → ℕ) (xs : List A) → IsDescending key (order_desc key xs)
  order-IsDescending key [] = tt
  order-IsDescending key (x ∷ xs) =
      insert-IsDescending key x (order_desc key xs) (order-IsDescending key xs)

  count-insert :
      (p : A → Bool) (key : A → ℕ) (x : A) (xs : List A)
      → count_where p (insert_desc key x xs) ≡ (if p x then 1 else 0) + count_where p xs
  count-insert p key x [] = refl
  count-insert p key x (y ∷ ys) = ground (arith, count-insert p key x ys)

  -- Ordering keeps every row as often as it was there.
  pub count-order :
      (p : A → Bool) (key : A → ℕ) (xs : List A)
      → count_where p (order_desc key xs) ≡ count_where p xs
  count-order p key [] = refl
  count-order p key (x ∷ xs) =
      omega (arith, count-insert p key x (order_desc key xs), count-order p key xs)

  pub All-take {κ} : (P : A → Type κ) (n : ℕ) (xs : List A) → All P xs → All P (take n xs)
  All-take P zero xs h = tt
  All-take P (suc n) [] h = tt
  All-take P (suc n) (x ∷ xs) h = (h.0, All-take P n xs h.1)

  pub All-drop {κ} : (P : A → Type κ) (n : ℕ) (xs : List A) → All P xs → All P (drop n xs)
  All-drop P zero xs h = h
  All-drop P (suc n) [] h = tt
  All-drop P (suc n) (x ∷ xs) h = All-drop P n xs h.1

  pub take-IsDescending :
      (key : A → ℕ) (n : ℕ) (xs : List A) → IsDescending key xs → IsDescending key (take n xs)
  take-IsDescending key zero xs h = tt
  take-IsDescending key (suc n) [] h = tt
  take-IsDescending key (suc n) (x ∷ xs) h =
      (All-take (λ y. key y ≤ key x) n xs h.0, take-IsDescending key n xs h.1)

  pub drop-IsDescending :
      (key : A → ℕ) (n : ℕ) (xs : List A) → IsDescending key xs → IsDescending key (drop n xs)
  drop-IsDescending key zero xs h = h
  drop-IsDescending key (suc n) [] h = tt
  drop-IsDescending key (suc n) (x ∷ xs) h = drop-IsDescending key n xs h.1

  pub length-take : (n : ℕ) (xs : List A) → length (take n xs) ≤ n
  length-take zero xs = omega arith
  length-take (suc n) [] = omega arith
  length-take (suc n) (x ∷ xs) = omega (arith, length-take n xs)

  pub take_all : (n : ℕ) (xs : List A) → length xs ≤ n → take n xs ≡ xs
  take_all zero [] h = refl
  take_all zero (x ∷ xs) h = absurd (omega arith)
  take_all (suc n) [] h = refl
  take_all (suc n) (x ∷ xs) h = ap (λ ys. x ∷ ys) (take_all n xs (omega (arith, h)))
