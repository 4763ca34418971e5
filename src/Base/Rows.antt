-- ===== src/Base/Rows.antt =====
-- A table as a list of rows in the order of insertion, and the statements that read and write it.
use Prim.Native.Nat.{ℕ, suc, ◌+◌, ◌≤◌, ◌<◌}
use mathlib.Core.Path.{◌≡◌, refl, ap}
use mathlib.Core.Bool.{Bool, true, false}
use mathlib.Core.Option.{Option, none, some}
use mathlib.Core.List.{List, [], ◌∷◌, ◌++◌}
use native.Mathlib.Omega.{arith}
use video_calling.Base.Tests.{if◌then◌else◌}

-- A predicate on every row.
abbrev pub All {ℓ κ} : {A : Type ℓ} → (A → Type κ) → List A → Type κ
All P [] = Unit
All P (x ∷ xs) = P x × All P xs

module _ {ℓ} {A : Type ℓ} where
  abbrev pub length : List A → ℕ
  length [] = 0
  length (x ∷ xs) = suc (length xs)

  -- `rows[0]` of a SELECT
  abbrev pub find_row : (A → Bool) → List A → Option A
  find_row q [] = none
  find_row q (x ∷ xs) = if q x then some x else find_row q xs

  -- UPDATE … SET f WHERE p
  abbrev pub update_where : (A → Bool) → (A → A) → List A → List A
  update_where p f [] = []
  update_where p f (x ∷ xs) = (if p x then f x else x) ∷ update_where p f xs

  -- DELETE … WHERE p
  abbrev pub delete_where : (A → Bool) → List A → List A
  delete_where p [] = []
  delete_where p (x ∷ xs) = if p x then delete_where p xs else x ∷ delete_where p xs

  -- SELECT … WHERE p
  abbrev pub select_where : (A → Bool) → List A → List A
  select_where p [] = []
  select_where p (x ∷ xs) = if p x then x ∷ select_where p xs else select_where p xs

  -- SELECT count(*) … WHERE p
  abbrev pub count_where : (A → Bool) → List A → ℕ
  count_where p [] = 0
  count_where p (x ∷ xs) = (if p x then 1 else 0) + count_where p xs

  -- EXISTS (SELECT … WHERE p)
  abbrev pub exists_where : (A → Bool) → List A → Bool
  exists_where p [] = false
  exists_where p (x ∷ xs) = if p x then true else exists_where p xs

  pub length-append : (xs ys : List A) → length (xs ++ ys) ≡ length xs + length ys
  length-append [] ys = omega arith
  length-append (x ∷ xs) ys = omega (arith, length-append xs ys)

  pub find_row-holds : (q : A → Bool) (xs : List A) {x : A} → find_row q xs ≡ some x → q x ≡ true
  find_row-holds q [] h = cc
  find_row-holds q (y ∷ xs) {x} h = ground (arith, find_row-holds q xs {x = x})

  pub find_row-append :
      (q : A → Bool) (xs ys : List A) → find_row q xs ≡ none → find_row q (xs ++ ys) ≡ find_row q ys
  find_row-append q [] ys h = refl
  find_row-append q (x ∷ xs) ys h = ground (arith, find_row-append q xs ys)

  pub find_row-append_some :
      (q : A → Bool) (xs ys : List A) {x : A}
      → find_row q xs ≡ some x
      → find_row q (xs ++ ys) ≡ some x
  find_row-append_some q [] ys h = cc
  find_row-append_some q (y ∷ xs) ys {x} h = ground (arith, find_row-append_some q xs ys {x = x})

  -- An update that the search cannot see changes the row that is found, and not which.
  pub find_row-update :
      (q p : A → Bool) (f : A → A) (xs : List A) {x : A}
      → ((y : A) → q (f y) ≡ q y)
      → find_row q xs ≡ some x
      → find_row q (update_where p f xs) ≡ some (if p x then f x else x)
  find_row-update q p f [] keep h = cc
  find_row-update q p f (y ∷ xs) {x} keep h =
      ground (arith, keep y, find_row-update q p f xs {x = x} keep)

  pub find_row-update_none :
      (q p : A → Bool) (f : A → A) (xs : List A)
      → ((y : A) → q (f y) ≡ q y)
      → find_row q xs ≡ none
      → find_row q (update_where p f xs) ≡ none
  find_row-update_none q p f [] keep h = refl
  find_row-update_none q p f (y ∷ xs) keep h =
      ground (arith, keep y, find_row-update_none q p f xs keep)

  pub length-update :
      (p : A → Bool) (f : A → A) (xs : List A) → length (update_where p f xs) ≡ length xs
  length-update p f [] = refl
  length-update p f (x ∷ xs) = ap suc (length-update p f xs)

  pub All-append {κ} : (P : A → Type κ) (xs ys : List A) → All P xs → All P ys → All P (xs ++ ys)
  All-append P [] ys hx hy = hy
  All-append P (x ∷ xs) ys hx hy = (hx.0, All-append P xs ys hx.1 hy)

  pub All-update {κ} :
      (P : A → Type κ) (p : A → Bool) (f : A → A) (xs : List A)
      → ((x : A) → p x ≡ true → P x → P (f x))
      → All P xs
      → All P (update_where p f xs)
  All-update P p f [] keep h = tt
  All-update P p f (x ∷ xs) keep h = ground (arith, keep x, All-update P p f xs keep h.1)

  -- What an update establishes on the rows it meets, and the others have anyway.
  pub All-updated {κ} :
      (P : A → Type κ) (p : A → Bool) (f : A → A) (xs : List A)
      → ((x : A) → p x ≡ true → P (f x))
      → ((x : A) → p x ≡ false → P x)
      → All P (update_where p f xs)
  All-updated P p f [] hit miss = tt
  All-updated P p f (x ∷ xs) hit miss = ground (arith, hit x, miss x, All-updated P p f xs hit miss)

  pub All-find {κ} :
      (P : A → Type κ) (q : A → Bool) (xs : List A) {x : A}
      → All P xs
      → find_row q xs ≡ some x
      → P x
  All-find P q [] h e = absurd (cc)
  All-find P q (y ∷ xs) {x} h e = ground (arith, All-find P q xs {x = x} h.1)

  pub count-append :
      (p : A → Bool) (xs ys : List A)
      → count_where p (xs ++ ys) ≡ count_where p xs + count_where p ys
  count-append p [] ys = omega arith
  count-append p (x ∷ xs) ys = omega (arith, count-append p xs ys)

  -- An update that turns no row into a counted one does not raise the count.
  pub count-update-le :
      (c p : A → Bool) (f : A → A) (xs : List A)
      → ((x : A) → c (f x) ≡ true → c x ≡ true)
      → count_where c (update_where p f xs) ≤ count_where c xs
  count-update-le c p f [] keep = omega arith
  count-update-le c p f (x ∷ xs) keep = ground (arith, keep x, count-update-le c p f xs keep)

  -- It lowers the count where the row that a search finds is counted, met and then not counted.
  pub count-update-lt :
      (c q p : A → Bool) (f : A → A) (xs : List A) {x : A}
      → ((y : A) → c (f y) ≡ true → c y ≡ true)
      → find_row q xs ≡ some x
      → c x ≡ true
      → p x ≡ true
      → c (f x) ≡ false
      → count_where c (update_where p f xs) < count_where c xs
  count-update-lt c q p f [] keep e cx px cf = absurd (cc)
  count-update-lt c q p f (y ∷ xs) {x} keep e cx px cf =
      ground (arith, keep y, count-update-le c p f xs keep, count-update-lt c q p f xs {x = x} keep)

  pub count_pos_of_find :
      (c q : A → Bool) (xs : List A) {x : A}
      → find_row q xs ≡ some x
      → c x ≡ true
      → 0 < count_where c xs
  count_pos_of_find c q [] e cx = absurd (cc)
  count_pos_of_find c q (y ∷ xs) {x} e cx = ground (arith, count_pos_of_find c q xs {x = x})
