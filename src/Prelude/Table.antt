-- ===== src/Prelude/Table.antt =====
-- Database tables as lists of rows, and the statements that the program runs on them.
pub mod Rows
use Prim.Native.Nat.{ℕ, ◌+◌, ◌≤◌}
use mathlib.Core.Path.{◌≡◌, refl}
use mathlib.Core.Bool.{Bool, true, false, ◌||◌}
use mathlib.Core.Option.{Option, none, some}
use mathlib.Core.List.{List, [], ◌∷◌, ◌++◌}
use native.Mathlib.Omega.{arith}
use wpx.Prelude.Tests.{if◌then◌else◌}

module _ {ℓ} {A : Type ℓ} where
  -- SELECT EXISTS(SELECT 1 FROM t WHERE p)
  unfoldable pub any : (A → Bool) → List A → Bool
  any p [] = false
  any p (x ∷ xs) = p x || any p xs

  -- SELECT COUNT(*) FROM t WHERE p
  unfoldable pub count : (A → Bool) → List A → ℕ
  count p [] = 0
  count p (x ∷ xs) = (if p x then 1 else 0) + count p xs

  -- SELECT … FROM t WHERE p, for one row
  unfoldable pub first : (A → Bool) → List A → Option A
  first p [] = none
  first p (x ∷ xs) = if p x then some x else first p xs

  -- SELECT … FROM t WHERE p
  unfoldable pub select : (A → Bool) → List A → List A
  select p [] = []
  select p (x ∷ xs) = let rest = select p xs in if p x then x ∷ rest else rest

  -- UPDATE t SET f WHERE p
  unfoldable pub update : (A → Bool) → (A → A) → List A → List A
  update p f [] = []
  update p f (x ∷ xs) = (if p x then f x else x) ∷ update p f xs

  -- DELETE FROM t WHERE p
  unfoldable pub delete : (A → Bool) → List A → List A
  delete p [] = []
  delete p (x ∷ xs) = let rest = delete p xs in if p x then rest else x ∷ rest

  -- INSERT INTO t VALUES(row)
  unfoldable pub insert : A → List A → List A
  insert row xs = xs ++ (row ∷ [])

  pub count-insert :
      (p : A → Bool) (row : A) (xs : List A)
      → count p (insert row xs) ≡ count p xs + (if p row then 1 else 0)
  unfolding count insert
  count-insert p row [] = ground arith
  count-insert p row (x ∷ xs) = ground (arith, count-insert p row xs)

  pub any-insert :
      (p : A → Bool) (row : A) (xs : List A) → any p (insert row xs) ≡ (any p xs || p row)
  unfolding any insert
  any-insert p row [] = ground arith
  any-insert p row (x ∷ xs) = ground (arith, any-insert p row xs)

  -- A count is unchanged by an update that keeps its test.
  pub count-update :
      (p q : A → Bool) (f : A → A) (xs : List A)
      → ((x : A) → q x ≡ true → p (f x) ≡ p x)
      → count p (update q f xs) ≡ count p xs
  unfolding count update
  count-update p q f [] h = refl
  count-update p q f (x ∷ xs) h = ground (arith, h x, count-update p q f xs h)

  -- A count does not grow by an update whose result fails the test.
  pub count-update-le :
      (p q : A → Bool) (f : A → A) (xs : List A)
      → ((x : A) → q x ≡ true → p (f x) ≡ true → p x ≡ true)
      → count p (update q f xs) ≤ count p xs
  unfolding count update
  count-update-le p q f [] h = omega arith
  count-update-le p q f (x ∷ xs) h = ground (arith, h x, count-update-le p q f xs h)

  pub count-delete-le : (p q : A → Bool) (xs : List A) → count p (delete q xs) ≤ count p xs
  unfolding count delete
  count-delete-le p q [] = omega arith
  count-delete-le p q (x ∷ xs) = ground (arith, count-delete-le p q xs)

  -- What is deleted is gone, for every test within the deleted rows.
  pub any-delete :
      (p q : A → Bool) (xs : List A)
      → ((x : A) → p x ≡ true → q x ≡ true)
      → any p (delete q xs) ≡ false
  unfolding any delete
  any-delete p q [] h = refl
  any-delete p q (x ∷ xs) h = ground (arith, h x, any-delete p q xs h)

  -- A deletion leaves the rows outside it.
  pub any-delete_ne :
      (p q : A → Bool) (xs : List A)
      → ((x : A) → p x ≡ true → q x ≡ false)
      → any p (delete q xs) ≡ any p xs
  unfolding any delete
  any-delete_ne p q [] h = refl
  any-delete_ne p q (x ∷ xs) h = ground (arith, h x, any-delete_ne p q xs h)

  pub first-delete :
      (p q : A → Bool) (xs : List A)
      → ((x : A) → p x ≡ true → q x ≡ true)
      → first p (delete q xs) ≡ none
  unfolding first delete
  first-delete p q [] h = refl
  first-delete p q (x ∷ xs) h = ground (arith, h x, first-delete p q xs h)

  pub first-delete_ne :
      (p q : A → Bool) (xs : List A)
      → ((x : A) → p x ≡ true → q x ≡ false)
      → first p (delete q xs) ≡ first p xs
  unfolding first delete
  first-delete_ne p q [] h = refl
  first-delete_ne p q (x ∷ xs) h = ground (arith, h x, first-delete_ne p q xs h)

  -- The row that a query returns meets its test.
  pub first-holds : (p : A → Bool) (xs : List A) (r : A) → first p xs ≡ some r → p r ≡ true
  unfolding first
  first-holds p [] r h = ground arith
  first-holds p (x ∷ xs) r h = ground (arith, first-holds p xs r)

  pub count-zero_any : (p : A → Bool) (xs : List A) → any p xs ≡ false → count p xs ≡ 0
  unfolding any count
  count-zero_any p [] h = refl
  count-zero_any p (x ∷ xs) h = ground (arith, count-zero_any p xs)

  pub any_of_count : (p : A → Bool) (xs : List A) → count p xs ≡ 0 → any p xs ≡ false
  unfolding any count
  any_of_count p [] h = refl
  any_of_count p (x ∷ xs) h = ground (arith, any_of_count p xs)

  -- The query for one row after an update that keeps the query's test.
  pub first-update :
      (p q : A → Bool) (f : A → A) (xs : List A)
      → ((x : A) → q x ≡ true → p (f x) ≡ p x)
      → first p (update q f xs)
        ≡ elim (first p xs) [ none ↦ none | some r ↦ some (if q r then f r else r) ]
  unfolding first update
  first-update p q f [] h = refl
  first-update p q f (x ∷ xs) h = ground (arith, h x, first-update p q f xs h)

  pub first-any : (p : A → Bool) (xs : List A) → any p xs ≡ false → first p xs ≡ none
  unfolding any first
  first-any p [] h = refl
  first-any p (x ∷ xs) h = ground (arith, first-any p xs)

  pub first-insert :
      (p : A → Bool) (row : A) (xs : List A)
      → any p xs ≡ false
      → p row ≡ true
      → first p (insert row xs) ≡ some row
  unfolding any first insert
  first-insert p row [] h k = ground arith
  first-insert p row (x ∷ xs) h k = ground (arith, first-insert p row xs)

  -- A row that a query returns is counted by every test that it meets.
  pub first-meets :
      (p q : A → Bool) (xs : List A) (r : A) → first p xs ≡ some r → q r ≡ true → any q xs ≡ true
  unfolding any first
  first-meets p q [] r h k = ground arith
  first-meets p q (x ∷ xs) r h k = ground (arith, first-meets p q xs r)
