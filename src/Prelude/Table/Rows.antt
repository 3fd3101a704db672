-- ===== src/Prelude/Table/Rows.antt =====
-- Statements that touch one row, where a key is unique.
use wpx.Prelude.Tests.{if◌then◌else◌}
use Prim.Native.Nat.{◌+◌, ◌≤◌}
use mathlib.Core.Path.{◌≡◌, refl}
use mathlib.Core.Bool.{Bool, true, false, not, ◌&&◌}
use mathlib.Core.Option.{some}
use mathlib.Core.List.{List, [], ◌∷◌}
use native.Mathlib.Omega.{arith}
use wpx.Prelude.Table.{any, count, first, select, update, delete, insert, any_of_count}

module _ {ℓ} {A : Type ℓ} where
  pub count-congr : (p q : A → Bool) (xs : List A) → ((x : A) → p x ≡ q x) → count p xs ≡ count q xs
  unfolding count
  count-congr p q [] h = refl
  count-congr p q (x ∷ xs) h = ground (arith, h x, count-congr p q xs h)

  -- An update of no row changes nothing.
  pub update-any : (q : A → Bool) (f : A → A) (xs : List A) → any q xs ≡ false → update q f xs ≡ xs
  unfolding any update
  update-any q f [] h = refl
  update-any q f (x ∷ xs) h = ground (arith, update-any q f xs)

  -- After an update, a test holds of rows outside the update that met it before, and of updated
  -- rows.
  pub count-update-split :
      (p q : A → Bool) (f : A → A) (xs : List A)
      → count p (update q f xs) ≤ count (λ x. p x && not (q x)) xs + count q xs
  unfolding count update
  count-update-split p q f [] = omega arith
  count-update-split p q f (x ∷ xs) = ground (arith, count-update-split p q f xs)

  pub select-insert :
      (p : A → Bool) (row : A) (xs : List A)
      → p row ≡ false
      → select p (insert row xs) ≡ select p xs
  unfolding select insert
  select-insert p row [] h = ground arith
  select-insert p row (x ∷ xs) h = ground (arith, select-insert p row xs)

  -- Rows that a unique update does not concern are left alone.
  pub select-update :
      (p q : A → Bool) (f : A → A) (xs : List A) (r : A)
      → count q xs ≤ 1
      → first q xs ≡ some r
      → p r ≡ false
      → p (f r) ≡ false
      → select p (update q f xs) ≡ select p xs
  unfolding count first select update
  select-update p q f [] r c e h k = ground arith
  select-update p q f (x ∷ xs) r c e h k =
      ground (arith, select-update p q f xs r, any_of_count q xs, update-any q f xs)

  pub count-and-le : (p q : A → Bool) (xs : List A) → count (λ x. p x && q x) xs ≤ count q xs
  unfolding count
  count-and-le p q [] = omega arith
  count-and-le p q (x ∷ xs) = ground (arith, count-and-le p q xs)

  -- The only row that meets a unique test.
  pub count_unique :
      (p q : A → Bool) (xs : List A) (r : A)
      → count q xs ≤ 1
      → first q xs ≡ some r
      → count (λ x. p x && q x) xs ≡ (if p r then 1 else 0)
  unfolding count first
  count_unique p q [] r c e = ground arith
  count_unique p q (x ∷ xs) r c e = ground (arith, count_unique p q xs r, count-and-le p q xs)

  pub count-delete :
      (p q : A → Bool) (xs : List A)
      → ((x : A) → p x ≡ true → q x ≡ true)
      → count p (delete q xs) ≡ 0
  unfolding count delete
  count-delete p q [] h = refl
  count-delete p q (x ∷ xs) h = ground (arith, h x, count-delete p q xs h)

  pub count-delete_ne :
      (p q : A → Bool) (xs : List A)
      → ((x : A) → p x ≡ true → q x ≡ false)
      → count p (delete q xs) ≡ count p xs
  unfolding count delete
  count-delete_ne p q [] h = refl
  count-delete_ne p q (x ∷ xs) h = ground (arith, h x, count-delete_ne p q xs h)

  pub count-nil : (p : A → Bool) → count p [] ≡ 0
  unfolding count
  count-nil p = refl

  pub any-nil : (p : A → Bool) → any p [] ≡ false
  unfolding any
  any-nil p = refl

  -- How an update shifts a count, where its test and its result are uniform in `p`.
  pub count-update-shift :
      (p q : A → Bool) (f : A → A) (a b : Bool) (xs : List A)
      → ((x : A) → q x ≡ true → p x ≡ a)
      → ((x : A) → q x ≡ true → p (f x) ≡ b)
      → count p (update q f xs) + (if a then count q xs else 0)
        ≡ count p xs + (if b then count q xs else 0)
  unfolding count update
  count-update-shift p q f a b [] h k = ground arith
  count-update-shift p q f a b (x ∷ xs) h k =
      ground (arith, h x, k x, count-update-shift p q f a b xs h k)

  -- After an update whose result fails the test, no row meets the update's test.
  pub any-update :
      (p q : A → Bool) (f : A → A) (xs : List A)
      → ((x : A) → p x ≡ true → q x ≡ true)
      → ((x : A) → q x ≡ true → p (f x) ≡ false)
      → any p (update q f xs) ≡ false
  unfolding any update
  any-update p q f [] h k = refl
  any-update p q f (x ∷ xs) h k = ground (arith, h x, k x, any-update p q f xs h k)
