-- ===== src/Prelude/Sums.antt =====
-- Tables as lists: replacing one row, and sums over a column.
use mathlib.Core.Path.{◌≡◌}
use mathlib.Core.Bool.{Bool}
use mathlib.Core.Option.{some}
use mathlib.Core.List.{List, [], ◌∷◌, ◌++◌}
use vidpow.Prelude.Tests.{if◌then◌else◌}
use vidpow.Prelude.Lists.{find}
use vidpow.Prelude.Int.{ℤ, pos, ◌+ℤ◌, int_laws}

module _ {A : Type 0} where
  -- The first row that passes the test is replaced.
  abbrev pub replace_first : (A → Bool) → A → List A → List A
  replace_first p b [] = []
  replace_first p b (x ∷ xs) = if p x then b ∷ xs else x ∷ replace_first p b xs

  abbrev pub sum_by : (A → ℤ) → List A → ℤ
  sum_by f [] = pos 0
  sum_by f (x ∷ xs) = f x +ℤ sum_by f xs

  pub sum_by-replace :
      (f : A → ℤ) (p : A → Bool) (a b : A) (xs : List A)
      → find p xs ≡ some a
      → sum_by f (replace_first p b xs) +ℤ f a ≡ sum_by f xs +ℤ f b
  sum_by-replace f p a b [] e = cc
  sum_by-replace f p a b (x ∷ xs) e = grind (int_laws, sum_by-replace f p a b xs)

  pub sum_by-append :
      (f : A → ℤ) (xs ys : List A) → sum_by f (xs ++ ys) ≡ sum_by f xs +ℤ sum_by f ys
  sum_by-append f [] ys = omega int_laws
  sum_by-append f (x ∷ xs) ys = grind (int_laws, sum_by-append f xs ys)
