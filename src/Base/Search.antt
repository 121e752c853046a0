-- ===== src/Base/Search.antt =====
-- The algorithms of <algorithm> and the vector operations that the code calls with iterators. An
-- iterator is an index; the end is the length. The searches are given by what they promise for a range
-- that the test divides, as a sorted one is: the first place of its second part. Of any other range
-- the standard promises nothing, and a binary search may stop at another place.
use Prim.Native.Nat.{ℕ, zero, suc, ◌≤◌}
use mathlib.Core.Bool.{Bool}
use mathlib.Core.List.{List, [], ◌∷◌}
use native.Mathlib.Omega.{arith}
use libbruce.Base.Tests.{if◌then◌else◌}
use libbruce.Base.Lists.{length}

module _ {ℓ} {A : Type ℓ} where
  -- `std::lower_bound`: the first element that is not less than the key.
  abbrev pub lower_bound : (A → Bool) → List A → ℕ
  lower_bound less [] = 0
  lower_bound less (x ∷ xs) = if less x then suc (lower_bound less xs) else 0

  -- `std::upper_bound`: the first element that the key is less than.
  abbrev pub upper_bound : (A → Bool) → List A → ℕ
  upper_bound greater [] = 0
  upper_bound greater (x ∷ xs) = if greater x then 0 else suc (upper_bound greater xs)

  -- `vector::insert` before an index; the indices passed are at most the length.
  abbrev pub insert_at : ℕ → A → List A → List A
  insert_at zero y xs = y ∷ xs
  insert_at (suc i) y [] = y ∷ []
  insert_at (suc i) y (x ∷ xs) = x ∷ insert_at i y xs

  -- `vector::erase` at an index below the length.
  abbrev pub erase_at : ℕ → List A → List A
  erase_at i [] = []
  erase_at zero (x ∷ xs) = xs
  erase_at (suc i) (x ∷ xs) = x ∷ erase_at i xs

  abbrev pub set_at : ℕ → A → List A → List A
  set_at i y [] = []
  set_at zero y (x ∷ xs) = y ∷ xs
  set_at (suc i) y (x ∷ xs) = x ∷ set_at i y xs

  pub lower_bound-le : (less : A → Bool) (xs : List A) → lower_bound less xs ≤ length xs
  lower_bound-le less [] = omega arith
  lower_bound-le less (x ∷ xs) = ground (arith, lower_bound-le less xs)

  pub upper_bound-le : (greater : A → Bool) (xs : List A) → upper_bound greater xs ≤ length xs
  upper_bound-le greater [] = omega arith
  upper_bound-le greater (x ∷ xs) = ground (arith, upper_bound-le greater xs)
