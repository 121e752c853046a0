-- ===== src/Base/Tally.antt =====
-- Lists that hold the same elements, each as often, in any order.
use Prim.Native.Nat.{ℕ, ◌+◌, ◌*◌, ◌≤◌}
use mathlib.Core.Path.{◌≡◌, refl, ap}
use mathlib.Core.List.{List, [], ◌∷◌, ◌++◌, map}
use native.Mathlib.Omega.{arith}
use libbruce.Base.Lists.{take, drop, take-append-drop, length, All}

module _ {ℓ} {A : Type ℓ} where
  -- The sum of a weight over a list.
  abbrev pub tally : (A → ℕ) → List A → ℕ
  tally f [] = 0
  tally f (x ∷ xs) = f x + tally f xs

  -- Every weight has the same sum over both: with the weight that is 1 at one element and 0
  -- elsewhere, the lists hold it equally often.
  abbrev pub Same : List A → List A → Type ℓ
  Same xs ys = (f : A → ℕ) → tally f xs ≡ tally f ys

  pub tally-append : (f : A → ℕ) (xs ys : List A) → tally f (xs ++ ys) ≡ tally f xs + tally f ys
  tally-append f [] ys = omega arith
  tally-append f (x ∷ xs) ys = omega (arith, tally-append f xs ys)

  pub tally-take-drop :
      (f : A → ℕ) (n : ℕ) (xs : List A) → tally f (take n xs) + tally f (drop n xs) ≡ tally f xs
  tally-take-drop f n xs =
      omega (arith, tally-append f (take n xs) (drop n xs), ap (tally f) (take-append-drop n xs))

  pub tally_le :
      (f : A → ℕ) (m : ℕ) (xs : List A) → All (λ x. f x ≤ m) xs → tally f xs ≤ length xs * m
  tally_le f m [] h = omega arith
  tally_le f m (x ∷ xs) h = ground (arith, tally_le f m xs h.1)

pub tally-map {ℓ κ} :
    {A : Type ℓ} {B : Type κ} (f : B → ℕ) (g : A → B) (xs : List A)
    → tally f (map g xs) ≡ tally (λ x. f (g x)) xs
tally-map f g [] = refl
tally-map f g (x ∷ xs) = omega (arith, tally-map f g xs)

pub tally-map-Same {ℓ κ} :
    {A : Type ℓ} {B : Type κ} (g : A → B) (xs ys : List A) → Same xs ys → Same (map g xs) (map g ys)
tally-map-Same g xs ys h f = omega (arith, tally-map f g xs, tally-map f g ys, h (λ x. f (g x)))
