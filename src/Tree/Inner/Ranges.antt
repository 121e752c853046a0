-- ===== src/Tree/Inner/Ranges.antt =====
-- The edits that a branch is given: once each, and the same on the way to a write and to a read.
use libbruce.Base.{
  ℕ, zero, suc, ◌+◌, ◌<◌, ◌≡◌, refl, sym, ap, ap₂, subst, [], ◌∷◌, List, none, some, get_elem?,
  true, false, not, ◌&&◌, Option-cases, inl, inr, if◌then◌else◌, ltb, ◌==◌, length, arith,
}
use libbruce.Memory
use libbruce.Memory.{Slice, size}
use libbruce.Functions.{TreeFunctions, IsKey}
use libbruce.Edit.{PendingEdit, first_edit_not_before}
use libbruce.Internal.{Branch, InternalNode}
use libbruce.Internal.Search.{IsRising, StartsEmpty}
use libbruce.Tree.Inner.{find_pending_edits, edit_range}
use libbruce.Tree.Pending.{unbounded, bounds_of}

pub add_one : (i : ℕ) → i + 1 ≡ suc i
add_one i = omega arith

pub out_of_bounds : {A : Type 0} (xs : List A) (i : ℕ) → i < length xs → get_elem? xs i ≡ none → ⊥
out_of_bounds [] i less h = omega (arith, less)
out_of_bounds (x ∷ xs) zero less h = cc
out_of_bounds (x ∷ xs) (suc i) less h = out_of_bounds xs i (omega (arith, less)) h

module _ (fns : TreeFunctions) where
  known : (key : Slice) → IsKey key → not (size key == 0) ≡ true
  known [] k = absurd (cc)
  known (x ∷ key) k = ground arith

  -- The lower bound of a key that is known, with the test of `findPendingEdits`; `n` is what it
  -- gives otherwise, and the bound in an empty queue.
  tested :
      (key : Slice) (queue : List PendingEdit) (n : ℕ)
      → IsKey key
      → (length queue ≡ 0 → n ≡ 0)
      → (if not (size key == 0) && not (length queue == 0)
          then first_edit_not_before fns key queue
          else n)
        ≡ first_edit_not_before fns key queue
  tested key [] n k zero_of = rw (known key k) (zero_of refl)
  tested key (e ∷ queue) n k zero_of =
      let some_edits : not (length (e ∷ queue) == 0) ≡ true = ground arith in
      rw (known key k) (rw some_edits refl)

module _ {C : Type 0} (fns : TreeFunctions) where
  -- Every key behind the first branch is not empty.
  pub later-IsKey :
      (b c : Branch C) (bs : List (Branch C)) (i : ℕ)
      → IsRising fns (b ∷ bs)
      → get_elem? bs i ≡ some c
      → IsKey c.min_key
  later-IsKey b c [] i r h = cc
  later-IsKey b c (d ∷ bs) zero r h = subst (λ x. IsKey x.min_key) (same d c h) r.0.0.0
    where
      same : (x y : Branch C) → some x ≡ some y → x ≡ y
      same x y e = cc
  later-IsKey b c (d ∷ bs) (suc i) r h = later-IsKey d c bs i r.1 h

  first_bound :
      (b : Branch C) (bs : List (Branch C)) (queue : List PendingEdit) (i : ℕ)
      → StartsEmpty fns (b ∷ bs)
      → IsRising fns (b ∷ bs)
      → i < length (b ∷ bs)
      → (edit_range fns (record { branches = b ∷ bs; edit_queue = queue }) i).0
        ≡ (find_pending_edits fns
            (bounds_of unbounded (record { branches = b ∷ bs; edit_queue = queue }) i).min_key
            (bounds_of unbounded (record { branches = b ∷ bs; edit_queue = queue }) i).max_key
            queue).0
  unfolding edit_range find_pending_edits bounds_of
  first_bound b bs queue zero first r less = rw first refl
  first_bound b bs queue (suc i) first r less = elim (Option-cases (get_elem? bs i)) [
    | inl out ↦ absurd (out_of_bounds bs i (omega (arith, less)) out)
    | inr (c, at) ↦
        let k = later-IsKey b c bs i r at in
        let full : Memory.is_empty c.min_key ≡ false = k in
        let positive : ltb 0 (suc i) ≡ true = ground arith in
        rw (at, edit_range, bounds_of)
          (rw full (rw positive (sym (tested fns c.min_key queue 0 k (λ _. refl)))))
  ]

  last_bound :
      (b : Branch C) (bs : List (Branch C)) (queue : List PendingEdit) (i : ℕ)
      → IsRising fns (b ∷ bs)
      → (edit_range fns (record { branches = b ∷ bs; edit_queue = queue }) i).1
        ≡ (find_pending_edits fns
            (bounds_of unbounded (record { branches = b ∷ bs; edit_queue = queue }) i).min_key
            (bounds_of unbounded (record { branches = b ∷ bs; edit_queue = queue }) i).max_key
            queue).1
  unfolding edit_range find_pending_edits bounds_of
  last_bound b bs queue i r =
      let next : get_elem? (b ∷ bs) (i + 1) ≡ get_elem? bs i =
        ap (get_elem? (b ∷ bs)) (add_one i) in
      elim (Option-cases (get_elem? bs i)) [
        | inl out ↦ rw (next, edit_range, bounds_of) (rw out refl)
        | inr (c, at) ↦
            rw (next, edit_range, bounds_of)
              (rw at (
                sym
                  (tested fns c.min_key queue (length queue) (later-IsKey b c bs i r at) (λ e. e))))
      ]

  abbrev has_branches : List (Branch C) → List PendingEdit → InternalNode C
  has_branches bs queue = record { branches = bs; edit_queue = queue }

  both_bounds :
      (bs : List (Branch C)) (queue : List PendingEdit) (i : ℕ)
      → StartsEmpty fns bs
      → IsRising fns bs
      → i < length bs
      → edit_range fns (has_branches bs queue) i
        ≡ find_pending_edits fns
            (bounds_of unbounded (has_branches bs queue) i).min_key
            (bounds_of unbounded (has_branches bs queue) i).max_key
            queue
  both_bounds [] queue i first r less = absurd first
  both_bounds (b ∷ bs) queue i first r less =
      ap₂ (λ x y. (x, y)) (first_bound b bs queue i first r less) (last_bound b bs queue i r)

-- In a node at the root whose first branch has an empty key and whose other keys are rising, the
-- range of edits that applyEditsToBranch gives a branch on the way to a write is the range that
-- findPendingEdits gives the fork of that branch on the way to a read.
pub edit_range-find_pending_edits :
    {C : Type 0} (fns : TreeFunctions) (node : InternalNode C) (i : ℕ)
    → StartsEmpty fns node.branches
    → IsRising fns node.branches
    → i < length node.branches
    → edit_range fns node i
      ≡ find_pending_edits fns
          (bounds_of unbounded node i).min_key
          (bounds_of unbounded node i).max_key
          node.edit_queue
edit_range-find_pending_edits fns node i first r less =
    both_bounds fns node.branches node.edit_queue i first r less
