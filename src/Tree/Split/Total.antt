-- ===== src/Tree/Split/Total.antt =====
-- maybeSplitLeaf gives branches for every leaf that can be divided.
use libbruce.Base.{
  ℕ, zero, suc, ◌+◌, ◌^◌, ◌<◌, ◌≡◌, refl, inl, inr, true, false, Bool-cases, List, [], ◌∷◌, arith,
  ◌==◌, length, Same, ok, err, assertion_failed, ltb,
}
use libbruce.Memory.{KvPair, wrap32, slice_eq_refl}
use libbruce.Functions.{TreeFunctions, IsLawful}
use libbruce.Overflow
use libbruce.Overflow.{no_overflow}
use libbruce.Leaf
use libbruce.Leaf.{LeafNode, make_leaf, pair_size}
use libbruce.Leaf.Order.{IsSorted}
use libbruce.Leaf.Sizes.{total}
use libbruce.Internal.{Branch}
use libbruce.Page.Sizes.{leaf_size, should_split, half_up}
use libbruce.Tree.Split.{
  leaf_branch, name_left, maybe_split_leaf, leaf_split_points, points_at, scan_half, run_length,
  one_key,
}
use libbruce.Tree.Split.Points.{leaf_split_points-IsDivision}
use libbruce.Tree.Split.Divide.{CanSplit, contents, leaf_contents}
use libbruce.Tree.Split.Lossless.{IsDivided, IsLossless, whole-IsLossless}
use libbruce.Tree.Split.Cut.{
  right_leaf, left_leaf, right-CanSplit, fewer, last-IsLossless, more-IsLossless,
}

over_block :
    (block_size : ℕ) (leaf : LeafNode)
    → CanSplit block_size leaf
    → should_split block_size (leaf_size leaf) ≡ true
    → block_size < total leaf.pairs + 30
unfolding should_split leaf_size
over_block block_size leaf can b = ground (arith, b, can.sized, can.small)

some_pair : (ps : List KvPair) → 0 < total ps → 0 < length ps
some_pair [] h = h
some_pair (p ∷ ps) h = omega arith

none_counted :
    (ps : List KvPair) → length ps < 2 ^ 32 → (Leaf.item_count (make_leaf ps) == 0) ≡ true → ps ≡ []
unfolding Leaf.item_count make_leaf
none_counted [] few h = refl
none_counted (p ∷ ps) few h = ground (arith, few, h)

module _ (fns : TreeFunctions) (lawful : IsLawful fns) where
  split_within :
      (bound block_size : ℕ) (leaf : LeafNode)
      → length leaf.pairs < bound
      → CanSplit block_size leaf
      → (bs : List (Branch LeafNode)) × IsLossless fns block_size leaf bs
  unfolding make_leaf
  split_within zero block_size leaf h can = absurd (omega (arith, h))
  split_within (suc bound) block_size leaf h can =
      elim (Bool-cases (should_split block_size (leaf_size leaf))) [
        | inr b ↦ (leaf_branch [] leaf ∷ [], whole-IsLossless fns lawful block_size leaf b)
        | inl b ↦
            let over = over_block block_size leaf can b in
            let d =
              leaf_split_points-IsDivision block_size leaf.pairs (omega (arith, can.room))
                (some_pair leaf.pairs (omega (arith, over, can.room))) can.small over in
            let left = left_leaf fns lawful block_size leaf can b d in
            let right = right-CanSplit fns lawful block_size leaf can b d in
            elim (Bool-cases (Leaf.item_count (make_leaf d.right) == 0)) [
              | inl z ↦ (
                leaf_branch [] left.0 ∷ [],
                last-IsLossless fns lawful block_size leaf can b d left.0 left.1
                    (none_counted d.right right.few z),
              )
              | inr z ↦
                  let rest =
                    split_within bound block_size (right_leaf leaf d.right)
                      (omega (arith, h, fewer fns lawful block_size leaf can b d)) right in
                  (
                    leaf_branch [] left.0 ∷ name_left (Leaf.min_key (make_leaf d.right)) rest.0,
                    more-IsLossless fns lawful block_size leaf can b d left.0 rest.0 left.1 z
                        rest.1,
                  )
            ]
      ]

  -- For a leaf that can be divided there are branches that `maybe_split_leaf` gives with every fuel
  -- above the number of pairs: they hold the same pairs, counted with those in overflow chains, every
  -- predicate on the leaf's pairs holds in every branch, and if the leaf is sorted, each key
  -- is less than every key of a later branch, so that no key is in two of them.
  pub maybe_split_leaf-IsLossless :
      (block_size : ℕ) (leaf : LeafNode)
      → CanSplit block_size leaf
      → (bs : List (Branch LeafNode)) × IsLossless fns block_size leaf bs
  maybe_split_leaf-IsLossless block_size leaf can =
      split_within (suc (length leaf.pairs)) block_size leaf (omega arith) can

-- A leaf of one pair that is larger than a block, in a block size that is a limit and with a size
-- below the width of a `uint32_t`, fails the assertion of `maybe_split_leaf` if it has an overflow
-- block: there is no right leaf to put the block on.
pub alone_fails :
    (n block_size : ℕ) (p : KvPair) (o : Overflow.Overflow)
    → 0 < block_size
    → block_size < pair_size p + 30
    → pair_size p + 30 < 2 ^ 32
    → Overflow.is_empty o ≡ false
    → maybe_split_leaf
        (suc n)
        block_size
        (record { pairs = p ∷ []; overflow = o; elements_size = pair_size p })
      ≡ err assertion_failed
unfolding maybe_split_leaf leaf_split_points points_at scan_half run_length one_key should_split
    leaf_size Leaf.item_count make_leaf
alone_fails n block_size p o room big small some_overflow =
    let low : wrap32 (30 + pair_size p) ≡ 30 + pair_size p = omega (arith, small) in
    let over : ltb block_size (30 + pair_size p) ≡ true = ground (arith, big) in
    let half_over : ltb (half_up block_size) (30 + pair_size p) ≡ true =
      ground (arith, big, room) in
    let limit : (block_size == 0) ≡ false = ground (arith, room) in
    rw limit (rw low (rw over (rw half_over (rw (slice_eq_refl p.key) (rw some_overflow refl)))))

-- Under a lawful comparator, in blocks of at least 30 bytes, splitting a sorted leaf without overflow
-- whose byte count is right, with sizes below the width of a `uint32_t` and values that each fit in
-- a block, ends with every fuel above the number of pairs. The leaves of the branches and their
-- overflow chains hold the same pairs, and each key is less than every key of a later leaf, so
-- that no key is in two leaves.
pub maybe_split_leaf-ok :
    (fns : TreeFunctions)
    → IsLawful fns
    → (block_size : ℕ) (leaf : LeafNode) → CanSplit block_size leaf
    → IsSorted fns leaf.pairs
    → (n : ℕ) → length leaf.pairs < n
    → (bs : List (Branch LeafNode)) × (maybe_split_leaf n block_size leaf ≡ ok bs)
      × Same (contents bs) (leaf_contents leaf)
      × IsDivided fns bs
maybe_split_leaf-ok fns lawful block_size leaf can sorted n h =
    let split = maybe_split_leaf-IsLossless fns lawful block_size leaf can in
    (split.0, split.1.result n h, split.1.same, split.1.divided sorted)
