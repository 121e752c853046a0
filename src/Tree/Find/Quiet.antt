-- ===== src/Tree/Find/Quiet.antt =====
-- Trees in memory without overflow and without edits that wait, their pairs in order, and the paths
-- into them.
use libbruce.Base.{
  ℕ, zero, suc, ◌+◌, ◌^◌, ◌<◌, ◌≡◌, refl, sym, ap, ◌∙◌, ◌++◌, [], ◌∷◌, List, Option, none, some,
  true, length, All, arith, append_assoc, length-append,
}
use libbruce.Memory.{KvPair, wrap32}
use libbruce.Overflow
use libbruce.Internal.{Branch, InternalNode, sum_branches}
use libbruce.Tree.Nodes.{Tree}
use libbruce.Tree.Find.{TreePath}

-- An inner node whose queue is empty.
abbrev pub quiet : {C : Type 0} → List (Branch C) → InternalNode C
quiet bs = record { branches = bs; edit_queue = [] }

module _ {C : Type 0} (pairs : C → List KvPair) where
  abbrev pub child_pairs : Option C → List KvPair
  child_pairs none = []
  child_pairs (some c) = pairs c

  abbrev pub branch_pairs : List (Branch C) → List KvPair
  branch_pairs [] = []
  branch_pairs (b ∷ bs) = child_pairs b.child ++ branch_pairs bs

  -- A branch whose child is in memory, is as `P` says, and is counted.
  pub record IsHeld (P : C → Type 0) (b : Branch C) : Type 0 where
    pub node : C
    pub held : b.child ≡ some node
    pub counted : b.item_count ≡ length (pairs node)
    pub good : P node

  -- A path through the branch behind `before` to the `m`-th pair of its child.
  pub record Passes (R : C → TreePath → ℕ → Type 0) (bs : List (Branch C)) (i : ℕ) (path : TreePath)
      (n : ℕ) : Type 0 where
    pub before : List (Branch C)
    pub branch : Branch C
    pub after : List (Branch C)
    pub parts : bs ≡ before ++ branch ∷ after
    pub index : i ≡ length before
    pub node : C
    pub held : branch.child ≡ some node
    pub offset : ℕ
    pub sum : n ≡ length (branch_pairs before) + offset
    pub reaches : R node path offset

  pub branch_pairs-append :
      (xs ys : List (Branch C)) → branch_pairs (xs ++ ys) ≡ branch_pairs xs ++ branch_pairs ys
  branch_pairs-append [] ys = refl
  branch_pairs-append (x ∷ xs) ys =
      ap (◌++◌ (child_pairs x.child)) (branch_pairs-append xs ys)
      ∙ sym (append_assoc (child_pairs x.child) (branch_pairs xs) (branch_pairs ys))

  pub sum_branches-held :
      (P : C → Type 0) (acc : ℕ) (bs : List (Branch C))
      → All (IsHeld P) bs
      → acc + length (branch_pairs bs) < 2 ^ 32
      → sum_branches acc bs ≡ acc + length (branch_pairs bs)
  unfolding sum_branches
  sum_branches-held P acc [] held small = omega arith
  sum_branches-held P acc (b ∷ bs) (h, held) small =
      let size : length (branch_pairs (b ∷ bs)) ≡ length (pairs h.node) + length (branch_pairs bs) =
        rw h.held (length-append (pairs h.node) (branch_pairs bs)) in
      let low : wrap32 (acc + b.item_count) ≡ acc + length (pairs h.node) =
        omega (arith, h.counted, size, small) in
      rw low (
        sum_branches-held P (acc + length (pairs h.node)) bs held (omega (arith, size, small))
        ∙ omega (arith, size))

-- The pairs of a tree in memory without overflow, in order.
abbrev pub tree_pairs : (h : ℕ) → Tree h → List KvPair
tree_pairs zero leaf = leaf.pairs
tree_pairs (suc h) node = branch_pairs (tree_pairs h) node.branches

-- A tree in memory without overflow and waiting edits, with the right counts.
abbrev pub IsQuiet : (h : ℕ) → Tree h → Type 0
IsQuiet zero leaf = Overflow.is_empty leaf.overflow ≡ true
IsQuiet (suc h) node =
    (node.edit_queue ≡ []) × All (IsHeld (tree_pairs h) (IsQuiet h)) node.branches

-- A path to the `n`-th pair of a tree.
abbrev pub Reaches : (h : ℕ) → Tree h → TreePath → ℕ → Type 0
Reaches h tree [] n = ⊥
Reaches zero leaf (f ∷ []) n = (f.index ≡ n) × (n < length leaf.pairs)
Reaches zero leaf (f ∷ g ∷ path) n = ⊥
Reaches (suc h) node (f ∷ path) n = Passes (tree_pairs h) (Reaches h) node.branches f.index path n
