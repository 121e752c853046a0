-- ===== src/Tree/Find.antt =====
-- tree_impl.cpp: find, begin, seek and rank, over the path of forks that an iterator keeps. A fork
-- has no node here: its index leads to it from the root.
pub mod Quiet
pub mod Visit
pub mod Seek
pub mod Place
pub mod Rank
pub mod Ordered
pub mod Fences
pub mod Key
pub mod Overrun
pub mod Sorted
use libbruce.Base.{
  ℕ, zero, suc, ◌+◌, ◌-◌, [], ◌∷◌, List, Option, none, some, get_elem?, if◌then◌else◌, true, false,
  err, out_of_range, null_node, out_of_fuel, assertion_failed, ltb, ◌==◌, length, set_at,
}
use libbruce.Memory.{Slice, wrap32}
use libbruce.Functions.{TreeFunctions}
use libbruce.Overflow
use libbruce.Overflow.{Overflow, present}
use libbruce.Leaf
use libbruce.Leaf.{LeafNode}
use libbruce.Internal.{InternalNode, find_internal_key}
use libbruce.Tree.Leaf.{Fetch, Loads, ◌>>=◌, pure, fail, overflow_node}
use libbruce.Tree.Nodes.{NodeOps, Depth, child_at, Tree, tree_ops}
use libbruce.Tree.Pending.{
  put_child, Bounds, unbounded, bounds_of, apply_pending_edits, pending_rank_delta,
}

-- `fork`: the bounds of the node's keys and the place in the node. In a leaf the index is that of
-- `leafIter`.
pub record Fork : Type 0 where
  pub bounds : Bounds
  pub index : ℕ

-- `treepath_t`, from the root on
abbrev pub TreePath : Type 0
TreePath = List Fork

abbrev pub fork : Bounds → ℕ → Fork
fork at i = record { bounds = at; index = i }

-- A path that begins at a fork, if there is one behind it.
abbrev pub below : Fork → Option TreePath → Option TreePath
below f none = none
below f (some path) = some (f ∷ path)

module _ {C : Type 0} where
  unfoldable pub count_at : InternalNode C → ℕ → ℕ
  count_at node i = elim (get_elem? node.branches i) [ none ↦ 0 | some b ↦ b.item_count ]

-- The leaf case of `findRec`
unfoldable pub find_leaf : TreeFunctions → LeafNode → Bounds → Option Slice → Option TreePath
unfolding Leaf.find_range
find_leaf fns leaf at key =
    let range : ℕ × ℕ = elim key [
      | none ↦ (0, length leaf.pairs)
      | some k ↦ Leaf.find_range fns leaf k
    ] in
    if range.0 == range.1 then none else some (fork at range.0 ∷ [])

module _ {C : Type 0} (fns : TreeFunctions) (ops : NodeOps C) where
  -- `travelDown` to the branch `i`, and `applyPendingEdits` to its child at SHALLOW.
  unfoldable pub enter : InternalNode C → Bounds → ℕ → Loads (C × InternalNode C)
  unfolding child_at bounds_of apply_pending_edits
  enter node at i = child_at ops node i >>= λ r.
      apply_pending_edits fns ops r.1 (bounds_of at node i) i i r.0 Depth.shallow

  -- The case of an inner node of `findRec`; `find` is the call for the child.
  unfoldable pub find_internal :
      (C → Bounds → Option Slice → Loads (Option TreePath × C))
      → InternalNode C
      → Bounds
      → Option Slice
      → Loads (Option TreePath × InternalNode C)
  unfolding enter bounds_of find_internal_key put_child
  find_internal find node at key =
      let i : ℕ = elim key [ none ↦ 0 | some k ↦ find_internal_key fns node k ] in
      enter node at i >>= λ s.
      find s.0 (bounds_of at node i) key >>= λ t. pure (below (fork at i) t.0, put_child i t.1 s.1)

  -- The loop of `seekRec` over the branches of an inner node, of which `m` are left from `i` on;
  -- `seek` is the call for a child.
  unfoldable pub seek_branches :
      (C → Bounds → ℕ → Loads (Option TreePath × C))
      → ℕ
      → ℕ
      → InternalNode C
      → Bounds
      → ℕ
      → Loads (Option TreePath × InternalNode C)
  unfolding child_at bounds_of pending_rank_delta apply_pending_edits put_child count_at
  seek_branches seek zero i node at n = pure (none, node)
  seek_branches seek (suc m) i node at n = child_at ops node i >>= λ r.
      pending_rank_delta fns ops r.1 (bounds_of at node i) i r.0 >>= λ d.
      let count = wrap32 (count_at d.2 i + d.0) in
      elim (ltb n count) [
        | true ↦
            apply_pending_edits fns ops d.2 (bounds_of at node i) i i d.1 Depth.shallow >>= λ s.
            seek s.0 (bounds_of at node i) n >>= λ t.
            pure (below (fork at i) t.0, put_child i t.1 s.1)
        | false ↦ seek_branches seek m (i + 1) d.2 at (n - count)
      ]

  -- The loop of `rank` over the branches before the index of a fork, of which `m` are left from `i`
  -- on. A branch's count is added before its pending edits are looked at.
  unfoldable pub rank_branches : ℕ → ℕ → InternalNode C → Bounds → ℕ → Loads (ℕ × InternalNode C)
  unfolding child_at bounds_of pending_rank_delta count_at
  rank_branches zero i node at ret = pure (ret, node)
  rank_branches (suc m) i node at ret =
      let counted = wrap32 (ret + count_at node i) in
      child_at ops node i >>= λ r.
      pending_rank_delta fns ops r.1 (bounds_of at node i) i r.0 >>= λ d.
      rank_branches m (i + 1) d.2 at (wrap32 (counted + d.0))

  -- The case of an inner node of `rank` and the forks behind it; `rank` is the call for the child
  -- that the path goes through, with the sum so far.
  unfoldable pub rank_internal :
      (C → TreePath → ℕ → Loads (ℕ × C))
      → InternalNode C
      → TreePath
      → ℕ
      → Loads (ℕ × InternalNode C)
  unfolding rank_branches put_child
  rank_internal rank node [] ret = pure (ret, node)
  rank_internal rank node (f ∷ path) ret =
      if ltb f.index (length node.branches)
      then (rank_branches f.index 0 node f.bounds ret >>= λ r.
          elim (get_elem? r.1.branches f.index) [
            | none ↦ fail (err out_of_range)
            | some b ↦ elim b.child [
              | none ↦ fail (err null_node)
              | some c ↦ rank c path r.0 >>= λ t. pure (t.0, put_child f.index t.1 r.1)
            ]
          ])
      else fail (err assertion_failed)

-- The leaf and overflow cases of `rank`: the indices of the forks.
unfoldable pub rank_leaf : TreePath → ℕ → ℕ
rank_leaf [] ret = ret
rank_leaf (f ∷ path) ret = rank_leaf path (wrap32 (ret + f.index))

module _ (fns : TreeFunctions) (fetch : Fetch) where
  -- The overflow case of `seekRec`, on the block that `o` leads to. Behind the last block the search
  -- goes on in the same block.
  unfoldable pub seek_overflow : ℕ → Overflow → ℕ → Loads (Option TreePath × Overflow)
  unfolding overflow_node
  seek_overflow zero o n = fail (err out_of_fuel)
  seek_overflow (suc fuel) o n = overflow_node fns fetch o >>= λ node.
      let here = present (Overflow.count o) (Overflow.node_id o) node.0 node.1 in
      elim (ltb n (length node.0)) [
        | true ↦ pure (some (fork unbounded n ∷ []), here)
        | false ↦ elim (Overflow.is_empty node.1) [
          | true ↦ seek_overflow fuel here (n - length node.0)
          | false ↦ seek_overflow fuel node.1 (n - length node.0) >>= λ t. pure (
            below (fork unbounded 0) t.0,
            present (Overflow.count o) (Overflow.node_id o) node.0 t.1,
          )
        ]
      ]

  -- The leaf case of `seekRec`. On the way to the overflow the leaf's iterator stays at its start.
  unfoldable pub seek_leaf : ℕ → LeafNode → Bounds → ℕ → Loads (Option TreePath × LeafNode)
  unfolding seek_overflow
  seek_leaf fuel leaf at n =
      if ltb n (length leaf.pairs)
      then pure (some (fork at n ∷ []), leaf)
      else if Overflow.is_empty leaf.overflow
      then pure (none, leaf)
      else (seek_overflow fuel leaf.overflow (n - length leaf.pairs) >>= λ t.
          pure (below (fork at 0) t.0, record leaf { overflow = t.1 }))

module _ (fns : TreeFunctions) (fetch : Fetch) (chain : ℕ) where
  -- `findRec`, for a key or, at `begin`, for none
  unfoldable pub find_rec :
      (h : ℕ) → Tree h → Bounds → Option Slice → Loads (Option TreePath × Tree h)
  unfolding find_leaf find_internal
  find_rec zero leaf at key = pure (find_leaf fns leaf at key, leaf)
  find_rec (suc h) node at key =
      find_internal fns (tree_ops fns fetch chain h) (find_rec h) node at key

  -- `seekRec`
  unfoldable pub seek_rec : (h : ℕ) → Tree h → Bounds → ℕ → Loads (Option TreePath × Tree h)
  unfolding seek_leaf seek_branches
  seek_rec zero leaf at n = seek_leaf fns fetch (suc (n + chain)) leaf at n
  seek_rec (suc h) node at n =
      seek_branches fns (tree_ops fns fetch chain h) (seek_rec h) (length node.branches) 0 node at n

  -- `rank`, from the sum of the forks before
  unfoldable pub rank_from : (h : ℕ) → Tree h → TreePath → ℕ → Loads (ℕ × Tree h)
  unfolding rank_leaf rank_internal
  rank_from zero leaf path ret = pure (rank_leaf path ret, leaf)
  rank_from (suc h) node path ret =
      rank_internal fns (tree_ops fns fetch chain h) (rank_from h) node path ret

  -- `find`
  unfoldable pub find : (h : ℕ) → Tree h → Slice → Loads (Option TreePath × Tree h)
  unfolding find_rec
  find h tree key = find_rec h tree unbounded (some key)

  -- `begin`
  unfoldable pub begin : (h : ℕ) → Tree h → Loads (Option TreePath × Tree h)
  unfolding find_rec
  begin h tree = find_rec h tree unbounded none

  -- `seek`
  unfoldable pub seek : (h : ℕ) → Tree h → ℕ → Loads (Option TreePath × Tree h)
  unfolding seek_rec
  seek h tree n = seek_rec h tree unbounded n

  -- `rank`
  unfoldable pub rank : (h : ℕ) → Tree h → TreePath → Loads (ℕ × Tree h)
  unfolding rank_from
  rank h tree path = rank_from h tree path 0
