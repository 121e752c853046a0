-- ===== src/Tree/Pending.antt =====
-- tree_impl.cpp: travelDown, applyPendingEdits and pendingRankDelta, which bring the edits that
-- wait in an inner node to the child that is visited.
use libbruce.Base.{
  set_at, ℕ, ◌+◌, ◌-◌, ◌++◌, [], none, some, get_elem?, if◌then◌else◌, err, out_of_range, ltb, take,
  drop,
}
use libbruce.Memory
use libbruce.Memory.{Slice}
use libbruce.Functions.{TreeFunctions}
use libbruce.Internal.{InternalNode}
use libbruce.Tree.Leaf.{Loads, ◌>>=◌, pure, fail}
use libbruce.Tree.Inner.{find_pending_edits, is_guaranteed, sum_deltas}
use libbruce.Tree.Nodes.{NodeOps, Depth, apply_each}

-- The keys that bound a `fork`; an empty one is not known.
pub record Bounds : Type 0 where
  pub min_key : Slice
  pub max_key : Slice

abbrev pub unbounded : Bounds
unbounded = record { min_key = []; max_key = [] }

module _ {C : Type 0} where
  -- The branch `i` with its child as it is after a call.
  unfoldable pub put_child : ℕ → C → InternalNode C → InternalNode C
  put_child i c node = elim (get_elem? node.branches i) [
    | none ↦ node
    | some b ↦ record node { branches = set_at i (record b { child = some c }) node.branches }
  ]

  -- `branch.itemCount = n` of the branch `i`
  unfoldable pub set_count : ℕ → ℕ → InternalNode C → InternalNode C
  set_count i n node = elim (get_elem? node.branches i) [
    | none ↦ node
    | some b ↦ record node { branches = set_at i (record b { item_count = n }) node.branches }
  ]

  -- The bounds that `travelDown` gives the fork of a branch.
  unfoldable pub bounds_of : Bounds → InternalNode C → ℕ → Bounds
  bounds_of top node i = record {
    min_key = elim (get_elem? node.branches i) [
      | none ↦ top.min_key
      | some b ↦ if Memory.is_empty b.min_key then top.min_key else b.min_key
    ];
    max_key = elim (get_elem? node.branches (i + 1)) [ none ↦ top.max_key | some b ↦ b.min_key ];
  }

module _ {C : Type 0} (fns : TreeFunctions) (ops : NodeOps C) where
  -- `applyPendingEdits` to the child `c` of the branch `i`, where the new count goes to the branch
  -- `k` that is passed: the child and the node afterwards. A range that ends before it begins is
  -- followed out of the queue.
  unfoldable pub apply_pending_edits :
      InternalNode C → Bounds → ℕ → ℕ → C → Depth → Loads (C × InternalNode C)
  unfolding find_pending_edits apply_each put_child set_count
  apply_pending_edits node at i k c depth =
      let range = find_pending_edits fns at.min_key at.max_key node.edit_queue in
      if ltb range.1 range.0
      then fail (err out_of_range)
      else (apply_each ops.apply c (take (range.1 - range.0) (drop range.0 node.edit_queue)) depth
          >>= λ c'. pure (
            c',
            set_count k (ops.item_count c') (
                put_child i c' (record node {
                  edit_queue = take range.0 node.edit_queue ++ drop range.1 node.edit_queue;
                })),
          ))

  -- `pendingRankDelta`: the delta as a 32-bit pattern, and the child and the node afterwards.
  unfoldable pub pending_rank_delta :
      InternalNode C → Bounds → ℕ → C → Loads (ℕ × C × InternalNode C)
  unfolding find_pending_edits apply_pending_edits is_guaranteed sum_deltas
  pending_rank_delta node at i c =
      let range = find_pending_edits fns at.min_key at.max_key node.edit_queue in
      let edits = take (range.1 - range.0) (drop range.0 node.edit_queue) in
      if ltb range.1 range.0
      then fail (err out_of_range)
      else if is_guaranteed edits
      then pure (sum_deltas 0 edits, c, node)
      else (apply_pending_edits node at i i c Depth.deep >>= λ r. pure (0, r.0, r.1))
