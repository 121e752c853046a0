-- ===== src/Tree/Iterator.antt =====
-- tree_iterator_impl.cpp and tree_iterator.cpp: an iterator is its tree and a path into it, which
-- is empty once it is past the end.
pub mod Skip
pub mod Open
pub mod Next
pub mod Order
pub mod Begin
pub mod Faults
use libbruce.Base.{
  ℕ, zero, suc, ◌+◌, ◌-◌, ◌^◌, ◌++◌, [], ◌∷◌, List, Option, none, some, get_elem?, if◌then◌else◌,
  Bool, true, false, not, ◌&&◌, ◌||◌, err, out_of_range, null_node, out_of_fuel, assertion_failed,
  invalid_iterator, ok, ltb, leb, ◌==◌, length, take, drop, set_at, Result,
}
use libbruce.Memory.{Slice, wrap32}
use libbruce.Functions.{TreeFunctions}
use libbruce.Overflow
use libbruce.Overflow.{Overflow, absent, present}
use libbruce.Leaf.{LeafNode}
use libbruce.Internal.{Branch, InternalNode}
use libbruce.Tree.Leaf.{Fetch, Loads, ◌>>=◌, pure, fail, overflow_node}
use libbruce.Tree.Nodes.{NodeOps, Depth, child_at, Tree, tree_ops}
use libbruce.Tree.Pending.{put_child, Bounds, unbounded, bounds_of, apply_pending_edits}
use libbruce.Tree.Find.{Fork, TreePath, fork, below, seek, rank}

-- `value` of an overflow fork
unfoldable pub value_of_overflow : Overflow → TreePath → Result Slice
value_of_overflow (absent c id) path = err null_node
value_of_overflow (present c id values next) [] = err out_of_range
value_of_overflow (present c id values next) (f ∷ []) = elim (get_elem? values f.index) [
  | none ↦ err out_of_range
  | some v ↦ ok v
]
value_of_overflow (present c id values next) (f ∷ g ∷ path) = value_of_overflow next (g ∷ path)

-- `value`
unfoldable pub value_at : (h : ℕ) → Tree h → TreePath → Result Slice
unfolding value_of_overflow
value_at h tree [] = err out_of_range
value_at zero leaf (f ∷ []) = elim (get_elem? leaf.pairs f.index) [
  | none ↦ err out_of_range
  | some p ↦ ok p.value
]
value_at zero leaf (f ∷ g ∷ path) = value_of_overflow leaf.overflow (g ∷ path)
value_at (suc h) node (f ∷ path) = elim (get_elem? node.branches f.index) [
  | none ↦ err out_of_range
  | some b ↦ elim b.child [ none ↦ err null_node | some c ↦ value_at h c path ]
]

-- `key`. In an overflow block the code reads the block as a leaf, which is undefined in C++.
unfoldable pub key_at : (h : ℕ) → Tree h → TreePath → Result Slice
key_at h tree [] = err out_of_range
key_at zero leaf (f ∷ []) = elim (get_elem? leaf.pairs f.index) [
  | none ↦ err out_of_range
  | some p ↦ ok p.key
]
key_at zero leaf (f ∷ g ∷ path) = err out_of_range
key_at (suc h) node (f ∷ path) = elim (get_elem? node.branches f.index) [
  | none ↦ err out_of_range
  | some b ↦ elim b.child [ none ↦ err null_node | some c ↦ key_at h c path ]
]

-- `valid` and `validIndex` of an overflow fork
unfoldable pub is_valid_overflow : Overflow → TreePath → Bool
is_valid_overflow (absent c id) path = false
is_valid_overflow (present c id values next) [] = false
is_valid_overflow (present c id values next) (f ∷ []) = ltb f.index (length values)
is_valid_overflow (present c id values next) (f ∷ g ∷ path) = is_valid_overflow next (g ∷ path)

-- `valid`
unfoldable pub is_valid : (h : ℕ) → Tree h → TreePath → Bool
unfolding is_valid_overflow
is_valid h tree [] = false
is_valid zero leaf (f ∷ []) = not (f.index == length leaf.pairs)
is_valid zero leaf (f ∷ g ∷ path) = is_valid_overflow leaf.overflow (g ∷ path)
is_valid (suc h) node (f ∷ []) = ltb f.index (length node.branches)
is_valid (suc h) node (f ∷ g ∷ path) = elim (get_elem? node.branches f.index) [
  | none ↦ false
  | some b ↦ elim b.child [ none ↦ false | some c ↦ is_valid h c (g ∷ path) ]
]

module _ (fns : TreeFunctions) (fetch : Fetch) where
  -- `next` and `advanceCurrent` in an overflow block or one behind it: no path where the last block
  -- is left.
  unfoldable pub next_in_overflow : Overflow → TreePath → Loads (Option TreePath × Overflow)
  unfolding overflow_node
  next_in_overflow (absent c id) path = fail (err null_node)
  next_in_overflow (present c id values next) [] = fail (err out_of_range)
  next_in_overflow (present c id values next) (f ∷ []) =
      let moved = fork f.bounds (f.index + 1) in
      if ltb moved.index (length values)
      then pure (some (moved ∷ []), present c id values next)
      else if Overflow.is_empty next
      then pure (none, present c id values next)
      else (overflow_node fns fetch next >>= λ node. pure (
        some (moved ∷ fork unbounded 0 ∷ []),
        present c id values (present (Overflow.count next) (Overflow.node_id next) node.0 node.1),
      ))
  next_in_overflow (present c id values next) (f ∷ g ∷ path) =
      next_in_overflow next (g ∷ path) >>= λ r. pure (below f r.0, present c id values r.1)

  -- `next` and `advanceCurrent` in a leaf or its overflow: no path where they are left.
  unfoldable pub next_in_leaf : LeafNode → TreePath → Loads (Option TreePath × LeafNode)
  unfolding next_in_overflow overflow_node
  next_in_leaf leaf [] = fail (err out_of_range)
  next_in_leaf leaf (f ∷ []) =
      let moved = fork f.bounds (f.index + 1) in
      if f.index == length leaf.pairs
      then fail (err assertion_failed)
      else if not (moved.index == length leaf.pairs)
      then pure (some (moved ∷ []), leaf)
      else if Overflow.is_empty leaf.overflow
      then pure (none, leaf)
      else (overflow_node fns fetch leaf.overflow >>= λ node. pure (
        some (moved ∷ fork unbounded 0 ∷ []),
        record leaf {
          overflow =
              present (Overflow.count leaf.overflow) (Overflow.node_id leaf.overflow) node.0 node.1;
        },
      ))
  next_in_leaf leaf (f ∷ g ∷ path) = next_in_overflow leaf.overflow (g ∷ path) >>= λ r.
      pure (below f r.0, record leaf { overflow = r.1 })

module _ {C : Type 0} (fns : TreeFunctions) (ops : NodeOps C) where
  -- A step down in `travelToNextLeaf`. The fork of the child is on the path by then, and its index,
  -- which is 0, picks the branch that takes the child's count.
  unfoldable pub enter_next : InternalNode C → Bounds → ℕ → Loads (C × InternalNode C)
  unfolding child_at bounds_of apply_pending_edits
  enter_next node at i = child_at ops node i >>= λ r.
      apply_pending_edits fns ops r.1 (bounds_of at node i) i 0 r.0 Depth.shallow

  -- `travelToNextLeaf` in a node at the branch `i`, with `m` branches from there on; `travel` is
  -- the way to the first leaf of a child.
  unfoldable pub travel_branches :
      (C → Bounds → Loads (Option TreePath × C))
      → ℕ
      → ℕ
      → InternalNode C
      → Bounds
      → Loads (Option TreePath × InternalNode C)
  unfolding enter_next bounds_of put_child
  travel_branches travel zero i node at = pure (none, node)
  travel_branches travel (suc m) i node at = enter_next node at i >>= λ s.
      travel s.0 (bounds_of at node i) >>= λ t. elim t.0 [
        | some path ↦ pure (some (fork at i ∷ path), put_child i t.1 s.1)
        | none ↦ travel_branches travel m (i + 1) (put_child i t.1 s.1) at
      ]

  -- `next` in a node whose child the path goes through; `next` is the call for that child. Once the
  -- child is left, the way goes on with the next branch.
  unfoldable pub next_in_internal :
      (C → TreePath → Loads (Option TreePath × C))
      → (C → Bounds → Loads (Option TreePath × C))
      → InternalNode C
      → TreePath
      → Loads (Option TreePath × InternalNode C)
  unfolding travel_branches put_child
  next_in_internal next travel node [] = fail (err out_of_range)
  next_in_internal next travel node (f ∷ path) = elim (get_elem? node.branches f.index) [
    | none ↦ fail (err out_of_range)
    | some b ↦ elim b.child [
      | none ↦ fail (err null_node)
      | some c ↦ next c path >>= λ r. elim r.0 [
        | some path' ↦ pure (some (f ∷ path'), put_child f.index r.1 node)
        | none ↦
            travel_branches travel (length node.branches - (f.index + 1)) (f.index + 1)
              (put_child f.index r.1 node) f.bounds
      ]
    ]
  ]

module _ (fns : TreeFunctions) (fetch : Fetch) (chain : ℕ) where
  -- `travelToNextLeaf` from a node at its first branch
  unfoldable pub travel : (h : ℕ) → Tree h → Bounds → Loads (Option TreePath × Tree h)
  unfolding travel_branches
  travel zero leaf at = pure (some (fork at 0 ∷ []), leaf)
  travel (suc h) node at =
      travel_branches fns (tree_ops fns fetch chain h) (travel h) (length node.branches) 0 node at

  -- `next`: no path past the end
  unfoldable pub next_rec : (h : ℕ) → Tree h → TreePath → Loads (Option TreePath × Tree h)
  unfolding next_in_leaf next_in_internal travel
  next_rec zero leaf path = next_in_leaf fns fetch leaf path
  next_rec (suc h) node path =
      next_in_internal fns (tree_ops fns fetch chain h) (next_rec h) (travel h) node path

  -- `checkValid` and `next`
  unfoldable pub next : (h : ℕ) → Tree h → TreePath → Loads (Option TreePath × Tree h)
  unfolding is_valid next_rec
  next h tree path =
      if is_valid h tree path then next_rec h tree path else fail (err invalid_iterator)
