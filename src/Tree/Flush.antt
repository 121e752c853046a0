-- ===== src/Tree/Flush.antt =====
-- tree_impl.cpp: maybeApplyEdits, flushAndSplitRec and the growth of the root in write.
pub mod Fits
use libbruce.Base.{
  ℕ, zero, suc, ◌+◌, ◌-◌, ◌++◌, [], ◌∷◌, List, none, some, get_elem?, if◌then◌else◌, Bool, true,
  false, err, out_of_range, null_node, block_too_small, assertion_failed, ok, ltb, ◌==◌, length,
  take, drop, Result,
}
use libbruce.Memory.{NodeId, slice_eq}
use libbruce.Functions.{TreeFunctions}
use libbruce.Edit.{PendingEdit}
use libbruce.Overflow.{Overflow, absent, present}
use libbruce.Internal.{Branch, InternalNode, find_internal_key}
use libbruce.Page.Sizes.{should_apply_edit_queue}
use libbruce.Tree.Split.{push_down, maybe_split_leaf}
use libbruce.Tree.Leaf.{Fetch, Loads, ◌>>=◌, pure, fail}
use libbruce.Tree.Inner.{capacity, maybe_split_internal, update_branch, edit_range}
use libbruce.Tree.Nodes.{NodeOps, Tree, tree_ops}

-- The settings of a block engine: `maxBlockSize` and `editQueueSize`.
pub record Sizes : Type 0 where
  pub block_size : ℕ
  pub queue_size : ℕ

-- `std::set<nodeid_t>::insert`; the order of the ids is that of their first insertion here.
unfoldable pub has_id : NodeId → List NodeId → Bool
has_id id [] = false
has_id id (n ∷ ns) = let rest = has_id id ns in if slice_eq n id then true else rest

unfoldable pub insert_id : List NodeId → NodeId → List NodeId
unfolding has_id
insert_id ids id = if has_id id ids then ids else ids ++ id ∷ []

module _ {C : Type 0} where
  -- `findBlocksToFetch`, over the edits that are left
  unfoldable pub blocks_to_fetch :
      TreeFunctions → InternalNode C → List NodeId → List PendingEdit → Result (List NodeId)
  unfolding find_internal_key insert_id
  blocks_to_fetch fns node ids [] = ok ids
  blocks_to_fetch fns node ids (e ∷ es) =
      elim (get_elem? node.branches (find_internal_key fns node e.key)) [
        | none ↦ err out_of_range
        | some b ↦ elim b.child [
          | some c ↦ blocks_to_fetch fns node ids es
          | none ↦ blocks_to_fetch fns node (insert_id ids b.node_id) es
        ]
      ]

module _ {C : Type 0} (ops : NodeOps C) where
  -- The loop of `loadBlocksToEdit` over the branches; `get_all` gives the page of every id that it
  -- is asked for.
  unfoldable pub load_branches : List NodeId → List (Branch C) → Loads (List (Branch C))
  unfolding has_id
  load_branches wanted [] = pure []
  load_branches wanted (b ∷ bs) = elim (has_id b.node_id wanted) [
    | false ↦ load_branches wanted bs >>= λ cs. pure (b ∷ cs)
    | true ↦ ops.load b.node_id >>= λ c.
        load_branches wanted bs >>= λ cs. pure (record b { child = some c } ∷ cs)
  ]

  -- `loadBlocksToEdit`
  unfoldable pub load_blocks_to_edit : TreeFunctions → InternalNode C → Loads (InternalNode C)
  unfolding blocks_to_fetch load_branches
  load_blocks_to_edit fns node = fail (blocks_to_fetch fns node [] node.edit_queue) >>= λ wanted.
      load_branches wanted node.branches >>= λ bs. pure (record node { branches = bs })

  -- `applyEditsToBranch`: the branch `b` at `i` afterwards. Its count stays as it is.
  unfoldable pub apply_edits_to_branch :
      TreeFunctions → InternalNode C → ℕ → Branch C → Loads (Branch C)
  unfolding edit_range
  apply_edits_to_branch fns node i b =
      let range = edit_range fns node i in
      if range.0 == range.1 then pure b else elim b.child [
        | none ↦ fail (err assertion_failed)
        | some c ↦
            if ltb range.1 range.0
            then fail (err out_of_range)
            else (ops.apply_range c (take (range.1 - range.0) (drop range.0 node.edit_queue))
                >>= λ c'. pure (record b { child = some c' }))
      ]

  -- The loop of `maybeApplyEdits` over the branches from `i` on.
  unfoldable pub apply_to_branches :
      TreeFunctions → InternalNode C → ℕ → List (Branch C) → Loads (List (Branch C))
  unfolding apply_edits_to_branch
  apply_to_branches fns node i [] = pure []
  apply_to_branches fns node i (b ∷ bs) = apply_edits_to_branch fns node i b >>= λ b'.
      apply_to_branches fns node (i + 1) bs >>= λ bs'. pure (b' ∷ bs')

  -- `maybeApplyEdits`
  unfoldable pub maybe_apply_edits : TreeFunctions → Sizes → InternalNode C → Loads (InternalNode C)
  unfolding should_apply_edit_queue load_blocks_to_edit apply_to_branches
  maybe_apply_edits fns sizes node =
      if should_apply_edit_queue sizes.queue_size node.edit_queue
      then (load_blocks_to_edit fns node >>= λ full.
          apply_to_branches fns full 0 full.branches >>= λ bs.
          pure (record { branches = bs; edit_queue = [] }))
      else pure node

module _ {C : Type 0} (flush : C → Loads (List (Branch C))) where
  -- The loop of `flushAndSplitRec` over the children, from `i` on; every step passes one of the
  -- `m` branches that were there at the start.
  unfoldable pub flush_children : ℕ → ℕ → InternalNode C → Loads (InternalNode C)
  unfolding update_branch
  flush_children zero i node = pure node
  flush_children (suc m) i node = elim (get_elem? node.branches i) [
    | none ↦ pure node
    | some b ↦ elim b.child [
      | none ↦ flush_children m (i + 1) node
      | some c ↦
          flush c >>= λ split. fail (update_branch node i split) >>= λ r. flush_children m r.1 r.0
    ]
  ]

-- The overflow block of a leaf in memory, of a chain whose values are fewer than the fuel
unfoldable pub flush_overflow : ℕ → ℕ → Overflow → Result Overflow
unfolding push_down
flush_overflow fuel block_size (absent c id) = ok (absent c id)
flush_overflow fuel block_size (present c id values next) =
    if c == 0 then ok (present c id values next) else elim (push_down fuel block_size values next) [
      | err e ↦ err e
      | ok r ↦ ok (present c id r.0 r.1)
    ]

module _ (fns : TreeFunctions) (fetch : Fetch) (chain : ℕ) (sizes : Sizes) where
  -- `flushAndSplitRec`: the branches of the `splitresult_t`. The fuel of the splits is above the
  -- number of pairs or branches; `chain` is above the number of the values in a chain.
  unfoldable pub flush_and_split_rec : (h : ℕ) → Tree h → Loads (List (Branch (Tree h)))
  unfolding flush_overflow maybe_split_leaf maybe_apply_edits flush_children maybe_split_internal
  flush_and_split_rec zero leaf =
      fail (flush_overflow chain sizes.block_size leaf.overflow) >>= λ o.
      fail
        (maybe_split_leaf (suc (length leaf.pairs)) sizes.block_size (record leaf { overflow = o }))
  flush_and_split_rec (suc h) node =
      maybe_apply_edits (tree_ops fns fetch chain h) fns sizes node >>= λ edited.
      flush_children (flush_and_split_rec h) (length edited.branches) 0 edited >>= λ flushed. fail (
        maybe_split_internal fns (suc (length flushed.branches))
          (capacity sizes.block_size sizes.queue_size) flushed)

  -- The `while` loop of `write` with `tries` left: the new root and its height.
  unfoldable pub grow_root : (tries h : ℕ) → List (Branch (Tree h)) → Result ((k : ℕ) × Tree k)
  unfolding maybe_split_internal
  grow_root tries h [] = err out_of_range
  grow_root tries h (b ∷ []) = elim b.child [ none ↦ err null_node | some c ↦ ok (h, c) ]
  grow_root zero h (b ∷ c ∷ bs) = err block_too_small
  grow_root (suc tries) h (b ∷ c ∷ bs) =
      let node : Tree (suc h) = record { branches = b ∷ c ∷ bs; edit_queue = [] } in
      elim (maybe_split_internal fns (suc (length (b ∷ c ∷ bs)))
        (capacity sizes.block_size sizes.queue_size) node) [
          | err e ↦ err e
          | ok split ↦ grow_root tries (suc h) split
        ]

  -- `write` up to the blocks: the root that is written.
  unfoldable pub flush_root : (h : ℕ) → Tree h → Loads ((k : ℕ) × Tree k)
  unfolding flush_and_split_rec grow_root
  flush_root h tree = flush_and_split_rec h tree >>= λ split. fail (grow_root 4 h split)
