-- ===== src/Tree/Inner.antt =====
-- InternalNodeSize of serializing.cpp, and maybeSplitInternal, updateBranch, findPendingEdits,
-- isGuaranteed, pendingRankDelta and the edit range of applyEditsToBranch of tree_impl.cpp.
pub mod Split
pub mod Ranges
pub mod Partition
use libbruce.Base.{
  ℕ, zero, suc, ◌+◌, ◌-◌, ◌^◌, Bool, true, false, not, ◌&&◌, Option, none, some, List, [], ◌∷◌,
  ◌++◌, ltb, ◌==◌, if◌then◌else◌, length, get_elem?, take, drop, erase_at, Result, ok, err, ◌>>=◌,
  out_of_fuel, out_of_range,
}
use libbruce.Memory
use libbruce.Memory.{Slice, size, wrap32}
use libbruce.Functions.{TreeFunctions, before}
use libbruce.Overflow.{null_id}
use libbruce.Edit.{PendingEdit, delta, first_edit_not_before}
use libbruce.Internal
use libbruce.Internal.{Branch, InternalNode}
use libbruce.Page.Sizes.{link_size, should_split, half_up, internal_size}

-- `blockSize - maxEditQueueSize` on `uint32_t`
abbrev pub capacity : ℕ → ℕ → ℕ
capacity block_size queue_size = wrap32 (block_size + (2 ^ 32 - wrap32 queue_size))

-- `split.left().minKey = key`
abbrev pub name_first : {C : Type 0} → Slice → List (Branch C) → List (Branch C)
name_first key [] = []
name_first key (b ∷ bs) = record b { min_key = key } ∷ bs

module _ {C : Type 0} where
  -- The loop of `InternalNodeSize` for `m_splitIndex`, over the branches from `i - 1` on.
  unfoldable pub internal_split_from : ℕ → ℕ → ℕ → List (Branch C) → ℕ
  internal_split_from piece split_size i [] = i
  internal_split_from piece split_size i (b ∷ []) = i
  internal_split_from piece split_size i (b ∷ c ∷ bs) =
      let next =
        wrap32
          ((if i == 1 then split_size else wrap32 (split_size + size b.min_key)) + link_size) in
      let rest = internal_split_from piece next (i + 1) (c ∷ bs) in
      if ltb piece next then i else rest

  -- `InternalNodeSize::splitIndex`; the sum starts from the size of the whole node.
  unfoldable pub internal_split_index : InternalNode C → ℕ
  unfolding internal_split_from
  internal_split_index node =
      internal_split_from (half_up (internal_size node)) (internal_size node) 1 node.branches

  -- `node_branch` of an inner node that is in memory
  abbrev pub inner_branch : Slice → InternalNode C → Branch (InternalNode C)
  inner_branch key node = record {
    min_key = key;
    node_id = null_id;
    item_count = Internal.item_count node;
    child = some node;
  }

  -- `maybeSplitInternal`: the branches of the `splitresult_t`. The capacity is the block without its
  -- queue area.
  unfoldable pub maybe_split_internal :
      TreeFunctions → ℕ → ℕ → InternalNode C → Result (List (Branch (InternalNode C)))
  unfolding internal_split_index Internal.min_key
  maybe_split_internal fns zero room node = err out_of_fuel
  maybe_split_internal fns (suc fuel) room node =
      if should_split room (internal_size node)
      then (let j = internal_split_index node in
          let after = drop j node.branches in
          let key = Internal.min_key (record node { branches = after }) in
          let e = first_edit_not_before fns key node.edit_queue in
          maybe_split_internal fns fuel room
            (record { branches = after; edit_queue = drop e node.edit_queue })
          >>= λ split. ok (
              inner_branch []
                (record { branches = take j node.branches; edit_queue = take e node.edit_queue })
              ∷ name_first key split))
      else ok (inner_branch [] node ∷ [])

  -- `updateBranch`: the branches afterwards, and the index of the next one to visit.
  unfoldable pub update_branch : InternalNode C → ℕ → List (Branch C) → Result (InternalNode C × ℕ)
  update_branch node i [] = err out_of_range
  update_branch node i (left ∷ others) = elim (get_elem? node.branches i) [
    | none ↦ err out_of_range
    | some b ↦
        let b' = record b { child = left.child; item_count = left.item_count } in
        if length others == 0 && left.item_count == 0
        then ok (record node { branches = erase_at i node.branches }, i)
        else ok (
          record node {
            branches = take i node.branches ++ b' ∷ (others ++ drop (i + 1) node.branches);
          },
          i + 1 + length others,
        )
  ]

module _ (fns : TreeFunctions) where
  -- `findPendingEdits` of a fork with its smallest and largest key, where they are known.
  unfoldable pub find_pending_edits : Slice → Slice → List PendingEdit → ℕ × ℕ
  find_pending_edits min_key max_key queue = (
    (if not (size min_key == 0) && not (length queue == 0)
        then first_edit_not_before fns min_key queue
        else 0),
    (if not (size max_key == 0) && not (length queue == 0)
        then first_edit_not_before fns max_key queue
        else length queue),
  )

  -- The edits that `applyEditsToBranch` applies to the branch `i`.
  unfoldable pub edit_range : {C : Type 0} → InternalNode C → ℕ → ℕ × ℕ
  edit_range node i = (
    elim (get_elem? node.branches i) [
      | none ↦ 0
      | some b ↦ if ltb 0 i then first_edit_not_before fns b.min_key node.edit_queue else 0
    ],
    elim (get_elem? node.branches (i + 1)) [
      | none ↦ length node.edit_queue
      | some b ↦ first_edit_not_before fns b.min_key node.edit_queue
    ],
  )

-- `isGuaranteed`
unfoldable pub is_guaranteed : List PendingEdit → Bool
is_guaranteed [] = true
is_guaranteed (e ∷ es) = let rest = is_guaranteed es in if e.guaranteed then rest else false

-- The sum of `pendingRankDelta`, an `int` as its 32-bit pattern.
unfoldable pub sum_deltas : ℕ → List PendingEdit → ℕ
unfolding delta
sum_deltas acc [] = acc
sum_deltas acc (e ∷ es) = sum_deltas (wrap32 (acc + delta e)) es
