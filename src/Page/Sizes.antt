-- ===== src/Page/Sizes.antt =====
-- NodeSize, LeafNodeSize, OverflowNodeSize and InternalNodeSize of serializing.h: how large a node
-- is as a page, and where it is split. The sizes are of type `uint32_t`.
use libbruce.Base.{
  ℕ, ◌+◌, ◌/◌, Bool, true, false, not, ◌&&◌, List, [], ◌∷◌, ltb, ◌==◌, if◌then◌else◌,
}
use libbruce.Memory.{Slice, size, wrap32}
use libbruce.Edit.{PendingEdit}
use libbruce.Leaf.{LeafNode}
use libbruce.Internal.{Branch, InternalNode}

-- `sizeof(flags_t) + sizeof(keycount_t)`, and `sizeof(itemcount_t) + sizeof(nodeid_t)`.
abbrev pub header_size : ℕ
header_size = 6

abbrev pub link_size : ℕ
link_size = 24

-- `NodeSize::shouldSplit`: a block size of 0 means no limit.
unfoldable pub should_split : ℕ → ℕ → Bool
should_split block_size node_size = not (block_size == 0) && ltb block_size node_size

-- `std::ceil(n / 2.0)`
abbrev pub half_up : ℕ → ℕ
half_up n = (n + 1) / 2

-- `LeafNodeSize::size`
unfoldable pub leaf_size : LeafNode → ℕ
leaf_size leaf = wrap32 (header_size + link_size + leaf.elements_size)

-- The sizes of a node's values, added up in a `uint32_t`.
unfoldable pub add_sizes : ℕ → List Slice → ℕ
add_sizes acc [] = acc
add_sizes acc (v ∷ vs) = add_sizes (wrap32 (acc + size v)) vs

-- `OverflowNodeSize::size`
unfoldable pub overflow_size : List Slice → ℕ
unfolding add_sizes
overflow_size values = add_sizes (header_size + link_size) values

-- The loop of `OverflowNodeSize` for `m_splitIndex`.
unfoldable pub overflow_split_from : ℕ → ℕ → ℕ → List Slice → ℕ
overflow_split_from block_size split_size i [] = i
overflow_split_from block_size split_size i (v ∷ vs) =
    let rest = overflow_split_from block_size (wrap32 (split_size + size v)) (i + 1) vs in
    if ltb block_size (wrap32 (split_size + size v)) then i else rest

unfoldable pub overflow_split_index : ℕ → List Slice → ℕ
unfolding overflow_split_from
overflow_split_index block_size values =
    overflow_split_from block_size (header_size + link_size) 0 values

module _ {C : Type 0} where
  -- The branches' part of `InternalNodeSize::size`; the first key is not stored.
  unfoldable pub add_branches : ℕ → Bool → List (Branch C) → ℕ
  add_branches acc first [] = acc
  add_branches acc first (b ∷ bs) =
      add_branches (wrap32 ((if first then acc else wrap32 (acc + size b.min_key)) + link_size))
        false bs

  -- `InternalNodeSize::size`
  unfoldable pub internal_size : InternalNode C → ℕ
  unfolding add_branches
  internal_size node = add_branches (header_size + 4) true node.branches

-- `InternalNodeSize::editQueueSize`
unfoldable pub edit_queue_size : ℕ → List PendingEdit → ℕ
edit_queue_size acc [] = acc
edit_queue_size acc (e ∷ es) =
    edit_queue_size (wrap32 (wrap32 (acc + 1) + (size e.key + size e.value))) es

-- `InternalNodeSize::shouldApplyEditQueue`
unfoldable pub should_apply_edit_queue : ℕ → List PendingEdit → Bool
unfolding edit_queue_size
should_apply_edit_queue max_queue_size queue = ltb max_queue_size (edit_queue_size 0 queue)
