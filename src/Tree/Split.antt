-- ===== src/Tree/Split.antt =====
-- LeafNodeSize of serializing.cpp, and maybeSplitLeaf and pushDownOverflowNodeSize of
-- tree_impl.cpp: nodes that are larger than a block are divided before they are written.
pub mod Chain
pub mod Move
pub mod PushDown
pub mod Half
pub mod Points
pub mod Divide
pub mod Lossless
pub mod Cut
pub mod Total
use libbruce.Base.{
  ℕ, zero, suc, ◌+◌, ◌-◌, Bool, true, false, not, ◌&&◌, ◌||◌, Option, none, some, List, [], ◌∷◌,
  ◌++◌, map, ltb, ◌==◌, if◌then◌else◌, length, get_elem?, take, drop, Result, ok, err, ◌>>=◌,
  out_of_range, assertion_failed, null_node, out_of_fuel,
}
use libbruce.Memory.{Slice, KvPair, slice_eq, wrap32}
use libbruce.Overflow
use libbruce.Overflow.{Overflow, absent, present, no_overflow, null_id, own}
use libbruce.Leaf
use libbruce.Leaf.{LeafNode, pair_size, make_leaf}
use libbruce.Internal.{Branch}
use libbruce.Page.Sizes.{
  header_size, link_size, should_split, half_up, leaf_size, overflow_size, overflow_split_index,
}

-- The node that values are pushed to: a new one where `next` is empty.
unfoldable pub next_block : Overflow → Result (List Slice × Overflow)
next_block (absent c id) = if c == 0 then ok ([], no_overflow) else err null_node
next_block (present c id values next) = if c == 0 then ok ([], no_overflow) else ok (values, next)

-- `pushDownOverflowNodeSize`, of a node with its values and its `next`.
unfoldable pub push_down : ℕ → ℕ → List Slice → Overflow → Result (List Slice × Overflow)
unfolding next_block
push_down zero block_size values next = err out_of_fuel
push_down (suc fuel) block_size values next =
    let i = overflow_split_index block_size values in
    if should_split block_size (overflow_size values)
    then (next_block next >>= λ block.
        push_down fuel block_size (block.0 ++ drop i values) block.1 >>= λ pushed. ok (
          take i values,
          present (Overflow.item_count pushed.0 pushed.1) (Overflow.node_id next) pushed.0 pushed.1,
        ))
    else ok (values, next)

-- The loop of `LeafNodeSize` over the pairs from `i` on: where the pieces are as large as a half
-- block (`here`, unset where the loop ends first), and where the run of the pair's key begins.
unfoldable pub scan_half : ℕ → ℕ → ℕ → Slice → ℕ → List KvPair → Option (ℕ × ℕ)
scan_half piece split_size start start_key i [] = none
scan_half piece split_size start start_key i (p ∷ ps) =
    let start' = if slice_eq p.key start_key then start else i in
    let rest =
      scan_half piece (wrap32 (split_size + pair_size p)) start'
        (if slice_eq p.key start_key then start_key else p.key) (i + 1) ps in
    if ltb piece (wrap32 (split_size + pair_size p)) then some (i, start') else rest

-- How many of the first pairs have a key.
unfoldable pub run_length : Slice → List KvPair → ℕ
run_length key [] = 0
run_length key (p ∷ ps) =
    let rest = suc (run_length key ps) in if slice_eq p.key key then rest else 0

-- The two indices that `LeafNodeSize` derives from the half point.
unfoldable pub points_at : List KvPair → Option (ℕ × ℕ) → Result (ℕ × ℕ)
unfolding run_length
points_at pairs none = err out_of_range
points_at pairs (some at) = elim (get_elem? pairs at.0) [
  | none ↦ err out_of_range
  | some q ↦ ok (at.1 + 1, at.0 + run_length q.key (drop at.0 pairs))
]

-- `LeafNodeSize::overflowStart` and `splitStart` of a leaf that should split. The iterators of an
-- empty leaf, and of one whose pairs do not fill the half block, are never set.
unfoldable pub leaf_split_points : ℕ → List KvPair → Result (ℕ × ℕ)
unfolding scan_half points_at
leaf_split_points block_size [] = err out_of_range
leaf_split_points block_size (p ∷ ps) =
    points_at (p ∷ ps) (scan_half (half_up block_size) (header_size + link_size) 0 p.key 0 (p ∷ ps))

-- `OverflowNode::OverflowNode` over pairs, with its `assert` on their keys.
unfoldable pub one_key : List KvPair → Bool
unfolding run_length
one_key [] = true
one_key (p ∷ ps) = run_length p.key (p ∷ ps) == length (p ∷ ps)

-- `LeafNode::setOverflow` and `pushDownOverflowNodeSize` of the left leaf's overflow.
unfoldable pub give_overflow : ℕ → ℕ → LeafNode → List Slice → Result LeafNode
unfolding push_down
give_overflow fuel block_size left values =
    if length values == 0
    then ok left
    else push_down fuel block_size values no_overflow >>= λ pushed. ok (record left {
      overflow = present (Overflow.item_count values no_overflow) null_id pushed.0 pushed.1;
    })

-- `node_branch` of a child that is in memory
abbrev pub leaf_branch : Slice → LeafNode → Branch LeafNode
leaf_branch key leaf = record {
  min_key = key;
  node_id = null_id;
  item_count = Leaf.item_count leaf;
  child = some leaf;
}

-- `split.left().minKey = key`
abbrev pub name_left : Slice → List (Branch LeafNode) → List (Branch LeafNode)
name_left key [] = []
name_left key (b ∷ bs) = record b { min_key = key } ∷ bs

-- `maybeSplitLeaf`: the branches of the `splitresult_t`.
unfoldable pub maybe_split_leaf : ℕ → ℕ → LeafNode → Result (List (Branch LeafNode))
unfolding leaf_split_points one_key give_overflow
maybe_split_leaf zero block_size leaf = err out_of_fuel
maybe_split_leaf (suc fuel) block_size leaf =
    if should_split block_size (leaf_size leaf)
    then (leaf_split_points block_size leaf.pairs >>= λ at.
        let between = take (at.1 - at.0) (drop at.0 leaf.pairs) in
        let right = make_leaf (drop at.1 leaf.pairs) in
        if one_key between && (Overflow.is_empty leaf.overflow || not (Leaf.item_count right == 0))
        then (give_overflow (suc (length between)) block_size (make_leaf (take at.0 leaf.pairs))
              (map (λ p. p.value) between)
            >>= λ left.
                if Leaf.item_count right == 0
                then ok (leaf_branch [] left ∷ [])
                else (maybe_split_leaf fuel block_size (record right { overflow = leaf.overflow })
                    >>= λ split. ok (leaf_branch [] left ∷ name_left (Leaf.min_key right) split)))
        else err assertion_failed)
    else ok (leaf_branch [] leaf ∷ [])
