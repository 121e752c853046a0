-- ===== src/Internal.antt =====
-- node_branch of priv_types.h, internal_node.h and internal_node.cpp: an inner node and the search
-- for the branch of a key. The nodes below are of a type `C`.
pub mod Search
use libbruce.Base.{
  ℕ, ◌+◌, ◌-◌, Bool, true, false, Option, none, some, List, [], ◌∷◌, get_elem?, drop, ltb,
  if◌then◌else◌, lower_bound, set_at,
}
use libbruce.Memory.{Slice, NodeId, wrap32}
use libbruce.Memory
use libbruce.Functions.{TreeFunctions, is_lt, is_eq, is_gt}
use libbruce.Edit.{PendingEdit, delta}

-- `node_branch`; the child is there while the tree is changed.
pub record Branch (C : Type 0) : Type 0 where
  pub min_key : Slice
  pub node_id : NodeId
  pub item_count : ℕ
  pub child : Option C

-- `InternalNode`
pub record InternalNode (C : Type 0) : Type 0 where
  pub branches : List (Branch C)
  pub edit_queue : List PendingEdit

module _ {C : Type 0} where
  -- The two loops of `itemCount`, on a `uint32_t`.
  unfoldable pub sum_branches : ℕ → List (Branch C) → ℕ
  sum_branches ret [] = ret
  sum_branches ret (b ∷ bs) = sum_branches (wrap32 (ret + b.item_count)) bs

unfoldable pub sum_edits : ℕ → List PendingEdit → ℕ
sum_edits ret [] = ret
sum_edits ret (e ∷ es) = sum_edits (if e.guaranteed then wrap32 (ret + delta e) else ret) es

module _ {C : Type 0} where
  -- `InternalNode::itemCount`
  unfoldable pub item_count : InternalNode C → ℕ
  unfolding sum_branches sum_edits
  item_count node = sum_edits (sum_branches 0 node.branches) node.edit_queue

  -- `InternalNode::minKey`
  unfoldable pub min_key : InternalNode C → Slice
  min_key node = elim node.branches [ [] ↦ [] | b ∷ bs ↦ b.min_key ]

  -- `InternalNode::setBranch`, with the new child's own count.
  unfoldable pub set_branch : ℕ → C → ℕ → InternalNode C → InternalNode C
  set_branch i child count node = elim (get_elem? node.branches i) [
    | none ↦ node
    | some b ↦ record node {
      branches = set_at i (record b { child = some child; item_count = count }) node.branches;
    }
  ]

  module _ (fns : TreeFunctions) where
    -- `BranchCompare::operator()`
    unfoldable pub branch_before : Slice → Branch C → Bool
    branch_before key b =
        if Memory.is_empty b.min_key
        then true
        else if Memory.is_empty key
        then false
        else is_lt (fns.key_compare b.min_key key)

    -- What `FindInternalKey` does with the lower bound.
    unfoldable pub settle : Slice → List (Branch C) → ℕ → ℕ
    settle key bs i = elim (get_elem? bs i) [
      -- `i == branches.size()`
      | none ↦ i - 1
      | some b ↦
          if Memory.is_empty b.min_key
          then i
          else if ltb 0 i
          then (if is_eq (fns.key_compare b.min_key key) then i else i - 1)
          else i
    ]

    -- `FindInternalKey`; a node that is searched has a branch.
    unfoldable pub find_internal_key : InternalNode C → Slice → ℕ
    unfolding settle branch_before
    find_internal_key node key =
        settle key node.branches (lower_bound (branch_before key) node.branches)

    -- The `while` loop of `FindShallowestInternalKey` over the branches from `i` on.
    unfoldable pub shallowest : Slice → List (Branch C) → ℕ → ℕ → ℕ → ℕ
    shallowest key [] i ret least = ret
    shallowest key (b ∷ bs) i ret least =
        let rest =
          shallowest key bs (i + 1) (if ltb b.item_count least then i else ret)
            (if ltb b.item_count least then b.item_count else least) in
        if is_gt (fns.key_compare b.min_key key) then ret else rest

    -- `FindShallowestInternalKey`
    unfoldable pub find_shallowest_internal_key : InternalNode C → Slice → ℕ
    unfolding find_internal_key shallowest
    find_shallowest_internal_key node key =
        let i = find_internal_key node key in
        elim (get_elem? node.branches i) [
          | none ↦ i
          | some b ↦ shallowest key (drop (i + 1) node.branches) (i + 1) i b.item_count
        ]
