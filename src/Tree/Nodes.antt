-- ===== src/Tree/Nodes.antt =====
-- tree_impl.cpp: load, child and apply at both depths, and the trees they work on. All leaves of a
-- tree are at one height, as every split and every new root leaves them; a block of the other kind
-- at a place is an error.
use libbruce.Base.{
  ℕ, zero, suc, ◌++◌, [], ◌∷◌, List, none, some, get_elem?, if◌then◌else◌, err, out_of_range,
  null_node, ok, set_at,
}
use libbruce.Memory.{NodeId}
use libbruce.Functions.{TreeFunctions}
use libbruce.Edit.{PendingEdit}
use libbruce.Leaf
use libbruce.Leaf.{LeafNode}
use libbruce.Leaf.Merge.{apply_all}
use libbruce.Internal
use libbruce.Internal.{Branch, InternalNode, find_internal_key, set_branch}
use libbruce.Page.Read.{AnyNode, parse_node}
use libbruce.Tree.Leaf.{Fetch, Loads, ◌>>=◌, pure, fail}
use libbruce.Tree.Apply.{apply_leaf, apply_shallow}

-- `Depth`
pub data Depth : Type 0 where
  shallow deep : Depth

-- The nodes of one height: `load`, `itemCount`, `apply`, and what `applyEditsToBranch` does to a
-- child with the edits of its range.
pub record NodeOps (C : Type 0) : Type 0 where
  pub load : NodeId → Loads C
  pub item_count : C → ℕ
  pub apply : C → PendingEdit → Depth → Loads C
  pub apply_range : C → List PendingEdit → Loads C

module _ (fns : TreeFunctions) (fetch : Fetch) where
  -- `load` where a leaf is expected
  unfoldable pub load_leaf : NodeId → Loads LeafNode
  load_leaf id ids = elim (fetch id) [
    | err e ↦ err e
    | ok page ↦ elim (parse_node {C = LeafNode} fns page) [
      | err e ↦ err e
      | ok node ↦ elim node [
        | AnyNode.leaf leaf ↦ ok (leaf, ids ++ id ∷ [])
        | AnyNode.internal node ↦ err null_node
        | AnyNode.overflow values next ↦ err null_node
      ]
    ]
  ]

  -- `load` where an inner node is expected
  unfoldable pub load_internal : {C : Type 0} → NodeId → Loads (InternalNode C)
  load_internal {C} id ids = elim (fetch id) [
    | err e ↦ err e
    | ok page ↦ elim (parse_node {C = C} fns page) [
      | err e ↦ err e
      | ok node ↦ elim node [
        | AnyNode.leaf leaf ↦ err null_node
        | AnyNode.internal node ↦ ok (node, ids ++ id ∷ [])
        | AnyNode.overflow values next ↦ err null_node
      ]
    ]
  ]

module _ {C : Type 0} (ops : NodeOps C) where
  -- `child`: the child, and the branch that now has it.
  unfoldable pub child : Branch C → Loads (C × Branch C)
  child b = elim b.child [
    | some c ↦ pure (c, b)
    | none ↦ ops.load b.node_id >>= λ c. pure (c, record b { child = some c })
  ]

  -- `internal->branches[i]` and its `child`, in the node that now has it
  unfoldable pub child_at : InternalNode C → ℕ → Loads (C × InternalNode C)
  unfolding child
  child_at node i = elim (get_elem? node.branches i) [
    | none ↦ fail (err out_of_range)
    | some b ↦ child b >>= λ r. pure (r.0, record node { branches = set_at i r.1 node.branches })
  ]

  -- The case DEEP of `apply` to an inner node.
  unfoldable pub apply_deep : TreeFunctions → InternalNode C → PendingEdit → Loads (InternalNode C)
  unfolding child_at find_internal_key set_branch
  apply_deep fns node e =
      let i = find_internal_key fns node e.key in
      child_at node i >>= λ r.
      ops.apply r.0 e Depth.deep >>= λ c. pure (set_branch i c (ops.item_count c) r.1)

  -- `apply` to an inner node
  unfoldable pub apply_internal :
      TreeFunctions → InternalNode C → PendingEdit → Depth → Loads (InternalNode C)
  unfolding apply_deep apply_shallow
  apply_internal fns node e Depth.deep = apply_deep fns node e
  apply_internal fns node e Depth.shallow = pure (apply_shallow fns node e)

module _ {C : Type 0} (apply : C → PendingEdit → Depth → Loads C) where
  -- The loop of `applyPendingEdits`: one edit after another at a depth.
  unfoldable pub apply_each : C → List PendingEdit → Depth → Loads C
  apply_each c [] depth = pure c
  apply_each c (e ∷ es) depth = apply c e depth >>= λ c'. apply_each c' es depth

  -- The loop of `applyEditsToBranch`: an edit that is not guaranteed goes all the way down.
  unfoldable pub apply_guaranteed : C → List PendingEdit → Loads C
  apply_guaranteed c [] = pure c
  apply_guaranteed c (e ∷ es) =
      apply c e (if e.guaranteed then Depth.shallow else Depth.deep) >>= λ c'.
      apply_guaranteed c' es

-- A tree whose leaves are at a height.
abbrev pub Tree : ℕ → Type 0
Tree zero = LeafNode
Tree (suc h) = InternalNode (Tree h)

module _ (fns : TreeFunctions) (fetch : Fetch) (chain : ℕ) where
  -- A leaf takes a range of edits through `applyAll`; `chain` bounds the overflow blocks that are
  -- followed.
  abbrev pub leaf_ops : NodeOps LeafNode
  leaf_ops = record {
    load = load_leaf fns fetch;
    item_count = Leaf.item_count;
    apply = λ leaf e depth. apply_leaf fns fetch chain leaf e;
    apply_range = λ leaf es. pure (apply_all fns leaf es);
  }

  abbrev pub internal_ops : {C : Type 0} → NodeOps C → NodeOps (InternalNode C)
  internal_ops ops = record {
    load = load_internal fns fetch;
    item_count = Internal.item_count;
    apply = apply_internal ops fns;
    apply_range = apply_guaranteed (apply_internal ops fns);
  }

  abbrev pub tree_ops : (h : ℕ) → NodeOps (Tree h)
  tree_ops zero = leaf_ops
  tree_ops (suc h) = internal_ops (tree_ops h)
