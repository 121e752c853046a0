-- ===== src/Tree/Apply.antt =====
-- tree_impl.cpp: validateKVSize, and apply to a leaf and, at SHALLOW, to an inner node.
use libbruce.Base.{
  ℕ, ◌+◌, true, false, none, some, ltb, if◌then◌else◌, ok, err, Result, kv_too_large,
}
use libbruce.Memory.{Slice, size}
use libbruce.Functions.{TreeFunctions}
use libbruce.Edit.{EditType, PendingEdit, enqueue}
use libbruce.Leaf.{LeafNode}
use libbruce.Internal.{InternalNode}
use libbruce.Tree.Leaf.{Fetch, Loads, leaf_insert, leaf_remove}

-- `validateKVSize`
unfoldable pub validate_kv_size : ℕ → Slice → Slice → Result (Unit {0})
validate_kv_size max_size key value =
    if ltb max_size (size key + size value) then err kv_too_large else ok tt

-- The leaf case of `apply`.
unfoldable pub apply_leaf : TreeFunctions → Fetch → ℕ → LeafNode → PendingEdit → Loads LeafNode
unfolding leaf_insert leaf_remove
apply_leaf fns fetch depth leaf e = elim e.edit [
  | EditType.insert ↦ leaf_insert fns fetch depth leaf e.key e.value false
  | EditType.upsert ↦ leaf_insert fns fetch depth leaf e.key e.value true
  | EditType.remove_key ↦ leaf_remove fns fetch depth leaf e.key none
  | EditType.remove_kv ↦ leaf_remove fns fetch depth leaf e.key (some e.value)
]

-- The case of an inner node at SHALLOW.
unfoldable pub apply_shallow :
    {C : Type 0} → TreeFunctions → InternalNode C → PendingEdit → InternalNode C
unfolding enqueue
apply_shallow fns node e = record node { edit_queue = enqueue fns e node.edit_queue }
