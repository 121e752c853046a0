-- ===== src/Tree/Leaf.antt =====
-- tree_impl.cpp: load, overflowNode, leafInsert, leafRemove, overflowInsert, overflowRemove and
-- overflowPull. Every caller in the code passes a null `delta`, so the count of changes is not kept.
-- An operation takes the ids loaded so far and gives them back with its own behind them.
pub mod Pull
pub mod Insert
pub mod InsertOne
pub mod Remove
pub mod Target
pub mod RemoveOne
use libbruce.Base.{
  ℕ, zero, suc, ◌+◌, ◌-◌, Ordering, Bool, true, false, not, ◌&&◌, ◌||◌, Option, none, some, List,
  [], ◌∷◌, ◌++◌, ◌==◌, ltb, if◌then◌else◌, length, ◌≡◌, ap, get_elem?, take, drop, Result, ok, err,
  out_of_range, assertion_failed, null_node, out_of_fuel,
}
use libbruce.Memory.{Slice, NodeId, KvPair, slice_eq, wrap32}
use libbruce.Functions.{TreeFunctions, is_eq}
use libbruce.Overflow
use libbruce.Overflow.{Overflow, absent, present}
use libbruce.Leaf
use libbruce.Leaf.{LeafNode}
use libbruce.Page.{Page}
use libbruce.Page.Read.{AnyNode, parse_node}

-- A computation that can load blocks: `m_loadedIDs` before and after.
abbrev pub Loads : Type 0 → Type 0
Loads A = List NodeId → Result (A × List NodeId)

infixl 5 ◌>>=◌
abbrev pub ◌>>=◌ : {A B : Type 0} → Loads A → (A → Loads B) → Loads B
(m >>= f) ids = elim (m ids) [ ok r ↦ f r.0 r.1 | err e ↦ err e ]

abbrev pub pure : {A : Type 0} → A → Loads A
pure a ids = ok (a, ids)

abbrev pub fail : {A : Type 0} → Result A → Loads A
fail (ok a) ids = ok (a, ids)
fail (err e) ids = err e

pub >>=-ok :
    {A B : Type 0} (m : Loads A) (f : A → Loads B) (ids ids' : List NodeId) (a : A)
    → m ids ≡ ok (a, ids')
    → (m >>= f) ids ≡ f a ids'
>>=-ok m f ids ids' a h = ap (λ r. elim r [ ok x ↦ f x.0 x.1 | err e ↦ err e ]) h

-- The pages of the block engine, `be::get`.
abbrev pub Fetch : Type 0
Fetch = NodeId → Result Page

-- What remains of a block's values after the erasing loop of `overflowRemove`, and whether it
-- erased one. The iterator keeps its index over an erasure, as it does where it is a pointer into the
-- vector, and is then moved past the next value, which is out of range at the end.
unfoldable pub erase_loop : (Slice → Bool) → List Slice → Bool → Result (List Slice × Bool)
erase_loop matches [] erased = ok ([], erased)
erase_loop matches (v ∷ []) erased = if matches v then err out_of_range else ok (v ∷ [], erased)
erase_loop matches (v ∷ w ∷ vs) erased =
    let skipped = erase_loop matches vs true in
    let kept = erase_loop matches (w ∷ vs) erased in
    if matches v
    then elim skipped [ ok r ↦ ok (w ∷ r.0, r.1) | err e ↦ err e ]
    else elim kept [ ok r ↦ ok (v ∷ r.0, r.1) | err e ↦ err e ]

-- `values.back()` and the erasure of the last value
abbrev pub pop_back : List Slice → Result (Slice × List Slice)
pop_back [] = err out_of_range
pop_back (v ∷ []) = ok (v, [])
pop_back (v ∷ w ∷ vs) = elim (pop_back (w ∷ vs)) [ ok r ↦ ok (r.0, v ∷ r.1) | err e ↦ err e ]

-- `pairs.rbegin()->first`
abbrev pub back_key : List KvPair → Result Slice
back_key [] = err out_of_range
back_key (p ∷ []) = ok p.key
back_key (p ∷ q ∷ ps) = back_key (q ∷ ps)

module _ (fns : TreeFunctions) where
  -- Whether a value is to be removed: any, or those equal to a given one under `valueCompare`.
  abbrev pub is_target : Option Slice → Slice → Bool
  is_target none v = true
  is_target (some value) v = is_eq (fns.value_compare v value)

  -- The search of `leafRemove` from an index on: a target among the next `n` pairs, or the end.
  unfoldable pub find_target : Option Slice → ℕ → ℕ → List KvPair → Option ℕ
  find_target value zero i ps = none
  find_target value (suc n) i [] = none
  find_target value (suc n) i (p ∷ ps) =
      let rest = find_target value n (i + 1) ps in if is_target value p.value then some i else rest

module _ (fns : TreeFunctions) (fetch : Fetch) where
  -- `load` and `deserialize` of a node that the caller takes for an overflow node
  unfoldable pub load_overflow : NodeId → Loads (List Slice × Overflow)
  load_overflow id ids = elim (fetch id) [
    | err e ↦ err e
    | ok page ↦ elim (parse_node {C = LeafNode} fns page) [
      | err e ↦ err e
      | ok node ↦ elim node [
        | AnyNode.leaf leaf ↦ err null_node
        | AnyNode.internal node ↦ err null_node
        | AnyNode.overflow values next ↦ ok ((values, next), ids ++ id ∷ [])
      ]
    ]
  ]

  -- `overflowNode`, with its `assert`
  unfoldable pub overflow_node : Overflow → Loads (List Slice × Overflow)
  unfolding load_overflow
  overflow_node (absent c id) = if c == 0 then fail (err assertion_failed) else load_overflow id
  overflow_node (present c id values next) =
      if c == 0 then fail (err assertion_failed) else pure (values, next)

  -- `overflowInsert`
  unfoldable pub overflow_insert : Overflow → Slice → Loads Overflow
  unfolding overflow_node
  overflow_insert o value = overflow_node o >>= λ node. pure (
      present (Overflow.item_count (node.0 ++ value ∷ []) node.1) (Overflow.node_id o)
        (node.0 ++ value ∷ []) node.1)

  -- `overflowPull`: the last value of the last block, and the record without it.
  unfoldable pub overflow_pull : ℕ → Overflow → Loads (Slice × Overflow)
  unfolding overflow_node
  overflow_pull zero o = fail (err out_of_fuel)
  overflow_pull (suc fuel) o = overflow_node o >>= λ node.
      if Overflow.is_empty node.1
      then (fail (pop_back node.0) >>= λ r.
          pure (r.0, present (wrap32 (length r.1)) (Overflow.node_id o) r.1 node.1))
      else (overflow_pull fuel node.1 >>= λ r.
          pure (r.0, present (Overflow.item_count node.0 r.1) (Overflow.node_id o) node.0 r.1))

  -- `overflowRemove`. Its last test is on the items of this block and of all that follow.
  unfoldable pub overflow_remove : ℕ → Overflow → Option Slice → Loads Overflow
  unfolding overflow_node overflow_pull erase_loop
  overflow_remove zero o value = fail (err out_of_fuel)
  overflow_remove (suc fuel) o value = overflow_node o >>= λ node.
      fail (erase_loop (is_target fns value) node.0 false) >>= λ kept.
      (if not kept.1 && not (Overflow.is_empty node.1)
        then overflow_remove fuel node.1 value
        else pure node.1)
      >>= λ next.
          if Overflow.item_count kept.0 next == 0 && not (Overflow.is_empty next)
          then (overflow_pull fuel next >>= λ r. pure (
              present (Overflow.item_count (kept.0 ++ r.0 ∷ []) r.1) (Overflow.node_id o)
                (kept.0 ++ r.0 ∷ []) r.1))
          else pure (present (Overflow.item_count kept.0 next) (Overflow.node_id o) kept.0 next)

  -- The loop of `leafInsert` that pulls a whole overflow chain into the leaf.
  unfoldable pub pull_all : ℕ → ℕ → Slice → LeafNode → Loads LeafNode
  unfolding overflow_pull Leaf.insert
  pull_all depth zero key leaf = fail (err out_of_fuel)
  pull_all depth (suc fuel) key leaf =
      if Overflow.is_empty leaf.overflow
      then pure leaf
      else (overflow_pull depth leaf.overflow >>= λ r.
          pull_all depth fuel key
            (Leaf.insert fns (record leaf { overflow = r.1 }) (record { key = key; value = r.0 })))

  -- `leafInsert`. In an empty leaf without overflow, the iterator before the end is out of range.
  unfoldable pub leaf_insert : ℕ → LeafNode → Slice → Slice → Bool → Loads LeafNode
  unfolding Leaf.find Leaf.update_value Leaf.insert pull_all overflow_insert
  leaf_insert depth leaf key value upsert =
      let it = Leaf.find fns leaf key in
      let last = length leaf.pairs in
      if upsert && not (it == last)
      then fail (Leaf.update_value leaf it value)
      else if it == last && not (Overflow.is_empty leaf.overflow)
      then (fail (back_key leaf.pairs) >>= λ o_key.
          pull_all depth (suc (Overflow.count leaf.overflow)) o_key leaf >>= λ full.
          pure (Leaf.insert fns full (record { key = key; value = value })))
      else if last == 0
      then fail (err out_of_range)
      else if it + 1 == last && not (Overflow.is_empty leaf.overflow)
      then (overflow_insert leaf.overflow value >>= λ o. pure (record leaf { overflow = o }))
      else pure (Leaf.insert fns leaf (record { key = key; value = value }))

  -- `leafRemove`
  unfoldable pub leaf_remove : ℕ → LeafNode → Slice → Option Slice → Loads LeafNode
  unfolding Leaf.find_range find_target Leaf.erase Leaf.insert overflow_pull overflow_remove
  leaf_remove depth leaf key value =
      if length leaf.pairs == 0
      then pure leaf
      else let range = Leaf.find_range fns leaf key in
        elim (find_target fns value (range.1 - range.0) range.0 (drop range.0 leaf.pairs)) [
          | some i ↦ fail (Leaf.erase leaf i) >>= λ less.
              if i == length less.pairs && not (Overflow.is_empty less.overflow)
              then (overflow_pull depth less.overflow >>= λ r. pure (
                  Leaf.insert fns (record less { overflow = r.1 })
                    (record { key = key; value = r.0 })))
              else pure less
          | none ↦ fail (back_key leaf.pairs) >>= λ last.
              if not (Overflow.is_empty leaf.overflow) && slice_eq key last
              then (overflow_remove depth leaf.overflow value >>= λ o.
                  pure (record leaf { overflow = o }))
              else pure leaf
        ]
