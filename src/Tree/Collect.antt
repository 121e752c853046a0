-- ===== src/Tree/Collect.antt =====
-- tree_impl.cpp: collectBlocksRec, which gives every node in memory an id and a block to put, the
-- children first. The engine's `id` is a parameter over the engine's state `S`.
pub mod Chain
pub mod Stored
pub mod Keys
pub mod Total
pub mod Steps
use libbruce.Base.{
  ℕ, zero, suc, ◌++◌, [], ◌∷◌, List, Option, none, some, if◌then◌else◌, false, ◌==◌, Result, ok,
  err, ◌>>=◌,
}
use libbruce.Memory.{Slice, NodeId}
use libbruce.Overflow.{Overflow, absent, present}
use libbruce.Leaf.{LeafNode}
use libbruce.Internal.{Branch, InternalNode}
use libbruce.Page.{Page}
use libbruce.Page.Write.{serialize_leaf, serialize_overflow, serialize_internal}
use libbruce.Blocks.{PutBlock}
use libbruce.Tree.Nodes.{Tree}

module _ {S : Type 0} (new_id : S → Page → NodeId × S) where
  -- The engine, and `m_putBlocks`.
  abbrev pub Puts : Type 0
  Puts = S × List PutBlock

  -- The end of `collectBlocksRec`: the id of a serialized node, which is stored to put later.
  unfoldable pub put_later : Puts → Page → NodeId × Puts
  put_later puts page =
      let made = new_id puts.0 page in
      (made.0, (made.1, puts.1 ++ record { id = made.0; mem = page; success = false } ∷ []))

  -- The overflow block that a record leads to, if it is in memory: the record with its new id.
  unfoldable pub collect_overflow : Overflow → Puts → Result (Overflow × Puts)
  unfolding put_later serialize_overflow
  collect_overflow (absent c id) puts = ok (absent c id, puts)
  collect_overflow (present c id values next) puts =
      if c == 0
      then ok (present c id values next, puts)
      else (collect_overflow next puts >>= λ r. serialize_overflow values r.0 >>= λ page.
          let put = put_later r.1 page in ok (present c put.0 values r.0, put.1))

  -- The case of a leaf: its id, and the leaf with the id of its overflow.
  unfoldable pub collect_leaf : LeafNode → Puts → Result ((NodeId × LeafNode) × Puts)
  unfolding collect_overflow put_later serialize_leaf
  collect_leaf leaf puts = collect_overflow leaf.overflow puts >>= λ r.
      serialize_leaf (record leaf { overflow = r.0 }) >>= λ page.
      let put = put_later r.1 page in ok ((put.0, record leaf { overflow = r.0 }), put.1)

  module _ {C : Type 0} (collect : C → Puts → Result ((NodeId × C) × Puts)) where
    -- The loop over the branches of an inner node.
    unfoldable pub collect_branches : List (Branch C) → Puts → Result (List (Branch C) × Puts)
    collect_branches [] puts = ok ([], puts)
    collect_branches (b ∷ bs) puts = elim b.child [
      | none ↦ collect_branches bs puts >>= λ r. ok (b ∷ r.0, r.1)
      | some c ↦ collect c puts >>= λ q. collect_branches bs q.1 >>= λ r.
          ok (record b { node_id = q.0.0; child = some q.0.1 } ∷ r.0, r.1)
    ]

    -- The case of an inner node.
    unfoldable pub collect_internal :
        InternalNode C → Puts → Result ((NodeId × InternalNode C) × Puts)
    unfolding collect_branches put_later serialize_internal
    collect_internal node puts = collect_branches node.branches puts >>= λ r.
        serialize_internal (record node { branches = r.0 }) >>= λ page.
        let put = put_later r.1 page in ok ((put.0, record node { branches = r.0 }), put.1)

  -- `collectBlocksRec`
  unfoldable pub collect_blocks_rec : (h : ℕ) → Tree h → Puts → Result ((NodeId × Tree h) × Puts)
  unfolding collect_leaf collect_internal
  collect_blocks_rec zero leaf puts = collect_leaf leaf puts
  collect_blocks_rec (suc h) node puts = collect_internal (collect_blocks_rec h) node puts
