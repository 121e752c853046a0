-- ===== src/Leaf.antt =====
-- leaf_node.h and leaf_node.cpp: the state of a leaf and its operations.
pub mod Sizes
pub mod Order
pub mod Range
pub mod Merge
use libbruce.Base.{
  ℕ, ◌+◌, Bool, true, false, ◌&&◌, Option, none, some, List, [], ◌∷◌, length, get_elem?, ltb,
  if◌then◌else◌, lower_bound, upper_bound, insert_at, erase_at, set_at, Result, ok, err,
  out_of_range,
}
use libbruce.Memory.{Slice, size, slice_eq, KvPair, wrap32, wrap64, sub64}
use libbruce.Functions.{TreeFunctions, before}
use libbruce.Overflow
use libbruce.Overflow.{Overflow}

pub record LeafNode : Type 0 where
  pub pairs : List KvPair
  pub overflow : Overflow
  pub elements_size : ℕ

abbrev pub pair_size : KvPair → ℕ
pair_size p = size p.key + size p.value

-- `calcSize`: adds the sizes of all pairs to a `size_t`.
unfoldable pub calc_size : ℕ → List KvPair → ℕ
calc_size acc [] = acc
calc_size acc (p ∷ ps) = calc_size (wrap64 (acc + pair_size p)) ps

-- The three constructors: an empty leaf, and a leaf over given pairs.
abbrev pub empty_leaf : LeafNode
empty_leaf = record { pairs = []; overflow = Overflow.no_overflow; elements_size = 0 }

unfoldable pub make_leaf : List KvPair → LeafNode
unfolding calc_size
make_leaf ps = record {
  pairs = ps;
  overflow = Overflow.no_overflow;
  elements_size = calc_size 0 ps;
}

-- `minKey`
unfoldable pub min_key : LeafNode → Slice
min_key leaf = elim leaf.pairs [ [] ↦ [] | p ∷ ps ↦ p.key ]

-- `itemCount`, an `itemcount_t`
unfoldable pub item_count : LeafNode → ℕ
item_count leaf = wrap32 (Overflow.count leaf.overflow + length leaf.pairs)

module _ (fns : TreeFunctions) where
  -- The bounds of the pairs with a key under `m_before`.
  abbrev pub first_not_before : Slice → List KvPair → ℕ
  first_not_before key ps = lower_bound (λ p. before fns p.key key) ps

  abbrev pub first_after : Slice → List KvPair → ℕ
  first_after key ps = upper_bound (λ p. before fns key p.key) ps

  -- `insert`: behind the pairs of the same key.
  unfoldable pub insert : LeafNode → KvPair → LeafNode
  insert leaf item = record leaf {
    pairs = insert_at (first_after item.key leaf.pairs) item leaf.pairs;
    elements_size = wrap64 (leaf.elements_size + pair_size item);
  }

  -- `find`: the first pair of the key, or the end.
  unfoldable pub find : LeafNode → Slice → ℕ
  find leaf key =
      let i = first_not_before key leaf.pairs in
      elim (get_elem? leaf.pairs i) [
        | none ↦ length leaf.pairs
        | some p ↦ if slice_eq key p.key then i else length leaf.pairs
      ]

  -- `findRange`
  unfoldable pub find_range : LeafNode → Slice → ℕ × ℕ
  find_range leaf key = (first_not_before key leaf.pairs, first_after key leaf.pairs)

-- `erase` at an iterator, which is then the next pair's.
unfoldable pub erase : LeafNode → ℕ → Result LeafNode
erase leaf i = elim (get_elem? leaf.pairs i) [
  | none ↦ err out_of_range
  | some p ↦ ok (record leaf {
    pairs = erase_at i leaf.pairs;
    elements_size = sub64 leaf.elements_size (pair_size p);
  })
]

-- `update_value`
unfoldable pub update_value : LeafNode → ℕ → Slice → Result LeafNode
update_value leaf i value = elim (get_elem? leaf.pairs i) [
  | none ↦ err out_of_range
  | some p ↦ ok (record leaf {
    pairs = set_at i (record p { value = value }) leaf.pairs;
    elements_size = wrap64 (sub64 leaf.elements_size (size p.value) + size value);
  })
]
