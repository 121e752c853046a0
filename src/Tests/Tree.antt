-- ===== src/Tests/Tree.antt =====
-- Leaves that are inserted into and divided, and chains that are pushed down.
use libbruce.Base.{
  true, none, ◌⊎◌, ℕ, ◌≡◌, refl, false, some, List, [], ◌∷◌, ◌++◌, arith, replicate, ok, err,
  out_of_fuel, out_of_range, assertion_failed, block_not_found, Same,
}
use libbruce.Memory.{KvPair, Slice}
use libbruce.Overflow.{Overflow, present, no_overflow, null_id}
use libbruce.Leaf
use libbruce.Leaf.{LeafNode, pair_size, empty_leaf}
use libbruce.Leaf.Order.{IsSorted}
use libbruce.Internal.{Branch, InternalNode}
use libbruce.Page.Sizes.{should_split, overflow_size, internal_size}
use libbruce.Tree.Split.{push_down, maybe_split_leaf}
use libbruce.Tree.Split.Chain.{chain_values, IsChain, ChainFits}
use libbruce.Tree.Split.Move.{CanPush}
use libbruce.Tree.Split.PushDown.{push_down-ok, push_down_endless}
use libbruce.Tree.Split.Divide.{CanSplit, contents, leaf_contents}
use libbruce.Tree.Split.Lossless.{IsDivided}
use libbruce.Tree.Split.Total.{maybe_split_leaf-ok, alone_fails}
use libbruce.Tree.Inner.{internal_split_index, maybe_split_internal}
use libbruce.Tree.Inner.Split.{
  all_branches, all_edits, internal_split_index-one, maybe_split_internal-ok,
}
use libbruce.Tree.Leaf.{Fetch, leaf_insert, leaf_remove, is_target, overflow_remove}
use libbruce.Tree.Leaf.InsertOne.{IsLoaded, leaf_insert-ok}
use libbruce.Tree.Leaf.Target.{NoTarget}
use libbruce.Tree.Leaf.RemoveOne.{leaf_remove-ok}
use libbruce.Tree.Leaf.Remove.{overflow_remove_last}
use libbruce.Tests.Order.{byte_fns, byte_fns-IsLawful}
use libbruce.Tests.Leaf.{key, pair, small_leaf, three-IsSorted}
use libbruce.Tests.Page.{small_node}

-- An engine without blocks.
abbrev pub no_blocks : Fetch
no_blocks id = err block_not_found

abbrev pub wide : ℕ → Slice
wide n = replicate 5 n

abbrev pub wide_values : List Slice
wide_values = wide 1 ∷ wide 2 ∷ wide 3 ∷ []

wide-CanPush : CanPush 40 wide_values no_overflow
wide-CanPush = record {
  room = omega arith;
  chain = refl;
  fits = tt;
  small = omega arith;
  few = omega arith;
  each = ground arith;
}

push_down-ok_example :
    (r : List Slice × Overflow) × (push_down 4 40 wide_values no_overflow ≡ ok r)
    × Same (r.0 ++ chain_values r.1) (wide_values ++ chain_values no_overflow)
    × IsChain r.1
    × (should_split 40 (overflow_size r.0) ≡ false)
    × ChainFits 40 r.1
push_down-ok_example = push_down-ok 40 wide_values no_overflow wide-CanPush 4 (omega arith)

push_down_endless_example : push_down 9 32 (wide 1 ∷ []) no_overflow ≡ err out_of_fuel
push_down_endless_example =
    push_down_endless 32 (wide 1) (omega arith) (omega arith) (omega arith) 9

small_leaf-CanSplit : CanSplit 35 small_leaf
small_leaf-CanSplit = record {
  room = omega arith;
  sized = refl;
  small = omega arith;
  few = omega arith;
  each = ground arith;
  closed = refl;
  nothing = refl;
}

maybe_split_leaf-ok_example :
    (bs : List (Branch LeafNode)) × (maybe_split_leaf 4 35 small_leaf ≡ ok bs)
    × Same (contents bs) (leaf_contents small_leaf)
    × IsDivided byte_fns bs
maybe_split_leaf-ok_example =
    maybe_split_leaf-ok byte_fns byte_fns-IsLawful 35 small_leaf small_leaf-CanSplit three-IsSorted
      4 (omega arith)

abbrev one_more : Overflow
one_more = present 2 null_id ((42 ∷ []) ∷ (43 ∷ []) ∷ []) no_overflow

alone_fails_example :
    maybe_split_leaf 1 32 (record {
      pairs = pair 1 10 ∷ [];
      overflow = one_more;
      elements_size = pair_size (pair 1 10);
    })
    ≡ err assertion_failed
alone_fails_example =
    alone_fails 0 32 (pair 1 10) one_more (omega arith) (omega arith) (omega arith) refl

abbrev full_leaf : LeafNode
full_leaf = record small_leaf { overflow = one_more }

full_leaf-IsLoaded : IsLoaded byte_fns full_leaf
unfolding libbruce.Overflow.item_count
full_leaf-IsLoaded = record {
  sorted = three-IsSorted;
  chain = (refl, refl);
  small = omega arith;
  some_pair = omega arith;
}

leaf_insert-ok_example :
    (after : LeafNode) × (leaf_insert byte_fns no_blocks 1 full_leaf (key 9) (90 ∷ []) false []
      ≡ ok (after, []))
    × Same (leaf_contents after) (pair 9 90 ∷ leaf_contents full_leaf)
    × IsSorted byte_fns after.pairs
    × IsChain after.overflow
leaf_insert-ok_example =
    leaf_insert-ok byte_fns byte_fns-IsLawful no_blocks 1 full_leaf (key 9) (90 ∷ []) [] refl
      full_leaf-IsLoaded (omega arith)

overflow_remove_last_example :
    overflow_remove byte_fns no_blocks 1
      (present 2 null_id ((42 ∷ []) ∷ (43 ∷ []) ∷ []) no_overflow)
      (some (43 ∷ []))
      []
    ≡ err out_of_range
overflow_remove_last_example =
    overflow_remove_last byte_fns no_blocks 0 2 null_id ((42 ∷ []) ∷ []) (43 ∷ []) no_overflow
      (some (43 ∷ [])) [] refl (refl, tt) refl

internal_split_index-one_example : internal_split_index small_node ≡ 1
unfolding internal_size
internal_split_index-one_example = internal_split_index-one small_node (omega arith)

maybe_split_internal-ok_example :
    (split : List (Branch (InternalNode LeafNode))) × (maybe_split_internal byte_fns 3 40 small_node
      ≡ ok split)
    × (all_branches split ≡ small_node.branches)
    × (all_edits split ≡ small_node.edit_queue)
maybe_split_internal-ok_example =
    maybe_split_internal-ok byte_fns 40 small_node (omega arith) (omega arith) 3 (omega arith)

leaf_remove-ok_example :
    (after : LeafNode) × (leaf_remove byte_fns no_blocks 0 small_leaf (key 4) none []
      ≡ ok (after, []))
    × IsSorted byte_fns after.pairs
    × (((p : KvPair) × (p.key ≡ key 4)
          × (is_target byte_fns none p.value ≡ true)
          × Same (p ∷ after.pairs) small_leaf.pairs)
        ⊎ ((after ≡ small_leaf) × NoTarget byte_fns (key 4) none small_leaf.pairs))
leaf_remove-ok_example =
    leaf_remove-ok byte_fns byte_fns-IsLawful no_blocks 0 small_leaf (key 4) none [] refl
      three-IsSorted refl

-- The first pair of a new tree: the iterator before the end of no pairs.
insert_into_empty :
    leaf_insert byte_fns no_blocks 1 empty_leaf (key 9) (90 ∷ []) false [] ≡ err out_of_range
unfolding leaf_insert Leaf.find
insert_into_empty = refl
