-- ===== src/Tests/Whole.antt =====
-- A tree of two leaves: searches and iterators.
use libbruce.Base.{
  ◌++◌, ◌+◌, block_not_found, ℕ, zero, ◌≡◌, ◌⊎◌, refl, true, none, some, [], ◌∷◌, arith, ok, err,
  subst, ap, length,
}
use libbruce.Memory.{Slice, slice_eq}
use libbruce.Edit.{EditType}
use libbruce.Overflow.{no_overflow, present, null_id}
use libbruce.Leaf.{LeafNode}
use libbruce.Leaf
use libbruce.Leaf.Order.{IsSorted}
use libbruce.Internal.{Branch, InternalNode}
use libbruce.Internal.Search.{IsRising}
use libbruce.Tree.Leaf.{Fetch}
use libbruce.Tree.Inner.{edit_range, find_pending_edits}
use libbruce.Tree.Inner.Ranges.{edit_range-find_pending_edits}
use libbruce.Tree.Inner.Partition.{edit_slices, edit_slices-whole}
use libbruce.Tree.Nodes.{Tree, tree_ops}
use libbruce.Tree.Pending.{unbounded, bounds_of}
use libbruce.Tree.Find.{TreePath, fork, find, seek, rank}
use libbruce.Tree.Find.Quiet.{Reaches, tree_pairs, IsQuiet}
use libbruce.Tree.Find.Ordered.{IsOrdered, IsFirstOf, IsMissing}
use libbruce.Tree.Find.Place.{IsPairAt}
use libbruce.Tree.Find.Rank.{seek-ok}
use libbruce.Tree.Find.Key.{find-ok}
use libbruce.Tree.Find.Overrun.{seek_wraps}
use libbruce.Tree.Iterator.{next, enter_next, is_valid}
use libbruce.Tree.Iterator.Skip.{is_same}
use libbruce.Tree.Iterator.Open.{IsOpen}
use libbruce.Tree.Iterator.Order.{next-ok}
use libbruce.Tree.Iterator.Faults.{enter_next_overwrites, is_same-leaf}
use libbruce.Bkv.{full_scan, query_key}
use libbruce.Bkv.Query.{query_key-Prints}
use libbruce.Bkv.Scan.{Prints, full_scan-Prints}
use libbruce.Tests.Order.{byte_fns, byte_fns-IsLawful}
use libbruce.Tests.Leaf.{key, pair, edit}

abbrev pub no_blocks : Fetch
no_blocks id = err block_not_found

abbrev pub left_leaf : LeafNode
left_leaf = record { pairs = pair 1 10 ∷ pair 2 20 ∷ []; overflow = no_overflow; elements_size = 6 }

abbrev pub right_leaf : LeafNode
right_leaf = record {
  pairs = pair 4 40 ∷ pair 4 41 ∷ pair 5 50 ∷ [];
  overflow = no_overflow;
  elements_size = 9;
}

abbrev pub leaf_at : Slice → LeafNode → Branch LeafNode
leaf_at k leaf = record {
  min_key = k;
  node_id = null_id;
  item_count = length leaf.pairs;
  child = some leaf;
}

abbrev pub two_leaves : InternalNode LeafNode
two_leaves = record {
  branches = leaf_at [] left_leaf ∷ leaf_at (key 4) right_leaf ∷ [];
  edit_queue = [];
}

two_leaves-IsQuiet : IsQuiet 1 two_leaves
two_leaves-IsQuiet = (
  refl,
  (
    record { node = left_leaf; held = refl; counted = refl; good = refl },
    (record { node = right_leaf; held = refl; counted = refl; good = refl }, tt),
  ),
)

seek-ok_example :
    (path : TreePath) × (seek byte_fns no_blocks 0 1 two_leaves 3 []
      ≡ ok ((some path, two_leaves), []))
    × IsPairAt 1 two_leaves path 3
    × (rank byte_fns no_blocks 0 1 two_leaves path [] ≡ ok ((3, two_leaves), []))
seek-ok_example =
    seek-ok byte_fns no_blocks 0 1 two_leaves two_leaves-IsQuiet (omega arith) 3 (omega arith) []

two_leaves-IsRising : IsRising byte_fns two_leaves.branches
two_leaves-IsRising = (((refl, λ e. absurd (ground (arith, e))), tt), (tt, tt))

pub same_leaf : (a b : LeafNode) → some a ≡ some b → a ≡ b
same_leaf a b e = cc

two_leaves-IsOrdered : IsOrdered byte_fns 1 two_leaves
two_leaves-IsOrdered = (
  refl,
  two_leaves-IsRising,
  ground arith,
  (
    (λ c e.
        subst (IsSorted byte_fns) (ap (λ (leaf : LeafNode). leaf.pairs) (same_leaf left_leaf c e))
          (ground arith)),
    (
      (λ c e.
          subst (IsSorted byte_fns)
            (ap (λ (leaf : LeafNode). leaf.pairs) (same_leaf right_leaf c e)) (ground arith)),
      tt,
    ),
  ),
)

find-ok_example :
    ((n : ℕ) × (path : TreePath) × (find byte_fns no_blocks 0 1 two_leaves (key 4) []
        ≡ ok ((some path, two_leaves), []))
      × IsPairAt 1 two_leaves path n
      × IsFirstOf byte_fns (key 4) (tree_pairs 1 two_leaves) n)
    ⊎ (IsMissing (key 4) (tree_pairs 1 two_leaves)
        × (find byte_fns no_blocks 0 1 two_leaves (key 4) [] ≡ ok ((none, two_leaves), [])))
find-ok_example =
    find-ok byte_fns byte_fns-IsLawful no_blocks 0 1 two_leaves two_leaves-IsQuiet
      two_leaves-IsOrdered (omega arith) (key 4) refl []

-- A leaf of one pair, and two values in its overflow block.
abbrev with_overflow : LeafNode
with_overflow = record {
  pairs = pair 1 10 ∷ [];
  overflow = present 2 null_id ((11 ∷ []) ∷ (12 ∷ []) ∷ []) no_overflow;
  elements_size = 3;
}

seek_wraps_example :
    (seek byte_fns no_blocks 0 zero with_overflow 8 []
      ≡ ok ((some (fork unbounded 0 ∷ fork unbounded 1 ∷ []), with_overflow), []))
    × (rank byte_fns no_blocks 0 zero with_overflow (fork unbounded 0 ∷ fork unbounded 1 ∷ []) []
        ≡ ok ((1, with_overflow), []))
seek_wraps_example =
    seek_wraps byte_fns no_blocks 0 (pair 1 10 ∷ []) 8 3 2 null_id ((11 ∷ []) ∷ (12 ∷ []) ∷ [])
      no_overflow refl refl (omega arith) (omega arith) (omega arith) []

enter_next_overwrites_example :
    enter_next byte_fns (tree_ops byte_fns no_blocks 0 zero) two_leaves unbounded 1 []
    ≡ ok (
      (
        right_leaf,
        record two_leaves {
          branches =
              record (leaf_at [] left_leaf) { item_count = 3 } ∷ leaf_at (key 4) right_leaf ∷ [];
        },
      ),
      [],
    )
unfolding Leaf.item_count
enter_next_overwrites_example =
    enter_next_overwrites byte_fns (tree_ops byte_fns no_blocks 0 zero) (leaf_at [] left_leaf) [] []
      (leaf_at (key 4) right_leaf) right_leaf refl unbounded []

abbrev right_path : ℕ → TreePath
right_path i = fork unbounded 1 ∷ fork (bounds_of unbounded two_leaves 1) i ∷ []

is_same-leaf_example : is_same 1 two_leaves (right_path 0) (right_path 2) ≡ true
unfolding is_valid
is_same-leaf_example =
    is_same-leaf 1 two_leaves (fork unbounded 1 ∷ []) (fork (bounds_of unbounded two_leaves 1) 0)
      (fork (bounds_of unbounded two_leaves 1) 2) refl refl refl

-- The node with edits that wait.
abbrev waiting : InternalNode LeafNode
waiting = record two_leaves {
  edit_queue = edit EditType.insert 2 22 ∷ edit EditType.upsert 4 44 ∷ [];
}

edit_range-find_pending_edits_example :
    edit_range byte_fns waiting 1
    ≡ find_pending_edits byte_fns
        (bounds_of unbounded waiting 1).min_key
        (bounds_of unbounded waiting 1).max_key
        waiting.edit_queue
edit_range-find_pending_edits_example =
    edit_range-find_pending_edits byte_fns waiting 1 refl two_leaves-IsRising (omega arith)

edit_slices-whole_example : edit_slices byte_fns waiting 2 0 ≡ waiting.edit_queue
edit_slices-whole_example =
    edit_slices-whole byte_fns byte_fns-IsLawful waiting two_leaves-IsRising (omega arith)

two_leaves-IsOpen : IsOpen 1 two_leaves
two_leaves-IsOpen = (
  refl,
  omega arith,
  (
    record { node = left_leaf; held = refl; good = (refl, omega arith) },
    (record { node = right_leaf; held = refl; good = (refl, omega arith) }, tt),
  ),
)

-- The path to the second pair, the last of the left leaf.
abbrev second : TreePath
second = fork unbounded 0 ∷ fork unbounded 1 ∷ []

second-Reaches : Reaches 1 two_leaves second 1
second-Reaches = record {
  before = [];
  branch = leaf_at [] left_leaf;
  after = leaf_at (key 4) right_leaf ∷ [];
  parts = refl;
  index = refl;
  node = left_leaf;
  held = refl;
  offset = 1;
  sum = refl;
  reaches = (refl, omega arith);
}

next-ok_example :
    ((path' : TreePath) × (after : Tree 1) × (next byte_fns no_blocks 0 1 two_leaves second []
        ≡ ok ((some path', after), []))
      × IsOpen 1 after
      × (tree_pairs 1 after ≡ tree_pairs 1 two_leaves)
      × Reaches 1 after path' 2
      × IsPairAt 1 after path' 2)
    ⊎ ((1 + 1 ≡ length (tree_pairs 1 two_leaves))
        × (next byte_fns no_blocks 0 1 two_leaves second [] ≡ ok ((none, two_leaves), [])))
next-ok_example =
    next-ok byte_fns no_blocks 0 1 two_leaves two_leaves-IsOpen second 1 second-Reaches []

full_scan-Prints_example :
    Prints 1 two_leaves
      (left_leaf.pairs ++ right_leaf.pairs)
      []
      (full_scan byte_fns no_blocks 0 6 1 two_leaves)
full_scan-Prints_example =
    full_scan-Prints byte_fns no_blocks 0 1 two_leaves two_leaves-IsOpen 6 (omega arith) []

query_key-Prints_example :
    Prints 1 two_leaves
      (pair 4 40 ∷ pair 4 41 ∷ [])
      []
      (query_key byte_fns no_blocks 0 6 1 two_leaves (key 4))
unfolding slice_eq
query_key-Prints_example =
    query_key-Prints byte_fns byte_fns-IsLawful no_blocks 0 1 two_leaves two_leaves-IsQuiet
      two_leaves-IsOpen two_leaves-IsOrdered (omega arith) (key 4) refl 6 (omega arith) []
