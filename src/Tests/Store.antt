-- ===== src/Tests/Store.antt =====
-- The tree of two leaves, written to the engine in memory.
use libbruce.Base.{
  List, ◌++◌, true, Result, zero, ◌≡◌, refl, false, none, some, [], ◌∷◌, arith, ok, err, subst,
  length,
}
use libbruce.Memory.{NodeId, slice_eq}
use libbruce.Leaf.{LeafNode}
use libbruce.Leaf
use libbruce.Internal.{InternalNode}
use libbruce.Page.{Page, encode}
use libbruce.Page.Write.{serialize_leaf, serialize_internal}
use libbruce.Blocks
use libbruce.Blocks.{PutBlock, MemEngine, new_engine, new_id, numbered_id, put_all}
use libbruce.Tree.Leaf.{Fetch}
use libbruce.Tree.Nodes.{Tree}
use libbruce.Tree.Collect.{collect_blocks_rec, Puts}
use libbruce.Tree.Collect.Chain.{Holds}
use libbruce.Tree.Collect.Stored.{CanStore, IsStored}
use libbruce.Tree.Collect.Total.{collect_blocks_rec-ok, collect_blocks_rec-IsStored}
use libbruce.Tests.Order.{byte_fns}
use libbruce.Tests.Leaf.{key}
use libbruce.Tree.Flush.{Sizes}
use libbruce.Tree.Flush.Fits.{Fits}
use libbruce.Tree.Impl.{TreeImpl}
use libbruce.Tree.Written.{memory_id}
use libbruce.Tests.Whole.{left_leaf, right_leaf, leaf_at, two_leaves, same_leaf}

left_leaf-CanStore : CanStore byte_fns zero left_leaf
left_leaf-CanStore = (
  record {
    sized = refl;
    small = omega arith;
    few = omega arith;
    keys = (λ _. refl, (λ _. refl, tt));
    values = (λ _. refl, (λ _. refl, tt));
    link = record { counted = omega arith; id_length = refl };
  },
  record { counted = omega arith; id_length = refl },
)

right_leaf-CanStore : CanStore byte_fns zero right_leaf
right_leaf-CanStore = (
  record {
    sized = refl;
    small = omega arith;
    few = omega arith;
    keys = (λ _. refl, (λ _. refl, (λ _. refl, tt)));
    values = (λ _. refl, (λ _. refl, (λ _. refl, tt)));
    link = record { counted = omega arith; id_length = refl };
  },
  record { counted = omega arith; id_length = refl },
)

two_leaves-CanStore : CanStore byte_fns 1 two_leaves
two_leaves-CanStore = (
  record {
    some_branch = omega arith;
    branches = (
      record { id_length = refl; counted = omega arith },
      (record { id_length = refl; counted = omega arith }, tt),
    );
    keys = (λ _. refl, tt);
    edits = tt;
    small = omega arith;
  },
  (
    (λ c e. subst (CanStore byte_fns zero) (same_leaf left_leaf c e) left_leaf-CanStore),
    ((λ c e. subst (CanStore byte_fns zero) (same_leaf right_leaf c e) right_leaf-CanStore), tt),
  ),
)

-- The engine in memory before the write, with a block of an earlier one.
abbrev engine_before : MemEngine
engine_before = record (new_engine 1000 0) { counter = 1; blocks = (numbered_id 0, 7 ∷ []) ∷ [] }

long_ids : (e : MemEngine) (page : Page) → length (memory_id e page).0 ≡ 20
unfolding new_id numbered_id encode
long_ids e page = refl

collect_blocks_rec-ok_example :
    (id : NodeId) × (after : Tree 1) × (made : Puts memory_id) × (collect_blocks_rec memory_id 1
        two_leaves
        (engine_before, [])
      ≡ ok ((id, after), made))
collect_blocks_rec-ok_example =
    collect_blocks_rec-ok byte_fns memory_id long_ids 1 two_leaves two_leaves-CanStore
      (engine_before, [])

abbrev page_of : Result Page → Page
page_of (ok page) = page
page_of (err e) = []

-- The node with the ids of its children.
abbrev two_blocks : InternalNode LeafNode
two_blocks = record two_leaves {
  branches =
      record (leaf_at [] left_leaf) { node_id = numbered_id 1 }
      ∷ record (leaf_at (key 4) right_leaf) { node_id = numbered_id 2 }
      ∷ [];
}

abbrev made : Puts memory_id
made = (
  record engine_before { counter = 4 },
  record { id = numbered_id 1; mem = page_of (serialize_leaf left_leaf); success = false }
      ∷ record { id = numbered_id 2; mem = page_of (serialize_leaf right_leaf); success = false }
      ∷ record {
        id = numbered_id 3;
        mem = page_of (serialize_internal two_blocks);
        success = false;
      }
      ∷ [],
)

collected :
    collect_blocks_rec memory_id 1 two_leaves (engine_before, [])
    ≡ ok ((numbered_id 3, two_blocks), made)
unfolding collect_blocks_rec serialize_leaf serialize_internal new_id numbered_id
collected = refl

-- The engine after the write.
abbrev full_engine : Fetch
full_engine id = Blocks.get (put_all engine_before made.1).0 id

blocks-Holds : Holds byte_fns full_engine made.1
unfolding serialize_leaf serialize_internal numbered_id Blocks.get put_all slice_eq
blocks-Holds = (refl, (refl, (refl, tt)))

collect_blocks_rec-IsStored_example : IsStored byte_fns full_engine 1 (numbered_id 3) two_leaves
collect_blocks_rec-IsStored_example =
    collect_blocks_rec-IsStored byte_fns full_engine memory_id long_ids 1 two_leaves
      two_leaves-CanStore (engine_before, []) made (numbered_id 3) two_blocks collected blocks-Holds

abbrev sizes : Sizes
sizes = record { block_size = 1000; queue_size = 100 }

-- The block of the earlier write, which the object keeps.
abbrev earlier : List PutBlock
earlier = record { id = numbered_id 0; mem = 7 ∷ []; success = true } ∷ []

abbrev the_tree : TreeImpl
the_tree = record {
  root_id = none;
  root = some (1, two_leaves);
  loaded_ids = [];
  put_blocks = earlier;
}

abbrev all_made : Puts memory_id
all_made = (made.0, earlier ++ made.1)
