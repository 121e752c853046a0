-- ===== src/Tests/Page.antt =====
-- Pages of small nodes, written and read back.
use libbruce.Base.{ℕ, ◌≡◌, refl, true, none, List, [], ◌∷◌, arith, ok, ◌>>=◌}
use libbruce.Memory.{Slice}
use libbruce.Edit.{EditType, PendingEdit}
use libbruce.Overflow.{Overflow, absent, null_id}
use libbruce.Leaf.{LeafNode}
use libbruce.Internal.{Branch, InternalNode}
use libbruce.Page.Write.{serialize_leaf, serialize_overflow, serialize_internal}
use libbruce.Page.Read.{AnyNode, parse_node}
use libbruce.Page.RoundTrip.Link.{stored_link}
use libbruce.Page.RoundTrip.Leaf
use libbruce.Page.RoundTrip.Leaf.{parse-serialize_leaf}
use libbruce.Page.RoundTrip.Overflow
use libbruce.Page.RoundTrip.Overflow.{parse-serialize_overflow}
use libbruce.Page.RoundTrip.Internal
use libbruce.Page.RoundTrip.Internal.{IsStorableEdit, stored_node}
use libbruce.Page.RoundTrip.Internal.Parse.{parse-serialize_internal}
use libbruce.Internal.{find_internal_key}
use libbruce.Internal.Search.{IsPlace, find_internal_key-IsPlace}
use libbruce.Tests.Order.{byte_fns, byte_fns-IsLawful}
use libbruce.Tests.Leaf.{key, edit, small_leaf}

leaf-IsStorable : Leaf.IsStorable byte_fns small_leaf
leaf-IsStorable = record {
  sized = refl;
  small = omega arith;
  few = omega arith;
  keys = (λ _. refl, (λ _. refl, (λ _. refl, tt)));
  values = (λ _. refl, (λ _. refl, (λ _. refl, tt)));
  link = record { counted = omega arith; id_length = refl };
}

parse-serialize_leaf_example :
    (serialize_leaf small_leaf >>= parse_node {C = LeafNode} byte_fns)
    ≡ ok (AnyNode.leaf (record small_leaf { overflow = stored_link small_leaf.overflow }))
parse-serialize_leaf_example = parse-serialize_leaf byte_fns small_leaf leaf-IsStorable

abbrev some_values : List Slice
some_values = (7 ∷ []) ∷ (8 ∷ []) ∷ []

abbrev next_node : Overflow
next_node =
    absent 3 (9 ∷ 1 ∷ 1 ∷ 1 ∷ 1 ∷ 1 ∷ 1 ∷ 1 ∷ 1 ∷ 1 ∷ 1 ∷ 1 ∷ 1 ∷ 1 ∷ 1 ∷ 1 ∷ 1 ∷ 1 ∷ 1 ∷ 9 ∷ [])

overflow-IsStorable : Overflow.IsStorable byte_fns some_values next_node
overflow-IsStorable = record {
  small = omega arith;
  few = omega arith;
  measured = (λ _. refl, (λ _. refl, tt));
  link = record { counted = omega arith; id_length = refl };
}

parse-serialize_overflow_example :
    (serialize_overflow some_values next_node >>= parse_node {C = LeafNode} byte_fns)
    ≡ ok (AnyNode.overflow some_values (stored_link next_node))
parse-serialize_overflow_example =
    parse-serialize_overflow byte_fns some_values next_node overflow-IsStorable

abbrev branch : Slice → ℕ → Branch LeafNode
branch k n = record { min_key = k; node_id = null_id; item_count = n; child = none }

abbrev two_edits : List PendingEdit
two_edits =
    edit EditType.insert 1 10
    ∷ record { edit = EditType.remove_key; key = key 4; value = []; guaranteed = true }
    ∷ []

abbrev pub small_node : InternalNode LeafNode
small_node = record { branches = branch [] 3 ∷ branch (key 4) 5 ∷ []; edit_queue = two_edits }

internal-IsStorable : Internal.IsStorable byte_fns small_node
internal-IsStorable = record {
  some_branch = omega arith;
  branches = (
    record { id_length = refl; counted = omega arith },
    (record { id_length = refl; counted = omega arith }, tt),
  );
  keys = (λ _. refl, tt);
  edits = (
    record {
      key_measured = λ _. refl;
      key_bytes = omega arith;
      no_value = λ e. cc;
      value_measured = λ _ _. refl;
      value_bytes = λ _. omega arith;
    },
    (
      record {
        key_measured = λ _. refl;
        key_bytes = omega arith;
        no_value = λ _. refl;
        value_measured = λ e. absurd (e refl);
        value_bytes = λ e. absurd (e refl);
      },
      tt,
    ),
  );
  small = omega arith;
}

parse-serialize_internal_example :
    (serialize_internal small_node >>= parse_node {C = LeafNode} byte_fns)
    ≡ ok (AnyNode.internal (stored_node small_node))
parse-serialize_internal_example = parse-serialize_internal byte_fns small_node internal-IsStorable

find_internal_key-IsPlace_example :
    IsPlace byte_fns (key 5) small_node.branches (find_internal_key byte_fns small_node (key 5))
find_internal_key-IsPlace_example =
    find_internal_key-IsPlace byte_fns byte_fns-IsLawful small_node (key 5) refl refl
      (((refl, λ e. absurd (ground (arith, e))), tt), (tt, tt))
