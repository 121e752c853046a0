-- ===== src/Page/Write.antt =====
-- SerializeLeafNode, SerializeOverflowNode and SerializeInternalNode of serializing.cpp.
use libbruce.Base.{
  ℕ, ◌+◌, ◌==◌, List, [], ◌∷◌, ◌++◌, length, Result, ok, err, assertion_failed, if◌then◌else◌,
  ◌>>=◌,
}
use libbruce.Memory.{Slice, wrap32}
use libbruce.Edit.{EditType, PendingEdit}
use libbruce.Overflow
use libbruce.Overflow.{Overflow}
use libbruce.Leaf.{LeafNode}
use libbruce.Internal.{Branch, InternalNode}
use libbruce.Page.{Page, encode, write_page, type_leaf, type_overflow, type_internal}
use libbruce.Page.Sizes.{leaf_size, overflow_size, internal_size, edit_queue_size}

-- The bytes of the items one after the other.
abbrev pub join {ℓ} : {A : Type ℓ} → (A → List ℕ) → List A → List ℕ
join enc [] = []
join enc (x ∷ xs) = enc x ++ join enc xs

-- A count and a block id, at the end of a leaf and of an overflow node.
abbrev pub link_bytes : Overflow → List ℕ
link_bytes o = encode 4 (Overflow.count o) ++ Overflow.node_id o

unfoldable pub leaf_bytes : LeafNode → List ℕ
unfolding encode
leaf_bytes leaf =
    encode 2 type_leaf
    ++ (encode 4 (length leaf.pairs)
        ++ (join (λ p. p.key) leaf.pairs
            ++ (join (λ p. p.value) leaf.pairs ++ link_bytes leaf.overflow)))

-- `SerializeLeafNode`
unfoldable pub serialize_leaf : LeafNode → Result Page
unfolding leaf_bytes leaf_size write_page
serialize_leaf leaf = write_page (leaf_size leaf) (leaf_bytes leaf)

unfoldable pub overflow_bytes : List Slice → Overflow → List ℕ
unfolding encode
overflow_bytes values next =
    encode 2 type_overflow
    ++ (encode 4 (length values) ++ (join (λ v. v) values ++ link_bytes next))

-- `SerializeOverflowNode`
unfoldable pub serialize_overflow : List Slice → Overflow → Result Page
unfolding overflow_bytes overflow_size write_page
serialize_overflow values next = write_page (overflow_size values) (overflow_bytes values next)

-- The numbers of `edit_t`.
abbrev pub edit_number : EditType → ℕ
edit_number EditType.insert = 0
edit_number EditType.remove_key = 1
edit_number EditType.remove_kv = 2
edit_number EditType.upsert = 3

-- A REMOVE_KEY is stored without a value.
abbrev pub stored : EditType → Slice → List ℕ
stored EditType.remove_key value = []
stored _ value = value

abbrev pub stored_value : PendingEdit → List ℕ
stored_value e = stored e.edit e.value

module _ {C : Type 0} where
  -- The keys except the first.
  abbrev pub later_keys : List (Branch C) → List ℕ
  later_keys [] = []
  later_keys (b ∷ bs) = join (λ b. b.min_key) bs

  unfoldable pub internal_bytes : InternalNode C → List ℕ
  unfolding encode
  internal_bytes node =
      encode 2 type_internal
      ++ (encode 4 (length node.branches)
          ++ (encode 4 (length node.edit_queue)
              ++ (later_keys node.branches
                  ++ (join (λ b. b.node_id) node.branches
                      ++ (join (λ b. encode 4 b.item_count) node.branches
                          ++ (join (λ e. encode 1 (edit_number e.edit)) node.edit_queue
                              ++ (join (λ e. e.key) node.edit_queue
                                  ++ join stored_value node.edit_queue)))))))

  -- `SerializeInternalNode`, with its final assertion that the page is filled.
  unfoldable pub serialize_internal : InternalNode C → Result Page
  unfolding internal_bytes internal_size edit_queue_size write_page
  serialize_internal node =
      let page_size = wrap32 (internal_size node + edit_queue_size 0 node.edit_queue) in
      write_page page_size (internal_bytes node) >>= λ page.
      if length (internal_bytes node) == page_size then ok page else err assertion_failed
