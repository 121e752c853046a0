-- ===== src/Page/RoundTrip/Internal/Parse.antt =====
-- An inner node's page read back is the node that was written.
use libbruce.Base.{
  ℕ, ◌+◌, ◌-◌, ◌<◌, ◌≡◌, refl, sym, ap, ◌∙◌, none, List, [], ◌∷◌, ◌++◌, append-nil, length,
  length-append, drop, arith, ok, ◌>>=◌, ==_iff,
}
use libbruce.Memory.{wrap32}
use libbruce.Functions.{TreeFunctions}
use libbruce.Edit.{PendingEdit}
use libbruce.Internal.{Branch, InternalNode}
use libbruce.Page.{encode, type_internal}
use libbruce.Page.Sizes.{internal_size, edit_queue_size}
use libbruce.Page.Write.{
  join, edit_number, stored_value, later_keys, internal_bytes, serialize_internal,
}
use libbruce.Page.Read.{
  AnyNode, read_bytes, read_int, read_slice, repeat, checked, key_count, read_edit_type,
  read_edit_values, validate_at_end, parse_internal, parse_as, parse_node,
}
use libbruce.Page.RoundTrip.{
  At, advance, bind-ok, pure-ok, read_int-Parses, repeat-ParsesMore, key_count-ok,
  validate_at_end-ok, parse_node-ok,
}
use libbruce.Page.RoundTrip.Link.{write_page_full, nonempty_rest}
use libbruce.Page.RoundTrip.Internal.{
  IsStorable, node_bytes, stored_node, internal_size-eq, edit_queue_size-eq, length-join_ids,
  length-join-encode,
}
use libbruce.Page.RoundTrip.Internal.Parts.{
  ids-ParsesMore, counts-ParsesMore, keys-ParsesMore, types-ParsesMore, edit_keys-ParsesMore,
  edit_keys_nonempty, nonempty_each, encode_nonempty, read_edit_values-ok, build_branches-map,
  build_edits-map,
}

-- The columns behind the counts.
abbrev type_bytes : List PendingEdit → List ℕ
type_bytes es = join (λ e. encode 1 (edit_number e.edit)) es

abbrev key_bytes : List PendingEdit → List ℕ
key_bytes es = join (λ e. e.key) es

abbrev id_bytes : {C : Type 0} → List (Branch C) → List ℕ
id_bytes bs = join (λ b. b.node_id) bs

abbrev count_bytes : {C : Type 0} → List (Branch C) → List ℕ
count_bytes bs = join (λ b. encode 4 b.item_count) bs

length-internal_bytes :
    {C : Type 0} (fns : TreeFunctions) (node : InternalNode C)
    → IsStorable fns node
    → length (internal_bytes node) ≡ node_bytes node
unfolding internal_bytes
length-internal_bytes fns node h =
    let bs = node.branches in
    let es = node.edit_queue in
    omega (
      arith,
      length-append (later_keys bs) (
          id_bytes bs
          ++ (count_bytes bs ++ (type_bytes es ++ (key_bytes es ++ join stored_value es)))),
      length-append (id_bytes bs)
          (count_bytes bs ++ (type_bytes es ++ (key_bytes es ++ join stored_value es))),
      length-append (count_bytes bs) (type_bytes es ++ (key_bytes es ++ join stored_value es)),
      length-append (type_bytes es) (key_bytes es ++ join stored_value es),
      length-append (key_bytes es) (join stored_value es),
      length-join_ids bs h.branches,
      length-join-encode 4 (λ b. b.item_count) bs,
      length-join-encode 1 (λ e. edit_number e.edit) es,
    )

-- The page is exactly filled, so the assertion behind the writes holds.
pub serialize_internal-ok :
    {C : Type 0} (fns : TreeFunctions) (node : InternalNode C)
    → IsStorable fns node
    → serialize_internal node ≡ ok (internal_bytes node)
unfolding serialize_internal
serialize_internal-ok fns node h =
    let page_size = wrap32 (internal_size node + edit_queue_size 0 node.edit_queue) in
    let size_eq : page_size ≡ length (internal_bytes node) = omega (
      arith,
      h.small,
      internal_size-eq node (omega (arith, h.small)),
      edit_queue_size-eq fns 0 node.edit_queue h.edits (omega (arith, h.small)),
      length-internal_bytes fns node h,
    ) in
    rw (write_page_full page_size (internal_bytes node) size_eq)
      (rw ((==_iff (length (internal_bytes node)) page_size).1 (sym size_eq)))

module _ {C : Type 0} (fns : TreeFunctions) (b : Branch C) (bs : List (Branch C))
    (es : List PendingEdit)
    (h : IsStorable fns (record { branches = b ∷ bs; edit_queue = es })) where
  abbrev node : InternalNode C
  node = record { branches = b ∷ bs; edit_queue = es }

  abbrev later_key_bytes : List ℕ
  later_key_bytes = join (λ x. x.min_key) bs

  -- What follows each column.
  abbrev after_edit_keys : List ℕ
  after_edit_keys = join stored_value es

  abbrev after_types : List ℕ
  after_types = key_bytes es ++ after_edit_keys

  abbrev after_counts : List ℕ
  after_counts = type_bytes es ++ after_types

  abbrev after_ids : List ℕ
  after_ids = count_bytes (b ∷ bs) ++ after_counts

  abbrev after_keys : List ℕ
  after_keys = id_bytes (b ∷ bs) ++ after_ids

  one_less : length (b ∷ bs) - 1 ≡ length bs
  one_less = omega arith

  parse_internal-bytes :
      parse_internal {C = C} fns (internal_bytes node) 6
      ≡ ok (stored_node node, length (internal_bytes node))
  unfolding parse_internal internal_bytes
  parse_internal-bytes =
      let bytes = internal_bytes node in
      let at₂ : At bytes 2 (
          encode 4 (length (b ∷ bs)) ++ (encode 4 (length es) ++ (later_key_bytes ++ after_keys))) =
        refl in
      let at₆ : At bytes 6 (encode 4 (length es) ++ (later_key_bytes ++ after_keys)) = refl in
      let at₁₀ : At bytes 10 (later_key_bytes ++ after_keys) = refl in
      let o₁ = 10 + length later_key_bytes in
      let at_ids = advance bytes 10 later_key_bytes after_keys at₁₀ in
      let o₂ = o₁ + length (id_bytes (b ∷ bs)) in
      let at_counts = advance bytes o₁ (id_bytes (b ∷ bs)) after_ids at_ids in
      let o₃ = o₂ + length (count_bytes (b ∷ bs)) in
      let at_types = advance bytes o₂ (count_bytes (b ∷ bs)) after_counts at_counts in
      let o₄ = o₃ + length (type_bytes es) in
      let at_edit_keys = advance bytes o₃ (type_bytes es) after_types at_types in
      let o₅ = o₄ + length (key_bytes es) in
      let at_values = advance bytes o₄ (key_bytes es) after_edit_keys at_edit_keys in
      let count_size = length-join-encode 4 (λ (x : Branch C). x.item_count) (b ∷ bs) in
      let counts_first : 0 < length after_ids =
        omega (arith, count_size, length-append (count_bytes (b ∷ bs)) after_counts) in
      let ids_first : 0 < length after_keys =
        omega (arith, length-append (id_bytes (b ∷ bs)) after_ids, counts_first) in
      let small = h.small in
      let edits =
        read_int-Parses 4 (length es) (omega arith) (omega (arith, small)) bytes 6
          (later_key_bytes ++ after_keys) at₆ in
      let keys =
        repeat-ParsesMore (checked (read_slice fns.key_size)) (λ (x : Branch C). x.min_key)
          (λ x. x.min_key) bs (keys-ParsesMore fns.key_size bs h.keys (omega (arith, small))) bytes
          10 after_keys at₁₀ (nonempty_rest (λ x. x.min_key) bs after_keys ids_first) in
      let ids =
        repeat-ParsesMore (checked (read_bytes 20)) (λ (x : Branch C). x.node_id) (λ x. x.node_id)
          (b ∷ bs) (ids-ParsesMore (b ∷ bs) h.branches) bytes o₁ after_ids at_ids
          (nonempty_rest (λ x. x.node_id) (b ∷ bs) after_ids counts_first) in
      let counts =
        repeat-ParsesMore (checked (read_int 4)) (λ (x : Branch C). encode 4 x.item_count)
          (λ x. x.item_count) (b ∷ bs) (counts-ParsesMore (b ∷ bs) h.branches) bytes o₂ after_counts
          at_counts (encode_nonempty 4 (λ x. x.item_count) (b ∷ bs) after_counts (omega arith)) in
      let types =
        repeat-ParsesMore (checked read_edit_type)
          (λ (e : PendingEdit). encode 1 (edit_number e.edit)) (λ e. e.edit) es
          (types-ParsesMore es) bytes o₃ after_types at_types
          (encode_nonempty 1 (λ e. edit_number e.edit) es after_types (omega arith)) in
      let edit_keys =
        repeat-ParsesMore (checked (read_slice fns.key_size)) (λ (e : PendingEdit). e.key)
          (λ e. e.key) es (edit_keys-ParsesMore fns es h.edits (omega (arith, small))) bytes o₄
          after_edit_keys at_edit_keys
          (nonempty_each (λ e. e.key) es after_edit_keys (edit_keys_nonempty fns es h.edits)) in
      let values =
        read_edit_values-ok fns es h.edits (omega (arith, small)) bytes o₅ []
          (at_values ∙ sym (append-nil after_edit_keys)) in
      let o₆ = o₅ + length after_edit_keys in
      let at_end : o₆ ≡ length bytes = omega (
        arith,
        length-append later_key_bytes after_keys,
        length-append (id_bytes (b ∷ bs)) after_ids,
        length-append (count_bytes (b ∷ bs)) after_counts,
        length-append (type_bytes es) after_types,
        length-append (key_bytes es) after_edit_keys,
      ) in
      bind-ok key_count _ bytes 6 (key_count-ok bytes 6 _ _ at₂ (omega (arith, small)))
      ∙ bind-ok (read_int 4) _ bytes 6 edits
      ∙ bind-ok (repeat (length (b ∷ bs) - 1) _) _ bytes 10
          (ap (λ k. repeat k (checked (read_slice fns.key_size)) bytes 10) one_less ∙ keys)
      ∙ bind-ok (repeat (length (b ∷ bs)) _) _ bytes o₁ ids
      ∙ bind-ok (repeat (length (b ∷ bs)) _) _ bytes o₂ counts
      ∙ bind-ok (repeat (length es) _) _ bytes o₃ types
      ∙ bind-ok (repeat (length es) _) _ bytes o₄ edit_keys
      ∙ bind-ok (read_edit_values fns.value_size _) _ bytes o₅ values
      ∙ bind-ok validate_at_end _ bytes o₆ (validate_at_end-ok bytes o₆ at_end)
      ∙ pure-ok _ bytes o₆
      ∙ (λ i. ok (
        record {
          branches =
              record { min_key = []; node_id = b.node_id; item_count = b.item_count; child = none }
              ∷ build_branches-map bs i;
          edit_queue = build_edits-map es i;
        },
        at_end i,
      ))

  At-start : At (internal_bytes node) 0 (encode 2 type_internal ++ drop 2 (internal_bytes node))
  unfolding internal_bytes
  At-start = refl

  parse_as-internal :
      parse_as {C = C} fns type_internal (internal_bytes node)
      ≡ ok (AnyNode.internal (stored_node node))
  unfolding parse_as
  parse_as-internal = rw parse_internal-bytes

of_columns :
    {C : Type 0} (fns : TreeFunctions) (bs : List (Branch C)) (es : List PendingEdit)
    → IsStorable fns (record { branches = bs; edit_queue = es })
    → (serialize_internal (record { branches = bs; edit_queue = es }) >>= parse_node {C = C} fns)
      ≡ ok (AnyNode.internal (stored_node (record { branches = bs; edit_queue = es })))
of_columns fns [] es h = absurd (omega (arith, h.some_branch))
of_columns fns (b ∷ bs) es h =
    let bytes = internal_bytes (record { branches = b ∷ bs; edit_queue = es }) in
    rw (serialize_internal-ok fns (record { branches = b ∷ bs; edit_queue = es }) h) (
      parse_node-ok fns bytes type_internal (drop 2 bytes) (At-start fns b bs es h) (omega arith)
      ∙ parse_as-internal fns b bs es h)

-- An inner node with a branch, whose keys and values are not empty and measured by the client's size
-- functions, with sizes and counts below the width of a `uint32_t`, is the same node when it is
-- serialized and parsed again, but for what the format does not store: the children, the key of
-- the first branch, and that an edit was guaranteed.
pub parse-serialize_internal :
    {C : Type 0} (fns : TreeFunctions) (node : InternalNode C)
    → IsStorable fns node
    → (serialize_internal node >>= parse_node {C = C} fns)
      ≡ ok (AnyNode.internal (stored_node node))
parse-serialize_internal fns node h = of_columns fns node.branches node.edit_queue h
