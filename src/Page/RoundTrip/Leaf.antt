-- ===== src/Page/RoundTrip/Leaf.antt =====
-- A leaf's page read back is the leaf that was written.
use libbruce.Base.{
  ◌>>=◌, drop, Result, ◌≤◌, ap₂, ℕ, ◌+◌, ◌^◌, ◌<◌, ◌≡◌, refl, sym, ap, ◌∙◌, List, [], ◌∷◌, ◌++◌,
  map, append-nil, length, length-append, All, arith, ok,
}
use libbruce.Memory.{Slice, KvPair, wrap64}
use libbruce.Functions.{TreeFunctions}
use libbruce.Overflow.{Overflow}
use libbruce.Leaf.{LeafNode, pair_size, make_leaf}
use libbruce.Leaf.Sizes.{total, IsSized, make_leaf-IsSized}
use libbruce.Page.{encode, write_page, type_leaf}
use libbruce.Page.Sizes.{leaf_size}
use libbruce.Page.Write.{join, link_bytes, leaf_bytes, serialize_leaf}
use libbruce.Page.Read.{
  AnyNode, couple, read_slice, repeat, checked, key_count, read_link, validate_at_end, parse_leaf,
  parse_as, parse_node,
}
use libbruce.Page.RoundTrip.{
  At, advance, ParsesMore, Measures, bind-ok, pure-ok, read_slice-Parses, checked-ParsesMore,
  repeat-ParsesMore, key_count-ok, validate_at_end-ok, parse_node-ok,
}
use libbruce.Page.RoundTrip.Link.{
  IsLink, stored_link, length-link_bytes, read_link-Parses, write_page_full, nonempty_rest,
}

-- What the round trip of a leaf asks: its byte count is right, it is a block of less than 4 GB, and
-- the client's functions measure its keys and values.
pub record IsStorable (fns : TreeFunctions) (leaf : LeafNode) : Type 0 where
  pub sized : IsSized leaf
  pub small : total leaf.pairs + 30 < 2 ^ 32
  pub few : length leaf.pairs < 2 ^ 32
  pub keys : All (λ p. Measures fns.key_size p.key) leaf.pairs
  pub values : All (λ p. Measures fns.value_size p.value) leaf.pairs
  pub link : IsLink leaf.overflow

pub total-join :
    (ps : List KvPair) → length (join (λ p. p.key) ps) + length (join (λ p. p.value) ps) ≡ total ps
total-join [] = omega arith
total-join (p ∷ ps) = omega (
  arith,
  total-join ps,
  length-append p.key (join (λ p. p.key) ps),
  length-append p.value (join (λ p. p.value) ps),
)

couple_lem : (ps : List KvPair) → couple (map (λ p. p.key) ps) (map (λ p. p.value) ps) ≡ ps
couple_lem [] = refl
couple_lem (p ∷ ps) = ap (◌∷◌ p) (couple_lem ps)

slices-ParsesMore :
    (measure : Slice → ℕ) (field : KvPair → Slice) (ps : List KvPair)
    → All (λ p. Measures measure (field p)) ps
    → All (λ p. length (field p) < 2 ^ 32) ps
    → All (λ p. ParsesMore (checked (read_slice measure)) (field p) (field p)) ps
slices-ParsesMore measure field [] m s = tt
slices-ParsesMore measure field (p ∷ ps) m s = (
  checked-ParsesMore (read_slice measure) (field p) (field p)
      (read_slice-Parses measure (field p) m.0 s.0),
  slices-ParsesMore measure field ps m.1 s.1,
)

size_of_made : (ps : List KvPair) → (make_leaf ps).elements_size ≡ wrap64 (total ps)
unfolding make_leaf
size_of_made ps = make_leaf-IsSized ps

module _ (fns : TreeFunctions) (leaf : LeafNode) (h : IsStorable fns leaf) where
  abbrev keys_of : List ℕ
  keys_of = join (λ p. p.key) leaf.pairs

  abbrev values_of : List ℕ
  values_of = join (λ p. p.value) leaf.pairs

  length-leaf_bytes : length (leaf_bytes leaf) ≡ total leaf.pairs + 30
  unfolding leaf_bytes
  length-leaf_bytes = omega (
    arith,
    length-append keys_of (values_of ++ link_bytes leaf.overflow),
    length-append values_of (link_bytes leaf.overflow),
    length-link_bytes leaf.overflow h.link,
    total-join leaf.pairs,
  )

  pub serialize_leaf-ok : serialize_leaf leaf ≡ ok (leaf_bytes leaf)
  unfolding write_page serialize_leaf leaf_size
  serialize_leaf-ok =
      let size_eq : leaf_size leaf ≡ length (leaf_bytes leaf) =
        omega (arith, h.sized, h.small, length-leaf_bytes) in
      write_page_full (leaf_size leaf) (leaf_bytes leaf) size_eq

  rebuilt :
      (o : Overflow)
      → record (make_leaf (couple (map (λ p. p.key) leaf.pairs) (map (λ p. p.value) leaf.pairs))) {
        overflow = o;
      }
        ≡ record leaf { overflow = o }
  unfolding make_leaf
  rebuilt o =
      let same_size : (make_leaf leaf.pairs).elements_size ≡ leaf.elements_size =
        size_of_made leaf.pairs ∙ sym h.sized in
      rw (couple_lem leaf.pairs)
        (λ i. record { pairs = leaf.pairs; overflow = o; elements_size = same_size i })

  sizes_below :
      (field : KvPair → Slice) (ps : List KvPair)
      → ((p : KvPair) → length (field p) ≤ pair_size p)
      → total ps < 2 ^ 32
      → All (λ p. length (field p) < 2 ^ 32) ps
  sizes_below field [] b s = tt
  sizes_below field (p ∷ ps) b s = (omega (arith, b p), sizes_below field ps b (omega arith))

  parse_leaf-leaf_bytes :
      parse_leaf fns (leaf_bytes leaf) 6
      ≡ ok (record leaf { overflow = stored_link leaf.overflow }, length (leaf_bytes leaf))
  unfolding parse_leaf leaf_bytes
  parse_leaf-leaf_bytes =
      let bytes = leaf_bytes leaf in
      let link = link_bytes leaf.overflow in
      let at₂ : At bytes 2 (encode 4 (length leaf.pairs) ++ (keys_of ++ (values_of ++ link))) =
        refl in
      let at₆ : At bytes 6 (keys_of ++ (values_of ++ link)) = refl in
      let at_values = advance bytes 6 keys_of (values_of ++ link) at₆ in
      let at_link = advance bytes (6 + length keys_of) values_of link at_values in
      let more : 0 < length link = omega (arith, length-link_bytes leaf.overflow h.link) in
      let keys =
        repeat-ParsesMore (checked (read_slice fns.key_size)) (λ p. p.key) (λ p. p.key) leaf.pairs
          (slices-ParsesMore fns.key_size (λ p. p.key) leaf.pairs h.keys
            (sizes_below (λ p. p.key) leaf.pairs (λ p. omega arith) (omega (arith, h.small))))
          bytes 6 (values_of ++ link) at₆
          (nonempty_rest (λ p. p.key) leaf.pairs (values_of ++ link)
            (omega (arith, length-append values_of link, more))) in
      let values =
        repeat-ParsesMore (checked (read_slice fns.value_size)) (λ p. p.value) (λ p. p.value)
          leaf.pairs
          (slices-ParsesMore fns.value_size (λ p. p.value) leaf.pairs h.values
            (sizes_below (λ p. p.value) leaf.pairs (λ p. omega arith) (omega (arith, h.small))))
          bytes (6 + length keys_of) link at_values
          (nonempty_rest (λ p. p.value) leaf.pairs link more) in
      let end_off = 6 + length keys_of + length values_of in
      let links =
        read_link-Parses leaf.overflow h.link bytes end_off [] (at_link ∙ sym (append-nil link)) in
      let at_end : end_off + length link ≡ length bytes =
        omega (arith, length-append keys_of (values_of ++ link), length-append values_of link) in
      bind-ok key_count _ bytes 6 (key_count-ok bytes 6 _ _ at₂ h.few)
      ∙ bind-ok (repeat (length leaf.pairs) _) _ bytes 6 keys
      ∙ bind-ok (repeat (length leaf.pairs) _) _ bytes (6 + length keys_of) values
      ∙ bind-ok read_link _ bytes end_off links
      ∙ bind-ok validate_at_end _ bytes (end_off + length link)
          (validate_at_end-ok bytes (end_off + length link) at_end)
      ∙ pure-ok _ bytes (end_off + length link)
      ∙ ap₂ {C = Result (LeafNode × ℕ)} (λ l n. ok (l, n)) (rebuilt (stored_link leaf.overflow))
          at_end

  At-start : At (leaf_bytes leaf) 0 (encode 2 type_leaf ++ drop 2 (leaf_bytes leaf))
  unfolding leaf_bytes
  At-start = refl

  parse_as-leaf :
      parse_as {C = LeafNode} fns type_leaf (leaf_bytes leaf)
      ≡ ok (AnyNode.leaf (record leaf { overflow = stored_link leaf.overflow }))
  unfolding parse_as
  parse_as-leaf = rw parse_leaf-leaf_bytes

  -- A leaf whose byte count is right, whose keys and values the client's size functions measure, and
  -- whose sizes and counts are below the width of a `uint32_t`, is the same leaf when it is
  -- serialized and parsed again; its overflow node is a reference.
  pub parse-serialize_leaf :
      (serialize_leaf leaf >>= parse_node {C = LeafNode} fns)
      ≡ ok (AnyNode.leaf (record leaf { overflow = stored_link leaf.overflow }))
  parse-serialize_leaf = rw serialize_leaf-ok (
      parse_node-ok fns (leaf_bytes leaf) type_leaf (drop 2 (leaf_bytes leaf)) At-start
        (omega arith)
      ∙ parse_as-leaf)
