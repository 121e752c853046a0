-- ===== src/Page/RoundTrip/Overflow.antt =====
-- An overflow node's page read back is the node that was written.
use libbruce.Base.{
  ℕ, ◌+◌, ◌^◌, ◌<◌, ◌≡◌, refl, sym, ap, ap₂, ◌∙◌, List, [], ◌∷◌, ◌++◌, map, append-nil, length,
  length-append, drop, All, arith, Result, ok, ◌>>=◌,
}
use libbruce.Memory.{Slice, size, wrap32}
use libbruce.Functions.{TreeFunctions}
use libbruce.Overflow.{Overflow}
use libbruce.Leaf.{LeafNode}
use libbruce.Page.{encode, type_overflow}
use libbruce.Page.Sizes.{add_sizes, overflow_size}
use libbruce.Page.Write.{join, link_bytes, overflow_bytes, serialize_overflow}
use libbruce.Page.Read.{
  AnyNode, read_slice, repeat, checked, key_count, read_link, validate_at_end, parse_overflow,
  parse_as, parse_node,
}
use libbruce.Page.RoundTrip.{
  At, advance, ParsesMore, Measures, bind-ok, pure-ok, read_slice-Parses, checked-ParsesMore,
  repeat-ParsesMore, key_count-ok, validate_at_end-ok, parse_node-ok,
}
use libbruce.Page.RoundTrip.Link.{
  IsLink, stored_link, length-link_bytes, read_link-Parses, write_page_full, nonempty_rest,
}

abbrev pub values_size : List Slice → ℕ
values_size vs = length (join (λ v. v) vs)

-- What the round trip of an overflow node asks.
pub record IsStorable (fns : TreeFunctions) (values : List Slice) (next : Overflow) : Type 0 where
  pub small : values_size values + 30 < 2 ^ 32
  pub few : length values < 2 ^ 32
  pub measured : All (λ v. Measures fns.value_size v) values
  pub link : IsLink next

add_sizes-join :
    (acc : ℕ) (vs : List Slice)
    → acc + values_size vs < 2 ^ 32
    → add_sizes acc vs ≡ acc + values_size vs
unfolding add_sizes
add_sizes-join acc [] h = omega arith
add_sizes-join acc (v ∷ vs) h =
    let sum = length-append v (join (λ v. v) vs) in
    let no_wrap : wrap32 (acc + size v) ≡ acc + size v = omega (arith, sum) in
    rw no_wrap (add_sizes-join (acc + size v) vs (omega (arith, sum)) ∙ omega (arith, sum))

slices-ParsesMore :
    (measure : Slice → ℕ) (vs : List Slice)
    → All (λ v. Measures measure v) vs
    → values_size vs < 2 ^ 32
    → All (λ v. ParsesMore (checked (read_slice measure)) v v) vs
slices-ParsesMore measure [] m s = tt
slices-ParsesMore measure (v ∷ vs) m s =
    let sum = length-append v (join (λ v. v) vs) in
    (
      checked-ParsesMore (read_slice measure) v v
          (read_slice-Parses measure v m.0 (omega (arith, sum))),
      slices-ParsesMore measure vs m.1 (omega (arith, sum)),
    )

map_self : (vs : List Slice) → map (λ v. v) vs ≡ vs
map_self [] = refl
map_self (v ∷ vs) = ap (◌∷◌ v) (map_self vs)

module _ (fns : TreeFunctions) (values : List Slice) (next : Overflow)
    (h : IsStorable fns values next) where
  length-overflow_bytes : length (overflow_bytes values next) ≡ values_size values + 30
  unfolding overflow_bytes
  length-overflow_bytes =
      omega (
        arith,
        length-append (join (λ v. v) values) (link_bytes next),
        length-link_bytes next h.link,
      )

  pub serialize_overflow-ok : serialize_overflow values next ≡ ok (overflow_bytes values next)
  unfolding serialize_overflow
  serialize_overflow-ok =
      write_page_full (overflow_size values) (overflow_bytes values next)
        (omega (arith, add_sizes-join 30 values (omega (arith, h.small)), length-overflow_bytes))

  parse_overflow-overflow_bytes :
      parse_overflow fns (overflow_bytes values next) 6
      ≡ ok ((values, stored_link next), length (overflow_bytes values next))
  unfolding parse_overflow overflow_bytes
  parse_overflow-overflow_bytes =
      let bytes = overflow_bytes values next in
      let link = link_bytes next in
      let data_bytes = join (λ v. v) values in
      let at₂ : At bytes 2 (encode 4 (length values) ++ (data_bytes ++ link)) = refl in
      let at₆ : At bytes 6 (data_bytes ++ link) = refl in
      let at_link = advance bytes 6 data_bytes link at₆ in
      let more : 0 < length link = omega (arith, length-link_bytes next h.link) in
      let read =
        repeat-ParsesMore (checked (read_slice fns.value_size)) (λ v. v) (λ v. v) values
          (slices-ParsesMore fns.value_size values h.measured (omega (arith, h.small))) bytes 6 link
          at₆ (nonempty_rest (λ v. v) values link more) in
      let end_off = 6 + length data_bytes in
      let links = read_link-Parses next h.link bytes end_off [] (at_link ∙ sym (append-nil link)) in
      let at_end : end_off + length link ≡ length bytes =
        omega (arith, length-append data_bytes link) in
      bind-ok key_count _ bytes 6 (key_count-ok bytes 6 _ _ at₂ h.few)
      ∙ bind-ok (repeat (length values) _) _ bytes 6 read
      ∙ bind-ok read_link _ bytes end_off links
      ∙ bind-ok validate_at_end _ bytes (end_off + length link)
          (validate_at_end-ok bytes (end_off + length link) at_end)
      ∙ pure-ok _ bytes (end_off + length link)
      ∙ ap₂ {C = Result ((List Slice × Overflow) × ℕ)} (λ vs n. ok ((vs, stored_link next), n))
          (map_self values) at_end

  At-start :
      At
        (overflow_bytes values next)
        0
        (encode 2 type_overflow ++ drop 2 (overflow_bytes values next))
  unfolding overflow_bytes
  At-start = refl

  parse_as-overflow :
      parse_as {C = LeafNode} fns type_overflow (overflow_bytes values next)
      ≡ ok (AnyNode.overflow values (stored_link next))
  unfolding parse_as
  parse_as-overflow = rw parse_overflow-overflow_bytes

  -- An overflow node whose values the client's size function measures, with sizes and counts below
  -- the width of a `uint32_t`, is the same node when it is serialized and parsed again; the next
  -- one is a reference.
  pub parse-serialize_overflow :
      (serialize_overflow values next >>= parse_node {C = LeafNode} fns)
      ≡ ok (AnyNode.overflow values (stored_link next))
  parse-serialize_overflow = rw serialize_overflow-ok (
      parse_node-ok fns (overflow_bytes values next) type_overflow
        (drop 2 (overflow_bytes values next)) At-start (omega arith)
      ∙ parse_as-overflow)
