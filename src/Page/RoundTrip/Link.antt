-- ===== src/Page/RoundTrip/Link.antt =====
-- The count and the id at the end of a page, and pages without padding.
use libbruce.Base.{
  ◌-◌, ℕ, ◌+◌, ◌^◌, ◌<◌, ◌≡◌, sym, ap, ◌∙◌, List, [], ◌∷◌, ◌++◌, append-nil, append_assoc, length,
  length-append, All, arith, ok, le→leb,
}
use libbruce.Overflow
use libbruce.Overflow.{Overflow, absent}
use libbruce.Page.{encode, write_page}
use libbruce.Page.Write.{link_bytes}
use libbruce.Page.Read.{read_bytes, read_int, checked, read_link}
use libbruce.Page.RoundTrip.{
  At, advance, Parses, length-encode, bind-ok, pure-ok, read_bytes-Parses, read_int-Parses,
  checked-ParsesMore,
}

-- A count that fits in a `uint32_t`, and an id of twenty bytes.
pub record IsLink (o : Overflow) : Type 0 where
  pub counted : Overflow.count o < 2 ^ 32
  pub id_length : length (Overflow.node_id o) ≡ 20

-- What a page stores of it.
abbrev pub stored_link : Overflow → Overflow
stored_link o = absent (Overflow.count o) (Overflow.node_id o)

pub length-link_bytes : (o : Overflow) → IsLink o → length (link_bytes o) ≡ 24
length-link_bytes o h = omega (
  arith,
  length-append (encode 4 (Overflow.count o)) (Overflow.node_id o),
  length-encode 4 (Overflow.count o),
  h.id_length,
)

pub read_link-Parses : (o : Overflow) → IsLink o → Parses read_link (link_bytes o) (stored_link o)
unfolding read_link
read_link-Parses o h input off rest at =
    let count_bytes = encode 4 (Overflow.count o) in
    let id = Overflow.node_id o in
    let at₁ : At input off (count_bytes ++ (id ++ rest)) = at ∙ append_assoc count_bytes id rest in
    let at₂ = advance input off count_bytes (id ++ rest) at₁ in
    let e₁ =
      checked-ParsesMore (read_int 4) count_bytes (Overflow.count o)
        (read_int-Parses 4 (Overflow.count o) (omega arith) h.counted) input off (id ++ rest) at₁
        (omega (arith, length-encode 4 (Overflow.count o))) in
    let e₂ =
      checked-ParsesMore (read_bytes 20) id id
        (read_bytes-Parses 20 id (omega arith) (sym h.id_length)) input (off + length count_bytes)
        rest at₂ (omega (arith, h.id_length)) in
    let end_eq : off + length count_bytes + length id ≡ off + length (count_bytes ++ id) =
      omega (arith, length-append count_bytes id) in
    bind-ok (checked (read_int 4)) _ input off e₁
    ∙ bind-ok (checked (read_bytes 20)) _ input (off + length count_bytes) e₂
    ∙ pure-ok _ input _
    ∙ ap (λ n. ok (stored_link o, n)) end_eq

-- A page that the writes fill has no padding.
pub write_page_full :
    (size : ℕ) (bytes : List ℕ) → size ≡ length bytes → write_page size bytes ≡ ok bytes
unfolding write_page
write_page_full size bytes e =
    let none_left : size - length bytes ≡ 0 = omega (arith, e) in
    rw (le→leb (length bytes) size (omega (arith, e)), none_left) (ap ok (append-nil bytes))

pub nonempty_rest :
    {A : Type 0} (field : A → List ℕ) (xs : List A) (rest : List ℕ)
    → 0 < length rest
    → All (λ x. 0 < length (field x) + length rest) xs
nonempty_rest field [] rest h = tt
nonempty_rest field (x ∷ xs) rest h = (omega (arith, h), nonempty_rest field xs rest h)
