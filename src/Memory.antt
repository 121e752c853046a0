-- ===== src/Memory.antt =====
-- memslice.h, memslice.cpp and types.h: byte ranges, block identifiers and wrapping counters.
-- A slice is the list of the bytes that it points at; two slices of one content are not told
-- apart, as in `memslice::operator==`.
use libbruce.Base.{
  ℕ, ◌+◌, ◌-◌, ◌%◌, ◌^◌, ◌≡◌, refl, ◌↔◌, ◌≢◌, inl, inr, Bool-cases, Bool, true, false, ◌&&◌, List,
  [], ◌∷◌, arith, ◌==◌, length,
}

abbrev pub Slice : Type 0
Slice = List ℕ

-- `memslice::size`
abbrev pub size : Slice → ℕ
size s = length s

-- `memslice::empty`
abbrev pub is_empty : Slice → Bool
is_empty s = size s == 0

-- `memcmp(...) == 0` over two ranges of one size
abbrev pub same_bytes : Slice → Slice → Bool
same_bytes [] [] = true
same_bytes [] (b ∷ bs) = false
same_bytes (a ∷ as') [] = false
same_bytes (a ∷ as') (b ∷ bs) = a == b && same_bytes as' bs

-- `memslice::operator==`: the sizes first, then the bytes.
unfoldable pub slice_eq : Slice → Slice → Bool
slice_eq a b = size a == size b && same_bytes a b

same_bytes→eq : (a b : Slice) → same_bytes a b ≡ true → a ≡ b
same_bytes→eq [] [] h = refl
same_bytes→eq [] (b ∷ bs) h = cc
same_bytes→eq (a ∷ as') [] h = cc
same_bytes→eq (a ∷ as') (b ∷ bs) h = ground (arith, same_bytes→eq as' bs)

same_bytes_refl : (a : Slice) → same_bytes a a ≡ true
same_bytes_refl [] = refl
same_bytes_refl (a ∷ as') = ground (arith, same_bytes_refl as')

pub slice_eq→eq : (a b : Slice) → slice_eq a b ≡ true → a ≡ b
unfolding slice_eq
slice_eq→eq a b h = ground (arith, same_bytes→eq a b)

pub slice_eq_refl : (a : Slice) → slice_eq a a ≡ true
unfolding slice_eq
slice_eq_refl a = ground (arith, same_bytes_refl a)

pub slice_eq-ne : (a b : Slice) → a ≢ b → slice_eq a b ≡ false
slice_eq-ne a b h = elim (Bool-cases (slice_eq a b)) [
  | inl e ↦ absurd (h (slice_eq→eq a b e))
  | inr e ↦ e
]

pub slice_eq_iff : (a b : Slice) → (slice_eq a b ≡ true) ↔ (a ≡ b)
slice_eq_iff a b = (slice_eq→eq a b, λ e. ground (arith, slice_eq_refl b))

-- `kv_pair` of priv_types.h: the key and the value.
pub record KvPair : Type 0 where
  pub key : Slice
  pub value : Slice

-- `nodeid_t`: twenty bytes.
abbrev pub NodeId : Type 0
NodeId = List ℕ

-- `size_t` and `uint32_t` arithmetic.
abbrev pub wrap64 : ℕ → ℕ
wrap64 n = n % 2 ^ 64

abbrev pub wrap32 : ℕ → ℕ
wrap32 n = n % 2 ^ 32

-- a - b on `size_t`, for any b
abbrev pub sub64 : ℕ → ℕ → ℕ
sub64 a b = wrap64 (a + (2 ^ 64 - wrap64 b))
