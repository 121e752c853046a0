-- ===== src/Page.antt =====
-- mempage.h and the byte layout of serializing.h: pages, little-endian integers, and writing a
-- node's bytes into a page of the computed size.
pub mod Sizes
pub mod Write
pub mod Read
pub mod RoundTrip
use libbruce.Base.{
  ℕ, zero, suc, ◌+◌, ◌-◌, ◌*◌, ◌/◌, ◌%◌, List, [], ◌∷◌, ◌++◌, length, replicate, leb, Result, ok,
  err, out_of_range, if◌then◌else◌,
}

-- `mempage`: its bytes.
abbrev pub Page : Type 0
Page = List ℕ

-- `*mem.at<T>(offset) = n` stores the low bytes of an unsigned number, lowest first.
unfoldable pub encode : ℕ → ℕ → List ℕ
encode zero n = []
encode (suc w) n = n % 256 ∷ encode w (n / 256)

-- `*mem.at<T>(offset)`
unfoldable pub decode : List ℕ → ℕ
decode [] = 0
decode (b ∷ bs) = b + 256 * decode bs

-- `mempage mem(size)` is zeroed; the writes follow each other from its start. A write beyond the
-- page is undefined in C++.
unfoldable pub write_page : ℕ → List ℕ → Result Page
write_page size bytes =
    if leb (length bytes) size
    then ok (bytes ++ replicate (size - length bytes) 0)
    else err out_of_range

-- The numbers of `node_type_t`.
abbrev pub type_leaf : ℕ
type_leaf = 0

abbrev pub type_internal : ℕ
type_internal = 1

abbrev pub type_overflow : ℕ
type_overflow = 2
