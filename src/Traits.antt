-- ===== src/Traits.antt =====
-- traits.h: keys and values of numbers, strings and binaries as bytes. A slice that is read behind
-- its end gives an error. An operation that is given a pointer takes the bytes from there on.
use libbruce.Base.{
  ℕ, zero, suc, ◌+◌, ◌-◌, Ordering, compare, List, [], ◌∷◌, ◌++◌, take, drop, length, if◌then◌else◌,
  Result, ok, err, ◌>>=◌, out_of_range, sizes_differ, ltb, leb, ◌==◌, min,
}
use libbruce.Memory.{Slice, wrap32, same_bytes}
use libbruce.Page.{encode, decode}

-- `convert<T>` for an unsigned number of `w` bytes
unfoldable pub number_to_bytes : ℕ → ℕ → Slice
unfolding encode
number_to_bytes w n = encode w n

-- A number of `w` bytes at the start of some bytes.
unfoldable pub number_at : ℕ → Slice → Result ℕ
unfolding decode
number_at w bytes = if leb w (length bytes) then ok (decode (take w bytes)) else err out_of_range

-- `convert<T>::compare`
unfoldable pub compare_numbers : ℕ → Slice → Slice → Result Ordering
unfolding number_at
compare_numbers w a b =
    if length a == length b
    then (number_at w a >>= λ x. number_at w b >>= λ y. ok (compare x y))
    else err sizes_differ

-- The characters before the terminating zero: `strlen` and `std::string(char *)`.
unfoldable pub c_string : Slice → Result (List ℕ)
c_string [] = err out_of_range
c_string (zero ∷ cs) = ok []
c_string (suc c ∷ cs) = elim (c_string cs) [ err e ↦ err e | ok r ↦ ok (suc c ∷ r) ]

-- `convert<std::string>::to_bytes`
unfoldable pub string_to_bytes : List ℕ → Slice
string_to_bytes cs = cs ++ 0 ∷ []

-- `strcmp`
unfoldable pub compare_chars : List ℕ → List ℕ → Ordering
compare_chars [] [] = Ordering.eq
compare_chars [] (d ∷ ds) = Ordering.lt
compare_chars (c ∷ cs) [] = Ordering.gt
compare_chars (c ∷ cs) (d ∷ ds) =
    let rest = compare_chars cs ds in
    elim (compare c d) [
      | Ordering.lt ↦ Ordering.lt
      | Ordering.gt ↦ Ordering.gt
      | Ordering.eq ↦ rest
    ]

-- `convert<std::string>::compare`
unfoldable pub compare_strings : Slice → Slice → Result Ordering
unfolding c_string compare_chars
compare_strings a b = c_string a >>= λ s. c_string b >>= λ t. ok (compare_chars s t)

-- `convert<std::string>::size`
unfoldable pub string_size : Slice → Result ℕ
unfolding c_string
string_size bytes = c_string bytes >>= λ s. ok (wrap32 (length s + 1))

-- `convert<binary>::to_bytes`
unfoldable pub binary_to_bytes : List ℕ → Slice
unfolding encode
binary_to_bytes cs = encode 4 (length cs) ++ cs

-- `convert<binary>::from_bytes`
unfoldable pub binary_from_bytes : Slice → Result (List ℕ)
unfolding number_at
binary_from_bytes bytes = number_at 4 bytes >>= λ n.
    if leb n (length (drop 4 bytes)) then ok (take n (drop 4 bytes)) else err out_of_range

-- `convert<binary>::compare`, of slices of at least four bytes. `bcmp` says only whether two ranges
-- differ: a number that is not zero, whose sign is `differ`.
unfoldable pub compare_binaries : Ordering → Slice → Slice → Ordering
compare_binaries differ a b =
    let n = min (length a) (length b) - 4 in
    if same_bytes (take n (drop 4 a)) (take n (drop 4 b))
    then (if ltb (length a) (length b) then Ordering.lt else Ordering.gt)
    else differ

-- `convert<binary>::size`
unfoldable pub binary_size : Slice → Result ℕ
unfolding number_at
binary_size bytes = number_at 4 bytes >>= λ n. ok (wrap32 (n + 4))
