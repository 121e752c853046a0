-- ===== src/Functions.antt =====
-- tree_functions of types.h and the orders of priv_types.h. The comparators are supplied by the
-- client; of the `int` that they return only the sign is read.
pub mod Order
use libbruce.Base.{ℕ, ◌≡◌, ◌≢◌, Ordering, Bool, true, false, if◌then◌else◌}
use libbruce.Memory.{Slice, is_empty}

pub record TreeFunctions : Type 0 where
  pub key_compare : Slice → Slice → Ordering
  pub value_compare : Slice → Slice → Ordering
  pub key_size : Slice → ℕ
  pub value_size : Slice → ℕ

abbrev pub is_lt : Ordering → Bool
is_lt Ordering.lt = true
is_lt _ = false

abbrev pub is_eq : Ordering → Bool
is_eq Ordering.eq = true
is_eq _ = false

abbrev pub is_gt : Ordering → Bool
is_gt Ordering.gt = true
is_gt _ = false

-- `KeyOrder::operator()`; `PairOrder` and `EditOrder` apply it to the key of a pair or an edit.
unfoldable pub before : TreeFunctions → Slice → Slice → Bool
before fns a b =
    if is_empty a then true else if is_empty b then false else is_lt (fns.key_compare a b)

-- What a client's comparator promises: a total order in which equal keys have equal bytes.
pub record IsLawful (fns : TreeFunctions) : Type 0 where
  pub cmp_refl : (a : Slice) → fns.key_compare a a ≡ Ordering.eq
  pub eq_of_cmp : (a b : Slice) → fns.key_compare a b ≡ Ordering.eq → a ≡ b
  pub gt_of_lt :
      (a b : Slice) → fns.key_compare a b ≡ Ordering.lt → fns.key_compare b a ≡ Ordering.gt
  pub lt_of_gt :
      (a b : Slice) → fns.key_compare a b ≡ Ordering.gt → fns.key_compare b a ≡ Ordering.lt
  pub lt_trans :
      (a b c : Slice)
      → fns.key_compare a b ≡ Ordering.lt
      → fns.key_compare b c ≡ Ordering.lt
      → fns.key_compare a c ≡ Ordering.lt

-- A key that the order compares by its bytes.
abbrev pub IsKey : Slice → Type 0
IsKey k = is_empty k ≡ false

-- a ≤ b in the client's order
abbrev pub Le : TreeFunctions → Slice → Slice → Type 0
Le fns a b = fns.key_compare a b ≢ Ordering.gt

abbrev pub Lt : TreeFunctions → Slice → Slice → Type 0
Lt fns a b = fns.key_compare a b ≡ Ordering.lt
