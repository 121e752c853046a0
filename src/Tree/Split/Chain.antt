-- ===== src/Tree/Split/Chain.antt =====
-- What pushDownOverflowNodeSize does to a chain of overflow blocks: every block fits afterwards, and
-- the chain holds the values that it held.
use libbruce.Base.{
  ℕ, suc, ◌+◌, ◌^◌, ◌≤◌, ◌<◌, ◌≡◌, refl, sym, inl, inr, false, Bool-cases, List, [], ◌∷◌, ◌++◌,
  arith, length, length-append, take, tally, Same, ltb, ok, ◌==◌,
}
use libbruce.Memory.{Slice, size, wrap32}
use libbruce.Overflow
use libbruce.Overflow.{Overflow, absent, present, no_overflow}
use libbruce.Page.Sizes.{
  add_sizes, overflow_size, overflow_split_from, overflow_split_index, should_split,
}
use libbruce.Tree.Split.{next_block, push_down}

-- The values of a chain that is in memory.
abbrev pub chain_values : Overflow → List Slice
chain_values (absent c id) = []
chain_values (present c id values next) = values ++ chain_values next

-- A chain that is in memory to its end, each record with the count of what follows.
abbrev pub IsChain : Overflow → Type 0
IsChain (absent c id) = c ≡ 0
IsChain (present c id values next) = (c ≡ Overflow.item_count values next) × IsChain next

-- Every block of a chain fits.
abbrev pub ChainFits : ℕ → Overflow → Type 0
ChainFits block_size (absent c id) = Unit
ChainFits block_size (present c id values next) =
    (should_split block_size (overflow_size values) ≡ false) × ChainFits block_size next

-- A value that fits in a block beside the header and the link.
abbrev pub ValueFits : ℕ → Slice → Type 0
ValueFits block_size v = size v + 30 ≤ block_size

pub count-chain_values :
    (o : Overflow)
    → IsChain o
    → length (chain_values o) < 2 ^ 32
    → Overflow.count o ≡ length (chain_values o)
unfolding Overflow.item_count
count-chain_values (absent c id) h small = h
count-chain_values (present c id values next) h small = omega (
  arith,
  h.0,
  small,
  length-append values (chain_values next),
  count-chain_values next h.1 (omega (arith, small, length-append values (chain_values next))),
)

pub add_sizes-tally :
    (acc : ℕ) (vs : List Slice)
    → acc + tally size vs < 2 ^ 32
    → add_sizes acc vs ≡ acc + tally size vs
unfolding add_sizes
add_sizes-tally acc [] h = omega arith
add_sizes-tally acc (v ∷ vs) h =
    let low : wrap32 (acc + size v) ≡ acc + size v = omega (arith, h) in
    rw low (omega (arith, h, add_sizes-tally (acc + size v) vs (omega (arith, h))))

pub overflow_size-tally :
    (vs : List Slice) → tally size vs + 30 < 2 ^ 32 → overflow_size vs ≡ 30 + tally size vs
unfolding overflow_size
overflow_size-tally vs h = add_sizes-tally 30 vs (omega (arith, h))

-- The values before the split index fit behind what is there, and there is one of them if the
-- first value fits.
split_from-fits :
    (block_size s i : ℕ) (vs : List Slice)
    → s ≤ block_size
    → s + tally size vs < 2 ^ 32
    → (k : ℕ) × (overflow_split_from block_size s i vs ≡ i + k)
      × (s + tally size (take k vs) ≤ block_size)
unfolding overflow_split_from
split_from-fits block_size s i [] fits small = (0, omega arith, omega (arith, fits))
split_from-fits block_size s i (v ∷ vs) fits small =
    let low : wrap32 (s + size v) ≡ s + size v = omega (arith, small) in
    rw low (elim (Bool-cases (ltb block_size (s + size v))) [
      | inl b ↦ rw b (0, omega arith, omega (arith, fits))
      | inr b ↦
          let rest =
            split_from-fits block_size (s + size v) (i + 1) vs (ground (arith, b))
              (omega (arith, small)) in
          rw b (suc rest.0, omega (arith, rest.1), omega (arith, rest.2))
    ])

-- The split index of values that each fit is a place behind the first of them.
pub split_index-fits :
    (block_size : ℕ) (v : Slice) (vs : List Slice)
    → ValueFits block_size v
    → tally size (v ∷ vs) + 30 < 2 ^ 32
    → (k : ℕ) × (overflow_split_index block_size (v ∷ vs) ≡ suc k)
      × (30 + tally size (take (suc k) (v ∷ vs)) ≤ block_size)
unfolding overflow_split_index overflow_split_from
split_index-fits block_size v vs fits small =
    let low : wrap32 (30 + size v) ≡ 30 + size v = omega (arith, small) in
    let no : ltb block_size (30 + size v) ≡ false = ground (arith, fits) in
    let rest =
      split_from-fits block_size (30 + size v) 1 vs (omega (arith, fits)) (omega (arith, small)) in
    rw low (rw no (rest.0, omega (arith, rest.1), omega (arith, rest.2)))

-- The block that values are pushed to holds what the chain held.
pub record IsOpened (block_size : ℕ) (next : Overflow) (values : List Slice) (after : Overflow)
    : Type 0 where
  pub opened : next_block next ≡ ok (values, after)
  pub same : values ++ chain_values after ≡ chain_values next
  pub chain : IsChain after
  pub fits : ChainFits block_size after

pub next_block-ok :
    (block_size : ℕ) (next : Overflow)
    → IsChain next
    → ChainFits block_size next
    → length (chain_values next) < 2 ^ 32
    → (values : List Slice) × (after : Overflow) × IsOpened block_size next values after
unfolding next_block
next_block-ok block_size (absent c id) chain fits small =
    ([], no_overflow, record { opened = rw chain; same = refl; chain = refl; fits = tt })
next_block-ok block_size (present c id values next) chain fits small = elim (Bool-cases (c == 0)) [
  | inl b ↦
      let none_left : length (values ++ chain_values next) ≡ 0 =
        ground (arith, b, count-chain_values (present c id values next) chain small) in
      (
        [],
        no_overflow,
        record {
          opened = rw b;
          same = sym (empty_of_length (values ++ chain_values next) none_left);
          chain = refl;
          fits = tt;
        },
      )
  | inr b ↦ (values, next, record { opened = rw b; same = refl; chain = chain.1; fits = fits.1 })
]
  where
    empty_of_length : (xs : List Slice) → length xs ≡ 0 → xs ≡ []
    empty_of_length [] h = refl
    empty_of_length (x ∷ xs) h = absurd (omega (arith, h))

-- What the pushed-down chain is, beside the one before.
pub record IsPushed (block_size : ℕ) (values : List Slice) (next : Overflow)
    (r : List Slice × Overflow) : Type 0 where
  pub result :
      (n : ℕ) → length (values ++ chain_values next) < n → push_down n block_size values next ≡ ok r
  pub same : Same (r.0 ++ chain_values r.1) (values ++ chain_values next)
  pub chain : IsChain r.1
  pub head_fits : should_split block_size (overflow_size r.0) ≡ false
  pub rest_fits : ChainFits block_size r.1
