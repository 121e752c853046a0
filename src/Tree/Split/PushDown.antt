-- ===== src/Tree/Split/PushDown.antt =====
-- pushDownOverflowNodeSize ends, with every block of the chain small enough and no value lost.
use libbruce.Base.{
  ℕ, zero, suc, ◌+◌, ◌^◌, ◌≤◌, ◌<◌, ◌≡◌, refl, inl, inr, true, false, Bool-cases, List, [], ◌∷◌,
  ◌++◌, arith, length, length-append, take, drop, tally, tally-append, Same, ok, err, out_of_fuel,
  ltb,
}
use libbruce.Memory.{Slice, size, wrap32}
use libbruce.Overflow
use libbruce.Overflow.{Overflow, present, no_overflow}
use libbruce.Page.Sizes.{overflow_size, overflow_split_index, overflow_split_from, should_split}
use libbruce.Tree.Split.{next_block, push_down}
use libbruce.Tree.Split.Chain.{
  chain_values, IsChain, ChainFits, IsPushed, next_block-ok, split_index-fits, overflow_size-tally,
}
use libbruce.Tree.Split.Move.{push_down_stays, CanPush, moved-CanPush, push_down_more}

should_split_empty :
    (block_size : ℕ) → 30 ≤ block_size → should_split block_size (overflow_size []) ≡ false
unfolding should_split overflow_size
should_split_empty block_size h = ground (arith, h)

stays-IsPushed :
    (block_size : ℕ) (values : List Slice) (next : Overflow)
    → CanPush block_size values next
    → should_split block_size (overflow_size values) ≡ false
    → IsPushed block_size values next (values, next)
stays-IsPushed block_size values next can b = record {
  result = λ n m. push_down_stays n block_size values next (omega (arith, m)) b;
  same = λ f. refl;
  chain = can.chain;
  head_fits = b;
  rest_fits = can.fits;
}

push_down_within :
    (bound block_size : ℕ) (values : List Slice) (next : Overflow)
    → length (values ++ chain_values next) < bound
    → CanPush block_size values next
    → (r : List Slice × Overflow) × IsPushed block_size values next r
push_down_within zero block_size values next h can = absurd (omega (arith, h))
push_down_within (suc bound) block_size [] next h can =
    (([], next), stays-IsPushed block_size [] next can (should_split_empty block_size can.room))
push_down_within (suc bound) block_size (v ∷ vs) next h can =
    elim (Bool-cases (should_split block_size (overflow_size (v ∷ vs)))) [
      | inl b ↦
          let few : length (chain_values next) < 2 ^ 32 =
            omega (arith, can.few, length-append (v ∷ vs) (chain_values next)) in
          let small : tally size (v ∷ vs) + 30 < 2 ^ 32 =
            omega (arith, can.small, tally-append size (v ∷ vs) (chain_values next)) in
          let split = split_index-fits block_size v vs can.each.0 small in
          let block = next_block-ok block_size next can.chain can.fits few in
          let moved = moved-CanPush block_size v vs next split.0 block.0 block.1 can block.2 in
          let rest =
            push_down_within bound block_size (block.0 ++ drop (suc split.0) (v ∷ vs)) block.1
              (omega (arith, h, moved.1)) moved.0 in
          (
            (
              take (suc split.0) (v ∷ vs),
              present (Overflow.item_count rest.0.0 rest.0.1) (Overflow.node_id next) rest.0.0
                  rest.0.1,
            ),
            push_down_more block_size v vs next split.0 block.0 block.1 rest.0 can b split.1 split.2
                block.2 rest.1,
          )
      | inr b ↦ ((v ∷ vs, next), stays-IsPushed block_size (v ∷ vs) next can b)
    ]

-- For a chain that can be pushed down there is one that `push_down` gives with every fuel above
-- the number of values: it holds the same values, its records count them, and every block fits.
pub push_down-IsPushed :
    (block_size : ℕ) (values : List Slice) (next : Overflow)
    → CanPush block_size values next
    → (r : List Slice × Overflow) × IsPushed block_size values next r
push_down-IsPushed block_size values next can =
    push_down_within (suc (length (values ++ chain_values next))) block_size values next
      (omega arith) can

endless_step :
    (block_size : ℕ) (v : Slice)
    → 0 < block_size
    → block_size < size v + 30
    → size v + 30 < 2 ^ 32
    → (should_split block_size (overflow_size (v ∷ [])) ≡ true)
      × (overflow_split_index block_size (v ∷ []) ≡ 0)
unfolding should_split overflow_split_index overflow_split_from
endless_step block_size v room big small =
    let low : wrap32 (30 + size v) ≡ 30 + size v = omega (arith, small) in
    let over : ltb block_size (30 + size v) ≡ true = ground (arith, big) in
    let sum : overflow_size (v ∷ []) ≡ 30 + size v =
      omega (arith, overflow_size-tally (v ∷ []) (omega (arith, small))) in
    (ground (arith, sum, room, big), rw low (rw over refl))

-- A value alone in its node that does not fit in a block beside the header and the link, in a block
-- size that is a limit and with a size below the width of a `uint32_t`, is pushed down without end,
-- whatever the fuel.
pub push_down_endless :
    (block_size : ℕ) (v : Slice)
    → 0 < block_size
    → block_size < size v + 30
    → size v + 30 < 2 ^ 32
    → (n : ℕ) → push_down n block_size (v ∷ []) no_overflow ≡ err out_of_fuel
unfolding push_down next_block
push_down_endless block_size v room big small zero = refl
push_down_endless block_size v room big small (suc n) =
    let step = endless_step block_size v room big small in
    rw step.0 (rw step.1 (rw (push_down_endless block_size v room big small n) refl))

-- Pushing down a counted chain in memory, in blocks of at least 30 bytes, with values that each fit
-- in a block, sizes below the width of a `uint32_t` and later blocks that fit, ends with every fuel
-- above the number of values: the chain holds the same values, its records count them, and its
-- first block and all others fit.
pub push_down-ok :
    (block_size : ℕ) (values : List Slice) (next : Overflow)
    → CanPush block_size values next
    → (n : ℕ) → length (values ++ chain_values next) < n
    → (r : List Slice × Overflow) × (push_down n block_size values next ≡ ok r)
      × Same (r.0 ++ chain_values r.1) (values ++ chain_values next)
      × IsChain r.1
      × (should_split block_size (overflow_size r.0) ≡ false)
      × ChainFits block_size r.1
push_down-ok block_size values next can n h =
    let r = push_down-IsPushed block_size values next can in
    (r.0, r.1.result n h, r.1.same, r.1.chain, r.1.head_fits, r.1.rest_fits)
