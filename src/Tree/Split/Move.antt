-- ===== src/Tree/Split/Move.antt =====
-- One step of pushDownOverflowNodeSize: what moves to the next block, and what stays.
use libbruce.Base.{
  ℕ, zero, suc, ◌+◌, ◌^◌, ◌≤◌, ◌<◌, ◌≡◌, refl, sym, ap, subst, true, false, List, ◌∷◌, ◌++◌, arith,
  length, length-append, length-drop, take, drop, take-append-drop, All, All-append,
  All-append_left, All-append_right, tally, tally-append, tally-take-drop, ok,
}
use libbruce.Memory.{Slice, size}
use libbruce.Overflow
use libbruce.Overflow.{Overflow, present, no_overflow}
use libbruce.Page.Sizes.{overflow_size, overflow_split_index, should_split}
use libbruce.Tree.Split.{next_block, push_down}
use libbruce.Tree.Split.Chain.{
  chain_values, IsChain, ChainFits, ValueFits, IsOpened, IsPushed, overflow_size-tally,
}

pub push_down_stays :
    (n block_size : ℕ) (values : List Slice) (next : Overflow)
    → 0 < n
    → should_split block_size (overflow_size values) ≡ false
    → push_down n block_size values next ≡ ok (values, next)
unfolding push_down
push_down_stays zero block_size values next h b = absurd (omega (arith, h))
push_down_stays (suc n) block_size values next h b = rw b

push_down_moves :
    (n block_size i : ℕ) (values : List Slice) (next : Overflow)
    (block pushed : List Slice × Overflow)
    → should_split block_size (overflow_size values) ≡ true
    → overflow_split_index block_size values ≡ i
    → next_block next ≡ ok block
    → push_down n block_size (block.0 ++ drop i values) block.1 ≡ ok pushed
    → push_down (suc n) block_size values next
      ≡ ok (
        take i values,
        present (Overflow.item_count pushed.0 pushed.1) (Overflow.node_id next) pushed.0 pushed.1,
      )
unfolding push_down
push_down_moves n block_size i values next block pushed b index opened rest =
    rw b (rw opened (rw index (rw rest)))

-- A chain that can be pushed down: counted and in memory, with sizes below the width of a `uint32_t`
-- and values that each fit in a block.
pub record CanPush (block_size : ℕ) (values : List Slice) (next : Overflow) : Type 0 where
  pub room : 30 ≤ block_size
  pub chain : IsChain next
  pub fits : ChainFits block_size next
  pub small : tally size (values ++ chain_values next) + 30 < 2 ^ 32
  pub few : length (values ++ chain_values next) < 2 ^ 32
  pub each : All (ValueFits block_size) (values ++ chain_values next)

module _ (block_size : ℕ) (v : Slice) (vs : List Slice) (next : Overflow) where
  -- The rest of the values, in front of the next block's, can be pushed down again and are fewer.
  pub moved-CanPush :
      (k : ℕ) (values : List Slice) (after : Overflow)
      → CanPush block_size (v ∷ vs) next
      → IsOpened block_size next values after
      → CanPush block_size (values ++ drop (suc k) (v ∷ vs)) after
        × (length ((values ++ drop (suc k) (v ∷ vs)) ++ chain_values after)
            < length ((v ∷ vs) ++ chain_values next))
        × ((f : Slice → ℕ)
            → tally f (take (suc k) (v ∷ vs))
                + tally f ((values ++ drop (suc k) (v ∷ vs)) ++ chain_values after)
              ≡ tally f ((v ∷ vs) ++ chain_values next))
  moved-CanPush k values after can block = (
    record {
      room = can.room;
      chain = block.chain;
      fits = block.fits;
      small = omega (arith, can.small, weights size);
      few = omega (arith, can.few, fewer);
      each =
          All-append (ValueFits block_size) (values ++ (drop (suc k) (v ∷ vs))) (chain_values after)
            (All-append (ValueFits block_size) values (drop (suc k) (v ∷ vs))
              (All-append_left (ValueFits block_size) values (chain_values after) each_next)
              (All-append_right (ValueFits block_size) (take (suc k) (v ∷ vs))
                (drop (suc k) (v ∷ vs))
                (subst (λ xs. All (ValueFits block_size) xs)
                  (sym (take-append-drop (suc k) (v ∷ vs)))
                  (All-append_left (ValueFits block_size) (v ∷ vs) (chain_values next) can.each))))
            (All-append_right (ValueFits block_size) values (chain_values after) each_next);
    },
    fewer,
    weights,
  )
    where
      each_next : All (ValueFits block_size) (values ++ chain_values after)
      each_next =
          subst (λ xs. All (ValueFits block_size) xs) (sym block.same)
            (All-append_right (ValueFits block_size) (v ∷ vs) (chain_values next) can.each)

      fewer :
          length ((values ++ (drop (suc k) (v ∷ vs))) ++ chain_values after)
          < length ((v ∷ vs) ++ chain_values next)
      fewer = omega (
        arith,
        length-append (values ++ (drop (suc k) (v ∷ vs))) (chain_values after),
        length-append values (drop (suc k) (v ∷ vs)),
        length-append values (chain_values after),
        length-append (v ∷ vs) (chain_values next),
        length-drop (suc k) (v ∷ vs),
        ap length block.same,
      )

      weights :
          (f : Slice → ℕ)
          → tally f (take (suc k) (v ∷ vs))
              + tally f ((values ++ (drop (suc k) (v ∷ vs))) ++ chain_values after)
            ≡ tally f ((v ∷ vs) ++ chain_values next)
      weights f = omega (
        arith,
        tally-append f (values ++ (drop (suc k) (v ∷ vs))) (chain_values after),
        tally-append f values (drop (suc k) (v ∷ vs)),
        tally-append f values (chain_values after),
        tally-append f (v ∷ vs) (chain_values next),
        tally-take-drop f (suc k) (v ∷ vs),
        ap (tally f) block.same,
      )

  fits_again :
      (values : List Slice)
      → 30 + tally size values ≤ block_size
      → tally size values + 30 < 2 ^ 32
      → should_split block_size (overflow_size values) ≡ false
  unfolding should_split
  fits_again values fits small = rw (overflow_size-tally values small) (ground (arith, fits))

  pub push_down_more :
      (k : ℕ) (values : List Slice) (after : Overflow) (pushed : List Slice × Overflow)
      → CanPush block_size (v ∷ vs) next
      → should_split block_size (overflow_size (v ∷ vs)) ≡ true
      → overflow_split_index block_size (v ∷ vs) ≡ suc k
      → 30 + tally size (take (suc k) (v ∷ vs)) ≤ block_size
      → IsOpened block_size next values after
      → IsPushed block_size (values ++ drop (suc k) (v ∷ vs)) after pushed
      → IsPushed block_size (v ∷ vs) next (
        take (suc k) (v ∷ vs),
        present (Overflow.item_count pushed.0 pushed.1) (Overflow.node_id next) pushed.0 pushed.1,
      )
  push_down_more k values after pushed can b index fits block rest = record {
    result = result;
    same = λ f. omega (
      arith,
      tally-append f (take (suc k) (v ∷ vs)) (pushed.0 ++ chain_values pushed.1),
      rest.same f,
      (moved-CanPush k values after can block).2 f,
    );
    chain = (refl, rest.chain);
    head_fits = fits_again (take (suc k) (v ∷ vs)) fits (
        omega (
          arith,
          can.small,
          tally-take-drop size (suc k) (v ∷ vs),
          tally-append size (v ∷ vs) (chain_values next),
        ));
    rest_fits = (rest.head_fits, rest.rest_fits);
  }
    where
      result :
          (n : ℕ)
          → length ((v ∷ vs) ++ chain_values next) < n
          → push_down n block_size (v ∷ vs) next
            ≡ ok (
              take (suc k) (v ∷ vs),
              present
                  (Overflow.item_count pushed.0 pushed.1)
                  (Overflow.node_id next)
                  pushed.0
                  pushed.1,
            )
      result zero h = absurd (omega (arith, h))
      result (suc n) h =
          push_down_moves n block_size (suc k) (v ∷ vs) next (values, after) pushed b index
            block.opened
            (rest.result n (omega (arith, h, (moved-CanPush k values after can block).1)))
