-- ===== src/Tree/Leaf/InsertOne.antt =====
-- leafInsert, on each of its ways: into the leaf, behind the pulled chain, into the first block.
use libbruce.Base.{
  ℕ, zero, suc, ◌+◌, ◌^◌, ◌≤◌, ◌<◌, ◌≡◌, refl, ap, ◌∙◌, inl, inr, true, false, Bool-cases, some, [],
  List, ◌∷◌, arith, length, get_elem?, map, tally, tally-append, tally-map, Same, ok, ◌==◌, not,
  ◌&&◌,
}
use libbruce.Memory.{Slice, NodeId, KvPair}
use libbruce.Functions.{TreeFunctions, IsLawful, IsKey}
use libbruce.Overflow
use libbruce.Overflow.{Overflow}
use libbruce.Leaf
use libbruce.Leaf.{LeafNode, first_after}
use libbruce.Leaf.Order.{IsSorted, insert-IsSorted}
use libbruce.Tree.Split.Chain.{chain_values, IsChain, count-chain_values}
use libbruce.Tree.Split.Divide.{last_key, leaf_contents}
use libbruce.Tree.Leaf.{Fetch, >>=-ok, back_key, pull_all, overflow_insert, leaf_insert}
use libbruce.Tree.Leaf.Pull.{depth, overflow_insert-ok, empty_chain}
use libbruce.Tree.Leaf.Insert.{
  tally-insert, back_key-ok, last_pair-IsKey, last_key-get_elem?, find-cases, last_key-insert,
  IsFull, pull_all-IsFull,
}

-- A leaf in memory with its chain: sorted, counted, and with a pair.
pub record IsLoaded (fns : TreeFunctions) (leaf : LeafNode) : Type 0 where
  pub sorted : IsSorted fns leaf.pairs
  pub chain : IsChain leaf.overflow
  pub small : length (chain_values leaf.overflow) < 2 ^ 32
  pub some_pair : 0 < length leaf.pairs

-- A leaf with one pair more, wherever it is.
pub record IsInserted (fns : TreeFunctions) (leaf : LeafNode) (p : KvPair) (after : LeafNode)
    : Type 0 where
  pub weight : (f : KvPair → ℕ) → tally f (leaf_contents after) ≡ f p + tally f (leaf_contents leaf)
  pub sorted : IsSorted fns after.pairs
  pub chain : IsChain after.overflow

-- The weight of a leaf's contents, in two parts.
pub contents_weight :
    (f : KvPair → ℕ) (leaf : LeafNode)
    → tally f (leaf_contents leaf)
      ≡ tally f leaf.pairs
        + tally
            (λ v. f (record { key = last_key leaf.pairs; value = v }))
            (chain_values leaf.overflow)
contents_weight f leaf = omega (
  arith,
  tally-append f leaf.pairs
      (map (λ v. record { key = last_key leaf.pairs; value = v }) (chain_values leaf.overflow)),
  tally-map f (λ v. record { key = last_key leaf.pairs; value = v }) (chain_values leaf.overflow),
)

below_length : (ps : List KvPair) (i : ℕ) (p : KvPair) → get_elem? ps i ≡ some p → i < length ps
below_length [] i p h = cc
below_length (q ∷ ps) zero p h = omega arith
below_length (q ∷ ps) (suc i) p h = omega (arith, below_length ps i p h)

module _ (fns : TreeFunctions) (lawful : IsLawful fns) (fetch : Fetch) (d : ℕ) (leaf : LeafNode)
    (key value : Slice) where
  abbrev item : KvPair
  item = record { key = key; value = value }

  plain_step :
      (ids : List NodeId)
      → ((Leaf.find fns leaf key == length leaf.pairs) && not (Overflow.is_empty leaf.overflow))
        ≡ false
      → ((Leaf.find fns leaf key + 1 == length leaf.pairs) && not (Overflow.is_empty leaf.overflow))
        ≡ false
      → (length leaf.pairs == 0) ≡ false
      → leaf_insert fns fetch d leaf key value false ids ≡ ok (Leaf.insert fns leaf item, ids)
  unfolding leaf_insert
  plain_step ids a b filled = rw a (rw filled (rw b refl))

  pulling_step :
      (ids : List NodeId) (full : LeafNode)
      → ((Leaf.find fns leaf key == length leaf.pairs) && not (Overflow.is_empty leaf.overflow))
        ≡ true
      → back_key leaf.pairs ≡ ok (last_key leaf.pairs)
      → pull_all fns fetch d (suc (Overflow.count leaf.overflow)) (last_key leaf.pairs) leaf ids
        ≡ ok (full, ids)
      → leaf_insert fns fetch d leaf key value false ids ≡ ok (Leaf.insert fns full item, ids)
  unfolding leaf_insert
  pulling_step ids full a back pulled = rw a (
      rw back (
        >>=-ok
          (pull_all fns fetch d (suc (Overflow.count leaf.overflow)) (last_key leaf.pairs) leaf) _
          ids ids full pulled))

  block_step :
      (ids : List NodeId) (o : Overflow)
      → ((Leaf.find fns leaf key == length leaf.pairs) && not (Overflow.is_empty leaf.overflow))
        ≡ false
      → ((Leaf.find fns leaf key + 1 == length leaf.pairs) && not (Overflow.is_empty leaf.overflow))
        ≡ true
      → (length leaf.pairs == 0) ≡ false
      → overflow_insert fns fetch leaf.overflow value ids ≡ ok (o, ids)
      → leaf_insert fns fetch d leaf key value false ids ≡ ok (record leaf { overflow = o }, ids)
  unfolding leaf_insert
  block_step ids o a b filled inserted = rw a (
      rw filled
        (rw b (>>=-ok (overflow_insert fns fetch leaf.overflow value) _ ids ids o inserted)))

  -- Into the pairs, where the chain keeps its key.
  plain-IsInserted :
      IsKey key
      → IsLoaded fns leaf
      → ((f : KvPair → ℕ)
          → tally
              (λ v. f (record { key = last_key (Leaf.insert fns leaf item).pairs; value = v }))
              (chain_values leaf.overflow)
            ≡ tally
                (λ v. f (record { key = last_key leaf.pairs; value = v }))
                (chain_values leaf.overflow))
      → IsInserted fns leaf item (Leaf.insert fns leaf item)
  unfolding Leaf.insert
  plain-IsInserted k loaded kept = record {
    weight = λ f. omega (
      arith,
      contents_weight f leaf,
      contents_weight f (Leaf.insert fns leaf item),
      tally-insert fns f leaf item,
      kept f,
    );
    sorted = insert-IsSorted fns lawful leaf item k loaded.sorted;
    chain = loaded.chain;
  }

  full-IsInserted :
      (full : LeafNode)
      → IsKey key
      → IsFull fns (last_key leaf.pairs) leaf full
      → IsInserted fns leaf item (Leaf.insert fns full item)
  unfolding Leaf.insert
  full-IsInserted full k pulled = record {
    weight = λ f. omega (
      arith,
      contents_weight f leaf,
      contents_weight f (Leaf.insert fns full item),
      tally-insert fns f full item,
      pulled.weight f,
      ap (tally (λ v. f (record { key = last_key (Leaf.insert fns full item).pairs; value = v })))
          pulled.empty,
    );
    sorted = insert-IsSorted fns lawful full item k pulled.sorted;
    chain = pulled.chain;
  }

  block-IsInserted :
      (o : Overflow)
      → IsLoaded fns leaf
      → last_key leaf.pairs ≡ key
      → ((f : Slice → ℕ)
          → tally f (chain_values o) ≡ f value + tally f (chain_values leaf.overflow))
      → IsChain o
      → IsInserted fns leaf item (record leaf { overflow = o })
  block-IsInserted o loaded last inserted chain = record {
    weight = λ f. omega (
      arith,
      contents_weight f leaf,
      contents_weight f (record leaf { overflow = o }),
      inserted (λ v. f (record { key = last_key leaf.pairs; value = v })),
      ap (λ k. f (record { key = k; value = value })) last,
    );
    sorted = loaded.sorted;
    chain = chain;
  }

  -- Inserting into a leaf that is in memory succeeds without loading a block, and adds
  -- the pair to the leaf or its overflow chain; the leaf stays sorted and its chain counted.
  pub leaf_insert-IsInserted :
      IsKey key
      → IsLoaded fns leaf
      → depth leaf.overflow ≤ d
      → (after : LeafNode) × ((ids : List NodeId)
          → leaf_insert fns fetch d leaf key value false ids ≡ ok (after, ids))
        × IsInserted fns leaf (record { key = key; value = value }) after
  unfolding Leaf.insert
  leaf_insert-IsInserted k loaded deep =
      let filled : (length leaf.pairs == 0) ≡ false = ground (arith, loaded.some_pair) in
      elim (Bool-cases (Overflow.is_empty leaf.overflow)) [
        | inl e ↦
            let none_left = empty_chain leaf.overflow loaded.chain loaded.small e in
            (
              Leaf.insert fns leaf item,
              (λ ids. plain_step ids (ground (arith, e)) (ground (arith, e)) filled),
              plain-IsInserted k loaded (λ f. rw none_left refl),
            )
        | inr e ↦ elim (find-cases fns leaf key) [
          | inl at_end ↦
              let some_pair = loaded.some_pair in
              let counted = count-chain_values leaf.overflow loaded.chain loaded.small in
              let full =
                pull_all-IsFull fns lawful fetch d (suc (Overflow.count leaf.overflow))
                  (last_key leaf.pairs) leaf
                  (last_pair-IsKey fns leaf.pairs some_pair loaded.sorted) deep loaded.chain
                  loaded.small (omega (arith, counted)) loaded.sorted in
              (
                Leaf.insert fns full.0 item,
                (λ ids.
                    pulling_step ids full.0 (ground (arith, e, at_end))
                      (back_key-ok leaf.pairs some_pair) (full.1 ids)),
                full-IsInserted full.0 k full.2,
              )
          | inr found ↦ elim (Bool-cases (Leaf.find fns leaf key + 1 == length leaf.pairs)) [
            | inl last ↦
                let inserted = overflow_insert-ok fns fetch leaf.overflow value loaded.chain e in
                let same_last =
                  last_key-get_elem? leaf.pairs (Leaf.find fns leaf key) found.0 found.1
                    (ground (arith, last)) in
                (
                  record leaf { overflow = inserted.0 },
                  (λ ids.
                      block_step ids inserted.0 (ground (arith, last)) (ground (arith, e, last))
                        filled (inserted.1 ids)),
                  block-IsInserted inserted.0 loaded (same_last ∙ found.2) inserted.2 inserted.3,
                )
            | inr middle ↦
                let same_last =
                  last_key-insert fns lawful leaf.pairs (Leaf.find fns leaf key) found.0 item k
                    loaded.sorted found.1 found.2 in
                let before_end = below_length leaf.pairs (Leaf.find fns leaf key) found.0 found.1 in
                (
                  Leaf.insert fns leaf item,
                  (λ ids.
                      plain_step ids (ground (arith, before_end)) (ground (arith, middle)) filled),
                  plain-IsInserted k loaded (λ f.
                      ap
                        (λ z.
                          tally (λ v. f (record { key = z; value = v }))
                            (chain_values leaf.overflow))
                        same_last),
                )
          ]
        ]
      ]

-- Under a lawful comparator, inserting (not upserting) a pair with a non-empty key into a sorted leaf
-- with a pair, that is in memory with its counted overflow chain of fewer than 2 ^ 32 values, succeeds
-- without loading a block, for every fuel that covers the chain's blocks. The leaf and its chain hold
-- one pair more, the leaf is sorted, and the chain is counted.
pub leaf_insert-ok :
    (fns : TreeFunctions)
    → IsLawful fns
    → (fetch : Fetch) (d : ℕ) (leaf : LeafNode) (key value : Slice) (ids : List NodeId) → IsKey key
    → IsLoaded fns leaf
    → depth leaf.overflow ≤ d
    → (after : LeafNode) × (leaf_insert fns fetch d leaf key value false ids ≡ ok (after, ids))
      × Same (leaf_contents after) (record { key = key; value = value } ∷ leaf_contents leaf)
      × IsSorted fns after.pairs
      × IsChain after.overflow
leaf_insert-ok fns lawful fetch d leaf key value ids k loaded deep =
    let r = leaf_insert-IsInserted fns lawful fetch d leaf key value k loaded deep in
    (r.0, r.1 ids, r.2.weight, r.2.sorted, r.2.chain)
