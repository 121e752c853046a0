-- ===== src/Tree/Find/Overrun.antt =====
-- seek past the end of a leaf with an overflow block.
use native.Mathlib.Nat.{mod-eq-sub-mod, mod-eq_of_lt, mod-le}
use libbruce.Base.{
  ℕ, zero, suc, ◌+◌, ◌-◌, ◌%◌, ◌^◌, ◌<◌, ◌≤◌, ◌≡◌, refl, sym, ap, ◌∙◌, [], ◌∷◌, List, Option, some,
  true, false, Bool-cases, inl, inr, ok, ltb, ltb→lt, ◌==◌, length, arith,
}
use libbruce.Memory.{Slice, KvPair, NodeId, wrap32}
use libbruce.Functions.{TreeFunctions}
use libbruce.Overflow
use libbruce.Overflow.{Overflow, present}
use libbruce.Leaf.{LeafNode}
use libbruce.Tree.Leaf.{Fetch, >>=-ok, overflow_node}
use libbruce.Tree.Pending.{Bounds, unbounded}
use libbruce.Tree.Find.{
  below, TreePath, fork, seek_overflow, seek_leaf, seek_rec, seek, rank_leaf, rank_from, rank,
}

module _ (fns : TreeFunctions) (fetch : Fetch) (c : ℕ) (id : NodeId) (values : List Slice)
    (next : Overflow) (some_items : (c == 0) ≡ false) (last : Overflow.is_empty next ≡ true)
    (filled : 0 < length values) where
  abbrev block : Overflow
  block = present c id values next

  overflow_node-block :
      (ids : List NodeId) → overflow_node fns fetch block ids ≡ ok ((values, next), ids)
  unfolding overflow_node
  overflow_node-block ids = rw some_items refl

  -- The search goes round in the last block.
  pub seek_overflow-mod :
      (fuel n : ℕ)
      → n < fuel
      → (ids : List NodeId)
      → seek_overflow fns fetch fuel block n ids
        ≡ ok ((some (fork unbounded (n % length values) ∷ []), block), ids)
  unfolding seek_overflow
  seek_overflow-mod zero n less ids = absurd (omega (arith, less))
  seek_overflow-mod (suc fuel) n less ids =
      >>=-ok (overflow_node fns fetch block) _ ids ids (values, next) (overflow_node-block ids)
      ∙ elim (Bool-cases (ltb n (length values))) [
        | inl t ↦ rw t (
            ap (λ i. ok ((some (fork unbounded i ∷ []), block), ids))
              (sym (mod-eq_of_lt (ltb→lt n (length values) t))))
        | inr t ↦
            let most : length values ≤ n = ground (arith, t) in
            rw t (
              rw last (
                seek_overflow-mod fuel (n - length values) (omega (arith, less, most, filled)) ids
                ∙ ap (λ i. ok ((some (fork unbounded i ∷ []), block), ids))
                    (sym (mod-eq-sub-mod most))))
      ]

-- The way from a leaf into its overflow.
seek_leaf-past :
    (fns : TreeFunctions) (fetch : Fetch) (fuel : ℕ) (leaf : LeafNode) (at : Bounds) (n : ℕ)
    (t : Option TreePath) (o : Overflow) (ids : List NodeId)
    → ltb n (length leaf.pairs) ≡ false
    → Overflow.is_empty leaf.overflow ≡ false
    → seek_overflow fns fetch fuel leaf.overflow (n - length leaf.pairs) ids ≡ ok ((t, o), ids)
    → seek_leaf fns fetch fuel leaf at n ids
      ≡ ok ((below (fork at 0) t, record leaf { overflow = o }), ids)
unfolding seek_leaf
seek_leaf-past fns fetch fuel leaf at n t o ids over full found = rw over (
    rw full (
      >>=-ok (seek_overflow fns fetch fuel leaf.overflow (n - length leaf.pairs)) _ ids ids (t, o)
        found))

-- In a leaf with an overflow block in memory that holds values and is the last, seek at the number
-- of the leaf's pairs or above always gives a path, also past the last value: to the place that is
-- left after taking away the pairs and then whole blocks. The rank of that path is that place alone,
-- without the pairs before it.
pub seek_wraps :
    (fns : TreeFunctions) (fetch : Fetch) (chain : ℕ) (pairs : List KvPair) (n elements_size c : ℕ)
    (id : NodeId) (values : List Slice) (next : Overflow)
    → (c == 0) ≡ false
    → Overflow.is_empty next ≡ true
    → 0 < length values
    → length pairs ≤ n
    → n < 2 ^ 32
    → (ids : List NodeId)
    → (seek fns fetch chain zero
          (record {
            pairs = pairs;
            overflow = present c id values next;
            elements_size = elements_size;
          })
          n
          ids
        ≡ ok (
          (
            some (fork unbounded 0 ∷ fork unbounded ((n - length pairs) % length values) ∷ []),
            record {
              pairs = pairs;
              overflow = present c id values next;
              elements_size = elements_size;
            },
          ),
          ids,
        ))
      × (rank fns fetch chain zero
            (record {
              pairs = pairs;
              overflow = present c id values next;
              elements_size = elements_size;
            })
            (fork unbounded 0 ∷ fork unbounded ((n - length pairs) % length values) ∷ [])
            ids
          ≡ ok (
            (
              (n - length pairs) % length values,
              record {
                pairs = pairs;
                overflow = present c id values next;
                elements_size = elements_size;
              },
            ),
            ids,
          ))
unfolding seek seek_rec seek_leaf rank rank_from rank_leaf
seek_wraps fns fetch chain pairs n elements_size c id values next some_items last filled most small
      ids =
    let over : ltb n (length pairs) ≡ false = ground (arith, most) in
    let leaf : LeafNode = record {
      pairs = pairs;
      overflow = present c id values next;
      elements_size = elements_size;
    } in
    let m = n - length pairs in
    (
      seek_leaf-past fns fetch (suc (n + chain)) leaf unbounded n
          (some (fork unbounded (m % length values) ∷ [])) (present c id values next) ids over
          some_items
          (seek_overflow-mod fns fetch c id values next some_items last filled (suc (n + chain)) m
            (omega (arith, most)) ids),
      ap (λ r. ok ((r, leaf), ids)) (low (m % length values) (below_m m)),
    )
  where
    below_m : (m : ℕ) → m % length values ≤ m
    below_m m = mod-le m (length values)

    low : (r : ℕ) → r ≤ n - length pairs → wrap32 (wrap32 (0 + 0) + r) ≡ r
    low r h = omega (arith, h, small)
