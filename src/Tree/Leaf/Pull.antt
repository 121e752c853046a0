-- ===== src/Tree/Leaf/Pull.antt =====
-- overflowPull over a chain that is in memory: one value less, and nothing is loaded.
use libbruce.Base.{
  ℕ, zero, suc, ◌+◌, ◌^◌, ◌≤◌, ◌<◌, ◌≡◌, refl, ap, inl, inr, true, false, Bool-cases, List, [], ◌∷◌,
  ◌++◌, arith, length, length-append, tally, tally-append, ok, ◌==◌,
}
use libbruce.Memory.{Slice, NodeId, wrap32}
use libbruce.Functions.{TreeFunctions}
use libbruce.Overflow
use libbruce.Overflow.{Overflow, absent, present}
use libbruce.Tree.Split.Chain.{chain_values, IsChain, count-chain_values}
use libbruce.Tree.Leaf.{Fetch, >>=-ok, pop_back, overflow_node, overflow_pull, overflow_insert}

-- How many blocks a chain has in memory.
abbrev pub depth : Overflow → ℕ
depth (absent c id) = 0
depth (present c id values next) = suc (depth next)

pop_back-ok :
    (vs : List Slice)
    → 0 < length vs
    → (r : Slice × List Slice) × (pop_back vs ≡ ok r)
      × ((f : Slice → ℕ) → f r.0 + tally f r.1 ≡ tally f vs)
pop_back-ok [] h = absurd (omega (arith, h))
pop_back-ok (v ∷ []) h = ((v, []), refl, λ f. refl)
pop_back-ok (v ∷ w ∷ vs) h =
    let rest = pop_back-ok (w ∷ vs) (omega arith) in
    ((rest.0.0, v ∷ rest.0.1), rw rest.1 refl, λ f. omega (arith, rest.2 f))

-- An empty record of a chain has no values behind it.
pub empty_chain :
    (o : Overflow)
    → IsChain o
    → length (chain_values o) < 2 ^ 32
    → Overflow.is_empty o ≡ true
    → chain_values o ≡ []
empty_chain o chain small h =
    none_left (chain_values o) (ground (arith, h, count-chain_values o chain small))
  where
    none_left : (xs : List Slice) → length xs ≡ 0 → xs ≡ []
    none_left [] e = refl
    none_left (x ∷ xs) e = absurd (omega (arith, e))

-- What `overflow_pull` gives of a chain.
pub record IsPulled (fns : TreeFunctions) (fetch : Fetch) (o : Overflow) (r : Slice × Overflow)
    : Type 0 where
  pub result :
      (n : ℕ) → depth o ≤ n → (ids : List NodeId) → overflow_pull fns fetch n o ids ≡ ok (r, ids)
  pub weight : (f : Slice → ℕ) → f r.0 + tally f (chain_values r.1) ≡ tally f (chain_values o)
  pub chain : IsChain r.1
  pub deep : depth r.1 ≡ depth o

module _ (fns : TreeFunctions) (fetch : Fetch) where
  pull_last :
      (c : ℕ) (id : NodeId) (values : List Slice) (next : Overflow) (r : Slice × List Slice)
      → (c == 0) ≡ false
      → Overflow.is_empty next ≡ true
      → pop_back values ≡ ok r
      → (n : ℕ) → suc (depth next) ≤ n
      → (ids : List NodeId)
      → overflow_pull fns fetch n (present c id values next) ids
        ≡ ok ((r.0, present (wrap32 (length r.1)) id r.1 next), ids)
  unfolding overflow_pull overflow_node
  pull_last c id values next r some_left end popped zero h ids = absurd (omega (arith, h))
  pull_last c id values next r some_left end popped (suc n) h ids =
      rw some_left (rw end (rw popped refl))

  pull_next :
      (c : ℕ) (id : NodeId) (values : List Slice) (next : Overflow) (r : Slice × Overflow)
      → (c == 0) ≡ false
      → Overflow.is_empty next ≡ false
      → ((n : ℕ)
          → depth next ≤ n
          → (ids : List NodeId) → overflow_pull fns fetch n next ids ≡ ok (r, ids))
      → (n : ℕ) → suc (depth next) ≤ n
      → (ids : List NodeId)
      → overflow_pull fns fetch n (present c id values next) ids
        ≡ ok ((r.0, present (Overflow.item_count values r.1) id values r.1), ids)
  unfolding overflow_pull overflow_node
  pull_next c id values next r some_left more pulled zero h ids = absurd (omega (arith, h))
  pull_next c id values next r some_left more pulled (suc n) h ids = rw some_left (
      rw more
        (>>=-ok (overflow_pull fns fetch n next) _ ids ids r (pulled n (omega (arith, h)) ids)))

  pub overflow_pull-IsPulled :
      (o : Overflow)
      → IsChain o
      → length (chain_values o) < 2 ^ 32
      → Overflow.is_empty o ≡ false
      → (r : Slice × Overflow) × IsPulled fns fetch o r
  unfolding Overflow.item_count
  overflow_pull-IsPulled (absent c id) chain small some_left = ground (arith, chain, some_left)
  overflow_pull-IsPulled (present c id values next) chain small some_left =
      let few = length-append values (chain_values next) in
      let counted = count-chain_values (present c id values next) chain small in
      elim (Bool-cases (Overflow.is_empty next)) [
        | inl e ↦
            let none_left = empty_chain next chain.1 (omega (arith, small, few)) e in
            let popped =
              pop_back-ok values (ground (arith, counted, few, some_left, ap length none_left)) in
            (
              (popped.0.0, present (wrap32 (length popped.0.1)) id popped.0.1 next),
              record {
                result = pull_last c id values next popped.0 some_left e popped.1;
                weight = λ f. omega (
                  arith,
                  popped.2 f,
                  tally-append f popped.0.1 (chain_values next),
                  tally-append f values (chain_values next),
                );
                chain = (ground (arith, e), chain.1);
                deep = refl;
              },
            )
        | inr e ↦
            let pulled = overflow_pull-IsPulled next chain.1 (omega (arith, small, few)) e in
            (
              (pulled.0.0, present (Overflow.item_count values pulled.0.1) id values pulled.0.1),
              record {
                result = pull_next c id values next pulled.0 some_left e pulled.1.result;
                weight = λ f. omega (
                  arith,
                  pulled.1.weight f,
                  tally-append f values (chain_values pulled.0.1),
                  tally-append f values (chain_values next),
                );
                chain = (refl, pulled.1.chain);
                deep = ap suc pulled.1.deep;
              },
            )
      ]

  -- `overflow_insert` adds its value behind the first block's.
  pub overflow_insert-ok :
      (o : Overflow) (value : Slice)
      → IsChain o
      → Overflow.is_empty o ≡ false
      → (after : Overflow) × ((ids : List NodeId)
          → overflow_insert fns fetch o value ids ≡ ok (after, ids))
        × ((f : Slice → ℕ) → tally f (chain_values after) ≡ f value + tally f (chain_values o))
        × IsChain after
  unfolding overflow_insert overflow_node
  overflow_insert-ok (absent c id) value chain some_left = ground (arith, chain, some_left)
  overflow_insert-ok (present c id values next) value chain some_left = (
    present (Overflow.item_count (values ++ value ∷ []) next) id (values ++ value ∷ []) next,
    (λ ids. rw some_left refl),
    (λ f. omega (
      arith,
      tally-append f (values ++ value ∷ []) (chain_values next),
      tally-append f values (value ∷ []),
      tally-append f values (chain_values next),
    )),
    (refl, chain.1),
  )
