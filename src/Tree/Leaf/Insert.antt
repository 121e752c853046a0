-- ===== src/Tree/Leaf/Insert.antt =====
-- leafInsert adds one pair to a leaf and its overflow chain.
use libbruce.Base.{
  ℕ, zero, suc, ◌+◌, ◌^◌, ◌≤◌, ◌<◌, ◌≡◌, ◌⊎◌, refl, sym, ap, subst, ◌∙◌, inl, inr, true, false,
  Bool-cases, Option-cases, List, some, [], ◌∷◌, arith, length, get_elem?, insert_at, tally, ok,
}
use libbruce.Memory.{Slice, NodeId, KvPair, slice_eq, slice_eq→eq}
use libbruce.Functions.{TreeFunctions, IsLawful, IsKey, Le, before}
use libbruce.Overflow
use libbruce.Overflow.{Overflow}
use libbruce.Leaf
use libbruce.Leaf.{LeafNode, first_after, first_not_before}
use libbruce.Leaf.Order.{IsSorted, insert-IsSorted, not_before→le}
use libbruce.Tree.Split.Chain.{chain_values, IsChain}
use libbruce.Tree.Split.Divide.{last_key}
use libbruce.Tree.Leaf.{Fetch, >>=-ok, back_key, overflow_pull, pull_all}
use libbruce.Tree.Leaf.Pull.{depth, overflow_pull-IsPulled, empty_chain}

tally-insert_at :
    (f : KvPair → ℕ) (i : ℕ) (p : KvPair) (ps : List KvPair)
    → tally f (insert_at i p ps) ≡ f p + tally f ps
tally-insert_at f zero p ps = refl
tally-insert_at f (suc i) p [] = refl
tally-insert_at f (suc i) p (q ∷ ps) = omega (arith, tally-insert_at f i p ps)

pub tally-insert :
    (fns : TreeFunctions) (f : KvPair → ℕ) (leaf : LeafNode) (p : KvPair)
    → tally f (Leaf.insert fns leaf p).pairs ≡ f p + tally f leaf.pairs
unfolding Leaf.insert
tally-insert fns f leaf p = tally-insert_at f (first_after fns p.key leaf.pairs) p leaf.pairs

pub back_key-ok : (ps : List KvPair) → 0 < length ps → back_key ps ≡ ok (last_key ps)
back_key-ok [] h = absurd (omega (arith, h))
back_key-ok (p ∷ []) h = refl
back_key-ok (p ∷ q ∷ ps) h = back_key-ok (q ∷ ps) (omega arith)

pub last_pair-IsKey :
    (fns : TreeFunctions) (ps : List KvPair) → 0 < length ps → IsSorted fns ps → IsKey (last_key ps)
last_pair-IsKey fns [] h s = absurd (omega (arith, h))
last_pair-IsKey fns (p ∷ []) h s = s.0
last_pair-IsKey fns (p ∷ q ∷ ps) h s = last_pair-IsKey fns (q ∷ ps) (omega arith) s.2

pub last_key-get_elem? :
    (ps : List KvPair) (i : ℕ) (p : KvPair)
    → get_elem? ps i ≡ some p
    → i + 1 ≡ length ps
    → last_key ps ≡ p.key
last_key-get_elem? [] i p h e = cc
last_key-get_elem? (q ∷ []) zero p h e = ground (arith, h)
last_key-get_elem? (q ∷ []) (suc i) p h e = absurd (omega (arith, e))
last_key-get_elem? (q ∷ r ∷ ps) zero p h e = absurd (omega (arith, e))
last_key-get_elem? (q ∷ r ∷ ps) (suc i) p h e = last_key-get_elem? (r ∷ ps) i p h (omega (arith, e))

-- `find` gives the end, or the place of a pair of the key.
pub find-cases :
    (fns : TreeFunctions) (leaf : LeafNode) (key : Slice)
    → (Leaf.find fns leaf key ≡ length leaf.pairs)
      ⊎ ((p : KvPair) × (get_elem? leaf.pairs (Leaf.find fns leaf key) ≡ some p) × (p.key ≡ key))
unfolding Leaf.find
find-cases fns leaf key =
    let i = first_not_before fns key leaf.pairs in
    elim (Option-cases (get_elem? leaf.pairs i)) [
      | inl h ↦ rw (h, Leaf.find) (inl refl)
      | inr h ↦ elim (Bool-cases (slice_eq key h.0.key)) [
        | inl e ↦
            rw (h.1, Leaf.find)
              (rw (e, Leaf.find) (inr (h.0, h.1, sym (slice_eq→eq key h.0.key e))))
        | inr e ↦ rw (h.1, Leaf.find) (rw (e, Leaf.find) (inl refl))
      ]
    ]

insert_at-shape :
    (i : ℕ) (p : KvPair) (ps : List KvPair)
    → (q : KvPair) × (rest : List KvPair) × (insert_at i p ps ≡ q ∷ rest)
insert_at-shape zero p ps = (p, ps, refl)
insert_at-shape (suc i) p [] = (p, [], refl)
insert_at-shape (suc i) p (q ∷ ps) = (q, insert_at i p ps, refl)

last_key-insert_at :
    (i : ℕ) (x p : KvPair) (ps : List KvPair)
    → last_key (x ∷ insert_at i p ps) ≡ last_key (insert_at i p ps)
last_key-insert_at i x p ps = let s = insert_at-shape i p ps in rw s.2 refl

some_key : (x q : KvPair) → some x ≡ some q → x.key ≡ q.key
some_key x q h = ground (arith, h)

-- Lists whose weights differ by one element's differ by one in length.
one_less :
    (v : Slice) (xs ys : List Slice)
    → ((f : Slice → ℕ) → f v + tally f xs ≡ tally f ys)
    → suc (length xs) ≡ length ys
one_less v xs ys h = omega (arith, h (λ _. 1), ones xs, ones ys)
  where
    ones : (zs : List Slice) → tally (λ _. 1) zs ≡ length zs
    ones [] = refl
    ones (z ∷ zs) = omega (arith, ones zs)

module _ (fns : TreeFunctions) (lawful : IsLawful fns) where
  le_antisym : (a b : Slice) → Le fns a b → Le fns b a → a ≡ b
  le_antisym a b h k = ground (arith, lawful.eq_of_cmp a b, lawful.gt_of_lt a b)

  -- A pair of a key that is there does not change the last key.
  pub last_key-insert :
      (ps : List KvPair) (i : ℕ) (q p : KvPair)
      → IsKey p.key
      → IsSorted fns ps
      → get_elem? ps i ≡ some q
      → q.key ≡ p.key
      → last_key (insert_at (first_after fns p.key ps) p ps) ≡ last_key ps
  last_key-insert [] i q p k s h e = cc
  last_key-insert (x ∷ []) zero q p k s h e = elim (Bool-cases (before fns p.key x.key)) [
    | inl b ↦ rw b refl
    | inr b ↦ rw b (sym e ∙ sym (some_key x q h))
  ]
  last_key-insert (x ∷ []) (suc i) q p k s h e = cc
  last_key-insert (x ∷ y ∷ ys) (suc i) q p k s h e = elim (Bool-cases (before fns p.key x.key)) [
    | inl b ↦ rw b refl
    | inr b ↦ rw b (
        last_key-insert_at (first_after fns p.key (y ∷ ys)) x p (y ∷ ys)
        ∙ last_key-insert (y ∷ ys) i q p k s.2 h e)
  ]
  last_key-insert (x ∷ y ∷ ys) zero q p k s h e = elim (Bool-cases (before fns p.key x.key)) [
    | inl b ↦ rw b refl
    | inr b ↦ rw b (
        last_key-insert_at (first_after fns p.key (y ∷ ys)) x p (y ∷ ys)
        ∙ elim (Bool-cases (before fns p.key y.key)) [
          | inl c ↦ rw c refl
          | inr c ↦ last_key-insert (y ∷ ys) zero y p k s.2 refl (
              le_antisym y.key p.key (not_before→le fns lawful p.key y.key k s.2.0 c)
                (subst (λ z. Le fns z y.key) (some_key x q h ∙ e) s.1.0))
        ])
  ]

-- A leaf whose chain has been pulled into it.
pub record IsFull (fns : TreeFunctions) (key : Slice) (leaf full : LeafNode) : Type 0 where
  pub closed : Overflow.is_empty full.overflow ≡ true
  pub chain : IsChain full.overflow
  pub empty : chain_values full.overflow ≡ []
  pub weight :
      (f : KvPair → ℕ)
      → tally f full.pairs
        ≡ tally f leaf.pairs
          + tally (λ v. f (record { key = key; value = v })) (chain_values leaf.overflow)
  pub sorted : IsSorted fns full.pairs

module _ (fns : TreeFunctions) (lawful : IsLawful fns) (fetch : Fetch) where
  pull_stops :
      (d n : ℕ) (key : Slice) (leaf : LeafNode) (ids : List NodeId)
      → Overflow.is_empty leaf.overflow ≡ true
      → pull_all fns fetch d (suc n) key leaf ids ≡ ok (leaf, ids)
  unfolding pull_all
  pull_stops d n key leaf ids e = rw e refl

  pull_goes_on :
      (d n : ℕ) (key : Slice) (leaf : LeafNode) (ids : List NodeId) (r : Slice × Overflow)
      → Overflow.is_empty leaf.overflow ≡ false
      → overflow_pull fns fetch d leaf.overflow ids ≡ ok (r, ids)
      → pull_all fns fetch d (suc n) key leaf ids
        ≡ pull_all fns fetch d n key
            (Leaf.insert fns (record leaf { overflow = r.1 }) (record { key = key; value = r.0 }))
            ids
  unfolding pull_all
  pull_goes_on d n key leaf ids r e pulled =
      rw e (>>=-ok (overflow_pull fns fetch d leaf.overflow) _ ids ids r pulled)

  pub pull_all-IsFull :
      (d n : ℕ) (key : Slice) (leaf : LeafNode)
      → IsKey key
      → depth leaf.overflow ≤ d
      → IsChain leaf.overflow
      → length (chain_values leaf.overflow) < 2 ^ 32
      → length (chain_values leaf.overflow) < n
      → IsSorted fns leaf.pairs
      → (full : LeafNode) × ((ids : List NodeId)
          → pull_all fns fetch d n key leaf ids ≡ ok (full, ids))
        × IsFull fns key leaf full
  unfolding Leaf.insert
  pull_all-IsFull d zero key leaf k deep chain small fuel sorted = absurd (omega (arith, fuel))
  pull_all-IsFull d (suc n) key leaf k deep chain small fuel sorted =
      elim (Bool-cases (Overflow.is_empty leaf.overflow)) [
        | inl e ↦
            let none_left = empty_chain leaf.overflow chain small e in
            (
              leaf,
              (λ ids. pull_stops d n key leaf ids e),
              record {
                closed = e;
                chain = chain;
                empty = none_left;
                weight = λ f.
                    omega (arith, ap (tally (λ v. f (record { key = key; value = v }))) none_left);
                sorted = sorted;
              },
            )
        | inr e ↦
            let pulled = overflow_pull-IsPulled fns fetch leaf.overflow chain small e in
            let less : suc (length (chain_values pulled.0.1))
                ≡ length (chain_values leaf.overflow) =
              one_less pulled.0.0 (chain_values pulled.0.1) (chain_values leaf.overflow)
                pulled.1.weight in
            let added =
              Leaf.insert fns (record leaf { overflow = pulled.0.1 })
                (record { key = key; value = pulled.0.0 }) in
            let rest =
              pull_all-IsFull d n key added k (omega (arith, deep, pulled.1.deep)) pulled.1.chain
                (omega (arith, small, less)) (omega (arith, fuel, less))
                (insert-IsSorted fns lawful (record leaf { overflow = pulled.0.1 })
                  (record { key = key; value = pulled.0.0 }) k sorted) in
            (
              rest.0,
              (λ ids.
                  pull_goes_on d n key leaf ids pulled.0 e (pulled.1.result d deep ids)
                  ∙ rest.1 ids),
              record {
                closed = rest.2.closed;
                chain = rest.2.chain;
                empty = rest.2.empty;
                weight = λ f. omega (
                  arith,
                  rest.2.weight f,
                  tally-insert fns f (record leaf { overflow = pulled.0.1 })
                      (record { key = key; value = pulled.0.0 }),
                  pulled.1.weight (λ v. f (record { key = key; value = v })),
                );
                sorted = rest.2.sorted;
              },
            )
      ]
