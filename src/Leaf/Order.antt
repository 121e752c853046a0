-- ===== src/Leaf/Order.antt =====
-- The order of a leaf's pairs, and what `insert`, `find` and `findRange` make of it.
use libbruce.Base.{
  Ordering, ℕ, zero, suc, ◌≡◌, ◌≢◌, ap, true, false, Bool-cases, inl, inr, List, [], ◌∷◌, arith,
  All, All-imp, insert_at,
}
use libbruce.Memory.{Slice, KvPair}
use libbruce.Functions.{TreeFunctions, IsLawful, IsKey, Le, before}
use libbruce.Leaf.{LeafNode, insert, first_after}

module _ (fns : TreeFunctions) where
  -- Every pair's key is at least `k`, or at most `k`.
  abbrev pub Above : Slice → List KvPair → Type 0
  Above k ps = All (λ p. Le fns k p.key) ps

  abbrev pub Below : Slice → List KvPair → Type 0
  Below k ps = All (λ p. Le fns p.key k) ps

  abbrev pub IsSorted : List KvPair → Type 0
  IsSorted [] = Unit
  IsSorted (p ∷ ps) = IsKey p.key × Above p.key ps × IsSorted ps

module _ (fns : TreeFunctions) (lawful : IsLawful fns) where
  pub le_refl : (a : Slice) → Le fns a a
  le_refl a h = ground (arith, lawful.cmp_refl a)

  pub le_trans : (a b c : Slice) → Le fns a b → Le fns b c → Le fns a c
  le_trans a b c h k e = ground (
    arith,
    lawful.lt_of_gt a c,
    lawful.eq_of_cmp a b,
    lawful.eq_of_cmp b c,
    lawful.lt_trans a b c,
    lawful.gt_of_lt c a,
  )

  -- The tests of the code, read in the order.
  pub before→le : (a b : Slice) → IsKey a → IsKey b → before fns a b ≡ true → Le fns a b
  unfolding before
  before→le a b ka kb h e = ground arith

  pub before→lt :
      (a b : Slice) → IsKey a → IsKey b → before fns a b ≡ true → fns.key_compare a b ≡ Ordering.lt
  unfolding before
  before→lt a b ka kb h = ground arith

  pub not_before→le : (a b : Slice) → IsKey a → IsKey b → before fns a b ≡ false → Le fns b a
  unfolding before
  not_before→le a b ka kb h e = ground (arith, lawful.lt_of_gt b a)

  pub before→ne : (a b : Slice) → IsKey a → IsKey b → before fns a b ≡ true → a ≢ b
  unfolding before
  before→ne a b ka kb h e = ground (arith, lawful.cmp_refl b, ap (λ x. fns.key_compare x b) e)

  pub Above-trans : (a b : Slice) (ps : List KvPair) → Le fns a b → Above fns b ps → Above fns a ps
  Above-trans a b ps h =
      All-imp (λ p. Le fns b p.key) (λ p. Le fns a p.key) (λ p. le_trans a b p.key h) ps

  pub Below-trans : (a b : Slice) (ps : List KvPair) → Le fns a b → Below fns a ps → Below fns b ps
  Below-trans a b ps h =
      All-imp (λ p. Le fns p.key a) (λ p. Le fns p.key b) (λ p k. le_trans p.key a b k h) ps

  insert_at-Above :
      (k : Slice) (i : ℕ) (p : KvPair) (ps : List KvPair)
      → Le fns k p.key
      → Above fns k ps
      → Above fns k (insert_at i p ps)
  insert_at-Above k zero p ps h a = (h, a)
  insert_at-Above k (suc i) p [] h a = (h, a)
  insert_at-Above k (suc i) p (q ∷ ps) h a = (a.0, insert_at-Above k i p ps h a.1)

  insert_after-IsSorted :
      (p : KvPair) (ps : List KvPair)
      → IsKey p.key
      → IsSorted fns ps
      → IsSorted fns (insert_at (first_after fns p.key ps) p ps)
  insert_after-IsSorted p [] k s = (k, tt, tt)
  insert_after-IsSorted p (q ∷ ps) k s = elim (Bool-cases (before fns p.key q.key)) [
    | inl b ↦
        let h = before→le p.key q.key k s.0 b in rw b (k, (h, Above-trans p.key q.key ps h s.1), s)
    | inr b ↦ rw b (
      s.0,
      insert_at-Above q.key (first_after fns p.key ps) p ps (not_before→le p.key q.key k s.0 b) s.1,
      insert_after-IsSorted p ps k s.2,
    )
  ]

  -- Under a lawful comparator, `insert` of a pair with a non-empty key keeps a sorted leaf sorted.
  pub insert-IsSorted :
      (leaf : LeafNode) (p : KvPair)
      → IsKey p.key
      → IsSorted fns leaf.pairs
      → IsSorted fns (insert fns leaf p).pairs
  unfolding insert
  insert-IsSorted leaf p k s = insert_after-IsSorted p leaf.pairs k s
