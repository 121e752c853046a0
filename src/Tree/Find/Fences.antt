-- ===== src/Tree/Find/Fences.antt =====
-- The pairs before and behind the branch of a key.
use libbruce.Base.{
  ◌≡◌, ◌⊎◌, ◌++◌, [], ◌∷◌, List, true, inl, inr, All, All-imp, All-append, All-append_right,
}
use libbruce.Memory.{Slice, KvPair, NodeId}
use libbruce.Memory
use libbruce.Functions.{TreeFunctions, IsLawful, IsKey, Le, Lt}
use libbruce.Functions.Order.{lt-le_trans}
use libbruce.Internal.{Branch}
use libbruce.Internal.Search.{IsRising, EndsBefore}
use libbruce.Tree.Find.Quiet.{child_pairs, branch_pairs}
use libbruce.Tree.Find.Ordered.{IsFenced}

module _ {C : Type 0} (fns : TreeFunctions) (lawful : IsLawful fns) (pairs : C → List KvPair)
    (key : Slice) where
  -- Branches whose keys are bytes.
  abbrev HasKeys : List (Branch C) → Type 0
  HasKeys bs = All (λ c. IsKey c.min_key) bs

  pub rising_keys : (b : Branch C) (bs : List (Branch C)) → IsRising fns (b ∷ bs) → HasKeys bs
  rising_keys b bs r =
      All-imp (λ c. IsKey c.min_key × (IsKey b.min_key → Lt fns b.min_key c.min_key))
        (λ c. IsKey c.min_key) (λ c h. h.0) bs r.0

  -- A key that ends before some branches is less than the key of each of them.
  EndsBefore-all :
      (k : Slice) (xs ys : List (Branch C)) (b : Branch C)
      → HasKeys (xs ++ b ∷ ys)
      → IsRising fns (xs ++ b ∷ ys)
      → EndsBefore fns k (xs ++ b ∷ ys)
      → Lt fns k b.min_key
  EndsBefore-all k [] ys b keys r h = h
  EndsBefore-all k (x ∷ xs) ys b keys r h =
      let behind =
        All-append_right (λ c. IsKey c.min_key × (IsKey x.min_key → Lt fns x.min_key c.min_key)) xs
          (b ∷ ys) r.0 in
      lawful.lt_trans k x.min_key b.min_key h (behind.0.1 keys.0)

  -- The pairs before the branch of a key are less than the key.
  pub before_less :
      (xs ys : List (Branch C)) (b : Branch C)
      → IsRising fns (xs ++ b ∷ ys)
      → IsFenced fns pairs (xs ++ b ∷ ys)
      → (Memory.is_empty b.min_key ≡ true) ⊎ Le fns b.min_key key
      → All (λ p. Lt fns p.key key) (branch_pairs pairs xs)
  before_less [] ys b r f s = tt
  before_less (x ∷ xs) ys b r f s =
      let keys = rising_keys x (xs ++ b ∷ ys) r in
      let full = (All-append_right (λ c. IsKey c.min_key) xs (b ∷ ys) keys).0 in
      All-append (λ p. Lt fns p.key key) (child_pairs pairs x.child) (branch_pairs pairs xs)
        (All-imp
          (λ p.
            ((Memory.is_empty x.min_key ≡ true) ⊎ Le fns x.min_key p.key)
            × EndsBefore fns p.key (xs ++ b ∷ ys))
          (λ p. Lt fns p.key key)
          (λ p h.
            lt-le_trans fns lawful p.key b.min_key key (EndsBefore-all p.key xs ys b keys r.1 h.1)
              (at_most full s))
          (child_pairs pairs x.child) f.0)
        (before_less xs ys b r.1 f.1 s)
    where
      at_most :
          IsKey b.min_key
          → (Memory.is_empty b.min_key ≡ true) ⊎ Le fns b.min_key key
          → Le fns b.min_key key
      at_most k (inl e) = absurd (cc)
      at_most k (inr le) = le

  -- The pairs behind the branch of a key are greater than the key.
  pub after_more :
      (ys : List (Branch C))
      → HasKeys ys
      → IsRising fns ys
      → IsFenced fns pairs ys
      → EndsBefore fns key ys
      → All (λ p. Lt fns key p.key) (branch_pairs pairs ys)
  after_more [] keys r f h = tt
  after_more (y ∷ ys) keys r f h =
      All-append (λ p. Lt fns key p.key) (child_pairs pairs y.child) (branch_pairs pairs ys)
        (All-imp
          (λ p.
            ((Memory.is_empty y.min_key ≡ true) ⊎ Le fns y.min_key p.key) × EndsBefore fns p.key ys)
          (λ p. Lt fns key p.key)
          (λ p q. lt-le_trans fns lawful key y.min_key p.key h (at_least p q.0))
          (child_pairs pairs y.child) f.0)
        (after_more ys keys.1 r.1 f.1 (next ys r.0))
    where
      at_least :
          (p : KvPair)
          → (Memory.is_empty y.min_key ≡ true) ⊎ Le fns y.min_key p.key
          → Le fns y.min_key p.key
      at_least p (inl e) = absurd (empty_key y.min_key keys.0 e)
        where
          empty_key : (k : Slice) → IsKey k → Memory.is_empty k ≡ true → ⊥
          empty_key k a b = cc
      at_least p (inr le) = le

      next :
          (zs : List (Branch C))
          → All (λ c. IsKey c.min_key × (IsKey y.min_key → Lt fns y.min_key c.min_key)) zs
          → EndsBefore fns key zs
      next [] a = tt
      next (z ∷ zs) a = lawful.lt_trans key y.min_key z.min_key h (a.0.1 keys.0)

  pub behind_more :
      (xs ys : List (Branch C)) (b : Branch C)
      → IsRising fns (xs ++ b ∷ ys)
      → IsFenced fns pairs (xs ++ b ∷ ys)
      → EndsBefore fns key ys
      → All (λ p. Lt fns key p.key) (branch_pairs pairs ys)
  behind_more [] ys b r f h = after_more ys (rising_keys b ys r) r.1 f.1 h
  behind_more (x ∷ xs) ys b r f h = behind_more xs ys b r.1 f.1 h
