-- ===== src/Leaf/Range.antt =====
-- findRange gives the pairs of a key, and no others.
use libbruce.Base.{
  ℕ, zero, suc, ◌≤◌, ◌<◌, ◌≡◌, refl, sym, ap, ◌∙◌, subst, inl, inr, true, false, Bool-cases, some,
  List, [], ◌∷◌, arith, get_elem?,
}
use libbruce.Memory.{Slice, KvPair}
use libbruce.Functions.{TreeFunctions, IsLawful, IsKey, Le, before}
use libbruce.Leaf.{first_not_before, first_after}
use libbruce.Leaf.Order.{Above, IsSorted, before→lt, not_before→le}

some_key : (x q : KvPair) → some x ≡ some q → x.key ≡ q.key
some_key x q h = ground (arith, h)

module _ (fns : TreeFunctions) (lawful : IsLawful fns) where
  pub le_antisym : (a b : Slice) → Le fns a b → Le fns b a → a ≡ b
  le_antisym a b h k = ground (arith, lawful.eq_of_cmp a b, lawful.gt_of_lt a b)

  pub before-asym :
      (a b : Slice) → IsKey a → IsKey b → before fns a b ≡ true → before fns b a ≡ false
  before-asym a b ka kb h = elim (Bool-cases (before fns b a)) [
    | inl k ↦
        let ab = before→lt fns lawful a b ka kb h in
        let ba = before→lt fns lawful b a kb ka k in ground (arith, ab, ba, lawful.gt_of_lt a b)
    | inr k ↦ k
  ]

  le→not_before : (a b : Slice) → IsKey a → IsKey b → Le fns b a → before fns a b ≡ false
  le→not_before a b ka kb h = elim (Bool-cases (before fns a b)) [
    | inl k ↦ absurd (h (lawful.gt_of_lt a b (before→lt fns lawful a b ka kb k)))
    | inr k ↦ k
  ]

  Above-first :
      (key : Slice) (ps : List KvPair)
      → IsKey key
      → IsSorted fns ps
      → Above fns key ps
      → first_not_before fns key ps ≡ 0
  Above-first key [] k s h = refl
  Above-first key (p ∷ ps) k s h = let b = le→not_before p.key key s.0 k h.0 in rw b refl

  -- A pair in the range has the key.
  pub in_range :
      (key : Slice) (ps : List KvPair) (i : ℕ) (p : KvPair)
      → IsKey key
      → IsSorted fns ps
      → first_not_before fns key ps ≤ i
      → i < first_after fns key ps
      → get_elem? ps i ≡ some p
      → p.key ≡ key
  in_range key [] i p k s lo hi h = cc
  in_range key (x ∷ xs) zero p k s lo hi h =
      let c : before fns x.key key ≡ false = ground (arith, lo) in
      let b : before fns key x.key ≡ false = ground (arith, hi) in
      sym (some_key x p h)
      ∙ le_antisym x.key key (not_before→le fns lawful key x.key k s.0 b)
          (not_before→le fns lawful x.key key s.0 k c)
  in_range key (x ∷ xs) (suc i) p k s lo hi h =
      let b : before fns key x.key ≡ false = ground (arith, hi) in
      let hi' : i < first_after fns key xs = ground (arith, b, hi) in
      elim (Bool-cases (before fns x.key key)) [
        | inl c ↦ in_range key xs i p k s.2 (ground (arith, c, lo)) hi' h
        | inr c ↦
            let eq =
              le_antisym x.key key (not_before→le fns lawful key x.key k s.0 b)
                (not_before→le fns lawful x.key key s.0 k c) in
            let first = Above-first key xs k s.2 (subst (λ z. Above fns z xs) eq s.1) in
            in_range key xs i p k s.2 (omega (arith, first)) hi' h
      ]

  -- A pair with the key is in the range.
  pub range_holds :
      (key : Slice) (ps : List KvPair) (i : ℕ) (p : KvPair)
      → IsKey key
      → IsSorted fns ps
      → get_elem? ps i ≡ some p
      → p.key ≡ key
      → (first_not_before fns key ps ≤ i) × (i < first_after fns key ps)
  range_holds key [] i p k s h e = cc
  range_holds key (x ∷ xs) zero p k s h e =
      let eq : x.key ≡ key = some_key x p h ∙ e in
      let irrefl = le→not_before key key k k (λ g. le_self key g) in
      let c : before fns x.key key ≡ false = ap (λ z. before fns z key) eq ∙ irrefl in
      let b : before fns key x.key ≡ false = ap (λ z. before fns key z) eq ∙ irrefl in
      (ground (arith, c), ground (arith, b))
    where
      le_self : (a : Slice) → Le fns a a
      le_self a g = ground (arith, g, lawful.cmp_refl a)
  range_holds key (x ∷ xs) (suc i) p k s h e =
      let rest = range_holds key xs i p k s.2 h e in
      let b : before fns key x.key ≡ false =
        le→not_before key x.key k s.0 (subst (λ z. Le fns x.key z) e (above_at xs i s.1 h)) in
      (ground (arith, rest.0), ground (arith, b, rest.1))
    where
      above_at :
          (ys : List KvPair) (j : ℕ)
          → Above fns x.key ys
          → get_elem? ys j ≡ some p
          → Le fns x.key p.key
      above_at [] j a g = cc
      above_at (y ∷ ys) zero a g = subst (λ z. Le fns x.key z) (some_key y p g) a.0
      above_at (y ∷ ys) (suc j) a g = above_at ys j a.1 g
