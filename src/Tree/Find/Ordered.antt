-- ===== src/Tree/Find/Ordered.antt =====
-- Trees whose keys are in order, and the first pair of a key.
use libbruce.Base.{
  ℕ, zero, suc, ◌+◌, ◌<◌, ◌≡◌, ◌≢◌, ◌⊎◌, refl, sym, ap, ◌∙◌, ◌++◌, [], ◌∷◌, List, true, Bool-cases,
  inl, inr, length, All, All-imp, All-append, arith, append_assoc, length-append, some,
}
use libbruce.Memory.{Slice, KvPair}
use libbruce.Functions.{TreeFunctions, IsLawful, IsKey, Le, Lt, before}
use libbruce.Functions.Order.{lt-le_trans, lt→ne, gt→ne}
use libbruce.Leaf.{first_not_before, first_after}
use libbruce.Leaf.Order.{IsSorted, before→lt, not_before→le}
use libbruce.Leaf.Range.{before-asym, le_antisym}
use libbruce.Internal.{Branch}
use libbruce.Internal.Search.{IsRising, EndsBefore, StartsEmpty}
use libbruce.Memory
use libbruce.Tree.Nodes.{Tree}
use libbruce.Tree.Find.Quiet.{tree_pairs, child_pairs}

-- A pair of a key, at an index, behind pairs of lesser keys only.
pub record IsFirstOf (fns : TreeFunctions) (key : Slice) (ps : List KvPair) (n : ℕ) : Type 0 where
  pub front : List KvPair
  pub pair : KvPair
  pub back : List KvPair
  pub parts : ps ≡ front ++ pair ∷ back
  pub index : n ≡ length front
  pub key_is : pair.key ≡ key
  pub less : All (λ p. Lt fns p.key key) front

-- No pair of a list has the key.
abbrev pub IsMissing : Slice → List KvPair → Type 0
IsMissing key ps = All (λ p. p.key ≢ key) ps

-- A predicate at the children that are in memory.
abbrev pub AllChildren : {C : Type 0} → (C → Type 0) → List (Branch C) → Type 0
AllChildren {C} P bs = All (λ b. (c : C) → b.child ≡ some c → P c) bs

module _ (fns : TreeFunctions) {C : Type 0} (pairs : C → List KvPair) where
  -- The keys below a branch are at least the branch's key, and less than the next branch's.
  abbrev pub IsFenced : List (Branch C) → Type 0
  IsFenced [] = Unit
  IsFenced (b ∷ bs) =
      All
        (λ p.
          ((Memory.is_empty b.min_key ≡ true) ⊎ Le fns b.min_key p.key) × EndsBefore fns p.key bs)
        (child_pairs pairs b.child)
      × IsFenced bs

-- The leaves of a tree are sorted, and the keys of the branches divide the keys below.
abbrev pub IsOrdered : TreeFunctions → (h : ℕ) → Tree h → Type 0
IsOrdered fns zero leaf = IsSorted fns leaf.pairs
IsOrdered fns (suc h) node =
    StartsEmpty fns node.branches
    × IsRising fns node.branches
    × IsFenced fns (tree_pairs h) node.branches
    × AllChildren (IsOrdered fns h) node.branches

module _ (fns : TreeFunctions) (lawful : IsLawful fns) where
  -- What the two bounds of a key say of a sorted leaf.
  pub range-cases :
      (key : Slice) (ps : List KvPair)
      → IsKey key
      → IsSorted fns ps
      → (IsFirstOf fns key ps (first_not_before fns key ps)
          × (first_not_before fns key ps < first_after fns key ps))
        ⊎ (IsMissing key ps × (first_not_before fns key ps ≡ first_after fns key ps))
  range-cases key [] k s = inr (tt, refl)
  range-cases key (x ∷ xs) k s = elim (Bool-cases (before fns x.key key)) [
    | inl c ↦
        let b = before-asym fns lawful x.key key s.0 k c in
        let lt = before→lt fns lawful x.key key s.0 k c in
        elim (range-cases key xs k s.2) [
          | inl (f, more) ↦ inl (
            record {
              front = x ∷ f.front;
              pair = f.pair;
              back = f.back;
              parts = ap (◌∷◌ x) f.parts;
              index = rw c (ap suc f.index);
              key_is = f.key_is;
              less = (lt, f.less);
            },
            ground (arith, c, b, more),
          )
          | inr (missing, same) ↦
              inr ((lt→ne fns lawful x.key key lt, missing), ground (arith, c, b, same))
        ]
    | inr c ↦ elim (Bool-cases (before fns key x.key)) [
      | inl b ↦
          let lt = before→lt fns lawful key x.key k s.0 b in
          inr (
            (
              gt→ne fns lawful x.key key lt,
              All-imp (λ p. Le fns x.key p.key) (λ p. p.key ≢ key)
                  (λ p le.
                    gt→ne fns lawful p.key key (lt-le_trans fns lawful key x.key p.key lt le))
                  xs s.1,
            ),
            ground (arith, c, b),
          )
      | inr b ↦ inl (
        record {
          front = [];
          pair = x;
          back = xs;
          parts = refl;
          index = rw c refl;
          key_is =
              le_antisym fns lawful x.key key (not_before→le fns lawful key x.key k s.0 b)
                (not_before→le fns lawful x.key key s.0 k c);
          less = tt;
        },
        ground (arith, c, b),
      )
    ]
  ]

  -- The first pair of a key in a part of a list is the first in the list, behind lesser keys.
  pub IsFirstOf-append :
      (key : Slice) (xs ys zs : List KvPair) (n : ℕ)
      → All (λ p. Lt fns p.key key) xs
      → IsFirstOf fns key ys n
      → IsFirstOf fns key (xs ++ (ys ++ zs)) (length xs + n)
  IsFirstOf-append key xs ys zs n less f = record {
    front = xs ++ f.front;
    pair = f.pair;
    back = f.back ++ zs;
    parts =
        ap (λ l. xs ++ (l ++ zs)) f.parts
        ∙ ap (◌++◌ xs) (append_assoc f.front (f.pair ∷ f.back) zs)
        ∙ sym (append_assoc xs f.front (f.pair ∷ (f.back ++ zs)));
    index = omega (arith, f.index, length-append xs f.front);
    key_is = f.key_is;
    less = All-append (λ p. Lt fns p.key key) xs f.front less f.less;
  }
