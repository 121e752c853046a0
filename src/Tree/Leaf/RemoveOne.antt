-- ===== src/Tree/Leaf/RemoveOne.antt =====
-- leafRemove takes one pair of the key out of a leaf, or there is none that it is to remove.
use libbruce.Base.{
  ℕ, suc, ◌+◌, ◌-◌, ◌<◌, ◌≡◌, ◌≢◌, ◌⊎◌, refl, sym, ap, ◌∙◌, subst, inl, inr, true, false,
  Bool-cases, Option, Option-cases, none, some, List, [], ◌∷◌, arith, length, get_elem?, drop,
  erase_at, tally, Same, ok, ◌==◌, not, ◌&&◌,
}
use libbruce.Memory.{Slice, NodeId, KvPair, sub64}
use libbruce.Functions.{TreeFunctions, IsLawful, IsKey}
use libbruce.Overflow
use libbruce.Leaf
use libbruce.Leaf.{LeafNode, pair_size, first_not_before, first_after}
use libbruce.Leaf.Order.{IsSorted}
use libbruce.Leaf.Range.{in_range, range_holds}
use libbruce.Tree.Leaf.{Fetch, >>=-ok, fail, back_key, is_target, find_target, leaf_remove}
use libbruce.Tree.Leaf.Insert.{back_key-ok}
use libbruce.Tree.Split.Divide.{last_key}
use libbruce.Tree.Leaf.Target.{
  tally-erase_at, get_elem?-drop, erase_at-IsSorted, find_target-ok, find_target-none, NoTarget,
}

module _ (fns : TreeFunctions) (lawful : IsLawful fns) (fetch : Fetch) (d : ℕ) (leaf : LeafNode)
    (key : Slice) (value : Option Slice) (ids : List NodeId) where
  abbrev low : ℕ
  low = first_not_before fns key leaf.pairs

  abbrev high : ℕ
  high = first_after fns key leaf.pairs

  abbrev search : Option ℕ
  search = find_target fns value (high - low) low (drop low leaf.pairs)

  empty_step :
      (length leaf.pairs == 0) ≡ true → leaf_remove fns fetch d leaf key value ids ≡ ok (leaf, ids)
  unfolding leaf_remove
  empty_step h = rw h refl

  -- The leaf that `erase` gives at a pair.
  abbrev without : ℕ → KvPair → LeafNode
  without i p = record leaf {
    pairs = erase_at i leaf.pairs;
    elements_size = sub64 leaf.elements_size (pair_size p);
  }

  erased :
      (i : ℕ) (p : KvPair)
      → get_elem? leaf.pairs i ≡ some p
      → fail (Leaf.erase leaf i) ids ≡ ok (without i p, ids)
  unfolding Leaf.erase
  erased i p at = rw (at, fail, Leaf.erase) refl

  found_step :
      (i : ℕ) (p : KvPair)
      → (length leaf.pairs == 0) ≡ false
      → search ≡ some i
      → get_elem? leaf.pairs i ≡ some p
      → Overflow.is_empty leaf.overflow ≡ true
      → (after : LeafNode) × (leaf_remove fns fetch d leaf key value ids ≡ ok (after, ids))
        × (after.pairs ≡ erase_at i leaf.pairs)
  unfolding leaf_remove Leaf.find_range
  found_step i p some_pair found at closed =
      let stays : ((i == length (erase_at i leaf.pairs)) && not (Overflow.is_empty leaf.overflow))
          ≡ false =
        ground (arith, closed) in
      (
        without i p,
        rw some_pair (
            rw found (
              >>=-ok (fail (Leaf.erase leaf i)) _ ids ids (without i p) (erased i p at)
              ∙ rw stays refl)),
        refl,
      )

  none_step :
      (length leaf.pairs == 0) ≡ false
      → search ≡ none
      → back_key leaf.pairs ≡ ok (last_key leaf.pairs)
      → Overflow.is_empty leaf.overflow ≡ true
      → leaf_remove fns fetch d leaf key value ids ≡ ok (leaf, ids)
  unfolding leaf_remove Leaf.find_range
  none_step some_pair found last closed = rw some_pair (rw found (rw last (rw closed refl)))

  no_target :
      (ps : List KvPair)
      → ((m : ℕ) (p : KvPair)
          → get_elem? ps m ≡ some p
          → (p.key ≢ key) ⊎ (is_target fns value p.value ≡ false))
      → NoTarget fns key value ps
  no_target [] h = tt
  no_target (p ∷ ps) h = (h 0 p refl, no_target ps (λ m q e. h (suc m) q e))

  none_left :
      IsKey key → IsSorted fns leaf.pairs → search ≡ none → NoTarget fns key value leaf.pairs
  none_left k sorted found = no_target leaf.pairs (λ m p at.
      elim (Bool-cases (is_target fns value p.value)) [
        | inr t ↦ inr t
        | inl t ↦ inl (λ e.
            let range = range_holds fns lawful key leaf.pairs m p k sorted at e in
            let index : low + (m - low) ≡ m = omega (arith, range.0) in
            let inside =
              find_target-none fns value (high - low) low (m - low) (drop low leaf.pairs) p found
                (omega (arith, range.0, range.1))
                (get_elem?-drop low (m - low) leaf.pairs ∙ ap (get_elem? leaf.pairs) index ∙ at) in
            clash (sym t ∙ inside))
      ])
    where
      clash : true ≡ false → ⊥
      clash h = cc

  some_pair_of : (length leaf.pairs == 0) ≡ false → 0 < length leaf.pairs
  some_pair_of h = ground (arith, h)

  nothing_there : (ps : List KvPair) → (length ps == 0) ≡ true → NoTarget fns key value ps
  nothing_there [] h = tt
  nothing_there (p ∷ ps) h = absurd (ground (arith, h))

-- Under a lawful comparator, removing from a sorted leaf without overflow, with a non-empty key,
-- succeeds without loading a block and leaves the leaf sorted. Either the leaf held one pair more,
-- with the key and a value that is to be removed, or it is unchanged and no pair of the key has such
-- a value.
pub leaf_remove-ok :
    (fns : TreeFunctions)
    → IsLawful fns
    → (fetch : Fetch) (d : ℕ) (leaf : LeafNode) (key : Slice) (value : Option Slice)
      (ids : List NodeId)
    → IsKey key
    → IsSorted fns leaf.pairs
    → Overflow.is_empty leaf.overflow ≡ true
    → (after : LeafNode) × (leaf_remove fns fetch d leaf key value ids ≡ ok (after, ids))
      × IsSorted fns after.pairs
      × (((p : KvPair) × (p.key ≡ key)
            × (is_target fns value p.value ≡ true)
            × Same (p ∷ after.pairs) leaf.pairs)
          ⊎ ((after ≡ leaf) × NoTarget fns key value leaf.pairs))
leaf_remove-ok fns lawful fetch d leaf key value ids k sorted closed =
    elim (Bool-cases (length leaf.pairs == 0)) [
      | inl z ↦ (
        leaf,
        empty_step fns lawful fetch d leaf key value ids z,
        sorted,
        inr (refl, nothing_there fns lawful fetch d leaf key value ids leaf.pairs z),
      )
      | inr z ↦ elim (Option-cases (search fns lawful fetch d leaf key value ids)) [
        | inl n ↦ (
          leaf,
          none_step fns lawful fetch d leaf key value ids z n
              (back_key-ok leaf.pairs (ground (arith, z))) closed,
          sorted,
          inr (refl, none_left fns lawful fetch d leaf key value ids k sorted n),
        )
        | inr s ↦
            let lo = first_not_before fns key leaf.pairs in
            let hit =
              find_target-ok fns value (first_after fns key leaf.pairs - lo) lo s.0
                (drop lo leaf.pairs) s.1 in
            let at : get_elem? leaf.pairs s.0 ≡ some hit.1 =
              ap (get_elem? leaf.pairs) hit.2 ∙ sym (get_elem?-drop lo hit.0 leaf.pairs) ∙ hit.4 in
            let done = found_step fns lawful fetch d leaf key value ids s.0 hit.1 z s.1 at closed in
            (
              done.0,
              done.1,
              subst (λ ps. IsSorted fns ps) (sym done.2)
                  (erase_at-IsSorted fns s.0 leaf.pairs sorted),
              inl (
                hit.1,
                in_range fns lawful key leaf.pairs s.0 hit.1 k sorted (omega (arith, hit.2))
                    (omega (arith, hit.2, hit.3)) at,
                hit.5,
                (λ f. omega (arith, tally-erase_at f s.0 hit.1 leaf.pairs at, ap (tally f) done.2)),
              ),
            )
      ]
    ]
