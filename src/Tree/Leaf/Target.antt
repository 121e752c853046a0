-- ===== src/Tree/Leaf/Target.antt =====
-- The search of leafRemove, and a leaf without the pair that it finds.
use libbruce.Base.{
  ℕ, zero, suc, ◌+◌, ◌<◌, ◌≡◌, ◌≢◌, ◌⊎◌, refl, sym, ap, ◌∙◌, subst, inl, inr, true, false,
  Bool-cases, Option, none, some, List, [], ◌∷◌, arith, get_elem?, drop, erase_at, All, tally,
}
use libbruce.Memory.{Slice, KvPair}
use libbruce.Functions.{TreeFunctions}
use libbruce.Leaf.Order.{Above, IsSorted}
use libbruce.Tree.Leaf.{is_target, find_target}

pub tally-erase_at :
    (f : KvPair → ℕ) (i : ℕ) (p : KvPair) (ps : List KvPair)
    → get_elem? ps i ≡ some p
    → f p + tally f (erase_at i ps) ≡ tally f ps
tally-erase_at f i p [] h = cc
tally-erase_at f zero p (q ∷ ps) h = omega (arith, ap f (same q p h))
  where
    same : (q p : KvPair) → some q ≡ some p → q ≡ p
    same q p h = ground (arith, h)
tally-erase_at f (suc i) p (q ∷ ps) h = omega (arith, tally-erase_at f i p ps h)

pub get_elem?-drop : (n j : ℕ) (ps : List KvPair) → get_elem? (drop n ps) j ≡ get_elem? ps (n + j)
get_elem?-drop zero j ps = ap (get_elem? ps) zero_left
  where
    zero_left : j ≡ 0 + j
    zero_left = omega arith
get_elem?-drop (suc n) j [] = refl
get_elem?-drop (suc n) j (p ∷ ps) = get_elem?-drop n j ps ∙ ap (get_elem? (p ∷ ps)) suc_left
  where
    suc_left : suc (n + j) ≡ suc n + j
    suc_left = omega arith

some-none : (i : ℕ) → some i ≡ none → ⊥
some-none i e = cc

same_pair : (q p : KvPair) → some q ≡ some p → q ≡ p
same_pair q p h = ground (arith, h)

module _ (fns : TreeFunctions) where
  erase_at-Above :
      (k : Slice) (i : ℕ) (ps : List KvPair) → Above fns k ps → Above fns k (erase_at i ps)
  erase_at-Above k i [] h = h
  erase_at-Above k zero (p ∷ ps) h = h.1
  erase_at-Above k (suc i) (p ∷ ps) h = (h.0, erase_at-Above k i ps h.1)

  pub erase_at-IsSorted :
      (i : ℕ) (ps : List KvPair) → IsSorted fns ps → IsSorted fns (erase_at i ps)
  erase_at-IsSorted i [] h = h
  erase_at-IsSorted zero (p ∷ ps) h = h.2
  erase_at-IsSorted (suc i) (p ∷ ps) h =
      (h.0, erase_at-Above p.key i ps h.1, erase_at-IsSorted i ps h.2)

  -- What a search finds, and what it passes over.
  pub find_target-ok :
      (value : Option Slice) (n i j : ℕ) (ps : List KvPair)
      → find_target fns value n i ps ≡ some j
      → (m : ℕ) × (p : KvPair) × (j ≡ i + m)
        × (m < n)
        × (get_elem? ps m ≡ some p)
        × (is_target fns value p.value ≡ true)
  unfolding find_target
  find_target-ok value zero i j ps h = cc
  find_target-ok value (suc n) i j [] h = cc
  find_target-ok value (suc n) i j (p ∷ ps) h = elim (Bool-cases (is_target fns value p.value)) [
    | inl t ↦ (0, p, at_start (sym (rw t refl) ∙ h), omega arith, refl, t)
    | inr t ↦
        let rest = find_target-ok value n (i + 1) j ps (sym (rw t refl) ∙ h) in
        (suc rest.0, rest.1, omega (arith, rest.2), omega (arith, rest.3), rest.4, rest.5)
  ]
    where
      at_start : some i ≡ some j → j ≡ i + 0
      at_start h = ground (arith, h)

  pub find_target-none :
      (value : Option Slice) (n i m : ℕ) (ps : List KvPair) (p : KvPair)
      → find_target fns value n i ps ≡ none
      → m < n
      → get_elem? ps m ≡ some p
      → is_target fns value p.value ≡ false
  unfolding find_target
  find_target-none value zero i m ps p h lt at = absurd (omega (arith, lt))
  find_target-none value (suc n) i m [] p h lt at = cc
  find_target-none value (suc n) i zero (q ∷ ps) p h lt at =
      elim (Bool-cases (is_target fns value q.value)) [
        | inl t ↦ absurd (some-none i (sym (rw t refl) ∙ h))
        | inr t ↦ subst (λ z. is_target fns value z.value ≡ false) (same_pair q p at) t
      ]
  find_target-none value (suc n) i (suc m) (q ∷ ps) p h lt at =
      elim (Bool-cases (is_target fns value q.value)) [
        | inl t ↦ absurd (some-none i (sym (rw t refl) ∙ h))
        | inr t ↦
            find_target-none value n (i + 1) m ps p (sym (rw t refl) ∙ h) (omega (arith, lt)) at
      ]

  -- No pair of the key is one to remove.
  abbrev pub NoTarget : Slice → Option Slice → List KvPair → Type 0
  NoTarget key value ps = All (λ p. (p.key ≢ key) ⊎ (is_target fns value p.value ≡ false)) ps
