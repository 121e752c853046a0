-- ===== src/Leaf/Sizes.antt =====
-- The byte count that a leaf keeps beside its pairs.
use libbruce.Base.{
  ℕ, zero, suc, ◌+◌, ◌≡◌, refl, some, List, [], ◌∷◌, ◌++◌, arith, get_elem?, insert_at, erase_at,
  set_at, ok, Option-cases, inl, inr,
}
use libbruce.Memory.{Slice, KvPair, wrap64}
use libbruce.Functions.{TreeFunctions}
use libbruce.Leaf.{
  LeafNode, pair_size, calc_size, make_leaf, first_after, insert, erase, update_value,
}

-- The bytes of all keys and values.
abbrev pub total : List KvPair → ℕ
total [] = 0
total (p ∷ ps) = pair_size p + total ps

-- `m_elementsSize` is the size of the pairs, as a `size_t`.
abbrev pub IsSized : LeafNode → Type 0
IsSized leaf = leaf.elements_size ≡ wrap64 (total leaf.pairs)

pub total-append : (ps qs : List KvPair) → total (ps ++ qs) ≡ total ps + total qs
total-append [] qs = omega arith
total-append (p ∷ ps) qs = omega (arith, total-append ps qs)

total-insert_at :
    (i : ℕ) (p : KvPair) (ps : List KvPair) → total (insert_at i p ps) ≡ pair_size p + total ps
total-insert_at zero p ps = refl
total-insert_at (suc i) p [] = refl
total-insert_at (suc i) p (q ∷ ps) = omega (arith, total-insert_at i p ps)

total-erase_at :
    (i : ℕ) (p : KvPair) (ps : List KvPair)
    → get_elem? ps i ≡ some p
    → total (erase_at i ps) + pair_size p ≡ total ps
total-erase_at i p [] h = cc
total-erase_at zero p (q ∷ ps) h = ground arith
total-erase_at (suc i) p (q ∷ ps) h = omega (arith, total-erase_at i p ps h)

total-set_at :
    (i : ℕ) (p q : KvPair) (ps : List KvPair)
    → get_elem? ps i ≡ some p
    → total (set_at i q ps) + pair_size p ≡ total ps + pair_size q
total-set_at i p q [] h = cc
total-set_at zero p q (x ∷ ps) h = ground arith
total-set_at (suc i) p q (x ∷ ps) h = omega (arith, total-set_at i p q ps h)

calc_size-total : (acc : ℕ) (ps : List KvPair) → wrap64 (calc_size acc ps) ≡ wrap64 (acc + total ps)
unfolding calc_size
calc_size-total acc [] = omega arith
calc_size-total acc (p ∷ ps) = omega (arith, calc_size-total (wrap64 (acc + pair_size p)) ps)

calc_size-wrap64 :
    (acc : ℕ) (ps : List KvPair) → acc ≡ wrap64 acc → calc_size acc ps ≡ wrap64 (calc_size acc ps)
unfolding calc_size
calc_size-wrap64 acc [] h = h
calc_size-wrap64 acc (p ∷ ps) h = calc_size-wrap64 (wrap64 (acc + pair_size p)) ps (omega arith)

pub make_leaf-IsSized : (ps : List KvPair) → IsSized (make_leaf ps)
unfolding make_leaf
make_leaf-IsSized ps = omega (arith, calc_size-total 0 ps, calc_size-wrap64 0 ps (omega arith))

pub insert-IsSized :
    (fns : TreeFunctions) (leaf : LeafNode) (p : KvPair)
    → IsSized leaf
    → IsSized (insert fns leaf p)
unfolding insert
insert-IsSized fns leaf p h =
    omega (arith, total-insert_at (first_after fns p.key leaf.pairs) p leaf.pairs)

pub erase-IsSized :
    (leaf leaf' : LeafNode) (i : ℕ) → IsSized leaf → erase leaf i ≡ ok leaf' → IsSized leaf'
unfolding erase
erase-IsSized leaf leaf' i h e = elim (Option-cases (get_elem? leaf.pairs i)) [
  | inl absent ↦ ground arith
  | inr (p, found) ↦ ground (arith, total-erase_at i p leaf.pairs found)
]

pub update_value-IsSized :
    (leaf leaf' : LeafNode) (i : ℕ) (value : Slice)
    → IsSized leaf
    → update_value leaf i value ≡ ok leaf'
    → IsSized leaf'
unfolding update_value
update_value-IsSized leaf leaf' i value h e = elim (Option-cases (get_elem? leaf.pairs i)) [
  | inl absent ↦ ground arith
  | inr (p, found) ↦ ground (arith, total-set_at i p (record p { value = value }) leaf.pairs found)
]
