-- ===== src/Tree/Inner/Partition.antt =====
-- maybeApplyEdits gives every waiting edit to one branch.
use libbruce.Base.{
  ℕ, zero, suc, ◌+◌, ◌-◌, ◌<◌, ◌≤◌, ◌≡◌, refl, sym, ap, ◌∙◌, subst, ◌++◌, [], ◌∷◌, List, none, some,
  get_elem?, true, Bool-cases, Option-cases, inl, inr, ltb, length, take, drop, arith, append-nil,
  take-append-drop, drop-add, length-drop,
}
use libbruce.Functions.{TreeFunctions, IsLawful, IsKey, Lt, before}
use libbruce.Edit.{PendingEdit, first_edit_not_before}
use libbruce.Memory.{Slice}
use libbruce.Internal.{Branch, InternalNode}
use libbruce.Internal.Search.{IsRising}
use libbruce.Tree.Inner.{edit_range}
use libbruce.Tree.Inner.Ranges.{later-IsKey, add_one, out_of_bounds}

-- The edits that `applyEditsToBranch` gives the branches from `i` on, of which there are `m`.
abbrev pub edit_slices : {C : Type 0} → TreeFunctions → InternalNode C → ℕ → ℕ → List PendingEdit
edit_slices fns node zero i = []
edit_slices fns node (suc m) i =
    let range = edit_range fns node i in
    take (range.1 - range.0) (drop range.0 node.edit_queue) ++ edit_slices fns node m (i + 1)

get_elem?-past : {A : Type 0} (xs : List A) (n : ℕ) → length xs ≤ n → get_elem? xs n ≡ none
get_elem?-past [] n h = refl
get_elem?-past (x ∷ xs) zero h = absurd (omega (arith, h))
get_elem?-past (x ∷ xs) (suc n) h = get_elem?-past xs n (omega (arith, h))

take_all : {A : Type 0} (n : ℕ) (xs : List A) → length xs ≤ n → take n xs ≡ xs
take_all zero [] h = refl
take_all zero (x ∷ xs) h = absurd (omega (arith, h))
take_all (suc n) [] h = refl
take_all (suc n) (x ∷ xs) h = ap (◌∷◌ x) (take_all n xs (omega (arith, h)))

rejoin :
    {A : Type 0} (s e : ℕ) (xs : List A) → s ≤ e → take (e - s) (drop s xs) ++ drop e xs ≡ drop s xs
rejoin s e xs h =
    let sum : s + (e - s) ≡ e = omega (arith, h) in
    ap (◌++◌ (take (e - s) (drop s xs))) (ap (λ n. drop n xs) (sym sum) ∙ drop-add s (e - s) xs)
    ∙ take-append-drop (e - s) (drop s xs)

module _ (fns : TreeFunctions) (lawful : IsLawful fns) where
  before_trans :
      (e a b : Slice)
      → IsKey a
      → IsKey b
      → Lt fns a b
      → before fns e a ≡ true
      → before fns e b ≡ true
  unfolding before
  before_trans e a b ka kb lt h = ground (arith, h, lt, lawful.lt_trans e a b)

  -- The lower bound of a greater key is not before that of a lesser one.
  bound_le :
      (a b : Slice) (queue : List PendingEdit)
      → IsKey a
      → IsKey b
      → Lt fns a b
      → first_edit_not_before fns a queue ≤ first_edit_not_before fns b queue
  bound_le a b [] ka kb lt = omega arith
  bound_le a b (e ∷ queue) ka kb lt = elim (Bool-cases (before fns e.key a)) [
    | inl t ↦
        let u = before_trans e.key a b ka kb lt t in
        let rest = bound_le a b queue ka kb lt in rw t (rw u (omega (arith, rest)))
    | inr t ↦ rw t (omega arith)
  ]

  module _ {C : Type 0} where
    rising_at :
        (bs : List (Branch C)) (c d : Branch C) (i : ℕ)
        → IsRising fns bs
        → IsKey c.min_key
        → get_elem? bs i ≡ some c
        → get_elem? bs (suc i) ≡ some d
        → Lt fns c.min_key d.min_key
    rising_at [] c d i r k hc hd = cc
    rising_at (b ∷ []) c d i r k hc hd = absurd (empty_get i hd)
      where
        empty_get : (i : ℕ) → get_elem? {A = Branch C} [] i ≡ some d → ⊥
        empty_get i h = cc
    rising_at (b ∷ e ∷ bs) c d zero r k hc hd =
        subst (λ x. Lt fns c.min_key x.min_key) (same e d hd)
          (subst (λ x. Lt fns x.min_key e.min_key) (same b c hc)
            (r.0.0.1 (subst (λ x. IsKey x.min_key) (sym (same b c hc)) k)))
      where
        same : (x y : Branch C) → some x ≡ some y → x ≡ y
        same x y h = cc
    rising_at (b ∷ e ∷ bs) c d (suc i) r k hc hd = rising_at (e ∷ bs) c d i r.1 k hc hd

    module _ (b : Branch C) (bs : List (Branch C)) (queue : List PendingEdit)
        (rising : IsRising fns (b ∷ bs)) where
      abbrev node : InternalNode C
      node = record { branches = b ∷ bs; edit_queue = queue }

      -- Where a range ends, the next one begins, and no range ends before it begins.
      next_range :
          (i : ℕ)
          → suc i < length (b ∷ bs)
          → ((edit_range fns node i).1 ≡ (edit_range fns node (i + 1)).0)
            × ((edit_range fns node i).0 ≤ (edit_range fns node i).1)
      unfolding edit_range
      next_range i less = elim (Option-cases (get_elem? bs i)) [
        | inl out ↦ absurd (out_of_bounds bs i (omega (arith, less)) out)
        | inr (d, at) ↦
            let here : get_elem? (b ∷ bs) (i + 1) ≡ some d =
              ap (get_elem? (b ∷ bs)) (add_one i) ∙ at in
            let positive : ltb 0 (i + 1) ≡ true = ground arith in
            (rw (here, edit_range) (rw positive refl), rw (here, edit_range) (starts_before i d at))
      ]
        where
          starts_before :
              (j : ℕ) (d : Branch C)
              → get_elem? bs j ≡ some d
              → (edit_range fns node j).0 ≤ first_edit_not_before fns d.min_key queue
          starts_before zero d at = omega arith
          starts_before (suc j) d at = elim (Option-cases (get_elem? bs j)) [
            | inl out ↦ rw (out, edit_range) (omega arith)
            | inr (c, prior) ↦
                let positive : ltb 0 (suc j) ≡ true = ground arith in
                let kc = later-IsKey fns b c bs j rising prior in
                rw (prior, edit_range)
                  (rw positive (
                    bound_le c.min_key d.min_key queue kc (later-IsKey fns b d bs (suc j) rising at)
                      (rising_at bs c d j rising.1 kc prior at)))
          ]

      -- The last range goes on to the end.
      last_range : (i : ℕ) → i + 1 ≡ length (b ∷ bs) → (edit_range fns node i).1 ≡ length queue
      unfolding edit_range
      last_range i e =
          let out : get_elem? (b ∷ bs) (i + 1) ≡ none =
            get_elem?-past (b ∷ bs) (i + 1) (omega (arith, e)) in
          rw (out, edit_range) refl

      pub slices_from :
          (m i : ℕ)
          → i + suc m ≡ length (b ∷ bs)
          → edit_slices fns node (suc m) i ≡ drop (edit_range fns node i).0 queue
      slices_from zero i e =
          let start = (edit_range fns node i).0 in
          append-nil (take ((edit_range fns node i).1 - start) (drop start queue))
          ∙ take_all ((edit_range fns node i).1 - start) (drop start queue)
              (omega (arith, last_range i e, length-drop start queue))
      slices_from (suc m) i e =
          let next = next_range i (omega (arith, e)) in
          ap
            (◌++◌ (
              take ((edit_range fns node i).1 - (edit_range fns node i).0)
                (drop (edit_range fns node i).0 queue)))
            (slices_from m (i + 1) (omega (arith, e)) ∙ ap (λ n. drop n queue) (sym next.0))
          ∙ rejoin (edit_range fns node i).0 (edit_range fns node i).1 queue next.1

first_zero :
    {C : Type 0} (fns : TreeFunctions) (b : Branch C) (bs : List (Branch C))
    (queue : List PendingEdit)
    → (edit_range fns (record { branches = b ∷ bs; edit_queue = queue }) 0).0 ≡ 0
unfolding edit_range
first_zero fns b bs queue = refl

-- Under a lawful comparator, in a node with rising branch keys, the edits that applyEditsToBranch
-- gives to the branches, one branch after another, are the whole queue in its order.
pub edit_slices-whole :
    {C : Type 0} (fns : TreeFunctions)
    → IsLawful fns
    → (node : InternalNode C) → IsRising fns node.branches
    → 0 < length node.branches
    → edit_slices fns node (length node.branches) 0 ≡ node.edit_queue
edit_slices-whole {C} fns lawful node rising some_branch =
    by_branches node.branches rising some_branch
  where
    by_branches :
        (bs : List (Branch C))
        → IsRising fns bs
        → 0 < length bs
        → edit_slices fns (record node { branches = bs }) (length bs) 0 ≡ node.edit_queue
    by_branches [] r h = absurd (omega (arith, h))
    by_branches (b ∷ bs) r h =
        slices_from fns lawful b bs node.edit_queue r (length bs) 0 (omega arith)
        ∙ ap (λ n. drop n node.edit_queue) (first_zero fns b bs node.edit_queue)
