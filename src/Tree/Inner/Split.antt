-- ===== src/Tree/Inner/Split.antt =====
-- maybeSplitInternal ends and keeps all branches and edits in order; it cuts off one branch at a
-- time.
use libbruce.Base.{
  ℕ, zero, suc, ◌+◌, ◌^◌, ◌≤◌, ◌<◌, ◌≡◌, refl, ap, ◌∙◌, inl, inr, true, false, Bool, Bool-cases,
  none, some, List, [], ◌∷◌, ◌++◌, append-nil, arith, length, ltb, take, drop, take-append-drop, ok,
  if◌then◌else◌,
}
use libbruce.Memory.{Slice, size, wrap32}
use libbruce.Functions.{TreeFunctions}
use libbruce.Edit.{PendingEdit, first_edit_not_before}
use libbruce.Internal
use libbruce.Internal.{Branch, InternalNode}
use libbruce.Page.Sizes.{link_size, should_split, half_up, add_branches, internal_size}
use libbruce.Tree.Inner.{
  internal_split_from, internal_split_index, inner_branch, name_first, maybe_split_internal,
}

module _ {C : Type 0} where
  -- The split index of an inner node is 1, however many branches it has and whatever their
  -- sizes, as long as the size and one branch do not pass the width of a `uint32_t`.
  pub internal_split_index-one :
      (node : InternalNode C) → internal_size node + 24 < 2 ^ 32 → internal_split_index node ≡ 1
  unfolding internal_split_index internal_split_from
  internal_split_index-one node small = from_first node.branches
    where
      from_first :
          (bs : List (Branch C))
          → internal_split_from (half_up (internal_size node)) (internal_size node) 1 bs ≡ 1
      from_first [] = refl
      from_first (b ∷ []) = refl
      from_first (b ∷ c ∷ bs) =
          let over : ltb (half_up (internal_size node)) (wrap32 (internal_size node + link_size))
              ≡ true =
            ground (arith, small) in
          rw over refl

  -- The branches and the edits of the nodes that a split gives, one after another.
  abbrev pub all_branches : List (Branch (InternalNode C)) → List (Branch C)
  all_branches [] = []
  all_branches (b ∷ bs) = elim b.child [
    | none ↦ all_branches bs
    | some node ↦ node.branches ++ all_branches bs
  ]

  abbrev pub all_edits : List (Branch (InternalNode C)) → List PendingEdit
  all_edits [] = []
  all_edits (b ∷ bs) = elim b.child [
    | none ↦ all_edits bs
    | some node ↦ node.edit_queue ++ all_edits bs
  ]

  -- The size of a node is that of its parts while it is below the width of a `uint32_t`.
  abbrev pub branches_size : Bool → List (Branch C) → ℕ
  branches_size first [] = 0
  branches_size first (b ∷ bs) = (if first then 0 else size b.min_key) + 24 + branches_size false bs

  add_branches-size :
      (acc : ℕ) (first : Bool) (bs : List (Branch C))
      → acc + branches_size first bs < 2 ^ 32
      → add_branches acc first bs ≡ acc + branches_size first bs
  unfolding add_branches
  add_branches-size acc first [] h = omega arith
  add_branches-size acc true (b ∷ bs) h =
      let low : wrap32 (acc + 24) ≡ acc + 24 = omega (arith, h) in
      rw low (omega (arith, add_branches-size (acc + 24) false bs (omega (arith, h))))
  add_branches-size acc false (b ∷ bs) h =
      let low : wrap32 (acc + size b.min_key) ≡ acc + size b.min_key = omega (arith, h) in
      let low' : wrap32 (acc + size b.min_key + 24) ≡ acc + size b.min_key + 24 =
        omega (arith, h) in
      rw low (
        rw low' (
          omega (arith, add_branches-size (acc + size b.min_key + 24) false bs (omega (arith, h)))))

  internal_size-sum :
      (node : InternalNode C)
      → 10 + branches_size true node.branches < 2 ^ 32
      → internal_size node ≡ 10 + branches_size true node.branches
  unfolding internal_size
  internal_size-sum node h = add_branches-size 10 true node.branches h

  rest_smaller :
      (b : Branch C) (bs : List (Branch C))
      → branches_size true bs + 24 ≤ branches_size true (b ∷ bs)
  rest_smaller b [] = omega arith
  rest_smaller b (c ∷ bs) = omega arith

  name_first-same :
      (key : Slice) (bs : List (Branch (InternalNode C)))
      → (all_branches (name_first key bs) ≡ all_branches bs)
        × (all_edits (name_first key bs) ≡ all_edits bs)
  name_first-same key [] = (refl, refl)
  name_first-same key (b ∷ bs) = (refl, refl)

  -- What a split of an inner node promises.
  pub record IsParted (fns : TreeFunctions) (room : ℕ) (node : InternalNode C)
      (bs : List (Branch (InternalNode C))) : Type 0 where
    pub result : (n : ℕ) → length node.branches < n → maybe_split_internal fns n room node ≡ ok bs
    pub branches : all_branches bs ≡ node.branches
    pub edits : all_edits bs ≡ node.edit_queue

  whole-IsParted :
      (fns : TreeFunctions) (room : ℕ) (node : InternalNode C)
      → should_split room (internal_size node) ≡ false
      → IsParted fns room node (inner_branch [] node ∷ [])
  unfolding maybe_split_internal
  whole-IsParted fns room node b = record {
    result = result;
    branches = append-nil node.branches;
    edits = append-nil node.edit_queue;
  }
    where
      result :
          (n : ℕ)
          → length node.branches < n
          → maybe_split_internal fns n room node ≡ ok (inner_branch [] node ∷ [])
      result zero h = absurd (omega (arith, h))
      result (suc n) h = rw b refl

module _ {C : Type 0} (fns : TreeFunctions) where
  -- The right node of a split after the branch `b`.
  abbrev pub key_after : List (Branch C) → Slice
  key_after bs = Internal.min_key (record { branches = bs; edit_queue = [] })

  part_step :
      (n room : ℕ) (b : Branch C) (bs : List (Branch C)) (queue : List PendingEdit)
      (split : List (Branch (InternalNode C)))
      → should_split room (internal_size (record { branches = b ∷ bs; edit_queue = queue })) ≡ true
      → internal_split_index (record { branches = b ∷ bs; edit_queue = queue }) ≡ 1
      → maybe_split_internal fns n room (record {
        branches = bs;
        edit_queue = drop (first_edit_not_before fns (key_after bs) queue) queue;
      })
        ≡ ok split
      → maybe_split_internal fns (suc n) room (record { branches = b ∷ bs; edit_queue = queue })
        ≡ ok (
            inner_branch [] (record {
              branches = b ∷ [];
              edit_queue = take (first_edit_not_before fns (key_after bs) queue) queue;
            })
            ∷ name_first (key_after bs) split)
  unfolding maybe_split_internal Internal.min_key
  part_step n room b bs queue split t one rest = rw t (rw one (rw rest refl))

  empty_fits :
      (room : ℕ) (node : InternalNode C)
      → internal_size node ≡ 10
      → 10 ≤ room
      → should_split room (internal_size node) ≡ false
  unfolding should_split
  empty_fits room node e h = rw e (ground (arith, h))

  step :
      (room : ℕ) (b : Branch C) (bs : List (Branch C)) (queue : List PendingEdit)
      (split : List (Branch (InternalNode C)))
      → should_split room (internal_size (record { branches = b ∷ bs; edit_queue = queue })) ≡ true
      → internal_split_index (record { branches = b ∷ bs; edit_queue = queue }) ≡ 1
      → ((n : ℕ)
          → length bs < n
          → maybe_split_internal fns n room (record {
            branches = bs;
            edit_queue = drop (first_edit_not_before fns (key_after bs) queue) queue;
          })
            ≡ ok split)
      → (n : ℕ) → length (b ∷ bs) < n
      → maybe_split_internal fns n room (record { branches = b ∷ bs; edit_queue = queue })
        ≡ ok (
            inner_branch [] (record {
              branches = b ∷ [];
              edit_queue = take (first_edit_not_before fns (key_after bs) queue) queue;
            })
            ∷ name_first (key_after bs) split)
  step room b bs queue split t one rest zero h = absurd (omega (arith, h))
  step room b bs queue split t one rest (suc n) h =
      part_step n room b bs queue split t one (rest n (omega (arith, h)))

  -- For an inner node whose size is below the width of a `uint32_t`, in blocks with room for a
  -- node without branches, there is a list of branches that `maybe_split_internal` gives with every
  -- fuel above the number of branches: their nodes hold the branches and the edits in order.
  pub maybe_split_internal-IsParted :
      (room : ℕ) (bs : List (Branch C)) (queue : List PendingEdit)
      → 10 ≤ room
      → 34 + branches_size true bs < 2 ^ 32
      → (split : List (Branch (InternalNode C))) × IsParted fns room
          (record { branches = bs; edit_queue = queue })
          split
  maybe_split_internal-IsParted room [] queue enough small = (
    inner_branch [] (record { branches = []; edit_queue = queue }) ∷ [],
    whole-IsParted fns room (record { branches = []; edit_queue = queue })
        (empty_fits room (record { branches = []; edit_queue = queue })
          (internal_size-sum (record { branches = []; edit_queue = queue }) (omega arith)) enough),
  )
  maybe_split_internal-IsParted room (b ∷ bs) queue enough small =
      elim (Bool-cases
        (should_split room (internal_size (record { branches = b ∷ bs; edit_queue = queue })))) [
          | inr t ↦ (
            inner_branch [] (record { branches = b ∷ bs; edit_queue = queue }) ∷ [],
            whole-IsParted fns room (record { branches = b ∷ bs; edit_queue = queue }) t,
          )
          | inl t ↦
              let e = first_edit_not_before fns (key_after bs) queue in
              let rest =
                maybe_split_internal-IsParted room bs (drop e queue) enough
                  (omega (arith, small, rest_smaller b bs)) in
              let one =
                internal_split_index-one (record { branches = b ∷ bs; edit_queue = queue })
                  (omega (
                    arith,
                    internal_size-sum (record { branches = b ∷ bs; edit_queue = queue })
                        (omega (arith, small)),
                    small,
                  )) in
              let named = name_first-same (key_after bs) rest.0 in
              (
                inner_branch [] (record { branches = b ∷ []; edit_queue = take e queue })
                    ∷ name_first (key_after bs) rest.0,
                record {
                  result = step room b bs queue rest.0 t one rest.1.result;
                  branches = ap (◌∷◌ b) (named.0 ∙ rest.1.branches);
                  edits =
                      ap (◌++◌ (take e queue)) (named.1 ∙ rest.1.edits) ∙ take-append-drop e queue;
                },
              )
        ]

-- Splitting an inner node whose size is below the width of a `uint32_t`, in blocks with room for a
-- node without branches, ends with every fuel above the number of branches. The nodes of the
-- result hold the branches and the edits of the node, in order.
pub maybe_split_internal-ok :
    {C : Type 0} (fns : TreeFunctions) (room : ℕ) (node : InternalNode C)
    → 10 ≤ room
    → 34 + branches_size true node.branches < 2 ^ 32
    → (n : ℕ) → length node.branches < n
    → (split : List (Branch (InternalNode C))) × (maybe_split_internal fns n room node ≡ ok split)
      × (all_branches split ≡ node.branches)
      × (all_edits split ≡ node.edit_queue)
maybe_split_internal-ok fns room node enough small n h =
    let split = maybe_split_internal-IsParted fns room node.branches node.edit_queue enough small in
    (split.0, split.1.result n h, split.1.branches, split.1.edits)
