-- ===== src/Tree/Flush/Fits.antt =====
-- A flush leaves a tree whose nodes all fit in their blocks as it is.
use libbruce.Base.{
  ℕ, zero, suc, ◌+◌, ◌<◌, ◌≡◌, refl, sym, ap, ap₂, ◌∙◌, subst, ◌++◌, [], ◌∷◌, List, none, some,
  false, Option-cases, inl, inr, ok, length, All, arith, take, drop, ◌==◌, append_assoc,
  length-append, Bool-cases,
}
use libbruce.Memory.{NodeId}
use libbruce.Functions.{TreeFunctions}
use libbruce.Overflow.{Overflow, absent, present}
use libbruce.Internal.{Branch, InternalNode}
use libbruce.Page.Sizes.{
  should_split, leaf_size, overflow_size, internal_size, should_apply_edit_queue,
}
use libbruce.Tree.Split.{push_down, maybe_split_leaf, leaf_branch}
use libbruce.Tree.Inner.{capacity, maybe_split_internal, update_branch, inner_branch}
use libbruce.Tree.Leaf.{Fetch, Loads, >>=-ok, fail}
use libbruce.Tree.Nodes.{Tree, tree_ops}
use libbruce.Tree.Find.Visit.{get_elem?-middle}
use libbruce.Tree.Flush.{
  Sizes, maybe_apply_edits, flush_children, flush_overflow, flush_and_split_rec, grow_root,
  flush_root,
}

-- A branch whose child, if it is in memory, has items, is counted, and is as `P` says.
abbrev pub IsFitting : {C : Type 0} → (C → ℕ) → (C → Type 0) → Branch C → Type 0
IsFitting count P b = elim b.child [
  | none ↦ Unit
  | some c ↦ (b.item_count ≡ count c) × (0 < b.item_count) × P c
]

abbrev pub FitsOverflow : ℕ → Overflow → Type 0
FitsOverflow block_size (absent c id) = Unit
FitsOverflow block_size (present c id values next) =
    should_split block_size (overflow_size values) ≡ false

module _ (fns : TreeFunctions) (fetch : Fetch) (n : ℕ) (sizes : Sizes) where
  -- A tree none of whose nodes in memory is split, emptied or has a queue to apply, and whose
  -- children in memory are counted.
  abbrev pub Fits : (h : ℕ) → Tree h → Type 0
  Fits zero leaf =
      FitsOverflow sizes.block_size leaf.overflow
      × (should_split sizes.block_size (leaf_size leaf) ≡ false)
  Fits (suc h) node =
      (should_apply_edit_queue sizes.queue_size node.edit_queue ≡ false)
      × (should_split (capacity sizes.block_size sizes.queue_size) (internal_size node) ≡ false)
      × All (IsFitting ((tree_ops fns fetch (suc n) h).item_count) (Fits h)) node.branches

  -- The one branch that the flush of such a tree gives.
  abbrev pub sole : (h : ℕ) → Tree h → Branch (Tree h)
  sole zero leaf = leaf_branch [] leaf
  sole (suc h) node = inner_branch [] node

  flush_overflow-Fits :
      (o : Overflow)
      → FitsOverflow sizes.block_size o
      → flush_overflow (suc n) sizes.block_size o ≡ ok o
  unfolding flush_overflow push_down
  flush_overflow-Fits (absent c id) fits = refl
  flush_overflow-Fits (present c id values next) fits = elim (Bool-cases (c == 0)) [
    | inl z ↦ rw z refl
    | inr z ↦ rw z (rw fits refl)
  ]

  take-front : {A : Type 0} (xs ys : List A) → take (length xs) (xs ++ ys) ≡ xs
  take-front [] ys = refl
  take-front (x ∷ xs) ys = ap (◌∷◌ x) (take-front xs ys)

  drop-behind :
      {A : Type 0} (xs : List A) (y : A) (ys : List A) → drop (length xs + 1) (xs ++ y ∷ ys) ≡ ys
  drop-behind [] y ys = refl
  drop-behind (x ∷ xs) y ys =
      let one_on : suc (length xs) + 1 ≡ suc (length xs + 1) = omega arith in
      ap (λ k. drop k (x ∷ (xs ++ y ∷ ys))) one_on ∙ drop-behind xs y ys

  -- The node whose branches stand in two parts.
  abbrev at : {C : Type 0} → InternalNode C → List (Branch C) → InternalNode C
  at node bs = record node { branches = bs }

  -- The branch of a child that comes back whole.
  update_branch-same :
      {C : Type 0} (node : InternalNode C) (xs ys : List (Branch C)) (b left : Branch C)
      → left.child ≡ b.child
      → left.item_count ≡ b.item_count
      → 0 < b.item_count
      → update_branch (at node (xs ++ b ∷ ys)) (length xs) (left ∷ [])
        ≡ ok (at node (xs ++ b ∷ ys), length xs + 1)
  unfolding update_branch
  update_branch-same {C} node xs ys b left child count filled =
      let some_items : (left.item_count == 0) ≡ false = ground (arith, filled, count) in
      let same : record b { child = left.child; item_count = left.item_count } ≡ b =
        ap₂ (λ c n. record b { child = c; item_count = n }) child count in
      let index : length xs + 1 + 0 ≡ length xs + 1 = omega arith in
      rw (get_elem?-middle xs b ys, update_branch)
        (rw some_items (
          ap₂ (λ bs i. ok (at node bs, i))
            (ap₂ (λ zs ws. zs ++ record b { child = left.child; item_count = left.item_count } ∷ ws)
                (take-front xs (b ∷ ys)) (drop-behind xs b ys)
              ∙ ap (λ x. xs ++ x ∷ ys) same)
            index))

  module _ {C : Type 0} (flush : C → Loads (List (Branch C))) (count : C → ℕ) (P : C → Type 0)
      (whole : (c : C) → Branch C) (whole_child : (c : C) → (whole c).child ≡ some c)
      (whole_count : (c : C) → (whole c).item_count ≡ count c)
      (flushed : (c : C) → P c → (ids : List NodeId) → flush c ids ≡ ok (whole c ∷ [], ids)) where
    -- One step of the loop, over a branch.
    flush_children-step :
        (node : InternalNode C) (xs ys : List (Branch C)) (b : Branch C) (m : ℕ) (ids : List NodeId)
        → IsFitting count P b
        → flush_children flush (suc m) (length xs) (at node (xs ++ b ∷ ys)) ids
          ≡ flush_children flush m (length xs + 1) (at node (xs ++ b ∷ ys)) ids
    unfolding flush_children
    flush_children-step node xs ys b m ids fits =
        rw (get_elem?-middle xs b ys, flush_children)
          (elim (Option-cases b.child) [
            | inl missing ↦ simp missing refl
            | inr (c, held) ↦
                let good : (b.item_count ≡ count c) × (0 < b.item_count) × P c =
                  subst
                    (λ o. elim o [
                      | none ↦ Unit
                      | some d ↦ (b.item_count ≡ count d) × (0 < b.item_count) × P d
                    ])
                    held fits in
                simp held (
                  >>=-ok (flush c) _ ids ids (whole c ∷ []) (flushed c good.2 ids)
                  ∙ >>=-ok
                      (fail (update_branch (at node (xs ++ b ∷ ys)) (length xs) (whole c ∷ []))) _
                      ids ids (at node (xs ++ b ∷ ys), length xs + 1)
                      (ap (λ r. fail r ids)
                        (update_branch-same node xs ys b (whole c) (whole_child c ∙ sym held)
                          (whole_count c ∙ sym good.0) good.1)))
          ])

    flush_children-Fits :
        (node : InternalNode C) (xs ys : List (Branch C)) (ids : List NodeId)
        → All (IsFitting count P) ys
        → flush_children flush (length ys) (length xs) (at node (xs ++ ys)) ids
          ≡ ok (at node (xs ++ ys), ids)
    unfolding flush_children
    flush_children-Fits node xs [] ids fits = refl
    flush_children-Fits node xs (b ∷ ys) ids (here, fits) =
        let next = flush_children-Fits node (xs ++ b ∷ []) ys ids fits in
        let parts = append_assoc xs (b ∷ []) ys in
        flush_children-step node xs ys b (length ys) ids here
        ∙ ap₂ (λ i zs. flush_children flush (length ys) i (at node zs) ids)
            (sym (length-append xs (b ∷ []))) (sym parts)
        ∙ next
        ∙ ap (λ zs. ok (at node zs, ids)) parts

  sole-child : (h : ℕ) (tree : Tree h) → (sole h tree).child ≡ some tree
  sole-child zero leaf = refl
  sole-child (suc h) node = refl

  sole-count :
      (h : ℕ) (tree : Tree h)
      → (sole h tree).item_count ≡ (tree_ops fns fetch (suc n) h).item_count tree
  sole-count zero leaf = refl
  sole-count (suc h) node = refl

  flush_and_split_rec-Fits :
      (h : ℕ) (tree : Tree h)
      → Fits h tree
      → (ids : List NodeId)
      → flush_and_split_rec fns fetch (suc n) sizes h tree ids ≡ ok (sole h tree ∷ [], ids)
  unfolding flush_and_split_rec maybe_split_leaf maybe_split_internal maybe_apply_edits
  flush_and_split_rec-Fits zero leaf (chain, room) ids =
      >>=-ok (fail (flush_overflow (suc n) sizes.block_size leaf.overflow)) _ ids ids leaf.overflow
        (ap (λ r. fail r ids) (flush_overflow-Fits leaf.overflow chain))
      ∙ rw room refl
  flush_and_split_rec-Fits (suc h) node (idle, room, fits) ids = rw idle (
      >>=-ok
        (flush_children (flush_and_split_rec fns fetch (suc n) sizes h) (length node.branches) 0
          node)
        _ ids ids node
        (flush_children-Fits (flush_and_split_rec fns fetch (suc n) sizes h)
          ((tree_ops fns fetch (suc n) h).item_count) (Fits h) (sole h) (sole-child h)
          (sole-count h) (flush_and_split_rec-Fits h) node [] node.branches ids fits)
      ∙ rw room refl)

  -- A flush of such a tree ends, loads no block, and leaves the tree as it is.
  pub flush_root-Fits :
      (h : ℕ) (tree : Tree h)
      → Fits h tree
      → (ids : List NodeId) → flush_root fns fetch (suc n) sizes h tree ids ≡ ok ((h, tree), ids)
  unfolding flush_root grow_root
  flush_root-Fits h tree fits ids =
      >>=-ok (flush_and_split_rec fns fetch (suc n) sizes h tree) _ ids ids (sole h tree ∷ [])
        (flush_and_split_rec-Fits h tree fits ids)
      ∙ rw (sole-child h tree, grow_root) refl
