-- ===== src/Tree/Find/Seek.antt =====
-- seek finds the pair at its rank.
use libbruce.Base.{
  append-nil, ℕ, zero, suc, ◌+◌, ◌-◌, ◌^◌, ◌<◌, ◌≤◌, ◌≡◌, ◌⊎◌, refl, sym, ap, ◌∙◌, subst, ◌++◌, [],
  ◌∷◌, List, Option, none, some, true, false, Bool-cases, inl, inr, ok, ltb, ltb→lt, length, All,
  arith, append_assoc, length-append,
}
use libbruce.Memory.{KvPair, wrap32, NodeId}
use libbruce.Functions.{TreeFunctions}
use libbruce.Internal.{Branch}
use libbruce.Tree.Leaf.{Fetch, Loads, >>=-ok}
use libbruce.Tree.Nodes.{Tree, NodeOps, Depth, child_at, tree_ops}
use libbruce.Tree.Pending.{Bounds, bounds_of, apply_pending_edits, pending_rank_delta}
use libbruce.Tree.Find.{TreePath, fork, count_at, seek_branches, seek_leaf, seek_rec}
use libbruce.Tree.Find.Quiet.{
  quiet, tree_pairs, IsQuiet, IsHeld, Passes, Reaches, branch_pairs, branch_pairs-append,
}
use libbruce.Tree.Find.Visit.{
  get_elem?-middle, child_at-held, pending_rank_delta-quiet, apply_pending_edits-quiet,
  put_child-same, item_count-tree,
}

-- What a search for the `n`-th pair of `total` gives: a path to it, or none past the end. The node
-- and the loaded ids stay as they are.
abbrev pub Sought :
    {C : Type 0} → (TreePath → ℕ → Type 0) → C → ℕ → ℕ → ℕ → Loads (Option TreePath × C) → Type 0
Sought R c total rank n search =
    ((n < total)
      × ((path : TreePath) × ((ids : List NodeId) → search ids ≡ ok ((some path, c), ids))
          × R path rank))
    ⊎ ((total ≤ n) × ((ids : List NodeId) → search ids ≡ ok ((none, c), ids)))

module _ {C : Type 0} (fns : TreeFunctions) (ops : NodeOps C) (pairs : C → List KvPair)
    (P : C → Type 0) (R : C → TreePath → ℕ → Type 0)
    (seek_child : C → Bounds → ℕ → Loads (Option TreePath × C))
    (item_count-ok : (c : C)
      → P c
      → length (pairs c) < 2 ^ 32
      → ops.item_count c ≡ length (pairs c))
    (seek_child-ok : (c : C)
      → P c
      → length (pairs c) < 2 ^ 32
      → (at : Bounds) (n : ℕ) → Sought (R c) c (length (pairs c)) n n (seek_child c at n)) where
  abbrev pub Through : List (Branch C) → TreePath → ℕ → Type 0
  Through bs [] n = ⊥
  Through bs (f ∷ path) n = Passes pairs R bs f.index path n

  abbrev Goal : List (Branch C) → ℕ → ℕ → ℕ → ℕ → ℕ → Bounds → Type 0
  Goal all i m total rank n at =
      Sought (Through all) (quiet all) total rank n
        (seek_branches fns ops seek_child m i (quiet all) at n)

  module _ (xs ys : List (Branch C)) (b : Branch C) (h : IsHeld pairs P b) (at : Bounds) (n : ℕ)
      (small : length (pairs h.node) < 2 ^ 32) where
    abbrev all : List (Branch C)
    all = xs ++ b ∷ ys

    abbrev here : Bounds
    here = bounds_of at (quiet all) (length xs)

    counted : b.item_count ≡ ops.item_count h.node
    counted = h.counted ∙ sym (item_count-ok h.node h.good small)

    count_here : wrap32 (count_at (quiet all) (length xs) + 0) ≡ length (pairs h.node)
    unfolding count_at
    count_here = rw (get_elem?-middle xs b ys, count_at) (omega (arith, h.counted, small))

    -- The step past a branch that has fewer pairs.
    past :
        length (pairs h.node) ≤ n
        → (ids : List NodeId)
        → seek_branches fns ops seek_child (suc (length ys)) (length xs) (quiet all) at n ids
          ≡ seek_branches fns ops seek_child
              (length ys)
              (length xs + 1)
              (quiet all)
              at
              (n - length (pairs h.node))
              ids
    unfolding seek_branches
    past less ids =
        let over : ltb n (length (pairs h.node)) ≡ false = ground (arith, less) in
        >>=-ok (child_at ops (quiet all) (length xs)) _ ids ids (h.node, quiet all)
          (child_at-held fns ops xs ys b h.node h.held ids)
        ∙ >>=-ok (pending_rank_delta fns ops (quiet all) here (length xs) h.node) _ ids ids
            (0, h.node, quiet all)
            (pending_rank_delta-quiet fns ops xs ys b h.node h.held here (length xs) ids)
        ∙ rw count_here (rw over (rw count_here refl))

    -- The step into a branch.
    into :
        n < length (pairs h.node)
        → (path : TreePath)
        → ((ids : List NodeId) → seek_child h.node here n ids ≡ ok ((some path, h.node), ids))
        → (ids : List NodeId)
        → seek_branches fns ops seek_child (suc (length ys)) (length xs) (quiet all) at n ids
          ≡ ok ((some (fork at (length xs) ∷ path), quiet all), ids)
    unfolding seek_branches
    into more path found ids =
        let under : ltb n (length (pairs h.node)) ≡ true = ground (arith, more) in
        >>=-ok (child_at ops (quiet all) (length xs)) _ ids ids (h.node, quiet all)
          (child_at-held fns ops xs ys b h.node h.held ids)
        ∙ >>=-ok (pending_rank_delta fns ops (quiet all) here (length xs) h.node) _ ids ids
            (0, h.node, quiet all)
            (pending_rank_delta-quiet fns ops xs ys b h.node h.held here (length xs) ids)
        ∙ rw count_here (
            rw under (
              >>=-ok
                (apply_pending_edits fns ops (quiet all) here (length xs) (length xs) h.node
                  Depth.shallow)
                _ ids ids (h.node, quiet all)
                (apply_pending_edits-quiet fns ops xs ys b h.node h.held counted here Depth.shallow
                  ids)
              ∙ >>=-ok (seek_child h.node here n) _ ids ids (some path, h.node) (found ids)
              ∙ ap (λ node. ok ((some (fork at (length xs) ∷ path), node), ids))
                  (put_child-same fns ops xs ys b h.node h.held)))

  branch_pairs-length :
      (xs : List (Branch C)) (b : Branch C) (h : IsHeld pairs P b)
      → length (branch_pairs pairs (xs ++ b ∷ []))
        ≡ length (branch_pairs pairs xs) + length (pairs h.node)
  branch_pairs-length xs b h =
      ap length (branch_pairs-append pairs xs (b ∷ []))
      ∙ length-append (branch_pairs pairs xs) (branch_pairs pairs (b ∷ []))
      ∙ rw h.held
          (ap (λ ps. length (branch_pairs pairs xs) + length ps) (append-nil (pairs h.node)))

  -- What a search gives over the branches behind `b`, seen from `b`.
  shift :
      (xs ys : List (Branch C)) (b : Branch C) (h : IsHeld pairs P b) (at : Bounds) (n : ℕ)
      → length (pairs h.node) ≤ n
      → Goal
          ((xs ++ b ∷ []) ++ ys)
          (length (xs ++ b ∷ []))
          (length ys)
          (length (branch_pairs pairs ys))
          (length (branch_pairs pairs (xs ++ b ∷ [])) + (n - length (pairs h.node)))
          (n - length (pairs h.node))
          at
      → Goal
          (xs ++ b ∷ ys)
          (length xs + 1)
          (length ys)
          (length (branch_pairs pairs ys))
          (length (branch_pairs pairs xs) + n)
          (n - length (pairs h.node))
          at
  shift xs ys b h at n less found =
      let m = n - length (pairs h.node) in
      let total = length (branch_pairs pairs ys) in
      let sum : length (branch_pairs pairs (xs ++ b ∷ [])) + (n - length (pairs h.node))
          ≡ length (branch_pairs pairs xs) + n =
        omega (arith, less, branch_pairs-length xs b h) in
      subst (λ r. Goal (xs ++ b ∷ ys) (length xs + 1) (length ys) total r m at) sum
        (subst
          (λ i.
            Goal (xs ++ b ∷ ys) i (length ys) total (length (branch_pairs pairs (xs ++ b ∷ [])) + m)
              m at)
          (length-append xs (b ∷ []))
          (subst
            (λ zs.
              Goal zs (length (xs ++ b ∷ [])) (length ys) total
                (length (branch_pairs pairs (xs ++ b ∷ [])) + m) m at)
            (append_assoc xs (b ∷ []) ys) found))

  -- The search over the branches `ys` behind `xs`.
  seek_branches-Sought :
      (xs ys : List (Branch C))
      → All (IsHeld pairs P) ys
      → length (branch_pairs pairs ys) < 2 ^ 32
      → (at : Bounds) (n : ℕ)
      → Goal
          (xs ++ ys)
          (length xs)
          (length ys)
          (length (branch_pairs pairs ys))
          (length (branch_pairs pairs xs) + n)
          n
          at
  unfolding seek_branches
  seek_branches-Sought xs [] held small at n = inr (omega arith, λ ids. refl)
  seek_branches-Sought xs (b ∷ ys) (h, held) small at n =
      let size : length (branch_pairs pairs (b ∷ ys))
          ≡ length (pairs h.node) + length (branch_pairs pairs ys) =
        rw h.held (length-append (pairs h.node) (branch_pairs pairs ys)) in
      let low : length (pairs h.node) < 2 ^ 32 = omega (arith, size, small) in
      let low_rest : length (branch_pairs pairs ys) < 2 ^ 32 = omega (arith, size, small) in
      elim (seek_child-ok h.node h.good low (bounds_of at (quiet (xs ++ b ∷ ys)) (length xs)) n) [
        | inl (more, (path, found, reaches)) ↦ inl (
          omega (arith, more, size),
          (
            fork at (length xs) ∷ path,
            into xs ys b h at n low more path found,
            record {
              before = xs;
              branch = b;
              after = ys;
              parts = refl;
              index = refl;
              node = h.node;
              held = h.held;
              offset = n;
              sum = refl;
              reaches = reaches;
            },
          ),
        )
        | inr (less, _) ↦
            elim (shift xs ys b h at n less (
              seek_branches-Sought (xs ++ b ∷ []) ys held low_rest at
                (n - length (pairs h.node)))) [
                  | inl (more, (path, found, reaches)) ↦ inl (
                    omega (arith, more, size),
                    (path, (λ ids. past xs ys b h at n low less ids ∙ found ids), reaches),
                  )
                  | inr (most, none_found) ↦ inr (
                    omega (arith, most, size, less),
                    λ ids. past xs ys b h at n low less ids ∙ none_found ids,
                  )
                ]
      ]

module _ (fns : TreeFunctions) (fetch : Fetch) (chain : ℕ) where
  seek_leaf-Sought :
      (leaf : Tree zero)
      → IsQuiet zero leaf
      → (at : Bounds) (n : ℕ)
      → Sought
          (Reaches zero leaf)
          leaf
          (length (tree_pairs zero leaf))
          n
          n
          (seek_rec fns fetch chain zero leaf at n)
  unfolding seek_rec seek_leaf
  seek_leaf-Sought leaf q at n = elim (Bool-cases (ltb n (length leaf.pairs))) [
    | inl t ↦ inl (
      ltb→lt n (length leaf.pairs) t,
      (fork at n ∷ [], (λ ids. rw t refl), (refl, ltb→lt n (length leaf.pairs) t)),
    )
    | inr t ↦ inr (ground (arith, t), λ ids. rw t (rw q refl))
  ]

  -- A search in a tree.
  pub seek_rec-Sought :
      (h : ℕ) (tree : Tree h)
      → IsQuiet h tree
      → length (tree_pairs h tree) < 2 ^ 32
      → (at : Bounds) (n : ℕ)
      → Sought
          (Reaches h tree)
          tree
          (length (tree_pairs h tree))
          n
          n
          (seek_rec fns fetch chain h tree at n)
  unfolding seek_rec
  seek_rec-Sought zero leaf q small at n = seek_leaf-Sought leaf q at n
  seek_rec-Sought (suc h) node (empty, held) small at n =
      subst
        (λ queue.
          Sought (Reaches (suc h) (record node { edit_queue = queue }))
            (record node { edit_queue = queue }) (length (tree_pairs (suc h) node)) n n
            (seek_rec fns fetch chain (suc h) (record node { edit_queue = queue }) at n))
        (sym empty)
        (subst
          (λ m.
            Sought (Reaches (suc h) (quiet node.branches)) (quiet node.branches)
              (length (tree_pairs (suc h) node)) m n
              (seek_rec fns fetch chain (suc h) (quiet node.branches) at n))
          zero_add
          (seek_branches-Sought fns (tree_ops fns fetch chain h) (tree_pairs h) (IsQuiet h)
            (Reaches h) (seek_rec fns fetch chain h) (item_count-tree fns fetch chain h)
            (seek_rec-Sought h) [] node.branches held small at n))
    where
      zero_add : 0 + n ≡ n
      zero_add = omega arith
