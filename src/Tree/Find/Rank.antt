-- ===== src/Tree/Find/Rank.antt =====
-- The rank of the pair that a path leads to.
use libbruce.Base.{
  ℕ, zero, suc, ◌+◌, ◌^◌, ◌<◌, ◌≤◌, ◌≡◌, refl, sym, ap, ◌∙◌, subst, ◌++◌, [], ◌∷◌, List, none, some,
  true, inl, inr, ok, ltb, lt→ltb, length, All, All-append_left, All-append_right, arith,
  append_assoc, length-append,
}
use libbruce.Memory.{KvPair, wrap32, NodeId}
use libbruce.Functions.{TreeFunctions}
use libbruce.Internal.{Branch, InternalNode}
use libbruce.Tree.Leaf.{Fetch, Loads, >>=-ok}
use libbruce.Tree.Nodes.{Tree, NodeOps, child_at, tree_ops}
use libbruce.Tree.Pending.{Bounds, unbounded, bounds_of, pending_rank_delta}
use libbruce.Tree.Find.{
  TreePath, fork, count_at, rank_branches, rank_internal, rank_leaf, rank_from, rank, seek,
}
use libbruce.Tree.Find.Quiet.{quiet, tree_pairs, IsQuiet, IsHeld, Reaches, branch_pairs}
use libbruce.Tree.Find.Visit.{
  get_elem?-middle, child_at-held, pending_rank_delta-quiet, put_child-same,
}
use libbruce.Tree.Find.Place.{IsPairAt, Reaches-IsPairAt}
use libbruce.Tree.Find.Seek.{seek_rec-Sought}

count_at-middle :
    {C : Type 0} (xs ys : List (Branch C)) (b : Branch C)
    → count_at (quiet (xs ++ b ∷ ys)) (length xs) ≡ b.item_count
unfolding count_at
count_at-middle xs ys b = rw (get_elem?-middle xs b ys, count_at) refl

module _ {C : Type 0} (fns : TreeFunctions) (ops : NodeOps C) (pairs : C → List KvPair)
    (P : C → Type 0) where
  -- The sum over the branches `zs` behind `fs`.
  rank_branches-sum :
      (fs zs rest : List (Branch C))
      → All (IsHeld pairs P) zs
      → (at : Bounds) (ret : ℕ) → ret + length (branch_pairs pairs zs) < 2 ^ 32
      → (ids : List NodeId)
      → rank_branches fns ops (length zs) (length fs) (quiet (fs ++ (zs ++ rest))) at ret ids
        ≡ ok ((ret + length (branch_pairs pairs zs), quiet (fs ++ (zs ++ rest))), ids)
  unfolding rank_branches
  rank_branches-sum fs [] rest held at ret small ids =
      ap (λ n. ok ((n, quiet (fs ++ rest)), ids)) (omega arith)
  rank_branches-sum fs (b ∷ zs) rest (h, held) at ret small ids =
      let all = quiet (fs ++ b ∷ (zs ++ rest)) in
      let size : length (branch_pairs pairs (b ∷ zs))
          ≡ length (pairs h.node) + length (branch_pairs pairs zs) =
        rw h.held (length-append (pairs h.node) (branch_pairs pairs zs)) in
      let next = ret + length (pairs h.node) in
      let counted : wrap32 (wrap32 (ret + count_at all (length fs)) + 0) ≡ next =
        rw (count_at-middle fs (zs ++ rest) b) (omega (arith, h.counted, size, small)) in
      let further : rank_branches fns ops (length zs) (length fs + 1) all at next ids
          ≡ ok ((next + length (branch_pairs pairs zs), all), ids) =
        subst
          (λ i.
            rank_branches fns ops (length zs) i all at next ids
            ≡ ok ((next + length (branch_pairs pairs zs), all), ids))
          (length-append fs (b ∷ []))
          (subst
            (λ bs.
              rank_branches fns ops (length zs) (length (fs ++ b ∷ [])) (quiet bs) at next ids
              ≡ ok ((next + length (branch_pairs pairs zs), quiet bs), ids))
            (append_assoc fs (b ∷ []) (zs ++ rest))
            (rank_branches-sum (fs ++ b ∷ []) zs rest held at next (omega (arith, size, small))
              ids)) in
      >>=-ok (child_at ops all (length fs)) _ ids ids (h.node, all)
        (child_at-held fns ops fs (zs ++ rest) b h.node h.held ids)
      ∙ >>=-ok (pending_rank_delta fns ops all (bounds_of at all (length fs)) (length fs) h.node) _
          ids ids (0, h.node, all)
          (pending_rank_delta-quiet fns ops fs (zs ++ rest) b h.node h.held
            (bounds_of at all (length fs)) (length fs) ids)
      ∙ rw counted (further ∙ ap (λ n. ok ((n, all), ids)) (omega (arith, size)))

  -- The forks from an inner node on.
  rank_internal-sum :
      (rank_child : C → TreePath → ℕ → Loads (ℕ × C)) (xs ys : List (Branch C)) (b : Branch C)
      (c : C)
      → b.child ≡ some c
      → All (IsHeld pairs P) xs
      → (after : InternalNode C) → quiet (xs ++ b ∷ ys) ≡ after
      → (at : Bounds) (path : TreePath) (ret m : ℕ) → ret + length (branch_pairs pairs xs) < 2 ^ 32
      → (ids : List NodeId)
      → rank_child c path (ret + length (branch_pairs pairs xs)) ids
        ≡ ok ((ret + length (branch_pairs pairs xs) + m, c), ids)
      → rank_internal fns ops rank_child (quiet (xs ++ b ∷ ys)) (fork at (length xs) ∷ path) ret ids
        ≡ ok ((ret + length (branch_pairs pairs xs) + m, after), ids)
  unfolding rank_internal
  rank_internal-sum rank_child xs ys b c child held after same at path ret m small ids below =
      let all = quiet (xs ++ b ∷ ys) in
      let sum = ret + length (branch_pairs pairs xs) in
      let inside : ltb (length xs) (length (xs ++ b ∷ ys)) ≡ true =
        lt→ltb (length xs) (length (xs ++ b ∷ ys)) (omega (arith, length-append xs (b ∷ ys))) in
      rw inside (
        >>=-ok (rank_branches fns ops (length xs) 0 all at ret) _ ids ids (sum, all)
          (rank_branches-sum [] xs (b ∷ ys) held at ret small ids)
        ∙ rw (get_elem?-middle xs b ys) (
            rw child (
              >>=-ok (rank_child c path sum) _ ids ids (sum + m, c) below
              ∙ ap (λ node. ok ((sum + m, node), ids))
                  (put_child-same fns ops xs ys b c child ∙ same))))

-- The child of a branch that is held is good.
held_node :
    (h : ℕ) (b : Branch (Tree h)) (c : Tree h)
    → b.child ≡ some c
    → IsHeld (tree_pairs h) (IsQuiet h) b
    → IsQuiet h c
held_node h b c e held =
    let same : held.node ≡ c = some_inj (sym held.held ∙ e) in subst (IsQuiet h) same held.good
  where
    some_inj : {a d : Tree h} → some a ≡ some d → a ≡ d
    some_inj e = cc

module _ (fns : TreeFunctions) (fetch : Fetch) (chain : ℕ) where
  -- The sum along a path, from the sum before.
  rank_from-sum :
      (h : ℕ) (tree : Tree h) (path : TreePath) (n : ℕ)
      → IsQuiet h tree
      → Reaches h tree path n
      → (ret : ℕ) → ret + n < 2 ^ 32
      → (ids : List NodeId)
      → rank_from fns fetch chain h tree path ret ids ≡ ok ((ret + n, tree), ids)
  unfolding rank_from rank_leaf rank_internal
  rank_from-sum h tree [] n q r ret small ids = absurd r
  rank_from-sum zero leaf (f ∷ g ∷ path) n q r ret small ids = absurd r
  rank_from-sum zero leaf (f ∷ []) n q (e, less) ret small ids =
      ap (λ m. ok ((m, leaf), ids)) (omega (arith, e, small))
  rank_from-sum (suc h) node (f ∷ path) n (empty, held) r ret small ids =
      let ops = tree_ops fns fetch chain h in
      let before = length (branch_pairs (tree_pairs h) r.before) in
      let front =
        All-append_left (IsHeld (tree_pairs h) (IsQuiet h)) r.before (r.branch ∷ r.after)
          (subst (All (IsHeld (tree_pairs h) (IsQuiet h))) r.parts held) in
      let back =
        All-append_right (IsHeld (tree_pairs h) (IsQuiet h)) r.before (r.branch ∷ r.after)
          (subst (All (IsHeld (tree_pairs h) (IsQuiet h))) r.parts held) in
      let good = held_node h r.branch r.node r.held back.0 in
      let inner =
        rank_from-sum h r.node path r.offset good r.reaches (ret + before)
          (omega (arith, small, r.sum)) ids in
      let sum : ret + before + r.offset ≡ ret + n = omega (arith, r.sum) in
      let whole : quiet (r.before ++ r.branch ∷ r.after) ≡ node =
        ap quiet (sym r.parts) ∙ ap (λ queue. record node { edit_queue = queue }) (sym empty) in
      subst (λ t. rank_from fns fetch chain (suc h) t (f ∷ path) ret ids ≡ ok ((ret + n, t), ids))
        whole
        (subst
          (λ i.
            rank_internal fns ops (rank_from fns fetch chain h)
              (quiet (r.before ++ r.branch ∷ r.after)) (fork f.bounds i ∷ path) ret ids
            ≡ ok ((ret + n, quiet (r.before ++ r.branch ∷ r.after)), ids))
          (sym r.index)
          (rank_internal-sum fns ops (tree_pairs h) (IsQuiet h) (rank_from fns fetch chain h)
              r.before r.after r.branch r.node r.held front (quiet (r.before ++ r.branch ∷ r.after))
              refl f.bounds path ret r.offset (omega (arith, small, r.sum)) ids inner
            ∙ ap (λ m. ok ((m, quiet (r.before ++ r.branch ∷ r.after)), ids)) sum))

  -- In a tree in memory without overflow and waiting edits, with the right counts and fewer than
  -- 2 ^ 32 pairs, seek at a rank below the number of pairs gives a path whose key and value are
  -- those of the pair at that place in the order of the leaves, and the rank of the path is that
  -- rank. The tree and the loaded ids stay as they are.
  pub seek-ok :
      (h : ℕ) (tree : Tree h)
      → IsQuiet h tree
      → length (tree_pairs h tree) < 2 ^ 32
      → (n : ℕ) → n < length (tree_pairs h tree)
      → (ids : List NodeId)
      → (path : TreePath) × (seek fns fetch chain h tree n ids ≡ ok ((some path, tree), ids))
        × IsPairAt h tree path n
        × (rank fns fetch chain h tree path ids ≡ ok ((n, tree), ids))
  unfolding seek rank
  seek-ok h tree quiet small n less ids =
      elim (seek_rec-Sought fns fetch chain h tree quiet small unbounded n) [
        | inl (_, (path, found, reaches)) ↦ (
          path,
          found ids,
          Reaches-IsPairAt h tree path n reaches,
          rank_from-sum h tree path n quiet reaches 0 (omega (arith, less, small)) ids
              ∙ ap (λ m. ok ((m, tree), ids)) (omega arith),
        )
        | inr (most, _) ↦ absurd (omega (arith, most, less))
      ]

  -- In such a tree, seek at the number of pairs or above gives no path.
  pub seek_end :
      (h : ℕ) (tree : Tree h)
      → IsQuiet h tree
      → length (tree_pairs h tree) < 2 ^ 32
      → (n : ℕ) → length (tree_pairs h tree) ≤ n
      → (ids : List NodeId) → seek fns fetch chain h tree n ids ≡ ok ((none, tree), ids)
  unfolding seek
  seek_end h tree quiet small n most ids =
      elim (seek_rec-Sought fns fetch chain h tree quiet small unbounded n) [
        | inl (less, _) ↦ absurd (omega (arith, most, less))
        | inr (_, found) ↦ found ids
      ]
