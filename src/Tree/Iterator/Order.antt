-- ===== src/Tree/Iterator/Order.antt =====
-- next visits the pairs of a tree in their order.
use libbruce.Base.{
  ℕ, zero, suc, ◌+◌, ◌≡◌, ◌⊎◌, refl, sym, ap, ◌∙◌, subst, ◌++◌, [], ◌∷◌, List, none, some, true,
  false, inl, inr, ok, length, All, All-append_right, arith, ◌==◌, get_elem?,
}
use libbruce.Memory.{NodeId}
use libbruce.Functions.{TreeFunctions}
use libbruce.Internal.{Branch}
use libbruce.Tree.Leaf.{Fetch}
use libbruce.Tree.Nodes.{Tree}
use libbruce.Tree.Find.{TreePath, Fork}
use libbruce.Tree.Find.Quiet.{quiet, tree_pairs, branch_pairs, Reaches}
use libbruce.Tree.Find.Visit.{get_elem?-middle}
use libbruce.Tree.Find.Place.{IsPairAt, Reaches-IsPairAt}
use libbruce.Tree.Iterator.{is_valid, next_rec, next}
use libbruce.Tree.Iterator.Open.{IsThere, IsOpen}
use libbruce.Tree.Iterator.Next.{Steps, next_in_leaf-Steps, step_in, stays, leaves-Steps}

module _ (fns : TreeFunctions) (fetch : Fetch) (chain : ℕ) where
  -- A step in a node, from the step in its child.
  next_in_internal-Steps :
      (h : ℕ) (xs ys : List (Branch (Tree h))) (b : Branch (Tree h)) (c : Tree h)
      → b.child ≡ some c
      → All (IsThere (IsOpen h)) (xs ++ b ∷ ys)
      → (f : Fork) → f.index ≡ length xs
      → (path : TreePath) (m : ℕ) → Steps h c m (next_rec fns fetch chain h c path)
      → Steps
          (suc h)
          (quiet (xs ++ b ∷ ys))
          (length (branch_pairs (tree_pairs h) xs) + m)
          (step_in fns fetch chain h (xs ++ b ∷ ys) f path)
  next_in_internal-Steps h xs ys b c held all f index path m (inl moved) =
      inl (stays fns fetch chain h xs ys b c held all f index path m moved)
  next_in_internal-Steps h xs ys b c held all f index path m (inr (last, done)) =
      leaves-Steps fns fetch chain h xs ys b c held all f index path m last done

  there_node :
      (h : ℕ) (b : Branch (Tree h)) (c : Tree h)
      → b.child ≡ some c
      → IsThere (IsOpen h) b
      → IsOpen h c
  there_node h b c e there = subst (IsOpen h) (some_inj (sym there.held ∙ e)) there.good
    where
      some_inj : {a d : Tree h} → some a ≡ some d → a ≡ d
      some_inj e = cc

  -- A step from a pair of a tree.
  next_rec-Steps :
      (h : ℕ) (tree : Tree h)
      → IsOpen h tree
      → (path : TreePath) (n : ℕ) → Reaches h tree path n
      → Steps h tree n (next_rec fns fetch chain h tree path)
  unfolding next_rec
  next_rec-Steps h tree filled [] n r = absurd r
  next_rec-Steps zero leaf filled (f ∷ g ∷ path) n r = absurd r
  next_rec-Steps zero leaf filled (f ∷ []) n r =
      next_in_leaf-Steps fns fetch chain leaf filled f n r.0 r.1
  next_rec-Steps (suc h) node filled (f ∷ path) n r =
      let all = subst (All (IsThere (IsOpen h))) r.parts filled.2 in
      let good =
        there_node h r.branch r.node r.held
          (All-append_right (IsThere (IsOpen h)) r.before (r.branch ∷ r.after) all).0 in
      let whole : quiet (r.before ++ r.branch ∷ r.after) ≡ node =
        ap quiet (sym r.parts) ∙ ap (λ queue. record node { edit_queue = queue }) (sym filled.0) in
      subst (λ t. Steps (suc h) t n (next_rec fns fetch chain (suc h) t (f ∷ path))) whole
        (subst
          (λ m.
            Steps (suc h) (quiet (r.before ++ r.branch ∷ r.after)) m
              (step_in fns fetch chain h (r.before ++ r.branch ∷ r.after) f path))
          (sym r.sum)
          (next_in_internal-Steps h r.before r.after r.branch r.node r.held all f r.index path
            r.offset (next_rec-Steps h r.node good path r.offset r.reaches)))

  pub Reaches-is_valid :
      (h : ℕ) (tree : Tree h) (path : TreePath) (n : ℕ)
      → Reaches h tree path n
      → is_valid h tree path ≡ true
  unfolding is_valid
  Reaches-is_valid h tree [] n r = absurd r
  Reaches-is_valid zero leaf (f ∷ g ∷ path) n r = absurd r
  Reaches-is_valid zero leaf (f ∷ []) n r =
      let inside : (f.index == length leaf.pairs) ≡ false = ground (arith, r.0, r.1) in
      rw inside refl
  Reaches-is_valid (suc h) node (f ∷ []) n r = absurd r.reaches
  Reaches-is_valid (suc h) node (f ∷ g ∷ path) n r =
      let here : get_elem? node.branches f.index ≡ some r.branch =
        ap (get_elem? node.branches) r.index
        ∙ ap (λ bs. get_elem? bs (length r.before)) r.parts
        ∙ get_elem?-middle r.before r.branch r.after in
      rw (here, is_valid) (rw r.held (Reaches-is_valid h r.node (g ∷ path) r.offset r.reaches))

-- In a tree in memory without overflow and waiting edits and with no empty node, whatever its counts,
-- next from a path to the n-th pair either gives a path whose key and value are those of the pair
-- behind it, in a tree with the same pairs, or gives none, when that pair is the last, and leaves the
-- tree as it is. The loaded ids stay as they are.
pub next-ok :
    (fns : TreeFunctions) (fetch : Fetch) (chain h : ℕ) (tree : Tree h)
    → IsOpen h tree
    → (path : TreePath) (n : ℕ) → Reaches h tree path n
    → (ids : List NodeId)
    → ((path' : TreePath) × (after : Tree h) × (next fns fetch chain h tree path ids
          ≡ ok ((some path', after), ids))
        × IsOpen h after
        × (tree_pairs h after ≡ tree_pairs h tree)
        × Reaches h after path' (n + 1)
        × IsPairAt h after path' (n + 1))
      ⊎ ((n + 1 ≡ length (tree_pairs h tree))
          × (next fns fetch chain h tree path ids ≡ ok ((none, tree), ids)))
unfolding next
next-ok fns fetch chain h tree filled path n r ids =
    let valid = Reaches-is_valid fns fetch chain h tree path n r in
    elim (next_rec-Steps fns fetch chain h tree filled path n r) [
      | inl moved ↦ inl (
        moved.path,
        moved.after,
        rw valid (moved.result ids),
        moved.still_open,
        moved.same,
        moved.reaches,
        Reaches-IsPairAt h moved.after moved.path (n + 1) moved.reaches,
      )
      | inr (last, done) ↦ inr (last, rw valid (done ids))
    ]
