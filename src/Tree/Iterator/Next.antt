-- ===== src/Tree/Iterator/Next.antt =====
-- next goes from one pair to the next.
use libbruce.Base.{
  ℕ, zero, suc, ◌+◌, ◌-◌, ◌<◌, ◌≡◌, ◌⊎◌, refl, sym, ap, ap₂, ◌∙◌, subst, ◌++◌, [], ◌∷◌, List,
  Option, none, some, false, Bool-cases, inl, inr, ok, length, All, All-append_right, arith,
  append_assoc, append-nil, length-append, ◌==◌, get_elem?,
}
use libbruce.Memory.{NodeId}
use libbruce.Functions.{TreeFunctions}
use libbruce.Internal.{Branch, InternalNode}
use libbruce.Tree.Leaf.{Fetch, Loads, >>=-ok}
use libbruce.Tree.Nodes.{Tree, tree_ops}
use libbruce.Tree.Pending.{Bounds, bounds_of, put_child}
use libbruce.Tree.Find.{TreePath, Fork, fork}
use libbruce.Tree.Find.Quiet.{quiet, tree_pairs, branch_pairs, branch_pairs-append, Reaches}
use libbruce.Tree.Find.Visit.{get_elem?-middle, put_child-same}
use libbruce.Tree.Iterator.{next_in_leaf, next_in_internal, travel, travel_branches, next_rec}
use libbruce.Tree.Iterator.Open.{
  IsThere, IsOpen, IsMoved, middle_some, replaced_pairs, replaced-IsThere, set_at-append,
  travel_branches-IsMoved, travel-IsMoved,
}

-- What a step from the `n`-th pair gives: the next pair, or none behind the last.
abbrev pub Steps : (h : ℕ) → Tree h → ℕ → Loads (Option TreePath × Tree h) → Type 0
Steps h tree n search =
    IsMoved h tree (n + 1) search
    ⊎ ((n + 1 ≡ length (tree_pairs h tree))
        × ((ids : List NodeId) → search ids ≡ ok ((none, tree), ids)))

module _ (fns : TreeFunctions) (fetch : Fetch) (chain : ℕ) where
  pub next_in_leaf-Steps :
      (leaf : Tree zero)
      → IsOpen zero leaf
      → (f : Fork) (n : ℕ) → f.index ≡ n
      → n < length leaf.pairs
      → Steps zero leaf n (next_rec fns fetch chain zero leaf (f ∷ []))
  unfolding next_rec next_in_leaf
  next_in_leaf-Steps leaf filled f n e less =
      let inside : (f.index == length leaf.pairs) ≡ false = ground (arith, e, less) in
      elim (Bool-cases (f.index + 1 == length leaf.pairs)) [
        | inl t ↦ inr (ground (arith, t, e), λ ids. rw inside (rw t (rw filled.0 refl)))
        | inr t ↦ inl (record {
          path = fork f.bounds (f.index + 1) ∷ [];
          after = leaf;
          result = λ ids. rw inside (rw t refl);
          still_open = filled;
          same = refl;
          reaches = (omega (arith, e), ground (arith, t, e, less));
        })
      ]

  -- The step of `next` in a node.
  abbrev pub step_in :
      (h : ℕ)
      → List (Branch (Tree h))
      → Fork
      → TreePath
      → Loads (Option TreePath × InternalNode (Tree h))
  step_in h bs f path =
      next_in_internal fns (tree_ops fns fetch chain h) (next_rec fns fetch chain h)
        (travel fns fetch chain h) (quiet bs) (f ∷ path)

  module _ (h : ℕ) (xs ys : List (Branch (Tree h))) (b : Branch (Tree h)) (c : Tree h)
      (held : b.child ≡ some c) (all : All (IsThere (IsOpen h)) (xs ++ b ∷ ys)) (f : Fork)
      (index : f.index ≡ length xs) (path : TreePath) (m : ℕ) where
    abbrev whole : List (Branch (Tree h))
    whole = xs ++ b ∷ ys

    abbrev offset : ℕ
    offset = length (branch_pairs (tree_pairs h) xs)

    put_child-replaced :
        (c' : Tree h)
        → put_child (length xs) c' (quiet whole) ≡ quiet (xs ++ record b { child = some c' } ∷ ys)
    unfolding put_child
    put_child-replaced c' =
        rw (get_elem?-middle xs b ys, put_child)
          (ap quiet (set_at-append xs b (record b { child = some c' }) ys))

    -- A step that stays below the branch.
    pub stays :
        IsMoved h c (m + 1) (next_rec fns fetch chain h c path)
        → IsMoved (suc h) (quiet whole) (offset + m + 1) (step_in h whole f path)
    unfolding next_in_internal
    stays moved = record {
      path = f ∷ moved.path;
      after = quiet (xs ++ record b { child = some moved.after } ∷ ys);
      result = λ ids.
          at_branch (quiet (xs ++ record b { child = some moved.after } ∷ ys))
            (ap (λ i. put_child i moved.after (quiet whole)) index ∙ put_child-replaced moved.after)
            ids;
      still_open = (
        refl,
        middle_some xs ys (record b { child = some moved.after }),
        replaced-IsThere h xs ys b c moved.after held moved.same all moved.still_open,
      );
      same = replaced_pairs h xs ys b c moved.after held moved.same;
      reaches = record {
        before = xs;
        branch = record b { child = some moved.after };
        after = ys;
        parts = refl;
        index = index;
        node = moved.after;
        held = refl;
        offset = m + 1;
        sum = omega arith;
        reaches = moved.reaches;
      };
    }
      where
        at_branch :
            (after : InternalNode (Tree h))
            → put_child f.index moved.after (quiet whole) ≡ after
            → (ids : List NodeId)
            → step_in h whole f path ids ≡ ok ((some (f ∷ moved.path), after), ids)
        at_branch after e ids =
            let here : get_elem? whole f.index ≡ some b =
              ap (get_elem? whole) index ∙ get_elem?-middle xs b ys in
            rw (here, next_in_internal)
              (rw held (
                >>=-ok (next_rec fns fetch chain h c path) _ ids ids (some moved.path, moved.after)
                  (moved.result ids)
                ∙ ap (λ node. ok ((some (f ∷ moved.path), node), ids)) e))

    -- A step that leaves the child goes on behind the branch.
    leaves :
        ((ids : List NodeId) → next_rec fns fetch chain h c path ids ≡ ok ((none, c), ids))
        → (ids : List NodeId)
        → step_in h whole f path ids
          ≡ travel_branches fns
              (tree_ops fns fetch chain h)
              (travel fns fetch chain h)
              (length whole - (f.index + 1))
              (f.index + 1)
              (quiet whole)
              f.bounds
              ids
    unfolding next_in_internal
    leaves done ids = at_branch (length whole - (f.index + 1)) refl (quiet whole) (
        ap (λ i. put_child i c (quiet whole)) index
        ∙ put_child-same fns (tree_ops fns fetch chain h) xs ys b c held)
      where
        at_branch :
            (left : ℕ)
            → length whole - (f.index + 1) ≡ left
            → (after : InternalNode (Tree h)) → put_child f.index c (quiet whole) ≡ after
            → step_in h whole f path ids
              ≡ travel_branches fns
                  (tree_ops fns fetch chain h)
                  (travel fns fetch chain h)
                  left
                  (f.index + 1)
                  after
                  f.bounds
                  ids
        at_branch left e after same =
            let here : get_elem? whole f.index ≡ some b =
              ap (get_elem? whole) index ∙ get_elem?-middle xs b ys in
            rw (here, next_in_internal)
              (rw held (
                >>=-ok (next_rec fns fetch chain h c path) _ ids ids (none, c) (done ids)
                ∙ ap₂
                    (λ n node.
                      travel_branches fns (tree_ops fns fetch chain h) (travel fns fetch chain h) n
                        (f.index + 1) node f.bounds ids)
                    e same))

  branch_pairs-one :
      (h : ℕ) (xs : List (Branch (Tree h))) (b : Branch (Tree h)) (c : Tree h)
      → b.child ≡ some c
      → length (branch_pairs (tree_pairs h) (xs ++ b ∷ []))
        ≡ length (branch_pairs (tree_pairs h) xs) + length (tree_pairs h c)
  branch_pairs-one h xs b c held =
      ap length (branch_pairs-append (tree_pairs h) xs (b ∷ []))
      ∙ length-append (branch_pairs (tree_pairs h) xs) (branch_pairs (tree_pairs h) (b ∷ []))
      ∙ rw held (
          ap (λ ps. length (branch_pairs (tree_pairs h) xs) + length ps)
            (append-nil (tree_pairs h c)))

  -- The way on from a branch whose child has been left.
  goes_on :
      (h : ℕ) (xs zs : List (Branch (Tree h))) (b d : Branch (Tree h)) (c : Tree h)
      → b.child ≡ some c
      → All (IsThere (IsOpen h)) (xs ++ b ∷ (d ∷ zs))
      → (at : Bounds)
      → IsMoved
          (suc h)
          (quiet (xs ++ b ∷ (d ∷ zs)))
          (length (branch_pairs (tree_pairs h) xs) + length (tree_pairs h c))
          (travel_branches fns
            (tree_ops fns fetch chain h)
            (travel fns fetch chain h)
            (suc (length zs))
            (length (xs ++ b ∷ []))
            (quiet (xs ++ b ∷ (d ∷ zs)))
            at)
  goes_on h xs zs b d c held all at =
      let there = All-append_right (IsThere (IsOpen h)) xs (b ∷ (d ∷ zs)) all in
      let assoc = append_assoc xs (b ∷ []) (d ∷ zs) in
      let whole = (xs ++ b ∷ []) ++ d ∷ zs in
      let all' : All (IsThere (IsOpen h)) whole =
        subst (All (IsThere (IsOpen h))) (sym assoc) all in
      let moved =
        travel_branches-IsMoved fns fetch chain h (xs ++ b ∷ []) zs d there.1.0.node there.1.0.held
          all' at (length zs)
          (travel-IsMoved fns fetch chain h there.1.0.node there.1.0.good
            (bounds_of at (quiet whole) (length (xs ++ b ∷ [])))) in
      subst
        (λ bs.
          IsMoved (suc h) (quiet bs)
            (length (branch_pairs (tree_pairs h) xs) + length (tree_pairs h c))
            (travel_branches fns (tree_ops fns fetch chain h) (travel fns fetch chain h)
              (suc (length zs)) (length (xs ++ b ∷ [])) (quiet bs) at))
        assoc
        (subst
          (λ n. IsMoved (suc h) (quiet whole) n (
            travel_branches fns (tree_ops fns fetch chain h) (travel fns fetch chain h)
              (suc (length zs)) (length (xs ++ b ∷ [])) (quiet whole) at))
          (branch_pairs-one h xs b c held) moved)

  -- A step behind the last pair of a child.
  pub leaves-Steps :
      (h : ℕ) (xs ys : List (Branch (Tree h))) (b : Branch (Tree h)) (c : Tree h)
      → b.child ≡ some c
      → All (IsThere (IsOpen h)) (xs ++ b ∷ ys)
      → (f : Fork) → f.index ≡ length xs
      → (path : TreePath) (m : ℕ) → m + 1 ≡ length (tree_pairs h c)
      → ((ids : List NodeId) → next_rec fns fetch chain h c path ids ≡ ok ((none, c), ids))
      → Steps
          (suc h)
          (quiet (xs ++ b ∷ ys))
          (length (branch_pairs (tree_pairs h) xs) + m)
          (step_in h (xs ++ b ∷ ys) f path)
  unfolding travel_branches
  leaves-Steps h xs [] b c held all f index path m last done = inr (
    omega (arith, branch_pairs-one h xs b c held, last),
    λ ids.
        leaves h xs [] b c held all f index path m done ids
        ∙ ap
            (λ n.
              travel_branches fns (tree_ops fns fetch chain h) (travel fns fetch chain h) n
                (f.index + 1) (quiet (xs ++ b ∷ [])) f.bounds ids)
            none_left,
  )
    where
      none_left : length (xs ++ b ∷ []) - (f.index + 1) ≡ 0
      none_left = omega (arith, index, length-append xs (b ∷ []))
  leaves-Steps h xs (d ∷ zs) b c held all f index path m last done =
      let moved = goes_on h xs zs b d c held all f.bounds in
      let whole = xs ++ b ∷ (d ∷ zs) in
      let left : length whole - (f.index + 1) ≡ suc (length zs) =
        omega (arith, index, length-append xs (b ∷ (d ∷ zs))) in
      let at : f.index + 1 ≡ length (xs ++ b ∷ []) =
        omega (arith, index, length-append xs (b ∷ [])) in
      inl (record {
        path = moved.path;
        after = moved.after;
        result = λ ids.
            leaves h xs (d ∷ zs) b c held all f index path m done ids
            ∙ ap₂
                (λ n i.
                  travel_branches fns (tree_ops fns fetch chain h) (travel fns fetch chain h) n i
                    (quiet whole) f.bounds ids)
                left at
            ∙ moved.result ids;
        still_open = moved.still_open;
        same = moved.same;
        reaches =
            subst (Reaches (suc h) moved.after moved.path) (omega (arith, last)) moved.reaches;
      })
