-- ===== src/Tree/Iterator/Faults.antt =====
-- What the iterators get wrong: the count that a step into the next leaf writes, and the comparison
-- of two places in a leaf.
use libbruce.Base.{
  arith, ℕ, zero, suc, ◌≡◌, refl, ◌∙◌, ◌++◌, [], ◌∷◌, List, some, true, ok, length, ◌==◌, ==_iff,
}
use libbruce.Memory.{NodeId}
use libbruce.Functions.{TreeFunctions}
use libbruce.Internal.{Branch}
use libbruce.Tree.Leaf.{>>=-ok}
use libbruce.Tree.Nodes.{NodeOps, Depth, child_at, Tree}
use libbruce.Tree.Pending.{Bounds, set_count, bounds_of}
use libbruce.Tree.Find.{TreePath, Fork}
use libbruce.Tree.Find.Quiet.{quiet}
use libbruce.Tree.Find.Visit.{child_at-held, apply_pending_edits-other}
use libbruce.Tree.Iterator.{enter_next, is_valid}
use libbruce.Tree.Iterator.Skip.{same_forks, same_indices, is_same}

-- On the way to the branch behind `a` and `xs`, whose child is in memory, in a node without waiting
-- edits, the step of an iterator into that child sets the count of the first branch to the child's.
pub enter_next_overwrites :
    {C : Type 0} (fns : TreeFunctions) (ops : NodeOps C) (a : Branch C) (xs ys : List (Branch C))
    (b : Branch C) (c : C)
    → b.child ≡ some c
    → (at : Bounds) (ids : List NodeId)
    → enter_next fns ops (quiet (a ∷ (xs ++ b ∷ ys))) at (length (a ∷ xs)) ids
      ≡ ok ((c, quiet (record a { item_count = ops.item_count c } ∷ (xs ++ b ∷ ys))), ids)
unfolding enter_next set_count
enter_next_overwrites fns ops a xs ys b c held at ids =
    let all = quiet (a ∷ (xs ++ b ∷ ys)) in
    >>=-ok (child_at ops all (length (a ∷ xs))) _ ids ids (c, all)
      (child_at-held fns ops (a ∷ xs) ys b c held ids)
    ∙ apply_pending_edits-other fns ops (a ∷ xs) ys b c held (bounds_of at all (length (a ∷ xs))) 0
        Depth.shallow ids

same_forks-leaf :
    (h : ℕ) (p : TreePath) (f g : Fork)
    → length p ≡ h
    → same_forks h (p ++ f ∷ []) (p ++ g ∷ []) ≡ true
unfolding same_forks same_indices
same_forks-leaf zero [] f g e = refl
same_forks-leaf zero (x ∷ p) f g e = absurd (omega (arith, e))
same_forks-leaf (suc h) [] f g e = absurd (omega (arith, e))
same_forks-leaf (suc h) (x ∷ p) f g e =
    let self : (x.index == x.index) ≡ true = (==_iff x.index x.index).1 refl in
    rw self (same_forks-leaf h p f g (omega (arith, e)))

-- Two valid iterators at any two pairs of one leaf are equal to each other for operator==: the
-- paths to a leaf at the height of the tree compare as the same.
pub is_same-leaf :
    (h : ℕ) (tree : Tree h) (p : TreePath) (f g : Fork)
    → length p ≡ h
    → is_valid h tree (p ++ f ∷ []) ≡ true
    → is_valid h tree (p ++ g ∷ []) ≡ true
    → is_same h tree (p ++ f ∷ []) (p ++ g ∷ []) ≡ true
unfolding is_same
is_same-leaf h tree p f g e vf vg = rw (vf, is_same) (rw vg (same_forks-leaf h p f g e))
