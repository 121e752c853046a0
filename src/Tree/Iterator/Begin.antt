-- ===== src/Tree/Iterator/Begin.antt =====
-- begin goes to the first pair, as the way to the first leaf does.
use libbruce.Base.{
  ℕ, zero, suc, ◌<◌, ◌≡◌, refl, sym, ◌∙◌, subst, [], ◌∷◌, List, none, some, false, ok, ◌==◌, length,
  All, arith,
}
use libbruce.Memory.{NodeId}
use libbruce.Functions.{TreeFunctions}
use libbruce.Internal.{Branch}
use libbruce.Tree.Leaf.{Fetch, >>=-ok}
use libbruce.Tree.Nodes.{Tree, Depth, child_at, tree_ops}
use libbruce.Tree.Pending.{Bounds, bounds_of, unbounded, set_count}
use libbruce.Tree.Find.{enter, find_leaf, find_internal, find_rec, begin}
use libbruce.Tree.Find.Quiet.{quiet}
use libbruce.Tree.Find.Visit.{child_at-held, apply_pending_edits-other}
use libbruce.Tree.Iterator.{enter_next, travel, travel_branches}
use libbruce.Tree.Iterator.Open.{IsThere, IsOpen, IsMoved, travel-IsMoved}

module _ (fns : TreeFunctions) (fetch : Fetch) (chain : ℕ) where
  -- The two searches take the same way into the first branch.
  into_first :
      (h : ℕ) (b : Branch (Tree h)) (bs : List (Branch (Tree h))) (c : Tree h)
      → b.child ≡ some c
      → IsOpen h c
      → ((at : Bounds) (ids : List NodeId)
          → find_rec fns fetch chain h c at none ids ≡ travel fns fetch chain h c at ids)
      → (at : Bounds) (ids : List NodeId)
      → find_rec fns fetch chain (suc h) (quiet (b ∷ bs)) at none ids
        ≡ travel fns fetch chain (suc h) (quiet (b ∷ bs)) at ids
  unfolding find_rec find_internal travel travel_branches enter enter_next
  into_first h b bs c held good below at ids =
      let ops = tree_ops fns fetch chain h in
      let whole = quiet (b ∷ bs) in
      let here = bounds_of at whole 0 in
      let moved = travel-IsMoved fns fetch chain h c good here in
      let counted = set_count 0 (ops.item_count c) whole in
      let entered : enter fns ops whole at 0 ids ≡ ok ((c, counted), ids) =
        >>=-ok (child_at ops whole 0) _ ids ids (c, whole)
          (child_at-held fns ops [] bs b c held ids)
        ∙ apply_pending_edits-other fns ops [] bs b c held here 0 Depth.shallow ids in
      >>=-ok (enter fns ops whole at 0) _ ids ids (c, counted) entered
      ∙ >>=-ok (find_rec fns fetch chain h c here none) _ ids ids (some moved.path, moved.after)
          (below here ids ∙ moved.result ids)
      ∙ sym (
          >>=-ok (enter_next fns ops whole at 0) _ ids ids (c, counted) entered
          ∙ >>=-ok (travel fns fetch chain h c here) _ ids ids (some moved.path, moved.after)
              (moved.result ids))

  from_first :
      (h : ℕ)
      → ((c : Tree h)
          → IsOpen h c
          → (at : Bounds) (ids : List NodeId)
          → find_rec fns fetch chain h c at none ids ≡ travel fns fetch chain h c at ids)
      → (bs : List (Branch (Tree h))) → 0 < length bs
      → All (IsThere (IsOpen h)) bs
      → (at : Bounds) (ids : List NodeId)
      → find_rec fns fetch chain (suc h) (quiet bs) at none ids
        ≡ travel fns fetch chain (suc h) (quiet bs) at ids
  from_first h below [] less all at ids = absurd (omega (arith, less))
  from_first h below (b ∷ bs) less (one, all) at ids =
      into_first h b bs one.node one.held one.good (below one.node one.good) at ids

  find_rec-travel :
      (h : ℕ) (tree : Tree h)
      → IsOpen h tree
      → (at : Bounds) (ids : List NodeId)
      → find_rec fns fetch chain h tree at none ids ≡ travel fns fetch chain h tree at ids
  unfolding find_rec find_leaf travel
  find_rec-travel zero leaf filled at ids =
      let some_pair : (0 == length leaf.pairs) ≡ false = ground (arith, filled.1) in
      rw some_pair refl
  find_rec-travel (suc h) node (empty, some_branch, there) at ids =
      subst
        (λ queue.
          find_rec fns fetch chain (suc h) (record node { edit_queue = queue }) at none ids
          ≡ travel fns fetch chain (suc h) (record node { edit_queue = queue }) at ids)
        (sym empty) (from_first h (find_rec-travel h) node.branches some_branch there at ids)

  pub begin-IsMoved :
      (h : ℕ) (tree : Tree h) → IsOpen h tree → IsMoved h tree 0 (begin fns fetch chain h tree)
  unfolding begin
  begin-IsMoved h tree filled =
      let moved = travel-IsMoved fns fetch chain h tree filled unbounded in
      record {
        path = moved.path;
        after = moved.after;
        result = λ ids. find_rec-travel h tree filled unbounded ids ∙ moved.result ids;
        still_open = moved.still_open;
        same = moved.same;
        reaches = moved.reaches;
      }
