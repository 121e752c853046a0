-- ===== src/Tree/Find/Visit.antt =====
-- A visit to a child of an inner node without waiting edits leaves the node as it is.
use libbruce.Base.{
  not, ◌&&◌, ℕ, zero, suc, ◌^◌, ◌<◌, ◌≡◌, refl, sym, ap, ◌∙◌, ◌++◌, [], ◌∷◌, List, some, get_elem?,
  if◌then◌else◌, Bool, true, false, ok, ◌==◌, length, set_at, arith,
}
use libbruce.Memory.{size, NodeId}
use libbruce.Functions.{TreeFunctions}
use libbruce.Overflow
use libbruce.Leaf
use libbruce.Internal
use libbruce.Internal.{Branch, InternalNode}
use libbruce.Tree.Inner.{is_guaranteed, sum_deltas}
use libbruce.Tree.Leaf.{Fetch, >>=-ok}
use libbruce.Tree.Nodes.{Tree, NodeOps, Depth, child_at, child, tree_ops, apply_each}
use libbruce.Tree.Pending.{
  Bounds, bounds_of, apply_pending_edits, pending_rank_delta, put_child, set_count,
}
use libbruce.Tree.Find.{enter}
use libbruce.Tree.Find.Quiet.{quiet, tree_pairs, IsQuiet, sum_branches-held}

pub get_elem?-middle :
    {A : Type 0} (xs : List A) (y : A) (ys : List A) → get_elem? (xs ++ y ∷ ys) (length xs) ≡ some y
get_elem?-middle [] y ys = refl
get_elem?-middle (x ∷ xs) y ys = get_elem?-middle xs y ys

set_at-middle :
    {A : Type 0} (xs : List A) (y : A) (ys : List A)
    → set_at (length xs) y (xs ++ y ∷ ys) ≡ xs ++ y ∷ ys
set_at-middle [] y ys = refl
set_at-middle (x ∷ xs) y ys = ap (◌∷◌ x) (set_at-middle xs y ys)

never : (b : Bool) (n : ℕ) → (if b && false then n else n) ≡ n
never true n = refl
never false n = refl

-- The pairs of a tree without waiting edits and overflow are what its count says.
pub item_count-tree :
    (fns : TreeFunctions) (fetch : Fetch) (chain h : ℕ) (tree : Tree h)
    → IsQuiet h tree
    → length (tree_pairs h tree) < 2 ^ 32
    → (tree_ops fns fetch chain h).item_count tree ≡ length (tree_pairs h tree)
unfolding Leaf.item_count Internal.item_count Internal.sum_edits
item_count-tree fns fetch chain zero leaf q small =
    let none_more : Overflow.count leaf.overflow ≡ 0 = ground (arith, q) in
    omega (arith, none_more, small)
item_count-tree fns fetch chain (suc h) node (empty, held) small = rw empty (
    sum_branches-held (tree_pairs h) (IsQuiet h) 0 node.branches held (omega (arith, small))
    ∙ omega arith)

module _ {C : Type 0} (fns : TreeFunctions) (ops : NodeOps C) (xs ys : List (Branch C))
    (b : Branch C) (c : C) (held : b.child ≡ some c) where
  abbrev all : List (Branch C)
  all = xs ++ b ∷ ys

  same_child : record b { child = some c } ≡ b
  same_child = ap (λ o. record b { child = o }) (sym held)

  pub put_child-same : put_child (length xs) c (quiet all) ≡ quiet all
  unfolding put_child
  put_child-same =
      rw (get_elem?-middle xs b ys, put_child) (ap quiet (rw same_child (set_at-middle xs b ys)))

  child-held : (ids : List NodeId) → child ops b ids ≡ ok ((c, b), ids)
  unfolding child
  child-held ids = rw held refl

  pub child_at-held :
      (ids : List NodeId) → child_at ops (quiet all) (length xs) ids ≡ ok ((c, quiet all), ids)
  unfolding child_at
  child_at-held ids =
      rw (get_elem?-middle xs b ys, child_at)
        (>>=-ok (child ops b) _ ids ids (c, b) (child-held ids)
          ∙ ap (λ bs. ok ((c, quiet bs), ids)) (set_at-middle xs b ys))

  pub pending_rank_delta-quiet :
      (at : Bounds) (i : ℕ) (ids : List NodeId)
      → pending_rank_delta fns ops (quiet all) at i c ids ≡ ok ((0, c, quiet all), ids)
  unfolding pending_rank_delta is_guaranteed sum_deltas
  pending_rank_delta-quiet at i ids =
      rw (never (not (size at.min_key == 0)) 0) (rw (never (not (size at.max_key == 0)) 0) refl)

  -- With the count written to any branch `k`.
  pub apply_pending_edits-other :
      (at : Bounds) (k : ℕ) (depth : Depth) (ids : List NodeId)
      → apply_pending_edits fns ops (quiet all) at (length xs) k c depth ids
        ≡ ok ((c, set_count k (ops.item_count c) (quiet all)), ids)
  unfolding apply_pending_edits apply_each
  apply_pending_edits-other at k depth ids = rw (never (not (size at.min_key == 0)) 0) (
      rw (never (not (size at.max_key == 0)) 0)
        (ap (λ node. ok ((c, set_count k (ops.item_count c) node), ids)) put_child-same))

  module _ (counted : b.item_count ≡ ops.item_count c) where
    same_count : record b { item_count = ops.item_count c } ≡ b
    same_count = ap (λ n. record b { item_count = n }) (sym counted)

    set_count-same : set_count (length xs) (ops.item_count c) (quiet all) ≡ quiet all
    unfolding set_count
    set_count-same =
        rw (get_elem?-middle xs b ys, set_count) (ap quiet (rw same_count (set_at-middle xs b ys)))

    pub apply_pending_edits-quiet :
        (at : Bounds) (depth : Depth) (ids : List NodeId)
        → apply_pending_edits fns ops (quiet all) at (length xs) (length xs) c depth ids
          ≡ ok ((c, quiet all), ids)
    apply_pending_edits-quiet at depth ids =
        apply_pending_edits-other at (length xs) depth ids
        ∙ ap (λ node. ok ((c, node), ids)) set_count-same

    pub enter-quiet :
        (at : Bounds) (ids : List NodeId)
        → enter fns ops (quiet all) at (length xs) ids ≡ ok ((c, quiet all), ids)
    unfolding enter
    enter-quiet at ids =
        >>=-ok (child_at ops (quiet all) (length xs)) _ ids ids (c, quiet all) (child_at-held ids)
        ∙ apply_pending_edits-quiet (bounds_of at (quiet all) (length xs)) Depth.shallow ids
