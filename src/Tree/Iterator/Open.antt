-- ===== src/Tree/Iterator/Open.antt =====
-- Trees in memory whose leaves hold pairs, whatever their counts, and the first leaf of a node.
use libbruce.Base.{
  ℕ, zero, suc, ◌+◌, ◌<◌, ◌≡◌, refl, sym, ap, ◌∙◌, subst, ◌++◌, [], ◌∷◌, List, Option, some, true,
  ok, length, set_at, All, All-append, All-append_left, All-append_right, arith,
}
use libbruce.Memory.{KvPair, NodeId}
use libbruce.Functions.{TreeFunctions}
use libbruce.Overflow
use libbruce.Internal.{Branch}
use libbruce.Tree.Leaf.{Fetch, Loads, >>=-ok}
use libbruce.Tree.Nodes.{Tree, Depth, child_at, tree_ops}
use libbruce.Tree.Pending.{Bounds, bounds_of, put_child, set_count}
use libbruce.Tree.Find.{TreePath, fork}
use libbruce.Tree.Find.Quiet.{
  quiet, tree_pairs, child_pairs, branch_pairs, branch_pairs-append, Passes, Reaches,
}
use libbruce.Tree.Find.Visit.{get_elem?-middle, child_at-held, apply_pending_edits-other}
use libbruce.Tree.Iterator.{enter_next, travel_branches, travel}

-- A branch whose child is in memory and is as `P` says.
pub record IsThere {C : Type 0} (P : C → Type 0) (b : Branch C) : Type 0 where
  pub node : C
  pub held : b.child ≡ some node
  pub good : P node

-- A tree in memory without overflow and waiting edits, with no empty node.
abbrev pub IsOpen : (h : ℕ) → Tree h → Type 0
IsOpen zero leaf = (Overflow.is_empty leaf.overflow ≡ true) × (0 < length leaf.pairs)
IsOpen (suc h) node =
    (node.edit_queue ≡ []) × (0 < length node.branches) × All (IsThere (IsOpen h)) node.branches

pub set_at-append :
    {A : Type 0} (xs : List A) (y z : A) (ys : List A)
    → set_at (length xs) z (xs ++ y ∷ ys) ≡ xs ++ z ∷ ys
set_at-append [] y z ys = refl
set_at-append (x ∷ xs) y z ys = ap (◌∷◌ x) (set_at-append xs y z ys)

-- The branches with another count at the first.
abbrev pub recount : {C : Type 0} → ℕ → List (Branch C) → List (Branch C)
recount n [] = []
recount n (b ∷ bs) = record b { item_count = n } ∷ bs

module _ {C : Type 0} (pairs : C → List KvPair) (n : ℕ) where
  recount-branch_pairs :
      (bs : List (Branch C)) → branch_pairs pairs (recount n bs) ≡ branch_pairs pairs bs
  recount-branch_pairs [] = refl
  recount-branch_pairs (b ∷ bs) = refl

  recount-length : (bs : List (Branch C)) → length (recount n bs) ≡ length bs
  recount-length [] = refl
  recount-length (b ∷ bs) = refl

  recount-IsThere :
      (P : C → Type 0) (bs : List (Branch C)) → All (IsThere P) bs → All (IsThere P) (recount n bs)
  recount-IsThere P [] h = tt
  recount-IsThere P (b ∷ bs) (h, hs) = (record { node = h.node; held = h.held; good = h.good }, hs)

  -- A path through a branch, whatever the first count is.
  recount-Passes :
      (R : C → TreePath → ℕ → Type 0) (xs ys : List (Branch C)) (b : Branch C) (c : C)
      → b.child ≡ some c
      → (path : TreePath) (m : ℕ) → R c path m
      → Passes pairs R
          (recount n (xs ++ b ∷ ys))
          (length xs)
          path
          (length (branch_pairs pairs xs) + m)
  recount-Passes R [] ys b c held path m r = record {
    before = [];
    branch = record b { item_count = n };
    after = ys;
    parts = refl;
    index = refl;
    node = c;
    held = held;
    offset = m;
    sum = refl;
    reaches = r;
  }
  recount-Passes R (x ∷ xs) ys b c held path m r = record {
    before = record x { item_count = n } ∷ xs;
    branch = b;
    after = ys;
    parts = refl;
    index = refl;
    node = c;
    held = held;
    offset = m;
    sum = refl;
    reaches = r;
  }

  put_child-recount :
      (xs ys : List (Branch C)) (b : Branch C) (c : C)
      → put_child (length xs) c (quiet (recount n (xs ++ b ∷ ys)))
        ≡ quiet (recount n (xs ++ record b { child = some c } ∷ ys))
  unfolding put_child
  put_child-recount [] ys b c = refl
  put_child-recount (x ∷ xs) ys b c =
      rw (get_elem?-middle xs b ys, put_child)
        (ap (λ bs. quiet (record x { item_count = n } ∷ bs))
          (set_at-append xs b (record b { child = some c }) ys))

  set_count-recount : (bs : List (Branch C)) → set_count 0 n (quiet bs) ≡ quiet (recount n bs)
  unfolding set_count
  set_count-recount [] = refl
  set_count-recount (b ∷ bs) = refl

-- A search that gives a path to the `n`-th pair of a tree with the same pairs.
pub record IsMoved (h : ℕ) (tree : Tree h) (n : ℕ) (search : Loads (Option TreePath × Tree h))
    : Type 0 where
  pub path : TreePath
  pub after : Tree h
  pub result : (ids : List NodeId) → search ids ≡ ok ((some path, after), ids)
  pub still_open : IsOpen h after
  pub same : tree_pairs h after ≡ tree_pairs h tree
  pub reaches : Reaches h after path n

module _ (h : ℕ) (xs ys : List (Branch (Tree h))) (b : Branch (Tree h)) (c c' : Tree h)
    (held : b.child ≡ some c) (same : tree_pairs h c' ≡ tree_pairs h c) where
  -- The pairs of a node whose child has been replaced by one with the same pairs.
  pub replaced_pairs :
      branch_pairs (tree_pairs h) (xs ++ record b { child = some c' } ∷ ys)
      ≡ branch_pairs (tree_pairs h) (xs ++ b ∷ ys)
  replaced_pairs =
      branch_pairs-append (tree_pairs h) xs (record b { child = some c' } ∷ ys)
      ∙ ap (λ ps. branch_pairs (tree_pairs h) xs ++ (ps ++ branch_pairs (tree_pairs h) ys))
          (same ∙ ap (child_pairs (tree_pairs h)) (sym held))
      ∙ sym (branch_pairs-append (tree_pairs h) xs (b ∷ ys))

  -- Such a node is still open.
  pub replaced-IsThere :
      All (IsThere (IsOpen h)) (xs ++ b ∷ ys)
      → IsOpen h c'
      → All (IsThere (IsOpen h)) (xs ++ record b { child = some c' } ∷ ys)
  replaced-IsThere all still =
      All-append (IsThere (IsOpen h)) xs (record b { child = some c' } ∷ ys)
        (All-append_left (IsThere (IsOpen h)) xs (b ∷ ys) all)
        (
          record { node = c'; held = refl; good = still },
          (All-append_right (IsThere (IsOpen h)) xs (b ∷ ys) all).1,
        )

pub middle_some : {A : Type 0} (xs ys : List A) (y : A) → 0 < length (xs ++ y ∷ ys)
middle_some [] ys y = omega arith
middle_some (x ∷ xs) ys y = omega arith

module _ (fns : TreeFunctions) (fetch : Fetch) (chain : ℕ) where
  -- The way into the branch behind `xs`, whose child has a first place.
  pub travel_branches-IsMoved :
      (h : ℕ) (xs ys : List (Branch (Tree h))) (b : Branch (Tree h)) (c : Tree h)
      → b.child ≡ some c
      → All (IsThere (IsOpen h)) (xs ++ b ∷ ys)
      → (at : Bounds) (m : ℕ)
      → IsMoved h c 0 (travel fns fetch chain h c (bounds_of at (quiet (xs ++ b ∷ ys)) (length xs)))
      → IsMoved (suc h) (quiet (xs ++ b ∷ ys)) (length (branch_pairs (tree_pairs h) xs)) (
          travel_branches fns
            (tree_ops fns fetch chain h)
            (travel fns fetch chain h)
            (suc m)
            (length xs)
            (quiet (xs ++ b ∷ ys))
            at)
  unfolding travel_branches enter_next
  travel_branches-IsMoved h xs ys b c held all at m moved =
      let ops = tree_ops fns fetch chain h in
      let k = ops.item_count c in
      let whole = xs ++ b ∷ ys in
      let here = bounds_of at (quiet whole) (length xs) in
      let b' : Branch (Tree h) = record b { child = some moved.after } in
      record {
        path = fork at (length xs) ∷ moved.path;
        after = quiet (recount k (xs ++ b' ∷ ys));
        result = λ ids.
            >>=-ok (enter_next fns ops (quiet whole) at (length xs)) _ ids ids
              (c, quiet (recount k whole))
              (>>=-ok (child_at ops (quiet whole) (length xs)) _ ids ids (c, quiet whole)
                  (child_at-held fns ops xs ys b c held ids)
                ∙ apply_pending_edits-other fns ops xs ys b c held here 0 Depth.shallow ids
                ∙ ap (λ node. ok ((c, node), ids)) (set_count-recount (tree_pairs h) k whole))
            ∙ >>=-ok (travel fns fetch chain h c here) _ ids ids (some moved.path, moved.after)
                (moved.result ids)
            ∙ ap (λ node. ok ((some (fork at (length xs) ∷ moved.path), node), ids))
                (put_child-recount (tree_pairs h) k xs ys b moved.after);
        still_open = (
          refl,
          omega (arith, recount-length (tree_pairs h) k (xs ++ b' ∷ ys), middle_some xs ys b'),
          recount-IsThere (tree_pairs h) k (IsOpen h) (xs ++ b' ∷ ys)
              (replaced-IsThere h xs ys b c moved.after held moved.same all moved.still_open),
        );
        same =
            recount-branch_pairs (tree_pairs h) k (xs ++ b' ∷ ys)
            ∙ replaced_pairs h xs ys b c moved.after held moved.same;
        reaches =
            subst
              (Passes (tree_pairs h) (Reaches h) (recount k (xs ++ b' ∷ ys)) (length xs) moved.path)
              (omega arith)
              (recount-Passes (tree_pairs h) k (Reaches h) xs ys b' moved.after refl moved.path 0
                moved.reaches);
      }

  from_first :
      (h : ℕ)
      → ((c : Tree h) → IsOpen h c → (at : Bounds) → IsMoved h c 0 (travel fns fetch chain h c at))
      → (bs : List (Branch (Tree h))) → 0 < length bs
      → All (IsThere (IsOpen h)) bs
      → (at : Bounds) → IsMoved (suc h) (quiet bs) 0 (travel fns fetch chain (suc h) (quiet bs) at)
  unfolding travel
  from_first h below [] less all at = absurd (omega (arith, less))
  from_first h below (b ∷ bs) less (first, all) at =
      travel_branches-IsMoved h [] bs b first.node first.held (first, all) at (length bs)
        (below first.node first.good (bounds_of at (quiet (b ∷ bs)) 0))

  -- The way to the first leaf.
  pub travel-IsMoved :
      (h : ℕ) (tree : Tree h)
      → IsOpen h tree
      → (at : Bounds) → IsMoved h tree 0 (travel fns fetch chain h tree at)
  unfolding travel
  travel-IsMoved zero leaf filled at = record {
    path = fork at 0 ∷ [];
    after = leaf;
    result = λ ids. refl;
    still_open = filled;
    same = refl;
    reaches = (refl, filled.1);
  }
  travel-IsMoved (suc h) node (empty, some_branch, there) at =
      subst
        (λ queue.
          IsMoved (suc h) (record node { edit_queue = queue }) 0
            (travel fns fetch chain (suc h) (record node { edit_queue = queue }) at))
        (sym empty) (from_first h (travel-IsMoved h) node.branches some_branch there at)
