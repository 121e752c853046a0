-- ===== src/Tree/Find/Key.antt =====
-- find gives the first pair of a key.
use libbruce.Base.{
  ℕ, zero, suc, ◌+◌, ◌^◌, ◌<◌, ◌≡◌, ◌≢◌, ◌⊎◌, refl, sym, ap, ◌∙◌, subst, ◌++◌, [], ◌∷◌, List,
  Option, none, some, true, false, inl, inr, length, All, All-imp, All-append, All-append_right,
  arith, length-append, ok, ◌==◌,
}
use libbruce.Memory.{Slice, KvPair, NodeId}
use libbruce.Functions.{TreeFunctions, IsLawful, IsKey, Lt}
use libbruce.Functions.Order.{lt→ne, gt→ne}
use libbruce.Leaf.{find_range, first_not_before, first_after}
use libbruce.Internal.{Branch, find_internal_key}
use libbruce.Internal.Search.{IsRising, find_internal_key-IsPlace}
use libbruce.Tree.Leaf.{Fetch, Loads, >>=-ok}
use libbruce.Tree.Nodes.{Tree, NodeOps, tree_ops}
use libbruce.Tree.Pending.{Bounds, unbounded, bounds_of}
use libbruce.Tree.Find.{TreePath, fork, below, enter, find_leaf, find_internal, find_rec, find}
use libbruce.Tree.Find.Quiet.{
  quiet, tree_pairs, branch_pairs, branch_pairs-append, IsQuiet, IsHeld, Reaches,
}
use libbruce.Tree.Find.Visit.{enter-quiet, put_child-same, item_count-tree}
use libbruce.Tree.Find.Place.{IsPairAt, Reaches-IsPairAt}
use libbruce.Tree.Find.Fences.{before_less, behind_more}
use libbruce.Tree.Find.Ordered.{
  IsFirstOf, IsMissing, IsFenced, IsOrdered, AllChildren, range-cases, IsFirstOf-append,
}

-- What a search for a key gives: a path to its first pair, or none. The node and the loaded ids
-- stay as they are.
abbrev pub Finds :
    TreeFunctions
    → Slice
    → {C : Type 0} → (TreePath → ℕ → Type 0)
    → C
    → List KvPair
    → Loads (Option TreePath × C)
    → Type 0
Finds fns key R c ps search =
    ((n : ℕ) × (path : TreePath) × ((ids : List NodeId) → search ids ≡ ok ((some path, c), ids))
      × R path n
      × IsFirstOf fns key ps n)
    ⊎ (IsMissing key ps × ((ids : List NodeId) → search ids ≡ ok ((none, c), ids)))

module _ {C : Type 0} (fns : TreeFunctions) (ops : NodeOps C) (key : Slice)
    (find_child : C → Bounds → Option Slice → Loads (Option TreePath × C)) where
  -- The way through the branch that FindInternalKey gives.
  find_internal-at :
      (xs ys : List (Branch C)) (b : Branch C) (c : C)
      → b.child ≡ some c
      → b.item_count ≡ ops.item_count c
      → find_internal_key fns (quiet (xs ++ b ∷ ys)) key ≡ length xs
      → (at : Bounds) (r : Option TreePath) (ids : List NodeId)
      → find_child c (bounds_of at (quiet (xs ++ b ∷ ys)) (length xs)) (some key) ids
        ≡ ok ((r, c), ids)
      → find_internal fns ops find_child (quiet (xs ++ b ∷ ys)) at (some key) ids
        ≡ ok ((below (fork at (length xs)) r, quiet (xs ++ b ∷ ys)), ids)
  unfolding find_internal
  find_internal-at xs ys b c held counted i at r ids found =
      let all = quiet (xs ++ b ∷ ys) in
      rw (i, find_internal)
        (>>=-ok (enter fns ops all at (length xs)) _ ids ids (c, all)
            (enter-quiet fns ops xs ys b c held counted at ids)
          ∙ >>=-ok (find_child c (bounds_of at all (length xs)) (some key)) _ ids ids (r, c) found
          ∙ ap (λ node. ok ((below (fork at (length xs)) r, node), ids))
              (put_child-same fns ops xs ys b c held))

module _ (fns : TreeFunctions) (lawful : IsLawful fns) (fetch : Fetch) (chain : ℕ) (key : Slice)
    (k : IsKey key) where
  find_leaf-Finds :
      (leaf : Tree zero)
      → IsOrdered fns zero leaf
      → (at : Bounds)
      → Finds fns key
          (Reaches zero leaf)
          leaf
          leaf.pairs
          (find_rec fns fetch chain zero leaf at (some key))
  unfolding find_rec find_leaf find_range
  find_leaf-Finds leaf sorted at = elim (range-cases fns lawful key leaf.pairs k sorted) [
    | inl (first, more) ↦
        let apart : (first_not_before fns key leaf.pairs == first_after fns key leaf.pairs)
            ≡ false =
          ground (arith, more) in
        inl (
          first_not_before fns key leaf.pairs,
          fork at (first_not_before fns key leaf.pairs) ∷ [],
          (λ ids. rw (apart, find_leaf) refl),
          (
            refl,
            omega (
              arith,
              first.index,
              ap length first.parts,
              length-append first.front (first.pair ∷ first.back),
            ),
          ),
          first,
        )
    | inr (missing, same) ↦
        let equal : (first_not_before fns key leaf.pairs == first_after fns key leaf.pairs) ≡ true =
          ground (arith, same) in
        inr (missing, λ ids. rw (equal, find_leaf) refl)
  ]

  -- The pairs of a node on both sides of a branch.
  abbrev parted : (h : ℕ) → List (Branch (Tree h)) → Tree h → List (Branch (Tree h)) → List KvPair
  parted h xs c ys =
      branch_pairs (tree_pairs h) xs ++ (tree_pairs h c ++ branch_pairs (tree_pairs h) ys)

  -- What the search of the branch of the key gives for the node.
  find_internal-Finds :
      (h : ℕ) (xs ys : List (Branch (Tree h))) (b : Branch (Tree h)) (c : Tree h)
      → b.child ≡ some c
      → b.item_count ≡ (tree_ops fns fetch chain h).item_count c
      → find_internal_key fns (quiet (xs ++ b ∷ ys)) key ≡ length xs
      → All (λ p. Lt fns p.key key) (branch_pairs (tree_pairs h) xs)
      → All (λ p. Lt fns key p.key) (branch_pairs (tree_pairs h) ys)
      → (at : Bounds)
      → Finds fns key (Reaches h c) c (tree_pairs h c) (
          find_rec fns fetch chain h c (bounds_of at (quiet (xs ++ b ∷ ys)) (length xs)) (some key))
      → Finds fns key
          (Reaches (suc h) (quiet (xs ++ b ∷ ys)))
          (quiet (xs ++ b ∷ ys))
          (parted h xs c ys)
          (find_internal fns
            (tree_ops fns fetch chain h)
            (find_rec fns fetch chain h)
            (quiet (xs ++ b ∷ ys))
            at
            (some key))
  find_internal-Finds h xs ys b c held counted i less more at
        (inl (n, path, found, reaches, first)) =
      inl (
        length (branch_pairs (tree_pairs h) xs) + n,
        fork at (length xs) ∷ path,
        (λ ids.
            find_internal-at fns (tree_ops fns fetch chain h) key (find_rec fns fetch chain h) xs ys
              b c held counted i at (some path) ids (found ids)),
        record {
          before = xs;
          branch = b;
          after = ys;
          parts = refl;
          index = refl;
          node = c;
          held = held;
          offset = n;
          sum = refl;
          reaches = reaches;
        },
        IsFirstOf-append fns lawful key (branch_pairs (tree_pairs h) xs) (tree_pairs h c)
            (branch_pairs (tree_pairs h) ys) n less first,
      )
  find_internal-Finds h xs ys b c held counted i less more at (inr (missing, found)) = inr (
    All-append (λ p. p.key ≢ key) (branch_pairs (tree_pairs h) xs)
        (tree_pairs h c ++ branch_pairs (tree_pairs h) ys)
        (All-imp (λ p. Lt fns p.key key) (λ p. p.key ≢ key) (λ p. lt→ne fns lawful p.key key)
          (branch_pairs (tree_pairs h) xs) less)
        (All-append (λ p. p.key ≢ key) (tree_pairs h c) (branch_pairs (tree_pairs h) ys) missing
          (All-imp (λ p. Lt fns key p.key) (λ p. p.key ≢ key) (λ p. gt→ne fns lawful p.key key)
            (branch_pairs (tree_pairs h) ys) more)),
    λ ids.
        find_internal-at fns (tree_ops fns fetch chain h) key (find_rec fns fetch chain h) xs ys b c
          held counted i at none ids (found ids),
  )

  -- A search for a key in a tree.
  pub find_rec-Finds :
      (h : ℕ) (tree : Tree h)
      → IsQuiet h tree
      → IsOrdered fns h tree
      → length (tree_pairs h tree) < 2 ^ 32
      → (at : Bounds)
      → Finds fns key
          (Reaches h tree)
          tree
          (tree_pairs h tree)
          (find_rec fns fetch chain h tree at (some key))
  unfolding find_rec
  find_rec-Finds zero leaf q sorted small at = find_leaf-Finds leaf sorted at
  find_rec-Finds (suc h) node (empty, held) (first, rising, fenced, ordered) small at =
      let place = find_internal_key-IsPlace fns lawful (quiet node.branches) key k first rising in
      let whole : quiet (place.before ++ place.place ∷ place.after) ≡ node =
        ap quiet (sym place.parts) ∙ ap (λ queue. record node { edit_queue = queue }) (sym empty) in
      let held' = subst (All (IsHeld (tree_pairs h) (IsQuiet h))) place.parts held in
      let here =
        (All-append_right (IsHeld (tree_pairs h) (IsQuiet h)) place.before
          (place.place ∷ place.after) held').0 in
      let rising' = subst (IsRising fns) place.parts rising in
      let fenced' = subst (IsFenced fns (tree_pairs h)) place.parts fenced in
      let child_ordered =
        (All-append_right (λ b. (c : Tree h) → b.child ≡ some c → IsOrdered fns h c) place.before
            (place.place ∷ place.after)
            (subst (AllChildren (IsOrdered fns h)) place.parts ordered)).0
          here.node here.held in
      let parts : tree_pairs (suc h) node ≡ parted h place.before here.node place.after =
        ap (branch_pairs (tree_pairs h)) place.parts
        ∙ branch_pairs-append (tree_pairs h) place.before (place.place ∷ place.after)
        ∙ rw here.held refl in
      let low : length (tree_pairs h here.node) < 2 ^ 32 = omega (
        arith,
        small,
        ap length parts,
        length-append (branch_pairs (tree_pairs h) place.before)
            (tree_pairs h here.node ++ branch_pairs (tree_pairs h) place.after),
        length-append (tree_pairs h here.node) (branch_pairs (tree_pairs h) place.after),
      ) in
      let index : find_internal_key fns (quiet (place.before ++ place.place ∷ place.after)) key
          ≡ length place.before =
        ap (λ bs. find_internal_key fns (quiet bs) key) (sym place.parts) ∙ place.index in
      subst
        (λ t.
          Finds fns key (Reaches (suc h) t) t (tree_pairs (suc h) node)
            (find_rec fns fetch chain (suc h) t at (some key)))
        whole
        (subst
          (λ ps.
            Finds fns key (Reaches (suc h) (quiet (place.before ++ place.place ∷ place.after)))
              (quiet (place.before ++ place.place ∷ place.after)) ps
              (find_rec fns fetch chain (suc h) (quiet (place.before ++ place.place ∷ place.after))
                at (some key)))
          (sym parts)
          (find_internal-Finds h place.before place.after place.place here.node here.held
            (here.counted ∙ sym (item_count-tree fns fetch chain h here.node here.good low)) index
            (before_less fns lawful (tree_pairs h) key place.before place.after place.place rising'
              fenced' place.starts)
            (behind_more fns lawful (tree_pairs h) key place.before place.after place.place rising'
              fenced' place.ends)
            at
            (find_rec-Finds h here.node here.good child_ordered low (
              bounds_of at (quiet (place.before ++ place.place ∷ place.after))
                (length place.before)))))

-- In a tree in memory without overflow and waiting edits, with the right counts, fewer than 2 ^ 32
-- pairs and keys in order under a lawful comparator, find of a non-empty key either gives a path
-- whose key and value are those of the first pair of the key, with only lesser keys before it, or
-- gives none, and no pair of the tree has the key. The tree and the loaded ids stay as they are.
pub find-ok :
    (fns : TreeFunctions)
    → IsLawful fns
    → (fetch : Fetch) (chain h : ℕ) (tree : Tree h) → IsQuiet h tree
    → IsOrdered fns h tree
    → length (tree_pairs h tree) < 2 ^ 32
    → (key : Slice) → IsKey key
    → (ids : List NodeId)
    → ((n : ℕ) × (path : TreePath) × (find fns fetch chain h tree key ids
          ≡ ok ((some path, tree), ids))
        × IsPairAt h tree path n
        × IsFirstOf fns key (tree_pairs h tree) n)
      ⊎ (IsMissing key (tree_pairs h tree)
          × (find fns fetch chain h tree key ids ≡ ok ((none, tree), ids)))
unfolding find
find-ok fns lawful fetch chain h tree quiet ordered small key k ids =
    elim (find_rec-Finds fns lawful fetch chain key k h tree quiet ordered small unbounded) [
      | inl (n, path, found, reaches, first) ↦
          inl (n, path, found ids, Reaches-IsPairAt h tree path n reaches, first)
      | inr (missing, found) ↦ inr (missing, found ids)
    ]
