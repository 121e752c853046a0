-- ===== src/Tree/Find/Sorted.antt =====
-- The pairs of a tree whose keys are in order are sorted.
use libbruce.Base.{
  ℕ, zero, suc, ◌≡◌, ◌⊎◌, refl, true, ◌++◌, [], ◌∷◌, List, Option, some, none, All, All-imp,
  All-append,
}
use libbruce.Memory.{Slice, KvPair}
use libbruce.Memory
use libbruce.Functions.{TreeFunctions, IsLawful, Le, Lt}
use libbruce.Functions.Order.{lt→le}
use libbruce.Leaf.Order.{IsSorted}
use libbruce.Internal.{Branch}
use libbruce.Internal.Search.{IsRising, EndsBefore}
use libbruce.Tree.Nodes.{Tree}
use libbruce.Tree.Find.Quiet.{tree_pairs, child_pairs, branch_pairs}
use libbruce.Tree.Find.Ordered.{IsOrdered, IsFenced, AllChildren}
use libbruce.Tree.Find.Fences.{rising_keys, after_more}

module _ (fns : TreeFunctions) (lawful : IsLawful fns) where
  append-IsSorted :
      (xs ys : List KvPair)
      → IsSorted fns xs
      → IsSorted fns ys
      → All (λ p. All (λ q. Lt fns p.key q.key) ys) xs
      → IsSorted fns (xs ++ ys)
  append-IsSorted [] ys sx sy less = sy
  append-IsSorted (x ∷ xs) ys (key, above, sx) sy (lt, less) = (
    key,
    All-append (λ q. Le fns x.key q.key) xs ys above
        (All-imp (λ q. Lt fns x.key q.key) (λ q. Le fns x.key q.key)
          (λ q. lt→le fns lawful x.key q.key) ys lt),
    append-IsSorted xs ys sx sy less,
  )

  branch_pairs-IsSorted :
      {C : Type 0} (pairs : C → List KvPair) (bs : List (Branch C))
      → IsRising fns bs
      → IsFenced fns pairs bs
      → AllChildren (λ c. IsSorted fns (pairs c)) bs
      → IsSorted fns (branch_pairs pairs bs)
  branch_pairs-IsSorted pairs [] rising fenced sorted = tt
  branch_pairs-IsSorted {C} pairs (b ∷ bs) rising fenced (here, sorted) =
      append-IsSorted (child_pairs pairs b.child) (branch_pairs pairs bs) (of_child b.child here)
        (branch_pairs-IsSorted pairs bs rising.1 fenced.1 sorted)
        (All-imp
          (λ p.
            ((Memory.is_empty b.min_key ≡ true) ⊎ Le fns b.min_key p.key) × EndsBefore fns p.key bs)
          (λ p. All (λ q. Lt fns p.key q.key) (branch_pairs pairs bs))
          (λ p h.
            after_more fns lawful pairs p.key bs (rising_keys fns lawful pairs p.key b bs rising)
              rising.1 fenced.1 h.1)
          (child_pairs pairs b.child) fenced.0)
    where
      of_child :
          (c : Option C)
          → ((d : C) → c ≡ some d → IsSorted fns (pairs d))
          → IsSorted fns (child_pairs pairs c)
      of_child none h = tt
      of_child (some d) h = h d refl

  pub tree_pairs-IsSorted :
      (h : ℕ) (tree : Tree h) → IsOrdered fns h tree → IsSorted fns (tree_pairs h tree)
  tree_pairs-IsSorted zero leaf sorted = sorted
  tree_pairs-IsSorted (suc h) node (first, rising, fenced, ordered) =
      branch_pairs-IsSorted (tree_pairs h) node.branches rising fenced (
        All-imp (λ b. (c : Tree h) → b.child ≡ some c → IsOrdered fns h c)
          (λ b. (c : Tree h) → b.child ≡ some c → IsSorted fns (tree_pairs h c))
          (λ b good c held. tree_pairs-IsSorted h c (good c held)) node.branches ordered)
