-- ===== src/Bkv/Query.antt =====
-- queryKey prints the pairs of a key.
use libbruce.Base.{
  ℕ, ◌^◌, ◌<◌, ◌≡◌, ◌≢◌, refl, sym, ap, ◌∙◌, subst, ◌++◌, [], ◌∷◌, List, some, none, Bool, true,
  false, inl, inr, ok, length, drop, arith, if◌then◌else◌, Bool-cases, All, All-imp,
}
use libbruce.Memory.{Slice, KvPair, NodeId, slice_eq, slice_eq_refl, slice_eq-ne}
use libbruce.Functions.{TreeFunctions, IsLawful, IsKey, Le, Lt}
use libbruce.Functions.Order.{lt→ne}
use libbruce.Leaf.Order.{IsSorted, le_refl}
use libbruce.Leaf.Range.{le_antisym}
use libbruce.Tree.Leaf.{Fetch, >>=-ok}
use libbruce.Tree.Nodes.{Tree}
use libbruce.Tree.Pending.{unbounded}
use libbruce.Tree.Find.{find}
use libbruce.Tree.Find.Quiet.{tree_pairs, IsQuiet}
use libbruce.Tree.Find.Ordered.{IsOrdered, IsFirstOf, IsMissing}
use libbruce.Tree.Find.Sorted.{tree_pairs-IsSorted}
use libbruce.Tree.Find.Key.{find_rec-Finds}
use libbruce.Tree.Iterator.Open.{IsOpen}
use libbruce.Bkv.{query_key}
use libbruce.Bkv.Scan.{Prints, run_of, scan-Prints, scan-none}

-- The pairs of a key in a list, in their order.
abbrev pub with_key : Slice → List KvPair → List KvPair
with_key key [] = []
with_key key (p ∷ ps) = if slice_eq p.key key then p ∷ with_key key ps else with_key key ps

-- Whether a key is the one that is looked for.
abbrev pub is_key : Slice → Slice → Bool
is_key key k = slice_eq k key

with_key-IsMissing : (key : Slice) (ps : List KvPair) → IsMissing key ps → with_key key ps ≡ []
with_key-IsMissing key [] h = refl
with_key-IsMissing key (p ∷ ps) (h, hs) =
    rw (slice_eq-ne p.key key h) (with_key-IsMissing key ps hs)

with_key-behind :
    (key : Slice) (xs ys : List KvPair)
    → IsMissing key xs
    → with_key key (xs ++ ys) ≡ with_key key ys
with_key-behind key [] ys h = refl
with_key-behind key (x ∷ xs) ys (h, hs) =
    rw (slice_eq-ne x.key key h) (with_key-behind key xs ys hs)

drop-front : (xs ys : List KvPair) → drop (length xs) (xs ++ ys) ≡ ys
drop-front [] ys = refl
drop-front (x ∷ xs) ys = drop-front xs ys

module _ (fns : TreeFunctions) (lawful : IsLawful fns) (key : Slice) where
  -- In sorted pairs that begin at the key, those of the key stand in front.
  run_of-IsSorted :
      (ps : List KvPair)
      → IsSorted fns ps
      → All (λ p. Le fns key p.key) ps
      → run_of (is_key key) ps ≡ with_key key ps
  run_of-IsSorted [] sorted above = refl
  run_of-IsSorted (p ∷ ps) (k, over, sorted) (h, above) = elim (Bool-cases (slice_eq p.key key)) [
    | inl e ↦ rw e (ap (◌∷◌ p) (run_of-IsSorted ps sorted above))
    | inr e ↦ rw e (
        sym (
          with_key-IsMissing key ps (
            All-imp (λ q. Le fns p.key q.key) (λ q. q.key ≢ key)
              (λ q le same. split (
                sym e
                ∙ ap (λ a. slice_eq a key)
                    (le_antisym fns lawful p.key key (subst (Le fns p.key) same le) h)
                ∙ slice_eq_refl key))
              ps over)))
  ]
    where
      split : false ≡ true → ⊥
      split e = cc

  behind-IsSorted : (xs ys : List KvPair) → IsSorted fns (xs ++ ys) → IsSorted fns ys
  behind-IsSorted [] ys sorted = sorted
  behind-IsSorted (x ∷ xs) ys (_, _, sorted) = behind-IsSorted xs ys sorted

  -- From the first pair of a key on, the pairs of the key come one after another.
  run_of-first :
      (ps : List KvPair) (n : ℕ)
      → IsSorted fns ps
      → IsFirstOf fns key ps n
      → run_of (is_key key) (drop n ps) ≡ with_key key ps
  run_of-first ps n sorted first =
      let rest = first.pair ∷ first.back in
      let (k, over, tail) =
        behind-IsSorted first.front rest (subst (IsSorted fns) first.parts sorted) in
      let above : All (λ p. Le fns key p.key) rest = (
        subst (λ a. Le fns a first.pair.key) first.key_is (le_refl fns lawful first.pair.key),
        subst (λ a. All (λ p. Le fns a p.key) first.back) first.key_is over,
      ) in
      ap (run_of (is_key key)) (
        ap (λ m. drop m ps) first.index
        ∙ ap (drop (length first.front)) first.parts
        ∙ drop-front first.front rest)
      ∙ run_of-IsSorted rest (k, over, tail) above
      ∙ sym (
          ap (with_key key) first.parts
          ∙ with_key-behind key first.front rest (
              All-imp (λ p. Lt fns p.key key) (λ p. p.key ≢ key) (λ p. lt→ne fns lawful p.key key)
                first.front first.less))

-- queryKey for a non-empty key, in a tree in memory without overflow and waiting edits and with no
-- empty node, with the right counts, fewer than 2 ^ 32 pairs and keys in order under a lawful
-- comparator, with fuel above the number of pairs, prints all pairs of the key and no other, in their
-- order, and ends; the tree has the same pairs afterwards, and no block is loaded.
pub query_key-Prints :
    (fns : TreeFunctions)
    → IsLawful fns
    → (fetch : Fetch) (chain h : ℕ) (tree : Tree h) → IsQuiet h tree
    → IsOpen h tree
    → IsOrdered fns h tree
    → length (tree_pairs h tree) < 2 ^ 32
    → (key : Slice) → IsKey key
    → (fuel : ℕ) → length (tree_pairs h tree) < fuel
    → (ids : List NodeId)
    → Prints h tree
        (with_key key (tree_pairs h tree))
        ids
        (query_key fns fetch chain fuel h tree key)
unfolding query_key find
query_key-Prints fns lawful fetch chain h tree quiet filled ordered small key k fuel enough ids =
    let ps = tree_pairs h tree in
    elim (find_rec-Finds fns lawful fetch chain key k h tree quiet ordered small unbounded) [
      | inl (n, path, found, reaches, first) ↦
          let rest =
            scan-Prints fns fetch chain (is_key key) fuel h tree filled path n reaches
              (omega (arith, enough)) ids in
          record {
            after = rest.after;
            result =
                >>=-ok (find fns fetch chain h tree key) _ ids ids (some path, tree) (found ids)
                ∙ rest.result
                ∙ ap (λ qs. ok ((qs, rest.after), ids))
                    (run_of-first fns lawful key ps n
                      (tree_pairs-IsSorted fns lawful h tree ordered) first);
            still_open = rest.still_open;
            same = rest.same;
          }
      | inr (missing, found) ↦ record {
        after = tree;
        result =
            >>=-ok (find fns fetch chain h tree key) _ ids ids (none, tree) (found ids)
            ∙ scan-none fns fetch chain (is_key key) fuel h tree ids
            ∙ ap (λ qs. ok ((qs, tree), ids)) (sym (with_key-IsMissing key ps missing));
        still_open = filled;
        same = refl;
      }
    ]
