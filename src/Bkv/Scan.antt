-- ===== src/Bkv/Scan.antt =====
-- The loops of the command line tool print the pairs of a tree.
use libbruce.Base.{
  ℕ, zero, suc, ◌+◌, ◌<◌, ◌≡◌, refl, sym, ap, ◌∙◌, [], ◌∷◌, List, Option, none, some, Bool, true,
  false, inl, inr, ok, length, drop, get_elem?, arith, if◌then◌else◌, Bool-cases,
}
use libbruce.Memory.{Slice, KvPair, NodeId}
use libbruce.Functions.{TreeFunctions}
use libbruce.Tree.Leaf.{Fetch, Loads, >>=-ok, fail}
use libbruce.Tree.Nodes.{Tree}
use libbruce.Tree.Find.{TreePath, begin}
use libbruce.Tree.Find.Quiet.{tree_pairs, Reaches}
use libbruce.Tree.Find.Place.{IsPairAt, Reaches-IsPairAt}
use libbruce.Tree.Iterator.{key_at, value_at, is_valid, next}
use libbruce.Tree.Iterator.Open.{IsOpen}
use libbruce.Tree.Iterator.Order.{Reaches-is_valid, next-ok}
use libbruce.Tree.Iterator.Begin.{begin-IsMoved}
use libbruce.Bkv.{scan, full_scan}

-- The pairs from the front of a list on whose key is wanted, up to the first that is not.
abbrev pub run_of : (Slice → Bool) → List KvPair → List KvPair
run_of wanted [] = []
run_of wanted (p ∷ ps) = if wanted p.key then p ∷ run_of wanted ps else []

drop-get_elem? :
    (ps : List KvPair) (n : ℕ) (p : KvPair)
    → get_elem? ps n ≡ some p
    → drop n ps ≡ p ∷ drop (suc n) ps
drop-get_elem? [] n p e = absurd (cc)
drop-get_elem? (x ∷ ps) zero p e = ap (λ y. y ∷ ps) (same x p e)
  where
    same : (a b : KvPair) → some a ≡ some b → a ≡ b
    same a b e = cc
drop-get_elem? (x ∷ ps) (suc n) p e = drop-get_elem? ps n p e

drop-length : (ps : List KvPair) (n : ℕ) → n ≡ length ps → drop n ps ≡ []
drop-length [] zero e = refl
drop-length [] (suc n) e = refl
drop-length (x ∷ ps) zero e = absurd (omega (arith, e))
drop-length (x ∷ ps) (suc n) e = drop-length ps n (omega (arith, e))

Reaches-below :
    (h : ℕ) (tree : Tree h) (path : TreePath) (n : ℕ)
    → Reaches h tree path n
    → n < length (tree_pairs h tree)
Reaches-below h tree path n r =
    let here = Reaches-IsPairAt h tree path n r in
    get_elem?-some (tree_pairs h tree) n here.pair here.at
  where
    get_elem?-some :
        (ps : List KvPair) (n : ℕ) (p : KvPair) → get_elem? ps n ≡ some p → n < length ps
    get_elem?-some [] n p e = absurd (cc)
    get_elem?-some (x ∷ ps) zero p e = omega arith
    get_elem?-some (x ∷ ps) (suc n) p e = omega (arith, get_elem?-some ps n p e)

-- A loop that prints some pairs, and leaves a tree with the same pairs.
pub record Prints (h : ℕ) (tree : Tree h) (ps : List KvPair) (ids : List NodeId)
    (loop : Loads (List KvPair × Tree h)) : Type 0 where
  pub after : Tree h
  pub result : loop ids ≡ ok ((ps, after), ids)
  pub still_open : IsOpen h after
  pub same : tree_pairs h after ≡ tree_pairs h tree

module _ (fns : TreeFunctions) (fetch : Fetch) (chain : ℕ) (wanted : Slice → Bool) where
  -- One turn of the loop, at a pair that is wanted.
  scan-turn :
      (h : ℕ) (tree next_tree after : Tree h) (path : TreePath) (it : Option TreePath) (n m : ℕ)
      → is_valid h tree path ≡ true
      → (here : IsPairAt h tree path m) → wanted here.pair.key ≡ true
      → (ids : List NodeId) (ps : List KvPair)
      → next fns fetch chain h tree path ids ≡ ok ((it, next_tree), ids)
      → scan fns fetch chain wanted n h next_tree it ids ≡ ok ((ps, after), ids)
      → scan fns fetch chain wanted (suc n) h tree (some path) ids
        ≡ ok ((here.pair ∷ ps, after), ids)
  unfolding scan
  scan-turn h tree next_tree after path it n m valid here is ids ps step rest = rw valid (
      >>=-ok (fail (key_at h tree path)) _ ids ids here.pair.key (ap (λ r. fail r ids) here.key)
      ∙ rw is (
          >>=-ok (fail (value_at h tree path)) _ ids ids here.pair.value
            (ap (λ r. fail r ids) here.value)
          ∙ >>=-ok (next fns fetch chain h tree path) _ ids ids (it, next_tree) step
          ∙ >>=-ok (scan fns fetch chain wanted n h next_tree it) _ ids ids (ps, after) rest))

  -- The end of the loop, at a pair that is not wanted.
  scan-stop :
      (h : ℕ) (tree : Tree h) (path : TreePath) (n m : ℕ)
      → is_valid h tree path ≡ true
      → (here : IsPairAt h tree path m) → wanted here.pair.key ≡ false
      → (ids : List NodeId)
      → scan fns fetch chain wanted (suc n) h tree (some path) ids ≡ ok (([], tree), ids)
  unfolding scan
  scan-stop h tree path n m valid here not_wanted ids = rw valid (
      >>=-ok (fail (key_at h tree path)) _ ids ids here.pair.key (ap (λ r. fail r ids) here.key)
      ∙ rw not_wanted refl)

  pub scan-none :
      (n h : ℕ) (tree : Tree h) (ids : List NodeId)
      → scan fns fetch chain wanted n h tree none ids ≡ ok (([], tree), ids)
  unfolding scan
  scan-none zero h tree ids = refl
  scan-none (suc n) h tree ids = refl

  -- The loop from a path to the `m`-th pair prints the pairs from there on that are wanted.
  pub scan-Prints :
      (n h : ℕ) (tree : Tree h)
      → IsOpen h tree
      → (path : TreePath) (m : ℕ) → Reaches h tree path m
      → length (tree_pairs h tree) < m + n
      → (ids : List NodeId)
      → Prints h tree
          (run_of wanted (drop m (tree_pairs h tree)))
          ids
          (scan fns fetch chain wanted n h tree (some path))
  scan-Prints zero h tree filled path m r enough ids =
      absurd (omega (arith, enough, Reaches-below h tree path m r))
  scan-Prints (suc n) h tree filled path m r enough ids =
      let here = Reaches-IsPairAt h tree path m r in
      let valid = Reaches-is_valid fns fetch chain h tree path m r in
      let ps = tree_pairs h tree in
      let cut : drop m ps ≡ here.pair ∷ drop (suc m) ps = drop-get_elem? ps m here.pair here.at in
      elim (Bool-cases (wanted here.pair.key)) [
        | inr not_wanted ↦ record {
          after = tree;
          result =
              scan-stop h tree path n m valid here not_wanted ids
              ∙ ap (λ qs. ok ((qs, tree), ids)) (sym (ap (run_of wanted) cut ∙ rw not_wanted refl));
          still_open = filled;
          same = refl;
        }
        | inl is ↦
            let front : (qs : List KvPair)
                → drop (suc m) ps ≡ qs
                → here.pair ∷ run_of wanted qs ≡ run_of wanted (drop m ps) =
              λ qs e. sym (ap (run_of wanted) (cut ∙ ap (◌∷◌ here.pair) e) ∙ rw is refl) in
            elim (next-ok fns fetch chain h tree filled path m r ids) [
              | inl (path', next_tree, step, still, same, reaches, _) ↦
                  let rest =
                    scan-Prints n h next_tree still path' (m + 1) reaches
                      (omega (arith, enough, ap length same)) ids in
                  let qs = drop (m + 1) (tree_pairs h next_tree) in
                  let one_on : suc m ≡ m + 1 = omega arith in
                  record {
                    after = rest.after;
                    result =
                        scan-turn h tree next_tree rest.after path (some path') n m valid here is
                          ids (run_of wanted qs) step rest.result
                        ∙ ap (λ rs. ok ((rs, rest.after), ids))
                            (front qs (ap (λ k. drop k ps) one_on ∙ ap (drop (m + 1)) (sym same)));
                    still_open = rest.still_open;
                    same = rest.same ∙ same;
                  }
              | inr (last, step) ↦ record {
                after = tree;
                result =
                    scan-turn h tree tree tree path none n m valid here is ids [] step
                      (scan-none n h tree ids)
                    ∙ ap (λ rs. ok ((rs, tree), ids))
                        (front [] (drop-length ps (suc m) (omega (arith, last))));
                still_open = filled;
                same = refl;
              }
            ]
      ]

run_of-all : (ps : List KvPair) → run_of (λ key. true) ps ≡ ps
run_of-all [] = refl
run_of-all (p ∷ ps) = ap (◌∷◌ p) (run_of-all ps)

-- fullScan of a tree in memory without overflow and waiting edits and with no empty node, with fuel
-- above the number of pairs, prints the pairs of the tree in their order, each once, and ends; the
-- tree has the same pairs afterwards, and no block is loaded.
pub full_scan-Prints :
    (fns : TreeFunctions) (fetch : Fetch) (chain h : ℕ) (tree : Tree h)
    → IsOpen h tree
    → (fuel : ℕ) → length (tree_pairs h tree) < fuel
    → (ids : List NodeId)
    → Prints h tree (tree_pairs h tree) ids (full_scan fns fetch chain fuel h tree)
unfolding full_scan
full_scan-Prints fns fetch chain h tree filled fuel enough ids =
    let moved = begin-IsMoved fns fetch chain h tree filled in
    let rest =
      scan-Prints fns fetch chain (λ key. true) fuel h moved.after moved.still_open moved.path 0
        moved.reaches (omega (arith, enough, ap length moved.same)) ids in
    record {
      after = rest.after;
      result =
          >>=-ok (begin fns fetch chain h tree) _ ids ids (some moved.path, moved.after)
            (moved.result ids)
          ∙ rest.result
          ∙ ap (λ ps. ok ((ps, rest.after), ids))
              (run_of-all (tree_pairs h moved.after) ∙ moved.same);
      still_open = rest.still_open;
      same = rest.same ∙ moved.same;
    }
