-- ===== src/Tree/Find/Place.antt =====
-- The pair that a path leads to.
use libbruce.Base.{
  ℕ, zero, suc, ◌+◌, ◌<◌, ◌≡◌, refl, ap, ◌∙◌, subst, ◌++◌, [], ◌∷◌, List, some, get_elem?, ok,
  length, arith,
}
use libbruce.Memory.{KvPair}
use libbruce.Tree.Nodes.{Tree}
use libbruce.Tree.Find.{TreePath}
use libbruce.Tree.Find.Quiet.{tree_pairs, Reaches, branch_pairs, branch_pairs-append}
use libbruce.Tree.Find.Visit.{get_elem?-middle}
use libbruce.Tree.Iterator.{key_at, value_at}

get_elem?-lt :
    {A : Type 0} (xs : List A) (n : ℕ) → n < length xs → (a : A) × (get_elem? xs n ≡ some a)
get_elem?-lt [] n h = absurd (omega (arith, h))
get_elem?-lt (x ∷ xs) zero h = (x, refl)
get_elem?-lt (x ∷ xs) (suc n) h = get_elem?-lt xs n (omega (arith, h))

get_elem?-append :
    {A : Type 0} (xs ys zs : List A) (n : ℕ) (a : A)
    → get_elem? ys n ≡ some a
    → get_elem? (xs ++ (ys ++ zs)) (length xs + n) ≡ some a
get_elem?-append [] [] zs n a h = cc
get_elem?-append [] (y ∷ ys) zs zero a h = h
get_elem?-append [] (y ∷ ys) zs (suc n) a h =
    let moved : get_elem? (ys ++ zs) (0 + n) ≡ some a = get_elem?-append [] ys zs n a h in
    subst (λ i. get_elem? (y ∷ (ys ++ zs)) i ≡ some a) (suc_of n) moved
  where
    suc_of : (n : ℕ) → suc (0 + n) ≡ 0 + suc n
    suc_of n = omega arith
get_elem?-append (x ∷ xs) ys zs n a h =
    subst (λ i. get_elem? (x ∷ (xs ++ (ys ++ zs))) i ≡ some a) (suc_of (length xs) n)
      (get_elem?-append xs ys zs n a h)
  where
    suc_of : (m n : ℕ) → suc (m + n) ≡ suc m + n
    suc_of m n = omega arith

-- The pair at the end of a path.
pub record IsPairAt (h : ℕ) (tree : Tree h) (path : TreePath) (n : ℕ) : Type 0 where
  pub pair : KvPair
  pub at : get_elem? (tree_pairs h tree) n ≡ some pair
  pub key : key_at h tree path ≡ ok pair.key
  pub value : value_at h tree path ≡ ok pair.value

pub Reaches-IsPairAt :
    (h : ℕ) (tree : Tree h) (path : TreePath) (n : ℕ)
    → Reaches h tree path n
    → IsPairAt h tree path n
unfolding key_at value_at
Reaches-IsPairAt h tree [] n r = absurd r
Reaches-IsPairAt zero leaf (f ∷ g ∷ path) n r = absurd r
Reaches-IsPairAt zero leaf (f ∷ []) n (e, less) =
    let at = get_elem?-lt leaf.pairs n less in
    let here : get_elem? leaf.pairs f.index ≡ some at.0 = ap (get_elem? leaf.pairs) e ∙ at.1 in
    record {
      pair = at.0;
      at = at.1;
      key = rw (here, key_at) refl;
      value = rw (here, value_at) refl;
    }
Reaches-IsPairAt (suc h) node (f ∷ path) n r =
    let inner = Reaches-IsPairAt h r.node path r.offset r.reaches in
    let here : get_elem? node.branches f.index ≡ some r.branch =
      ap (get_elem? node.branches) r.index
      ∙ ap (λ bs. get_elem? bs (length r.before)) r.parts
      ∙ get_elem?-middle r.before r.branch r.after in
    record {
      pair = inner.pair;
      at = rw r.parts (
          rw r.sum (
            rw (branch_pairs-append (tree_pairs h) r.before (r.branch ∷ r.after)) (
              rw r.held (
                get_elem?-append (branch_pairs (tree_pairs h) r.before) (tree_pairs h r.node)
                  (branch_pairs (tree_pairs h) r.after) r.offset inner.pair inner.at))));
      key = rw (here, key_at) (rw r.held inner.key);
      value = rw (here, value_at) (rw r.held inner.value);
    }
