-- ===== src/Tree/Split/Lossless.antt =====
-- maybeSplitLeaf ends; the leaves that it gives hold the pairs of the leaf, and no key is in two.
use libbruce.Base.{
  ℕ, zero, suc, ◌+◌, ◌-◌, ◌<◌, ◌≡◌, ◌≢◌, refl, sym, ap, ◌∙◌, subst, false, none, some, List, [],
  ◌∷◌, ◌++◌, append-nil, append_assoc, arith, map, length, length-append, take, drop, take-append,
  drop-append, All, All-imp, All-append_right, tally, tally-append, tally-map-Same, Same, ok,
}
use libbruce.Memory.{Slice, KvPair}
use libbruce.Functions.{TreeFunctions, IsLawful, Le, Lt}
use libbruce.Functions.Order.{lt-le_trans}
use libbruce.Leaf.{LeafNode}
use libbruce.Leaf.Order.{IsSorted}
use libbruce.Internal.{Branch}
use libbruce.Page.Sizes.{leaf_size, should_split}
use libbruce.Tree.Split.{leaf_branch, name_left, maybe_split_leaf}
use libbruce.Tree.Split.Chain.{chain_values}
use libbruce.Tree.Split.Points.{StartsOther}
use libbruce.Tree.Split.Half.{HasKey}
use libbruce.Tree.Split.Divide.{contents, leaf_contents, last_key, last_key-append, of_values}

-- A predicate at the leaf of every branch.
abbrev pub AllLeaves : (LeafNode → Type 0) → List (Branch LeafNode) → Type 0
AllLeaves P [] = Unit
AllLeaves P (b ∷ bs) = (elim b.child [ none ↦ Unit | some leaf ↦ P leaf ]) × AllLeaves P bs

-- Every key of a leaf is less than every key of a leaf behind it.
abbrev pub IsDivided : TreeFunctions → List (Branch LeafNode) → Type 0
IsDivided fns [] = Unit
IsDivided fns (b ∷ bs) =
    (elim b.child [
      | none ↦ Unit
      | some leaf ↦
          All (λ p. AllLeaves (λ other. All (λ q. Lt fns p.key q.key) other.pairs) bs) leaf.pairs
    ])
    × IsDivided fns bs

-- What `maybe_split_leaf` promises of a leaf's branches.
pub record IsLossless (fns : TreeFunctions) (block_size : ℕ) (leaf : LeafNode)
    (bs : List (Branch LeafNode)) : Type 1 where
  pub result : (n : ℕ) → length leaf.pairs < n → maybe_split_leaf n block_size leaf ≡ ok bs
  pub same : Same (contents bs) (leaf_contents leaf)
  pub keys : (P : KvPair → Type 0) → All P leaf.pairs → AllLeaves (λ l. All P l.pairs) bs
  pub divided : IsSorted fns leaf.pairs → IsDivided fns bs

pub contents-name_left :
    (k : Slice) (bs : List (Branch LeafNode)) → contents (name_left k bs) ≡ contents bs
contents-name_left k [] = refl
contents-name_left k (b ∷ bs) = refl

pub name_left-AllLeaves :
    (P : LeafNode → Type 0) (k : Slice) (bs : List (Branch LeafNode))
    → AllLeaves P bs
    → AllLeaves P (name_left k bs)
name_left-AllLeaves P k [] h = h
name_left-AllLeaves P k (b ∷ bs) h = h

pub name_left-IsDivided :
    (fns : TreeFunctions) (k : Slice) (bs : List (Branch LeafNode))
    → IsDivided fns bs
    → IsDivided fns (name_left k bs)
name_left-IsDivided fns k [] h = h
name_left-IsDivided fns k (b ∷ bs) h = h

-- The parts of a division, as the code takes them.
pub take_front :
    (before run right : List KvPair) (last : KvPair)
    → take (suc (length before)) (before ++ last ∷ (run ++ right)) ≡ before ++ last ∷ []
take_front before run right last =
    ap (take (suc (length before))) (sym (append_assoc before (last ∷ []) (run ++ right)))
    ∙ take-append (before ++ last ∷ []) (run ++ right) (suc (length before))
        (omega (arith, length-append before (last ∷ [])))

pub drop_front :
    (before run right : List KvPair) (last : KvPair)
    → drop (suc (length before)) (before ++ last ∷ (run ++ right)) ≡ run ++ right
drop_front before run right last =
    ap (drop (suc (length before))) (sym (append_assoc before (last ∷ []) (run ++ right)))
    ∙ drop-append (before ++ last ∷ []) (run ++ right) (suc (length before))
        (omega (arith, length-append before (last ∷ [])))

pub take_run :
    (before run right : List KvPair) (last : KvPair)
    → take
        (suc (length before) + length run - suc (length before))
        (drop (suc (length before)) (before ++ last ∷ (run ++ right)))
      ≡ run
take_run before run right last =
    ap (take (suc (length before) + length run - suc (length before)))
      (drop_front before run right last)
    ∙ take-append run right (suc (length before) + length run - suc (length before)) (omega arith)

pub drop_run :
    (before run right : List KvPair) (last : KvPair)
    → drop (suc (length before) + length run) (before ++ last ∷ (run ++ right)) ≡ right
drop_run before run right last =
    ap (drop (suc (length before) + length run)) (sym (append_assoc before (last ∷ run) right))
    ∙ drop-append (before ++ last ∷ run) right (suc (length before) + length run)
        (omega (arith, length-append before (last ∷ run)))

-- In a sorted leaf the keys up to a run are less than those behind it.
module _ (fns : TreeFunctions) (lawful : IsLawful fns) where
  lt_of_le : (a b : Slice) → Le fns a b → b ≢ a → Lt fns a b
  lt_of_le a b h ne = ground (arith, lawful.eq_of_cmp a b)

  run_before_rest :
      (last : KvPair) (run right : List KvPair)
      → HasKey last.key run
      → StartsOther last.key right
      → IsSorted fns (last ∷ (run ++ right))
      → All (λ q. Lt fns last.key q.key) right
  run_before_rest last run [] one ends sorted = tt
  run_before_rest last [] (r ∷ right) one ends sorted =
      let first = lt_of_le last.key r.key sorted.1.0 ends in
      (
        first,
        All-imp (λ q. Le fns r.key q.key) (λ q. Lt fns last.key q.key)
            (λ q h. lt-le_trans fns lawful last.key r.key q.key first h) right sorted.2.1,
      )
  run_before_rest last (x ∷ run) (r ∷ right) one ends sorted =
      subst (λ k. All (λ q. Lt fns k q.key) (r ∷ right)) one.0
        (run_before_rest x run (r ∷ right) (subst (λ k. HasKey k run) (sym one.0) one.1)
          (λ h. ends (h ∙ one.0)) sorted.2)

  pub front_before_rest :
      (before run right : List KvPair) (last : KvPair)
      → HasKey last.key run
      → StartsOther last.key right
      → IsSorted fns (before ++ last ∷ (run ++ right))
      → All (λ p. All (λ q. Lt fns p.key q.key) right) (before ++ last ∷ []) × IsSorted fns right
  front_before_rest [] run right last one ends sorted =
      ((run_before_rest last run right one ends sorted, tt), rest_sorted run sorted.2)
    where
      rest_sorted : (xs : List KvPair) → IsSorted fns (xs ++ right) → IsSorted fns right
      rest_sorted [] h = h
      rest_sorted (x ∷ xs) h = rest_sorted xs h.2
  front_before_rest (p ∷ before) run right last one ends sorted =
      let rest = front_before_rest before run right last one ends sorted.2 in
      let of_last =
        All-append_right (λ x. All (λ q. Lt fns x.key q.key) right) before (last ∷ []) rest.0 in
      let le_last =
        All-append_right (λ q. Le fns p.key q.key) before (last ∷ (run ++ right)) sorted.1 in
      (
        (
          All-imp (λ q. Lt fns last.key q.key) (λ q. Lt fns p.key q.key)
              (λ q h. le_lt p.key last.key q.key le_last.0 h) right of_last.0,
          rest.0,
        ),
        rest.1,
      )
    where
      le_lt : (a b c : Slice) → Le fns a b → Lt fns b c → Lt fns a c
      le_lt a b c h k = ground (arith, lawful.lt_trans a b c, lawful.eq_of_cmp a b)

  pub whole-IsLossless :
      (block_size : ℕ) (leaf : LeafNode)
      → should_split block_size (leaf_size leaf) ≡ false
      → IsLossless fns block_size leaf (leaf_branch [] leaf ∷ [])
  unfolding maybe_split_leaf
  whole-IsLossless block_size leaf b = record {
    result = result;
    same = λ f. ap (tally f) (append-nil (leaf_contents leaf));
    keys = λ P h. (h, tt);
    divided = λ s. (nothing leaf.pairs, tt);
  }
    where
      result :
          (n : ℕ)
          → length leaf.pairs < n
          → maybe_split_leaf n block_size leaf ≡ ok (leaf_branch [] leaf ∷ [])
      result zero h = absurd (omega (arith, h))
      result (suc n) h = rw b refl

      nothing : (ps : List KvPair) → All (λ p. Unit {0}) ps
      nothing [] = tt
      nothing (p ∷ ps) = (tt, nothing ps)

  -- The contents of a divided leaf, from those of its parts.
  pub parts-Same :
      (leaf left : LeafNode) (before run right : List KvPair) (last : KvPair) (f : KvPair → ℕ)
      → leaf.pairs ≡ before ++ last ∷ (run ++ right)
      → chain_values leaf.overflow ≡ []
      → left.pairs ≡ before ++ last ∷ []
      → HasKey last.key run
      → Same (chain_values left.overflow) (map (λ p. p.value) run)
      → tally f (leaf_contents left) + tally f right ≡ tally f (leaf_contents leaf)
  parts-Same leaf left before run right last f parts nothing front one kept = omega (
    arith,
    tally-append f left.pairs (map give left_values),
    tally-append f leaf.pairs
        (map (λ v. record { key = last_key leaf.pairs; value = v }) (chain_values leaf.overflow)),
    ap (λ vs. tally f (map (λ v. record { key = last_key leaf.pairs; value = v }) vs)) nothing,
    ap (tally f) parts,
    ap (tally f) front,
    tally-append f before (last ∷ (run ++ right)),
    tally-append f before (last ∷ []),
    tally-append f run right,
    tally-map-Same give left_values (map (λ p. p.value) run) kept f,
    ap (λ k. tally f (map (λ v. record { key = k; value = v }) (map (λ p. p.value) run)))
        (ap last_key front ∙ last_key-append before last),
    of_values last.key run f one,
  )
    where
      left_values : List Slice
      left_values = chain_values left.overflow

      give : Slice → KvPair
      give v = record { key = last_key left.pairs; value = v }
