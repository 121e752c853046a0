-- ===== src/Tree/Split/Divide.antt =====
-- maybeSplitLeaf divides a leaf that is too large and loses nothing.
use libbruce.Base.{
  ℕ, suc, ◌+◌, ◌-◌, ◌^◌, ◌≤◌, ◌<◌, ◌≡◌, refl, sym, ap, ◌∙◌, subst, true, false, none, some, List,
  [], ◌∷◌, ◌++◌, append-nil, arith, ◌==◌, map, length, length-map, take, drop, All, tally, Same, ok,
}
use libbruce.Memory.{Slice, size, KvPair, slice_eq, slice_eq_refl}
use libbruce.Overflow
use libbruce.Overflow.{Overflow, absent, present, no_overflow, null_id}
use libbruce.Leaf
use libbruce.Leaf.{LeafNode, make_leaf, pair_size}
use libbruce.Leaf.Sizes.{total, IsSized}
use libbruce.Internal.{Branch}
use libbruce.Page.Sizes.{leaf_size, should_split}
use libbruce.Tree.Split.{
  leaf_split_points, one_key, run_length, give_overflow, leaf_branch, name_left, maybe_split_leaf,
}
use libbruce.Tree.Split.Chain.{chain_values, ValueFits}
use libbruce.Tree.Split.Move.{CanPush}
use libbruce.Tree.Split.PushDown.{push_down-IsPushed}
use libbruce.Tree.Split.Half.{HasKey}

abbrev pub last_key : List KvPair → Slice
last_key [] = []
last_key (p ∷ []) = p.key
last_key (p ∷ q ∷ ps) = last_key (q ∷ ps)

-- The pairs of a leaf and of its overflow chain, whose values belong to the last key.
abbrev pub leaf_contents : LeafNode → List KvPair
leaf_contents leaf =
    leaf.pairs
    ++ map (λ v. record { key = last_key leaf.pairs; value = v }) (chain_values leaf.overflow)

abbrev pub contents : List (Branch LeafNode) → List KvPair
contents [] = []
contents (b ∷ bs) = elim b.child [
  | none ↦ contents bs
  | some leaf ↦ leaf_contents leaf ++ contents bs
]

-- A leaf without overflow whose sizes stay below the width of a `uint32_t`, and whose values each
-- fit in a block.
pub record CanSplit (block_size : ℕ) (leaf : LeafNode) : Type 0 where
  pub room : 30 ≤ block_size
  pub sized : IsSized leaf
  pub small : total leaf.pairs + 30 < 2 ^ 32
  pub few : length leaf.pairs < 2 ^ 32
  pub each : All (λ p. ValueFits block_size p.value) leaf.pairs
  pub closed : Overflow.is_empty leaf.overflow ≡ true
  pub nothing : chain_values leaf.overflow ≡ []

pub last_key-append : (ps : List KvPair) (p : KvPair) → last_key (ps ++ p ∷ []) ≡ p.key
last_key-append [] p = refl
last_key-append (q ∷ []) p = refl
last_key-append (q ∷ r ∷ ps) p = last_key-append (r ∷ ps) p

run_length-HasKey : (k : Slice) (ps : List KvPair) → HasKey k ps → run_length k ps ≡ length ps
unfolding run_length
run_length-HasKey k [] h = refl
run_length-HasKey k (p ∷ ps) h =
    let eq : slice_eq p.key k ≡ true = ap (λ x. slice_eq x k) h.0 ∙ slice_eq_refl k in
    rw eq (ap suc (run_length-HasKey k ps h.1))

pub HasKey-one_key : (k : Slice) (ps : List KvPair) → HasKey k ps → one_key ps ≡ true
unfolding one_key
HasKey-one_key k [] h = refl
HasKey-one_key k (p ∷ ps) h =
    let run : run_length p.key (p ∷ ps) ≡ length (p ∷ ps) =
      run_length-HasKey p.key (p ∷ ps) (subst (λ x. HasKey x (p ∷ ps)) (sym h.0) h) in
    ground (arith, run)

-- The values of a run, given back their key, are the run.
pub of_values :
    (k : Slice) (ps : List KvPair) (f : KvPair → ℕ)
    → HasKey k ps
    → tally f (map (λ v. record { key = k; value = v }) (map (λ p. p.value) ps)) ≡ tally f ps
of_values k [] f h = refl
of_values k (p ∷ ps) f h =
    let pair : record { key = k; value = p.value } ≡ p =
      ap (λ x. record { key = x; value = p.value }) (sym h.0) in
    omega (arith, ap f pair, of_values k ps f h.1)

values_size : (ps : List KvPair) → tally size (map (λ p. p.value) ps) ≤ total ps
values_size [] = omega arith
values_size (p ∷ ps) = omega (arith, values_size ps)

values_fit :
    (block_size : ℕ) (ps : List KvPair)
    → All (λ p. ValueFits block_size p.value) ps
    → All (ValueFits block_size) (map (λ p. p.value) ps)
values_fit block_size [] h = tt
values_fit block_size (p ∷ ps) h = (h.0, values_fit block_size ps h.1)

pub run-CanPush :
    (block_size : ℕ) (ps : List KvPair)
    → 30 ≤ block_size
    → total ps + 30 < 2 ^ 32
    → length ps < 2 ^ 32
    → All (λ p. ValueFits block_size p.value) ps
    → CanPush block_size (map (λ p. p.value) ps) no_overflow
run-CanPush block_size ps room small few each =
    let same : map (λ p. p.value) ps ++ [] ≡ map (λ p. p.value) ps =
      append-nil (map (λ p. p.value) ps) in
    record {
      room = room;
      chain = refl;
      fits = tt;
      small = rw same (omega (arith, small, values_size ps));
      few = rw same (omega (arith, few, length-map (λ p. p.value) ps));
      each = subst (λ xs. All (ValueFits block_size) xs) (sym same) (values_fit block_size ps each);
    }

-- The left leaf with the run behind it.
pub give_overflow-Same :
    (block_size : ℕ) (left : LeafNode) (run : List KvPair)
    → CanPush block_size (map (λ p. p.value) run) no_overflow
    → left.overflow ≡ no_overflow
    → (after : LeafNode) × (give_overflow
          (suc (length run))
          block_size
          left
          (map (λ p. p.value) run)
        ≡ ok after)
      × (after.pairs ≡ left.pairs)
      × Same (chain_values after.overflow) (map (λ p. p.value) run)
unfolding give_overflow
give_overflow-Same block_size left [] can none_yet = (left, refl, refl, λ f. rw none_yet refl)
give_overflow-Same block_size left (p ∷ run) can none_yet =
    let pushed = push_down-IsPushed block_size (map (λ p. p.value) (p ∷ run)) no_overflow can in
    let values_only : map (λ p. p.value) (p ∷ run) ++ [] ≡ map (λ p. p.value) (p ∷ run) =
      append-nil (map (λ p. p.value) (p ∷ run)) in
    let nonzero : (length (map (λ p. p.value) (p ∷ run)) == 0) ≡ false = ground arith in
    let done =
      pushed.1.result (suc (length (p ∷ run)))
        (omega (arith, ap length values_only, length-map (λ p. p.value) (p ∷ run))) in
    (
      record left {
        overflow =
            present (Overflow.item_count (map (λ p. p.value) (p ∷ run)) no_overflow) null_id
              pushed.0.0 pushed.0.1;
      },
      rw nonzero (rw done refl),
      refl,
      (λ f. omega (arith, pushed.1.same f, ap (tally f) values_only)),
    )

pub divide_step_last :
    (n block_size o s : ℕ) (leaf left : LeafNode) (front run : List KvPair)
    → should_split block_size (leaf_size leaf) ≡ true
    → leaf_split_points block_size leaf.pairs ≡ ok (o, s)
    → take o leaf.pairs ≡ front
    → take (s - o) (drop o leaf.pairs) ≡ run
    → drop s leaf.pairs ≡ []
    → one_key run ≡ true
    → Overflow.is_empty leaf.overflow ≡ true
    → give_overflow (suc (length run)) block_size (make_leaf front) (map (λ p. p.value) run)
      ≡ ok left
    → maybe_split_leaf (suc n) block_size leaf ≡ ok (leaf_branch [] left ∷ [])
unfolding maybe_split_leaf Leaf.item_count make_leaf
divide_step_last n block_size o s leaf left front run b at e1 e2 e3 one closed given =
    rw b (rw at (rw e1 (rw e2 (rw e3 (rw one (rw closed (rw given refl)))))))

pub divide_step_more :
    (n block_size o s : ℕ) (leaf left : LeafNode) (front run right : List KvPair)
    (split : List (Branch LeafNode))
    → should_split block_size (leaf_size leaf) ≡ true
    → leaf_split_points block_size leaf.pairs ≡ ok (o, s)
    → take o leaf.pairs ≡ front
    → take (s - o) (drop o leaf.pairs) ≡ run
    → drop s leaf.pairs ≡ right
    → (Leaf.item_count (make_leaf right) == 0) ≡ false
    → one_key run ≡ true
    → Overflow.is_empty leaf.overflow ≡ true
    → give_overflow (suc (length run)) block_size (make_leaf front) (map (λ p. p.value) run)
      ≡ ok left
    → maybe_split_leaf n block_size (record (make_leaf right) { overflow = leaf.overflow })
      ≡ ok split
    → maybe_split_leaf (suc n) block_size leaf
      ≡ ok (leaf_branch [] left ∷ name_left (Leaf.min_key (make_leaf right)) split)
unfolding maybe_split_leaf
divide_step_more n block_size o s leaf left front run right split b at e1 e2 e3 some_right one
      closed given rest =
    rw b
      (rw at (rw e1 (rw e2 (rw e3 (rw one (rw closed (rw given (rw some_right (rw rest refl)))))))))
