-- ===== src/Tree/Split/Cut.antt =====
-- A division of a leaf into a front, a run and a rest, and what the branches made of them hold.
use libbruce.Base.{
  ℕ, zero, suc, ◌+◌, ◌-◌, ◌<◌, ◌≡◌, refl, sym, ap, ◌∙◌, subst, true, false, List, [], ◌∷◌, ◌++◌,
  append-nil, arith, ◌==◌, map, length, length-append, take, drop, All, All-imp, All-append,
  All-append_left, All-append_right, tally, tally-append, Same, ok,
}
use libbruce.Memory.{Slice, KvPair}
use libbruce.Functions.{TreeFunctions, IsLawful, Lt}
use libbruce.Leaf
use libbruce.Leaf.{LeafNode, make_leaf, pair_size}
use libbruce.Leaf.Order.{IsSorted}
use libbruce.Leaf.Sizes.{total, total-append, make_leaf-IsSized}
use libbruce.Internal.{Branch}
use libbruce.Page.Sizes.{leaf_size, should_split}
use libbruce.Tree.Split.{give_overflow, leaf_branch, name_left, maybe_split_leaf}
use libbruce.Tree.Split.Chain.{chain_values, ValueFits}
use libbruce.Tree.Split.Points.{IsDivision}
use libbruce.Tree.Split.Divide.{
  CanSplit, contents, leaf_contents, last_key, HasKey-one_key, run-CanPush, give_overflow-Same,
  divide_step_last, divide_step_more,
}
use libbruce.Tree.Split.Lossless.{
  AllLeaves, IsLossless, contents-name_left, name_left-AllLeaves, name_left-IsDivided, take_front,
  take_run, drop_run, front_before_rest, parts-Same,
}

-- The right leaf of a division, with the old overflow record.
abbrev pub right_leaf : LeafNode → List KvPair → LeafNode
right_leaf leaf right = record (make_leaf right) { overflow = leaf.overflow }

-- A left leaf made of the front and the run of a division.
pub record IsFrontPart (block_size : ℕ) (d_front run : List KvPair) (left : LeafNode) : Type 0 where
  pub given :
      give_overflow (suc (length run)) block_size (make_leaf d_front) (map (λ p. p.value) run)
      ≡ ok left
  pub front : left.pairs ≡ d_front
  pub kept : Same (chain_values left.overflow) (map (λ p. p.value) run)

module _ (fns : TreeFunctions) (lawful : IsLawful fns) (block_size : ℕ) (leaf : LeafNode)
    (can : CanSplit block_size leaf) (b : should_split block_size (leaf_size leaf) ≡ true)
    (d : IsDivision block_size leaf.pairs) where
  pub left_leaf :
      (left : LeafNode) × IsFrontPart block_size (d.before ++ d.last ∷ []) d.between left
  unfolding make_leaf
  left_leaf =
      let mine = subst (λ ps. All (λ p. ValueFits block_size p.value) ps) d.parts can.each in
      let rest =
        (All-append_right (λ p. ValueFits block_size p.value) d.before
          (d.last ∷ (d.between ++ d.right)) mine).1 in
      let made =
        give_overflow-Same block_size (make_leaf (d.before ++ d.last ∷ [])) d.between
          (run-CanPush block_size d.between can.room
            (omega (
              arith,
              can.small,
              ap total d.parts,
              total-append d.before (d.last ∷ (d.between ++ d.right)),
              total-append d.between d.right,
            ))
            (omega (
              arith,
              can.few,
              ap length d.parts,
              length-append d.before (d.last ∷ (d.between ++ d.right)),
              length-append d.between d.right,
            ))
            (All-append_left (λ p. ValueFits block_size p.value) d.between d.right rest))
          refl in
      (made.0, record { given = made.1; front = made.2; kept = made.3 })

  pub right-CanSplit : CanSplit block_size (right_leaf leaf d.right)
  unfolding make_leaf
  right-CanSplit =
      let mine = subst (λ ps. All (λ p. ValueFits block_size p.value) ps) d.parts can.each in
      let rest =
        (All-append_right (λ p. ValueFits block_size p.value) d.before
          (d.last ∷ (d.between ++ d.right)) mine).1 in
      record {
        room = can.room;
        sized = make_leaf-IsSized d.right;
        small = omega (
          arith,
          can.small,
          ap total d.parts,
          total-append d.before (d.last ∷ (d.between ++ d.right)),
          total-append d.between d.right,
        );
        few = omega (
          arith,
          can.few,
          ap length d.parts,
          length-append d.before (d.last ∷ (d.between ++ d.right)),
          length-append d.between d.right,
        );
        each = All-append_right (λ p. ValueFits block_size p.value) d.between d.right rest;
        closed = can.closed;
        nothing = can.nothing;
      }

  pub fewer : length d.right < length leaf.pairs
  fewer = omega (
    arith,
    ap length d.parts,
    length-append d.before (d.last ∷ (d.between ++ d.right)),
    length-append d.between d.right,
  )

  front_keys :
      (P : KvPair → Type 0) → All P leaf.pairs → All P (d.before ++ d.last ∷ []) × All P d.right
  front_keys P h =
      let mine = subst (λ ps. All P ps) d.parts h in
      let rest = All-append_right P d.before (d.last ∷ (d.between ++ d.right)) mine in
      (
        All-append P d.before (d.last ∷ [])
            (All-append_left P d.before (d.last ∷ (d.between ++ d.right)) mine) (rest.0, tt),
        All-append_right P d.between d.right rest.1,
      )

  pub last-IsLossless :
      (left : LeafNode)
      → IsFrontPart block_size (d.before ++ d.last ∷ []) d.between left
      → d.right ≡ []
      → IsLossless fns block_size leaf (leaf_branch [] left ∷ [])
  last-IsLossless left is none_right = record {
    result = result;
    same = λ f. omega (
      arith,
      ap (tally f) (append-nil (leaf_contents left)),
      parts-Same fns lawful leaf left d.before d.between d.right d.last f d.parts can.nothing
          is.front d.one is.kept,
      ap (tally f) none_right,
    );
    keys = λ P h. (subst (λ ps. All P ps) (sym is.front) (front_keys P h).0, tt);
    divided = λ s. (nothing left.pairs, tt);
  }
    where
      nothing : (ps : List KvPair) → All (λ p. Unit {0}) ps
      nothing [] = tt
      nothing (p ∷ ps) = (tt, nothing ps)

      result :
          (n : ℕ)
          → length leaf.pairs < n
          → maybe_split_leaf n block_size leaf ≡ ok (leaf_branch [] left ∷ [])
      result zero h = absurd (omega (arith, h))
      result (suc n) h =
          divide_step_last n block_size (suc (length d.before))
            (suc (length d.before) + length d.between) leaf left (d.before ++ d.last ∷ []) d.between
            b d.points
            (ap (take (suc (length d.before))) d.parts
              ∙ take_front d.before d.between d.right d.last)
            (ap
                (λ ps.
                  take (suc (length d.before) + length d.between - suc (length d.before))
                    (drop (suc (length d.before)) ps))
                d.parts
              ∙ take_run d.before d.between d.right d.last)
            (ap (drop (suc (length d.before) + length d.between)) d.parts
              ∙ drop_run d.before d.between d.right d.last
              ∙ none_right)
            (HasKey-one_key d.last.key d.between d.one) can.closed is.given

  pub more-IsLossless :
      (left : LeafNode) (split : List (Branch LeafNode))
      → IsFrontPart block_size (d.before ++ d.last ∷ []) d.between left
      → (Leaf.item_count (make_leaf d.right) == 0) ≡ false
      → IsLossless fns block_size (right_leaf leaf d.right) split
      → IsLossless fns block_size leaf
          (leaf_branch [] left ∷ name_left (Leaf.min_key (make_leaf d.right)) split)
  unfolding make_leaf
  more-IsLossless left split is some_right rest = record {
    result = result;
    same = λ f. omega (
      arith,
      tally-append f (leaf_contents left) (contents (name_left name split)),
      ap (tally f) (contents-name_left name split),
      rest.same f,
      ap (λ vs. tally f (d.right ++ map (give (right_leaf leaf d.right)) vs)) can.nothing,
      ap (tally f) (append-nil d.right),
      parts-Same fns lawful leaf left d.before d.between d.right d.last f d.parts can.nothing
          is.front d.one is.kept,
    );
    keys = λ P h. (
      subst (λ ps. All P ps) (sym is.front) (front_keys P h).0,
      name_left-AllLeaves (λ l. All P l.pairs) name split (rest.keys P (front_keys P h).1),
    );
    divided = λ s.
        let ordered =
          front_before_rest fns lawful d.before d.between d.right d.last d.one d.ends
            (subst (λ ps. IsSorted fns ps) d.parts s) in
        (
          subst
              (λ ps.
                All
                  (λ p.
                    AllLeaves (λ other. All (λ q. Lt fns p.key q.key) other.pairs)
                      (name_left name split))
                  ps)
              (sym is.front)
              (All-imp (λ p. All (λ q. Lt fns p.key q.key) d.right)
                (λ p.
                  AllLeaves (λ other. All (λ q. Lt fns p.key q.key) other.pairs)
                    (name_left name split))
                (λ p h.
                  name_left-AllLeaves (λ other. All (λ q. Lt fns p.key q.key) other.pairs) name
                    split (rest.keys (λ q. Lt fns p.key q.key) h))
                (d.before ++ d.last ∷ []) ordered.0),
          name_left-IsDivided fns name split (rest.divided ordered.1),
        );
  }
    where
      name : Slice
      name = Leaf.min_key (make_leaf d.right)

      give : LeafNode → Slice → KvPair
      give l v = record { key = last_key l.pairs; value = v }

      result :
          (n : ℕ)
          → length leaf.pairs < n
          → maybe_split_leaf n block_size leaf ≡ ok (leaf_branch [] left ∷ name_left name split)
      result zero h = absurd (omega (arith, h))
      result (suc n) h =
          divide_step_more n block_size (suc (length d.before))
            (suc (length d.before) + length d.between) leaf left (d.before ++ d.last ∷ []) d.between
            d.right split b d.points
            (ap (take (suc (length d.before))) d.parts
              ∙ take_front d.before d.between d.right d.last)
            (ap
                (λ ps.
                  take (suc (length d.before) + length d.between - suc (length d.before))
                    (drop (suc (length d.before)) ps))
                d.parts
              ∙ take_run d.before d.between d.right d.last)
            (ap (drop (suc (length d.before) + length d.between)) d.parts
              ∙ drop_run d.before d.between d.right d.last)
            some_right (HasKey-one_key d.last.key d.between d.one) can.closed is.given
            (rest.result n (omega (arith, h, fewer)))
