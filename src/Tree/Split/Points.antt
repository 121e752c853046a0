-- ===== src/Tree/Split/Points.antt =====
-- Where LeafNodeSize divides a leaf: a run of one key stays together.
use libbruce.Base.{
  ℕ, suc, ◌+◌, ◌^◌, ◌<◌, ◌≡◌, ◌≢◌, refl, sym, ap, ap₂, ◌∙◌, inl, inr, Bool-cases, some, List, [],
  ◌∷◌, ◌++◌, append_assoc, arith, length, length-append, drop, drop-add, drop-append, get_elem?,
  All-append, ok,
}
use libbruce.Memory.{Slice, KvPair, slice_eq, slice_eq→eq, slice_eq_refl}
use libbruce.Leaf.Sizes.{total}
use libbruce.Page.Sizes.{half_up}
use libbruce.Tree.Split.{scan_half, run_length, points_at, leaf_split_points}
use libbruce.Tree.Split.Half.{HasKey, HalfAt, same_key, scan_half-HalfAt}

-- The next pair, if there is one, has another key.
abbrev pub StartsOther : Slice → List KvPair → Type 0
StartsOther k [] = Unit
StartsOther k (p ∷ ps) = p.key ≢ k

run_length-split :
    (k : Slice) (ps : List KvPair)
    → (more right : List KvPair) × (ps ≡ more ++ right)
      × HasKey k more
      × StartsOther k right
      × (run_length k ps ≡ length more)
unfolding run_length
run_length-split k [] = ([], [], refl, tt, tt, refl)
run_length-split k (p ∷ ps) = elim (Bool-cases (slice_eq p.key k)) [
  | inl e ↦
      let rest = run_length-split k ps in
      rw e (
        p ∷ rest.0,
        rest.1,
        ap (◌∷◌ p) rest.2,
        (slice_eq→eq p.key k e, rest.3),
        rest.4,
        ap suc rest.5,
      )
  | inr e ↦ rw e (
    [],
    p ∷ ps,
    refl,
    tt,
    (λ h. ground (arith, e, slice_eq_refl k, ap (λ x. slice_eq x k) h)),
    refl,
  )
]

-- The pair at the half point has the key of its run, and the rest follows it.
half_pair :
    (first : KvPair) (run rest : List KvPair)
    → HasKey first.key run
    → (q : KvPair) × (get_elem? (first ∷ (run ++ rest)) (length run) ≡ some q)
      × (q.key ≡ first.key)
      × (drop (length run) (first ∷ (run ++ rest)) ≡ q ∷ rest)
half_pair first [] rest h = (first, refl, refl, refl)
half_pair first (r ∷ run) rest h =
    let next = half_pair r run rest (same_key first.key r run h.0 h.1) in
    (next.0, next.1, next.2 ∙ h.0, next.3)

pub get_elem?-append {ℓ} :
    {A : Type ℓ} (xs ys : List A) (n : ℕ) → get_elem? (xs ++ ys) (length xs + n) ≡ get_elem? ys n
get_elem?-append [] ys n = rw zero_left refl
  where
    zero_left : 0 + n ≡ n
    zero_left = omega arith
get_elem?-append (x ∷ xs) ys n = rw suc_left (get_elem?-append xs ys n)
  where
    suc_left : suc (length xs) + n ≡ suc (length xs + n)
    suc_left = omega arith

-- The three parts that a leaf is divided into: `before` and `last`, `between`, `right`.
pub record IsDivision (block_size : ℕ) (pairs : List KvPair) : Type 0 where
  pub before : List KvPair
  pub last : KvPair
  pub between : List KvPair
  pub right : List KvPair
  pub parts : pairs ≡ before ++ last ∷ (between ++ right)
  pub one : HasKey last.key between
  pub ends : StartsOther last.key right
  pub points :
      leaf_split_points block_size pairs
      ≡ ok (suc (length before), suc (length before) + length between)

points_of :
    (block_size : ℕ) (p : KvPair) (ps : List KvPair) (i start n : ℕ) (q : KvPair)
    (rest : List KvPair)
    → scan_half (half_up block_size) 30 0 p.key 0 (p ∷ ps) ≡ some (i, start)
    → get_elem? (p ∷ ps) i ≡ some q
    → drop i (p ∷ ps) ≡ rest
    → run_length q.key rest ≡ n
    → leaf_split_points block_size (p ∷ ps) ≡ ok (start + 1, i + n)
unfolding leaf_split_points points_at
points_of block_size p ps i start n q rest found at after run =
    ap (points_at (p ∷ ps)) found
    ∙ rw (at, points_at) (rw (after, points_at) (rw (run, points_at) refl))

run_length_self :
    (q : KvPair) (ps : List KvPair) → run_length q.key (q ∷ ps) ≡ suc (run_length q.key ps)
unfolding run_length
run_length_self q ps = rw (slice_eq_refl q.key) refl

drop_append_add :
    {A : Type 0} (xs ys : List A) (n : ℕ) → drop (length xs + n) (xs ++ ys) ≡ drop n ys
drop_append_add xs ys n =
    drop-add (length xs) n (xs ++ ys) ∙ ap (drop n) (drop-append xs ys (length xs) refl)

division :
    (block_size : ℕ) (p : KvPair) (ps : List KvPair)
    → HalfAt (p ∷ ps) 0 (scan_half (half_up block_size) 30 0 p.key 0 (p ∷ ps))
    → IsDivision block_size (p ∷ ps)
division block_size p ps half = record {
  before = half.before;
  last = half.first;
  between = half.run ++ more.0;
  right = more.1;
  parts =
      half.parts
      ∙ ap (λ xs. half.before ++ half.first ∷ (half.run ++ xs)) more.2
      ∙ ap (λ xs. half.before ++ half.first ∷ xs) (sym (append_assoc half.run more.0 more.1));
  one = All-append (λ x. x.key ≡ half.first.key) half.run more.0 half.one more.3;
  ends = more.4;
  points =
      points_of block_size p ps i (0 + length half.before) (suc (length more.0)) q.0
        (q.0 ∷ half.rest) half.found found_pair after run_from
      ∙ ap₂ (λ a b. ok (a, b)) overflow_start split_start;
}
  where
    more :
        (more right : List KvPair) × (half.rest ≡ more ++ right)
        × HasKey half.first.key more
        × StartsOther half.first.key right
        × (run_length half.first.key half.rest ≡ length more)
    more = run_length-split half.first.key half.rest

    q :
        (q : KvPair) × (get_elem? (half.first ∷ (half.run ++ half.rest)) (length half.run) ≡ some q)
        × (q.key ≡ half.first.key)
        × (drop (length half.run) (half.first ∷ (half.run ++ half.rest)) ≡ q ∷ half.rest)
    q = half_pair half.first half.run half.rest half.one

    i : ℕ
    i = 0 + length half.before + length half.run

    index : i ≡ length half.before + length half.run
    index = omega arith

    found_pair : get_elem? (p ∷ ps) i ≡ some q.0
    found_pair =
        ap₂ get_elem? half.parts index
        ∙ get_elem?-append half.before (half.first ∷ (half.run ++ half.rest)) (length half.run)
        ∙ q.1

    after : drop i (p ∷ ps) ≡ q.0 ∷ half.rest
    after =
        ap₂ drop index half.parts
        ∙ drop_append_add half.before (half.first ∷ (half.run ++ half.rest)) (length half.run)
        ∙ q.3

    run_from : run_length q.0.key (q.0 ∷ half.rest) ≡ suc (length more.0)
    run_from =
        run_length_self q.0 half.rest ∙ ap (λ x. suc (run_length x half.rest)) q.2 ∙ ap suc more.5

    overflow_start : 0 + length half.before + 1 ≡ suc (length half.before)
    overflow_start = omega arith

    split_start : i + suc (length more.0) ≡ suc (length half.before) + length (half.run ++ more.0)
    split_start = omega (arith, length-append half.run more.0)

-- A leaf that is larger than a block is divided at a key's end: the pairs are those before, the
-- first one of the last key, its others, and the rest, which begins with another key.
pub leaf_split_points-IsDivision :
    (block_size : ℕ) (ps : List KvPair)
    → 0 < block_size
    → 0 < length ps
    → total ps + 30 < 2 ^ 32
    → block_size < total ps + 30
    → IsDivision block_size ps
leaf_split_points-IsDivision block_size [] room some_pair small over =
    absurd (omega (arith, some_pair))
leaf_split_points-IsDivision block_size (p ∷ ps) room some_pair small over =
    division block_size p ps (
      scan_half-HalfAt (half_up block_size) 30 0 0 p.key [] (p ∷ ps) tt (omega arith) some_pair
        (omega (arith, small)) (omega (arith, over, room)))
