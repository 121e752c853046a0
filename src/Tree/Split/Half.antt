-- ===== src/Tree/Split/Half.antt =====
-- Where the loop of LeafNodeSize stops: in a run of pairs of one key.
use libbruce.Base.{
  ℕ, ◌+◌, ◌^◌, ◌<◌, ◌≡◌, refl, sym, ap, ◌∙◌, subst, inl, inr, Bool-cases, Option, some, List, [],
  ◌∷◌, ◌++◌, append_assoc, arith, ltb, length, length-append, All, All-append,
}
use libbruce.Memory.{Slice, KvPair, slice_eq, slice_eq→eq, wrap32}
use libbruce.Leaf.{pair_size}
use libbruce.Leaf.Sizes.{total}
use libbruce.Tree.Split.{scan_half}

-- Every pair has the key.
abbrev pub HasKey : Slice → List KvPair → Type 0
HasKey k ps = All (λ p. p.key ≡ k) ps

-- A found half point of pairs that begin at the index `start`: the run of `first` begins there and
-- goes on to the half point.
pub record HalfAt (ps : List KvPair) (start : ℕ) (r : Option (ℕ × ℕ)) : Type 0 where
  pub before : List KvPair
  pub first : KvPair
  pub run : List KvPair
  pub rest : List KvPair
  pub parts : ps ≡ before ++ first ∷ (run ++ rest)
  pub one : HasKey first.key run
  pub found : r ≡ some (start + length before + length run, start + length before)

HalfAt-append :
    (skipped ps : List KvPair) (start i : ℕ) (r : Option (ℕ × ℕ))
    → i ≡ start + length skipped
    → HalfAt ps i r
    → HalfAt (skipped ++ ps) start r
HalfAt-append skipped ps start i r e h = record {
  before = skipped ++ h.before;
  first = h.first;
  run = h.run;
  rest = h.rest;
  parts =
      ap (◌++◌ skipped) h.parts ∙ sym (append_assoc skipped h.before (h.first ∷ (h.run ++ h.rest)));
  one = h.one;
  found = rw sum h.found;
}
  where
    sum : start + length (skipped ++ h.before) ≡ i + length h.before
    sum = omega (arith, e, length-append skipped h.before)

pub same_key :
    (k : Slice) (p : KvPair) (run : List KvPair) → p.key ≡ k → HasKey k run → HasKey p.key run
same_key k p run e h = subst (λ x. HasKey x run) (sym e) h

-- The half point in a run: with the pair `p` of the run's key.
HalfAt-run :
    (k : Slice) (run : List KvPair) (p : KvPair) (rest : List KvPair) (start i : ℕ)
    → HasKey k run
    → p.key ≡ k
    → i ≡ start + length run
    → HalfAt (run ++ p ∷ rest) start (some (i, start))
HalfAt-run k [] p rest start i h e at = record {
  before = [];
  first = p;
  run = [];
  rest = rest;
  parts = refl;
  one = tt;
  found = rw here (rw none_before refl);
}
  where
    here : i ≡ start + 0 + 0
    here = omega (arith, at)

    none_before : start + 0 ≡ start
    none_before = omega arith
HalfAt-run k (r ∷ run) p rest start i h e at = record {
  before = [];
  first = r;
  run = run ++ p ∷ [];
  rest = rest;
  parts = ap (◌∷◌ r) (sym (append_assoc run (p ∷ []) rest));
  one = same_key k r (run ++ p ∷ []) h.0 (All-append (λ x. x.key ≡ k) run (p ∷ []) h.1 (e, tt));
  found = rw here (rw none_before refl);
}
  where
    here : i ≡ start + 0 + length (run ++ p ∷ [])
    here = omega (arith, at, length-append run (p ∷ []))

    none_before : start + 0 ≡ start
    none_before = omega arith

nonempty_total : (ps : List KvPair) → 0 < total ps → 0 < length ps
nonempty_total [] h = h
nonempty_total (p ∷ ps) h = omega arith

pub scan_half-HalfAt :
    (piece s start i : ℕ) (k : Slice) (run ps : List KvPair)
    → HasKey k run
    → i ≡ start + length run
    → 0 < length ps
    → s + total ps < 2 ^ 32
    → piece < s + total ps
    → HalfAt (run ++ ps) start (scan_half piece s start k i ps)
unfolding scan_half
scan_half-HalfAt piece s start i k run [] h at some_left small over =
    absurd (omega (arith, some_left))
scan_half-HalfAt piece s start i k run (p ∷ ps) h at some_left small over =
    let low : wrap32 (s + pair_size p) ≡ s + pair_size p = omega (arith, small) in
    rw low (elim (Bool-cases (slice_eq p.key k)) [
      | inl e ↦ rw e (elim (Bool-cases (ltb piece (s + pair_size p))) [
        | inl b ↦ rw b (HalfAt-run k run p ps start i h (slice_eq→eq p.key k e) at)
        | inr b ↦ rw b (
            subst (λ xs. HalfAt xs start (scan_half piece (s + pair_size p) start k (i + 1) ps))
              (append_assoc run (p ∷ []) ps)
              (scan_half-HalfAt piece (s + pair_size p) start (i + 1) k (run ++ p ∷ []) ps
                (All-append (λ x. x.key ≡ k) run (p ∷ []) h (slice_eq→eq p.key k e, tt))
                (omega (arith, at, length-append run (p ∷ [])))
                (nonempty_total ps (ground (arith, b, over))) (omega (arith, small))
                (omega (arith, over))))
      ])
      | inr e ↦ rw e (elim (Bool-cases (ltb piece (s + pair_size p))) [
        | inl b ↦ rw b (
            HalfAt-append run (p ∷ ps) start i (some (i, i)) at
              (HalfAt-run p.key [] p ps i i tt refl (omega arith)))
        | inr b ↦ rw b (
            HalfAt-append run (p ∷ ps) start i
              (scan_half piece (s + pair_size p) i p.key (i + 1) ps) at
              (scan_half-HalfAt piece (s + pair_size p) i (i + 1) p.key (p ∷ []) ps (refl, tt)
                (omega arith) (nonempty_total ps (ground (arith, b, over))) (omega (arith, small))
                (omega (arith, over))))
      ])
    ])
