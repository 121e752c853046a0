-- ===== src/Tests/Order.antt =====
-- Keys of two bytes and values of one byte, in the order of their bytes.
use libbruce.Base.{◌≡◌, refl, Ordering, compare, [], ◌∷◌, arith}
use libbruce.Memory.{Slice}
use libbruce.Functions.{TreeFunctions, IsLawful}

abbrev pub lex : Slice → Slice → Ordering
lex [] [] = Ordering.eq
lex [] (b ∷ bs) = Ordering.lt
lex (a ∷ as') [] = Ordering.gt
lex (a ∷ as') (b ∷ bs) = elim (compare a b) [
  | Ordering.lt ↦ Ordering.lt
  | Ordering.eq ↦ lex as' bs
  | Ordering.gt ↦ Ordering.gt
]

abbrev pub byte_fns : TreeFunctions
byte_fns = record { key_compare = lex; value_compare = lex; key_size = λ _. 2; value_size = λ _. 1 }

lex_refl : (a : Slice) → lex a a ≡ Ordering.eq
lex_refl [] = refl
lex_refl (a ∷ as') = ground (arith, lex_refl as')

eq_of_lex : (a b : Slice) → lex a b ≡ Ordering.eq → a ≡ b
eq_of_lex [] [] h = refl
eq_of_lex [] (b ∷ bs) h = cc
eq_of_lex (a ∷ as') [] h = cc
eq_of_lex (a ∷ as') (b ∷ bs) h = ground (arith, eq_of_lex as' bs)

lex_gt : (a b : Slice) → lex a b ≡ Ordering.lt → lex b a ≡ Ordering.gt
lex_gt [] [] h = cc
lex_gt [] (b ∷ bs) h = refl
lex_gt (a ∷ as') [] h = cc
lex_gt (a ∷ as') (b ∷ bs) h = ground (arith, lex_gt as' bs)

lex_lt : (a b : Slice) → lex a b ≡ Ordering.gt → lex b a ≡ Ordering.lt
lex_lt [] [] h = cc
lex_lt [] (b ∷ bs) h = cc
lex_lt (a ∷ as') [] h = refl
lex_lt (a ∷ as') (b ∷ bs) h = ground (arith, lex_lt as' bs)

lex_trans : (a b c : Slice) → lex a b ≡ Ordering.lt → lex b c ≡ Ordering.lt → lex a c ≡ Ordering.lt
lex_trans [] [] c h k = cc
lex_trans [] (b ∷ bs) [] h k = cc
lex_trans [] (b ∷ bs) (c ∷ cs) h k = refl
lex_trans (a ∷ as') [] c h k = cc
lex_trans (a ∷ as') (b ∷ bs) [] h k = cc
lex_trans (a ∷ as') (b ∷ bs) (c ∷ cs) h k = ground (arith, lex_trans as' bs cs)

pub byte_fns-IsLawful : IsLawful byte_fns
byte_fns-IsLawful = record {
  cmp_refl = lex_refl;
  eq_of_cmp = eq_of_lex;
  gt_of_lt = lex_gt;
  lt_of_gt = lex_lt;
  lt_trans = lex_trans;
}
