-- ===== src/Functions/Order.antt =====
-- What a lawful comparator makes of the order of keys.
use libbruce.Base.{◌≢◌, ap, sym, arith}
use libbruce.Memory.{Slice}
use libbruce.Functions.{TreeFunctions, IsLawful, Le, Lt}

module _ (fns : TreeFunctions) (lawful : IsLawful fns) where
  pub lt→le : (a b : Slice) → Lt fns a b → Le fns a b
  lt→le a b h e = ground (arith, h, e)

  pub lt-le_trans : (a b c : Slice) → Lt fns a b → Le fns b c → Lt fns a c
  lt-le_trans a b c h k = ground (
    arith,
    h,
    k,
    lawful.eq_of_cmp b c,
    lawful.lt_trans a b c,
    ap (fns.key_compare a),
    lawful.lt_of_gt b c,
  )

  pub le-lt_trans : (a b c : Slice) → Le fns a b → Lt fns b c → Lt fns a c
  le-lt_trans a b c h k =
      ground (arith, h, k, lawful.eq_of_cmp a b, lawful.lt_trans a b c, lawful.lt_of_gt a b)

  pub lt→ne : (a b : Slice) → Lt fns a b → a ≢ b
  lt→ne a b h e = ground (arith, h, lawful.cmp_refl b, ap (λ x. fns.key_compare x b) e)

  pub gt→ne : (a b : Slice) → Lt fns b a → a ≢ b
  gt→ne a b h e = lt→ne b a h (sym e)
