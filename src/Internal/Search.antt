-- ===== src/Internal/Search.antt =====
-- FindInternalKey finds the branch whose range of keys holds the key.
use libbruce.Base.{
  ℕ, suc, ◌-◌, ◌≡◌, ◌≢◌, ◌⊎◌, refl, sym, ap, ◌∙◌, subst, inl, inr, true, false, Bool-cases,
  Ordering, none, some, List, [], ◌∷◌, ◌++◌, append_assoc, arith, ltb, length, length-append,
  get_elem?, lower_bound, All, if◌then◌else◌,
}
use libbruce.Memory
use libbruce.Memory.{Slice}
use libbruce.Functions.{TreeFunctions, IsLawful, IsKey, Le, Lt, is_eq}
use libbruce.Internal.{Branch, InternalNode, branch_before, settle, find_internal_key}

module _ {C : Type 0} (fns : TreeFunctions) where
  -- Branch keys after the first are bytes, and each is less than those behind it.
  abbrev pub IsRising : List (Branch C) → Type 0
  IsRising [] = Unit
  IsRising (b ∷ bs) =
      All (λ c. IsKey c.min_key × (IsKey b.min_key → Lt fns b.min_key c.min_key)) bs × IsRising bs

  -- The next branch, if there is one, begins behind the key.
  abbrev pub EndsBefore : Slice → List (Branch C) → Type 0
  EndsBefore key [] = Unit
  EndsBefore key (b ∷ bs) = Lt fns key b.min_key

  -- The first branches of a node, which have no stored key, begin with an empty one.
  abbrev pub StartsEmpty : List (Branch C) → Type 0
  StartsEmpty [] = ⊥
  StartsEmpty (b ∷ bs) = Memory.is_empty b.min_key ≡ true

  -- Where the lower bound lies: behind a branch that is before the key, and before none that is not.
  record AtBound (key : Slice) (bs : List (Branch C)) : Type 0 where
    front : List (Branch C)
    last : Branch C
    back : List (Branch C)
    parts : bs ≡ front ++ last ∷ back
    under : branch_before fns key last ≡ true
    over : (c : Branch C) → get_elem? back 0 ≡ some c → branch_before fns key c ≡ false
    bound : lower_bound (branch_before fns key) bs ≡ suc (length front)

  at_bound :
      (key : Slice) (b : Branch C) (bs : List (Branch C))
      → branch_before fns key b ≡ true
      → AtBound key (b ∷ bs)
  at_bound key b [] h = record {
    front = [];
    last = b;
    back = [];
    parts = refl;
    under = h;
    over = λ c e. absurd (none_some c e);
    bound = rw h refl;
  }
    where
      none_some : (c : Branch C) → none ≡ some c → ⊥
      none_some c e = cc
  at_bound key b (c ∷ bs) h = elim (Bool-cases (branch_before fns key c)) [
    | inl t ↦
        let rest = at_bound key c bs t in
        record {
          front = b ∷ rest.front;
          last = rest.last;
          back = rest.back;
          parts = ap (◌∷◌ b) rest.parts;
          under = rest.under;
          over = rest.over;
          bound = rw h (ap suc rest.bound);
        }
    | inr t ↦ record {
      front = [];
      last = b;
      back = c ∷ bs;
      parts = refl;
      under = h;
      over = λ d e. subst (λ x. branch_before fns key x ≡ false) (same c d e) t;
      bound = rw h (rw t refl);
    }
  ]
    where
      same : (c d : Branch C) → some c ≡ some d → c ≡ d
      same c d e = ground (arith, e)

  -- The branch that a key belongs to.
  pub record IsPlace (key : Slice) (bs : List (Branch C)) (i : ℕ) : Type 0 where
    pub before : List (Branch C)
    pub place : Branch C
    pub after : List (Branch C)
    pub parts : bs ≡ before ++ place ∷ after
    pub index : i ≡ length before
    pub starts : (Memory.is_empty place.min_key ≡ true) ⊎ Le fns place.min_key key
    pub ends : EndsBefore key after

  IsRising-append : (xs ys : List (Branch C)) → IsRising (xs ++ ys) → IsRising ys
  IsRising-append [] ys h = h
  IsRising-append (x ∷ xs) ys h = IsRising-append xs ys h.1

  under→le :
      (key : Slice) (b : Branch C)
      → IsKey key
      → branch_before fns key b ≡ true
      → (Memory.is_empty b.min_key ≡ true) ⊎ Le fns b.min_key key
  unfolding branch_before
  under→le key b k h = elim (Bool-cases (Memory.is_empty b.min_key)) [
    | inl e ↦ inl e
    | inr e ↦ inr (λ g. ground (arith, e, g))
  ]

  settle_end :
      (key : Slice) (bs : List (Branch C)) (i : ℕ)
      → get_elem? bs i ≡ none
      → settle fns key bs i ≡ i - 1
  unfolding settle
  settle_end key bs i h = rw (h, settle) refl

  settle_at :
      (key : Slice) (bs : List (Branch C)) (i : ℕ) (c : Branch C)
      → get_elem? bs (suc i) ≡ some c
      → Memory.is_empty c.min_key ≡ false
      → settle fns key bs (suc i) ≡ (if is_eq (fns.key_compare c.min_key key) then suc i else i)
  unfolding settle
  settle_at key bs i c h e =
      let positive : ltb 0 (suc i) ≡ true = ground arith in
      let back_one : suc i - 1 ≡ i = omega arith in
      rw (h, settle) (rw e (rw positive (rw back_one refl)))

  at_index :
      (xs ys : List (Branch C)) (y : Branch C)
      → get_elem? (xs ++ y ∷ ys) (suc (length xs)) ≡ get_elem? ys 0
  at_index [] ys y = refl
  at_index (x ∷ xs) ys y = at_index xs ys y

  not_under→full :
      (key : Slice) (c : Branch C)
      → branch_before fns key c ≡ false
      → Memory.is_empty c.min_key ≡ false
  unfolding branch_before
  not_under→full key c h = ground (arith, h)

  not_under→ge :
      (key : Slice) (c : Branch C)
      → IsKey key
      → branch_before fns key c ≡ false
      → fns.key_compare c.min_key key ≢ Ordering.lt
  unfolding branch_before
  not_under→ge key c k h e = ground (arith, h, e)

module _ {C : Type 0} (fns : TreeFunctions) (lawful : IsLawful fns) where
  -- The branch after a place that the key begins.
  ends_rising :
      (key : Slice) (c : Branch C) (bs : List (Branch C))
      → IsKey c.min_key
      → c.min_key ≡ key
      → IsRising fns (c ∷ bs)
      → EndsBefore fns key bs
  ends_rising key c [] k e h = tt
  ends_rising key c (d ∷ bs) k e h = subst (λ x. Lt fns x d.min_key) e (h.0.0.1 k)

  place :
      (key : Slice) (bs : List (Branch C))
      → IsKey key
      → IsRising fns bs
      → (at : AtBound fns key bs) → IsPlace fns key bs (settle fns key bs (suc (length at.front)))
  place key bs k rising at = by_back at.back refl
    where
      found :
          (ys : List (Branch C))
          → at.back ≡ ys
          → get_elem? bs (suc (length at.front)) ≡ get_elem? ys 0
      found ys e =
          ap (λ xs. get_elem? xs (suc (length at.front))) at.parts
          ∙ at_index fns at.front at.back at.last
          ∙ ap (λ xs. get_elem? xs 0) e

      by_back :
          (ys : List (Branch C))
          → at.back ≡ ys
          → IsPlace fns key bs (settle fns key bs (suc (length at.front)))
      by_back [] e = record {
        before = at.front;
        place = at.last;
        after = [];
        parts = at.parts ∙ ap (λ xs. at.front ++ at.last ∷ xs) e;
        index = settle_end fns key bs (suc (length at.front)) (found [] e) ∙ back_one;
        starts = under→le fns key at.last k at.under;
        ends = tt;
      }
        where
          back_one : suc (length at.front) - 1 ≡ length at.front
          back_one = omega arith
      by_back (c ∷ ys) e =
          let over = at.over c (ap (λ xs. get_elem? xs 0) e) in
          let full = not_under→full fns key c over in
          let ge = not_under→ge fns key c k over in
          let parts : bs ≡ at.front ++ at.last ∷ (c ∷ ys) =
            at.parts ∙ ap (λ xs. at.front ++ at.last ∷ xs) e in
          let settled = settle_at fns key bs (length at.front) c (found (c ∷ ys) e) full in
          let rising_back =
            (IsRising-append fns at.front (at.last ∷ (c ∷ ys))
              (subst (λ xs. IsRising fns xs) parts rising)).1 in
          elim (Bool-cases (is_eq (fns.key_compare c.min_key key))) [
            | inl q ↦
                let same : c.min_key ≡ key = ground (arith, q, lawful.eq_of_cmp c.min_key key) in
                record {
                  before = at.front ++ at.last ∷ [];
                  place = c;
                  after = ys;
                  parts = parts ∙ sym (append_assoc at.front (at.last ∷ []) (c ∷ ys));
                  index = settled ∙ rw q (omega (arith, length-append at.front (at.last ∷ [])));
                  starts = inr (λ g. ground (arith, q, g));
                  ends = ends_rising key c ys full same rising_back;
                }
            | inr q ↦ record {
              before = at.front;
              place = at.last;
              after = c ∷ ys;
              parts = parts;
              index = settled ∙ rw q refl;
              starts = under→le fns key at.last k at.under;
              ends = ground (arith, q, ge, lawful.lt_of_gt c.min_key key);
            }
          ]

  empty_under :
      (key : Slice) (b : Branch C)
      → Memory.is_empty b.min_key ≡ true
      → branch_before fns key b ≡ true
  unfolding branch_before
  empty_under key b h = rw h refl

  -- Under a lawful comparator, in a node whose first branch has an empty key and whose other keys are
  -- rising, FindInternalKey finds, for a non-empty key, the branch whose key is empty or at most that key, while the next
  -- branch, if there is one, begins behind the key.
  pub find_internal_key-IsPlace :
      (node : InternalNode C) (key : Slice)
      → IsKey key
      → StartsEmpty fns node.branches
      → IsRising fns node.branches
      → IsPlace fns key node.branches (find_internal_key fns node key)
  unfolding find_internal_key
  find_internal_key-IsPlace node key k first rising = at_branches node.branches first rising
    where
      at_branches :
          (bs : List (Branch C))
          → StartsEmpty fns bs
          → IsRising fns bs
          → IsPlace fns key bs (settle fns key bs (lower_bound (branch_before fns key) bs))
      at_branches [] f h = absurd f
      at_branches (b ∷ bs) f h =
          let at = at_bound fns key b bs (empty_under key b f) in
          subst (λ i. IsPlace fns key (b ∷ bs) (settle fns key (b ∷ bs) i)) (sym at.bound)
            (place key (b ∷ bs) k h at)
