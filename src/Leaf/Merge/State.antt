-- ===== src/Leaf/Merge/State.antt =====
-- The state of the merge loop of `LeafNode::applyAll`: what is done comes before what is to come.
use libbruce.Base.{
  ℕ, ◌≡◌, true, false, Bool-cases, List, [], ◌∷◌, arith, inl, inr, All, All-imp, subst,
}
use libbruce.Memory.{Slice, KvPair, slice_eq, slice_eq→eq}
use libbruce.Functions.{TreeFunctions, IsLawful, IsKey, Le}
use libbruce.Edit.{PendingEdit, IsQueue}
use libbruce.Leaf.Order.{
  Above, Below, IsSorted, le_refl, le_trans, before→le, not_before→le, Above-trans,
}
use libbruce.Leaf.Merge.{upsert_back, remove_back, perform, takes_turn}

-- What an edit leaves in `updated` has a property that the old pairs and the edit's pair have.
module _ (P : Slice → Type 0) (e : PendingEdit) (here : P e.key) where
  upsert_back-All :
      (done : List KvPair) (n : ℕ)
      → All (λ p. P p.key) done
      → All (λ p. P p.key) (upsert_back e done n).0
  upsert_back-All [] n h = (here, tt)
  upsert_back-All (q ∷ done) n h = ground (arith, here)

  remove_back-All :
      (done : List KvPair) (n : ℕ)
      → All (λ p. P p.key) done
      → All (λ p. P p.key) (remove_back e done n).0
  remove_back-All [] n h = h
  remove_back-All (q ∷ done) n h = ground (arith, remove_back-All done n h.1)

  pub perform-All :
      (done : List KvPair) (n : ℕ)
      → All (λ p. P p.key) done
      → All (λ p. P p.key) (perform e done n).0
  unfolding perform
  perform-All done n h = ground (arith, here, upsert_back-All done n h, remove_back-All done n h)

module _ (fns : TreeFunctions) where
  -- `updated`, last pair first.
  abbrev pub IsDescending : List KvPair → Type 0
  IsDescending [] = Unit
  IsDescending (p ∷ ps) = IsKey p.key × Below fns p.key ps × IsDescending ps

  -- The state of the loop: all that was copied or inserted comes before all that is still to come.
  pub record IsMerging (cs : List KvPair) (es : List PendingEdit) (done : List KvPair)
      : Type 0 where
    pub descending : IsDescending done
    pub pairs : IsSorted fns cs
    pub edits : IsQueue fns es
    pub low : All (λ c. Below fns c.key done) cs
    pub due : All (λ e. Below fns e.key done) es

module _ (fns : TreeFunctions) (lawful : IsLawful fns) where
  upsert_back-IsDescending :
      (e : PendingEdit) (done : List KvPair) (n : ℕ)
      → IsKey e.key
      → Below fns e.key done
      → IsDescending fns done
      → IsDescending fns (upsert_back e done n).0
  upsert_back-IsDescending e [] n k b d = (k, tt, tt)
  upsert_back-IsDescending e (q ∷ done) n k b d = ground arith

  remove_back-IsDescending :
      (e : PendingEdit) (done : List KvPair) (n : ℕ)
      → IsDescending fns done
      → IsDescending fns (remove_back e done n).0
  remove_back-IsDescending e [] n d = d
  remove_back-IsDescending e (q ∷ done) n d = elim (Bool-cases (slice_eq q.key e.key)) [
    | inr other ↦ rw other d
    | inl same ↦
        let rest = remove_back-IsDescending e done n d.2 in
        let here : Le fns e.key q.key =
          subst (λ k. Le fns k q.key) (slice_eq→eq q.key e.key same) (le_refl fns lawful q.key) in
        let low = remove_back-All (λ k. Le fns k q.key) e here done n d.1 in
        rw same (ground (arith, rest, low))
  ]

  perform-IsDescending :
      (e : PendingEdit) (done : List KvPair) (n : ℕ)
      → IsKey e.key
      → Below fns e.key done
      → IsDescending fns done
      → IsDescending fns (perform e done n).0
  unfolding perform
  perform-IsDescending e done n k b d =
      ground (arith, upsert_back-IsDescending e done n k b d, remove_back-IsDescending e done n d)

  -- An edit that takes its turn is at most the next pair; a pair that goes first is at most the edit.
  pub takes_turn→le :
      (e : PendingEdit) (c : KvPair)
      → IsKey e.key
      → IsKey c.key
      → takes_turn fns e c ≡ true
      → Le fns e.key c.key
  unfolding takes_turn
  takes_turn→le e c ke kc h g = ground (arith, before→le fns lawful e.key c.key ke kc)

  pub waits→le :
      (e : PendingEdit) (c : KvPair)
      → IsKey e.key
      → IsKey c.key
      → takes_turn fns e c ≡ false
      → Le fns c.key e.key
  unfolding takes_turn
  waits→le e c ke kc h g =
      ground (arith, not_before→le fns lawful e.key c.key ke kc, lawful.lt_of_gt c.key e.key)

  perform-low :
      (e : PendingEdit) (done cs : List KvPair) (n : ℕ)
      → Above fns e.key cs
      → All (λ c. Below fns c.key done) cs
      → All (λ c. Below fns c.key (perform e done n).0) cs
  perform-low e done [] n a l = tt
  perform-low e done (c ∷ cs) n a l =
      (perform-All (λ k. Le fns k c.key) e a.0 done n l.0, perform-low e done cs n a.1 l.1)

  perform-due :
      (e : PendingEdit) (done : List KvPair) (es : List PendingEdit) (n : ℕ)
      → All (λ x. Le fns e.key x.key) es
      → All (λ x. Below fns x.key done) es
      → All (λ x. Below fns x.key (perform e done n).0) es
  perform-due e done [] n a l = tt
  perform-due e done (x ∷ es) n a l =
      (perform-All (λ k. Le fns k x.key) e a.0 done n l.0, perform-due e done es n a.1 l.1)

  -- The two steps of the loop keep its invariant.
  pub perform-IsMerging :
      (e : PendingEdit) (cs : List KvPair) (es : List PendingEdit) (done : List KvPair) (n : ℕ)
      → Above fns e.key cs
      → IsMerging fns cs (e ∷ es) done
      → IsMerging fns cs es (perform e done n).0
  perform-IsMerging e cs es done n a m = record {
    descending = perform-IsDescending e done n m.edits.0 m.due.0 m.descending;
    pairs = m.pairs;
    edits = m.edits.2;
    low = perform-low e done cs n a m.low;
    due = perform-due e done es n m.edits.1 m.due.1;
  }

  copy_low :
      (c : KvPair) (done cs : List KvPair)
      → Above fns c.key cs
      → All (λ x. Below fns x.key done) cs
      → All (λ x. Below fns x.key (c ∷ done)) cs
  copy_low c done [] a l = tt
  copy_low c done (x ∷ cs) a l = ((a.0, l.0), copy_low c done cs a.1 l.1)

  copy_due :
      (c : KvPair) (done : List KvPair) (es : List PendingEdit)
      → All (λ x. Le fns c.key x.key) es
      → All (λ x. Below fns x.key done) es
      → All (λ x. Below fns x.key (c ∷ done)) es
  copy_due c done [] a l = tt
  copy_due c done (x ∷ es) a l = ((a.0, l.0), copy_due c done es a.1 l.1)

  -- A pair below the first edit of a queue is below all.
  le_queue :
      (a : Slice) (e : PendingEdit) (es : List PendingEdit)
      → Le fns a e.key
      → All (λ x. Le fns e.key x.key) es
      → All (λ x. Le fns a x.key) (e ∷ es)
  le_queue a e es h q = (
    h,
    All-imp (λ x. Le fns e.key x.key) (λ x. Le fns a x.key)
        (λ x. le_trans fns lawful a e.key x.key h) es q,
  )

  pub copy-IsMerging :
      (c : KvPair) (cs : List KvPair) (es : List PendingEdit) (done : List KvPair)
      → All (λ x. Le fns c.key x.key) es
      → IsMerging fns (c ∷ cs) es done
      → IsMerging fns cs es (c ∷ done)
  copy-IsMerging c cs es done a m = record {
    descending = (m.pairs.0, m.low.0, m.descending);
    pairs = m.pairs.2;
    edits = m.edits;
    low = copy_low c done cs m.pairs.1 m.low.1;
    due = copy_due c done es a m.due;
  }

  -- What is still to come after the edit `e` that takes its turn before `c`.
  pub turn-Above :
      (e : PendingEdit) (c : KvPair) (cs : List KvPair) (es : List PendingEdit) (done : List KvPair)
      → IsMerging fns (c ∷ cs) (e ∷ es) done
      → takes_turn fns e c ≡ true
      → Above fns e.key (c ∷ cs)
  turn-Above e c cs es done m h =
      let le = takes_turn→le e c m.edits.0 m.pairs.0 h in
      (le, Above-trans fns lawful e.key c.key cs le m.pairs.1)

  pub wait-Above :
      (e : PendingEdit) (c : KvPair) (cs : List KvPair) (es : List PendingEdit) (done : List KvPair)
      → IsMerging fns (c ∷ cs) (e ∷ es) done
      → takes_turn fns e c ≡ false
      → All (λ x. Le fns c.key x.key) (e ∷ es)
  wait-Above e c cs es done m h = le_queue c.key e es (waits→le e c m.edits.0 m.pairs.0 h) m.edits.1

  start_low : (cs : List KvPair) → All (λ c. Below fns c.key []) cs
  start_low [] = tt
  start_low (c ∷ cs) = (tt, start_low cs)

  start_due : (es : List PendingEdit) → All (λ e. Below fns e.key []) es
  start_due [] = tt
  start_due (e ∷ es) = (tt, start_due es)

  pub start-IsMerging :
      (cs : List KvPair) (es : List PendingEdit)
      → IsSorted fns cs
      → IsQueue fns es
      → IsMerging fns cs es []
  start-IsMerging cs es s q = record {
    descending = tt;
    pairs = s;
    edits = q;
    low = start_low cs;
    due = start_due es;
  }
