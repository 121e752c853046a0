-- ===== src/Leaf/Merge/Refines/Back.antt =====
-- One edit of the merge is one abstract step.
use libbruce.Base.{
  ℕ, ◌∙◌, ◌+◌, ◌≡◌, ◌≢◌, refl, sym, ap, subst, true, false, Bool-cases, ◌⊎◌, inl, inr, List, [],
  ◌∷◌, arith, All,
}
use libbruce.Memory.{Slice, KvPair, slice_eq, slice_eq→eq, slice_eq_refl}
use libbruce.Functions.{TreeFunctions, IsLawful, Le}
use libbruce.Edit.{EditType, EditType-cases, PendingEdit, edit_pair}
use libbruce.Leaf.Order.{Below}
use libbruce.Leaf.Merge.{upsert_back, remove_back, removes, perform}
use libbruce.Leaf.Merge.State.{IsDescending}
use libbruce.Leaf.Merge.Refines.{
  pair_eq, hit, count, Contents, at, Takes, IsRemove, EditStep, adds, replaces, fills, takes,
  misses,
}

hit_self : (p : KvPair) → hit p p ≡ 1
unfolding pair_eq
hit_self p = ground (arith, slice_eq_refl p.key, slice_eq_refl p.value)

-- No pair has the key.
abbrev pub Lacks : Slice → List KvPair → Type 0
Lacks k ps = All (λ p. k ≢ p.key) ps

pub count-Lacks :
    (k w : Slice) (ps : List KvPair) → Lacks k ps → count (record { key = k; value = w }) ps ≡ 0
unfolding pair_eq
count-Lacks k w [] h = refl
count-Lacks k w (p ∷ ps) h = ground (arith, slice_eq→eq k p.key, h.0, count-Lacks k w ps h.1)

-- The contents during the loop: what is in `updated`, and what is still to be copied.
abbrev pub contents : List KvPair → List KvPair → Contents
contents done cs p = count p done + count p cs

module _ (fns : TreeFunctions) (lawful : IsLawful fns) where
  -- Below the last pair with another key, the key does not occur.
  descending-Lacks :
      (k : Slice) (q : KvPair) (done : List KvPair)
      → Le fns q.key k
      → k ≢ q.key
      → Below fns q.key done
      → Lacks k done
  descending-Lacks k q [] le ne b = tt
  descending-Lacks k q (p ∷ done) le ne b =
      (λ e. ne_of_bound e, descending-Lacks k q done le ne b.1)
    where
      ne_of_bound : k ≡ p.key → ⊥
      ne_of_bound e = ground (
        arith,
        lawful.eq_of_cmp q.key k,
        lawful.gt_of_lt q.key k,
        subst (λ x. Le fns x q.key) (sym e) b.0,
        ne,
        le,
      )

  -- What a remove makes of `updated`: it takes one pair, or there is none to take.
  abbrev pub Removed : PendingEdit → List KvPair → List KvPair → Type 0
  Removed e ps qs =
      ((w : Slice) × Takes e w × ((p : KvPair) → count p qs + hit p (at e w) ≡ count p ps))
      ⊎ (((w : Slice) → Takes e w → count (at e w) ps ≡ 0)
          × ((p : KvPair) → count p qs ≡ count p ps))

  Takes-removes : (e : PendingEdit) (q : KvPair) → IsRemove e → removes e q ≡ true → Takes e q.value
  Takes-removes e q (inl k) h = inl k
  Takes-removes e q (inr k) h = inr (k, slice_eq→eq e.value q.value (ground arith))

  hit_kept :
      (e : PendingEdit) (q : KvPair) (w : Slice)
      → removes e q ≡ false
      → Takes e w
      → hit (at e w) q ≡ 0
  unfolding pair_eq
  hit_kept e q w h (inl k) = ground arith
  hit_kept e q w h (inr (k, v)) = ground (arith, ap (λ x. slice_eq x q.value) v)

  remove_back-Removed :
      (e : PendingEdit) (done : List KvPair) (n : ℕ)
      → IsRemove e
      → Below fns e.key done
      → IsDescending fns done
      → Removed e done (remove_back e done n).0
  remove_back-Removed e [] n r b d = inr (λ w t. refl, λ p. refl)
  remove_back-Removed e (q ∷ done) n r b d = elim (Bool-cases (slice_eq q.key e.key)) [
    | inr other ↦
        let ne : e.key ≢ q.key =
          λ k. ground (arith, slice_eq_refl q.key, ap (λ x. slice_eq q.key x) k) in
        rw other (
          inr (
            λ w t. count-Lacks e.key w (q ∷ done) (ne, descending-Lacks e.key q done b.0 ne d.1),
            λ p. refl,
          ))
    | inl same ↦
        let k = slice_eq→eq q.key e.key same in
        elim (Bool-cases (removes e q)) [
          | inl gone ↦
              rw (same, gone)
                (inl (
                  q.value,
                  Takes-removes e q r gone,
                  λ p. omega (arith, ap (λ x. hit p (record { key = x; value = q.value })) k),
                ))
          | inr kept ↦
              rw (same, kept)
                (elim (remove_back-Removed e done n r b.1 d.2) [
                  | inl (w, t, h) ↦ inl (w, t, λ p. omega (arith, h p))
                  | inr (none_left, h) ↦ inr (
                    λ w t. omega (arith, hit_kept e q w kept t, none_left w t),
                    λ p. omega (arith, h p),
                  )
                ])
        ]
  ]

  module _ (e : PendingEdit) (cs : List KvPair) where
    upsert_back-step :
        (done : List KvPair) (n : ℕ)
        → e.edit ≡ EditType.upsert
        → Lacks e.key cs
        → Below fns e.key done
        → IsDescending fns done
        → EditStep e (contents done cs) (contents (upsert_back e done n).0 cs)
    upsert_back-step [] n u l b d =
        fills u (λ w. omega (arith, count-Lacks e.key w cs l)) (λ p. omega arith)
    upsert_back-step (q ∷ done) n u l b d = elim (Bool-cases (slice_eq q.key e.key)) [
      | inr other ↦
          let ne : e.key ≢ q.key =
            λ k. ground (arith, slice_eq_refl q.key, ap (λ x. slice_eq q.key x) k) in
          let lacks : Lacks e.key (q ∷ done) = (ne, descending-Lacks e.key q done b.0 ne d.1) in
          rw other (
            fills u
              (λ w. omega (arith, count-Lacks e.key w cs l, count-Lacks e.key w (q ∷ done) lacks))
              (λ p. omega arith))
      | inl same ↦
          let k = slice_eq→eq q.key e.key same in
          let here : hit (at e q.value) q ≡ 1 =
            ap (λ x. hit (record { key = x; value = q.value }) q) (sym k) ∙ hit_self q in
          rw same (
            replaces q.value u (omega (arith, here)) (λ p. omega (
              arith,
              ap (λ x. hit p (record { key = x; value = q.value })) k,
              ap (λ x. hit p (record { key = x; value = e.value })) k,
            )))
    ]

    remove_back-step :
        (done : List KvPair) (n : ℕ)
        → IsRemove e
        → Lacks e.key cs
        → Below fns e.key done
        → IsDescending fns done
        → EditStep e (contents done cs) (contents (remove_back e done n).0 cs)
    remove_back-step done n r l b d = elim (remove_back-Removed e done n r b d) [
      | inl (w, t, h) ↦
          takes w t (omega (arith, h (at e w), hit_self (at e w))) (λ p. omega (arith, h p))
      | inr (gone, h) ↦
          misses r (λ w t. omega (arith, gone w t, count-Lacks e.key w cs l))
            (λ p. omega (arith, h p))
    ]

    perform-insert :
        (done : List KvPair) (n : ℕ)
        → e.edit ≡ EditType.insert
        → (perform e done n).0 ≡ edit_pair e ∷ done
    unfolding perform
    perform-insert done n k = ground arith

    perform-upsert :
        (done : List KvPair) (n : ℕ)
        → e.edit ≡ EditType.upsert
        → perform e done n ≡ upsert_back e done n
    unfolding perform
    perform-upsert done n k = ground arith

    perform-remove :
        (done : List KvPair) (n : ℕ) → IsRemove e → perform e done n ≡ remove_back e done n
    unfolding perform
    perform-remove done n r = ground arith

    -- An insert needs no premise; the other edits need their key to be absent from what follows.
    pub perform-step :
        (done : List KvPair) (n : ℕ)
        → (e.edit ≢ EditType.insert → Lacks e.key cs)
        → Below fns e.key done
        → IsDescending fns done
        → EditStep e (contents done cs) (contents (perform e done n).0 cs)
    perform-step done n l b d = elim (EditType-cases e.edit) [
      | inl k ↦ adds k (λ p. rw (perform-insert done n k) (omega arith))
      | inr (inl k) ↦ rw (perform-upsert done n k) (upsert_back-step done n k (l (λ x. cc)) b d)
      | inr (inr (inl k)) ↦
          rw (perform-remove done n (inl k)) (remove_back-step done n (inl k) (l (λ x. cc)) b d)
      | inr (inr (inr k)) ↦
          rw (perform-remove done n (inr k)) (remove_back-step done n (inr k) (l (λ x. cc)) b d)
    ]
