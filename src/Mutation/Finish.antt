-- ===== src/Mutation/Finish.antt =====
-- After finish_mutation the list that was to be deleted holds what is still there.
use libbruce.Base.{
  ℕ, ◌+◌, ◌<◌, ◌≡◌, append-nil, append_assoc, ap₂, refl, sym, ap, ◌∙◌, inl, inr, Bool, true, false,
  not, ◌&&◌, Bool-cases, Option, some, List, [], ◌∷◌, ◌++◌, map, arith, tally, tally-append, Same,
  ok, if◌then◌else◌,
}
use libbruce.Memory.{NodeId, slice_eq, slice_eq→eq, slice_eq_refl}
use libbruce.Blocks.{PutBlock, DelBlock}
use libbruce.Mutation.{
  Mutation, new_mutation, delete_list, set_delete_list, erase_first, drop_deleted, deletions,
  finish_mutation, collect_mutation, collect_created, collect_obsolete, add_created, add_obsolete,
  fail,
}

abbrev is_id : NodeId → NodeId → ℕ
is_id id n = if slice_eq n id then 1 else 0

erase_first-ok :
    (id : NodeId) (ns : List NodeId)
    → 0 < tally (is_id id) ns
    → (left : List NodeId) × (erase_first id ns ≡ ok left)
      × ((f : NodeId → ℕ) → f id + tally f left ≡ tally f ns)
unfolding erase_first
erase_first-ok id [] h = absurd (omega (arith, h))
erase_first-ok id (n ∷ ns) h = elim (Bool-cases (slice_eq n id)) [
  | inl e ↦ rw e (ns, refl, λ f. omega (arith, ap f (slice_eq→eq n id e)))
  | inr e ↦
      let rest = erase_first-ok id ns (ground (arith, e, h)) in
      rw e (rw rest.1 (n ∷ rest.0, refl, λ f. omega (arith, rest.2 f)))
]

-- The ids whose deletion failed.
abbrev pub failed_ids : List DelBlock → List NodeId
failed_ids [] = []
failed_ids (d ∷ ds) = if d.success then failed_ids ds else d.id ∷ failed_ids ds

abbrev pub all_succeed : List DelBlock → Bool
all_succeed [] = true
all_succeed (d ∷ ds) = d.success && all_succeed ds

abbrev pub ids_of : List DelBlock → List NodeId
ids_of ds = map (λ d. d.id) ds

drop_deleted-ok :
    (ns kept : List NodeId) (flag : Bool) (ds : List DelBlock)
    → Same ns (kept ++ ids_of ds)
    → (left : List NodeId) × (drop_deleted ns flag ds ≡ ok (left, flag && all_succeed ds))
      × Same left (kept ++ failed_ids ds)
unfolding drop_deleted
drop_deleted-ok ns kept flag [] h = (ns, ground arith, h)
drop_deleted-ok ns kept flag (d ∷ ds) h = elim (Bool-cases d.success) [
  | inl e ↦
      let erased = erase_first-ok d.id ns (
        ground (
          arith,
          h (is_id d.id),
          tally-append (is_id d.id) kept (ids_of (d ∷ ds)),
          slice_eq_refl d.id,
        )) in
      let rest = drop_deleted-ok erased.0 kept flag ds (λ f. omega (
        arith,
        erased.2 f,
        h f,
        tally-append f kept (ids_of (d ∷ ds)),
        tally-append f kept (ids_of ds),
      )) in
      (rest.0, rw e (rw erased.1 rest.1), rw e rest.2)
  | inr e ↦
      let rest = drop_deleted-ok ns (kept ++ d.id ∷ []) false ds (λ f. omega (
        arith,
        h f,
        tally-append f kept (ids_of (d ∷ ds)),
        tally-append f (kept ++ d.id ∷ []) (ids_of ds),
        tally-append f kept (d.id ∷ []),
      )) in
      (
        rest.0,
        rw e (rest.1 ∙ ap (λ b. ok (rest.0, b)) (no_flag flag)),
        rw e (λ f. omega (
          arith,
          rest.2 f,
          tally-append f (kept ++ d.id ∷ []) (failed_ids ds),
          tally-append f kept (d.id ∷ []),
          tally-append f kept (d.id ∷ failed_ids ds),
        )),
      )
]
  where
    no_flag : (b : Bool) → false ≡ (b && false)
    no_flag true = refl
    no_flag false = refl

ids_of-deletions : (ids : List NodeId) → ids_of (deletions ids) ≡ ids
ids_of-deletions [] = refl
ids_of-deletions (id ∷ ids) = ap (◌∷◌ id) (ids_of-deletions ids)

delete_list-set_delete_list :
    (m : Mutation) (commit : Bool) (ids : List NodeId)
    → delete_list (set_delete_list m commit ids) commit ≡ ids
unfolding delete_list set_delete_list
delete_list-set_delete_list m commit ids = elim (Bool-cases (commit && m.success)) [
  | inl e ↦ rw e (rw e refl)
  | inr e ↦ rw e (rw e refl)
]

module _ {S : Type 0} (delete : S → List DelBlock → S × Option (List DelBlock)) (s : S)
    (m : Mutation) (commit : Bool) where
  -- If the engine's deletion returns, with a mark for each id in turn, then `finish_mutation`
  -- returns whether all are marked as deleted, and the mutation's list is left with those that are not.
  pub finish_mutation-ok :
      (ds : List DelBlock)
      → (delete s (deletions (delete_list m commit))).1 ≡ some ds
      → ids_of ds ≡ delete_list m commit
      → (after : Mutation) × (finish_mutation delete s m commit
          ≡ ok ((delete s (deletions (delete_list m commit))).0, after, all_succeed ds))
        × Same (delete_list after commit) (failed_ids ds)
  unfolding finish_mutation
  finish_mutation-ok ds returned same_ids =
      let dropped =
        drop_deleted-ok (delete_list m commit) [] true ds (λ f. ap (tally f) (sym same_ids)) in
      (
        set_delete_list m commit dropped.0,
        rw (returned, finish_mutation) (rw (dropped.1, finish_mutation) refl),
        (λ f. ap (tally f) (delete_list-set_delete_list m commit dropped.0) ∙ dropped.2 f),
      )

-- The ids of the blocks that were written.
abbrev pub written : List PutBlock → List NodeId
written [] = []
written (b ∷ bs) = if b.success then b.id ∷ written bs else written bs

abbrev pub any_failed : List PutBlock → Bool
any_failed [] = false
any_failed (b ∷ bs) = if b.success then any_failed bs else true

collect_created-eq :
    (m : Mutation) (failed : Bool) (bs : List PutBlock)
    → collect_created m failed bs
      ≡ (record m { created = m.created ++ written bs }, if failed then true else any_failed bs)
unfolding collect_created add_created
collect_created-eq m failed [] =
    ap₂ (λ ids b. (record m { created = ids }, b)) (sym (append-nil m.created)) (same_flag failed)
  where
    same_flag : (b : Bool) → b ≡ (if b then true else false)
    same_flag true = refl
    same_flag false = refl
collect_created-eq m failed (b ∷ bs) = elim (Bool-cases b.success) [
  | inl e ↦ rw e (
      collect_created-eq (add_created m b.id) failed bs
      ∙ ap (λ ids. (record m { created = ids }, if failed then true else any_failed bs))
          (append_assoc m.created (b.id ∷ []) (written bs)))
  | inr e ↦ rw e (
      collect_created-eq m true bs
      ∙ ap (λ x. (record m { created = m.created ++ written bs }, x)) (stays failed))
]
  where
    stays : (b : Bool) → true ≡ (if b then true else true)
    stays true = refl
    stays false = refl

collect_obsolete-eq :
    (m : Mutation) (ids : List NodeId)
    → collect_obsolete m ids ≡ record m { obsolete = m.obsolete ++ ids }
unfolding collect_obsolete add_obsolete
collect_obsolete-eq m [] = ap (λ ids. record m { obsolete = ids }) (sym (append-nil m.obsolete))
collect_obsolete-eq m (id ∷ ids) =
    collect_obsolete-eq (add_obsolete m id) ids
    ∙ ap (λ x. record m { obsolete = x }) (append_assoc m.obsolete (id ∷ []) ids)

-- The mutation of a write lists the blocks that were written as created and those that were loaded as
-- obsolete, each in order, and is a success unless a block was not written.
pub collect_mutation-eq :
    (root : Option NodeId) (bs : List PutBlock) (loaded : List NodeId)
    → collect_mutation root bs loaded ≡ record {
      success = not (any_failed bs);
      new_root = root;
      created = written bs;
      obsolete = loaded;
    }
unfolding collect_mutation fail
collect_mutation-eq root bs loaded =
    rw (collect_created-eq (new_mutation root) false bs) (elim (Bool-cases (any_failed bs)) [
      | inl e ↦ rw e (collect_obsolete-eq _ loaded)
      | inr e ↦ rw e (collect_obsolete-eq _ loaded)
    ])
