-- ===== src/Mutation.antt =====
-- mutation.h, mutation.cpp, bruce.cpp and tree_impl::collectMutation: what a write made and made
-- obsolete, and the clean-up afterwards. The text of a failure is not modelled.
pub mod Finish
use libbruce.Base.{
  Bool, true, false, ◌&&◌, Option, none, some, List, [], ◌∷◌, ◌++◌, map, if◌then◌else◌, Result, ok,
  err, ◌>>=◌, out_of_range,
}
use libbruce.Memory.{NodeId, slice_eq}
use libbruce.Blocks.{PutBlock, DelBlock}

-- `mutation`
pub record Mutation : Type 0 where
  pub success : Bool
  pub new_root : Option NodeId
  pub created : List NodeId
  pub obsolete : List NodeId

-- `mutation::mutation`
abbrev pub new_mutation : Option NodeId → Mutation
new_mutation root = record { success = true; new_root = root; created = []; obsolete = [] }

-- `mutation::fail`
unfoldable pub fail : Mutation → Mutation
fail m = record m { success = false }

-- `mutation::setRoot`
unfoldable pub set_root : Option NodeId → Mutation → Mutation
set_root root m = record m { new_root = root }

-- `mutation::addCreated`
unfoldable pub add_created : Mutation → NodeId → Mutation
add_created m id = record m { created = m.created ++ id ∷ [] }

-- `mutation::addObsolete`
unfoldable pub add_obsolete : Mutation → NodeId → Mutation
add_obsolete m id = record m { obsolete = m.obsolete ++ id ∷ [] }

-- `mutation::deleteList`, the list that it returns a reference to.
unfoldable pub delete_list : Mutation → Bool → List NodeId
delete_list m commit = if commit && m.success then m.obsolete else m.created

-- A change of that list through the reference.
unfoldable pub set_delete_list : Mutation → Bool → List NodeId → Mutation
set_delete_list m commit ids =
    if commit && m.success then record m { obsolete = ids } else record m { created = ids }

-- The loops of `collectMutation`.
unfoldable pub collect_created : Mutation → Bool → List PutBlock → Mutation × Bool
unfolding add_created
collect_created m failed [] = (m, failed)
collect_created m failed (b ∷ bs) =
    let created = collect_created (add_created m b.id) failed bs in
    let skipped = collect_created m true bs in if b.success then created else skipped

unfoldable pub collect_obsolete : Mutation → List NodeId → Mutation
unfolding add_obsolete
collect_obsolete m [] = m
collect_obsolete m (id ∷ ids) = collect_obsolete (add_obsolete m id) ids

-- `tree_impl::collectMutation`
unfoldable pub collect_mutation : Option NodeId → List PutBlock → List NodeId → Mutation
unfolding collect_created collect_obsolete fail
collect_mutation root put_blocks loaded_ids =
    let made = collect_created (new_mutation root) false put_blocks in
    collect_obsolete (if made.1 then fail made.0 else made.0) loaded_ids

-- `ns.erase(std::find(...))`
unfoldable pub erase_first : NodeId → List NodeId → Result (List NodeId)
erase_first id [] = err out_of_range
erase_first id (n ∷ ns) =
    let rest = erase_first id ns in
    if slice_eq n id then ok ns else elim rest [ ok r ↦ ok (n ∷ r) | err e ↦ err e ]

-- The loop of `finish_mutation` over the deletions.
unfoldable pub drop_deleted : List NodeId → Bool → List DelBlock → Result (List NodeId × Bool)
unfolding erase_first
drop_deleted ns all_deleted [] = ok (ns, all_deleted)
drop_deleted ns all_deleted (d ∷ ds) =
    if d.success
    then (erase_first d.id ns >>= λ left. drop_deleted left all_deleted ds)
    else drop_deleted ns false ds

abbrev pub deletions : List NodeId → List DelBlock
deletions ids = map (λ id. record { id = id; success = false }) ids

module _ {S : Type 0} (delete : S → List DelBlock → S × Option (List DelBlock)) where
  -- `finish_mutation`, over an engine of state `S` whose `del_all` marks the deletions or throws.
  unfoldable pub finish_mutation : S → Mutation → Bool → Result (S × Mutation × Bool)
  unfolding delete_list drop_deleted set_delete_list fail
  finish_mutation s m commit =
      let done = delete s (deletions (delete_list m commit)) in
      elim done.1 [
        | none ↦ ok (done.0, fail m, false)
        | some ds ↦ elim (drop_deleted (delete_list m commit) true ds) [
          | err e ↦ err e
          | ok r ↦ ok (done.0, set_delete_list m commit r.0, r.1)
        ]
      ]
