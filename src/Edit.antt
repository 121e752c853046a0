-- ===== src/Edit.antt =====
-- edit_t and pending_edit of nodes.h and nodes.cpp.
pub mod Queue
use libbruce.Base.{◌≡◌, refl, ◌⊎◌, inl, inr, ℕ, ◌-◌, ◌^◌, Bool, List, [], ◌∷◌}
use libbruce.Memory.{Slice, KvPair}
use libbruce.Functions.{TreeFunctions, before, Le, IsKey}
use libbruce.Base.{All, upper_bound, lower_bound, insert_at}

-- `edit_t`, in the order that fixes the numbers of a serialized block.
pub data EditType : Type 0 where
  insert remove_key remove_kv upsert : EditType

-- `pending_edit`
pub record PendingEdit : Type 0 where
  pub edit : EditType
  pub key : Slice
  pub value : Slice
  pub guaranteed : Bool

pub EditType-cases :
    (t : EditType)
    → (t ≡ EditType.insert)
      ⊎ ((t ≡ EditType.upsert) ⊎ ((t ≡ EditType.remove_key) ⊎ (t ≡ EditType.remove_kv)))
EditType-cases EditType.insert = inl refl
EditType-cases EditType.upsert = inr (inl refl)
EditType-cases EditType.remove_key = inr (inr (inl refl))
EditType-cases EditType.remove_kv = inr (inr (inr refl))

-- `pending_edit::delta`: an `int`, written as its 32-bit pattern, which is how it is added to
-- counters.
unfoldable pub delta : PendingEdit → ℕ
delta e = elim e.edit [
  | EditType.upsert ↦ 0
  | EditType.insert ↦ 1
  | EditType.remove_key ↦ 2 ^ 32 - 1
  | EditType.remove_kv ↦ 2 ^ 32 - 1
]

-- The pair that an insert or an upsert writes.
abbrev pub edit_pair : PendingEdit → KvPair
edit_pair e = record { key = e.key; value = e.value }

module _ (fns : TreeFunctions) where
  -- `std::lower_bound` over a queue under `EditOrder`
  abbrev pub first_edit_not_before : Slice → List PendingEdit → ℕ
  first_edit_not_before key es = lower_bound (λ e. before fns e.key key) es

  -- The last case of `tree_impl::apply`, at SHALLOW: into the queue, behind the edits of the key.
  unfoldable pub enqueue : PendingEdit → List PendingEdit → List PendingEdit
  enqueue edit queue = insert_at (upper_bound (λ e. before fns edit.key e.key) queue) edit queue

  -- A queue in the order of its keys.
  abbrev pub IsQueue : List PendingEdit → Type 0
  IsQueue [] = Unit
  IsQueue (e ∷ es) = IsKey e.key × All (λ x. Le fns e.key x.key) es × IsQueue es
