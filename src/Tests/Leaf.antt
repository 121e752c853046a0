-- ===== src/Tests/Leaf.antt =====
-- A leaf of three pairs, and a queue of edits of every kind.
use libbruce.Base.{All, ◌++◌, ℕ, ◌≡◌, refl, true, List, [], ◌∷◌, arith}
use libbruce.Memory.{Slice, KvPair, slice_eq}
use libbruce.Functions.{Le, Lt, before}
use libbruce.Edit.{EditType, PendingEdit, IsQueue, enqueue}
use libbruce.Edit.Queue.{enqueue-IsQueue}
use libbruce.Overflow.{no_overflow}
use libbruce.Leaf.{LeafNode, insert}
use libbruce.Leaf.Order.{IsSorted, insert-IsSorted}
use libbruce.Leaf.Sizes.{IsSized, insert-IsSized}
use libbruce.Leaf.Merge.{apply_all, perform, takes_turn}
use libbruce.Leaf.Merge.Sizes.{apply_all-IsSized}
use libbruce.Leaf.Merge.Order.{apply_all-IsSorted}
use libbruce.Tests.Order.{byte_fns, byte_fns-IsLawful}

abbrev pub key : ℕ → Slice
key n = 1 ∷ n ∷ []

abbrev pub pair : ℕ → ℕ → KvPair
pair k v = record { key = key k; value = v ∷ [] }

abbrev pub three : List KvPair
three = pair 2 20 ∷ pair 4 40 ∷ pair 4 41 ∷ []

abbrev pub small_leaf : LeafNode
small_leaf = record { pairs = three; overflow = no_overflow; elements_size = 9 }

abbrev pub edit : EditType → ℕ → ℕ → PendingEdit
edit t k v = record { edit = t; key = key k; value = v ∷ []; guaranteed = true }

abbrev pub queue : List PendingEdit
queue =
    edit EditType.insert 1 10
    ∷ edit EditType.upsert 2 21
    ∷ edit EditType.remove_key 4 0
    ∷ edit EditType.remove_kv 4 40
    ∷ edit EditType.upsert 5 50
    ∷ []

merged :
    apply_all byte_fns small_leaf queue
    ≡ record small_leaf { pairs = pair 1 10 ∷ pair 2 21 ∷ pair 5 50 ∷ []; elements_size = 9 }
unfolding apply_all perform takes_turn slice_eq before
merged = refl

pub three-IsSorted : IsSorted byte_fns three
three-IsSorted = ground arith

queue-IsQueue : IsQueue byte_fns queue
queue-IsQueue = ground arith

insert-IsSized_example : IsSized (insert byte_fns small_leaf (pair 3 30))
insert-IsSized_example = insert-IsSized byte_fns small_leaf (pair 3 30) refl

insert-IsSorted_example : IsSorted byte_fns (insert byte_fns small_leaf (pair 3 30)).pairs
insert-IsSorted_example =
    insert-IsSorted byte_fns byte_fns-IsLawful small_leaf (pair 3 30) refl three-IsSorted

apply_all-IsSized_example : IsSized (apply_all byte_fns small_leaf queue)
apply_all-IsSized_example = apply_all-IsSized byte_fns small_leaf queue

apply_all-IsSorted_example : IsSorted byte_fns (apply_all byte_fns small_leaf queue).pairs
apply_all-IsSorted_example =
    apply_all-IsSorted byte_fns byte_fns-IsLawful small_leaf queue three-IsSorted queue-IsQueue

enqueue-IsQueue_example :
    IsQueue byte_fns (enqueue byte_fns (edit EditType.insert 4 44) queue)
    × (front : List PendingEdit) × (back : List PendingEdit) × (queue ≡ front ++ back)
    × (enqueue byte_fns (edit EditType.insert 4 44) queue
        ≡ front ++ edit EditType.insert 4 44 ∷ back)
    × All (λ x. Le byte_fns x.key (key 4)) front
    × All (λ x. Lt byte_fns (key 4) x.key) back
enqueue-IsQueue_example =
    enqueue-IsQueue byte_fns byte_fns-IsLawful (edit EditType.insert 4 44) queue refl queue-IsQueue
