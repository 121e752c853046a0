-- ===== src/Leaf/Merge.antt =====
-- `LeafNode::applyAll`: the merge of a leaf's pairs with a queue of edits. The vector `updated`
-- grows and shrinks at its end, so it is kept here with its last pair first.
pub mod Sizes
pub mod State
pub mod Order
pub mod Refines
use libbruce.Base.{ℕ, ◌+◌, Bool, true, false, not, List, [], ◌∷◌, reverse, if◌then◌else◌}
use libbruce.Memory.{size, slice_eq, KvPair, wrap64, sub64}
use libbruce.Functions.{TreeFunctions, before, is_gt}
use libbruce.Edit.{EditType, PendingEdit, edit_pair}
use libbruce.Leaf.{LeafNode, pair_size}

abbrev pub push_back : KvPair → List KvPair → ℕ → List KvPair × ℕ
push_back p done n = (p ∷ done, wrap64 (n + pair_size p))

-- The `for` loop at an UPSERT, which looks at the last pair only, and the insert behind it.
abbrev pub upsert_back : PendingEdit → List KvPair → ℕ → List KvPair × ℕ
upsert_back e [] n = push_back (edit_pair e) [] n
upsert_back e (q ∷ done) n =
    if slice_eq q.key e.key
    then (record q { value = e.value } ∷ done, wrap64 (sub64 n (size q.value) + size e.value))
    else push_back (edit_pair e) (q ∷ done) n

-- `edit->edit == REMOVE_KEY || (edit->edit == REMOVE_KV && edit->value == it->second)`
abbrev pub removes : PendingEdit → KvPair → Bool
removes e q = elim e.edit [
  | EditType.remove_key ↦ true
  | EditType.remove_kv ↦ slice_eq e.value q.value
  | _ ↦ false
]

-- The `for` loop at a remove: back over the pairs of the key to the first that it removes.
abbrev pub remove_back : PendingEdit → List KvPair → ℕ → List KvPair × ℕ
remove_back e [] n = ([], n)
remove_back e (q ∷ done) n =
    let (rest, m) = remove_back e done n in
    if slice_eq q.key e.key
    then (if removes e q then (done, sub64 n (pair_size q)) else (q ∷ rest, m))
    else (q ∷ done, n)

-- What an edit does to `updated` and `newSize` when its turn comes.
unfoldable pub perform : PendingEdit → List KvPair → ℕ → List KvPair × ℕ
perform e done n = elim e.edit [
  | EditType.insert ↦ push_back (edit_pair e) done n
  | EditType.upsert ↦ upsert_back e done n
  | _ ↦ remove_back e done n
]

module _ (fns : TreeFunctions) where
  -- Whether the edit comes before the next pair to copy.
  unfoldable pub takes_turn : PendingEdit → KvPair → Bool
  takes_turn e c = elim e.edit [
    | EditType.insert ↦ not (is_gt (fns.key_compare e.key c.key))
    | _ ↦ before fns e.key c.key
  ]

  -- The `while` loop: the pairs not yet copied, the edits not yet made, `updated`, `newSize`.
  unfoldable pub merge_loop : List KvPair → List PendingEdit → List KvPair → ℕ → List KvPair × ℕ
  merge_loop [] [] done n = (done, n)
  merge_loop [] (e ∷ es) done n = let (done', n') = perform e done n in merge_loop [] es done' n'
  merge_loop (c ∷ cs) [] done n = merge_loop cs [] (c ∷ done) (wrap64 (n + pair_size c))
  merge_loop (c ∷ cs) (e ∷ es) done n = elim (takes_turn e c) [
    | true ↦ let (done', n') = perform e done n in merge_loop (c ∷ cs) es done' n'
    | false ↦ merge_loop cs (e ∷ es) (c ∷ done) (wrap64 (n + pair_size c))
  ]

  unfoldable pub apply_all : LeafNode → List PendingEdit → LeafNode
  unfolding merge_loop
  apply_all leaf edits =
      let (updated, new_size) = merge_loop leaf.pairs edits [] 0 in
      record leaf { pairs = reverse updated; elements_size = new_size }
