-- ===== src/Leaf/Merge/Sizes.antt =====
-- The merge counts the bytes that it leaves in the leaf.
use libbruce.Base.{ℕ, ◌+◌, ◌≡◌, ◌∙◌, sym, Bool-cases, ap, List, [], ◌∷◌, reverse, arith, inl, inr}
use mathlib.Core.List.{reverse_aux}
use libbruce.Memory.{KvPair, wrap64}
use libbruce.Functions.{TreeFunctions}
use libbruce.Edit.{PendingEdit}
use libbruce.Leaf.{LeafNode, pair_size}
use libbruce.Leaf.Sizes.{total, IsSized}
use libbruce.Leaf.Merge.{upsert_back, remove_back, perform, takes_turn, merge_loop, apply_all}

upsert_back-sized :
    (e : PendingEdit) (done : List KvPair) (n : ℕ)
    → n ≡ wrap64 (total done)
    → (upsert_back e done n).1 ≡ wrap64 (total (upsert_back e done n).0)
upsert_back-sized e [] n h = omega arith
upsert_back-sized e (q ∷ done) n h = ground arith

-- `k` bytes stand behind the pairs that the loop has already passed.
remove_back-sized :
    (e : PendingEdit) (done : List KvPair) (n k : ℕ)
    → n ≡ wrap64 (k + total done)
    → (remove_back e done n).1 ≡ wrap64 (k + total (remove_back e done n).0)
remove_back-sized e [] n k h = h
remove_back-sized e (q ∷ done) n k h =
    ground (arith, remove_back-sized e done n (k + pair_size q) (omega arith))

perform-sized :
    (e : PendingEdit) (done : List KvPair) (n : ℕ)
    → n ≡ wrap64 (total done)
    → (perform e done n).1 ≡ wrap64 (total (perform e done n).0)
unfolding perform
perform-sized e done n h =
    ground (arith, upsert_back-sized e done n h, remove_back-sized e done n 0 (omega arith))

merge_loop-sized :
    (fns : TreeFunctions) (cs : List KvPair) (es : List PendingEdit) (done : List KvPair) (n : ℕ)
    → n ≡ wrap64 (total done)
    → (merge_loop fns cs es done n).1 ≡ wrap64 (total (merge_loop fns cs es done n).0)
unfolding merge_loop
merge_loop-sized fns [] [] done n h = h
merge_loop-sized fns [] (e ∷ es) done n h =
    merge_loop-sized fns [] es (perform e done n).0 (perform e done n).1 (perform-sized e done n h)
merge_loop-sized fns (c ∷ cs) [] done n h =
    merge_loop-sized fns cs [] (c ∷ done) (wrap64 (n + pair_size c)) (omega arith)
merge_loop-sized fns (c ∷ cs) (e ∷ es) done n h = elim (Bool-cases (takes_turn fns e c)) [
  | inl turn ↦
      rw (turn, merge_loop)
        (merge_loop-sized fns (c ∷ cs) es (perform e done n).0 (perform e done n).1
          (perform-sized e done n h))
  | inr wait ↦
      rw (wait, merge_loop)
        (merge_loop-sized fns cs (e ∷ es) (c ∷ done) (wrap64 (n + pair_size c)) (omega arith))
]

total-reverse_aux : (ps acc : List KvPair) → total (reverse_aux ps acc) ≡ total ps + total acc
total-reverse_aux [] acc = omega arith
total-reverse_aux (p ∷ ps) acc = omega (arith, total-reverse_aux ps (p ∷ acc))

total-reverse : (ps : List KvPair) → total (reverse ps) ≡ total ps
total-reverse ps = omega (arith, total-reverse_aux ps [])

-- After a merge the byte count is that of the merged pairs, whatever the edits and their order.
pub apply_all-IsSized :
    (fns : TreeFunctions) (leaf : LeafNode) (edits : List PendingEdit)
    → IsSized (apply_all fns leaf edits)
unfolding apply_all
apply_all-IsSized fns leaf edits =
    merge_loop-sized fns leaf.pairs edits [] 0 (omega arith)
    ∙ sym (ap wrap64 (total-reverse (merge_loop fns leaf.pairs edits [] 0).0))
