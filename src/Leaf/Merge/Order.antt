-- ===== src/Leaf/Merge/Order.antt =====
-- The merge of `LeafNode::applyAll` leaves the pairs in the order of their keys.
use mathlib.Core.List.{reverse_aux}
use libbruce.Base.{ℕ, ◌+◌, Bool-cases, List, [], ◌∷◌, All, inl, inr}
use libbruce.Memory.{KvPair, wrap64}
use libbruce.Functions.{TreeFunctions, IsLawful}
use libbruce.Edit.{PendingEdit, IsQueue}
use libbruce.Leaf.{LeafNode, pair_size}
use libbruce.Leaf.Order.{Above, Below, IsSorted}
use libbruce.Leaf.Merge.{perform, takes_turn, merge_loop, apply_all}
use libbruce.Leaf.Merge.State.{
  IsDescending, IsMerging, perform-IsMerging, copy-IsMerging, turn-Above, wait-Above,
  start-IsMerging,
}

module _ (fns : TreeFunctions) (lawful : IsLawful fns) where
  merge_loop-IsDescending :
      (cs : List KvPair) (es : List PendingEdit) (done : List KvPair) (n : ℕ)
      → IsMerging fns cs es done
      → IsDescending fns (merge_loop fns cs es done n).0
  unfolding merge_loop
  merge_loop-IsDescending [] [] done n m = m.descending
  merge_loop-IsDescending [] (e ∷ es) done n m =
      merge_loop-IsDescending [] es (perform e done n).0 (perform e done n).1
        (perform-IsMerging fns lawful e [] es done n tt m)
  merge_loop-IsDescending (c ∷ cs) [] done n m =
      merge_loop-IsDescending cs [] (c ∷ done) (wrap64 (n + pair_size c))
        (copy-IsMerging fns lawful c cs [] done tt m)
  merge_loop-IsDescending (c ∷ cs) (e ∷ es) done n m = elim (Bool-cases (takes_turn fns e c)) [
    | inl turn ↦
        rw (turn, merge_loop)
          (merge_loop-IsDescending (c ∷ cs) es (perform e done n).0 (perform e done n).1 (
            perform-IsMerging fns lawful e (c ∷ cs) es done n
              (turn-Above fns lawful e c cs es done m turn) m))
    | inr wait ↦
        rw (wait, merge_loop)
          (merge_loop-IsDescending cs (e ∷ es) (c ∷ done) (wrap64 (n + pair_size c)) (
            copy-IsMerging fns lawful c cs (e ∷ es) done
              (wait-Above fns lawful e c cs es done m wait) m))
  ]

  reverse_aux-IsSorted :
      (done acc : List KvPair)
      → IsDescending fns done
      → IsSorted fns acc
      → All (λ a. Below fns a.key done) acc
      → IsSorted fns (reverse_aux done acc)
  reverse_aux-IsSorted [] acc d s l = s
  reverse_aux-IsSorted (p ∷ done) acc d s l =
      reverse_aux-IsSorted done (p ∷ acc) d.2 (d.0, heads acc l, s) (d.1, tails acc l)
    where
      heads : (acc : List KvPair) → All (λ a. Below fns a.key (p ∷ done)) acc → Above fns p.key acc
      heads [] l = tt
      heads (a ∷ acc) l = (l.0.0, heads acc l.1)

      tails :
          (acc : List KvPair)
          → All (λ a. Below fns a.key (p ∷ done)) acc
          → All (λ a. Below fns a.key done) acc
      tails [] l = tt
      tails (a ∷ acc) l = (l.0.1, tails acc l.1)

  -- Under a lawful comparator, a sorted leaf stays sorted under the merge of a queue that is in the
  -- order of its keys.
  pub apply_all-IsSorted :
      (leaf : LeafNode) (edits : List PendingEdit)
      → IsSorted fns leaf.pairs
      → IsQueue fns edits
      → IsSorted fns (apply_all fns leaf edits).pairs
  unfolding apply_all
  apply_all-IsSorted leaf edits s q =
      let m = start-IsMerging fns lawful leaf.pairs edits s q in
      reverse_aux-IsSorted (merge_loop fns leaf.pairs edits [] 0).0 []
        (merge_loop-IsDescending leaf.pairs edits [] 0 m) tt tt
