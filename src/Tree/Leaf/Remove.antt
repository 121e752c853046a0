-- ===== src/Tree/Leaf/Remove.antt =====
-- overflowRemove: its erasing loop runs past the end of a block whose last value is the target.
use libbruce.Base.{
  ℕ, suc, ◌≡◌, refl, Bool, true, false, Option, List, [], ◌∷◌, ◌++◌, All, ◌==◌, err, out_of_range,
}
use libbruce.Memory.{Slice, NodeId}
use libbruce.Functions.{TreeFunctions}
use libbruce.Overflow.{Overflow, present}
use libbruce.Tree.Leaf.{Fetch, erase_loop, is_target, overflow_node, overflow_remove}

erase_loop_last :
    (matches : Slice → Bool) (vs : List Slice) (v : Slice) (erased : Bool)
    → All (λ x. matches x ≡ false) vs
    → matches v ≡ true
    → erase_loop matches (vs ++ v ∷ []) erased ≡ err out_of_range
unfolding erase_loop
erase_loop_last matches [] v erased h m = rw m refl
erase_loop_last matches (x ∷ []) v erased h m = rw h.0 (rw m refl)
erase_loop_last matches (x ∷ y ∷ vs) v erased h m =
    rw h.0 (rw (erase_loop_last matches (y ∷ vs) v erased h.1 m) refl)

-- Removing from an overflow block in memory goes out of the range of the block's values when the last
-- of them, and no other, is a target.
pub overflow_remove_last :
    (fns : TreeFunctions) (fetch : Fetch) (n c : ℕ) (id : NodeId) (vs : List Slice) (v : Slice)
    (next : Overflow) (value : Option Slice) (ids : List NodeId)
    → (c == 0) ≡ false
    → All (λ x. is_target fns value x ≡ false) vs
    → is_target fns value v ≡ true
    → overflow_remove fns fetch (suc n) (present c id (vs ++ v ∷ []) next) value ids
      ≡ err out_of_range
unfolding overflow_remove overflow_node
overflow_remove_last fns fetch n c id vs v next value ids some_left others last =
    rw some_left (rw (erase_loop_last (is_target fns value) vs v false others last) refl)
