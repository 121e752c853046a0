-- ===== src/Leaf/Merge/Refines.antt =====
-- What a queue of edits means, without an order: a pair occurs so often. `LeafNode::applyAll`
-- refines it.
pub mod Back
pub mod Loop
use libbruce.Base.{
  ℕ, ◌+◌, ◌<◌, ◌≡◌, Bool, true, false, ◌&&◌, ◌⊎◌, inl, inr, List, [], ◌∷◌, ◌++◌, arith,
  if◌then◌else◌,
}
use libbruce.Memory.{Slice, KvPair, slice_eq}
use libbruce.Edit.{EditType, PendingEdit, edit_pair}

-- Both parts have the same bytes.
unfoldable pub pair_eq : KvPair → KvPair → Bool
pair_eq a b = slice_eq a.key b.key && slice_eq a.value b.value

abbrev pub hit : KvPair → KvPair → ℕ
hit a b = if pair_eq a b then 1 else 0

-- How often a pair occurs.
abbrev pub count : KvPair → List KvPair → ℕ
count p [] = 0
count p (q ∷ qs) = hit p q + count p qs

pub count-append : (p : KvPair) (ps qs : List KvPair) → count p (ps ++ qs) ≡ count p ps + count p qs
count-append p [] qs = omega arith
count-append p (x ∷ ps) qs = omega (arith, count-append p ps qs)

-- The abstract contents: a multiset of pairs.
abbrev pub Contents : Type 0
Contents = KvPair → ℕ

abbrev pub at : PendingEdit → Slice → KvPair
at e w = record { key = e.key; value = w }

-- The values that a remove may take: any under REMOVE_KEY, the edit's own under REMOVE_KV.
abbrev pub Takes : PendingEdit → Slice → Type 0
Takes e w = (e.edit ≡ EditType.remove_key) ⊎ ((e.edit ≡ EditType.remove_kv) × (e.value ≡ w))

abbrev pub IsRemove : PendingEdit → Type 0
IsRemove e = (e.edit ≡ EditType.remove_key) ⊎ (e.edit ≡ EditType.remove_kv)

-- One edit, from the contents `f` to `g`. Which of the values of a key a remove takes or an upsert
-- replaces is left open.
pub data EditStep (e : PendingEdit) (f g : Contents) : Type 0 where
  -- an insert adds its pair
  adds :
      e.edit ≡ EditType.insert → ((p : KvPair) → g p ≡ hit p (edit_pair e) + f p) → EditStep e f g
  -- an upsert replaces one value of its key, or adds its pair where the key is not there
  replaces :
      (w : Slice)
      → e.edit ≡ EditType.upsert
      → 0 < f (at e w)
      → ((p : KvPair) → g p + hit p (at e w) ≡ f p + hit p (edit_pair e))
      → EditStep e f g
  fills :
      e.edit ≡ EditType.upsert
      → ((w : Slice) → f (at e w) ≡ 0)
      → ((p : KvPair) → g p ≡ hit p (edit_pair e) + f p)
      → EditStep e f g
  -- a remove takes one pair, or changes nothing where none is there to take
  takes :
      (w : Slice)
      → Takes e w
      → 0 < f (at e w)
      → ((p : KvPair) → g p + hit p (at e w) ≡ f p)
      → EditStep e f g
  misses :
      IsRemove e
      → ((w : Slice) → Takes e w → f (at e w) ≡ 0)
      → ((p : KvPair) → g p ≡ f p)
      → EditStep e f g

-- A queue, edit by edit.
pub data EditSteps : List PendingEdit → Contents → Contents → Type 0 where
  done : {f g : Contents} → ((p : KvPair) → g p ≡ f p) → EditSteps [] f g
  step :
      {e : PendingEdit} {es : List PendingEdit} {f g h : Contents}
      → EditStep e f g
      → EditSteps es g h
      → EditSteps (e ∷ es) f h
