-- ===== src/Page/Read.antt =====
-- NodeParser and ParseNode of serializing.cpp. A reader takes the page and an offset and returns
-- what it read with the new offset.
use libbruce.Base.{
  ℕ, zero, suc, ◌+◌, ◌-◌, false, Option, none, some, List, [], ◌∷◌, length, take, drop, leb, ◌==◌,
  if◌then◌else◌, Result, ok, err, end_of_block, trailing_bytes, unknown_node_type, out_of_range,
}
use libbruce.Memory.{Slice, KvPair, NodeId, wrap32}
use libbruce.Functions.{TreeFunctions}
use libbruce.Edit.{EditType, PendingEdit}
use libbruce.Overflow.{Overflow, absent, null_id}
use libbruce.Leaf.{LeafNode, make_leaf}
use libbruce.Internal.{Branch, InternalNode}
use libbruce.Page.{Page, decode, type_leaf, type_internal, type_overflow}

abbrev pub Reader : Type 0 → Type 0
Reader A = Page → ℕ → Result (A × ℕ)

infixl 5 ◌>>=◌ ◌>>◌
unfoldable pub ◌>>=◌ : {A B : Type 0} → Reader A → (A → Reader B) → Reader B
◌>>=◌ m f input off = elim (m input off) [ ok (a, off') ↦ f a input off' | err e ↦ err e ]

abbrev pub ◌>>◌ : {A B : Type 0} → Reader A → Reader B → Reader B
m >> k = m >>= λ _. k

unfoldable pub pure : {A : Type 0} → A → Reader A
pure a input off = ok (a, off)

-- `VALIDATE_OFFSET`
unfoldable pub validate : Reader (Unit {0})
validate input off = if leb (length input) off then err end_of_block else ok (tt, off)

-- The bytes of a value of a fixed size at the offset. To read it across the end of the page is
-- undefined in C++.
unfoldable pub read_bytes : ℕ → Reader (List ℕ)
read_bytes w input off =
    if leb (off + w) (length input) then ok (take w (drop off input), off + w) else err out_of_range

unfoldable pub read_int : ℕ → Reader ℕ
unfolding read_bytes decode
read_int w = do bytes ← read_bytes w; pure (decode bytes)

-- A slice at the offset, as long as the client's function says. A slice that reaches beyond the
-- page is cut here; each is followed by a check of the offset, which then throws.
unfoldable pub read_slice : (Slice → ℕ) → Reader Slice
read_slice measure input off =
    let n = wrap32 (measure (drop off input)) in ok (take n (drop off input), off + n)

-- A `for` loop of `n` rounds.
unfoldable pub repeat : {A : Type 0} → ℕ → Reader A → Reader (List A)
repeat zero p = pure []
repeat (suc n) p = do x ← p; xs ← repeat n p; pure (x ∷ xs)

unfoldable pub checked : {A : Type 0} → Reader A → Reader A
unfolding validate
checked p = do validate; p

-- `keyCount` reads behind the flags and moves nothing.
unfoldable pub key_count : Reader ℕ
unfolding read_int
key_count input off = elim (read_int 4 input 2) [ ok (n, _) ↦ ok (n, off) | err e ↦ err e ]

-- `validateAtEnd`
unfoldable pub validate_at_end : Reader (Unit {0})
validate_at_end input off = if off == length input then ok (tt, off) else err trailing_bytes

-- The count and the id at the end of a leaf or an overflow node.
unfoldable pub read_link : Reader Overflow
unfolding checked read_int
read_link = do count ← checked (read_int 4); id ← checked (read_bytes 20); pure (absent count id)

-- `items[i].second = …` for each key
abbrev pub couple : List Slice → List Slice → List KvPair
couple [] vs = []
couple (k ∷ ks) [] = record { key = k; value = [] } ∷ couple ks []
couple (k ∷ ks) (v ∷ vs) = record { key = k; value = v } ∷ couple ks vs

module _ (fns : TreeFunctions) where
  -- `parseLeafNode`
  unfoldable pub parse_leaf : Reader LeafNode
  unfolding key_count repeat checked read_slice make_leaf read_link validate_at_end
  parse_leaf = do
    n ← key_count
    keys ← repeat n (checked (read_slice fns.key_size))
    values ← repeat n (checked (read_slice fns.value_size))
    link ← read_link
    validate_at_end
    pure (record (make_leaf (couple keys values)) { overflow = link })

  -- `parseOverflowNode`
  unfoldable pub parse_overflow : Reader (List Slice × Overflow)
  unfolding key_count repeat checked read_slice read_link validate_at_end
  parse_overflow = do
    n ← key_count
    values ← repeat n (checked (read_slice fns.value_size))
    next ← read_link
    validate_at_end
    pure (values, next)

-- `(edit_t)byte`; a byte that is no `edit_t` is not given a meaning.
abbrev pub edit_type : ℕ → Option EditType
edit_type n =
    if n == 0
    then some EditType.insert
    else if n == 1
    then some EditType.remove_key
    else if n == 2
    then some EditType.remove_kv
    else if n == 3
    then some EditType.upsert
    else none

unfoldable pub read_edit_type : Reader EditType
unfolding read_int
read_edit_type = do
  n ← read_int 1
  elim (edit_type n) [ none ↦ λ _ _. err out_of_range | some t ↦ pure t ]

-- The value of an edit, which a REMOVE_KEY does not have.
unfoldable pub read_edit_value : (Slice → ℕ) → EditType → Reader Slice
unfolding checked read_slice
read_edit_value measure t = elim t [
  | EditType.remove_key ↦ pure []
  | _ ↦ checked (read_slice measure)
]

-- The loop over the edits' values.
unfoldable pub read_edit_values : (Slice → ℕ) → List EditType → Reader (List Slice)
unfolding read_edit_value
read_edit_values measure [] = pure []
read_edit_values measure (t ∷ ts) = do
  v ← read_edit_value measure t
  vs ← read_edit_values measure ts
  pure (v ∷ vs)

abbrev pub or_else {ℓ} : {A : Type ℓ} → List A → A → A
or_else [] d = d
or_else (x ∷ xs) d = x

abbrev pub rest_of {ℓ} : {A : Type ℓ} → List A → List A
rest_of [] = []
rest_of (x ∷ xs) = xs

-- The branches are pushed with their keys; ids and counts are filled in by index.
abbrev pub build_branches : {C : Type 0} → List Slice → List NodeId → List ℕ → List (Branch C)
build_branches [] ids counts = []
build_branches (k ∷ ks) ids counts =
    record {
      min_key = k;
      node_id = or_else ids null_id;
      item_count = or_else counts 0;
      child = none;
    }
    ∷ build_branches ks (rest_of ids) (rest_of counts)

-- `pending_edit(editTypes[i], editKeys[i], value, false)`
abbrev pub build_edits : List EditType → List Slice → List Slice → List PendingEdit
build_edits [] ks vs = []
build_edits (t ∷ ts) ks vs =
    record { edit = t; key = or_else ks []; value = or_else vs []; guaranteed = false }
    ∷ build_edits ts (rest_of ks) (rest_of vs)

-- What a page holds.
pub data AnyNode (C : Type 0) : Type 0 where
  leaf : LeafNode → AnyNode C
  internal : InternalNode C → AnyNode C
  overflow : List Slice → Overflow → AnyNode C

module _ {C : Type 0} (fns : TreeFunctions) where
  -- `parseInternalNode`
  unfoldable pub parse_internal : Reader (InternalNode C)
  unfolding key_count read_int repeat checked read_slice read_edit_type read_edit_values
      validate_at_end
  parse_internal = do
    n ← key_count
    edits ← read_int 4
    keys ← repeat (n - 1) (checked (read_slice fns.key_size))
    ids ← repeat n (checked (read_bytes 20))
    counts ← repeat n (checked (read_int 4))
    types ← repeat edits (checked read_edit_type)
    edit_keys ← repeat edits (checked (read_slice fns.key_size))
    values ← read_edit_values fns.value_size types
    validate_at_end
    pure (record {
      branches = build_branches ([] ∷ keys) ids counts;
      edit_queue = build_edits types edit_keys values;
    })

  -- The switch of `ParseNode` on the flags; the parser starts behind the flags and the count.
  unfoldable pub parse_as : ℕ → Page → Result (AnyNode C)
  unfolding parse_internal parse_leaf parse_overflow
  parse_as flags input =
      if flags == type_internal
      then (elim (parse_internal input 6) [ ok (n, _) ↦ ok (internal n) | err e ↦ err e ])
      else if flags == type_leaf
      then (elim (parse_leaf fns input 6) [ ok (n, _) ↦ ok (leaf n) | err e ↦ err e ])
      else if flags == type_overflow
      then (elim (parse_overflow fns input 6) [
        | ok (node, _) ↦ ok (overflow node.0 node.1)
        | err e ↦ err e
      ])
      else err unknown_node_type

  -- `ParseNode`
  unfoldable pub parse_node : Page → Result (AnyNode C)
  unfolding read_int parse_as
  parse_node input = elim (read_int 2 input 0) [
    | ok (flags, _) ↦ parse_as flags input
    | err e ↦ err e
  ]
