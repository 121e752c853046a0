-- ===== src/Page/RoundTrip/Internal/Parts.antt =====
-- Each loop of `parseInternalNode` reads back one column of an inner node's page.
use native.Mathlib.Nat.{add-zero}
use libbruce.Base.{
  ℕ, ◌+◌, ◌^◌, ◌<◌, ◌≡◌, ◌≢◌, refl, sym, ap, ◌∙◌, some, List, [], ◌∷◌, ◌++◌, map, append_assoc,
  length, length-append, All, arith, ok,
}
use libbruce.Memory.{Slice}
use libbruce.Functions.{TreeFunctions}
use libbruce.Edit.{EditType, PendingEdit}
use libbruce.Internal.{Branch}
use libbruce.Page.{encode}
use libbruce.Page.Write.{join, edit_number, stored, stored_value}
use libbruce.Page.Read.{
  read_bytes, read_int, read_slice, checked, edit_type, read_edit_type, read_edit_value,
  read_edit_values, build_branches, build_edits,
}
use libbruce.Page.RoundTrip.{
  At, advance, Parses, ParsesMore, Measures, length-encode, bind-ok, pure-ok, read_bytes-Parses,
  read_int-Parses, read_slice-Parses, checked-ParsesMore,
}
use libbruce.Page.RoundTrip.Internal.{IsStorableEdit, IsStorableBranch, stored_branch, stored_edit}

module _ {C : Type 0} where
  pub ids-ParsesMore :
      (bs : List (Branch C))
      → All IsStorableBranch bs
      → All (λ b. ParsesMore (checked (read_bytes 20)) b.node_id b.node_id) bs
  ids-ParsesMore [] h = tt
  ids-ParsesMore (b ∷ bs) h = (
    checked-ParsesMore (read_bytes 20) b.node_id b.node_id
        (read_bytes-Parses 20 b.node_id (omega arith) (sym h.0.id_length)),
    ids-ParsesMore bs h.1,
  )

  pub counts-ParsesMore :
      (bs : List (Branch C))
      → All IsStorableBranch bs
      → All (λ b. ParsesMore (checked (read_int 4)) (encode 4 b.item_count) b.item_count) bs
  counts-ParsesMore [] h = tt
  counts-ParsesMore (b ∷ bs) h = (
    checked-ParsesMore (read_int 4) (encode 4 b.item_count) b.item_count
        (read_int-Parses 4 b.item_count (omega arith) h.0.counted),
    counts-ParsesMore bs h.1,
  )

  -- The keys of the later branches.
  pub keys-ParsesMore :
      (measure : Slice → ℕ) (bs : List (Branch C))
      → All (λ b. Measures measure b.min_key) bs
      → length (join (λ b. b.min_key) bs) < 2 ^ 32
      → All (λ b. ParsesMore (checked (read_slice measure)) b.min_key b.min_key) bs
  keys-ParsesMore measure [] h s = tt
  keys-ParsesMore measure (b ∷ bs) h s =
      let sum = length-append b.min_key (join (λ b. b.min_key) bs) in
      (
        checked-ParsesMore (read_slice measure) b.min_key b.min_key
            (read_slice-Parses measure b.min_key h.0 (omega (arith, sum))),
        keys-ParsesMore measure bs h.1 (omega (arith, sum)),
      )

  pub build_branches-map :
      (bs : List (Branch C))
      → build_branches {C = C}
          (map (λ b. b.min_key) bs)
          (map (λ b. b.node_id) bs)
          (map (λ b. b.item_count) bs)
        ≡ map stored_branch bs
  build_branches-map [] = refl
  build_branches-map (b ∷ bs) = ap (◌∷◌ (stored_branch b)) (build_branches-map bs)

pub nonempty_each :
    {A : Type 0} (field : A → List ℕ) (xs : List A) (rest : List ℕ)
    → All (λ x. 0 < length (field x)) xs
    → All (λ x. 0 < length (field x) + length rest) xs
nonempty_each field [] rest h = tt
nonempty_each field (x ∷ xs) rest h = (omega (arith, h.0), nonempty_each field xs rest h.1)

pub encode_nonempty :
    {A : Type 0} (w : ℕ) (f : A → ℕ) (xs : List A) (rest : List ℕ)
    → 0 < w
    → All (λ x. 0 < length (encode w (f x)) + length rest) xs
encode_nonempty w f [] rest h = tt
encode_nonempty w f (x ∷ xs) rest h =
    (omega (arith, length-encode w (f x)), encode_nonempty w f xs rest h)

edit_type-number : (t : EditType) → edit_type (edit_number t) ≡ some t
edit_type-number EditType.insert = refl
edit_type-number EditType.remove_key = refl
edit_type-number EditType.remove_kv = refl
edit_type-number EditType.upsert = refl

edit_number-lt : (t : EditType) → edit_number t < 256
edit_number-lt EditType.insert = omega arith
edit_number-lt EditType.remove_key = omega arith
edit_number-lt EditType.remove_kv = omega arith
edit_number-lt EditType.upsert = omega arith

read_edit_type-Parses : (t : EditType) → Parses read_edit_type (encode 1 (edit_number t)) t
unfolding read_edit_type
read_edit_type-Parses t input off rest at =
    bind-ok (read_int 1) _ input off
      (read_int-Parses 1 (edit_number t) (omega arith) (edit_number-lt t) input off rest at)
    ∙ rw (edit_type-number t) (pure-ok t input _)

pub types-ParsesMore :
    (es : List PendingEdit)
    → All (λ e. ParsesMore (checked read_edit_type) (encode 1 (edit_number e.edit)) e.edit) es
types-ParsesMore [] = tt
types-ParsesMore (e ∷ es) = (
  checked-ParsesMore read_edit_type (encode 1 (edit_number e.edit)) e.edit
      (read_edit_type-Parses e.edit),
  types-ParsesMore es,
)

module _ (fns : TreeFunctions) where
  pub edit_keys-ParsesMore :
      (es : List PendingEdit)
      → All (λ e. IsStorableEdit fns e) es
      → length (join (λ e. e.key) es) < 2 ^ 32
      → All (λ e. ParsesMore (checked (read_slice fns.key_size)) e.key e.key) es
  edit_keys-ParsesMore [] h s = tt
  edit_keys-ParsesMore (e ∷ es) h s =
      let sum = length-append e.key (join (λ e. e.key) es) in
      (
        checked-ParsesMore (read_slice fns.key_size) e.key e.key
            (read_slice-Parses fns.key_size e.key h.0.key_measured (omega (arith, sum))),
        edit_keys-ParsesMore es h.1 (omega (arith, sum)),
      )

  pub edit_keys_nonempty :
      (es : List PendingEdit) → All (λ e. IsStorableEdit fns e) es → All (λ e. 0 < length e.key) es
  edit_keys_nonempty [] h = tt
  edit_keys_nonempty (e ∷ es) h = (h.0.key_bytes, edit_keys_nonempty es h.1)

  measured_value :
      (v : Slice)
      → Measures fns.value_size v × (0 < length v)
      → length v < 2 ^ 32
      → Parses (checked (read_slice fns.value_size)) v v
  measured_value v h s input off rest at =
      checked-ParsesMore (read_slice fns.value_size) v v (read_slice-Parses fns.value_size v h.0 s)
        input off rest at (omega arith)

  read_edit_value-Parses :
      (t : EditType) (v : Slice)
      → (t ≢ EditType.remove_key → Measures fns.value_size v × (0 < length v))
      → length (stored t v) < 2 ^ 32
      → Parses (read_edit_value fns.value_size t) (stored t v) (stored t v)
  unfolding read_edit_value
  read_edit_value-Parses EditType.remove_key v h s input off rest at =
      pure-ok [] input off ∙ ap (λ n. ok ([], n)) (sym (add-zero off))
  read_edit_value-Parses EditType.insert v h s input off rest at =
      measured_value v (h (λ e. cc)) s input off rest at
  read_edit_value-Parses EditType.remove_kv v h s input off rest at =
      measured_value v (h (λ e. cc)) s input off rest at
  read_edit_value-Parses EditType.upsert v h s input off rest at =
      measured_value v (h (λ e. cc)) s input off rest at

  pub read_edit_values-ok :
      (es : List PendingEdit)
      → All (λ e. IsStorableEdit fns e) es
      → length (join stored_value es) < 2 ^ 32
      → Parses
          (read_edit_values fns.value_size (map (λ e. e.edit) es))
          (join stored_value es)
          (map stored_value es)
  unfolding read_edit_values
  read_edit_values-ok [] h s input off rest at =
      pure-ok [] input off ∙ ap (λ n. ok ([], n)) (sym (add-zero off))
  read_edit_values-ok (e ∷ es) h s input off rest at =
      let sum = length-append (stored_value e) (join stored_value es) in
      let at' : At input off (stored_value e ++ (join stored_value es ++ rest)) =
        at ∙ append_assoc (stored_value e) (join stored_value es) rest in
      let first =
        read_edit_value-Parses e.edit e.value (λ n. (h.0.value_measured n, h.0.value_bytes n))
          (omega (arith, sum)) input off (join stored_value es ++ rest) at' in
      let others =
        read_edit_values-ok es h.1 (omega (arith, sum)) input (off + length (stored_value e)) rest
          (advance input off (stored_value e) (join stored_value es ++ rest) at') in
      let end_eq : off + length (stored_value e) + length (join stored_value es)
          ≡ off + length (stored_value e ++ join stored_value es) =
        omega (arith, sum) in
      bind-ok (read_edit_value fns.value_size e.edit) _ input off first
      ∙ bind-ok (read_edit_values fns.value_size (map (λ e. e.edit) es)) _ input
          (off + length (stored_value e)) others
      ∙ pure-ok _ input _
      ∙ ap (λ n. ok (stored_value e ∷ map stored_value es, n)) end_eq

pub build_edits-map :
    (es : List PendingEdit)
    → build_edits (map (λ e. e.edit) es) (map (λ e. e.key) es) (map stored_value es)
      ≡ map stored_edit es
build_edits-map [] = refl
build_edits-map (e ∷ es) = ap (◌∷◌ (stored_edit e)) (build_edits-map es)
