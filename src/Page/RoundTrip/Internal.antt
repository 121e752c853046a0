-- ===== src/Page/RoundTrip/Internal.antt =====
-- What a page stores of an inner node, how many bytes that is, and what its round trip asks.
pub mod Parts
pub mod Parse
use libbruce.Base.{
  ℕ, zero, suc, ◌+◌, ◌*◌, ◌%◌, ◌^◌, ◌<◌, ◌≡◌, ◌≢◌, ap, sym, ◌∙◌, refl, Bool, true, false, Option,
  none, List, [], ◌∷◌, ◌++◌, map, length, length-append, All, arith, if◌then◌else◌,
}
use libbruce.Memory.{Slice, size, wrap32}
use libbruce.Functions.{TreeFunctions}
use libbruce.Edit.{EditType, PendingEdit}
use libbruce.Internal.{Branch, InternalNode}
use libbruce.Page.{encode}
use libbruce.Page.Sizes.{add_branches, internal_size, edit_queue_size}
use libbruce.Page.Write.{join, stored, edit_number, stored_value, later_keys, internal_bytes}
use libbruce.Page.RoundTrip.{Measures, length-encode}

-- The page drops the children, the first key, whether an edit was guaranteed, and the value of a
-- REMOVE_KEY.
abbrev pub stored_edit : PendingEdit → PendingEdit
stored_edit e = record e { value = stored_value e; guaranteed = false }

module _ {C : Type 0} where
  abbrev pub stored_branch : Branch C → Branch C
  stored_branch b = record b { child = none }

  abbrev pub stored_branches : List (Branch C) → List (Branch C)
  stored_branches [] = []
  stored_branches (b ∷ bs) = record b { min_key = []; child = none } ∷ map stored_branch bs

  abbrev pub stored_node : InternalNode C → InternalNode C
  stored_node node = record {
    branches = stored_branches node.branches;
    edit_queue = map stored_edit node.edit_queue;
  }

-- An edit whose key and value are found again: a REMOVE_KEY has no value, any other a value of at
-- least a byte.
pub record IsStorableEdit (fns : TreeFunctions) (e : PendingEdit) : Type 0 where
  pub key_measured : Measures fns.key_size e.key
  pub key_bytes : 0 < length e.key
  pub no_value : e.edit ≡ EditType.remove_key → e.value ≡ []
  pub value_measured : e.edit ≢ EditType.remove_key → Measures fns.value_size e.value
  pub value_bytes : e.edit ≢ EditType.remove_key → 0 < length e.value

pub record IsStorableBranch {C : Type 0} (b : Branch C) : Type 0 where
  pub id_length : length b.node_id ≡ 20
  pub counted : b.item_count < 2 ^ 32

-- The branches behind the first.
abbrev pub later {ℓ} : {A : Type ℓ} → List A → List A
later [] = []
later (x ∷ xs) = xs

-- The bytes of an inner node, as a number that does not wrap.
abbrev pub node_bytes : {C : Type 0} → InternalNode C → ℕ
node_bytes node =
    10
    + length (later_keys node.branches)
    + 24 * length node.branches
    + (length node.edit_queue
        + length (join (λ e. e.key) node.edit_queue)
        + length (join stored_value node.edit_queue))

pub record IsStorable {C : Type 0} (fns : TreeFunctions) (node : InternalNode C) : Type 0 where
  pub some_branch : 0 < length node.branches
  pub branches : All IsStorableBranch node.branches
  pub keys : All (λ b. Measures fns.key_size b.min_key) (later node.branches)
  pub edits : All (λ e. IsStorableEdit fns e) node.edit_queue
  pub small : node_bytes node < 2 ^ 32

module _ {C : Type 0} where
  add_branches-false :
      (acc : ℕ) (bs : List (Branch C))
      → acc + length (join (λ b. b.min_key) bs) + 24 * length bs < 2 ^ 32
      → add_branches acc false bs ≡ acc + length (join (λ b. b.min_key) bs) + 24 * length bs
  unfolding add_branches
  add_branches-false acc [] h = omega arith
  add_branches-false acc (b ∷ bs) h =
      let sum = length-append b.min_key (join (λ b. b.min_key) bs) in
      let no_wrap : wrap32 (wrap32 (acc + size b.min_key) + 24) ≡ acc + size b.min_key + 24 =
        omega (arith, sum) in
      rw no_wrap (
        add_branches-false (acc + size b.min_key + 24) bs (omega (arith, sum)) ∙ omega (arith, sum))

  pub internal_size-eq :
      (node : InternalNode C)
      → 10 + length (later_keys node.branches) + 24 * length node.branches < 2 ^ 32
      → internal_size node ≡ 10 + length (later_keys node.branches) + 24 * length node.branches
  unfolding internal_size
  internal_size-eq node h = of_branches node.branches h
    where
      of_branches :
          (bs : List (Branch C))
          → 10 + length (later_keys bs) + 24 * length bs < 2 ^ 32
          → add_branches 10 true bs ≡ 10 + length (later_keys bs) + 24 * length bs
      of_branches [] h = refl
      of_branches (b ∷ bs) h = add_branches-false 34 bs (omega arith) ∙ omega arith

  pub length-join_ids :
      (bs : List (Branch C))
      → All IsStorableBranch bs
      → length (join (λ b. b.node_id) bs) ≡ 20 * length bs
  length-join_ids [] h = refl
  length-join_ids (b ∷ bs) h = omega (
    arith,
    length-append b.node_id (join (λ b. b.node_id) bs),
    h.0.id_length,
    length-join_ids bs h.1,
  )

pub length-join-encode :
    {A : Type 0} (w : ℕ) (f : A → ℕ) (xs : List A)
    → length (join (λ x. encode w (f x)) xs) ≡ w * length xs
length-join-encode w f [] = omega arith
length-join-encode w f (x ∷ xs) = omega (
  arith,
  length-append (encode w (f x)) (join (λ x. encode w (f x)) xs),
  length-encode w (f x),
  length-join-encode w f xs,
)

length-stored :
    (t : EditType) (v : Slice) → (t ≡ EditType.remove_key → v ≡ []) → length (stored t v) ≡ length v
length-stored EditType.remove_key v h = sym (ap length (h refl))
length-stored EditType.insert v h = refl
length-stored EditType.remove_kv v h = refl
length-stored EditType.upsert v h = refl

pub length-stored_value :
    (fns : TreeFunctions) (e : PendingEdit)
    → IsStorableEdit fns e
    → length (stored_value e) ≡ length e.value
length-stored_value fns e h = length-stored e.edit e.value h.no_value

pub edit_queue_size-eq :
    (fns : TreeFunctions) (acc : ℕ) (es : List PendingEdit)
    → All (λ e. IsStorableEdit fns e) es
    → acc + (length es + length (join (λ e. e.key) es) + length (join stored_value es)) < 2 ^ 32
    → edit_queue_size acc es
      ≡ acc + (length es + length (join (λ e. e.key) es) + length (join stored_value es))
unfolding edit_queue_size
edit_queue_size-eq fns acc [] s h = omega arith
edit_queue_size-eq fns acc (e ∷ es) s h =
    let keys = length-append e.key (join (λ e. e.key) es) in
    let values = length-append (stored_value e) (join stored_value es) in
    let kept = length-stored_value fns e s.0 in
    let no_wrap : wrap32 (wrap32 (acc + 1) + (size e.key + size e.value))
        ≡ acc + 1 + (size e.key + size e.value) =
      omega (arith, keys, values, kept) in
    rw no_wrap (
      edit_queue_size-eq fns (acc + 1 + (size e.key + size e.value)) es s.1
        (omega (arith, keys, values, kept))
      ∙ omega (arith, keys, values, kept))
