-- ===== src/Tree/Collect/Keys.antt =====
-- An inner node whose branches have new ids and the same keys can still be serialized.
use libbruce.Base.{
  ◌≡◌, refl, sym, ap, ◌∙◌, subst, ◌++◌, [], ◌∷◌, List, All, length-map, length, arith, map,
}
use libbruce.Memory.{Slice}
use libbruce.Functions.{TreeFunctions}
use libbruce.Internal.{Branch, InternalNode}
use libbruce.Page.Write.{later_keys, join}
use libbruce.Page.RoundTrip.{Measures}
use libbruce.Page.RoundTrip.Internal as InternalPage
use libbruce.Page.RoundTrip.Internal.{
  later, stored_edit, stored_node, stored_branch, stored_branches, node_bytes, IsStorableBranch,
}

-- The keys of some branches, as a list.
abbrev pub keys_of : {C : Type 0} → List (Branch C) → List Slice
keys_of bs = map (λ b. b.min_key) bs

join-keys :
    {C : Type 0} (bs : List (Branch C)) → join (λ b. b.min_key) bs ≡ join (λ k. k) (keys_of bs)
join-keys [] = refl
join-keys (b ∷ bs) = ap (◌++◌ b.min_key) (join-keys bs)

later_keys-keys :
    {C : Type 0} (bs : List (Branch C)) → later_keys bs ≡ join (λ k. k) (later (keys_of bs))
later_keys-keys [] = refl
later_keys-keys (b ∷ bs) = join-keys bs

pub later-keys : {C : Type 0} (bs : List (Branch C)) → keys_of (later bs) ≡ later (keys_of bs)
later-keys [] = refl
later-keys (b ∷ bs) = refl

All-keys :
    {C : Type 0} (P : Slice → Type 0) (bs cs : List (Branch C))
    → keys_of bs ≡ keys_of cs
    → All (λ b. P b.min_key) cs
    → All (λ b. P b.min_key) bs
All-keys P [] cs e h = tt
All-keys P (b ∷ bs) [] e h = absurd (cc)
All-keys P (b ∷ bs) (c ∷ cs) e h =
    let both : (b.min_key ≡ c.min_key) × (keys_of bs ≡ keys_of cs) =
      parts b.min_key c.min_key (keys_of bs) (keys_of cs) e in
    (subst P (sym both.0) h.0, All-keys P bs cs both.1 h.1)
  where
    parts : (x y : Slice) (xs ys : List Slice) → x ∷ xs ≡ y ∷ ys → (x ≡ y) × (xs ≡ ys)
    parts x y xs ys e = (cc, cc)

-- Branches with the same keys and storable ids make a storable node.
pub same_keys-IsStorable :
    {C : Type 0} (fns : TreeFunctions) (node : InternalNode C) (bs : List (Branch C))
    → keys_of bs ≡ keys_of node.branches
    → All IsStorableBranch bs
    → InternalPage.IsStorable fns node
    → InternalPage.IsStorable fns (record node { branches = bs })
same_keys-IsStorable fns node bs e storable can =
    let later_same : keys_of (later bs) ≡ keys_of (later node.branches) =
      later-keys bs ∙ ap later e ∙ sym (later-keys node.branches) in
    let bytes_same : later_keys bs ≡ later_keys node.branches =
      later_keys-keys bs
      ∙ ap (λ ks. join (λ k. k) (later ks)) e
      ∙ sym (later_keys-keys node.branches) in
    let length_same : length bs ≡ length node.branches =
      sym (length-map (λ b. b.min_key) bs)
      ∙ ap length e
      ∙ length-map (λ b. b.min_key) node.branches in
    record {
      some_branch = omega (arith, length_same, can.some_branch);
      branches = storable;
      keys = All-keys (Measures fns.key_size) (later bs) (later node.branches) later_same can.keys;
      edits = can.edits;
      small = omega (arith, ap length bytes_same, length_same, can.small);
    }
