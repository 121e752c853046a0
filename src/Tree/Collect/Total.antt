-- ===== src/Tree/Collect/Total.antt =====
-- collectBlocksRec stores a whole tree.
use libbruce.Base.{
  block_not_found, ℕ, zero, suc, ◌≡◌, refl, sym, ap, ◌∙◌, subst, ◌++◌, [], ◌∷◌, List, some, ok, err,
  All, All-append_left, All-append_right, All-imp, append_assoc, length, map,
}
use libbruce.Memory.{NodeId}
use libbruce.Functions.{TreeFunctions}
use libbruce.Internal.{Branch, InternalNode}
use libbruce.Page.{Page}
use libbruce.Page.Write.{serialize_internal, internal_bytes}
use libbruce.Page.Read.{parse_node}
use libbruce.Page.RoundTrip.Internal.{later, stored_branch, stored_branches}
use libbruce.Page.RoundTrip.Internal.Parse.{serialize_internal-ok, parse-serialize_internal}
use libbruce.Tree.Leaf.{Fetch}
use libbruce.Tree.Nodes.{Tree}
use libbruce.Tree.Collect.{Puts, put_later, collect_branches, collect_internal, collect_blocks_rec}
use libbruce.Tree.Collect.Chain.{bind-ok, Holds, last_put}
use libbruce.Tree.Collect.Keys.{keys_of, later-keys, same_keys-IsStorable}
use libbruce.Tree.Collect.Stored.{
  IsStored, StoredBranches, CanStore, IsSaved, collect_leaf-IsSaved, collect_branches-AreSaved,
}

-- The stored branches without the first key hold what the stored branches hold.
first_key-StoredBranches :
    {C : Type 0} (stored : NodeId → C → Type 0) (ds bs : List (Branch C))
    → StoredBranches stored (map stored_branch ds) bs
    → StoredBranches stored (stored_branches ds) bs
first_key-StoredBranches stored [] [] h = h
first_key-StoredBranches stored [] (b ∷ bs) h = h
first_key-StoredBranches stored (d ∷ ds) [] h = h
first_key-StoredBranches stored (d ∷ ds) (b ∷ bs) h = h

stored_keys : {C : Type 0} (bs : List (Branch C)) → keys_of (map stored_branch bs) ≡ keys_of bs
stored_keys [] = refl
stored_keys (b ∷ bs) = ap (◌∷◌ b.min_key) (stored_keys bs)

later_stored_keys :
    {C : Type 0} (bs : List (Branch C)) → keys_of (later (stored_branches bs)) ≡ keys_of (later bs)
later_stored_keys [] = refl
later_stored_keys (b ∷ bs) = stored_keys bs

module _ (fns : TreeFunctions) (fetch : Fetch) {S : Type 0} (new_id : S → Page → NodeId × S)
    (long_ids : (s : S) (page : Page) → length (new_id s page).0 ≡ 20) where
  -- An inner node that can be stored is collected, if its children are.
  collect_internal-IsSaved :
      (h : ℕ) (node : Tree (suc h))
      → CanStore fns (suc h) node
      → (puts : Puts new_id)
      → All
          (λ b.
            (c : Tree h)
            → b.child ≡ some c
            → (puts : Puts new_id)
            → IsSaved fns fetch new_id long_ids
                (IsStored fns fetch h)
                (collect_blocks_rec new_id h)
                c
                puts)
          node.branches
      → IsSaved fns fetch new_id long_ids
          (IsStored fns fetch (suc h))
          (collect_internal new_id (collect_blocks_rec new_id h))
          node
          puts
  unfolding collect_internal put_later
  collect_internal-IsSaved h node (can, _) puts children =
      let s =
        collect_branches-AreSaved fns fetch new_id long_ids (IsStored fns fetch h)
          (collect_blocks_rec new_id h) node.branches can.branches children puts in
      let full : InternalNode (Tree h) = record node { branches = s.after } in
      let full_can = same_keys-IsStorable fns node s.after s.keys s.storable can in
      let page = internal_bytes full in
      let made = new_id s.engine page in
      let last = last_put new_id s.engine page in
      record {
        id = made.0;
        after = full;
        engine = made.1;
        new = s.new ++ last ∷ [];
        result =
            bind-ok (collect_branches new_id (collect_blocks_rec new_id h) node.branches puts) _
              (s.after, (s.engine, puts.1 ++ s.new)) s.result
            ∙ bind-ok (serialize_internal full) _ page (serialize_internal-ok fns full full_can)
            ∙ ap (λ bs. ok ((made.0, full), (made.1, bs))) (append_assoc puts.1 s.new (last ∷ []));
        long = long_ids s.engine page;
        stored = λ holds. (
          stored_branches s.after,
          (
            page,
            (All-append_right (λ b. fetch b.id ≡ ok b.mem) s.new (last ∷ []) holds).0,
            sym (
                  bind-ok (serialize_internal full) (parse_node {C = Tree h} fns) page
                    (serialize_internal-ok fns full full_can))
                ∙ parse-serialize_internal fns full full_can,
          ),
          later_stored_keys s.after
              ∙ later-keys s.after
              ∙ ap later s.keys
              ∙ sym (later-keys node.branches),
          first_key-StoredBranches (IsStored fns fetch h) s.after node.branches
              (s.stored (All-append_left (λ b. fetch b.id ≡ ok b.mem) s.new (last ∷ []) holds)),
        );
      }

  collect_blocks_rec-IsSaved :
      (h : ℕ) (tree : Tree h)
      → CanStore fns h tree
      → (puts : Puts new_id)
      → IsSaved fns fetch new_id long_ids
          (IsStored fns fetch h)
          (collect_blocks_rec new_id h)
          tree
          puts
  unfolding collect_blocks_rec
  collect_blocks_rec-IsSaved zero leaf can puts =
      collect_leaf-IsSaved fns fetch new_id long_ids leaf can puts
  collect_blocks_rec-IsSaved (suc h) node can puts = collect_internal-IsSaved h node can puts (
      All-imp (λ b. (c : Tree h) → b.child ≡ some c → CanStore fns h c)
        (λ b.
          (c : Tree h)
          → b.child ≡ some c
          → (puts : Puts new_id)
          → IsSaved fns fetch new_id long_ids (IsStored fns fetch h) (collect_blocks_rec new_id h) c
              puts)
        (λ b good c held puts'. collect_blocks_rec-IsSaved h c (good c held) puts') node.branches
        can.1)

  -- When the blocks that the collection of such a tree puts can be fetched, the block of the id it
  -- gives holds the tree: parsing it and the blocks it leads to gives the pairs and overflow values,
  -- the branch keys except the first, the counts and the waiting edits, no longer guaranteed.
  pub collect_blocks_rec-IsStored :
      (h : ℕ) (tree : Tree h)
      → CanStore fns h tree
      → (puts made : Puts new_id) (id : NodeId) (after : Tree h)
      → collect_blocks_rec new_id h tree puts ≡ ok ((id, after), made)
      → Holds fns fetch made.1
      → IsStored fns fetch h id tree
  collect_blocks_rec-IsStored h tree can puts made id after done holds =
      let s = collect_blocks_rec-IsSaved h tree can puts in
      let same = sym s.result ∙ done in
      let blocks : puts.1 ++ s.new ≡ made.1 = ap (λ r. elim r [ ok x ↦ x.1.1 | err e ↦ [] ]) same in
      let root : s.id ≡ id = ap (λ r. elim r [ ok x ↦ x.0.0 | err e ↦ [] ]) same in
      subst (λ i. IsStored fns fetch h i tree) root
        (s.stored (
          All-append_right (λ b. fetch b.id ≡ ok b.mem) puts.1 s.new
            (subst (Holds fns fetch) (sym blocks) holds)))

-- A tree whose nodes in memory can be serialized, with ids of twenty bytes from the engine, is
-- collected without an error.
pub collect_blocks_rec-ok :
    (fns : TreeFunctions) {S : Type 0} (new_id : S → Page → NodeId × S)
    → ((s : S) (page : Page) → length (new_id s page).0 ≡ 20)
    → (h : ℕ) (tree : Tree h) → CanStore fns h tree
    → (puts : Puts new_id)
    → (id : NodeId) × (after : Tree h) × (made : Puts new_id) × (collect_blocks_rec new_id h tree
          puts
        ≡ ok ((id, after), made))
collect_blocks_rec-ok fns new_id long_ids h tree can puts =
    let s =
      collect_blocks_rec-IsSaved fns (λ _. err block_not_found) new_id long_ids h tree can puts in
    (s.id, s.after, (s.engine, puts.1 ++ s.new), s.result)
