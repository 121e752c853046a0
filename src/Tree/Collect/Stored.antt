-- ===== src/Tree/Collect/Stored.antt =====
-- The blocks of a tree that collectBlocksRec gives ids to can be read back once they are put.
use libbruce.Base.{
  ℕ, zero, suc, ◌≡◌, refl, sym, ap, ◌∙◌, ◌++◌, [], ◌∷◌, List, none, some, Option-cases, inl, inr,
  Result, ok, All, All-append_left, All-append_right, append_assoc, append-nil, length, arith, map,
}
use libbruce.Memory.{NodeId}
use libbruce.Functions.{TreeFunctions}
use libbruce.Overflow.{Overflow}
use libbruce.Leaf.{LeafNode}
use libbruce.Internal.{Branch}
use libbruce.Page.{Page}
use libbruce.Page.Write.{serialize_leaf, leaf_bytes}
use libbruce.Page.Read.{AnyNode, parse_node}
use libbruce.Page.RoundTrip.Link.{stored_link}
use libbruce.Page.RoundTrip.Leaf as LeafPage
use libbruce.Page.RoundTrip.Leaf.{serialize_leaf-ok, parse-serialize_leaf}
use libbruce.Page.RoundTrip.Internal as InternalPage
use libbruce.Page.RoundTrip.Internal.{
  later, stored_edit, stored_node, stored_branch, stored_branches, node_bytes, IsStorableBranch,
}
use libbruce.Blocks.{PutBlock}
use libbruce.Tree.Leaf.{Fetch}
use libbruce.Tree.Nodes.{Tree}
use libbruce.Tree.Collect.{Puts, put_later, collect_overflow, collect_leaf, collect_branches}
use libbruce.Tree.Collect.Chain.{
  bind-ok, Holds, Reads, StoredChain, CanStoreChain, last_put, collect_overflow-IsChainSaved,
}

module _ {C : Type 0} (stored : NodeId → C → Type 0) where
  -- Branches that are read from a block, against those that were written: a child that was not in
  -- memory keeps its id, any other is stored under the id that is read.
  abbrev pub StoredBranches : List (Branch C) → List (Branch C) → Type 0
  StoredBranches [] [] = Unit
  StoredBranches [] (b ∷ bs) = ⊥
  StoredBranches (d ∷ ds) [] = ⊥
  StoredBranches (d ∷ ds) (b ∷ bs) =
      (d.item_count ≡ b.item_count)
      × (elim b.child [ none ↦ d.node_id ≡ b.node_id | some c ↦ stored d.node_id c ])
      × StoredBranches ds bs

module _ (fns : TreeFunctions) (fetch : Fetch) where
  -- The block of an id holds a tree, as far as the tree is in memory: its pairs and values, its keys
  -- and counts, and its waiting edits, which are no longer marked as guaranteed.
  abbrev pub IsStored : (h : ℕ) → NodeId → Tree h → Type 0
  IsStored zero id leaf =
      (o : Overflow) × Reads fns fetch {C = LeafNode} id
        (AnyNode.leaf (record leaf { overflow = o }))
      × StoredChain fns fetch o leaf.overflow
  IsStored (suc h) id node =
      (bs : List (Branch (Tree h))) × Reads fns fetch {C = Tree h} id
        (AnyNode.internal (record { branches = bs; edit_queue = map stored_edit node.edit_queue }))
      × (map (λ b. b.min_key) (later bs) ≡ map (λ b. b.min_key) (later node.branches))
      × StoredBranches (IsStored h) bs node.branches

-- A tree whose nodes in memory can be serialized.
abbrev pub CanStore : TreeFunctions → (h : ℕ) → Tree h → Type 0
CanStore fns zero leaf = LeafPage.IsStorable fns leaf × CanStoreChain fns leaf.overflow
CanStore fns (suc h) node =
    InternalPage.IsStorable fns node
    × All (λ b. (c : Tree h) → b.child ≡ some c → CanStore fns h c) node.branches

module _ (fns : TreeFunctions) (fetch : Fetch) {S : Type 0} (new_id : S → Page → NodeId × S)
    (long_ids : (s : S) (page : Page) → length (new_id s page).0 ≡ 20) where
  -- What the collection of a node gives.
  pub record IsSaved {C : Type 0} (is_stored : NodeId → C → Type 0)
      (collect : C → Puts new_id → Result ((NodeId × C) × Puts new_id)) (c : C) (puts : Puts new_id)
      : Type 0 where
    pub id : NodeId
    pub after : C
    pub engine : S
    pub new : List PutBlock
    pub result : collect c puts ≡ ok ((id, after), (engine, puts.1 ++ new))
    pub long : length id ≡ 20
    pub stored : Holds fns fetch new → is_stored id c

  -- A leaf that can be stored is collected.
  pub collect_leaf-IsSaved :
      (leaf : LeafNode)
      → CanStore fns zero leaf
      → (puts : Puts new_id) → IsSaved (IsStored fns fetch zero) (collect_leaf new_id) leaf puts
  unfolding collect_leaf put_later
  collect_leaf-IsSaved leaf (can, chain) puts =
      let s = collect_overflow-IsChainSaved fns fetch new_id long_ids leaf.overflow chain puts in
      let full = record leaf { overflow = s.after } in
      let full_can : LeafPage.IsStorable fns full = record {
        sized = can.sized;
        small = can.small;
        few = can.few;
        keys = can.keys;
        values = can.values;
        link = record { counted = omega (arith, s.count, can.link.counted); id_length = s.long };
      } in
      let page = leaf_bytes full in
      let made = new_id s.engine page in
      let last = last_put new_id s.engine page in
      record {
        id = made.0;
        after = full;
        engine = made.1;
        new = s.new ++ last ∷ [];
        result =
            bind-ok (collect_overflow new_id leaf.overflow puts) _
              (s.after, (s.engine, puts.1 ++ s.new)) s.result
            ∙ bind-ok (serialize_leaf full) _ page (serialize_leaf-ok fns full full_can)
            ∙ ap (λ bs. ok ((made.0, full), (made.1, bs))) (append_assoc puts.1 s.new (last ∷ []));
        long = long_ids s.engine page;
        stored = λ holds. (
          stored_link s.after,
          (
            page,
            (All-append_right (λ b. fetch b.id ≡ ok b.mem) s.new (last ∷ []) holds).0,
            sym (
                  bind-ok (serialize_leaf full) (parse_node {C = LeafNode} fns) page
                    (serialize_leaf-ok fns full full_can))
                ∙ parse-serialize_leaf fns full full_can,
          ),
          s.stored (All-append_left (λ b. fetch b.id ≡ ok b.mem) s.new (last ∷ []) holds),
        );
      }

  module _ {C : Type 0} (is_stored : NodeId → C → Type 0)
      (collect : C → Puts new_id → Result ((NodeId × C) × Puts new_id)) where
    -- What the collection of some branches gives.
    pub record AreSaved (bs : List (Branch C)) (puts : Puts new_id) : Type 0 where
      pub after : List (Branch C)
      pub engine : S
      pub new : List PutBlock
      pub result : collect_branches new_id collect bs puts ≡ ok (after, (engine, puts.1 ++ new))
      pub keys : map (λ b. b.min_key) after ≡ map (λ b. b.min_key) bs
      pub storable : All IsStorableBranch after
      pub stored : Holds fns fetch new → StoredBranches is_stored (map stored_branch after) bs

    -- A branch whose child is not in memory stays as it is.
    skip_missing :
        (b same : Branch C) (bs after : List (Branch C)) (puts puts' : Puts new_id)
        → b.child ≡ none
        → b ≡ same
        → collect_branches new_id collect bs puts ≡ ok (after, puts')
        → collect_branches new_id collect (b ∷ bs) puts ≡ ok (same ∷ after, puts')
    unfolding collect_branches
    skip_missing b same bs after puts puts' missing e rest = rw missing (
        bind-ok (collect_branches new_id collect bs puts) _ (after, puts') rest
        ∙ ap (λ x. ok (x ∷ after, puts')) e)

    pub collect_branches-AreSaved :
        (bs : List (Branch C))
        → All IsStorableBranch bs
        → All
            (λ b.
              (c : C) → b.child ≡ some c → (puts : Puts new_id) → IsSaved is_stored collect c puts)
            bs
        → (puts : Puts new_id) → AreSaved bs puts
    unfolding collect_branches
    collect_branches-AreSaved [] storable children puts = record {
      after = [];
      engine = puts.0;
      new = [];
      result = ap (λ bs. ok ([], (puts.0, bs))) (sym (append-nil puts.1));
      keys = refl;
      storable = tt;
      stored = λ _. tt;
    }
    collect_branches-AreSaved (b ∷ bs) (one, storable) (child, children) puts =
        elim (Option-cases b.child) [
          | inl missing ↦
              let rest = collect_branches-AreSaved bs storable children puts in
              record {
                after = b ∷ rest.after;
                engine = rest.engine;
                new = rest.new;
                result =
                    skip_missing b b bs rest.after puts (rest.engine, puts.1 ++ rest.new) missing
                      refl rest.result;
                keys = ap (◌∷◌ b.min_key) rest.keys;
                storable = (one, rest.storable);
                stored = λ holds. (refl, rw missing refl, rest.stored holds);
              }
          | inr (c, held) ↦
              let s = child c held puts in
              let rest =
                collect_branches-AreSaved bs storable children (s.engine, puts.1 ++ s.new) in
              record {
                after = record b { node_id = s.id; child = some s.after } ∷ rest.after;
                engine = rest.engine;
                new = s.new ++ rest.new;
                result = rw held (
                    bind-ok (collect c puts) _ ((s.id, s.after), (s.engine, puts.1 ++ s.new))
                      s.result
                    ∙ bind-ok (collect_branches new_id collect bs (s.engine, puts.1 ++ s.new)) _
                        (rest.after, (rest.engine, (puts.1 ++ s.new) ++ rest.new)) rest.result
                    ∙ ap
                        (λ ps. ok (
                          record b { node_id = s.id; child = some s.after } ∷ rest.after,
                          (rest.engine, ps),
                        ))
                        (append_assoc puts.1 s.new rest.new));
                keys = ap (◌∷◌ b.min_key) rest.keys;
                storable = (record { id_length = s.long; counted = one.counted }, rest.storable);
                stored = λ holds. (
                  refl,
                  rw held (
                      s.stored (All-append_left (λ b. fetch b.id ≡ ok b.mem) s.new rest.new holds)),
                  rest.stored (All-append_right (λ b. fetch b.id ≡ ok b.mem) s.new rest.new holds),
                );
              }
        ]
