-- ===== src/Tree/Collect/Chain.antt =====
-- The overflow blocks that collectBlocksRec gives ids to can be read back once they are put.
use libbruce.Base.{
  ℕ, ◌≡◌, refl, sym, ap, ◌∙◌, ◌++◌, [], ◌∷◌, List, if◌then◌else◌, false, Bool-cases, inl, inr, ◌==◌,
  Result, ok, ◌>>=◌, All, All-append_left, All-append_right, append_assoc, append-nil, length,
  arith,
}
use libbruce.Memory.{Slice, NodeId}
use libbruce.Functions.{TreeFunctions}
use libbruce.Overflow
use libbruce.Overflow.{Overflow, absent, present}
use libbruce.Leaf.{LeafNode}
use libbruce.Page.{Page}
use libbruce.Page.Write.{serialize_overflow, overflow_bytes}
use libbruce.Page.Read.{AnyNode, parse_node}
use libbruce.Page.RoundTrip.Link.{IsLink, stored_link}
use libbruce.Page.RoundTrip.Overflow as OverflowPage
use libbruce.Page.RoundTrip.Overflow.{serialize_overflow-ok, parse-serialize_overflow}
use libbruce.Blocks.{PutBlock}
use libbruce.Tree.Leaf.{Fetch}
use libbruce.Tree.Collect.{Puts, put_later, collect_overflow}

pub bind-ok : {A B : Type 0} (m : Result A) (f : A → Result B) (a : A) → m ≡ ok a → (m >>= f) ≡ f a
bind-ok m f a h = ap (λ r. r >>= f) h

-- The block that `put_later` puts.
abbrev pub last_put : {S : Type 0} → (S → Page → NodeId × S) → S → Page → PutBlock
last_put new_id engine page = record { id = (new_id engine page).0; mem = page; success = false }

module _ (fns : TreeFunctions) where
  -- A chain whose blocks can be serialized.
  abbrev pub CanStoreChain : Overflow → Type 0
  CanStoreChain (absent c id) = IsLink (absent c id)
  CanStoreChain (present c id values next) =
      IsLink (present c id values next)
      × OverflowPage.IsStorable fns values next
      × CanStoreChain next

module _ (fns : TreeFunctions) (fetch : Fetch) where
  -- Every block that is put can be fetched.
  abbrev pub Holds : List PutBlock → Type 0
  Holds bs = All (λ b. fetch b.id ≡ ok b.mem) bs

  -- The block of an id is parsed as a node.
  abbrev pub Reads : {C : Type 0} → NodeId → AnyNode C → Type 0
  Reads {C} id node = (page : Page) × (fetch id ≡ ok page) × (parse_node {C = C} fns page ≡ ok node)

  -- A stored record leads to the blocks of a chain, as far as the chain is in memory.
  abbrev pub StoredChain : Overflow → Overflow → Type 0
  StoredChain o (absent c id) = o ≡ absent c id
  StoredChain o (present c id values next) =
      if c == 0
      then (o ≡ absent c id)
      else ((at : NodeId) × (o ≡ absent c at)
          × (o' : Overflow) × Reads {C = LeafNode} at (AnyNode.overflow values o')
          × StoredChain o' next)

module _ (fns : TreeFunctions) (fetch : Fetch) {S : Type 0} (new_id : S → Page → NodeId × S)
    (long_ids : (s : S) (page : Page) → length (new_id s page).0 ≡ 20) where
  -- What the collection of a chain gives.
  pub record IsChainSaved (o : Overflow) (puts : Puts new_id) : Type 0 where
    pub after : Overflow
    pub engine : S
    pub new : List PutBlock
    pub result : collect_overflow new_id o puts ≡ ok (after, (engine, puts.1 ++ new))
    pub count : Overflow.count after ≡ Overflow.count o
    pub long : length (Overflow.node_id after) ≡ 20
    pub stored : Holds fns fetch new → StoredChain fns fetch (stored_link after) o

  in_memory :
      (c : ℕ) (id : NodeId) (values : List Slice) (next : Overflow)
      → (c == 0) ≡ false
      → IsLink (present c id values next)
      → OverflowPage.IsStorable fns values next
      → (puts : Puts new_id) → IsChainSaved next puts
      → IsChainSaved (present c id values next) puts
  unfolding collect_overflow put_later
  in_memory c id values next z link can puts s =
      let after_can : OverflowPage.IsStorable fns values s.after = record {
        small = can.small;
        few = can.few;
        measured = can.measured;
        link = record { counted = omega (arith, s.count, can.link.counted); id_length = s.long };
      } in
      let page = overflow_bytes values s.after in
      let made = new_id s.engine page in
      record {
        after = present c made.0 values s.after;
        engine = made.1;
        new = s.new ++ last_put new_id s.engine page ∷ [];
        result = rw z (
            bind-ok (collect_overflow new_id next puts) _ (s.after, (s.engine, puts.1 ++ s.new))
              s.result
            ∙ bind-ok (serialize_overflow values s.after) _ page
                (serialize_overflow-ok fns values s.after after_can)
            ∙ ap (λ bs. ok (present c made.0 values s.after, (made.1, bs)))
                (append_assoc puts.1 s.new (last_put new_id s.engine page ∷ [])));
        count = refl;
        long = long_ids s.engine page;
        stored = λ holds.
            let earlier =
              All-append_left (λ b. fetch b.id ≡ ok b.mem) s.new
                (last_put new_id s.engine page ∷ []) holds in
            let own =
              All-append_right (λ b. fetch b.id ≡ ok b.mem) s.new
                (last_put new_id s.engine page ∷ []) holds in
            rw z (
              made.0,
              refl,
              stored_link s.after,
              (
                page,
                own.0,
                sym (
                      bind-ok (serialize_overflow values s.after) (parse_node {C = LeafNode} fns)
                        page (serialize_overflow-ok fns values s.after after_can))
                    ∙ parse-serialize_overflow fns values s.after after_can,
              ),
              s.stored earlier,
            );
      }

  -- A chain that can be stored is collected, and its blocks are read back.
  pub collect_overflow-IsChainSaved :
      (o : Overflow) → CanStoreChain fns o → (puts : Puts new_id) → IsChainSaved o puts
  unfolding collect_overflow
  collect_overflow-IsChainSaved (absent c id) link puts = record {
    after = absent c id;
    engine = puts.0;
    new = [];
    result = ap (λ bs. ok (absent c id, (puts.0, bs))) (sym (append-nil puts.1));
    count = refl;
    long = link.id_length;
    stored = λ _. refl;
  }
  collect_overflow-IsChainSaved (present c id values next) (link, can, rest) puts =
      elim (Bool-cases (c == 0)) [
        | inl z ↦ record {
          after = present c id values next;
          engine = puts.0;
          new = [];
          result =
              rw z
                (ap (λ bs. ok (present c id values next, (puts.0, bs))) (sym (append-nil puts.1)));
          count = refl;
          long = link.id_length;
          stored = λ _. rw z refl;
        }
        | inr z ↦
            in_memory c id values next z link can puts
              (collect_overflow-IsChainSaved next rest puts)
      ]
