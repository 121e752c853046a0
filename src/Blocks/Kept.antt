-- ===== src/Blocks/Kept.antt =====
-- be/mem.cpp: what putting blocks again, and then new ones, leaves in an engine in memory.
use libbruce.Base.{
  ◌+◌, ◌^◌, ◌<◌, ◌≡◌, ◌≢◌, refl, sym, ap, ◌∙◌, subst, inl, inr, true, false, Bool-cases, List, [],
  ◌∷◌, arith, ltb, All, All-imp, length, ok, err, Result, block_not_found, some, Option-cases,
}
use libbruce.Memory.{NodeId, slice_eq, slice_eq→eq, slice_eq_refl}
use libbruce.Page.{Page}
use libbruce.Blocks.{PutBlock, MemEngine, find_block, set_block, get, put_all}
use libbruce.Blocks.Writes.{get_same, get_set, get-put_all_other}
use libbruce.Blocks.Numbered.{
  IsRun, IsNumberIn, IsNumberIn-ne, IsRun-All, IsNumbered, set_block-All, put_all-All,
  put_all-counter, put_all-holds,
}

-- An engine `s` that gives the pages of `e`, with ids that the counter of `e` gave before.
pub record HasKept (e s : MemEngine) : Type 0 where
  pub gets : (id : NodeId) → get s id ≡ get e id
  pub below : All (λ b. IsNumberIn 0 e.counter b.0) s.blocks

-- An id that is found is the id of an entry.
find_block-All :
    (P : NodeId → Type 0) (id : NodeId) (bs : List (NodeId × Page)) (page : Page)
    → find_block id bs ≡ some page
    → All (λ b. P b.0) bs
    → P id
unfolding find_block
find_block-All P id [] page found all = absurd (cc)
find_block-All P id (b ∷ bs) page found all = elim (Bool-cases (slice_eq b.0 id)) [
  | inl e ↦ subst P (slice_eq→eq b.0 id e) all.0
  | inr e ↦ find_block-All P id bs page (sym (rw e refl) ∙ found) all.1
]

get-IsNumberIn :
    (e : MemEngine) (id : NodeId) (page : Page)
    → IsNumbered e
    → get e id ≡ ok page
    → IsNumberIn 0 e.counter id
unfolding get
get-IsNumberIn e id page numbered got = elim (Option-cases (find_block id e.blocks)) [
  | inl n ↦ absurd (missing page (sym (rw (n, get) refl) ∙ got))
  | inr found ↦ find_block-All (IsNumberIn 0 e.counter) id e.blocks found.0 found.1 numbered
]
  where
    missing : (p : Page) → ◌≡◌ {A = Result Page} (err block_not_found) (ok p) → ⊥
    missing p h = cc

-- The blocks of a list are all in an engine.
abbrev pub AreThere : MemEngine → List PutBlock → Type 0
AreThere e bs = All (λ b. get e b.id ≡ ok b.mem) bs

-- Putting a block again that is there changes nothing that can be got.
put_again :
    (e s : MemEngine) (b : PutBlock)
    → get e b.id ≡ ok b.mem
    → ((id : NodeId) → get s id ≡ get e id)
    → (id : NodeId) → get (record s { blocks = set_block b.id b.mem s.blocks }) id ≡ get e id
put_again e s b there gets id = elim (Bool-cases (slice_eq b.id id)) [
  | inl same ↦
      let is = slice_eq→eq b.id id same in
      ap (get (record s { blocks = set_block b.id b.mem s.blocks })) (sym is)
      ∙ get_same s b
      ∙ sym there
      ∙ ap (get e) is
  | inr apart ↦
      get_set s b id (λ is. split (sym apart ∙ ap (slice_eq b.id) (sym is) ∙ slice_eq_refl b.id))
      ∙ gets id
]
  where
    split : false ≡ true → ⊥
    split e = cc

-- The blocks of earlier writes that are put again, while they are all there.
pub put_all-HasKept :
    (e s : MemEngine) (bs : List PutBlock)
    → IsNumbered e
    → AreThere e bs
    → HasKept e s
    → HasKept e (put_all s bs).0
unfolding put_all
put_all-HasKept e s [] numbered there kept = kept
put_all-HasKept e s (b ∷ bs) numbered (here, there) kept =
    elim (Bool-cases (ltb s.max_block_size (length b.mem))) [
      | inl t ↦ rw t kept
      | inr t ↦ rw t (
          put_all-HasKept e (record s { blocks = set_block b.id b.mem s.blocks }) bs numbered there
            (record {
              gets = put_again e s b here kept.gets;
              below =
                  set_block-All (IsNumberIn 0 e.counter) b.id b.mem s.blocks
                    (get-IsNumberIn e b.id b.mem numbered here) kept.below;
            }))
    ]

-- What a write of blocks that are all new leaves: what was there is there still, the new blocks are
-- there, and the ids of all were given by the counter.
pub record IsExtended (e out : MemEngine) (bs : List PutBlock) : Type 0 where
  pub kept : All (λ b. get out b.0 ≡ get e b.0) e.blocks
  pub added : All (λ b. get out b.id ≡ ok b.mem) bs
  pub numbered : IsNumbered out

-- An id that was given before keeps its page.
pub put_all-kept :
    (e s : MemEngine) (bs : List PutBlock)
    → HasKept e s
    → IsRun e.counter bs s.counter
    → e.counter + length bs < 2 ^ 64
    → (id : NodeId) → IsNumberIn 0 e.counter id
    → get (put_all s bs).0 id ≡ get e id
put_all-kept e s bs kept run small id number =
    let high = e.counter + length bs in
    get-put_all_other s bs id (
      All-imp (λ x. IsNumberIn e.counter high x.id) (λ x. x.id ≢ id)
        (λ x h is.
          IsNumberIn-ne 0 e.counter e.counter high id x.id (omega arith) small number h (sym is))
        bs (IsRun-All e.counter bs s.counter run small).0)
    ∙ kept.gets id

pub put_all-there :
    (e s : MemEngine) (old bs : List PutBlock)
    → IsNumbered e
    → HasKept e s
    → IsRun e.counter bs s.counter
    → e.counter + length bs < 2 ^ 64
    → AreThere e old
    → AreThere (put_all s bs).0 old
put_all-there e s old bs numbered kept run small there =
    All-imp (λ b. get e b.id ≡ ok b.mem) (λ b. get (put_all s bs).0 b.id ≡ ok b.mem)
      (λ b got.
        put_all-kept e s bs kept run small b.id (get-IsNumberIn e b.id b.mem numbered got) ∙ got)
      old there

pub put_all-IsExtended :
    (e s : MemEngine) (bs : List PutBlock)
    → IsNumbered e
    → HasKept e s
    → IsRun e.counter bs s.counter
    → e.counter + length bs < 2 ^ 64
    → (put_all s bs).2 ≡ ok tt
    → IsExtended e (put_all s bs).0 bs
put_all-IsExtended e s bs numbered kept run small done =
    let ids = IsRun-All e.counter bs s.counter run small in
    let high = e.counter + length bs in
    let old : All (λ b. IsNumberIn 0 high b.0) s.blocks =
      All-imp (λ b. IsNumberIn 0 e.counter b.0) (λ b. IsNumberIn 0 high b.0)
        (λ b (k, low, up, is). (k, low, omega (arith, up), is)) s.blocks kept.below in
    let new : All (λ b. IsNumberIn 0 high b.id) bs =
      All-imp (λ b. IsNumberIn e.counter high b.id) (λ b. IsNumberIn 0 high b.id)
        (λ b (k, low, up, is). (k, omega arith, up, is)) bs ids.0 in
    record {
      kept =
          All-imp (λ b. IsNumberIn 0 e.counter b.0) (λ b. get (put_all s bs).0 b.0 ≡ get e b.0)
            (λ b. put_all-kept e s bs kept run small b.0) e.blocks numbered;
      added = put_all-holds s e.counter bs s.counter run small done;
      numbered =
          subst (λ k. All (λ b. IsNumberIn 0 k b.0) (put_all s bs).0.blocks)
            (sym (put_all-counter s bs ∙ ids.1)) (put_all-All (IsNumberIn 0 high) s bs old new);
    }
