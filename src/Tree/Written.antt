-- ===== src/Tree/Written.antt =====
-- tree_impl::write over be::mem: what a write leaves in the engine, in the mutation and in the object.
use libbruce.Base.{
  ℕ, ◌++◌, append_assoc, append-nil, All-append, All-append_left, All-append_right, length-append,
  ◌+◌, ◌^◌, ◌<◌, ◌≤◌, ◌≡◌, refl, sym, ap, ap₂, ◌∙◌, subst, true, false, not, List, [], ◌∷◌, arith,
  All, length, ok, ◌>>=◌, Result, some,
}
use libbruce.Memory.{NodeId}
use libbruce.Functions.{TreeFunctions}
use libbruce.Page.{Page, encode}
use libbruce.Blocks
use libbruce.Blocks.{PutBlock, MemEngine, set_block, numbered_id, new_id, put_all}
use libbruce.Blocks.Numbered.{
  IsRun, IsRun-snoc, IsNumbered, IsNumberIn, put_all-counter, get-blocks,
}
use libbruce.Blocks.Kept.{
  HasKept, AreThere, IsExtended, put_all-IsExtended, put_all-HasKept, put_all-there,
}
use libbruce.Blocks.Done.{
  AreSmall, put_all-done, put_all-marks, put_all-max, put_all-append, ids_of, ids_of-append,
}
use libbruce.Mutation.Finish.{collect_mutation-eq}
use libbruce.Tree.Nodes.{Tree}
use libbruce.Tree.Flush.{Sizes, flush_root}
use libbruce.Tree.Flush.Fits.{Fits}
use libbruce.Tree.Collect.{Puts, put_later, collect_blocks_rec}
use libbruce.Tree.Collect.Chain.{bind-ok}
use libbruce.Tree.Collect.Steps.{Gives-ok, collect_blocks_rec-Gives}
use libbruce.Tree.Collect.Stored.{IsStored, CanStore}
use libbruce.Tree.Collect.Total.{collect_blocks_rec-IsStored}
use libbruce.Tree.Impl.{AnyTree, TreeImpl, write}

-- `id` of the engine in memory, which does not read the block.
abbrev pub memory_id : MemEngine → Page → NodeId × MemEngine
memory_id e page = new_id e

-- `put_all` of the engine in memory, where an exception ends the write.
abbrev pub store_all : MemEngine → List PutBlock → Result (MemEngine × List PutBlock)
store_all e bs = let r = put_all e bs in (r.2 >>= λ _. ok (r.0, r.1))

memory_id-long : (e : MemEngine) (page : Page) → length (memory_id e page).0 ≡ 20
unfolding new_id numbered_id encode
memory_id-long e page = refl

-- The engine while the blocks of a write get their ids, behind those of earlier writes.
record IsNaming (e : MemEngine) (old : List PutBlock) (puts : Puts memory_id) : Type 0 where
  new : List PutBlock
  parts : puts.1 ≡ old ++ new
  blocks : puts.0.blocks ≡ e.blocks
  run : IsRun e.counter new puts.0.counter
  max : puts.0.max_block_size ≡ e.max_block_size

put_later-IsNaming :
    (e : MemEngine) (old : List PutBlock) (puts : Puts memory_id) (page : Page)
    → IsNaming e old puts
    → IsNaming e old (put_later memory_id puts page).1
unfolding put_later new_id
put_later-IsNaming e old puts page named =
    let last : PutBlock = record { id = numbered_id puts.0.counter; mem = page; success = false } in
    record {
      new = named.new ++ last ∷ [];
      parts = ap (λ bs. bs ++ last ∷ []) named.parts ∙ append_assoc old named.new (last ∷ []);
      blocks = named.blocks;
      run = IsRun-snoc e.counter named.new puts.0.counter last named.run refl;
      max = named.max;
    }

-- What putting the blocks of earlier writes and the new ones leaves in the engine.
record IsStoredAll (e : MemEngine) (old : List PutBlock) (made : Puts memory_id) : Type 0 where
  new : List PutBlock
  parts : made.1 ≡ old ++ new
  done : (put_all made.0 made.1).2 ≡ ok tt
  extended : IsExtended e (put_all made.0 made.1).0 new
  there : AreThere (put_all made.0 made.1).0 made.1

put_all-IsStoredAll :
    (e : MemEngine) (old : List PutBlock) (made : Puts memory_id)
    → IsNumbered e
    → AreThere e old
    → IsNaming e old made
    → e.counter + length made.1 < 2 ^ 64
    → AreSmall e.max_block_size made.1
    → IsStoredAll e old made
put_all-IsStoredAll e old made numbered there named few small =
    let s = made.0 in
    let new = named.new in
    let both = subst (AreSmall e.max_block_size) named.parts small in
    let fits_max : e.max_block_size ≡ s.max_block_size = sym named.max in
    let small_old : AreSmall s.max_block_size old =
      subst (λ max. AreSmall max old) fits_max
        (All-append_left (λ b. length b.mem ≤ e.max_block_size) old new both) in
    let f = (put_all s old).0 in
    let small_new : AreSmall f.max_block_size new =
      subst (λ max. AreSmall max new) (fits_max ∙ sym (put_all-max s old))
        (All-append_right (λ b. length b.mem ≤ e.max_block_size) old new both) in
    let room : e.counter + length new < 2 ^ 64 =
      omega (arith, few, ap length named.parts, length-append old new) in
    let at_start : HasKept e s = record {
      gets = λ id. get-blocks s e id named.blocks;
      below = subst (All (λ b. IsNumberIn 0 e.counter b.0)) (sym named.blocks) numbered;
    } in
    let kept = put_all-HasKept e s old numbered there at_start in
    let run : IsRun e.counter new f.counter =
      subst (IsRun e.counter new) (sym (put_all-counter s old)) named.run in
    let extended =
      put_all-IsExtended e f new numbered kept run room (put_all-done f new small_new).0 in
    let whole : (put_all f new).0 ≡ (put_all s made.1).0 =
      sym (ap (λ bs. (put_all s bs).0) named.parts ∙ put_all-append s old new small_old) in
    record {
      new = new;
      parts = named.parts;
      done = (put_all-done s made.1 (subst (λ max. AreSmall max made.1) fits_max small)).0;
      extended = subst (λ out. IsExtended e out new) whole extended;
      there =
          subst (λ out. AreThere out made.1) whole
            (subst (AreThere (put_all f new).0) (sym named.parts) (
              All-append (λ b. Blocks.get (put_all f new).0 b.id ≡ ok b.mem) old new
                (put_all-there e f old new numbered kept run room there) extended.added));
    }

-- What a write leaves. The mutation names the new root, the blocks of earlier writes of the object
-- and then the new ones as created, and those that were loaded; the engine has the tree under the id
-- of the new root, and all it had before; the object has the new root, and blocks to put again that
-- are all in the engine.
pub record IsWritten (fns : TreeFunctions) (chain height : ℕ) (sizes : Sizes) (e : MemEngine)
    (t : TreeImpl) (flushed : AnyTree) (loaded : List NodeId) (id : NodeId) (after : Tree flushed.0)
    (made : List PutBlock) : Type 0 where
  pub out : MemEngine
  pub new : List PutBlock
  pub put_blocks : List PutBlock
  pub parts : made ≡ t.put_blocks ++ new
  pub result :
      write fns (Blocks.get e) chain height sizes memory_id store_all e t
      ≡ ok (
        record {
          success = true;
          new_root = some id;
          created = ids_of t.put_blocks ++ ids_of new;
          obsolete = loaded;
        },
        out,
        record {
          root_id = some id;
          root = some (flushed.0, after);
          loaded_ids = loaded;
          put_blocks = put_blocks;
        },
      )
  pub stored : IsStored fns (Blocks.get out) flushed.0 id flushed.1
  pub extended : IsExtended e out new
  pub there : AreThere out put_blocks

-- A write whose flush succeeds.
pub write-IsWritten :
    (fns : TreeFunctions) (chain height : ℕ) (sizes : Sizes) (e : MemEngine) (t : TreeImpl)
    → IsNumbered e
    → AreThere e t.put_blocks
    → (tree : AnyTree) → t.root ≡ some tree
    → (flushed : AnyTree) (loaded : List NodeId)
    → flush_root fns (Blocks.get e) chain sizes tree.0 tree.1 t.loaded_ids ≡ ok (flushed, loaded)
    → CanStore fns flushed.0 flushed.1
    → (id : NodeId) (after : Tree flushed.0) (made : Puts memory_id)
    → collect_blocks_rec memory_id flushed.0 flushed.1 (e, t.put_blocks) ≡ ok ((id, after), made)
    → e.counter + length made.1 < 2 ^ 64
    → AreSmall e.max_block_size made.1
    → IsWritten fns chain height sizes e t flushed loaded id after made.1
unfolding write
write-IsWritten fns chain height sizes e t numbered there tree held flushed loaded flush can id
      after made collected few small =
    let old = t.put_blocks in
    let named : IsNaming e old made =
      Gives-ok (λ r. IsNaming e old r.1) (collect_blocks_rec memory_id flushed.0 flushed.1 (e, old))
        ((id, after), made)
        (collect_blocks_rec-Gives memory_id (IsNaming e old) (put_later-IsNaming e old) flushed.0
          flushed.1 (e, old)
          (record {
            new = [];
            parts = sym (append-nil old);
            blocks = refl;
            run = refl;
            max = refl;
          }))
        collected in
    let put =
      put_all-done made.0 made.1 (subst (λ max. AreSmall max made.1) (sym named.max) small) in
    let all = put_all-IsStoredAll e old made numbered there named few small in
    let out = (put_all made.0 made.1).0 in
    let blocks = (put_all made.0 made.1).1 in
    let object : TreeImpl = record {
      root_id = some id;
      root = some (flushed.0, after);
      loaded_ids = loaded;
      put_blocks = blocks;
    } in
    record {
      out = out;
      new = all.new;
      put_blocks = blocks;
      parts = all.parts;
      result = rw held (
          bind-ok (flush_root fns (Blocks.get e) chain sizes tree.0 tree.1 t.loaded_ids) _
            (flushed, loaded) flush
          ∙ bind-ok (collect_blocks_rec memory_id flushed.0 flushed.1 (e, old)) _
              ((id, after), made) collected
          ∙ bind-ok (store_all made.0 made.1) _ (out, blocks)
              (bind-ok (put_all made.0 made.1).2 (λ _. ok (out, blocks)) tt put.0)
          ∙ ap (λ m. ok (m, out, object))
              (collect_mutation-eq (some id) blocks loaded
                ∙ ap₂
                    (λ flag ids. record {
                      success = not flag;
                      new_root = some id;
                      created = ids;
                      obsolete = loaded;
                    })
                    put.2 (put.1 ∙ ap ids_of all.parts ∙ ids_of-append old all.new)));
      stored =
          collect_blocks_rec-IsStored fns (Blocks.get out) memory_id memory_id-long flushed.0
            flushed.1 can (e, old) made id after collected all.there;
      extended = all.extended;
      there = put_all-marks (λ i page. Blocks.get out i ≡ ok page) made.0 made.1 all.there;
    }
