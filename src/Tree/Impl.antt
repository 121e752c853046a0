-- ===== src/Tree/Impl.antt =====
-- tree_impl.cpp: the object itself, its root, the edits that come in at the root, get and write.
-- The height at which the stored root lies is a parameter of the operations that load it.
use libbruce.Base.{ℕ, zero, [], List, Option, none, some, true, Bool, Result, ok, err, ◌>>=◌}
use libbruce.Memory.{Slice, NodeId}
use libbruce.Functions.{TreeFunctions}
use libbruce.Edit.{EditType, PendingEdit}
use libbruce.Leaf.{empty_leaf}
use libbruce.Page.{Page}
use libbruce.Blocks.{PutBlock}
use libbruce.Mutation.{Mutation, new_mutation, collect_mutation}
use libbruce.Tree.Leaf.{Fetch}
use libbruce.Tree.Apply.{validate_kv_size}
use libbruce.Tree.Nodes.{Depth, Tree, tree_ops}
use libbruce.Tree.Find.{find}
use libbruce.Tree.Iterator.{value_at}
use libbruce.Tree.Flush.{Sizes, flush_root}
use libbruce.Tree.Collect.{collect_blocks_rec}

-- A tree and its height.
abbrev pub AnyTree : Type 0
AnyTree = (h : ℕ) × Tree h

-- `be::putblocklist_t m_putBlocks`
abbrev pub PutBlocks : Type 0
PutBlocks = List PutBlock

-- `tree_impl`: `m_rootID`, `m_root`, `m_loadedIDs`, and `m_putBlocks`, to which `write` adds and from
-- which nothing is taken.
pub record TreeImpl : Type 0 where
  pub root_id : Option NodeId
  pub root : Option AnyTree
  pub loaded_ids : List NodeId
  pub put_blocks : PutBlocks

-- `tree_impl::tree_impl`
abbrev pub new_tree : Option NodeId → TreeImpl
new_tree id = record { root_id = id; root = none; loaded_ids = []; put_blocks = [] }

module _ (fns : TreeFunctions) (fetch : Fetch) (chain stored : ℕ) (sizes : Sizes) where
  -- `root`: the root, and the object that now has it.
  unfoldable pub root : TreeImpl → Result (AnyTree × TreeImpl)
  root t = elim t.root [
    | some r ↦ ok (r, t)
    | none ↦ elim t.root_id [
      | none ↦ ok ((zero, empty_leaf), record t { root = some (zero, empty_leaf) })
      | some id ↦ elim ((tree_ops fns fetch chain stored).load id t.loaded_ids) [
        | err e ↦ err e
        | ok r ↦ ok ((stored, r.0), record t { root = some (stored, r.0); loaded_ids = r.1 })
      ]
    ]
  ]

  -- `apply(root(), edit, SHALLOW)`
  unfoldable pub apply_to_root : TreeImpl → PendingEdit → Result TreeImpl
  unfolding root
  apply_to_root t e = root t >>= λ r.
      (tree_ops fns fetch chain r.0.0).apply r.0.1 e Depth.shallow r.1.loaded_ids >>= λ s.
      ok (record (r.1) { root = some (r.0.0, s.0); loaded_ids = s.1 })

  -- `insert`
  unfoldable pub insert : TreeImpl → Slice → Slice → Result TreeImpl
  unfolding validate_kv_size apply_to_root
  insert t key value = validate_kv_size sizes.block_size key value >>= λ _.
      apply_to_root t
        (record { edit = EditType.insert; key = key; value = value; guaranteed = true })

  -- `upsert`
  unfoldable pub upsert : TreeImpl → Slice → Slice → Bool → Result TreeImpl
  unfolding validate_kv_size apply_to_root
  upsert t key value guaranteed = validate_kv_size sizes.block_size key value >>= λ _.
      apply_to_root t
        (record { edit = EditType.upsert; key = key; value = value; guaranteed = guaranteed })

  -- `remove` of a key
  unfoldable pub remove_key : TreeImpl → Slice → Bool → Result TreeImpl
  unfolding apply_to_root
  remove_key t key guaranteed =
      apply_to_root t
        (record { edit = EditType.remove_key; key = key; value = []; guaranteed = guaranteed })

  -- `remove` of a key and a value
  unfoldable pub remove_kv : TreeImpl → Slice → Slice → Bool → Result TreeImpl
  unfolding apply_to_root
  remove_kv t key value guaranteed =
      apply_to_root t
        (record { edit = EditType.remove_kv; key = key; value = value; guaranteed = guaranteed })

  -- `get`: the value of the pair that `find` gives, if there is one.
  unfoldable pub get : TreeImpl → Slice → Result (Option Slice × TreeImpl)
  unfolding root find value_at
  get t key = root t >>= λ r. find fns fetch chain r.0.0 r.0.1 key r.1.loaded_ids >>= λ s.
      let after = record (r.1) { root = some (r.0.0, s.0.1); loaded_ids = s.1 } in
      elim s.0.0 [
        | none ↦ ok (none, after)
        | some path ↦ value_at r.0.0 s.0.1 path >>= λ value. ok (some value, after)
      ]

  module _ {S : Type 0} (new_id : S → Page → NodeId × S)
      (put_all : S → List PutBlock → Result (S × List PutBlock)) where
    -- `write`, over an engine of state `S`: the mutation, and the engine and the object afterwards. The
    -- blocks of earlier writes are put and listed again.
    unfoldable pub write : S → TreeImpl → Result (Mutation × S × TreeImpl)
    unfolding flush_root collect_blocks_rec collect_mutation
    write s t = elim t.root [
      | none ↦ ok (new_mutation t.root_id, s, t)
      | some r ↦ flush_root fns fetch chain sizes r.0 r.1 t.loaded_ids >>= λ flushed.
          collect_blocks_rec new_id flushed.0.0 flushed.0.1 (s, t.put_blocks) >>= λ made.
          put_all made.1.0 made.1.1 >>= λ done. ok (
            collect_mutation (some made.0.0) done.1 flushed.1,
            done.0,
            record {
              root_id = some made.0.0;
              root = some (flushed.0.0, made.0.1);
              loaded_ids = flushed.1;
              put_blocks = done.1;
            },
          )
    ]
