-- ===== src/Blocks.antt =====
-- be.h and be/mem.cpp: the engine that keeps blocks in memory.
pub mod Writes
pub mod Numbered
pub mod Kept
pub mod Done
use libbruce.Base.{
  ℕ, suc, ◌+◌, Bool, true, false, Option, none, some, List, [], ◌∷◌, ◌++◌, ltb, if◌then◌else◌,
  length, replicate, Result, ok, err, block_not_found, block_too_large,
}
use libbruce.Memory.{NodeId, slice_eq, wrap64}
use libbruce.Page.{Page, encode}

-- `putblock_t`
pub record PutBlock : Type 0 where
  pub id : NodeId
  pub mem : Page
  pub success : Bool

-- `delblock_t`
pub record DelBlock : Type 0 where
  pub id : NodeId
  pub success : Bool

-- `be::mem`. The map is a list of its entries, with one entry for an id.
pub record MemEngine : Type 0 where
  pub counter : ℕ
  pub blocks : List (NodeId × Page)
  pub max_block_size : ℕ
  pub queue_size : ℕ

-- `mem::mem`
abbrev pub new_engine : ℕ → ℕ → MemEngine
new_engine max_block_size queue_size = record {
  counter = 0;
  blocks = [];
  max_block_size = max_block_size;
  queue_size = queue_size;
}

-- `m_blocks.find`
unfoldable pub find_block : NodeId → List (NodeId × Page) → Option Page
find_block id [] = none
find_block id (b ∷ bs) = let rest = find_block id bs in if slice_eq b.0 id then some b.1 else rest

-- `m_blocks[id] = mem`
unfoldable pub set_block : NodeId → Page → List (NodeId × Page) → List (NodeId × Page)
set_block id mem [] = (id, mem) ∷ []
set_block id mem (b ∷ bs) =
    let rest = b ∷ set_block id mem bs in if slice_eq b.0 id then (id, mem) ∷ bs else rest

-- `m_blocks.erase`; every entry of the id goes, and there is one at most.
unfoldable pub erase_block : NodeId → List (NodeId × Page) → List (NodeId × Page)
erase_block id [] = []
erase_block id (b ∷ bs) = let rest = erase_block id bs in if slice_eq b.0 id then rest else b ∷ rest

-- `nodeid_t(size_t)`: the number in the first eight bytes.
unfoldable pub numbered_id : ℕ → NodeId
numbered_id n = encode 8 n ++ replicate 12 0

-- `mem::id`
unfoldable pub new_id : MemEngine → NodeId × MemEngine
unfolding numbered_id
new_id e = (numbered_id e.counter, record e { counter = wrap64 (e.counter + 1) })

-- `mem::get`
unfoldable pub get : MemEngine → NodeId → Result Page
unfolding find_block
get e id = elim (find_block id e.blocks) [ none ↦ err block_not_found | some page ↦ ok page ]

-- `mem::get_all`: the pages that are found, or the first failure.
unfoldable pub get_all : MemEngine → List NodeId → Result (List (NodeId × Page))
unfolding get set_block
get_all e [] = ok []
get_all e (id ∷ ids) = elim (get e id) [
  | err x ↦ err x
  | ok page ↦ elim (get_all e ids) [ err x ↦ err x | ok rest ↦ ok (set_block id page rest) ]
]

-- `mem::put_all`: the blocks before one that is too large are stored when it throws.
unfoldable pub put_all : MemEngine → List PutBlock → MemEngine × List PutBlock × Result (Unit {0})
unfolding set_block
put_all e [] = (e, [], ok tt)
put_all e (b ∷ bs) =
    let rest = put_all (record e { blocks = set_block b.id b.mem e.blocks }) bs in
    if ltb e.max_block_size (length b.mem)
    then (e, b ∷ bs, err block_too_large)
    else (rest.0, record b { success = true } ∷ rest.1, rest.2)

-- `mem::del_all`
unfoldable pub del_all : MemEngine → List DelBlock → MemEngine × List DelBlock
unfolding find_block erase_block
del_all e [] = (e, [])
del_all e (d ∷ ds) = elim (find_block d.id e.blocks) [
  | none ↦ let rest = del_all e ds in (rest.0, d ∷ rest.1)
  | some page ↦
      let rest = del_all (record e { blocks = erase_block d.id e.blocks }) ds in
      (rest.0, record d { success = true } ∷ rest.1)
]
