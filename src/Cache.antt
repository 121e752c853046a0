-- ===== src/Cache.antt =====
-- util/blockcache.h and util/blockcache.cpp: a cache of blocks that drops the oldest first. The
-- container keeps one entry for an id, and its sequence is the list.
pub mod Bounds
use libbruce.Base.{
  ℕ, ◌+◌, Bool, true, false, Option, none, some, List, [], ◌∷◌, ◌++◌, ltb, if◌then◌else◌, length,
}
use libbruce.Memory.{NodeId, wrap64, sub64}
use libbruce.Page.{Page}
use libbruce.Blocks.{find_block, erase_block}

-- `BlockCache`; an entry is a `CacheEntry`.
pub record BlockCache : Type 0 where
  pub entries : List (NodeId × Page)
  pub max_size : ℕ
  pub total : ℕ

-- `BlockCache::BlockCache`
abbrev pub new_cache : ℕ → BlockCache
new_cache max_size = record { entries = []; max_size = max_size; total = 0 }

-- `get`: the block, which is moved to the end of the sequence.
unfoldable pub get : BlockCache → NodeId → Option Page × BlockCache
unfolding find_block erase_block
get c id = elim (find_block id c.entries) [
  | none ↦ (none, c)
  | some page ↦ (some page, record c { entries = erase_block id c.entries ++ (id, page) ∷ [] })
]

-- `m_cache.insert`: nothing happens if the id is there.
unfoldable pub insert_new : NodeId → Page → List (NodeId × Page) → List (NodeId × Page)
unfolding find_block
insert_new id mem es = elim (find_block id es) [ none ↦ es ++ (id, mem) ∷ [] | some page ↦ es ]

-- The `while` loop of `put`.
unfoldable pub evict : ℕ → ℕ → List (NodeId × Page) → List (NodeId × Page) × ℕ
evict max_size total [] = ([], total)
evict max_size total (e ∷ es) =
    let rest = evict max_size (sub64 total (length e.1)) es in
    if ltb max_size total then rest else (e ∷ es, total)

-- `put`
unfoldable pub put : BlockCache → NodeId → Page → BlockCache
unfolding insert_new evict
put c id mem =
    let kept = evict c.max_size (wrap64 (c.total + length mem)) (insert_new id mem c.entries) in
    record c { entries = kept.0; total = kept.1 }

-- `del`
unfoldable pub del : BlockCache → NodeId → BlockCache
unfolding erase_block
del c id = record c { entries = erase_block id c.entries }
