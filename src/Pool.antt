-- ===== src/Pool.antt =====
-- mempool.h and mempool.cpp: a pool hands out ranges of its current page, which is given up once
-- a request does not fit. Pages have a size here and no content.
pub mod Ranges
use libbruce.Base.{ℕ, suc, ◌+◌, ◌*◌, ◌/◌, List, [], ◌∷◌, ◌++◌, ltb, leb, ◌==◌, if◌then◌else◌}
use libbruce.Memory.{wrap64}

-- `ALLOCPAGE_SIZE` and `MAX_SHARED_ALLOC_SIZE`
abbrev pub page_size : ℕ
page_size = 262144

abbrev pub max_shared_size : ℕ
max_shared_size = 65536

-- A page that a pool has made: its number, and its size.
pub record PoolPage : Type 0 where
  pub number : ℕ
  pub bytes : ℕ

-- `mempool`, with a number for the next page. The empty `m_allocPage` has no bytes.
pub record Pool : Type 0 where
  pub pages : List PoolPage
  pub page : PoolPage
  pub offset : ℕ
  pub fresh : ℕ

-- `mempool::mempool`
abbrev pub new_pool : Pool
new_pool = record { pages = []; page = record { number = 0; bytes = 0 }; offset = 0; fresh = 1 }

-- `retain`
unfoldable pub retain : Pool → PoolPage → Pool
retain pool page = record pool { pages = pool.pages ++ page ∷ [] }

-- The `memslice` of a page: where it begins, and its size.
pub record Range : Type 0 where
  pub page : PoolPage
  pub from : ℕ
  pub bytes : ℕ

-- The page that a request of `size` bytes is served from.
unfoldable pub make_room : Pool → ℕ → Pool
unfolding retain
make_room pool size =
    let kept = if pool.page.bytes == 0 then pool else retain pool pool.page in
    if leb pool.page.bytes (wrap64 (pool.offset + size))
    then record kept {
      page = record { number = pool.fresh; bytes = page_size };
      offset = 0;
      fresh = suc pool.fresh;
    }
    else pool

-- `alloc`
unfoldable pub alloc : Pool → ℕ → Range × Pool
unfolding make_room retain
alloc pool size =
    let own : PoolPage = record { number = pool.fresh; bytes = size } in
    let room = make_room pool size in
    if ltb max_shared_size size
    then (
      record { page = own; from = 0; bytes = size },
      record (retain pool own) { fresh = suc pool.fresh },
    )
    else (
      record { page = room.page; from = room.offset; bytes = size },
      record room { offset = room.offset + size },
    )
