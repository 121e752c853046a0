-- ===== src/Pool/Ranges.antt =====
-- What a pool hands out lies in its page and overlaps nothing handed out before.
use libbruce.Base.{◌+◌, ◌<◌, ◌≤◌, ◌≡◌, ◌≢◌, ◌⊎◌, List, All}
use libbruce.Pool.{Pool, Range, page_size}

-- A range that a pool has handed out: it lies in its page, and in the current page it ends at the
-- offset.
pub record IsHandedOut (pool : Pool) (r : Range) : Type 0 where
  pub inside : r.from + r.bytes ≤ r.page.bytes
  pub old : r.page.number < pool.fresh
  pub used : r.page.number ≡ pool.page.number → r.from + r.bytes ≤ pool.offset

-- Two ranges without a byte in common.
abbrev pub Apart : Range → Range → Type 0
Apart r s =
    (r.page.number ≢ s.page.number) ⊎ ((r.from + r.bytes ≤ s.from) ⊎ (s.from + s.bytes ≤ r.from))

-- A pool whose offset lies in its current page.
pub record IsPool (pool : Pool) (given : List Range) : Type 0 where
  pub within : pool.offset ≤ pool.page.bytes
  pub small : pool.page.bytes ≤ page_size
  pub numbered : pool.page.number < pool.fresh
  pub handed_out : All (IsHandedOut pool) given
