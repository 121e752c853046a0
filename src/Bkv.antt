-- ===== src/Bkv.antt =====
-- bkv.cpp: the two loops of the command line tool that read a tree, queryKey and fullScan. What they
-- print is the list of the pairs. The query object that `b.query` makes of the root is not modelled: the
-- tree is an argument.
pub mod Scan
pub mod Query
use libbruce.Base.{
  ℕ, zero, suc, [], ◌∷◌, List, Option, none, some, if◌then◌else◌, Bool, true, out_of_fuel, err,
}
use libbruce.Memory.{Slice, KvPair, slice_eq}
use libbruce.Functions.{TreeFunctions}
use libbruce.Tree.Leaf.{Fetch, Loads, ◌>>=◌, pure, fail}
use libbruce.Tree.Nodes.{Tree}
use libbruce.Tree.Find.{TreePath, find, begin}
use libbruce.Tree.Iterator.{key_at, value_at, is_valid, next}

module _ (fns : TreeFunctions) (fetch : Fetch) (chain : ℕ) where
  -- The `while` loop of both: it prints pairs as long as the iterator is valid and its key is wanted,
  -- and ends at once on an iterator that is past the end. The fuel bounds the pairs that are printed.
  unfoldable pub scan :
      (Slice → Bool) → ℕ → (h : ℕ) → Tree h → Option TreePath → Loads (List KvPair × Tree h)
  scan wanted zero h tree none = pure ([], tree)
  scan wanted zero h tree (some path) = fail (err out_of_fuel)
  scan wanted (suc n) h tree none = pure ([], tree)
  scan wanted (suc n) h tree (some path) =
      if is_valid h tree path
      then (fail (key_at h tree path) >>= λ key.
          if wanted key
          then (fail (value_at h tree path) >>= λ value. next fns fetch chain h tree path >>= λ s.
              scan wanted n h s.1 s.0 >>= λ t.
              pure (record { key = key; value = value } ∷ t.0, t.1))
          else pure ([], tree))
      else pure ([], tree)

  -- `fullScan` of the tree of its query
  unfoldable pub full_scan : ℕ → (h : ℕ) → Tree h → Loads (List KvPair × Tree h)
  unfolding begin scan
  full_scan fuel h tree = begin fns fetch chain h tree >>= λ s. scan (λ key. true) fuel h s.1 s.0

  -- `queryKey` in the tree of its query
  unfoldable pub query_key : ℕ → (h : ℕ) → Tree h → Slice → Loads (List KvPair × Tree h)
  unfolding find scan
  query_key fuel h tree key =
      find fns fetch chain h tree key >>= λ s. scan (λ k. slice_eq k key) fuel h s.1 s.0
