-- ===== src/Tests/Blocks.antt =====
-- An engine with a block, and the mutation of a write.
use libbruce.Base.{
  ◌+◌, ◌≤◌, ℕ, ◌≡◌, ◌≢◌, refl, ap, true, false, not, Option, some, List, [], ◌∷◌, arith, ok, err,
  block_not_found, get_elem?, Same, replicate,
}
use libbruce.Memory.{NodeId, slice_eq}
use libbruce.Page.{Page}
use libbruce.Blocks.{find_block, PutBlock, DelBlock, MemEngine, new_engine, get, put_all, del_all}
use libbruce.Blocks.Writes.{get-put_all, get-del_all}
use libbruce.Cache
use libbruce.Cache.{BlockCache}
use libbruce.Cache.Bounds.{IsCounted, bytes, put-IsCounted, get-put, put_drifts}
use libbruce.Mutation.{Mutation, collect_mutation, finish_mutation, delete_list}
use libbruce.Mutation.Finish.{
  finish_mutation-ok, collect_mutation-eq, failed_ids, all_succeed, written, any_failed,
}

abbrev an_id : ℕ → NodeId
an_id n = n ∷ replicate 19 0

abbrev empty_engine : MemEngine
empty_engine = new_engine 100 0

abbrev put : ℕ → Page → PutBlock
put n page = record { id = an_id n; mem = page; success = false }

head_of : (xs ys : List ℕ) → xs ≡ ys → get_elem? xs 0 ≡ get_elem? ys 0
head_of xs ys e = ap (λ zs. get_elem? zs 0) e

two-ne-one : an_id 2 ≢ an_id 1
two-ne-one h = let e = head_of (an_id 2) (an_id 1) h in absurd (ground (arith, e))

abbrev puts : List PutBlock
puts = put 1 (7 ∷ []) ∷ put 2 (8 ∷ 9 ∷ []) ∷ []

get-put_all_example : get (put_all empty_engine puts).0 (an_id 1) ≡ ok (7 ∷ [])
unfolding put_all
get-put_all_example =
    get-put_all empty_engine [] (put 1 (7 ∷ [])) (put 2 (8 ∷ 9 ∷ []) ∷ []) refl (two-ne-one, tt)

abbrev del : ℕ → DelBlock
del n = record { id = an_id n; success = false }

get-del_all_example :
    get (del_all (put_all empty_engine puts).0 (del 2 ∷ del 1 ∷ [])).0 (an_id 1)
    ≡ err block_not_found
get-del_all_example = get-del_all (put_all empty_engine puts).0 (del 2 ∷ []) (del 1) []

abbrev a_mutation : Mutation
a_mutation = record {
  success = true;
  new_root = some (an_id 3);
  created = an_id 3 ∷ [];
  obsolete = an_id 1 ∷ an_id 2 ∷ [];
}

-- An engine that deletes all but the first block.
abbrev keeps_first : ℕ → List DelBlock → ℕ × Option (List DelBlock)
keeps_first s [] = (s, some [])
keeps_first s (d ∷ ds) = (s, some (d ∷ marked ds))
  where
    marked : List DelBlock → List DelBlock
    marked [] = []
    marked (x ∷ xs) = record x { success = true } ∷ marked xs

abbrev outcome : List DelBlock
outcome = del 1 ∷ record { id = an_id 2; success = true } ∷ []

finish_mutation-ok_example :
    (after : Mutation) × (finish_mutation keeps_first 0 a_mutation true
      ≡ ok (0, after, all_succeed outcome))
    × Same (delete_list after true) (failed_ids outcome)
unfolding delete_list
finish_mutation-ok_example = finish_mutation-ok keeps_first 0 a_mutation true outcome refl refl

collect_mutation-eq_example : collect_mutation (some (an_id 2)) puts (an_id 0 ∷ []) ≡ record {
  success = not (any_failed puts);
  new_root = some (an_id 2);
  created = written puts;
  obsolete = an_id 0 ∷ [];
}
collect_mutation-eq_example = collect_mutation-eq (some (an_id 2)) puts (an_id 0 ∷ [])

-- A cache with one block of three bytes.
abbrev one_cached : BlockCache
one_cached = record { entries = (an_id 1, 1 ∷ 2 ∷ 3 ∷ []) ∷ []; max_size = 4; total = 3 }

put-IsCounted_example :
    IsCounted (Cache.put one_cached (an_id 2) (5 ∷ 6 ∷ []))
    × (bytes (Cache.put one_cached (an_id 2) (5 ∷ 6 ∷ [])).entries ≤ 4)
unfolding find_block slice_eq
put-IsCounted_example = put-IsCounted one_cached (an_id 2) (5 ∷ 6 ∷ []) refl refl (omega arith)

get-put_example :
    (Cache.get (Cache.put one_cached (an_id 2) (5 ∷ 6 ∷ [])) (an_id 2)).0 ≡ some (5 ∷ 6 ∷ [])
unfolding find_block slice_eq
get-put_example = get-put one_cached (an_id 2) (5 ∷ 6 ∷ []) refl refl (omega arith) (omega arith)

put_drifts_example :
    ((Cache.put one_cached (an_id 1) (9 ∷ [])).entries ≡ one_cached.entries)
    × ((Cache.put one_cached (an_id 1) (9 ∷ [])).total ≡ bytes one_cached.entries + 1)
unfolding find_block slice_eq
put_drifts_example =
    put_drifts one_cached (an_id 1) (9 ∷ []) (1 ∷ 2 ∷ 3 ∷ []) refl refl (omega arith) (omega arith)
