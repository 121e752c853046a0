-- ===== src/Disk.antt =====
-- be/disk.h and be/disk.cpp: the engine that keeps every block in a file named by its id. The files
-- are a map from their paths; a file that cannot be opened for writing is a parameter, and so is
-- sha1_compress, which is assembly.
use libbruce.Base.{
  ℕ, zero, suc, ◌-◌, ◌*◌, Option, none, some, List, [], ◌∷◌, ◌++◌, reverse, take, drop, length,
  replicate, if◌then◌else◌, Bool, true, Result, ok, err, ◌>>=◌, read_only, open_failed, leb, ◌==◌,
}
use libbruce.Memory.{NodeId}
use libbruce.Page.{Page, encode}
use libbruce.Ids.{print_id}
use libbruce.Blocks.{PutBlock, DelBlock, set_block, find_block, erase_block}

-- `uint32_t hash[5]`
abbrev pub Hash : Type 0
Hash = List ℕ

abbrev pub first_hash : Hash
first_hash = 1732584193 ∷ 4023233417 ∷ 2562383102 ∷ 271733878 ∷ 3285377520 ∷ []

module _ (compress : Hash → List ℕ → Hash) where
  -- The loop of `sha1_hash`: the hash, and the bytes that are left.
  unfoldable pub hash_blocks : ℕ → Hash → List ℕ → Hash × List ℕ
  hash_blocks zero hash bytes = (hash, bytes)
  hash_blocks (suc fuel) hash bytes =
      let rest = hash_blocks fuel (compress hash (take 64 bytes)) (drop 64 bytes) in
      if leb 64 (length bytes) then rest else (hash, bytes)

  -- What `sha1_hash` does with the rest of fewer than 64 bytes: the end mark, the padding and the
  -- number of bits, highest byte first.
  unfoldable pub hash_rest : Hash → List ℕ → ℕ → Hash
  unfolding encode
  hash_rest hash bytes len =
      let marked = bytes ++ 128 ∷ [] in
      let bits = reverse (encode 8 (len * 8)) in
      if leb 8 (64 - length marked)
      then compress hash (marked ++ (replicate (56 - length marked) 0 ++ bits))
      else compress (compress hash (marked ++ replicate (64 - length marked) 0))
          (replicate 56 0 ++ bits)

  -- `sha1_hash`; the fuel of its loop is the length.
  unfoldable pub sha1_hash : List ℕ → Hash
  unfolding hash_blocks hash_rest
  sha1_hash bytes =
      let full = hash_blocks (length bytes) first_hash bytes in
      hash_rest full.0 full.1 (length bytes)

  -- The bytes of the five numbers, lowest byte first.
  unfoldable pub hash_bytes : Hash → List ℕ
  unfolding encode
  hash_bytes [] = []
  hash_bytes (n ∷ ns) = encode 4 n ++ hash_bytes ns

  -- `disk::id`
  unfoldable pub id : Page → NodeId
  unfolding sha1_hash hash_bytes
  id block = hash_bytes (sha1_hash block)

-- `disk`, with the files of its directory.
pub record Disk : Type 0 where
  pub path_prefix : List ℕ
  pub max_block_size : ℕ
  pub queue_size : ℕ
  pub files : List (List ℕ × Page)

-- The path of a block
unfoldable pub path_of : Disk → NodeId → List ℕ
unfolding print_id
path_of disk id = disk.path_prefix ++ print_id id

-- `disk::get`
unfoldable pub get : Disk → NodeId → Result Page
unfolding path_of find_block
get disk id = elim (find_block (path_of disk id) disk.files) [
  | none ↦ err open_failed
  | some p ↦ ok p
]

-- `disk::get_all`
unfoldable pub get_all : Disk → List NodeId → Result (List (NodeId × Page))
unfolding get set_block
get_all disk [] = ok []
get_all disk (id ∷ ids) =
    get disk id >>= λ page. get_all disk ids >>= λ rest. ok (set_block id page rest)

-- `write` from the start of a file that is there: what is longer is left.
unfoldable pub overwrite : Page → Option Page → Page
overwrite mem none = mem
overwrite mem (some old) = mem ++ drop (length mem) old

module _ (can_open : List ℕ → Bool) where
  -- `disk::put_one`
  unfoldable pub put_one : Disk → PutBlock → Result (Disk × PutBlock)
  unfolding path_of find_block set_block overwrite
  put_one disk b =
      let path = path_of disk b.id in
      if can_open path
      then ok (
        record disk {
          files = set_block path (overwrite b.mem (find_block path disk.files)) disk.files;
        },
        record b { success = true },
      )
      else err open_failed

  unfoldable pub put_each : Disk → List PutBlock → Disk × List PutBlock × Result (Unit {0})
  unfolding put_one
  put_each disk [] = (disk, [], ok tt)
  put_each disk (b ∷ bs) = elim (put_one disk b) [
    | err e ↦ (disk, b ∷ bs, err e)
    | ok r ↦ let rest = put_each r.0 bs in (rest.0, r.1 ∷ rest.1, rest.2)
  ]

  -- `disk::put_all`: what is written before an error stays.
  unfoldable pub put_all : Disk → List PutBlock → Disk × List PutBlock × Result (Unit {0})
  unfolding put_each
  put_all disk bs = if disk.max_block_size == 0 then (disk, bs, err read_only) else put_each disk bs

-- `disk::del_one`: the block counts as deleted also where its file is not there.
unfoldable pub del_one : Disk → DelBlock → Disk × DelBlock
unfolding path_of erase_block
del_one disk d = (
  record disk { files = erase_block (path_of disk d.id) disk.files },
  record d { success = true },
)

unfoldable pub del_each : Disk → List DelBlock → Disk × List DelBlock
unfolding del_one
del_each disk [] = (disk, [])
del_each disk (d ∷ ds) =
    let one = del_one disk d in let rest = del_each one.0 ds in (rest.0, one.1 ∷ rest.1)

-- `disk::del_all`
unfoldable pub del_all : Disk → List DelBlock → Result (Disk × List DelBlock)
unfolding del_each
del_all disk ds = if disk.max_block_size == 0 then err read_only else ok (del_each disk ds)
