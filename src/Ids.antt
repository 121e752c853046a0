-- ===== src/Ids.antt =====
-- types.cpp: the text of a block id, as its character codes.
pub mod Text
use libbruce.Base.{
  ℕ, zero, suc, ◌+◌, ◌-◌, ◌*◌, ◌/◌, ◌%◌, List, [], ◌∷◌, ◌++◌, leb, ◌&&◌, if◌then◌else◌, Result, ok,
  err, ◌>>=◌, end_of_block, Option, none, some,
}
use libbruce.Memory.{NodeId}

-- A digit of `%02X`
unfoldable pub digit : ℕ → ℕ
digit n = if leb n 9 then 48 + n else 55 + n

-- `operator<<`: two digits for every byte.
unfoldable pub print_id : NodeId → List ℕ
unfolding digit
print_id [] = []
print_id (b ∷ bs) = digit (b / 16) ∷ digit (b % 16) ∷ print_id bs

-- `HDIGIT`
unfoldable pub hdigit : ℕ → ℕ
hdigit c =
    if leb 48 c && leb c 57
    then c - 48
    else if leb 97 c && leb c 102
    then c - 97 + 10
    else if leb 65 c && leb c 70
    then c - 65 + 10
    else 0

-- The loop of `operator>>` for the `n` bytes that are left, on a text without white space: the id,
-- and the text behind it. Where the text ends, the stream fails and the byte that was read before
-- is kept, which is not modelled: there is no result.
unfoldable pub parse_id : ℕ → List ℕ → Option (NodeId × List ℕ)
unfolding hdigit
parse_id zero cs = some ([], cs)
parse_id (suc n) [] = none
parse_id (suc n) (h ∷ []) = none
parse_id (suc n) (h ∷ l ∷ cs) = elim (parse_id n cs) [
  | none ↦ none
  | some r ↦ some ((hdigit h * 16 + hdigit l) % 256 ∷ r.0, r.1)
]
