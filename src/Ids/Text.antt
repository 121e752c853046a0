-- ===== src/Ids/Text.antt =====
-- The text of an id is read back.
use libbruce.Base.{
  ℕ, ◌+◌, ◌*◌, ◌/◌, ◌%◌, ◌<◌, ◌≡◌, refl, ap, List, [], ◌∷◌, ◌++◌, length, All, some, arith,
}
use libbruce.Memory.{NodeId}
use libbruce.Ids.{digit, hdigit, print_id, parse_id}

hdigit-digit : (n : ℕ) → n < 16 → hdigit (digit n) ≡ n
unfolding hdigit digit
hdigit-digit n h = ground (arith, h)

-- Reading an id of bytes from its text, with any text behind it, gives the id and that text.
pub parse_id-print_id :
    (id : NodeId)
    → All (λ b. b < 256) id
    → (rest : List ℕ) → parse_id (length id) (print_id id ++ rest) ≡ some (id, rest)
unfolding parse_id print_id
parse_id-print_id [] h rest = refl
parse_id-print_id (b ∷ id) (small, h) rest =
    let high : hdigit (digit (b / 16)) ≡ b / 16 = hdigit-digit (b / 16) (omega (arith, small)) in
    let low : hdigit (digit (b % 16)) ≡ b % 16 = hdigit-digit (b % 16) (omega arith) in
    let byte : (hdigit (digit (b / 16)) * 16 + hdigit (digit (b % 16))) % 256 ≡ b =
      omega (arith, high, low, small) in
    rw (parse_id-print_id id h rest) (ap (λ x. some (x ∷ id, rest)) byte)
