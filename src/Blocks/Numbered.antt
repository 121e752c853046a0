-- ===== src/Blocks/Numbered.antt =====
-- be/mem.cpp: an engine in memory names blocks by a counter, so a write never touches the blocks of an
-- earlier one.
use libbruce.Base.{
  ℕ, suc, ◌+◌, ◌^◌, ◌<◌, ◌≤◌, ◌≡◌, ◌≢◌, refl, sym, ap, ◌∙◌, subst, inl, inr, false, Bool-cases,
  List, [], ◌∷◌, ◌++◌, arith, ltb, All, All-imp, length, ok,
}
use libbruce.Memory.{NodeId, wrap64, slice_eq}
use libbruce.Page.{Page}
use libbruce.Blocks.{PutBlock, MemEngine, set_block, numbered_id, get, put_all}
use libbruce.Blocks.Writes.{get_same, get-put_all_other, numbered_id-injective, thrown}

-- Blocks to put with the ids that a counter gives one after another, from `n` up to `m`.
abbrev pub IsRun : ℕ → List PutBlock → ℕ → Type 0
IsRun n [] m = n ≡ m
IsRun n (b ∷ bs) m = (b.id ≡ numbered_id n) × IsRun (wrap64 (n + 1)) bs m

pub IsRun-snoc :
    (n : ℕ) (bs : List PutBlock) (m : ℕ) (b : PutBlock)
    → IsRun n bs m
    → b.id ≡ numbered_id m
    → IsRun n (bs ++ b ∷ []) (wrap64 (m + 1))
IsRun-snoc n [] m b h e = (e ∙ ap numbered_id (sym h), ap (λ k. wrap64 (k + 1)) h)
IsRun-snoc n (c ∷ bs) m b (own, h) e = (own, IsRun-snoc (wrap64 (n + 1)) bs m b h e)

-- An id that the counter gives from `low` on and below `high`.
abbrev pub IsNumberIn : ℕ → ℕ → NodeId → Type 0
IsNumberIn low high id = (k : ℕ) × (low ≤ k) × (k < high) × (id ≡ numbered_id k)

pub IsNumberIn-ne :
    (a b c d : ℕ) (x y : NodeId) → b ≤ c → d < 2 ^ 64 → IsNumberIn a b x → IsNumberIn c d y → x ≢ y
IsNumberIn-ne a b c d x y h small (i, ai, ib, xi) (j, cj, jd, yj) e =
    let same : i ≡ j =
      numbered_id-injective i j (omega (arith, ib, h, cj, jd, small)) (omega (arith, jd, small))
        (sym xi ∙ e ∙ yj) in
    omega (arith, same, ib, h, cj)

next_number : (n k : ℕ) → n + suc k < 2 ^ 64 → wrap64 (n + 1) ≡ n + 1
next_number n k h = omega (arith, h)

-- Below the wrap, the ids of a run are the numbers from its start to its end.
pub IsRun-All :
    (n : ℕ) (bs : List PutBlock) (m : ℕ)
    → IsRun n bs m
    → n + length bs < 2 ^ 64
    → All (λ b. IsNumberIn n (n + length bs) b.id) bs × (m ≡ n + length bs)
IsRun-All n [] m h small = (tt, omega (arith, h))
IsRun-All n (b ∷ bs) m (own, h) small =
    let rest =
      IsRun-All (n + 1) bs m (subst (λ k. IsRun k bs m) (next_number n (length bs) small) h)
        (omega (arith, small)) in
    (
      (
        (n, omega arith, omega arith, own),
        All-imp (λ b. IsNumberIn (n + 1) (n + 1 + length bs) b.id)
            (λ b. IsNumberIn n (n + suc (length bs)) b.id)
            (λ b (k, low, high, e). (k, omega (arith, low), omega (arith, high), e)) bs rest.0,
      ),
      omega (arith, rest.1),
    )

-- An engine all of whose blocks have ids that the counter gave before.
abbrev pub IsNumbered : MemEngine → Type 0
IsNumbered e = All (λ b. IsNumberIn 0 e.counter b.0) e.blocks

pub set_block-All :
    (P : NodeId → Type 0) (id : NodeId) (mem : Page) (bs : List (NodeId × Page))
    → P id
    → All (λ b. P b.0) bs
    → All (λ b. P b.0) (set_block id mem bs)
unfolding set_block
set_block-All P id mem [] h all = (h, tt)
set_block-All P id mem (b ∷ bs) h all = elim (Bool-cases (slice_eq b.0 id)) [
  | inl e ↦ rw e (h, all.1)
  | inr e ↦ rw e (all.0, set_block-All P id mem bs h all.1)
]

pub put_all-All :
    (P : NodeId → Type 0) (e : MemEngine) (bs : List PutBlock)
    → All (λ b. P b.0) e.blocks
    → All (λ b. P b.id) bs
    → All (λ b. P b.0) (put_all e bs).0.blocks
unfolding put_all
put_all-All P e [] held all = held
put_all-All P e (b ∷ bs) held all = elim (Bool-cases (ltb e.max_block_size (length b.mem))) [
  | inl t ↦ rw t held
  | inr t ↦ rw t (
      put_all-All P (record e { blocks = set_block b.id b.mem e.blocks }) bs
        (set_block-All P b.id b.mem e.blocks all.0 held) all.1)
]

pub put_all-counter : (e : MemEngine) (bs : List PutBlock) → (put_all e bs).0.counter ≡ e.counter
unfolding put_all
put_all-counter e [] = refl
put_all-counter e (b ∷ bs) = elim (Bool-cases (ltb e.max_block_size (length b.mem))) [
  | inl t ↦ rw t refl
  | inr t ↦ rw t (put_all-counter (record e { blocks = set_block b.id b.mem e.blocks }) bs)
]

pub put_one :
    (e : MemEngine) (b : PutBlock) (bs : List PutBlock)
    → ltb e.max_block_size (length b.mem) ≡ false
    → (put_all e (b ∷ bs)).0 ≡ (put_all (record e { blocks = set_block b.id b.mem e.blocks }) bs).0
unfolding put_all
put_one e b bs t = rw t refl

-- The blocks of a run can all be got, once they are put.
pub put_all-holds :
    (e : MemEngine) (n : ℕ) (bs : List PutBlock) (m : ℕ)
    → IsRun n bs m
    → n + length bs < 2 ^ 64
    → (put_all e bs).2 ≡ ok tt
    → All (λ b. get (put_all e bs).0 b.id ≡ ok b.mem) bs
unfolding put_all
put_all-holds e n [] m run small done = tt
put_all-holds e n (b ∷ bs) m (own, run) small done =
    elim (Bool-cases (ltb e.max_block_size (length b.mem))) [
      | inl t ↦ absurd (thrown (sym (rw t refl) ∙ done))
      | inr t ↦
          let after = record e { blocks = set_block b.id b.mem e.blocks } in
          let later = subst (λ k. IsRun k bs m) (next_number n (length bs) small) run in
          let below : n + 1 + length bs < 2 ^ 64 = omega (arith, small) in
          let apart : All (λ x. x.id ≢ b.id) bs =
            All-imp (λ x. IsNumberIn (n + 1) (n + 1 + length bs) x.id) (λ x. x.id ≢ b.id)
              (λ x h same.
                IsNumberIn-ne n (n + 1) (n + 1) (n + 1 + length bs) b.id x.id (omega arith) below
                  (n, omega arith, omega arith, own) h (sym same))
              bs (IsRun-All (n + 1) bs m later below).0 in
          subst (λ f. All (λ x. get f x.id ≡ ok x.mem) (b ∷ bs)) (sym (put_one e b bs t))
            (
              get-put_all_other after bs b.id apart ∙ get_same e b,
              put_all-holds after (n + 1) bs m later below (sym (rw t refl) ∙ done),
            )
    ]

pub get-blocks : (e f : MemEngine) (id : NodeId) → e.blocks ≡ f.blocks → get e id ≡ get f id
unfolding get
get-blocks e f id h = rw (h, get) refl
