-- ===== src/Blocks/Done.antt =====
-- be/mem.cpp: a write of blocks that are small enough puts them all and marks them as written.
use libbruce.Base.{
  ℕ, ◌++◌, ◌≤◌, ◌≡◌, refl, sym, ap, ◌∙◌, inl, inr, false, Bool-cases, List, [], ◌∷◌, arith, ltb,
  All, length, map, ok,
}
use libbruce.Memory.{NodeId}
use libbruce.Page.{Page}
use libbruce.Blocks.{PutBlock, MemEngine, set_block, put_all}
use libbruce.Blocks.Numbered.{put_one}
use libbruce.Mutation.Finish.{written, any_failed}

-- Blocks that are no larger than what the engine takes.
abbrev pub AreSmall : ℕ → List PutBlock → Type 0
AreSmall max bs = All (λ b. length b.mem ≤ max) bs

pub not_larger : (max n : ℕ) → n ≤ max → ltb max n ≡ false
not_larger max n h = elim (Bool-cases (ltb max n)) [
  | inl e ↦ absurd (ground (arith, e, h))
  | inr e ↦ e
]

-- Such blocks are all put, and marked as written.
pub put_all-done :
    (e : MemEngine) (bs : List PutBlock)
    → AreSmall e.max_block_size bs
    → ((put_all e bs).2 ≡ ok tt)
      × (written (put_all e bs).1 ≡ map (λ b. b.id) bs)
      × (any_failed (put_all e bs).1 ≡ false)
unfolding put_all
put_all-done e [] small = (refl, refl, refl)
put_all-done e (b ∷ bs) (h, small) =
    let rest = put_all-done (record e { blocks = set_block b.id b.mem e.blocks }) bs small in
    rw (not_larger e.max_block_size (length b.mem) h) (rest.0, ap (◌∷◌ b.id) rest.1, rest.2)

-- What holds of the ids and the pages holds after they are marked as written.
pub put_all-marks :
    (P : NodeId → Page → Type 0) (e : MemEngine) (bs : List PutBlock)
    → All (λ b. P b.id b.mem) bs
    → All (λ b. P b.id b.mem) (put_all e bs).1
unfolding put_all
put_all-marks P e [] all = tt
put_all-marks P e (b ∷ bs) (h, all) = elim (Bool-cases (ltb e.max_block_size (length b.mem))) [
  | inl t ↦ rw t (h, all)
  | inr t ↦ rw t (h, put_all-marks P (record e { blocks = set_block b.id b.mem e.blocks }) bs all)
]

pub put_all-max :
    (e : MemEngine) (bs : List PutBlock) → (put_all e bs).0.max_block_size ≡ e.max_block_size
unfolding put_all
put_all-max e [] = refl
put_all-max e (b ∷ bs) = elim (Bool-cases (ltb e.max_block_size (length b.mem))) [
  | inl t ↦ rw t refl
  | inr t ↦ rw t (put_all-max (record e { blocks = set_block b.id b.mem e.blocks }) bs)
]

-- Putting one list of blocks and then another.
pub put_all-append :
    (e : MemEngine) (bs cs : List PutBlock)
    → AreSmall e.max_block_size bs
    → (put_all e (bs ++ cs)).0 ≡ (put_all (put_all e bs).0 cs).0
unfolding put_all
put_all-append e [] cs small = refl
put_all-append e (b ∷ bs) cs (h, small) =
    let t = not_larger e.max_block_size (length b.mem) h in
    put_one e b (bs ++ cs) t
    ∙ put_all-append (record e { blocks = set_block b.id b.mem e.blocks }) bs cs small
    ∙ ap (λ f. (put_all f cs).0) (sym (put_one e b bs t))

abbrev pub ids_of : List PutBlock → List NodeId
ids_of bs = map (λ b. b.id) bs

pub ids_of-append : (bs cs : List PutBlock) → ids_of (bs ++ cs) ≡ ids_of bs ++ ids_of cs
ids_of-append [] cs = refl
ids_of-append (b ∷ bs) cs = ap (◌∷◌ b.id) (ids_of-append bs cs)
