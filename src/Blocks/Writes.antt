-- ===== src/Blocks/Writes.antt =====
-- What is written to the engine in memory can be read back, and what is deleted cannot.
use libbruce.Base.{
  ℕ, ◌^◌, ◌<◌, ◌≡◌, ◌≢◌, refl, sym, ap, ◌∙◌, inl, inr, false, Bool-cases, Option-cases, none, some,
  List, [], ◌∷◌, ◌++◌, arith, ltb, All, take, take-append, length, replicate, ok, err,
  block_not_found, block_too_large, Result,
}
use libbruce.Memory.{NodeId, slice_eq, slice_eq→eq, slice_eq_refl, slice_eq-ne}
use libbruce.Page.{Page, encode, decode}
use libbruce.Page.RoundTrip.{length-encode, decode-encode}
use libbruce.Blocks.{
  PutBlock, DelBlock, MemEngine, find_block, set_block, erase_block, numbered_id, new_id, get,
  put_all, del_all,
}

find_block-set_block :
    (id : NodeId) (mem : Page) (bs : List (NodeId × Page))
    → find_block id (set_block id mem bs) ≡ some mem
unfolding find_block set_block
find_block-set_block id mem [] = rw (slice_eq_refl id) refl
find_block-set_block id mem (b ∷ bs) = elim (Bool-cases (slice_eq b.0 id)) [
  | inl e ↦ rw e (rw (slice_eq_refl id) refl)
  | inr e ↦ rw e (rw e (find_block-set_block id mem bs))
]

find_block-set_other :
    (id other : NodeId) (mem : Page) (bs : List (NodeId × Page))
    → id ≢ other
    → find_block other (set_block id mem bs) ≡ find_block other bs
unfolding find_block set_block
find_block-set_other id other mem [] h = rw (slice_eq-ne id other h) refl
find_block-set_other id other mem (b ∷ bs) h = elim (Bool-cases (slice_eq b.0 id)) [
  | inl e ↦
      let same : slice_eq b.0 other ≡ false =
        slice_eq-ne b.0 other (λ x. h (sym (slice_eq→eq b.0 id e) ∙ x)) in
      rw e (rw same (rw (slice_eq-ne id other h) refl))
  | inr e ↦ rw e (rw (find_block-set_other id other mem bs h) refl)
]

find_block-erase_block :
    (id : NodeId) (bs : List (NodeId × Page)) → find_block id (erase_block id bs) ≡ none
unfolding find_block erase_block
find_block-erase_block id [] = refl
find_block-erase_block id (b ∷ bs) = elim (Bool-cases (slice_eq b.0 id)) [
  | inl e ↦ rw e (find_block-erase_block id bs)
  | inr e ↦ rw e (rw e (find_block-erase_block id bs))
]

find_block-erase_none :
    (id other : NodeId) (bs : List (NodeId × Page))
    → find_block other bs ≡ none
    → find_block other (erase_block id bs) ≡ none
unfolding find_block erase_block
find_block-erase_none id other [] h = refl
find_block-erase_none id other (b ∷ bs) h = elim (Bool-cases (slice_eq b.0 other)) [
  | inl e ↦ absurd (cc_none b.1 (sym (rw e refl) ∙ h))
  | inr e ↦
      let rest = find_block-erase_none id other bs (sym (rw e refl) ∙ h) in
      elim (Bool-cases (slice_eq b.0 id)) [ inl f ↦ rw f rest | inr f ↦ rw f (rw e rest) ]
]
  where
    cc_none : (p : Page) → some p ≡ none → ⊥
    cc_none p h = cc

pub get_set :
    (e : MemEngine) (b : PutBlock) (other : NodeId)
    → b.id ≢ other
    → get (record e { blocks = set_block b.id b.mem e.blocks }) other ≡ get e other
unfolding get
get_set e b other h = rw (find_block-set_other b.id other b.mem e.blocks h, get) refl

pub get_same :
    (e : MemEngine) (b : PutBlock)
    → get (record e { blocks = set_block b.id b.mem e.blocks }) b.id ≡ ok b.mem
unfolding get
get_same e b = rw (find_block-set_block b.id b.mem e.blocks, get) refl

pub thrown : ◌≡◌ {A = Result (Unit {0})} (err block_too_large) (ok tt) → ⊥
thrown h = cc

-- A block whose id is not written keeps its page, whether the write succeeds or fails.
pub get-put_all_other :
    (e : MemEngine) (bs : List PutBlock) (other : NodeId)
    → All (λ b. b.id ≢ other) bs
    → get (put_all e bs).0 other ≡ get e other
unfolding put_all
get-put_all_other e [] other h = refl
get-put_all_other e (b ∷ bs) other h = elim (Bool-cases (ltb e.max_block_size (length b.mem))) [
  | inl t ↦ rw t refl
  | inr t ↦
      let after = record e { blocks = set_block b.id b.mem e.blocks } in
      rw t (get-put_all_other after bs other h.1 ∙ get_set e b other h.0)
]

-- After a write that succeeds, the engine gives back the page of every block that no later block
-- of the list replaces.
pub get-put_all :
    (e : MemEngine) (front : List PutBlock) (b : PutBlock) (back : List PutBlock)
    → (put_all e (front ++ b ∷ back)).2 ≡ ok tt
    → All (λ x. x.id ≢ b.id) back
    → get (put_all e (front ++ b ∷ back)).0 b.id ≡ ok b.mem
unfolding put_all
get-put_all e [] b back done h = elim (Bool-cases (ltb e.max_block_size (length b.mem))) [
  | inl t ↦ absurd (thrown (sym (rw t refl) ∙ done))
  | inr t ↦
      let after = record e { blocks = set_block b.id b.mem e.blocks } in
      rw t (get-put_all_other after back b.id h ∙ get_same e b)
]
get-put_all e (f ∷ front) b back done h = elim (Bool-cases (ltb e.max_block_size (length f.mem))) [
  | inl t ↦ absurd (thrown (sym (rw t refl) ∙ done))
  | inr t ↦ rw t (
      get-put_all (record e { blocks = set_block f.id f.mem e.blocks }) front b back
        (sym (rw t refl) ∙ done) h)
]

get_erased :
    (e : MemEngine) (id : NodeId) → find_block id e.blocks ≡ none → get e id ≡ err block_not_found
unfolding get
get_erased e id h = rw (h, get) refl

del_missing :
    (e : MemEngine) (d : DelBlock) (ds : List DelBlock)
    → find_block d.id e.blocks ≡ none
    → (del_all e (d ∷ ds)).0 ≡ (del_all e ds).0
unfolding del_all
del_missing e d ds h = rw (h, del_all) refl

del_found :
    (e : MemEngine) (d : DelBlock) (ds : List DelBlock) (p : Page)
    → find_block d.id e.blocks ≡ some p
    → (del_all e (d ∷ ds)).0 ≡ (del_all (record e { blocks = erase_block d.id e.blocks }) ds).0
unfolding del_all
del_found e d ds p h = rw (h, del_all) refl

del_all-none :
    (e : MemEngine) (ds : List DelBlock) (id : NodeId)
    → find_block id e.blocks ≡ none
    → find_block id (del_all e ds).0.blocks ≡ none
unfolding del_all
del_all-none e [] id h = h
del_all-none e (d ∷ ds) id h = elim (Option-cases (find_block d.id e.blocks)) [
  | inl n ↦ ap (λ x. find_block id x.blocks) (del_missing e d ds n) ∙ del_all-none e ds id h
  | inr s ↦
      ap (λ x. find_block id x.blocks) (del_found e d ds s.0 s.1)
      ∙ del_all-none (record e { blocks = erase_block d.id e.blocks }) ds id
          (find_block-erase_none d.id id e.blocks h)
]

deleted :
    (e : MemEngine) (front : List DelBlock) (d : DelBlock) (back : List DelBlock)
    → find_block d.id (del_all e (front ++ d ∷ back)).0.blocks ≡ none
deleted e [] d back = elim (Option-cases (find_block d.id e.blocks)) [
  | inl n ↦ ap (λ x. find_block d.id x.blocks) (del_missing e d back n) ∙ del_all-none e back d.id n
  | inr s ↦
      ap (λ x. find_block d.id x.blocks) (del_found e d back s.0 s.1)
      ∙ del_all-none (record e { blocks = erase_block d.id e.blocks }) back d.id
          (find_block-erase_block d.id e.blocks)
]
deleted e (f ∷ front) d back = elim (Option-cases (find_block f.id e.blocks)) [
  | inl n ↦
      ap (λ x. find_block d.id x.blocks) (del_missing e f (front ++ d ∷ back) n)
      ∙ deleted e front d back
  | inr s ↦
      ap (λ x. find_block d.id x.blocks) (del_found e f (front ++ d ∷ back) s.0 s.1)
      ∙ deleted (record e { blocks = erase_block f.id e.blocks }) front d back
]

-- After a deletion none of the ids of the list can be read, whether it was there or not.
pub get-del_all :
    (e : MemEngine) (front : List DelBlock) (d : DelBlock) (back : List DelBlock)
    → get (del_all e (front ++ d ∷ back)).0 d.id ≡ err block_not_found
get-del_all e front d back =
    get_erased (del_all e (front ++ d ∷ back)).0 d.id (deleted e front d back)

pub numbered_id-injective :
    (m n : ℕ) → m < 2 ^ 64 → n < 2 ^ 64 → numbered_id m ≡ numbered_id n → m ≡ n
unfolding numbered_id
numbered_id-injective m n hm hn e =
    let bytes_m = take-append (encode 8 m) (replicate 12 0) 8 (omega (arith, length-encode 8 m)) in
    let bytes_n = take-append (encode 8 n) (replicate 12 0) 8 (omega (arith, length-encode 8 n)) in
    sym (decode-encode 8 m (omega (arith, hm)))
    ∙ ap decode (sym bytes_m ∙ ap (take 8) e ∙ bytes_n)
    ∙ decode-encode 8 n (omega (arith, hn))

-- Two blocks that an engine numbers at different counters, below the wrap of a `size_t`, have
-- different ids.
pub new_id-ne :
    (e f : MemEngine)
    → e.counter < 2 ^ 64
    → f.counter < 2 ^ 64
    → e.counter ≢ f.counter
    → (new_id e).0 ≢ (new_id f).0
unfolding new_id
new_id-ne e f he hf ne h = ne (numbered_id-injective e.counter f.counter he hf h)
