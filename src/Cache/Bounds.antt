-- ===== src/Cache/Bounds.antt =====
-- How much the cache holds, and what it counts.
use libbruce.Base.{
  ℕ, ◌+◌, ◌^◌, ◌≤◌, ◌<◌, ◌≡◌, refl, sym, ap, ◌∙◌, inl, inr, false, Bool-cases, none, some, List, [],
  ◌∷◌, ◌++◌, arith, ltb, length, tally, tally-append,
}
use libbruce.Memory.{NodeId, wrap64, sub64, slice_eq, slice_eq_refl}
use libbruce.Page.{Page}
use libbruce.Blocks.{find_block}
use libbruce.Cache.{BlockCache, get, put, insert_new, evict}

-- The bytes of the blocks.
abbrev pub bytes : List (NodeId × Page) → ℕ
bytes es = tally (λ e. length e.1) es

-- The count is the size of the blocks that are there.
abbrev pub IsCounted : BlockCache → Type 0
IsCounted c = c.total ≡ bytes c.entries

evict-counted :
    (max_size total : ℕ) (es : List (NodeId × Page))
    → total ≡ bytes es
    → total < 2 ^ 64
    → ((evict max_size total es).1 ≡ bytes (evict max_size total es).0)
      × ((evict max_size total es).1 ≤ max_size)
unfolding evict
evict-counted max_size total [] h small = (h, omega (arith, h))
evict-counted max_size total (e ∷ es) h small = elim (Bool-cases (ltb max_size total)) [
  | inl b ↦
      rw b (
        evict-counted max_size (sub64 total (length e.1)) es (omega (arith, h, small))
          (omega arith))
  | inr b ↦ rw b (h, ground (arith, b))
]

-- The newest block stays if it fits alone.
evict-keeps :
    (max_size total : ℕ) (id : NodeId) (mem : Page) (es : List (NodeId × Page))
    → total ≡ bytes (es ++ (id, mem) ∷ [])
    → total < 2 ^ 64
    → length mem ≤ max_size
    → find_block id es ≡ none
    → find_block id (evict max_size total (es ++ (id, mem) ∷ [])).0 ≡ some mem
unfolding evict find_block
evict-keeps max_size total id mem [] h small fits absent =
    let stays : ltb max_size total ≡ false = ground (arith, h, fits) in
    rw stays (rw (slice_eq_refl id) refl)
evict-keeps max_size total id mem (e ∷ es) h small fits absent =
    elim (Bool-cases (slice_eq e.0 id)) [
      | inl s ↦ absurd (some_none e.1 (sym (rw s refl) ∙ absent))
      | inr s ↦
          let absent' : find_block id es ≡ none = sym (rw s refl) ∙ absent in
          elim (Bool-cases (ltb max_size total)) [
            | inl b ↦ rw b (
                evict-keeps max_size (sub64 total (length e.1)) id mem es (omega (arith, h, small))
                  (omega arith) fits absent')
            | inr b ↦ rw b (rw s (find_last es absent'))
          ]
    ]
  where
    some_none : (p : Page) → some p ≡ none → ⊥
    some_none p h = cc

    find_last :
        (xs : List (NodeId × Page))
        → find_block id xs ≡ none
        → find_block id (xs ++ (id, mem) ∷ []) ≡ some mem
    find_last [] h = rw (slice_eq_refl id) refl
    find_last (x ∷ xs) h = elim (Bool-cases (slice_eq x.0 id)) [
      | inl s ↦ absurd (some_none x.1 (sym (rw s refl) ∙ h))
      | inr s ↦ rw s (find_last xs (sym (rw s refl) ∙ h))
    ]

inserted :
    (id : NodeId) (mem : Page) (es : List (NodeId × Page))
    → find_block id es ≡ none
    → insert_new id mem es ≡ es ++ (id, mem) ∷ []
unfolding insert_new
inserted id mem es h = rw (h, insert_new) refl

not_inserted :
    (id : NodeId) (mem page : Page) (es : List (NodeId × Page))
    → find_block id es ≡ some page
    → insert_new id mem es ≡ es
unfolding insert_new
not_inserted id mem page es h = rw (h, insert_new) refl

evict_stays :
    (max_size total : ℕ) (es : List (NodeId × Page))
    → total ≤ max_size
    → evict max_size total es ≡ (es, total)
unfolding evict
evict_stays max_size total [] h = refl
evict_stays max_size total (e ∷ es) h =
    let under : ltb max_size total ≡ false = ground (arith, h) in rw under refl

got :
    (c : BlockCache) (id : NodeId) (mem : Page)
    → find_block id c.entries ≡ some mem
    → (get c id).0 ≡ some mem
unfolding get
got c id mem h = rw (h, get) refl

module _ (c : BlockCache) (id : NodeId) (mem : Page) where
  put_new :
      find_block id c.entries ≡ none
      → c.total + length mem < 2 ^ 64
      → (put c id mem).entries
          ≡ (evict c.max_size (c.total + length mem) (c.entries ++ (id, mem) ∷ [])).0
        × (put c id mem).total
          ≡ (evict c.max_size (c.total + length mem) (c.entries ++ (id, mem) ∷ [])).1
  unfolding put
  put_new absent small =
      let low : wrap64 (c.total + length mem) ≡ c.total + length mem = omega (arith, small) in
      rw low (rw (inserted id mem c.entries absent) (refl, refl))

  sum_new : IsCounted c → c.total + length mem ≡ bytes (c.entries ++ (id, mem) ∷ [])
  sum_new counted =
      omega (arith, counted, tally-append (λ e. length e.1) c.entries ((id, mem) ∷ []))

  -- Putting a block under an id that is not there, in a cache that counts its blocks, with the sum of
  -- the sizes below 2 ^ 64, leaves the size of its blocks counted and at most the maximum.
  pub put-IsCounted :
      IsCounted c
      → find_block id c.entries ≡ none
      → c.total + length mem < 2 ^ 64
      → IsCounted (put c id mem) × (bytes (put c id mem).entries ≤ c.max_size)
  put-IsCounted counted absent small =
      let done =
        evict-counted c.max_size (c.total + length mem) (c.entries ++ (id, mem) ∷ [])
          (sum_new counted) small in
      let new = put_new absent small in
      (new.1 ∙ done.0 ∙ ap bytes (sym new.0), omega (arith, done.0, done.1, ap bytes new.0))

  -- A block that is put under an id that is not there, in a cache that counts its blocks, with the sum
  -- of the sizes below 2 ^ 64, can be got if it is not larger than the maximum, whatever is evicted.
  pub get-put :
      IsCounted c
      → find_block id c.entries ≡ none
      → c.total + length mem < 2 ^ 64
      → length mem ≤ c.max_size
      → (get (put c id mem) id).0 ≡ some mem
  get-put counted absent small fits = got (put c id mem) id mem (
      ap (find_block id) (put_new absent small).0
      ∙ evict-keeps c.max_size (c.total + length mem) id mem c.entries (sum_new counted) small fits
          absent)

  -- Putting a block under an id that is there, within the maximum and below 2 ^ 64, in a cache that
  -- counts its blocks, changes no block but counts the new one: the count is more than the size of the
  -- blocks by the new block's.
  pub put_drifts :
      (page : Page)
      → IsCounted c
      → find_block id c.entries ≡ some page
      → c.total + length mem < 2 ^ 64
      → c.total + length mem ≤ c.max_size
      → ((put c id mem).entries ≡ c.entries) × ((put c id mem).total ≡ bytes c.entries + length mem)
  unfolding put
  put_drifts page counted there small fits =
      let low : wrap64 (c.total + length mem) ≡ c.total + length mem = omega (arith, small) in
      rw low (
        rw (not_inserted id mem page c.entries there) (
          rw (evict_stays c.max_size (c.total + length mem) c.entries fits)
            (refl, omega (arith, counted))))
