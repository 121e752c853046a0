-- ===== src/Registry.antt =====
-- util/be_registry.h and util/be_registry.cpp: the spec of a block engine, and the factory that its
-- scheme names. Text is its character codes; boost::lexical_cast and the factories are parameters.
use libbruce.Base.{
  ℕ, zero, suc, ◌+◌, ◌-◌, ◌*◌, Option, none, some, List, [], ◌∷◌, ◌++◌, take, drop, length,
  if◌then◌else◌, Bool, Result, ok, err, ◌>>=◌, no_scheme, bad_lexical_cast, no_engine,
}
use libbruce.Memory.{same_bytes, sub64}

-- `std::string`
abbrev pub Text : Type 0
Text = List ℕ

-- Whether a text begins with another.
unfoldable pub begins_with : Text → Text → Bool
begins_with pattern text = same_bytes pattern (take (length pattern) text)

-- `find(pattern, ...)` in the text from the position `at` on.
unfoldable pub find_in : Text → ℕ → Text → Option ℕ
unfolding begins_with
find_in pattern at [] = none
find_in pattern at (c ∷ cs) =
    let rest = find_in pattern (at + 1) cs in if begins_with pattern (c ∷ cs) then some at else rest

-- `spec.find(pattern, at)`
unfoldable pub find_from : Text → Text → ℕ → Option ℕ
unfolding find_in
find_from spec pattern at = find_in pattern at (drop at spec)

-- `substr`
abbrev pub substr : Text → ℕ → ℕ → Text
substr text at n = take n (drop at text)

-- `options_t`, with one entry for a key
abbrev pub Options : Type 0
Options = List (Text × Text)

unfoldable pub set_option : Text → Text → Options → Options
set_option key value [] = (key, value) ∷ []
set_option key value (o ∷ os) =
    let rest = o ∷ set_option key value os in if same_bytes o.0 key then (key, value) ∷ os else rest

unfoldable pub find_option : Text → Options → Option Text
find_option key [] = none
find_option key (o ∷ os) =
    let rest = find_option key os in if same_bytes o.0 key then some o.1 else rest

-- The loop of `parse_spec` from a semicolon on. A position that is not found is the greatest
-- `size_t` as a length, so the rest of the text is taken; `next_semi` is passed where a length is
-- asked.
unfoldable pub parse_options : ℕ → Text → Option ℕ → Options → Options
unfolding find_from set_option
parse_options zero spec semi options = options
parse_options (suc fuel) spec none options = options
parse_options (suc fuel) spec (some semi) options =
    let next_semi = find_from spec (59 ∷ []) (semi + 1) in
    elim (find_from spec (61 ∷ []) (semi + 1)) [
      | none ↦ parse_options fuel spec next_semi options
      | some equals ↦
          let key = substr spec (semi + 1) (equals - semi - 1) in
          let value =
            substr spec (equals + 1) (elim next_semi [ none ↦ length spec | some n ↦ n ]) in
          parse_options fuel spec next_semi (set_option key value options)
    ]

-- `spec_parts`
pub record SpecParts : Type 0 where
  pub scheme : Text
  pub location : Text
  pub block_size : ℕ
  pub queue_size : ℕ
  pub options : Options

module _ (lexical_cast : Text → Option ℕ) where
  -- `options_t::get`
  unfoldable pub get_option : Options → Text → ℕ → Result ℕ
  unfolding find_option
  get_option options key default = elim (find_option key options) [
    | none ↦ ok default
    | some text ↦ elim (lexical_cast text) [ none ↦ err bad_lexical_cast | some n ↦ ok n ]
  ]

  -- `parse_spec`; each turn of its loop is at a later semicolon.
  unfoldable pub parse_spec : Text → Result SpecParts
  unfolding find_from parse_options get_option
  parse_spec spec = elim (find_from spec (58 ∷ 47 ∷ 47 ∷ []) 0) [
    | none ↦ err no_scheme
    | some slash ↦
        let semi = find_from spec (59 ∷ []) 0 in
        let options = parse_options (suc (length spec)) spec semi [] in
        let location_size : ℕ = elim semi [ none ↦ length spec | some n ↦ sub64 n (slash + 3) ] in
        get_option options (98 ∷ 115 ∷ []) (1024 * 1024) >>= λ block_size.
        get_option options (113 ∷ 115 ∷ []) (256 * 1024) >>= λ queue_size. ok (record {
          scheme = take slash spec;
          location = substr spec (slash + 3) location_size;
          block_size = block_size;
          queue_size = queue_size;
          options = options;
        })
  ]

-- `factory_rec`, for engines of a type `E`
pub record FactoryRec (E : Type 0) : Type 0 where
  pub scheme : Text
  pub factory : Text → ℕ → ℕ → Options → Result E

module _ {E : Type 0} where
  -- `register_be_factory`
  unfoldable pub register_be_factory : List (FactoryRec E) → FactoryRec E → List (FactoryRec E)
  register_be_factory factories rec = factories ++ rec ∷ []

  -- The loop of `create_be`
  unfoldable pub make_engine : List (FactoryRec E) → SpecParts → Result E
  make_engine [] parts = err no_engine
  make_engine (rec ∷ recs) parts =
      let rest = make_engine recs parts in
      if same_bytes rec.scheme parts.scheme
      then rec.factory parts.location parts.block_size parts.queue_size parts.options
      else rest

  -- `create_be`
  unfoldable pub create_be : (Text → Option ℕ) → List (FactoryRec E) → Text → Result E
  unfolding parse_spec make_engine
  create_be lexical_cast factories spec =
      parse_spec lexical_cast spec >>= λ parts. make_engine factories parts
