-- ===== src/Base/Outcome.antt =====
-- What a C++ call can do: return, throw, or go beyond what the language defines.

-- The exceptions and faults of the modelled code. The text of a message is not modelled.
pub data Error : Type 0 where
  -- std::runtime_error of the parser: "End of block", "Trailing bytes", "Unknown node type"
  end_of_block trailing_bytes unknown_node_type : Error
  -- std::runtime_error and be_error of the engines and the registry
  block_not_found block_too_large read_only no_scheme bad_lexical_cast no_engine : Error
  -- std::runtime_error of the tree
  kv_too_large block_too_small invalid_iterator : Error
  -- std::runtime_error of traits.h: "Type sizes not equal"
  sizes_differ : Error
  -- std::runtime_error of the engine on disk, with the text of errno or its own
  open_failed : Error
  -- a read or a write outside its buffer, an iterator used outside its range, a failed `assert`
  out_of_range assertion_failed : Error
  -- a use of a `node_ptr` that is null
  null_node : Error
  -- a recursion that went on for longer than the model's fuel
  out_of_fuel : Error

-- What a call gives back, or how it ends early.
pub data Result {ℓ} (A : Type ℓ) : Type ℓ where
  err : Error → Result A
  ok : A → Result A

infixl 5 ◌>>=◌
-- The statement after one that can throw.
abbrev pub ◌>>=◌ {ℓ} : {A B : Type ℓ} → Result A → (A → Result B) → Result B
(err fault) >>= next = err fault
(ok value) >>= next = next value
