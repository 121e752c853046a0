-- ===== src/Tree/Iterator/Skip.antt =====
-- tree_iterator_impl.cpp: skip and operator==, with the checks of tree_iterator.cpp.
use libbruce.Base.{
  ℕ, zero, suc, ◌+◌, ◌^◌, [], ◌∷◌, none, some, get_elem?, if◌then◌else◌, Bool, true, false, not,
  ◌&&◌, err, null_node, invalid_iterator, ltb, leb, ◌==◌, length,
}
use libbruce.Memory.{wrap32}
use libbruce.Functions.{TreeFunctions}
use libbruce.Overflow.{Overflow, absent, present}
use libbruce.Leaf.{LeafNode}
use libbruce.Tree.Leaf.{Fetch, Loads, ◌>>=◌, pure, fail}
use libbruce.Tree.Nodes.{Tree}
use libbruce.Tree.Find.{Fork, TreePath, fork, seek, rank}
use libbruce.Tree.Iterator.{is_valid}

-- The sign of an `int` as its 32-bit pattern
abbrev pub is_negative : ℕ → Bool
is_negative n = leb (2 ^ 31) n

-- The part of `skip` in a leaf: the path with its last index moved, and whether that is all. An
-- iterator that meets the end first stays there.
unfoldable pub skip_in_leaf : LeafNode → Fork → ℕ → Fork × Bool
skip_in_leaf leaf f n =
    if is_negative n
    then (f, false)
    else if leb (f.index + n) (length leaf.pairs)
    then (fork f.bounds (f.index + n), true)
    else (fork f.bounds (length leaf.pairs), false)

-- The part of `skip` in an overflow block: only a move to the index 0 is taken.
unfoldable pub skip_in_overflow : Overflow → TreePath → ℕ → TreePath × Bool
skip_in_overflow (absent c id) path n = (path, false)
skip_in_overflow (present c id values next) [] n = ([], false)
skip_in_overflow (present c id values next) (f ∷ []) n =
    let potential = wrap32 (f.index + n) in
    if potential == 0 && ltb potential (length values)
    then (fork f.bounds potential ∷ [], true)
    else (f ∷ [], false)
skip_in_overflow (present c id values next) (f ∷ g ∷ path) n =
    let r = skip_in_overflow next (g ∷ path) n in (f ∷ r.0, r.1)

-- The first part of `skip`: the path afterwards, and whether that is all.
unfoldable pub skip_here : (h : ℕ) → Tree h → TreePath → ℕ → TreePath × Bool
unfolding skip_in_leaf skip_in_overflow
skip_here h tree [] n = ([], false)
skip_here zero leaf (f ∷ []) n = let r = skip_in_leaf leaf f n in (r.0 ∷ [], r.1)
skip_here zero leaf (f ∷ g ∷ path) n =
    let r = skip_in_overflow leaf.overflow (g ∷ path) n in (f ∷ r.0, r.1)
skip_here (suc h) node (f ∷ path) n = elim (get_elem? node.branches f.index) [
  | none ↦ (f ∷ path, false)
  | some b ↦ elim b.child [
    | none ↦ (f ∷ path, false)
    | some c ↦ let r = skip_here h c path n in (f ∷ r.0, r.1)
  ]
]

module _ (fns : TreeFunctions) (fetch : Fetch) (chain : ℕ) where
  -- `checkValid` and `skip`, by an `int` as its 32-bit pattern. The rank is that of the path after
  -- the first part; an iterator that `seek` does not find is a null pointer that is read.
  unfoldable pub skip : (h : ℕ) → Tree h → TreePath → ℕ → Loads (TreePath × Tree h)
  unfolding is_valid skip_here rank seek
  skip h tree path n =
      let here = skip_here h tree path n in
      if not (is_valid h tree path)
      then fail (err invalid_iterator)
      else if here.1
      then pure (here.0, tree)
      else (rank fns fetch chain h tree here.0 >>= λ r.
          seek fns fetch chain h r.1 (wrap32 (r.0 + n)) >>= λ s. elim s.0 [
            | none ↦ fail (err null_node)
            | some path' ↦ pure (path', s.1)
          ])

-- `operator==` of two paths into one tree. The index of a leaf's fork is not that of its iterator:
-- it is 0 in every leaf.
unfoldable pub same_indices : TreePath → TreePath → Bool
same_indices [] [] = true
same_indices [] (g ∷ q) = false
same_indices (f ∷ p) [] = false
same_indices (f ∷ p) (g ∷ q) = let rest = same_indices p q in f.index == g.index && rest

unfoldable pub same_forks : ℕ → TreePath → TreePath → Bool
unfolding same_indices
same_forks h [] [] = true
same_forks h [] (g ∷ q) = false
same_forks h (f ∷ p) [] = false
same_forks zero (f ∷ p) (g ∷ q) = same_indices p q
same_forks (suc h) (f ∷ p) (g ∷ q) = let rest = same_forks h p q in f.index == g.index && rest

-- `tree_iterator_unsafe::operator==`
unfoldable pub is_same : (h : ℕ) → Tree h → TreePath → TreePath → Bool
unfolding is_valid same_forks
is_same h tree p q =
    if is_valid h tree p
    then (if is_valid h tree q then same_forks h p q else false)
    else not (is_valid h tree q)
