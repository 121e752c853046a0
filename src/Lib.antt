-- ===== src/Lib.antt =====
-- libbruce keeps an immutable B-tree of key/value pairs in blocks of a block engine. A tree is edited
-- in memory: leaves hold sorted pairs, the values of a last key that do not fit go to a chain of
-- overflow blocks, and inner nodes queue edits that are applied to the leaves below when the queue is
-- full. Writing splits the nodes that are larger than a block, serializes the changed nodes, and
-- gives a mutation that names the blocks created and made obsolete.
--
-- Paths are from the repository's root; src/ stands for src/libbruce/src and include/ for
-- src/libbruce/include/libbruce.
--
-- - Memory, Functions: memslice, nodeid_t, tree_functions and the order of keys (include/memslice.h,
--   include/types.h, src/priv_types.h). A slice is the list of its bytes. The comparators are the
--   client's; IsLawful says that they are a total order in which equal keys have equal bytes.
-- - Overflow, Edit: overflow_t and pending_edit (src/nodes.h, src/nodes.cpp, src/overflow_node.cpp).
-- - Leaf: LeafNode with insert, erase, update_value, find and findRange (src/leaf_node.h,
--   src/leaf_node.cpp). Leaf.Merge is applyAll; Leaf.Merge.Refines is the multiset of pairs that
--   the edits act on one after another.
-- - Internal: InternalNode, itemCount, FindInternalKey and FindShallowestInternalKey
--   (src/internal_node.h, src/internal_node.cpp), over any type of children.
-- - Page: NodeSize and its kin in Page.Sizes, the serializers in Page.Write, the parser with its
--   errors in Page.Read, the round trips in Page.RoundTrip (src/serializing.h, src/serializing.cpp).
-- - Tree: tree_impl (src/tree_impl.cpp). Tree.Split is maybeSplitLeaf, LeafNodeSize and
--   pushDownOverflowNodeSize; Tree.Leaf is leafInsert, leafRemove, overflowInsert, overflowRemove and
--   overflowPull, with the ids of loaded blocks passed along; Tree.Inner is maybeSplitInternal,
--   updateBranch, findPendingEdits and the sums over pending edits; Tree.Apply is validateKVSize and
--   apply to one node. Tree.Nodes is load, child and apply over trees whose leaves are at one height,
--   Tree.Pending travelDown, applyPendingEdits and pendingRankDelta, Tree.Find find, begin, seek and
--   rank over paths of forks, Tree.Iterator the iterators (src/tree_iterator_impl.cpp,
--   src/tree_iterator.cpp), Tree.Flush maybeApplyEdits, flushAndSplitRec and the growth of the root,
--   Tree.Collect collectBlocksRec, and Tree.Impl the object with root, the edits, get and write.
--   Tree.Written is write over the engine in memory (Blocks.Numbered, Kept and Done), of trees that
--   the flush leaves as they are (Tree.Flush.Fits). An object keeps the blocks of its earlier writes.
-- - Blocks: the engine in memory (include/be/be.h, include/be/mem.h, src/be/mem.cpp).
-- - Mutation: mutation, collectMutation and finish_mutation (include/mutation.h, src/mutation.cpp,
--   src/bruce.cpp, src/tree_impl.cpp), the latter over any engine that marks deletions or throws.
-- - Disk: the engine on disk (include/be/disk.h, src/be/disk.cpp), over a map of files.
-- - Registry: parse_spec and create_be (include/util/be_registry.h, src/util/be_registry.cpp), with
--   lexical_cast and the factories as parameters.
-- - Ids, Pool, Traits: the text of ids (src/types.cpp), mempool (include/mempool.h, src/mempool.cpp) and
--   the conversions of keys and values (include/traits.h).
-- - Cache: BlockCache (include/util/blockcache.h, src/util/blockcache.cpp).
-- - Bkv: the loops of queryKey and fullScan (src/bkv/src/bkv.cpp), as the list of pairs that they print;
--   their fuel is above the number of pairs. The tree of the query is an argument of theirs.
--
-- Numbers are natural numbers; size_t and uint32_t arithmetic is written with its remainder by
-- 2 ^ 64 and 2 ^ 32. A call that throws, fails an assertion, or leaves what the language defines gives
-- an error of Base.Outcome. A node in memory has one owner, so shared pointers are values. An iterator
-- into a vector is an index from 0 to the length, and a step out of that range is an error: the one
-- before the end of an empty leaf in leafInsert, and the one past the end behind an erased last value in
-- overflowRemove. Over an erasure it keeps its index, as a pointer does, where the standard leaves it
-- invalid. std::lower_bound and std::upper_bound are the first place behind the part of a range for which
-- the test holds; on a range that the test does not divide, the standard promises nothing of them.
--
-- Fuel: push_down, maybe_split_leaf, maybe_split_internal, overflow_pull, overflow_remove, pull_all,
-- leaf_insert and leaf_remove take a bound on their recursion. More than the number of values, pairs
-- or branches is enough for the first three, and the number of blocks of the chain for overflow_pull.
-- A whole tree needs none: the height of its leaves is known, a node's operations are those of its
-- children below (NodeOps), and a stored block of another kind than the height asks is an error.
--
-- Base carries the shared lists, results and searches: Same says that two lists hold the same
-- elements equally often. Tests holds runs at concrete inputs.
--
-- Not modelled: printing of nodes, reference counts of memory pages, the engine on S3, SHA-1 itself
-- (assembly), and the command line tools but for two loops of bkv. What is left of an object after a
-- call that throws is not modelled: such a call gives the error alone.
pub mod Base
pub mod Memory
pub mod Functions
pub mod Overflow
pub mod Edit
pub mod Leaf
pub mod Internal
pub mod Page
pub mod Tree
pub mod Blocks
pub mod Mutation
pub mod Cache
pub mod Ids
pub mod Disk
pub mod Pool
pub mod Registry
pub mod Traits
pub mod Bkv
mod Tests
