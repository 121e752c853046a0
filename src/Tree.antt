-- ===== src/Tree.antt =====
-- tree_impl.cpp: the operations of a tree over its nodes.
pub mod Split
pub mod Leaf
pub mod Inner
pub mod Apply
pub mod Nodes
pub mod Pending
pub mod Find
pub mod Iterator
pub mod Flush
pub mod Collect
pub mod Impl
pub mod Written
