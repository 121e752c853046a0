-- ===== src/Leaf/Merge/Refines/Loop.antt =====
-- `LeafNode::applyAll` refines its queue of edits.
use libbruce.Base.{List}
use libbruce.Leaf.{LeafNode}
use libbruce.Leaf.Merge.Refines.{count, Contents}

-- How often a pair occurs in a leaf.
abbrev pub view : LeafNode → Contents
view leaf p = count p leaf.pairs
