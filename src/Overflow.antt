-- ===== src/Overflow.antt =====
-- overflow_t of nodes.h, overflow_node.h and overflow_node.cpp: the chain of blocks that hold
-- further values of a leaf's last key.
use libbruce.Base.{ℕ, ◌+◌, Bool, List, replicate, length, ◌==◌, if◌then◌else◌}
use libbruce.Memory.{Slice, NodeId, wrap32}

abbrev pub null_id : NodeId
null_id = replicate 20 0

-- `overflow_t`: a count, a block id, and the node (its values and its own `next`) once it is in
-- memory. A node has one owner, so it is a value here and no address.
pub data Overflow : Type 0 where
  absent : ℕ → NodeId → Overflow
  present : ℕ → NodeId → List Slice → Overflow → Overflow

-- `overflow_t::overflow_t`
abbrev pub no_overflow : Overflow
no_overflow = absent 0 null_id

abbrev pub count : Overflow → ℕ
count (absent c id) = c
count (present c id values next) = c

abbrev pub node_id : Overflow → NodeId
node_id (absent c id) = id
node_id (present c id values next) = id

-- `overflow_t::empty`
abbrev pub is_empty : Overflow → Bool
is_empty o = count o == 0

-- `OverflowNode::itemCount`: an `itemcount_t`, so it wraps at 2 ^ 32.
unfoldable pub item_count : List Slice → Overflow → ℕ
item_count values next = wrap32 (count next + length values)

-- `LeafNode::setOverflow` and `OverflowNode::setNext` give the record that owns a new node.
unfoldable pub own : NodeId → List Slice → Overflow → Overflow
unfolding item_count
own id values next =
    if item_count values next == 0
    then absent 0 id
    else present (item_count values next) id values next
