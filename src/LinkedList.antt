-- ===== src/LinkedList.antt =====
-- `__LinkedList` of include/core/linked_list.h: singly linked nodes on a heap. Store is the memory
-- and the pointers, Nodes the operations of a node, Base those of `ListBase`; Segments says what a
-- list stands for, Links and Unlinks prove the two ways to change one, Methods the operations; Queue
-- is the deque on them.
pub mod Store
pub mod Nodes
pub mod Base
pub mod Segments
pub mod Links
pub mod Unlinks
pub mod Methods
pub mod Queue
mod Tests
