-- ===== src/Lib.antt =====
-- BusTub, the relational database of bustub-master/: a model of its storage engine and proofs about
-- it. Paths are from the repository's root.
--
-- The parts and the files that model them:
--   Buffer/Arc.antt: bustub-master/src/buffer/arc_replacer.cpp, `ArcReplacer`, which chooses the
--     frame to evict. One function per method; a method runs under the replacer's latch.
--   Buffer/Disk.antt: what the buffer pool asks of a disk manager, as a record of operations and
--     laws, and bustub-master/src/storage/disk/disk_manager_memory.cpp, which provides it.
--   Buffer/Pool.antt: bustub-master/src/buffer/buffer_pool_manager.cpp, `BufferPoolManager`, over
--     any disk manager with those laws and over the replacer. The invariant and the memory that a
--     pool stands for are in Buffer/Pool/Invariant.antt.
--   Buffer/Guard.antt: bustub-master/src/storage/page/page_guard.cpp, `ReadPageGuard` and
--     `WritePageGuard`: the steps of the threads that use the pool, and their interleavings.
--   Index/Leaf.antt, Index/Internal.antt: the pages of the B+ tree,
--     bustub-master/src/storage/page/b_plus_tree_leaf_page.cpp and b_plus_tree_internal_page.cpp.
--     Index/Arrays.antt has the loops over their arrays. The entries of a page are a list.
--   Index/Tree.antt: the tree over the pages, bustub-master/src/storage/index/b_plus_tree.cpp:
--     `GetValue` and the binary searches; Index/Tree/Insertion.antt has `Insert`, Removal.antt
--     and Repair.antt `Remove`, Iterator.antt the iterators of `Begin` and
--     bustub-master/src/storage/index/index_iterator.cpp. The pages are a map from page ids, the
--     comparator is a number `rank` for each key. Index/Tree/Shape.antt says what a well-formed
--     tree is: the range of keys, the level and the parent of every page. What `Insert` does to
--     such a tree is followed page by page: a new key in a leaf in Placing.antt, Filling.antt and
--     Growing.antt, the two parts of a page in Splitting.antt, Halves.antt and Parts.antt, the
--     parent that takes the new page in Linking.antt, Attaching.antt, Rooting.antt and
--     Parents.antt, the whole of it in Inserting.antt.
--   Storage/TablePage.antt: bustub-master/src/storage/page/table_page.cpp, the slotted page of a
--     table.
--   Primer/CountMin.antt: bustub-master/src/primer/count_min_sketch.cpp, which stands alone.
--   Concurrency/Watermark.antt: bustub-master/src/concurrency/watermark.cpp, the lowest read
--     timestamp; the transaction manager, its client, is not modelled.
--
-- The guards use the pool, the pool the replacer and the disk. The pages of the index are the bytes
-- that a guard gives access to; the two are not connected here.
--
-- The state of a component is a record, a call that may abort returns an `Outcome`, and what runs
-- under a latch is one step. `size_t` counters wrap at 2^64. A loop over a list is structural
-- recursion, so no fuel is needed; the binary search of an internal page has the page's size as
-- fuel, which is enough because every turn takes at least one element off the range. A descent in
-- the tree is on fuel that is more than its height, one for every level; without a height it does
-- not return. The bytes of a page are a parameter `Data`.
--
-- The slot counts of the arrays of a B+ tree page are parameters of `Insert`, which crashes where it
-- would write past an array; the pages' own operations have no such bound. The tree's pages always
-- find a free frame.
--
-- Not modelled: the SQL front end (binder, planner, optimizer, executors), the heaps of table
-- pages, the transaction manager, the recovery log, and the parts that the commit leaves
-- unimplemented. Of `Remove` in the tree the model has every step, but what its repairs do to the
-- tree as a whole is not followed.
pub mod Prelude
pub mod Buffer
pub mod Index
pub mod Storage
pub mod Concurrency
pub mod Primer
pub mod Tests
