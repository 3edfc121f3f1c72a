-- ===== src/Lib.antt =====
-- A verification library for the persistent memory examples: the allocator libpmemalloc on
-- libpmem, and the data structures that use it.
--
-- libpmem maps a file of persistent memory. A store reaches the memory itself only when its cache
-- line is flushed, or at any earlier time. libpmemalloc/pmemalloc.c keeps a pool in such a file: a
-- list of clumps, each with a size word, whose low bits are the clump's state, and a list of up to
-- three assignments that are made when the clump becomes active or free. After a crash
-- pmemalloc_init recovers the pool. c-hashtable is a hash table with chains, btree-1.0 a B-tree,
-- and binarytree a binary tree of words.
--
-- Which file models what:
--   Base: shared names, Boolean tests and lists on native numbers.
--   Pmem: the memory of 8-byte words as a function from byte offsets, and a program on it as the
--   sequence of its loads, stores and persists. Pmem.Cache: pmem_persist_cl and
--   pmem_flush_cache_cl of libpmem/pmem_cl.c and persist_set of libpmem/epoch.c, on a cache that
--   keeps for each word the older values that may still be the durable one. Pmem.Ends: a run
--   without a crash ends, and how. Pmem.Safe: a run ends, and every image that a crash may leave
--   on the way satisfies a predicate. Pmem.Settle: which words pmem_persist_cl makes durable, in
--   64-bit addresses, and that this is the effect (persist_cache) that the logic for crashes gives
--   a persist. Pmem.Modes: pmem_persist and pmem_flush_cache of libpmem/pmem.c, with the modes of
--   libpmem/pmem_msync.c and libpmem/pmem_fit.c; Pmem.Covered: what they make durable.
--   Pmemalloc.Layout: struct clump and the constants of libpmemalloc/pmemalloc.c. Pmemalloc.Ops:
--   its functions, one definition each, in Ops.Recover (pmemalloc_recover), Ops.Coalesce
--   (pmemalloc_coalesce_free), Ops.Reserve (pmemalloc_reserve), Ops.Change (pmemalloc_onactive,
--   pmemalloc_onfree, pmemalloc_activate, pmemalloc_free), Ops.Open (pmemalloc_init,
--   pmemalloc_static_area) and Ops.Check (pmemalloc_check, up to the printing).
--   Pmemalloc.Blocks: a pool as the list of its size words. Coalesce, Reserve, Recover, Init and
--   Checked relate the functions to operations on that list; Stats and Report are on the
--   statistics of pmemalloc_check. OnList, Redo, Clear, Finish and RecoverClump are on the running
--   of a list of assignments, cut off and run again; Activate, Free, AddOn, ReserveSafe,
--   RecoverSafe and Restart on crashes.
--   Hashtable: c-hashtable/hashtable.c and hashtable_change of hashtable_utility.c, one definition
--   for each function and each loop. Hashtable.Values: a chain as the values of each key.
--   Hashtable.Primes, Expand, Create, Search, Insert and Remove: the functions on these values.
--   Hashtable.Iterator: c-hashtable/hashtable_itr.c; Iterate and RemoveHere: the entries that an
--   iterator has before it; SearchPlace: where a search leaves it.
--   BTree: from btree-1.0/bt_code.c, the creation of a tree (bt_create), the search for a key's
--   place in a node (findkindex, in its two versions) and the logarithms that it uses (real_log2,
--   log2 with its table). BTree.Log, BTree.FindIndex and BTree.Create: theorems on these.
--   BTree.Node: the nodes, with the searches from the root (findnodekey, findminnode,
--   findmaxnode), btreesplitchild and the insertion (bt_insert); the fuel of the recursions is the
--   height of the tree. BTree.Delete: the deletion (nodedeletekey, bt_delete). BTree.Shape: what a
--   B-tree is, and its keys in order; BTree.Order, Lists, Place, Weave, Context, Level and Pair:
--   lemmas on lists of keys, on the place of a key in a node and on a node's children among the
--   keys. Split, Down, Nonfull and Insert: the insertion; Find and MinMax: the searches; Rotate,
--   Move, Merge, Enlarge, Removes, Descend, Hit, Removal, Root and Deletion: the deletion.
--   BTree.Check: checkbtreenode and treeheight of btree-1.0/bt_output.c, and Checked: what they
--   say of a tree.
--   Bintree: binarytree/tree.c, a binary tree of words with counts (tree_insert_subtree,
--   tree_walk_subtree, tree_free_subtree), and strcmp; Bintree.Wordfreq: tree_insert_words of
--   binarytree/tree_wordfreq.c. Bintree.Words: strcmp as an order; Tally: the list of words and
--   counts that a tree stands for; Insert, Free and Counts: theorems on the insertion, on the
--   memory of the nodes and on the words of a file.
--   Tests: runs at concrete inputs.
--
-- Fuel: the loops over the clumps of a pool stop at a size word of 0, so they take fuel, one unit
-- for each clump and one for the end mark. A theorem on such a loop asks for more fuel than the
-- pool has clumps, and says that the loop ends.
--
-- What is assumed: pointers are offsets from the start of the pool, so that PMEM and OFF are the
-- identity. Words do not overlap. The programs on the pool run in the cache-line mode, and no
-- range of the pool ends within 64 bytes of 2 ^ 64. msync and pwrite, of the system, are
-- parameters that are asked to write the range back. The build is the one with _NODATAPERSIST and
-- without _NOPERSIST, and persist_set does not change in the middle of a call. A crash leaves each
-- word at its present value or at one that it has had since its line was last flushed. The hash
-- table's keys are compared by an equivalence that the hash function respects; the load limit of a
-- size is an argument; the allocator's answers are arguments. A removal from the table goes as far
-- as its calls that free memory: hashtable_remove stops in pmemalloc_free, to which it hands an
-- absolute pointer, and whether free of the C library returns, in hashtable_iterator_remove, is an
-- argument; hashtable_change returns what it frees. The answers of the allocator to the binary
-- tree are arguments too, one for each insertion.
--
-- The B-tree's nodes have as many keys as their arrays and the 15 bits of n have room for: what
-- would exceed this gives none, and the theorems ask for 2t - 1 less than 2 ^ 14.
--
-- What is not modelled: hashtable_destroy, which hands the memory of the pool to free of the C
-- library, the operating system's calls (files, mmap, threads, the log of writes), the draining
-- and the fences by themselves, printing, the persistence of the hash table, the order of the
-- stores of the binary tree, the allocation and the persistence of the B-tree's nodes, and the
-- test programs.
pub mod Base
pub mod Pmem
pub mod Pmemalloc
pub mod Hashtable
pub mod BTree
pub mod Bintree
pub mod Tests
