-- ===== src/Lib.antt =====
-- Verification of PatriciaC, PATRICIA sets of bit strings in C.
--
-- A set is a graph of nodes, each with two children, a branching bit position and a key; a pointer
-- to a node whose position does not grow is an uplink, at which a walk ends. The parts build on
-- each other: the set compares keys, reads single bits and asks for the first difference of two
-- keys; the difference is found on words of a bit stream, with a byte swap and a count of leading
-- zeros.
--
-- Files and the code they model (paths from the repository's root):
--   Key          src/cpatricia_set.c: patricia_getbit, patricia_equkey. A key is a function from
--                offsets to bytes with a length in bits. Key/Stream and Key/Equal hold what the
--                two functions mean.
--   Words        src/cpatricia_set.c: patricia_bswap, patricia_clz. Words/Swap, Words/Zeros.
--                Words/Ops packs them as the low-level functions that the code below takes.
--   Diff         src/cpatricia_set.c: clzz, nextbits, patricia_bitdiff. Diff/Limb, Diff/Stream,
--                Diff/First. The two low-level functions are a parameter, the record WordOps,
--                since the code takes them from the compiler or from its own fallbacks.
--   Heap         src/cpatricia_set.h: PTSetNodeT, a heap of such nodes by address, and runs that
--                return, fault at an address that holds no node, or run out of fuel.
--   Trie         The abstract trie: branches are the nodes reached downwards, leaves the uplinks.
--   Tree         src/cpatricia_set.c: ptnode_create, patriset_init, patriset_lookup,
--                patriset_prefix, patriset_insert. Tree/Rep says how a heap stands for a trie,
--                Tree/Lookup, Tree/Candidate, Tree/Prefix, Tree/Link, Tree/Seek, Tree/Fresh,
--                Tree/NoMemory and Tree/Insert hold the steps of the proofs, Tree/Laws the
--                operations together.
--   Evict        src/cpatricia_set.c: patriset_evict, patriset_remove and patriset_fini. Trie/Up,
--                Trie/Cut and Trie/Evicted say what a deletion does to a trie, Tree/Down what a
--                frame keeps; Evict/Walk follows the tracked walk, Evict/Bypass and Evict/Relabel
--                the two steps of the unlinking, Evict/Unlink joins them, Evict/Removed says what
--                is left. Evict/Laws and Evict/RoundTrip hold the operations together.
--                Evict/Funnel, Evict/Dead and Evict/Freed follow the funnel of patriset_fini, and
--                Evict/Fini says what it leaves.
--   Session      src/cpatricia_set.c: the calls that change a set, one after the other, beside a
--                dictionary from keys to nodes. Session/Refine.
--   Iter         src/cpatricia_set.c: psetiter_init, psetiter_next, psetiter_prev, psetiter_reset
--                and the state machine behind them, with the tables of its transitions.
--                Iter/Parents is the stack of parents alone. Iter/Tour and Iter/Order describe an
--                iteration in the trie; Iter/Under and Iter/Hang say which node is above which,
--                Iter/Stack and Iter/Climb how the parent is found, Iter/Moves, Iter/Sides and
--                Iter/Route that the machine makes the tour, Iter/Rounds and Iter/Collect what its
--                steps return. Iter/Range, Iter/Setup and Iter/Whole put whole iterations together,
--                Iter/Visits compares them with the look-up, and Iter/Events, Iter/Placed,
--                Iter/Anywhere and Iter/Steps are about steps from any position.
--   Map          src/cpatricia_map.c: the map functions, on a store of payloads beside the nodes.
--                Map/Laws, Map/Delete. Map/Arena is the map on the bump pool, Map/Arena/Lend what it gives.
--   Print        src/cpatricia_set.c: patriset_print, as the list of its lines. Print/Rows.
--                Print/Dot is patriset_todot with its default label, as the list of its parts, and
--                Print/Picture draws the graph of a trie without the heap, and Print/Graph
--                compares the two.
--   Pool         src/vmbumppool.c: vmBump_init, vmBump_alloc, vmBump_fini, vmBump_getattr. The
--                operating system is the record Os. Pool/Align, Pool/Serve, Pool/Start, Pool/More
--                (a new block) and Pool/Grant.
--   System       src/vmbumppool.c: _arena_reserve, _arena_commit, _arena_release, for Linux and for
--                Windows, on records of the system calls. System/Commit.
--   Base, Bits   Shared names and lemmas: Boolean tests, tables, bitwise operations.
--   Examples     The theorems at concrete inputs; Examples/Stores for maps and pools,
--                Examples/Teardown for the destruction of a set, Examples/Pair for iterators,
--                Examples/Deletions and Examples/Walks for the other operations of a set.
--
-- Numbers are natural numbers; the width of each C type is written out as a remainder: uint16_t
-- for lengths and positions, unsigned of 32 bits, size_t of 64 bits, bytes of 8 bits, on a target of
-- either byte order. Walks run on 65536 rounds: the 16-bit position grows in every round. The
-- allocator is a parameter, the address that it returns, which holds no node yet, or NULL.
--
-- The destruction takes its number of rounds as an argument, and more than there are nodes are
-- enough; the iterators take theirs as an argument too, and three for each node and two more are
-- enough, since an iteration leaves each node three times. The allocation of the pool is given two
-- rounds, one for the request and one after a new block, which are enough since a new block has
-- room for the request.
--
-- Not modelled: the wrappers of malloc and free, a label writer of the caller's own for
-- patriset_todot, the layout of the printed text, the start-up code that asks for the page size,
-- the free_wrap of the map's arena build, and the call of the arena killer in patriset_fini.
pub mod Base
pub mod Bits
pub mod Key
pub mod Diff
pub mod Heap
pub mod Words
pub mod Trie
pub mod Tree
pub mod Evict
pub mod System
pub mod Session
pub mod Print
pub mod Iter
pub mod Map
pub mod Pool
pub mod Examples
