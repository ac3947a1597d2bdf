-- ===== src/Lib.antt =====
-- The C libraries of this repository for embedded devices: `oslib` with its containers, scanner,
-- timers and wrappers of the operating system, the buffer pools of `gki` and `aki`, and drivers and
-- servers that use them. Modelled are the buffer pools of `gki` and these parts of `oslib`. They
-- share no state; the timers use the time values, the factory of pools the pools, and printing a
-- number is read back by the parser:
--   Ring: oslib/src/ringbuf.c, a ring of bytes whose indices have a mirror bit each. A call returns
--     the new ring beside its result; the buffer is the list of its bytes. Ring/Contents says which
--     bytes a ring holds, and the theorems follow RING_Write and RING_Read as operations on these.
--   Hash: oslib/src/hash.c, a table of chains. A key is a list of bytes, a value a number that is 0
--     for NULL, and a chain is the list of its entries; memcmp says whether
--     the bytes are equal, and strnicmp is a parameter: that of cstring.c, as in Text/Caseless, or of
--     the C library.
--     `find_entry`, `hash_set` and the iterator are translated one by one.
--   Cis: oslib/src/scanner.c, the cis_ functions: up to 32 sets of characters in one array of words.
--     The array is passed along, since all its sets share it.
--   Scan: oslib/src/scanner.c, the scan_ functions, with children for scan_get_unescape and
--     scan_get_quotes. A pointer into the buffer is an offset, and what a call reports to the error
--     callback is `none`. A set of characters reaches these functions as its test, `cis_match`.
--   Fifo: oslib/src/fifobuf.c, an allocator in a circular buffer of bytes, in which each block has its
--     size in front of it. Fifo/Blocks reads the blocks off the buffer and the two pointers, oldest
--     first; FIFO_Alloc, FIFO_Free and FIFO_Unalloc are followed on that list.
--   Number: oslib/src/cstring.c, the functions that parse numbers. What they return is compared with
--     the number that the digits stand for without any bound.
--   Text: oslib/src/cstring.c, spans, tokens, trimming, comparing and the printing of numbers.
--   Time: oslib/src/timestamp.h and timestamp.c, the time values of seconds and milliseconds, signed.
--   Timer: oslib/src/timer.c, the timers as a binary heap in an array, with an array of ids that leads
--     from an id to its slot and also links the free ids. The entities belong to the caller and lie
--     in `nodes`, a memory from their addresses; the callbacks are a parameter, what they do to the
--     heap. Timer/Api has what the header of the C file offers, Timer/Valid the invariant; Keys, Holes
--     and Sift follow the loops that move a hole through the heap.
--   Gki: gki/src/gki_buffer.c, six pools of buffers of a fixed size, each with a queue of its free
--     buffers that is linked through their headers. The headers are one store for all pools. A call
--     that may allocate is given the address that the allocation returns. Gki/Chain reads the queue off
--     the store; Take, Give and Init follow the operations on it.
--   Pool: oslib/src/pool.c and pool_caching.c, pools that hand out parts of their blocks and grow by
--     further blocks, and the factory that keeps pools for later. A pointer is an address, and a call
--     that may allocate is given the address that the policy's allocation returns. Pool/Blocks and
--     Cases say what is valid and which way POOL_Alloc takes; Safe and Run count for every byte how
--     often it is free or handed out. Pool/Caching is the factory, over the pools. Where the assertion
--     on the index of a released pool stops the program, the result is `aborted`; the other assertions
--     of these files are conditions of the theorems, such as a block size that does not wrap.
--   RbTree: oslib/src/rbtree.c, red-black trees. The nodes belong to the caller; their fields are maps
--     from addresses, and the comparison of keys is a parameter. RbTree/Shape says which tree the
--     pointers make up and Zipper where a node stands in it; Rotate, Turn and Left follow a rotation,
--     which Right takes over in the mirror. Loops run on fuel, for which the depth of the tree and one
--     more is enough in the searches.
--   Base: the names, the tests on numbers and the lemmas on lists that these share.
-- Numbers are natural numbers; where the source counts in `unsigned`, the wrap at 2 ^ 32 is written
-- out. The loops over bytes are recursions over the bytes that are left. On fuel are the sizing
-- loop of HASH_Create, which needs one round for each doubling, and the loops of scan_get_unescape
-- and scan_get_quotes, each round of which reads at least one byte but for the first one of
-- scan_get_unescape: two rounds more than bytes are left are enough. The loops of the heap of
-- timers have one round more than slots that they can pass, TIME_Normalize one for each millisecond
-- below zero, and c_utoa_pad more than it prints digits. TIMER_HeapPoll reads the poll maximum in each
-- round; as long as no callback changes it, one round more than it says is enough.
-- Not modelled are the wrappers of sockets, threads and clocks in `oslib`, `ioqueue` and `negan`,
-- the drivers under `amio` and `rtc`, which are calls of the system or of chips, and the copies of
-- other projects' libraries under `http`, `iniparse`, `rtmp_lib` and `rtsp_lib`. The buffer pools
-- of `aki`, JSON, the policy of the pools, and the copying and searching of strings are not
-- modelled either. The locks of the timers are left out, and the pool that they allocate from
-- never fails. Of the red-black trees, the balance and the order behind an insertion or a removal
-- are not proved.
pub mod Base
pub mod Time
pub mod Timer
pub mod Ring
pub mod Hash
pub mod Cis
pub mod Scan
pub mod Fifo
pub mod Number
pub mod Gki
pub mod Text
pub mod Pool
pub mod RbTree
