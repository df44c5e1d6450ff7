-- ===== src/Lib.antt =====
-- Verification of the storage core of the memcached sources in this repository.
--
-- The repository takes memcached apart into directories that each hold the files of one subject.
-- slabs_curd is the variant that ties the storage layers together; memory_lru, network and thread
-- hold further parts. A worker thread looks an item up in the hash table, counts its reference, and
-- links or unlinks it: the hash table finds it, an LRU queue orders it, and the slab allocator owns
-- its memory. The models follow these files:
--
-- * Bipbuffer models memory_lru/bipbuffer.c and memory_lru/bipbuffer.h, the byte queue through which
--   worker threads hand LRU bumps to the maintainer. The record Bipbuf is bipbuf_t, with the bytes
--   after the header as a memory; unsigned arithmetic is written with its wrap-around.
-- * Assoc models slabs_curd/assoc.c, the hash table from keys to items and the thread that moves it
--   to twice the size. Items are the places of the items in memory; ITEM_key and the hash function are
--   parameters. A bucket's chain is the list of items along h_next.
-- * Item models the structs item and item_chunk of slabs_curd/memcached.h, their flags and macros. An
--   address is a number, 0 is NULL, and memory is a function from addresses to items. Item/Links and
--   Item/Bypass treat doubly linked lists in that memory, which the LRU queues and free lists are.
-- * Slabs models slabs_curd/slabs.c: size classes, free lists, pages and the preallocated region, with
--   the classes and their free lists in Slabs/Chunks, start-up in Slabs/Init, where
--   lay_out_slabs is slabs_init up to slabs_preallocate, and the request for a page move in Slabs/Reassign. The answers of malloc and realloc are arguments; the doubles of slabs_init are two functions on sizes.
-- * Items models slabs_curd/items.c: the record World holds its globals, the slab allocator and the
--   hash table. Items/State has the queues and counts, Items the links and updates, Items/Get the
--   lookup, the touch and the bump of an item, Items/Pull the walk lru_pull_tail that frees, evicts or
--   moves items at the tail of a queue, and Items/Alloc the memory and the header of a new item.
--   Items/Crawl models the placeholder of the crawler in a queue, and Items/Juggle the
--   maintainer's visit to the queues of a class, both from memory_lru/items.c.
--   Items/Heap treats the memory as a whole: the items on the queues and the chunks on the free lists
--   of Slabs. Counters wrap at their widths; the locks are those that the callers hold.
-- * Store models the storing commands of slabs_curd/memcached.c: do_store_item, the joined values of
--   append and prepend in Store/Copy, and do_add_delta with safe_strtoull of slabs_curd/util.c in
--   Store/Delta. They look items up, allocate, link and release them through Items.
-- * Protocol models the text protocol of thread/memcached.c: Protocol/Conn the struct conn and its
--   answers, Protocol/Read what is read from the socket, Protocol/Tokens tokenize_command,
--   Protocol/Commands the storing, arithmetic, touch and delete commands, which act on Items and Store,
--   Protocol/Machine process_command, try_read_command and the turns of drive_machine, and Protocol/Get
--   process_get_command. conn_shrink and conn_release_items are from network/memcached.c. Socket calls,
--   libevent and memory answer through the record Event.
-- * Extstore models the engine of exstore/extstore.c: Extstore/State the pages, the write buffers and
--   the way of an object into them, Extstore/Init the start of the engine, which
--   has no result where the C code divides by a buffer size of 0 or follows the NULL of a buffer without
--   memory, and Extstore the flushes, reads, deletes and a round of the maintenance thread. The threads interleave as steps, each under the
--   locks that it holds.
-- * Mover models the slab page mover of memory_lru/slabs.c, which serves the requests of Slabs/Reassign:
--   Mover/State has its state and the free list of the source, Mover/Chunk the pass over the page's
--   chunks, and Mover the start, the end and a round of the thread. The functions of items.c and slabs.c
--   that it calls are the same in memory_lru and slabs_curd.
-- * ObjectCache models network/cache.c, the cache of free objects, with its red zones.
-- * PrefixStats models thread/stats.c, the counters by key prefix.
-- * Automove models memory_lru/slab_automove.c, the choice of the classes of a page move. The
--   comparison of ages with the ratio, a double, is a function.
--
-- Prelude holds what the parts share: tests on numbers, lists, memories and C's int.
--
-- Fuel: free_chunks follows the chunk list of a large item for as many steps as its argument says, and
-- do_slabs_free and what calls it pass that argument on; the number of chunks of the item is enough.
-- The walk of lru_pull_tail takes a step for each item it looks at, of which at most five are not
-- placeholders of a crawler; what is stated of do_item_alloc, which calls it, holds for every fuel. The loops over
-- chunks in Store/Copy and repoint in Mover/Chunk take a step for each chunk. All other loops recurse on
-- the number of rounds that the code bounds them by, or on a list. try_read_network takes a step of its
-- fuel for each read; six are enough. get_loop of Protocol/Get takes one for each line of tokens.
--
-- Not modelled: locks and threads as such, logging and printing, and the hash functions, which are a
-- parameter. What a lock attempt, malloc, realloc, strtoull and snprintf answer is an argument. Of the
-- connections the get commands in the state machine, what process_get_command calls that has no source
-- here, the other commands of the text protocol, and the reader of chunked items are parameters; the
-- binary protocol, UDP, SASL, the iovec lists and the counters of the threads are left out. Of the external storage the contents of the disk, reads into iovecs and the
-- use that items make of it are left out. The threads of the LRU maintainer and of the crawler are
-- left for later.
pub mod Assoc
pub mod Automove
pub mod Bipbuffer
pub mod Extstore
pub mod Item
pub mod Items
pub mod Mover
pub mod ObjectCache
pub mod PrefixStats
pub mod Prelude
pub mod Protocol
pub mod Slabs
pub mod Store
