-- ===== src/Lib.antt =====
-- The key-value store of group1/kvstore, a server with two-phase commit, and the file system of
-- the teaching kernel Pintos in group1/pintos: what their parts do, and that they do it.
--
-- The key-value store. A master (src/server/tpcmaster.c under group1/kvstore) takes the requests
-- of clients and a ring of registered slaves. A put or a delete is sent to every slave as the
-- first phase of a two-phase commit, and the decision as the second; a get goes to the primary of
-- the key and its successors. A slave (kvserver.c) has a store, which keeps each key in a file of
-- its own (kvstore.c), a cache in front of it (kvcache.c, an array of sets, each a kvcacheset.c),
-- and a log of the requests and decisions (tpclog.c).
--
-- Pintos. A block device (devices/block.c under group1/pintos/src) is an array of sectors. The
-- free map (filesys/free-map.c) has a bit for each, in a bitmap (lib/kernel/bitmap.c) that is also
-- kept in a file. An inode (filesys/inode.c) is a sector that names a group of sectors with the
-- data of a file; open inodes stand in one list, and are freed with the last opener if they are
-- removed. An open file (filesys/file.c) is an inode with a position. A thread that waits for a
-- lock lends its priority to the holder (threads/synch.c), and a thread may sleep for some ticks
-- of the timer (devices/timer.c).
--
-- The files. Paths of C files are relative to group1/kvstore/src/server, and for Pintos to
-- group1/pintos/src.
--   Prelude: Boolean tests and the integers over the native numbers (Prelude/Tests), lists
--     (Prelude/Lists), and the outcome of a run (Prelude/Outcome): a result, `fault` for
--     undefined behaviour, or `spin` when the fuel is used up.
--   Kv/Text: C strings, `hash` of kvstore.c and `hash_64_bit` of tpcmaster.c.
--   Kv/Codes: kvconstants.h and the message of kvmessage.h.
--   Kv/Memory: the interface of uthash.h and utlist.h. Kv/Disk: that of the file system.
--   Kv/CacheSet: kvcacheset.c, one function for each function of C. Its children: Keys (lists of
--     keys), Valid (when a set is well formed; init, get, del), Evict (the eviction loop), Put,
--     Clear.
--   Kv/Cache: kvcache.c. Its children: Sets (get, put, del), Init.
--   Kv/Store: kvstore.c. A key's file is found by its hash and its place in the chain of that
--     hash. Its children: Chain (a chain is a list), Entries and Swap (lists of entries), Find
--     (get and the checks), Write (put and del).
--   Kv/Log: tpclog.c. Its child Files reads the files of the log as a list.
--   Kv/Server: kvserver.c. Its children: Handle (the request handlers), Coherent and Update (a
--     server as one map), Logged (the log of a server), Commit (votes and aborts), Decide
--     (commits), Rebuild (recovery after a crash).
--   Kv/Master: tpcmaster.c. Its children: Ring (primary and successors), Register, Request (the
--     handlers of GET and of the two-phase commit), Decision (the two-phase commit), Replicas
--     (which replica answers a GET).
--   Kv/WorkQueue: wq.c, the steps of the threads that share a queue.
--   Pintos/Word: the bits of machine words.
--   Pintos/Bitmap: lib/kernel/bitmap.c. Its children: Bits (one bit), Multiple (ranges), Scan
--     (the first group), Io (bitmap_read and bitmap_write), Saved (writing and reading back).
--   Pintos/Block: devices/block.c. Pintos/Content: inode_read_at and inode_write_at of
--     filesys/inode.c, with the children Read and Write.
--   Pintos/FreeMap: filesys/free-map.c and the state of the file system, with the child Laws.
--   Pintos/Inodes: the rest of filesys/inode.c. Its children: Encoding (an inode in its sector),
--     Create, Fresh (a file that is made, opened and read), Openers, Holds and Steps (the list
--     of open inodes under any calls), Close.
--   Pintos/File: filesys/file.c, and free_map_open, free_map_close and free_map_create. Its
--     children: Sequential (one call after another), Mount (the free map over a restart).
--   Pintos/Donation: locks and priorities of threads/synch.c. Its children: Donate (the donation
--     along a chain), Acquire, Release.
--   Pintos/Alarm: timer_sleep and timer_interrupt of devices/timer.c. Its children: Order,
--     OnTime.
--   Pintos/Intq: devices/intq.c, a queue between threads and interrupt handlers. Its child:
--     Fifo.
--   Kv/Tests, Pintos/Tests: a table and file systems on lists, and each theorem at a concrete
--     input.
--
-- State and operations. A C struct is a record with its fields; an operation takes the state and
-- returns the status and the new state. The store and the log share the directory of the server,
-- which is one value of the type `Disk`. A null pointer is `none`. A C string is the list of its
-- bytes before the NUL. Numbers of C are natural numbers with the wrap-around written out;
-- statuses are integers. A cache entry is named by its key, so that the list of a set is a list of
-- keys and the hash table a map from keys to entries. The list of slaves is a list, and a pointer
-- to a slave its place.
--
-- In Pintos an inode is named by its sector and a file holds such a name; a name that is not in
-- the list of open inodes is a dangling pointer and a fault, as is a failed ASSERT or a panic.
-- What malloc and calloc give is an argument of each operation.
--
-- Bounds and fuel. Every search that may not end in C (a chain of files, the files of the log, the
-- messages to a slave until it acknowledges) takes fuel, and the theorems ask for more fuel than
-- the chain or the log is long. A chain has less than 2^31 files and a log less than 2^63, so that
-- the counters of C do not wrap. The eviction loop takes one more round than the list is long,
-- which is enough on a linked set. The loops of inode_read_at and inode_write_at take one more
-- round than there are bytes, and copy a byte at least in each. check_to_donate takes a round more
-- than there are threads less urgent than the donor, since each round raises one of them. A bitmap
-- has less than 2^32 - 31 bits, so that rounding up does not wrap; words have 32 bits.
--
-- The sizes and ticks of Pintos are bounded where C keeps them in an int: the count of the sectors
-- of a file is a fault for lengths from 2^31 - 512 on, and timer_sleep is modelled with the
-- conversion of the ticks to an int, so that its theorem asks for less than 2^31 ticks.
--
-- Assumptions. In the key-value store memory is never short, locks are taken in the documented way
-- and are not modelled but for the null lock of a key that is too long, and a request is handled
-- without another in between. Names of files fit their buffers. A write to an open file may fail,
-- be cut short or be whole, as the outcomes of the interface Kv/Disk say, and the store and the
-- log look at it as their code does; a theorem that needs a whole write asks for it. What is read
-- in an entry that was not written whole is left open. A rename or a remove happens or changes
-- nothing. The network and the conversion `atoi` are arguments. The local variables that C reads
-- without setting them are arguments too (`Unset`).
--
-- Not modelled: the sockets (socket_server.c), the wire format of messages (kvmessage.c, over
-- json-c), the registration of a slave at its master, the information messages, the dispatch of
-- the requests of the master (tpcmaster_handle), the client, and the programs of af. They need the
-- operating system or the network, or are programs of their own. Of Pintos: the drivers behind a
-- block device and its counts of accesses, directories, the scheduler (a step ends where another
-- thread would run), the advanced scheduler, user programs and the C library.
pub mod Prelude
pub mod Kv
pub mod Pintos
