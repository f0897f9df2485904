-- ===== src/Lib.antt =====
-- pmemfile: a model of parts of the file system in persistent memory, and what holds of them.
--
-- The program has two libraries. libpmemfile-posix (src/libpmemfile-posix) is a file system in a pool
-- of persistent memory with a POSIX-like interface. libpmemfile (src/libpmemfile) intercepts the
-- system calls of a process and passes those on files of a pool to libpmemfile-posix; it keeps a table
-- of the descriptors that stand for such files. Modelled are these parts:
--
-- * Vfd (src/libpmemfile/vfd_table.c): the table of virtual file descriptors. Vfd.antt has the entries,
--   the table, the working directory, the free slots, and the reference counts (ref_entry,
--   unref_entry, pmemfile_vfd_ref, pmemfile_vfd_at_ref); Vfd/Calls.antt has every call that changes
--   them, with the function names of the source less `pmemfile_`. Vfd/Refs.antt states the invariant
--   that ties counts to references, Vfd/Calls/Counts.antt and Vfd/Calls/Moves.antt treat each
--   call, Vfd/Calls/Init.antt startup, and Vfd/Calls/System.antt all interleavings of threads,
--   which are sequences of the parts that run under the mutex; a reference that chdir and fchdir give
--   back after it, the tests before it, and the free slot that is taken under a mutex of its own are
--   in the same step. Vfd/Calls/Effects.antt says what
--   dup2 and close do to the table. The asserts of the source are faults (Run.antt), since a build
--   may drop them; where that matters an argument says whether the build keeps `assert`.
-- * HashMap (src/libpmemfile-posix/hash_map.c): the map from inode offsets to open inodes.
--   HashMap/Buckets.antt and HashMap/Rebuild.antt have the lemmas on one bucket and on a rebuild,
--   HashMap/Contents.antt the well-formedness and the abstract contents (which key holds which value),
--   and HashMap/Insertion.antt, HashMap/Removal.antt and HashMap/Termination.antt the operations.
-- * Creds (src/libpmemfile-posix/creds.c): the ids, groups and capabilities of a pool and the check
--   of permission bits, which every call on a path makes. Creds/Ids.antt, Creds/Caps.antt and
--   Creds/Access.antt hold the theorems.
-- * InodeArray (src/libpmemfile-posix/inode_array.c): the persistent lists of orphaned and suspended
--   inodes, which are chains of arrays of 249. InodeArray/Slots.antt is about one array,
--   InodeArray/Chain.antt about adding, InodeArray/Removal.antt about unregistering and
--   InodeArray/Traversal.antt about the loops that stop by the counts.
-- * Lseek (src/libpmemfile-posix/lseek.c): the offset of an open file. Lseek/Blocks.antt has the walk over
--   the blocks of a file, Lseek/Search.antt SEEK_DATA and SEEK_HOLE as calls, Lseek/Offsets.antt the
--   calls that add offsets, and Lseek/LastEntries.antt and Lseek/Directories.antt the end of a
--   directory. The lookup of a block, find_closest_block, is a parameter; what it promises (the last
--   block that starts at the offset or before) is a hypothesis.
-- * OffsetMap (src/libpmemfile-posix/offset_mapping.c): the tree that a vinode keeps from offsets to
--   blocks. OffsetMap/Reads.antt reads it as a function of offsets and states its shape,
--   OffsetMap/Walk.antt and OffsetMap/SetRange.antt treat set_range, OffsetMap/Calls.antt and its
--   child modules insert_block and remove_block, and OffsetMap/Search.antt and its child modules
--   block_find_closest.
-- * FileData (src/libpmemfile-posix/data.c, src/libpmemfile-posix/blocks.c): the blocks of a file as a
--   list, and their bytes. FileData/Allocate.antt and its child modules treat vinode_allocate_interval,
--   with data_block_info and expand_to_full_pages; FileData/Copy.antt and its child modules
--   iterate_on_file_range for reading and for writing, each in a definition of its own;
--   FileData/Removal.antt and its child modules treat vinode_remove_interval, and
--   FileData/Allocated.antt vinode_is_interval_allocated. The look-up of a block is a parameter, or the
--   block that it promises is an argument, and FileData/Lookup.antt relates it to the offset map.
-- * FileCalls (src/libpmemfile-posix/read.c, write.c, truncate.c, fallocate.c): the calls that read, write
--   and resize an open file, on the blocks of FileData. FileCalls.antt has the file (a vinode with its
--   inode), the handle (PMEMfile), the pointers to blocks that handles keep, and the checks of the
--   arguments; FileCalls/Write.antt, FileCalls/Read.antt and FileCalls/Resize.antt have the calls under
--   their names in the source, and their child modules what each does. FileCalls/Hints.antt is about
--   the block pointers and FileCalls/Contents.antt says when a file is well formed.
--   FileCalls/Sequences.antt has sequences of calls by several handles and what they promise,
--   and its child modules treat them.
-- * Prelude, Errno and Run: what the parts share.
--
-- State is a record that each operation takes and returns. Numbers are natural numbers; where the
-- code wraps (pf_hash, the random coefficients) the remainder is written out. A C `int` that may be
-- negative is an integer. Pointers are numbers with 0 for NULL, or options.
--
-- Fuel: rand_params and the loops of hash_map_put run on fuel, since the code ends them only when the
-- random numbers or the allocator let it: the fuel bounds the draws and the tries. inode_array_add runs
-- on fuel since it may add an array to the chain that it goes along; the fuel bounds its turns. How much
-- is enough is part of the results below. insert_block adds levels with fuel 13, which is enough since
-- each adds four bits to 14 and the loop ends with 64. The loop of vinode_allocate_interval has two
-- turns for each page as its fuel, the loop for reading one for each byte. All other loops are structural.
--
-- Parameters: what the kernel and pmemfile-posix answer to a call of the descriptor table, what
-- nrand48 draws, the time, and how an allocation, the building of a block tree or an insertion into it
-- ends are arguments, and the theorems hold for all of them unless they say otherwise. An insertion ends in
-- one of three ways (Attempt in FileData.antt), since insert_block follows NULL where the root of the tree
-- cannot be allocated. block_list_remove may move the description of a block and then inserts it again;
-- how that ends is an argument too. Of nrand48 the theorems on the loops that draw ask that in some
-- number of draws one is not 0.
--
-- Bounds of the calls on files: they are treated where a call allocates at most 2 GB, since an assert of
-- vinode_allocate_interval fails if the room before the first block is a multiple of 4 GB; where
-- offsets are at most 2 ^ 60 and calls at most 2 ^ 28, sums stay below 2 ^ 62, where the code does
-- not cut them.
--
-- Not modelled: the two slots of the fields of an inode and the order in which they reach the medium,
-- directories and their entries by name, the block arrays, the undo logs of transactions (a transaction
-- happens or does not), paths and the calls that take one, the check of the allocation that DEBUG adds to
-- a write, the hooks themselves, locks other than as
-- atomic steps, hash_map_traverse, the freeing of memory, input and output, tests, tools and the FUSE
-- front end.
mod Prelude
pub mod Errno
pub mod Run
pub mod Creds
pub mod HashMap
pub mod InodeArray
pub mod Lseek
pub mod OffsetMap
pub mod FileCalls
pub mod FileData
pub mod Vfd
