-- ===== src/Lib.antt =====
-- A model of squashfs-fuse, a reader of SquashFS images that serves them as a file system, and the
-- proofs about it.
--
-- Parts. `src/core/utils.{c,h}` has the little-endian readers, the packed references and the loop
-- around pread(2); `src/core/superblock.c` reads and validates the superblock of an image;
-- `src/core/data.c` reads metadata blocks for the parsers; `src/core/inode.c` reads the inodes, of all
-- fourteen types, that the superblock's tables lead to; `src/core/directory.c` reads the entries of a
-- directory inode, whose references lead back to the inodes; `src/core/data.c` locates and reads the
-- data blocks of a file; `src/core/fragment.c` loads the table of fragments and reads the tail of a
-- file from one; `src/core/cache.c` is the cache behind the data blocks and the fragments;
-- `src/vfs/vfs_ops.c` resolves paths to inodes and answers for them with values of errno. Each file
-- here says which code it is about:
--   Common, Result         lists, bits and the outcome type that the others share
--   Platform, Stats        the image, codec and allocator that the core calls; the error counters
--   Utils                  `utils.h`: readers, references, device numbers; `Pread`: `sqfs_pread_all`
--   Superblock             `superblock.c`: `sqfs_superblock_load`, `validate_block_size`
--   Metadata               `data.c`: `sqfs_meta_read_block`, `read_block_from_disk`
--   Inode                  `inode.h`, `inode.c`: `parse_inode` and its parsers, the block count
--   Inode.Load             `inode.c`: `sqfs_inode_get_by_ref`, following a reference into the inode table
--   Inode.Export           `inode.c`: `sqfs_inode_load`, an inode by its number, with the block it keeps
--   Directory              `directory.c`: `parse_directory_entries`; `Table`: `read_directory_data`;
--                          `Read`: `sqfs_dir_read`, `sqfs_dirent_lookup`
--   Data                   `data.c`: the block layout of a file, the place of a block and its reading,
--                          `sqfs_data_is_sparse`; `Read`: `sqfs_data_read`, with the cache of data
--                          blocks and the fragment reader behind the interface `Ops`
--   Fragment               `fragment.c`: the fragment table and its entries, `sqfs_fragment_read_block`,
--                          `sqfs_fragment_read`, and the `Ops` that they give a read of a file
--   Cache                  `cache.c`: the entries in memory, the list of use and the chains of the hash
--                          table; `Ops`: the operations, `init` to `clear`
--   Shared                 the cache of `cache.c` under the calls of `fragment.c` and `data.c`, with the
--                          objects that its values point to; `Reads`: reads of files through it
--   Vfs                    `src/vfs/vfs_ops.c`: `sqfs_vfs_resolve_path`; `Ops`: the operations on a path;
--                          `Tree` and `Spelling`: the files and the paths that it is held against
--   Tests                  the theorems at concrete inputs
--
-- Conventions. A C function that returns an error code is a function into `Result`: `ok` with what
-- it stores through its output pointers, `err` with the code, or `fault` where C leaves the behaviour
-- undefined (a read past the end of a buffer, a division by zero, a stray pointer). A word of w bits
-- is a number below 2 ^ w, with its casts written out. A pointer into a buffer is the list of the
-- bytes from there on. The union in `struct sqfs_inode` is laid out as a little-endian machine with
-- 64-bit pointers does. The count of bytes that `sqfs_data_read` returns is not cut to an `int`: reads
-- are taken to be below 2 ^ 31 bytes. Logging has no effect on the results and is left out.
--
-- Outside. pread(2), fstat, malloc and the codecs of zlib and zstd are parameters. A codec is a
-- function of the compressed bytes; that `sqfs_meta_read_block` lets it read from the end of the
-- buffer that it writes to is not modelled. What is asked of them stands in
-- `Utils.Pread.IsReliable` and `Platform.Serves`, or as a hypothesis of a theorem.
-- `Fragment` and `Data.Read` take the cache through an interface, keys to bytes as a caller sees
-- `sqfs_cache_get` and `sqfs_cache_put`; `Shared` is the interface over `Cache`. `Cache` is at the level
-- of pointers: a heap from addresses to entries, where following NULL or an address of no entry is
-- `none`. What malloc gives is asked of it where an entry or an object is made. Who reads the cache
-- states which bytes belong to each key, so that a fragment whose number is the position of a cached
-- block is excluded there. The lock of a cache makes an operation one step, but for `sqfs_cache_get`,
-- which has two. The buffers into which inodes are read hold what was there before,
-- which is an argument where a function leaves part of a buffer as it was.
--
-- Not modelled. `xattr.c`, `compressor.c`, `sqfs_meta_read` of `data.c`, which nothing calls, and the
-- copying of fields in `sqfs_vfs_statfs`; the binding to libfuse, logging, and what only gives memory
-- back.
--
-- Fuel. The loop of `sqfs_pread_all` runs on fuel, since a system call may be interrupted any
-- number of times; where the interruptions are all among its first calls, enough fuel is proved.
-- The loop of `read_directory_data` over the metadata blocks has fuel too, since a block may be empty:
-- the size of the image is enough. The loop of `parse_directory_entries` over headers has the number of
-- bytes for its fuel, and `fault` would be its result without it, which never happens.
-- A read of a file has fuel for its rounds: each gives a byte, so the size of the read is enough, unless
-- a block of a damaged image is too short.
-- The loops of the cache over its lists have one more than the number of its entries for their fuel.
-- The loop for the block size's logarithm recurses on the order of the numbers.
pub mod Cache
pub mod Common
pub mod Data
pub mod Directory
pub mod Fragment
pub mod Inode
pub mod Metadata
pub mod Platform
pub mod Result
pub mod Shared
pub mod Stats
pub mod Superblock
mod Tests
pub mod Utils
pub mod Vfs
