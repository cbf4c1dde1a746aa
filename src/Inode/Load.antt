-- ===== src/Inode/Load.antt =====
-- src/core/inode.c, `read_inode_metadata` and `sqfs_inode_get_by_ref`.
-- `raw_inode` is a buffer of 8192 bytes on the stack; `stale` is what stands there before the call.
pub mod Reference
pub mod Files
pub mod Others
use squashfs_fuse.Common.{ℕ, ◌+◌, ◌*◌, min, not, ◌++◌, length, take, drop, leb, ◌==◌}
use squashfs_fuse.Inode.Blocks.{calc_block_count}
use squashfs_fuse.Inode.Parse.{
  parse_inode_header, known_type, parse_inode, header_size, fragment_invalid, allocate,
}
use squashfs_fuse.Inode.{
  InodeType, dir, file, symlink, blkdev, chrdev, fifo, socket, ldir, lfile, lsymlink, lblkdev,
  lchrdev, lfifo, lsocket, Inode,
}
use squashfs_fuse.Metadata.{meta_read_block}
use squashfs_fuse.Platform.{Platform}
use squashfs_fuse.Result.{Result, ok, bad_inode, ◌>>=◌, ◌>>◌, check}
use squashfs_fuse.Superblock.{Superblock}
use squashfs_fuse.Utils.{Bytes, u64, meta_block_pos, meta_block_offset, le32_to_cpu, le64_to_cpu}

abbrev pub max_inode_size : ℕ
max_inode_size = 8192

-- `memcpy(buffer, bytes, n)` for the `n` bytes.
abbrev pub overlay : Bytes → Bytes → Bytes
overlay bytes buffer = bytes ++ drop (length bytes) buffer

-- `sqfs_meta_ref_pos`, `sqfs_meta_ref_offset`: the same as those of `utils.h`.
abbrev pub meta_ref_pos : ℕ → ℕ
meta_ref_pos ref = meta_block_pos ref

abbrev pub meta_ref_offset : ℕ → ℕ
meta_ref_offset ref = meta_block_offset ref

module _ (p : Platform) (sb : Superblock) (ref : ℕ) where
  -- The bytes that are copied to the buffer of the caller.
  unfoldable pub read_inode_metadata : ℕ → Result Bytes
  read_inode_metadata size = do
    block ← meta_read_block p (u64 (sb.disk.inode_table + meta_ref_pos ref))
    let offset = meta_ref_offset ref
    check (leb (offset + size) (length block)) bad_inode
    ok (take size (drop offset block))

  -- The buffer, and the size of the inode, once its type is known.
  unfoldable pub inode_size : Bytes → InodeType → Result (Bytes × ℕ)
  inode_size raw dir = ok (raw, 32)
  inode_size raw ldir = ok (raw, 40)
  inode_size raw file = do
    bytes ← read_inode_metadata (header_size + 16)
    let raw_inode = overlay bytes raw
    let file_size = le32_to_cpu (drop 28 raw_inode)
    let frag_idx = le32_to_cpu (drop 20 raw_inode)
    let has_fragment = not (frag_idx == fragment_invalid)
    block_count ← calc_block_count file_size sb.disk.block_size has_fragment
    ok (raw_inode, header_size + 16 + block_count * 4)
  inode_size raw lfile = do
    bytes ← read_inode_metadata (header_size + 40)
    let raw_inode = overlay bytes raw
    let file_size = le64_to_cpu (drop 24 raw_inode)
    let frag_idx = le32_to_cpu (drop 44 raw_inode)
    let has_fragment = not (frag_idx == fragment_invalid)
    block_count ← calc_block_count file_size sb.disk.block_size has_fragment
    ok (raw_inode, header_size + 40 + block_count * 4)
  inode_size raw symlink = do
    bytes ← read_inode_metadata (header_size + 8)
    let raw_inode = overlay bytes raw
    ok (raw_inode, header_size + 8 + le32_to_cpu (drop 20 raw_inode))
  inode_size raw lsymlink = do
    bytes ← read_inode_metadata (header_size + 8)
    let raw_inode = overlay bytes raw
    ok (raw_inode, header_size + 8 + le32_to_cpu (drop 20 raw_inode) + 4)
  inode_size raw blkdev = ok (raw, 24)
  inode_size raw chrdev = ok (raw, 24)
  inode_size raw lblkdev = ok (raw, 28)
  inode_size raw lchrdev = ok (raw, 28)
  inode_size raw fifo = ok (raw, 20)
  inode_size raw socket = ok (raw, 20)
  inode_size raw lfifo = ok (raw, 24)
  inode_size raw lsocket = ok (raw, 24)

  -- The size is cut off at that of the buffer. `sqfs_inode_t` has 80 bytes.
  unfoldable pub get_by_ref : Bytes → Result Inode
  get_by_ref stale = do
    head ← read_inode_metadata header_size
    let raw = overlay head stale
    header ← parse_inode_header raw
    t ← known_type header.type
    (raw_inode, full_size) ← inode_size raw t
    let size = min full_size max_inode_size
    bytes ← read_inode_metadata size
    _ ← allocate p.malloc 80
    parse_inode p.malloc (overlay bytes raw_inode) size sb.disk.block_size
