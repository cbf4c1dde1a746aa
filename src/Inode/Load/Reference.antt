-- ===== src/Inode/Load/Reference.antt =====
-- src/core/inode.c, `read_inode_metadata`: what stands behind a reference, in the metadata block in
-- which it points.
use squashfs_fuse.Common.{
  ℕ, ◌+◌, ◌++◌, ◌≡◌, arith, length, length-append, take, take-append, drop-append,
}
use squashfs_fuse.Inode.Load.{read_inode_metadata, meta_ref_pos, meta_ref_offset}
use squashfs_fuse.Metadata.{meta_read_block}
use squashfs_fuse.Platform.{Platform}
use squashfs_fuse.Result.{ok}
use squashfs_fuse.Superblock.{Superblock}
use squashfs_fuse.Utils.{Bytes, u64}

module _ (p : Platform) (sb : Superblock) (ref : ℕ) (before : Bytes)
    (at : meta_ref_offset ref ≡ length before) where
  -- What stands at the offset of the reference is read.
  pub read_inode_metadata-there :
      (bytes after : Bytes)
      → meta_read_block p (u64 (sb.disk.inode_table + meta_ref_pos ref))
        ≡ ok (before ++ (bytes ++ after))
      → read_inode_metadata p sb ref (length bytes) ≡ ok bytes
  unfolding read_inode_metadata
  read_inode_metadata-there bytes after found =
      let whole = length-append before (bytes ++ after) in
      let part = length-append bytes after in
      let it = take-append bytes after in
      let skipped = drop-append before (bytes ++ after) in
      rw (found, at, skipped, it) (ground (arith, whole, part))

  -- What is read are the bytes from there on.
  pub read_inode_metadata-prefix :
      (n : ℕ) (tail bytes : Bytes)
      → meta_read_block p (u64 (sb.disk.inode_table + meta_ref_pos ref)) ≡ ok (before ++ tail)
      → read_inode_metadata p sb ref n ≡ ok bytes
      → bytes ≡ take n tail
  unfolding read_inode_metadata
  read_inode_metadata-prefix n tail bytes found read =
      let skipped = drop-append before tail in ground (arith, found, at, skipped)
