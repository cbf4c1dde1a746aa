-- ===== src/Tests/Fragment.antt =====
-- src/core/fragment.c, an image with a fragment table of one entry, and a file of one block with its
-- tail in that fragment.
use squashfs_fuse.Common.{
  ℕ, zero, suc, ◌+◌, true, ◌≡◌, refl, arith, [], ◌∷◌, List, none, some, inr, get_elem?,
}
use squashfs_fuse.Data.Layout.{context}
use squashfs_fuse.Data.Read.Range.{IsBlock}
use squashfs_fuse.Data.Read.{read_into}
use squashfs_fuse.Data.{FileCtx, file_block_location, add_sizes, data_read_block}
use squashfs_fuse.Fragment.Collision
use squashfs_fuse.Fragment.Table
use squashfs_fuse.Fragment.Table.{put_entry, find_entry}
use squashfs_fuse.Fragment.Tail.{IsDataCache, data_ops-IsCache}
use squashfs_fuse.Fragment.{
  FragEntry, FragTable, DataCache, table_init, table_load, get_entry, fragment_read, data_ops,
}
use squashfs_fuse.Inode.{Inode, FileData, file, file_body}
use squashfs_fuse.Metadata.Block
use squashfs_fuse.Metadata.{meta_read_block, read_block_from_disk}
use squashfs_fuse.Result.{ok}
use squashfs_fuse.Superblock.{Superblock, zero_superblock, zero_disk}
use squashfs_fuse.Tests.Load.{memory}
use squashfs_fuse.Tests.Metadata.{platform, platform-Serves}
use squashfs_fuse.Tests.Read.{Slot, get, get_keeps, get_true, Coherent, held_at}
use squashfs_fuse.Utils.Endian.{put_le16, put_le64}
use squashfs_fuse.Utils.Pread.{read_image}
use squashfs_fuse.Utils.{Bytes, block_size, block_is_uncompressed, le32_to_cpu, le64_to_cpu}

abbrev pub cache : DataCache Slot
cache = record { get = get; put = λ s key bytes claimed. some (key, bytes) }

pub cache-IsDataCache : IsDataCache cache held_at Coherent
cache-IsDataCache = record {
  get_keeps = get_keeps;
  get_true = get_true;
  put_keeps = λ s key claimed c. refl;
}

-- The fragment `5` at position 5, the block `1 2 3 4` at position 1.
abbrev entry : FragEntry
entry = record { start = 5; size = 0x01000001; unused = 0 }

abbrev table_block : Bytes
table_block = put_entry entry []

abbrev pub image : Bytes
image = 9 ∷ 1 ∷ 2 ∷ 3 ∷ 4 ∷ 5 ∷ put_le16 (0x8000 + 16) (put_entry entry (put_le64 6 []))

abbrev pub sb : Superblock
sb = record zero_superblock {
  disk = record zero_disk { block_size = 4; frag_count = 1; frag_table = 24 };
  has_fragments = true;
}

table_block_read : meta_read_block (platform image) (le64_to_cpu (put_le64 6 [])) ≡ ok table_block
table_block_read =
    let at : le64_to_cpu (put_le64 6 []) ≡ 6 = unfold le64_to_cpu le32_to_cpu in refl in
    rw at (
      Block.meta_read_block-stored (platform image) (platform-Serves image)
        (9 ∷ 1 ∷ 2 ∷ 3 ∷ 4 ∷ 5 ∷ []) table_block (put_le64 6 []) 0x8010 refl (omega arith)
        (omega arith) refl (omega arith) (omega arith) refl)

table_load-put_entries_example :
    ((table_load (platform image) sb table_init).1 ≡ ok tt)
    × (get_entry (some (table_load (platform image) sb table_init).0) 0 ≡ find_entry (entry ∷ []) 0)
table_load-put_entries_example =
    Table.table_load-put_entries (platform image) sb (memory image) (entry ∷ []) (table_block ∷ [])
      (put_le64 6 []) 0 refl refl (omega arith) (omega arith) (omega arith)
      (unfold read_image in refl) (table_block_read, tt) (omega arith) refl

abbrev pub table : FragTable
table = record { entries = some table_block; count = 1; loaded = true }

abbrev five_bytes : FileData
five_bytes = record {
  blocks_start = 1;
  file_size = 5;
  sparse = 0;
  frag_idx = 0;
  block_offset = 0;
  block_count = 1;
  xattr_idx = 0xffffffff;
}

abbrev pub inode : Inode
inode = record {
  inode_number = 2;
  type = file;
  permissions = 0x1a4;
  uid = 0;
  gid = 0;
  mtime = 0;
  link_count = 1;
  body = file_body five_bytes;
  block_sizes = some (0x01000004 ∷ []);
}

abbrev pub blocks : List Bytes
blocks = (1 ∷ 2 ∷ 3 ∷ 4 ∷ []) ∷ []

abbrev pub ctx : FileCtx
ctx = context sb inode five_bytes 1

pub each :
    (i : ℕ) (b : Bytes)
    → get_elem? blocks i ≡ some b
    → IsBlock
        (platform image)
        (data_ops (platform image) cache sb (some table))
        ctx
        (data_ops-IsCache (platform image) cache sb (some table) cache-IsDataCache)
        blocks
        i
        b
unfolding file_block_location add_sizes data_read_block read_block_from_disk read_image block_size
    block_is_uncompressed
each zero b e = inr (1, 0x01000004, true, refl, omega arith, refl, ground arith)
each (suc i) b e = cc

fragment_read-collision_example :
    (fragment_read
      (platform image)
      cache
      sb
      (some table)
      (read_into
        (platform image)
        (data_ops (platform image) cache sb (some table))
        ctx
        none
        []
        1
        0x01000004
        0
        4).0
      1
      1
      2).1
    ≡ ok (2 ∷ 3 ∷ [])
fragment_read-collision_example =
    Collision.fragment_read-collision (platform image) cache sb (some table) (memory image) ctx none
      [] (1 ∷ 2 ∷ 3 ∷ 4 ∷ []) 1 0x01000004 0 4 1 2
      (unfold data_read_block read_block_from_disk read_image block_size block_is_uncompressed in
        refl)
      refl refl (omega arith) (omega arith) (omega arith)
