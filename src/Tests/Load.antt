-- ===== src/Tests/Load.antt =====
-- src/core/inode.c, inodes loaded by reference and by number from images of one or two blocks.
use squashfs_fuse.Common.{
  ℕ, ◌+◌, true, ◌≡◌, ◌≢◌, false, refl, sym, ap, ◌≤◌, ◌<◌, ◌^◌, ◌++◌, ◌∙◌, length-append, some, none,
  arith, [], ◌∷◌, inl, length, append-nil,
}
use squashfs_fuse.Inode.Blocks.{calc_block_count}
use squashfs_fuse.Inode.Export.Lookup
use squashfs_fuse.Inode.Export.Lookup.{find, IsCoherent}
use squashfs_fuse.Inode.Export.{ExportCache, load}
use squashfs_fuse.Inode.Load.Files
use squashfs_fuse.Inode.Load.Others
use squashfs_fuse.Inode.Load.{get_by_ref}
use squashfs_fuse.Inode.Parse.Disk.{put_dir, dir_inode, DiskFile, put_file, file_inode}
use squashfs_fuse.Inode.Parse.Encoding.{put_header}
use squashfs_fuse.Inode.Parse.Symlink.{put_symlink}
use squashfs_fuse.Metadata.Block
use squashfs_fuse.Metadata.{meta_read_block}
use squashfs_fuse.Result.{ok, ◌>>=◌}
use squashfs_fuse.Superblock.{Superblock, zero_superblock, zero_disk}
use squashfs_fuse.Tests.Inode.{header, listing, three_blocks, three_blocks-FileFits, count_run}
use squashfs_fuse.Tests.Metadata.{platform, platform-Serves}
use squashfs_fuse.Utils.Endian.{put_le16, put_le64}
use squashfs_fuse.Utils.Pread.{read_image}
use squashfs_fuse.Utils.{Bytes, le32_to_cpu, le64_to_cpu, meta_block_offset, meta_block_pos}

abbrev pub sb : Superblock
sb = record zero_superblock { disk = record zero_disk { block_size = 4096 }; has_export = true }

-- A block that is stored as it stands.
abbrev pub stored : Bytes → Bytes
stored payload = put_le16 (0x8000 + length payload) payload

pub memory : (image : Bytes) (size : ℕ) → (platform image).malloc size ≢ none
memory image size = ground arith

stored_read :
    (payload : Bytes)
    → 0 < length payload
    → length payload ≤ 8192
    → meta_read_block (platform (stored payload)) 0 ≡ ok payload
stored_read payload pos small =
    let image = stored payload in
    let size = length payload in
    Block.meta_read_block-stored (platform image) (platform-Serves image) [] payload []
      (0x8000 + size) (ap (put_le16 (0x8000 + size)) (sym (append-nil payload))) (omega arith)
      (omega arith) (omega arith) pos small (omega arith)

abbrev file_bytes : Bytes
file_bytes = put_header (header 2) (put_file three_blocks [])

get_by_ref-file_example :
    get_by_ref (platform (stored file_bytes)) sb 0 [] ≡ ok (file_inode (header 2) three_blocks)
get_by_ref-file_example =
    Files.get_by_ref-file (platform (stored file_bytes)) sb 0 [] (unfold meta_block_offset in refl)
      (header 2) (omega arith) [] three_blocks [] (memory (stored file_bytes)) refl
      three_blocks-FileFits count_run (omega arith)
      (unfold meta_block_pos in stored_read file_bytes (omega arith) (omega arith))

-- The inode lists three block sizes; its block ends behind the first.
abbrev cut_file : DiskFile
cut_file = record three_blocks { block_sizes = 1000 ∷ [] }

abbrev cut_bytes : Bytes
cut_bytes = put_header (header 2) (put_file cut_file (9 ∷ 9 ∷ []))

-- 2041 blocks of 4096 bytes.
abbrev large_file : DiskFile
large_file = record three_blocks { file_size = 8359936; block_sizes = [] }

large_count : calc_block_count 8359936 4096 false ≡ ok 2041
unfolding calc_block_count
large_count = refl

abbrev large_bytes : Bytes
large_bytes = put_header (header 2) (put_file large_file [])

get_by_ref-large_example :
    get_by_ref (platform (stored large_bytes)) sb 0 [] ≢ ok (file_inode (header 2) large_file)
get_by_ref-large_example =
    Files.get_by_ref-large (platform (stored large_bytes)) sb 0 []
      (unfold meta_block_offset in refl) (header 2) (omega arith) [] large_file 2041 []
      (file_inode (header 2) large_file) refl
      (record {
        blocks_start = omega arith;
        frag_idx = omega arith;
        block_offset = omega arith;
        file_size = omega arith;
        block_sizes = tt;
      })
      large_count (omega arith)
      (unfold meta_block_pos in stored_read large_bytes (omega arith) (omega arith))

abbrev dir_bytes : Bytes
dir_bytes = put_header (header 1) (put_dir listing [])

abbrev link_bytes : Bytes
link_bytes = put_header (header 3) (put_symlink 1 (b'a' ∷ b'b' ∷ []) [])

-- The export table begins at 0: its first block is at 8, and has one reference, 0.
abbrev table : Bytes
table = put_le64 8 (stored (put_le64 0 []))

-- Behind the reference, in the inode table, the inode of a directory.
abbrev with_inode : Bytes
with_inode = put_le64 8 (stored (put_le64 0 []) ++ stored dir_bytes)

abbrev sb_behind : Superblock
sb_behind = record zero_superblock {
  disk = record zero_disk { block_size = 4096; inode_table = 18 };
  has_export = true;
}

abbrev empty : ExportCache
empty = record { block = none; size = 0; addr = 0 }

load-find_example :
    (load (platform table) sb [] [] [] empty 1).1
    ≡ find (platform table) sb 1 >>= λ ref. get_by_ref (platform table) sb ref []
load-find_example = Lookup.load-find (platform table) sb (memory table) [] [] [] empty 1 (inl refl)

pub block_at :
    (front payload back : Bytes)
    → length front < 2 ^ 32
    → length back < 2 ^ 32
    → 0 < length payload
    → length payload ≤ 8192
    → meta_read_block (platform (front ++ (stored payload ++ back))) (length front) ≡ ok payload
block_at front payload back short_front short_back pos small =
    let image = front ++ (stored payload ++ back) in
    let n = length payload in
    Block.meta_read_block-stored (platform image) (platform-Serves image) front payload back
      (0x8000 + n) refl
      (omega (arith, length-append front (stored payload ++ back), length-append payload back))
      (omega arith) (omega arith) pos small (omega arith)

inode_there : get_by_ref (platform with_inode) sb_behind 0 [] ≡ ok (dir_inode (header 1) listing)
inode_there =
    let front = put_le64 8 (stored (put_le64 0 [])) in
    Others.get_by_ref-dir (platform with_inode) sb_behind 0 [] (unfold meta_block_offset in refl)
      (header 1) (omega arith) [] (memory with_inode) listing [] refl (omega arith)
      (unfold meta_block_pos in
        block_at front dir_bytes [] (omega arith) (omega arith) (omega arith) (omega arith))

table_there : find (platform with_inode) sb_behind 1 ≡ ok 0
unfolding le64_to_cpu le32_to_cpu read_image
table_there =
    let there =
      block_at (put_le64 8 []) (put_le64 0 []) (stored dir_bytes) (omega arith) (omega arith)
        (omega arith) (omega arith) in
    rw there refl

load-IsCoherent_example :
    IsCoherent
      (platform with_inode)
      sb_behind
      (load (platform with_inode) sb_behind [] [] [] empty 1).0
load-IsCoherent_example =
    Lookup.load-IsCoherent (platform with_inode) sb_behind (memory with_inode) [] [] [] empty 1
      (dir_inode (header 1) listing) (inl refl)
      (Lookup.load-find (platform with_inode) sb_behind (memory with_inode) [] [] [] empty 1
          (inl refl)
        ∙ rw (table_there, inode_there) refl)

-- The second block of the table is at 18 and has no byte.
abbrev broken : Bytes
broken = put_le64 18 (stored (put_le64 0 (0 ∷ 0 ∷ [])))

abbrev kept : ExportCache
kept = record { block = some (put_le64 0 []); size = 8; addr = 8 }
