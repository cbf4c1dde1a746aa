-- ===== src/Tests/Inode.antt =====
-- src/core/inode.c on inodes of a few bytes.
use squashfs_fuse.Common.{ℕ, true, false, ◌≡◌, ◌≢◌, refl, Option, some, none, arith, [], ◌∷◌, inl}
use squashfs_fuse.Inode.Blocks.{calc_block_count, Covers, calc_block_count-Covers}
use squashfs_fuse.Inode.Parse.Disk.{
  DiskDir, DiskLdir, put_ldir, DiskFile, FileFits, DiskLfile, with_header,
}
use squashfs_fuse.Inode.Parse.Encoding.{put_header}
use squashfs_fuse.Inode.Parse.Symlink
use squashfs_fuse.Inode.Parse.Symlink.{put_symlink, link_data, clobbered}
use squashfs_fuse.Inode.Parse.Union
use squashfs_fuse.Inode.Parse.Union.{ldir_inode, put_dev}
use squashfs_fuse.Inode.Parse.{Header, parse_inode, xattr_invalid}
use squashfs_fuse.Inode.{
  InodeType, ldir, lchrdev, symlink, lsymlink, blkdev, dev_body, symlink_body, target_text,
  basic_type, is_extended, is_dir, value,
}
use squashfs_fuse.Result.{ok, fault}
use squashfs_fuse.Utils.Endian.{put_le32}

abbrev pub header : ℕ → Header
header type = record {
  type = type;
  permissions = 0x1ed;
  uid_idx = 0;
  gid_idx = 1;
  mtime = 0x5f000000;
  inode_number = 7;
}

abbrev address : ℕ
address = 0x7f0012345678

abbrev malloc : ℕ → Option ℕ
malloc size = some address

memory : (size : ℕ) → malloc size ≢ none
memory size = ground arith

abbrev pub listing : DiskDir
listing = record {
  block_idx = 64;
  link_count = 2;
  file_size = 23;
  block_offset = 5;
  parent_inode = 1;
}

abbrev large_listing : DiskLdir
large_listing = record {
  link_count = 2;
  file_size = 23;
  block_idx = 64;
  parent_inode = 1;
  index_count = 0;
  block_offset = 5;
  xattr_idx = 0xffffffff;
}

-- 9000 bytes in blocks of 4096, with no fragment.
abbrev pub three_blocks : DiskFile
three_blocks = record {
  blocks_start = 96;
  frag_idx = 0xffffffff;
  block_offset = 0;
  file_size = 9000;
  block_sizes = 1000 ∷ 0 ∷ 0x01000320 ∷ [];
}

abbrev large_three_blocks : DiskLfile
large_three_blocks = record {
  blocks_start = 96;
  file_size = 9000;
  sparse = 4096;
  link_count = 1;
  frag_idx = 0xffffffff;
  block_offset = 0;
  xattr_idx = 2;
  block_sizes = 1000 ∷ 0 ∷ 0x01000320 ∷ [];
}

pub three_blocks-FileFits : FileFits three_blocks
three_blocks-FileFits = record {
  blocks_start = omega arith;
  frag_idx = omega arith;
  block_offset = omega arith;
  file_size = omega arith;
  block_sizes = (omega arith, (omega arith, (omega arith, tt)));
}

types_run :
    (basic_type lchrdev ≡ InodeType.chrdev)
    × (is_extended lchrdev ≡ true)
    × (is_dir ldir ≡ true)
    × (is_dir symlink ≡ false)
unfolding basic_type is_extended is_dir
types_run = (refl, refl, refl, refl)

calc_block_count-Covers_example :
    (n : ℕ) × (calc_block_count 9000 4096 false ≡ ok n) × Covers false 9000 4096 n
calc_block_count-Covers_example =
    calc_block_count-Covers 9000 4096 false (omega arith) (omega arith)

pub count_run : calc_block_count 9000 4096 false ≡ ok 3
unfolding calc_block_count
count_run = refl

-- The listing stored at 64 is looked for at 0xffffffff.
parse_inode-ldir_example :
    parse_inode malloc (put_header (header 8) (put_ldir large_listing [])) 40 4096
    ≡ ok (ldir_inode (header 8) large_listing)
parse_inode-ldir_example =
    Union.parse_inode-ldir malloc (header 8) (omega arith) 4096 40 [] large_listing refl
      (omega arith) (omega arith)

-- Device 8:1, read as 4294967295:1.
parse_inode-dev_example :
    parse_inode malloc (put_header (header 4) (put_dev 1 8 1 0 [])) 24 4096
    ≡ ok (
        with_header
          (header 4)
          blkdev
          1
          (dev_body (record { major = xattr_invalid; minor = 1 }))
          none)
parse_inode-dev_example =
    Union.parse_inode-dev malloc (header 4) (omega arith) 4096 24 [] blkdev false 1 8 1 0
      (unfold value in refl) (inl (refl, inl refl)) (omega arith) (omega arith) (omega arith)
      (omega arith) (omega arith)

parse_inode-symlink_example :
    (parse_inode malloc (put_header (header 3) (put_symlink 1 (b'a' ∷ b'b' ∷ []) [])) 26 4096
      ≡ ok (
          with_header
            (header 3)
            symlink
            1
            (symlink_body (link_data address address (b'a' ∷ b'b' ∷ [])))
            none))
    × (target_text (link_data address address (b'a' ∷ b'b' ∷ [])) ≡ ok (b'a' ∷ b'b' ∷ 0 ∷ []))
parse_inode-symlink_example =
    Symlink.parse_inode-symlink malloc (header 3) 1 (b'a' ∷ b'b' ∷ []) [] address (omega arith)
      (omega arith) refl 4096 26 refl (omega arith) (omega arith)

abbrev dangling : ℕ
dangling = clobbered address 2

parse_inode-lsymlink_example :
    (parse_inode malloc (put_header (header 10) (put_symlink 1 (b'a' ∷ []) (put_le32 2 []))) 29 4096
      ≡ ok (
          with_header
            (header 10)
            lsymlink
            1
            (symlink_body (link_data dangling address (b'a' ∷ [])))
            none))
    × (target_text (link_data dangling address (b'a' ∷ [])) ≡ fault)
parse_inode-lsymlink_example =
    Symlink.parse_inode-lsymlink malloc (header 10) 1 2 (b'a' ∷ []) [] address (omega arith)
      (omega arith) (omega arith) refl 4096 29 refl (omega arith) (omega arith) (omega arith)
