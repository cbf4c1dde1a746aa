-- ===== src/Inode/Parse/Disk.antt =====
-- src/core/inode.h, the on-disk inodes of directories, files and symlinks behind their header, and
-- the runtime inode that each is to become.
use squashfs_fuse.Common.{ℕ, ◌-◌, ◌^◌, ◌≤◌, ◌<◌, List, [], ◌∷◌, Option, none, some, length}
use squashfs_fuse.Inode.Parse.Encoding.{put_block_sizes, AllFit}
use squashfs_fuse.Inode.Parse.{Header, xattr_invalid}
use squashfs_fuse.Inode.{InodeType, dir, file, lfile, Body, dir_body, file_body, Inode}
use squashfs_fuse.Utils.Endian.{put_le16, put_le32, put_le64}
use squashfs_fuse.Utils.{Bytes}

-- `sqfs_inode_dir_t`; `file_size` is the size of the listing plus 3.
pub record DiskDir : Type 0 where
  pub block_idx : ℕ
  pub link_count : ℕ
  pub file_size : ℕ
  pub block_offset : ℕ
  pub parent_inode : ℕ

abbrev pub put_dir : DiskDir → Bytes → Bytes
put_dir d rest = put_le32 d.block_idx (
    put_le32 d.link_count
      (put_le16 d.file_size (put_le16 d.block_offset (put_le32 d.parent_inode rest))))

pub record DirFits (d : DiskDir) : Type 0 where
  pub block_idx : d.block_idx < 2 ^ 32
  pub link_count : d.link_count < 2 ^ 32
  pub file_size : d.file_size < 2 ^ 16
  pub block_offset : d.block_offset < 2 ^ 16
  pub parent_inode : d.parent_inode < 2 ^ 32
  pub not_short : 3 ≤ d.file_size

-- `sqfs_inode_ldir_t`.
pub record DiskLdir : Type 0 where
  pub link_count : ℕ
  pub file_size : ℕ
  pub block_idx : ℕ
  pub parent_inode : ℕ
  pub index_count : ℕ
  pub block_offset : ℕ
  pub xattr_idx : ℕ

abbrev pub put_ldir : DiskLdir → Bytes → Bytes
put_ldir d rest = put_le32 d.link_count (
    put_le32 d.file_size (
      put_le32 d.block_idx (
        put_le32 d.parent_inode
          (put_le16 d.index_count (put_le16 d.block_offset (put_le32 d.xattr_idx rest))))))

pub record LdirFits (d : DiskLdir) : Type 0 where
  pub link_count : d.link_count < 2 ^ 32
  pub file_size : d.file_size < 2 ^ 32
  pub block_idx : d.block_idx < 2 ^ 32
  pub parent_inode : d.parent_inode < 2 ^ 32
  pub index_count : d.index_count < 2 ^ 16
  pub block_offset : d.block_offset < 2 ^ 16
  pub xattr_idx : d.xattr_idx < 2 ^ 32

-- `sqfs_inode_file_t` and the block sizes behind it.
pub record DiskFile : Type 0 where
  pub blocks_start : ℕ
  pub frag_idx : ℕ
  pub block_offset : ℕ
  pub file_size : ℕ
  pub block_sizes : List ℕ

abbrev pub put_file : DiskFile → Bytes → Bytes
put_file f rest = put_le32 f.blocks_start (
    put_le32 f.frag_idx
      (put_le32 f.block_offset (put_le32 f.file_size (put_block_sizes f.block_sizes rest))))

pub record FileFits (f : DiskFile) : Type 0 where
  pub blocks_start : f.blocks_start < 2 ^ 32
  pub frag_idx : f.frag_idx < 2 ^ 32
  pub block_offset : f.block_offset < 2 ^ 32
  pub file_size : f.file_size < 2 ^ 32
  pub block_sizes : AllFit f.block_sizes

-- `sqfs_inode_lfile_t` and the block sizes behind it.
pub record DiskLfile : Type 0 where
  pub blocks_start : ℕ
  pub file_size : ℕ
  pub sparse : ℕ
  pub link_count : ℕ
  pub frag_idx : ℕ
  pub block_offset : ℕ
  pub xattr_idx : ℕ
  pub block_sizes : List ℕ

abbrev pub put_lfile : DiskLfile → Bytes → Bytes
put_lfile f rest =
    let sizes = put_block_sizes f.block_sizes rest in
    let indexes = put_le32 f.frag_idx (put_le32 f.block_offset (put_le32 f.xattr_idx sizes)) in
    put_le64 f.blocks_start
      (put_le64 f.file_size (put_le64 f.sparse (put_le32 f.link_count indexes)))

pub record LfileFits (f : DiskLfile) : Type 0 where
  pub blocks_start : f.blocks_start < 2 ^ 64
  pub file_size : f.file_size < 2 ^ 64
  pub sparse : f.sparse < 2 ^ 64
  pub link_count : f.link_count < 2 ^ 32
  pub frag_idx : f.frag_idx < 2 ^ 32
  pub block_offset : f.block_offset < 2 ^ 32
  pub xattr_idx : f.xattr_idx < 2 ^ 32
  pub block_sizes : AllFit f.block_sizes

-- The array of a file: NULL if it has no block.
abbrev pub sizes_array : List ℕ → Option (List ℕ)
sizes_array [] = none
sizes_array (x ∷ xs) = some (x ∷ xs)

abbrev pub with_header : Header → InodeType → ℕ → Body → Option (List ℕ) → Inode
with_header h t links body sizes = record {
  inode_number = h.inode_number;
  type = t;
  permissions = h.permissions;
  uid = h.uid_idx;
  gid = h.gid_idx;
  mtime = h.mtime;
  link_count = links;
  body = body;
  block_sizes = sizes;
}

abbrev pub dir_inode : Header → DiskDir → Inode
dir_inode h d =
    let body = dir_body (record {
      block_idx = d.block_idx;
      size = d.file_size - 3;
      block_offset = d.block_offset;
      parent_inode = d.parent_inode;
      index_count = 0;
    }) in
    with_header h dir d.link_count body none

abbrev pub file_inode : Header → DiskFile → Inode
file_inode h f =
    let body = file_body (record {
      blocks_start = f.blocks_start;
      file_size = f.file_size;
      sparse = 0;
      frag_idx = f.frag_idx;
      block_offset = f.block_offset;
      block_count = length f.block_sizes;
      xattr_idx = xattr_invalid;
    }) in
    with_header h file 1 body (sizes_array f.block_sizes)

abbrev pub lfile_inode : Header → DiskLfile → Inode
lfile_inode h f =
    let body = file_body (record {
      blocks_start = f.blocks_start;
      file_size = f.file_size;
      sparse = f.sparse;
      frag_idx = f.frag_idx;
      block_offset = f.block_offset;
      block_count = length f.block_sizes;
      xattr_idx = f.xattr_idx;
    }) in
    with_header h lfile f.link_count body (sizes_array f.block_sizes)
