-- ===== src/Superblock/Encoding.antt =====
-- src/core/superblock.h, the layout of `squashfs_superblock_t`, as a writer of images would fill it.
use squashfs_fuse.Common.{◌^◌, ◌<◌, [], ◌≡◌, drop}
use squashfs_fuse.Superblock.{DiskSuperblock, disk_superblock}
use squashfs_fuse.Utils.Endian.{
  put_le16, put_le32, put_le64, le16_to_cpu-put_le16, le32_to_cpu-put_le32, le64_to_cpu-put_le64,
}
use squashfs_fuse.Utils.{Bytes}

unfoldable pub encode : DiskSuperblock → Bytes
encode d =
    let tables = put_le64 d.id_table (
      put_le64 d.xattr_table (
        put_le64 d.inode_table
          (put_le64 d.dir_table (put_le64 d.frag_table (put_le64 d.export_table []))))) in
    let sizes = put_le64 d.root_inode (put_le64 d.bytes_used tables) in
    let version = put_le16 d.version_major (put_le16 d.version_minor sizes) in
    let counts = put_le16 d.flags (put_le16 d.id_count version) in
    let blocks = put_le16 d.compressor (put_le16 d.block_log counts) in
    put_le32 d.magic (
      put_le32 d.inode_count
        (put_le32 d.mod_time (put_le32 d.block_size (put_le32 d.frag_count blocks))))

-- Every field fits its width.
pub record IsEncodable (d : DiskSuperblock) : Type 0 where
  pub magic : d.magic < 2 ^ 32
  pub inode_count : d.inode_count < 2 ^ 32
  pub mod_time : d.mod_time < 2 ^ 32
  pub block_size : d.block_size < 2 ^ 32
  pub frag_count : d.frag_count < 2 ^ 32
  pub compressor : d.compressor < 2 ^ 16
  pub block_log : d.block_log < 2 ^ 16
  pub flags : d.flags < 2 ^ 16
  pub id_count : d.id_count < 2 ^ 16
  pub version_major : d.version_major < 2 ^ 16
  pub version_minor : d.version_minor < 2 ^ 16
  pub root_inode : d.root_inode < 2 ^ 64
  pub bytes_used : d.bytes_used < 2 ^ 64
  pub id_table : d.id_table < 2 ^ 64
  pub xattr_table : d.xattr_table < 2 ^ 64
  pub inode_table : d.inode_table < 2 ^ 64
  pub dir_table : d.dir_table < 2 ^ 64
  pub frag_table : d.frag_table < 2 ^ 64
  pub export_table : d.export_table < 2 ^ 64

-- Reading the 96 bytes of an encoded superblock whose fields fit their widths gives every field back.
pub disk_superblock-encode : (d : DiskSuperblock) → IsEncodable d → disk_superblock (encode d) ≡ d
unfolding disk_superblock encode
disk_superblock-encode d h = λ i. record {
  magic = le32_to_cpu-put_le32 d.magic (drop 4 (encode d)) h.magic i;
  inode_count = le32_to_cpu-put_le32 d.inode_count (drop 8 (encode d)) h.inode_count i;
  mod_time = le32_to_cpu-put_le32 d.mod_time (drop 12 (encode d)) h.mod_time i;
  block_size = le32_to_cpu-put_le32 d.block_size (drop 16 (encode d)) h.block_size i;
  frag_count = le32_to_cpu-put_le32 d.frag_count (drop 20 (encode d)) h.frag_count i;
  compressor = le16_to_cpu-put_le16 d.compressor (drop 22 (encode d)) h.compressor i;
  block_log = le16_to_cpu-put_le16 d.block_log (drop 24 (encode d)) h.block_log i;
  flags = le16_to_cpu-put_le16 d.flags (drop 26 (encode d)) h.flags i;
  id_count = le16_to_cpu-put_le16 d.id_count (drop 28 (encode d)) h.id_count i;
  version_major = le16_to_cpu-put_le16 d.version_major (drop 30 (encode d)) h.version_major i;
  version_minor = le16_to_cpu-put_le16 d.version_minor (drop 32 (encode d)) h.version_minor i;
  root_inode = le64_to_cpu-put_le64 d.root_inode (drop 40 (encode d)) h.root_inode i;
  bytes_used = le64_to_cpu-put_le64 d.bytes_used (drop 48 (encode d)) h.bytes_used i;
  id_table = le64_to_cpu-put_le64 d.id_table (drop 56 (encode d)) h.id_table i;
  xattr_table = le64_to_cpu-put_le64 d.xattr_table (drop 64 (encode d)) h.xattr_table i;
  inode_table = le64_to_cpu-put_le64 d.inode_table (drop 72 (encode d)) h.inode_table i;
  dir_table = le64_to_cpu-put_le64 d.dir_table (drop 80 (encode d)) h.dir_table i;
  frag_table = le64_to_cpu-put_le64 d.frag_table (drop 88 (encode d)) h.frag_table i;
  export_table = le64_to_cpu-put_le64 d.export_table (drop 96 (encode d)) h.export_table i;
}
