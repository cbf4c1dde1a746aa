-- ===== src/Superblock/Load.antt =====
-- src/core/superblock.c, `sqfs_superblock_load`: which images are accepted, what is kept of them,
-- and what is counted.
use squashfs_fuse.Common.{
  ℕ, ◌/◌, ◌%◌, ◌^◌, ◌≤◌, false, ◌&&◌, ◌≡◌, ◌≢◌, ◌↔◌, ◌⊎◌, arith, Option, some, ◌==◌,
}
use squashfs_fuse.Common.Bits.{bit_and_bit}
use squashfs_fuse.Result.{Result, ok, err, fault, bad_version, bad_comp}
use squashfs_fuse.Stats.{ErrorStats, error_corrupt}
use squashfs_fuse.Superblock.BlockSize.{IsBlockSize, validate_block_size_iff}
use squashfs_fuse.Superblock.{
  DiskSuperblock, Superblock, disk_superblock, validate, load, validate_block_size,
  is_compressor_supported, table_valid, squashfs_magic, superblock_size, comp_gzip, comp_zstd,
  zero_superblock, zero_disk,
}
use squashfs_fuse.Utils.{Bytes}

-- An image of `size` bytes whose superblock this program takes.
pub record IsLoadable (d : DiskSuperblock) (size : ℕ) : Type 0 where
  pub magic : d.magic ≡ squashfs_magic
  pub major : d.version_major ≡ 4
  pub minor : d.version_minor ≡ 0
  pub compressor : (d.compressor ≡ comp_gzip) ⊎ (d.compressor ≡ comp_zstd)
  pub block : IsBlockSize d.block_size d.block_log
  pub used : d.bytes_used ≤ size

validate-IsLoadable :
    (d : DiskSuperblock) (sb : Superblock) (e : ErrorStats)
    → (validate d sb e).code ≡ ok tt
    → IsLoadable d sb.file_size
unfolding validate is_compressor_supported
validate-IsLoadable d sb e h =
    let guards : (d.magic ≡ squashfs_magic)
        × (d.version_major ≡ 4)
        × (d.version_minor ≡ 0)
        × ((d.compressor ≡ comp_gzip) ⊎ (d.compressor ≡ comp_zstd))
        × (validate_block_size d.block_size d.block_log ≡ ok tt)
        × (d.bytes_used ≤ sb.file_size) =
      ground arith in
    record {
      magic = guards.0;
      major = guards.1;
      minor = guards.2;
      compressor = guards.3;
      block = (validate_block_size_iff d.block_size d.block_log).0.0 guards.4;
      used = guards.5;
    }

-- The runtime superblock of an accepted image.
abbrev pub accepted : DiskSuperblock → ℕ → ℕ → Superblock
accepted d fd size = record {
  disk = d;
  fd = fd;
  file_size = size;
  has_xattrs = (d.flags / 2 ^ 9 % 2 == 0) && table_valid d.xattr_table;
  has_fragments = (d.flags / 2 ^ 4 % 2 == 0) && table_valid d.frag_table;
  has_export = table_valid d.export_table;
}

validate-accepted :
    (d : DiskSuperblock) (fd size : ℕ) (e : ErrorStats)
    → IsLoadable d size
    → validate d (record zero_superblock { fd = fd; file_size = size }) e
      ≡ record { sb = accepted d fd size; errors = e; code = ok tt }
unfolding validate is_compressor_supported
validate-accepted d fd size e h =
    let block = (validate_block_size_iff d.block_size d.block_log).0.1 h.block in
    ground (arith, block, bit_and_bit 9 d.flags, bit_and_bit 4 d.flags)

abbrev pub counted : Result (Unit {0}) → ErrorStats → ErrorStats
counted (ok _) e = e
counted fault e = e
counted (err bad_version) e = e
counted (err bad_comp) e = e
counted (err _) e = error_corrupt e

module _ (pread_all : ℕ → ℕ → Result Bytes) {raw : Bytes} (size fd : ℕ) (e : ErrorStats)
    (read : pread_all superblock_size 0 ≡ ok raw) where
  -- An image that could be read is accepted exactly when its magic number is that of the format, its
  -- version is 4.0, its compressor is gzip or zstd, the two of the format's that this program has, its block
  -- size is a power of two from 4 KiB to 1 MiB with its logarithm, and its file is as long as it says.
  pub load_iff :
      ((load pread_all (some size) fd e).code ≡ ok tt) ↔ IsLoadable (disk_superblock raw) size
  unfolding load
  load_iff =
      let sb = record zero_superblock { fd = fd; file_size = size } in
      (
        λ h. validate-IsLoadable (disk_superblock raw) sb e (ground arith),
        λ h. ground (arith, validate-accepted (disk_superblock raw) fd size e h),
      )

  -- Of an image that could be read and is accepted the superblock is kept, with the descriptor and the size of the file;
  -- fragments and xattrs are on if their flag bit is clear and their table exists, export if its
  -- table exists; no error is counted.
  pub load-accepted :
      IsLoadable (disk_superblock raw) size
      → load pread_all (some size) fd e
        ≡ record { sb = accepted (disk_superblock raw) fd size; errors = e; code = ok tt }
  unfolding load
  load-accepted h = ground (arith, validate-accepted (disk_superblock raw) fd size e h)

  -- A version or compressor that is not supported is not counted as an error; every other refusal
  -- of an image that could be read is counted as corruption, once.
  pub load-counted :
      (load pread_all (some size) fd e).errors ≡ counted (load pread_all (some size) fd e).code e
  unfolding load
  load-counted =
      let d = disk_superblock raw in
      ground (arith, (validate_block_size_iff d.block_size d.block_log).1)

-- A load that fails, for whatever reason, keeps nothing of the image: the disk superblock stays
-- zero, and no table counts as present.
pub load-refused :
    (pread_all : ℕ → ℕ → Result Bytes) (stat : Option ℕ) (fd : ℕ) (e : ErrorStats)
    → (load pread_all stat fd e).code ≢ ok tt
    → ((load pread_all stat fd e).sb.disk ≡ zero_disk)
      × ((load pread_all stat fd e).sb.has_xattrs ≡ false)
      × ((load pread_all stat fd e).sb.has_fragments ≡ false)
      × ((load pread_all stat fd e).sb.has_export ≡ false)
unfolding load
load-refused pread_all stat fd e h = ground arith
