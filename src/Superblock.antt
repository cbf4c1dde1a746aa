-- ===== src/Superblock.antt =====
-- src/core/superblock.h and superblock.c: the superblock of an image, read and validated.
-- The program copies the 96 bytes into a packed struct, so the model reads little-endian fields, as
-- a little-endian host does. `fstat` and the read of the image enter as arguments.
pub mod BlockSize
pub mod Encoding
pub mod Load
use squashfs_fuse.Common.{
  ℕ, zero, suc, ◌+◌, ◌-◌, ◌/◌, ◌^◌, ◌<◌, bit_and, Bool, true, false, not, ◌&&◌, ◌||◌, Option, none,
  some, drop, arith, lt_wf, ltb, ◌==◌, if◌then◌else◌,
}
use mathlib.Core.Logic.{dite}
use mathlib.Core.WellFounded.{Acc}
use native.Mathlib.Decide.{dec_lt}
use squashfs_fuse.Result.{
  Result, ok, err, fault, corrupt, bad_magic, bad_version, bad_comp, io, ◌>>=◌, ◌>>◌, check,
}
use squashfs_fuse.Stats.{ErrorStats, error_io, error_corrupt}
use squashfs_fuse.Utils.{Bytes, u16, le16_to_cpu, le32_to_cpu, le64_to_cpu}

-- `squashfs_superblock_t`.
pub record DiskSuperblock : Type 0 where
  pub magic : ℕ
  pub inode_count : ℕ
  pub mod_time : ℕ
  pub block_size : ℕ
  pub frag_count : ℕ
  pub compressor : ℕ
  pub block_log : ℕ
  pub flags : ℕ
  pub id_count : ℕ
  pub version_major : ℕ
  pub version_minor : ℕ
  pub root_inode : ℕ
  pub bytes_used : ℕ
  pub id_table : ℕ
  pub xattr_table : ℕ
  pub inode_table : ℕ
  pub dir_table : ℕ
  pub frag_table : ℕ
  pub export_table : ℕ

-- `sqfs_superblock_t`.
pub record Superblock : Type 0 where
  pub disk : DiskSuperblock
  pub fd : ℕ
  pub file_size : ℕ
  pub has_xattrs : Bool
  pub has_fragments : Bool
  pub has_export : Bool

abbrev pub superblock_size : ℕ
superblock_size = 96

abbrev pub squashfs_magic : ℕ
squashfs_magic = 0x73717368

abbrev pub comp_gzip : ℕ
comp_gzip = 1

abbrev pub comp_zstd : ℕ
comp_zstd = 6

abbrev pub flag_no_frags : ℕ
flag_no_frags = 0x0010

abbrev pub flag_no_xattrs : ℕ
flag_no_xattrs = 0x0200

abbrev pub invalid_offset : ℕ
invalid_offset = 2 ^ 64 - 1

unfoldable pub table_valid : ℕ → Bool
table_valid offset = not (offset == invalid_offset)

-- The raw superblock behind `sqfs_pread_all(fd, &disk_sb, sizeof(disk_sb), 0)`.
unfoldable pub disk_superblock : Bytes → DiskSuperblock
disk_superblock raw = record {
  magic = le32_to_cpu raw;
  inode_count = le32_to_cpu (drop 4 raw);
  mod_time = le32_to_cpu (drop 8 raw);
  block_size = le32_to_cpu (drop 12 raw);
  frag_count = le32_to_cpu (drop 16 raw);
  compressor = le16_to_cpu (drop 20 raw);
  block_log = le16_to_cpu (drop 22 raw);
  flags = le16_to_cpu (drop 24 raw);
  id_count = le16_to_cpu (drop 26 raw);
  version_major = le16_to_cpu (drop 28 raw);
  version_minor = le16_to_cpu (drop 30 raw);
  root_inode = le64_to_cpu (drop 32 raw);
  bytes_used = le64_to_cpu (drop 40 raw);
  id_table = le64_to_cpu (drop 48 raw);
  xattr_table = le64_to_cpu (drop 56 raw);
  inode_table = le64_to_cpu (drop 64 raw);
  dir_table = le64_to_cpu (drop 72 raw);
  frag_table = le64_to_cpu (drop 80 raw);
  export_table = le64_to_cpu (drop 88 raw);
}

-- `while (temp > 1) { temp >>= 1; computed_log++; }`
unfoldable pub log_loop : (temp computed_log : ℕ) → Acc ◌<◌ temp → ℕ
log_loop temp computed_log (Acc.intro _ smaller) =
    dite (dec_lt 1 temp)
      (λ h. log_loop (temp / 2) (u16 (computed_log + 1)) (smaller (temp / 2) (omega arith)))
      (λ _. computed_log)

unfoldable pub validate_block_size : ℕ → ℕ → Result (Unit {0})
validate_block_size block_size block_log =
    if block_size == 0 || not (bit_and block_size (block_size - 1) == 0)
    then err corrupt
    else if ltb block_size 4096 || ltb 1048576 block_size
    then err corrupt
    else if not (log_loop block_size 0 (lt_wf.apply block_size) == block_log)
    then err corrupt
    else ok tt

unfoldable pub is_compressor_supported : ℕ → Bool
is_compressor_supported comp_id = comp_id == comp_gzip || comp_id == comp_zstd

-- What `sqfs_superblock_load` leaves in `*sb` and in the counters, and what it returns.
pub record Loaded : Type 0 where
  pub sb : Superblock
  pub errors : ErrorStats
  pub code : Result (Unit {0})

-- `memset(sb, 0, sizeof(*sb))`
abbrev pub zero_disk : DiskSuperblock
zero_disk = record {
  magic = 0;
  inode_count = 0;
  mod_time = 0;
  block_size = 0;
  frag_count = 0;
  compressor = 0;
  block_log = 0;
  flags = 0;
  id_count = 0;
  version_major = 0;
  version_minor = 0;
  root_inode = 0;
  bytes_used = 0;
  id_table = 0;
  xattr_table = 0;
  inode_table = 0;
  dir_table = 0;
  frag_table = 0;
  export_table = 0;
}

abbrev pub zero_superblock : Superblock
zero_superblock = record {
  disk = zero_disk;
  fd = 0;
  file_size = 0;
  has_xattrs = false;
  has_fragments = false;
  has_export = false;
}

-- The checks behind the read, on `disk_sb`; `sb` holds the file's descriptor and size so far.
pub validate : DiskSuperblock → Superblock → ErrorStats → Loaded
validate d sb e =
    if not (d.magic == squashfs_magic)
    then record { sb = sb; errors = error_corrupt e; code = err bad_magic }
    else if not (d.version_major == 4) || not (d.version_minor == 0)
    then record { sb = sb; errors = e; code = err bad_version }
    else if not (is_compressor_supported d.compressor)
    then record { sb = sb; errors = e; code = err bad_comp }
    else elim (validate_block_size d.block_size d.block_log) [
      | err x ↦ record { sb = sb; errors = error_corrupt e; code = err x }
      | fault ↦ record { sb = sb; errors = e; code = fault }
      | ok _ ↦
          if ltb sb.file_size d.bytes_used
          then record { sb = sb; errors = error_corrupt e; code = err corrupt }
          else record {
            sb = record sb {
              disk = d;
              has_fragments = (bit_and d.flags flag_no_frags == 0) && table_valid d.frag_table;
              has_xattrs = (bit_and d.flags flag_no_xattrs == 0) && table_valid d.xattr_table;
              has_export = table_valid d.export_table;
            };
            errors = e;
            code = ok tt;
          }
    ]

-- `fstat` gives the file's size, or fails; `pread_all count offset` is `sqfs_pread_all` on `fd`.
unfoldable pub load : (ℕ → ℕ → Result Bytes) → Option ℕ → ℕ → ErrorStats → Loaded
unfolding validate
load pread_all none fd e = record { sb = zero_superblock; errors = error_io e; code = err io }
load pread_all (some size) fd e =
    let sb = record zero_superblock { fd = fd; file_size = size } in
    elim (pread_all superblock_size 0) [
      | err x ↦ record { sb = sb; errors = error_io e; code = err x }
      | fault ↦ record { sb = sb; errors = e; code = fault }
      | ok raw ↦ validate (disk_superblock raw) sb e
    ]
