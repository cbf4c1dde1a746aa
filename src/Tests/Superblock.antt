-- ===== src/Tests/Superblock.antt =====
-- src/core/superblock.c on an image of 96 bytes.
use squashfs_fuse.Common.{ℕ, ◌≡◌, ◌≢◌, ◌↔◌, ap, lt_wf, ◌⊎◌, inr, refl, some, arith}
use native.Mathlib.Decide.{dec_lt}
use squashfs_fuse.Result.{Result, ok, err, corrupt}
use squashfs_fuse.Stats.{ErrorStats}
use squashfs_fuse.Superblock.BlockSize.{IsBlockSize, validate_block_size_iff}
use squashfs_fuse.Superblock.Encoding.{encode, IsEncodable, disk_superblock-encode}
use squashfs_fuse.Superblock.Load
use squashfs_fuse.Superblock.Load.{IsLoadable, accepted, counted}
use squashfs_fuse.Superblock.{
  DiskSuperblock, disk_superblock, load, log_loop, validate_block_size, invalid_offset,
}
use squashfs_fuse.Utils.Pread.{read_image}
use squashfs_fuse.Utils.{Bytes}

abbrev small : DiskSuperblock
small = record {
  magic = 0x73717368;
  inode_count = 1;
  mod_time = 0x5f000000;
  block_size = 131072;
  frag_count = 0;
  compressor = 6;
  block_log = 17;
  flags = 0x0210;
  id_count = 1;
  version_major = 4;
  version_minor = 0;
  root_inode = 0x20;
  bytes_used = 96;
  id_table = 90;
  xattr_table = invalid_offset;
  inode_table = 96;
  dir_table = 96;
  frag_table = invalid_offset;
  export_table = invalid_offset;
}

small-IsEncodable : IsEncodable small
small-IsEncodable = omega arith

abbrev quiet : ErrorStats
quiet = record { total = 0; io = 0; corrupt = 0; no_memory = 0 }

abbrev reader : ℕ → ℕ → Result Bytes
reader = read_image (encode small)

validate_block_size_run :
    (validate_block_size 131072 17 ≡ ok tt)
    × (validate_block_size 131072 16 ≡ err corrupt)
    × (validate_block_size 131071 17 ≡ err corrupt)
unfolding validate_block_size log_loop lt_wf dec_lt
validate_block_size_run = (refl, refl, refl)

validate_block_size_iff_example :
    ((validate_block_size 4096 12 ≡ ok tt) ↔ IsBlockSize 4096 12)
    × ((validate_block_size 4096 12 ≡ ok tt) ⊎ (validate_block_size 4096 12 ≡ err corrupt))
validate_block_size_iff_example = validate_block_size_iff 4096 12

read_small : reader 96 0 ≡ ok (encode small)
unfolding read_image encode
read_small = refl

small-IsLoadable : IsLoadable (disk_superblock (encode small)) 4096
small-IsLoadable = rw (disk_superblock-encode small small-IsEncodable) (record {
  magic = refl;
  major = refl;
  minor = refl;
  compressor = inr refl;
  block = (omega arith, omega arith, refl);
  used = omega arith;
})

load_iff_example :
    ((load reader (some 4096) 3 quiet).code ≡ ok tt)
    ↔ IsLoadable (disk_superblock (encode small)) 4096
load_iff_example = Load.load_iff reader 4096 3 quiet read_small

-- A file of 50 bytes is too short for the 96 bytes that the superblock claims to use.
too_short : (load reader (some 50) 3 quiet).code ≢ ok tt
too_short h =
    let loadable = (Load.load_iff reader 50 3 quiet read_small).0 h in
    absurd (
      omega (
        arith,
        loadable.used,
        ap (λ (d : DiskSuperblock). d.bytes_used) (disk_superblock-encode small small-IsEncodable),
      ))
