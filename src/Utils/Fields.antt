-- ===== src/Utils/Fields.antt =====
-- src/core/utils.h, references, stored sizes and device numbers: what each packs and unpacks.
use squashfs_fuse.Common.{ℕ, ◌+◌, ◌*◌, ◌/◌, ◌%◌, ◌^◌, ◌<◌, bit_and, bit_or, ◌≡◌, arith, ◌==◌}
use squashfs_fuse.Common.Bits.{
  bit_and_mask, bit_and_shifted, bit_and_bit, bit_or_fields, bit_or_fields_low,
}
use squashfs_fuse.Utils.{
  meta_block_pos, meta_block_offset, make_meta_ref, block_is_uncompressed, block_size, dev_major,
  dev_minor,
}

pub meta_block_offset-eq : (ref : ℕ) → meta_block_offset ref ≡ ref % 2 ^ 16
unfolding meta_block_offset
meta_block_offset-eq ref = omega (arith, bit_and_mask 16 ref)

-- A reference made from a 48-bit position and a 16-bit offset gives both back.
pub make_meta_ref-fields :
    (pos offset : ℕ)
    → pos < 2 ^ 48
    → offset < 2 ^ 16
    → (meta_block_pos (make_meta_ref pos offset) ≡ pos)
      × (meta_block_offset (make_meta_ref pos offset) ≡ offset)
unfolding make_meta_ref meta_block_pos
make_meta_ref-fields pos offset hp ho =
    let fits : pos * 2 ^ 16 % 2 ^ 64 ≡ pos * 2 ^ 16 = omega arith in
    let sum : bit_or (pos * 2 ^ 16 % 2 ^ 64) offset ≡ pos * 2 ^ 16 + offset =
      rw fits (bit_or_fields 16 pos offset ho) in
    (omega arith, omega (arith, meta_block_offset-eq (bit_or (pos * 2 ^ 16 % 2 ^ 64) offset)))

pub block_size-eq : (size : ℕ) → block_size size ≡ size % 2 ^ 24
unfolding block_size
block_size-eq size = bit_and_mask 24 size

pub block_is_uncompressed-eq : (size : ℕ) → block_is_uncompressed size ≡ (size / 2 ^ 24 % 2 == 1)
unfolding block_is_uncompressed
block_is_uncompressed-eq size = ground (arith, bit_and_bit 24 size)

pub dev_major-eq : (dev : ℕ) → dev_major dev ≡ dev / 2 ^ 8 % 2 ^ 12
unfolding dev_major
dev_major-eq dev = omega (arith, bit_and_shifted 8 dev 0xfff, bit_and_mask 12 (dev / 2 ^ 8))

pub dev_minor-eq : (dev : ℕ) → dev_minor dev ≡ dev / 2 ^ 20 % 2 ^ 12 * 2 ^ 8 + dev % 2 ^ 8
unfolding dev_minor
dev_minor-eq dev =
    let low = bit_and_mask 8 dev in
    let shifted = bit_and_shifted 8 (dev / 2 ^ 12) 0xfff in
    let high : bit_and (dev / 2 ^ 12 / 2 ^ 8) 0xfff ≡ dev / 2 ^ 20 % 2 ^ 12 =
      omega (arith, bit_and_mask 12 (dev / 2 ^ 12 / 2 ^ 8)) in
    rw (low, shifted, high)
      (bit_or_fields_low 8 (dev / 2 ^ 20 % 2 ^ 12) (dev % 2 ^ 8) (omega arith))

-- The encoding of a device number in the format: 12 bits of major, 20 bits of minor.
abbrev pub encode_dev : ℕ → ℕ → ℕ
encode_dev major minor = minor / 2 ^ 8 * 2 ^ 20 + major * 2 ^ 8 + minor % 2 ^ 8

-- The decoders recover a 12-bit major number and a 20-bit minor number from their encoding.
pub dev_fields :
    (major minor : ℕ)
    → major < 2 ^ 12
    → minor < 2 ^ 20
    → (dev_major (encode_dev major minor) ≡ major) × (dev_minor (encode_dev major minor) ≡ minor)
dev_fields major minor hm hn = (
  omega (arith, dev_major-eq (encode_dev major minor)),
  omega (arith, dev_minor-eq (encode_dev major minor)),
)
