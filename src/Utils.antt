-- ===== src/Utils.antt =====
-- src/core/utils.h: references into metadata tables, block sizes, device numbers, little-endian
-- fields. A word of w bits is a number below 2 ^ w; a cast to w bits is `% 2 ^ w`.
pub mod Endian
pub mod Fields
pub mod Pread
pub mod Image
use squashfs_fuse.Common.{ℕ, ◌*◌, ◌/◌, ◌%◌, ◌^◌, bit_and, bit_or, Bool, not, List, ◌==◌, get_or}

abbrev pub Bytes : Type 0
Bytes = List ℕ

abbrev pub u16 : ℕ → ℕ
u16 x = x % 2 ^ 16

abbrev pub u32 : ℕ → ℕ
u32 x = x % 2 ^ 32

abbrev pub u64 : ℕ → ℕ
u64 x = x % 2 ^ 64

-- `sqfs_meta_block_pos`, `sqfs_meta_block_offset`, `sqfs_make_meta_ref`.
unfoldable pub meta_block_pos : ℕ → ℕ
meta_block_pos ref = ref / 2 ^ 16

unfoldable pub meta_block_offset : ℕ → ℕ
meta_block_offset ref = u16 (bit_and ref 0xffff)

unfoldable pub make_meta_ref : ℕ → ℕ → ℕ
make_meta_ref pos offset = bit_or (u64 (pos * 2 ^ 16)) offset

-- Bit 24 of a stored size: the block is not compressed.
unfoldable pub block_is_uncompressed : ℕ → Bool
block_is_uncompressed size = not (bit_and size (2 ^ 24) == 0)

unfoldable pub block_size : ℕ → ℕ
block_size size = bit_and size 0x00ffffff

unfoldable pub dev_major : ℕ → ℕ
dev_major dev = bit_and dev 0xfff00 / 2 ^ 8

unfoldable pub dev_minor : ℕ → ℕ
dev_minor dev = bit_or (bit_and dev 0x000ff) (bit_and (dev / 2 ^ 12) 0xfff00)

-- The readers take the bytes from a pointer on, as the list that starts there.
unfoldable pub le16_to_cpu : Bytes → ℕ
le16_to_cpu p = bit_or (get_or p 0 0) (get_or p 1 0 * 2 ^ 8)

unfoldable pub le32_to_cpu : Bytes → ℕ
le32_to_cpu p =
    bit_or (bit_or (bit_or (get_or p 0 0) (get_or p 1 0 * 2 ^ 8)) (get_or p 2 0 * 2 ^ 16))
      (get_or p 3 0 * 2 ^ 24)

unfoldable pub le64_to_cpu : Bytes → ℕ
le64_to_cpu p =
    let b32 = bit_or (le32_to_cpu p) (get_or p 4 0 * 2 ^ 32) in
    let b48 = bit_or (bit_or b32 (get_or p 5 0 * 2 ^ 40)) (get_or p 6 0 * 2 ^ 48) in
    bit_or b48 (get_or p 7 0 * 2 ^ 56)
