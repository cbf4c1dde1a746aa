-- ===== src/Directory/Table.antt =====
-- src/core/directory.c, `read_meta_block` and `read_directory_data`: the bytes of a listing, from the
-- metadata blocks of the directory table. This reader is not the one of data.c: it checks no size.
pub mod Chain
pub mod Fuel
use squashfs_fuse.Common.{
  ℕ, zero, suc, ◌+◌, ◌-◌, min, ◌++◌, Bool, true, false, Option, none, some, length, take, drop, ltb,
  leb, if◌then◌else◌,
}
use squashfs_fuse.Metadata.{
  meta_block_size, meta_header_is_uncompressed, meta_header_size, allocate, decompress,
}
use squashfs_fuse.Platform.{Platform}
use squashfs_fuse.Result.{Result, ok, err, fault, bad_dir, ◌>>=◌}
use squashfs_fuse.Utils.{Bytes, u64, le16_to_cpu}

module _ (p : Platform) where
  -- Stored data is read straight into the buffer of 8192 bytes: more than that overflows it.
  unfoldable pub decompress_meta_block : ℕ → ℕ → Bool → Result Bytes
  decompress_meta_block pos comp_size is_uncomp =
      if is_uncomp
      then (p.pread_all comp_size pos >>= λ bytes.
          if leb (length bytes) meta_block_size then ok bytes else fault)
      else (allocate p comp_size >>= λ _.
          p.pread_all comp_size pos >>= λ src. decompress p src meta_block_size)

  -- The bytes of the block, and `*next_pos`.
  unfoldable pub read_meta_block : ℕ → Result (Bytes × ℕ)
  read_meta_block pos = do
    raw ← p.pread_all 2 pos
    let header = le16_to_cpu raw
    let comp_size = meta_header_size header
    bytes ← decompress_meta_block (u64 (pos + 2)) comp_size (meta_header_is_uncompressed header)
    ok (bytes, u64 (pos + 2 + comp_size))

  -- `while (copied < size)`; `buffer` has what was copied so far. `none`: the fuel ran out.
  unfoldable pub read_remaining : ℕ → ℕ → ℕ → Bytes → Option (Result Bytes)
  read_remaining zero block_pos size buffer = none
  read_remaining (suc fuel) block_pos size buffer = elim (ltb (length buffer) size) [
    | false ↦ some (ok buffer)
    | true ↦ elim (read_meta_block block_pos) [
      | err e ↦ some (err e)
      | fault ↦ some fault
      | ok (block, next_pos) ↦
          let to_copy = min (size - length buffer) (length block) in
          read_remaining fuel next_pos size (buffer ++ take to_copy block)
    ]
  ]

  unfoldable pub read_directory_data : ℕ → ℕ → ℕ → ℕ → ℕ → Option (Result Bytes)
  unfolding read_remaining
  read_directory_data fuel dir_table block_idx block_offset size =
      elim (read_meta_block (u64 (dir_table + block_idx))) [
        | err e ↦ some (err e)
        | fault ↦ some fault
        | ok (block, next_pos) ↦
            if leb (length block) block_offset
            then some (err bad_dir)
            else if leb (block_offset + size) (length block)
            then some (ok (take size (drop block_offset block)))
            else read_remaining fuel next_pos size (drop block_offset block)
      ]
