-- ===== src/Metadata.antt =====
-- src/core/data.c, the reading of metadata blocks: `read_block_from_disk` and
-- `sqfs_meta_read_block`.
pub mod Block
use squashfs_fuse.Common.{
  ℕ, ◌+◌, bit_and, Bool, true, false, not, ◌||◌, Option, none, some, ltb, ◌==◌, if◌then◌else◌, [],
}
use squashfs_fuse.Platform.{Platform}
use squashfs_fuse.Result.{Result, ok, err, fault, io, corrupt, no_memory, ◌>>=◌, ◌>>◌, check}
use squashfs_fuse.Utils.{Bytes, u64, le16_to_cpu}

abbrev pub meta_block_size : ℕ
meta_block_size = 8192

-- `sqfs_meta_header_is_uncompressed`, `sqfs_meta_header_size`.
unfoldable pub meta_header_is_uncompressed : ℕ → Bool
meta_header_is_uncompressed header = not (bit_and header 0x8000 == 0)

unfoldable pub meta_header_size : ℕ → ℕ
meta_header_size header = bit_and header 0x7fff

module _ (p : Platform) where
  -- Every failure of the read is an I/O error here.
  unfoldable pub read_block_from_disk : ℕ → ℕ → Result Bytes
  read_block_from_disk pos count =
      if count == 0
      then ok []
      else elim (p.pread_all count pos) [ ok bytes ↦ ok bytes | err _ ↦ err io | fault ↦ fault ]

  -- `malloc` where NULL is returned as SQFS_ERR_NO_MEMORY.
  abbrev pub allocate : ℕ → Result ℕ
  allocate size = elim (p.malloc size) [ none ↦ err no_memory | some address ↦ ok address ]

  abbrev pub decompress : Bytes → ℕ → Result Bytes
  decompress src room = elim (p.decompress src room) [ none ↦ err corrupt | some out ↦ ok out ]

  -- Compressed data goes to the end of the output buffer, or to a buffer of its own if it has the
  -- size of the whole.
  abbrev pub compressed_buffer : ℕ → Result ℕ
  compressed_buffer size = if ltb size meta_block_size then ok 0 else allocate size

  -- `data_pos` is behind the header.
  pub meta_read_data : ℕ → ℕ → ℕ → Result Bytes
  meta_read_data data_pos header size =
      if meta_header_is_uncompressed header
      then read_block_from_disk data_pos size
      else (compressed_buffer size >>= λ _.
          read_block_from_disk data_pos size >>= λ src. decompress src meta_block_size)

  -- The bytes of the block at `pos`; `*out_size` is their number.
  unfoldable pub meta_read_block : ℕ → Result Bytes
  meta_read_block pos = do
    raw ← read_block_from_disk pos 2
    let header = le16_to_cpu raw
    let size = meta_header_size header
    check (not (size == 0 || ltb meta_block_size size)) corrupt
    meta_read_data (u64 (pos + 2)) header size
