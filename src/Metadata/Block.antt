-- ===== src/Metadata/Block.antt =====
-- src/core/data.c, `sqfs_meta_read_block`: what it gives fits the 8 KiB buffers of its callers, and
-- it reads back a block that was stored by the format's rules.
use squashfs_fuse.Common.{
  ℕ, ◌+◌, ◌/◌, ◌%◌, ◌^◌, ◌≤◌, ◌<◌, none, some, ◌≡◌, ◌≢◌, refl, Option-cases, ◌∙◌, ap, ◌++◌, [],
  arith, length, length-append, append_assoc, ◌==◌, Bool-cases, inl, inr,
}
use squashfs_fuse.Common.Bits.{bit_and_mask, bit_and_bit}
use squashfs_fuse.Metadata.{
  meta_block_size, meta_header_is_uncompressed, meta_header_size, read_block_from_disk,
  meta_read_data, meta_read_block, allocate, decompress, compressed_buffer,
}
use squashfs_fuse.Platform.{Platform, Serves}
use squashfs_fuse.Result.{ok, >>=-eq-ok}
use squashfs_fuse.Utils.Endian.{put_le16, le16_to_cpu-put_le16}
use squashfs_fuse.Utils.Image.{length-read_image, read_image-append}
use squashfs_fuse.Utils.Pread.{read_image}
use squashfs_fuse.Utils.{Bytes, u64, le16_to_cpu}

pub meta_header_size-eq : (header : ℕ) → meta_header_size header ≡ header % 2 ^ 15
unfolding meta_header_size
meta_header_size-eq header = bit_and_mask 15 header

pub meta_header_is_uncompressed-eq :
    (header : ℕ) → meta_header_is_uncompressed header ≡ (header / 2 ^ 15 % 2 == 1)
unfolding meta_header_is_uncompressed
meta_header_is_uncompressed-eq header = ground (arith, bit_and_bit 15 header)

-- An allocation that does not fail.
pub allocate-ok :
    (p : Platform)
    → ((size : ℕ) → p.malloc size ≢ none)
    → (size : ℕ) → (address : ℕ) × (allocate p size ≡ ok address)
allocate-ok p memory size = elim (Option-cases (p.malloc size)) [
  | inl refused ↦ absurd (memory size refused)
  | inr (address, got) ↦ (address, rw (got, allocate) refl)
]

module _ (p : Platform) {image : Bytes} (s : Serves p image) where
  pub length-read_block_from_disk :
      (pos count : ℕ) {bytes : Bytes}
      → read_block_from_disk p pos count ≡ ok bytes
      → length bytes ≡ count
  unfolding read_block_from_disk
  length-read_block_from_disk pos count {bytes} h =
      ground (arith, s.reads count pos, length-read_image image count pos {bytes = bytes})

  length-decompress :
      (src : Bytes) {bytes : Bytes}
      → decompress p src meta_block_size ≡ ok bytes
      → length bytes ≤ meta_block_size
  length-decompress src {bytes} h = ground (arith, s.fits src meta_block_size bytes)

  length-meta_read_data :
      (pos header size : ℕ) {bytes : Bytes}
      → size ≤ meta_block_size
      → meta_read_data p pos header size ≡ ok bytes
      → length bytes ≤ meta_block_size
  unfolding meta_read_data
  length-meta_read_data pos header size {bytes} small h =
      elim (Bool-cases (meta_header_is_uncompressed header)) [
        | inl stored ↦ omega (arith, length-read_block_from_disk pos size (rw stored at h))
        | inr packed ↦
            let (_, _, h₁) = >>=-eq-ok (compressed_buffer p size) _ (rw packed at h) in
            let (src, _, h₂) = >>=-eq-ok (read_block_from_disk p pos size) _ h₁ in
            length-decompress src h₂
      ]

  -- A metadata block that is read, from any image, fits the 8 KiB buffer that every caller passes.
  pub length-meta_read_block :
      (pos : ℕ) {bytes : Bytes} → meta_read_block p pos ≡ ok bytes → length bytes ≤ meta_block_size
  unfolding meta_read_block
  length-meta_read_block pos {bytes} h =
      let (raw, _, h₁) = >>=-eq-ok (read_block_from_disk p pos 2) _ h in
      let header = le16_to_cpu raw in
      let size = meta_header_size header in
      let read : (size ≤ meta_block_size)
          × (meta_read_data p (u64 (pos + 2)) header size ≡ ok bytes) =
        ground arith in
      length-meta_read_data (u64 (pos + 2)) header size read.0 read.1

  pub read_stored :
      (before part after : Bytes)
      → image ≡ before ++ (part ++ after)
      → 0 < length part
      → read_block_from_disk p (length before) (length part) ≡ ok part
  unfolding read_block_from_disk
  read_stored before part after e pos =
      let there = read_image-append before part after in
      let same = ap (λ t. read_image t (length part) (length before)) e in
      ground (arith, s.reads (length part) (length before), there, same)

  module _ (before payload after : Bytes) (header : ℕ)
      (stored : image ≡ before ++ put_le16 header (payload ++ after))
      (short : length image < 2 ^ 64) (header_fits : header < 2 ^ 16)
      (size_is : header % 2 ^ 15 ≡ length payload) (nonempty : 0 < length payload)
      (small : length payload ≤ meta_block_size) where
    read_payload : read_block_from_disk p (u64 (length before + 2)) (length payload) ≡ ok payload
    read_payload =
        let split : image ≡ (before ++ put_le16 header []) ++ (payload ++ after) =
          rw append_assoc stored in
        let at : length (before ++ put_le16 header []) ≡ u64 (length before + 2) = omega (
          arith,
          length-append before (put_le16 header []),
          ap length stored,
          length-append before (put_le16 header (payload ++ after)),
        ) in
        rw at at (read_stored (before ++ put_le16 header []) payload after split nonempty)

    meta_read_block-data :
        meta_read_block p (length before)
        ≡ meta_read_data p (u64 (length before + 2)) header (length payload)
    unfolding meta_read_block
    meta_read_block-data =
        let header_read =
          read_stored before (put_le16 header []) (payload ++ after) stored (omega arith) in
        let decoded = le16_to_cpu-put_le16 header [] header_fits in
        let size : meta_header_size header ≡ length payload =
          meta_header_size-eq header ∙ size_is in
        rw (header_read, decoded, size) (ground arith)

    -- A metadata block of 1 to 8192 bytes that the image stores, with its flag for uncompressed data
    -- set, is read back as it stands.
    pub meta_read_block-stored :
        header / 2 ^ 15 % 2 ≡ 1 → meta_read_block p (length before) ≡ ok payload
    unfolding meta_read_data
    meta_read_block-stored flag =
        ground (arith, meta_read_block-data, read_payload, meta_header_is_uncompressed-eq header)

    -- A metadata block of 1 to 8192 bytes that the image stores, with its flag for uncompressed data
    -- clear, is read back as what the codec makes of it, if a buffer of 8192 bytes can be had.
    pub meta_read_block-compressed :
        (out : Bytes) (address : ℕ)
        → header / 2 ^ 15 % 2 ≡ 0
        → p.decompress payload meta_block_size ≡ some out
        → p.malloc meta_block_size ≡ some address
        → meta_read_block p (length before) ≡ ok out
    unfolding meta_read_data
    meta_read_block-compressed out address flag unpacked room =
        ground (arith, meta_read_block-data, read_payload, meta_header_is_uncompressed-eq header)
