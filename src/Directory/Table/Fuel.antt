-- ===== src/Directory/Table/Fuel.antt =====
-- src/core/directory.c, `read_directory_data`: the loop over the metadata blocks ends, also where
-- blocks are empty, since the image does.
use squashfs_fuse.Common.{
  ℕ, zero, suc, ◌+◌, ◌-◌, ◌^◌, min, ◌≤◌, ◌<◌, ◌++◌, none, ◌≡◌, ◌≢◌, inl, inr, arith, length, take,
  drop,
}
use squashfs_fuse.Directory.Table.{
  read_meta_block, decompress_meta_block, read_remaining, read_directory_data,
}
use squashfs_fuse.Metadata.{meta_header_size, meta_header_is_uncompressed}
use squashfs_fuse.Metadata.Block.{meta_header_size-eq}
use squashfs_fuse.Platform.{Platform, Serves}
use squashfs_fuse.Result.{ok, Result-cases, >>=-eq-ok}
use squashfs_fuse.Utils.Pread.{read_image}
use squashfs_fuse.Utils.{Bytes, u64, le16_to_cpu}

module _ (p : Platform) {image : Bytes} (s : Serves p image) (finite : length image < 2 ^ 63) where
  -- A block that is read stands within the image, and the next position is behind its header.
  read_meta_block-forward :
      (pos next : ℕ) (block : Bytes)
      → read_meta_block p pos ≡ ok (block, next)
      → (pos + 2 ≤ length image) × (pos + 2 ≤ next)
  unfolding read_meta_block read_image
  read_meta_block-forward pos next block e =
      let (raw, header_read, e₁) = >>=-eq-ok (p.pread_all 2 pos) _ e in
      let header = le16_to_cpu raw in
      let size = meta_header_size header in
      let (bytes, _, e₂) =
        >>=-eq-ok
          (decompress_meta_block p (u64 (pos + 2)) size (meta_header_is_uncompressed header)) _
          e₁ in
      let small = meta_header_size-eq header in
      let served = s.reads 2 pos in
      let inside : pos + 2 ≤ length image = ground (arith, header_read) in
      let is : u64 (pos + 2 + size) ≡ next = ground (arith, e₂) in
      (inside, omega (arith, small, is))

  read_remaining-total :
      (fuel pos size : ℕ) (buffer : Bytes)
      → length image < fuel + pos
      → 0 < fuel
      → read_remaining p fuel pos size buffer ≢ none
  unfolding read_remaining
  read_remaining-total zero pos size buffer enough more e = absurd (omega arith)
  read_remaining-total (suc fuel) pos size buffer enough more e =
      elim (Result-cases (read_meta_block p pos)) [
        | inl ((block, next), read) ↦
            let forward = read_meta_block-forward pos next block read in
            let n = min (size - length buffer) (length block) in
            let rest =
              read_remaining-total fuel next size (buffer ++ take n block) (omega arith)
                (omega arith) in
            ground (arith, read, rest)
        | inr (inl (why, read)) ↦ ground (arith, read)
        | inr (inr read) ↦ ground (arith, read)
      ]

  -- On an image of less than 2 ^ 63 bytes, fuel for each of its bytes and one more is enough,
  -- whatever position and size are asked for.
  pub read_directory_data-total :
      (fuel dir_table block_idx block_offset size : ℕ)
      → length image < fuel
      → read_directory_data p fuel dir_table block_idx block_offset size ≢ none
  unfolding read_directory_data
  read_directory_data-total fuel dir_table block_idx block_offset size enough e =
      elim (Result-cases (read_meta_block p (u64 (dir_table + block_idx)))) [
        | inl ((block, next), read) ↦
            let rest =
              read_remaining-total fuel next size (drop block_offset block) (omega arith)
                (omega arith) in
            ground (arith, read, rest)
        | inr (inl (why, read)) ↦ ground (arith, read)
        | inr (inr read) ↦ ground (arith, read)
      ]
