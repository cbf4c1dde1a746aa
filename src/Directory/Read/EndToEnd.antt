-- ===== src/Directory/Read/EndToEnd.antt =====
-- src/core/directory.c, `sqfs_dir_read` on a directory inode whose listing stands in the image.
use squashfs_fuse.Common.{
  ℕ, ◌+◌, ◌≤◌, ◌<◌, List, ◌∷◌, none, some, ◌≡◌, ◌≢◌, inl, inr, arith, true, length, slice,
  Option-cases,
}
use squashfs_fuse.Directory.Listing.{Group, put_groups, GroupsFit, dirents}
use squashfs_fuse.Directory.Read.{dir_read}
use squashfs_fuse.Directory.RoundTrip.{parse_directory_entries-put_groups}
use squashfs_fuse.Directory.Table.Chain.{Chain, contents, read_directory_data-Chain}
use squashfs_fuse.Inode.{Inode, DirData, dir_body, is_dir}
use squashfs_fuse.Platform.{Platform}
use squashfs_fuse.Result.{ok}
use squashfs_fuse.Superblock.{Superblock}
use squashfs_fuse.Utils.{Bytes, u64}

module _ (p : Platform) (sb : Superblock) (memory : (size : ℕ) → p.malloc size ≢ none) where
  -- A directory whose listing stands in a row of metadata blocks, from the place that its inode
  -- names, is read with all its items in order, with their names, types and references, if the fields of
  -- the listing fit their widths, its types are basic, its names have 1 to 65535 bytes, its numbers are
  -- within 2 ^ 15 of their header's, and no allocation fails; fuel for each block is enough. An inode's
  -- number is its own where the header's is below 2 ^ 31; from there on the header's is taken for a
  -- negative one, and the inode's comes out 2 ^ 32 less, in 64 bits.
  pub dir_read-put_groups :
      (fuel : ℕ) (inode : Inode) (d : DirData) (gs : List Group) (b : Bytes) (bs : List Bytes)
      → is_dir inode.type ≡ true
      → inode.body ≡ dir_body d
      → 0 < d.size
      → Chain p (u64 (sb.disk.dir_table + d.block_idx)) (b ∷ bs)
      → length bs < fuel
      → d.block_offset < length b
      → d.block_offset + d.size ≤ length (contents (b ∷ bs))
      → slice (contents (b ∷ bs)) d.block_offset d.size ≡ put_groups gs
      → GroupsFit gs
      → dir_read p sb fuel inode ≡ some (ok (dirents gs))
  unfolding dir_read
  dir_read-put_groups fuel inode d gs b bs type body size chain enough within there is f =
      let read =
        read_directory_data-Chain p fuel sb.disk.dir_table d.block_idx d.block_offset d.size b bs
          chain enough within there in
      let parsed = parse_directory_entries-put_groups p.malloc memory gs f in
      elim (Option-cases (p.malloc d.size)) [
        | inl refused ↦ absurd (memory d.size refused)
        | inr (address, got) ↦ ground (arith, type, body, got, read, is, parsed)
      ]
