-- ===== src/Inode/Load/Others.antt =====
-- src/core/inode.c, `sqfs_inode_get_by_ref` on the inodes of directories and symlinks.
use squashfs_fuse.Common.{
  ℕ, ◌+◌, ◌^◌, ◌≤◌, ◌<◌, min, [], ◌++◌, none, some, ◌≡◌, ◌≢◌, ap, arith, length, length-append,
  drop, append-nil, sym, Option-cases, inl, inr,
}
use squashfs_fuse.Inode.Load.{inode_size, get_by_ref, meta_ref_pos, meta_ref_offset}
use squashfs_fuse.Inode.Load.Reference.{read_inode_metadata-there}
use squashfs_fuse.Inode.Parse.Disk.{DiskDir, put_dir, DirFits, dir_inode, with_header}
use squashfs_fuse.Inode.Parse.Encoding.{put_header, HeaderFits, parse_inode_header-put_header}
use squashfs_fuse.Inode.Parse.RoundTrip.{parse_inode-dir}
use squashfs_fuse.Inode.Parse.Symlink.{put_symlink, link_data, parse_inode-symlink}
use squashfs_fuse.Inode.Parse.{Header, known_type, allocate}
use squashfs_fuse.Inode.{of_u16, dir, symlink, symlink_body}
use squashfs_fuse.Metadata.{meta_read_block}
use squashfs_fuse.Platform.{Platform}
use squashfs_fuse.Result.{ok}
use squashfs_fuse.Superblock.{Superblock}
use squashfs_fuse.Utils.Endian.{put_le32, le32_to_cpu-put_le32}
use squashfs_fuse.Utils.{Bytes, u64}

module _ (p : Platform) (sb : Superblock) (ref : ℕ) (before : Bytes)
    (at : meta_ref_offset ref ≡ length before) (h : Header) (fits : HeaderFits h) (stale : Bytes)
    (memory : (size : ℕ) → p.malloc size ≢ none) where
  room : (size : ℕ) → (address : ℕ) × (p.malloc size ≡ some address)
  room size = elim (Option-cases (p.malloc size)) [
    | inl refused ↦ absurd (memory size refused)
    | inr (address, got) ↦ (address, got)
  ]

  -- A basic directory inode whose fields fit their widths is loaded, if it stands whole in one
  -- metadata block at the offset of its reference and no allocation fails.
  pub get_by_ref-dir :
      (d : DiskDir) (after : Bytes)
      → h.type ≡ 1
      → DirFits d
      → meta_read_block p (u64 (sb.disk.inode_table + meta_ref_pos ref))
        ≡ ok (before ++ put_header h (put_dir d after))
      → get_by_ref p sb ref stale ≡ ok (dir_inode h d)
  unfolding get_by_ref of_u16 inode_size
  get_by_ref-dir d after type fd found =
      let raw = put_header h (drop 16 stale) in
      let known : known_type h.type ≡ ok dir = ground arith in
      let (address, found_room) = room 80 in
      let got : allocate p.malloc 80 ≡ ok address = ground arith in
      let there = read_inode_metadata-there p sb ref before at in
      rw
        (
          there (put_header h []) (put_dir d after) found,
          parse_inode_header-put_header h (drop 16 stale) fits,
          known,
          there (put_header h (put_dir d [])) after found,
          got,
        )
        (parse_inode-dir p.malloc memory h fits sb.disk.block_size 32 (drop 16 (drop 16 stale)) d
          type fd (omega arith))

  -- A symlink inode whose fields fit their widths is loaded with its path, if it stands whole in one
  -- metadata block at the offset of its reference and no allocation fails.
  pub get_by_ref-symlink :
      (links : ℕ) (path after : Bytes)
      → h.type ≡ 3
      → links < 2 ^ 32
      → 24 + length path ≤ 8192
      → meta_read_block p (u64 (sb.disk.inode_table + meta_ref_pos ref))
        ≡ ok (before ++ put_header h (put_symlink links path after))
      → (block : ℕ) × (get_by_ref p sb ref stale
          ≡ ok (with_header h symlink links (symlink_body (link_data block block path)) none))
  unfolding get_by_ref of_u16 inode_size
  get_by_ref-symlink links path after type hl small found =
      let (block, block_room) = room (length path + 1) in
      let known : known_type h.type ≡ ok symlink = ground arith in
      let (address, found_room) = room 80 in
      let got : allocate p.malloc 80 ≡ ok address = ground arith in
      let there = read_inode_metadata-there p sb ref before at in
      let head = put_le32 links (put_le32 (length path) []) in
      let raw_inode =
        put_header h (put_le32 links (put_le32 (length path) (drop 8 (drop 16 stale)))) in
      let whole = put_header h (put_symlink links path []) in
      let ends = append-nil path in
      let size : length whole ≡ 24 + length path = omega (arith, length-append path []) in
      let cut : min (24 + length path) 8192 ≡ 24 + length path = omega arith in
      let split : path ++ after ≡ (path ++ []) ++ after = ap (λ t. t ++ after) (sym ends) in
      let behind = drop (length whole) raw_inode in
      let joined : (path ++ []) ++ behind ≡ path ++ behind = ap (λ t. t ++ behind) ends in
      (
        block,
        rw
            (
              there (put_header h []) (put_symlink links path after) found,
              parse_inode_header-put_header h (drop 16 stale) fits,
              known,
              there (put_header h head) (path ++ after) found,
              le32_to_cpu-put_le32 (length path) (drop 8 (drop 16 stale)) (omega arith),
              cut,
              rw size at (there whole after (rw split at found)),
              got,
              joined,
            )
            (parse_inode-symlink p.malloc h links path behind block hl (omega arith) block_room
              sb.disk.block_size (24 + length path) type fits (omega arith)).0,
      )
