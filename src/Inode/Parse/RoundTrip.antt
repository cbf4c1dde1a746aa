-- ===== src/Inode/Parse/RoundTrip.antt =====
-- src/core/inode.c, `parse_inode`: it reads back the directory and file inodes that the format lays out.
use squashfs_fuse.Common.{
  ℕ, suc, ◌+◌, ◌*◌, ◌≤◌, not, List, [], ◌∷◌, Option, none, ◌≡◌, ◌≢◌, refl, ap, arith, Option-cases,
  inl, inr, length, drop, ◌==◌,
}
use squashfs_fuse.Inode.Blocks.{calc_block_count}
use squashfs_fuse.Inode.Parse.Disk.{
  DiskDir, put_dir, DirFits, dir_inode, DiskFile, put_file, FileFits, file_inode, DiskLfile,
  put_lfile, LfileFits, lfile_inode, sizes_array,
}
use squashfs_fuse.Inode.Parse.Encoding.{
  view_within, put_header, HeaderFits, parse_inode_header-put_header, put_block_sizes, AllFit,
  read_block_sizes-put, length-put_block_sizes,
}
use squashfs_fuse.Inode.Parse.{
  Header, parse_inode_dir, parse_inode_file, parse_inode_lfile, parse_block_sizes, parse_inode,
  fragment_invalid,
}
use squashfs_fuse.Inode.{of_u16}
use squashfs_fuse.Result.{ok}
use squashfs_fuse.Utils.Endian.{le16_to_cpu-put_le16, le32_to_cpu-put_le32, le64_to_cpu-put_le64}
use squashfs_fuse.Utils.{Bytes}

parse_inode_dir-put_dir :
    (h : Header) (d : DiskDir) (rest : Bytes)
    → DirFits d
    → parse_inode_dir (put_header h (put_dir d rest))
      ≡ ok (record {
        link_count = d.link_count;
        body = (dir_inode h d).body;
        block_sizes = none;
        consumed = 0;
      })
unfolding parse_inode_dir
parse_inode_dir-put_dir h d rest f =
    let buf = put_dir d rest in
    rw (view_within (put_header h buf) 16 16 (omega arith)) (
      ground (
        arith,
        le32_to_cpu-put_le32 d.block_idx (drop 4 buf) f.block_idx,
        le32_to_cpu-put_le32 d.link_count (drop 8 buf) f.link_count,
        le16_to_cpu-put_le16 d.file_size (drop 10 buf) f.file_size,
        le16_to_cpu-put_le16 d.block_offset (drop 12 buf) f.block_offset,
        le32_to_cpu-put_le32 d.parent_inode rest f.parent_inode,
      ))

-- The array of sizes behind `fixed` bytes, if memory for it can be had and the buffer holds it all.
parse_block_sizes-put :
    (malloc : ℕ → Option ℕ) (buf : Bytes) (fixed : ℕ) (xs : List ℕ) (rest : Bytes)
    → ((size : ℕ) → malloc size ≢ none)
    → drop (16 + fixed) buf ≡ put_block_sizes xs rest
    → 16 + fixed + length xs * 4 ≤ length buf
    → AllFit xs
    → parse_block_sizes malloc buf fixed (length xs)
      ≡ ok (sizes_array xs, 16 + fixed + length xs * 4)
unfolding parse_block_sizes
parse_block_sizes-put malloc buf fixed [] rest memory e room fit =
    ap (λ (t : ℕ). ok (none, t)) (omega arith)
parse_block_sizes-put malloc buf fixed (x ∷ xs) rest memory e room fit =
    elim (Option-cases (malloc (suc (length xs) * 4))) [
      | inl refused ↦ absurd (memory _ refused)
      | inr (address, got) ↦
          let there = view_within buf (16 + fixed) (suc (length xs) * 4) room in
          ground (arith, got, there, e, read_block_sizes-put (x ∷ xs) rest fit)
    ]

module _ (malloc : ℕ → Option ℕ) (memory : (size : ℕ) → malloc size ≢ none) (h : Header)
    (fits : HeaderFits h) (block_size data_size : ℕ) (rest : Bytes) where
  -- A directory inode whose fields fit their widths is read back from a buffer of at least 32 bytes,
  -- its size less the 3 that the format adds.
  pub parse_inode-dir :
      (d : DiskDir)
      → h.type ≡ 1
      → DirFits d
      → 32 ≤ data_size
      → parse_inode malloc (put_header h (put_dir d rest)) data_size block_size ≡ ok (dir_inode h d)
  unfolding parse_inode of_u16
  parse_inode-dir d t f size = ground (
    arith,
    parse_inode_header-put_header h (put_dir d rest) fits,
    parse_inode_dir-put_dir h d rest f,
  )

  parse_inode_file-put_file :
      (f : DiskFile)
      → FileFits f
      → calc_block_count f.file_size block_size (not (f.frag_idx == fragment_invalid))
        ≡ ok (length f.block_sizes)
      → parse_inode_file malloc (put_header h (put_file f rest)) block_size
        ≡ ok (record {
          link_count = 1;
          body = (file_inode h f).body;
          block_sizes = sizes_array f.block_sizes;
          consumed = 32 + length f.block_sizes * 4;
        })
  unfolding parse_inode_file
  parse_inode_file-put_file f ff count =
      let p = put_file f rest in
      let sizes = length-put_block_sizes f.block_sizes rest in
      rw (view_within (put_header h p) 16 16 (omega (arith, sizes))) (
        rw (
          le32_to_cpu-put_le32 f.blocks_start (drop 4 p) ff.blocks_start,
          le32_to_cpu-put_le32 f.frag_idx (drop 8 p) ff.frag_idx,
          le32_to_cpu-put_le32 f.block_offset (drop 12 p) ff.block_offset,
          le32_to_cpu-put_le32 f.file_size (drop 16 p) ff.file_size,
          count,
          parse_block_sizes-put malloc (put_header h p) 16 f.block_sizes rest memory refl
              (omega (arith, sizes)) ff.block_sizes,
        ))

  -- A basic file inode whose fields fit their widths is read back with its block sizes, if it lists as
  -- many as `sqfs_calc_block_count` wants, `data_size` covers it all and no allocation fails.
  pub parse_inode-file :
      (f : DiskFile)
      → h.type ≡ 2
      → FileFits f
      → calc_block_count f.file_size block_size (not (f.frag_idx == fragment_invalid))
        ≡ ok (length f.block_sizes)
      → 32 + length f.block_sizes * 4 ≤ data_size
      → parse_inode malloc (put_header h (put_file f rest)) data_size block_size
        ≡ ok (file_inode h f)
  unfolding parse_inode of_u16
  parse_inode-file f t ff count size = ground (
    arith,
    parse_inode_header-put_header h (put_file f rest) fits,
    parse_inode_file-put_file f ff count,
  )

  parse_inode_lfile-put_lfile :
      (f : DiskLfile)
      → LfileFits f
      → calc_block_count f.file_size block_size (not (f.frag_idx == fragment_invalid))
        ≡ ok (length f.block_sizes)
      → parse_inode_lfile malloc (put_header h (put_lfile f rest)) block_size
        ≡ ok (record {
          link_count = f.link_count;
          body = (lfile_inode h f).body;
          block_sizes = sizes_array f.block_sizes;
          consumed = 56 + length f.block_sizes * 4;
        })
  unfolding parse_inode_lfile
  parse_inode_lfile-put_lfile f ff count =
      let p = put_lfile f rest in
      let sizes = length-put_block_sizes f.block_sizes rest in
      rw (view_within (put_header h p) 16 40 (omega (arith, sizes))) (
        rw (
          le64_to_cpu-put_le64 f.blocks_start (drop 8 p) ff.blocks_start,
          le64_to_cpu-put_le64 f.file_size (drop 16 p) ff.file_size,
          le64_to_cpu-put_le64 f.sparse (drop 24 p) ff.sparse,
          le32_to_cpu-put_le32 f.link_count (drop 28 p) ff.link_count,
          le32_to_cpu-put_le32 f.frag_idx (drop 32 p) ff.frag_idx,
          le32_to_cpu-put_le32 f.block_offset (drop 36 p) ff.block_offset,
          le32_to_cpu-put_le32 f.xattr_idx (drop 40 p) ff.xattr_idx,
          count,
          parse_block_sizes-put malloc (put_header h p) 40 f.block_sizes rest memory refl
              (omega (arith, sizes)) ff.block_sizes,
        ))

  -- An extended file inode whose fields fit their widths is read back with its 64-bit sizes, link
  -- count, xattr index and block sizes, if it lists as many as `sqfs_calc_block_count` wants,
  -- `data_size` covers it all and no allocation fails.
  pub parse_inode-lfile :
      (f : DiskLfile)
      → h.type ≡ 9
      → LfileFits f
      → calc_block_count f.file_size block_size (not (f.frag_idx == fragment_invalid))
        ≡ ok (length f.block_sizes)
      → 56 + length f.block_sizes * 4 ≤ data_size
      → parse_inode malloc (put_header h (put_lfile f rest)) data_size block_size
        ≡ ok (lfile_inode h f)
  unfolding parse_inode of_u16
  parse_inode-lfile f t ff count size = ground (
    arith,
    parse_inode_header-put_header h (put_lfile f rest) fits,
    parse_inode_lfile-put_lfile f ff count,
  )
