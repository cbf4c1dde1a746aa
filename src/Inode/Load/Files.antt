-- ===== src/Inode/Load/Files.antt =====
-- src/core/inode.c, `sqfs_inode_get_by_ref` on the inodes of files: it follows a reference into a
-- metadata block.
use squashfs_fuse.Common.{
  ℕ, zero, suc, ◌+◌, ◌*◌, ◌≤◌, ◌<◌, min, not, List, [], ◌∷◌, ◌++◌, none, ◌≡◌, ◌≢◌, refl, sym, ap,
  ◌∙◌, arith, length, length-append, take, drop, drop-drop, take-add, Option-cases, inl, inr, ◌==◌,
}
use squashfs_fuse.Inode.Blocks.{calc_block_count}
use squashfs_fuse.Inode.Load.{
  read_inode_metadata, inode_size, get_by_ref, overlay, meta_ref_pos, meta_ref_offset,
}
use squashfs_fuse.Inode.Load.Reference.{read_inode_metadata-there, read_inode_metadata-prefix}
use squashfs_fuse.Inode.Parse.Disk.{DiskFile, put_file, FileFits, file_inode}
use squashfs_fuse.Inode.Parse.Encoding.{
  view_within, put_header, HeaderFits, parse_inode_header-put_header, put_block_sizes,
  length-put_block_sizes,
}
use squashfs_fuse.Inode.Parse.RoundTrip.{parse_inode-file}
use squashfs_fuse.Inode.Parse.{
  Header, parse_inode_file, parse_block_sizes, fragment_invalid, known_type, allocate, parse_inode,
}
use squashfs_fuse.Inode.{Inode, of_u16, file}
use squashfs_fuse.Metadata.{meta_read_block}
use squashfs_fuse.Platform.{Platform}
use squashfs_fuse.Result.{ok, err, bad_inode, no_memory, ◌>>=◌, Result-cases}
use squashfs_fuse.Superblock.{Superblock}
use squashfs_fuse.Utils.Endian.{put_le32, le32_to_cpu-put_le32}
use squashfs_fuse.Utils.{Bytes, u64}

put_block_sizes-append :
    (xs : List ℕ) (rest : Bytes) → put_block_sizes xs rest ≡ put_block_sizes xs [] ++ rest
put_block_sizes-append [] rest = refl
put_block_sizes-append (x ∷ xs) rest = ap (λ t. put_le32 x t) (put_block_sizes-append xs rest)

module _ (p : Platform) (sb : Superblock) (ref : ℕ) (before : Bytes)
    (at : meta_ref_offset ref ≡ length before) where
  module _ (h : Header) (fits : HeaderFits h) (stale : Bytes) where
    -- The two reads of a file inode before its size is known.
    file_size_read :
        (f : DiskFile) (n : ℕ) (after raw : Bytes)
        → FileFits f
        → calc_block_count f.file_size sb.disk.block_size (not (f.frag_idx == fragment_invalid))
          ≡ ok n
        → meta_read_block p (u64 (sb.disk.inode_table + meta_ref_pos ref))
          ≡ ok (before ++ put_header h (put_file f after))
        → inode_size p sb ref raw file
          ≡ ok (put_header h (put_file (record f { block_sizes = [] }) (drop 32 raw)), 32 + n * 4)
    unfolding inode_size
    file_size_read f n after raw ff count found =
        let fixed = put_header h (put_file (record f { block_sizes = [] }) []) in
        let rest = put_file (record f { block_sizes = [] }) (drop 32 raw) in
        rw (
          read_inode_metadata-there p sb ref before at fixed (put_block_sizes f.block_sizes after)
              found,
          le32_to_cpu-put_le32 f.file_size (drop 32 raw) ff.file_size,
          le32_to_cpu-put_le32 f.frag_idx (drop 8 rest) ff.frag_idx,
          count,
        )

    header_read :
        (f : DiskFile) (after : Bytes)
        → meta_read_block p (u64 (sb.disk.inode_table + meta_ref_pos ref))
          ≡ ok (before ++ put_header h (put_file f after))
        → read_inode_metadata p sb ref 16 ≡ ok (put_header h [])
    header_read f after found =
        read_inode_metadata-there p sb ref before at (put_header h []) (put_file f after) found

    whole_read :
        (f : DiskFile) (after : Bytes)
        → meta_read_block p (u64 (sb.disk.inode_table + meta_ref_pos ref))
          ≡ ok (before ++ put_header h (put_file f after))
        → read_inode_metadata p sb ref (32 + length f.block_sizes * 4)
          ≡ ok (put_header h (put_file f []))
    whole_read f after found =
        let bytes = put_header h (put_file f []) in
        let split = put_block_sizes-append f.block_sizes after in
        let size : length bytes ≡ 32 + length f.block_sizes * 4 =
          omega (arith, length-put_block_sizes f.block_sizes []) in
        rw size at (read_inode_metadata-there p sb ref before at bytes after (rw split at found))

    -- What is left to do once the size is known.
    get_by_ref-sized :
        (f : DiskFile) (n : ℕ) (after : Bytes)
        → h.type ≡ 2
        → FileFits f
        → calc_block_count f.file_size sb.disk.block_size (not (f.frag_idx == fragment_invalid))
          ≡ ok n
        → meta_read_block p (u64 (sb.disk.inode_table + meta_ref_pos ref))
          ≡ ok (before ++ put_header h (put_file f after))
        → get_by_ref p sb ref stale
          ≡ read_inode_metadata p sb ref (min (32 + n * 4) 8192) >>= λ bytes.
              allocate p.malloc 80 >>= λ _.
              parse_inode p.malloc
                (overlay bytes
                  (put_header h (put_file (record f { block_sizes = [] }) (drop 32 stale))))
                (min (32 + n * 4) 8192)
                sb.disk.block_size
    unfolding get_by_ref of_u16
    get_by_ref-sized f n after type ff count found =
        let raw = put_header h (drop 16 stale) in
        let known : known_type h.type ≡ ok file = ground arith in
        rw (
          header_read f after found,
          parse_inode_header-put_header h (drop 16 stale) fits,
          known,
          file_size_read f n after raw ff count found,
          ← drop-drop 16 16 stale,
        )

    -- A basic file inode that stands whole in one metadata block, at the offset of its reference, is
    -- loaded, if its fields fit their widths, it lists as many block sizes as
    -- `sqfs_calc_block_count` wants, it has at most 8192 bytes and no allocation fails.
    pub get_by_ref-file :
        (f : DiskFile) (after : Bytes)
        → ((size : ℕ) → p.malloc size ≢ none)
        → h.type ≡ 2
        → FileFits f
        → calc_block_count f.file_size sb.disk.block_size (not (f.frag_idx == fragment_invalid))
          ≡ ok (length f.block_sizes)
        → 32 + length f.block_sizes * 4 ≤ 8192
        → meta_read_block p (u64 (sb.disk.inode_table + meta_ref_pos ref))
          ≡ ok (before ++ put_header h (put_file f after))
        → get_by_ref p sb ref stale ≡ ok (file_inode h f)
    get_by_ref-file f after memory type ff count small found =
        let n = length f.block_sizes in
        let raw_inode = put_header h (put_file (record f { block_sizes = [] }) (drop 32 stale)) in
        let size : min (32 + n * 4) 8192 ≡ 32 + n * 4 = omega arith in
        let behind = drop (length (put_header h (put_file f []))) raw_inode in
        let joined = put_block_sizes-append f.block_sizes behind in
        let parsed =
          parse_inode-file p.malloc memory h fits sb.disk.block_size (32 + n * 4) behind f type ff
            count (omega arith) in
        elim (Option-cases (p.malloc 80)) [
          | inl refused ↦ absurd (memory 80 refused)
          | inr (address, got) ↦
              let room : allocate p.malloc 80 ≡ ok address = ground arith in
              rw
                (
                  get_by_ref-sized f n after type ff count found,
                  size,
                  whole_read f after found,
                  room,
                  ← joined,
                )
                parsed
        ]

    -- A file inode that does not end in the metadata block in which it begins is refused, although
    -- the format lets an inode go on in the next one.
    pub get_by_ref-straddling :
        (f : DiskFile) (n : ℕ) (after : Bytes)
        → h.type ≡ 2
        → FileFits f
        → calc_block_count f.file_size sb.disk.block_size (not (f.frag_idx == fragment_invalid))
          ≡ ok n
        → 32 + n * 4 ≤ 8192
        → length f.block_sizes * 4 + length after < n * 4
        → meta_read_block p (u64 (sb.disk.inode_table + meta_ref_pos ref))
          ≡ ok (before ++ put_header h (put_file f after))
        → get_by_ref p sb ref stale ≡ err bad_inode
    unfolding read_inode_metadata
    get_by_ref-straddling f n after type ff count small short found =
        let size : min (32 + n * 4) 8192 ≡ 32 + n * 4 = omega arith in
        let whole = length-append before (put_header h (put_file f after)) in
        let sizes = length-put_block_sizes f.block_sizes after in
        rw (get_by_ref-sized f n after type ff count found, size, found)
          (ground (arith, whole, sizes, at))

    -- More block sizes than the buffer holds: they are read past its end, or the size is refused.
    parse_inode-large :
        (f : DiskFile) (n : ℕ) (rest : Bytes) (i : Inode)
        → h.type ≡ 2
        → FileFits f
        → calc_block_count f.file_size sb.disk.block_size (not (f.frag_idx == fragment_invalid))
          ≡ ok n
        → 2040 < n
        → parse_inode p.malloc
            (put_header h (put_file (record f { block_sizes = [] }) rest))
            8192
            sb.disk.block_size
          ≢ ok i
    unfolding parse_inode of_u16 parse_inode_file parse_block_sizes
    parse_inode-large f zero rest i type ff count large = absurd (omega arith)
    parse_inode-large f (suc n) rest i type ff count large =
        let f0 = record f { block_sizes = [] } in
        let buf = put_header h (put_file f0 rest) in
        let known : known_type h.type ≡ ok file = ground arith in
        rw
          (
            parse_inode_header-put_header h (put_file f0 rest) fits,
            known,
            view_within buf 16 16 (omega arith),
            le32_to_cpu-put_le32 f.frag_idx (drop 24 buf) ff.frag_idx,
            le32_to_cpu-put_le32 f.file_size rest ff.file_size,
            count,
          )
          (ground arith)

    -- A basic inode (type 2) of a file of more than 2040 blocks is never loaded, if its fields fit their
    -- widths and its part before the block sizes stands in one metadata block at the offset of its reference.
    pub get_by_ref-large :
        (f : DiskFile) (n : ℕ) (after : Bytes) (i : Inode)
        → h.type ≡ 2
        → FileFits f
        → calc_block_count f.file_size sb.disk.block_size (not (f.frag_idx == fragment_invalid))
          ≡ ok n
        → 2040 < n
        → meta_read_block p (u64 (sb.disk.inode_table + meta_ref_pos ref))
          ≡ ok (before ++ put_header h (put_file f after))
        → get_by_ref p sb ref stale ≢ ok i
    get_by_ref-large f n after i type ff count large found =
        let size : min (32 + n * 4) 8192 ≡ 8192 = omega arith in
        let raw_inode = put_header h (put_file (record f { block_sizes = [] }) (drop 32 stale)) in
        elim (Result-cases (read_inode_metadata p sb ref 8192)) [
          | inr (inr undefined) ↦
              rw (get_by_ref-sized f n after type ff count found, size, undefined) (λ e. cc)
          | inr (inl (why, refused)) ↦
              rw (get_by_ref-sized f n after type ff count found, size, refused) (λ e. cc)
          | inl (bytes, read) ↦
              let rest = take 8160 (put_block_sizes f.block_sizes after) in
              let whole = put_header h (put_file f after) in
              let start = put_header h (put_file (record f { block_sizes = [] }) rest) in
              let is : bytes ≡ start =
                read_inode_metadata-prefix p sb ref before at 8192 whole bytes found read
                ∙ sym (take-add 32 8160 whole) in
              rw (get_by_ref-sized f n after type ff count found, size, read ∙ ap ok is)
                (elim (Option-cases (p.malloc 80)) [
                  | inl refused ↦
                      let room : allocate p.malloc 80 ≡ err no_memory = ground arith in
                      rw room (λ e. cc)
                  | inr (address, got) ↦
                      let room : allocate p.malloc 80 ≡ ok address = ground arith in
                      rw room (
                        parse_inode-large f n (rest ++ drop (length start) raw_inode) i type ff
                          count large)
                ])
        ]
