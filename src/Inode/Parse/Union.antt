-- ===== src/Inode/Parse/Union.antt =====
-- src/core/inode.c, the parsers that fill one member of the union of `struct sqfs_inode` and then set
-- `inode->xattr_idx`, which shares the first four bytes of each member.
use squashfs_fuse.Common.{
  ℕ, ◌^◌, ◌≤◌, ◌<◌, Bool, true, false, Option, none, ◌≡◌, arith, drop, if◌then◌else◌, ◌⊎◌,
}
use squashfs_fuse.Inode.Parse.Disk.{DiskLdir, put_ldir, LdirFits, with_header}
use squashfs_fuse.Inode.Parse.Encoding.{
  view_within, put_header, HeaderFits, parse_inode_header-put_header,
}
use squashfs_fuse.Inode.Parse.{
  Header, parse_inode_ldir, parse_inode_dev, parse_inode, xattr_invalid,
}
use squashfs_fuse.Inode.{
  InodeType, ldir, blkdev, chrdev, lblkdev, lchrdev, of_u16, value, dir_body, dev_body,
  set_xattr_idx, Inode,
}
use squashfs_fuse.Result.{ok}
use squashfs_fuse.Utils.Endian.{put_le32, le16_to_cpu-put_le16, le32_to_cpu-put_le32}
use squashfs_fuse.Utils.Fields.{encode_dev, dev_fields}
use squashfs_fuse.Utils.{Bytes}

-- An extended directory as the program keeps it.
abbrev pub ldir_inode : Header → DiskLdir → Inode
ldir_inode h d =
    let body = dir_body (record {
      block_idx = d.xattr_idx;
      size = d.file_size;
      block_offset = d.block_offset;
      parent_inode = d.parent_inode;
      index_count = d.index_count;
    }) in
    with_header h ldir d.link_count body none

parse_inode_ldir-put_ldir :
    (h : Header) (d : DiskLdir) (rest : Bytes)
    → LdirFits d
    → parse_inode_ldir (put_header h (put_ldir d rest))
      ≡ ok (record {
        link_count = d.link_count;
        body = (ldir_inode h d).body;
        block_sizes = none;
        consumed = 0;
      })
unfolding parse_inode_ldir set_xattr_idx
parse_inode_ldir-put_ldir h d rest f =
    let buf = put_ldir d rest in
    rw (view_within (put_header h buf) 16 24 (omega arith)) (
      ground (
        arith,
        le32_to_cpu-put_le32 d.link_count (drop 4 buf) f.link_count,
        le32_to_cpu-put_le32 d.file_size (drop 8 buf) f.file_size,
        le32_to_cpu-put_le32 d.block_idx (drop 12 buf) f.block_idx,
        le32_to_cpu-put_le32 d.parent_inode (drop 16 buf) f.parent_inode,
        le16_to_cpu-put_le16 d.index_count (drop 18 buf) f.index_count,
        le16_to_cpu-put_le16 d.block_offset (drop 20 buf) f.block_offset,
        le32_to_cpu-put_le32 d.xattr_idx rest f.xattr_idx,
      ))

-- A device inode as the format lays it out: its number, and the xattr index of an extended one.
abbrev pub put_dev : ℕ → ℕ → ℕ → ℕ → Bytes → Bytes
put_dev links major minor xattr rest =
    put_le32 links (put_le32 (encode_dev major minor) (put_le32 xattr rest))

parse_inode_dev-put_dev :
    (h : Header) (extended : Bool) (links major minor xattr : ℕ) (rest : Bytes)
    → links < 2 ^ 32
    → major < 2 ^ 12
    → minor < 2 ^ 20
    → xattr < 2 ^ 32
    → parse_inode_dev (put_header h (put_dev links major minor xattr rest)) extended
      ≡ ok (record {
        link_count = links;
        body =
            dev_body (record { major = if extended then xattr else xattr_invalid; minor = minor });
        block_sizes = none;
        consumed = if extended then 28 else 24;
      })
unfolding parse_inode_dev set_xattr_idx
parse_inode_dev-put_dev h extended links major minor xattr rest hl hm hn hx =
    let buf = put_dev links major minor xattr rest in
    let number = encode_dev major minor in
    let there = view_within (put_header h buf) 24 4 (omega arith) in
    rw (view_within (put_header h buf) 16 8 (omega arith)) (
      ground (
        arith,
        there,
        le32_to_cpu-put_le32 links (drop 4 buf) hl,
        le32_to_cpu-put_le32 number (drop 8 buf) (omega arith),
        le32_to_cpu-put_le32 xattr rest hx,
        dev_fields major minor hm hn,
      ))

module _ (malloc : ℕ → Option ℕ) (h : Header) (fits : HeaderFits h) (block_size data_size : ℕ)
    (rest : Bytes) where
  -- Of an extended directory whose fields fit their widths, in at least 40 bytes, every field is read
  -- back but the position of its listing: what stands in `dir.block_idx` is the xattr index,
  -- whatever `block_idx` the image stores.
  pub parse_inode-ldir :
      (d : DiskLdir)
      → h.type ≡ 8
      → LdirFits d
      → 40 ≤ data_size
      → parse_inode malloc (put_header h (put_ldir d rest)) data_size block_size
        ≡ ok (ldir_inode h d)
  unfolding parse_inode of_u16
  parse_inode-ldir d t f size = ground (
    arith,
    parse_inode_header-put_header h (put_ldir d rest) fits,
    parse_inode_ldir-put_ldir h d rest f,
  )

  -- Of a block or character device whose fields fit their widths, and that `data_size` covers, the
  -- link count and the minor number are read back, and the major number is lost: what stands for it
  -- is the xattr index of an extended device, and 0xffffffff of a basic one.
  pub parse_inode-dev :
      (t : InodeType) (extended : Bool) (links major minor xattr : ℕ)
      → h.type ≡ value t
      → ((extended ≡ false) × ((t ≡ blkdev) ⊎ (t ≡ chrdev)))
        ⊎ ((extended ≡ true) × ((t ≡ lblkdev) ⊎ (t ≡ lchrdev)))
      → links < 2 ^ 32
      → major < 2 ^ 12
      → minor < 2 ^ 20
      → xattr < 2 ^ 32
      → (if extended then 28 else 24) ≤ data_size
      → parse_inode malloc
          (put_header h (put_dev links major minor xattr rest))
          data_size
          block_size
        ≡ ok (
            with_header h t links
              (dev_body
                (record { major = if extended then xattr else xattr_invalid; minor = minor }))
              none)
  unfolding parse_inode of_u16 value
  parse_inode-dev t extended links major minor xattr ht kind hl hm hn hx size = ground (
    arith,
    parse_inode_header-put_header h (put_dev links major minor xattr rest) fits,
    parse_inode_dev-put_dev h extended links major minor xattr rest hl hm hn hx,
  )
