-- ===== src/Inode/Parse.antt =====
-- src/core/inode.c, `parse_inode` and its parsers, on the buffer that holds the raw inode.
-- A parser that reads past the end of the buffer faults. `malloc` is the platform's; what a failed
-- parser leaves in the inode is not kept, since its caller frees the inode.
pub mod Encoding
pub mod Disk
pub mod Symlink
pub mod RoundTrip
pub mod Union
use squashfs_fuse.Common.{
  ℕ, zero, suc, ◌+◌, ◌-◌, ◌*◌, Bool, true, false, not, ◌&&◌, Option, none, some, List, [], ◌∷◌,
  ◌++◌, length, take, drop, ltb, leb, ◌==◌, if◌then◌else◌,
}
use squashfs_fuse.Inode.Blocks.{calc_block_count}
use squashfs_fuse.Inode.{
  InodeType, dir, file, symlink, blkdev, chrdev, fifo, socket, ldir, lfile, lsymlink, lblkdev,
  lchrdev, lfifo, lsocket, of_u16, Body, dir_body, file_body, symlink_body, dev_body, xattr_body,
  set_xattr_idx, Inode,
}
use squashfs_fuse.Platform.{Platform}
use squashfs_fuse.Result.{Result, ok, err, fault, bad_inode, no_memory, ◌>>=◌, ◌>>◌, check}
use squashfs_fuse.Utils.{Bytes, u32, le16_to_cpu, le32_to_cpu, le64_to_cpu, dev_major, dev_minor}

-- The pointer `data + offset`, behind which `count` bytes are read.
abbrev pub view : Bytes → ℕ → ℕ → Result Bytes
view buf offset count = if leb (offset + count) (length buf) then ok (drop offset buf) else fault

abbrev pub header_size : ℕ
header_size = 16

abbrev pub xattr_invalid : ℕ
xattr_invalid = 0xffffffff

abbrev pub fragment_invalid : ℕ
fragment_invalid = 0xffffffff

-- `sqfs_inode_header_t`.
pub record Header : Type 0 where
  pub type : ℕ
  pub permissions : ℕ
  pub uid_idx : ℕ
  pub gid_idx : ℕ
  pub mtime : ℕ
  pub inode_number : ℕ

unfoldable pub parse_inode_header : Bytes → Result Header
parse_inode_header buf = do
  p ← view buf 0 16
  ok (record {
    type = le16_to_cpu p;
    permissions = le16_to_cpu (drop 2 p);
    uid_idx = le16_to_cpu (drop 4 p);
    gid_idx = le16_to_cpu (drop 6 p);
    mtime = le32_to_cpu (drop 8 p);
    inode_number = le32_to_cpu (drop 12 p);
  })

-- What a parser sets: the link count, the union, the block sizes and `*bytes_consumed`.
pub record Parsed : Type 0 where
  pub link_count : ℕ
  pub body : Body
  pub block_sizes : Option (List ℕ)
  pub consumed : ℕ

unfoldable pub parse_inode_dir : Bytes → Result Parsed
parse_inode_dir buf = do
  p ← view buf header_size 16
  let size = le16_to_cpu (drop 8 p)
  ok (record {
    link_count = le32_to_cpu (drop 4 p);
    body = dir_body (record {
      block_idx = le32_to_cpu p;
      size = if leb 3 size then size - 3 else size;
      block_offset = le16_to_cpu (drop 10 p);
      parent_inode = le32_to_cpu (drop 12 p);
      index_count = 0;
    });
    block_sizes = none;
    consumed = 0;
  })

unfoldable pub parse_inode_ldir : Bytes → Result Parsed
parse_inode_ldir buf = do
  p ← view buf header_size 24
  let filled = dir_body (record {
    block_idx = le32_to_cpu (drop 8 p);
    size = le32_to_cpu (drop 4 p);
    block_offset = le16_to_cpu (drop 18 p);
    parent_inode = le32_to_cpu (drop 12 p);
    index_count = le16_to_cpu (drop 16 p);
  })
  ok (record {
    link_count = le32_to_cpu p;
    body = set_xattr_idx filled (le32_to_cpu (drop 20 p));
    block_sizes = none;
    consumed = 0;
  })

-- `for (i = 0; i < block_count; i++) block_sizes[i] = sqfs_le32_to_cpu(p + i * 4);`
pub read_block_sizes : ℕ → Bytes → List ℕ
read_block_sizes zero p = []
read_block_sizes (suc n) p = le32_to_cpu p ∷ read_block_sizes n (drop 4 p)

module _ (malloc : ℕ → Option ℕ) where
  abbrev pub allocate : ℕ → Result ℕ
  allocate size = elim (malloc size) [ none ↦ err no_memory | some address ↦ ok address ]

  -- The array of block sizes behind `fixed` bytes of the inode, and the bytes consumed with it.
  unfoldable pub parse_block_sizes : Bytes → ℕ → ℕ → Result (Option (List ℕ) × ℕ)
  parse_block_sizes buf fixed zero = ok (none, header_size + fixed)
  parse_block_sizes buf fixed (suc n) = do
    _ ← allocate (suc n * 4)
    q ← view buf (header_size + fixed) (suc n * 4)
    ok (some (read_block_sizes (suc n) q), header_size + fixed + suc n * 4)

  unfoldable pub parse_inode_file : Bytes → ℕ → Result Parsed
  parse_inode_file buf block_size = do
    p ← view buf header_size 16
    let frag_idx = le32_to_cpu (drop 4 p)
    let file_size = le32_to_cpu (drop 12 p)
    block_count ← calc_block_count file_size block_size (not (frag_idx == fragment_invalid))
    (sizes, consumed) ← parse_block_sizes buf 16 block_count
    ok (record {
      link_count = 1;
      body = file_body (record {
        blocks_start = le32_to_cpu p;
        file_size = file_size;
        sparse = 0;
        frag_idx = frag_idx;
        block_offset = le32_to_cpu (drop 8 p);
        block_count = block_count;
        xattr_idx = xattr_invalid;
      });
      block_sizes = sizes;
      consumed = consumed;
    })

  unfoldable pub parse_inode_lfile : Bytes → ℕ → Result Parsed
  parse_inode_lfile buf block_size = do
    p ← view buf header_size 40
    let frag_idx = le32_to_cpu (drop 28 p)
    let file_size = le64_to_cpu (drop 8 p)
    block_count ← calc_block_count file_size block_size (not (frag_idx == fragment_invalid))
    (sizes, consumed) ← parse_block_sizes buf 40 block_count
    ok (record {
      link_count = le32_to_cpu (drop 24 p);
      body = file_body (record {
        blocks_start = le64_to_cpu p;
        file_size = file_size;
        sparse = le64_to_cpu (drop 16 p);
        frag_idx = frag_idx;
        block_offset = le32_to_cpu (drop 32 p);
        block_count = block_count;
        xattr_idx = le32_to_cpu (drop 36 p);
      });
      block_sizes = sizes;
      consumed = consumed;
    })

  -- The text of a link behind `fixed` bytes of the inode: `malloc(target_size + 1)` in 32 bits, the
  -- copy, and the NUL behind it. The result is the block and its contents.
  pub copy_target : Bytes → ℕ → ℕ → Result (ℕ × Bytes)
  copy_target buf fixed target_size = do
    block ← allocate (u32 (target_size + 1))
    q ← view buf (header_size + fixed) target_size
    let room = leb (target_size + 1) (u32 (target_size + 1))
    if room then ok (block, take target_size q ++ (0 ∷ [])) else fault

  unfoldable pub parse_inode_symlink : Bytes → Result Parsed
  parse_inode_symlink buf = do
    p ← view buf header_size 8
    let target_size = le32_to_cpu (drop 4 p)
    (block, text) ← copy_target buf 8 target_size
    ok (record {
      link_count = le32_to_cpu p;
      body =
          symlink_body
            (record { target = block; target_size = target_size; block = block; text = text });
      block_sizes = none;
      consumed = header_size + 8 + target_size;
    })

  unfoldable pub parse_inode_lsymlink : Bytes → Result Parsed
  parse_inode_lsymlink buf = do
    p ← view buf header_size 8
    let target_size = le32_to_cpu (drop 4 p)
    (block, text) ← copy_target buf 8 target_size
    x ← view buf (header_size + 8 + target_size) 4
    let filled =
        symlink_body
          (record { target = block; target_size = target_size; block = block; text = text })
    ok (record {
      link_count = le32_to_cpu p;
      body = set_xattr_idx filled (le32_to_cpu x);
      block_sizes = none;
      consumed = header_size + 8 + target_size + 4;
    })

unfoldable pub parse_inode_dev : Bytes → Bool → Result Parsed
parse_inode_dev buf extended = do
  p ← view buf header_size 8
  let dev_num = le32_to_cpu (drop 4 p)
  let filled = dev_body (record { major = dev_major dev_num; minor = dev_minor dev_num })
  x ← if extended then view buf (header_size + 8) 4 else ok []
  ok (record {
    link_count = le32_to_cpu p;
    body = set_xattr_idx filled (if extended then le32_to_cpu x else xattr_invalid);
    block_sizes = none;
    consumed = if extended then header_size + 12 else header_size + 8;
  })

unfoldable pub parse_inode_ipc : Bytes → Bool → Result Parsed
parse_inode_ipc buf extended = do
  p ← view buf header_size 4
  x ← if extended then view buf (header_size + 4) 4 else ok []
  ok (record {
    link_count = le32_to_cpu p;
    body = set_xattr_idx (xattr_body 0) (if extended then le32_to_cpu x else xattr_invalid);
    block_sizes = none;
    consumed = if extended then header_size + 8 else header_size + 4;
  })

abbrev pub known_type : ℕ → Result InodeType
known_type n = elim (of_u16 n) [ none ↦ err bad_inode | some t ↦ ok t ]

module _ (malloc : ℕ → Option ℕ) (buf : Bytes) (data_size block_size : ℕ) where
  -- The switch on `header.type`.
  unfoldable pub parse_body : InodeType → Result Parsed
  parse_body dir = check (leb 32 data_size) bad_inode >> parse_inode_dir buf
  parse_body ldir = check (leb 40 data_size) bad_inode >> parse_inode_ldir buf
  parse_body file = parse_inode_file malloc buf block_size
  parse_body lfile = parse_inode_lfile malloc buf block_size
  parse_body symlink = parse_inode_symlink malloc buf
  parse_body lsymlink = parse_inode_lsymlink malloc buf
  parse_body blkdev = parse_inode_dev buf false
  parse_body chrdev = parse_inode_dev buf false
  parse_body lblkdev = parse_inode_dev buf true
  parse_body lchrdev = parse_inode_dev buf true
  parse_body fifo = parse_inode_ipc buf false
  parse_body socket = parse_inode_ipc buf false
  parse_body lfifo = parse_inode_ipc buf true
  parse_body lsocket = parse_inode_ipc buf true

  -- `buf` is the whole buffer, of which `data_size` bytes hold the inode.
  unfoldable pub parse_inode : Result Inode
  unfolding parse_body
  parse_inode = do
    check (leb header_size data_size) bad_inode
    h ← parse_inode_header buf
    t ← known_type h.type
    r ← parse_body t
    check (not (ltb 0 r.consumed && ltb data_size r.consumed)) bad_inode
    ok (record {
      inode_number = h.inode_number;
      type = t;
      permissions = h.permissions;
      uid = h.uid_idx;
      gid = h.gid_idx;
      mtime = h.mtime;
      link_count = r.link_count;
      body = r.body;
      block_sizes = r.block_sizes;
    })
