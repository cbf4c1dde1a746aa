-- ===== src/Vfs/Ops.antt =====
-- src/vfs/vfs_ops.c, attributes, listing, reading and links, for a path that is resolved.
use squashfs_fuse.Common.{
  ℕ, ◌+◌, ◌-◌, ◌/◌, min, true, false, not, Option, none, some, List, [], ◌∷◌, ◌++◌, length, take,
  map, ◌*◌, ltb, leb, ◌==◌, if◌then◌else◌,
}
use squashfs_fuse.Data.Read.{Ops, data_read}
use squashfs_fuse.Data.{file_data}
use squashfs_fuse.Directory.Read.{dir_data, dir_read}
use squashfs_fuse.Directory.{Dirent}
use squashfs_fuse.Inode.{
  Inode, InodeType, Body, SymlinkData, DevData, dir, file, symlink, blkdev, chrdev, fifo, socket,
  ldir, lfile, lsymlink, lblkdev, lchrdev, lfifo, lsocket, symlink_body, dev_body, is_dir, is_file,
  is_symlink, target_text,
}
use squashfs_fuse.Platform.{Platform}
use squashfs_fuse.Result.{Result, ok, err, fault}
use squashfs_fuse.Superblock.{Superblock}
use squashfs_fuse.Utils.{Bytes, u32, u64}
use squashfs_fuse.Vfs.{
  enotdir, einval, enomem, Reply, undefined, fail, done, reply, ◌>>=◌, resolve_path,
}
use Prim.Native.Nat.{bit_or}

-- `sqfs_vfs_attr_t`. The owner's two are the indices that the inode has into the table of ids.
pub record Attr : Type 0 where
  pub ino : ℕ
  pub mode : ℕ
  pub nlink : ℕ
  pub uid : ℕ
  pub gid : ℕ
  pub size : ℕ
  pub blocks : ℕ
  pub blksize : ℕ
  pub atime : ℕ
  pub mtime : ℕ
  pub ctime : ℕ
  pub rdev_major : ℕ
  pub rdev_minor : ℕ

-- `inode->symlink`, `inode->dev`.
abbrev pub symlink_data : Body → Result SymlinkData
symlink_data (symlink_body s) = ok s
symlink_data _ = fault

abbrev pub dev_data : Body → Result DevData
dev_data (dev_body d) = ok d
dev_data _ = fault

-- What every type of inode has.
abbrev common_attr : Inode → Attr
common_attr inode = record {
  ino = inode.inode_number;
  mode = inode.permissions;
  nlink = inode.link_count;
  uid = inode.uid;
  gid = inode.gid;
  size = 0;
  blocks = 0;
  blksize = 0;
  atime = inode.mtime;
  mtime = inode.mtime;
  ctime = inode.mtime;
  rdev_major = 0;
  rdev_minor = 0;
}

module _ (sb : Superblock) (inode : Inode) where
  -- The cases of the switch over the type.
  abbrev dir_attr : Reply Attr
  dir_attr = elim (dir_data inode.body) [
    | ok d ↦ done (record (common_attr inode) {
      mode = bit_or inode.permissions 0x4000;
      size = d.size;
      blksize = sb.disk.block_size;
      blocks = u32 (d.size + 511) / 512;
    })
    | err e ↦ undefined
    | fault ↦ undefined
  ]

  abbrev file_attr : Reply Attr
  file_attr = elim (file_data inode.body) [
    | ok f ↦ done (record (common_attr inode) {
      mode = bit_or inode.permissions 0x8000;
      size = f.file_size;
      blksize = sb.disk.block_size;
      blocks = u64 (f.file_size + 511) / 512;
    })
    | err e ↦ undefined
    | fault ↦ undefined
  ]

  abbrev symlink_attr : Reply Attr
  symlink_attr = elim (symlink_data inode.body) [
    | ok s ↦ done (record (common_attr inode) {
      mode = bit_or inode.permissions 0xa000;
      size = s.target_size;
      blksize = sb.disk.block_size;
    })
    | err e ↦ undefined
    | fault ↦ undefined
  ]

  abbrev dev_attr : ℕ → Reply Attr
  dev_attr format = elim (dev_data inode.body) [
    | ok d ↦ done (record (common_attr inode) {
      mode = bit_or inode.permissions format;
      rdev_major = d.major;
      rdev_minor = d.minor;
    })
    | err e ↦ undefined
    | fault ↦ undefined
  ]

  abbrev ipc_attr : ℕ → Reply Attr
  ipc_attr format = done (record (common_attr inode) { mode = bit_or inode.permissions format })

  abbrev typed_attr : InodeType → Reply Attr
  typed_attr dir = dir_attr
  typed_attr ldir = dir_attr
  typed_attr file = file_attr
  typed_attr lfile = file_attr
  typed_attr symlink = symlink_attr
  typed_attr lsymlink = symlink_attr
  typed_attr blkdev = dev_attr 0x6000
  typed_attr lblkdev = dev_attr 0x6000
  typed_attr chrdev = dev_attr 0x2000
  typed_attr lchrdev = dev_attr 0x2000
  typed_attr fifo = ipc_attr 0x1000
  typed_attr lfifo = ipc_attr 0x1000
  typed_attr socket = ipc_attr 0xc000
  typed_attr lsocket = ipc_attr 0xc000

  -- `sqfs_vfs_fill_attr`.
  unfoldable pub fill_attr : Reply Attr
  fill_attr = typed_attr inode.type

-- `sqfs_vfs_dirent_t`.
pub record VfsDirent : Type 0 where
  pub name : Bytes
  pub ino : ℕ
  pub type : ℕ

abbrev pub entry_format : InodeType → ℕ
entry_format dir = 0x4000
entry_format ldir = 0x4000
entry_format file = 0x8000
entry_format lfile = 0x8000
entry_format symlink = 0xa000
entry_format lsymlink = 0xa000
entry_format blkdev = 0x6000
entry_format lblkdev = 0x6000
entry_format chrdev = 0x2000
entry_format lchrdev = 0x2000
entry_format fifo = 0x1000
entry_format lfifo = 0x1000
entry_format socket = 0xc000
entry_format lsocket = 0xc000

unfoldable pub vfs_dirent : Dirent → VfsDirent
vfs_dirent d = record { name = d.name; ino = d.inode_number; type = entry_format d.type }

-- `sqfs_vfs_fh_t`.
pub record Handle : Type 0 where
  pub inode : Inode
  pub file_size : ℕ

module _ (p : Platform) (sb : Superblock) (fuel : ℕ) (stale : ℕ → Bytes) (path : Bytes) where
  -- `sqfs_vfs_getattr`.
  unfoldable pub getattr : Option (Reply Attr)
  getattr = resolve_path p sb fuel stale path >>= λ inode. some (fill_attr sb inode)

  -- `sqfs_vfs_readdir`, where an entry of the VFS has 24 bytes.
  unfoldable pub readdir : Option (Reply (List VfsDirent))
  readdir = resolve_path p sb fuel stale path >>= λ inode. elim (is_dir inode.type) [
    | false ↦ some (fail enotdir)
    | true ↦ elim (dir_read p sb fuel inode) [
      | none ↦ none
      | some read ↦ some (reply read) >>= λ entries. elim (p.malloc (length entries * 24)) [
        | none ↦ some (fail enomem)
        | some _ ↦ some (done (map vfs_dirent entries))
      ]
    ]
  ]

  -- `sqfs_vfs_readlink`: the bytes that are put into the buffer.
  unfoldable pub readlink : ℕ → Option (Reply Bytes)
  readlink size =
      if size == 0
      then some (fail einval)
      else (resolve_path p sb fuel stale path >>= λ inode.
          if not (is_symlink inode.type)
          then some (fail einval)
          else elim (symlink_data inode.body) [
            | ok s ↦ elim (target_text s) [
              | ok text ↦ some (done (take (min s.target_size (size - 1)) text ++ (0 ∷ [])))
              | err e ↦ some undefined
              | fault ↦ some undefined
            ]
            | err e ↦ some undefined
            | fault ↦ some undefined
          ])

  -- `sqfs_vfs_open`. A handle has 16 bytes.
  unfoldable pub vfs_open : Option (Reply Handle)
  vfs_open = resolve_path p sb fuel stale path >>= λ inode.
      if not (is_file inode.type) then some (fail einval) else elim (p.malloc 16) [
        | none ↦ some (fail enomem)
        | some _ ↦ elim (file_data inode.body) [
          | ok f ↦ some (done (record { inode = inode; file_size = f.file_size }))
          | err e ↦ some undefined
          | fault ↦ some undefined
        ]
      ]

-- `sqfs_vfs_read`.
unfoldable pub read :
    {S : Type 0}
    → Platform
    → Ops S
    → Superblock
    → ℕ
    → Handle
    → ℕ
    → ℕ
    → S
    → Bytes
    → Option (S × Reply Bytes)
read p ops sb fuel fh size offset s block_buf =
    let limited = if ltb fh.file_size (u64 (offset + size)) then fh.file_size - offset else size in
    if leb fh.file_size offset
    then some (s, done [])
    else elim (data_read p ops sb fuel fh.inode offset limited s block_buf) [
      | none ↦ none
      | some r ↦ some (r.0, reply r.1)
    ]
