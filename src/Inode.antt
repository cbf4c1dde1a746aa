-- ===== src/Inode.antt =====
-- src/core/inode.h: the inode types and the runtime inode, with the union as its bytes overlap on a
-- little-endian machine with 64-bit pointers.
pub mod Blocks
pub mod Parse
pub mod Load
pub mod Export
use squashfs_fuse.Common.{
  ℕ, zero, suc, ◌+◌, ◌-◌, ◌*◌, ◌/◌, ◌%◌, ◌^◌, Bool, ◌||◌, Option, none, some, List, leb, ◌==◌,
  get_elem?, [], ◌∷◌, if◌then◌else◌,
}
use squashfs_fuse.Result.{Result, ok, fault}
use squashfs_fuse.Utils.{Bytes}

-- `sqfs_inode_type_t`.
pub data InodeType : Type 0 where
  dir file symlink blkdev chrdev fifo socket : InodeType
  ldir lfile lsymlink lblkdev lchrdev lfifo lsocket : InodeType

unfoldable pub value : InodeType → ℕ
value dir = 1
value file = 2
value symlink = 3
value blkdev = 4
value chrdev = 5
value fifo = 6
value socket = 7
value ldir = 8
value lfile = 9
value lsymlink = 10
value lblkdev = 11
value lchrdev = 12
value lfifo = 13
value lsocket = 14

abbrev pub inode_types : List InodeType
inode_types =
    dir ∷ file ∷ symlink ∷ blkdev ∷ chrdev ∷ fifo ∷ socket ∷ ldir ∷ lfile ∷ lsymlink ∷ lblkdev
    ∷ lchrdev ∷ lfifo ∷ lsocket ∷ []

-- The cast of a number to the enum; `none` below SQFS_INODE_DIR and above SQFS_INODE_LSOCKET.
unfoldable pub of_u16 : ℕ → Option InodeType
of_u16 zero = none
of_u16 (suc n) = get_elem? inode_types n

unfoldable pub is_extended : InodeType → Bool
unfolding value
is_extended t = leb (value ldir) (value t)

-- `type - 7` for an extended type.
unfoldable pub basic_type : InodeType → InodeType
unfolding value of_u16
basic_type t =
    if leb (value ldir) (value t) then elim (of_u16 (value t - 7)) [ some b ↦ b | none ↦ t ] else t

module _ (t : InodeType) where
  unfoldable pub is_dir : Bool
  unfolding value
  is_dir = value t == value dir || value t == value ldir

  unfoldable pub is_file : Bool
  unfolding value
  is_file = value t == value file || value t == value lfile

  unfoldable pub is_symlink : Bool
  unfolding value
  is_symlink = value t == value symlink || value t == value lsymlink

  unfoldable pub is_dev : Bool
  unfolding value
  is_dev =
      value t == value blkdev
      || value t == value chrdev
      || value t == value lblkdev
      || value t == value lchrdev

  unfoldable pub is_ipc : Bool
  unfolding value
  is_ipc =
      value t == value fifo
      || value t == value socket
      || value t == value lfifo
      || value t == value lsocket

pub record DirData : Type 0 where
  pub block_idx : ℕ
  pub size : ℕ
  pub block_offset : ℕ
  pub parent_inode : ℕ
  pub index_count : ℕ

pub record FileData : Type 0 where
  pub blocks_start : ℕ
  pub file_size : ℕ
  pub sparse : ℕ
  pub frag_idx : ℕ
  pub block_offset : ℕ
  pub block_count : ℕ
  pub xattr_idx : ℕ

-- `target` is the pointer; `block` is the address of the allocated text, and the text with its NUL.
pub record SymlinkData : Type 0 where
  pub target : ℕ
  pub target_size : ℕ
  pub block : ℕ
  pub text : Bytes

pub record DevData : Type 0 where
  pub major : ℕ
  pub minor : ℕ

-- The union of `struct sqfs_inode`, by the member that was filled. The member `xattr_idx` of the
-- union shares its four bytes with the start of each of the others.
pub data Body : Type 0 where
  dir_body : DirData → Body
  file_body : FileData → Body
  symlink_body : SymlinkData → Body
  dev_body : DevData → Body
  xattr_body : ℕ → Body

abbrev low_word : ℕ → ℕ → ℕ
low_word whole x = whole / 2 ^ 32 * 2 ^ 32 + x

-- `inode->xattr_idx = x`, for a 32-bit `x`.
pub set_xattr_idx : Body → ℕ → Body
set_xattr_idx (dir_body d) x = dir_body (record d { block_idx = low_word d.block_idx x })
set_xattr_idx (file_body f) x = file_body (record f { blocks_start = low_word f.blocks_start x })
set_xattr_idx (symlink_body s) x = symlink_body (record s { target = low_word s.target x })
set_xattr_idx (dev_body d) x = dev_body (record d { major = x })
set_xattr_idx (xattr_body _) x = xattr_body x

-- `inode->xattr_idx` as a value.
unfoldable pub xattr_idx : Body → ℕ
xattr_idx (dir_body d) = d.block_idx % 2 ^ 32
xattr_idx (file_body f) = f.blocks_start % 2 ^ 32
xattr_idx (symlink_body s) = s.target % 2 ^ 32
xattr_idx (dev_body d) = d.major
xattr_idx (xattr_body x) = x

-- The text behind `inode->symlink.target`.
unfoldable pub target_text : SymlinkData → Result Bytes
target_text s = if s.target == s.block then ok s.text else fault

-- `struct sqfs_inode`; `block_sizes` is `none` where the program has NULL.
pub record Inode : Type 0 where
  pub inode_number : ℕ
  pub type : InodeType
  pub permissions : ℕ
  pub uid : ℕ
  pub gid : ℕ
  pub mtime : ℕ
  pub link_count : ℕ
  pub body : Body
  pub block_sizes : Option (List ℕ)
