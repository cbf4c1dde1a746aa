-- ===== src/Vfs.antt =====
-- src/vfs/vfs_ops.c, the operations on paths: resolution, attributes, listing, reading.
pub mod Ops
pub mod Spelling
pub mod Tree
pub mod Resolve
pub mod Listing
pub mod Paths
use squashfs_fuse.Common.{
  ℕ, zero, suc, ◌+◌, ◌-◌, ◌*◌, ◌/◌, ◌^◌, Bool, true, false, not, Option, none, some, List, [], ◌∷◌,
  ◌++◌, length, take, map, ltb, leb, ◌==◌, if◌then◌else◌,
}
use squashfs_fuse.Directory.Read.{dir_data, dir_read, dirent_lookup}
use squashfs_fuse.Directory.{Dirent}
use squashfs_fuse.Inode.Load.{get_by_ref}
use squashfs_fuse.Inode.{
  Inode, InodeType, Body, SymlinkData, DevData, dir, file, symlink, blkdev, chrdev, fifo, socket,
  ldir, lfile, lsymlink, lblkdev, lchrdev, lfifo, lsocket, dir_body, file_body, symlink_body,
  dev_body, xattr_body, is_dir, is_file, is_symlink, xattr_idx, target_text,
}
use squashfs_fuse.Platform.{Platform}
use squashfs_fuse.Result.{
  Error, Result, ok, err, fault, corrupt, bad_magic, bad_version, bad_comp, bad_inode, bad_dir,
  bad_xattr, bad_block, not_found, no_memory, io, overflow,
}
use squashfs_fuse.Superblock.{Superblock}
use squashfs_fuse.Utils.{Bytes, u64}
use Prim.Native.Nat.{bit_or}

-- `sqfs_vfs_result_t` without SQFS_VFS_OK, by the values of errno.
pub data Errno : Type 0 where
  enoent enotdir einval enomem eio enotsup enodata : Errno

-- What an operation returns; `undefined` where the core's is `fault`.
pub data Reply (A : Type 0) : Type 0 where
  undefined : Reply A
  fail : Errno → Reply A
  done : A → Reply A

-- `sqfs_err_to_errno`.
unfoldable pub err_to_errno : Error → Errno
err_to_errno not_found = enoent
err_to_errno no_memory = enomem
err_to_errno corrupt = eio
err_to_errno bad_magic = eio
err_to_errno bad_version = eio
err_to_errno bad_comp = eio
err_to_errno bad_inode = eio
err_to_errno bad_dir = eio
err_to_errno bad_xattr = eio
err_to_errno bad_block = eio
err_to_errno io = eio
err_to_errno overflow = eio

-- The return of the core's error as one of the VFS.
abbrev pub reply : {A : Type 0} → Result A → Reply A
reply (ok x) = done x
reply (err e) = fail (err_to_errno e)
reply fault = undefined

infixl 5 ◌>>=◌
abbrev pub ◌>>=◌ : {A B : Type 0} → Option (Reply A) → (A → Option (Reply B)) → Option (Reply B)
none >>= next = none
some undefined >>= next = some undefined
some (fail e) >>= next = some (fail e)
some (done x) >>= next = next x

-- The tokens that `strtok_r` gives for the delimiter `/`, up to the first NUL, behind the bytes of one
-- that has begun.
abbrev token : Bytes → List Bytes → List Bytes
token [] rest = rest
token (b ∷ bs) rest = (b ∷ bs) ∷ rest

unfoldable pub tokens : Bytes → Bytes → List Bytes
tokens begun [] = token begun []
tokens begun (b ∷ bs) =
    let ended = tokens [] bs in
    let longer = tokens (begun ++ (b ∷ [])) bs in
    if b == 0 then token begun [] else if b == 47 then token begun ended else longer

-- The path `/`.
abbrev pub is_root : Bytes → Bool
is_root [] = false
is_root (b ∷ []) = b == 47
is_root (b ∷ c ∷ rest) = false

module _ (p : Platform) (sb : Superblock) (fuel : ℕ) where
  -- The name in the directory that was read, with what its inode's buffer has in it.
  unfoldable pub load_entry : List Dirent → Bytes → Bytes → Reply Inode
  load_entry entries component stale = elim (dirent_lookup entries component) [
    | none ↦ fail enoent
    | some d ↦ elim (get_by_ref p sb d.inode_ref stale) [
      | ok inode ↦ done inode
      | err e ↦ fail enoent
      | fault ↦ undefined
    ]
  ]

  -- The components that are left. The n-th inode to be loaded has `stale n` in its buffer.
  unfoldable pub walk : (ℕ → Bytes) → ℕ → Inode → List Bytes → Option (Reply Inode)
  unfolding load_entry
  walk stale n inode [] = some (done inode)
  walk stale n inode (component ∷ components) = elim (is_dir inode.type) [
    | false ↦ some (fail enotdir)
    | true ↦ elim (dir_read p sb fuel inode) [
      | none ↦ none
      | some read ↦ some (reply read) >>= λ entries.
          some (load_entry entries component (stale n)) >>= λ found.
          walk stale (suc n) found components
    ]
  ]

  -- `sqfs_vfs_resolve_path`, for the bytes of a path before its NUL. The byte that follows the NUL of an
  -- empty one is read.
  unfoldable pub resolve_path : (ℕ → Bytes) → Bytes → Option (Reply Inode)
  unfolding walk tokens
  resolve_path stale path = some (reply (get_by_ref p sb sb.disk.root_inode (stale 0))) >>= λ root.
      elim (is_root path) [
        | true ↦ some (done root)
        | false ↦ elim (p.malloc (length path + 1)) [
          | none ↦ some (fail enomem)
          | some _ ↦ elim path [
            | [] ↦ some undefined
            | b ∷ rest ↦ walk stale 1 root (tokens [] rest)
          ]
        ]
      ]
