-- ===== src/Directory/Read.antt =====
-- src/core/directory.c, `sqfs_dir_read` and `sqfs_dirent_lookup`.
pub mod EndToEnd
pub mod Lookup
use squashfs_fuse.Common.{
  ℕ, zero, suc, not, Bool, true, false, Option, none, some, List, [], ◌∷◌, ◌&&◌, ◌==◌,
  if◌then◌else◌,
}
use squashfs_fuse.Directory.Table.{read_directory_data}
use squashfs_fuse.Directory.{Dirent, parse_directory_entries}
use squashfs_fuse.Inode.Parse.{allocate}
use squashfs_fuse.Inode.{Inode, Body, DirData, dir_body, is_dir}
use squashfs_fuse.Platform.{Platform}
use squashfs_fuse.Result.{Result, ok, err, fault, bad_inode, ◌>>=◌}
use squashfs_fuse.Superblock.{Superblock}
use squashfs_fuse.Utils.{Bytes}

-- `dir_inode->dir`. The parser fills that member for an inode of a directory's type.
abbrev pub dir_data : Body → Result DirData
dir_data (dir_body d) = ok d
dir_data _ = fault

module _ (p : Platform) (sb : Superblock) where
  -- The data of a directory that is not empty. `none`: the fuel of the reader ran out.
  unfoldable pub read_entries : ℕ → DirData → Option (Result (List Dirent))
  read_entries fuel d = elim (allocate p.malloc d.size) [
    | err e ↦ some (err e)
    | fault ↦ some fault
    | ok _ ↦ elim (read_directory_data p fuel sb.disk.dir_table d.block_idx d.block_offset d.size) [
      | none ↦ none
      | some (err e) ↦ some (err e)
      | some fault ↦ some fault
      | some (ok raw) ↦ some (parse_directory_entries p.malloc raw)
    ]
  ]

  unfoldable pub dir_read : ℕ → Inode → Option (Result (List Dirent))
  unfolding read_entries
  dir_read fuel dir_inode =
      if not (is_dir dir_inode.type) then some (err bad_inode) else elim (dir_data dir_inode.body) [
        | err e ↦ some (err e)
        | fault ↦ some fault
        | ok d ↦ if d.size == 0 then some (ok []) else read_entries fuel d
      ]

-- `strcmp(a, b) == 0`, on bytes up to the first NUL.
unfoldable pub same_string : Bytes → Bytes → Bool
same_string [] [] = true
same_string [] (y ∷ ys) = y == 0
same_string (x ∷ xs) [] = x == 0
same_string (zero ∷ xs) (y ∷ ys) = y == 0
same_string (suc x ∷ xs) (y ∷ ys) = (suc x == y) && same_string xs ys

-- The first entry of that name.
unfoldable pub dirent_lookup : List Dirent → Bytes → Option Dirent
dirent_lookup [] name = none
dirent_lookup (d ∷ ds) name =
    let rest = dirent_lookup ds name in if same_string d.name name then some d else rest
