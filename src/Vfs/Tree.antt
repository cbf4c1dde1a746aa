-- ===== src/Vfs/Tree.antt =====
-- Trees of files, as an image holds them, and what a list of names leads to in one: the view of
-- src/vfs/vfs_ops.c that forgets the bytes of the image.
use squashfs_fuse.Common.{
  ℕ, zero, suc, Bool, true, false, Option, none, some, List, [], ◌∷◌, ◌≡◌, refl, arith, ◌==◌, ◌&&◌,
  if◌then◌else◌,
}
use squashfs_fuse.Directory.Read.{same_string}
use squashfs_fuse.Directory.{Dirent}
use squashfs_fuse.Inode.{
  Inode, InodeType, is_dir, dir, file, symlink, blkdev, chrdev, fifo, socket, ldir, lfile, lsymlink,
  lblkdev, lchrdev, lfifo, lsocket,
}
use squashfs_fuse.Utils.{Bytes}
use squashfs_fuse.Vfs.{enoent, enotdir, Reply, done, fail}

-- A file with its inode, and for a directory its entries with the files that they lead to.
mutual
  pub data Tree : Type 0 where
    node : Inode → Entries → Tree

  pub data Entries : Type 0 where
    nil : Entries
    entry : Dirent → Tree → Entries → Entries

abbrev pub inode_of : Tree → Inode
inode_of (node inode kids) = inode

abbrev pub dirents : Entries → List Dirent
dirents nil = []
dirents (entry d t rest) = d ∷ dirents rest

-- The bytes before the first NUL.
abbrev pub text_of : Bytes → Bytes
text_of [] = []
text_of (zero ∷ bs) = []
text_of (suc b ∷ bs) = suc b ∷ text_of bs

abbrev pub equal : Bytes → Bytes → Bool
equal [] [] = true
equal [] (y ∷ ys) = false
equal (x ∷ xs) [] = false
equal (x ∷ xs) (y ∷ ys) = (x == y) && equal xs ys

-- The file types of POSIX's `st_mode`, in its upper four bits.
abbrev pub format_code : InodeType → ℕ
format_code fifo = 1
format_code lfifo = 1
format_code chrdev = 2
format_code lchrdev = 2
format_code dir = 4
format_code ldir = 4
format_code blkdev = 6
format_code lblkdev = 6
format_code file = 8
format_code lfile = 8
format_code symlink = 10
format_code lsymlink = 10
format_code socket = 12
format_code lsocket = 12

abbrev pub is_directory : Inode → Bool
is_directory inode = format_code inode.type == 4

-- The first entry of a name.
abbrev pub find_entry : Entries → Bytes → Option Tree
find_entry nil name = none
find_entry (entry d t rest) name =
    if equal (text_of d.name) (text_of name) then some t else find_entry rest name

-- The file that a list of names leads to.
unfoldable pub find : Tree → List Bytes → Reply Inode
find (node inode kids) [] = done inode
find (node inode kids) (name ∷ names) =
    if is_directory inode
    then elim (find_entry kids name) [ none ↦ fail enoent | some t ↦ find t names ]
    else fail enotdir

-- The entries of the directory that a list of names leads to.
unfoldable pub children : Tree → List Bytes → Reply Entries
children (node inode kids) [] = if is_directory inode then done kids else fail enotdir
children (node inode kids) (name ∷ names) =
    if is_directory inode
    then elim (find_entry kids name) [ none ↦ fail enoent | some t ↦ children t names ]
    else fail enotdir

pub find-nil : (t : Tree) → find t [] ≡ done (inode_of t)
unfolding find
find-nil (node inode kids) = refl

-- strcmp compares what stands before the NULs.
pub equal-same_string : (a b : Bytes) → equal (text_of a) (text_of b) ≡ same_string a b
unfolding same_string
equal-same_string [] [] = refl
equal-same_string [] (zero ∷ b) = refl
equal-same_string [] (suc y ∷ b) = ground arith
equal-same_string (zero ∷ a) [] = refl
equal-same_string (suc x ∷ a) [] = ground arith
equal-same_string (zero ∷ a) (zero ∷ b) = refl
equal-same_string (zero ∷ a) (suc y ∷ b) = ground arith
equal-same_string (suc x ∷ a) (zero ∷ b) = ground arith
equal-same_string (suc x ∷ a) (suc y ∷ b) = ground (arith, equal-same_string a b)

pub format_code-is_dir : (t : InodeType) → (format_code t == 4) ≡ is_dir t
unfolding is_dir
format_code-is_dir dir = refl
format_code-is_dir ldir = refl
format_code-is_dir file = refl
format_code-is_dir lfile = refl
format_code-is_dir symlink = refl
format_code-is_dir lsymlink = refl
format_code-is_dir blkdev = refl
format_code-is_dir lblkdev = refl
format_code-is_dir chrdev = refl
format_code-is_dir lchrdev = refl
format_code-is_dir fifo = refl
format_code-is_dir lfifo = refl
format_code-is_dir socket = refl
format_code-is_dir lsocket = refl
