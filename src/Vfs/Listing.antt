-- ===== src/Vfs/Listing.antt =====
-- src/vfs/vfs_ops.c, `sqfs_vfs_readdir` in an image that holds a tree of files.
use squashfs_fuse.Common.{
  ℕ, ◌+◌, ◌*◌, ◌^◌, true, false, Option, none, some, List, [], ◌∷◌, length, map, ◌≡◌, ◌≢◌, refl,
  sym, subst, ◌∙◌, inl, inr, arith, Bool-cases, Option-cases,
}
use squashfs_fuse.Directory.{Dirent}
use squashfs_fuse.Directory.Read.{dir_read, same_string}
use squashfs_fuse.Inode.Load.{get_by_ref}
use squashfs_fuse.Inode.{
  Inode, InodeType, is_dir, dir, file, symlink, blkdev, chrdev, fifo, socket, ldir, lfile, lsymlink,
  lblkdev, lchrdev, lfifo, lsocket,
}
use squashfs_fuse.Platform.{Platform}
use squashfs_fuse.Result.{ok}
use squashfs_fuse.Superblock.{Superblock}
use squashfs_fuse.Utils.{Bytes}
use squashfs_fuse.Vfs.Ops.{VfsDirent, vfs_dirent, entry_format, readdir}
use squashfs_fuse.Vfs.Resolve.{Holds, HoldsAll, resolve_path-find}
use squashfs_fuse.Vfs.Spelling.{Part, names, absolute, ArePlain}
use squashfs_fuse.Vfs.Tree.{
  Tree, Entries, node, nil, entry, inode_of, dirents, format_code, find_entry, find, children,
  equal-same_string, format_code-is_dir,
}
use squashfs_fuse.Vfs.{Errno, enoent, enotdir, Reply, undefined, fail, done, ◌>>=◌}

-- One entry as another.
abbrev pub IsListed : Dirent → VfsDirent → Type 0
IsListed d v = (v.name ≡ d.name) × (v.ino ≡ d.inode_number) × (v.type ≡ format_code d.type * 2 ^ 12)

abbrev pub AreListed : List Dirent → List VfsDirent → Type 0
AreListed [] [] = Unit
AreListed [] (v ∷ vs) = ⊥
AreListed (d ∷ ds) [] = ⊥
AreListed (d ∷ ds) (v ∷ vs) = IsListed d v × AreListed ds vs

-- A reply that lists a directory's entries, or the errno where there is no directory.
abbrev pub IsListing : Reply Entries → Option (Reply (List VfsDirent)) → Type 0
IsListing undefined r = r ≡ some undefined
IsListing (fail e) r = r ≡ some (fail e)
IsListing (done kids) r = (vs : List VfsDirent) × (r ≡ some (done vs)) × AreListed (dirents kids) vs

entry_format-code : (t : InodeType) → entry_format t ≡ format_code t * 2 ^ 12
entry_format-code dir = refl
entry_format-code ldir = refl
entry_format-code file = refl
entry_format-code lfile = refl
entry_format-code symlink = refl
entry_format-code lsymlink = refl
entry_format-code blkdev = refl
entry_format-code lblkdev = refl
entry_format-code chrdev = refl
entry_format-code lchrdev = refl
entry_format-code fifo = refl
entry_format-code lfifo = refl
entry_format-code socket = refl
entry_format-code lsocket = refl

map-AreListed : (ds : List Dirent) → AreListed ds (map vfs_dirent ds)
unfolding vfs_dirent
map-AreListed [] = tt
map-AreListed (d ∷ ds) = ((refl, refl, entry_format-code d.type), map-AreListed ds)

-- A list of names leads to no directory, or to one that the image holds.
data Ends (p : Platform) (sb : Superblock) (fuel : ℕ) (t : Tree) (names : List Bytes) : Type 0 where
  nowhere : (e : Errno) → find t names ≡ fail e → children t names ≡ fail e → Ends p sb fuel t names
  at_file :
      (inode : Inode)
      → find t names ≡ done inode
      → is_dir inode.type ≡ false
      → children t names ≡ fail enotdir
      → Ends p sb fuel t names
  at_dir :
      (inode : Inode)
      → (kids : Entries) → find t names ≡ done inode
      → is_dir inode.type ≡ true
      → dir_read p sb fuel inode ≡ some (ok (dirents kids))
      → children t names ≡ done kids
      → Ends p sb fuel t names

some-eq : {A : Type 0} → (x y : A) → some x ≡ some y → x ≡ y
some-eq x y h = ground (arith, h)

module _ (p : Platform) (sb : Superblock) (fuel : ℕ) where
  held_entry :
      (kids : Entries) (name : Bytes) (t : Tree)
      → HoldsAll p sb fuel kids
      → find_entry kids name ≡ some t
      → Holds p sb fuel t
  unfolding HoldsAll
  held_entry nil name t held found = cc
  held_entry (entry d t' rest) name t (loads, holds, held) found =
      let names_d = equal-same_string d.name name in
      elim (Bool-cases (same_string d.name name)) [
        | inl here ↦
            let is : t' ≡ t = some-eq t' t (sym (there here) ∙ found) in
            subst (Holds p sb fuel) is holds
        | inr other ↦ held_entry rest name t held (rw (names_d, other) at found)
      ]
    where
      there : same_string d.name name ≡ true → find_entry (entry d t' rest) name ≡ some t'
      there here = let names_d = equal-same_string d.name name in rw (names_d, here) refl

  ends : (t : Tree) (names : List Bytes) → Holds p sb fuel t → Ends p sb fuel t names
  unfolding find children Holds
  ends (node inode kids) [] (reads, held) =
      let directory = format_code-is_dir inode.type in
      elim (Bool-cases (is_dir inode.type)) [
        | inl is ↦ at_dir inode kids refl is (reads (directory ∙ is)) (rw (directory, is) refl)
        | inr other ↦ at_file inode refl other (rw (directory, other) refl)
      ]
  ends (node inode kids) (name ∷ names) (reads, held) =
      let directory = format_code-is_dir inode.type in
      elim (Bool-cases (is_dir inode.type)) [
        | inr other ↦ nowhere enotdir (rw (directory, other) refl) (rw (directory, other) refl)
        | inl is ↦ elim (Option-cases (find_entry kids name)) [
          | inl absent ↦
              nowhere enoent (rw (directory, is, absent) refl) (rw (directory, is, absent) refl)
          | inr (t, found) ↦ elim (ends t names (held_entry kids name t held found)) [
            | nowhere e f c ↦ nowhere e (rw (directory, is, found) f) (rw (directory, is, found) c)
            | at_file i f other c ↦
                at_file i (rw (directory, is, found) f) other (rw (directory, is, found) c)
            | at_dir i k f is' r c ↦
                at_dir i k (rw (directory, is, found) f) is' r (rw (directory, is, found) c)
          ]
        ]
      ]

  -- Listing an absolute path gives the entries of the directory that its names lead to, in order, each
  -- with its name, the number of its inode, and the format that POSIX has for its type; ENOENT where a name
  -- is missing, and ENOTDIR where a file that is no directory stands at the end or has names behind it. How
  -- many slashes the path has between its names and at its end makes no difference. Names have a byte at
  -- least, and neither slashes nor NULs. The image holds a tree of files from the inode of the root on, and
  -- no allocation fails.
  pub readdir-children :
      (stale : ℕ → Bytes) (t : Tree) (parts : List Part) (last : ℕ)
      → ((size : ℕ) → p.malloc size ≢ none)
      → ArePlain parts
      → Holds p sb fuel t
      → ((buffer : Bytes) → get_by_ref p sb sb.disk.root_inode buffer ≡ ok (inode_of t))
      → IsListing (children t (names parts)) (readdir p sb fuel stale (absolute parts last))
  unfolding readdir
  readdir-children stale t parts last memory plain holds root =
      elim (Option-cases (p.malloc (length (absolute parts last) + 1))) [
        | inl refused ↦ absurd (memory (length (absolute parts last) + 1) refused)
        | inr (a, given) ↦
            let found = resolve_path-find p sb fuel stale t parts last a plain holds root given in
            elim (ends t (names parts) holds) [
              | nowhere e f c ↦ rw (c, readdir, found, f, ◌>>=◌) refl
              | at_file i f other c ↦ rw (c, readdir, found, f, ◌>>=◌, other) refl
              | at_dir i k f is r c ↦ elim (Option-cases (p.malloc (length (dirents k) * 24))) [
                | inl refused ↦ absurd (memory (length (dirents k) * 24) refused)
                | inr (b, got) ↦
                    let run : readdir p sb fuel stale (absolute parts last)
                        ≡ some (done (map vfs_dirent (dirents k))) =
                      rw (readdir, found, f, ◌>>=◌, is, r, ◌>>=◌, got) refl in
                    rw c (map vfs_dirent (dirents k), run, map-AreListed (dirents k))
              ]
            ]
      ]
