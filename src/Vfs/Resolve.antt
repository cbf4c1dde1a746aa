-- ===== src/Vfs/Resolve.antt =====
-- src/vfs/vfs_ops.c, the resolution of a path against the tree of files that an image holds.
use squashfs_fuse.Common.{
  ℕ, suc, ◌+◌, true, none, some, List, [], ◌∷◌, length, ◌≡◌, refl, sym, ap, ◌∙◌, ◌⊎◌, inl, inr,
  arith, Bool-cases,
}
use squashfs_fuse.Directory.Read.{dir_read, dirent_lookup, same_string}
use squashfs_fuse.Directory.{Dirent}
use squashfs_fuse.Inode.Load.{get_by_ref}
use squashfs_fuse.Inode.{is_dir}
use squashfs_fuse.Platform.{Platform}
use squashfs_fuse.Result.{ok}
use squashfs_fuse.Superblock.{Superblock}
use squashfs_fuse.Utils.{Bytes}
use squashfs_fuse.Vfs.Spelling.{Part, names, absolute, behind_slash, ArePlain, tokens-behind_slash}
use squashfs_fuse.Vfs.Tree.{
  Tree, Entries, node, nil, entry, inode_of, dirents, is_directory, find_entry, find, find-nil,
  equal-same_string, format_code-is_dir,
}
use squashfs_fuse.Vfs.{◌>>=◌, tokens, load_entry, walk, resolve_path}

module _ (p : Platform) (sb : Superblock) (fuel : ℕ) where
  -- The image holds a tree: what is read of each directory is its entries, and the inode that each of
  -- them refers to is read, whatever is in the buffer before.
  unfoldable mutual
    pub Holds : Tree → Type 0
    Holds (node inode kids) =
        (is_directory inode ≡ true → dir_read p sb fuel inode ≡ some (ok (dirents kids)))
        × HoldsAll kids

    pub HoldsAll : Entries → Type 0
    HoldsAll nil = Unit
    HoldsAll (entry d t rest) =
        ((stale : Bytes) → get_by_ref p sb d.inode_ref stale ≡ ok (inode_of t))
        × Holds t
        × HoldsAll rest

  -- The entry of a name, in the tree and in the listing.
  record Leads (kids : Entries) (name : Bytes) : Type 0 where
    d : Dirent
    t : Tree
    found : find_entry kids name ≡ some t
    listed : dirent_lookup (dirents kids) name ≡ some d
    loads : (stale : Bytes) → get_by_ref p sb d.inode_ref stale ≡ ok (inode_of t)
    holds : Holds t

  entry_cases :
      (kids : Entries) (name : Bytes)
      → HoldsAll kids
      → ((find_entry kids name ≡ none) × (dirent_lookup (dirents kids) name ≡ none))
        ⊎ Leads kids name
  unfolding dirent_lookup HoldsAll
  entry_cases nil name held = inl (refl, refl)
  entry_cases (entry d t rest) name (loads, holds, held) =
      let names_d = equal-same_string d.name name in
      elim (Bool-cases (same_string d.name name)) [
        | inl here ↦ inr (record {
          d = d;
          t = t;
          found = rw (names_d, here) refl;
          listed = rw here refl;
          loads = loads;
          holds = holds;
        })
        | inr other ↦ elim (entry_cases rest name held) [
          | inl (absent, missing) ↦ inl (rw (names_d, other) absent, rw other missing)
          | inr l ↦ inr (record {
            d = l.d;
            t = l.t;
            found = rw (names_d, other) l.found;
            listed = rw other l.listed;
            loads = l.loads;
            holds = l.holds;
          })
        ]
      ]

  pub walk-find :
      (stale : ℕ → Bytes) (n : ℕ) (t : Tree) (names : List Bytes)
      → Holds t
      → walk p sb fuel stale n (inode_of t) names ≡ some (find t names)
  unfolding walk find load_entry Holds
  walk-find stale n (node inode kids) [] holds = refl
  walk-find stale n (node inode kids) (name ∷ names) (reads, held) =
      let directory = format_code-is_dir inode.type in
      elim (Bool-cases (is_dir inode.type)) [
        | inr other ↦ rw (walk, directory, other) refl
        | inl is ↦
            let read = reads (directory ∙ is) in
            elim (entry_cases kids name held) [
              | inl (absent, missing) ↦ rw (walk, directory, is, read, ◌>>=◌, missing, absent) refl
              | inr l ↦
                  let found = l.found in
                  let listed = l.listed in
                  let loaded = l.loads (stale n) in
                  rw (walk, directory, is, read, ◌>>=◌, listed, loaded, ◌>>=◌, found)
                    (walk-find stale (suc n) l.t names l.holds)
            ]
      ]

  -- What follows the first slash is cut into names.
  pub resolve_path-tokens :
      (stale : ℕ → Bytes) (t : Tree) (path : Bytes) (a : ℕ)
      → Holds t
      → ((buffer : Bytes) → get_by_ref p sb sb.disk.root_inode buffer ≡ ok (inode_of t))
      → p.malloc (length path + 2) ≡ some a
      → resolve_path p sb fuel stale (47 ∷ path) ≡ some (find t (tokens [] path))
  unfolding resolve_path
  resolve_path-tokens stale t [] a holds root memory =
      let loaded = root (stale 0) in rw (resolve_path, loaded) (ap some (sym (find-nil t)))
  resolve_path-tokens stale t (b ∷ rest) a holds root memory =
      let loaded = root (stale 0) in
      let given : p.malloc (length (47 ∷ b ∷ rest) + 1) ≡ some a =
        ap p.malloc (omega arith) ∙ memory in
      rw (resolve_path, loaded, given) (walk-find stale 1 t (tokens [] (b ∷ rest)) holds)

  -- Resolving an absolute path in an image that holds a tree of files, from the inode of the root on,
  -- gives the inode that the names of the path lead to from the root, ENOENT where a name is missing and
  -- ENOTDIR where a file with names behind it is no directory. The path is a slash or more and a name, any
  -- number of times, and then any number of slashes, at least one for the root: how many there are makes
  -- no difference. Names have a byte at least, and neither slashes nor NULs. There has to be memory for the
  -- copy of the path.
  pub resolve_path-find :
      (stale : ℕ → Bytes) (t : Tree) (parts : List Part) (last a : ℕ)
      → ArePlain parts
      → Holds t
      → ((buffer : Bytes) → get_by_ref p sb sb.disk.root_inode buffer ≡ ok (inode_of t))
      → p.malloc (length (absolute parts last) + 1) ≡ some a
      → resolve_path p sb fuel stale (absolute parts last) ≡ some (find t (names parts))
  resolve_path-find stale t parts last a plain holds root memory =
      resolve_path-tokens stale t (behind_slash parts last) a holds root
        (ap p.malloc (omega arith) ∙ memory)
      ∙ ap (λ ns. some (find t ns)) (tokens-behind_slash parts last plain)
