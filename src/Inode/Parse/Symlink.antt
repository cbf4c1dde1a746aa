-- ===== src/Inode/Parse/Symlink.antt =====
-- src/core/inode.c, `parse_inode_symlink` and `parse_inode_lsymlink`: the text of a link, and the
-- pointer to it.
use squashfs_fuse.Common.{
  ℕ, ◌+◌, ◌-◌, ◌*◌, ◌/◌, ◌%◌, ◌^◌, ◌≤◌, ◌<◌, [], ◌∷◌, ◌++◌, Option, none, some, ◌≡◌, ◌≢◌, sym, ◌∙◌,
  drop-drop, arith, length, drop, length-append, take-append, drop-append,
}
use squashfs_fuse.Inode.Parse.Disk.{with_header}
use squashfs_fuse.Inode.Parse.Encoding.{
  view_within, put_header, HeaderFits, parse_inode_header-put_header,
}
use squashfs_fuse.Inode.Parse.{
  Header, copy_target, parse_inode_symlink, parse_inode_lsymlink, parse_inode,
}
use squashfs_fuse.Inode.{
  symlink, lsymlink, of_u16, symlink_body, SymlinkData, set_xattr_idx, target_text,
}
use squashfs_fuse.Result.{ok, fault}
use squashfs_fuse.Utils.Endian.{put_le32, le32_to_cpu-put_le32}
use squashfs_fuse.Utils.{Bytes, u32}

-- `sqfs_inode_symlink_t` and the path behind it.
abbrev pub put_symlink : ℕ → Bytes → Bytes → Bytes
put_symlink links path rest = put_le32 links (put_le32 (length path) (path ++ rest))

abbrev pub link_data : ℕ → ℕ → Bytes → SymlinkData
link_data pointer block path = record {
  target = pointer;
  target_size = length path;
  block = block;
  text = path ++ (0 ∷ []);
}

module _ (malloc : ℕ → Option ℕ) (h : Header) (links : ℕ) (path rest : Bytes) (block : ℕ)
    (hl : links < 2 ^ 32) (short : length path < 2 ^ 32 - 1)
    (memory : malloc (length path + 1) ≡ some block) where
  copy_target-put :
      copy_target malloc (put_header h (put_symlink links path rest)) 8 (length path)
      ≡ ok (block, path ++ (0 ∷ []))
  unfolding copy_target
  copy_target-put =
      let buf = put_header h (put_symlink links path rest) in
      let size : u32 (length path + 1) ≡ length path + 1 = omega arith in
      let room = length-append path rest in
      ground (
        arith,
        memory,
        size,
        view_within buf 24 (length path) (omega (arith, room)),
        take-append path rest,
      )

  parse_inode_symlink-put :
      parse_inode_symlink malloc (put_header h (put_symlink links path rest))
      ≡ ok (record {
        link_count = links;
        body = symlink_body (link_data block block path);
        block_sizes = none;
        consumed = 24 + length path;
      })
  unfolding parse_inode_symlink
  parse_inode_symlink-put =
      let p = put_symlink links path rest in
      rw (view_within (put_header h p) 16 8 (omega arith)) (
        rw (
          le32_to_cpu-put_le32 links (drop 4 p) hl,
          le32_to_cpu-put_le32 (length path) (path ++ rest) (omega arith),
          copy_target-put,
        ))

  -- A symlink inode whose fields fit their widths is read back with its path, NUL-terminated, behind
  -- a valid pointer, if `data_size` covers it, the path is shorter than 2 ^ 32 - 1 bytes and memory
  -- for it can be had.
  pub parse_inode-symlink :
      (block_size data_size : ℕ)
      → h.type ≡ 3
      → HeaderFits h
      → 24 + length path ≤ data_size
      → (parse_inode malloc (put_header h (put_symlink links path rest)) data_size block_size
          ≡ ok (with_header h symlink links (symlink_body (link_data block block path)) none))
        × (target_text (link_data block block path) ≡ ok (path ++ (0 ∷ [])))
  unfolding parse_inode of_u16 target_text
  parse_inode-symlink block_size data_size t fits size = (
    ground (
      arith,
      parse_inode_header-put_header h (put_symlink links path rest) fits,
      parse_inode_symlink-put,
    ),
    ground arith,
  )

-- `inode->symlink.target` once its lower half holds the xattr index.
abbrev pub clobbered : ℕ → ℕ → ℕ
clobbered block xattr = block / 2 ^ 32 * 2 ^ 32 + xattr

module _ (malloc : ℕ → Option ℕ) (h : Header) (links xattr : ℕ) (path rest : Bytes) (block : ℕ)
    (hl : links < 2 ^ 32) (hx : xattr < 2 ^ 32) (short : length path < 2 ^ 32 - 1)
    (memory : malloc (length path + 1) ≡ some block) where
  parse_inode_lsymlink-put :
      parse_inode_lsymlink malloc (put_header h (put_symlink links path (put_le32 xattr rest)))
      ≡ ok (record {
        link_count = links;
        body = symlink_body (link_data (clobbered block xattr) block path);
        block_sizes = none;
        consumed = 28 + length path;
      })
  unfolding parse_inode_lsymlink set_xattr_idx
  parse_inode_lsymlink-put =
      let p = put_symlink links path (put_le32 xattr rest) in
      let buf = put_header h p in
      let copied =
        copy_target-put malloc h links path (put_le32 xattr rest) block hl short memory in
      let room = length-append path (put_le32 xattr rest) in
      let behind : drop (24 + length path) buf ≡ put_le32 xattr rest =
        sym (drop-drop 24 (length path) buf) ∙ drop-append path (put_le32 xattr rest) in
      rw (view_within buf 16 8 (omega arith)) (
        rw
          (
            le32_to_cpu-put_le32 links (drop 4 p) hl,
            le32_to_cpu-put_le32 (length path) (path ++ put_le32 xattr rest) (omega arith),
            copied,
            view_within buf (24 + length path) 4 (omega (arith, room)),
            behind,
            le32_to_cpu-put_le32 xattr rest hx,
          )
          (ground arith))

  -- Of an extended symlink whose fields fit, whose size is covered and for whose path memory can be
  -- had, the pointer to the path has the xattr index for its lower half: unless that is the lower
  -- half of the block's address, following the pointer is undefined.
  pub parse_inode-lsymlink :
      (block_size data_size : ℕ)
      → h.type ≡ 10
      → HeaderFits h
      → 28 + length path ≤ data_size
      → block % 2 ^ 32 ≢ xattr
      → (parse_inode malloc
            (put_header h (put_symlink links path (put_le32 xattr rest)))
            data_size
            block_size
          ≡ ok (
              with_header h lsymlink links
                (symlink_body (link_data (clobbered block xattr) block path))
                none))
        × (target_text (link_data (clobbered block xattr) block path) ≡ fault)
  unfolding parse_inode of_u16 target_text
  parse_inode-lsymlink block_size data_size t fits size differ = (
    ground (
      arith,
      parse_inode_header-put_header h (put_symlink links path (put_le32 xattr rest)) fits,
      parse_inode_lsymlink-put,
    ),
    ground arith,
  )
