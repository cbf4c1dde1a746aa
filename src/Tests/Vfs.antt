-- ===== src/Tests/Vfs.antt =====
-- src/vfs/vfs_ops.c, an image with an empty directory `etc` in the root directory.
use squashfs_fuse.Common.{List, ◌+◌, ◌≡◌, refl, arith, [], ◌∷◌, ◌++◌, length, some, none}
use squashfs_fuse.Data.Read.{data_read}
use squashfs_fuse.Data.{file_ctx_init, calculate_block_layout}
use squashfs_fuse.Directory.Listing.{Group, put_groups, GroupsFit, dirents, dirent_of}
use squashfs_fuse.Directory.Read.EndToEnd
use squashfs_fuse.Directory.Read.{dir_read}
use squashfs_fuse.Directory.Table.Chain
use squashfs_fuse.Directory.Table.{read_meta_block, decompress_meta_block}
use squashfs_fuse.Inode.Load.Others
use squashfs_fuse.Inode.Load.{get_by_ref}
use squashfs_fuse.Inode.Parse.Disk.{DiskDir, put_dir, dir_inode}
use squashfs_fuse.Inode.Parse.Encoding.{put_header}
use squashfs_fuse.Inode.{dir, is_dir, is_file, value}
use squashfs_fuse.Metadata.{meta_header_size, meta_header_is_uncompressed}
use squashfs_fuse.Result.{ok}
use squashfs_fuse.Superblock.{Superblock, zero_superblock, zero_disk}
use squashfs_fuse.Tests.Inode.{header}
use squashfs_fuse.Tests.Load.{stored, block_at, memory}
use squashfs_fuse.Tests.Metadata.{platform}
use squashfs_fuse.Tests.Read
use squashfs_fuse.Utils.Pread.{read_image}
use squashfs_fuse.Utils.{Bytes, le16_to_cpu, make_meta_ref, meta_block_offset, meta_block_pos}
use squashfs_fuse.Vfs.Ops.{readdir, Handle, read}
use squashfs_fuse.Vfs.Paths
use squashfs_fuse.Vfs.Listing
use squashfs_fuse.Vfs.Listing.{IsListing}
use squashfs_fuse.Vfs.Paths.{replied}
use squashfs_fuse.Vfs.Spelling.{Part, ArePlain}
use squashfs_fuse.Vfs.Resolve
use squashfs_fuse.Vfs.Resolve.{Holds, HoldsAll}
use squashfs_fuse.Vfs.Tree.{Tree, node, nil, entry, find, children}
use squashfs_fuse.Vfs.{done, resolve_path}

abbrev etc : Group
etc = record {
  start = 0;
  base = 7;
  first = record { offset = 32; number = 7; type = dir; name = b'e' ∷ b't' ∷ b'c' ∷ [] };
  others = [];
}

etc-GroupsFit : GroupsFit (etc ∷ [])
unfolding value
etc-GroupsFit = (
  record {
    start = omega arith;
    base = omega arith;
    count = omega arith;
    listed = (
      record {
        offset = omega arith;
        above = omega arith;
        below = omega arith;
        basic = omega arith;
        named = omega arith;
        short = omega arith;
      },
      tt,
    );
  },
  tt,
)

abbrev raw : Bytes
raw = put_groups (etc ∷ [])

abbrev root_dir : DiskDir
root_dir = record {
  block_idx = 0;
  link_count = 3;
  file_size = 3 + length raw;
  block_offset = 0;
  parent_inode = 1;
}

abbrev etc_dir : DiskDir
etc_dir = record {
  block_idx = 0;
  link_count = 2;
  file_size = 3;
  block_offset = 0;
  parent_inode = 7;
}

abbrev both : Bytes
both = put_header (header 1) (put_dir root_dir (put_header (header 1) (put_dir etc_dir [])))

abbrev image : Bytes
image = stored both ++ stored raw

abbrev sb : Superblock
sb = record zero_superblock {
  disk = record zero_disk { block_size = 4096; dir_table = length (stored both) };
}

abbrev tree : Tree
tree =
    node (dir_inode (header 1) root_dir)
      (entry (dirent_of 7 0 etc.first) (node (dir_inode (header 1) etc_dir) nil) nil)

root_there :
    (stale : Bytes) → get_by_ref (platform image) sb 0 stale ≡ ok (dir_inode (header 1) root_dir)
root_there stale =
    Others.get_by_ref-dir (platform image) sb 0 [] (unfold meta_block_offset in refl) (header 1)
      (omega arith) stale (memory image) root_dir (put_header (header 1) (put_dir etc_dir [])) refl
      (omega arith)
      (unfold meta_block_pos in
        block_at [] both (stored raw) (omega arith) (omega arith) (omega arith) (omega arith))

etc_there :
    (stale : Bytes)
    → get_by_ref (platform image) sb (dirent_of 7 0 etc.first).inode_ref stale
      ≡ ok (dir_inode (header 1) etc_dir)
unfolding make_meta_ref
etc_there stale =
    Others.get_by_ref-dir (platform image) sb (dirent_of 7 0 etc.first).inode_ref
      (put_header (header 1) (put_dir root_dir [])) (unfold meta_block_offset in refl) (header 1)
      (omega arith) stale (memory image) etc_dir [] refl (omega arith)
      (unfold meta_block_pos in
        block_at [] both (stored raw) (omega arith) (omega arith) (omega arith) (omega arith))

listing_there : Chain.Chain (platform image) (length (stored both)) (raw ∷ [])
unfolding read_meta_block decompress_meta_block meta_header_size meta_header_is_uncompressed
    read_image le16_to_cpu value
listing_there = (length image, refl, tt)

root_read :
    dir_read (platform image) sb 1 (dir_inode (header 1) root_dir) ≡ some (ok (dirents (etc ∷ [])))
root_read =
    EndToEnd.dir_read-put_groups (platform image) sb (memory image) 1
      (dir_inode (header 1) root_dir)
      (record {
        block_idx = 0;
        size = length raw;
        block_offset = 0;
        parent_inode = 1;
        index_count = 0;
      })
      (etc ∷ []) raw [] (unfold is_dir in refl) refl (omega arith) listing_there (omega arith)
      (omega arith) (omega arith) refl etc-GroupsFit

tree-Holds : Holds (platform image) sb 1 tree
unfolding Holds HoldsAll dir_read is_dir
tree-Holds = (λ is. root_read, (etc_there, (λ is. refl, tt), tt))

-- `//etc/`.
abbrev etc_path : List Part
etc_path = record { extra = 1; name = b'e' ∷ b't' ∷ b'c' ∷ [] } ∷ []

etc-ArePlain : ArePlain etc_path
etc-ArePlain = (
  omega arith,
  (
    λ e. omega (arith, e),
    λ e. omega (arith, e),
    (
      λ e. omega (arith, e),
      λ e. omega (arith, e),
      (λ e. omega (arith, e), λ e. omega (arith, e), tt),
    ),
  ),
  tt,
)

resolve_path-find_example :
    resolve_path (platform image) sb 1 (λ n. []) (b'/' ∷ b'/' ∷ b'e' ∷ b't' ∷ b'c' ∷ b'/' ∷ [])
    ≡ some (find tree ((b'e' ∷ b't' ∷ b'c' ∷ []) ∷ []))
resolve_path-find_example =
    Resolve.resolve_path-find (platform image) sb 1 (λ n. []) tree etc_path 1 0x7f0012345678
      etc-ArePlain tree-Holds root_there refl

found : find tree ((b'e' ∷ b't' ∷ b'c' ∷ []) ∷ []) ≡ done (dir_inode (header 1) etc_dir)
unfolding find
found = refl

readdir-children_example :
    IsListing (children tree []) (readdir (platform image) sb 1 (λ n. []) (b'/' ∷ []))
readdir-children_example =
    Listing.readdir-children (platform image) sb 1 (λ n. []) tree [] 0 (memory image) tt tree-Holds
      root_there

there :
    children tree []
    ≡ done (entry (dirent_of 7 0 etc.first) (node (dir_inode (header 1) etc_dir) nil) nil)
unfolding children
there = refl

-- Six bytes of the file of nine.
abbrev handle : Handle
handle = record { inode = Read.inode; file_size = 9 }

read-data_read_example :
    read (platform Read.image) Read.ops Read.sb 20 handle 6 2 none (9 ∷ 9 ∷ 9 ∷ 9 ∷ [])
    ≡ replied (
        data_read
          (platform Read.image)
          Read.ops
          Read.sb
          20
          Read.inode
          2
          6
          none
          (9 ∷ 9 ∷ 9 ∷ 9 ∷ []))
read-data_read_example =
    Paths.read-data_read (platform Read.image) Read.ops Read.sb 20 handle Read.ctx 6 2 none
      (9 ∷ 9 ∷ 9 ∷ 9 ∷ []) (unfold is_file in refl)
      (unfold file_ctx_init calculate_block_layout is_file in refl) refl (omega arith) (omega arith)
