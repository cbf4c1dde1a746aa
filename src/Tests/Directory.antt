-- ===== src/Tests/Directory.antt =====
-- src/core/directory.c on a listing of three names, in two metadata blocks.
use squashfs_fuse.Common.{
  ◌⊎◌, ◌≡◌, ◌≢◌, refl, arith, [], ◌∷◌, ◌++◌, List, none, some, length, take, drop, slice,
}
use squashfs_fuse.Directory.Listing.{Item, Group, put_groups, GroupsFit, dirents}
use squashfs_fuse.Directory.Read.EndToEnd
use squashfs_fuse.Directory.Read.Lookup
use squashfs_fuse.Directory.Read.Lookup.{IsFirst, IsAbsent}
use squashfs_fuse.Directory.Read.{dir_read, dirent_lookup}
use squashfs_fuse.Directory.RoundTrip
use squashfs_fuse.Directory.Safety
use squashfs_fuse.Directory.Table.Chain
use squashfs_fuse.Directory.Table.Chain.{contents}
use squashfs_fuse.Directory.Table.Fuel
use squashfs_fuse.Directory.Table.{read_meta_block, decompress_meta_block, read_directory_data}
use squashfs_fuse.Directory.{Dirent, parse_directory_entries}
use squashfs_fuse.Inode.{Inode, DirData, dir, file, symlink, dir_body, is_dir, value}
use squashfs_fuse.Metadata.{meta_header_size, meta_header_is_uncompressed}
use squashfs_fuse.Result.{ok, fault}
use squashfs_fuse.Tests.Load.{stored, memory, sb}
use squashfs_fuse.Tests.Metadata.{platform, platform-Serves}
use squashfs_fuse.Utils.Pread.{read_image}
use squashfs_fuse.Utils.{Bytes, le16_to_cpu}

abbrev etc : Item
etc = record { offset = 32; number = 7; type = dir; name = b'e' ∷ b't' ∷ b'c' ∷ [] }

abbrev link : Item
link = record { offset = 64; number = 5; type = symlink; name = b'l' ∷ b'n' ∷ [] }

abbrev note : Item
note = record { offset = 0; number = 9; type = file; name = b'n' ∷ [] }

abbrev groups : List Group
groups =
    record { start = 0; base = 6; first = etc; others = link ∷ [] }
    ∷ record { start = 300; base = 9; first = note; others = [] }
    ∷ []

groups-GroupsFit : GroupsFit groups
unfolding value
groups-GroupsFit = (
  record {
    start = omega arith;
    base = omega arith;
    count = omega arith;
    listed = (
      record {
        offset = omega arith;
        above = omega arith;
        below = omega arith;
        basic = omega arith;
        named = omega arith;
        short = omega arith;
      },
      (
        record {
          offset = omega arith;
          above = omega arith;
          below = omega arith;
          basic = omega arith;
          named = omega arith;
          short = omega arith;
        },
        tt,
      ),
    );
  },
  (
    record {
      start = omega arith;
      base = omega arith;
      count = omega arith;
      listed = (
        record {
          offset = omega arith;
          above = omega arith;
          below = omega arith;
          basic = omega arith;
          named = omega arith;
          short = omega arith;
        },
        tt,
      );
    },
    tt,
  ),
)

abbrev raw : Bytes
raw = put_groups groups

parse_directory_entries-put_groups_example :
    parse_directory_entries (platform []).malloc raw ≡ ok (dirents groups)
parse_directory_entries-put_groups_example =
    RoundTrip.parse_directory_entries-put_groups (platform []).malloc (memory []) groups
      groups-GroupsFit

parse_directory_entries-safe_example :
    parse_directory_entries (platform []).malloc (take 30 raw) ≢ fault
parse_directory_entries-safe_example =
    Safety.parse_directory_entries-safe (platform []).malloc (take 30 raw)

abbrev first_block : Bytes
first_block = 9 ∷ take 20 raw

abbrev second_block : Bytes
second_block = drop 20 raw

abbrev image : Bytes
image = stored first_block ++ stored second_block

image-Chain : Chain.Chain (platform image) 0 (first_block ∷ second_block ∷ [])
unfolding read_meta_block decompress_meta_block meta_header_size meta_header_is_uncompressed
    read_image le16_to_cpu value
image-Chain = (23, refl, (length image, refl, tt))

read_directory_data-Chain_example :
    read_directory_data (platform image) 2 0 0 1 (length raw)
    ≡ some (ok (slice (contents (first_block ∷ second_block ∷ [])) 1 (length raw)))
read_directory_data-Chain_example =
    Chain.read_directory_data-Chain (platform image) 2 0 0 1 (length raw) first_block
      (second_block ∷ []) image-Chain (omega arith) (omega arith) (omega arith)

read_directory_data-total_example : read_directory_data (platform image) 200 0 0 1 500 ≢ none
read_directory_data-total_example =
    Fuel.read_directory_data-total (platform image) (platform-Serves image) (omega arith) 200 0 0 1
      500 (omega arith)

abbrev place : DirData
place = record {
  block_idx = 0;
  size = length raw;
  block_offset = 1;
  parent_inode = 1;
  index_count = 0;
}

abbrev root : Inode
root = record {
  inode_number = 1;
  type = dir;
  permissions = 0x1ed;
  uid = 0;
  gid = 0;
  mtime = 0;
  link_count = 3;
  body = dir_body place;
  block_sizes = none;
}

dir_read-put_groups_example : dir_read (platform image) sb 2 root ≡ some (ok (dirents groups))
dir_read-put_groups_example =
    EndToEnd.dir_read-put_groups (platform image) sb (memory image) 2 root place groups first_block
      (second_block ∷ []) (unfold is_dir in refl) refl (omega arith) image-Chain (omega arith)
      (omega arith) (omega arith) refl groups-GroupsFit

dirent_lookup_lem_example :
    ((d : Dirent) × (dirent_lookup (dirents groups) (b'l' ∷ b'n' ∷ 0 ∷ []) ≡ some d)
      × IsFirst (b'l' ∷ b'n' ∷ []) (dirents groups) d)
    ⊎ ((dirent_lookup (dirents groups) (b'l' ∷ b'n' ∷ 0 ∷ []) ≡ none)
        × IsAbsent (b'l' ∷ b'n' ∷ []) (dirents groups))
dirent_lookup_lem_example =
    Lookup.dirent_lookup_lem (dirents groups) (b'l' ∷ b'n' ∷ [])
      (
        (b'e' ∷ b't' ∷ b'c' ∷ [], tt, refl),
        ((b'l' ∷ b'n' ∷ [], tt, refl), ((b'n' ∷ [], tt, refl), tt)),
      )
      tt
