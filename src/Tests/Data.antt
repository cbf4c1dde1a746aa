-- ===== src/Tests/Data.antt =====
-- src/core/data.c on a file of three blocks: one stored as it is, a hole, and one that is compressed.
use squashfs_fuse.Common.{ℕ, true, false, ◌≡◌, ◌⊎◌, refl, arith, [], ◌∷◌, List, some}
use squashfs_fuse.Data.Layout
use squashfs_fuse.Data.Layout.{context}
use squashfs_fuse.Data.Location
use squashfs_fuse.Data.Sparse
use squashfs_fuse.Data.Sparse.{AllHoles, SomeData}
use squashfs_fuse.Data.{
  FileCtx, file_ctx_init, file_block_location, data_read_block, is_sparse, sparse_loop,
}
use squashfs_fuse.Inode.Parse.Disk.{file_inode}
use squashfs_fuse.Inode.{FileData, is_file}
use squashfs_fuse.Result.{ok}
use squashfs_fuse.Tests.Inode.{header, three_blocks, count_run}
use squashfs_fuse.Tests.Load.{sb}
use squashfs_fuse.Tests.Metadata.{platform, platform-Serves}
use squashfs_fuse.Utils.{Bytes}

abbrev three_data : FileData
three_data = record {
  blocks_start = 96;
  file_size = 9000;
  sparse = 0;
  frag_idx = 0xffffffff;
  block_offset = 0;
  block_count = 3;
  xattr_idx = 0xffffffff;
}

file_ctx_init-calc_block_count_example :
    file_ctx_init sb (file_inode (header 2) three_blocks)
    ≡ ok (context sb (file_inode (header 2) three_blocks) three_data 3)
file_ctx_init-calc_block_count_example =
    Layout.file_ctx_init-calc_block_count sb (file_inode (header 2) three_blocks) three_data 3
      (unfold is_file in refl) refl (omega arith) (omega arith) count_run

abbrev sizes : List ℕ
sizes = 0x01000003 ∷ 0 ∷ 2 ∷ []

abbrev blocks : List Bytes
blocks = (1 ∷ 2 ∷ 3 ∷ []) ∷ [] ∷ (4 ∷ 5 ∷ []) ∷ []

abbrev image : Bytes
image = 9 ∷ 1 ∷ 2 ∷ 3 ∷ 4 ∷ 5 ∷ 7 ∷ []

abbrev ctx : FileCtx
ctx = record {
  file_size = 8195;
  current_offset = 0;
  blocks_start = 1;
  block_size = 4096;
  block_count = 3;
  tail_size = 3;
  frag_idx = 0xffffffff;
  frag_offset = 0;
  sparse_bytes = 4096;
  block_sizes = some sizes;
}

data_read_block-stored_example :
    (pos : ℕ) × (file_block_location ctx 0 ≡ ok (pos, 0x01000003, true))
    × (data_read_block (platform image) pos 0x01000003 4096 ≡ ok (1 ∷ 2 ∷ 3 ∷ []))
data_read_block-stored_example =
    Location.data_read_block-stored (platform image) (platform-Serves image) ctx sizes blocks
      (9 ∷ []) (7 ∷ []) refl refl refl (omega arith) (refl, (refl, (refl, tt))) 0 0x01000003 4096
      (1 ∷ 2 ∷ 3 ∷ []) (omega arith) refl refl (omega arith) refl (omega arith)

is_sparse_lem_example :
    ((is_sparse ctx 5000 100 ≡ ok true) × AllHoles sizes 3 1 1)
    ⊎ ((is_sparse ctx 5000 100 ≡ ok false) × SomeData sizes 3 1 1)
is_sparse_lem_example =
    Sparse.is_sparse_lem ctx sizes 5000 100 refl (omega arith) (omega arith) (omega arith)
      (omega arith) (omega arith) (omega arith) (omega arith)

holes_run : (is_sparse ctx 5000 100 ≡ ok true) × (is_sparse ctx 0 5000 ≡ ok false)
unfolding is_sparse sparse_loop
holes_run = (refl, refl)
