-- ===== src/Data/Layout.antt =====
-- src/core/data.c, `calculate_block_layout`: it counts the blocks of a file as
-- `sqfs_calc_block_count` of inode.c does, which sized the array of block sizes.
use squashfs_fuse.Common.{ℕ, ◌%◌, ◌^◌, ◌<◌, not, true, ◌≡◌, arith, inl, inr, Bool-cases, ◌==◌}
use squashfs_fuse.Data.{FileCtx, calculate_block_layout, file_ctx_init}
use squashfs_fuse.Inode.Blocks.{calc_block_count}
use squashfs_fuse.Inode.Parse.{fragment_invalid}
use squashfs_fuse.Inode.{Inode, FileData, file_body, is_file}
use squashfs_fuse.Result.{ok}
use squashfs_fuse.Superblock.{Superblock}
use native.Mathlib.Nat.{mod-lt, zero-mod}

-- The context of a file with `n` blocks.
abbrev pub context : Superblock → Inode → FileData → ℕ → FileCtx
context sb inode f n = record {
  file_size = f.file_size;
  current_offset = 0;
  blocks_start = f.blocks_start;
  block_size = sb.disk.block_size;
  block_count = n;
  tail_size = f.file_size % sb.disk.block_size;
  frag_idx = f.frag_idx;
  frag_offset = f.block_offset;
  sparse_bytes = f.sparse;
  block_sizes = inode.block_sizes;
}

-- For every block size of 32 bits but 0, the context of a file has as many blocks as
-- `sqfs_calc_block_count` gave its inode, and its tail is the size less the full blocks.
pub file_ctx_init-calc_block_count :
    (sb : Superblock) (inode : Inode) (f : FileData) (n : ℕ)
    → is_file inode.type ≡ true
    → inode.body ≡ file_body f
    → 0 < sb.disk.block_size
    → sb.disk.block_size < 2 ^ 32
    → calc_block_count f.file_size sb.disk.block_size (not (f.frag_idx == fragment_invalid)) ≡ ok n
    → file_ctx_init sb inode ≡ ok (context sb inode f n)
unfolding file_ctx_init calculate_block_layout calc_block_count
file_ctx_init-calc_block_count sb inode f n type body pos narrow count =
    let tail = mod-lt f.file_size pos in
    let empty = zero-mod sb.disk.block_size in
    elim (Bool-cases (f.file_size == 0)) [
      | inl is_empty ↦ ground (arith, type, body, empty, is_empty)
      | inr sized ↦ ground (arith, type, body, tail, sized)
    ]
