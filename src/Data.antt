-- ===== src/Data.antt =====
-- src/core/data.h and data.c: where the blocks of a file stand, and the reading of one of them.
pub mod Layout
pub mod Location
pub mod Sparse
pub mod Read
use squashfs_fuse.Common.{
  ℕ, zero, suc, ◌+◌, ◌-◌, ◌/◌, ◌%◌, ◌^◌, Bool, true, false, not, ◌&&◌, Option, none, some, List, [],
  ◌∷◌, length, replicate, min, ltb, leb, ◌==◌, get_elem?, if◌then◌else◌,
}
use squashfs_fuse.Inode.Parse.{fragment_invalid}
use squashfs_fuse.Inode.{Inode, Body, FileData, file_body, is_file}
use squashfs_fuse.Metadata.{read_block_from_disk, allocate, decompress}
use squashfs_fuse.Platform.{Platform}
use squashfs_fuse.Result.{
  Result, ok, err, fault, bad_inode, bad_block, not_found, ◌>>=◌, ◌>>◌, check,
}
use squashfs_fuse.Superblock.{Superblock}
use squashfs_fuse.Utils.{Bytes, u32, u64, block_size, block_is_uncompressed}

-- `sqfs_file_ctx_t`.
pub record FileCtx : Type 0 where
  pub file_size : ℕ
  pub current_offset : ℕ
  pub blocks_start : ℕ
  pub block_size : ℕ
  pub block_count : ℕ
  pub tail_size : ℕ
  pub frag_idx : ℕ
  pub frag_offset : ℕ
  pub sparse_bytes : ℕ
  pub block_sizes : Option (List ℕ)

-- `sqfs_fragment_is_none`.
abbrev pub fragment_is_none : ℕ → Bool
fragment_is_none frag_idx = frag_idx == fragment_invalid

-- A block size of 0 faults on the division.
unfoldable pub calculate_block_layout : FileCtx → ℕ → ℕ → Result FileCtx
calculate_block_layout ctx file_size block_size =
    if file_size == 0
    then ok (record ctx { block_count = 0; tail_size = 0 })
    else if block_size == 0
    then fault
    else (let full = u32 (file_size / block_size) in
        let tail = u32 (file_size % block_size) in
        let partial = ltb 0 tail && fragment_is_none ctx.frag_idx in
        ok
          (record ctx { block_count = if partial then u32 (full + 1) else full; tail_size = tail }))

-- `inode->file`. The parser fills that member for an inode of a file's type.
abbrev pub file_data : Body → Result FileData
file_data (file_body f) = ok f
file_data _ = fault

unfoldable pub file_ctx_init : Superblock → Inode → Result FileCtx
file_ctx_init sb inode = do
  check (is_file inode.type) bad_inode
  f ← file_data inode.body
  let ctx : FileCtx = record {
    file_size = f.file_size;
    current_offset = 0;
    blocks_start = f.blocks_start;
    block_size = sb.disk.block_size;
    block_count = 0;
    tail_size = 0;
    frag_idx = f.frag_idx;
    frag_offset = f.block_offset;
    sparse_bytes = f.sparse;
    block_sizes = inode.block_sizes;
  }
  calculate_block_layout ctx f.file_size sb.disk.block_size

-- `ctx->block_sizes[i]`.
abbrev pub size_of_block : FileCtx → ℕ → Result ℕ
size_of_block ctx i = elim ctx.block_sizes [
  | none ↦ fault
  | some sizes ↦ elim (get_elem? sizes i) [ none ↦ fault | some size ↦ ok size ]
]

-- `for (i = 0; i < block_idx; i++) pos += sqfs_block_size_get(ctx->block_sizes[i]);`
unfoldable pub add_sizes : ℕ → List ℕ → ℕ → Result ℕ
add_sizes zero sizes pos = ok pos
add_sizes (suc n) [] pos = fault
add_sizes (suc n) (x ∷ xs) pos = add_sizes n xs (u64 (pos + block_size x))

-- `*out_pos`, `*out_size` and `*out_uncomp`.
unfoldable pub file_block_location : FileCtx → ℕ → Result (ℕ × ℕ × Bool)
file_block_location ctx block_idx =
    if leb ctx.block_count block_idx
    then (if (block_idx == ctx.block_count) && not (fragment_is_none ctx.frag_idx)
        then err not_found
        else err bad_block)
    else (size_of_block ctx block_idx >>= λ size.
        if size == 0 then ok (0, 0, false) else elim ctx.block_sizes [
          | none ↦ fault
          | some sizes ↦ add_sizes block_idx sizes ctx.blocks_start >>= λ pos.
              ok (pos, size, block_is_uncompressed size)
        ])

-- The blocks from `i` to `end_block`, of which `n` are left before `block_count`.
unfoldable pub sparse_loop : ℕ → FileCtx → ℕ → ℕ → Result Bool
sparse_loop zero ctx i end_block = ok true
sparse_loop (suc n) ctx i end_block =
    if ltb end_block i
    then ok true
    else (size_of_block ctx i >>= λ size.
        if not (size == 0) then ok false else sparse_loop n ctx (i + 1) end_block)

-- `sqfs_data_is_sparse`; a block size of 0 faults.
unfoldable pub is_sparse : FileCtx → ℕ → ℕ → Result Bool
is_sparse ctx offset size =
    if ctx.sparse_bytes == 0
    then ok false
    else if ctx.block_size == 0
    then fault
    else (let end_offset = min (u64 (offset + size)) ctx.file_size in
        let last = if end_offset == 0 then 2 ^ 64 - 1 else end_offset - 1 in
        let start_block = u32 (offset / ctx.block_size) in
        sparse_loop (ctx.block_count - start_block) ctx start_block (u32 (last / ctx.block_size)))

module _ (p : Platform) where
  -- `sqfs_data_read_block` into a buffer of `uncomp_size` bytes: the bytes at its start, whose number
  -- it returns. A block that is stored uncompressed is read whole, and overflows a shorter buffer.
  unfoldable pub data_read_block : ℕ → ℕ → ℕ → Result Bytes
  data_read_block block_pos stored_size uncomp_size =
      if stored_size == 0
      then ok (replicate uncomp_size 0)
      else if block_is_uncompressed stored_size
      then (read_block_from_disk p block_pos (block_size stored_size) >>= λ bytes.
          if leb (length bytes) uncomp_size then ok bytes else fault)
      else (let actual_size = block_size stored_size in
          (if leb actual_size uncomp_size then ok 0 else allocate p actual_size) >>= λ _.
          read_block_from_disk p block_pos actual_size >>= λ src. decompress p src uncomp_size)
