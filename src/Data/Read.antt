-- ===== src/Data/Read.antt =====
-- src/core/data.c, `sqfs_data_read_internal`: the reading of a range of a file, block by block. The
-- cache of data blocks and the fragment reader are used through an interface.
pub mod Blocks
pub mod Cached
pub mod Range
pub mod Tail
pub mod Loop
pub mod File
pub mod Stuck
use squashfs_fuse.Common.{
  ℕ, zero, suc, ◌+◌, ◌-◌, ◌/◌, ◌%◌, ◌^◌, min, Bool, true, false, not, ◌&&◌, Option, none, some,
  List, [], ◌∷◌, ◌++◌, length, take, drop, replicate, ltb, leb, ◌==◌, if◌then◌else◌,
}
use squashfs_fuse.Data.{
  FileCtx, fragment_is_none, file_ctx_init, file_block_location, data_read_block,
}
use squashfs_fuse.Inode.{Inode, is_file}
use squashfs_fuse.Metadata.{allocate}
use squashfs_fuse.Platform.{Platform}
use squashfs_fuse.Result.{Error, Result, ok, err, fault, bad_inode, no_memory, not_found, ◌>>=◌}
use squashfs_fuse.Superblock.{Superblock}
use squashfs_fuse.Utils.{Bytes, u32, u64}

-- `fuse_ctx->data_cache`, by the data of its entries, and `sqfs_fragment_read`. `get` is
-- `sqfs_cache_get`, `put` is `sqfs_cache_put` with a new entry, or nothing if an allocation failed.
pub record Ops (S : Type 0) : Type 0 where
  pub get : S → ℕ → S × Option Bytes
  pub put : S → ℕ → Bytes → S
  pub fragment_read : S → ℕ → ℕ → ℕ → S × Result Bytes

abbrev pub is_not_found : Error → Bool
is_not_found not_found = true
is_not_found _ = false

module _ {S : Type 0} (p : Platform) (ops : Ops S) (ctx : FileCtx) where
  -- `read_from_fragment`: zeros stand for a fragment that cannot be read.
  unfoldable pub read_from_fragment : S → ℕ → ℕ → S × Result Bytes
  read_from_fragment s frag_offset size =
      let read = ops.fragment_read s ctx.frag_idx frag_offset size in
      elim read.1 [
        | ok bytes ↦ (read.0, ok bytes)
        | err _ ↦ (read.0, ok (replicate size 0))
        | fault ↦ (read.0, fault)
      ]

  -- What a block gives: the state, `block_buf` and the bytes that are copied from it. A block that is
  -- shorter than `block_offset` makes the unsigned difference wrap around.
  unfoldable pub read_into : S → Bytes → ℕ → ℕ → ℕ → ℕ → S × Bytes × Result Bytes
  read_into s block_buf block_pos disk_size block_offset remaining =
      elim (data_read_block p block_pos disk_size ctx.block_size) [
        | err e ↦ (s, block_buf, err e)
        | fault ↦ (s, block_buf, fault)
        | ok bytes ↦
            let actual_size = length bytes in
            let buf = bytes ++ drop actual_size block_buf in
            let stored = if ltb 0 actual_size then ops.put s block_pos bytes else s in
            let left =
              if leb block_offset actual_size
              then actual_size - block_offset
              else 2 ^ 64 - block_offset + actual_size in
            let to_copy = min (min (ctx.block_size - block_offset) remaining) left in
            (stored, buf, ok (take to_copy (drop block_offset buf)))
      ]

  -- The bytes of a block that is not a hole, from the cache or from the image.
  unfoldable pub read_cached : S → Bytes → ℕ → ℕ → ℕ → ℕ → S × Bytes × Result Bytes
  unfolding read_into
  read_cached s block_buf block_pos disk_size block_offset remaining =
      let found = ops.get s block_pos in
      elim found.1 [
        | none ↦ read_into found.0 block_buf block_pos disk_size block_offset remaining
        | some bytes ↦
            if ltb block_offset (length bytes)
            then (
              found.0,
              block_buf,
              ok (take (min (length bytes - block_offset) remaining) (drop block_offset bytes)),
            )
            else read_into found.0 block_buf block_pos disk_size block_offset remaining
      ]

  -- `while (bytes_remaining > 0)`, from `offset`; `out` has what was read so far. `none`: the fuel ran
  -- out.
  unfoldable pub read_loop : ℕ → ℕ → ℕ → S → Bytes → Bytes → Option (S × Result Bytes)
  unfolding read_cached read_from_fragment
  read_loop zero offset size s block_buf out = none
  read_loop (suc fuel) offset size s block_buf out =
      let remaining = size - length out in
      let block_idx = u32 ((offset + length out) / ctx.block_size) in
      let block_offset = (offset + length out) % ctx.block_size in
      elim (ltb (length out) size) [
        | false ↦ some (s, ok out)
        | true ↦ elim ((block_idx == ctx.block_count) && not (fragment_is_none ctx.frag_idx)) [
          | true ↦
              let read = read_from_fragment s (u32 (ctx.frag_offset + block_offset)) remaining in
              some (read.0, read.1 >>= λ bytes. ok (out ++ bytes))
          | false ↦ elim (file_block_location ctx block_idx) [
            | err e ↦
                if is_not_found e && (block_idx == ctx.block_count)
                then some (s, ok (out ++ replicate remaining 0))
                else some (s, err e)
            | fault ↦ some (s, fault)
            | ok (block_pos, disk_size, _) ↦ elim (disk_size == 0) [
              | true ↦
                  let to_copy = min (ctx.block_size - block_offset) remaining in
                  read_loop fuel offset size s block_buf (out ++ replicate to_copy 0)
              | false ↦
                  let read = read_cached s block_buf block_pos disk_size block_offset remaining in
                  elim read.2 [
                    | err e ↦ some (read.0, err e)
                    | fault ↦ some (read.0, fault)
                    | ok bytes ↦ read_loop fuel offset size read.0 read.1 (out ++ bytes)
                  ]
            ]
          ]
        ]
      ]

-- `sqfs_data_read`, whose count of bytes is not cut to the `int` that it is returned in; `block_buf` is what stands in a new buffer of a block's size.
unfoldable pub data_read :
    {S : Type 0}
    → Platform
    → Ops S
    → Superblock
    → ℕ
    → Inode
    → ℕ
    → ℕ
    → S
    → Bytes
    → Option (S × Result Bytes)
data_read p ops sb fuel inode offset size s block_buf =
    if not (is_file inode.type) then some (s, err bad_inode) else elim (file_ctx_init sb inode) [
      | err e ↦ some (s, err e)
      | fault ↦ some (s, fault)
      | ok ctx ↦
          let clamped =
            if ltb ctx.file_size (u64 (offset + size)) then ctx.file_size - offset else size in
          if leb ctx.file_size offset
          then some (s, ok [])
          else if clamped == 0
          then some (s, ok [])
          else elim (p.malloc ctx.block_size) [
            | none ↦ some (s, err no_memory)
            | some _ ↦ read_loop p ops ctx fuel offset clamped s block_buf []
          ]
    ]
