-- ===== src/Shared/Reads.antt =====
-- src/core/data.c, `sqfs_data_read` with the shared cache of src/core/cache.c and the fragments of
-- src/core/fragment.c under it.
use squashfs_fuse.Cache.Calls.{IsSound}
use squashfs_fuse.Cache.Ops.{Allocator}
use squashfs_fuse.Cache.{Ptr, Cache}
use squashfs_fuse.Common.{
  ℕ, ◌+◌, ◌/◌, ◌%◌, ◌^◌, ◌≤◌, ◌<◌, Bool, true, false, List, [], ◌++◌, append-nil, Option, none,
  some, ◌≡◌, ◌≢◌, refl, sym, subst, inl, length, slice, get_elem?,
}
use squashfs_fuse.Data.Read.Blocks.{AreFull}
use squashfs_fuse.Data.Read.Cached.{IsCache}
use squashfs_fuse.Data.Read.File.{data_read-contents}
use squashfs_fuse.Data.Read.Range.{IsBlock}
use squashfs_fuse.Data.Read.Stuck.{read_loop-short}
use squashfs_fuse.Data.Read.Tail.{AllFull}
use squashfs_fuse.Data.Read.{Ops, data_read, read_loop}
use squashfs_fuse.Data.{
  FileCtx, file_ctx_init, fragment_is_none, file_block_location, data_read_block,
}
use squashfs_fuse.Directory.Table.Chain.{contents}
use squashfs_fuse.Fragment.File.{data_read-fragment}
use squashfs_fuse.Fragment.Tail.{IsDataCache, data_ops-IsCache}
use squashfs_fuse.Fragment.{FragTable, data_ops, read_block}
use squashfs_fuse.Inode.{Inode, is_file}
use squashfs_fuse.Platform.{Platform}
use squashfs_fuse.Result.{ok}
use squashfs_fuse.Shared.Coherent.{IsCoherent, IsFresh, store_cache-IsDataCache}
use squashfs_fuse.Shared.{Store, store_cache}
use squashfs_fuse.Superblock.{Superblock}
use squashfs_fuse.Utils.{Bytes, u32}

module _ (p : Platform) (m : Allocator) (object : Cache → Ptr) (sound : IsSound m)
    (fresh : IsFresh object) (sb : Superblock) (table : Option FragTable) (ctx : FileCtx)
    (held_at : ℕ → Bytes) where
  abbrev pub shared_ops : Ops Store
  shared_ops = data_ops p (store_cache m object) sb table

  pub shared-IsDataCache : IsDataCache (store_cache m object) held_at (IsCoherent held_at)
  shared-IsDataCache = store_cache-IsDataCache held_at m object sound fresh

  pub shared-IsCache : IsCache shared_ops held_at (IsCoherent held_at)
  shared-IsCache = data_ops-IsCache p (store_cache m object) sb table shared-IsDataCache

  -- Each block of the file is a hole, or what the image holds at its place.
  abbrev pub AreBlocks : List Bytes → Type 0
  AreBlocks blocks =
      (i : ℕ)
      → (b : Bytes) → get_elem? blocks i ≡ some b
      → IsBlock p shared_ops ctx shared-IsCache blocks i b

  -- The blocks of a file, and its part of the fragment block.
  abbrev pub with_tail : List Bytes → ℕ → Bytes
  with_tail blocks tail_size =
      contents blocks ++ slice (held_at ctx.frag_idx) ctx.frag_offset tail_size

  -- A read of a file without a fragment, whose blocks are full but for the last one, gives `size` bytes
  -- from `offset` on of its blocks put end to end, holes as zeros, or as many as there are before its
  -- end. Blocks are looked up in the cache of cache.c, and put there, with its evictions, refusals and
  -- failures of malloc for its entries; before the read and after it, its invariant holds, and each object
  -- that it has is what `held_at` says for its key, which for the position of a block of the file is what
  -- is read from the image there. So no fragment whose number is such a position may be cached. The block
  -- size is not 0, there are at most 2 ^ 32 blocks, the end of the range is below 2 ^ 64, `size` is enough
  -- fuel, no other allocation fails, and malloc gives no address that the cache has in use.
  pub data_read-blocks :
      (blocks : List Bytes) (sizes : AreFull ctx.block_size blocks) (few : length blocks ≤ 2 ^ 32)
      (each : AreBlocks blocks) (inode : Inode) (fuel offset size : ℕ) (s : Store) (buf : Bytes)
      → ((size : ℕ) → p.malloc size ≢ none)
      → fragment_is_none ctx.frag_idx ≡ true
      → is_file inode.type ≡ true
      → file_ctx_init sb inode ≡ ok ctx
      → 0 < ctx.block_size
      → ctx.file_size ≡ length (contents blocks)
      → offset + size < 2 ^ 64
      → size < fuel
      → IsCoherent held_at s
      → (t : Store) × (data_read p shared_ops sb fuel inode offset size s buf
          ≡ some (t, ok (slice (contents blocks) offset size)))
        × IsCoherent held_at t
  data_read-blocks blocks sizes few each inode fuel offset size s buf memory plain type init
        pos_size total small enough coherent =
      let whole = append-nil (contents blocks) in
      let (t, run, kept) =
        data_read-contents p shared_ops ctx shared-IsCache blocks pos_size sizes few each []
          (inl (refl, plain)) memory sb inode fuel offset size s buf type init
          (subst (λ w. ctx.file_size ≡ length w) (sym whole) total) small enough coherent in
      (
        t,
        subst
            (λ w.
              data_read p shared_ops sb fuel inode offset size s buf
              ≡ some (t, ok (slice w offset size)))
            whole run,
        kept,
      )

  -- A read of a file with full blocks and a tail in a fragment gives `size` bytes from `offset` on of its
  -- blocks put end to end, holes as zeros, and of the part of the fragment block that its inode names, or
  -- as many as there are before its end. Blocks and fragments are looked up in the one cache of cache.c,
  -- and put there, with its evictions, refusals and failures of malloc for its entries; before the read
  -- and after it, its invariant holds, and each object that it has is what `held_at` says for its key:
  -- for the position of a block of the file what is read from the image there, and for the fragment's
  -- number the fragment block. So the number is no such position, and no other fragment or block with one
  -- of these keys may be cached. The fragment block can be read, and holds the part that the inode names; it
  -- fits the block size of the file and the image, which is a 32-bit number and not 0, there
  -- are fewer than 2 ^ 32 blocks, the end of the range is below 2 ^ 64, `size` is enough fuel, no other
  -- allocation fails, and malloc gives no address that the cache has in use.
  pub data_read-tail :
      (blocks : List Bytes) (sizes : AllFull ctx.block_size blocks) (each : AreBlocks blocks)
      (tail_size : ℕ) (inode : Inode) (fuel offset size : ℕ) (s : Store) (buf : Bytes)
      → ((size : ℕ) → p.malloc size ≢ none)
      → fragment_is_none ctx.frag_idx ≡ false
      → read_block p sb table ctx.frag_idx ≡ ok (held_at ctx.frag_idx)
      → length (held_at ctx.frag_idx) ≤ sb.disk.block_size
      → sb.disk.block_size < 2 ^ 32
      → ctx.block_size ≡ sb.disk.block_size
      → ctx.frag_offset + tail_size ≤ length (held_at ctx.frag_idx)
      → ctx.block_count ≡ length blocks
      → length blocks < 2 ^ 32
      → is_file inode.type ≡ true
      → file_ctx_init sb inode ≡ ok ctx
      → 0 < ctx.block_size
      → ctx.file_size ≡ length (with_tail blocks tail_size)
      → offset + size < 2 ^ 64
      → size < fuel
      → IsCoherent held_at s
      → (t : Store) × (data_read p shared_ops sb fuel inode offset size s buf
          ≡ some (t, ok (slice (with_tail blocks tail_size) offset size)))
        × IsCoherent held_at t
  data_read-tail blocks sizes each tail_size inode fuel offset size s buf memory present read fits
        word same inside count number type init pos_size total small enough coherent =
      data_read-fragment p (store_cache m object) sb table ctx shared-IsDataCache memory present
        read fits word same tail_size inside blocks sizes count number each inode fuel offset size s
        buf type init pos_size total small enough coherent

  -- If the block in which a read goes on ends just where it is to go on, the loop never ends: no fuel is
  -- enough. The block is no hole and can be read, the file has no fragment, and the cache of cache.c, under its invariant, has no object for the
  -- block's position but the block; malloc gives no address that it has in use.
  pub read_loop-stuck :
      (fuel offset size : ℕ) (s : Store) (buf out : Bytes) (at disk_size : ℕ) (flag : Bool)
      → IsCoherent held_at s
      → fragment_is_none ctx.frag_idx ≡ true
      → length out < size
      → file_block_location ctx (u32 ((offset + length out) / ctx.block_size))
        ≡ ok (at, disk_size, flag)
      → disk_size ≢ 0
      → data_read_block p at disk_size ctx.block_size ≡ ok (held_at at)
      → (offset + length out) % ctx.block_size ≡ length (held_at at)
      → read_loop p shared_ops ctx fuel offset size s buf out ≡ none
  read_loop-stuck = read_loop-short p shared_ops ctx shared-IsCache
