-- ===== src/Data/Read/File.antt =====
-- src/core/data.c, `sqfs_data_read`: a read of any range of a file.
use squashfs_fuse.Common.{
  ℕ, ◌+◌, ◌-◌, ◌^◌, ◌≤◌, ◌<◌, true, List, [], ◌++◌, none, some, ◌≡◌, ◌≢◌, refl, sym, ap, ◌∙◌, inl,
  inr, arith, Bool-cases, Option-cases, length, slice, slice-beyond, slice-cut, get_elem?, ltb, leb,
  ◌==◌, if◌then◌else◌,
}
use squashfs_fuse.Data.Read.Blocks.{AreFull}
use squashfs_fuse.Data.Read.Cached.{IsCache}
use squashfs_fuse.Data.Read.Loop.{Ending, read_loop_lem}
use squashfs_fuse.Data.Read.Range.{IsBlock}
use squashfs_fuse.Data.Read.{Ops, data_read}
use squashfs_fuse.Data.{FileCtx, file_ctx_init}
use squashfs_fuse.Directory.Table.Chain.{contents}
use squashfs_fuse.Inode.{Inode, is_file}
use squashfs_fuse.Platform.{Platform}
use squashfs_fuse.Result.{ok}
use squashfs_fuse.Superblock.{Superblock}
use squashfs_fuse.Utils.{Bytes, u64}

module _ {S : Type 0} (p : Platform) (ops : Ops S) (ctx : FileCtx) {held_at : ℕ → Bytes}
    {Coherent : S → Type 0} (cache : IsCache ops held_at Coherent) (blocks : List Bytes)
    (pos_size : 0 < ctx.block_size) (full : AreFull ctx.block_size blocks)
    (few : length blocks ≤ 2 ^ 32)
    (each : (i : ℕ) (b : Bytes) → get_elem? blocks i ≡ some b → IsBlock p ops ctx cache blocks i b)
    (tail : Bytes) (ending : Ending p ops ctx cache blocks tail)
    (memory : (size : ℕ) → p.malloc size ≢ none) where
  -- Where the range is cut off to `n` bytes.
  read_within :
      (sb : Superblock) (inode : Inode) (fuel offset size n : ℕ) (s : S) (buf : Bytes)
      → is_file inode.type ≡ true
      → file_ctx_init sb inode ≡ ok ctx
      → offset < ctx.file_size
      → (if ltb ctx.file_size (u64 (offset + size)) then ctx.file_size - offset else size) ≡ n
      → 0 < n
      → offset + n ≤ length (contents blocks ++ tail)
      → n < fuel
      → Coherent s
      → (t : S) × (data_read p ops sb fuel inode offset size s buf
          ≡ some (t, ok (slice (contents blocks ++ tail) offset n)))
        × Coherent t
  unfolding data_read
  read_within sb inode fuel offset size n s buf type init before cut positive fits enough coherent =
      let (t, read, kept) =
        read_loop_lem p ops ctx cache blocks tail pos_size full few each ending fuel offset n s buf
          [] coherent fits refl (omega arith) (omega arith) in
      elim (Option-cases (p.malloc ctx.block_size)) [
        | inl refused ↦ absurd (memory ctx.block_size refused)
        | inr (address, got) ↦
            (t, ground (arith, type, init, before, cut, positive, got, read), kept)
      ]

  -- A read of a file whose blocks are full but for the last one, or all full with the tail in a
  -- fragment, gives `size` bytes from `offset` on of its blocks put end to end, holes as zeros, and
  -- of the tail, or as many as there are before its end, and none behind it, whatever blocks a
  -- coherent cache holds; the cache stays coherent. The end of the range is below 2 ^ 64, no
  -- allocation fails, and `size` is enough fuel.
  pub data_read-contents :
      (sb : Superblock) (inode : Inode) (fuel offset size : ℕ) (s : S) (buf : Bytes)
      → is_file inode.type ≡ true
      → file_ctx_init sb inode ≡ ok ctx
      → ctx.file_size ≡ length (contents blocks ++ tail)
      → offset + size < 2 ^ 64
      → size < fuel
      → Coherent s
      → (t : S) × (data_read p ops sb fuel inode offset size s buf
          ≡ some (t, ok (slice (contents blocks ++ tail) offset size)))
        × Coherent t
  unfolding data_read
  data_read-contents sb inode fuel offset size s buf type init total small enough coherent =
      let whole = contents blocks ++ tail in
      elim (Bool-cases (leb ctx.file_size offset)) [
        | inl behind ↦
            let none_left = slice-beyond whole offset size (ground (arith, total)) in
            (s, ground (arith, type, init, behind, none_left), coherent)
        | inr within ↦
            let before : offset < ctx.file_size = ground arith in
            elim (Bool-cases (ltb ctx.file_size (u64 (offset + size)))) [
              | inl longer ↦
                  let n = ctx.file_size - offset in
                  let cut : (if ltb ctx.file_size (u64 (offset + size)) then n else size) ≡ n =
                    ground (arith, longer) in
                  let beyond : ctx.file_size < u64 (offset + size) = ground arith in
                  let same : slice whole offset size ≡ slice whole offset n =
                    slice-cut whole offset size (omega arith)
                    ∙ ap (λ t. slice whole offset (t - offset)) (sym total) in
                  rw same (
                    read_within sb inode fuel offset size n s buf type init before cut (omega arith)
                      (omega arith) (omega arith) coherent)
              | inr shorter ↦
                  let cut : (if ltb ctx.file_size (u64 (offset + size))
                        then ctx.file_size - offset
                        else size)
                      ≡ size =
                    ground (arith, shorter) in
                  let inside : u64 (offset + size) ≤ ctx.file_size = ground arith in
                  elim (Bool-cases (size == 0)) [
                    | inl asked_none ↦
                        let zero_size : size ≡ 0 = ground arith in
                        (s, rw zero_size (ground (arith, type, init, before)), coherent)
                    | inr asked ↦
                        read_within sb inode fuel offset size size s buf type init before cut
                          (ground arith) (omega arith) enough coherent
                  ]
            ]
      ]
