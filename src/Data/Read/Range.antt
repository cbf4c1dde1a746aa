-- ===== src/Data/Read/Range.antt =====
-- src/core/data.c, one round of the loop of `sqfs_data_read_internal` over a block of a file.
use squashfs_fuse.Common.{
  ℕ, zero, suc, ◌+◌, ◌-◌, ◌/◌, ◌%◌, ◌^◌, min, ◌≤◌, ◌<◌, Bool, true, false, not, ◌&&◌, List, ◌∷◌,
  ◌++◌, Option, some, ◌≡◌, ◌≢◌, refl, sym, ap, ◌∙◌, ◌⊎◌, inl, inr, arith, length, length-append,
  length-drop, take, drop, replicate, slice, take-append_short, drop-append_short, append_assoc,
  get_elem?, get_elem?-within, ltb, ◌==◌,
}
use squashfs_fuse.Data.Read.Blocks.{Holds}
use squashfs_fuse.Data.Read.Cached.{IsCache, read_cached-held}
use squashfs_fuse.Data.Read.{Ops, read_loop, read_cached}
use squashfs_fuse.Data.{FileCtx, fragment_is_none, file_block_location, data_read_block}
use squashfs_fuse.Directory.Table.Chain.{contents}
use squashfs_fuse.Platform.{Platform}
use squashfs_fuse.Result.{Result, ok, err, fault}
use squashfs_fuse.Utils.{Bytes, u32}

zeros_part :
    (m n k : ℕ) → n ≤ m - k → replicate {A = ℕ} n 0 ≡ take n (drop k (replicate {A = ℕ} m 0))
zeros_part m zero k h = refl
zeros_part zero (suc n) k h = absurd (omega arith)
zeros_part (suc m) (suc n) zero h = ap (◌∷◌ 0) (zeros_part m n zero (omega arith))
zeros_part (suc m) (suc n) (suc k) h = zeros_part m (suc n) k (omega arith)

module _ {S : Type 0} (p : Platform) (ops : Ops S) (ctx : FileCtx) {held_at : ℕ → Bytes}
    {Coherent : S → Type 0} (cache : IsCache ops held_at Coherent) (blocks : List Bytes) where
  -- Block `i` of the file is a hole, or what the image holds at its place.
  abbrev pub IsBlock : ℕ → Bytes → Type 0
  IsBlock i b =
      ((pos : ℕ) × (flag : Bool) × (file_block_location ctx i ≡ ok (pos, 0, flag))
        × (b ≡ replicate (length b) 0))
      ⊎ ((pos : ℕ) × (size : ℕ) × (flag : Bool) × (file_block_location ctx i ≡ ok (pos, size, flag))
          × (size ≢ 0)
          × (data_read_block p pos size ctx.block_size ≡ ok (held_at pos))
          × (held_at pos ≡ b))

  -- What a round appends.
  abbrev pub part_at : ℕ → ℕ → Bytes → Bytes
  part_at pos remaining b =
      let off = pos % ctx.block_size in take (min (length b - off) remaining) (drop off b)

  -- It is the next part of the file, if the file goes on behind the blocks or not.
  pub part_at-slice :
      (tail : Bytes) (pos remaining : ℕ)
      → pos < length (contents blocks)
      → (h : Holds ctx.block_size blocks pos)
      → slice (contents blocks ++ tail) pos (min (length h.block - pos % ctx.block_size) remaining)
        ≡ part_at pos remaining h.block
  part_at-slice tail pos remaining before h =
      let off = pos % ctx.block_size in
      let n = min (length h.block - off) remaining in
      let left = length-drop off h.block in
      let short = take-append_short n (drop off h.block) (h.rest ++ tail) (omega arith) in
      let split = drop-append_short pos (contents blocks) tail (omega arith) in
      rw (split, h.behind, append_assoc, short) refl

  -- No more is asked of a block than it has, if the range ends within the blocks, or if it is full.
  pub part_cut :
      (pos remaining : ℕ)
      → (h : Holds ctx.block_size blocks pos)
      → (pos + remaining ≤ length (contents blocks)) ⊎ (length h.block ≡ ctx.block_size)
      → min (ctx.block_size - pos % ctx.block_size) remaining
        ≡ min (length h.block - pos % ctx.block_size) remaining
  part_cut pos remaining h (inr whole) =
      ap (λ t. min (t - pos % ctx.block_size) remaining) (sym whole)
  part_cut pos remaining h (inl within) =
      let off = pos % ctx.block_size in
      let left = length-drop off h.block in
      let all : length (drop pos (contents blocks)) ≡ length (drop off h.block) + length h.rest =
        ap length h.behind ∙ length-append (drop off h.block) h.rest in
      let total = length-drop pos (contents blocks) in
      elim h.last [
        | inl whole ↦ omega arith
        | inr is_last ↦
            let none_left : length h.rest ≡ 0 = ap length is_last in
            let inside = h.within in let fits = h.fits in omega arith
      ]

  -- One round of the loop over a block with data.
  data_round :
      (fuel offset size : ℕ) (s u : S) (buf next out bytes : Bytes) (at disk_size : ℕ) (flag : Bool)
      → ltb (length out) size ≡ true
      → ((u32 ((offset + length out) / ctx.block_size) == ctx.block_count)
          && not (fragment_is_none ctx.frag_idx))
        ≡ false
      → file_block_location ctx (u32 ((offset + length out) / ctx.block_size))
        ≡ ok (at, disk_size, flag)
      → (disk_size == 0) ≡ false
      → read_cached p ops ctx s buf at disk_size
          ((offset + length out) % ctx.block_size)
          (size - length out)
        ≡ (u, next, ok bytes)
      → read_loop p ops ctx (suc fuel) offset size s buf out
        ≡ read_loop p ops ctx fuel offset size u next (out ++ bytes)
  unfolding read_loop
  data_round fuel offset size s u buf next out bytes at disk_size flag more none_left located filled
        got =
      let go_on : S × Bytes × Result Bytes → Option (S × Result Bytes) = λ r. elim r.2 [
        | err e ↦ some (r.0, err e)
        | fault ↦ some (r.0, fault)
        | ok part ↦ read_loop p ops ctx fuel offset size r.0 r.1 (out ++ part)
      ] in
      rw (read_loop, more, none_left, located, filled) (ap go_on got)

  -- One round of the loop, over any block.
  pub block_round :
      (few : length blocks ≤ 2 ^ 32)
      → ((i : ℕ) (b : Bytes) → get_elem? blocks i ≡ some b → IsBlock i b)
      → (fuel offset size : ℕ) (s : S) (buf out : Bytes) → Coherent s
      → length out < size
      → (h : Holds ctx.block_size blocks (offset + length out))
      → ((offset + length out) / ctx.block_size ≢ ctx.block_count)
        ⊎ (fragment_is_none ctx.frag_idx ≡ true)
      → min (ctx.block_size - (offset + length out) % ctx.block_size) (size - length out)
        ≡ min (length h.block - (offset + length out) % ctx.block_size) (size - length out)
      → (u : S) × (next : Bytes) × (read_loop p ops ctx (suc fuel) offset size s buf out
          ≡ read_loop p ops ctx fuel offset size u next
              (out ++ part_at (offset + length out) (size - length out) h.block))
        × Coherent u
  unfolding read_loop
  block_round few each fuel offset size s buf out coherent less h plain hole_size =
      let pos = offset + length out in
      let remaining = size - length out in
      let off = pos % ctx.block_size in
      let n = min (length h.block - off) remaining in
      let more : ltb (length out) size ≡ true = ground arith in
      let idx = get_elem?-within blocks h.there in
      let index : u32 (pos / ctx.block_size) ≡ pos / ctx.block_size = omega arith in
      let none_left : ((u32 (pos / ctx.block_size) == ctx.block_count)
            && not (fragment_is_none ctx.frag_idx))
          ≡ false =
        elim plain [
          | inl other ↦ rw index (ground (arith, other))
          | inr no_tail ↦ ground (arith, no_tail)
        ] in
      elim (each (pos / ctx.block_size) h.block h.there) [
        | inl (at, flag, located, zeros) ↦
            let zero_part : replicate {A = ℕ} n 0 ≡ take n (drop off h.block) =
              zeros_part (length h.block) n off (omega arith)
              ∙ ap (λ t. take n (drop off t)) (sym zeros) in
            (
              s,
              buf,
              rw (read_loop, more, none_left, index, located, hole_size, zero_part) refl,
              coherent,
            )
        | inr (at, disk_size, flag, located, data_size, read, same) ↦
            let (u, next, got, still) =
              read_cached-held p ops ctx cache s buf at disk_size off remaining coherent read
                (rw same h.within) (rw same h.fits) in
            let filled : (disk_size == 0) ≡ false = ground arith in
            let copied = got ∙ ap (λ t. (u, next, ok (part_at pos remaining t))) same in
            (
              u,
              next,
              data_round fuel offset size s u buf next out (part_at pos remaining h.block) at
                  disk_size flag more none_left (rw index located) filled copied,
              still,
            )
      ]
