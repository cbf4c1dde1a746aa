-- ===== src/Data/Read/Cached.antt =====
-- src/core/data.c, the reading of one block in `sqfs_data_read_internal`, from the cache or from the
-- image.
use squashfs_fuse.Common.{
  ℕ, ◌-◌, min, ◌≤◌, ◌<◌, some, ◌++◌, ◌≡◌, refl, arith, Option-cases, inl, inr, length, length-drop,
  take, drop, drop-append_short, take-append_short, ltb, leb, true,
}
use squashfs_fuse.Data.Read.{Ops, read_into, read_cached}
use squashfs_fuse.Data.{FileCtx, data_read_block}
use squashfs_fuse.Platform.{Platform}
use squashfs_fuse.Result.{ok}
use squashfs_fuse.Utils.{Bytes}

-- What a cache of data blocks promises: under an invariant, what it gives for a position is what the
-- image holds there, and storing that keeps the invariant.
pub record IsCache {S : Type 0} (ops : Ops S) (held_at : ℕ → Bytes) (Coherent : S → Type 0)
    : Type 0 where
  pub get_keeps : (s : S) (pos : ℕ) → Coherent s → Coherent (ops.get s pos).0
  pub get_true :
      (s : S) (pos : ℕ) (bytes : Bytes)
      → Coherent s
      → (ops.get s pos).1 ≡ some bytes
      → bytes ≡ held_at pos
  pub put_keeps : (s : S) (pos : ℕ) → Coherent s → Coherent (ops.put s pos (held_at pos))

module _ {S : Type 0} (p : Platform) (ops : Ops S) (ctx : FileCtx) {held_at : ℕ → Bytes}
    {Coherent : S → Type 0} (cache : IsCache ops held_at Coherent) where
  read_into-held :
      (s : S) (buf : Bytes) (pos size offset remaining : ℕ)
      → Coherent s
      → data_read_block p pos size ctx.block_size ≡ ok (held_at pos)
      → offset < length (held_at pos)
      → length (held_at pos) ≤ ctx.block_size
      → (t : S) × (next : Bytes) × (read_into p ops ctx s buf pos size offset remaining ≡ (
        t,
        next,
        ok (take (min (length (held_at pos) - offset) remaining) (drop offset (held_at pos))),
      ))
        × Coherent t
  unfolding read_into
  read_into-held s buf pos size offset remaining coherent read within fits =
      let b = held_at pos in
      let behind = drop (length b) buf in
      let n = min (length b - offset) remaining in
      let skipped = drop-append_short offset b behind (omega arith) in
      let left = length-drop offset b in
      let short = take-append_short n (drop offset b) behind (omega arith) in
      let count : min (min (ctx.block_size - offset) remaining) (length b - offset) ≡ n =
        omega arith in
      let pos_size : ltb 0 (length b) ≡ true = ground arith in
      let before : leb offset (length b) ≡ true = ground arith in
      (
        ops.put s pos b,
        b ++ behind,
        rw (read_into, read, pos_size, before, count, skipped, short) refl,
        cache.put_keeps s pos coherent,
      )

  -- Whether the block is cached or not, what is copied is the same part of it.
  pub read_cached-held :
      (s : S) (buf : Bytes) (pos size offset remaining : ℕ)
      → Coherent s
      → data_read_block p pos size ctx.block_size ≡ ok (held_at pos)
      → offset < length (held_at pos)
      → length (held_at pos) ≤ ctx.block_size
      → (t : S) × (next : Bytes) × (read_cached p ops ctx s buf pos size offset remaining ≡ (
        t,
        next,
        ok (take (min (length (held_at pos) - offset) remaining) (drop offset (held_at pos))),
      ))
        × Coherent t
  unfolding read_cached
  read_cached-held s buf pos size offset remaining coherent read within fits =
      let kept = cache.get_keeps s pos coherent in
      elim (Option-cases (ops.get s pos).1) [
        | inl missing ↦
            let (t, next, is, after) =
              read_into-held (ops.get s pos).0 buf pos size offset remaining kept read within
                fits in
            (t, next, rw (read_cached, missing) is, after)
        | inr (bytes, found) ↦
            let is = cache.get_true s pos bytes coherent found in
            let inside : ltb offset (length (held_at pos)) ≡ true = ground arith in
            ((ops.get s pos).0, buf, rw (read_cached, found, is, inside) refl, kept)
      ]
