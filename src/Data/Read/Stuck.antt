-- ===== src/Data/Read/Stuck.antt =====
-- src/core/data.c, the loop of `sqfs_data_read_internal` on a damaged image: a block that holds fewer
-- bytes than the file's size asks for.
use squashfs_fuse.Common.{
  ℕ, zero, suc, ◌+◌, ◌-◌, ◌/◌, ◌%◌, min, Bool, true, false, not, ◌&&◌, Option, none, some, [], ◌++◌,
  append-nil, ◌≡◌, ◌≢◌, ◌<◌, refl, ap, ◌∙◌, arith, Bool-cases, Option-cases, inl, inr, length, drop,
  ltb, leb, ◌==◌,
}
use squashfs_fuse.Data.Read.Cached.{IsCache}
use squashfs_fuse.Data.Read.{Ops, read_into, read_cached, read_loop}
use squashfs_fuse.Data.{FileCtx, fragment_is_none, file_block_location, data_read_block}
use squashfs_fuse.Platform.{Platform}
use squashfs_fuse.Result.{Result, ok, err, fault}
use squashfs_fuse.Utils.{Bytes, u32}

module _ {S : Type 0} (p : Platform) (ops : Ops S) (ctx : FileCtx) {held_at : ℕ → Bytes}
    {Coherent : S → Type 0} (cache : IsCache ops held_at Coherent) where
  read_into-short :
      (s : S) (buf : Bytes) (pos size offset remaining : ℕ)
      → Coherent s
      → data_read_block p pos size ctx.block_size ≡ ok (held_at pos)
      → offset ≡ length (held_at pos)
      → (t : S) × (next : Bytes) × (read_into p ops ctx s buf pos size offset remaining
          ≡ (t, next, ok []))
        × Coherent t
  unfolding read_into
  read_into-short s buf pos size offset remaining coherent read short =
      let b = held_at pos in
      let n : min (min (ctx.block_size - offset) remaining) (length b - offset) ≡ 0 = omega arith in
      let before : leb offset (length b) ≡ true = ground arith in
      elim (Bool-cases (ltb 0 (length b))) [
        | inl filled ↦ (
          ops.put s pos b,
          b ++ drop (length b) buf,
          rw (read_into, read, filled, before, n) refl,
          cache.put_keeps s pos coherent,
        )
        | inr empty ↦
            (s, b ++ drop (length b) buf, rw (read_into, read, empty, before, n) refl, coherent)
      ]

  read_cached-short :
      (s : S) (buf : Bytes) (pos size offset remaining : ℕ)
      → Coherent s
      → data_read_block p pos size ctx.block_size ≡ ok (held_at pos)
      → offset ≡ length (held_at pos)
      → (t : S) × (next : Bytes) × (read_cached p ops ctx s buf pos size offset remaining
          ≡ (t, next, ok []))
        × Coherent t
  unfolding read_cached
  read_cached-short s buf pos size offset remaining coherent read short =
      let kept = cache.get_keeps s pos coherent in
      let (t, next, is, after) =
        read_into-short (ops.get s pos).0 buf pos size offset remaining kept read short in
      elim (Option-cases (ops.get s pos).1) [
        | inl missing ↦ (t, next, rw (read_cached, missing) is, after)
        | inr (bytes, found) ↦
            let same = cache.get_true s pos bytes coherent found in
            let past : ltb offset (length bytes) ≡ false = ground (arith, ap length same) in
            (t, next, rw (read_cached, found, past) is, after)
      ]

  -- If the block in which a read goes on ends just where it is to go on, the loop never ends: no fuel
  -- is enough.
  pub read_loop-short :
      (fuel offset size : ℕ) (s : S) (buf out : Bytes) (at disk_size : ℕ) (flag : Bool)
      → Coherent s
      → fragment_is_none ctx.frag_idx ≡ true
      → length out < size
      → file_block_location ctx (u32 ((offset + length out) / ctx.block_size))
        ≡ ok (at, disk_size, flag)
      → disk_size ≢ 0
      → data_read_block p at disk_size ctx.block_size ≡ ok (held_at at)
      → (offset + length out) % ctx.block_size ≡ length (held_at at)
      → read_loop p ops ctx fuel offset size s buf out ≡ none
  unfolding read_loop
  read_loop-short zero offset size s buf out at disk_size flag coherent plain less located filled
        read short =
      refl
  read_loop-short (suc fuel) offset size s buf out at disk_size flag coherent plain less located
        filled read short =
      let off = (offset + length out) % ctx.block_size in
      let (t, next, got, after) =
        read_cached-short s buf at disk_size off (size - length out) coherent read short in
      let more : ltb (length out) size ≡ true = ground arith in
      let none_left : ((u32 ((offset + length out) / ctx.block_size) == ctx.block_count)
            && not (fragment_is_none ctx.frag_idx))
          ≡ false =
        ground (arith, plain) in
      let full : (disk_size == 0) ≡ false = ground arith in
      let go_on : S × Bytes × Result Bytes → Option (S × Result Bytes) = λ r. elim r.2 [
        | err e ↦ some (r.0, err e)
        | fault ↦ some (r.0, fault)
        | ok part ↦ read_loop p ops ctx fuel offset size r.0 r.1 (out ++ part)
      ] in
      let again =
        read_loop-short fuel offset size t next out at disk_size flag after plain less located
          filled read short in
      rw (read_loop, more, none_left, located, full)
        (ap go_on got
          ∙ ap (λ o. read_loop p ops ctx fuel offset size t next o) (append-nil out)
          ∙ again)
