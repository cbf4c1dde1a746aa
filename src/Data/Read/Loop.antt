-- ===== src/Data/Read/Loop.antt =====
-- src/core/data.c, the loop of `sqfs_data_read_internal`: a range of a file is read as that part of
-- its blocks put end to end, holes as zeros, and of its tail, whatever the cache holds.
use squashfs_fuse.Common.{
  ℕ, zero, suc, ◌+◌, ◌-◌, ◌/◌, ◌%◌, ◌^◌, min, ◌≤◌, ◌<◌, true, not, ◌&&◌, List, [], ◌++◌, Option,
  some, ◌≡◌, ◌≢◌, sym, ap, ◌∙◌, ◌⊎◌, inl, inr, arith, Bool-cases, length, length-append,
  length-take, length-drop, take, drop, slice, slice-join, drop-append, drop-drop, get_elem?,
  get_elem?-within, ltb, ◌==◌,
}
use squashfs_fuse.Data.Read.Blocks.{AreFull, Holds, held}
use squashfs_fuse.Data.Read.Cached.{IsCache}
use squashfs_fuse.Data.Read.Range.{IsBlock, part_at, part_at-slice, part_cut, block_round}
use squashfs_fuse.Data.Read.Tail.{InFragment, get_elem?-AllFull, position_behind}
use squashfs_fuse.Data.Read.{Ops, read_loop, read_from_fragment}
use squashfs_fuse.Data.{FileCtx, fragment_is_none}
use squashfs_fuse.Directory.Table.Chain.{contents}
use squashfs_fuse.Platform.{Platform}
use squashfs_fuse.Result.{Result, ok, ◌>>=◌}
use squashfs_fuse.Utils.{Bytes, u32}

-- What was read so far, and one part more.
extended :
    (file : Bytes) (offset n : ℕ) (out bytes : Bytes)
    → out ≡ slice file offset (length out)
    → slice file (offset + length out) n ≡ bytes
    → length bytes ≡ n
    → out ++ bytes ≡ slice file offset (length (out ++ bytes))
extended file offset n out bytes is part count =
    let size : length (out ++ bytes) ≡ length out + n = omega (arith, length-append out bytes) in
    let joined = slice-join file offset (length out) n in
    let both : out ++ bytes ≡ slice file offset (length out) ++ slice file (offset + length out) n =
      ap (λ t. t ++ bytes) is ∙ ap (λ t. slice file offset (length out) ++ t) (sym part) in
    both ∙ joined ∙ ap (λ t. slice file offset t) (sym size)

slice-behind :
    (xs ys : Bytes) (pos n : ℕ)
    → length xs ≤ pos
    → slice (xs ++ ys) pos n ≡ slice ys (pos - length xs) n
slice-behind xs ys pos n h =
    let split : pos ≡ length xs + (pos - length xs) = omega arith in
    let behind = sym (drop-drop (length xs) (pos - length xs) (xs ++ ys)) in
    ap (λ t. slice (xs ++ ys) t n) split
    ∙ ap (take n) (behind ∙ ap (drop (pos - length xs)) (drop-append xs ys))

module _ {S : Type 0} (p : Platform) (ops : Ops S) (ctx : FileCtx) {held_at : ℕ → Bytes}
    {Coherent : S → Type 0} (cache : IsCache ops held_at Coherent) (blocks : List Bytes)
    (tail : Bytes) where
  -- A file ends with its blocks, or goes on in a fragment.
  abbrev pub Ending : Type 0
  Ending =
      ((tail ≡ []) × (fragment_is_none ctx.frag_idx ≡ true))
      ⊎ InFragment p ops ctx Coherent blocks tail

  -- The loop gives the range from `offset` on.
  abbrev pub Reads : ℕ → ℕ → ℕ → S → Bytes → Bytes → Type 0
  Reads fuel offset size s buf out =
      (t : S) × (read_loop p ops ctx fuel offset size s buf out
        ≡ some (t, ok (slice (contents blocks ++ tail) offset size)))
      × Coherent t

  tail_step :
      (fuel offset size k : ℕ) (s t : S) (buf out bytes : Bytes)
      → ltb (length out) size ≡ true
      → ((u32 ((offset + length out) / ctx.block_size) == ctx.block_count)
          && not (fragment_is_none ctx.frag_idx))
        ≡ true
      → (offset + length out) % ctx.block_size ≡ k
      → read_from_fragment p ops ctx s (u32 (ctx.frag_offset + k)) (size - length out)
        ≡ (t, ok bytes)
      → read_loop p ops ctx (suc fuel) offset size s buf out ≡ some (t, ok (out ++ bytes))
  unfolding read_loop
  tail_step fuel offset size k s t buf out bytes more last off got =
      let end : S × Result Bytes → Option (S × Result Bytes) =
        λ r. some (r.0, r.1 >>= λ b. ok (out ++ b)) in
      rw (read_loop, more, last, off) (ap end got)

  -- The last round, over the tail.
  tail_round :
      (fuel offset size : ℕ) (s : S) (buf out : Bytes)
      → 0 < ctx.block_size
      → InFragment p ops ctx Coherent blocks tail
      → Coherent s
      → offset + size ≤ length (contents blocks ++ tail)
      → out ≡ slice (contents blocks ++ tail) offset (length out)
      → length out < size
      → length (contents blocks) ≤ offset + length out
      → Reads (suc fuel) offset size s buf out
  tail_round fuel offset size s buf out pos_size frag coherent within is less behind =
      let file = contents blocks ++ tail in
      let pos = offset + length out in
      let n = size - length out in
      let k = pos - length (contents blocks) in
      let total = length-append (contents blocks) tail in
      let short = frag.short in
      let number = frag.number in
      let count = frag.count in
      let (index, off) =
        position_behind ctx.block_size blocks pos pos_size frag.whole behind (omega arith) in
      let more : ltb (length out) size ≡ true = ground arith in
      let at_tail : u32 (pos / ctx.block_size) ≡ ctx.block_count = omega arith in
      let last : ((u32 (pos / ctx.block_size) == ctx.block_count)
            && not (fragment_is_none ctx.frag_idx))
          ≡ true =
        ground (arith, frag.present, at_tail) in
      let (t, got, kept) = frag.reads s k n coherent (omega arith) (omega arith) in
      let part = slice-behind (contents blocks) tail pos n behind in
      let joined = slice-join file offset (length out) n in
      let sum : length out + n ≡ size = omega arith in
      let all : out ++ slice tail k n ≡ slice file offset size =
        ap (λ r. r ++ slice tail k n) is
        ∙ ap (λ r. slice file offset (length out) ++ r) (sym part)
        ∙ joined
        ∙ ap (slice file offset) sum in
      (
        t,
        tail_step fuel offset size k s t buf out (slice tail k n) more last off got
            ∙ ap (λ r. some (t, ok r)) all,
        kept,
      )

  module _ (pos_size : 0 < ctx.block_size) (full : AreFull ctx.block_size blocks)
      (few : length blocks ≤ 2 ^ 32)
      (each : (i : ℕ) (b : Bytes)
        → get_elem? blocks i ≡ some b
        → IsBlock p ops ctx cache blocks i b)
      (ending : Ending) where
    -- A round of the loop over a block, and what follows it.
    round_on :
        (fuel offset size : ℕ) (s : S) (buf out : Bytes)
        → Coherent s
        → offset + size ≤ length (contents blocks ++ tail)
        → out ≡ slice (contents blocks ++ tail) offset (length out)
        → length out < size
        → offset + length out < length (contents blocks)
        → ((u : S) (next grown : Bytes)
            → Coherent u
            → length out < length grown
            → grown ≡ slice (contents blocks ++ tail) offset (length grown)
            → length grown ≤ size
            → Reads fuel offset size u next grown)
        → Reads (suc fuel) offset size s buf out
    round_on fuel offset size s buf out coherent within is less before continue =
        let pos = offset + length out in
        let remaining = size - length out in
        let h = held ctx.block_size blocks pos pos_size full before in
        let off = pos % ctx.block_size in
        let n = min (length h.block - off) remaining in
        let part = part_at p ops ctx cache blocks pos remaining h.block in
        let inside : off < length h.block = h.within in
        let taken : length part ≡ n =
          omega (arith, length-take n (drop off h.block), length-drop off h.block) in
        let there = part_at-slice p ops ctx cache blocks tail pos remaining before h in
        let whole = extended (contents blocks ++ tail) offset n out part is there taken in
        let grown = length-append out part in
        let (u, next, step, kept) =
          block_round p ops ctx cache blocks few each fuel offset size s buf out coherent less h
            (another pos h) (cut pos remaining h (omega arith)) in
        let (t, end, still) =
          continue u next (out ++ part) kept (omega arith) whole (omega arith) in
        (t, step ∙ end, still)
      where
        another :
            (pos : ℕ)
            → Holds ctx.block_size blocks pos
            → (pos / ctx.block_size ≢ ctx.block_count) ⊎ (fragment_is_none ctx.frag_idx ≡ true)
        another pos h = elim ending [
          | inl (no_tail, plain) ↦ inr plain
          | inr frag ↦
              let idx = get_elem?-within blocks h.there in
              inl (λ e. absurd (omega (arith, frag.count, e)))
        ]

        cut :
            (pos remaining : ℕ)
            → (h : Holds ctx.block_size blocks pos)
            → pos + remaining ≤ length (contents blocks ++ tail)
            → min (ctx.block_size - pos % ctx.block_size) remaining
              ≡ min (length h.block - pos % ctx.block_size) remaining
        cut pos remaining h within = elim ending [
          | inl (no_tail, plain) ↦
              let total = length-append (contents blocks) tail in
              let nothing : length tail ≡ 0 = ap length no_tail in
              part_cut p ops ctx cache blocks pos remaining h (inl (omega arith))
          | inr frag ↦ part_cut p ops ctx cache blocks pos remaining h (
              inr (
                get_elem?-AllFull ctx.block_size blocks (pos / ctx.block_size) h.block frag.whole
                  h.there))
        ]

    -- Each round of the loop gives a byte at least, and the cache stays coherent.
    pub read_loop_lem :
        (fuel offset size : ℕ) (s : S) (buf out : Bytes)
        → Coherent s
        → offset + size ≤ length (contents blocks ++ tail)
        → out ≡ slice (contents blocks ++ tail) offset (length out)
        → length out ≤ size
        → size < fuel + length out
        → Reads fuel offset size s buf out
    unfolding read_loop
    read_loop_lem zero offset size s buf out coherent within is fits enough = absurd (omega arith)
    read_loop_lem (suc fuel) offset size s buf out coherent within is fits enough =
        elim (Bool-cases (ltb (length out) size)) [
          | inr done ↦
              let whole : length out ≡ size = ground arith in
              (s, rw (read_loop, done) (ap (λ t. some (s, ok t)) (rw whole at is)), coherent)
          | inl more ↦
              let less : length out < size = ground arith in
              elim (Bool-cases (ltb (offset + length out) (length (contents blocks)))) [
                | inl before ↦
                    round_on fuel offset size s buf out coherent within is less (ground arith)
                      (λ u next grown kept longer whole short.
                        read_loop_lem fuel offset size u next grown kept within whole short
                          (omega arith))
                | inr behind ↦ elim ending [
                  | inr frag ↦
                      tail_round fuel offset size s buf out pos_size frag coherent within is less
                        (ground arith)
                  | inl (no_tail, plain) ↦
                      let total = length-append (contents blocks) tail in
                      let nothing : length tail ≡ 0 = ap length no_tail in
                      let not_before : length (contents blocks) ≤ offset + length out =
                        ground arith in
                      absurd (omega arith)
                ]
              ]
        ]
