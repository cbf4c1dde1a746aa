-- ===== src/Data/Read/Tail.antt =====
-- src/core/data.c, the end of a file: its last block, or a tail that stands in a fragment.
use squashfs_fuse.Common.{
  ℕ, zero, suc, ◌+◌, ◌-◌, ◌/◌, ◌%◌, ◌^◌, ◌≤◌, ◌<◌, false, List, [], ◌∷◌, some, ◌≡◌, ◌∙◌, arith,
  length, length-append, slice, get_elem?,
}
use squashfs_fuse.Data.Read.Blocks.{AreFull}
use squashfs_fuse.Data.Read.{Ops, read_from_fragment}
use squashfs_fuse.Data.{FileCtx, fragment_is_none}
use squashfs_fuse.Directory.Table.Chain.{contents}
use squashfs_fuse.Platform.{Platform}
use squashfs_fuse.Result.{ok}
use squashfs_fuse.Utils.{Bytes, u32}
use native.Mathlib.Nat.{div-eq_of_lt, mod-eq_of_lt, div-eq-sub-div, mod-eq-sub-mod}

-- A file with a fragment keeps only full blocks of its own.
abbrev pub AllFull : ℕ → List Bytes → Type 0
AllFull bs [] = Unit
AllFull bs (b ∷ more) = (length b ≡ bs) × AllFull bs more

pub AllFull-AreFull :
    (bs : ℕ) (blocks : List Bytes) → 0 < bs → AllFull bs blocks → AreFull bs blocks
AllFull-AreFull bs [] pos_size full = tt
AllFull-AreFull bs (b ∷ []) pos_size full = omega arith
AllFull-AreFull bs (b ∷ c ∷ cs) pos_size full =
    (full.0, AllFull-AreFull bs (c ∷ cs) pos_size full.1)

pub get_elem?-AllFull :
    (bs : ℕ) (blocks : List Bytes) (i : ℕ) (b : Bytes)
    → AllFull bs blocks
    → get_elem? blocks i ≡ some b
    → length b ≡ bs
get_elem?-AllFull bs [] i b full there = cc
get_elem?-AllFull bs (x ∷ xs) zero b full there = ground (arith, full.0)
get_elem?-AllFull bs (x ∷ xs) (suc i) b full there = get_elem?-AllFull bs xs i b full.1 there

-- The positions behind the blocks, up to a block's size, have the number of blocks for their index.
pub position_behind :
    (bs : ℕ) (blocks : List Bytes) (pos : ℕ)
    → 0 < bs
    → AllFull bs blocks
    → length (contents blocks) ≤ pos
    → pos < length (contents blocks) + bs
    → (pos / bs ≡ length blocks) × (pos % bs ≡ pos - length (contents blocks))
position_behind bs [] pos pos_size full behind near = (
  div-eq_of_lt {n = pos} {m = bs} (omega arith),
  omega (arith, mod-eq_of_lt {n = pos} {m = bs} (omega arith)),
)
position_behind bs (b ∷ more) pos pos_size full behind near =
    let whole = length-append b (contents more) in
    let past : bs ≤ pos = omega (arith, full.0) in
    let (index, offset) =
      position_behind bs more (pos - bs) pos_size full.1 (omega (arith, full.0))
        (omega (arith, full.0)) in
    (
      omega (arith, div-eq-sub-div {m = bs} {n = pos} pos_size past),
      mod-eq-sub-mod {n = pos} {m = bs} past ∙ omega (arith, full.0, offset),
    )

module _ {S : Type 0} (p : Platform) (ops : Ops S) (ctx : FileCtx) (Coherent : S → Type 0)
    (blocks : List Bytes) where
  -- The file goes on behind its blocks, by less than a block, with what the fragment reader gives for
  -- each part of it.
  pub record InFragment (tail : Bytes) : Type 0 where
    pub present : fragment_is_none ctx.frag_idx ≡ false
    pub whole : AllFull ctx.block_size blocks
    pub count : ctx.block_count ≡ length blocks
    pub number : length blocks < 2 ^ 32
    pub short : length tail ≤ ctx.block_size
    pub reads :
        (s : S) (k n : ℕ)
        → Coherent s
        → k + n ≤ length tail
        → 0 < n
        → (t : S) × (read_from_fragment p ops ctx s (u32 (ctx.frag_offset + k)) n
            ≡ (t, ok (slice tail k n)))
          × Coherent t
