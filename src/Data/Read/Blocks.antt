-- ===== src/Data/Read/Blocks.antt =====
-- src/core/data.c, the blocks of a file put end to end: which of them holds a position.
use squashfs_fuse.Common.{
  ℕ, zero, suc, ◌-◌, ◌/◌, ◌%◌, ◌≤◌, ◌<◌, List, [], ◌∷◌, ◌++◌, some, ◌≡◌, refl, ap, ◌∙◌, ◌⊎◌, inl,
  inr, arith, length, length-append, drop, drop-append_short, get_elem?, ltb, Bool-cases,
}
use squashfs_fuse.Directory.Table.Chain.{contents}
use squashfs_fuse.Utils.{Bytes}
use native.Mathlib.Nat.{div-eq_of_lt, mod-eq_of_lt, div-eq-sub-div, mod-eq-sub-mod}

-- Every block but the last is full, and the last one is not empty.
abbrev pub AreFull : ℕ → List Bytes → Type 0
AreFull bs [] = Unit
AreFull bs (b ∷ []) = (0 < length b) × (length b ≤ bs)
AreFull bs (b ∷ c ∷ cs) = (length b ≡ bs) × AreFull bs (c ∷ cs)

-- The block of a position: what the file has from there on begins with the rest of the block, which
-- is all unless the block is full.
pub record Holds (bs : ℕ) (blocks : List Bytes) (pos : ℕ) : Type 0 where
  pub block : Bytes
  pub rest : Bytes
  pub there : get_elem? blocks (pos / bs) ≡ some block
  pub within : pos % bs < length block
  pub fits : length block ≤ bs
  pub behind : drop pos (contents blocks) ≡ drop (pos % bs) block ++ rest
  pub last : (length block ≡ bs) ⊎ (rest ≡ [])

first_block :
    (bs : ℕ) (b : Bytes) (more : List Bytes) (pos : ℕ)
    → pos < length b
    → length b ≤ bs
    → (length b ≡ bs) ⊎ (contents more ≡ [])
    → Holds bs (b ∷ more) pos
first_block bs b more pos within fits last =
    let index : pos / bs ≡ 0 = div-eq_of_lt {n = pos} {m = bs} (omega arith) in
    let offset : pos % bs ≡ pos = mod-eq_of_lt {n = pos} {m = bs} (omega arith) in
    record {
      block = b;
      rest = contents more;
      there = rw index refl;
      within = rw offset within;
      fits = fits;
      behind = rw offset (drop-append_short pos b (contents more) (omega arith));
      last = last;
    }

skip : (xs ys : Bytes) (n : ℕ) → length xs ≤ n → drop n (xs ++ ys) ≡ drop (n - length xs) ys
skip [] ys n h = ap (λ t. drop t ys) (omega arith)
skip (x ∷ xs) ys zero h = absurd (omega arith)
skip (x ∷ xs) ys (suc n) h = skip xs ys n (omega arith) ∙ ap (λ t. drop t ys) (omega arith)

later_block :
    (bs : ℕ) (b : Bytes) (more : List Bytes) (pos : ℕ)
    → 0 < bs
    → length b ≡ bs
    → bs ≤ pos
    → Holds bs more (pos - bs)
    → Holds bs (b ∷ more) pos
later_block bs b more pos pos_size full past h =
    let index : pos / bs ≡ suc ((pos - bs) / bs) =
      omega (arith, div-eq-sub-div {m = bs} {n = pos} pos_size past) in
    let offset : pos % bs ≡ (pos - bs) % bs = mod-eq-sub-mod {n = pos} {m = bs} past in
    let skipped : drop pos (b ++ contents more) ≡ drop (pos - bs) (contents more) =
      skip b (contents more) pos (omega arith)
      ∙ ap (λ t. drop t (contents more)) (ap (λ t. pos - t) full) in
    record {
      block = h.block;
      rest = h.rest;
      there = rw index h.there;
      within = rw offset h.within;
      fits = h.fits;
      behind = rw (offset, skipped) h.behind;
      last = h.last;
    }

-- Every position of the file is held by a block.
pub held :
    (bs : ℕ) (blocks : List Bytes) (pos : ℕ)
    → 0 < bs
    → AreFull bs blocks
    → pos < length (contents blocks)
    → Holds bs blocks pos
held bs [] pos pos_size full within = absurd (omega arith)
held bs (b ∷ []) pos pos_size full within =
    first_block bs b [] pos (omega (arith, length-append b [])) full.1 (inr refl)
held bs (b ∷ c ∷ cs) pos pos_size full within = elim (Bool-cases (ltb pos bs)) [
  | inl first ↦
      let before : pos < length b = ground (arith, full.0) in
      first_block bs b (c ∷ cs) pos before (omega (arith, full.0)) (inl full.0)
  | inr later ↦
      let past : bs ≤ pos = ground arith in
      let whole = length-append b (contents (c ∷ cs)) in
      let rest = held bs (c ∷ cs) (pos - bs) pos_size full.1 (omega (arith, full.0)) in
      later_block bs b (c ∷ cs) pos pos_size full.0 past rest
]
