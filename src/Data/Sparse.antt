-- ===== src/Data/Sparse.antt =====
-- src/core/data.c, `sqfs_data_is_sparse`: whether a range of a file lies in holes.
use squashfs_fuse.Common.{
  ℕ, zero, suc, ◌+◌, ◌-◌, ◌*◌, ◌/◌, ◌^◌, ◌≤◌, ◌<◌, min, true, false, List, some, ◌≡◌, ◌≢◌, ◌⊎◌, inl,
  inr, refl, arith, length, get_elem?, ltb, leb, ◌==◌, Bool-cases, [], ◌∷◌,
}
use squashfs_fuse.Data.{FileCtx, sparse_loop, is_sparse}
use squashfs_fuse.Result.{ok}
use squashfs_fuse.Utils.{u32, u64}
use native.Mathlib.Nat.{div-lt_iff_lt-mul}

get_elem?-below : (xs : List ℕ) (i : ℕ) → i < length xs → (x : ℕ) × (get_elem? xs i ≡ some x)
get_elem?-below [] i h = absurd (omega arith)
get_elem?-below (x ∷ xs) zero h = (x, refl)
get_elem?-below (x ∷ xs) (suc i) h = get_elem?-below xs i (omega arith)

-- Every block from `first` to `last` that the file has is a hole.
abbrev pub AllHoles : List ℕ → ℕ → ℕ → ℕ → Type 0
AllHoles sizes count first last =
    (j : ℕ) → first ≤ j → j ≤ last → j < count → get_elem? sizes j ≡ some 0

-- One of them has data.
abbrev pub SomeData : List ℕ → ℕ → ℕ → ℕ → Type 0
SomeData sizes count first last =
    (j : ℕ) × (first ≤ j)
    × (j ≤ last)
    × (j < count)
    × ((x : ℕ) × (get_elem? sizes j ≡ some x) × (x ≢ 0))

holes_from :
    (sizes : List ℕ) (count i last : ℕ)
    → get_elem? sizes i ≡ some 0
    → AllHoles sizes count (i + 1) last
    → AllHoles sizes count i last
holes_from sizes count i last at holes j a b c = elim (Bool-cases (j == i)) [
  | inl same ↦ let is : j ≡ i = ground arith in rw is at
  | inr other ↦ holes j (ground arith) b c
]

sparse_loop_lem :
    (n : ℕ) (ctx : FileCtx) (sizes : List ℕ) (i last : ℕ)
    → ctx.block_sizes ≡ some sizes
    → i + n ≤ length sizes
    → ((sparse_loop n ctx i last ≡ ok true) × AllHoles sizes (i + n) i last)
      ⊎ ((sparse_loop n ctx i last ≡ ok false) × SomeData sizes (i + n) i last)
unfolding sparse_loop
sparse_loop_lem zero ctx sizes i last array there = inl (refl, λ j a b c. absurd (omega arith))
sparse_loop_lem (suc n) ctx sizes i last array there = elim (Bool-cases (ltb last i)) [
  | inl past ↦ inl (ground (arith, past), λ j a b c. absurd (ground arith))
  | inr within ↦
      let (x, at) = get_elem?-below sizes i (omega arith) in
      elim (Bool-cases (x == 0)) [
        | inr filled ↦
            let nonzero : x ≢ 0 = ground arith in
            inr (
              ground (arith, array, at, within, nonzero),
              (i, omega arith, ground arith, omega arith, (x, at, nonzero)),
            )
        | inl hole ↦
            let is : x ≡ 0 = ground arith in
            let step : sparse_loop (suc n) ctx i last ≡ sparse_loop n ctx (i + 1) last =
              ground (arith, array, at, within, is) in
            elim (sparse_loop_lem n ctx sizes (i + 1) last array (omega arith)) [
              | inl (rest, holes) ↦ inl (
                rw step rest,
                holes_from sizes (i + suc n) i last (rw is at at)
                    (λ j a b c. holes j a b (omega arith)),
              )
              | inr (rest, (j, a, b, c, found)) ↦
                  inr (rw step rest, (j, omega arith, b, omega arith, found))
            ]
      ]
]

-- The loop from a first block that the file may not have.
from_first :
    (ctx : FileCtx) (sizes : List ℕ) (first last : ℕ)
    → ctx.block_sizes ≡ some sizes
    → ctx.block_count ≤ length sizes
    → ((sparse_loop (ctx.block_count - first) ctx first last ≡ ok true)
        × AllHoles sizes ctx.block_count first last)
      ⊎ ((sparse_loop (ctx.block_count - first) ctx first last ≡ ok false)
          × SomeData sizes ctx.block_count first last)
unfolding sparse_loop
from_first ctx sizes first last array enough =
    let n = ctx.block_count - first in
    elim (Bool-cases (leb first ctx.block_count)) [
      | inl there ↦
          let sum : first + n ≡ ctx.block_count = ground arith in
          rw sum at (sparse_loop_lem n ctx sizes first last array (ground arith))
      | inr beyond ↦
          let none_left : n ≡ 0 = ground arith in
          inl (rw none_left refl, λ j a b c. absurd (ground arith))
    ]

-- A range of a byte or more that begins within a file with holes, whose blocks all have a size in the
-- array, are not empty and are at most 2 ^ 32, and that ends below 2 ^ 64, is said to be sparse exactly if every block of the file that it
-- touches is a hole. What of it stands in a fragment counts as no block and is not looked at: a range in
-- such a tail alone is said to be sparse, whatever bytes it has.
pub is_sparse_lem :
    (ctx : FileCtx) (sizes : List ℕ) (offset size : ℕ)
    → ctx.block_sizes ≡ some sizes
    → ctx.block_count ≤ length sizes
    → ctx.sparse_bytes ≢ 0
    → 0 < ctx.block_size
    → 0 < size
    → offset < ctx.file_size
    → offset + size < 2 ^ 64
    → ctx.file_size ≤ ctx.block_size * 2 ^ 32
    → let first = offset / ctx.block_size in
      let last = (min (offset + size) ctx.file_size - 1) / ctx.block_size in
      ((is_sparse ctx offset size ≡ ok true) × AllHoles sizes ctx.block_count first last)
      ⊎ ((is_sparse ctx offset size ≡ ok false) × SomeData sizes ctx.block_count first last)
unfolding is_sparse
is_sparse_lem ctx sizes offset size array enough some_holes pos asked within fits small =
    let first = offset / ctx.block_size in
    let end = min (offset + size) ctx.file_size in
    let last = (end - 1) / ctx.block_size in
    let low =
      (div-lt_iff_lt-mul {k = ctx.block_size} {x = offset} {y = 2 ^ 32} pos).1 (omega arith) in
    let high =
      (div-lt_iff_lt-mul {k = ctx.block_size} {x = end - 1} {y = 2 ^ 32} pos).1 (omega arith) in
    let whole : u64 (offset + size) ≡ offset + size = omega arith in
    let narrow_first : u32 first ≡ first = omega (arith, low) in
    let narrow_last : u32 last ≡ last = omega (arith, high) in
    let ends : (end == 0) ≡ false = ground arith in
    let sparse : (ctx.sparse_bytes == 0) ≡ false = ground arith in
    let sized : (ctx.block_size == 0) ≡ false = ground arith in
    rw (sparse, sized, whole, ends, narrow_first, narrow_last)
      (from_first ctx sizes first last array enough)
