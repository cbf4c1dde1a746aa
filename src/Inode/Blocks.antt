-- ===== src/Inode/Blocks.antt =====
-- src/core/inode.c, `sqfs_calc_block_count`: the blocks that hold a file.
use squashfs_fuse.Common.{
  ℕ, ◌+◌, ◌-◌, ◌*◌, ◌/◌, ◌%◌, ◌^◌, ◌≤◌, ◌<◌, Bool, true, false, not, ◌&&◌, ◌≡◌, arith, ◌==◌,
  Bool-cases, inl, inr, if◌then◌else◌,
}
use native.Mathlib.Decide.{dec_lt}
use native.Mathlib.Nat.{div-add-mod', div-le_of_le-mul, mod-lt}
use squashfs_fuse.Result.{Result, ok, fault}
use squashfs_fuse.Utils.{u32}

-- A block size of 0 faults on the division.
unfoldable pub calc_block_count : ℕ → ℕ → Bool → Result ℕ
calc_block_count file_size block_size has_fragment =
    if file_size == 0
    then ok 0
    else if block_size == 0
    then fault
    else (let full_blocks = file_size / block_size in
        let remainder = file_size % block_size in
        ok
          (u32 (if not has_fragment && not (remainder == 0) then full_blocks + 1 else full_blocks)))

-- `n` blocks of `size` bytes against a file: the last one may be partly filled if no fragment takes
-- the tail, and the tail is shorter than a block if one does.
abbrev pub Covers : Bool → ℕ → ℕ → ℕ → Type 0
Covers false file_size size n = (file_size ≤ n * size) × (n * size < file_size + size)
Covers true file_size size n = (n * size ≤ file_size) × (file_size < n * size + size)

full_blocks_bound :
    (file_size size : ℕ) → file_size ≤ (2 ^ 32 - 1) * size → file_size / size ≤ 2 ^ 32 - 1
full_blocks_bound file_size size small =
    div-le_of_le-mul size {m = file_size} {n = 2 ^ 32 - 1} (omega arith)

partial_block_bound :
    (file_size size : ℕ)
    → file_size ≤ (2 ^ 32 - 1) * size
    → 0 < file_size % size
    → file_size / size < 2 ^ 32 - 1
partial_block_bound file_size size small tail = elim (dec_lt (file_size / size) (2 ^ 32 - 1)) [
  | yes p ↦ p
  | no p ↦
      let full : file_size / size ≡ 2 ^ 32 - 1 =
        omega (arith, full_blocks_bound file_size size small) in
      let whole : (2 ^ 32 - 1) * size + file_size % size ≡ file_size =
        rw full at (div-add-mod' file_size size) in
      absurd (omega arith)
]

-- The count is that of the blocks that hold the file, without the tail if a fragment takes it,
-- for every file that the 32-bit count can express.
pub calc_block_count-Covers :
    (file_size size : ℕ) (has_fragment : Bool)
    → 0 < size
    → file_size ≤ (2 ^ 32 - 1) * size
    → (n : ℕ) × (calc_block_count file_size size has_fragment ≡ ok n)
      × Covers has_fragment file_size size n
unfolding calc_block_count
calc_block_count-Covers file_size size true pos small =
    let split = div-add-mod' file_size size in
    let tail = mod-lt file_size pos in
    let bound = full_blocks_bound file_size size small in
    elim (Bool-cases (file_size == 0)) [
      | inl empty ↦ (0, ground arith, (omega arith, ground arith))
      | inr _ ↦ (file_size / size, ground arith, (omega arith, omega arith))
    ]
calc_block_count-Covers file_size size false pos small =
    let split = div-add-mod' file_size size in
    let tail = mod-lt file_size pos in
    let bound = full_blocks_bound file_size size small in
    elim (Bool-cases (file_size % size == 0)) [
      | inl whole ↦ (file_size / size, ground arith, (ground arith, ground arith))
      | inr part ↦
          let more = partial_block_bound file_size size small (ground arith) in
          (file_size / size + 1, ground arith, (omega arith, ground arith))
    ]
