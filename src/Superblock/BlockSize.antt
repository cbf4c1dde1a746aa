-- ===== src/Superblock/BlockSize.antt =====
-- src/core/superblock.c, `validate_block_size`: exactly the powers of two from 4 KiB to 1 MiB pass,
-- with their own logarithm.
use squashfs_fuse.Common.{
  ℕ, zero, suc, ◌+◌, ◌-◌, ◌*◌, ◌/◌, ◌^◌, ◌≤◌, ◌<◌, bit_and, ◌≡◌, refl, ◌∙◌, ◌↔◌, arith, lt_wf, ◌⊎◌,
  inl, inr,
}
use mathlib.Core.WellFounded
use mathlib.Core.WellFounded.{Acc}
use mathlib.Core.Logic.{dif_pos}
use native.Mathlib.Decide.{dec_lt}
use native.Mathlib.Nat.{pow-succ', one-le-pow, pow-le-pow_right}
use native.Mathlib.Bridge.{le_prop}
use squashfs_fuse.Common.Bits.{bit_and-lowest}
use squashfs_fuse.Result.{ok, err, corrupt}
use squashfs_fuse.Superblock.{log_loop, validate_block_size}
use squashfs_fuse.Utils.{u16}

-- The loop adds the logarithm of a power of two to its counter.
log_loop-pow :
    (k c temp : ℕ) (w : Acc ◌<◌ temp) → temp ≡ 2 ^ k → c + k < 2 ^ 16 → log_loop temp c w ≡ c + k
unfolding log_loop
log_loop-pow zero c temp (Acc.intro _ smaller) e h = ground arith
log_loop-pow (suc k) c temp (Acc.intro _ smaller) e h =
    let pow = pow-succ' 2 k in
    let pos = one-le-pow k 2 (omega arith) in
    let more : 1 < temp = omega arith in
    let rest = λ (p : temp / 2 < temp).
      log_loop-pow k (u16 (c + 1)) (temp / 2) (smaller (temp / 2) p) (omega arith) (omega arith) in
    rw (dif_pos _ le_prop more) (rest _ ∙ omega arith)

bit_and_self : (n : ℕ) → bit_and n n ≡ n
bit_and_self n = WellFounded.induction lt_wf {C = λ k. bit_and k k ≡ k} n step
  where
    step : (n : ℕ) → ((m : ℕ) → m < n → bit_and m m ≡ m) → bit_and n n ≡ n
    step zero ih = refl
    step (suc n) ih = omega (arith, bit_and-lowest (suc n) (suc n), ih (suc n / 2) (omega arith))

-- `n & (n - 1)` halves with `n`, as long as `n` is even.
clear_lowest-even : (m : ℕ) → 0 < m → bit_and (m * 2) (m * 2 - 1) ≡ bit_and m (m - 1) * 2
clear_lowest-even m h =
    let a : m * 2 / 2 ≡ m = omega arith in
    let b : (m * 2 - 1) / 2 ≡ m - 1 = omega arith in
    let step = bit_and-lowest (m * 2) (m * 2 - 1) in omega (arith, rw (a, b) at step)

clear_lowest-odd : (m : ℕ) → bit_and (m * 2 + 1) (m * 2 + 1 - 1) ≡ m * 2
clear_lowest-odd m =
    let a : (m * 2 + 1) / 2 ≡ m = omega arith in
    let b : (m * 2 + 1 - 1) / 2 ≡ m = omega arith in
    let step = bit_and-lowest (m * 2 + 1) (m * 2 + 1 - 1) in
    omega (arith, rw (a, b) at step, bit_and_self m)

clear_lowest-pow : (k : ℕ) → bit_and (2 ^ k) (2 ^ k - 1) ≡ 0
clear_lowest-pow zero = refl
clear_lowest-pow (suc k) =
    let doubled : 2 ^ suc k ≡ 2 ^ k * 2 = omega (arith, pow-succ' 2 k) in
    rw doubled
      (omega (arith, clear_lowest-even (2 ^ k) (one-le-pow k 2 (omega arith)), clear_lowest-pow k))

abbrev IsPower : ℕ → Type 0
IsPower n = (k : ℕ) × (n ≡ 2 ^ k)

IsPower-double : {m : ℕ} → IsPower m → IsPower (m * 2)
IsPower-double (k, e) = (suc k, omega (arith, pow-succ' 2 k))

IsPower-clear_lowest : (n : ℕ) → 0 < n → bit_and n (n - 1) ≡ 0 → IsPower n
IsPower-clear_lowest n =
    WellFounded.induction lt_wf {C = λ n. 0 < n → bit_and n (n - 1) ≡ 0 → IsPower n} n step
  where
    parity : (n : ℕ) → (n ≡ n / 2 * 2) ⊎ (n ≡ n / 2 * 2 + 1)
    parity n = omega arith

    step :
        (n : ℕ)
        → ((m : ℕ) → m < n → 0 < m → bit_and m (m - 1) ≡ 0 → IsPower m)
        → 0 < n
        → bit_and n (n - 1) ≡ 0
        → IsPower n
    step n ih pos h = elim (parity n) [
      | inl even ↦
          let m = n / 2 in
          let cleared = rw even at h in
          let (k, e) =
            ih m (omega arith) (omega arith) (omega (arith, clear_lowest-even m, cleared)) in
          (suc k, omega (arith, pow-succ' 2 k))
      | inr odd ↦ (0, omega (arith, rw odd at h, clear_lowest-odd (n / 2)))
    ]

power_range : (k : ℕ) → 4096 ≤ 2 ^ k → 2 ^ k ≤ 1048576 → (12 ≤ k) × (k ≤ 20)
power_range k lo hi = (low, high)
  where
    low : 12 ≤ k
    low = elim (dec_lt k 12) [
      | yes p ↦
          absurd
            (omega (arith, pow-le-pow_right {n = 2} (omega arith) {i = k} {j = 11} (omega arith)))
      | no p ↦ omega arith
    ]

    high : k ≤ 20
    high = elim (dec_lt 20 k) [
      | yes p ↦
          absurd
            (omega (arith, pow-le-pow_right {n = 2} (omega arith) {i = 21} {j = k} (omega arith)))
      | no p ↦ omega arith
    ]

-- A block size and its logarithm, as the format allows them.
abbrev pub IsBlockSize : ℕ → ℕ → Type 0
IsBlockSize size log = (12 ≤ log) × (log ≤ 20) × (size ≡ 2 ^ log)

accepted-IsBlockSize : (size log : ℕ) → validate_block_size size log ≡ ok tt → IsBlockSize size log
unfolding validate_block_size
accepted-IsBlockSize size log h =
    let guards : (0 < size)
        × (bit_and size (size - 1) ≡ 0)
        × (4096 ≤ size)
        × (size ≤ 1048576)
        × (log_loop size 0 (lt_wf.apply size) ≡ log) =
      ground arith in
    let (pos, clear, lo, hi, log_is) = guards in
    let (k, e) = IsPower-clear_lowest size pos clear in
    let (low, high) = power_range k (omega arith) (omega arith) in
    let log_eq : log ≡ k =
      omega (arith, log_loop-pow k 0 size (lt_wf.apply size) e (omega arith)) in
    (omega arith, omega arith, rw log_eq e)

IsBlockSize-accepted : (size log : ℕ) → IsBlockSize size log → validate_block_size size log ≡ ok tt
unfolding validate_block_size
IsBlockSize-accepted size log (low, high, e) =
    let lo = pow-le-pow_right {n = 2} (omega arith) {i = 12} {j = log} low in
    let hi = pow-le-pow_right {n = 2} (omega arith) {i = log} {j = 20} high in
    let cleared : bit_and size (size - 1) ≡ 0 = rw e (clear_lowest-pow log) in
    let log_is = log_loop-pow log 0 size (lt_wf.apply size) e (omega arith) in
    ground (arith, log_is)

-- A pair of block size and logarithm is accepted exactly when the logarithm is from 12 to 20 and
-- the size is two to that power; every other pair is refused as corrupt.
pub validate_block_size_iff :
    (size log : ℕ)
    → ((validate_block_size size log ≡ ok tt) ↔ IsBlockSize size log)
      × ((validate_block_size size log ≡ ok tt) ⊎ (validate_block_size size log ≡ err corrupt))
validate_block_size_iff size log = (
  (accepted-IsBlockSize size log, IsBlockSize-accepted size log),
  unfold validate_block_size in ground arith,
)
