-- ===== src/Common/Bits.antt =====
-- `&` and `|` of machine words as arithmetic: masks, single bits and disjoint fields, at every
-- width. The native operations are recursions on binary digits; each law peels the lowest one.
use Prim.Native.Nat.{
  ℕ, zero, suc, ◌+◌, ◌-◌, ◌*◌, ◌/◌, ◌%◌, ◌^◌, ◌≤◌, ◌<◌, min, max, bit_and, bit_or, bitwise, digits,
  bit_and-bitwise, bit_or-bitwise,
}
use mathlib.Core.Path.{◌≡◌, refl, ap}
use mathlib.Core.WellFounded
use native.Mathlib.Nat.{pow-succ', one-le-pow, div-div-eq-div-mul}
use native.Mathlib.Omega.{arith}
use squashfs_fuse.Common.Order.{lt_wf}

-- The digits do not depend on the fuel, once there is one for each digit.
digits_enough :
    (z : ℕ → ℕ) (f : ℕ → ℕ → ℕ) (n m a b : ℕ) → a ≤ n → a ≤ m → digits z f n a b ≡ digits z f m a b
digits_enough z f zero zero zero b p q = refl
digits_enough z f zero (suc m) zero b p q = refl
digits_enough z f (suc n) zero zero b p q = refl
digits_enough z f (suc n) (suc m) zero b p q = refl
digits_enough z f zero m (suc a) b p q = absurd (omega arith)
digits_enough z f (suc n) zero (suc a) b p q = absurd (omega arith)
digits_enough z f (suc n) (suc m) (suc a) b p q =
    rw (digits_enough z f n m (suc a / 2) (b / 2) (omega arith) (omega arith))

lowest_digit :
    (z : ℕ → ℕ) (f : ℕ → ℕ → ℕ) (a b : ℕ)
    → bitwise z f (suc a) b ≡ bitwise z f (suc a / 2) (b / 2) * 2 + f (suc a % 2) (b % 2)
lowest_digit z f a b =
    omega (arith, digits_enough z f a (suc a / 2) (suc a / 2) (b / 2) (omega arith) (omega arith))

pub bit_and-lowest : (a b : ℕ) → bit_and a b ≡ bit_and (a / 2) (b / 2) * 2 + min (a % 2) (b % 2)
bit_and-lowest zero b = simp bit_and-bitwise (omega arith)
bit_and-lowest (suc a) b = simp bit_and-bitwise (lowest_digit (λ y. 0) min a b)

pub bit_or-lowest : (a b : ℕ) → bit_or a b ≡ bit_or (a / 2) (b / 2) * 2 + max (a % 2) (b % 2)
bit_or-lowest zero b = simp bit_or-bitwise (omega arith)
bit_or-lowest (suc a) b = simp bit_or-bitwise (lowest_digit (λ y. y) max a b)

pub bit_and-zero : (word : ℕ) → bit_and word 0 ≡ 0
bit_and-zero word = WellFounded.induction lt_wf {C = λ w. bit_and w 0 ≡ 0} word peel
  where
    peel : (w : ℕ) → ((v : ℕ) → v < w → bit_and v 0 ≡ 0) → bit_and w 0 ≡ 0
    peel zero rest = refl
    peel (suc w) rest = omega (arith, rest (suc w / 2) (omega arith), bit_and-lowest (suc w) 0)

pub bit_or-zero : (word : ℕ) → bit_or word 0 ≡ word
bit_or-zero word = WellFounded.induction lt_wf {C = λ w. bit_or w 0 ≡ w} word peel
  where
    peel : (w : ℕ) → ((v : ℕ) → v < w → bit_or v 0 ≡ v) → bit_or w 0 ≡ w
    peel zero rest = refl
    peel (suc w) rest = omega (arith, rest (suc w / 2) (omega arith), bit_or-lowest (suc w) 0)

double_shifted : (m k : ℕ) → m * 2 ^ suc k ≡ 2 * (m * 2 ^ k)
double_shifted m k = omega (arith, ap (λ (t : ℕ). m * t) (pow-succ' 2 k))

half_shifted : (a k : ℕ) → a / 2 ^ suc k ≡ a / 2 / 2 ^ k
half_shifted a k = rw (div-div-eq-div-mul a 2 (2 ^ k), pow-succ' 2 k)

-- A mask whose lowest `k` digits are zero reads the digits above.
pub bit_and_shifted : (k a m : ℕ) → bit_and a (m * 2 ^ k) ≡ bit_and (a / 2 ^ k) m * 2 ^ k
bit_and_shifted zero a m =
    let unshifted : m * 2 ^ 0 ≡ m = omega arith in
    let undivided : a / 2 ^ 0 ≡ a = omega arith in rw (unshifted, undivided) (omega arith)
bit_and_shifted (suc k) a m =
    let halved : m * 2 ^ suc k / 2 ≡ m * 2 ^ k = omega (arith, double_shifted m k) in
    let step = bit_and-lowest a (m * 2 ^ suc k) in
    omega (
      arith,
      rw halved at step,
      double_shifted m k,
      double_shifted (bit_and (a / 2 ^ suc k) m) k,
      bit_and_shifted k (a / 2) m,
      ap (λ t. bit_and t m * 2 ^ k) (half_shifted a k),
    )

-- `a & (1 << k)`.
pub bit_and_bit : (k a : ℕ) → bit_and a (2 ^ k) ≡ a / 2 ^ k % 2 * 2 ^ k
bit_and_bit k a =
    let one_mask : 1 * 2 ^ k ≡ 2 ^ k = omega arith in
    let odd : bit_and (a / 2 ^ k) 1 ≡ a / 2 ^ k % 2 =
      omega (arith, bit_and-lowest (a / 2 ^ k) 1, bit_and-zero (a / 2 ^ k / 2)) in
    rw (one_mask, odd) at (bit_and_shifted k a 1)

-- `a & ((1 << k) - 1)`, on a number given by its fields.
bit_and_fields : (k hi lo : ℕ) → lo < 2 ^ k → bit_and (hi * 2 ^ k + lo) (2 ^ k - 1) ≡ lo
bit_and_fields zero hi lo h = rw (bit_and-zero (hi * 2 ^ 0 + lo)) (omega arith)
bit_and_fields (suc k) hi lo h =
    let fields = double_shifted hi k in
    let pow = pow-succ' 2 k in
    let upper : (hi * 2 ^ suc k + lo) / 2 ≡ hi * 2 ^ k + lo / 2 = omega arith in
    let mask : (2 ^ suc k - 1) / 2 ≡ 2 ^ k - 1 = omega arith in
    let step = bit_and-lowest (hi * 2 ^ suc k + lo) (2 ^ suc k - 1) in
    omega (
      arith,
      rw (upper, mask) at step,
      one-le-pow k 2 (omega arith),
      bit_and_fields k hi (lo / 2) (omega arith),
    )

-- `a & ((1 << k) - 1)` is the remainder by `2 ^ k`.
pub bit_and_mask : (k a : ℕ) → bit_and a (2 ^ k - 1) ≡ a % 2 ^ k
bit_and_mask k a =
    let split : a / 2 ^ k * 2 ^ k + a % 2 ^ k ≡ a = grind arith in
    let fits : a % 2 ^ k < 2 ^ k = grind (arith, one-le-pow k 2) in
    rw split at (bit_and_fields k (a / 2 ^ k) (a % 2 ^ k) fits)

-- `(hi << k) | lo`, where `lo` fits in `k` bits.
pub bit_or_fields : (k hi lo : ℕ) → lo < 2 ^ k → bit_or (hi * 2 ^ k) lo ≡ hi * 2 ^ k + lo
bit_or_fields zero hi lo h =
    let empty : lo ≡ 0 = omega arith in rw (empty, bit_or-zero (hi * 2 ^ 0)) (omega arith)
bit_or_fields (suc k) hi lo h =
    let fields = double_shifted hi k in
    let pow = pow-succ' 2 k in
    let upper : hi * 2 ^ suc k / 2 ≡ hi * 2 ^ k = omega arith in
    let step = bit_or-lowest (hi * 2 ^ suc k) lo in
    omega (arith, rw upper at step, bit_or_fields k hi (lo / 2) (omega arith))

-- The same with the fields swapped, as the little-endian readers write it.
pub bit_or_fields_low : (k hi lo : ℕ) → lo < 2 ^ k → bit_or lo (hi * 2 ^ k) ≡ hi * 2 ^ k + lo
bit_or_fields_low zero hi lo h =
    let empty : lo ≡ 0 = omega arith in rw empty (omega (arith, bit_or-bitwise 0 (hi * 2 ^ 0)))
bit_or_fields_low (suc k) hi lo h =
    let fields = double_shifted hi k in
    let pow = pow-succ' 2 k in
    let upper : hi * 2 ^ suc k / 2 ≡ hi * 2 ^ k = omega arith in
    let step = bit_or-lowest lo (hi * 2 ^ suc k) in
    omega (arith, rw upper at step, bit_or_fields_low k hi (lo / 2) (omega arith))
