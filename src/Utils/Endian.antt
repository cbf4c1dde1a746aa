-- ===== src/Utils/Endian.antt =====
-- src/core/utils.h, the little-endian readers: they invert the byte order of the format.
use squashfs_fuse.Common.{ℕ, ◌+◌, ◌*◌, ◌/◌, ◌%◌, ◌^◌, ◌<◌, ◌∷◌, ◌≡◌, arith}
use squashfs_fuse.Common.Bits.{bit_or_fields_low}
use squashfs_fuse.Utils.{Bytes, le16_to_cpu, le32_to_cpu, le64_to_cpu}

-- The format's encodings, lowest byte first, with what follows them.
abbrev pub put_le16 : ℕ → Bytes → Bytes
put_le16 n rest = (n % 256) ∷ (n / 2 ^ 8 % 256) ∷ rest

abbrev pub put_le32 : ℕ → Bytes → Bytes
put_le32 n rest = put_le16 (n % 2 ^ 16) (put_le16 (n / 2 ^ 16) rest)

abbrev pub put_le64 : ℕ → Bytes → Bytes
put_le64 n rest = put_le32 (n % 2 ^ 32) (put_le32 (n / 2 ^ 32) rest)

-- The readers as sums.
pub le16_sum : (a b : ℕ) (rest : Bytes) → a < 256 → le16_to_cpu (a ∷ b ∷ rest) ≡ b * 2 ^ 8 + a
unfolding le16_to_cpu
le16_sum a b rest h = bit_or_fields_low 8 b a h

pub le32_sum :
    (a b c d : ℕ) (rest : Bytes)
    → a < 256
    → b < 256
    → c < 256
    → le32_to_cpu (a ∷ b ∷ c ∷ d ∷ rest) ≡ d * 2 ^ 24 + (c * 2 ^ 16 + (b * 2 ^ 8 + a))
unfolding le32_to_cpu
le32_sum a b c d rest ha hb hc = rw (bit_or_fields_low 8 b a ha) (
    rw (bit_or_fields_low 16 c (b * 2 ^ 8 + a) (omega arith))
      (bit_or_fields_low 24 d (c * 2 ^ 16 + (b * 2 ^ 8 + a)) (omega arith)))

-- Reading a 16-bit field gives the number that was stored there.
pub le16_to_cpu-put_le16 : (n : ℕ) (rest : Bytes) → n < 2 ^ 16 → le16_to_cpu (put_le16 n rest) ≡ n
le16_to_cpu-put_le16 n rest h =
    omega (arith, le16_sum (n % 256) (n / 2 ^ 8 % 256) rest (omega arith))

-- Reading a 32-bit field gives the number that was stored there.
pub le32_to_cpu-put_le32 : (n : ℕ) (rest : Bytes) → n < 2 ^ 32 → le32_to_cpu (put_le32 n rest) ≡ n
le32_to_cpu-put_le32 n rest h = omega (
  arith,
  le32_sum (n % 2 ^ 16 % 256) (n % 2 ^ 16 / 2 ^ 8 % 256) (n / 2 ^ 16 % 256)
      (n / 2 ^ 16 / 2 ^ 8 % 256) rest (omega arith) (omega arith) (omega arith),
)

le64_sum :
    (a b c d e f g i : ℕ) (rest : Bytes)
    → le32_to_cpu (a ∷ b ∷ c ∷ d ∷ e ∷ f ∷ g ∷ i ∷ rest) < 2 ^ 32
    → e < 256
    → f < 256
    → g < 256
    → le64_to_cpu (a ∷ b ∷ c ∷ d ∷ e ∷ f ∷ g ∷ i ∷ rest)
      ≡ i * 2 ^ 56
        + (g * 2 ^ 48
            + (f * 2 ^ 40 + (e * 2 ^ 32 + le32_to_cpu (a ∷ b ∷ c ∷ d ∷ e ∷ f ∷ g ∷ i ∷ rest))))
unfolding le64_to_cpu
le64_sum a b c d e f g i rest hl he hf hg =
    let low = le32_to_cpu (a ∷ b ∷ c ∷ d ∷ e ∷ f ∷ g ∷ i ∷ rest) in
    let to40 = e * 2 ^ 32 + low in
    let to48 = f * 2 ^ 40 + to40 in
    let to56 = g * 2 ^ 48 + to48 in
    rw (bit_or_fields_low 32 e low hl) (
      rw (bit_or_fields_low 40 f to40 (omega arith)) (
        rw (bit_or_fields_low 48 g to48 (omega arith)) (bit_or_fields_low 56 i to56 (omega arith))))

-- Reading a little-endian 64-bit field gives the number below 2 ^ 64 that was stored there.
pub le64_to_cpu-put_le64 : (n : ℕ) (rest : Bytes) → n < 2 ^ 64 → le64_to_cpu (put_le64 n rest) ≡ n
le64_to_cpu-put_le64 n rest h =
    let l = n % 2 ^ 32 in
    let u = n / 2 ^ 32 in
    let low = le32_to_cpu-put_le32 l (put_le32 u rest) (omega arith) in
    omega (
      arith,
      low,
      le64_sum (l % 2 ^ 16 % 256) (l % 2 ^ 16 / 2 ^ 8 % 256) (l / 2 ^ 16 % 256)
          (l / 2 ^ 16 / 2 ^ 8 % 256) (u % 2 ^ 16 % 256) (u % 2 ^ 16 / 2 ^ 8 % 256)
          (u / 2 ^ 16 % 256) (u / 2 ^ 16 / 2 ^ 8 % 256) rest (omega arith) (omega arith)
          (omega arith) (omega arith),
    )
