-- ===== src/Tests/Utils.antt =====
-- src/core/utils.h and utils.c at small inputs.
use squashfs_fuse.Common.{
  ℕ, zero, suc, ◌≤◌, min, ◌≡◌, ◌⊎◌, refl, ap, ◌∙◌, sym, [], ◌∷◌, some, true, arith, length, take,
  drop, slice, length-take, length-drop, ◌==◌, if◌then◌else◌,
}
use squashfs_fuse.Result.{ok, err, corrupt}
use squashfs_fuse.Utils.Pread
use squashfs_fuse.Utils.Pread.{Reply, bytes, interrupted, failed, pread_all, IsReliable, read_image}
use squashfs_fuse.Utils.{Bytes, block_is_uncompressed, block_size}

abbrev file : Bytes
file = 10 ∷ 11 ∷ 12 ∷ 13 ∷ 14 ∷ []

-- The first call is interrupted; the others deliver at most two bytes.
abbrev two_at_most : ℕ → ℕ → ℕ → Reply
two_at_most t count offset = if t == 0 then interrupted else bytes (slice file offset (min 2 count))

take-length-take : (n : ℕ) (xs : Bytes) → take (length (take n xs)) xs ≡ take n xs
take-length-take zero xs = refl
take-length-take (suc n) [] = refl
take-length-take (suc n) (x ∷ xs) = ap (◌∷◌ x) (take-length-take n xs)

slice_short : (n offset : ℕ) → slice file offset n ≡ [] → (n ≡ 0) ⊎ (length file ≤ offset)
slice_short n offset e =
    let none_left = ap length e in
    omega (arith, none_left, length-take n (drop offset file), length-drop offset file)

two_at_most-IsReliable : IsReliable two_at_most file 1
two_at_most-IsReliable = record {
  delivers = λ t count offset bs e. delivered t count offset bs e;
  at_end = λ t count offset e. ended t count offset e;
  not_failed = λ t count offset. ground arith;
  not_interrupted = λ t count offset later. ground arith;
}
  where
    delivered :
        (t count offset : ℕ) (bs : Bytes)
        → two_at_most t count offset ≡ bytes bs
        → (bs ≡ slice file offset (length bs)) × (length bs ≤ count)
    delivered t count offset bs e =
        let is : slice file offset (min 2 count) ≡ bs = ground arith in
        (
          sym is
              ∙ sym (take-length-take (min 2 count) (drop offset file))
              ∙ ap (λ (t : Bytes). slice file offset (length t)) is,
          omega (arith, ap length is, length-take (min 2 count) (drop offset file)),
        )

    ended :
        (t count offset : ℕ)
        → two_at_most t count offset ≡ bytes []
        → (count ≡ 0) ⊎ (length file ≤ offset)
    ended t count offset e =
        let is : slice file offset (min 2 count) ≡ [] = ground arith in
        omega (arith, slice_short (min 2 count) offset is)

pread_all_run : pread_all two_at_most 6 3 1 ≡ some (ok (11 ∷ 12 ∷ 13 ∷ []))
unfolding pread_all
pread_all_run = refl

pread_all_short : pread_all two_at_most 9 3 3 ≡ some (err corrupt)
unfolding pread_all
pread_all_short = refl

pread_all_total_example : pread_all two_at_most 6 3 1 ≡ some (read_image file 3 1)
pread_all_total_example =
    Pread.pread_all_total two_at_most two_at_most-IsReliable 3 1 (omega arith) 6 (omega arith)

-- 0x01001234: stored uncompressed, 0x1234 bytes.
stored_size : (block_is_uncompressed 0x01001234 ≡ true) × (block_size 0x01001234 ≡ 0x1234)
unfolding block_is_uncompressed block_size
stored_size = (refl, refl)
