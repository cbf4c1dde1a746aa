-- ===== src/Utils/Pread.antt =====
-- src/core/utils.c, `sqfs_pread_all`: the loop around pread(2), which may return fewer bytes than
-- asked, be interrupted, or fail. The system call is a parameter.
use squashfs_fuse.Common.{
  ℕ, zero, suc, ◌+◌, ◌-◌, ◌^◌, ◌≤◌, ◌<◌, ◌≡◌, ◌≢◌, ◌⊎◌, inl, inr, refl, sym, ap, ap₂, ◌∙◌, ltb→lt,
  [], ◌∷◌, ◌++◌, Option, none, some, true, false, ◌||◌, arith, length, drop, slice, length-append,
  length-take, length-drop, slice-join, Bool-cases, ltb, leb, ◌==◌, if◌then◌else◌,
}
use squashfs_fuse.Result.{Result, ok, err, io, corrupt}
use squashfs_fuse.Utils.{Bytes, u64}

-- One call: the bytes delivered, none of them at the end of the file; -1 with errno EINTR; -1 with
-- any other errno.
pub data Reply : Type 0 where
  bytes : Bytes → Reply
  interrupted failed : Reply

Reply-cases :
    (r : Reply)
    → (r ≡ failed)
      ⊎ ((r ≡ interrupted) ⊎ ((r ≡ bytes []) ⊎ ((b : ℕ) × (bs : Bytes) × (r ≡ bytes (b ∷ bs)))))
Reply-cases failed = inl refl
Reply-cases interrupted = inr (inl refl)
Reply-cases (bytes []) = inr (inr (inl refl))
Reply-cases (bytes (b ∷ bs)) = inr (inr (inr (b, bs, refl)))

module _ (pread : ℕ → ℕ → ℕ → Reply) where
  -- `pread attempt count offset`. `buf` holds the bytes read so far, so `total` is its length.
  -- `none`: the fuel ran out.
  pub pread_loop : ℕ → ℕ → Bytes → ℕ → ℕ → Option (Result Bytes)
  pread_loop zero attempt buf count offset = none
  pread_loop (suc fuel) attempt buf count offset = elim (ltb (length buf) count) [
    | false ↦ some (ok buf)
    | true ↦ elim (pread attempt (count - length buf) (u64 (offset + length buf))) [
      | failed ↦ some (err io)
      | interrupted ↦ pread_loop fuel (attempt + 1) buf count offset
      | bytes [] ↦ some (err corrupt)
      | bytes (b ∷ bs) ↦ pread_loop fuel (attempt + 1) (buf ++ (b ∷ bs)) count offset
    ]
  ]

  unfoldable pub pread_all : ℕ → ℕ → ℕ → Option (Result Bytes)
  unfolding pread_loop
  pread_all fuel count offset = pread_loop fuel 0 [] count offset

-- pread(2) on a file that nobody writes to: what it delivers are the file's bytes at that offset,
-- at most as many as asked, and none only at the end of the file or if none are asked; from
-- attempt `quiet` on it is not interrupted, and it never fails.
pub record IsReliable (pread : ℕ → ℕ → ℕ → Reply) (file : Bytes) (quiet : ℕ) : Type 0 where
  pub delivers :
      (t count offset : ℕ) (bs : Bytes)
      → pread t count offset ≡ bytes bs
      → (bs ≡ slice file offset (length bs)) × (length bs ≤ count)
  pub at_end :
      (t count offset : ℕ) → pread t count offset ≡ bytes [] → (count ≡ 0) ⊎ (length file ≤ offset)
  pub not_failed : (t count offset : ℕ) → pread t count offset ≢ failed
  pub not_interrupted : (t count offset : ℕ) → quiet ≤ t → pread t count offset ≢ interrupted

-- The bytes that a read of `count` bytes at `offset` is to give.
unfoldable pub read_image : Bytes → ℕ → ℕ → Result Bytes
read_image file count offset =
    if count == 0 || leb (offset + count) (length file)
    then ok (slice file offset count)
    else err corrupt

module _ (pread : ℕ → ℕ → ℕ → Reply) {file : Bytes} {quiet : ℕ} (os : IsReliable pread file quiet)
    (count offset : ℕ) (fits : offset + count < 2 ^ 64) where
  -- What the loop has read so far is the file's.
  abbrev HasRead : Bytes → Type 0
  HasRead buf = (buf ≡ slice file offset (length buf)) × (length buf ≤ count)

  within_file : (buf : Bytes) → HasRead buf → 0 < length buf → offset + length buf ≤ length file
  within_file buf h pos =
      omega
        (arith, ap length h.0, length-take (length buf) (drop offset file), length-drop offset file)

  finished :
      (buf : Bytes)
      → HasRead buf
      → ltb (length buf) count ≡ false
      → some (ok buf) ≡ some (read_image file count offset)
  unfolding read_image
  finished buf h done =
      let all : length buf ≡ count = ground arith in
      let filled : buf ≡ slice file offset count = rw all at h.0 in
      ground (arith, within_file buf h)

  extended :
      (buf more : Bytes) (t : ℕ)
      → HasRead buf
      → length buf < count
      → pread t (count - length buf) (u64 (offset + length buf)) ≡ bytes more
      → HasRead (buf ++ more)
  extended buf more t h short e =
      let at : u64 (offset + length buf) ≡ offset + length buf = omega arith in
      let got = os.delivers t _ _ more e in
      let next : more ≡ slice file (offset + length buf) (length more) = rw at at got.0 in
      let size = length-append buf more in
      (
        ap₂ ◌++◌ h.0 next
            ∙ slice-join file offset (length buf) (length more)
            ∙ ap (slice file offset) (sym size),
        omega (arith, got.1),
      )

  too_short :
      (buf : Bytes)
      → length buf < count
      → length file ≤ offset + length buf
      → read_image file count offset ≡ err corrupt
  unfolding read_image
  too_short buf short end = ground arith

  loop_total :
      (fuel attempt : ℕ) (buf : Bytes)
      → HasRead buf
      → (count - length buf) + (quiet - attempt) < fuel
      → pread_loop pread fuel attempt buf count offset ≡ some (read_image file count offset)
  unfolding pread_loop
  loop_total zero attempt buf h enough = absurd (omega arith)
  loop_total (suc fuel) attempt buf h enough = elim (Bool-cases (ltb (length buf) count)) [
    | inr done ↦ rw (done, pread_loop) (finished buf h done)
    | inl short ↦ elim (Reply-cases (pread attempt asked at)) [
      | inl e ↦ absurd (os.not_failed attempt asked at e)
      | inr (inl e) ↦
          let early = os.not_interrupted attempt asked at in
          ground (arith, loop_total fuel (attempt + 1) buf h, early)
      | inr (inr (inl e)) ↦ ground (arith, os.at_end attempt asked at e, too_short buf)
      | inr (inr (inr (b, bs, e))) ↦
          let h' = extended buf (b ∷ bs) attempt h (ltb→lt _ _ short) e in
          let grown = length-append buf (b ∷ bs) in
          ground (arith, loop_total fuel (attempt + 1) (buf ++ (b ∷ bs)) h' (omega arith))
    ]
  ]
    where
      asked : ℕ
      asked = count - length buf

      at : ℕ
      at = u64 (offset + length buf)

  -- On a file that nobody writes to, with a system call that never fails and whose interruptions are all
  -- among its first `quiet` calls, the loop ends after at most `count + quiet` calls, however short the reads are.
  -- It then returns the bytes of the file at that offset, or `corrupt` if the file ends before. The
  -- range that is read ends below 2 ^ 64.
  pub pread_all_total :
      (fuel : ℕ)
      → count + quiet < fuel
      → pread_all pread fuel count offset ≡ some (read_image file count offset)
  unfolding pread_all
  pread_all_total fuel enough = loop_total fuel 0 [] (refl, omega arith) (omega arith)
