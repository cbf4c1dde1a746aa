-- ===== src/Directory/Table/Chain.antt =====
-- src/core/directory.c, `read_directory_data`: a listing may go on from one metadata block to the
-- next; it is read as a part of their contents put end to end.
use squashfs_fuse.Common.{
  ℕ, zero, suc, ◌+◌, ◌-◌, min, ◌≤◌, ◌<◌, List, [], ◌∷◌, ◌++◌, append_assoc, some, ◌≡◌, refl, sym,
  ap, ◌∙◌, inl, inr, arith, Bool-cases, false, length, length-append, length-take, length-drop,
  take, drop, ltb, leb, slice, take-append_short, take-append_long, take-all, drop-append_short,
}
use squashfs_fuse.Directory.Table.{read_meta_block, read_remaining, read_directory_data}
use squashfs_fuse.Platform.{Platform}
use squashfs_fuse.Result.{ok}
use squashfs_fuse.Utils.{Bytes, u64}

abbrev pub contents : List Bytes → Bytes
contents [] = []
contents (b ∷ bs) = b ++ contents bs

-- One step of the copy: what it takes of a block is what the listing still needs.
take-copied :
    (size : ℕ) (buffer b rest : Bytes)
    → length buffer ≤ size
    → take size ((buffer ++ take (min (size - length buffer) (length b)) b) ++ rest)
      ≡ take size (buffer ++ (b ++ rest))
take-copied size buffer b rest fits =
    let left = size - length buffer in
    elim (Bool-cases (leb (length b) left)) [
      | inl whole ↦
          let n : min left (length b) ≡ length b = ground arith in
          let all = take-all (length b) b (omega arith) in
          rw (n, all) (ap (take size) (append_assoc buffer b rest))
      | inr part ↦
          let n : min left (length b) ≡ left = ground arith in
          let copied = length-append buffer (take left b) in
          let taken = length-take left b in
          let full = take-append_short size (buffer ++ take left b) rest (ground arith) in
          let all = take-all size (buffer ++ take left b) (ground arith) in
          let long = take-append_long size buffer (b ++ rest) fits in
          let short = take-append_short left b rest (ground arith) in
          rw (n, full, all, long, short) refl
    ]

module _ (p : Platform) where
  -- Blocks that stand one behind the other, from a position on.
  abbrev pub Chain : ℕ → List Bytes → Type 0
  Chain pos [] = Unit
  Chain pos (b ∷ bs) = (next : ℕ) × (read_meta_block p pos ≡ ok (b, next)) × Chain next bs

  read_remaining-Chain :
      (fuel pos size : ℕ) (bs : List Bytes) (buffer : Bytes)
      → Chain pos bs
      → length bs < fuel
      → length buffer ≤ size
      → size ≤ length buffer + length (contents bs)
      → read_remaining p fuel pos size buffer ≡ some (ok (take size (buffer ++ contents bs)))
  unfolding read_remaining
  read_remaining-Chain zero pos size bs buffer chain enough fits there = absurd (omega arith)
  read_remaining-Chain (suc fuel) pos size [] buffer chain enough fits there =
      let full : size ≡ length buffer = omega arith in
      let done : ltb (length buffer) size ≡ false = ground arith in
      rw (read_remaining, done)
        (ap (λ t. some (ok t))
          (sym
            (take-append_short size buffer [] (omega arith) ∙ take-all size buffer (omega arith))))
  read_remaining-Chain (suc fuel) pos size (b ∷ bs) buffer (next, read, chain) enough fits there =
      let copied = length buffer in
      let n = min (size - copied) (length b) in
      let joined = length-append buffer (take n b) in
      let taken = length-take n b in
      let whole = length-append b (contents bs) in
      elim (Bool-cases (ltb copied size)) [
        | inr done ↦
            let is = take-append_short size buffer (b ++ contents bs) (ground arith) in
            rw (read_remaining, done, is)
              (ap (λ t. some (ok t)) (sym (take-all size buffer (ground arith))))
        | inl more ↦
            let rest =
              read_remaining-Chain fuel next size bs (buffer ++ take n b) chain (omega arith)
                (omega arith) (ground arith) in
            rw (read_remaining, more, read)
              (rest ∙ ap (λ t. some (ok t)) (take-copied size buffer b (contents bs) fits))
      ]

  -- A listing that stands in a row of metadata blocks, at an offset within the first of them, is read
  -- whole, with fuel for each block.
  pub read_directory_data-Chain :
      (fuel dir_table block_idx block_offset size : ℕ) (b : Bytes) (bs : List Bytes)
      → Chain (u64 (dir_table + block_idx)) (b ∷ bs)
      → length bs < fuel
      → block_offset < length b
      → block_offset + size ≤ length (contents (b ∷ bs))
      → read_directory_data p fuel dir_table block_idx block_offset size
        ≡ some (ok (slice (contents (b ∷ bs)) block_offset size))
  unfolding read_directory_data
  read_directory_data-Chain fuel dir_table block_idx offset size b bs (next, read, chain) enough
        within there =
      let whole = length-append b (contents bs) in
      let left = length-drop offset b in
      let split = drop-append_short offset b (contents bs) (omega arith) in
      let valid : leb (length b) offset ≡ false = ground arith in
      elim (Bool-cases (leb (offset + size) (length b))) [
        | inl single ↦
            let is = take-append_short size (drop offset b) (contents bs) (ground arith) in
            rw (read_directory_data, read, valid, single, split, is) refl
        | inr several ↦
            let rest =
              read_remaining-Chain fuel next size bs (drop offset b) chain enough (ground arith)
                (ground arith) in
            rw (read_directory_data, read, valid, several, split) rest
      ]
