-- ===== src/Directory/Safety.antt =====
-- src/core/directory.c, `parse_directory_entries` on any bytes at all: no read past the end, no
-- unknown type, and an end.
use squashfs_fuse.Common.{
  ℕ, zero, suc, ◌+◌, ◌-◌, ◌≤◌, Option, [], ◌∷◌, ◌≡◌, ◌≢◌, ap, arith, inl, inr, length, length-drop,
  drop,
}
use squashfs_fuse.Directory.{
  DirHeader, Collected, entry_type, grow, read_header, parse_entry, parse_entries, parse_headers,
  parse_directory_entries,
}
use squashfs_fuse.Inode.{of_u16}
use squashfs_fuse.Result.{ok, fault, Result-cases}
use squashfs_fuse.Utils.{Bytes, u16, u32, le16_to_cpu}

entry_type-safe : (n : ℕ) → entry_type n ≢ fault
unfolding of_u16
entry_type-safe zero e = cc
entry_type-safe (suc zero) e = cc
entry_type-safe (suc (suc zero)) e = cc
entry_type-safe (suc (suc (suc zero))) e = cc
entry_type-safe (suc (suc (suc (suc zero)))) e = cc
entry_type-safe (suc (suc (suc (suc (suc zero))))) e = cc
entry_type-safe (suc (suc (suc (suc (suc (suc zero)))))) e = cc
entry_type-safe (suc (suc (suc (suc (suc (suc (suc zero))))))) e = cc
entry_type-safe (suc (suc (suc (suc (suc (suc (suc (suc n)))))))) e = ground arith

module _ (malloc : ℕ → Option ℕ) where
  grow-safe : (c : Collected) → grow malloc c ≢ fault
  unfolding grow
  grow-safe c e = ground arith

  parse_entry-safe :
      (header : DirHeader) (ptr : Bytes) (c : Collected) → parse_entry malloc header ptr c ≢ fault
  unfolding parse_entry
  parse_entry-safe header ptr c e =
      ground (arith, entry_type-safe (le16_to_cpu (drop 4 ptr)), grow-safe c)

  parse_entry-shorter :
      (header : DirHeader) (ptr rest : Bytes) (c grown : Collected)
      → parse_entry malloc header ptr c ≡ ok (rest, grown)
      → length rest ≤ length ptr
  unfolding parse_entry
  parse_entry-shorter header ptr rest c grown e =
      let n = 8 + u16 (le16_to_cpu (drop 6 ptr) + 1) in
      let is : rest ≡ drop n ptr = ground arith in
      let size : length rest ≡ length ptr - n = rw is (length-drop n ptr) in omega arith

  parse_entries-safe :
      (n : ℕ) (header : DirHeader) (ptr : Bytes) (c : Collected)
      → parse_entries malloc n header ptr c ≢ fault
  unfolding parse_entries
  parse_entries-safe zero header ptr c e = cc
  parse_entries-safe (suc n) header ptr c e =
      elim (Result-cases (parse_entry malloc header ptr c)) [
        | inl ((rest, grown), one) ↦ parse_entries-safe n header rest grown (ground (arith, one))
        | inr (inl (why, one)) ↦ ground (arith, one)
        | inr (inr undefined) ↦ parse_entry-safe header ptr c undefined
      ]

  parse_entries-shorter :
      (n : ℕ) (header : DirHeader) (ptr rest : Bytes) (c grown : Collected)
      → parse_entries malloc n header ptr c ≡ ok (rest, grown)
      → length rest ≤ length ptr
  unfolding parse_entries
  parse_entries-shorter zero header ptr rest c grown e =
      let is : ptr ≡ rest = ground arith in omega (arith, ap length is)
  parse_entries-shorter (suc n) header ptr rest c grown e =
      elim (Result-cases (parse_entry malloc header ptr c)) [
        | inl ((left, more), one) ↦
            let later = parse_entries-shorter n header left rest more grown (ground (arith, one)) in
            omega (arith, later, parse_entry-shorter header ptr left c more one)
        | inr (inl (why, one)) ↦ absurd (ground (arith, one))
        | inr (inr undefined) ↦ absurd (parse_entry-safe header ptr c undefined)
      ]

  parse_headers-safe :
      (fuel : ℕ) (ptr : Bytes) (c : Collected)
      → length ptr ≤ fuel
      → parse_headers malloc fuel ptr c ≢ fault
  unfolding parse_headers
  parse_headers-safe fuel [] c enough e = cc
  parse_headers-safe zero (b ∷ bs) c enough e = absurd (omega arith)
  parse_headers-safe (suc fuel) (b ∷ bs) c enough e =
      let header = read_header (b ∷ bs) in
      let n = u32 (header.count + 1) in
      elim (Result-cases (parse_entries malloc n header (drop 12 (b ∷ bs)) c)) [
        | inl ((rest, grown), all) ↦
            let shorter = parse_entries-shorter n header (drop 12 (b ∷ bs)) rest c grown all in
            let size = length-drop 12 (b ∷ bs) in
            parse_headers-safe fuel rest grown (omega arith) (ground (arith, all))
        | inr (inl (why, all)) ↦ ground (arith, all)
        | inr (inr undefined) ↦ parse_entries-safe n header (drop 12 (b ∷ bs)) c undefined
      ]

  -- Whatever the bytes of a listing are, they are parsed to an end, with no read past it.
  pub parse_directory_entries-safe : (raw : Bytes) → parse_directory_entries malloc raw ≢ fault
  unfolding parse_directory_entries
  parse_directory_entries-safe raw e =
      parse_headers-safe (length raw) raw (record { entries = []; capacity = 0 }) (omega arith)
        (ground arith)
