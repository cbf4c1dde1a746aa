-- ===== src/Fragment/Tail.antt =====
-- src/core/fragment.c, `sqfs_fragment_read` behind `sqfs_data_read`: the tail of a file, from a block
-- that it shares with other files, through the cache that fragments share with the data blocks.
use squashfs_fuse.Common.{
  ℕ, ◌+◌, ◌-◌, min, ◌≤◌, ◌<◌, false, Option, some, none, ◌≡◌, ◌≢◌, refl, inl, inr, arith, length,
  slice, ltb, leb, Option-cases,
}
use squashfs_fuse.Data.Read.Cached.{IsCache}
use squashfs_fuse.Data.{fragment_is_none}
use squashfs_fuse.Fragment.{
  FragTable, DataCache, cached_size, copy_out, read_block, read_uncached, fragment_read, put_block,
  data_ops,
}
use squashfs_fuse.Metadata.Block.{allocate-ok}
use squashfs_fuse.Platform.{Platform}
use squashfs_fuse.Result.{ok}
use squashfs_fuse.Superblock.{Superblock}
use squashfs_fuse.Utils.{Bytes}

-- What the shared cache promises: under an invariant, what it gives for a key is what the image holds
-- for that key, and storing that keeps the invariant, whatever size is claimed for it.
pub record IsDataCache {S : Type 0} (c : DataCache S) (held_at : ℕ → Bytes) (Coherent : S → Type 0)
    : Type 0 where
  pub get_keeps : (s : S) (key : ℕ) → Coherent s → Coherent (c.get s key).0
  pub get_true :
      (s : S) (key : ℕ) (bytes : Bytes)
      → Coherent s
      → (c.get s key).1 ≡ some bytes
      → bytes ≡ held_at key
  pub put_keeps :
      (s : S) (key claimed : ℕ) → Coherent s → Coherent (c.put s key (held_at key) claimed)

-- Within the data of a block, what is copied of it is the range that was asked for.
pub copy_out-slice :
    (room offset n : ℕ) (bytes : Bytes)
    → offset + n ≤ length bytes
    → copy_out room offset n bytes ≡ slice bytes offset n
unfolding copy_out
copy_out-slice room offset n bytes h =
    let inside : ltb (length bytes) offset ≡ false = ground arith in
    let count : min (length bytes - offset) n ≡ n = omega arith in rw (inside, count) refl

module _ {S : Type 0} (p : Platform) (c : DataCache S) (sb : Superblock) (table : Option FragTable)
    {held_at : ℕ → Bytes} {Coherent : S → Type 0} (is : IsDataCache c held_at Coherent) where
  put_block-Coherent :
      (s : S) (pos : ℕ) → Coherent s → Coherent (put_block p c sb table s pos (held_at pos))
  unfolding put_block
  put_block-Coherent s pos coherent = elim (Option-cases (p.malloc cached_size)) [
    | inl refused ↦ rw (put_block, refused) coherent
    | inr (entry, made) ↦ elim (Option-cases (p.malloc (length (held_at pos)))) [
      | inl refused ↦ rw (put_block, made, refused) coherent
      | inr (room, given) ↦
          rw (put_block, made, given)
            (is.put_keeps s pos (cached_size + length (held_at pos)) coherent)
    ]
  ]

  pub data_ops-IsCache : IsCache (data_ops p c sb table) held_at Coherent
  data_ops-IsCache = record {
    get_keeps = is.get_keeps;
    get_true = is.get_true;
    put_keeps = put_block-Coherent;
  }

  module _ (memory : (size : ℕ) → p.malloc size ≢ none) (idx : ℕ)
      (present : fragment_is_none idx ≡ false)
      (read : read_block p sb table idx ≡ ok (held_at idx)) where
    read_uncached-held :
        (s : S) (offset n : ℕ)
        → offset + n ≤ length (held_at idx)
        → Coherent s
        → (t : S) × (read_uncached p c sb table s idx offset n
            ≡ (t, ok (slice (held_at idx) offset n)))
          × Coherent t
    unfolding read_uncached
    read_uncached-held s offset n within coherent =
        let room = sb.disk.block_size in
        let (_, entry) = allocate-ok p memory cached_size in
        let (_, buffer) = allocate-ok p memory room in
        let copied = copy_out-slice room offset n (held_at idx) within in
        (
          c.put s idx (held_at idx) (cached_size + room),
          rw (read_uncached, entry, buffer, read, copied) refl,
          is.put_keeps s idx (cached_size + room) coherent,
        )

    -- A part of a fragment block, whether the block is cached or not.
    pub fragment_read-held :
        (s : S) (offset n : ℕ)
        → offset < sb.disk.block_size
        → offset + n ≤ length (held_at idx)
        → Coherent s
        → (t : S) × (fragment_read p c sb table s idx offset n
            ≡ (t, ok (slice (held_at idx) offset n)))
          × Coherent t
    unfolding fragment_read
    fragment_read-held s offset n before within coherent =
        let room = sb.disk.block_size in
        let kept = is.get_keeps s idx coherent in
        let inside : leb room offset ≡ false = ground arith in
        elim (Option-cases (c.get s idx).1) [
          | inl missing ↦
              let (t, got, after) = read_uncached-held (c.get s idx).0 offset n within kept in
              (t, rw (fragment_read, present, inside, missing) got, after)
          | inr (bytes, found) ↦
              let same = is.get_true s idx bytes coherent found in
              let copied = copy_out-slice room offset n (held_at idx) within in
              ((c.get s idx).0, rw (fragment_read, present, inside, found, same, copied) refl, kept)
        ]
