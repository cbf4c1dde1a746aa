-- ===== src/Fragment/Collision.antt =====
-- src/core/fragment.h and data.h: the keys of fragments and of data blocks in the cache that both use.
use squashfs_fuse.Common.{
  ℕ, ◌+◌, ◌≤◌, ◌<◌, true, false, Option, some, none, ◌≡◌, ◌≢◌, refl, arith, inl, inr, length, slice,
  ltb, leb, Option-cases,
}
use squashfs_fuse.Data.Read.{read_into}
use squashfs_fuse.Data.{FileCtx, fragment_is_none, data_read_block}
use squashfs_fuse.Fragment.Tail.{copy_out-slice}
use squashfs_fuse.Fragment.{FragTable, DataCache, cached_size, fragment_read, put_block, data_ops}
use squashfs_fuse.Platform.{Platform}
use squashfs_fuse.Result.{ok}
use squashfs_fuse.Superblock.{Superblock}
use squashfs_fuse.Utils.{Bytes}

module _ {S : Type 0} (p : Platform) (c : DataCache S) (sb : Superblock) (table : Option FragTable)
    (memory : (size : ℕ) → p.malloc size ≢ none) where
  -- The state after the reading of a data block has it under its position.
  read_into-stored :
      (ctx : FileCtx) (s : S) (buf bytes : Bytes) (pos size block_offset remaining : ℕ)
      → data_read_block p pos size ctx.block_size ≡ ok bytes
      → 0 < length bytes
      → (read_into p (data_ops p c sb table) ctx s buf pos size block_offset remaining).0
        ≡ c.put s pos bytes (cached_size + length bytes)
  unfolding read_into put_block
  read_into-stored ctx s buf bytes pos size block_offset remaining read filled =
      let some_there : ltb 0 (length bytes) ≡ true = ground arith in
      elim (Option-cases (p.malloc cached_size)) [
        | inl refused ↦ absurd (memory cached_size refused)
        | inr (entry, made) ↦ elim (Option-cases (p.malloc (length bytes))) [
          | inl refused ↦ absurd (memory (length bytes) refused)
          | inr (room, given) ↦ rw (read_into, read, some_there, put_block, made, given) refl
        ]
      ]

  -- When a file's block is read from the image and kept in the cache, and a fragment has for its
  -- number the block's position, a read of the fragment gives the bytes of the file's block, whatever
  -- the fragment table says, if the cache gives back what was just put into it and no allocation fails.
  pub fragment_read-collision :
      (ctx : FileCtx) (s : S) (buf bytes : Bytes) (pos size block_offset remaining offset n : ℕ)
      → data_read_block p pos size ctx.block_size ≡ ok bytes
      → (c.get (c.put s pos bytes (cached_size + length bytes)) pos).1 ≡ some bytes
      → fragment_is_none pos ≡ false
      → offset < sb.disk.block_size
      → offset + n ≤ length bytes
      → 0 < length bytes
      → (fragment_read p c sb table
          (read_into p (data_ops p c sb table) ctx s buf pos size block_offset remaining).0
          pos
          offset
          n).1
        ≡ ok (slice bytes offset n)
  unfolding fragment_read
  fragment_read-collision ctx s buf bytes pos size block_offset remaining offset n read kept present
        before within filled =
      let stored = read_into-stored ctx s buf bytes pos size block_offset remaining read filled in
      let room = sb.disk.block_size in
      let inside : leb room offset ≡ false = ground arith in
      let copied = copy_out-slice room offset n bytes within in
      rw (stored, fragment_read, present, inside, kept, copied) refl
