-- ===== src/Fragment/File.antt =====
-- src/core/data.c and fragment.c together: a file whose tail is packed into a fragment.
use squashfs_fuse.Common.{
  ℕ, ◌+◌, ◌^◌, ◌≤◌, ◌<◌, true, false, Option, some, none, List, ◌++◌, ◌≡◌, ◌≢◌, sym, ap, ◌∙◌, inr,
  arith, length, length-take, length-drop, slice, slice-slice, drop, replicate, get_elem?,
}
use squashfs_fuse.Data.Read.File.{data_read-contents}
use squashfs_fuse.Data.Read.Range.{IsBlock}
use squashfs_fuse.Data.Read.Tail.{AllFull, InFragment, AllFull-AreFull}
use squashfs_fuse.Data.Read.{read_from_fragment, data_read}
use squashfs_fuse.Data.{FileCtx, fragment_is_none, file_ctx_init}
use squashfs_fuse.Directory.Table.Chain.{contents}
use squashfs_fuse.Fragment.Tail.{IsDataCache, data_ops-IsCache, fragment_read-held}
use squashfs_fuse.Fragment.{FragTable, DataCache, read_block, fragment_read, data_ops}
use squashfs_fuse.Inode.{Inode, is_file}
use squashfs_fuse.Platform.{Platform}
use squashfs_fuse.Result.{Result, ok, err, fault}
use squashfs_fuse.Superblock.{Superblock}
use squashfs_fuse.Utils.{Bytes, u32}

module _ {S : Type 0} (p : Platform) (c : DataCache S) (sb : Superblock) (table : Option FragTable)
    (ctx : FileCtx) {held_at : ℕ → Bytes} {Coherent : S → Type 0}
    (is : IsDataCache c held_at Coherent) (memory : (size : ℕ) → p.malloc size ≢ none)
    (present : fragment_is_none ctx.frag_idx ≡ false)
    (read : read_block p sb table ctx.frag_idx ≡ ok (held_at ctx.frag_idx))
    (fits : length (held_at ctx.frag_idx) ≤ sb.disk.block_size) (word : sb.disk.block_size < 2 ^ 32)
    (same_size : ctx.block_size ≡ sb.disk.block_size) where
  read_from_fragment-ok :
      (s t : S) (offset n : ℕ) (bytes : Bytes)
      → fragment_read p c sb table s ctx.frag_idx offset n ≡ (t, ok bytes)
      → read_from_fragment p (data_ops p c sb table) ctx s offset n ≡ (t, ok bytes)
  unfolding read_from_fragment
  read_from_fragment-ok s t offset n bytes got =
      let end : S × Result Bytes → S × Result Bytes = λ r. elim r.1 [
        | ok b ↦ (r.0, ok b)
        | err _ ↦ (r.0, ok (replicate n 0))
        | fault ↦ (r.0, fault)
      ] in
      ap end got

  module _ (tail_size : ℕ) (inside : ctx.frag_offset + tail_size ≤ length (held_at ctx.frag_idx))
      (blocks : List Bytes) (full : AllFull ctx.block_size blocks)
      (count : ctx.block_count ≡ length blocks) (number : length blocks < 2 ^ 32) where
    abbrev tail : Bytes
    tail = slice (held_at ctx.frag_idx) ctx.frag_offset tail_size

    tail-InFragment : InFragment p (data_ops p c sb table) ctx Coherent blocks tail
    tail-InFragment =
        let block = held_at ctx.frag_idx in
        let taken = length-take tail_size (drop ctx.frag_offset block) in
        let left = length-drop ctx.frag_offset block in
        record {
          present = present;
          whole = full;
          count = count;
          number = number;
          short = omega arith;
          reads = λ s k n coherent within some_there.
              let at : u32 (ctx.frag_offset + k) ≡ ctx.frag_offset + k = omega arith in
              let (t, got, kept) =
                fragment_read-held p c sb table is memory ctx.frag_idx present read s
                  (ctx.frag_offset + k) n (omega arith) (omega arith) coherent in
              let part = slice-slice block ctx.frag_offset tail_size k n (omega arith) in
              (
                t,
                ap (λ o. read_from_fragment p (data_ops p c sb table) ctx s o n) at
                    ∙ read_from_fragment-ok s t (ctx.frag_offset + k) n
                        (slice block (ctx.frag_offset + k) n) got
                    ∙ ap (λ b. (t, ok b)) (sym part),
                kept,
              );
        }

    -- A read of a file with full blocks and a tail in a fragment gives `size` bytes from `offset` on
    -- of its blocks put end to end, holes as zeros, and of the part of the fragment block that its
    -- inode names, or as many as there are before its end, whatever a coherent cache, which the
    -- fragments share, holds; the cache stays coherent. What the cache is to hold for the fragment's
    -- number is the fragment, the end of the range is below 2 ^ 64, no allocation fails, and `size`
    -- is enough fuel.
    pub data_read-fragment :
        ((i : ℕ) (b : Bytes)
          → get_elem? blocks i ≡ some b
          → IsBlock p (data_ops p c sb table) ctx (data_ops-IsCache p c sb table is) blocks i b)
        → (inode : Inode) (fuel offset size : ℕ) (s : S) (buf : Bytes) → is_file inode.type ≡ true
        → file_ctx_init sb inode ≡ ok ctx
        → 0 < ctx.block_size
        → ctx.file_size ≡ length (contents blocks ++ tail)
        → offset + size < 2 ^ 64
        → size < fuel
        → Coherent s
        → (t : S) × (data_read p (data_ops p c sb table) sb fuel inode offset size s buf
            ≡ some (t, ok (slice (contents blocks ++ tail) offset size)))
          × Coherent t
    data_read-fragment each inode fuel offset size s buf type init pos_size total small enough
          coherent =
        data_read-contents p (data_ops p c sb table) ctx (data_ops-IsCache p c sb table is) blocks
          pos_size (AllFull-AreFull ctx.block_size blocks pos_size full) (omega arith) each tail
          (inr tail-InFragment) memory sb inode fuel offset size s buf type init total small enough
          coherent
