-- ===== src/Vfs/Paths.antt =====
-- src/vfs/vfs_ops.c, `sqfs_vfs_read` of an open file.
use squashfs_fuse.Common.{
  ℕ, ◌+◌, ◌-◌, ◌^◌, ◌<◌, true, false, Option, none, some, [], ◌≡◌, refl, sym, ap, ◌∙◌, inl, inr,
  arith, Bool-cases, Option-cases, ltb, leb, if◌then◌else◌,
}
use squashfs_fuse.Data.Read.{Ops, data_read}
use squashfs_fuse.Data.{FileCtx, file_ctx_init}
use squashfs_fuse.Inode.{Inode, is_file}
use squashfs_fuse.Platform.{Platform}
use squashfs_fuse.Result.{Result, ok}
use squashfs_fuse.Superblock.{Superblock}
use squashfs_fuse.Utils.{Bytes, u64}
use squashfs_fuse.Vfs.Ops.{Handle, read}
use squashfs_fuse.Vfs.{Reply, reply}

-- The size that is left of a read up to the end of a file.
abbrev limit : ℕ → ℕ → ℕ → ℕ
limit file_size offset size =
    if ltb file_size (u64 (offset + size)) then file_size - offset else size

data_read-limit :
    {S : Type 0} (p : Platform) (ops : Ops S) (sb : Superblock) (fuel : ℕ) (inode : Inode)
    (ctx : FileCtx) (size limited offset : ℕ) (s : S) (block_buf : Bytes)
    → file_ctx_init sb inode ≡ ok ctx
    → limit ctx.file_size offset size ≡ limited
    → limit ctx.file_size offset limited ≡ limited
    → data_read p ops sb fuel inode offset limited s block_buf
      ≡ data_read p ops sb fuel inode offset size s block_buf
unfolding data_read
data_read-limit p ops sb fuel inode ctx size limited offset s block_buf opened once twice =
    elim (Option-cases (p.malloc ctx.block_size)) [
      | inl refused ↦ rw (data_read, opened, refused, once, twice) refl
      | inr (a, got) ↦ rw (data_read, opened, got, once, twice) refl
    ]

data_read-past :
    {S : Type 0} (p : Platform) (ops : Ops S) (sb : Superblock) (fuel : ℕ) (inode : Inode)
    (ctx : FileCtx) (size offset : ℕ) (s : S) (block_buf : Bytes)
    → is_file inode.type ≡ true
    → file_ctx_init sb inode ≡ ok ctx
    → leb ctx.file_size offset ≡ true
    → data_read p ops sb fuel inode offset size s block_buf ≡ some (s, ok [])
unfolding data_read
data_read-past p ops sb fuel inode ctx size offset s block_buf type opened past =
    rw (data_read, type, opened, past) refl

limit-limit :
    (n offset size : ℕ)
    → leb n offset ≡ false
    → n < 2 ^ 64
    → offset + size < 2 ^ 64
    → limit n offset (limit n offset size) ≡ limit n offset size
limit-limit n offset size within word small = ground arith

-- What a read of the data is as a reply.
abbrev pub replied : {S : Type 0} → Option (S × Result Bytes) → Option (S × Reply Bytes)
replied none = none
replied (some r) = some (r.0, reply r.1)

-- A read of an open file is a read of its data, if its context can be set up, with the size that the
-- handle has, and the range ends below 2 ^ 64: the limit that both put on the size is one and the same.
pub read-data_read :
    {S : Type 0} (p : Platform) (ops : Ops S) (sb : Superblock) (fuel : ℕ) (fh : Handle)
    (ctx : FileCtx) (size offset : ℕ) (s : S) (block_buf : Bytes)
    → is_file fh.inode.type ≡ true
    → file_ctx_init sb fh.inode ≡ ok ctx
    → fh.file_size ≡ ctx.file_size
    → fh.file_size < 2 ^ 64
    → offset + size < 2 ^ 64
    → read p ops sb fuel fh size offset s block_buf
      ≡ replied (data_read p ops sb fuel fh.inode offset size s block_buf)
unfolding read
read-data_read p ops sb fuel fh ctx size offset s block_buf type opened same word small =
    elim (Bool-cases (leb fh.file_size offset)) [
      | inl past ↦
          let past' : leb ctx.file_size offset ≡ true = ap (λ n. leb n offset) (sym same) ∙ past in
          let none_left =
            data_read-past p ops sb fuel fh.inode ctx size offset s block_buf type opened past' in
          rw (read, past, none_left) refl
      | inr within ↦
          let once : limit ctx.file_size offset size ≡ limit fh.file_size offset size =
            ap (λ n. limit n offset size) (sym same) in
          let twice : limit ctx.file_size offset (limit fh.file_size offset size)
              ≡ limit fh.file_size offset size =
            ap (λ n. limit n offset (limit fh.file_size offset size)) (sym same)
            ∙ limit-limit fh.file_size offset size within word small in
          let again =
            data_read-limit p ops sb fuel fh.inode ctx size (limit fh.file_size offset size) offset
              s block_buf opened once twice in
          rw (read, within) (ap replied again)
    ]
