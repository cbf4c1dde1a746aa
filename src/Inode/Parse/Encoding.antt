-- ===== src/Inode/Parse/Encoding.antt =====
-- src/core/inode.h, the layouts of the on-disk inodes, as a writer of images would fill them.
use squashfs_fuse.Common.{
  ℕ, ◌+◌, ◌*◌, ◌^◌, ◌≤◌, ◌<◌, List, [], ◌∷◌, ◌≡◌, refl, ap₂, arith, length, drop,
}
use squashfs_fuse.Inode.Parse.{Header, parse_inode_header, view, read_block_sizes}
use squashfs_fuse.Result.{ok}
use squashfs_fuse.Utils.Endian.{put_le16, put_le32, le16_to_cpu-put_le16, le32_to_cpu-put_le32}
use squashfs_fuse.Utils.{Bytes}

pub view_within :
    (buf : Bytes) (offset count : ℕ)
    → offset + count ≤ length buf
    → view buf offset count ≡ ok (drop offset buf)
view_within buf offset count h = ground arith

abbrev pub put_header : Header → Bytes → Bytes
put_header h rest = put_le16 h.type (
    put_le16 h.permissions
      (put_le16 h.uid_idx (put_le16 h.gid_idx (put_le32 h.mtime (put_le32 h.inode_number rest)))))

-- Every field fits its width.
pub record HeaderFits (h : Header) : Type 0 where
  pub type : h.type < 2 ^ 16
  pub permissions : h.permissions < 2 ^ 16
  pub uid_idx : h.uid_idx < 2 ^ 16
  pub gid_idx : h.gid_idx < 2 ^ 16
  pub mtime : h.mtime < 2 ^ 32
  pub inode_number : h.inode_number < 2 ^ 32

pub parse_inode_header-put_header :
    (h : Header) (rest : Bytes) → HeaderFits h → parse_inode_header (put_header h rest) ≡ ok h
unfolding parse_inode_header
parse_inode_header-put_header h rest f =
    let buf = put_header h rest in
    rw (view_within buf 0 16 (omega arith)) (λ i. ok (record {
      type = le16_to_cpu-put_le16 h.type (drop 2 buf) f.type i;
      permissions = le16_to_cpu-put_le16 h.permissions (drop 4 buf) f.permissions i;
      uid_idx = le16_to_cpu-put_le16 h.uid_idx (drop 6 buf) f.uid_idx i;
      gid_idx = le16_to_cpu-put_le16 h.gid_idx (drop 8 buf) f.gid_idx i;
      mtime = le32_to_cpu-put_le32 h.mtime (drop 12 buf) f.mtime i;
      inode_number = le32_to_cpu-put_le32 h.inode_number rest f.inode_number i;
    }))

abbrev pub put_block_sizes : List ℕ → Bytes → Bytes
put_block_sizes [] rest = rest
put_block_sizes (x ∷ xs) rest = put_le32 x (put_block_sizes xs rest)

abbrev pub AllFit : List ℕ → Type 0
AllFit [] = Unit
AllFit (x ∷ xs) = (x < 2 ^ 32) × AllFit xs

pub read_block_sizes-put :
    (xs : List ℕ) (rest : Bytes)
    → AllFit xs
    → read_block_sizes (length xs) (put_block_sizes xs rest) ≡ xs
unfolding read_block_sizes
read_block_sizes-put [] rest f = refl
read_block_sizes-put (x ∷ xs) rest f =
    ap₂ ◌∷◌ (le32_to_cpu-put_le32 x (put_block_sizes xs rest) f.0)
      (read_block_sizes-put xs rest f.1)

pub length-put_block_sizes :
    (xs : List ℕ) (rest : Bytes) → length (put_block_sizes xs rest) ≡ length xs * 4 + length rest
length-put_block_sizes [] rest = omega arith
length-put_block_sizes (x ∷ xs) rest = omega (arith, length-put_block_sizes xs rest)
