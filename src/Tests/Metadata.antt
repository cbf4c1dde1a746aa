-- ===== src/Tests/Metadata.antt =====
-- src/core/data.c, metadata blocks of a small image. The codec of these tests keeps its input.
use squashfs_fuse.Common.{ℕ, ◌≤◌, ◌≡◌, refl, some, arith, length, take, length-take, [], ◌∷◌}
use squashfs_fuse.Metadata.Block
use squashfs_fuse.Metadata.{meta_block_size, meta_read_block}
use squashfs_fuse.Platform.{Platform, Serves}
use squashfs_fuse.Result.{ok}
use squashfs_fuse.Utils.Endian.{put_le16}
use squashfs_fuse.Utils.Pread.{read_image}
use squashfs_fuse.Utils.{Bytes}

abbrev pub platform : Bytes → Platform
platform image = record {
  pread_all = read_image image;
  decompress = λ src room. some (take room src);
  malloc = λ size. some 0x7f0012345678;
}

pub platform-Serves : (image : Bytes) → Serves (platform image) image
platform-Serves image = record {
  reads = λ count offset. refl;
  fits = λ src room out e. fit src room out e;
}
  where
    fit :
        (src : Bytes) (room : ℕ) (out : Bytes) → some (take room src) ≡ some out → length out ≤ room
    fit src room out e =
        let is : take room src ≡ out = ground arith in
        omega (arith, rw is at (length-take room src))

-- Two bytes of padding, a block of three bytes stored as it is, one byte behind it.
abbrev image : Bytes
image = 7 ∷ 7 ∷ put_le16 0x8003 (1 ∷ 2 ∷ 3 ∷ 9 ∷ [])

abbrev packed : Bytes
packed = 7 ∷ 7 ∷ put_le16 0x0003 (1 ∷ 2 ∷ 3 ∷ 9 ∷ [])

meta_read_block-stored_example : meta_read_block (platform image) 2 ≡ ok (1 ∷ 2 ∷ 3 ∷ [])
meta_read_block-stored_example =
    Block.meta_read_block-stored (platform image) (platform-Serves image) (7 ∷ 7 ∷ [])
      (1 ∷ 2 ∷ 3 ∷ []) (9 ∷ []) 0x8003 refl (omega arith) (omega arith) refl (omega arith)
      (omega arith) refl

meta_read_block-compressed_example : meta_read_block (platform packed) 2 ≡ ok (1 ∷ 2 ∷ 3 ∷ [])
meta_read_block-compressed_example =
    Block.meta_read_block-compressed (platform packed) (platform-Serves packed) (7 ∷ 7 ∷ [])
      (1 ∷ 2 ∷ 3 ∷ []) (9 ∷ []) 0x0003 refl (omega arith) (omega arith) refl (omega arith)
      (omega arith) (1 ∷ 2 ∷ 3 ∷ []) 0x7f0012345678 refl refl refl

length-meta_read_block_example : length {A = ℕ} (1 ∷ 2 ∷ 3 ∷ []) ≤ meta_block_size
length-meta_read_block_example =
    Block.length-meta_read_block (platform image) (platform-Serves image) 2
      meta_read_block-stored_example
