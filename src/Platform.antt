-- ===== src/Platform.antt =====
-- What the core takes from outside: the image behind its descriptor, the codec library behind
-- `sqfs_compressor_t` (zlib or zstd), and the C allocator.
use squashfs_fuse.Common.{ℕ, ◌≡◌, ◌≤◌, Option, some, length}
use squashfs_fuse.Result.{Result}
use squashfs_fuse.Utils.Pread.{read_image}
use squashfs_fuse.Utils.{Bytes}

pub record Platform : Type 0 where
  -- `sqfs_pread_all(fd, buf, count, offset)`: the bytes put into `buf`.
  pub pread_all : ℕ → ℕ → Result Bytes
  -- `sqfs_compressor_decompress(comp, src, src_size, dst, dst_size, &out_size)`: the `out_size` bytes
  -- put into `dst`, or `none` for any return code but SQFS_COMP_OK.
  pub decompress : Bytes → ℕ → Option Bytes
  -- The address of a new block of that many bytes, or `none` for NULL.
  pub malloc : ℕ → Option ℕ

-- The reads give the bytes of one image, as `Utils.Pread.pread_all_total` proves of the loop; the
-- codec fills at most the buffer that it is given.
pub record Serves (p : Platform) (image : Bytes) : Type 0 where
  pub reads : (count offset : ℕ) → p.pread_all count offset ≡ read_image image count offset
  pub fits :
      (src : Bytes) (room : ℕ) (out : Bytes) → p.decompress src room ≡ some out → length out ≤ room
