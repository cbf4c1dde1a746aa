-- ===== src/Utils/Image.antt =====
-- Reading parts of an image, as `sqfs_pread_all` gives them.
use squashfs_fuse.Common.{
  ℕ, ◌≡◌, ◌∙◌, ap, ◌++◌, arith, length, drop, take, length-append, length-slice, drop-append,
  take-append,
}
use squashfs_fuse.Result.{ok}
use squashfs_fuse.Utils.Pread.{read_image}
use squashfs_fuse.Utils.{Bytes}

-- A read that stays within the image delivers as many bytes as were asked.
pub length-read_image :
    (image : Bytes) (count offset : ℕ) {bytes : Bytes}
    → read_image image count offset ≡ ok bytes
    → length bytes ≡ count
unfolding read_image
length-read_image image count offset h = ground (arith, length-slice image offset count)

-- What stands behind `before` in the image.
pub read_image-append :
    (before part after : Bytes)
    → read_image (before ++ (part ++ after)) (length part) (length before) ≡ ok part
unfolding read_image
read_image-append before part after =
    let there : take (length part) (drop (length before) (before ++ (part ++ after))) ≡ part =
      ap (take (length part)) (drop-append before (part ++ after)) ∙ take-append part after in
    ground (arith, there, length-append before (part ++ after), length-append part after)
