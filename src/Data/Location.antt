-- ===== src/Data/Location.antt =====
-- src/core/data.c, `sqfs_file_block_location` and `sqfs_data_read_block`: the block of a file that is
-- located and read is the one that stands there in the image.
use squashfs_fuse.Common.{
  ℕ, zero, suc, ◌+◌, ◌/◌, ◌%◌, ◌^◌, ◌≤◌, ◌<◌, false, true, List, [], ◌∷◌, ◌++◌, append_assoc, some,
  ◌≡◌, ◌≢◌, refl, sym, ap, ◌∙◌, arith, length, length-append, take, get_elem?, get_elem?-within,
}
use squashfs_fuse.Data.{FileCtx, add_sizes, file_block_location, data_read_block}
use squashfs_fuse.Directory.Table.Chain.{contents}
use squashfs_fuse.Metadata.{read_block_from_disk}
use squashfs_fuse.Metadata.Block.{read_stored}
use squashfs_fuse.Platform.{Platform, Serves}
use squashfs_fuse.Result.{ok}
use squashfs_fuse.Utils.{Bytes, u64, block_size, block_is_uncompressed}
use squashfs_fuse.Utils.Fields.{block_size-eq, block_is_uncompressed-eq}

-- What a list of stored sizes takes in the image.
abbrev pub total : List ℕ → ℕ
total [] = 0
total (x ∷ xs) = x % 2 ^ 24 + total xs

add_sizes-total :
    (n : ℕ) (sizes : List ℕ) (pos : ℕ)
    → n ≤ length sizes
    → pos + total (take n sizes) < 2 ^ 64
    → add_sizes n sizes pos ≡ ok (pos + total (take n sizes))
unfolding add_sizes
add_sizes-total zero sizes pos there small = ap ok (omega arith)
add_sizes-total (suc n) [] pos there small = absurd (omega arith)
add_sizes-total (suc n) (x ∷ xs) pos there small =
    let size = block_size-eq x in
    let step : u64 (pos + block_size x) ≡ pos + x % 2 ^ 24 = omega (arith, size) in
    let rest = add_sizes-total n xs (pos + x % 2 ^ 24) (omega arith) (omega arith) in
    let sum : pos + x % 2 ^ 24 + total (take n xs) ≡ pos + (x % 2 ^ 24 + total (take n xs)) =
      omega arith in
    rw (step, rest) (ap ok sum)

total-take : (n : ℕ) (xs : List ℕ) → total (take n xs) ≤ total xs
total-take zero xs = omega arith
total-take (suc n) [] = omega arith
total-take (suc n) (x ∷ xs) = omega (arith, total-take n xs)

-- A block that is not a hole is located behind all the blocks before it, where the blocks of the
-- file end below 2 ^ 64.
pub file_block_location-total :
    (ctx : FileCtx) (sizes : List ℕ) (i size : ℕ)
    → ctx.block_sizes ≡ some sizes
    → i < ctx.block_count
    → get_elem? sizes i ≡ some size
    → size ≢ 0
    → ctx.blocks_start + total sizes < 2 ^ 64
    → file_block_location ctx i
      ≡ ok (ctx.blocks_start + total (take i sizes), size, block_is_uncompressed size)
unfolding file_block_location
file_block_location-total ctx sizes i size array valid there filled small =
    let within = get_elem?-within sizes there in
    let part = total-take i sizes in
    let summed = add_sizes-total i sizes ctx.blocks_start (omega arith) (omega arith) in
    ground (arith, array, there, summed, filled, valid)

-- Blocks against the sizes that are stored for them; a hole takes no byte.
abbrev pub IsStored : List ℕ → List Bytes → Type 0
IsStored [] [] = Unit
IsStored [] (b ∷ bs) = ⊥
IsStored (x ∷ xs) [] = ⊥
IsStored (x ∷ xs) (b ∷ bs) = (length b ≡ x % 2 ^ 24) × IsStored xs bs

-- The part of the image before block `i`, and the part behind it.
split_at :
    (sizes : List ℕ) (blocks : List Bytes) (i size : ℕ) (b : Bytes)
    → IsStored sizes blocks
    → get_elem? sizes i ≡ some size
    → get_elem? blocks i ≡ some b
    → (front : Bytes) × (back : Bytes) × (contents blocks ≡ front ++ (b ++ back))
      × (length front ≡ total (take i sizes))
      × (length b ≡ size % 2 ^ 24)
split_at [] [] i size c stored e e' = cc
split_at [] (b ∷ bs) i size c stored e e' = absurd stored
split_at (x ∷ xs) [] i size c stored e e' = absurd stored
split_at (x ∷ xs) (b ∷ bs) zero size c stored e e' =
    let is : x ≡ size = ground arith in
    let same : b ≡ c = ground arith in
    ([], contents bs, ap (λ t. t ++ contents bs) same, refl, rw (is, same) at stored.0)
split_at (x ∷ xs) (b ∷ bs) (suc i) size c stored e e' =
    let (front, back, split, before, long) = split_at xs bs i size c stored.1 e e' in
    let joined = append_assoc b front (c ++ back) in
    let size_of = length-append b front in
    (
      b ++ front,
      back,
      ap (λ t. b ++ t) split ∙ sym joined,
      omega (arith, size_of, before, stored.0),
      long,
    )

length-contents :
    (sizes : List ℕ) (blocks : List Bytes)
    → IsStored sizes blocks
    → length (contents blocks) ≡ total sizes
length-contents [] [] stored = refl
length-contents [] (b ∷ bs) stored = absurd stored
length-contents (x ∷ xs) [] stored = absurd stored
length-contents (x ∷ xs) (b ∷ bs) stored =
    omega (arith, length-append b (contents bs), stored.0, length-contents xs bs stored.1)

module _ (p : Platform) {image : Bytes} (s : Serves p image) (ctx : FileCtx) (sizes : List ℕ)
    (blocks : List Bytes) (before after : Bytes) (array : ctx.block_sizes ≡ some sizes)
    (start : ctx.blocks_start ≡ length before)
    (stored : image ≡ before ++ (contents blocks ++ after)) (small : length image < 2 ^ 64)
    (each : IsStored sizes blocks) where
  -- The place of block `i`, and the bytes that are read there.
  located :
      (i size : ℕ) (b : Bytes)
      → i < ctx.block_count
      → get_elem? sizes i ≡ some size
      → get_elem? blocks i ≡ some b
      → 0 < size % 2 ^ 24
      → (pos : ℕ) × (file_block_location ctx i ≡ ok (pos, size, block_is_uncompressed size))
        × (read_block_from_disk p pos (block_size size) ≡ ok b)
        × (length b ≡ size % 2 ^ 24)
  located i size b valid there it filled =
      let (front, back, split, ahead, long) = split_at sizes blocks i size b each there it in
      let all = length-contents sizes blocks each in
      let sum = length-append before (contents blocks ++ after) in
      let sum' = length-append (contents blocks) after in
      let measured = ap length stored in
      let nonzero : size ≢ 0 = λ e. absurd (omega arith) in
      let at = file_block_location-total ctx sizes i size array valid there nonzero (omega arith) in
      let whole : image ≡ (before ++ front) ++ (b ++ (back ++ after)) =
        rw
          (
            stored,
            split,
            append_assoc front (b ++ back) after,
            append_assoc b back after,
            append_assoc before front (b ++ (back ++ after)),
          )
          refl in
      let read = read_stored p s (before ++ front) b (back ++ after) whole (omega arith) in
      let pos : length (before ++ front) ≡ ctx.blocks_start + total (take i sizes) =
        omega (arith, length-append before front) in
      let size_is : length b ≡ block_size size = omega (arith, block_size-eq size) in
      (ctx.blocks_start + total (take i sizes), at, rw (pos, size_is) at read, long)

  -- A block that the image stores uncompressed, as long as its stored size says, and that fits the
  -- buffer, is located and read as it stands.
  pub data_read_block-stored :
      (i size room : ℕ) (b : Bytes)
      → i < ctx.block_count
      → get_elem? sizes i ≡ some size
      → get_elem? blocks i ≡ some b
      → 0 < size % 2 ^ 24
      → size / 2 ^ 24 % 2 ≡ 1
      → length b ≤ room
      → (pos : ℕ) × (file_block_location ctx i ≡ ok (pos, size, true))
        × (data_read_block p pos size room ≡ ok b)
  unfolding data_read_block
  data_read_block-stored i size room b valid there it filled flag fits =
      let (pos, at, read, long) = located i size b valid there it filled in
      let flag_is = block_is_uncompressed-eq size in
      (pos, ground (arith, at, flag_is), ground (arith, read, flag_is))

  -- A block that the image stores compressed, as long as its stored size says and no longer than the
  -- buffer, is located and read as what the codec makes of it.
  pub data_read_block-compressed :
      (i size room : ℕ) (b out : Bytes)
      → i < ctx.block_count
      → get_elem? sizes i ≡ some size
      → get_elem? blocks i ≡ some b
      → 0 < size % 2 ^ 24
      → size / 2 ^ 24 % 2 ≡ 0
      → length b ≤ room
      → p.decompress b room ≡ some out
      → (pos : ℕ) × (file_block_location ctx i ≡ ok (pos, size, false))
        × (data_read_block p pos size room ≡ ok out)
  unfolding data_read_block
  data_read_block-compressed i size room b out valid there it filled flag fits unpacked =
      let (pos, at, read, long) = located i size b valid there it filled in
      let flag_is = block_is_uncompressed-eq size in
      let size_is = block_size-eq size in
      (pos, ground (arith, at, flag_is), ground (arith, read, flag_is, size_is, unpacked))
