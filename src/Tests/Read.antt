-- ===== src/Tests/Read.antt =====
-- src/core/data.c, a read that goes over a stored block, a hole and a compressed block, with a cache
-- of one block.
use squashfs_fuse.Common.{
  ℕ, zero, suc, false, true, ◌≡◌, refl, sym, ◌∙◌, arith, [], ◌∷◌, List, Option, none, some, inl,
  inr, get_elem?, ◌==◌, if◌then◌else◌,
}
use squashfs_fuse.Data.Layout.{context}
use squashfs_fuse.Data.Read.Cached.{IsCache}
use squashfs_fuse.Data.Read.Range.{IsBlock}
use squashfs_fuse.Data.Read.{Ops}
use squashfs_fuse.Data.{FileCtx, file_block_location, add_sizes, data_read_block}
use squashfs_fuse.Inode.{Inode, FileData, file, file_body}
use squashfs_fuse.Metadata.{read_block_from_disk}
use squashfs_fuse.Result.{err, io}
use squashfs_fuse.Superblock.{Superblock, zero_superblock, zero_disk}
use squashfs_fuse.Tests.Metadata.{platform}
use squashfs_fuse.Utils.Pread.{read_image}
use squashfs_fuse.Utils.{Bytes, block_size, block_is_uncompressed}

abbrev pub held_at : ℕ → Bytes
held_at pos = if pos == 1 then 1 ∷ 2 ∷ 3 ∷ 4 ∷ [] else 5 ∷ []

abbrev pub Slot : Type 0
Slot = Option (ℕ × Bytes)

abbrev pub get : Slot → ℕ → Slot × Option Bytes
get none pos = (none, none)
get (some (key, bytes)) pos = (some (key, bytes), if key == pos then some bytes else none)

abbrev pub ops : Ops Slot
ops = record {
  get = get;
  put = λ s pos bytes. some (pos, bytes);
  fragment_read = λ s idx offset size. (s, err io);
}

abbrev pub Coherent : Slot → Type 0
Coherent none = Unit
Coherent (some (key, bytes)) = bytes ≡ held_at key

pub get_keeps : (s : Slot) (pos : ℕ) → Coherent s → Coherent (get s pos).0
get_keeps none pos c = c
get_keeps (some (key, bytes)) pos c = c

pub get_true :
    (s : Slot) (pos : ℕ) (bytes : Bytes)
    → Coherent s
    → (get s pos).1 ≡ some bytes
    → bytes ≡ held_at pos
get_true none pos bytes c e = cc
get_true (some (key, kept)) pos bytes c e =
    let same : key ≡ pos = ground arith in
    let is : kept ≡ bytes = ground arith in rw same at (sym is ∙ c)

pub slot-IsCache : IsCache ops held_at Coherent
slot-IsCache = record { get_keeps = get_keeps; get_true = get_true; put_keeps = λ s pos c. refl }

abbrev pub sb : Superblock
sb = record zero_superblock { disk = record zero_disk { block_size = 4 } }

abbrev nine_bytes : FileData
nine_bytes = record {
  blocks_start = 1;
  file_size = 9;
  sparse = 4;
  frag_idx = 0xffffffff;
  block_offset = 0;
  block_count = 3;
  xattr_idx = 0xffffffff;
}

abbrev pub inode : Inode
inode = record {
  inode_number = 2;
  type = file;
  permissions = 0x1a4;
  uid = 0;
  gid = 0;
  mtime = 0;
  link_count = 1;
  body = file_body nine_bytes;
  block_sizes = some (0x01000004 ∷ 0 ∷ 1 ∷ []);
}

abbrev pub image : Bytes
image = 9 ∷ 1 ∷ 2 ∷ 3 ∷ 4 ∷ 5 ∷ 7 ∷ []

abbrev pub blocks : List Bytes
blocks = (1 ∷ 2 ∷ 3 ∷ 4 ∷ []) ∷ (0 ∷ 0 ∷ 0 ∷ 0 ∷ []) ∷ (5 ∷ []) ∷ []

abbrev pub ctx : FileCtx
ctx = context sb inode nine_bytes 3

pub each :
    (i : ℕ) (b : Bytes)
    → get_elem? blocks i ≡ some b
    → IsBlock (platform image) ops ctx slot-IsCache blocks i b
unfolding file_block_location add_sizes data_read_block read_block_from_disk read_image block_size
    block_is_uncompressed
each zero b e = inr (1, 0x01000004, true, refl, omega arith, refl, ground arith)
each (suc zero) b e =
    let is : 0 ∷ 0 ∷ 0 ∷ 0 ∷ [] ≡ b = ground arith in inl (0, false, refl, rw (← is) refl)
each (suc (suc zero)) b e = inr (5, 1, false, refl, omega arith, refl, ground arith)
each (suc (suc (suc i))) b e = cc
