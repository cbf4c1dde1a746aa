-- ===== src/Directory.antt =====
-- src/core/directory.h and directory.c, `parse_directory_entries`: the raw bytes of a listing as
-- entries. A pointer is the list of the bytes from it to `end`.
pub mod Listing
pub mod RoundTrip
pub mod Safety
pub mod Table
pub mod Read
use squashfs_fuse.Common.{
  ℕ, zero, suc, ◌+◌, ◌-◌, ◌*◌, ◌^◌, bit_or, ◌&&◌, Option, none, some, List, [], ◌∷◌, ◌++◌, length,
  take, drop, ltb, leb, ◌==◌, if◌then◌else◌,
}
use squashfs_fuse.Inode.Parse.{allocate, view}
use squashfs_fuse.Inode.{InodeType, of_u16}
use squashfs_fuse.Result.{Result, ok, err, fault, bad_dir, ◌>>=◌, ◌>>◌, check}
use squashfs_fuse.Utils.{Bytes, u16, u32, u64, le16_to_cpu, le32_to_cpu}

-- `sqfs_dir_header_t`.
pub record DirHeader : Type 0 where
  pub count : ℕ
  pub start : ℕ
  pub inode_number : ℕ

-- `sqfs_dirent_t`; `name` is the allocated text with its NUL.
pub record Dirent : Type 0 where
  pub name : Bytes
  pub inode_number : ℕ
  pub inode_ref : ℕ
  pub type : InodeType

-- `(int64_t)(int32_t)x` and `(int64_t)(int16_t)x`, as words of 64 bits.
abbrev pub sign_extend_32 : ℕ → ℕ
sign_extend_32 x = if ltb x (2 ^ 31) then x else 2 ^ 64 - 2 ^ 32 + x

abbrev pub sign_extend_16 : ℕ → ℕ
sign_extend_16 x = if ltb x (2 ^ 15) then x else 2 ^ 64 - 2 ^ 16 + x

-- `result`, with `num_entries` for its length, and `capacity`.
pub record Collected : Type 0 where
  pub entries : List Dirent
  pub capacity : ℕ

abbrev pub read_header : Bytes → DirHeader
read_header ptr = record {
  count = le32_to_cpu ptr;
  start = le32_to_cpu (drop 4 ptr);
  inode_number = le32_to_cpu (drop 8 ptr);
}

-- A basic type, 1 to 7.
abbrev pub entry_type : ℕ → Result InodeType
entry_type n =
    if leb 1 n && leb n 7 then elim (of_u16 n) [ none ↦ fault | some t ↦ ok t ] else err bad_dir

module _ (malloc : ℕ → Option ℕ) where
  -- `sqfs_realloc` to the next capacity; an entry has 32 bytes.
  unfoldable pub grow : Collected → Result Collected
  grow c =
      let new_capacity = if c.capacity == 0 then 16 else c.capacity * 2 in
      if leb c.capacity (length c.entries)
      then (allocate malloc (new_capacity * 32) >>= λ _. ok (record c { capacity = new_capacity }))
      else ok c

  -- The body of the loop over the entries of a header.
  unfoldable pub parse_entry : DirHeader → Bytes → Collected → Result (Bytes × Collected)
  parse_entry header ptr c = do
    check (leb 8 (length ptr)) bad_dir
    p ← view ptr 0 8
    let offset = le16_to_cpu p
    let inode_offset = le16_to_cpu (drop 2 p)
    let name_len = u16 (le16_to_cpu (drop 6 p) + 1)
    check (leb (8 + name_len) (length ptr)) bad_dir
    t ← entry_type (le16_to_cpu (drop 4 p))
    grown ← grow c
    _ ← allocate malloc (name_len + 1)
    name ← view ptr 8 name_len
    let dirent : Dirent = record {
      name = take name_len name ++ (0 ∷ []);
      inode_number = u64 (sign_extend_32 header.inode_number + sign_extend_16 inode_offset);
      inode_ref = bit_or (header.start * 2 ^ 16) offset;
      type = t;
    }
    ok (drop (8 + name_len) ptr, record grown { entries = grown.entries ++ (dirent ∷ []) })

  unfoldable pub parse_entries : ℕ → DirHeader → Bytes → Collected → Result (Bytes × Collected)
  parse_entries zero header ptr c = ok (ptr, c)
  parse_entries (suc n) header ptr c = do
    (rest, grown) ← parse_entry header ptr c
    parse_entries n header rest grown

  -- `while (ptr < end)`. Each round takes the 12 bytes of a header at least, so the number of bytes
  -- is enough fuel; without it the result is `fault`.
  unfoldable pub parse_headers : ℕ → Bytes → Collected → Result Collected
  parse_headers fuel [] c = ok c
  parse_headers zero (b ∷ bs) c = fault
  parse_headers (suc fuel) (b ∷ bs) c = do
    check (leb 12 (length (b ∷ bs))) bad_dir
    p ← view (b ∷ bs) 0 12
    let header = read_header p
    (rest, grown) ← parse_entries (u32 (header.count + 1)) header (drop 12 (b ∷ bs)) c
    parse_headers fuel rest grown

  unfoldable pub parse_directory_entries : Bytes → Result (List Dirent)
  unfolding parse_headers
  parse_directory_entries raw = do
    c ← parse_headers (length raw) raw (record { entries = []; capacity = 0 })
    ok c.entries
