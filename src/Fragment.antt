-- ===== src/Fragment.antt =====
-- src/core/fragment.{h,c}: the fragment table and the reading of fragment blocks, in which the tails
-- of files are packed together. `fragment_read` shares a cache with the data blocks.
pub mod Table
pub mod Tail
pub mod File
pub mod Collision
use squashfs_fuse.Common.{
  ℕ, zero, suc, ◌+◌, ◌-◌, ◌*◌, ◌/◌, ◌^◌, min, bit_and, Bool, false, true, not, ◌&&◌, Option, none,
  some, [], ◌++◌, length, take, drop, replicate, ltb, leb, ◌==◌, if◌then◌else◌,
}
use squashfs_fuse.Data.Read.{Ops}
use squashfs_fuse.Data.{fragment_is_none}
use squashfs_fuse.Metadata.{meta_block_size, meta_read_block, allocate, decompress}
use squashfs_fuse.Platform.{Platform}
use squashfs_fuse.Result.{Result, ok, err, fault, corrupt, not_found, ◌>>=◌, ◌>>◌, check}
use squashfs_fuse.Superblock.{Superblock}
use squashfs_fuse.Utils.{Bytes, u32, le32_to_cpu, le64_to_cpu}

-- `sqfs_frag_entry_t`, 16 bytes in the table.
pub record FragEntry : Type 0 where
  pub start : ℕ
  pub size : ℕ
  pub unused : ℕ

-- `sqfs_fragment_table_t`. The array is the bytes that were copied into it.
pub record FragTable : Type 0 where
  pub entries : Option Bytes
  pub count : ℕ
  pub loaded : Bool

abbrev pub entries_per_block : ℕ
entries_per_block = 512

abbrev pub entry_size : ℕ
entry_size = 16

-- `sqfs_fragment_table_init`, `sqfs_fragment_table_destroy`.
abbrev pub table_init : FragTable
table_init = record { entries = none; count = 0; loaded = false }

unfoldable pub table_destroy : FragTable → FragTable
table_destroy table = record { entries = none; count = 0; loaded = false }

-- An element of the array, on a little-endian machine.
unfoldable pub entry_at : Bytes → FragEntry
entry_at bytes = record {
  start = le64_to_cpu bytes;
  size = le32_to_cpu (drop 8 bytes);
  unused = le32_to_cpu (drop 12 bytes);
}

-- `memcpy(&entries[i], ...)`, by the offset in bytes.
unfoldable pub copy_entries : Bytes → ℕ → Bytes → Bytes
copy_entries entries offset part =
    take offset entries ++ (part ++ drop (offset + length part) entries)

-- `sqfs_fragment_is_uncompressed`, `sqfs_fragment_size`.
unfoldable pub fragment_is_uncompressed : ℕ → Bool
fragment_is_uncompressed size = not (bit_and size (2 ^ 24) == 0)

unfoldable pub fragment_size : ℕ → ℕ
fragment_size size = bit_and size 0x00ffffff

-- `sqfs_fragment_cache_key`, `sqfs_data_block_cache_key`: both in the same cache.
abbrev pub fragment_cache_key : ℕ → ℕ
fragment_cache_key frag_idx = frag_idx

abbrev pub data_block_cache_key : ℕ → ℕ
data_block_cache_key block_pos = block_pos

module _ (p : Platform) where
  -- The bytes of the index, and the number of blocks that it lists.
  unfoldable pub read_fragment_table_index : ℕ → ℕ → Result (Bytes × ℕ)
  read_fragment_table_index table_pos frag_count =
      if frag_count == 0
      then ok ([], 0)
      else (let num_blocks = u32 (frag_count + (entries_per_block - 1)) / entries_per_block in
          let index_size = num_blocks * 8 in
          allocate p index_size >>= λ _.
          p.pread_all index_size table_pos >>= λ index. ok (index, num_blocks))

  -- The blocks that are left, `n` of them, and the index from the first of these on.
  unfoldable pub load_loop : ℕ → Bytes → ℕ → ℕ → Bytes → Result Bytes
  unfolding copy_entries
  load_loop zero index frag_count entries_read entries = ok entries
  load_loop (suc n) index frag_count entries_read entries = do
    block ← meta_read_block p (le64_to_cpu index)
    let in_block = min (u32 (frag_count + 2 ^ 32 - entries_read)) entries_per_block
    let copy_size = in_block * entry_size
    check (leb copy_size (length block)) corrupt
    load_loop n (drop 8 index) frag_count (u32 (entries_read + in_block))
        (copy_entries entries (entries_read * entry_size) (take copy_size block))

  unfoldable pub load_fragment_entries : Bytes → ℕ → ℕ → Bytes → Result Bytes
  unfolding load_loop
  load_fragment_entries index num_blocks frag_count entries =
      allocate p meta_block_size >>= λ _. load_loop num_blocks index frag_count 0 entries

  -- The array of a table of `frag_count` entries.
  unfoldable pub load_entries : Superblock → ℕ → Result Bytes
  unfolding load_fragment_entries read_fragment_table_index
  load_entries sb frag_count = do
    _ ← allocate p (frag_count * entry_size)
    (index, num_blocks) ← read_fragment_table_index sb.disk.frag_table frag_count
    let zeros = replicate (frag_count * entry_size) 0
    if ltb 0 num_blocks then load_fragment_entries index num_blocks frag_count zeros else ok zeros

  -- `sqfs_fragment_table_load`: the table, and what is returned.
  unfoldable pub table_load : Superblock → FragTable → FragTable × Result (Unit {0})
  table_load sb table =
      if table.loaded
      then (table, ok tt)
      else if not sb.has_fragments
      then (record { entries = none; count = 0; loaded = true }, ok tt)
      else if sb.disk.frag_count == 0
      then (record { entries = none; count = 0; loaded = true }, ok tt)
      else elim (load_entries sb sb.disk.frag_count) [
        | ok entries ↦
            (record { entries = some entries; count = sb.disk.frag_count; loaded = true }, ok tt)
        | err e ↦ (record table { entries = none }, err e)
        | fault ↦ (record table { entries = none }, fault)
      ]

-- `sqfs_fragment_get_entry`. `none` is NULL: an image without fragments has no table.
unfoldable pub get_entry : Option FragTable → ℕ → Result FragEntry
get_entry none idx = fault
get_entry (some table) idx =
    if not table.loaded
    then err corrupt
    else if leb table.count idx
    then err not_found
    else elim table.entries [
      | none ↦ fault
      | some entries ↦ ok (entry_at (drop (idx * entry_size) entries))
    ]

-- `sqfs_fragment_index_valid`.
unfoldable pub index_valid : Option FragTable → ℕ → Result Bool
index_valid none idx = fault
index_valid (some table) idx = ok (table.loaded && ltb idx table.count)

-- `sqfs_fragment_location`.
unfoldable pub location : Option FragTable → ℕ → Result (ℕ × ℕ)
unfolding get_entry
location table frag_idx =
    if fragment_is_none frag_idx
    then err not_found
    else (get_entry table frag_idx >>= λ entry.
        check (not ((entry.start == 0) && (entry.size == 0))) corrupt
        >> ok (entry.start, entry.size))

-- `sqfs_fragment_read_block`: what it puts at the start of the buffer of a block's size. A block that
-- is stored uncompressed is read whole, and overflows a shorter buffer.
unfoldable pub read_block : Platform → Superblock → Option FragTable → ℕ → Result Bytes
unfolding location
read_block p sb table frag_idx = do
  (block_pos, stored) ← location table frag_idx
  let actual_size = fragment_size stored
  let room = sb.disk.block_size
  if fragment_is_uncompressed stored
      then (p.pread_all actual_size block_pos >>= λ bytes.
          if leb (length bytes) room then ok bytes else fault)
      else ((if ltb actual_size room then ok 0 else allocate p actual_size) >>= λ _.
          p.pread_all actual_size block_pos >>= λ src. decompress p src room)

-- The cache of data blocks and fragments, by the data of its entries: `sqfs_cache_get`, and
-- `sqfs_cache_put` with the size that the caller claims.
pub record DataCache (S : Type 0) : Type 0 where
  pub get : S → ℕ → S × Option Bytes
  pub put : S → ℕ → Bytes → ℕ → S

-- `sizeof(sqfs_fragment_t)`, `sizeof(sqfs_data_block_entry_t)`.
abbrev pub cached_size : ℕ
cached_size = 32

-- What is copied of a block: zeros stand for an offset behind its data.
unfoldable pub copy_out : ℕ → ℕ → ℕ → Bytes → Bytes
copy_out room offset size bytes =
    if ltb (length bytes) offset
    then replicate (min size (room - offset)) 0
    else take (min (length bytes - offset) size) (drop offset bytes)

module _ {S : Type 0} (p : Platform) (cache : DataCache S) (sb : Superblock)
    (table : Option FragTable) where
  -- A block that is not cached.
  unfoldable pub read_uncached : S → ℕ → ℕ → ℕ → S × Result Bytes
  unfolding read_block copy_out
  read_uncached s frag_idx offset size =
      let room = sb.disk.block_size in
      let read : Result Bytes = do
        _ ← allocate p cached_size
        _ ← allocate p room
        read_block p sb table frag_idx
      in elim read [
        | ok bytes ↦ (
          cache.put s (fragment_cache_key frag_idx) bytes (cached_size + room),
          ok (copy_out room offset size bytes),
        )
        | err e ↦ (s, err e)
        | fault ↦ (s, fault)
      ]

  -- `sqfs_fragment_read`.
  unfoldable pub fragment_read : S → ℕ → ℕ → ℕ → S × Result Bytes
  unfolding read_uncached copy_out
  fragment_read s frag_idx offset size =
      let room = sb.disk.block_size in
      let found = cache.get s (fragment_cache_key frag_idx) in
      if fragment_is_none frag_idx
      then (s, err not_found)
      else if leb room offset
      then (s, err corrupt)
      else elim found.1 [
        | some bytes ↦ (found.0, ok (copy_out room offset size bytes))
        | none ↦ read_uncached found.0 frag_idx offset size
      ]

  -- The storing of a data block: nothing if an entry for it cannot be made.
  unfoldable pub put_block : S → ℕ → Bytes → S
  put_block s block_pos bytes =
      let entry = p.malloc cached_size in
      let room = p.malloc (length bytes) in
      elim entry [
        | none ↦ s
        | some _ ↦ elim room [
          | none ↦ s
          | some _ ↦ cache.put s (data_block_cache_key block_pos) bytes (cached_size + length bytes)
        ]
      ]

  -- What `sqfs_data_read` uses.
  abbrev pub data_ops : Ops S
  data_ops = record {
    get = λ s block_pos. cache.get s (data_block_cache_key block_pos);
    put = put_block;
    fragment_read = fragment_read;
  }
