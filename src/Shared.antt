-- ===== src/Shared.antt =====
-- The cache that fragments and data blocks share: src/core/cache.c under the calls of src/core/fragment.c
-- and src/core/data.c, with the objects that its values point to.
pub mod Coherent
pub mod Reads
use squashfs_fuse.Cache.Ops.{Allocator, get, put}
use squashfs_fuse.Cache.{Ptr, null, Cache}
use squashfs_fuse.Common.{ℕ, Option, none, some, ◌==◌, if◌then◌else◌}
use squashfs_fuse.Fragment.{DataCache}
use squashfs_fuse.Utils.{Bytes}

-- `ctx->data_cache`, and the data of the object at an address: `data_size` bytes behind `data`, of a
-- `sqfs_fragment_t` or a `sqfs_data_block_entry_t`.
pub record Store : Type 0 where
  pub cache : Cache
  pub text : Ptr → Bytes

-- The object of a value that the cache gives. Where a stray pointer is followed, nothing.
unfoldable pub store_get : Store → ℕ → Store × Option Bytes
store_get s key = elim (get s.cache key) [
  | none ↦ (s, none)
  | some r ↦ (record s { cache = r.0 }, if r.1 == null then none else some (s.text r.1))
]

-- An object with the data, at the address that malloc gave for it, is put, whatever the cache returns.
unfoldable pub store_put : Allocator → (Cache → Ptr) → Store → ℕ → Bytes → ℕ → Store
store_put m object s key bytes claimed =
    let value = object s.cache in
    elim (put m s.cache key value claimed) [
      | none ↦ s
      | some r ↦ record { cache = r.0; text = λ a. if a == value then bytes else s.text a }
    ]

abbrev pub store_cache : Allocator → (Cache → Ptr) → DataCache Store
store_cache m object = record { get = store_get; put = store_put m object }
