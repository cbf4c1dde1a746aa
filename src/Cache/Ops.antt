-- ===== src/Cache/Ops.antt =====
-- src/core/cache.c, the operations of a cache.
use squashfs_fuse.Common.{
  ℕ, zero, suc, ◌+◌, ◌-◌, ◌*◌, ◌^◌, Bool, true, false, ◌&&◌, Option, none, some, [], length,
  replicate, ltb, leb, ◌==◌, if◌then◌else◌,
}
use squashfs_fuse.Cache.{
  Ptr, null, Heap, Cache, ◌>>=◌, load, write, new_entry, free_value, entry_free, lru_insert_head,
  lru_remove, lru_move_to_head, hash_find, hash_insert, hash_remove,
}
use squashfs_fuse.Utils.{u64}

-- `malloc` of an entry, given what is in use, and whether `calloc` of an array succeeds.
pub record Allocator : Type 0 where
  pub entry : Heap → Option Ptr
  pub array : ℕ → Bool

-- 0, or -1 with errno.
pub data Status : Type 0 where
  done einval e2big enospc enomem : Status

-- `while (entry)`, over the list from the head: each entry goes into its bucket.
unfoldable pub rehash : ℕ → Cache → Ptr → Option Cache
rehash zero c a = none
rehash (suc fuel) c a = elim (a == null) [
  | true ↦ some c
  | false ↦ hash_insert c a >>= λ put. load put.heap a >>= λ e. rehash fuel put e.next
]

-- A load of three quarters is the limit; the product with 0.75 as a double is exact below 2 ^ 51 buckets.
-- Nothing changes if the new array is not to be had.
unfoldable pub resize_if_needed : Allocator → Cache → Option Cache
unfolding rehash
resize_if_needed m c =
    let new_count = u64 (length c.buckets * 2) in
    if leb (c.current_entries * 4) (length c.buckets * 3)
    then some c
    else if ltb new_count (length c.buckets)
    then some c
    else if m.array new_count
    then rehash (c.current_entries + 1) (record c { buckets = replicate new_count null }) c.head
    else some c

-- One round of `cache_evict`: the tail goes.
unfoldable pub evict_tail : Cache → Option Cache
evict_tail c = do
  victim ← load c.heap c.tail
  c₁ ← hash_remove c victim.key
  c₂ ← lru_remove c₁ c.tail
  entry_free
      (record c₂ {
        current_entries = u64 (c₂.current_entries + 2 ^ 64 - 1);
        current_memory = u64 (c₂.current_memory + 2 ^ 64 - victim.memory_size);
      })
      c.tail

unfoldable pub evict_loop : ℕ → Cache → ℕ → Option Cache
unfolding evict_tail
evict_loop zero c needed = none
evict_loop (suc fuel) c needed = elim (c.tail == null) [
  | true ↦ some c
  | false ↦
      elim (ltb c.current_entries c.max_entries
        && leb (u64 (c.current_memory + needed)) c.max_memory) [
          | true ↦ some c
          | false ↦ evict_tail c >>= λ less. evict_loop fuel less needed
        ]
]

unfoldable pub evict : Cache → ℕ → Option Cache
unfolding evict_loop
evict c needed = evict_loop (c.current_entries + 1) c needed

-- `sqfs_cache_init`; `none` is the return of -1.
abbrev pub initial_buckets : ℕ → ℕ → ℕ
initial_buckets zero max_entries = 64
initial_buckets (suc n) max_entries =
    let half = initial_buckets n max_entries in
    if ltb half max_entries && ltb half 65536 then half * 2 else half

unfoldable pub init : Allocator → ℕ → ℕ → Bool → Option Cache
init m max_entries max_memory has_free_fn =
    let bucket_count = initial_buckets 10 max_entries in
    if max_entries == 0
    then none
    else if m.array bucket_count
    then some (record {
      max_entries = max_entries;
      current_entries = 0;
      max_memory = max_memory;
      current_memory = 0;
      head = null;
      tail = null;
      has_free_fn = has_free_fn;
      buckets = replicate bucket_count null;
      hits = 0;
      misses = 0;
      heap = λ a. none;
      freed = [];
    })
    else none

-- `sqfs_cache_get` under the lock for reading: the value that is found, if one is.
unfoldable pub get_find : Cache → ℕ → Option (Cache × Option Ptr)
get_find c key = do
  a ← hash_find c key
  if a == null
      then some (record c { misses = u64 (c.misses + 1) }, none)
      else (load c.heap a >>= λ e. some (record c { hits = u64 (c.hits + 1) }, some e.value))

-- Under the lock for writing, which is taken after the other one was given back.
unfoldable pub get_touch : Cache → ℕ → Option Cache
get_touch c key = do a ← hash_find c key; if a == null then some c else lru_move_to_head c a

-- The whole of it, when no other thread comes between the two locks.
unfoldable pub get : Cache → ℕ → Option (Cache × Ptr)
get c key = do
  (counted, found) ← get_find c key
  elim found [
    | none ↦ some (counted, null)
    | some value ↦ get_touch counted key >>= λ moved. some (moved, value)
  ]

-- A key that is there: the old value is freed.
unfoldable pub put_existing : Cache → Ptr → Ptr → ℕ → Option Cache
put_existing c a value memory_size = do
  e ← load c.heap a
  lru_move_to_head
      (record c {
        current_memory = u64 (u64 (c.current_memory + 2 ^ 64 - e.memory_size) + memory_size);
        freed = free_value c e.value;
        heap = write c.heap a (some (record e { value = value; memory_size = memory_size }));
      })
      a

unfoldable pub put_new : Allocator → Cache → ℕ → Ptr → ℕ → Option (Cache × Status)
unfolding evict resize_if_needed
put_new m c key value memory_size = do
  room ← evict c memory_size
  if leb room.max_entries room.current_entries
      then some (room, enospc)
      else elim (m.entry room.heap) [
        | none ↦ some (room, enomem)
        | some a ↦ do
          let entry = new_entry key value memory_size
          hashed ← hash_insert (record room { heap = write room.heap a (some entry) }) a
          listed ← lru_insert_head hashed a
          resized ← resize_if_needed m (record listed {
            current_entries = u64 (listed.current_entries + 1);
            current_memory = u64 (listed.current_memory + memory_size);
          })
          some (resized, done)
      ]

-- `sqfs_cache_put`.
unfoldable pub put : Allocator → Cache → ℕ → Ptr → ℕ → Option (Cache × Status)
unfolding put_existing put_new
put m c key value memory_size =
    if value == null
    then some (c, einval)
    else if ltb c.max_memory memory_size
    then some (c, e2big)
    else (hash_find c key >>= λ a.
        if a == null
        then put_new m c key value memory_size
        else (put_existing c a value memory_size >>= λ updated. some (updated, done)))

-- `sqfs_cache_remove`.
unfoldable pub remove : Cache → ℕ → Option Cache
remove c key = do
  a ← hash_find c key
  if a == null
      then some c
      else (load c.heap a >>= λ e. hash_remove c key >>= λ c₁. lru_remove c₁ a >>= λ c₂.
          entry_free
            (record c₂ {
              current_entries = u64 (c₂.current_entries + 2 ^ 64 - 1);
              current_memory = u64 (c₂.current_memory + 2 ^ 64 - e.memory_size);
            })
            a)

-- The loop of `sqfs_cache_destroy` and `sqfs_cache_clear`.
unfoldable pub free_loop : ℕ → Cache → Ptr → Option Cache
free_loop zero c a = none
free_loop (suc fuel) c a = elim (a == null) [
  | true ↦ some c
  | false ↦ load c.heap a >>= λ e. entry_free c a >>= λ less. free_loop fuel less e.next
]

-- `sqfs_cache_clear`.
unfoldable pub clear : Cache → Option Cache
unfolding free_loop
clear c = do
  empty ← free_loop (c.current_entries + 1) c c.head
  some (record empty {
    buckets = replicate (length c.buckets) null;
    head = null;
    tail = null;
    current_entries = 0;
    current_memory = 0;
  })
