-- ===== src/Cache.antt =====
-- src/core/cache.{h,c}: a cache of values by 64-bit keys, as a hash table with chains and a doubly
-- linked list in the order of use, over one heap of entries. The lock makes each operation one step.
pub mod Ops
pub mod Heap
pub mod Nodes
pub mod Usage
pub mod Buckets
pub mod State
pub mod Drop
pub mod Resize
pub mod Evict
pub mod Access
pub mod Put
pub mod Clear
pub mod Calls
use squashfs_fuse.Common.{
  ℕ, zero, suc, ◌+◌, ◌-◌, ◌*◌, ◌/◌, ◌%◌, ◌^◌, bit_and, Bool, true, false, Option, none, some, List,
  [], ◌∷◌, length, get_elem?, set, replicate, ltb, leb, ◌==◌, if◌then◌else◌,
}
use squashfs_fuse.Utils.{u64}
use Prim.Native.Nat.{bit_xor}

abbrev pub Ptr : Type 0
Ptr = ℕ

abbrev pub null : Ptr
null = 0

-- `struct cache_entry`. A value is the pointer that the caller gave.
pub record Entry : Type 0 where
  pub key : ℕ
  pub value : Ptr
  pub memory_size : ℕ
  pub prev : Ptr
  pub next : Ptr
  pub hnext : Ptr

abbrev pub Heap : Type 0
Heap = Ptr → Option Entry

-- `sqfs_cache_t`, with the heap that its pointers lead into, and the values that were handed to
-- `free_fn`, the last one first. `bucket_count` is the length of the array, `bucket_mask` one less.
pub record Cache : Type 0 where
  pub max_entries : ℕ
  pub current_entries : ℕ
  pub max_memory : ℕ
  pub current_memory : ℕ
  pub head : Ptr
  pub tail : Ptr
  pub has_free_fn : Bool
  pub buckets : List Ptr
  pub hits : ℕ
  pub misses : ℕ
  pub heap : Heap
  pub freed : List Ptr

-- Where an operation is `none`, it follows NULL or a pointer to no entry, or its fuel ran out.
infixl 5 ◌>>=◌
abbrev pub ◌>>=◌ : {A B : Type 0} → Option A → (A → Option B) → Option B
none >>= next = none
some x >>= next = next x

unfoldable pub load : Heap → Ptr → Option Entry
load h a = if a == null then none else h a

unfoldable pub write : Heap → Ptr → Option Entry → Heap
write h a cell b = if b == a then cell else h b

-- One round of FNV-1a.
abbrev pub mix : ℕ → ℕ → ℕ
mix hash byte = u64 (bit_xor hash byte * 1099511628211)

unfoldable pub cache_hash : ℕ → ℕ
cache_hash key =
    let at = λ (shift : ℕ). bit_and (key / 2 ^ shift) 0xff in
    mix
      (mix
        (mix
          (mix (mix (mix (mix (mix 14695981039346656037 (at 56)) (at 48)) (at 40)) (at 32)) (at 24))
          (at 16))
        (at 8))
      (at 0)

-- `hash & cache->bucket_mask`.
unfoldable pub slot : List Ptr → ℕ → ℕ
slot buckets key = bit_and (cache_hash key) (length buckets - 1)

-- `cache_entry_new` at the address that malloc gives.
abbrev pub new_entry : ℕ → Ptr → ℕ → Entry
new_entry key value memory_size = record {
  key = key;
  value = value;
  memory_size = memory_size;
  prev = null;
  next = null;
  hnext = null;
}

-- What `free_fn` is called with.
abbrev pub free_value : Cache → Ptr → List Ptr
free_value c value =
    if c.has_free_fn then (if value == null then c.freed else value ∷ c.freed) else c.freed

unfoldable pub entry_free : Cache → Ptr → Option Cache
entry_free c a = do
  e ← load c.heap a
  some (record c { freed = free_value c e.value; heap = write c.heap a none })

unfoldable pub lru_insert_head : Cache → Ptr → Option Cache
lru_insert_head c a = do
  e ← load c.heap a
  let h = write c.heap a (some (record e { prev = null; next = c.head }))
  if c.head == null
      then some (record c { heap = h; head = a; tail = a })
      else (load h c.head >>= λ old.
          some (record c { heap = write h c.head (some (record old { prev = a })); head = a }))

-- `entry->prev->next = entry->next`, or the head.
unfoldable pub unlink_prev : Cache → Ptr → Option Cache
unlink_prev c a = do
  e ← load c.heap a
  if e.prev == null
      then some (record c { head = e.next })
      else (load c.heap e.prev >>= λ before.
          some (record c { heap = write c.heap e.prev (some (record before { next = e.next })) }))

-- `entry->next->prev = entry->prev`, or the tail.
unfoldable pub unlink_next : Cache → Ptr → Option Cache
unlink_next c a = do
  e ← load c.heap a
  if e.next == null
      then some (record c { tail = e.prev })
      else (load c.heap e.next >>= λ behind.
          some (record c { heap = write c.heap e.next (some (record behind { prev = e.prev })) }))

unfoldable pub lru_remove : Cache → Ptr → Option Cache
lru_remove c a = do
  c₁ ← unlink_prev c a
  c₂ ← unlink_next c₁ a
  e ← load c₂.heap a
  some (record c₂ { heap = write c₂.heap a (some (record e { prev = null; next = null })) })

unfoldable pub lru_move_to_head : Cache → Ptr → Option Cache
lru_move_to_head c a =
    if c.head == a then some c else (lru_remove c a >>= λ removed. lru_insert_head removed a)

-- The walk along a chain; NULL if the key is not in it.
unfoldable pub find_loop : ℕ → Heap → Ptr → ℕ → Option Ptr
find_loop zero h a key = none
find_loop (suc fuel) h a key = elim (a == null) [
  | true ↦ some null
  | false ↦
      load h a >>= λ e. elim (e.key == key) [ true ↦ some a | false ↦ find_loop fuel h e.hnext key ]
]

-- No chain has more entries than the cache.
unfoldable pub hash_find : Cache → ℕ → Option Ptr
unfolding find_loop
hash_find c key = do
  first ← get_elem? c.buckets (slot c.buckets key)
  find_loop (c.current_entries + 1) c.heap first key

unfoldable pub hash_insert : Cache → Ptr → Option Cache
hash_insert c a = do
  e ← load c.heap a
  first ← get_elem? c.buckets (slot c.buckets e.key)
  some (record c {
    heap = write c.heap a (some (record e { hnext = first }));
    buckets = set c.buckets (slot c.buckets e.key) a;
  })

-- `prev->hnext = entry->hnext`, or the bucket; `entry->hnext = NULL`.
unfoldable pub hash_unlink : Cache → ℕ → Ptr → Ptr → Option Cache
hash_unlink c idx prev a = do
  e ← load c.heap a
  c₁ ←
      (if prev == null
        then some (record c { buckets = set c.buckets idx e.hnext })
        else (load c.heap prev >>= λ before.
            some
              (record c { heap = write c.heap prev (some (record before { hnext = e.hnext })) })))
  e₁ ← load c₁.heap a
  some (record c₁ { heap = write c₁.heap a (some (record e₁ { hnext = null })) })

unfoldable pub remove_loop : ℕ → Cache → ℕ → Ptr → Ptr → ℕ → Option Cache
remove_loop zero c idx prev a key = none
remove_loop (suc fuel) c idx prev a key = elim (a == null) [
  | true ↦ some c
  | false ↦ load c.heap a >>= λ e. elim (e.key == key) [
    | true ↦ hash_unlink c idx prev a
    | false ↦ remove_loop fuel c idx a e.hnext key
  ]
]

unfoldable pub hash_remove : Cache → ℕ → Option Cache
unfolding remove_loop
hash_remove c key = do
  let idx = slot c.buckets key
  first ← get_elem? c.buckets idx
  remove_loop (c.current_entries + 1) c idx null first key
