-- ===== src/Cache/Put/New.antt =====
-- src/core/cache.c, `sqfs_cache_put` of a key that the cache does not have.
use squashfs_fuse.Cache.Access.{has_key, not_found, unknown_address}
use squashfs_fuse.Cache.Buckets.Insert.{hash_insert_lem}
use squashfs_fuse.Cache.Buckets.Table.{update, Table-SameHash}
use squashfs_fuse.Cache.Evict.{fits, IsLongest, evict_lem, freed_from_end}
use squashfs_fuse.Cache.Heap.{Cell, load-write_self, load-write_ne, SameLru, SameHash}
use squashfs_fuse.Cache.Nodes.{nodes, find, nodes-append, find-append_none}
use squashfs_fuse.Cache.Ops.{Allocator, done, put, put_new, evict, resize_if_needed}
use squashfs_fuse.Cache.Resize.{resize_lem}
use squashfs_fuse.Cache.State.{
  Represents, SameLimits, SameLimits-trans, total_size, addresses, Table-ext, IsUsed-SameLru,
}
use squashfs_fuse.Cache.Usage.Insert.{lru_insert_head_lem}
use squashfs_fuse.Cache.{
  Ptr, null, Entry, Heap, Cache, ◌>>=◌, load, write, new_entry, hash_insert, lru_insert_head,
}
use squashfs_fuse.Common.{
  ℕ, ◌+◌, ◌^◌, ◌≤◌, ◌<◌, false, Option, some, none, List, [], ◌∷◌, ◌++◌, ◌≡◌, ◌≢◌, refl, sym, ap,
  ◌∙◌, inl, inr, arith, length, ltb, leb, ◌==◌,
}
use squashfs_fuse.Utils.{u64}

-- malloc has memory for the entry that follows an eviction, at an address that no other entry has.
abbrev pub HasRoom : Allocator → Cache → ℕ → Type 0
HasRoom m c needed =
    (r : Cache)
    → evict c needed ≡ some r
    → (a : Ptr) × (m.entry r.heap ≡ some a) × (a ≢ null) × (load r.heap a ≡ none)

-- What is there before a new entry is there after it.
fresh_write :
    (h : Heap) (a : Ptr) (c : Option Entry)
    → load h a ≡ none
    → SameLru h (write h a c) × SameHash h (write h a c)
fresh_write h a c free = (
  λ b e there. (e, there_still b e there, (refl, refl, refl, refl, refl)),
  λ b e there. (e, there_still b e there, (refl, refl)),
)
  where
    there_still : (b : Ptr) (e : Entry) → load h b ≡ some e → load (write h a c) b ≡ some e
    there_still b e there =
        load-write_ne h a b c (λ same. ground (arith, sym free ∙ ap (load h) (sym same) ∙ there))
        ∙ there

-- The new entry in the table and at the head of the list of use.
inserted :
    (c : Cache) (ys : List Cell) (key : ℕ) (value : Ptr) (size : ℕ) (a : Ptr)
    → Represents c ys
    → a ≢ null
    → load c.heap a ≡ none
    → addresses ys key ≡ none
    → value ≢ null
    → length ys + 1 < 2 ^ 64
    → total_size ys + size < 2 ^ 64
    → (c₁ : Cache) × (c₂ : Cache) × (hash_insert
          (record c { heap = write c.heap a (some (new_entry key value size)) })
          a
        ≡ some c₁)
      × (lru_insert_head c₁ a ≡ some c₂)
      × (let c₃ = record c₂ {
        current_entries = u64 (c₂.current_entries + 1);
        current_memory = u64 (c₂.current_memory + size);
      } in
          let x : Cell = record { addr = a; key = key; value = value; size = size } in
          Represents c₃ (x ∷ ys) × SameLimits c c₃ × (c₃.freed ≡ c.freed))
inserted c ys key value size a rep ne free absent filled few small =
    let entry = new_entry key value size in
    let x : Cell = record { addr = a; key = key; value = value; size = size } in
    let g₀ = write c.heap a (some entry) in
    let c₀ = record c { heap = g₀ } in
    let (same_lru, same_hash) = fresh_write c.heap a (some entry) free in
    let t₀ =
      Table-SameHash c.heap c.buckets (addresses ys) (length ys) rep.chain rep.table g₀ same_hash in
    let used₀ = IsUsed-SameLru c g₀ c.buckets ys same_lru rep.used in
    let there = load-write_self c.heap a (some entry) ne in
    let (g₁, buckets, chain, run₁, same₁, t₁) =
      hash_insert_lem c₀ (addresses ys) (length ys) rep.chain a entry t₀ there absent in
    let c₁ = record c₀ { heap = g₁; buckets = buckets } in
    let used₁ = IsUsed-SameLru c₀ g₁ buckets ys same₁ used₀ in
    let (e₁, there₁, (key₁, value₁, size₁, prev₁, next₁)) = same₁ a entry there in
    let (g₂, tail, run₂, same₂, used₂) =
      lru_insert_head_lem c₁ x e₁ ys there₁ key₁ value₁ size₁ absent used₁ in
    let c₂ = record c₁ { heap = g₂; head = a; tail = tail } in
    let t₂ =
      Table-SameHash g₁ buckets (update (addresses ys) key (some a)) (length ys + 1) chain t₁ g₂
        same₂ in
    let is : (k : ℕ) → update (addresses ys) key (some a) k ≡ addresses (x ∷ ys) k =
      λ k. ground arith in
    let entries = rep.entries in
    let memory = rep.memory in
    (
      c₁,
      c₂,
      run₁,
      run₂,
      (
        record {
          used = record {
            head = used₂.head;
            tail = used₂.tail;
            linked = used₂.linked;
            distinct = used₂.distinct;
          };
          chain = chain;
          table =
              Table-ext g₂ buckets (update (addresses ys) key (some a)) (addresses (x ∷ ys))
                (length ys + 1) (length (x ∷ ys)) chain is (omega arith) t₂;
          entries = omega arith;
          memory = omega arith;
          few = omega arith;
          small = omega arith;
          filled = (filled, rep.filled);
        },
        (refl, refl, refl),
        refl,
      ),
    )

put_new_run :
    (m : Allocator) (c r c₁ c₂ c' : Cache) (key : ℕ) (value : Ptr) (size : ℕ) (a : Ptr)
    → evict c size ≡ some r
    → leb r.max_entries r.current_entries ≡ false
    → m.entry r.heap ≡ some a
    → hash_insert (record r { heap = write r.heap a (some (new_entry key value size)) }) a ≡ some c₁
    → lru_insert_head c₁ a ≡ some c₂
    → resize_if_needed m (record c₂ {
      current_entries = u64 (c₂.current_entries + 1);
      current_memory = u64 (c₂.current_memory + size);
    })
      ≡ some c'
    → put_new m c key value size ≡ some (c', done)
unfolding put_new
put_new_run m c r c₁ c₂ c' key value size a evicted room given hashed listed resized =
    rw (put_new, evicted, ◌>>=◌, room, given, hashed, ◌>>=◌, listed, ◌>>=◌, resized) refl

total-append : (xs ys : List Cell) → total_size (xs ++ ys) ≡ total_size xs + total_size ys
total-append [] ys = omega arith
total-append (x ∷ xs) ys = omega (arith, total-append xs ys)

-- What the eviction leaves has room for one entry more.
within_limits :
    (max_entries max_memory size : ℕ) (ys rest : List Cell)
    → 0 < max_entries
    → size ≤ max_memory
    → total_size ys + size < 2 ^ 64
    → IsLongest max_entries max_memory size ys rest
    → (length ys < max_entries) × (total_size ys + size ≤ max_memory)
within_limits max_entries max_memory size ys rest some_there small sum longest = elim longest.0 [
  | inl empty ↦
      let none_there : length ys ≡ 0 = ap length empty in
      let nothing : total_size ys ≡ 0 = ap total_size empty in (omega arith, omega arith)
  | inr room ↦
      let is : u64 (total_size ys + size) ≡ total_size ys + size = omega arith in
      (ground (arith, room), ground (arith, room, is))
]

-- Putting a key that the cache does not have never fails, if the value is not NULL and no larger than
-- the limit, malloc has room for an entry, there may be entries at all, and neither their number nor
-- the sizes with the new one reach 2 ^ 64. The longest part of the entries that were used last stays
-- that leaves room for the new one; the others go, and their values are freed, the one that was used
-- longest ago first. The new entry is the one that was used last, and the cache is within both of
-- its limits.
pub put-new :
    (m : Allocator) (c : Cache) (xs : List Cell) (key : ℕ) (value : Ptr) (size : ℕ)
    → HasRoom m c size
    → Represents c xs
    → value ≢ null
    → size ≤ c.max_memory
    → 0 < c.max_entries
    → c.max_entries < 2 ^ 64
    → has_key key xs ≡ false
    → total_size xs + size < 2 ^ 64
    → (c' : Cache) × (x : Cell) × (ys : List Cell) × (rest : List Cell) × (put m c key value size
        ≡ some (c', done))
      × (x.key ≡ key)
      × (x.value ≡ value)
      × (x.size ≡ size)
      × (xs ≡ ys ++ rest)
      × IsLongest c.max_entries c.max_memory size ys rest
      × Represents c' (x ∷ ys)
      × SameLimits c c'
      × (c'.freed ≡ freed_from_end c.has_free_fn c.freed rest)
      × (c'.current_entries ≤ c.max_entries)
      × (c'.current_memory ≤ c.max_memory)
unfolding put
put-new m c xs key value size malloc rep filled fits some_there word unknown sum =
    let absent = unknown_address xs key unknown in
    let (r, evicted, ev) = evict_lem c size xs rep in
    let total = total-append ev.ys ev.rest in
    let all = ap total_size ev.parts in
    let (few, small) =
      within_limits c.max_entries c.max_memory size ev.ys ev.rest some_there fits (omega arith)
        ev.longest in
    let left = ev.left in
    let entries = left.entries in
    let limits = ev.limits in
    let room : leb r.max_entries r.current_entries ≡ false = ground arith in
    let (a, given, ne, free) = malloc r evicted in
    let out : addresses ev.ys key ≡ none =
      (find-append_none key (nodes ev.ys) (nodes ev.rest) (
        ap (find key) (sym (nodes-append ev.ys ev.rest))
        ∙ ap (λ t. addresses t key) (sym ev.parts)
        ∙ absent)).0 in
    let (c₁, c₂, hashed, listed, (rep₃, limits₃, freed₃)) =
      inserted r ev.ys key value size a left ne free out filled (omega arith) (omega arith) in
    let c₃ = record c₂ {
      current_entries = u64 (c₂.current_entries + 1);
      current_memory = u64 (c₂.current_memory + size);
    } in
    let x : Cell = record { addr = a; key = key; value = value; size = size } in
    let (c', resized, rep', limits', freed') = resize_lem m c₃ (x ∷ ev.ys) rep₃ in
    let start : (value == null) ≡ false = ground arith in
    let not_big : ltb c.max_memory size ≡ false = ground arith in
    let missing = not_found c xs key rep absent in
    let run =
      put_new_run m c r c₁ c₂ c' key value size a evicted room given hashed listed resized in
    let entries' = rep'.entries in
    let memory' = rep'.memory in
    (
      c',
      x,
      ev.ys,
      ev.rest,
      rw (put, start, not_big, missing, ◌>>=◌) run,
      refl,
      refl,
      refl,
      ev.parts,
      ev.longest,
      rep',
      SameLimits-trans c c₃ c' (SameLimits-trans c r c₃ limits limits₃) limits',
      freed' ∙ freed₃ ∙ ev.freed,
      omega arith,
      omega arith,
    )
