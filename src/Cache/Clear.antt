-- ===== src/Cache/Clear.antt =====
-- src/core/cache.c, `sqfs_cache_init` and `sqfs_cache_clear`: the empty cache.
use squashfs_fuse.Cache.Heap.{Cell, load-nonnull, nonnull-test}
use squashfs_fuse.Cache.Nodes.{nodes, find, first_or, Distinct}
use squashfs_fuse.Cache.Ops.{Allocator, initial_buckets, init, free_loop, clear}
use squashfs_fuse.Cache.Resize.{Table-empty}
use squashfs_fuse.Cache.State.{Represents, SameLimits, Filled}
use squashfs_fuse.Cache.Usage.{Seg, Seg-write}
use squashfs_fuse.Cache.{Ptr, null, Cache, ◌>>=◌, write, free_value, entry_free}
use squashfs_fuse.Common.{
  ℕ, zero, suc, ◌+◌, ◌*◌, ◌^◌, ◌<◌, Bool, true, false, ◌&&◌, none, some, List, [], ◌∷◌, ◌≡◌, refl,
  ap, ◌∙◌, inl, inr, arith, length, replicate, length-replicate, Bool-cases, ltb, ◌==◌,
  if◌then◌else◌,
}
use native.Mathlib.Nat.{pow-succ'}

-- A cache without an entry represents the empty list.
Represents-empty :
    (c : Cache) (exponent width : ℕ)
    → c.head ≡ null
    → c.tail ≡ null
    → c.current_entries ≡ 0
    → c.current_memory ≡ 0
    → c.buckets ≡ replicate width null
    → width ≡ 2 ^ exponent
    → Represents c []
Represents-empty c exponent width head tail entries memory buckets power = record {
  used = record { head = head; tail = tail; linked = tt; distinct = tt };
  chain = λ i. [];
  table = rw buckets (Table-empty c.heap exponent width power);
  entries = entries;
  memory = memory;
  few = ground arith;
  small = ground arith;
  filled = tt;
}

initial_buckets-power : (n most : ℕ) → (k : ℕ) × (initial_buckets n most ≡ 2 ^ k)
initial_buckets-power zero most = (6, refl)
initial_buckets-power (suc n) most =
    let (k, half) = initial_buckets-power n most in
    let b = initial_buckets n most in
    elim (Bool-cases (ltb b most && ltb b 65536)) [
      | inl more ↦ (suc k, rw more (ap (λ x. x * 2) half ∙ omega (arith, pow-succ' 2 k)))
      | inr stop ↦ (k, rw stop half)
    ]

-- A new cache is empty, with a power of two buckets, if it may have an entry at all and there is
-- memory for its array.
pub init_lem :
    (m : Allocator) (max_entries max_memory : ℕ) (has_free_fn : Bool)
    → 0 < max_entries
    → m.array (initial_buckets 10 max_entries) ≡ true
    → (c : Cache) × (init m max_entries max_memory has_free_fn ≡ some c)
      × Represents c []
      × (c.max_entries ≡ max_entries)
      × (c.max_memory ≡ max_memory)
      × (c.freed ≡ [])
unfolding init
init_lem m max_entries max_memory has_free_fn positive given =
    let c : Cache = record {
      max_entries = max_entries;
      current_entries = 0;
      max_memory = max_memory;
      current_memory = 0;
      head = null;
      tail = null;
      has_free_fn = has_free_fn;
      buckets = replicate (initial_buckets 10 max_entries) null;
      hits = 0;
      misses = 0;
      heap = λ a. none;
      freed = [];
    } in
    let (k, power) = initial_buckets-power 10 max_entries in
    let some_there : (max_entries == 0) ≡ false = ground arith in
    (
      c,
      rw (init, some_there, given) refl,
      Represents-empty c k (initial_buckets 10 max_entries) refl refl refl refl refl power,
      refl,
      refl,
      refl,
    )

-- Values that were freed from the head on, before those that were freed earlier.
abbrev pub freed_from_head : Bool → List Ptr → List Cell → List Ptr
freed_from_head has earlier [] = earlier
freed_from_head has earlier (x ∷ xs) =
    freed_from_head has (if has then x.value ∷ earlier else earlier) xs

-- Two caches that differ in their heap and in what was freed.
abbrev SameButHeap : Cache → Cache → Type 0
SameButHeap c c' = SameLimits c c' × (length c'.buckets ≡ length c.buckets)

free_loop_lem :
    (fuel : ℕ) (c : Cache) (prev : Ptr) (xs : List Cell)
    → Seg c.heap prev xs null
    → Distinct (nodes xs)
    → Filled xs
    → length xs < fuel
    → (c' : Cache) × (free_loop fuel c (first_or null (nodes xs)) ≡ some c')
      × SameLimits c c'
      × (c'.freed ≡ freed_from_head c.has_free_fn c.freed xs)
unfolding free_loop
free_loop_lem zero c prev xs linked distinct filled enough = absurd (omega arith)
free_loop_lem (suc fuel) c prev [] linked distinct filled enough =
    (c, refl, (refl, refl, refl), refl)
free_loop_lem (suc fuel) c prev (x ∷ xs) (at, linked) (out, distinct) (filled, more) enough =
    let (e, there, (key, value, size, before, next)) = at in
    let known = nonnull-test x.addr (load-nonnull c.heap x.addr there) in
    let h = write c.heap x.addr none in
    let c₁ = record c { freed = free_value c e.value; heap = h } in
    let given : entry_free c x.addr ≡ some c₁ = unfold entry_free in rw (there, ◌>>=◌) refl in
    let linked₁ =
      Seg-write c.heap x.addr x.addr null e xs none there (ap (λ k. find k (nodes xs)) key ∙ out)
        linked in
    let (c', run, limits, freed) =
      free_loop_lem fuel c₁ x.addr xs linked₁ distinct more (omega arith) in
    let value_freed : free_value c e.value
        ≡ (if c.has_free_fn then x.value ∷ c.freed else c.freed) =
      ap (free_value c) value ∙ ground arith in
    (
      c',
      rw (free_loop, known, there, ◌>>=◌, given, ◌>>=◌, next) run,
      limits,
      freed ∙ ap (λ f. freed_from_head c.has_free_fn f xs) value_freed,
    )

-- Clearing a cache never faults and ends: every value is freed once, from the head of the list of use
-- on, and the cache is empty, with as many buckets as before.
pub clear_lem :
    (c : Cache) (xs : List Cell)
    → Represents c xs
    → (c' : Cache) × (clear c ≡ some c')
      × Represents c' []
      × SameLimits c c'
      × (length c'.buckets ≡ length c.buckets)
      × (c'.freed ≡ freed_from_head c.has_free_fn c.freed xs)
unfolding clear
clear_lem c xs rep =
    let (r, run, limits, freed) =
      free_loop_lem (c.current_entries + 1) c null xs rep.used.linked rep.used.distinct rep.filled
        (omega (arith, rep.entries)) in
    let start = ap (free_loop (c.current_entries + 1) c) rep.used.head in
    let ran = start ∙ run in
    let c' = record r {
      buckets = replicate (length c.buckets) null;
      head = null;
      tail = null;
      current_entries = 0;
      current_memory = 0;
    } in
    (
      c',
      rw (clear, ran) refl,
      Represents-empty c' rep.table.exponent (length c.buckets) refl refl refl refl refl
          rep.table.width,
      limits,
      length-replicate (length c.buckets) null,
      freed,
    )
