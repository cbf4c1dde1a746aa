-- ===== src/Tests/Cache.antt =====
-- src/core/cache.c, a cache of at most two entries, through a few calls.
use squashfs_fuse.Cache.Access.Get
use squashfs_fuse.Cache.Access.Remove
use squashfs_fuse.Cache.Access.{counted}
use squashfs_fuse.Cache.Calls.Run
use squashfs_fuse.Cache.Calls.Step.{Returns}
use squashfs_fuse.Cache.Calls.{Call, call_get, call_put, run, IsSound, IsCache}
use squashfs_fuse.Cache.Clear
use squashfs_fuse.Cache.Evict
use squashfs_fuse.Cache.Put
use squashfs_fuse.Cache.Put.New
use squashfs_fuse.Cache.Clear.{init_lem, freed_from_head}
use squashfs_fuse.Cache.Evict.{IsLongest, Evicted, freed_from_end}
use squashfs_fuse.Cache.Heap.{Cell}
use squashfs_fuse.Cache.Ops.{
  Allocator, Status, done, init, get_find, get_touch, get, put, put_new, remove, clear, evict,
}
use squashfs_fuse.Cache.Put.New.{put-new, HasRoom}
use squashfs_fuse.Cache.State.{Represents, SameLimits}
use squashfs_fuse.Cache.{
  Ptr, null, Entry, Heap, Cache, load, write, cache_hash, slot, entry_free, hash_find, hash_insert,
  hash_remove, lru_remove, hash_unlink, unlink_prev, unlink_next, lru_insert_head,
}
use squashfs_fuse.Common.{
  ◌≤◌, true, false, Option, some, none, List, [], ◌∷◌, ◌++◌, length, replicate, ◌≡◌, ◌≢◌, ◌==◌,
  false, refl, sym, ap, subst, ◌∙◌, arith, inl, inr, Option-cases,
}

-- Three addresses for entries.
abbrev malloc : Heap → Option Ptr
malloc h = elim (h 1) [
  | none ↦ some 1
  | some e ↦ elim (h 2) [ none ↦ some 2 | some e ↦ elim (h 3) [ none ↦ some 3 | some e ↦ none ] ]
]

abbrev pub platform : Allocator
platform = record { entry = malloc; array = λ n. true }

abbrev pub empty : Cache
empty = record {
  max_entries = 2;
  current_entries = 0;
  max_memory = 100;
  current_memory = 0;
  head = null;
  tail = null;
  has_free_fn = true;
  buckets = replicate 64 null;
  hits = 0;
  misses = 0;
  heap = λ a. none;
  freed = [];
}

empty_run : init platform 2 100 true ≡ some empty
unfolding init
empty_run = refl

same_cache : (c c' : Cache) → some c ≡ some c' → c ≡ c'
same_cache c c' h = ground (arith, h)

empty-Represents : Represents empty []
empty-Represents =
    let (c, run, rep, most, memory, freed) = init_lem platform 2 100 true (omega arith) refl in
    subst (λ t. Represents t []) (same_cache c empty (sym run ∙ empty_run)) rep

abbrev after : Option (Cache × Status) → Cache
after none = empty
after (some (c, s)) = c

abbrev one : Cache
one = after (put platform empty 7 50 10)

one_run : put platform empty 7 50 10 ≡ some (one, done)
unfolding put put_new evict hash_find hash_insert lru_insert_head load write slot cache_hash
one_run = refl

nothing_before : (ys rest : List Cell) → [] ≡ ys ++ rest → ys ≡ []
nothing_before [] rest h = refl
nothing_before (x ∷ ys) rest h = cc

same_cell :
    (x y : Cell) → x.addr ≡ y.addr → x.key ≡ y.key → x.value ≡ y.value → x.size ≡ y.size → x ≡ y
same_cell x y a k v s = ground (arith, a, k, v, s)

same_some : {A : Type 0} → (c c' : A) → some c ≡ some c' → c ≡ c'
same_some c c' h = ground (arith, h)

empty_room : HasRoom platform empty 10
unfolding evict load
empty_room r h =
    let is : empty ≡ r = same_some empty r h in
    subst (λ t. (a : Ptr) × (malloc t.heap ≡ some a) × (a ≢ null) × (load t.heap a ≡ none)) is
      (1, refl, (λ e. omega (arith, e)), refl)

one_head : one.head ≡ 1
unfolding put hash_find slot cache_hash hash_insert load write lru_insert_head
one_head = refl

-- The entry that the first call puts.
abbrev first : Cell
first = record { addr = 1; key = 7; value = 50; size = 10 }

one-Represents : Represents one (first ∷ [])
one-Represents =
    let (c, x, ys, rest, run, key, value, size, parts, longest, rep, limits, freed, few, small) =
      put-new platform empty [] 7 50 10 empty_room empty-Represents (λ e. omega (arith, e))
        (omega arith) (omega arith) (omega arith) refl (omega arith) in
    let cache = ap after (sym run ∙ one_run) in
    let rep' = subst (λ t. Represents t (x ∷ ys)) cache rep in
    let here = same_cell x first (sym rep'.used.head ∙ one_head) key value size in
    subst (λ z. Represents one (z ∷ [])) here
      (subst (λ t. Represents one (x ∷ t)) (nothing_before ys rest parts) rep')

one_limits : (one.max_entries ≡ 2) × (one.max_memory ≡ 100) × (one.has_free_fn ≡ true)
unfolding put hash_find slot cache_hash hash_insert load write lru_insert_head
one_limits = (refl, refl, refl)

get_lem_example :
    (c' : Cache) × (get one 7 ≡ some (c', 50))
    × Represents c' (first ∷ [])
    × SameLimits one c'
    × (c'.freed ≡ one.freed)
    × (c'.hits ≡ counted true one.hits)
    × (c'.misses ≡ counted false one.misses)
get_lem_example = Get.get_lem one (first ∷ []) 7 one-Represents

get-remove_between_example :
    (c₁ : Cache) × (c₂ : Cache) × (c₃ : Cache) × (get_find one 7 ≡ some (c₁, some 50))
    × (remove c₁ 7 ≡ some c₂)
    × (get_touch c₂ 7 ≡ some c₃)
    × Represents c₃ []
    × (c₃.freed ≡ 50 ∷ one.freed)
get-remove_between_example =
    Get.get-remove_between one (first ∷ []) 7 one-Represents refl one_limits.2

remove_lem_example :
    (c' : Cache) × (remove one 7 ≡ some c')
    × Represents c' []
    × SameLimits one c'
    × (c'.freed ≡ freed_from_end one.has_free_fn one.freed (first ∷ []))
remove_lem_example = Remove.remove_lem one (first ∷ []) 7 one-Represents

clear_lem_example :
    (c' : Cache) × (clear one ≡ some c')
    × Represents c' []
    × SameLimits one c'
    × (length c'.buckets ≡ length one.buckets)
    × (c'.freed ≡ freed_from_head one.has_free_fn one.freed (first ∷ []))
clear_lem_example = Clear.clear_lem one (first ∷ []) one-Represents

evict_lem_example : (c' : Cache) × (evict one 95 ≡ some c') × Evicted one 95 (first ∷ []) c'
evict_lem_example = Evict.evict_lem one 95 (first ∷ []) one-Represents

put-existing_example :
    (c' : Cache) × (x : Cell) × (put platform one 7 60 20 ≡ some (c', done))
    × (x.key ≡ 7)
    × (x.value ≡ 60)
    × (x.size ≡ 20)
    × Represents c' (x ∷ [])
    × SameLimits one c'
    × (c'.freed ≡ freed_from_end one.has_free_fn one.freed (first ∷ []))
put-existing_example =
    Put.put-existing platform one (first ∷ []) 7 60 20 one-Represents (λ e. omega (arith, e))
      (omega (arith, one_limits.1)) refl (omega arith)

abbrev evicted : Option Cache → Cache
evicted none = empty
evicted (some c) = c

abbrev gone : Cache
gone = evicted (evict one 95)

gone_run : (evict one 95 ≡ some gone) × (malloc gone.heap ≡ some 1) × (load gone.heap 1 ≡ none)
unfolding evict put hash_find slot cache_hash hash_insert hash_remove lru_remove entry_free load
    write lru_insert_head hash_unlink unlink_prev unlink_next
gone_run = (refl, refl, refl)

one_room : HasRoom platform one 95
one_room r h =
    let is : gone ≡ r = same_some gone r (sym gone_run.0 ∙ h) in
    subst (λ t. (a : Ptr) × (malloc t.heap ≡ some a) × (a ≢ null) × (load t.heap a ≡ none)) is
      (1, gone_run.1, (λ e. omega (arith, e)), gone_run.2)

put-new_example :
    (c' : Cache) × (x : Cell) × (ys : List Cell) × (rest : List Cell) × (put platform one 9 60 95
      ≡ some (c', done))
    × (x.key ≡ 9)
    × (x.value ≡ 60)
    × (x.size ≡ 95)
    × (first ∷ [] ≡ ys ++ rest)
    × IsLongest one.max_entries one.max_memory 95 ys rest
    × Represents c' (x ∷ ys)
    × SameLimits one c'
    × (c'.freed ≡ freed_from_end one.has_free_fn one.freed rest)
    × (c'.current_entries ≤ one.max_entries)
    × (c'.current_memory ≤ one.max_memory)
put-new_example =
    New.put-new platform one (first ∷ []) 9 60 95 one_room one-Represents (λ e. omega (arith, e))
      (omega (arith, one_limits.1)) (omega (arith, one_limits.0)) (omega (arith, one_limits.0)) refl
      (omega arith)

malloc_first : (h : Heap) → h 1 ≡ none → malloc h ≡ some 1
malloc_first h first = rw (malloc, first) refl

malloc_second : (h : Heap) (e : Entry) → h 1 ≡ some e → h 2 ≡ none → malloc h ≡ some 2
malloc_second h e used second = rw (malloc, used, second) refl

malloc_third :
    (h : Heap) (e e' : Entry) → h 1 ≡ some e → h 2 ≡ some e' → h 3 ≡ none → malloc h ≡ some 3
malloc_third h e e' used also third = rw (malloc, used, also, third) refl

malloc_none :
    (h : Heap) (e e' e'' : Entry) → h 1 ≡ some e → h 2 ≡ some e' → h 3 ≡ some e'' → malloc h ≡ none
malloc_none h e e' e'' used also all = rw (malloc, used, also, all) refl

no_some : (a : Ptr) → none ≡ some a → ⊥
no_some a h = cc

malloc_free : (h : Heap) (a : Ptr) → malloc h ≡ some a → ((a == null) ≡ false) × (h a ≡ none)
malloc_free h a given = elim (Option-cases (h 1)) [
  | inl first ↦
      let is : 1 ≡ a = same_some 1 a (sym (malloc_first h first) ∙ given) in
      subst (λ t. ((t == null) ≡ false) × (h t ≡ none)) is (refl, first)
  | inr (e, used) ↦ elim (Option-cases (h 2)) [
    | inl second ↦
        let is : 2 ≡ a = same_some 2 a (sym (malloc_second h e used second) ∙ given) in
        subst (λ t. ((t == null) ≡ false) × (h t ≡ none)) is (refl, second)
    | inr (e', also) ↦ elim (Option-cases (h 3)) [
      | inl third ↦
          let is : 3 ≡ a = same_some 3 a (sym (malloc_third h e e' used also third) ∙ given) in
          subst (λ t. ((t == null) ≡ false) × (h t ≡ none)) is (refl, third)
      | inr (e'', all) ↦ absurd (no_some a (sym (malloc_none h e e' e'' used also all) ∙ given))
    ]
  ]
]

pub malloc-IsSound : IsSound platform
unfolding load
malloc-IsSound h a given =
    let (known, free) = malloc_free h a given in (λ e. ground (arith, e, known), rw known free)

two_calls : List Call
two_calls = call_put 7 50 10 ∷ call_put 9 60 95 ∷ call_get 9 ∷ []

pub empty-IsCache : IsCache empty []
empty-IsCache = record {
  represents = empty-Represents;
  within = omega arith;
  sizes = tt;
  some_entry = omega arith;
  word = omega arith;
  sums = omega arith;
}

run-Returns_example : Returns empty [] (run platform empty two_calls)
run-Returns_example = Run.run-Returns platform empty [] two_calls malloc-IsSound refl empty-IsCache
