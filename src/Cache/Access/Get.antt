-- ===== src/Cache/Access/Get.antt =====
-- src/core/cache.c, `sqfs_cache_get` on what the cache represents, with and without another thread
-- between its two locks.
use squashfs_fuse.Cache.Access.{
  value_of, front, take_out, has_key, at_none, locate, at_key, not_found, unknown_address, counted,
  counted_Represents, move_Represents,
}
use squashfs_fuse.Cache.Access.Remove.{remove_lem}
use squashfs_fuse.Cache.Evict.{freed_from_end}
use squashfs_fuse.Cache.Heap.{Cell}
use squashfs_fuse.Cache.Nodes.{Distinct, nodes}
use squashfs_fuse.Cache.Ops.{get_find, get_touch, get, remove}
use squashfs_fuse.Cache.State.{Represents, SameLimits, SameLimits-trans, addresses}
use squashfs_fuse.Cache.{Ptr, Cache, ◌>>=◌}
use squashfs_fuse.Common.{
  ℕ, ◌+◌, true, not, Option, some, none, List, [], ◌∷◌, ◌++◌, ◌≡◌, refl, sym, ap, ap₂, subst, ◌∙◌,
  inl, inr, arith, Bool-cases, Option-cases, ◌==◌, if◌then◌else◌,
}
use squashfs_fuse.Utils.{u64}

-- Under the lock for reading: the value of the key, and a hit or a miss.
abbrev pub found_value : ℕ → List Cell → Option Ptr
found_value key xs = if has_key key xs then some (value_of key xs) else none

pub get_find_lem :
    (c : Cache) (xs : List Cell) (key : ℕ)
    → Represents c xs
    → (c' : Cache) × (get_find c key ≡ some (c', found_value key xs))
      × Represents c' xs
      × SameLimits c c'
      × (c'.freed ≡ c.freed)
      × (c'.hits ≡ counted (has_key key xs) c.hits)
      × (c'.misses ≡ counted (not (has_key key xs)) c.misses)
unfolding get_find
get_find_lem c xs key rep = elim (Option-cases (addresses xs key)) [
  | inl absent ↦
      let none_there = at_none xs key absent in
      let missing = not_found c xs key rep absent in
      let unknown = none_there.known in
      (
        record c { misses = u64 (c.misses + 1) },
        rw (get_find, missing, ◌>>=◌, unknown) refl,
        counted_Represents c xs c.hits (u64 (c.misses + 1)) rep,
        (refl, refl, refl),
        refl,
        sym (ap (λ b. counted b c.hits) unknown),
        sym (ap (λ b. counted (not b) c.misses) unknown),
      )
  | inr (a, there) ↦
      let at = locate c xs key a rep there in
      let here = at_key c xs key at in
      let found = at.found in
      let loaded = at.there in
      let not_null = at.known in
      let known = here.known in
      let value : at.e.value ≡ value_of key xs = at.fields.1 ∙ sym here.value in
      (
        record c { hits = u64 (c.hits + 1) },
        rw (get_find, found, ◌>>=◌, not_null, loaded, ◌>>=◌, known, value) refl,
        counted_Represents c xs (u64 (c.hits + 1)) c.misses rep,
        (refl, refl, refl),
        refl,
        sym (ap (λ b. counted b c.hits) known),
        sym (ap (λ b. counted (not b) c.misses) known),
      )
]

-- Under the lock for writing: the entry of the key, if it is still there, becomes the one that was used
-- last.
pub get_touch_lem :
    (c : Cache) (xs : List Cell) (key : ℕ)
    → Represents c xs
    → (c' : Cache) × (get_touch c key ≡ some c')
      × Represents c' (front key xs ++ take_out key xs)
      × SameLimits c c'
      × (c'.freed ≡ c.freed)
      × (c'.hits ≡ c.hits)
      × (c'.misses ≡ c.misses)
unfolding get_touch
get_touch_lem c xs key rep = elim (Option-cases (addresses xs key)) [
  | inl absent ↦
      let none_there = at_none xs key absent in
      let missing = not_found c xs key rep absent in
      (
        c,
        rw (get_touch, missing, ◌>>=◌) refl,
        subst (Represents c) (sym (ap₂ ◌++◌ none_there.entry none_there.others)) rep,
        (refl, refl, refl),
        refl,
        refl,
        refl,
      )
  | inr (a, there) ↦
      let at = locate c xs key a rep there in
      let here = at_key c xs key at in
      let (g, head, tail, run, rep') =
        move_Represents c at.x at.pre at.post (subst (Represents c) at.parts rep) in
      let c' = record c { heap = g; head = head; tail = tail } in
      let found = at.found in
      let not_null = at.known in
      (
        c',
        rw (get_touch, found, ◌>>=◌, not_null) run,
        subst (Represents c') (sym (ap₂ ◌++◌ here.entry here.others)) rep',
        (refl, refl, refl),
        refl,
        refl,
        refl,
      )
]

-- A lookup never faults. It gives the value that the cache has for the key, or NULL, counts a hit or
-- a miss, and leaves the entries as they were but for their order: the entry of the key is the one
-- that was used last. Nothing is freed.
pub get_lem :
    (c : Cache) (xs : List Cell) (key : ℕ)
    → Represents c xs
    → (c' : Cache) × (get c key ≡ some (c', value_of key xs))
      × Represents c' (front key xs ++ take_out key xs)
      × SameLimits c c'
      × (c'.freed ≡ c.freed)
      × (c'.hits ≡ counted (has_key key xs) c.hits)
      × (c'.misses ≡ counted (not (has_key key xs)) c.misses)
unfolding get
get_lem c xs key rep =
    let (c₁, run₁, rep₁, limits₁, freed₁, hits₁, misses₁) = get_find_lem c xs key rep in
    elim (Bool-cases (has_key key xs)) [
      | inl known ↦
          let (c₂, run₂, rep₂, limits₂, freed₂, hits₂, misses₂) = get_touch_lem c₁ xs key rep₁ in
          (
            c₂,
            rw (get, run₁, ◌>>=◌, known, run₂, ◌>>=◌) refl,
            rep₂,
            SameLimits-trans c c₁ c₂ limits₁ limits₂,
            freed₂ ∙ freed₁,
            hits₂ ∙ hits₁,
            misses₂ ∙ misses₁,
          )
      | inr unknown ↦
          let none_there = at_none xs key (unknown_address xs key unknown) in
          let value = none_there.value in
          (
            c₁,
            rw (get, run₁, ◌>>=◌, unknown, value) refl,
            subst (Represents c₁) (sym (ap₂ ◌++◌ none_there.entry none_there.others)) rep₁,
            limits₁,
            freed₁,
            hits₁,
            misses₁,
          )
    ]

taken_out :
    (xs : List Cell) (key : ℕ) → Distinct (nodes xs) → addresses (take_out key xs) key ≡ none
taken_out [] key d = refl
taken_out (x ∷ xs) key d = elim (Bool-cases (x.key == key)) [
  | inl here ↦
      let is : x.key ≡ key = ground arith in rw here (ap (λ k. addresses xs k) (sym is) ∙ d.0)
  | inr other ↦ rw (other, other) (taken_out xs key d.1)
]

front-freed :
    (xs : List Cell) (key : ℕ) (earlier : List Ptr)
    → has_key key xs ≡ true
    → freed_from_end true earlier (front key xs) ≡ value_of key xs ∷ earlier
front-freed [] key earlier known = cc
front-freed (x ∷ xs) key earlier known = elim (Bool-cases (x.key == key)) [
  | inl here ↦ rw here refl
  | inr other ↦ rw other (front-freed xs key earlier (rw other at known))
]

-- Between the two locks of a lookup another thread may remove the key, which is there and whose cache
-- has a `free_fn`. The lookup does not fault, and still gives the value that it found, which the removal has freed.
pub get-remove_between :
    (c : Cache) (xs : List Cell) (key : ℕ)
    → Represents c xs
    → has_key key xs ≡ true
    → c.has_free_fn ≡ true
    → (c₁ : Cache) × (c₂ : Cache) × (c₃ : Cache) × (get_find c key
        ≡ some (c₁, some (value_of key xs)))
      × (remove c₁ key ≡ some c₂)
      × (get_touch c₂ key ≡ some c₃)
      × Represents c₃ (take_out key xs)
      × (c₃.freed ≡ value_of key xs ∷ c.freed)
get-remove_between c xs key rep known frees =
    let (c₁, run₁, rep₁, limits₁, freed₁, hits₁, misses₁) = get_find_lem c xs key rep in
    let (c₂, run₂, rep₂, limits₂, freed₂) = remove_lem c₁ xs key rep₁ in
    let (c₃, run₃, rep₃, limits₃, freed₃, hits₃, misses₃) =
      get_touch_lem c₂ (take_out key xs) key rep₂ in
    let gone = at_none (take_out key xs) key (taken_out xs key rep.used.distinct) in
    (
      c₁,
      c₂,
      c₃,
      rw known at run₁,
      run₂,
      run₃,
      subst (Represents c₃) (ap₂ ◌++◌ gone.entry gone.others) rep₃,
      freed₃
          ∙ freed₂
          ∙ ap (λ f. freed_from_end c₁.has_free_fn f (front key xs)) freed₁
          ∙ ap (λ h. freed_from_end h c.freed (front key xs)) (limits₁.2 ∙ frees)
          ∙ front-freed xs key c.freed known,
    )
