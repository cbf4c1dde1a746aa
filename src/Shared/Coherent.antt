-- ===== src/Shared/Coherent.antt =====
-- The shared cache of src/core/cache.c keeps what it is given: under the invariant of the cache, an object
-- that is found has the data that was put for its key.
use squashfs_fuse.Cache.Access.Get.{get_lem}
use squashfs_fuse.Cache.Access.{value_of, front, take_out, has_key, at_none, unknown_address}
use squashfs_fuse.Cache.Calls.Outcome.{put_outcome}
use squashfs_fuse.Cache.Calls.Ownership.{holding}
use squashfs_fuse.Cache.Calls.Step.{IsCache-SameLimits}
use squashfs_fuse.Cache.Calls.{IsCache, IsSound, AllSmall, AllSmall-append, front-take_out}
use squashfs_fuse.Cache.Heap.{Cell}
use squashfs_fuse.Cache.Ops.{Allocator}
use squashfs_fuse.Cache.State.{Represents, Filled}
use squashfs_fuse.Cache.{Ptr, null, Cache}
use squashfs_fuse.Common.{
  ℕ, Bool, true, false, some, none, List, [], ◌∷◌, ◌++◌, ◌≡◌, ◌≢◌, refl, sym, ap, subst, ◌∙◌, inl,
  inr, arith, length, length-append, Bool-cases, ◌==◌, if◌then◌else◌,
}
use squashfs_fuse.Fragment.Tail.{IsDataCache}
use squashfs_fuse.Shared.{Store, store_get, store_put, store_cache}
use squashfs_fuse.Utils.{Bytes}

-- The objects of the entries have what is to be held for their keys.
abbrev pub AllTrue : (Ptr → Bytes) → (ℕ → Bytes) → List Cell → Type 0
AllTrue text held_at [] = Unit
AllTrue text held_at (x ∷ xs) = (text x.value ≡ held_at x.key) × AllTrue text held_at xs

pub record IsCoherent (held_at : ℕ → Bytes) (s : Store) : Type 0 where
  pub cells : List Cell
  pub cache : IsCache s.cache cells
  pub all_true : AllTrue s.text held_at cells

-- malloc: the address of an object is not NULL, and no object of the cache has it.
abbrev pub IsFresh : (Cache → Ptr) → Type 0
IsFresh object =
    (c : Cache)
    → (xs : List Cell) → Represents c xs
    → (object c ≢ null) × (holding (object c) xs ≡ 0)

if_true : {b : Bool} → b ≡ true → (x y : Bytes) → (if b then x else y) ≡ x
if_true h x y = rw h refl

same_bytes : {xs ys : Bytes} → some xs ≡ some ys → ys ≡ xs
same_bytes h = ground (arith, h)

no_bytes : (ys : Bytes) → none ≡ some ys → ⊥
no_bytes ys h = cc

module _ (held_at : ℕ → Bytes) where
  value_of-AllTrue :
      (text : Ptr → Bytes) (xs : List Cell) (key : ℕ)
      → Filled xs
      → AllTrue text held_at xs
      → has_key key xs ≡ true
      → ((value_of key xs == null) ≡ false) × (text (value_of key xs) ≡ held_at key)
  value_of-AllTrue text [] key filled is known = cc
  value_of-AllTrue text (x ∷ xs) key (ne, filled) (at, is) known =
      elim (Bool-cases (x.key == key)) [
        | inl here ↦
            let same : x.key ≡ key = ground arith in rw here (ground arith, at ∙ ap held_at same)
        | inr other ↦ rw other (value_of-AllTrue text xs key filled is (rw other at known))
      ]

  AllTrue-append :
      (text : Ptr → Bytes) (xs ys : List Cell)
      → AllTrue text held_at (xs ++ ys)
      → AllTrue text held_at xs
  AllTrue-append text [] ys is = tt
  AllTrue-append text (x ∷ xs) ys (at, is) = (at, AllTrue-append text xs ys is)

  AllTrue-insert :
      (text : Ptr → Bytes) (x : Cell) (xs ys : List Cell)
      → text x.value ≡ held_at x.key
      → AllTrue text held_at (xs ++ ys)
      → AllTrue text held_at (xs ++ (x ∷ ys))
  AllTrue-insert text x [] ys at is = (at, is)
  AllTrue-insert text x (y ∷ xs) ys at (first, is) = (first, AllTrue-insert text x xs ys at is)

  AllTrue-front :
      (text : Ptr → Bytes) (xs : List Cell) (key : ℕ)
      → AllTrue text held_at xs
      → AllTrue text held_at (front key xs ++ take_out key xs)
        × AllTrue text held_at (take_out key xs)
  AllTrue-front text [] key is = (tt, tt)
  AllTrue-front text (x ∷ xs) key (at, is) = elim (Bool-cases (x.key == key)) [
    | inl here ↦ rw here ((at, is), is)
    | inr other ↦
        let (both, rest) = AllTrue-front text xs key is in
        rw other (AllTrue-insert text x (front key xs) (take_out key xs) at both, (at, rest))
  ]

  -- A new object changes none of those that are there.
  AllTrue-write :
      (text : Ptr → Bytes) (v : Ptr) (bytes : Bytes) (xs : List Cell)
      → holding v xs ≡ 0
      → AllTrue text held_at xs
      → AllTrue (λ a. if a == v then bytes else text a) held_at xs
  AllTrue-write text v bytes [] none_there is = tt
  AllTrue-write text v bytes (x ∷ xs) none_there (at, is) = elim (Bool-cases (x.value == v)) [
    | inl same ↦ absurd (holds_one x v xs same none_there)
    | inr other ↦ (rw other at, AllTrue-write text v bytes xs (omega (arith, none_there)) is)
  ]
    where
      holds_one :
          (x : Cell) (v : Ptr) (xs : List Cell) → (x.value == v) ≡ true → holding v (x ∷ xs) ≡ 0 → ⊥
      holds_one x v xs same h = ground (arith, same, h)

  module _ (m : Allocator) (object : Cache → Ptr) (sound : IsSound m) (fresh : IsFresh object) where
    store_put-IsCoherent :
        (s : Store) (key claimed : ℕ)
        → IsCoherent held_at s
        → IsCoherent held_at (store_put m object s key (held_at key) claimed)
    unfolding store_put
    store_put-IsCoherent s key claimed is =
        let v = object s.cache in
        let xs = is.cells in
        let (ne, new) = fresh s.cache xs is.cache.represents in
        let text : Ptr → Bytes = λ a. if a == v then held_at key else s.text a in
        let kept = AllTrue-write s.text v (held_at key) xs new is.all_true in
        elim (put_outcome m s.cache xs key v claimed sound is.cache) [
          | inl r ↦
              let sizes =
                AllSmall-append s.cache.max_memory r.ys r.rest
                  (subst (AllSmall s.cache.max_memory) r.parts is.cache.sizes) in
              let within = ap length r.parts ∙ length-append r.ys r.rest in
              let after : IsCoherent held_at (record { cache = r.c'; text = text }) = record {
                cells = r.ys;
                cache =
                    IsCache-SameLimits s.cache r.c' xs r.ys is.cache r.limits r.left
                      (omega (arith, is.cache.within)) sizes.0;
                all_true =
                    AllTrue-append text r.ys r.rest (subst (AllTrue text held_at) r.parts kept);
              } in
              let ran = r.ran in rw (store_put, ran) after
          | inr a ↦
              let others : AllTrue text held_at a.ys = elim a.kept [
                | inl parts ↦
                    AllTrue-append text a.ys a.gone (subst (AllTrue text held_at) parts kept)
                | inr (rest, own) ↦
                    subst (AllTrue text held_at) (sym rest) (AllTrue-front text xs key kept).1
              ] in
              let here : (a.x.value == v) ≡ true = ground (arith, a.value_is) in
              let at : text a.x.value ≡ held_at a.x.key =
                if_true here (held_at key) (s.text a.x.value) ∙ ap held_at (sym a.key_is) in
              let after : IsCoherent held_at (record { cache = a.c'; text = text }) = record {
                cells = a.x ∷ a.ys;
                cache =
                    IsCache-SameLimits s.cache a.c' xs (a.x ∷ a.ys) is.cache a.limits a.left
                      (omega (arith, a.within)) (omega (arith, a.size_is, a.fits), a.sizes);
                all_true = (at, others);
              } in
              let ran = a.ran in rw (store_put, ran) after
        ]

    -- A lookup, and what it gives.
    store_get-IsCoherent :
        (s : Store) (key : ℕ)
        → IsCoherent held_at s
        → IsCoherent held_at (store_get s key).0
          × ((bytes : Bytes) → (store_get s key).1 ≡ some bytes → bytes ≡ held_at key)
    unfolding store_get
    store_get-IsCoherent s key is =
        let xs = is.cells in
        let (c', run, rep, limits, freed, hits, misses) =
          get_lem s.cache xs key is.cache.represents in
        let (sizes, rest, size) = front-take_out s.cache.max_memory key xs is.cache.sizes in
        let after : IsCoherent held_at (record s { cache = c' }) = record {
          cells = front key xs ++ take_out key xs;
          cache =
              IsCache-SameLimits s.cache c' xs (front key xs ++ take_out key xs) is.cache limits rep
                (omega (arith, is.cache.within)) sizes;
          all_true = (AllTrue-front s.text xs key is.all_true).0;
        } in
        elim (Bool-cases (has_key key xs)) [
          | inl known ↦
              let (ne, true_to) =
                value_of-AllTrue s.text xs key is.cache.represents.filled is.all_true known in
              (
                rw (store_get, run) after,
                λ bytes found. same_bytes (rw (store_get, run, ne) at found) ∙ true_to,
              )
          | inr unknown ↦
              let none_there = at_none xs key (unknown_address xs key unknown) in
              let value = none_there.value in
              (
                rw (store_get, run) after,
                λ bytes found. absurd (no_bytes bytes (rw (store_get, run, value) at found)),
              )
        ]

    -- The cache does what its users ask of it.
    pub store_cache-IsDataCache : IsDataCache (store_cache m object) held_at (IsCoherent held_at)
    store_cache-IsDataCache = record {
      get_keeps = λ s key is. (store_get-IsCoherent s key is).0;
      get_true = λ s key bytes is found. (store_get-IsCoherent s key is).1 bytes found;
      put_keeps = store_put-IsCoherent;
    }
