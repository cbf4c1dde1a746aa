-- ===== src/Cache/Calls.antt =====
-- src/core/cache.c, calls of a cache one after the other, and what holds between them.
pub mod Ownership
pub mod Step
pub mod Outcome
pub mod Put
pub mod Run
use squashfs_fuse.Cache.Access.{front, take_out, has_key}
use squashfs_fuse.Cache.Heap.{Cell}
use squashfs_fuse.Cache.Ops.{
  Allocator, Status, done, einval, e2big, enospc, enomem, get, put, remove, clear,
}
use squashfs_fuse.Cache.State.{Represents, total_size, length-middle}
use squashfs_fuse.Cache.{Ptr, null, Heap, Cache, ◌>>=◌, load}
use squashfs_fuse.Common.{
  ℕ, zero, suc, ◌+◌, ◌*◌, ◌^◌, ◌≤◌, ◌<◌, Bool, true, false, Option, some, none, List, [], ◌∷◌, ◌++◌,
  ◌≡◌, ◌≢◌, refl, ap, ◌∙◌, inl, inr, arith, length, Bool-cases, ◌==◌, if◌then◌else◌,
}

pub data Call : Type 0 where
  call_get : ℕ → Call
  call_put : ℕ → Ptr → ℕ → Call
  call_remove : ℕ → Call
  call_clear : Call

-- The value of a put belongs to the cache if 0 is returned.
abbrev pub taken : Status → Ptr → List Ptr
taken done value = value ∷ []
taken einval value = []
taken e2big value = []
taken enospc value = []
taken enomem value = []

-- A call, with the values that it makes the cache's own.
unfoldable pub call : Allocator → Cache → Call → Option (Cache × List Ptr)
call m c (call_get key) = get c key >>= λ r. some (r.0, [])
call m c (call_put key value size) = put m c key value size >>= λ r. some (r.0, taken r.1 value)
call m c (call_remove key) = remove c key >>= λ c'. some (c', [])
call m c call_clear = clear c >>= λ c'. some (c', [])

unfoldable pub run : Allocator → Cache → List Call → Option (Cache × List Ptr)
unfolding call
run m c [] = some (c, [])
run m c (x ∷ xs) =
    call m c x >>= λ now. run m now.0 xs >>= λ later. some (later.0, now.1 ++ later.1)

-- malloc gives addresses that no entry has.
abbrev pub IsSound : Allocator → Type 0
IsSound m = (h : Heap) → (a : Ptr) → m.entry h ≡ some a → (a ≢ null) × (load h a ≡ none)

abbrev pub AllSmall : ℕ → List Cell → Type 0
AllSmall most [] = Unit
AllSmall most (x ∷ xs) = (x.size ≤ most) × AllSmall most xs

-- Between two calls: the limits are such that no sum of sizes wraps around.
pub record IsCache (c : Cache) (xs : List Cell) : Type 0 where
  pub represents : Represents c xs
  pub within : length xs ≤ c.max_entries
  pub sizes : AllSmall c.max_memory xs
  pub some_entry : 0 < c.max_entries
  pub word : c.max_entries < 2 ^ 64
  pub sums : (c.max_entries + 1) * c.max_memory < 2 ^ 64

pub total-AllSmall :
    (most : ℕ) (xs : List Cell) → AllSmall most xs → total_size xs ≤ length xs * most
total-AllSmall most [] small = omega arith
total-AllSmall most (x ∷ xs) (first, small) =
    let rest = total-AllSmall most xs small in omega (arith, first, rest)

pub AllSmall-append :
    (most : ℕ) (xs ys : List Cell) → AllSmall most (xs ++ ys) → AllSmall most xs × AllSmall most ys
AllSmall-append most [] ys small = (tt, small)
AllSmall-append most (x ∷ xs) ys (first, small) =
    let rest = AllSmall-append most xs ys small in ((first, rest.0), rest.1)

AllSmall-insert :
    (most : ℕ) (x : Cell) (xs ys : List Cell)
    → x.size ≤ most
    → AllSmall most (xs ++ ys)
    → AllSmall most (xs ++ (x ∷ ys))
AllSmall-insert most x [] ys fits small = (fits, small)
AllSmall-insert most x (y ∷ xs) ys fits (first, small) =
    (first, AllSmall-insert most x xs ys fits small)

-- An entry at the front, and the others.
pub front-take_out :
    (most key : ℕ) (xs : List Cell)
    → AllSmall most xs
    → AllSmall most (front key xs ++ take_out key xs)
      × AllSmall most (take_out key xs)
      × (length (front key xs ++ take_out key xs) ≡ length xs)
front-take_out most key [] small = (tt, tt, refl)
front-take_out most key (x ∷ xs) (first, small) = elim (Bool-cases (x.key == key)) [
  | inl here ↦ rw here ((first, small), small, refl)
  | inr other ↦
      let (both, rest, size) = front-take_out most key xs small in
      rw other (
        AllSmall-insert most x (front key xs) (take_out key xs) first both,
        (first, rest),
        length-middle x (front key xs) (take_out key xs) ∙ ap suc size,
      )
]

pub take_out-length :
    (key : ℕ) (xs : List Cell) → has_key key xs ≡ true → suc (length (take_out key xs)) ≡ length xs
take_out-length key [] known = cc
take_out-length key (x ∷ xs) known = elim (Bool-cases (x.key == key)) [
  | inl here ↦ rw here refl
  | inr other ↦ rw other (ground (arith, take_out-length key xs (rw other at known)))
]
