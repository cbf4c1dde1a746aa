-- ===== src/Cache/Calls/Step.antt =====
-- src/core/cache.c, a call that returns, and the ones that put nothing.
use squashfs_fuse.Cache.Access.Get.{get_lem}
use squashfs_fuse.Cache.Access.Remove.{remove_lem}
use squashfs_fuse.Cache.Access.{front, take_out}
use squashfs_fuse.Cache.Calls.Ownership.{
  copies, holding, holding-append, holding-front, copies-freed_from_end, copies-freed_from_head,
}
use squashfs_fuse.Cache.Calls.{
  call_get, call_remove, call_clear, call, run, AllSmall, IsCache, front-take_out,
}
use squashfs_fuse.Cache.Clear.{clear_lem, freed_from_head}
use squashfs_fuse.Cache.Evict.{freed_from_end}
use squashfs_fuse.Cache.Heap.{Cell}
use squashfs_fuse.Cache.Ops.{Allocator}
use squashfs_fuse.Cache.State.{Represents, SameLimits}
use squashfs_fuse.Cache.{Ptr, Cache, ◌>>=◌}
use squashfs_fuse.Common.{
  ℕ, ◌+◌, ◌*◌, ◌^◌, ◌≤◌, ◌<◌, true, Option, some, List, [], ◌++◌, ◌≡◌, refl, sym, ap, subst, ◌∙◌,
  arith, length, length-append,
}
use native.Mathlib.Nat.{mul-le-mul_right, add-mul}

-- A call that returns, from a cache with the entries `xs`: the cache afterwards, and the values that
-- became its own. A value is freed once when it leaves the cache, and otherwise still there.
pub record Returns (c : Cache) (xs : List Cell) (r : Option (Cache × List Ptr)) : Type 0 where
  pub c' : Cache
  pub own : List Ptr
  pub ys : List Cell
  pub runs : r ≡ some (c', own)
  pub cache : IsCache c' ys
  pub limits : SameLimits c c'
  pub owned :
      (v : Ptr) → copies v c'.freed + holding v ys ≡ copies v c.freed + holding v xs + copies v own

pub IsCache-SameLimits :
    (c c' : Cache) (xs ys : List Cell)
    → IsCache c xs
    → SameLimits c c'
    → Represents c' ys
    → length ys ≤ c.max_entries
    → AllSmall c.max_memory ys
    → IsCache c' ys
IsCache-SameLimits c c' xs ys is limits rep within sizes =
    let entries = limits.0 in
    let memory = limits.1 in
    record {
      represents = rep;
      within = subst (λ n. length ys ≤ n) (sym entries) within;
      sizes = subst (λ n. AllSmall n ys) (sym memory) sizes;
      some_entry = subst (λ n. 0 < n) (sym entries) is.some_entry;
      word = subst (λ n. n < 2 ^ 64) (sym entries) is.word;
      sums =
          subst (λ n. (n + 1) * c'.max_memory < 2 ^ 64) (sym entries)
            (subst (λ n. (c.max_entries + 1) * n < 2 ^ 64) (sym memory) is.sums);
    }

-- Entries of a cache are few enough for their sizes to be added.
pub most_memory :
    (entries memory n total : ℕ)
    → n ≤ entries
    → total ≤ n * memory
    → (entries + 1) * memory < 2 ^ 64
    → total + memory < 2 ^ 64
most_memory entries memory n total within small sums =
    let more = mul-le-mul_right memory within in omega (arith, more, add-mul entries 1 memory)

pub get_returns :
    (m : Allocator) (c : Cache) (xs : List Cell) (key : ℕ)
    → IsCache c xs
    → Returns c xs (call m c (call_get key))
unfolding call
get_returns m c xs key is =
    let (c', run, rep, limits, freed, hits, misses) = get_lem c xs key is.represents in
    let (sizes, rest, size) = front-take_out c.max_memory key xs is.sizes in
    record {
      c' = c';
      own = [];
      ys = front key xs ++ take_out key xs;
      runs = rw (run, ◌>>=◌) refl;
      cache =
          IsCache-SameLimits c c' xs (front key xs ++ take_out key xs) is limits rep
            (omega (arith, is.within)) sizes;
      limits = limits;
      owned = λ v.
          let same = ap (copies v) freed in
          omega (arith, holding-append v (front key xs) (take_out key xs), holding-front v key xs);
    }

pub remove_returns :
    (m : Allocator) (c : Cache) (xs : List Cell) (key : ℕ)
    → c.has_free_fn ≡ true
    → IsCache c xs
    → Returns c xs (call m c (call_remove key))
unfolding call
remove_returns m c xs key frees is =
    let (c', run, rep, limits, freed) = remove_lem c xs key is.represents in
    let (both, sizes, size) = front-take_out c.max_memory key xs is.sizes in
    let parts = length-append (front key xs) (take_out key xs) in
    record {
      c' = c';
      own = [];
      ys = take_out key xs;
      runs = rw (run, ◌>>=◌) refl;
      cache =
          IsCache-SameLimits c c' xs (take_out key xs) is limits rep (omega (arith, is.within))
            sizes;
      limits = limits;
      owned = λ v.
          let now : copies v c'.freed ≡ copies v c.freed + holding v (front key xs) =
            ap (copies v) (freed ∙ ap (λ h. freed_from_end h c.freed (front key xs)) frees)
            ∙ copies-freed_from_end v c.freed (front key xs) in
          omega (arith, holding-front v key xs);
    }

pub clear_returns :
    (m : Allocator) (c : Cache) (xs : List Cell)
    → c.has_free_fn ≡ true
    → IsCache c xs
    → Returns c xs (call m c call_clear)
unfolding call
clear_returns m c xs frees is =
    let (c', run, rep, limits, size, freed) = clear_lem c xs is.represents in
    record {
      c' = c';
      own = [];
      ys = [];
      runs = rw (run, ◌>>=◌) refl;
      cache = IsCache-SameLimits c c' xs [] is limits rep (omega arith) tt;
      limits = limits;
      owned = λ v.
          let now : copies v c'.freed ≡ copies v c.freed + holding v xs =
            ap (copies v) (freed ∙ ap (λ h. freed_from_head h c.freed xs) frees)
            ∙ copies-freed_from_head v c.freed xs in
          omega arith;
    }
