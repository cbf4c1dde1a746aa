-- ===== src/Cache/Calls/Ownership.antt =====
-- src/core/cache.c, whose a value is: how often a pointer stands among the values of a cache, and among
-- those that were freed.
use squashfs_fuse.Cache.Access.{front, take_out}
use squashfs_fuse.Cache.Clear.{freed_from_head}
use squashfs_fuse.Cache.Evict.{freed_from_end}
use squashfs_fuse.Cache.Heap.{Cell}
use squashfs_fuse.Cache.{Ptr}
use squashfs_fuse.Common.{
  ℕ, ◌+◌, true, List, [], ◌∷◌, ◌++◌, ◌≡◌, refl, inl, inr, arith, Bool-cases, ◌==◌, if◌then◌else◌,
}

abbrev pub copies : Ptr → List Ptr → ℕ
copies v [] = 0
copies v (w ∷ ws) = (if w == v then 1 else 0) + copies v ws

abbrev pub holding : Ptr → List Cell → ℕ
holding v [] = 0
holding v (x ∷ xs) = (if x.value == v then 1 else 0) + holding v xs

pub copies-append : (v : Ptr) (xs ys : List Ptr) → copies v (xs ++ ys) ≡ copies v xs + copies v ys
copies-append v [] ys = omega arith
copies-append v (x ∷ xs) ys = omega (arith, copies-append v xs ys)

pub holding-append :
    (v : Ptr) (xs ys : List Cell) → holding v (xs ++ ys) ≡ holding v xs + holding v ys
holding-append v [] ys = omega arith
holding-append v (x ∷ xs) ys = omega (arith, holding-append v xs ys)

pub holding-front :
    (v : Ptr) (key : ℕ) (xs : List Cell)
    → holding v (front key xs) + holding v (take_out key xs) ≡ holding v xs
holding-front v key [] = refl
holding-front v key (x ∷ xs) = elim (Bool-cases (x.key == key)) [
  | inl here ↦ rw here (omega arith)
  | inr other ↦ rw other (omega (arith, holding-front v key xs))
]

pub copies-freed_from_end :
    (v : Ptr) (earlier : List Ptr) (xs : List Cell)
    → copies v (freed_from_end true earlier xs) ≡ copies v earlier + holding v xs
copies-freed_from_end v earlier [] = omega arith
copies-freed_from_end v earlier (x ∷ xs) = omega (arith, copies-freed_from_end v earlier xs)

pub copies-freed_from_head :
    (v : Ptr) (earlier : List Ptr) (xs : List Cell)
    → copies v (freed_from_head true earlier xs) ≡ copies v earlier + holding v xs
copies-freed_from_head v earlier [] = omega arith
copies-freed_from_head v earlier (x ∷ xs) =
    omega (arith, copies-freed_from_head v (x.value ∷ earlier) xs)
