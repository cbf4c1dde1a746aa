-- ===== src/Cache/Usage.antt =====
-- src/core/cache.c, the list of use: what its three functions do to a doubly linked list in the heap.
pub mod Insert
pub mod Unlink
pub mod Remove
use squashfs_fuse.Cache.Heap.{
  Cell, load-nonnull, load-write_self, load-write_ne, SameLru, SameHash, SameHash-write,
}
use squashfs_fuse.Cache.Nodes.{Node, node, nodes, find, Distinct, first_or, last_or}
use squashfs_fuse.Cache.{Ptr, null, Entry, Heap, Cache, load, write}
use squashfs_fuse.Common.{
  ℕ, Option, some, none, List, [], ◌∷◌, ◌++◌, ◌≡◌, ◌≢◌, refl, sym, ap, ◌∙◌, arith,
}

-- The entry of a cell, between two others.
abbrev pub IsLru : Entry → Cell → Ptr → Ptr → Type 0
IsLru e x prev next =
    (e.key ≡ x.key)
    × (e.value ≡ x.value)
    × (e.memory_size ≡ x.size)
    × (e.prev ≡ prev)
    × (e.next ≡ next)

abbrev pub LruAt : Heap → Cell → Ptr → Ptr → Type 0
LruAt h x prev next = (e : Entry) × (load h x.addr ≡ some e) × IsLru e x prev next

-- Cells that are linked both ways, from `prev` on up to `next`.
abbrev pub Seg : Heap → Ptr → List Cell → Ptr → Type 0
Seg h prev [] next = Unit
Seg h prev (x ∷ xs) next = LruAt h x prev (first_or next (nodes xs)) × Seg h x.addr xs next

pub Seg-SameLru :
    (h g : Heap) (prev next : Ptr) (xs : List Cell)
    → SameLru h g
    → Seg h prev xs next
    → Seg g prev xs next
Seg-SameLru h g prev next [] same s = tt
Seg-SameLru h g prev next (x ∷ xs) same ((e, there, fields), s) =
    let (e', there', agree) = same x.addr e there in
    ((e', there', ground (arith, agree, fields)), Seg-SameLru h g x.addr next xs same s)

pub LruAt-write :
    (h : Heap) (a prev next : Ptr) (e : Entry) (x : Cell) (c : Option Entry)
    → load h a ≡ some e
    → x.key ≢ e.key
    → LruAt h x prev next
    → LruAt (write h a c) x prev next
LruAt-write h a prev next e x c there ne (e', there', fields) =
    let other : x.addr ≢ a =
      λ same. ne (ground (arith, sym there' ∙ ap (load h) same ∙ there, fields)) in
    (e', load-write_ne h a x.addr c other ∙ there', fields)

-- A write to an entry with another key leaves a segment alone.
pub Seg-write :
    (h : Heap) (a prev next : Ptr) (e : Entry) (xs : List Cell) (c : Option Entry)
    → load h a ≡ some e
    → find e.key (nodes xs) ≡ none
    → Seg h prev xs next
    → Seg (write h a c) prev xs next
Seg-write h a prev next e [] c there out s = tt
Seg-write h a prev next e (x ∷ xs) c there out (at, s) = (
  LruAt-write h a prev (first_or next (nodes xs)) e x c there (λ k. ground arith) at,
  Seg-write h a x.addr next e xs c there (ground arith) s,
)

pub Seg-split :
    (h : Heap) (prev next : Ptr) (xs ys : List Cell)
    → Seg h prev (xs ++ ys) next
    → Seg h prev xs (first_or next (nodes ys)) × Seg h (last_or prev (nodes xs)) ys next
Seg-split h prev next [] ys s = (tt, s)
Seg-split h prev next (x ∷ []) ys s = ((s.0, tt), s.1)
Seg-split h prev next (x ∷ y ∷ xs) ys (at, s) =
    let (left, right) = Seg-split h x.addr next (y ∷ xs) ys s in ((at, left), right)

pub Seg-join :
    (h : Heap) (prev next : Ptr) (xs ys : List Cell)
    → Seg h prev xs (first_or next (nodes ys))
    → Seg h (last_or prev (nodes xs)) ys next
    → Seg h prev (xs ++ ys) next
Seg-join h prev next [] ys left right = right
Seg-join h prev next (x ∷ []) ys left right = (left.0, right)
Seg-join h prev next (x ∷ y ∷ xs) ys (at, left) right =
    (at, Seg-join h x.addr next (y ∷ xs) ys left right)

-- The last entry of a segment.
pub last_there :
    (h : Heap) (prev next : Ptr) (x : Cell) (xs : List Cell)
    → Seg h prev (x ∷ xs) next
    → (e : Entry) × (load h (last_or prev (nodes (x ∷ xs))) ≡ some e)
      × (find e.key (nodes (x ∷ xs)) ≢ none)
last_there h prev next x [] ((e, there, fields), s) = (e, there, λ k. ground (arith, fields))
last_there h prev next x (y ∷ xs) (at, s) =
    let (e, there, found) = last_there h x.addr next y xs s in (e, there, λ k. found (ground arith))

-- Its `next` pointer can be set.
pub set_last_next :
    (h : Heap) (prev next to : Ptr) (x : Cell) (xs : List Cell) (e : Entry)
    → Seg h prev (x ∷ xs) next
    → Distinct (nodes (x ∷ xs))
    → load h (last_or prev (nodes (x ∷ xs))) ≡ some e
    → Seg (write h (last_or prev (nodes (x ∷ xs))) (some (record e { next = to }))) prev (x ∷ xs) to
set_last_next h prev next to x [] e ((e', there', fields), s) d there = (
  (
    record e { next = to },
    load-write_self h x.addr (some (record e { next = to })) (load-nonnull h x.addr there),
    ground (arith, fields, sym there' ∙ there),
  ),
  tt,
)
set_last_next h prev next to x (y ∷ xs) e (at, s) d there =
    let last = last_or x.addr (nodes (y ∷ xs)) in
    let (e', there', found) = last_there h x.addr next y xs s in
    let same : e' ≡ e = ground (arith, sym there' ∙ there) in
    (
      LruAt-write h last prev y.addr e x (some (record e { next = to })) there
          (λ k. found (ap (λ q. find q (nodes (y ∷ xs))) (ap (λ t. t.key) same ∙ sym k) ∙ d.0)) at,
      set_last_next h x.addr next to y xs e s d.1 there,
    )

-- The `prev` pointer of the first can be set.
pub set_first_prev :
    (h : Heap) (prev next to : Ptr) (x : Cell) (xs : List Cell) (e : Entry)
    → Seg h prev (x ∷ xs) next
    → Distinct (nodes (x ∷ xs))
    → load h x.addr ≡ some e
    → Seg (write h x.addr (some (record e { prev = to }))) to (x ∷ xs) next
set_first_prev h prev next to x xs e ((e', there', fields), s) d there =
    let same : e' ≡ e = ground (arith, sym there' ∙ there) in
    let key : e.key ≡ x.key = ground (arith, same, fields) in
    (
      (
        record e { prev = to },
        load-write_self h x.addr (some (record e { prev = to })) (load-nonnull h x.addr there),
        ground (arith, fields, same),
      ),
      Seg-write h x.addr x.addr next e xs (some (record e { prev = to })) there (rw key d.0) s,
    )
