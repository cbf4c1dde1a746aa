-- ===== src/Cache/Calls/Put.antt =====
-- src/core/cache.c, a put: it is refused, or its value becomes the cache's own.
use squashfs_fuse.Cache.Calls.Outcome.{put_outcome}
use squashfs_fuse.Cache.Calls.Step.{Returns, IsCache-SameLimits}
use squashfs_fuse.Cache.Access.{front, take_out}
use squashfs_fuse.Cache.Calls.Ownership.{
  copies, holding, holding-append, holding-front, copies-freed_from_end,
}
use squashfs_fuse.Cache.Calls.{call_put, taken, call, IsSound, AllSmall, IsCache, AllSmall-append}
use squashfs_fuse.Cache.Evict.{freed_from_end}
use squashfs_fuse.Cache.Heap.{Cell}
use squashfs_fuse.Cache.Ops.{Allocator, Status, done, put}
use squashfs_fuse.Cache.State.{Represents, SameLimits}
use squashfs_fuse.Cache.{Ptr, Cache, ◌>>=◌}
use squashfs_fuse.Common.{
  ℕ, ◌+◌, ◌≤◌, true, some, List, [], ◌∷◌, ◌++◌, ◌≡◌, refl, ap, subst, ◌∙◌, ◌⊎◌, inl, inr, arith,
  length, length-append,
}

-- Nothing is put: the cache stays, or what an eviction has left of it does.
refused :
    (m : Allocator) (c c' : Cache) (xs ys rest : List Cell) (key : ℕ) (value : Ptr) (size : ℕ)
    (s : Status)
    → taken s value ≡ []
    → put m c key value size ≡ some (c', s)
    → c.has_free_fn ≡ true
    → IsCache c xs
    → xs ≡ ys ++ rest
    → Represents c' ys
    → SameLimits c c'
    → c'.freed ≡ freed_from_end c.has_free_fn c.freed rest
    → Returns c xs (call m c (call_put key value size))
unfolding call
refused m c c' xs ys rest key value size s nothing ran frees is parts rep limits freed =
    let sizes =
      AllSmall-append c.max_memory ys rest (subst (AllSmall c.max_memory) parts is.sizes) in
    let within = ap length parts ∙ length-append ys rest in
    record {
      c' = c';
      own = [];
      ys = ys;
      runs = rw (ran, ◌>>=◌, nothing) refl;
      cache = IsCache-SameLimits c c' xs ys is limits rep (omega (arith, is.within)) sizes.0;
      limits = limits;
      owned = λ v.
          let now : copies v c'.freed ≡ copies v c.freed + holding v rest =
            ap (copies v) (freed ∙ ap (λ h. freed_from_end h c.freed rest) frees)
            ∙ copies-freed_from_end v c.freed rest in
          let before = ap (holding v) parts ∙ holding-append v ys rest in omega arith;
    }

-- A value is put: its entry comes before those of `ys`, and those of `gone` are freed.
accepted :
    (m : Allocator) (c c' : Cache) (xs ys gone : List Cell) (x : Cell) (key : ℕ) (value : Ptr)
    (size : ℕ)
    → put m c key value size ≡ some (c', done)
    → c.has_free_fn ≡ true
    → IsCache c xs
    → ((v : Ptr) → holding v gone + holding v ys ≡ holding v xs)
    → length ys + 1 ≤ c.max_entries
    → AllSmall c.max_memory ys
    → size ≤ c.max_memory
    → x.value ≡ value
    → x.size ≡ size
    → Represents c' (x ∷ ys)
    → SameLimits c c'
    → c'.freed ≡ freed_from_end c.has_free_fn c.freed gone
    → Returns c xs (call m c (call_put key value size))
unfolding call
accepted m c c' xs ys gone x key value size ran frees is split within sizes fits value_is size_is
      rep limits freed =
    record {
      c' = c';
      own = value ∷ [];
      ys = x ∷ ys;
      runs = rw (ran, ◌>>=◌) refl;
      cache = IsCache-SameLimits c c' xs (x ∷ ys) is limits rep (omega arith) (omega arith, sizes);
      limits = limits;
      owned = λ v.
          let now : copies v c'.freed ≡ copies v c.freed + holding v gone =
            ap (copies v) (freed ∙ ap (λ h. freed_from_end h c.freed gone) frees)
            ∙ copies-freed_from_end v c.freed gone in
          let before = split v in
          let one : holding v (x ∷ ys) ≡ copies v (value ∷ []) + holding v ys =
            rw value_is (omega arith) in
          omega arith;
    }

split_kept :
    (xs ys gone : List Cell) (key : ℕ)
    → (xs ≡ ys ++ gone) ⊎ ((ys ≡ take_out key xs) × (gone ≡ front key xs))
    → (v : Ptr) → holding v gone + holding v ys ≡ holding v xs
split_kept xs ys gone key (inl parts) v =
    let before = ap (holding v) parts ∙ holding-append v ys gone in omega arith
split_kept xs ys gone key (inr (others, own)) v = rw (others, own) (holding-front v key xs)

pub put_returns :
    (m : Allocator) (c : Cache) (xs : List Cell) (key : ℕ) (value : Ptr) (size : ℕ)
    → IsSound m
    → c.has_free_fn ≡ true
    → IsCache c xs
    → Returns c xs (call m c (call_put key value size))
put_returns m c xs key value size sound frees is =
    elim (put_outcome m c xs key value size sound is) [
      | inl r ↦
          refused m c r.c' xs r.ys r.rest key value size r.status r.nothing r.ran frees is r.parts
            r.left r.limits r.freed
      | inr a ↦
          accepted m c a.c' xs a.ys a.gone a.x key value size a.ran frees is
            (split_kept xs a.ys a.gone key a.kept) a.within a.sizes a.fits a.value_is a.size_is
            a.left a.limits a.freed
    ]
