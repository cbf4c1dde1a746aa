-- ===== src/Cache/Calls/Outcome.antt =====
-- src/core/cache.c, what `sqfs_cache_put` comes to, on all its branches.
use squashfs_fuse.Cache.Calls.Step.{most_memory}
use squashfs_fuse.Cache.Access.{front, take_out, has_key, not_found, unknown_address}
use squashfs_fuse.Cache.Calls.{
  taken, IsSound, AllSmall, IsCache, total-AllSmall, AllSmall-append, front-take_out,
  take_out-length,
}
use squashfs_fuse.Cache.Evict.{evict_lem, freed_from_end}
use squashfs_fuse.Cache.Heap.{Cell}
use squashfs_fuse.Cache.Ops.{
  Allocator, Status, done, einval, e2big, enospc, enomem, put, put_new, evict,
}
use squashfs_fuse.Cache.Put.New.{put-new, HasRoom}
use squashfs_fuse.Cache.Put.{put-existing}
use squashfs_fuse.Cache.State.{Represents, SameLimits, total_size}
use squashfs_fuse.Cache.{Ptr, null, Cache, ◌>>=◌, hash_find}
use squashfs_fuse.Common.{
  ℕ, ◌+◌, ◌≤◌, true, false, Option, some, none, List, [], ◌∷◌, ◌++◌, ◌≡◌, ◌≢◌, refl, sym, ap, subst,
  ◌∙◌, ◌⊎◌, inl, inr, arith, length, append-nil, Bool-cases, Option-cases, ltb, leb, ◌==◌,
}

same_run : {A : Type 0} → (r : Option A) → (x y : A) → r ≡ some x → r ≡ some y → x ≡ y
same_run r x y p q = ground (arith, sym p ∙ q)

-- The test before the entry is made, and malloc without memory.
no_entry :
    (m : Allocator) (c r : Cache) (key : ℕ) (value : Ptr) (size : ℕ)
    → (value == null) ≡ false
    → ltb c.max_memory size ≡ false
    → hash_find c key ≡ some null
    → evict c size ≡ some r
    → m.entry r.heap ≡ none
    → (s : Status) × (put m c key value size ≡ some (r, s)) × (taken s value ≡ [])
unfolding put put_new
no_entry m c r key value size given small missing evicted none_left =
    elim (Bool-cases (leb r.max_entries r.current_entries)) [
      | inl full ↦
          (enospc, rw (put, given, small, missing, ◌>>=◌, put_new, evicted, ◌>>=◌, full) refl, refl)
      | inr room ↦ (
        enomem,
        rw (put, given, small, missing, ◌>>=◌, put_new, evicted, ◌>>=◌, room, none_left) refl,
        refl,
      )
    ]

-- A put that takes nothing: the cache stays, or what an eviction has left of it does.
pub record Refused (m : Allocator) (c : Cache) (xs : List Cell) (key : ℕ) (value : Ptr) (size : ℕ)
    : Type 0 where
  pub c' : Cache
  pub ys : List Cell
  pub rest : List Cell
  pub status : Status
  pub nothing : taken status value ≡ []
  pub ran : put m c key value size ≡ some (c', status)
  pub parts : xs ≡ ys ++ rest
  pub left : Represents c' ys
  pub limits : SameLimits c c'
  pub freed : c'.freed ≡ freed_from_end c.has_free_fn c.freed rest

-- A put that takes its value: the entry of the key comes before those of `ys`, which are the first of
-- `xs`, or all of them but the one that the key had; those of `gone` are freed.
pub record Accepted (m : Allocator) (c : Cache) (xs : List Cell) (key : ℕ) (value : Ptr) (size : ℕ)
    : Type 0 where
  pub c' : Cache
  pub x : Cell
  pub ys : List Cell
  pub gone : List Cell
  pub ran : put m c key value size ≡ some (c', done)
  pub kept : (xs ≡ ys ++ gone) ⊎ ((ys ≡ take_out key xs) × (gone ≡ front key xs))
  pub within : length ys + 1 ≤ c.max_entries
  pub sizes : AllSmall c.max_memory ys
  pub fits : size ≤ c.max_memory
  pub key_is : x.key ≡ key
  pub value_is : x.value ≡ value
  pub size_is : x.size ≡ size
  pub left : Represents c' (x ∷ ys)
  pub limits : SameLimits c c'
  pub freed : c'.freed ≡ freed_from_end c.has_free_fn c.freed gone

put_unknown :
    (m : Allocator) (c : Cache) (xs : List Cell) (key : ℕ) (value : Ptr) (size : ℕ)
    → IsSound m
    → IsCache c xs
    → value ≢ null
    → size ≤ c.max_memory
    → has_key key xs ≡ false
    → Refused m c xs key value size ⊎ Accepted m c xs key value size
put_unknown m c xs key value size sound is filled fits unknown =
    let rep = is.represents in
    let (r, evicted, ev) = evict_lem c size xs rep in
    elim (Option-cases (m.entry r.heap)) [
      | inl none_left ↦
          let missing = not_found c xs key rep (unknown_address xs key unknown) in
          let (s, ran, nothing) =
            no_entry m c r key value size (ground arith) (ground arith) missing evicted none_left in
          inl (record {
            c' = r;
            ys = ev.ys;
            rest = ev.rest;
            status = s;
            nothing = nothing;
            ran = ran;
            parts = ev.parts;
            left = ev.left;
            limits = ev.limits;
            freed = ev.freed;
          })
      | inr (a, given) ↦
          let room : HasRoom m c size = λ r' again.
            let same = same_run (evict c size) r r' evicted again in
            let at = ap (λ t. m.entry t.heap) (sym same) ∙ given in
            let (ne, free) = sound r'.heap a at in (a, at, ne, free) in
          let total = total-AllSmall c.max_memory xs is.sizes in
          let sum =
            most_memory c.max_entries c.max_memory (length xs) (total_size xs) is.within total
              is.sums in
          let (
            c', x, ys, rest, ran, key_is, value_is, size_is, parts, longest, rep', limits, freed,
            few, small,
          ) =
            put-new m c xs key value size room rep filled fits is.some_entry is.word unknown
              (omega arith) in
          let sizes =
            AllSmall-append c.max_memory ys rest (subst (AllSmall c.max_memory) parts is.sizes) in
          let entries = rep'.entries in
          inr (record {
            c' = c';
            x = x;
            ys = ys;
            gone = rest;
            ran = ran;
            kept = inl parts;
            within = omega arith;
            sizes = sizes.0;
            fits = fits;
            key_is = key_is;
            value_is = value_is;
            size_is = size_is;
            left = rep';
            limits = limits;
            freed = freed;
          })
    ]

put_known :
    (m : Allocator) (c : Cache) (xs : List Cell) (key : ℕ) (value : Ptr) (size : ℕ)
    → IsCache c xs
    → value ≢ null
    → size ≤ c.max_memory
    → has_key key xs ≡ true
    → Refused m c xs key value size ⊎ Accepted m c xs key value size
put_known m c xs key value size is filled fits known =
    let (both, sizes, same) = front-take_out c.max_memory key xs is.sizes in
    let fewer = take_out-length key xs known in
    let total = total-AllSmall c.max_memory (take_out key xs) sizes in
    let sum =
      most_memory c.max_entries c.max_memory (length (take_out key xs))
        (total_size (take_out key xs)) (omega (arith, is.within)) total is.sums in
    let (c', x, ran, key_is, value_is, size_is, rep, limits, freed) =
      put-existing m c xs key value size is.represents filled fits known (omega arith) in
    inr (record {
      c' = c';
      x = x;
      ys = take_out key xs;
      gone = front key xs;
      ran = ran;
      kept = inr (refl, refl);
      within = omega (arith, is.within);
      sizes = sizes;
      fits = fits;
      key_is = key_is;
      value_is = value_is;
      size_is = size_is;
      left = rep;
      limits = limits;
      freed = freed;
    })

pub put_outcome :
    (m : Allocator) (c : Cache) (xs : List Cell) (key : ℕ) (value : Ptr) (size : ℕ)
    → IsSound m
    → IsCache c xs
    → Refused m c xs key value size ⊎ Accepted m c xs key value size
unfolding put
put_outcome m c xs key value size sound is =
    let unchanged : (s : Status)
        → taken s value ≡ []
        → put m c key value size ≡ some (c, s)
        → Refused m c xs key value size ⊎ Accepted m c xs key value size =
      λ s nothing ran. inl (record {
        c' = c;
        ys = xs;
        rest = [];
        status = s;
        nothing = nothing;
        ran = ran;
        parts = sym (append-nil xs);
        left = is.represents;
        limits = (refl, refl, refl);
        freed = refl;
      }) in
    elim (Bool-cases (value == null)) [
      | inl empty ↦ unchanged einval refl (rw (put, empty) refl)
      | inr filled ↦ elim (Bool-cases (ltb c.max_memory size)) [
        | inl big ↦ unchanged e2big refl (rw (put, filled, big) refl)
        | inr small ↦ elim (Bool-cases (has_key key xs)) [
          | inl known ↦
              put_known m c xs key value size is (λ e. ground (arith, e)) (ground arith) known
          | inr unknown ↦
              put_unknown m c xs key value size sound is (λ e. ground (arith, e)) (ground arith)
                unknown
        ]
      ]
    ]
