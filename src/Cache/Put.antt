-- ===== src/Cache/Put.antt =====
-- src/core/cache.c, `sqfs_cache_put` of a key that the cache has.
pub mod New
use squashfs_fuse.Cache.Access.{
  front, take_out, has_key, Located, locate, at_key, at_none, move_Represents,
}
use squashfs_fuse.Cache.Buckets.Table.{Table, Table-SameHash}
use squashfs_fuse.Cache.Drop.{key-out}
use squashfs_fuse.Cache.Evict.{freed_from_end}
use squashfs_fuse.Cache.Heap.{Cell, load-nonnull, load-write_self, SameHash, SameHash-write}
use squashfs_fuse.Cache.Nodes.{
  Node, node, nodes, find, Distinct, first_or, last_or, nodes-append, find-append_none,
}
use squashfs_fuse.Cache.Ops.{Allocator, Status, done, put, put_existing}
use squashfs_fuse.Cache.State.{
  Represents, SameLimits, Filled, total_size, addresses, Table-ext, length-middle, total-middle,
  Filled-middle,
}
use squashfs_fuse.Cache.Usage.Insert.{IsUsed}
use squashfs_fuse.Cache.Usage.{Seg, Seg-write, Seg-split, Seg-join}
use squashfs_fuse.Cache.{
  Ptr, null, Entry, Heap, Cache, ◌>>=◌, load, write, free_value, hash_find, lru_move_to_head,
}
use squashfs_fuse.Common.{
  ℕ, ◌+◌, ◌-◌, ◌^◌, ◌≤◌, ◌<◌, Bool, true, false, Option, some, none, List, [], ◌∷◌, ◌++◌, ◌≡◌, ◌≢◌,
  refl, sym, ap, ap₂, subst, ◌∙◌, inl, inr, arith, length, Bool-cases, Option-cases, ltb, ◌==◌,
  if◌then◌else◌,
}
use squashfs_fuse.Utils.{u64}

nodes-same :
    (x x' : Cell) (pre post : List Cell)
    → node x' ≡ node x
    → nodes (pre ++ (x' ∷ post)) ≡ nodes (pre ++ (x ∷ post))
nodes-same x x' pre post same =
    nodes-append pre (x' ∷ post)
    ∙ ap (λ n. nodes pre ++ (n ∷ nodes post)) same
    ∙ sym (nodes-append pre (x ∷ post))

Filled-put :
    (x x' : Cell) (pre post : List Cell)
    → x'.value ≢ null
    → Filled (pre ++ (x ∷ post))
    → Filled (pre ++ (x' ∷ post))
Filled-put x x' [] post filled h = (filled, h.1)
Filled-put x x' (y ∷ pre) post filled h = (h.0, Filled-put x x' pre post filled h.1)

-- The value and the size of an entry replaced where it stands.
set_Represents :
    (c : Cache) (x : Cell) (pre post : List Cell) (e : Entry) (value : Ptr) (size : ℕ)
    → Represents c (pre ++ (x ∷ post))
    → load c.heap x.addr ≡ some e
    → e.key ≡ x.key
    → value ≢ null
    → total_size (pre ++ post) + size < 2 ^ 64
    → let x' = record x { value = value; size = size } in
      Represents
        (record c {
          current_memory = u64 (u64 (c.current_memory + 2 ^ 64 - x.size) + size);
          freed = free_value c x.value;
          heap = write c.heap x.addr (some (record e { value = value; memory_size = size }));
        })
        (pre ++ (x' ∷ post))
set_Represents c x pre post e value size rep there key filled room =
    let x' : Cell = record x { value = value; size = size } in
    let xs = pre ++ (x ∷ post) in
    let ys = pre ++ (x' ∷ post) in
    let new = record e { value = value; memory_size = size } in
    let g = write c.heap x.addr (some new) in
    let same = nodes-same x x' pre post refl in
    let (out, out_rest) = key-out c x pre post rep.used in
    let out_both =
      find-append_none x.key (nodes pre) (nodes post)
        (ap (find x.key) (sym (nodes-append pre post)) ∙ out_rest) in
    let (left, right) = Seg-split c.heap null null pre (x ∷ post) rep.used.linked in
    let (e', there', fields) = right.0 in
    let is : e' ≡ e = ground (arith, sym there' ∙ there) in
    let left' =
      Seg-write c.heap x.addr null x.addr e pre (some new) there
        (ap (λ k. find k (nodes pre)) key ∙ out) left in
    let right' =
      Seg-write c.heap x.addr x.addr null e post (some new) there
        (ap (λ k. find k (nodes post)) key ∙ out_both.1) right.1 in
    let size_same : length xs ≡ length ys =
      length-middle x pre post ∙ sym (length-middle x' pre post) in
    let total = total-middle x pre post in
    let total' = total-middle x' pre post in
    let entries = rep.entries in
    let memory = rep.memory in
    let few = rep.few in
    let small = rep.small in
    record {
      used = record {
        head = rep.used.head ∙ ap (first_or null) (sym same);
        tail = rep.used.tail ∙ ap (last_or null) (sym same);
        linked = Seg-join g null null pre (x' ∷ post) left' (
          (
            new,
            load-write_self c.heap x.addr (some new) (load-nonnull c.heap x.addr there),
            (key, refl, refl, ground (arith, fields, is), ground (arith, fields, is)),
          ),
          right',
        );
        distinct = subst Distinct (sym same) rep.used.distinct;
      };
      chain = rep.chain;
      table =
          Table-ext g c.buckets (addresses xs) (addresses ys) (length xs) (length ys) rep.chain
            (λ k. ap (find k) (sym same)) size_same
            (Table-SameHash c.heap c.buckets (addresses xs) (length xs) rep.chain rep.table g
              (SameHash-write c.heap x.addr e new there (refl, refl)));
      entries = entries ∙ size_same;
      memory = omega arith;
      few = omega arith;
      small = omega arith;
      filled = Filled-put x x' pre post filled rep.filled;
    }

known_address :
    (xs : List Cell) (key : ℕ) → has_key key xs ≡ true → (a : Ptr) × (addresses xs key ≡ some a)
known_address [] key h = cc
known_address (x ∷ xs) key h = elim (Bool-cases (x.key == key)) [
  | inl here ↦ (x.addr, rw here refl)
  | inr other ↦ let (a, found) = known_address xs key (rw other at h) in (a, rw other found)
]

-- The steps of the call.
put_run :
    (m : Allocator) (c c' : Cache) (key : ℕ) (value : Ptr) (size : ℕ) (a : Ptr) (e : Entry)
    (old : Ptr) (old_size : ℕ)
    → (value == null) ≡ false
    → ltb c.max_memory size ≡ false
    → hash_find c key ≡ some a
    → (a == null) ≡ false
    → load c.heap a ≡ some e
    → e.value ≡ old
    → e.memory_size ≡ old_size
    → lru_move_to_head
        (record c {
          current_memory = u64 (u64 (c.current_memory + 2 ^ 64 - old_size) + size);
          freed = free_value c old;
          heap = write c.heap a (some (record e { value = value; memory_size = size }));
        })
        a
      ≡ some c'
    → put m c key value size ≡ some (c', done)
unfolding put put_existing
put_run m c c' key value size a e old old_size given small found not_null loaded value_is size_is
      run =
    let moved : lru_move_to_head
          (record c {
            current_memory = u64 (u64 (c.current_memory + 2 ^ 64 - e.memory_size) + size);
            freed = free_value c e.value;
            heap = write c.heap a (some (record e { value = value; memory_size = size }));
          })
          a
        ≡ some c' =
      ap
        (λ n.
          lru_move_to_head
            (record c {
              current_memory = u64 (u64 (c.current_memory + 2 ^ 64 - n) + size);
              freed = free_value c e.value;
              heap = write c.heap a (some (record e { value = value; memory_size = size }));
            })
            a)
        size_is
      ∙ ap
          (λ v.
            lru_move_to_head
              (record c {
                current_memory = u64 (u64 (c.current_memory + 2 ^ 64 - old_size) + size);
                freed = free_value c v;
                heap = write c.heap a (some (record e { value = value; memory_size = size }));
              })
              a)
          value_is
      ∙ run in
    rw (put, given, small, found, ◌>>=◌, not_null, put_existing, loaded, ◌>>=◌, moved) refl

-- Putting a key that the cache has never fails, if the value is not NULL and no larger than the limit,
-- and its size and those of the other entries add up to less than 2 ^ 64: the old value is freed, and the entry with the new value and its size is the one that was used
-- last; no other entry goes, whatever the limit on memory.
pub put-existing :
    (m : Allocator) (c : Cache) (xs : List Cell) (key : ℕ) (value : Ptr) (size : ℕ)
    → Represents c xs
    → value ≢ null
    → size ≤ c.max_memory
    → has_key key xs ≡ true
    → total_size (take_out key xs) + size < 2 ^ 64
    → (c' : Cache) × (x : Cell) × (put m c key value size ≡ some (c', done))
      × (x.key ≡ key)
      × (x.value ≡ value)
      × (x.size ≡ size)
      × Represents c' (x ∷ take_out key xs)
      × SameLimits c c'
      × (c'.freed ≡ freed_from_end c.has_free_fn c.freed (front key xs))
put-existing m c xs key value size rep filled fits known room =
    let (a, there) = known_address xs key known in
    let at = locate c xs key a rep there in
    let here = at_key c xs key at in
    let rep' = subst (Represents c) at.parts rep in
    let x' : Cell = record at.x { value = value; size = size } in
    let rep₁ =
      set_Represents c at.x at.pre at.post at.e value size rep' at.there at.fields.0 filled
        (subst (λ t. total_size t + size < 2 ^ 64) here.others room) in
    let new = record at.e { value = value; memory_size = size } in
    let c₁ = record c {
      current_memory = u64 (u64 (c.current_memory + 2 ^ 64 - at.x.size) + size);
      freed = free_value c at.x.value;
      heap = write c.heap at.x.addr (some new);
    } in
    let (g, head, tail, run, rep₂) = move_Represents c₁ x' at.pre at.post rep₁ in
    let c' = record c₁ { heap = g; head = head; tail = tail } in
    let given : (value == null) ≡ false = ground arith in
    let small : ltb c.max_memory size ≡ false = ground arith in
    let old = (Filled-middle at.x at.pre at.post rep'.filled).0 in
    let freed_value : free_value c at.x.value ≡ freed_from_end c.has_free_fn c.freed (at.x ∷ []) =
      ground arith in
    (
      c',
      x',
      put_run m c c' key value size at.x.addr at.e at.x.value at.x.size given small at.found
          at.known at.there at.fields.1 at.fields.2 run,
      at.key_is,
      refl,
      refl,
      subst (λ t. Represents c' (x' ∷ t)) (sym here.others) rep₂,
      (refl, refl, refl),
      freed_value ∙ sym (ap (freed_from_end c.has_free_fn c.freed) here.entry),
    )
