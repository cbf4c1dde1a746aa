-- ===== src/Cache/Drop.antt =====
-- src/core/cache.c, an entry leaves the cache: the steps that `cache_evict` and `sqfs_cache_remove`
-- share.
use squashfs_fuse.Cache.Buckets.Remove.{hash_remove_lem}
use squashfs_fuse.Cache.Buckets.Table.{update, Table-SameHash, Table-write}
use squashfs_fuse.Cache.Heap.{Cell}
use squashfs_fuse.Cache.Nodes.{nodes, find, nodes-append, Distinct-append, find-append_right}
use squashfs_fuse.Cache.State.{
  Represents, SameLimits, addresses, Table-ext, IsUsed-SameLru, addresses-middle, length-middle,
  total-middle, Filled-middle,
}
use squashfs_fuse.Cache.Usage.Insert.{IsUsed}
use squashfs_fuse.Cache.Usage.Remove.{lru_remove_lem}
use squashfs_fuse.Cache.Usage.{Seg-write}
use squashfs_fuse.Cache.{null, Cache, ◌>>=◌, write, free_value, entry_free, hash_remove, lru_remove}
use squashfs_fuse.Common.{
  ℕ, false, ◌+◌, ◌-◌, ◌^◌, some, none, List, ◌∷◌, ◌++◌, ◌≡◌, refl, sym, ap, ◌∙◌, inl, inr, arith,
  length, Bool-cases, Option-cases, ◌==◌,
}
use squashfs_fuse.Utils.{u64}

-- The keys beside an entry are others.
pub key-out :
    (c : Cache) (x : Cell) (pre post : List Cell)
    → IsUsed c (pre ++ (x ∷ post))
    → (find x.key (nodes pre) ≡ none) × (find x.key (nodes (pre ++ post)) ≡ none)
key-out c x pre post used =
    let both = nodes-append pre (x ∷ post) in
    let (d_pre, d_rest, across) =
      Distinct-append (nodes pre) (nodes (x ∷ post)) (rw both at used.distinct) in
    let out : find x.key (nodes pre) ≡ none = elim (Option-cases (find x.key (nodes pre))) [
      | inl missing ↦ missing
      | inr (a, there) ↦
          let absent = across x.key (λ m. ground (arith, m)) in ground (arith, absent)
    ] in
    (
      out,
      ap (find x.key) (nodes-append pre post)
          ∙ find-append_right x.key (nodes pre) (nodes post) out d_rest.0,
    )

-- The last of the steps: the counters, and the entry given back.
abbrev pub forget : Cache → ℕ → Cache
forget c size = record c {
  current_entries = u64 (c.current_entries + 2 ^ 64 - 1);
  current_memory = u64 (c.current_memory + 2 ^ 64 - size);
}

-- An entry of the cache is taken out of the table and of the list of use, and freed with its value;
-- the cache has the other entries in their order.
pub drop_entry :
    (c : Cache) (x : Cell) (pre post : List Cell)
    → Represents c (pre ++ (x ∷ post))
    → (c₁ : Cache) × (c₂ : Cache) × (c' : Cache) × (hash_remove c x.key ≡ some c₁)
      × (lru_remove c₁ x.addr ≡ some c₂)
      × (entry_free (forget c₂ x.size) x.addr ≡ some c')
      × Represents c' (pre ++ post)
      × SameLimits c c'
      × (c'.freed ≡ free_value c x.value)
unfolding entry_free
drop_entry c x pre post rep =
    let xs = pre ++ (x ∷ post) in
    let rest = pre ++ post in
    let (out, out_rest) = key-out c x pre post rep.used in
    let found : addresses xs x.key ≡ some x.addr =
      addresses-middle x pre post x.key out ∙ ground arith in
    let (h₁, buckets, chain, run₁, same₁, table₁) =
      hash_remove_lem c (addresses xs) (length xs) rep.chain x.key x.addr rep.table
        (omega (arith, rep.entries)) found in
    let c₁ = record c { heap = h₁; buckets = buckets } in
    let used₁ = IsUsed-SameLru c h₁ buckets xs same₁ rep.used in
    let (h₂, head, tail, run₂, same₂, used₂, (e, there, (key, value, size))) =
      lru_remove_lem c₁ x pre post used₁ in
    let c₂ = record c₁ { heap = h₂; head = head; tail = tail } in
    let table₂ =
      Table-SameHash h₁ buckets (update (addresses xs) x.key none) (length xs - 1) chain table₁ h₂
        same₂ in
    let without : (k : ℕ) → update (addresses xs) x.key none k ≡ addresses rest k = λ k.
      elim (Bool-cases (k == x.key)) [
        | inl same ↦
            let at : k ≡ x.key = ground arith in rw same (sym (ap (addresses rest) at ∙ out_rest))
        | inr other ↦
            let other' : (x.key == k) ≡ false = ground arith in
            rw other (addresses-middle x pre post k out ∙ rw other' refl)
      ] in
    let fewer = length-middle x pre post in
    let less = total-middle x pre post in
    let table₃ =
      Table-ext h₂ buckets (update (addresses xs) x.key none) (addresses rest) (length xs - 1)
        (length rest) chain without (omega arith) table₂ in
    let absent : find e.key (nodes rest) ≡ none = ap (λ k. find k (nodes rest)) key ∙ out_rest in
    let filled = Filled-middle x pre post rep.filled in
    let entries = rep.entries in
    let memory = rep.memory in
    let few = rep.few in
    let small = rep.small in
    let freed : free_value c e.value ≡ free_value c x.value = ap (free_value c) value in
    (
      c₁,
      c₂,
      record (forget c₂ x.size) { freed = free_value c e.value; heap = write h₂ x.addr none },
      run₁,
      run₂,
      rw (entry_free, there, ◌>>=◌) refl,
      record {
        used = record {
          head = used₂.head;
          tail = used₂.tail;
          linked = Seg-write h₂ x.addr null null e rest none there absent used₂.linked;
          distinct = used₂.distinct;
        };
        chain = chain;
        table =
            Table-write h₂ buckets (addresses rest) (length rest) chain table₃ x.addr e none there
              absent;
        entries = omega arith;
        memory = omega arith;
        few = omega arith;
        small = omega arith;
        filled = filled.1;
      },
      (refl, refl, refl),
      freed,
    )
