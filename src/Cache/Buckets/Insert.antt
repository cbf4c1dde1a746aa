-- ===== src/Cache/Buckets/Insert.antt =====
-- src/core/cache.c, `hash_insert`: an entry becomes the first of its chain.
use squashfs_fuse.Cache.Buckets.Table.{Table, put_chain, update, slot-lt, find-nowhere, Table-put}
use squashfs_fuse.Cache.Buckets.{Chain, Chain-write}
use squashfs_fuse.Cache.Heap.{load-nonnull, load-write_self, SameLru, SameLru-write}
use squashfs_fuse.Cache.Nodes.{Node, first_or}
use squashfs_fuse.Cache.{Ptr, null, Entry, Heap, Cache, ◌>>=◌, load, write, slot, hash_insert}
use squashfs_fuse.Common.{
  ℕ, ◌+◌, Option, some, none, List, ◌∷◌, ◌≡◌, refl, inl, inr, arith, set, Bool-cases, ◌==◌,
}

-- An entry whose key the table does not have is put into it; the list of use is left alone.
pub hash_insert_lem :
    (c : Cache) (f : ℕ → Option Ptr) (total : ℕ) (chain : ℕ → List Node) (a : Ptr) (e : Entry)
    → Table c.heap c.buckets f total chain
    → load c.heap a ≡ some e
    → f e.key ≡ none
    → (g : Heap) × (buckets : List Ptr) × (chain' : ℕ → List Node) × (hash_insert c a
        ≡ some (record c { heap = g; buckets = buckets }))
      × SameLru c.heap g
      × Table g buckets (update f e.key (some a)) (total + 1) chain'
unfolding hash_insert
hash_insert_lem c f total chain a e t there absent =
    let idx = slot c.buckets e.key in
    let ns = chain idx in
    let first = t.firsts idx (slot-lt c.buckets t.exponent e.key t.width) in
    let new = record e { hnext = first_or null ns } in
    let g = write c.heap a (some new) in
    let nowhere = find-nowhere c.heap c.buckets f total chain t e.key absent in
    let others : (i : ℕ) → Chain g (chain i) =
      λ i. Chain-write c.heap a e (chain i) (some new) there (nowhere i) (t.chained i) in
    let here : Chain g ((a, e.key) ∷ ns) = (
      (new, load-write_self c.heap a (some new) (load-nonnull c.heap a there), (refl, refl)),
      others idx,
    ) in
    (
      g,
      set c.buckets idx a,
      put_chain chain idx ((a, e.key) ∷ ns),
      rw (hash_insert, there, ◌>>=◌, first, ◌>>=◌) refl,
      SameLru-write c.heap a e new there (refl, refl, refl, refl, refl),
      Table-put c.heap c.buckets f total chain t g e.key (some a) ((a, e.key) ∷ ns) (total + 1) here
          (λ i ne. others i) (nowhere idx, t.once idx)
          (λ k. elim (Bool-cases (k == e.key)) [
            | inl same ↦ ground (arith, same)
            | inr other ↦ ground (arith, other)
          ])
          (omega arith),
    )
