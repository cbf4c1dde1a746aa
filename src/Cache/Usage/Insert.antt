-- ===== src/Cache/Usage/Insert.antt =====
-- src/core/cache.c, `lru_insert_head`: the entry becomes the first of the list of use.
use squashfs_fuse.Cache.Heap.{
  Cell, load-nonnull, nonnull-test, load-write_self, load-write_ne, SameHash, SameHash-trans,
  SameHash-write,
}
use squashfs_fuse.Cache.Nodes.{nodes, find, Distinct, first_or, last_or}
use squashfs_fuse.Cache.Usage.{Seg, Seg-write, set_first_prev}
use squashfs_fuse.Cache.{Ptr, null, Entry, Heap, Cache, load, write, lru_insert_head}
use squashfs_fuse.Common.{some, none, List, [], ◌∷◌, ◌≡◌, ◌≢◌, refl, sym, ap, ◌∙◌, arith}

-- The list of use of a cache.
pub record IsUsed (c : Cache) (xs : List Cell) : Type 0 where
  pub head : c.head ≡ first_or null (nodes xs)
  pub tail : c.tail ≡ last_or null (nodes xs)
  pub linked : Seg c.heap null xs null
  pub distinct : Distinct (nodes xs)

module _ (c : Cache) (x : Cell) (e : Entry) (there : load c.heap x.addr ≡ some e)
    (key : e.key ≡ x.key) (value : e.value ≡ x.value) (size : e.memory_size ≡ x.size) where
  insert_first :
      c.head ≡ null
      → (g : Heap) × (lru_insert_head c x.addr
          ≡ some (record c { heap = g; head = x.addr; tail = x.addr }))
        × SameHash c.heap g
        × Seg g null (x ∷ []) null
  unfolding lru_insert_head
  insert_first empty =
      let new = record e { prev = null; next = null } in
      let g = write c.heap x.addr (some new) in
      let ne = load-nonnull c.heap x.addr there in
      (
        g,
        rw (lru_insert_head, there, empty) refl,
        SameHash-write c.heap x.addr e new there (refl, refl),
        ((new, load-write_self c.heap x.addr (some new) ne, (key, value, size, refl, refl)), tt),
      )

  insert_before :
      (y : Cell) (ys : List Cell)
      → c.head ≡ y.addr
      → Seg c.heap null (y ∷ ys) null
      → Distinct (nodes (x ∷ y ∷ ys))
      → (g : Heap) × (lru_insert_head c x.addr ≡ some (record c { heap = g; head = x.addr }))
        × SameHash c.heap g
        × Seg g null (x ∷ y ∷ ys) null
  unfolding lru_insert_head
  insert_before y ys first s d =
      let new = record e { prev = null; next = y.addr } in
      let h₁ = write c.heap x.addr (some new) in
      let (old, old_there, old_fields) = s.0 in
      let ne = load-nonnull c.heap x.addr there in
      let other : y.addr ≢ x.addr = λ same.
        ground (arith, d.0, key, old_fields, sym old_there ∙ ap (load c.heap) same ∙ there) in
      let old_there₁ : load h₁ y.addr ≡ some old =
        load-write_ne c.heap x.addr y.addr (some new) other ∙ old_there in
      let new_old = record old { prev = x.addr } in
      let g = write h₁ y.addr (some new_old) in
      let unlinked : find e.key (nodes (y ∷ ys)) ≡ none =
        ap (λ k. find k (nodes (y ∷ ys))) key ∙ d.0 in
      let s₁ = Seg-write c.heap x.addr null null e (y ∷ ys) (some new) there unlinked s in
      let test = nonnull-test y.addr (load-nonnull c.heap y.addr old_there) in
      (
        g,
        rw (lru_insert_head, there, first, test, old_there₁) refl,
        SameHash-trans c.heap h₁ g (SameHash-write c.heap x.addr e new there (refl, refl))
            (SameHash-write h₁ y.addr old new_old old_there₁ (refl, refl)),
        (
          (
            new,
            load-write_ne h₁ y.addr x.addr (some new_old) (λ q. other (sym q))
                ∙ load-write_self c.heap x.addr (some new) ne,
            (key, value, size, refl, refl),
          ),
          set_first_prev h₁ null null x.addr y ys old s₁ d.1 old_there₁,
        ),
      )

-- An entry that is not in the list, with a key that no other has, becomes its first; the chains of the
-- table are left alone.
pub lru_insert_head_lem :
    (c : Cache) (x : Cell) (e : Entry) (xs : List Cell)
    → load c.heap x.addr ≡ some e
    → e.key ≡ x.key
    → e.value ≡ x.value
    → e.memory_size ≡ x.size
    → find x.key (nodes xs) ≡ none
    → IsUsed c xs
    → (g : Heap) × (tail : Ptr) × (lru_insert_head c x.addr
        ≡ some (record c { heap = g; head = x.addr; tail = tail }))
      × SameHash c.heap g
      × IsUsed (record c { heap = g; head = x.addr; tail = tail }) (x ∷ xs)
lru_insert_head_lem c x e [] there key value size out used =
    let (g, run, same, s) = insert_first c x e there key value size used.head in
    (g, x.addr, run, same, record { head = refl; tail = refl; linked = s; distinct = (refl, tt) })
lru_insert_head_lem c x e (y ∷ ys) there key value size out used =
    let d : Distinct (nodes (x ∷ y ∷ ys)) = (out, used.distinct) in
    let (g, run, same, s) = insert_before c x e there key value size y ys used.head used.linked d in
    (g, c.tail, run, same, record { head = refl; tail = used.tail; linked = s; distinct = d })
