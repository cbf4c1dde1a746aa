-- ===== src/Cache/Access/Remove.antt =====
-- src/core/cache.c, `sqfs_cache_remove` on what the cache represents.
use squashfs_fuse.Cache.Access.{front, take_out, at_none, locate, at_key, not_found}
use squashfs_fuse.Cache.Drop.{drop_entry, forget}
use squashfs_fuse.Cache.Evict.{freed_from_end}
use squashfs_fuse.Cache.Heap.{Cell}
use squashfs_fuse.Cache.Ops.{remove}
use squashfs_fuse.Cache.State.{Represents, SameLimits, addresses, Filled-middle}
use squashfs_fuse.Cache.{Cache, ◌>>=◌, free_value, entry_free, hash_remove}
use squashfs_fuse.Common.{
  ℕ, some, List, [], ◌∷◌, ◌≡◌, refl, sym, ap, subst, ◌∙◌, inl, inr, arith, Option-cases,
}

-- A removal never faults: the entry of the key goes, if there is one, and its value is freed; the
-- others keep their order.
pub remove_lem :
    (c : Cache) (xs : List Cell) (key : ℕ)
    → Represents c xs
    → (c' : Cache) × (remove c key ≡ some c')
      × Represents c' (take_out key xs)
      × SameLimits c c'
      × (c'.freed ≡ freed_from_end c.has_free_fn c.freed (front key xs))
unfolding remove
remove_lem c xs key rep = elim (Option-cases (addresses xs key)) [
  | inl absent ↦
      let none_there = at_none xs key absent in
      let missing = not_found c xs key rep absent in
      (
        c,
        rw (remove, missing, ◌>>=◌) refl,
        subst (Represents c) (sym none_there.others) rep,
        (refl, refl, refl),
        sym (ap (freed_from_end c.has_free_fn c.freed) none_there.entry),
      )
  | inr (a, there) ↦
      let at = locate c xs key a rep there in
      let here = at_key c xs key at in
      let rep' = subst (Represents c) at.parts rep in
      let (c₁, c₂, c', run₁, run₂, run₃, rep₁, limits, freed) =
        drop_entry c at.x at.pre at.post rep' in
      let found = at.found in
      let loaded = at.there in
      let known = at.known in
      let hashed = ap (hash_remove c) (sym at.key_is) ∙ run₁ in
      let given = ap (λ n. entry_free (forget c₂ n) at.x.addr) at.fields.2 ∙ run₃ in
      let value = (Filled-middle at.x at.pre at.post rep'.filled).0 in
      let freed_value : free_value c at.x.value ≡ freed_from_end c.has_free_fn c.freed (at.x ∷ []) =
        ground arith in
      (
        c',
        rw (remove, found, ◌>>=◌, known, loaded, ◌>>=◌, hashed, ◌>>=◌, run₂, ◌>>=◌) given,
        subst (Represents c') (sym here.others) rep₁,
        limits,
        freed ∙ freed_value ∙ sym (ap (freed_from_end c.has_free_fn c.freed) here.entry),
      )
]
