-- ===== src/Cache/Evict.antt =====
-- src/core/cache.c, `cache_evict`: entries go from the end of the list of use until the rest leaves
-- room.
use squashfs_fuse.Cache.Drop.{drop_entry, forget}
use squashfs_fuse.Cache.Heap.{Cell, load-nonnull, nonnull-test}
use squashfs_fuse.Cache.Nodes.{nodes, last_or, last_or-append, nodes-append}
use squashfs_fuse.Cache.Ops.{evict_tail, evict_loop, evict}
use squashfs_fuse.Cache.State.{Represents, SameLimits, SameLimits-trans, Filled, total_size}
use squashfs_fuse.Cache.Usage.{Seg-split}
use squashfs_fuse.Cache.{
  Ptr, null, Cache, ◌>>=◌, load, free_value, entry_free, hash_remove, lru_remove,
}
use squashfs_fuse.Common.{
  ℕ, zero, suc, ◌+◌, ◌<◌, Bool, true, false, ◌&&◌, some, List, [], ◌∷◌, ◌++◌, append-nil,
  append_assoc, ◌≡◌, ◌≢◌, refl, sym, ap, subst, ◌∙◌, ◌⊎◌, inl, inr, arith, length, length-append,
  Bool-cases, ltb, leb, ◌==◌, if◌then◌else◌,
}
use squashfs_fuse.Utils.{u64}

-- Values that were freed from the end on, before those that were freed earlier.
abbrev pub freed_from_end : Bool → List Ptr → List Cell → List Ptr
freed_from_end has earlier [] = earlier
freed_from_end has earlier (x ∷ xs) =
    if has then x.value ∷ freed_from_end has earlier xs else freed_from_end has earlier xs

freed_from_end-last :
    (has : Bool) (earlier : List Ptr) (xs : List Cell) (x : Cell)
    → freed_from_end has earlier (xs ++ (x ∷ []))
      ≡ freed_from_end has (freed_from_end has earlier (x ∷ [])) xs
freed_from_end-last has earlier [] x = refl
freed_from_end-last true earlier (y ∷ xs) x =
    ap (◌∷◌ y.value) (freed_from_end-last true earlier xs x)
freed_from_end-last false earlier (y ∷ xs) x = freed_from_end-last false earlier xs x

last_view : (xs : List Cell) → (xs ≡ []) ⊎ ((pre : List Cell) × (x : Cell) × (xs ≡ pre ++ (x ∷ [])))
last_view [] = inl refl
last_view (x ∷ xs) = elim (last_view xs) [
  | inl empty ↦ inr ([], x, ap (◌∷◌ x) empty)
  | inr (pre, y, is) ↦ inr (x ∷ pre, y, ap (◌∷◌ x) is)
]

Filled-last : (pre : List Cell) (x : Cell) → Filled (pre ++ (x ∷ [])) → x.value ≢ null
Filled-last [] x h = h.0
Filled-last (y ∷ pre) x h = Filled-last pre x h.1

tail_last :
    (c : Cache) (pre : List Cell) (x : Cell) → Represents c (pre ++ (x ∷ [])) → c.tail ≡ x.addr
tail_last c pre x rep =
    rep.used.tail
    ∙ ap (last_or null) (nodes-append pre (x ∷ []))
    ∙ sym (last_or-append null (nodes pre) (nodes (x ∷ [])))

-- The last entry of the list of use goes.
evict_tail_lem :
    (c : Cache) (pre : List Cell) (x : Cell)
    → Represents c (pre ++ (x ∷ []))
    → (c' : Cache) × (evict_tail c ≡ some c')
      × Represents c' pre
      × SameLimits c c'
      × (c'.freed ≡ free_value c x.value)
unfolding evict_tail
evict_tail_lem c pre x rep =
    let (c₁, c₂, c', run₁, run₂, run₃, rep', limits, freed) = drop_entry c x pre [] rep in
    let tail = tail_last c pre x rep in
    let (left, right) = Seg-split c.heap null null pre (x ∷ []) rep.used.linked in
    let (e, there, fields) = right.0 in
    let key : e.key ≡ x.key = ground (arith, fields) in
    let size : e.memory_size ≡ x.size = ground (arith, fields) in
    let loaded = ap (load c.heap) tail ∙ there in
    let hashed = ap (hash_remove c) key ∙ run₁ in
    let listed = ap (lru_remove c₁) tail ∙ run₂ in
    let given = ap (entry_free (forget c₂ x.size)) tail ∙ run₃ in
    let sized = ap (λ n. entry_free (forget c₂ n) c.tail) size ∙ given in
    (
      c',
      rw (evict_tail, loaded, ◌>>=◌, hashed, ◌>>=◌, listed, ◌>>=◌) sized,
      subst (Represents c') (append-nil pre) rep',
      limits,
      freed,
    )

-- Whether entries leave room for one that takes `needed` bytes.
abbrev pub fits : ℕ → ℕ → ℕ → List Cell → Bool
fits max_entries max_memory needed xs =
    ltb (length xs) max_entries && leb (u64 (total_size xs + needed)) max_memory

-- `ys` leaves room, or is empty, and with one entry more of those behind it there is none.
abbrev pub IsLongest : ℕ → ℕ → ℕ → List Cell → List Cell → Type 0
IsLongest max_entries max_memory needed ys rest =
    ((ys ≡ []) ⊎ (fits max_entries max_memory needed ys ≡ true))
    × ((rest ≡ [])
        ⊎ ((r : Cell) × (more : List Cell) × (rest ≡ r ∷ more)
            × (fits max_entries max_memory needed (ys ++ (r ∷ [])) ≡ false)))

-- What the eviction leaves of `xs`, and what it frees.
pub record Evicted (c : Cache) (needed : ℕ) (xs : List Cell) (c' : Cache) : Type 0 where
  pub ys : List Cell
  pub rest : List Cell
  pub parts : xs ≡ ys ++ rest
  pub longest : IsLongest c.max_entries c.max_memory needed ys rest
  pub left : Represents c' ys
  pub limits : SameLimits c c'
  pub freed : c'.freed ≡ freed_from_end c.has_free_fn c.freed rest

-- One entry more goes, before those of an eviction.
one_more :
    (c c₁ c' : Cache) (needed : ℕ) (pre : List Cell) (x : Cell)
    → fits c.max_entries c.max_memory needed (pre ++ (x ∷ [])) ≡ false
    → x.value ≢ null
    → SameLimits c c₁
    → c₁.freed ≡ free_value c x.value
    → Evicted c₁ needed pre c'
    → Evicted c needed (pre ++ (x ∷ [])) c'
one_more c c₁ c' needed pre x full filled limits freed ev =
    let value_freed : free_value c x.value ≡ freed_from_end c.has_free_fn c.freed (x ∷ []) =
      ground arith in
    let longest : IsLongest c.max_entries c.max_memory needed ev.ys ev.rest =
      subst (λ m. IsLongest c.max_entries m needed ev.ys ev.rest) limits.1
        (subst (λ n. IsLongest n c₁.max_memory needed ev.ys ev.rest) limits.0 ev.longest) in
    record {
      ys = ev.ys;
      rest = ev.rest ++ (x ∷ []);
      parts = ap (λ t. t ++ (x ∷ [])) ev.parts ∙ append_assoc ev.ys ev.rest (x ∷ []);
      longest = (
        longest.0,
        inr (elim longest.1 [
          | inl all ↦ (
            x,
            [],
            ap (λ t. t ++ (x ∷ [])) all,
            ap (λ t. fits c.max_entries c.max_memory needed (t ++ (x ∷ [])))
                  (sym (ev.parts ∙ ap (λ t. ev.ys ++ t) all ∙ append-nil ev.ys))
                ∙ full,
          )
          | inr (r, more, is, over) ↦ (r, more ++ (x ∷ []), ap (λ t. t ++ (x ∷ [])) is, over)
        ]),
      );
      left = ev.left;
      limits = SameLimits-trans c c₁ c' limits ev.limits;
      freed =
          ev.freed
          ∙ ap (λ h. freed_from_end h c₁.freed ev.rest) limits.2
          ∙ ap (λ f. freed_from_end c.has_free_fn f ev.rest) (freed ∙ value_freed)
          ∙ sym (freed_from_end-last c.has_free_fn c.freed ev.rest x);
    }

evict_loop_lem :
    (fuel : ℕ) (c : Cache) (needed : ℕ) (xs : List Cell)
    → Represents c xs
    → length xs < fuel
    → (c' : Cache) × (evict_loop fuel c needed ≡ some c') × Evicted c needed xs c'
unfolding evict_loop
evict_loop_lem zero c needed xs rep enough = absurd (omega arith)
evict_loop_lem (suc fuel) c needed xs rep enough = elim (last_view xs) [
  | inl empty ↦
      let at_end : (c.tail == null) ≡ true =
        ground (arith, rep.used.tail ∙ ap (λ t. last_or null (nodes t)) empty) in
      (
        c,
        rw (evict_loop, at_end) refl,
        record {
          ys = xs;
          rest = [];
          parts = sym (append-nil xs);
          longest = (inl empty, inl refl);
          left = rep;
          limits = (refl, refl, refl);
          freed = refl;
        },
      )
  | inr (pre, x, is) ↦
      let rep' = subst (Represents c) is rep in
      let right = (Seg-split c.heap null null pre (x ∷ []) rep'.used.linked).1 in
      let (e, there, fields) = right.0 in
      let tail : c.tail ≡ x.addr = tail_last c pre x rep' in
      let more : (c.tail == null) ≡ false =
        nonnull-test c.tail (λ q. load-nonnull c.heap x.addr there (sym tail ∙ q)) in
      let test : (ltb c.current_entries c.max_entries
            && leb (u64 (c.current_memory + needed)) c.max_memory)
          ≡ fits c.max_entries c.max_memory needed xs =
        ap (λ n. ltb n c.max_entries && leb (u64 (c.current_memory + needed)) c.max_memory)
          rep.entries
        ∙ ap (λ n. ltb (length xs) c.max_entries && leb (u64 (n + needed)) c.max_memory)
            rep.memory in
      elim (Bool-cases (fits c.max_entries c.max_memory needed xs)) [
        | inl room ↦
            let enough_room = test ∙ room in
            (
              c,
              rw (evict_loop, more, enough_room) refl,
              record {
                ys = xs;
                rest = [];
                parts = sym (append-nil xs);
                longest = (inr room, inl refl);
                left = rep;
                limits = (refl, refl, refl);
                freed = refl;
              },
            )
        | inr full ↦
            let no_room = test ∙ full in
            let (c₁, run₁, rep₁, limits, freed) = evict_tail_lem c pre x rep' in
            let size = ap length is ∙ length-append pre (x ∷ []) in
            let (c', run, ev) = evict_loop_lem fuel c₁ needed pre rep₁ (omega arith) in
            let ev' =
              one_more c c₁ c' needed pre x
                (ap (fits c.max_entries c.max_memory needed) (sym is) ∙ full)
                (Filled-last pre x rep'.filled) limits freed ev in
            (
              c',
              rw (evict_loop, more, no_room, run₁) run,
              subst (λ t. Evicted c needed t c') (sym is) ev',
            )
      ]
]

-- The eviction keeps the longest part of the list of use, from its head on, that leaves room for
-- the new entry, and frees the values of the others.
pub evict_lem :
    (c : Cache) (needed : ℕ) (xs : List Cell)
    → Represents c xs
    → (c' : Cache) × (evict c needed ≡ some c') × Evicted c needed xs c'
unfolding evict
evict_lem c needed xs rep =
    evict_loop_lem (c.current_entries + 1) c needed xs rep (omega (arith, rep.entries))
