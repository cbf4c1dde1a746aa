-- ===== src/Cache/Buckets/Remove.antt =====
-- src/core/cache.c, `hash_remove`: the walk along a chain and the unlinking of the entry.
use squashfs_fuse.Cache.Buckets.Table.{
  Table, put_chain, update, slot-lt, length-chain, set-get, Table-put, length-erase,
  find-erase_other, find-erase_self, Distinct-erase,
}
use squashfs_fuse.Cache.Buckets.{
  Chain, SameBut-write, Chain-SameBut, IsErased, Chain-write, unlink_behind,
}
use squashfs_fuse.Cache.Heap.{load-nonnull, nonnull-test, SameLru, SameLru-write}
use squashfs_fuse.Cache.Nodes.{Node, find, erase, Distinct, first_or}
use squashfs_fuse.Cache.{
  Ptr, null, Heap, Cache, ◌>>=◌, write, slot, hash_unlink, remove_loop, hash_remove,
}
use squashfs_fuse.Common.{
  ℕ, zero, suc, ◌+◌, ◌-◌, ◌≤◌, ◌<◌, Option, some, none, List, [], ◌∷◌, ◌≡◌, ◌≢◌, refl, sym, ap, ◌∙◌,
  inl, inr, arith, length, get_elem?, set, Bool-cases, ◌==◌,
}

module _ (c : Cache) (idx key : ℕ) where
  -- Looking on behind the entry `m`.
  remove_behind :
      (fuel : ℕ) (m : Node) (ns : List Node) (a : Ptr)
      → Chain c.heap (m ∷ ns)
      → Distinct (m ∷ ns)
      → find key ns ≡ some a
      → length ns < fuel
      → (g : Heap) × (remove_loop fuel c idx m.0 (first_or null ns) key
          ≡ some (record c { heap = g }))
        × IsErased c.heap g (m ∷ ns) (m ∷ erase key ns)
  unfolding remove_loop
  remove_behind zero m ns a s d found enough = absurd (omega arith)
  remove_behind (suc fuel) m [] a s d found enough = cc
  remove_behind (suc fuel) m (n ∷ ns) a s d found enough =
      let (e, there, (is, next)) = s.1.0 in
      let test = nonnull-test n.0 (load-nonnull c.heap n.0 there) in
      elim (Bool-cases (n.1 == key)) [
        | inl here ↦
            let hit = ap (λ k. k == key) is ∙ here in
            let (g, run, erased) = unlink_behind c idx key m n ns s d in
            (g, rw (remove_loop, test, there, ◌>>=◌, hit) run, rw here erased)
        | inr other ↦
            let miss = ap (λ k. k == key) is ∙ other in
            let later : find key ns ≡ some a = ground arith in
            let (g, run, erased) = remove_behind fuel n ns a s.1 d.1 later (omega arith) in
            let (old, old_there, fields) = s.0 in
            let out : find old.key (n ∷ ns) ≡ none = ap (λ k. find k (n ∷ ns)) fields.0 ∙ d.0 in
            (
              g,
              rw (remove_loop, test, there, ◌>>=◌, miss, next) run,
              record {
                chain =
                    rw other (
                      (old, erased.others m.0 old old_there out ∙ old_there, fields),
                      erased.chain,
                    );
                same = erased.same;
                others = λ b e' there' absent. erased.others b e' there' (ground arith);
              },
            )
      ]

  -- The first entry of the chain.
  remove_first :
      (n : Node) (ns : List Node)
      → Chain c.heap (n ∷ ns)
      → Distinct (n ∷ ns)
      → (g : Heap) × (hash_unlink c idx null n.0
          ≡ some (record c { heap = g; buckets = set c.buckets idx (first_or null ns) }))
        × IsErased c.heap g (n ∷ ns) ns
  unfolding hash_unlink
  remove_first n ns ((e, there, (is, next)), s) d =
      let new = record e { hnext = null } in
      let out : find e.key ns ≡ none = ap (λ k. find k ns) is ∙ d.0 in
      (
        write c.heap n.0 (some new),
        rw (hash_unlink, there, next) refl,
        record {
          chain = Chain-write c.heap n.0 e ns (some new) there out s;
          same = SameLru-write c.heap n.0 e new there (refl, refl, refl, refl, refl);
          others = SameBut-write c.heap n.0 e (n ∷ ns) (some new) there (λ q. ground (arith, is));
        },
      )

  -- The whole walk, over a chain that has the key.
  pub remove_in_bucket :
      (fuel : ℕ) (ns : List Node) (a : Ptr)
      → Chain c.heap ns
      → Distinct ns
      → find key ns ≡ some a
      → length ns < fuel
      → get_elem? c.buckets idx ≡ some (first_or null ns)
      → (g : Heap) × (remove_loop fuel c idx null (first_or null ns) key
          ≡ some
              (record c { heap = g; buckets = set c.buckets idx (first_or null (erase key ns)) }))
        × IsErased c.heap g ns (erase key ns)
  unfolding remove_loop
  remove_in_bucket zero ns a s d found enough first = absurd (omega arith)
  remove_in_bucket (suc fuel) [] a s d found enough first = cc
  remove_in_bucket (suc fuel) (n ∷ ns) a s d found enough first =
      let (e, there, (is, next)) = s.0 in
      let test = nonnull-test n.0 (load-nonnull c.heap n.0 there) in
      elim (Bool-cases (n.1 == key)) [
        | inl here ↦
            let hit = ap (λ k. k == key) is ∙ here in
            let (g, run, erased) = remove_first n ns s d in
            (g, rw (remove_loop, test, there, ◌>>=◌, hit, here) run, rw here erased)
        | inr other ↦
            let miss = ap (λ k. k == key) is ∙ other in
            let later : find key ns ≡ some a = ground arith in
            let (g, run, erased) = remove_behind fuel n ns a s d later (omega arith) in
            (
              g,
              rw (remove_loop, test, there, ◌>>=◌, miss, next, other)
                  (run
                    ∙ ap (λ bs. some (record c { heap = g; buckets = bs }))
                        (sym (set-get c.buckets idx n.0 first))),
              rw other erased,
            )
      ]

-- A key that the table has is taken out of it, and its entry out of the chain; the list of use is left
-- alone.
pub hash_remove_lem :
    (c : Cache) (f : ℕ → Option Ptr) (total : ℕ) (chain : ℕ → List Node) (key : ℕ) (a : Ptr)
    → Table c.heap c.buckets f total chain
    → total ≤ c.current_entries
    → f key ≡ some a
    → (g : Heap) × (buckets : List Ptr) × (chain' : ℕ → List Node) × (hash_remove c key
        ≡ some (record c { heap = g; buckets = buckets }))
      × SameLru c.heap g
      × Table g buckets (update f key none) (total - 1) chain'
unfolding hash_remove
hash_remove_lem c f total chain key a t enough found =
    let idx = slot c.buckets key in
    let ns = chain idx in
    let first = t.firsts idx (slot-lt c.buckets t.exponent key t.width) in
    let short = length-chain c.heap c.buckets f total chain t key in
    let there : find key ns ≡ some a = t.reads key ∙ found in
    let (g, run, erased) =
      remove_in_bucket c idx key (c.current_entries + 1) ns a (t.chained idx) (t.once idx) there
        (omega arith) first in
    let rest = erase key ns in
    let less = length-erase key ns a there in
    let others : (i : ℕ) → i ≢ idx → Chain g (chain i) = λ i ne.
      Chain-SameBut c.heap g (chain i) ns erased.others
        (λ k in_i. t.placed idx k (λ here. in_i (t.placed i k (λ e. ne (sym e ∙ here)))))
        (t.chained i) in
    (
      g,
      set c.buckets idx (first_or null rest),
      put_chain chain idx rest,
      rw (hash_remove, first, ◌>>=◌) run,
      erased.same,
      Table-put c.heap c.buckets f total chain t g key none rest (total - 1) erased.chain others
          (Distinct-erase key ns (t.once idx))
          (λ k. elim (Bool-cases (k == key)) [
            | inl same ↦
                let at : k ≡ key = ground arith in
                rw same (ap (λ j. find j rest) at ∙ find-erase_self key ns (t.once idx))
            | inr other ↦ rw other (find-erase_other key k ns (λ e. ground arith))
          ])
          (omega arith),
    )
