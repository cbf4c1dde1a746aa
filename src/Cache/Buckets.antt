-- ===== src/Cache/Buckets.antt =====
-- src/core/cache.c, one chain of the hash table: finding a key in it and unlinking an entry.
pub mod Table
pub mod Insert
pub mod Remove
use squashfs_fuse.Cache.Heap.{
  load-nonnull, nonnull-test, load-write_self, load-write_ne, SameLru, SameLru-trans, SameHash,
  SameLru-write,
}
use squashfs_fuse.Cache.Nodes.{Node, find, erase, Distinct, first_or}
use squashfs_fuse.Cache.{
  Ptr, null, Entry, Heap, Cache, ◌>>=◌, load, write, find_loop, hash_unlink, remove_loop,
}
use squashfs_fuse.Common.{
  ℕ, zero, suc, ◌<◌, Option, some, none, List, [], ◌∷◌, ◌≡◌, ◌≢◌, refl, sym, ap, ◌∙◌, true, false,
  inl, inr, arith, length, set, Bool-cases, ◌==◌, if◌then◌else◌,
}

abbrev pub IsHash : Entry → Node → Ptr → Type 0
IsHash e n next = (e.key ≡ n.1) × (e.hnext ≡ next)

-- The `hnext` pointers lead through the entries to NULL.
abbrev pub Chain : Heap → List Node → Type 0
Chain h [] = Unit
Chain h (n ∷ ns) =
    ((e : Entry) × (load h n.0 ≡ some e) × IsHash e n (first_or null ns)) × Chain h ns

pub Chain-SameHash : (h g : Heap) (ns : List Node) → SameHash h g → Chain h ns → Chain g ns
Chain-SameHash h g [] same s = tt
Chain-SameHash h g (n ∷ ns) same ((e, there, fields), s) =
    let (e', there', agree) = same n.0 e there in
    ((e', there', ground (arith, agree, fields)), Chain-SameHash h g ns same s)

-- Entries whose keys are not in the chain `ns` are as they were.
abbrev pub SameBut : List Node → Heap → Heap → Type 0
SameBut ns h g =
    (a : Ptr) (e : Entry) → load h a ≡ some e → find e.key ns ≡ none → load g a ≡ load h a

pub Chain-SameBut :
    (h g : Heap) (ms ns : List Node)
    → SameBut ns h g
    → ((k : ℕ) → find k ms ≢ none → find k ns ≡ none)
    → Chain h ms
    → Chain g ms
Chain-SameBut h g [] ns same apart s = tt
Chain-SameBut h g (m ∷ ms) ns same apart ((e, there, fields), s) =
    let out : find e.key ns ≡ none = apart e.key (λ q. ground (arith, fields)) in
    (
      (e, same m.0 e there out ∙ there, fields),
      Chain-SameBut h g ms ns same (λ k found. apart k (λ q. found (ground arith))) s,
    )

-- A write to an entry with another key leaves a chain alone.
pub Chain-write :
    (h : Heap) (a : Ptr) (e : Entry) (ns : List Node) (c : Option Entry)
    → load h a ≡ some e
    → find e.key ns ≡ none
    → Chain h ns
    → Chain (write h a c) ns
Chain-write h a e [] c there out s = tt
Chain-write h a e (n ∷ ns) c there out ((e', there', fields), s) =
    let other : n.0 ≢ a = λ q. ground (arith, out, fields, sym there' ∙ ap (load h) q ∙ there) in
    (
      (e', load-write_ne h a n.0 c other ∙ there', fields),
      Chain-write h a e ns c there (ground arith) s,
    )

pub SameBut-write :
    (h : Heap) (a : Ptr) (e : Entry) (ns : List Node) (c : Option Entry)
    → load h a ≡ some e
    → find e.key ns ≢ none
    → SameBut ns h (write h a c)
SameBut-write h a e ns c there found b e' there' out = load-write_ne h a b c λ same.
    found (ap (λ k. find k ns) (ground (arith, sym there' ∙ ap (load h) same ∙ there)) ∙ out)

pub SameBut-trans :
    (f g h : Heap) (ns : List Node) → SameBut ns f g → SameBut ns g h → SameBut ns f h
SameBut-trans f g h ns p q a e there out =
    let step = p a e there out in q a e (step ∙ there) out ∙ step

abbrev pub or_null : Option Ptr → Ptr
or_null none = null
or_null (some a) = a

-- The walk finds the key, or comes to NULL.
pub find_loop_lem :
    (fuel : ℕ) (h : Heap) (ns : List Node) (key : ℕ)
    → Chain h ns
    → length ns < fuel
    → find_loop fuel h (first_or null ns) key ≡ some (or_null (find key ns))
unfolding find_loop
find_loop_lem zero h ns key s enough = absurd (omega arith)
find_loop_lem (suc fuel) h [] key s enough = refl
find_loop_lem (suc fuel) h (n ∷ ns) key ((e, there, (is, next)), s) enough =
    let test = nonnull-test n.0 (load-nonnull h n.0 there) in
    elim (Bool-cases (n.1 == key)) [
      | inl here ↦
          let hit = ap (λ k. k == key) is ∙ here in
          rw (find_loop, test, there, ◌>>=◌, hit, here) refl
      | inr other ↦
          let miss = ap (λ k. k == key) is ∙ other in
          rw (find_loop, test, there, ◌>>=◌, miss, other, next)
            (find_loop_lem fuel h ns key s (omega arith))
    ]

-- What an unlinking leaves: the shorter chain, the list of use, and the entries of other chains.
pub record IsErased (h g : Heap) (ns rest : List Node) : Type 0 where
  pub chain : Chain g rest
  pub same : SameLru h g
  pub others : SameBut ns h g

module _ (c : Cache) (idx key : ℕ) where
  -- The entry behind `m`.
  unlink_behind :
      (m n : Node) (ns : List Node)
      → Chain c.heap (m ∷ n ∷ ns)
      → Distinct (m ∷ n ∷ ns)
      → (g : Heap) × (hash_unlink c idx m.0 n.0 ≡ some (record c { heap = g }))
        × IsErased c.heap g (m ∷ n ∷ ns) (m ∷ ns)
  unfolding hash_unlink
  unlink_behind m n ns ((old, old_there, (old_key, old_next)), ((e, there, (e_key, e_next)), s)) d =
      let h = c.heap in
      let new_old = record old { hnext = first_or null ns } in
      let h₁ = write h m.0 (some new_old) in
      let new = record e { hnext = null } in
      let g = write h₁ n.0 (some new) in
      let other : n.0 ≢ m.0 =
        λ q. ground (arith, d.0, old_key, e_key, sym there ∙ ap (load h) q ∙ old_there) in
      let test = nonnull-test m.0 (load-nonnull h m.0 old_there) in
      let there₁ : load h₁ n.0 ≡ some e = load-write_ne h m.0 n.0 (some new_old) other ∙ there in
      let out_m : find old.key ns ≡ none = ground (arith, d.0, old_key) in
      let out_n : find e.key ns ≡ none = ground (arith, d.1.0, e_key) in
      let ns_others = m ∷ n ∷ ns in
      (
        g,
        rw (hash_unlink, there, test, old_there, e_next, there₁) refl,
        record {
          chain = (
            (
              new_old,
              load-write_ne h₁ n.0 m.0 (some new) (λ q. other (sym q))
                  ∙ load-write_self h m.0 (some new_old) (load-nonnull h m.0 old_there),
              (old_key, refl),
            ),
            Chain-write h₁ n.0 e ns (some new) there₁ out_n
                (Chain-write h m.0 old ns (some new_old) old_there out_m s),
          );
          same =
              SameLru-trans h h₁ g
                (SameLru-write h m.0 old new_old old_there (refl, refl, refl, refl, refl))
                (SameLru-write h₁ n.0 e new there₁ (refl, refl, refl, refl, refl));
          others =
              SameBut-trans h h₁ g ns_others
                (SameBut-write h m.0 old ns_others (some new_old) old_there
                  (λ q. ground (arith, old_key)))
                (SameBut-write h₁ n.0 e ns_others (some new) there₁ (λ q. ground (arith, e_key)));
        },
      )
