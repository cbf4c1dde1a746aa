-- ===== src/Cache/Resize.antt =====
-- src/core/cache.c, `cache_resize_if_needed`: every entry moves to its bucket in the new array.
use squashfs_fuse.Cache.Buckets.Insert.{hash_insert_lem}
use squashfs_fuse.Cache.Buckets.Table.{Table, update, sum_len}
use squashfs_fuse.Cache.Heap.{Cell, load-nonnull, nonnull-test, SameLru, SameLru-trans}
use squashfs_fuse.Cache.Nodes.{Node, nodes, find, Distinct, first_or}
use squashfs_fuse.Cache.Ops.{Allocator, rehash, resize_if_needed}
use squashfs_fuse.Cache.State.{Represents, SameLimits, addresses, Table-ext, IsUsed-SameLru}
use squashfs_fuse.Cache.Usage.{Seg, Seg-SameLru}
use squashfs_fuse.Cache.{Ptr, null, Heap, Cache, ◌>>=◌}
use squashfs_fuse.Common.{
  ℕ, zero, suc, ◌+◌, ◌*◌, ◌^◌, ◌<◌, Option, some, none, List, [], ◌∷◌, ◌≡◌, ◌≢◌, refl, ap, ◌∙◌, inl,
  inr, arith, length, replicate, length-replicate, get_elem?, Bool-cases, ltb, leb, ◌==◌,
  if◌then◌else◌,
}
use squashfs_fuse.Utils.{u64}
use native.Mathlib.Nat.{pow-succ'}

-- The entries of `ys`, and those of a table.
abbrev over : List Cell → (ℕ → Option Ptr) → ℕ → Option Ptr
over [] f k = f k
over (y ∷ ys) f k = if y.key == k then some y.addr else over ys f k

over-update :
    (ys : List Cell) (f : ℕ → Option Ptr) (key : ℕ) (a : Ptr) (k : ℕ)
    → find key (nodes ys) ≡ none
    → over ys (update f key (some a)) k ≡ (if key == k then some a else over ys f k)
over-update [] f key a k out = ground arith
over-update (y ∷ ys) f key a k out = ground (arith, over-update ys f key a k)

over-none : (ys : List Cell) (k : ℕ) → over ys (λ j. none) k ≡ addresses ys k
over-none [] k = refl
over-none (y ∷ ys) k = rw (over-none ys k) refl

-- From an entry of the list of use on, if the table has none of the keys that follow.
rehash_lem :
    (fuel : ℕ) (c : Cache) (prev : Ptr) (ys : List Cell) (f : ℕ → Option Ptr) (n : ℕ)
    (chain : ℕ → List Node)
    → Seg c.heap prev ys null
    → Distinct (nodes ys)
    → Table c.heap c.buckets f n chain
    → ((k : ℕ) → find k (nodes ys) ≢ none → f k ≡ none)
    → length ys < fuel
    → (g : Heap) × (buckets : List Ptr) × (chain' : ℕ → List Node) × (rehash fuel c
          (first_or null (nodes ys))
        ≡ some (record c { heap = g; buckets = buckets }))
      × SameLru c.heap g
      × Table g buckets (over ys f) (n + length ys) chain'
unfolding rehash
rehash_lem zero c prev ys f n chain s d t apart enough = absurd (omega arith)
rehash_lem (suc fuel) c prev [] f n chain s d t apart enough = (
  c.heap,
  c.buckets,
  chain,
  refl,
  λ a e there. (e, there, (refl, refl, refl, refl, refl)),
  Table-ext c.heap c.buckets f f n (n + 0) chain (λ k. refl) (omega arith) t,
)
rehash_lem (suc fuel) c prev (y ∷ ys) f n chain ((e, there, fields), s) d t apart enough =
    let test = nonnull-test y.addr (load-nonnull c.heap y.addr there) in
    let key : e.key ≡ y.key = ground (arith, fields) in
    let absent : f e.key ≡ none = ap f key ∙ apart y.key (λ q. ground arith) in
    let (h₁, buckets₁, chain₁, run₁, same₁, t₁) =
      hash_insert_lem c f n chain y.addr e t there absent in
    let c₁ = record c { heap = h₁; buckets = buckets₁ } in
    let (e₁, there₁, fields₁) = same₁ y.addr e there in
    let next : e₁.next ≡ first_or null (nodes ys) = ground (arith, fields, fields₁) in
    let s₁ = Seg-SameLru c.heap h₁ y.addr null ys same₁ s in
    let f₁ = update f e.key (some y.addr) in
    let apart₁ : (k : ℕ) → find k (nodes ys) ≢ none → f₁ k ≡ none = λ k found.
      elim (Bool-cases (k == e.key)) [
        | inl same ↦
            let at : k ≡ y.key = ground (arith, key) in
            absurd (found (ap (λ j. find j (nodes ys)) at ∙ d.0))
        | inr other ↦ rw other (
            apart k (λ q. elim (Bool-cases (y.key == k)) [
              | inl same ↦ ground (arith, key)
              | inr ne ↦ found (rw ne at q)
            ]))
      ] in
    let (g, buckets, chain', run, same, t') =
      rehash_lem fuel c₁ y.addr ys f₁ (n + 1) chain₁ s₁ d.1 t₁ apart₁ (omega arith) in
    let is : (k : ℕ) → over ys f₁ k ≡ over (y ∷ ys) f k = λ k.
      ap (λ j. over ys (update f j (some y.addr)) k) key ∙ over-update ys f y.key y.addr k d.0 in
    (
      g,
      buckets,
      chain',
      rw (rehash, test, run₁, ◌>>=◌, there₁, ◌>>=◌, next) run,
      SameLru-trans c.heap h₁ g same₁ same,
      Table-ext g buckets (over ys f₁) (over (y ∷ ys) f) (n + 1 + length ys) (n + suc (length ys))
          chain' is (omega arith) t',
    )

null_bucket : (n i : ℕ) → i < n → get_elem? (replicate n null) i ≡ some null
null_bucket zero i h = absurd (omega arith)
null_bucket (suc n) zero h = refl
null_bucket (suc n) (suc i) h = null_bucket n i (omega arith)

no_entries : (n : ℕ) → sum_len n (λ i. []) ≡ 0
no_entries zero = refl
no_entries (suc n) = rw (no_entries n) refl

-- An array of NULL pointers.
pub Table-empty :
    (h : Heap) (m n : ℕ) → n ≡ 2 ^ m → Table h (replicate n null) (λ k. none) 0 (λ i. [])
Table-empty h m n width =
    let size = length-replicate n null in
    record {
      exponent = m;
      width = size ∙ width;
      firsts = λ i within. null_bucket n i (omega (arith, size));
      chained = λ i. tt;
      placed = λ i k away. refl;
      once = λ i. tt;
      reads = λ k. refl;
      count = no_entries (length (replicate n null));
    }

-- Growing the table, or not, leaves what the cache represents, its limits and its values as they
-- were.
pub resize_lem :
    (m : Allocator) (c : Cache) (xs : List Cell)
    → Represents c xs
    → (c' : Cache) × (resize_if_needed m c ≡ some c')
      × Represents c' xs
      × SameLimits c c'
      × (c'.freed ≡ c.freed)
unfolding resize_if_needed
resize_lem m c xs rep =
    let width = length c.buckets in
    let new_count = u64 (width * 2) in
    elim (Bool-cases (leb (c.current_entries * 4) (width * 3))) [
      | inl low ↦ (c, rw (resize_if_needed, low) refl, rep, (refl, refl, refl), refl)
      | inr loaded ↦ elim (Bool-cases (ltb new_count width)) [
        | inl wraps ↦ (c, rw (resize_if_needed, loaded, wraps) refl, rep, (refl, refl, refl), refl)
        | inr grows ↦ elim (Bool-cases (m.array new_count)) [
          | inr refused ↦
              (c, rw (resize_if_needed, loaded, grows, refused) refl, rep, (refl, refl, refl), refl)
          | inl given ↦
              let pow = rep.table.width in
              let double : new_count ≡ 2 ^ suc rep.table.exponent =
                let twice : new_count ≡ width * 2 = ground arith in
                omega (arith, twice, pow, pow-succ' 2 rep.table.exponent) in
              let c₁ = record c { buckets = replicate new_count null } in
              let (g, buckets, chain, run, same, t) =
                rehash_lem (c.current_entries + 1) c₁ null xs (λ k. none) 0 (λ i. [])
                  rep.used.linked rep.used.distinct
                  (Table-empty c.heap (suc rep.table.exponent) new_count double) (λ k found. refl)
                  (omega (arith, rep.entries)) in
              let used = IsUsed-SameLru c g buckets xs same rep.used in
              let start = ap (rehash (c.current_entries + 1) c₁) rep.used.head in
              (
                record c { heap = g; buckets = buckets },
                rw (resize_if_needed, loaded, grows, given) (start ∙ run),
                record {
                  used = used;
                  chain = chain;
                  table =
                      Table-ext g buckets (over xs (λ k. none)) (addresses xs) (0 + length xs)
                        (length xs) chain (over-none xs) (omega arith) t;
                  entries = rep.entries;
                  memory = rep.memory;
                  few = rep.few;
                  small = rep.small;
                  filled = rep.filled;
                },
                (refl, refl, refl),
                refl,
              )
        ]
      ]
    ]
