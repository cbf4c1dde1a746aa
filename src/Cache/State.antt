-- ===== src/Cache/State.antt =====
-- src/core/cache.c, what a cache represents: its entries in the order of use. The list of use, the
-- table and the counters tell of the same entries.
use squashfs_fuse.Cache.Buckets.Table.{Table}
use squashfs_fuse.Cache.Heap.{Cell, SameLru}
use squashfs_fuse.Cache.Nodes.{Node, nodes, find}
use squashfs_fuse.Cache.Usage.Insert.{IsUsed}
use squashfs_fuse.Cache.Usage.{Seg-SameLru}
use squashfs_fuse.Cache.{Ptr, null, Heap, Cache}
use squashfs_fuse.Common.{
  ℕ, suc, false, ◌+◌, ◌^◌, ◌<◌, Option, some, none, List, [], ◌∷◌, ◌++◌, ◌≡◌, ◌≢◌, refl, ◌∙◌, inl,
  inr, arith, length, length-append, Bool-cases, ◌==◌, if◌then◌else◌,
}

-- What the values take.
abbrev pub total_size : List Cell → ℕ
total_size [] = 0
total_size (x ∷ xs) = x.size + total_size xs

-- No value is NULL.
abbrev pub Filled : List Cell → Type 0
Filled [] = Unit
Filled (x ∷ xs) = (x.value ≢ null) × Filled xs

abbrev pub addresses : List Cell → ℕ → Option Ptr
addresses xs k = find k (nodes xs)

-- The cache has the entries `xs`, the one that was used last first.
pub record Represents (c : Cache) (xs : List Cell) : Type 0 where
  pub used : IsUsed c xs
  pub chain : ℕ → List Node
  pub table : Table c.heap c.buckets (addresses xs) (length xs) chain
  pub entries : c.current_entries ≡ length xs
  pub memory : c.current_memory ≡ total_size xs
  pub few : length xs < 2 ^ 64
  pub small : total_size xs < 2 ^ 64
  pub filled : Filled xs

-- What no operation but `init` sets.
abbrev pub SameLimits : Cache → Cache → Type 0
SameLimits c c' =
    (c'.max_entries ≡ c.max_entries)
    × (c'.max_memory ≡ c.max_memory)
    × (c'.has_free_fn ≡ c.has_free_fn)

pub SameLimits-trans : (c c' c'' : Cache) → SameLimits c c' → SameLimits c' c'' → SameLimits c c''
SameLimits-trans c c' c'' p q = ground (arith, p, q)

pub Table-ext :
    (h : Heap) (buckets : List Ptr) (f g : ℕ → Option Ptr) (n m : ℕ) (chain : ℕ → List Node)
    → ((k : ℕ) → f k ≡ g k)
    → n ≡ m
    → Table h buckets f n chain
    → Table h buckets g m chain
Table-ext h buckets f g n m chain same size t = record {
  exponent = t.exponent;
  width = t.width;
  firsts = t.firsts;
  chained = t.chained;
  placed = t.placed;
  once = t.once;
  reads = λ k. t.reads k ∙ same k;
  count = t.count ∙ size;
}

pub IsUsed-SameLru :
    (c : Cache) (g : Heap) (buckets : List Ptr) (xs : List Cell)
    → SameLru c.heap g
    → IsUsed c xs
    → IsUsed (record c { heap = g; buckets = buckets }) xs
IsUsed-SameLru c g buckets xs same used = record {
  head = used.head;
  tail = used.tail;
  linked = Seg-SameLru c.heap g null null xs same used.linked;
  distinct = used.distinct;
}

-- An entry between two parts.
pub addresses-middle :
    (x : Cell) (pre post : List Cell) (k : ℕ)
    → find x.key (nodes pre) ≡ none
    → addresses (pre ++ (x ∷ post)) k
      ≡ (if x.key == k then some x.addr else addresses (pre ++ post) k)
addresses-middle x [] post k out = refl
addresses-middle x (y ∷ pre) post k out = elim (Bool-cases (y.key == k)) [
  | inl here ↦
      let other : (x.key == k) ≡ false = elim (Bool-cases (x.key == k)) [
        | inl same ↦ absurd (ground arith)
        | inr ne ↦ ne
      ] in
      rw (here, other) refl
  | inr other ↦ rw other (addresses-middle x pre post k (ground arith))
]

pub length-middle :
    (x : Cell) (pre post : List Cell) → length (pre ++ (x ∷ post)) ≡ suc (length (pre ++ post))
length-middle x pre post = omega (arith, length-append pre (x ∷ post), length-append pre post)

pub total-middle :
    (x : Cell) (pre post : List Cell)
    → total_size (pre ++ (x ∷ post)) ≡ x.size + total_size (pre ++ post)
total-middle x [] post = refl
total-middle x (y ∷ pre) post = omega (arith, total-middle x pre post)

pub Filled-middle :
    (x : Cell) (pre post : List Cell)
    → Filled (pre ++ (x ∷ post))
    → (x.value ≢ null) × Filled (pre ++ post)
Filled-middle x [] post h = h
Filled-middle x (y ∷ pre) post h =
    let rest = Filled-middle x pre post h.1 in (rest.0, (h.0, rest.1))
