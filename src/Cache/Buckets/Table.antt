-- ===== src/Cache/Buckets/Table.antt =====
-- src/core/cache.c, the hash table as a whole: what it stands for, and looking up a key.
use squashfs_fuse.Cache.Buckets.{Chain, Chain-SameHash, Chain-write, or_null, find_loop_lem}
use squashfs_fuse.Cache.Heap.{SameHash}
use squashfs_fuse.Cache.Nodes.{Node, find, erase, Distinct, first_or}
use squashfs_fuse.Cache.{
  Ptr, null, Entry, Heap, Cache, ◌>>=◌, load, write, cache_hash, slot, hash_find,
}
use squashfs_fuse.Common.Bits.{bit_and_mask}
use squashfs_fuse.Common.{
  ℕ, zero, suc, bit_and, ◌+◌, ◌-◌, ◌^◌, ◌≤◌, ◌<◌, Option, some, none, List, [], ◌∷◌, ◌≡◌, ◌≢◌, refl,
  sym, ap, ◌∙◌, false, inl, inr, arith, length, get_elem?, set, length-set, get_elem?-set_self,
  get_elem?-set_ne, Bool-cases, ◌==◌, if◌then◌else◌,
}
use native.Mathlib.Nat.{mod-lt, one-le-pow}

-- Writing what is there changes nothing.
pub set-get : (xs : List Ptr) (i : ℕ) (v : Ptr) → get_elem? xs i ≡ some v → set xs i v ≡ xs
set-get [] i v h = refl
set-get (x ∷ xs) zero v h = ap (λ t. t ∷ xs) (ground (arith, h))
set-get (x ∷ xs) (suc i) v h = ap (◌∷◌ x) (set-get xs i v h)

pub length-erase :
    (k : ℕ) (ns : List Node) (a : Ptr) → find k ns ≡ some a → length (erase k ns) + 1 ≡ length ns
length-erase k [] a h = cc
length-erase k (n ∷ ns) a h = ground (arith, length-erase k ns a)

pub find-erase_other : (k j : ℕ) (ns : List Node) → k ≢ j → find j (erase k ns) ≡ find j ns
find-erase_other k j [] ne = refl
find-erase_other k j (n ∷ ns) ne = ground (arith, find-erase_other k j ns)

pub find-erase_self : (k : ℕ) (ns : List Node) → Distinct ns → find k (erase k ns) ≡ none
find-erase_self k [] d = refl
find-erase_self k (n ∷ ns) d = ground (arith, d.0, find-erase_self k ns d.1)

pub Distinct-erase : (k : ℕ) (ns : List Node) → Distinct ns → Distinct (erase k ns)
Distinct-erase k [] d = tt
Distinct-erase k (n ∷ ns) d = elim (Bool-cases (n.1 == k)) [
  | inl here ↦ rw here d.1
  | inr other ↦
      rw other (find-erase_other k n.1 ns (λ e. ground arith) ∙ d.0, Distinct-erase k ns d.1)
]

-- The chains by their buckets, with one of them replaced, and how many entries they have.
abbrev pub put_chain : (ℕ → List Node) → ℕ → List Node → ℕ → List Node
put_chain chain idx ns i = if i == idx then ns else chain i

abbrev pub sum_len : ℕ → (ℕ → List Node) → ℕ
sum_len zero chain = 0
sum_len (suc n) chain = sum_len n chain + length (chain n)

length-le-sum : (n idx : ℕ) (chain : ℕ → List Node) → idx < n → length (chain idx) ≤ sum_len n chain
length-le-sum zero idx chain h = absurd (omega arith)
length-le-sum (suc n) idx chain h = elim (Bool-cases (idx == n)) [
  | inl here ↦ let at : idx ≡ n = ground arith in rw at (omega arith)
  | inr other ↦ omega (arith, length-le-sum n idx chain (ground arith))
]

sum_len-beyond :
    (n idx : ℕ) (chain : ℕ → List Node) (ns : List Node)
    → n ≤ idx
    → sum_len n (put_chain chain idx ns) ≡ sum_len n chain
sum_len-beyond zero idx chain ns h = refl
sum_len-beyond (suc n) idx chain ns h =
    let other : (n == idx) ≡ false = ground arith in
    rw other (omega (arith, sum_len-beyond n idx chain ns (omega arith)))

pub sum_len-put :
    (n idx : ℕ) (chain : ℕ → List Node) (ns : List Node)
    → idx < n
    → sum_len n (put_chain chain idx ns) + length (chain idx) ≡ sum_len n chain + length ns
sum_len-put zero idx chain ns h = absurd (omega arith)
sum_len-put (suc n) idx chain ns h = elim (Bool-cases (n == idx)) [
  | inl here ↦
      let at : idx ≡ n = ground arith in
      rw here (rw at (omega (arith, sum_len-beyond n n chain ns (omega arith))))
  | inr other ↦ rw other (omega (arith, sum_len-put n idx chain ns (ground arith)))
]

-- What the table stands for: an address for each key. Each entry is in the chain of its slot, and
-- there are `total` of them.
pub record Table (h : Heap) (buckets : List Ptr) (f : ℕ → Option Ptr) (total : ℕ)
    (chain : ℕ → List Node) : Type 0 where
  pub exponent : ℕ
  pub width : length buckets ≡ 2 ^ exponent
  pub firsts : (i : ℕ) → i < length buckets → get_elem? buckets i ≡ some (first_or null (chain i))
  pub chained : (i : ℕ) → Chain h (chain i)
  pub placed : (i k : ℕ) → slot buckets k ≢ i → find k (chain i) ≡ none
  pub once : (i : ℕ) → Distinct (chain i)
  pub reads : (k : ℕ) → find k (chain (slot buckets k)) ≡ f k
  pub count : sum_len (length buckets) chain ≡ total

pub slot-lt :
    (buckets : List Ptr) (n k : ℕ) → length buckets ≡ 2 ^ n → slot buckets k < length buckets
unfolding slot
slot-lt buckets n k width =
    let masked = bit_and_mask n (cache_hash k) in
    let some_there : 0 < 2 ^ n = grind (arith, one-le-pow n 2) in
    rw (width, masked) (mod-lt (cache_hash k) some_there)

pub slot-length : (xs ys : List Ptr) (k : ℕ) → length xs ≡ length ys → slot xs k ≡ slot ys k
unfolding slot
slot-length xs ys k same = ap (λ n. bit_and (cache_hash k) (n - 1)) same

abbrev pub update : (ℕ → Option Ptr) → ℕ → Option Ptr → ℕ → Option Ptr
update f key v k = if k == key then v else f k

module _ (h : Heap) (buckets : List Ptr) (f : ℕ → Option Ptr) (total : ℕ) (chain : ℕ → List Node)
    (t : Table h buckets f total chain) where
  -- Writes to the fields of the list of use leave the table alone.
  pub Table-SameHash : (g : Heap) → SameHash h g → Table g buckets f total chain
  Table-SameHash g same = record {
    exponent = t.exponent;
    width = t.width;
    firsts = t.firsts;
    chained = λ i. Chain-SameHash h g (chain i) same (t.chained i);
    placed = t.placed;
    once = t.once;
    reads = t.reads;
    count = t.count;
  }

  -- A key that the table does not have is in no chain.
  pub find-nowhere : (k : ℕ) → f k ≡ none → (i : ℕ) → find k (chain i) ≡ none
  find-nowhere k absent i = elim (Bool-cases (slot buckets k == i)) [
    | inl here ↦
        let at : slot buckets k ≡ i = ground arith in
        ap (λ j. find k (chain j)) (sym at) ∙ t.reads k ∙ absent
    | inr other ↦ t.placed i k (λ e. ground arith)
  ]

  -- So does a write to an entry whose key the table does not have.
  pub Table-write :
      (a : Ptr) (e : Entry) (c : Option Entry)
      → load h a ≡ some e
      → f e.key ≡ none
      → Table (write h a c) buckets f total chain
  Table-write a e c there absent = record {
    exponent = t.exponent;
    width = t.width;
    firsts = t.firsts;
    chained = λ i. Chain-write h a e (chain i) c there (find-nowhere e.key absent i) (t.chained i);
    placed = t.placed;
    once = t.once;
    reads = t.reads;
    count = t.count;
  }

  pub length-chain : (k : ℕ) → length (chain (slot buckets k)) ≤ total
  length-chain k = omega (
    arith,
    length-le-sum (length buckets) (slot buckets k) chain (slot-lt buckets t.exponent k t.width),
    t.count,
  )

  -- The chain of a key replaced by one that differs in that key.
  pub Table-put :
      (g : Heap) (key : ℕ) (v : Option Ptr) (ns : List Node) (total' : ℕ)
      → Chain g ns
      → ((i : ℕ) → i ≢ slot buckets key → Chain g (chain i))
      → Distinct ns
      → ((k : ℕ) → find k ns ≡ (if k == key then v else find k (chain (slot buckets key))))
      → total' + length (chain (slot buckets key)) ≡ total + length ns
      → Table g
          (set buckets (slot buckets key) (first_or null ns))
          (update f key v)
          total'
          (put_chain chain (slot buckets key) ns)
  Table-put g key v ns total' here others d is sum =
      let idx = slot buckets key in
      let first = first_or null ns in
      let new = set buckets idx first in
      let size : length new ≡ length buckets = length-set buckets idx first in
      let inside = slot-lt buckets t.exponent key t.width in
      record {
        exponent = t.exponent;
        width = size ∙ t.width;
        firsts = λ i within. elim (Bool-cases (i == idx)) [
          | inl at ↦
              let is_at : i ≡ idx = ground arith in
              rw (at, is_at) (get_elem?-set_self buckets idx first inside)
          | inr other ↦
              let apart : idx ≢ i = λ e. ground arith in
              rw other (get_elem?-set_ne buckets first apart ∙ t.firsts i (omega (arith, size)))
        ];
        chained = λ i. elim (Bool-cases (i == idx)) [
          | inl at ↦ rw at here
          | inr other ↦ rw other (others i (λ e. ground arith))
        ];
        placed = λ i k away.
            let away' : slot buckets k ≢ i = λ e. away (slot-length new buckets k size ∙ e) in
            elim (Bool-cases (i == idx)) [
              | inl at ↦
                  let is_at : i ≡ idx = ground arith in
                  let ne : (k == key) ≡ false = elim (Bool-cases (k == key)) [
                    | inl same ↦
                        let e : k ≡ key = ground arith in
                        absurd (away' (ap (slot buckets) e ∙ sym is_at))
                    | inr no_key ↦ no_key
                  ] in
                  rw at (is k ∙ rw ne (t.placed idx k (λ e. away' (e ∙ sym is_at))))
              | inr other ↦ rw other (t.placed i k away')
            ];
        once = λ i. elim (Bool-cases (i == idx)) [
          | inl at ↦ rw at d
          | inr other ↦ rw other (t.once i)
        ];
        reads = λ k.
            rw (slot-length new buckets k size) (elim (Bool-cases (slot buckets k == idx)) [
              | inl at ↦
                  let is_at : slot buckets k ≡ idx = ground arith in
                  rw at (
                    is k
                    ∙ ap (λ r. if k == key then v else r)
                        (ap (λ j. find k (chain j)) (sym is_at) ∙ t.reads k))
              | inr other ↦
                  let ne : (k == key) ≡ false = elim (Bool-cases (k == key)) [
                    | inl same ↦
                        let e : k ≡ key = ground arith in
                        let at : slot buckets k ≡ idx = ap (slot buckets) e in absurd (ground arith)
                    | inr no_key ↦ no_key
                  ] in
                  rw (other, ne) (t.reads k)
            ]);
        count =
            rw size (omega (arith, sum_len-put (length buckets) idx chain ns inside, t.count, sum));
      }

-- Looking up a key follows its chain.
pub hash_find_lem :
    (c : Cache) (f : ℕ → Option Ptr) (total : ℕ) (chain : ℕ → List Node) (key : ℕ)
    → Table c.heap c.buckets f total chain
    → total ≤ c.current_entries
    → hash_find c key ≡ some (or_null (f key))
unfolding hash_find
hash_find_lem c f total chain key t enough =
    let idx = slot c.buckets key in
    let first = t.firsts idx (slot-lt c.buckets t.exponent key t.width) in
    let short = length-chain c.heap c.buckets f total chain t key in
    let walk =
      find_loop_lem (c.current_entries + 1) c.heap (chain idx) key (t.chained idx) (omega arith) in
    rw (hash_find, first, ◌>>=◌) (walk ∙ ap (λ r. some (or_null r)) (t.reads key))
