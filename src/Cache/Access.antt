-- ===== src/Cache/Access.antt =====
-- src/core/cache.c, where a key stands in what a cache represents.
pub mod Get
pub mod Remove
use squashfs_fuse.Cache.Buckets.Table.{Table, Table-SameHash, hash_find_lem}
use squashfs_fuse.Cache.Buckets.{or_null}
use squashfs_fuse.Cache.Drop.{key-out, drop_entry, forget}
use squashfs_fuse.Cache.Heap.{Cell, load-nonnull, nonnull-test}
use squashfs_fuse.Cache.Nodes.{nodes, find, find-split}
use squashfs_fuse.Cache.State.{
  Represents, SameLimits, Filled, total_size, addresses, Table-ext, addresses-middle, length-middle,
  total-middle, Filled-middle,
}
use squashfs_fuse.Cache.Usage.Remove.{lru_move_to_head_lem}
use squashfs_fuse.Cache.Usage.{IsLru, Seg-split}
use squashfs_fuse.Cache.{
  Ptr, null, Entry, Heap, Cache, ◌>>=◌, load, free_value, entry_free, lru_move_to_head, hash_find,
  hash_remove, lru_remove,
}
use squashfs_fuse.Common.{
  ℕ, suc, ◌+◌, ◌≤◌, ◌<◌, ◌^◌, Bool, true, false, not, Option, some, none, List, [], ◌∷◌, ◌++◌, ◌≡◌,
  ◌≢◌, refl, sym, ap, ap₂, subst, ◌∙◌, inl, inr, arith, length, Bool-cases, Option-cases, ◌==◌,
  if◌then◌else◌,
}
use squashfs_fuse.Utils.{u64}

-- The value of a key, NULL if there is none; the entry of a key; the other entries.
abbrev pub value_of : ℕ → List Cell → Ptr
value_of k [] = null
value_of k (x ∷ xs) = if x.key == k then x.value else value_of k xs

abbrev pub front : ℕ → List Cell → List Cell
front k [] = []
front k (x ∷ xs) = if x.key == k then x ∷ [] else front k xs

abbrev pub take_out : ℕ → List Cell → List Cell
take_out k [] = []
take_out k (x ∷ xs) = if x.key == k then xs else x ∷ take_out k xs

abbrev pub has_key : ℕ → List Cell → Bool
has_key k [] = false
has_key k (x ∷ xs) = if x.key == k then true else has_key k xs

-- All four at an entry between two parts.
pub record AtMiddle (x : Cell) (pre post xs : List Cell) (key : ℕ) : Type 0 where
  pub value : value_of key xs ≡ x.value
  pub entry : front key xs ≡ x ∷ []
  pub others : take_out key xs ≡ pre ++ post
  pub known : has_key key xs ≡ true

at_middle :
    (x : Cell) (pre post : List Cell) (key : ℕ)
    → x.key ≡ key
    → find key (nodes pre) ≡ none
    → AtMiddle x pre post (pre ++ (x ∷ post)) key
at_middle x [] post key is out =
    let here : (x.key == key) ≡ true = ground arith in
    record {
      value = rw here refl;
      entry = rw here refl;
      others = rw here refl;
      known = rw here refl;
    }
at_middle x (y ∷ pre) post key is out =
    let other : (y.key == key) ≡ false = ground arith in
    let rest = at_middle x pre post key is (ground arith) in
    record {
      value = rw other rest.value;
      entry = rw other rest.entry;
      others = rw other (ap (◌∷◌ y) rest.others);
      known = rw other rest.known;
    }

pub record AtNone (xs : List Cell) (key : ℕ) : Type 0 where
  pub value : value_of key xs ≡ null
  pub entry : front key xs ≡ []
  pub others : take_out key xs ≡ xs
  pub known : has_key key xs ≡ false

pub at_none : (xs : List Cell) (key : ℕ) → addresses xs key ≡ none → AtNone xs key
at_none [] key out = record { value = refl; entry = refl; others = refl; known = refl }
at_none (x ∷ xs) key out =
    let other : (x.key == key) ≡ false = ground arith in
    let rest = at_none xs key (ground arith) in
    record {
      value = rw other rest.value;
      entry = rw other rest.entry;
      others = rw other (ap (◌∷◌ x) rest.others);
      known = rw other rest.known;
    }

-- Where the entry of a key stands, if there is one.
pub record Located (c : Cache) (xs : List Cell) (key : ℕ) : Type 0 where
  pub x : Cell
  pub pre : List Cell
  pub post : List Cell
  pub e : Entry
  pub parts : xs ≡ pre ++ (x ∷ post)
  pub key_is : x.key ≡ key
  pub out : find x.key (nodes pre) ≡ none
  pub there : load c.heap x.addr ≡ some e
  pub fields : (e.key ≡ x.key) × (e.value ≡ x.value) × (e.memory_size ≡ x.size)
  pub found : hash_find c key ≡ some x.addr
  pub known : (x.addr == null) ≡ false

pub locate :
    (c : Cache) (xs : List Cell) (key : ℕ) (a : Ptr)
    → Represents c xs
    → addresses xs key ≡ some a
    → Located c xs key
locate c xs key a rep found =
    let (pre, x, post, is, at, key_is, out) = find-split key xs a found in
    let linked = subst (λ t. Represents c t) is rep in
    let right = (Seg-split c.heap null null pre (x ∷ post) linked.used.linked).1 in
    let (e, there, fields) = right.0 in
    record {
      x = x;
      pre = pre;
      post = post;
      e = e;
      parts = is;
      key_is = key_is;
      out = ap (λ k. find k (nodes pre)) key_is ∙ out;
      there = there;
      fields = ground (arith, fields);
      found =
          hash_find_lem c (addresses xs) (length xs) rep.chain key rep.table
            (omega (arith, rep.entries))
          ∙ ap (λ r. some (or_null r)) found
          ∙ ap some (sym at);
      known = nonnull-test x.addr (load-nonnull c.heap x.addr there);
    }

pub at_key :
    (c : Cache) (xs : List Cell) (key : ℕ) (at : Located c xs key)
    → AtMiddle at.x at.pre at.post xs key
at_key c xs key at =
    subst (λ t. AtMiddle at.x at.pre at.post t key) (sym at.parts)
      (at_middle at.x at.pre at.post key at.key_is
        (ap (λ k. find k (nodes at.pre)) (sym at.key_is) ∙ at.out))

pub not_found :
    (c : Cache) (xs : List Cell) (key : ℕ)
    → Represents c xs
    → addresses xs key ≡ none
    → hash_find c key ≡ some null
not_found c xs key rep absent =
    hash_find_lem c (addresses xs) (length xs) rep.chain key rep.table (omega (arith, rep.entries))
    ∙ ap (λ r. some (or_null r)) absent

-- The counters of `sqfs_cache_get`.
abbrev pub counted : Bool → ℕ → ℕ
counted true n = u64 (n + 1)
counted false n = n

pub counted_Represents :
    (c : Cache) (xs : List Cell) (hits misses : ℕ)
    → Represents c xs
    → Represents (record c { hits = hits; misses = misses }) xs
counted_Represents c xs hits misses rep = record {
  used = record {
    head = rep.used.head;
    tail = rep.used.tail;
    linked = rep.used.linked;
    distinct = rep.used.distinct;
  };
  chain = rep.chain;
  table = rep.table;
  entries = rep.entries;
  memory = rep.memory;
  few = rep.few;
  small = rep.small;
  filled = rep.filled;
}

-- An entry of the cache becomes the one that was used last.
pub move_Represents :
    (c : Cache) (x : Cell) (pre post : List Cell)
    → Represents c (pre ++ (x ∷ post))
    → (g : Heap) × (head : Ptr) × (tail : Ptr) × (lru_move_to_head c x.addr
        ≡ some (record c { heap = g; head = head; tail = tail }))
      × Represents (record c { heap = g; head = head; tail = tail }) (x ∷ (pre ++ post))
move_Represents c x pre post rep =
    let xs = pre ++ (x ∷ post) in
    let moved = x ∷ (pre ++ post) in
    let (out, out_rest) = key-out c x pre post rep.used in
    let (g, head, tail, run, same, used) = lru_move_to_head_lem c x pre post rep.used in
    let size = length-middle x pre post in
    let total = total-middle x pre post in
    let table =
      Table-SameHash c.heap c.buckets (addresses xs) (length xs) rep.chain rep.table g same in
    let entries = rep.entries in
    let memory = rep.memory in
    let few = rep.few in
    let small = rep.small in
    (
      g,
      head,
      tail,
      run,
      record {
        used = used;
        chain = rep.chain;
        table =
            Table-ext g c.buckets (addresses xs) (addresses moved) (length xs) (length moved)
              rep.chain (λ k. addresses-middle x pre post k out) size table;
        entries = entries ∙ size;
        memory = memory ∙ total;
        few = omega arith;
        small = omega arith;
        filled = Filled-middle x pre post rep.filled;
      },
    )

pub unknown_address : (xs : List Cell) (key : ℕ) → has_key key xs ≡ false → addresses xs key ≡ none
unknown_address [] key h = refl
unknown_address (x ∷ xs) key h = ground (arith, unknown_address xs key)
