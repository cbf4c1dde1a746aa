-- ===== src/Cache/Usage/Remove.antt =====
-- src/core/cache.c, `lru_remove` and `lru_move_to_head`: an entry leaves the list of use, or becomes
-- its first.
use squashfs_fuse.Cache.Usage.Unlink.{Apart, Parts, unlink_prev_lem, unlink_next_lem}
use squashfs_fuse.Cache.Heap.{
  Cell, load-nonnull, load-write_self, SameHash, SameHash-trans, SameHash-write,
}
use squashfs_fuse.Cache.Nodes.{
  nodes, find, first_or, last_or, first_or-append, last_or-append, nodes-append, find-append_right,
  Distinct-append, Distinct-join,
}
use squashfs_fuse.Cache.Usage.Insert.{IsUsed, lru_insert_head_lem}
use squashfs_fuse.Cache.Usage.{Seg, Seg-write, Seg-split, Seg-join}
use squashfs_fuse.Cache.{Ptr, null, Entry, Heap, Cache, load, write, lru_remove, lru_move_to_head}
use squashfs_fuse.Common.{
  some, none, List, [], ◌∷◌, ◌++◌, ◌≡◌, ◌≢◌, refl, sym, ap, ◌∙◌, true, false, inl, inr, arith, ◌==◌,
  Option-cases,
}

abbrev before : List Cell → Ptr
before pre = last_or null (nodes pre)

abbrev behind : List Cell → Ptr
behind post = first_or null (nodes post)

-- What is left is a list of use.
joined :
    (x : Cell) (pre post : List Cell) (c : Cache) (g : Heap)
    → Apart x pre post
    → Seg g null pre (behind post)
    → Seg g (before pre) post null
    → IsUsed
        (record c {
          heap = g;
          head = first_or (behind post) (nodes pre);
          tail = last_or (before pre) (nodes post);
        })
        (pre ++ post)
joined x pre post c g ap3 left right =
    let both = nodes-append pre post in
    record {
      head = first_or-append null (nodes pre) (nodes post) ∙ ap (first_or null) (sym both);
      tail = last_or-append null (nodes pre) (nodes post) ∙ ap (last_or null) (sym both);
      linked = Seg-join g null null pre post left right;
      distinct = rw both (Distinct-join (nodes pre) (nodes post) ap3.d_pre ap3.d_post ap3.across);
    }

-- The entry of a cell, wherever it stands.
abbrev pub Kept : Heap → Cell → Type 0
Kept h x =
    (e : Entry) × (load h x.addr ≡ some e)
    × ((e.key ≡ x.key) × (e.value ≡ x.value) × (e.memory_size ≡ x.size))

unlinked :
    (x : Cell) (pre post : List Cell)
    → Apart x pre post
    → (c : Cache) → c.head ≡ first_or x.addr (nodes pre)
    → c.tail ≡ last_or x.addr (nodes post)
    → Parts x pre post c.heap x.addr x.addr
    → (g : Heap) × (lru_remove c x.addr
        ≡ some (record c {
          heap = g;
          head = first_or (behind post) (nodes pre);
          tail = last_or (before pre) (nodes post);
        }))
      × SameHash c.heap g
      × Seg g null pre (behind post)
      × Seg g (before pre) post null
      × Kept g x
unfolding lru_remove
unlinked x pre post ap3 c first last parts =
    let (h₁, run₁, same₁, parts₁) = unlink_prev_lem x pre post ap3 c first parts in
    let c₁ = record c { heap = h₁; head = first_or (behind post) (nodes pre) } in
    let (h₂, run₂, same₂, parts₂) = unlink_next_lem x pre post ap3 c₁ last parts₁ in
    let (e, there, fields) = parts₂.here in
    let new = record e { prev = null; next = null } in
    let g = write h₂ x.addr (some new) in
    let key : e.key ≡ x.key = ground (arith, fields) in
    (
      g,
      rw (lru_remove, run₁, run₂, there) refl,
      SameHash-trans c.heap h₂ g (SameHash-trans c.heap h₁ h₂ same₁ same₂)
          (SameHash-write h₂ x.addr e new there (refl, refl)),
      Seg-write h₂ x.addr null (behind post) e pre (some new) there
          (ap (λ k. find k (nodes pre)) key ∙ ap3.out_pre) parts₂.left,
      Seg-write h₂ x.addr (before pre) null e post (some new) there
          (ap (λ k. find k (nodes post)) key ∙ ap3.out_post) parts₂.right,
      (
        new,
        load-write_self h₂ x.addr (some new) (load-nonnull h₂ x.addr there),
        ground (arith, fields),
      ),
    )

-- An entry of the list has its place in it.
placed :
    (c : Cache) (x : Cell) (pre post : List Cell)
    → IsUsed c (pre ++ (x ∷ post))
    → Apart x pre post × Parts x pre post c.heap x.addr x.addr
placed c x pre post used =
    let both = nodes-append pre (x ∷ post) in
    let (d_pre, d_rest, across) =
      Distinct-append (nodes pre) (nodes (x ∷ post)) (rw both at used.distinct) in
    let (left, right) = Seg-split c.heap null null pre (x ∷ post) used.linked in
    (
      record {
        out_pre = elim (Option-cases (find x.key (nodes pre))) [
          | inl missing ↦ missing
          | inr (a, there) ↦
              let absent = across x.key (λ m. ground (arith, m)) in ground (arith, absent)
        ];
        out_post = d_rest.0;
        d_pre = d_pre;
        d_post = d_rest.1;
        across = λ k found. ground (arith, across k found);
      },
      record { left = left; here = right.0; right = right.1 },
    )

-- An entry of the list of use leaves it; the others keep their order, and the chains of the table are
-- left alone.
pub lru_remove_lem :
    (c : Cache) (x : Cell) (pre post : List Cell)
    → IsUsed c (pre ++ (x ∷ post))
    → (g : Heap) × (head : Ptr) × (tail : Ptr) × (lru_remove c x.addr
        ≡ some (record c { heap = g; head = head; tail = tail }))
      × SameHash c.heap g
      × IsUsed (record c { heap = g; head = head; tail = tail }) (pre ++ post)
      × Kept g x
lru_remove_lem c x pre post used =
    let both = nodes-append pre (x ∷ post) in
    let (ap3, parts) = placed c x pre post used in
    let first =
      used.head
      ∙ ap (first_or null) both
      ∙ sym (first_or-append null (nodes pre) (nodes (x ∷ post))) in
    let last =
      used.tail
      ∙ ap (last_or null) both
      ∙ sym (last_or-append null (nodes pre) (nodes (x ∷ post))) in
    let (g, run, same, left, right, kept) = unlinked x pre post ap3 c first last parts in
    (
      g,
      first_or (behind post) (nodes pre),
      last_or (before pre) (nodes post),
      run,
      same,
      joined x pre post c g ap3 left right,
      kept,
    )

-- An entry of the list of use becomes its first.
pub lru_move_to_head_lem :
    (c : Cache) (x : Cell) (pre post : List Cell)
    → IsUsed c (pre ++ (x ∷ post))
    → (g : Heap) × (head : Ptr) × (tail : Ptr) × (lru_move_to_head c x.addr
        ≡ some (record c { heap = g; head = head; tail = tail }))
      × SameHash c.heap g
      × IsUsed (record c { heap = g; head = head; tail = tail }) (x ∷ (pre ++ post))
unfolding lru_move_to_head
lru_move_to_head_lem c x [] post used =
    let first : (c.head == x.addr) ≡ true = ground (arith, used.head) in
    (
      c.heap,
      c.head,
      c.tail,
      rw (lru_move_to_head, first) refl,
      λ a e there. (e, there, (refl, refl)),
      record { head = used.head; tail = used.tail; linked = used.linked; distinct = used.distinct },
    )
lru_move_to_head_lem c x (y ∷ ys) post used =
    let pre = y ∷ ys in
    let (ap3, parts) = placed c x pre post used in
    let (e_y, there_y, fields_y) = parts.left.0 in
    let (e_x, there_x, fields_x) = parts.here in
    let other : y.addr ≢ x.addr = λ at.
      ground
        (arith, ap3.out_pre, fields_x, fields_y, sym there_y ∙ ap (load c.heap) at ∙ there_x) in
    let first : (c.head == x.addr) ≡ false = ground (arith, used.head, other) in
    let (g, head, tail, run, same, rest, (e, there, (key, value, size))) =
      lru_remove_lem c x pre post used in
    let c₁ = record c { heap = g; head = head; tail = tail } in
    let both = nodes-append pre post in
    let out : find x.key (nodes (pre ++ post)) ≡ none =
      ap (find x.key) both
      ∙ find-append_right x.key (nodes pre) (nodes post) ap3.out_pre ap3.out_post in
    let (h, tail', run', same', moved) =
      lru_insert_head_lem c₁ x e (pre ++ post) there key value size out rest in
    (
      h,
      x.addr,
      tail',
      rw (lru_move_to_head, first, run) run',
      SameHash-trans c.heap g h same same',
      record {
        head = moved.head;
        tail = moved.tail;
        linked = moved.linked;
        distinct = moved.distinct;
      },
    )
