-- ===== src/Cache/Usage/Unlink.antt =====
-- src/core/cache.c, the two assignments of `lru_remove` that take an entry out from between its
-- neighbours.
use squashfs_fuse.Cache.Heap.{Cell, load-nonnull, nonnull-test, SameHash, SameHash-write}
use squashfs_fuse.Cache.Nodes.{nodes, find, Distinct, first_or, last_or}
use squashfs_fuse.Cache.Usage.{
  LruAt, LruAt-write, Seg, Seg-write, last_there, set_last_next, set_first_prev,
}
use squashfs_fuse.Cache.{Ptr, null, Heap, Cache, write, unlink_prev, unlink_next}
use squashfs_fuse.Common.{
  ℕ, some, none, List, [], ◌∷◌, ◌≡◌, ◌≢◌, refl, sym, ap, ◌∙◌, inl, inr, arith, Option-cases,
}

abbrev before : List Cell → Ptr
before pre = last_or null (nodes pre)

abbrev behind : List Cell → Ptr
behind post = first_or null (nodes post)

-- The keys of an entry and of what stands on its two sides.
pub record Apart (x : Cell) (pre post : List Cell) : Type 0 where
  pub out_pre : find x.key (nodes pre) ≡ none
  pub out_post : find x.key (nodes post) ≡ none
  pub d_pre : Distinct (nodes pre)
  pub d_post : Distinct (nodes post)
  pub across : (k : ℕ) → find k (nodes pre) ≢ none → find k (nodes post) ≡ none

-- The three parts of the list, the first up to `to`, the last from `from` on.
pub record Parts (x : Cell) (pre post : List Cell) (h : Heap) (to from : Ptr) : Type 0 where
  pub left : Seg h null pre to
  pub here : LruAt h x (before pre) (behind post)
  pub right : Seg h from post null

pub unlink_prev_lem :
    (x : Cell) (pre post : List Cell)
    → Apart x pre post
    → (c : Cache) → c.head ≡ first_or x.addr (nodes pre)
    → Parts x pre post c.heap x.addr x.addr
    → (g : Heap) × (unlink_prev c x.addr
        ≡ some (record c { heap = g; head = first_or (behind post) (nodes pre) }))
      × SameHash c.heap g
      × Parts x pre post g (behind post) x.addr
unfolding unlink_prev
unlink_prev_lem x [] post ap3 c first parts =
    let (e, there, fields) = parts.here in
    let prev : e.prev ≡ null = ground (arith, fields) in
    let next : e.next ≡ behind post = ground (arith, fields) in
    (
      c.heap,
      rw (unlink_prev, there, prev, next) refl,
      λ a e' there'. (e', there', (refl, refl)),
      record { left = tt; here = parts.here; right = parts.right },
    )
unlink_prev_lem x (y ∷ ys) post ap3 c first parts =
    let pre = y ∷ ys in
    let (e, there, fields) = parts.here in
    let prev : e.prev ≡ before pre = ground (arith, fields) in
    let next : e.next ≡ behind post = ground (arith, fields) in
    let (old, old_there, found) = last_there c.heap null x.addr y ys parts.left in
    let new = record old { next = behind post } in
    let g = write c.heap (before pre) (some new) in
    let test = nonnull-test (before pre) (load-nonnull c.heap (before pre) old_there) in
    let ne : old.key ≢ x.key = λ k. found (ap (λ q. find q (nodes pre)) k ∙ ap3.out_pre) in
    (
      g,
      rw (unlink_prev, there, prev, test, old_there, next)
          (ap (λ t. some (record c { heap = g; head = t })) first),
      SameHash-write c.heap (before pre) old new old_there (refl, refl),
      record {
        left =
            set_last_next c.heap null x.addr (behind post) y ys old parts.left ap3.d_pre old_there;
        here =
            LruAt-write c.heap (before pre) (before pre) (behind post) old x (some new) old_there
              (λ k. ne (sym k)) parts.here;
        right =
            Seg-write c.heap (before pre) x.addr null old post (some new) old_there
              (ap3.across old.key found) parts.right;
      },
    )

pub unlink_next_lem :
    (x : Cell) (pre post : List Cell)
    → Apart x pre post
    → (c : Cache) → c.tail ≡ last_or x.addr (nodes post)
    → Parts x pre post c.heap (behind post) x.addr
    → (g : Heap) × (unlink_next c x.addr
        ≡ some (record c { heap = g; tail = last_or (before pre) (nodes post) }))
      × SameHash c.heap g
      × Parts x pre post g (behind post) (before pre)
unfolding unlink_next
unlink_next_lem x pre [] ap3 c last parts =
    let (e, there, fields) = parts.here in
    let prev : e.prev ≡ before pre = ground (arith, fields) in
    let next : e.next ≡ null = ground (arith, fields) in
    (
      c.heap,
      rw (unlink_next, there, next, prev) refl,
      λ a e' there'. (e', there', (refl, refl)),
      record { left = parts.left; here = parts.here; right = tt },
    )
unlink_next_lem x pre (z ∷ zs) ap3 c last parts =
    let post = z ∷ zs in
    let (e, there, fields) = parts.here in
    let prev : e.prev ≡ before pre = ground (arith, fields) in
    let next : e.next ≡ z.addr = ground (arith, fields) in
    let (old, old_there, old_fields) = parts.right.0 in
    let new = record old { prev = before pre } in
    let g = write c.heap z.addr (some new) in
    let test = nonnull-test z.addr (load-nonnull c.heap z.addr old_there) in
    let key : old.key ≡ z.key = ground (arith, old_fields) in
    let found : find old.key (nodes post) ≢ none = λ k. ground (arith, key) in
    let ne : old.key ≢ x.key = λ k. found (ap (λ q. find q (nodes post)) k ∙ ap3.out_post) in
    let out : find old.key (nodes pre) ≡ none = elim (Option-cases (find old.key (nodes pre))) [
      | inl missing ↦ missing
      | inr (a, there') ↦ absurd (found (ap3.across old.key (λ m. ground (arith, m))))
    ] in
    (
      g,
      rw (unlink_next, there, next, test, old_there, prev)
          (ap (λ t. some (record c { heap = g; tail = t })) last),
      SameHash-write c.heap z.addr old new old_there (refl, refl),
      record {
        left = Seg-write c.heap z.addr null z.addr old pre (some new) old_there out parts.left;
        here =
            LruAt-write c.heap z.addr (before pre) z.addr old x (some new) old_there
              (λ k. ne (sym k)) parts.here;
        right =
            set_first_prev c.heap x.addr null (before pre) z zs old parts.right ap3.d_post
              old_there;
      },
    )
