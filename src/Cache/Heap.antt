-- ===== src/Cache/Heap.antt =====
-- src/core/cache.c, the heap of entries: what a write leaves alone. The list of use and the chains
-- of the table go through different fields of the same entries.
use squashfs_fuse.Cache.{Ptr, null, Entry, Heap, load, write}
use squashfs_fuse.Common.{
  ℕ, false, Option, some, ◌≡◌, ◌≢◌, refl, sym, ap, ◌∙◌, inl, inr, arith, Bool-cases, ◌==◌,
}

pub load-nonnull : (h : Heap) (a : Ptr) {e : Entry} → load h a ≡ some e → a ≢ null
unfolding load
load-nonnull h a there = ground arith

pub nonnull-test : (a : Ptr) → a ≢ null → (a == null) ≡ false
nonnull-test a h = ground arith

pub load-write_self :
    (h : Heap) (a : Ptr) (cell : Option Entry) → a ≢ null → load (write h a cell) a ≡ cell
unfolding load write
load-write_self h a cell h' = ground arith

pub load-write_ne :
    (h : Heap) (a b : Ptr) (cell : Option Entry) → b ≢ a → load (write h a cell) b ≡ load h b
unfolding load write
load-write_ne h a b cell ne = ground arith

-- A place in a list of entries.
pub record Cell : Type 0 where
  pub addr : Ptr
  pub key : ℕ
  pub value : Ptr
  pub size : ℕ

-- The fields of the list of use, and those of the table.
abbrev pub AgreeLru : Entry → Entry → Type 0
AgreeLru e e' =
    (e'.key ≡ e.key)
    × (e'.value ≡ e.value)
    × (e'.memory_size ≡ e.memory_size)
    × (e'.prev ≡ e.prev)
    × (e'.next ≡ e.next)

abbrev pub AgreeHash : Entry → Entry → Type 0
AgreeHash e e' = (e'.key ≡ e.key) × (e'.hnext ≡ e.hnext)

-- Every entry is still there, with those fields.
abbrev pub SameLru : Heap → Heap → Type 0
SameLru h g =
    (a : Ptr) (e : Entry) → load h a ≡ some e → (e' : Entry) × (load g a ≡ some e') × AgreeLru e e'

abbrev pub SameHash : Heap → Heap → Type 0
SameHash h g =
    (a : Ptr) (e : Entry) → load h a ≡ some e → (e' : Entry) × (load g a ≡ some e') × AgreeHash e e'

pub SameLru-trans : (f g h : Heap) → SameLru f g → SameLru g h → SameLru f h
SameLru-trans f g h p q a e there =
    let (e₁, there₁, same₁) = p a e there in
    let (e₂, there₂, same₂) = q a e₁ there₁ in (e₂, there₂, ground (arith, same₁, same₂))

pub SameHash-trans : (f g h : Heap) → SameHash f g → SameHash g h → SameHash f h
SameHash-trans f g h p q a e there =
    let (e₁, there₁, same₁) = p a e there in
    let (e₂, there₂, same₂) = q a e₁ there₁ in (e₂, there₂, ground (arith, same₁, same₂))

module _ (h : Heap) (a : Ptr) (e new : Entry) (there : load h a ≡ some e) where
  pub SameLru-write : AgreeLru e new → SameLru h (write h a (some new))
  SameLru-write agree b e' there' = elim (Bool-cases (b == a)) [
    | inl same ↦
        let at : b ≡ a = ground arith in
        let is : e' ≡ e = ground (arith, sym there' ∙ ap (load h) at ∙ there) in
        (
          new,
          ap (load (write h a (some new))) at
              ∙ load-write_self h a (some new) (load-nonnull h a there),
          rw is agree,
        )
    | inr other ↦
        let ne : b ≢ a = ground arith in
        (e', load-write_ne h a b (some new) ne ∙ there', (refl, refl, refl, refl, refl))
  ]

  pub SameHash-write : AgreeHash e new → SameHash h (write h a (some new))
  SameHash-write agree b e' there' = elim (Bool-cases (b == a)) [
    | inl same ↦
        let at : b ≡ a = ground arith in
        let is : e' ≡ e = ground (arith, sym there' ∙ ap (load h) at ∙ there) in
        (
          new,
          ap (load (write h a (some new))) at
              ∙ load-write_self h a (some new) (load-nonnull h a there),
          rw is agree,
        )
    | inr other ↦
        let ne : b ≢ a = ground arith in
        (e', load-write_ne h a b (some new) ne ∙ there', (refl, refl))
  ]
