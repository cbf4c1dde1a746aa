-- ===== src/Cache/Nodes.antt =====
-- Lists of entries by address and key, as the chains of the table and the list of use give them.
use squashfs_fuse.Cache.Heap.{Cell}
use squashfs_fuse.Cache.{Ptr}
use squashfs_fuse.Common.{
  ℕ, Option, some, none, List, [], ◌∷◌, ◌++◌, ◌≡◌, ◌≢◌, refl, inl, inr, arith, length, Bool-cases,
  ◌==◌, if◌then◌else◌,
}

-- Address and key.
abbrev pub Node : Type 0
Node = Ptr × ℕ

abbrev pub node : Cell → Node
node x = (x.addr, x.key)

abbrev pub nodes : List Cell → List Node
nodes [] = []
nodes (x ∷ xs) = node x ∷ nodes xs

-- The address of a key.
abbrev pub find : ℕ → List Node → Option Ptr
find k [] = none
find k ((a, key) ∷ ns) = if key == k then some a else find k ns

abbrev pub erase : ℕ → List Node → List Node
erase k [] = []
erase k ((a, key) ∷ ns) = if key == k then ns else (a, key) ∷ erase k ns

-- No key twice.
abbrev pub Distinct : List Node → Type 0
Distinct [] = Unit
Distinct ((a, key) ∷ ns) = (find key ns ≡ none) × Distinct ns

abbrev pub first_or : Ptr → List Node → Ptr
first_or d [] = d
first_or d ((a, key) ∷ ns) = a

abbrev pub last_or : Ptr → List Node → Ptr
last_or d [] = d
last_or d ((a, key) ∷ ns) = last_or a ns

pub first_or-append :
    (d : Ptr) (xs ys : List Node) → first_or (first_or d ys) xs ≡ first_or d (xs ++ ys)
first_or-append d [] ys = refl
first_or-append d (x ∷ xs) ys = refl

pub last_or-append :
    (d : Ptr) (xs ys : List Node) → last_or (last_or d xs) ys ≡ last_or d (xs ++ ys)
last_or-append d [] ys = refl
last_or-append d (x ∷ xs) ys = last_or-append x.0 xs ys

pub nodes-append : (xs ys : List Cell) → nodes (xs ++ ys) ≡ nodes xs ++ nodes ys
nodes-append [] ys = refl
nodes-append (x ∷ xs) ys = rw (nodes-append xs ys)

pub find-append_left :
    (k : ℕ) (xs ys : List Node) → find k xs ≡ none → find k (xs ++ ys) ≡ find k ys
find-append_left k [] ys h = refl
find-append_left k (x ∷ xs) ys h = ground (arith, find-append_left k xs ys)

pub find-append_none :
    (k : ℕ) (xs ys : List Node) → find k (xs ++ ys) ≡ none → (find k xs ≡ none) × (find k ys ≡ none)
find-append_none k [] ys h = (refl, h)
find-append_none k (x ∷ xs) ys h = ground (arith, find-append_none k xs ys)

pub find-append_right :
    (k : ℕ) (xs ys : List Node) → find k xs ≡ none → find k ys ≡ none → find k (xs ++ ys) ≡ none
find-append_right k [] ys h h' = h'
find-append_right k (x ∷ xs) ys h h' = ground (arith, find-append_right k xs ys)

-- The keys of the parts of a list without repetitions are apart.
pub Distinct-append :
    (xs ys : List Node)
    → Distinct (xs ++ ys)
    → Distinct xs × Distinct ys × ((k : ℕ) → find k xs ≢ none → find k ys ≡ none)
Distinct-append [] ys d = (tt, d, λ k h. absurd (h refl))
Distinct-append ((a, key) ∷ xs) ys d =
    let (left, right, apart) = Distinct-append xs ys d.1 in
    let out = find-append_none key xs ys d.0 in
    (
      (out.0, left),
      right,
      λ k h. elim (Bool-cases (key == k)) [
        | inl same ↦ ground (arith, out.1)
        | inr other ↦ apart k (λ e. h (rw other e))
      ],
    )

pub Distinct-join :
    (xs ys : List Node)
    → Distinct xs
    → Distinct ys
    → ((k : ℕ) → find k xs ≢ none → find k ys ≡ none)
    → Distinct (xs ++ ys)
Distinct-join [] ys left right apart = right
Distinct-join ((a, key) ∷ xs) ys left right apart = (
  find-append_right key xs ys left.0 (apart key (λ e. ground arith)),
  Distinct-join xs ys left.1 right (λ k h. apart k (λ e. h (ground arith))),
)

-- Where a key stands.
pub find-split :
    (k : ℕ) (xs : List Cell) (a : Ptr)
    → find k (nodes xs) ≡ some a
    → (pre : List Cell) × (x : Cell) × (post : List Cell) × (xs ≡ pre ++ (x ∷ post))
      × (x.addr ≡ a)
      × (x.key ≡ k)
      × (find k (nodes pre) ≡ none)
find-split k [] a h = cc
find-split k (x ∷ xs) a h = elim (Bool-cases (x.key == k)) [
  | inl here ↦ ([], x, xs, refl, ground arith, ground arith, refl)
  | inr there ↦
      let (pre, y, post, is, at, key, before) = find-split k xs a (ground arith) in
      (x ∷ pre, y, post, rw is refl, at, key, ground arith)
]

pub length-nodes : (xs : List Cell) → length (nodes xs) ≡ length xs
length-nodes [] = refl
length-nodes (x ∷ xs) = omega (arith, length-nodes xs)
