-- ===== src/Common/Slices.antt =====
-- Parts of a list by position: `slice xs i n` is the `n` elements from place `i` on.
use Prim.Native.Nat.{ℕ, zero, suc, ◌+◌, ◌-◌, ◌≤◌, ◌<◌}
use mathlib.Core.Path.{◌≡◌, refl, sym, ap, ◌∙◌}
use mathlib.Core.Option.{some}
use mathlib.Core.List.{List, [], ◌∷◌, ◌++◌}
use native.Mathlib.Omega.{arith}
use squashfs_fuse.Common.Lists.{length, get_elem?, take, drop, length-take, length-drop}

module _ {ℓ} {A : Type ℓ} where
  abbrev pub slice : List A → ℕ → ℕ → List A
  slice xs i n = take n (drop i xs)

  drop-nil : (n : ℕ) (xs : List A) → xs ≡ [] → drop n xs ≡ []
  drop-nil zero xs e = e
  drop-nil (suc n) [] e = refl
  drop-nil (suc n) (x ∷ xs) e = cc

  take-nil : (n : ℕ) (xs : List A) → xs ≡ [] → take n xs ≡ []
  take-nil zero xs e = refl
  take-nil (suc n) [] e = refl
  take-nil (suc n) (x ∷ xs) e = cc

  pub drop-drop : (i j : ℕ) (xs : List A) → drop j (drop i xs) ≡ drop (i + j) xs
  drop-drop zero j xs = ap (λ t. drop t xs) (omega arith)
  drop-drop (suc i) j [] = drop-nil j [] refl ∙ sym (drop-nil (suc i + j) [] refl)
  drop-drop (suc i) j (x ∷ xs) =
      let shifted : suc (i + j) ≡ suc i + j = omega arith in
      drop-drop i j xs ∙ ap (λ t. drop t (x ∷ xs)) shifted

  -- Adjacent slices join.
  pub take-add : (n m : ℕ) (xs : List A) → take n xs ++ take m (drop n xs) ≡ take (n + m) xs
  take-add zero m xs = ap (λ t. take t xs) (omega arith)
  take-add (suc n) m [] = take-nil m [] refl ∙ sym (take-nil (suc n + m) [] refl)
  take-add (suc n) m (x ∷ xs) =
      let shifted : suc (n + m) ≡ suc n + m = omega arith in
      ap (◌∷◌ x) (take-add n m xs) ∙ ap (λ t. take t (x ∷ xs)) shifted

  pub slice-join :
      (xs : List A) (i n m : ℕ) → slice xs i n ++ slice xs (i + n) m ≡ slice xs i (n + m)
  slice-join xs i n m = rw (← drop-drop i n xs) (take-add n m (drop i xs))

  pub drop-append : (xs ys : List A) → drop (length xs) (xs ++ ys) ≡ ys
  drop-append [] ys = refl
  drop-append (x ∷ xs) ys = drop-append xs ys

  pub take-append : (xs ys : List A) → take (length xs) (xs ++ ys) ≡ xs
  take-append [] ys = refl
  take-append (x ∷ xs) ys = ap (◌∷◌ x) (take-append xs ys)

  pub length-slice : (xs : List A) (i n : ℕ) → i + n ≤ length xs → length (slice xs i n) ≡ n
  length-slice xs i n h = omega (arith, length-take n (drop i xs), length-drop i xs)

  -- Taking from two lists in a row.
  pub take-append_short : (n : ℕ) (xs ys : List A) → n ≤ length xs → take n (xs ++ ys) ≡ take n xs
  take-append_short zero xs ys h = refl
  take-append_short (suc n) [] ys h = absurd (omega arith)
  take-append_short (suc n) (x ∷ xs) ys h = ap (◌∷◌ x) (take-append_short n xs ys (omega arith))

  pub take-append_long :
      (n : ℕ) (xs ys : List A) → length xs ≤ n → take n (xs ++ ys) ≡ xs ++ take (n - length xs) ys
  take-append_long n [] ys h = ap (λ t. take t ys) (omega arith)
  take-append_long zero (x ∷ xs) ys h = absurd (omega arith)
  take-append_long (suc n) (x ∷ xs) ys h =
      let shifted : n - length xs ≡ suc n - suc (length xs) = omega arith in
      ap (◌∷◌ x) (take-append_long n xs ys (omega arith) ∙ ap (λ t. xs ++ take t ys) shifted)

  pub take-all : (n : ℕ) (xs : List A) → length xs ≤ n → take n xs ≡ xs
  take-all zero [] h = refl
  take-all zero (x ∷ xs) h = absurd (omega arith)
  take-all (suc n) [] h = refl
  take-all (suc n) (x ∷ xs) h = ap (◌∷◌ x) (take-all n xs (omega arith))

  pub drop-append_short :
      (n : ℕ) (xs ys : List A) → n ≤ length xs → drop n (xs ++ ys) ≡ drop n xs ++ ys
  drop-append_short zero xs ys h = refl
  drop-append_short (suc n) [] ys h = absurd (omega arith)
  drop-append_short (suc n) (x ∷ xs) ys h = drop-append_short n xs ys (omega arith)

  pub get_elem?-within : (xs : List A) {i : ℕ} {x : A} → get_elem? xs i ≡ some x → i < length xs
  get_elem?-within [] e = cc
  get_elem?-within (y ∷ xs) {i = zero} e = omega arith
  get_elem?-within (y ∷ xs) {i = suc i} e = omega (arith, get_elem?-within xs e)

  pub slice-beyond : (xs : List A) (i n : ℕ) → length xs ≤ i → slice xs i n ≡ []
  slice-beyond [] i n h = take-nil n (drop i []) (drop-nil i [] refl)
  slice-beyond (x ∷ xs) zero n h = absurd (omega arith)
  slice-beyond (x ∷ xs) (suc i) n h = slice-beyond xs i n (omega arith)

  -- A slice that ends behind the list ends with it.
  pub slice-cut :
      (xs : List A) (i n : ℕ) → length xs ≤ i + n → slice xs i n ≡ slice xs i (length xs - i)
  slice-cut xs i n h =
      let left = length-drop i xs in
      take-all n (drop i xs) (omega arith)
      ∙ sym (take-all (length xs - i) (drop i xs) (omega arith))

  take-take : (n m : ℕ) (xs : List A) → n ≤ m → take n (take m xs) ≡ take n xs
  take-take zero m xs h = refl
  take-take (suc n) zero xs h = absurd (omega arith)
  take-take (suc n) (suc m) [] h = refl
  take-take (suc n) (suc m) (x ∷ xs) h = ap (◌∷◌ x) (take-take n m xs (omega arith))

  -- A slice of a slice.
  pub slice-slice :
      (xs : List A) (i m k n : ℕ) → k + n ≤ m → slice (slice xs i m) k n ≡ slice xs (i + k) n
  slice-slice xs i m k n h = inner m k (drop i xs) h ∙ ap (take n) (drop-drop i k xs)
    where
      inner : (m k : ℕ) (ys : List A) → k + n ≤ m → take n (drop k (take m ys)) ≡ take n (drop k ys)
      inner m zero ys h = take-take n m ys (omega arith)
      inner zero (suc k) ys h = absurd (omega arith)
      inner (suc m) (suc k) [] h = refl
      inner (suc m) (suc k) (y ∷ ys) h = inner m k ys (omega arith)
