-- ===== src/Directory/Read/Lookup.antt =====
-- src/core/directory.c, `sqfs_dirent_lookup`: the entry of a name.
use squashfs_fuse.Common.{
  zero, suc, true, none, some, List, [], ◌∷◌, ◌++◌, ◌≡◌, ◌≢◌, refl, ap, ap₂, ◌∙◌, ◌⊎◌, inl, inr,
  arith, Bool-cases,
}
use squashfs_fuse.Directory.Read.{same_string, dirent_lookup}
use squashfs_fuse.Directory.{Dirent}
use squashfs_fuse.Utils.{Bytes}

abbrev pub HasNoNul : Bytes → Type 0
HasNoNul [] = Unit
HasNoNul (zero ∷ xs) = ⊥
HasNoNul (suc x ∷ xs) = HasNoNul xs

abbrev pub terminated : Bytes → Bytes
terminated name = name ++ (0 ∷ [])

same_string-eq :
    (a b : Bytes)
    → HasNoNul a
    → HasNoNul b
    → same_string (terminated a) (terminated b) ≡ true
    → a ≡ b
unfolding same_string
same_string-eq [] [] ha hb h = refl
same_string-eq [] (zero ∷ b) ha hb h = absurd hb
same_string-eq [] (suc y ∷ b) ha hb h = ground arith
same_string-eq (zero ∷ a) b ha hb h = absurd ha
same_string-eq (suc x ∷ a) [] ha hb h = ground arith
same_string-eq (suc x ∷ a) (zero ∷ b) ha hb h = absurd hb
same_string-eq (suc x ∷ a) (suc y ∷ b) ha hb h =
    let same : suc x ≡ suc y = ground arith in
    ap₂ ◌∷◌ same (same_string-eq a b ha hb (ground arith))

same_string-same : (a : Bytes) → HasNoNul a → same_string (terminated a) (terminated a) ≡ true
unfolding same_string
same_string-same [] ha = refl
same_string-same (zero ∷ a) ha = absurd ha
same_string-same (suc x ∷ a) ha = ground (arith, same_string-same a ha)

-- Every entry has a name as the parser makes it, of bytes that are not NUL.
abbrev pub AllNamed : List Dirent → Type 0
AllNamed [] = Unit
AllNamed (d ∷ ds) = ((t : Bytes) × HasNoNul t × (d.name ≡ terminated t)) × AllNamed ds

abbrev pub IsAbsent : Bytes → List Dirent → Type 0
IsAbsent name [] = Unit
IsAbsent name (d ∷ ds) = (d.name ≢ terminated name) × IsAbsent name ds

abbrev pub IsFirst : Bytes → List Dirent → Dirent → Type 0
IsFirst name ds d =
    (before : List Dirent) × (after : List Dirent) × (ds ≡ before ++ (d ∷ after))
    × (d.name ≡ terminated name)
    × IsAbsent name before

-- Among entries whose names hold no NUL byte, the first of a name is found, and if none is found
-- there is no entry of that name.
pub dirent_lookup_lem :
    (ds : List Dirent) (name : Bytes)
    → AllNamed ds
    → HasNoNul name
    → ((d : Dirent) × (dirent_lookup ds (terminated name) ≡ some d) × IsFirst name ds d)
      ⊎ ((dirent_lookup ds (terminated name) ≡ none) × IsAbsent name ds)
unfolding dirent_lookup
dirent_lookup_lem [] name named plain = inr (refl, tt)
dirent_lookup_lem (d ∷ ds) name ((t, ht, is), named) plain =
    elim (Bool-cases (same_string d.name (terminated name))) [
      | inl same ↦
          let equal = same_string-eq t name ht plain (rw (← is) same) in
          let found : dirent_lookup (d ∷ ds) (terminated name) ≡ some d = ground (arith, same) in
          inl (d, found, ([], ds, refl, is ∙ ap terminated equal, tt))
      | inr other ↦
          let differs : d.name ≢ terminated name = λ e.
            let same : same_string d.name (terminated name) ≡ true =
              rw e (same_string-same name plain) in
            cc in
          elim (dirent_lookup_lem ds name named plain) [
            | inl (e, found, (before, after, split, names, absent)) ↦ inl (
              e,
              ground (arith, other, found),
              (d ∷ before, after, ap (◌∷◌ d) split, names, (differs, absent)),
            )
            | inr (missing, absent) ↦ inr (ground (arith, other, missing), (differs, absent))
          ]
    ]
