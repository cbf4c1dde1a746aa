-- ===== src/Vfs/Spelling.antt =====
-- src/vfs/vfs_ops.c, how a list of names is spelled as a path, and the tokens of such a path.
use squashfs_fuse.Common.{
  ℕ, zero, suc, ◌<◌, List, [], ◌∷◌, ◌++◌, append-nil, append_assoc, false, ◌≡◌, ◌≢◌, refl, sym, ap,
  ◌∙◌, arith, length, ◌==◌,
}
use squashfs_fuse.Utils.{Bytes}
use squashfs_fuse.Vfs.{tokens}

-- A name, and how many slashes more than the one that is needed stand before it.
pub record Part : Type 0 where
  pub extra : ℕ
  pub name : Bytes

abbrev pub names : List Part → List Bytes
names [] = []
names (x ∷ xs) = x.name ∷ names xs

abbrev pub slashes : ℕ → Bytes → Bytes
slashes zero rest = rest
slashes (suc n) rest = 47 ∷ slashes n rest

abbrev pub spell : List Part → ℕ → Bytes
spell [] last = slashes last []
spell (x ∷ xs) last = 47 ∷ slashes x.extra (x.name ++ spell xs last)

-- What follows the first slash of an absolute path, which ends in `last` slashes, for the root in one more.
abbrev pub behind_slash : List Part → ℕ → Bytes
behind_slash [] last = slashes last []
behind_slash (x ∷ xs) last = slashes x.extra (x.name ++ spell xs last)

abbrev pub absolute : List Part → ℕ → Bytes
absolute xs last = 47 ∷ behind_slash xs last

-- A name has a byte, and neither slashes nor NULs.
abbrev pub Plain : Bytes → Type 0
Plain [] = Unit
Plain (b ∷ bs) = (b ≢ 0) × (b ≢ 47) × Plain bs

abbrev pub ArePlain : List Part → Type 0
ArePlain [] = Unit
ArePlain (x ∷ xs) = (0 < length x.name) × Plain x.name × ArePlain xs

tokens-Plain :
    (begun bs rest : Bytes) → Plain bs → tokens begun (bs ++ rest) ≡ tokens (begun ++ bs) rest
unfolding tokens
tokens-Plain begun [] rest plain = ap (λ t. tokens t rest) (sym (append-nil begun))
tokens-Plain begun (b ∷ bs) rest (no_nul, no_slash, plain) =
    let nul : (b == 0) ≡ false = ground arith in
    let slash : (b == 47) ≡ false = ground arith in
    rw (tokens, nul, slash)
      (tokens-Plain (begun ++ (b ∷ [])) bs rest plain
        ∙ ap (λ t. tokens t rest) (append_assoc begun (b ∷ []) bs))

tokens-slashes : (n : ℕ) (rest : Bytes) → tokens [] (slashes n rest) ≡ tokens [] rest
unfolding tokens
tokens-slashes zero rest = refl
tokens-slashes (suc n) rest = tokens-slashes n rest

-- A name that has begun ends before a slash and at the end.
tokens-spell :
    (name : Bytes) (xs : List Part) (last : ℕ)
    → 0 < length name
    → ArePlain xs
    → tokens name (spell xs last) ≡ name ∷ names xs
unfolding tokens
tokens-spell [] xs last some_there plain = absurd (omega arith)
tokens-spell (b ∷ bs) [] zero some_there plain = refl
tokens-spell (b ∷ bs) [] (suc last) some_there plain =
    ap (λ t. (b ∷ bs) ∷ t) (tokens-slashes last [])
tokens-spell (b ∷ bs) (x ∷ xs) last some_there (filled, free, plain) =
    ap (λ t. (b ∷ bs) ∷ t)
      (tokens-slashes x.extra (x.name ++ spell xs last)
        ∙ tokens-Plain [] x.name (spell xs last) free
        ∙ tokens-spell x.name xs last filled plain)

pub tokens-behind_slash :
    (xs : List Part) (last : ℕ) → ArePlain xs → tokens [] (behind_slash xs last) ≡ names xs
unfolding tokens
tokens-behind_slash [] last plain = tokens-slashes last []
tokens-behind_slash (x ∷ xs) last (filled, free, plain) =
    tokens-slashes x.extra (x.name ++ spell xs last)
    ∙ tokens-Plain [] x.name (spell xs last) free
    ∙ tokens-spell x.name xs last filled plain
