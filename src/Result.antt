-- ===== src/Result.antt =====
-- The outcome of a C function of the core: the error codes of src/core/utils.h, and `fault` for a
-- read or write outside the object that it is meant for, which C leaves undefined.
use squashfs_fuse.Common.{Bool, if◌then◌else◌, ◌≡◌, refl, ◌⊎◌, inl, inr}

-- `sqfs_error_t` without SQFS_OK, which is the constructor `ok` of `Result`.
pub data Error : Type 0 where
  corrupt bad_magic bad_version bad_comp bad_inode bad_dir bad_xattr : Error
  bad_block not_found no_memory io overflow : Error

pub data Result {ℓ} (A : Type ℓ) : Type ℓ where
  fault : Result A
  err : Error → Result A
  ok : A → Result A

infixl 5 ◌>>=◌ ◌>>◌
abbrev pub ◌>>=◌ {ℓ κ} : {A : Type ℓ} {B : Type κ} → Result A → (A → Result B) → Result B
fault >>= next = fault
err why >>= next = err why
ok x >>= next = next x

-- `if (!cond) return e;`
abbrev pub check : Bool → Error → Result (Unit {0})
check cond why = if cond then ok tt else err why

abbrev pub ◌>>◌ {ℓ} : {B : Type ℓ} → Result (Unit {0}) → Result B → Result B
first >> second = first >>= λ _. second

pub >>=-eq-ok {ℓ κ} :
    {A : Type ℓ} {B : Type κ} (first : Result A) (next : A → Result B) {y : B}
    → first >>= next ≡ ok y
    → (x : A) × (first ≡ ok x) × (next x ≡ ok y)
>>=-eq-ok fault next h = cc
>>=-eq-ok (err why) next h = cc
>>=-eq-ok (ok x) next h = (x, refl, h)

pub Result-cases {ℓ} :
    {A : Type ℓ} (m : Result A) → ((a : A) × (m ≡ ok a)) ⊎ ((e : Error) × (m ≡ err e)) ⊎ (m ≡ fault)
Result-cases (ok a) = inl (a, refl)
Result-cases (err e) = inr (inl (e, refl))
Result-cases fault = inr (inr refl)
