-- ===== src/Core/Errors.antt =====
-- src/core/Errors.hpp: the exception classes, and code that throws as a result.
use btrfs_backup.Common.{Bool, true, false, Option, none, some, Text, ◌≡◌, refl, ◌⊎◌, inl, inr}
use btrfs_backup.Core.ErrorCode.{ErrorCode}

-- The classes that the program throws and catches apart. `logic` is `std::logic_error`, and
-- `other` any other `std::exception`.
pub data ErrorClass : Type 0 where
  validation : ErrorClass
  system_operation : ErrorClass
  coded_validation : ErrorCode → ErrorClass
  coded_operation : ErrorCode → ErrorClass
  recovery_required : ErrorCode → ErrorClass
  operation_cancelled : ErrorClass
  logic : ErrorClass
  other : ErrorClass

pub record Error : Type 0 where
  pub class : ErrorClass
  pub what : Text

-- `catch (const BtrfsBackupError&)`.
unfoldable pub is_btrfs_backup_error : ErrorClass → Bool
is_btrfs_backup_error logic = false
is_btrfs_backup_error other = false
is_btrfs_backup_error _ = true

-- `dynamic_cast<const CodedError*>`.
unfoldable pub coded_error : ErrorClass → Option ErrorCode
coded_error (coded_validation c) = some c
coded_error (coded_operation c) = some c
coded_error (recovery_required c) = some c
coded_error _ = none

-- What a function gives that may throw.
pub data Result {ℓ} (A : Type ℓ) : Type ℓ where
  err : Error → Result A
  ok : A → Result A

-- `if (test) throw e;`.
abbrev pub throw_if : Bool → Error → Result (Unit {0})
throw_if true e = err e
throw_if false e = ok tt

abbrev pub validation_error : Text → Error
validation_error m = record { class = validation; what = m }

-- The statements after one that may throw.
infixl 5 ◌>>=◌ ◌>>◌
abbrev pub ◌>>=◌ {ℓ κ} : {A : Type ℓ} {B : Type κ} → Result A → (A → Result B) → Result B
err thrown >>= next = err thrown
ok value >>= next = next value

abbrev pub ◌>>◌ {κ} : {B : Type κ} → Result (Unit {0}) → Result B → Result B
first >> second = first >>= λ _. second

-- Inversion of a bind that succeeds.
pub >>=-eq-ok {ℓ κ} :
    {A : Type ℓ} {B : Type κ} (first : Result A) (next : A → Result B) {b : B}
    → (first >>= next) ≡ ok b
    → (a : A) × (first ≡ ok a) × (next a ≡ ok b)
>>=-eq-ok (err thrown) next h = cc
>>=-eq-ok (ok value) next h = (value, refl, h)

-- Inversion of a bind that fails: the first part failed, or the second did.
pub >>=-eq-err {ℓ κ} :
    {A : Type ℓ} {B : Type κ} (m : Result A) (f : A → Result B) {e : Error}
    → (m >>= f) ≡ err e
    → (m ≡ err e) ⊎ ((a : A) × (m ≡ ok a) × (f a ≡ err e))
>>=-eq-err (ok a) f h = inr (a, refl, h)
>>=-eq-err (err e) f h = inl (cc)

pub ok-injective {ℓ} : {A : Type ℓ} {a b : A} → ok a ≡ ok b → a ≡ b
ok-injective h = cc
