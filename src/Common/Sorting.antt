-- ===== src/Common/Sorting.antt =====
-- `std::sort` by a comparator: insertion sort, which returns a sorted permutation. Where two
-- elements compare equal `std::sort` leaves their order open; here it is the order of the input.
use mathlib.Core.Path.{◌≡◌, refl}
use Prim.Native.Nat.{suc}
use mathlib.Core.Logic.{◌⊎◌, inl, inr}
use mathlib.Core.Bool.{Bool, true, false}
use mathlib.Core.List.{List, [], ◌∷◌, Perm}
use mathlib.Core.List.Perm
use native.Mathlib.Omega.{arith}
use btrfs_backup.Common.Tests.{if◌then◌else◌, Bool-cases}
use btrfs_backup.Common.Lists.{All, In, length}

-- What `std::sort` asks of a comparator.
pub record IsStrictWeak {ℓ} {A : Type ℓ} (lt : A → A → Bool) : Type ℓ where
  pub asymm : (a b : A) → lt a b ≡ true → lt b a ≡ false
  pub trans : (a b c : A) → lt b a ≡ false → lt c b ≡ false → lt c a ≡ false

-- No later element is before an earlier one.
abbrev pub IsSorted {ℓ} : {A : Type ℓ} → (A → A → Bool) → List A → Type ℓ
IsSorted lt [] = Unit
IsSorted lt (x ∷ xs) = All (λ y. lt y x ≡ false) xs × IsSorted lt xs

module _ {ℓ} {A : Type ℓ} (lt : A → A → Bool) where
  unfoldable pub insert_sorted : A → List A → List A
  insert_sorted x [] = x ∷ []
  insert_sorted x (y ∷ ys) = if lt y x then y ∷ insert_sorted x ys else x ∷ y ∷ ys

  unfoldable pub sort : List A → List A
  unfolding insert_sorted
  sort [] = []
  sort (x ∷ xs) = insert_sorted x (sort xs)

  insert_sorted-perm : (x : A) (xs : List A) → Perm (insert_sorted x xs) (x ∷ xs)
  unfolding insert_sorted
  insert_sorted-perm x [] = Perm.refl _
  insert_sorted-perm x (y ∷ ys) = elim (Bool-cases (lt y x)) [
    | inl e ↦ rw e (Perm.trans (Perm.cons y (insert_sorted-perm x ys)) (Perm.swap x y ys))
    | inr e ↦ rw e (Perm.refl _)
  ]

  pub sort-perm : (xs : List A) → Perm (sort xs) xs
  unfolding sort
  sort-perm [] = Perm.refl _
  sort-perm (x ∷ xs) = Perm.trans (insert_sorted-perm x (sort xs)) (Perm.cons x (sort-perm xs))

  length-insert_sorted : (x : A) (xs : List A) → length (insert_sorted x xs) ≡ suc (length xs)
  unfolding insert_sorted
  length-insert_sorted x [] = refl
  length-insert_sorted x (y ∷ ys) = ground (arith, length-insert_sorted x ys)

  pub length-sort : (xs : List A) → length (sort xs) ≡ length xs
  unfolding sort
  length-sort [] = refl
  length-sort (x ∷ xs) = omega (arith, length-insert_sorted x (sort xs), length-sort xs)

  In_of-insert_sorted : (a x : A) (xs : List A) → In a (insert_sorted x xs) → (a ≡ x) ⊎ In a xs
  unfolding insert_sorted
  In_of-insert_sorted a x [] m = m
  In_of-insert_sorted a x (y ∷ ys) m = ground (arith, In_of-insert_sorted a x ys)

  pub In_of-sort : (a : A) (xs : List A) → In a (sort xs) → In a xs
  unfolding sort insert_sorted
  In_of-sort a [] m = m
  In_of-sort a (x ∷ xs) m = ground (arith, In_of-insert_sorted a x (sort xs), In_of-sort a xs)

  In-insert_sorted : (a x : A) (xs : List A) → (a ≡ x) ⊎ In a xs → In a (insert_sorted x xs)
  unfolding insert_sorted
  In-insert_sorted a x [] m = m
  In-insert_sorted a x (y ∷ ys) m = ground (arith, In-insert_sorted a x ys)

  pub In-sort : (a : A) (xs : List A) → In a xs → In a (sort xs)
  unfolding sort insert_sorted
  In-sort a [] m = m
  In-sort a (x ∷ xs) m = In-insert_sorted a x (sort xs) (ground (arith, In-sort a xs))

  All-insert_sorted {κ} :
      (P : A → Type κ) (x : A) (xs : List A) → P x → All P xs → All P (insert_sorted x xs)
  unfolding insert_sorted
  All-insert_sorted P x [] p h = (p, tt)
  All-insert_sorted P x (y ∷ ys) p h = elim (Bool-cases (lt y x)) [
    | inl e ↦ rw e (h.0, All-insert_sorted P x ys p h.1)
    | inr e ↦ rw e (p, h)
  ]

  module _ (w : IsStrictWeak lt) where
    All-trans :
        (x y : A) (xs : List A)
        → lt y x ≡ false
        → All (λ z. lt z y ≡ false) xs
        → All (λ z. lt z x ≡ false) xs
    All-trans x y [] e h = tt
    All-trans x y (z ∷ zs) e h = (w.trans x y z e h.0, All-trans x y zs e h.1)

    insert_sorted-IsSorted :
        (x : A) (xs : List A) → IsSorted lt xs → IsSorted lt (insert_sorted x xs)
    unfolding insert_sorted
    insert_sorted-IsSorted x [] s = (tt, tt)
    insert_sorted-IsSorted x (y ∷ ys) s = elim (Bool-cases (lt y x)) [
      | inl e ↦ rw e (
        All-insert_sorted (λ z. lt z y ≡ false) x ys (w.asymm y x e) s.0,
        insert_sorted-IsSorted x ys s.1,
      )
      | inr e ↦ rw e ((e, All-trans x y ys e s.0), s)
    ]

    pub sort-IsSorted : (xs : List A) → IsSorted lt (sort xs)
    unfolding sort
    sort-IsSorted [] = tt
    sort-IsSorted (x ∷ xs) = insert_sorted-IsSorted x (sort xs) (sort-IsSorted xs)
