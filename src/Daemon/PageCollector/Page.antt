-- ===== src/Daemon/PageCollector/Page.antt =====
-- src/daemon/control/BrowseDirectoryPageCollector.cpp: the page against all entries sorted.
use btrfs_backup.Common.{
  Bool, Bool-cases, inl, inr, ℕ, zero, suc, ◌+◌, ◌≤◌, if◌then◌else◌, ltb, leb, length, take, List,
  [], ◌∷◌, insert_sorted, sort, length-sort, ◌≡◌, refl, sym, ap, ◌∙◌, arith,
}
use btrfs_backup.Core.Errors.{ok}
use btrfs_backup.Daemon.PageCollector.{
  BrowseEntryInfo, BrowseDirectoryPage, BrowseDirectoryPageCollector, new_collector, name_less,
  without_largest, pushed, add, back_name, finish, retained_entries,
}

-- The collector after entries were added, the last one first.
abbrev pub collect :
    BrowseDirectoryPageCollector → List BrowseEntryInfo → BrowseDirectoryPageCollector
collect collector [] = collector
collect collector (entry ∷ added) = add (collect collector added) entry

-- The page that all entries make: the first of them by name, and the name of its last one where
-- there are more.
abbrev pub page_of : ℕ → List BrowseEntryInfo → BrowseDirectoryPage
page_of maximum_entries added =
    let first = take maximum_entries (sort name_less added) in
    record {
      entries = first;
      continuation_token = (if ltb maximum_entries (length added) then back_name first else []);
    }

take-take : {A : Type 0} (n : ℕ) (xs : List A) → take n (take (suc n) xs) ≡ take n xs
take-take zero xs = refl
take-take (suc n) [] = refl
take-take (suc n) (x ∷ xs) = ap (◌∷◌ x) (take-take n xs)

take-cons-take :
    {A : Type 0} (n : ℕ) (x : A) (xs : List A) → take n (x ∷ take n xs) ≡ take n (x ∷ xs)
take-cons-take zero x xs = refl
take-cons-take (suc n) x xs = ap (◌∷◌ x) (take-take n xs)

-- What is cut off has no part in what is kept.
take-insert_sorted :
    {A : Type 0} (lt : A → A → Bool) (n : ℕ) (x : A) (xs : List A)
    → take n (insert_sorted lt x (take n xs)) ≡ take n (insert_sorted lt x xs)
unfolding insert_sorted
take-insert_sorted lt zero x xs = refl
take-insert_sorted lt (suc n) x [] = refl
take-insert_sorted lt (suc n) x (y ∷ xs) = elim (Bool-cases (lt y x)) [
  | inl before ↦ rw before (ap (◌∷◌ y) (take-insert_sorted lt n x xs))
  | inr after ↦ rw after (ap (◌∷◌ x) (take-cons-take n y xs))
]

take-short : {A : Type 0} (n : ℕ) (xs : List A) → length xs ≤ n → take n xs ≡ xs
take-short zero [] h = refl
take-short zero (x ∷ xs) h = ground arith
take-short (suc n) [] h = refl
take-short (suc n) (x ∷ xs) h = ap (◌∷◌ x) (take-short n xs (omega arith))

without_largest-eq-take :
    (n : ℕ) (xs : List BrowseEntryInfo) → length xs ≡ suc n → without_largest xs ≡ take n xs
unfolding without_largest
without_largest-eq-take n [] h = ground arith
without_largest-eq-take zero (x ∷ []) h = refl
without_largest-eq-take (suc n) (x ∷ []) h = ground arith
without_largest-eq-take zero (x ∷ y ∷ xs) h = ground arith
without_largest-eq-take (suc n) (x ∷ y ∷ xs) h =
    ap (◌∷◌ x) (without_largest-eq-take n (y ∷ xs) (omega arith))

length-take_le : {A : Type 0} (n : ℕ) (xs : List A) → length (take n xs) ≤ n
length-take_le zero xs = omega arith
length-take_le (suc n) [] = omega arith
length-take_le (suc n) (x ∷ xs) = omega (arith, length-take_le n xs)

length-insert_sorted :
    {A : Type 0} (lt : A → A → Bool) (x : A) (xs : List A)
    → length (insert_sorted lt x xs) ≡ suc (length xs)
unfolding insert_sorted
length-insert_sorted lt x [] = refl
length-insert_sorted lt x (y ∷ xs) = ground (arith, length-insert_sorted lt x xs)

-- What `add` does to a list of entries.
abbrev trimmed : ℕ → List BrowseEntryInfo → List BrowseEntryInfo
trimmed n entries = if leb (length entries) (n + 1) then entries else without_largest entries

trimmed-eq-take :
    (n : ℕ) (x : BrowseEntryInfo) (xs : List BrowseEntryInfo)
    → length xs ≤ suc n
    → trimmed n (insert_sorted name_less x xs) ≡ take (suc n) (insert_sorted name_less x xs)
trimmed-eq-take n x xs h = elim (Bool-cases (leb (length (insert_sorted name_less x xs)) (n + 1))) [
  | inl fits ↦ rw fits (sym (take-short (suc n) (insert_sorted name_less x xs) (ground arith)))
  | inr over ↦ rw over (
      without_largest-eq-take (suc n) (insert_sorted name_less x xs)
        (ground (arith, length-insert_sorted name_less x xs)))
]

abbrev holding : ℕ → List BrowseEntryInfo → BrowseDirectoryPageCollector
holding n entries = record { maximum_entries = n; entries = entries }

add-holding :
    (n : ℕ) (xs : List BrowseEntryInfo) (x : BrowseEntryInfo)
    → add (holding n xs) x ≡ holding n (trimmed n (insert_sorted name_less x xs))
unfolding add
add-holding n xs x = refl

collect-holding :
    (n : ℕ) (added : List BrowseEntryInfo)
    → collect (holding n []) added ≡ holding n (take (suc n) (sort name_less added))
unfolding sort
collect-holding n [] = refl
collect-holding n (x ∷ added) =
    let sorted = sort name_less added in
    ap (λ (c : BrowseDirectoryPageCollector). add c x) (collect-holding n added)
    ∙ add-holding n (take (suc n) sorted) x
    ∙ ap (holding n) (
        trimmed-eq-take n x (take (suc n) sorted) (length-take_le (suc n) sorted)
        ∙ take-insert_sorted name_less (suc n) x sorted)

new_collector-eq-ok :
    (n : ℕ) (collector : BrowseDirectoryPageCollector)
    → new_collector n ≡ ok collector
    → collector ≡ holding n []
unfolding new_collector
new_collector-eq-ok n collector h = grind arith

more-take :
    {A : Type 0} (n : ℕ) (xs : List A) → ltb n (length (take (suc n) xs)) ≡ ltb n (length xs)
more-take zero [] = refl
more-take zero (x ∷ xs) = ground arith
more-take (suc n) [] = refl
more-take (suc n) (x ∷ xs) = ground (arith, more-take n xs)

finish-holding :
    (n : ℕ) (added : List BrowseEntryInfo)
    → finish (holding n (take (suc n) (sort name_less added))) ≡ page_of n added
unfolding finish
finish-holding n added =
    let sorted = sort name_less added in
    elim (Bool-cases (ltb n (length added))) [
      | inl more ↦
          rw (more-take n sorted, length-sort name_less added, more, take-take n sorted) refl
      | inr all_ ↦
          let short : length sorted ≤ n = ground (arith, length-sort name_less added) in
          rw
            (
              more-take n sorted,
              length-sort name_less added,
              all_,
              take-short n sorted short,
              take-short (suc n) sorted (omega arith),
            )
            refl
    ]

-- The page of the entries of a directory, added one by one, has the first of them
-- by name, at most as many as the page may have, and the name of its last entry as its token where
-- there are more entries. After each addition the collector holds at most one entry above that
-- number, and during the next addition at most two above it.
pub finish-page_of :
    (maximum_entries : ℕ) (added : List BrowseEntryInfo) (collector : BrowseDirectoryPageCollector)
    → new_collector maximum_entries ≡ ok collector
    → (finish (collect collector added) ≡ page_of maximum_entries added)
      × (retained_entries (collect collector added) ≤ maximum_entries + 1)
      × ((entry : BrowseEntryInfo)
          → length (pushed (collect collector added) entry) ≤ maximum_entries + 2)
unfolding retained_entries pushed
finish-page_of n added collector made =
    let held =
      ap (λ (c : BrowseDirectoryPageCollector). collect c added)
        (new_collector-eq-ok n collector made)
      ∙ collect-holding n added in
    (
      ap finish held ∙ finish-holding n added,
      rw held (omega (arith, length-take_le (suc n) (sort name_less added))),
      λ entry. rw held (
          omega (
            arith,
            length-insert_sorted name_less entry (take (suc n) (sort name_less added)),
            length-take_le (suc n) (sort name_less added),
          )),
    )
