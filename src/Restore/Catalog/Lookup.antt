-- ===== src/Restore/Catalog/Lookup.antt =====
-- src/restore/RepositoryCatalog.cpp: what a catalog holds once it is made.
use btrfs_backup.Common.{
  Bool, true, false, ◌||◌, ℕ, if◌then◌else◌, Bool-cases, Option-cases, inl, inr, eqb, any, All, In,
  find, find-some, find-none, sort, sort-IsSorted, In-sort, In_of-sort, IsSorted, IsStrictWeak,
  is_empty, List, [], ◌∷◌, ◌++◌, Text, text, text_lt_asymm, text_lt_trans, ◌==◌, ==_iff, ==_refl,
  list_eq, nat_eq, ◌≡◌, ◌≢◌, ◌⊎◌, refl, sym, ap, ◌∙◌, subst, arith,
}
use btrfs_backup.Config.Path.{FilePath, path_eq, parse_path, elements, lexically_normal}
use btrfs_backup.Restore.Failure.{path_traversal, restore_error, Attempt, thrown, returned}
use btrfs_backup.Restore.Catalog.{
  check_components, after_components, validate_relative_path, RepositoryIdentity, CatalogSnapshot,
  RepositoryCatalog, is_incomplete, check_entries, newer_first, checked_catalog, repository_catalog,
  found_snapshot, snapshot,
}

true-false : {b : Bool} → b ≡ true → b ≡ false → ⊥
true-false h k = cc

newer_first-IsStrictWeak : IsStrictWeak newer_first
unfolding newer_first
newer_first-IsStrictWeak = record {
  asymm = λ a b h. ground (arith, text_lt_asymm a.snapshot_id b.snapshot_id);
  trans = λ a b c h k. ground (arith, text_lt_trans a.snapshot_id b.snapshot_id c.snapshot_id);
}

abbrev seen : CatalogSnapshot → List Text → Bool
seen entry ids = any (λ (id : Text). id == entry.snapshot_id) ids

-- An entry that passes was not seen before.
check_entries_fresh :
    (ids : List Text) (entries : List CatalogSnapshot) (entry : CatalogSnapshot)
    → check_entries ids entries ≡ returned tt
    → In entry entries
    → (is_incomplete entry ≡ false) × (seen entry ids ≡ false)
unfolding check_entries any
check_entries_fresh ids [] entry h m = elim m [ ]
check_entries_fresh ids (e ∷ entries) entry h (inl same) = grind arith
check_entries_fresh ids (e ∷ entries) entry h (inr m) =
    ground (arith, check_entries_fresh (e.snapshot_id ∷ ids) entries entry)

check_entries_rest :
    (ids : List Text) (e : CatalogSnapshot) (entries : List CatalogSnapshot)
    → check_entries ids (e ∷ entries) ≡ returned tt
    → check_entries (e.snapshot_id ∷ ids) entries ≡ returned tt
unfolding check_entries
check_entries_rest ids e entries h = ground arith

-- An entry behind another one has another identifier.
check_entries_apart :
    (ids : List Text) (e : CatalogSnapshot) (entries : List CatalogSnapshot) (b : CatalogSnapshot)
    → check_entries ids (e ∷ entries) ≡ returned tt
    → In b entries
    → e.snapshot_id ≢ b.snapshot_id
unfolding any
check_entries_apart ids e entries b h m same =
    let fresh =
      (check_entries_fresh (e.snapshot_id ∷ ids) entries b (check_entries_rest ids e entries h)
        m).1 in
    ground (arith, ==_iff e.snapshot_id b.snapshot_id, fresh, same)

-- No two entries that pass have one identifier.
check_entries_unique :
    (ids : List Text) (entries : List CatalogSnapshot) (a b : CatalogSnapshot)
    → check_entries ids entries ≡ returned tt
    → In a entries
    → In b entries
    → a.snapshot_id ≡ b.snapshot_id
    → a ≡ b
check_entries_unique ids [] a b h m n same = elim m [ ]
check_entries_unique ids (e ∷ entries) a b h (inl p) (inl q) same = p ∙ sym q
check_entries_unique ids (e ∷ entries) a b h (inl p) (inr n) same =
    elim (check_entries_apart ids e entries b h n
      (sym (ap (λ (s : CatalogSnapshot). s.snapshot_id) p) ∙ same)) [ ]
check_entries_unique ids (e ∷ entries) a b h (inr m) (inl q) same =
    elim (check_entries_apart ids e entries a h m
      (sym (ap (λ (s : CatalogSnapshot). s.snapshot_id) q) ∙ sym same)) [ ]
check_entries_unique ids (e ∷ entries) a b h (inr m) (inr n) same =
    check_entries_unique (e.snapshot_id ∷ ids) entries a b (check_entries_rest ids e entries h) m n
      same

checked_catalog-eq-returned :
    (check : Attempt (Unit {0})) (made catalog : RepositoryCatalog)
    → checked_catalog check made ≡ returned catalog
    → (check ≡ returned tt) × (made ≡ catalog)
checked_catalog-eq-returned (thrown e) made catalog h = cc
checked_catalog-eq-returned (returned done) made catalog h = (refl, cc)

found_snapshot-in :
    (entries : List CatalogSnapshot) (entry : CatalogSnapshot)
    → In entry entries
    → ((other : CatalogSnapshot)
        → In other entries
        → other.snapshot_id ≡ entry.snapshot_id
        → other ≡ entry)
    → found_snapshot entry.snapshot_id
        (find (λ (s : CatalogSnapshot). s.snapshot_id == entry.snapshot_id) entries)
      ≡ returned entry
found_snapshot-in entries entry m unique =
    let test = λ (s : CatalogSnapshot). s.snapshot_id == entry.snapshot_id in
    elim (Option-cases (find test entries)) [
      | inl missing ↦
          let refused = find-none test entry entries missing m in
          ground (arith, ==_refl entry.snapshot_id, refused)
      | inr (other, e) ↦
          let found = find-some test other entries e in
          let same =
            unique other found.0 ((==_iff other.snapshot_id entry.snapshot_id).0 found.1) in
          rw (e, same) refl
    ]

-- A catalog that is made has its snapshots in order, the newest first, each complete and
-- verified; and each snapshot that it was made from is the one that is found by its identifier.
pub repository_catalog-snapshot :
    (root : FilePath) (identity : RepositoryIdentity) (generation : ℕ)
    (entries : List CatalogSnapshot) (catalog : RepositoryCatalog)
    → repository_catalog root identity generation entries ≡ returned catalog
    → IsSorted newer_first catalog.snapshots
      × ((entry : CatalogSnapshot)
          → In entry entries
          → (is_incomplete entry ≡ false) × (snapshot catalog entry.snapshot_id ≡ returned entry))
unfolding repository_catalog snapshot
repository_catalog-snapshot root identity generation entries catalog h =
    let (passed, made) = checked_catalog-eq-returned (check_entries [] entries) _ catalog h in
    let sorted = ap (λ (c : RepositoryCatalog). c.snapshots) made in
    subst
      (λ (c : RepositoryCatalog).
        IsSorted newer_first c.snapshots
        × ((entry : CatalogSnapshot)
            → In entry entries
            → (is_incomplete entry ≡ false) × (snapshot c entry.snapshot_id ≡ returned entry)))
      made
      (
        sort-IsSorted newer_first newer_first-IsStrictWeak entries,
        λ entry m. (
          (check_entries_fresh [] entries entry passed m).0,
          found_snapshot-in (sort newer_first entries) entry (In-sort newer_first entry entries m)
              (λ other n same.
                check_entries_unique [] entries other entry passed
                  (In_of-sort newer_first other entries n) m same),
        ),
      )

-- A name that leads to an entry below a directory.
abbrev pub IsPlain : Text → Type 0
IsPlain name = (name ≢ text "..") × (name ≢ text ".") × (name ≢ [])

check_components-first :
    (value c : Text) (components : List Text)
    → check_components value (c ∷ components) ≡ returned tt
    → ((c == text "..") ≡ false)
      × ((c == text ".") ≡ false)
      × (is_empty c ≡ false)
      × (check_components value components ≡ returned tt)
unfolding check_components
check_components-first value c components h =
    (ground arith, ground arith, ground arith, ground arith)

unequal : (a b : Text) → (a == b) ≡ false → a ≢ b
unequal a b h e = true-false ((==_iff a b).1 e) h

check_components-IsPlain :
    (value : Text) (components : List Text)
    → check_components value components ≡ returned tt
    → All IsPlain components
check_components-IsPlain value [] h = tt
check_components-IsPlain value (c ∷ components) h =
    let first = check_components-first value c components h in
    (
      (
        unequal c (text "..") first.0,
        unequal c (text ".") first.1,
        λ e. true-false (ap is_empty e) first.2,
      ),
      check_components-IsPlain value components first.3,
    )

after_components-eq-returned :
    (value : Text) (path result : FilePath) (check : Attempt (Unit {0}))
    → after_components value path check ≡ returned result
    → (check ≡ returned tt) × (path ≡ result)
after_components-eq-returned value path result (thrown e) h = cc
after_components-eq-returned value path result (returned done) h =
    elim (Bool-cases (lexically_normal path == path)) [
      | inl normal ↦ (refl, grind arith)
      | inr other ↦ ground arith
    ]

-- What comes after the test of the text.
abbrev checked_path : Text → FilePath → Attempt FilePath
checked_path value path =
    if path == parse_path (text ".")
    then returned path
    else if path.absolute
    then thrown (restore_error path_traversal (text "restore path must be relative: " ++ value))
    else after_components value path (check_components value (elements path))

elements_relative : (path : FilePath) → path.absolute ≡ false → elements path ≡ path.names
unfolding elements
elements_relative path h = rw h refl

checked_path-IsPlain :
    (value : Text) (path result : FilePath)
    → checked_path value path ≡ returned result
    → (result ≡ parse_path (text ".")) ⊎ ((result.absolute ≡ false) × All IsPlain result.names)
checked_path-IsPlain value path result h = elim (Bool-cases (path == parse_path (text "."))) [
  | inl dot ↦
      let e = (==_iff path (parse_path (text "."))).0 dot in
      let same : path ≡ result = ground arith in inl (sym same ∙ e)
  | inr named ↦ elim (Bool-cases (path.absolute)) [
    | inl absolute ↦ ground arith
    | inr relative ↦
        let (plain, same) =
          after_components-eq-returned value path result (check_components value (elements path))
            (ground arith) in
        let names =
          check_components-IsPlain value path.names
            (ap (check_components value) (sym (elements_relative path relative)) ∙ plain) in
        subst
          (λ (r : FilePath).
            (r ≡ parse_path (text ".")) ⊎ ((r.absolute ≡ false) × All IsPlain r.names))
          same (inr (relative, names))
  ]
]

-- A relative path that is accepted is `.`, or has names only that lead below the directory: none
-- of them is `..`, `.` or empty.
pub validate_relative_path-IsPlain :
    (value : Text) (path : FilePath)
    → validate_relative_path value ≡ returned path
    → (path ≡ parse_path (text ".")) ⊎ ((path.absolute ≡ false) × All IsPlain path.names)
unfolding validate_relative_path
validate_relative_path-IsPlain value path h =
    elim (Bool-cases (is_empty value || any (eqb 0) value)) [
      | inl refused ↦ ground arith
      | inr text_ ↦ checked_path-IsPlain value (parse_path value) path (ground arith)
    ]
