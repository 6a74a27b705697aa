-- ===== src/Restore/Catalog.antt =====
-- src/restore/RepositoryCatalog.hpp and .cpp: the snapshots of a repository, and relative paths.
pub mod Lookup
use btrfs_backup.Common.{
  Bool, true, false, not, ◌&&◌, ◌||◌, ℕ, if◌then◌else◌, eqb, ltb, any, find, sort, is_empty, List,
  [], ◌∷◌, ◌++◌, Text, text, text_lt, Option, none, some, ◌==◌, list_eq, nat_eq,
}
use btrfs_backup.Core.Time.{RuntimeTimePoint}
use btrfs_backup.Config.Path.{FilePath, path_eq, path_beq, parse_path, lexically_normal, elements}
use btrfs_backup.Restore.Failure.{
  RestoreErrorCode, path_invalid, path_traversal, catalog_invalid, snapshot_not_found,
  RestoreFailure, restore_error, Attempt, thrown, returned,
}

-- The loop over the components of a path.
unfoldable pub check_components : Text → List Text → Attempt (Unit {0})
check_components value [] = returned tt
check_components value (component ∷ components) =
    let rest = check_components value components in
    if component == text ".."
    then thrown (restore_error path_traversal (text "restore path contains '..': " ++ value))
    else if is_empty component || component == text "."
    then thrown (restore_error path_invalid (text "restore path is not canonical: " ++ value))
    else rest

abbrev pub after_components : Text → FilePath → Attempt (Unit {0}) → Attempt FilePath
after_components value path (thrown e) = thrown e
after_components value path (returned done) =
    if not (lexically_normal path == path)
    then thrown (restore_error path_invalid (text "restore path is not canonical: " ++ value))
    else returned path

-- The constructor of `RelativeRestorePath`. On POSIX a path has no root name, and a root
-- directory exactly where it is absolute.
unfoldable pub validate_relative_path : Text → Attempt FilePath
unfolding check_components
validate_relative_path value =
    let path = parse_path value in
    if is_empty value || any (eqb 0) value
    then thrown (restore_error path_invalid (text "restore path is empty or contains NUL"))
    else if path == parse_path (text ".")
    then returned path
    else if path.absolute
    then thrown (restore_error path_traversal (text "restore path must be relative: " ++ value))
    else after_components value path (check_components value (elements path))

pub record RepositoryIdentity : Type 0 where
  pub repository_id : Text
  pub target_filesystem_uuid : Text
  pub created_at : RuntimeTimePoint
  pub features : List Text

pub record CatalogSnapshot : Type 0 where
  pub snapshot_id : Text
  pub host_id : Text
  pub profile_id : Text
  pub source_id : Text
  pub repository_path : FilePath
  pub created_at : RuntimeTimePoint
  pub uuid : Text
  pub received_uuid : Text
  pub parent_uuid : Text
  pub verified : Bool

pub record RepositoryCatalog : Type 0 where
  pub root : FilePath
  pub identity : RepositoryIdentity
  pub generation : ℕ
  pub snapshots : List CatalogSnapshot

unfoldable pub is_incomplete : CatalogSnapshot → Bool
is_incomplete entry =
    is_empty entry.snapshot_id
    || is_empty entry.host_id
    || is_empty entry.profile_id
    || is_empty entry.source_id
    || is_empty entry.uuid
    || not entry.verified

-- The loop over the snapshots, with the identifiers that were seen.
unfoldable pub check_entries : List Text → List CatalogSnapshot → Attempt (Unit {0})
unfolding is_incomplete
check_entries ids [] = returned tt
check_entries ids (entry ∷ entries) =
    let rest = check_entries (entry.snapshot_id ∷ ids) entries in
    if is_incomplete entry
    then thrown (
        restore_error catalog_invalid
          (text "catalog contains an incomplete or unverified snapshot"))
    else if any (λ (id : Text). id == entry.snapshot_id) ids
    then thrown
        (restore_error catalog_invalid (text "duplicate snapshot id: " ++ entry.snapshot_id))
    else rest

unfoldable pub newer_first : CatalogSnapshot → CatalogSnapshot → Bool
unfolding text_lt
newer_first left right =
    if not (eqb left.created_at right.created_at)
    then ltb right.created_at left.created_at
    else text_lt left.snapshot_id right.snapshot_id

abbrev pub checked_catalog : Attempt (Unit {0}) → RepositoryCatalog → Attempt RepositoryCatalog
checked_catalog (thrown e) catalog = thrown e
checked_catalog (returned done) catalog = returned catalog

-- The constructor of `RepositoryCatalog`.
unfoldable pub repository_catalog :
    FilePath → RepositoryIdentity → ℕ → List CatalogSnapshot → Attempt RepositoryCatalog
unfolding check_entries newer_first sort
repository_catalog root identity generation snapshots =
    checked_catalog (check_entries [] snapshots) (record {
      root = root;
      identity = identity;
      generation = generation;
      snapshots = sort newer_first snapshots;
    })

abbrev pub found_snapshot : Text → Option CatalogSnapshot → Attempt CatalogSnapshot
found_snapshot id none =
    thrown (restore_error snapshot_not_found (text "snapshot not found: " ++ id))
found_snapshot id (some snapshot) = returned snapshot

unfoldable pub snapshot : RepositoryCatalog → Text → Attempt CatalogSnapshot
unfolding find
snapshot catalog snapshot_id =
    found_snapshot snapshot_id
      (find (λ (s : CatalogSnapshot). s.snapshot_id == snapshot_id) catalog.snapshots)
