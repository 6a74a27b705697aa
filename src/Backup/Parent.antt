-- ===== src/Backup/Parent.antt =====
-- src/backup/model/IncrementalParent.cpp: the choice of the parent of an incremental transfer.
pub mod Table
pub mod Choice
pub mod Pairs
pub mod Ambiguity
pub mod Answers
use btrfs_backup.Common.{
  Bool, true, false, not, ◌&&◌, ◌||◌, eqb, ltb, if◌then◌else◌, List, [], ◌∷◌, ◌++◌, Text, text,
  text_lt, Option, none, some, filter, find, sort, ◌==◌, list_eq, nat_eq,
}
use btrfs_backup.Core.Errors.{Result, ok, err, ◌>>=◌, ◌>>◌, throw_if, validation_error}
use btrfs_backup.Config.Path.{FilePath, path_text, lexically_normal, path_eq}
use btrfs_backup.Backup.Snapshot.{
  SourceId, SnapshotInfo, ReceivedSnapshotUuid, SnapshotUuid, uuid_matches,
}

pub data IncrementalParentSelection : Type 0 where
  full_transfer : IncrementalParentSelection
  incremental_transfer : SnapshotInfo → SnapshotInfo → IncrementalParentSelection

unfoldable pub same_path_text : FilePath → FilePath → Bool
same_path_text left right = path_text (lexically_normal left) == path_text (lexically_normal right)

unfoldable pub newest_first : SnapshotInfo → SnapshotInfo → Bool
newest_first left right =
    if not (eqb left.timestamp right.timestamp)
    then ltb right.timestamp left.timestamp
    else if not (eqb left.sequence right.sequence)
    then ltb right.sequence left.sequence
    else text_lt (path_text right.path) (path_text left.path)

-- `remote_by_received_uuid`, in the order of insertion.
abbrev pub RemoteTable : Type 0
RemoteTable = List (ReceivedSnapshotUuid × SnapshotInfo)

unfoldable pub is_entry_of : SnapshotInfo → ReceivedSnapshotUuid × SnapshotInfo → Bool
is_entry_of remote entry = entry.0.value == remote.received_uuid.value

unfoldable pub insert_remote :
    SourceId
    → RemoteTable
    → SnapshotInfo
    → Option (ReceivedSnapshotUuid × SnapshotInfo)
    → Result RemoteTable
insert_remote source_id table remote none = ok (table ++ (remote.received_uuid, remote) ∷ [])
insert_remote source_id table remote (some duplicate) = do
  throw_if (not (duplicate.1.path == remote.path)) (
      validation_error (
        text "ambiguous remote parent received UUID for "
        ++ source_id
        ++ text ": "
        ++ remote.received_uuid.value))
  ok table

-- One round of the first loop: whether a snapshot of the source was seen, and the table.
unfoldable pub index_remote :
    SourceId → Bool × RemoteTable → SnapshotInfo → Result (Bool × RemoteTable)
index_remote source_id (exist, table) remote =
    if not (remote.source_id == source_id)
    then ok (exist, table)
    else if not remote.readonly || remote.received_uuid.value == []
    then ok (true, table)
    else (do
      table' ← insert_remote source_id table remote (find (is_entry_of remote) table)
      ok (true, table'))

-- The first loop, over the snapshots of the target.
unfoldable pub index_remotes :
    SourceId → Bool × RemoteTable → List SnapshotInfo → Result (Bool × RemoteTable)
index_remotes source_id seen [] = ok seen
index_remotes source_id seen (remote ∷ rest) = do
  seen' ← index_remote source_id seen remote
  index_remotes source_id seen' rest

unfoldable pub is_current : Option FilePath → FilePath → Bool
unfolding same_path_text
is_current none path = false
is_current (some current) path = same_path_text path current

-- What the second loop keeps.
unfoldable pub is_candidate : SourceId → Option FilePath → SnapshotInfo → Bool
unfolding is_current
is_candidate source_id current local =
    not (not (local.source_id == source_id) || not local.readonly || local.uuid.value == [])
    && not (is_current current local.path)

unfoldable pub matching_remote :
    RemoteTable → SnapshotInfo → Option (ReceivedSnapshotUuid × SnapshotInfo)
matching_remote table local = find (λ entry. uuid_matches local.uuid entry.0) table

-- The third loop, over the candidates, newest first.
unfoldable pub choose_parent :
    RemoteTable → List SnapshotInfo → Option (SnapshotInfo × SnapshotInfo)
choose_parent table [] = none
choose_parent table (local ∷ rest) = elim (matching_remote table local) [
  | none ↦ choose_parent table rest
  | some entry ↦ some (local, entry.1)
]

unfoldable pub selection_of :
    SourceId → Bool → Option (SnapshotInfo × SnapshotInfo) → Result IncrementalParentSelection
selection_of source_id must_be_incremental (some (local, remote)) =
    ok (incremental_transfer local remote)
selection_of source_id must_be_incremental none = do
  throw_if must_be_incremental (
      validation_error (
        text "Remote snapshots exist for "
        ++ source_id
        ++ text ", but no UUID-matching local parent was found."))
  ok full_transfer

unfoldable pub select_incremental_parent :
    SourceId
    → List SnapshotInfo
    → List SnapshotInfo
    → Option FilePath
    → Bool
    → Result IncrementalParentSelection
select_incremental_parent source_id local_snapshots remote_snapshots current incremental_required =
    do
      seen ← index_remotes source_id (false, []) remote_snapshots
      let candidates = sort newest_first (filter (is_candidate source_id current) local_snapshots)
      selection_of source_id (seen.0 && incremental_required) (choose_parent seen.1 candidates)
