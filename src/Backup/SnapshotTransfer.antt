-- ===== src/Backup/SnapshotTransfer.antt =====
-- src/backup/transfer/SnapshotTransfer.cpp: the commands of a transfer, and the check and the
-- commit of what was received, over the calls of `IBtrfsOperations` and `IFileSystem` on a world.
pub mod Commit
use btrfs_backup.Common.{
  Bool, true, false, not, ◌&&◌, ◌||◌, if◌then◌else◌, List, [], ◌∷◌, ◌++◌, Text, text, Option, none,
  some, ◌==◌, list_eq, nat_eq,
}
use btrfs_backup.Core.ErrorCode.{ErrorCode, repository_recovery_required}
use btrfs_backup.Core.Errors.{
  Error, recovery_required, Result, ok, err, throw_if, validation_error, ◌>>=◌, ◌>>◌,
}
use btrfs_backup.Config.Path.{FilePath, path_text, path_empty}
use btrfs_backup.Backup.Snapshot.{SourceId, SnapshotUuid, SnapshotMetadata, uuid_matches}

pub record SendReceiveCommandPlan : Type 0 where
  pub send_argv : List Text
  pub receive_argv : List Text

unfoldable pub send_parent : FilePath → List Text
unfolding path_text path_empty
send_parent parent_path =
    if not (path_empty parent_path) then text "-p" ∷ path_text parent_path ∷ [] else []

unfoldable pub build_send_receive_command_plan :
    FilePath → FilePath → FilePath → SendReceiveCommandPlan
unfolding send_parent
build_send_receive_command_plan snapshot_path parent_path receive_directory = record {
  send_argv =
      text "btrfs"
      ∷ text "send"
      ∷ text "--proto"
      ∷ text "2"
      ∷ text "--compressed-data"
      ∷ (send_parent parent_path ++ path_text snapshot_path ∷ []);
  receive_argv = text "btrfs" ∷ text "receive" ∷ path_text receive_directory ∷ [];
}

unfoldable pub verify_received_snapshot :
    SourceId → SnapshotMetadata → SnapshotMetadata → Result (Unit {0})
verify_received_snapshot source_id local_snapshot received_snapshot = do
  throw_if (not received_snapshot.is_subvolume)
      (validation_error (text "btrfs receive did not create the expected subvolume"))
  throw_if (not received_snapshot.readonly)
      (validation_error (text "Received subvolume is not readonly"))
  throw_if (not (uuid_matches local_snapshot.uuid received_snapshot.received_uuid)) (
      validation_error
        (text "Received UUID does not match the local snapshot UUID for " ++ source_id))

-- The calls of a commit: plain ones, or those beneath a safe directory root.
pub record CommitCalls (World : Type 0) : Type 0 where
  pub exists : FilePath → World → Result Bool
  pub create_readonly_snapshot : FilePath → FilePath → World → Result (Unit {0}) × World
  pub read_snapshot_metadata : FilePath → World → Result (Option SnapshotMetadata)
  pub delete_subvolume : FilePath → World → Result (Unit {0}) × World

-- `committed.has_value() && uuid_matches(...)`.
unfoldable pub is_verified : SnapshotUuid → Option SnapshotMetadata → Bool
unfolding uuid_matches
is_verified expected none = false
is_verified expected (some committed) = uuid_matches expected committed.received_uuid

unfoldable pub verification_error : Text
verification_error = text "Committed snapshot Received UUID does not match the local snapshot UUID"

-- What is thrown when the deletion of the snapshot that does not match has ended.
unfoldable pub rejection : FilePath → Result (Unit {0}) → Error
unfolding verification_error path_text
rejection final_path (ok done) = validation_error verification_error
rejection final_path (err cleanup) = record {
  class = recovery_required repository_recovery_required;
  what =
      verification_error
      ++ text "; cleanup failed for "
      ++ path_text final_path
      ++ text ": "
      ++ cleanup.what
      ++ text "; repository requires recovery";
}

module _ {World : Type 0} (calls : CommitCalls World) where
  -- The snapshot that does not match is deleted.
  unfoldable pub discard_unverified : FilePath → World → Result (Unit {0}) × World
  unfolding rejection
  discard_unverified final_path w =
      let (deleted, w') = calls.delete_subvolume final_path w in
      (err (rejection final_path deleted), w')

  unfoldable pub check_committed :
      FilePath → SnapshotUuid → Result (Option SnapshotMetadata) → World → Result (Unit {0}) × World
  unfolding is_verified discard_unverified
  check_committed final_path expected (err e) w = (err e, w)
  check_committed final_path expected (ok committed) w =
      if is_verified expected committed then (ok tt, w) else discard_unverified final_path w

  unfoldable pub after_creation :
      FilePath → SnapshotUuid → Result (Unit {0}) × World → Result (Unit {0}) × World
  unfolding check_committed
  after_creation final_path expected (err e, w) = (err e, w)
  after_creation final_path expected (ok done, w) =
      check_committed final_path expected (calls.read_snapshot_metadata final_path w) w

  unfoldable pub create_committed :
      FilePath → FilePath → SnapshotUuid → Result Bool → World → Result (Unit {0}) × World
  unfolding after_creation
  create_committed received_path final_path expected (err e) w = (err e, w)
  create_committed received_path final_path expected (ok there) w =
      if there
      then (
        err (
            validation_error
              (text "Destination snapshot already exists: " ++ path_text final_path)),
        w,
      )
      else after_creation final_path expected
          (calls.create_readonly_snapshot received_path final_path w)

  unfoldable pub commit_received_snapshot :
      FilePath → FilePath → SnapshotUuid → World → Result (Unit {0}) × World
  unfolding create_committed
  commit_received_snapshot received_path final_path expected w =
      create_committed received_path final_path expected (calls.exists final_path w) w

-- The same, beneath a root that the calls are given.
abbrev pub commit_received_snapshot_beneath :
    {World Root : Type 0}
    → (Root → CommitCalls World)
    → Root
    → FilePath
    → FilePath
    → SnapshotUuid
    → World
    → Result (Unit {0}) × World
commit_received_snapshot_beneath calls root = commit_received_snapshot (calls root)
