-- ===== src/Backup/Recovery.antt =====
-- src/backup/model/PendingRecovery.hpp and .cpp: what is done about the marker that an interrupted
-- run left behind.
pub mod Effects
use btrfs_backup.Common.{
  Bool, true, false, not, ◌&&◌, ◌||◌, if◌then◌else◌, List, [], ◌∷◌, ◌++◌, Text, text, Option, none,
  some, any, find, is_empty, ◌==◌, list_eq, nat_eq,
}
use btrfs_backup.Core.Time.{RuntimeTimePoint}
use btrfs_backup.Config.Path.{
  FilePath, empty_path, path_text, path_empty, filename, child, lexically_normal, path_eq,
}
use btrfs_backup.Config.Validation.{path_is_within}
use btrfs_backup.Backup.Snapshot.{
  SourceId, RunId, SnapshotInfo, SnapshotMetadata, SnapshotUuid, starts_with, uuid_matches,
}

pub data PendingRecoveryEffect : Type 0 where
  delete_pending_remote_snapshot : FilePath → PendingRecoveryEffect
  delete_pending_local_snapshot : FilePath → PendingRecoveryEffect
  clear_pending_marker : FilePath → PendingRecoveryEffect

pub record PendingMarker : Type 0 where
  pub source_id : SourceId
  pub local_snapshot_path : FilePath
  pub final_snapshot_path : FilePath
  pub run_id : RunId
  pub timestamp : RuntimeTimePoint

pub record PendingRecoveryPlan : Type 0 where
  pub marker_path : FilePath
  pub pending_snapshot_path : FilePath
  pub effects : List PendingRecoveryEffect
  pub message : Text

unfoldable pub required : PendingRecoveryPlan → Bool
required plan = not (is_empty plan.effects)

-- `pending_recovery_effect<...>`: the first effect of a kind.
unfoldable pub remote_deletion : List PendingRecoveryEffect → Option FilePath
remote_deletion [] = none
remote_deletion (delete_pending_remote_snapshot p ∷ es) = some p
remote_deletion (e ∷ es) = remote_deletion es

unfoldable pub local_deletion : List PendingRecoveryEffect → Option FilePath
local_deletion [] = none
local_deletion (delete_pending_local_snapshot p ∷ es) = some p
local_deletion (e ∷ es) = local_deletion es

unfoldable pub marker_clearing : List PendingRecoveryEffect → Option FilePath
marker_clearing [] = none
marker_clearing (clear_pending_marker p ∷ es) = some p
marker_clearing (e ∷ es) = marker_clearing es

unfoldable pub remote_contains_received_uuid : List SnapshotInfo → SourceId → SnapshotUuid → Bool
remote_contains_received_uuid remote_snapshots source_id uuid =
    any (λ remote. remote.source_id == source_id && uuid_matches uuid remote.received_uuid)
      remote_snapshots

unfoldable pub marker_path_is_valid : PendingMarker → SourceId → FilePath → FilePath → Bool
marker_path_is_valid marker source_id local_snapshot_dir remote_snapshot_dir =
    let snapshot_path = lexically_normal marker.local_snapshot_path in
    let final_path = lexically_normal marker.final_snapshot_path in
    if not (marker.source_id == source_id) || path_empty marker.local_snapshot_path
    then false
    else if not (path_is_within snapshot_path local_snapshot_dir)
    then false
    else if not (starts_with (source_id ++ b'-' ∷ []) (filename snapshot_path))
    then false
    else if path_empty marker.final_snapshot_path
    then false
    else path_is_within final_path remote_snapshot_dir
      && filename final_path == filename snapshot_path

unfoldable pub remote_snapshot_at_path : List SnapshotInfo → FilePath → Option SnapshotInfo
remote_snapshot_at_path remote_snapshots path =
    find (λ remote. lexically_normal remote.path == lexically_normal path) remote_snapshots

-- Whether the target holds, at the final path, something else than the pending snapshot.
unfoldable pub is_unverified : Option SnapshotInfo → SnapshotUuid → Bool
is_unverified none uuid = false
is_unverified (some final) uuid =
    not (uuid.value == []) && not (uuid_matches uuid final.received_uuid)

module _ (source_id : SourceId) (local_snapshot_dir remote_snapshot_dir : FilePath)
    (remote_snapshots : List SnapshotInfo) (keep_failed_local_snapshot : Bool) where
  -- The part for a valid marker whose local snapshot is there.
  unfoldable pub plan_present : FilePath → PendingMarker → SnapshotUuid → PendingRecoveryPlan
  plan_present marker_path marker uuid =
      let contained = remote_contains_received_uuid remote_snapshots source_id uuid in
      let plan : PendingRecoveryPlan = record {
        marker_path = marker_path;
        pending_snapshot_path = marker.local_snapshot_path;
        effects = clear_pending_marker marker_path ∷ [];
        message = [];
      } in
      if is_unverified (remote_snapshot_at_path remote_snapshots marker.final_snapshot_path) uuid
      then record plan {
        effects =
            delete_pending_remote_snapshot marker.final_snapshot_path
            ∷ (if not keep_failed_local_snapshot && not contained
                then delete_pending_local_snapshot marker.local_snapshot_path ∷ plan.effects
                else plan.effects);
        message =
            text "Removing unverified committed snapshot left by an interrupted run: "
            ++ path_text marker.final_snapshot_path;
      }
      else if not (uuid.value == []) && contained
      then record plan {
        message =
            text "Recovered committed snapshot from an interrupted run: "
            ++ path_text marker.local_snapshot_path;
      }
      else if keep_failed_local_snapshot
      then record plan {
        message =
            text "Keeping pending local snapshot by configuration: "
            ++ path_text marker.local_snapshot_path;
      }
      else record plan {
        effects = delete_pending_local_snapshot marker.local_snapshot_path ∷ plan.effects;
        message =
            text "Removing orphaned local snapshot from an interrupted run: "
            ++ path_text marker.local_snapshot_path;
      }

  unfoldable pub plan_valid :
      FilePath → PendingMarker → Option SnapshotMetadata → PendingRecoveryPlan
  plan_valid marker_path marker none = record {
    marker_path = marker_path;
    pending_snapshot_path = marker.local_snapshot_path;
    effects = clear_pending_marker marker_path ∷ [];
    message =
        text "Clearing pending marker for missing local snapshot: "
        ++ path_text marker.local_snapshot_path;
  }
  plan_valid marker_path marker (some snapshot) =
      if not snapshot.is_subvolume
      then record {
        marker_path = marker_path;
        pending_snapshot_path = marker.local_snapshot_path;
        effects = clear_pending_marker marker_path ∷ [];
        message =
            text "Clearing pending marker for missing local snapshot: "
            ++ path_text marker.local_snapshot_path;
      }
      else plan_present marker_path marker snapshot.uuid

  unfoldable pub plan_marker :
      FilePath → Option PendingMarker → Option SnapshotMetadata → PendingRecoveryPlan
  plan_marker marker_path none pending_snapshot = record {
    marker_path = marker_path;
    pending_snapshot_path = empty_path;
    effects = [];
    message = [];
  }
  plan_marker marker_path (some marker) pending_snapshot =
      if not (marker_path_is_valid marker source_id local_snapshot_dir remote_snapshot_dir)
      then record {
        marker_path = marker_path;
        pending_snapshot_path = marker.local_snapshot_path;
        effects = clear_pending_marker marker_path ∷ [];
        message =
            text "Ignoring invalid pending marker for "
            ++ source_id
            ++ text ": "
            ++ path_text marker_path;
      }
      else plan_valid marker_path marker pending_snapshot

unfoldable pub plan_pending_recovery :
    SourceId
    → FilePath
    → FilePath
    → FilePath
    → Option PendingMarker
    → Option SnapshotMetadata
    → List SnapshotInfo
    → Bool
    → PendingRecoveryPlan
plan_pending_recovery source_id profile_state_dir local_dir remote_dir marker pending remotes keep =
    plan_marker source_id local_dir remote_dir remotes keep
      (child profile_state_dir (text "pending-" ++ source_id)) marker pending
