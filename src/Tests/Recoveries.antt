-- ===== src/Tests/Recoveries.antt =====
-- Recovery plans of sample markers.
use btrfs_backup.Common.{
  true, false, ℕ, List, [], ◌∷◌, Text, text, Option, none, some, ◌≡◌, refl, inl, inr, In, ◌++◌,
}
use btrfs_backup.Config.Path.{child}
use btrfs_backup.Backup.Snapshot.{SnapshotInfo, SnapshotMetadata}
use btrfs_backup.Backup.Recovery.{
  PendingMarker, delete_pending_local_snapshot, delete_pending_remote_snapshot,
  plan_pending_recovery,
}
use btrfs_backup.Backup.Recovery.Effects.{
  ClearsLast, DeletesLocal, DeletesRemote, plan_pending_recovery-ClearsLast,
  plan_pending_recovery-DeletesLocal, plan_pending_recovery-DeletesRemote,
}
use btrfs_backup.Tests.Samples.{home, at, local_dir, remote_dir, remote_at}

-- The name of the snapshot that an interrupted run left.
abbrev name : Text
name = text "h-2026-02-28T235907Z"

abbrev marker : PendingMarker
marker = record {
  source_id = home;
  local_snapshot_path = at ((b'l' ∷ []) ∷ name ∷ []);
  final_snapshot_path = at ((b'r' ∷ []) ∷ name ∷ []);
  run_id = b'1' ∷ [];
  timestamp = 0;
}

abbrev pending : SnapshotMetadata
pending = record {
  is_subvolume = true;
  readonly = true;
  uuid = record { value = 5 ∷ [] };
  received_uuid = record { value = [] };
}

-- A snapshot at the marker's final path that was received from another one.
abbrev foreign : SnapshotInfo
foreign = record (remote_at 3) { path = at ((b'r' ∷ []) ∷ name ∷ []) }

local_deleted :
    In
      (delete_pending_local_snapshot marker.local_snapshot_path)
      (plan_pending_recovery home
        (at [])
        local_dir
        remote_dir
        (some marker)
        (some pending)
        (remote_at 3 ∷ [])
        false).effects
unfolding plan_pending_recovery btrfs_backup.Backup.Recovery.plan_marker
    btrfs_backup.Backup.Recovery.marker_path_is_valid btrfs_backup.Common.list_beq
    btrfs_backup.Config.Path.path_empty btrfs_backup.Config.Validation.path_is_within
    btrfs_backup.Config.Path.elements btrfs_backup.Config.Path.lexically_normal text
    btrfs_backup.Backup.Snapshot.starts_with btrfs_backup.Config.Path.filename
    btrfs_backup.Backup.Recovery.plan_valid btrfs_backup.Backup.Recovery.plan_present
    btrfs_backup.Backup.Recovery.is_unverified btrfs_backup.Backup.Recovery.remote_snapshot_at_path
    btrfs_backup.Common.find btrfs_backup.Config.Path.path_beq
    btrfs_backup.Backup.Recovery.remote_contains_received_uuid btrfs_backup.Common.any
    btrfs_backup.Backup.Snapshot.uuid_matches
local_deleted = inl refl

remote_deleted :
    In
      (delete_pending_remote_snapshot marker.final_snapshot_path)
      (plan_pending_recovery home
        (at [])
        local_dir
        remote_dir
        (some marker)
        (some pending)
        (foreign ∷ [])
        false).effects
unfolding plan_pending_recovery btrfs_backup.Backup.Recovery.plan_marker
    btrfs_backup.Backup.Recovery.marker_path_is_valid btrfs_backup.Common.list_beq
    btrfs_backup.Config.Path.path_empty btrfs_backup.Config.Validation.path_is_within
    btrfs_backup.Config.Path.elements btrfs_backup.Config.Path.lexically_normal text
    btrfs_backup.Backup.Snapshot.starts_with btrfs_backup.Config.Path.filename
    btrfs_backup.Backup.Recovery.plan_valid btrfs_backup.Backup.Recovery.plan_present
    btrfs_backup.Backup.Recovery.is_unverified btrfs_backup.Backup.Recovery.remote_snapshot_at_path
    btrfs_backup.Common.find btrfs_backup.Config.Path.path_beq
    btrfs_backup.Backup.Snapshot.uuid_matches
remote_deleted = inl refl

plan_pending_recovery-ClearsLast_example :
    ClearsLast
      (child (at []) (text "pending-" ++ home))
      (plan_pending_recovery home
        (at [])
        local_dir
        remote_dir
        (some marker)
        (some pending)
        (foreign ∷ [])
        false).effects
plan_pending_recovery-ClearsLast_example =
    plan_pending_recovery-ClearsLast home local_dir remote_dir (foreign ∷ []) false (at []) marker
      (some pending)

plan_pending_recovery-DeletesLocal_example :
    DeletesLocal home local_dir remote_dir
      (remote_at 3 ∷ [])
      false
      marker
      (some pending)
      marker.local_snapshot_path
plan_pending_recovery-DeletesLocal_example =
    plan_pending_recovery-DeletesLocal home local_dir remote_dir (remote_at 3 ∷ []) false (at [])
      marker (some pending) marker.local_snapshot_path local_deleted

plan_pending_recovery-DeletesRemote_example :
    DeletesRemote home local_dir remote_dir
      (foreign ∷ [])
      false
      marker
      (some pending)
      marker.final_snapshot_path
plan_pending_recovery-DeletesRemote_example =
    plan_pending_recovery-DeletesRemote home local_dir remote_dir (foreign ∷ []) false (at [])
      marker (some pending) marker.final_snapshot_path remote_deleted
