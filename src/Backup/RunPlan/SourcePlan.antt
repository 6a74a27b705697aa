-- ===== src/Backup/RunPlan/SourcePlan.antt =====
-- src/backup/model/BackupRunPlan.cpp: the plan of one source, and of all enabled sources.
use btrfs_backup.Common.{
  not, if◌then◌else◌, List, [], ◌∷◌, ◌++◌, map, Text, text, Option, none, some, any, filter, ◌==◌,
  list_eq, nat_eq,
}
use btrfs_backup.Core.Errors.{Result, ok, ◌>>=◌, ◌>>◌, throw_if, validation_error}
use btrfs_backup.Core.Time.{RuntimeTimePoint}
use btrfs_backup.Config.Path.{
  FilePath, empty_path, path_text, path_empty, path_append, child, path_eq,
}
use btrfs_backup.Config.Validation.{path_is_within}
use btrfs_backup.Config.Profile.{Profile, ProfileSource, ProfileHookCommand}
use btrfs_backup.Backup.Snapshot.{
  SourceId, RunId, SnapshotSide, local_side, remote_side, SnapshotInfo, SnapshotMetadata,
}
use btrfs_backup.Backup.Parent.{
  IncrementalParentSelection, full_transfer, incremental_transfer, select_incremental_parent,
}
use btrfs_backup.Backup.Retention.{RetentionPlan, plan_count_retention}
use btrfs_backup.Backup.Recovery.{
  PendingMarker, PendingRecoveryPlan, required, local_deletion, remote_deletion,
  plan_pending_recovery,
}
use btrfs_backup.Backup.Actions.{
  BackupRunAction, HookPhase, before_snapshot, after_snapshot, recover, cleanup_incoming_of,
  run_hook, create, send, verify, commit, retain_remote, retain_local, cleanup,
}
use btrfs_backup.Backup.RunPlan.{
  BySource, snapshots_for, pending_marker_for, pending_snapshot_for, planned_snapshot_name,
  projected_snapshot, make_source_run_plan, BackupSourceRunPlan, BackupRunPlan, value_or,
}

pub record SourcePlanContext : Type 0 where
  pub profile : Profile
  pub local_inventory : BySource (List SnapshotInfo)
  pub remote_inventory : BySource (List SnapshotInfo)
  pub pending_markers : BySource (Option PendingMarker)
  pub pending_snapshots : BySource (Option SnapshotMetadata)
  pub profile_state_dir : FilePath
  pub run_id : RunId
  pub snapshot_timestamp : RuntimeTimePoint

pub record PlannedSourcePaths : Type 0 where
  pub remote_snapshot_directory : FilePath
  pub incoming_source_root : FilePath
  pub incoming_run_directory : FilePath
  pub local_snapshot : FilePath
  pub received_snapshot : FilePath
  pub final_remote_snapshot : FilePath
  pub snapshot_name : Text

unfoldable pub plan_source_paths :
    ProfileSource → SourcePlanContext → List SnapshotInfo → Result PlannedSourcePaths
plan_source_paths source context local_snapshots = do
  let remote_root = context.profile.paths.remote_root
  let incoming = context.profile.paths.incoming_root
  let remote_directory = path_append remote_root source.remote_subdir
  let incoming_root = child incoming source.id
  let incoming_run = child incoming_root context.run_id
  throw_if (not (path_is_within remote_directory remote_root)) (
      validation_error
        (text "Remote source directory escapes REMOTE_ROOT: " ++ path_text remote_directory))
  throw_if (not (path_is_within incoming_root incoming)) (
      validation_error
        (text "Incoming source directory escapes INCOMING_ROOT: " ++ path_text incoming_root))
  throw_if (path_is_within source.local_snapshot_dir context.profile.target.mount_point) (
      validation_error (
        text "LOCAL_SNAPSHOT_DIR must not be inside the backup target: "
        ++ path_text source.local_snapshot_dir))
  snapshot_name ← planned_snapshot_name source.id context.snapshot_timestamp local_snapshots
  ok (record {
    remote_snapshot_directory = remote_directory;
    incoming_source_root = incoming_root;
    incoming_run_directory = incoming_run;
    local_snapshot = child source.local_snapshot_dir snapshot_name;
    received_snapshot = child incoming_run snapshot_name;
    final_remote_snapshot = child remote_directory snapshot_name;
    snapshot_name = snapshot_name;
  })

-- The path that the recovery will have deleted on a side; the empty path where there is none.
unfoldable pub removed_path : PendingRecoveryPlan → SnapshotSide → FilePath
removed_path recovery local_side = value_or (local_deletion recovery.effects) empty_path
removed_path recovery remote_side = value_or (remote_deletion recovery.effects) empty_path

unfoldable pub projected_path : PlannedSourcePaths → SnapshotSide → FilePath
projected_path paths local_side = paths.local_snapshot
projected_path paths remote_side = paths.final_remote_snapshot

unfoldable pub without_path : FilePath → List SnapshotInfo → List SnapshotInfo
without_path removed current =
    if not (path_empty removed)
    then filter (λ snapshot. not (snapshot.path == removed)) current
    else current

unfoldable pub projected_snapshots :
    List SnapshotInfo
    → PendingRecoveryPlan
    → SnapshotSide
    → SourceId
    → PlannedSourcePaths
    → RuntimeTimePoint
    → Result (List SnapshotInfo)
projected_snapshots current recovery side source_id paths timestamp = do
  planned ←
      projected_snapshot side source_id paths.snapshot_name timestamp (projected_path paths side)
  ok (without_path (removed_path recovery side) current ++ planned ∷ [])

unfoldable pub hook_actions : SourceId → HookPhase → List ProfileHookCommand → List BackupRunAction
hook_actions source_id phase hooks =
    map (λ hook. run_hook (record { source_id = source_id; phase = phase; hook = hook })) hooks

unfoldable pub recovery_actions : SourceId → PendingRecoveryPlan → List BackupRunAction
recovery_actions source_id recovery =
    if required recovery
    then recover (record { source_id = source_id; recovery = recovery }) ∷ []
    else []

unfoldable pub parent_path_of : IncrementalParentSelection → Option FilePath
parent_path_of full_transfer = none
parent_path_of (incremental_transfer local_parent remote_parent) = some local_parent.path

unfoldable pub ordered_source_actions :
    ProfileSource
    → SourcePlanContext
    → PlannedSourcePaths
    → PendingRecoveryPlan
    → IncrementalParentSelection
    → RetentionPlan
    → RetentionPlan
    → List BackupRunAction
ordered_source_actions source context paths recovery parent local_retention remote_retention =
    recovery_actions source.id recovery
    ++ cleanup_incoming_of
        (record { source_id = source.id; incoming_directory = paths.incoming_source_root })
      ∷ (hook_actions source.id before_snapshot context.profile.hooks.before_snapshot
          ++ create (record {
            source_id = source.id;
            source = source.subvolume;
            snapshot_directory = source.local_snapshot_dir;
            snapshot = paths.local_snapshot;
            final_remote_snapshot = paths.final_remote_snapshot;
            profile_state_directory = context.profile_state_dir;
            run_id = context.run_id;
          })
            ∷ (hook_actions source.id after_snapshot context.profile.hooks.after_snapshot
                ++ send (record {
                  source_id = source.id;
                  snapshot = paths.local_snapshot;
                  parent = parent_path_of parent;
                  remote_snapshot_directory = paths.remote_snapshot_directory;
                  incoming_run_directory = paths.incoming_run_directory;
                })
                  ∷ verify (record {
                    source_id = source.id;
                    local_snapshot = paths.local_snapshot;
                    received_snapshot = paths.received_snapshot;
                  })
                  ∷ commit (record {
                    source_id = source.id;
                    local_snapshot = paths.local_snapshot;
                    received_snapshot = paths.received_snapshot;
                    final_snapshot = paths.final_remote_snapshot;
                  })
                  ∷ retain_remote (record { source_id = source.id; plan = remote_retention })
                  ∷ retain_local (record { source_id = source.id; plan = local_retention })
                  ∷ cleanup (record {
                    source_id = source.id;
                    received_snapshot = paths.received_snapshot;
                    incoming_run_directory = paths.incoming_run_directory;
                    pending_marker = recovery.marker_path;
                    profile_state_directory = context.profile_state_dir;
                  })
                  ∷ []))

unfoldable pub recovery_of :
    ProfileSource → SourcePlanContext → PlannedSourcePaths → PendingRecoveryPlan
recovery_of source context paths =
    plan_pending_recovery source.id context.profile_state_dir source.local_snapshot_dir
      paths.remote_snapshot_directory (pending_marker_for context.pending_markers source.id)
      (pending_snapshot_for context.pending_snapshots source.id)
      (snapshots_for context.remote_inventory source.id)
      context.profile.settings.keep_failed_local_snapshot

unfoldable pub build_source_run_plan :
    ProfileSource → SourcePlanContext → Result BackupSourceRunPlan
build_source_run_plan source context = do
  let locals = snapshots_for context.local_inventory source.id
  let remotes = snapshots_for context.remote_inventory source.id
  paths ← plan_source_paths source context locals
  parent ←
      select_incremental_parent source.id locals remotes (some paths.local_snapshot)
        context.profile.settings.incremental_required
  let recovery = recovery_of source context paths
  local_projected ←
      projected_snapshots locals recovery local_side source.id paths context.snapshot_timestamp
  remote_projected ←
      projected_snapshots remotes recovery remote_side source.id paths context.snapshot_timestamp
  make_source_run_plan source.id (
      ordered_source_actions source context paths recovery parent
        (plan_count_retention source.id local_projected source.local_retention)
        (plan_count_retention source.id remote_projected source.remote_retention))

-- The loop over the sources, with the identifiers seen so far.
unfoldable pub build_sources :
    SourcePlanContext → List SourceId → List ProfileSource → Result (List BackupSourceRunPlan)
build_sources context seen [] = ok []
build_sources context seen (source ∷ rest) =
    let after_skip = build_sources context seen rest in
    let after_plan = build_sources context (source.id ∷ seen) rest in
    if not source.enabled then after_skip else (do
      throw_if (any (λ s. s == source.id) seen)
          (validation_error (text "duplicate source id in backup run plan: " ++ source.id))
      plan ← build_source_run_plan source context
      plans ← after_plan
      ok (plan ∷ plans))

unfoldable pub build_backup_run_plan : SourcePlanContext → Result BackupRunPlan
build_backup_run_plan context = do
  sources ← build_sources context [] context.profile.sources
  ok (record {
    profile_id = context.profile.id;
    run_id = context.run_id;
    target_mount_point = context.profile.target.mount_point;
    sources = sources;
  })
