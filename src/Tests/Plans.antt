-- ===== src/Tests/Plans.antt =====
-- Run plans of a sample profile.
use btrfs_backup.Common.{
  true, false, ℕ, zero, suc, ◌≤◌, List, [], ◌∷◌, map, Text, ◌≡◌, refl, ◌⊎◌, none, some,
}
use btrfs_backup.Core.Errors.{Error, ok, err}
use btrfs_backup.Backup.Snapshot.{SnapshotInfo}
use btrfs_backup.Backup.Parent.{full_transfer}
use btrfs_backup.Backup.Retention.{RetentionPlan, plan_count_retention}
use btrfs_backup.Backup.Recovery.{PendingRecoveryPlan, plan_pending_recovery}
use btrfs_backup.Backup.Actions.{backup_run_action_kind}
use btrfs_backup.Backup.RunPlan.{
  BackupSourceRunPlan, BackupRunPlan, base_name, sequence_name, name_exists, planned_snapshot_name,
  make_source_run_plan,
}
use btrfs_backup.Backup.RunPlan.SourcePlan.{
  PlannedSourcePaths, plan_source_paths, ordered_source_actions, build_source_run_plan,
  build_backup_run_plan,
}
use btrfs_backup.Backup.RunPlan.Names.{
  IsTaken, IsFirstFree, planned_snapshot_name_free, planned_snapshot_name_error,
}
use btrfs_backup.Backup.RunPlan.Order.{
  phases, ordered_source_actions-kinds, make_source_run_plan-ordered,
}
use btrfs_backup.Backup.RunPlan.Sources.{ArePlans, build_backup_run_plan-ArePlans}
use btrfs_backup.Tests.Samples.{home, hook, home_source, context, local_at, at, value_of, error_of}

-- A snapshot with the name of the time stamp 0, and with each of the numbers up to the given one.
abbrev taken_names : ℕ → List SnapshotInfo
taken_names zero = record (local_at 0) { name = base_name home 0 } ∷ []
taken_names (suc n) =
    record (local_at 0) { name = sequence_name (base_name home 0) (suc n) } ∷ taken_names n

third_name : (name : Text) × (planned_snapshot_name home 0 (taken_names 2) ≡ ok name)
unfolding planned_snapshot_name name_exists btrfs_backup.Common.any btrfs_backup.Common.list_beq
    sequence_name base_name btrfs_backup.Common.text
    btrfs_backup.Core.Time.format_utc_snapshot_timestamp btrfs_backup.Common.padded
    btrfs_backup.Core.Calendar.civil_from_days btrfs_backup.Backup.RunPlan.named_or_error
    btrfs_backup.Backup.RunPlan.first_free
third_name = value_of (planned_snapshot_name home 0 (taken_names 2)) refl

planned_snapshot_name_free_example :
    (third_name.0 ≡ base_name home 0) × (name_exists (taken_names 2) third_name.0 ≡ false)
    ⊎ (name_exists (taken_names 2) (base_name home 0) ≡ true)
      × IsFirstFree (base_name home 0) (taken_names 2) 1 99 third_name.0
planned_snapshot_name_free_example =
    planned_snapshot_name_free home 0 (taken_names 2) third_name.0 third_name.1

no_name : (e : Error) × (planned_snapshot_name home 0 (taken_names 99) ≡ err e)
unfolding planned_snapshot_name name_exists btrfs_backup.Common.any btrfs_backup.Common.list_beq
    sequence_name base_name btrfs_backup.Common.text
    btrfs_backup.Core.Time.format_utc_snapshot_timestamp btrfs_backup.Common.padded
    btrfs_backup.Core.Calendar.civil_from_days btrfs_backup.Backup.RunPlan.named_or_error
    btrfs_backup.Backup.RunPlan.first_free
no_name = error_of (planned_snapshot_name home 0 (taken_names 99)) refl

planned_snapshot_name_error_example :
    (name_exists (taken_names 99) (base_name home 0) ≡ true)
    × ((j : ℕ) → 1 ≤ j → j ≤ 99 → IsTaken (base_name home 0) (taken_names 99) j)
planned_snapshot_name_error_example =
    planned_snapshot_name_error home 0 (taken_names 99) no_name.0 no_name.1

abbrev paths : PlannedSourcePaths
paths = record {
  remote_snapshot_directory = at [];
  incoming_source_root = at [];
  incoming_run_directory = at [];
  local_snapshot = at [];
  received_snapshot = at [];
  final_remote_snapshot = at [];
  snapshot_name = home;
}

abbrev recovery : PendingRecoveryPlan
recovery = plan_pending_recovery home (at []) (at []) (at []) none none [] false

abbrev retention : RetentionPlan
retention = plan_count_retention home [] 1

ordered_source_actions-kinds_example :
    map backup_run_action_kind
      (ordered_source_actions home_source context paths recovery full_transfer retention retention)
    ≡ phases false (hook ∷ []) []
unfolding btrfs_backup.Backup.Recovery.required plan_pending_recovery
    btrfs_backup.Backup.Recovery.plan_marker
ordered_source_actions-kinds_example =
    ordered_source_actions-kinds home_source context paths recovery full_transfer retention
      retention

make_source_run_plan-ordered_example :
    make_source_run_plan home
      (ordered_source_actions home_source context paths recovery full_transfer retention retention)
    ≡ ok (record {
      source_id = home;
      actions =
          ordered_source_actions home_source context paths recovery full_transfer retention
            retention;
    })
make_source_run_plan-ordered_example =
    make_source_run_plan-ordered home_source context paths recovery full_transfer retention
      retention

run_plan : (plan : BackupRunPlan) × (build_backup_run_plan context ≡ ok plan)
unfolding build_backup_run_plan btrfs_backup.Backup.RunPlan.SourcePlan.build_sources
    btrfs_backup.Common.any build_source_run_plan plan_source_paths
    btrfs_backup.Config.Validation.path_is_within btrfs_backup.Config.Path.elements
    btrfs_backup.Config.Path.lexically_normal btrfs_backup.Config.Path.path_append
    btrfs_backup.Common.list_beq btrfs_backup.Common.text btrfs_backup.Config.Path.child
    btrfs_backup.Config.Path.parse_path planned_snapshot_name name_exists
    btrfs_backup.Backup.RunPlan.snapshots_for base_name
    btrfs_backup.Backup.Parent.select_incremental_parent btrfs_backup.Backup.Parent.index_remotes
    btrfs_backup.Backup.Parent.index_remote btrfs_backup.Backup.Parent.insert_remote
    btrfs_backup.Common.find btrfs_backup.Backup.Parent.is_entry_of
    btrfs_backup.Backup.Parent.selection_of btrfs_backup.Backup.Parent.choose_parent
    btrfs_backup.Common.sort btrfs_backup.Common.filter btrfs_backup.Backup.Parent.is_candidate
    btrfs_backup.Config.Path.path_text btrfs_backup.Core.Time.format_utc_snapshot_timestamp
    btrfs_backup.Common.padded btrfs_backup.Core.Calendar.civil_from_days
    btrfs_backup.Backup.Parent.newest_first btrfs_backup.Backup.Parent.matching_remote
    btrfs_backup.Backup.Snapshot.uuid_matches
    btrfs_backup.Backup.RunPlan.SourcePlan.projected_snapshots
    btrfs_backup.Backup.RunPlan.projected_snapshot btrfs_backup.Backup.RunPlan.projected_info
    btrfs_backup.Backup.Snapshot.parse_snapshot_name btrfs_backup.Core.Time.parse_utc_timestamp
    btrfs_backup.Core.Calendar.date_ok make_source_run_plan
    btrfs_backup.Backup.RunPlan.check_actions ordered_source_actions
    btrfs_backup.Backup.RunPlan.SourcePlan.recovery_actions btrfs_backup.Backup.Recovery.required
    btrfs_backup.Backup.RunPlan.SourcePlan.recovery_of plan_pending_recovery
    btrfs_backup.Backup.Recovery.plan_marker btrfs_backup.Backup.RunPlan.pending_marker_for
    btrfs_backup.Backup.Actions.backup_run_action_source_id btrfs_backup.Backup.RunPlan.is_hook
    backup_run_action_kind btrfs_backup.Backup.RunPlan.SourcePlan.hook_actions
    btrfs_backup.Backup.Actions.same_kind
run_plan = value_of (build_backup_run_plan context) refl

build_backup_run_plan-ArePlans_example : ArePlans context [] (home_source ∷ []) run_plan.0.sources
build_backup_run_plan-ArePlans_example =
    build_backup_run_plan-ArePlans context run_plan.0 run_plan.1
