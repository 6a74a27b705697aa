-- ===== src/Tests/Statuses.antt =====
-- The status of a run at sample events.
use btrfs_backup.Common.{
  true, ℕ, suc, ◌*◌, ◌/◌, [], ◌∷◌, Text, Option, none, some, ◌≡◌, refl, arith,
}
use btrfs_backup.Core.Errors.{ok}
use btrfs_backup.Backup.Actions.{BackupRunActionKind}
use btrfs_backup.Backup.Events.{BackupRunEventKind, OperationKind, BackupTransferStage}
use btrfs_backup.State.RunStatus.{validate_run_status}
use btrfs_backup.State.EventData.{BackupRunStatusContext, RunEventData}
use btrfs_backup.State.Status.{status_for_event, is_run_started}
use btrfs_backup.State.Publication.{new_policy}
use btrfs_backup.State.Projection.{
  RunStatusProjection, StatusWriter, project_data, enter_run, built_status,
}
use btrfs_backup.State.Valid.{status_for_event-IsValid}
use btrfs_backup.State.Percent.{IsPercent, status_for_event-IsPercent}
use btrfs_backup.State.Monotone.{IsAtLeast, project_data_monotone}
use btrfs_backup.State.Attribution.{Names, run_failed-attribution}
use btrfs_backup.Tests.Samples.{home}

abbrev percentage : ℕ → ℕ → ℕ
percentage a b = a * 100 / b

abbrev context : BackupRunStatusContext
context = record {
  profile_name = b'p' ∷ [];
  source_count = 2;
  started_at = 5;
  source_names = [];
  target_name = b't' ∷ [];
}

abbrev run_id : Text
run_id = b'r' ∷ []

abbrev event_of : BackupRunEventKind → Option BackupRunActionKind → RunEventData
event_of kind action_kind = record {
  kind = kind;
  operation_kind = OperationKind.backup;
  profile_id = b'p' ∷ [];
  run_id = run_id;
  source_id = some home;
  source_index = 2;
  action_kind = action_kind;
  transfer_stage = BackupTransferStage.transferring;
  bytes_transferred = 30;
  bytes_produced = 30;
  bytes_total_estimated = 40;
  run_bytes_transferred = 30;
  delta_bytes = 10;
  elapsed_ms = 1000;
  speed_bps = 10;
  error_code = none;
  message = [];
}

abbrev progress : RunEventData
progress = event_of BackupRunEventKind.transfer_progress (some BackupRunActionKind.send_receive)

abbrev failed : RunEventData
failed = event_of BackupRunEventKind.action_failed (some BackupRunActionKind.create_snapshot)

abbrev ended : RunEventData
ended = record (event_of BackupRunEventKind.run_failed none) { source_id = none; source_index = 0 }

abbrev writer : StatusWriter ℕ
writer = record {
  write_current_status = λ status w. (ok tt, suc w);
  write_history_entry = λ status w. (ok tt, suc w);
}

-- A run that is half done.
abbrev half : RunStatusProjection
half = record {
  publication_policy = new_policy;
  run_id = some run_id;
  operation_kind = OperationKind.backup;
  pending_action_failure = none;
  run_started = true;
  last_overall_progress = some 60;
  run_bytes_processed = 0;
}

status_for_event-IsValid_example :
    validate_run_status (status_for_event percentage 9 context progress (some 3)) ≡ ok tt
status_for_event-IsValid_example = status_for_event-IsValid percentage 9 context progress (some 3)

-- A source at three quarters, after another one.
progress_of_run :
    (status_for_event percentage 9 context progress (some 3)).progress.overall_percent ≡ some 87
unfolding status_for_event
progress_of_run = refl

status_for_event-IsPercent_example :
    IsPercent (status_for_event percentage 9 context progress (some 3)).progress.overall_percent
status_for_event-IsPercent_example =
    status_for_event-IsPercent percentage 9 context progress (some 3) (omega arith) (omega arith)

project_data_monotone_example :
    IsAtLeast 60
      (project_data percentage 9 writer context half progress 0).projection.last_overall_progress
unfolding is_run_started
project_data_monotone_example =
    project_data_monotone percentage 9 writer context half progress 0 60 refl refl refl

run_failed-attribution_example :
    Names
      (built_status percentage 9 writer context
        (enter_run (project_data percentage 9 writer context half failed 0).projection ended)
        ended)
      home
      2
      BackupRunActionKind.create_snapshot
run_failed-attribution_example =
    run_failed-attribution percentage 9 writer context half failed ended 0 home
      BackupRunActionKind.create_snapshot refl refl refl refl refl
