-- ===== src/State/StatusBuilder.antt =====
-- src/state/projection/RunStatusBuilder.cpp: the status that an event leads to. A percentage or a
-- duration of -1, for "unknown", is `none`.
use btrfs_backup.Common.{
  Bool, true, false, not, ◌||◌, ℕ, ◌+◌, ◌-◌, ◌*◌, ◌/◌, ◌%◌, eqb, leb, ltb, if◌then◌else◌, ◌++◌,
  is_empty, Text, text, Option, none, some,
}
use Prim.Native.Nat.{min}
use btrfs_backup.Backup.Snapshot.{SourceId}
use btrfs_backup.Backup.Actions.{BackupRunActionKind}
use btrfs_backup.Backup.Events.{BackupRunEventKind, BackupTransferStage}
use btrfs_backup.Backup.Events
use btrfs_backup.State.RunStatus.{RunPhase}
use btrfs_backup.State.Serialization.{backup_run_action_kind_name}
use btrfs_backup.State.EventData.{BackupRunStatusContext, RunEventData}

unfoldable pub phase_for_action : BackupRunActionKind → RunPhase
phase_for_action BackupRunActionKind.recover_pending = RunPhase.recover_pending
phase_for_action BackupRunActionKind.cleanup_incoming = RunPhase.cleanup_incoming
phase_for_action BackupRunActionKind.before_snapshot_hook = RunPhase.before_snapshot_hook
phase_for_action BackupRunActionKind.create_snapshot = RunPhase.create_snapshot
phase_for_action BackupRunActionKind.after_snapshot_hook = RunPhase.after_snapshot_hook
phase_for_action BackupRunActionKind.send_receive = RunPhase.send_receive
phase_for_action BackupRunActionKind.verify_received = RunPhase.verify_received
phase_for_action BackupRunActionKind.commit_received = RunPhase.commit_received
phase_for_action BackupRunActionKind.apply_remote_retention = RunPhase.apply_remote_retention
phase_for_action BackupRunActionKind.apply_local_retention = RunPhase.apply_local_retention
phase_for_action BackupRunActionKind.cleanup_source = RunPhase.cleanup_source

unfoldable pub phase_for_event : BackupRunEventKind → RunPhase
phase_for_event BackupRunEventKind.run_started = RunPhase.run_started
phase_for_event BackupRunEventKind.source_started = RunPhase.source_started
phase_for_event BackupRunEventKind.transfer_progress = RunPhase.transferring
phase_for_event BackupRunEventKind.source_completed = RunPhase.source_completed
phase_for_event BackupRunEventKind.target_validation_completed = RunPhase.validated
phase_for_event BackupRunEventKind.run_completed = RunPhase.succeeded
phase_for_event BackupRunEventKind.run_failed = RunPhase.failed
phase_for_event BackupRunEventKind.run_cancelled = RunPhase.cancelled
phase_for_event _ = RunPhase.run_started

unfoldable pub failed_action_is_recoverable : BackupRunActionKind → Bool
failed_action_is_recoverable BackupRunActionKind.before_snapshot_hook = true
failed_action_is_recoverable BackupRunActionKind.after_snapshot_hook = true
failed_action_is_recoverable _ = false

unfoldable pub suggested_action_for_failed_action : BackupRunActionKind → Text
suggested_action_for_failed_action BackupRunActionKind.before_snapshot_hook =
    text "inspect-hook-program"
suggested_action_for_failed_action BackupRunActionKind.after_snapshot_hook =
    text "inspect-hook-program"
suggested_action_for_failed_action _ = text "inspect-run-history"

-- The progress of a run with all of its `completed` sources and of a part of the next one.
unfoldable pub sources_progress : BackupRunStatusContext → ℕ → ℕ → Option ℕ
sources_progress context completed percent =
    some ((min completed context.source_count * 100 + percent) / context.source_count)

unfoldable pub current_progress : Option ℕ → ℕ
current_progress none = 0
current_progress (some percent) = min percent 100

unfoldable pub progress_of_source :
    BackupRunStatusContext → Option SourceId → ℕ → Option ℕ → Option ℕ
unfolding sources_progress current_progress
progress_of_source context none source_index source_progress = some 0
progress_of_source context (some source_id) source_index source_progress =
    if ltb 0 source_index
    then sources_progress context (source_index - 1) (current_progress source_progress)
    else some 0

unfoldable pub progress_for_kind :
    BackupRunStatusContext → RunEventData → BackupRunEventKind → Option ℕ → Option ℕ
unfolding sources_progress progress_of_source
progress_for_kind context event BackupRunEventKind.run_completed source_progress = some 100
progress_for_kind context event BackupRunEventKind.target_validation_completed source_progress =
    some 100
progress_for_kind context event BackupRunEventKind.source_completed source_progress =
    if ltb 0 event.source_index
    then sources_progress context event.source_index 0
    else progress_of_source context event.source_id event.source_index source_progress
progress_for_kind context event BackupRunEventKind.transfer_progress none = none
progress_for_kind context event _ source_progress =
    progress_of_source context event.source_id event.source_index source_progress

unfoldable pub estimated_overall_progress :
    BackupRunStatusContext → RunEventData → Option ℕ → Option ℕ
unfolding progress_for_kind
estimated_overall_progress context event source_progress =
    if leb context.source_count 0
    then none
    else progress_for_kind context event event.kind source_progress

-- `std::numeric_limits<int>::max()`.
abbrev pub int_max : ℕ
int_max = 2147483647

unfoldable pub estimated_eta_seconds : RunEventData → Option ℕ
estimated_eta_seconds event =
    let remaining = event.bytes_total_estimated - event.bytes_transferred in
    let seconds =
      remaining / event.speed_bps + (if eqb (remaining % event.speed_bps) 0 then 0 else 1) in
    if eqb event.bytes_total_estimated 0
      || eqb event.speed_bps 0
      || leb event.bytes_total_estimated event.bytes_transferred
    then none
    else some (if ltb int_max seconds then int_max else seconds)

unfoldable pub action_name_for_event : RunEventData → Text
action_name_for_event event = elim event.action_kind [
  | some kind ↦ backup_run_action_kind_name kind
  | none ↦ text "unknown"
]

unfoldable pub is_validation : Events.OperationKind → Bool
is_validation Events.OperationKind.target_validation = true
is_validation _ = false

unfoldable pub message_for_kind : RunEventData → BackupRunEventKind → Text
unfolding is_validation action_name_for_event
message_for_kind event BackupRunEventKind.run_started =
    if is_validation event.operation_kind
    then text "Target validation started."
    else text "Backup run started."
message_for_kind event BackupRunEventKind.source_started = text "Backup source started."
message_for_kind event BackupRunEventKind.action_started =
    text "Backup action started: " ++ action_name_for_event event ++ text "."
message_for_kind event BackupRunEventKind.transfer_progress = text "Backup transfer is running."
message_for_kind event BackupRunEventKind.action_completed =
    text "Backup action completed: " ++ action_name_for_event event ++ text "."
message_for_kind event BackupRunEventKind.action_failed =
    text "Backup action failed: " ++ action_name_for_event event ++ text "."
message_for_kind event BackupRunEventKind.checkpoint_written = text "Backup checkpoint written."
message_for_kind event BackupRunEventKind.source_completed = text "Backup source completed."
message_for_kind event BackupRunEventKind.target_validation_completed =
    text "Target validation completed."
message_for_kind event BackupRunEventKind.run_completed = text "Backup completed."
message_for_kind event BackupRunEventKind.run_failed =
    if is_validation event.operation_kind
    then text "Target validation failed."
    else text "Backup failed."
message_for_kind event BackupRunEventKind.run_cancelled =
    if is_validation event.operation_kind
    then text "Target validation cancelled."
    else text "Backup cancelled."

unfoldable pub message_for_event : RunEventData → Text
unfolding message_for_kind
message_for_event event =
    if not (is_empty event.message) then event.message else message_for_kind event event.kind
