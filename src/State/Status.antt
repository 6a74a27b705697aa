-- ===== src/State/Status.antt =====
-- src/state/projection/RunStatusBuilder.cpp: `status_for_event`, in the parts that it assigns.
use btrfs_backup.Common.{
  Bool, true, false, ◌||◌, ℕ, eqb, leb, if◌then◌else◌, List, [], ◌∷◌, Text, text, Option, none,
  some,
}
use Prim.Native.Nat.{max}
use btrfs_backup.Core.ErrorCode.{
  ErrorCode, backup_failed, runner_cancelled, repository_recovery_required, configuration_changed,
  runner_profile_busy, runner_target_busy,
}
use btrfs_backup.Core.Time.{RuntimeTimePoint}
use btrfs_backup.Backup.Snapshot.{SourceId}
use btrfs_backup.Backup.Actions.{BackupRunActionKind}
use btrfs_backup.Backup.RunPlan.{find_source, value_or}
use btrfs_backup.Backup.Events.{BackupRunEventKind, BackupTransferStage}
use btrfs_backup.State.RunStatus.{
  RunState, RunPhase, ProgressAccuracy, OperationKind, RunDetailValue, number, words, RunProgress,
  RunError, RunStatus, has_value,
}
use btrfs_backup.State.Serialization.{backup_run_action_kind_name}
use btrfs_backup.State.EventData.{BackupRunStatusContext, RunEventData}
use btrfs_backup.State.StatusBuilder.{
  phase_for_action, phase_for_event, failed_action_is_recoverable,
  suggested_action_for_failed_action, estimated_overall_progress, estimated_eta_seconds,
  is_validation, message_for_event,
}

-- `state`, `phase`, `exit_code` and whether `finished_at` is set.
pub record Outcome : Type 0 where
  pub state : RunState
  pub phase : RunPhase
  pub exit_code : ℕ
  pub finished : Bool

unfoldable pub action_phase : RunPhase → Option BackupRunActionKind → RunPhase
action_phase otherwise none = otherwise
action_phase otherwise (some kind) = phase_for_action kind

unfoldable pub transfer_phase : BackupTransferStage → RunPhase
transfer_phase BackupTransferStage.sizing = RunPhase.sizing
transfer_phase BackupTransferStage.transferring = RunPhase.transferring

abbrev goes_on : RunPhase → Outcome
goes_on phase = record { state = RunState.running; phase = phase; exit_code = 0; finished = false }

abbrev ends : RunState → RunPhase → ℕ → Outcome
ends state phase exit_code = record {
  state = state;
  phase = phase;
  exit_code = exit_code;
  finished = true;
}

unfoldable pub started_outcome : Bool → Outcome
started_outcome true = record {
  state = RunState.validating;
  phase = RunPhase.validating_target;
  exit_code = 0;
  finished = false;
}
started_outcome false = goes_on RunPhase.run_started

unfoldable pub outcome_for : RunEventData → BackupRunEventKind → Outcome
unfolding action_phase transfer_phase phase_for_event is_validation
outcome_for event BackupRunEventKind.run_started =
    started_outcome (is_validation event.operation_kind)
outcome_for event BackupRunEventKind.action_started =
    goes_on (action_phase (phase_for_event BackupRunEventKind.action_started) event.action_kind)
outcome_for event BackupRunEventKind.action_completed =
    goes_on (action_phase (phase_for_event BackupRunEventKind.action_completed) event.action_kind)
outcome_for event BackupRunEventKind.action_failed =
    goes_on (action_phase (phase_for_event BackupRunEventKind.action_failed) event.action_kind)
outcome_for event BackupRunEventKind.checkpoint_written =
    goes_on (action_phase (phase_for_event BackupRunEventKind.checkpoint_written) event.action_kind)
outcome_for event BackupRunEventKind.transfer_progress =
    goes_on (transfer_phase event.transfer_stage)
outcome_for event BackupRunEventKind.run_failed =
    ends RunState.failed
      (action_phase (phase_for_event BackupRunEventKind.run_failed) event.action_kind) 1
outcome_for event BackupRunEventKind.run_completed = ends RunState.succeeded RunPhase.succeeded 0
outcome_for event BackupRunEventKind.target_validation_completed =
    ends RunState.validated RunPhase.validated 0
outcome_for event BackupRunEventKind.run_cancelled = ends RunState.cancelled RunPhase.cancelled 130
outcome_for event BackupRunEventKind.source_started =
    goes_on (phase_for_event BackupRunEventKind.source_started)
outcome_for event BackupRunEventKind.source_completed =
    goes_on (phase_for_event BackupRunEventKind.source_completed)

unfoldable pub is_recovery_code : ErrorCode → Bool
is_recovery_code repository_recovery_required = true
is_recovery_code _ = false

-- The errors after which a run can be started again.
unfoldable pub is_passing_code : ErrorCode → Bool
is_passing_code configuration_changed = true
is_passing_code runner_profile_busy = true
is_passing_code runner_target_busy = true
is_passing_code _ = false

unfoldable pub run_failure : ErrorCode → Text → Option BackupRunActionKind → RunError
unfolding is_recovery_code is_passing_code
run_failure code message none = record {
  code = code;
  message = message;
  recoverable = true;
  suggested_action =
      if is_recovery_code code
      then text "run-backup-recovery"
      else if is_passing_code code
      then text "run-backup-again"
      else text "inspect-run-history";
}
run_failure code message (some kind) = record {
  code = code;
  message = message;
  recoverable = is_recovery_code code || failed_action_is_recoverable kind;
  suggested_action =
      if is_recovery_code code
      then text "run-backup-recovery"
      else suggested_action_for_failed_action kind;
}

unfoldable pub error_for : RunEventData → BackupRunEventKind → Option RunError
unfolding run_failure message_for_event value_or
error_for event BackupRunEventKind.run_failed =
    some (run_failure (value_or event.error_code backup_failed) event.message event.action_kind)
error_for event BackupRunEventKind.run_cancelled = some (record {
  code = runner_cancelled;
  message = message_for_event event;
  recoverable = true;
  suggested_action = text "run-backup-again";
})
error_for event _ = none

unfoldable pub action_details : RunEventData → List (Text × RunDetailValue)
unfolding value_or
action_details event =
    (text "sourceId", words (value_or event.source_id []))
    ∷ (
      text "action",
      words (elim event.action_kind [ some kind ↦ backup_run_action_kind_name kind | none ↦ [] ]),
    )
    ∷ []

unfoldable pub details_for : RunEventData → BackupRunEventKind → List (Text × RunDetailValue)
unfolding action_details
details_for event BackupRunEventKind.transfer_progress =
    (text "bytesProduced", number event.bytes_produced)
    ∷ (text "bytesTransferred", number event.bytes_transferred)
    ∷ (text "bytesTotalEstimated", number event.bytes_total_estimated)
    ∷ (text "deltaBytes", number event.delta_bytes)
    ∷ (text "elapsedMs", number event.elapsed_ms)
    ∷ (text "speedBps", number event.speed_bps)
    ∷ []
details_for event BackupRunEventKind.action_failed = action_details event
details_for event BackupRunEventKind.run_failed = action_details event
details_for event BackupRunEventKind.run_cancelled = action_details event
details_for event _ = []

unfoldable pub is_transfer_progress : BackupRunEventKind → Bool
is_transfer_progress BackupRunEventKind.transfer_progress = true
is_transfer_progress _ = false

unfoldable pub is_run_started : BackupRunEventKind → Bool
is_run_started BackupRunEventKind.run_started = true
is_run_started _ = false

-- The overall progress does not fall below the least one, but at the start of a run.
unfoldable pub at_least : BackupRunEventKind → Option ℕ → Option ℕ → Option ℕ
unfolding is_run_started
at_least kind none progress = progress
at_least kind (some minimum) none = none
at_least kind (some minimum) (some progress) =
    if is_run_started kind then some progress else some (max progress minimum)

unfoldable pub can_cancel_in : RunState → Bool
can_cancel_in RunState.running = true
can_cancel_in RunState.validating = true
can_cancel_in _ = false

unfoldable pub source_name_of : BackupRunStatusContext → Option SourceId → Text
unfolding find_source value_or
source_name_of context none = []
source_name_of context (some source_id) =
    value_or (find_source context.source_names source_id) source_id

-- The percentage `static_cast<int>(a * 100.0L / b)` of long doubles, and the current time.
module _ (percentage : ℕ → ℕ → ℕ) (now : RuntimeTimePoint) where
  unfoldable pub estimated_source_progress : RunEventData → Option ℕ
  estimated_source_progress event =
      if eqb event.bytes_total_estimated 0
      then none
      else if leb event.bytes_total_estimated event.bytes_transferred
      then some 100
      else some (percentage event.bytes_transferred event.bytes_total_estimated)

  unfoldable pub source_progress_for : RunEventData → Option ℕ
  unfolding is_transfer_progress estimated_source_progress
  source_progress_for event =
      if is_transfer_progress event.kind then estimated_source_progress event else none

  unfoldable pub overall_progress_for : BackupRunStatusContext → RunEventData → Option ℕ → Option ℕ
  unfolding source_progress_for at_least estimated_overall_progress
  overall_progress_for context event minimum =
      at_least event.kind minimum
        (estimated_overall_progress context event (source_progress_for event))

  unfoldable pub progress_for : BackupRunStatusContext → RunEventData → Option ℕ → RunProgress
  unfolding source_progress_for overall_progress_for estimated_eta_seconds is_transfer_progress
  progress_for context event minimum =
      let source_progress = source_progress_for event in
      let overall_progress = overall_progress_for context event minimum in
      if is_transfer_progress event.kind
      then record {
        processed_bytes = event.bytes_transferred;
        estimated_bytes =
            (if eqb event.bytes_total_estimated 0 then none else some event.bytes_total_estimated);
        run_processed_bytes =
            (if eqb event.run_bytes_transferred 0
              then event.bytes_transferred
              else event.run_bytes_transferred);
        speed_bps = event.speed_bps;
        eta_seconds = estimated_eta_seconds event;
        source_percent = source_progress;
        overall_percent = overall_progress;
        accuracy =
            (if has_value source_progress
              then ProgressAccuracy.exact
              else ProgressAccuracy.indeterminate);
      }
      else record {
        processed_bytes = 0;
        estimated_bytes = none;
        run_processed_bytes = 0;
        speed_bps = 0;
        eta_seconds = none;
        source_percent = source_progress;
        overall_percent = overall_progress;
        accuracy =
            (if has_value overall_progress
              then ProgressAccuracy.estimated
              else ProgressAccuracy.indeterminate);
      }

  unfoldable pub status_for_event : BackupRunStatusContext → RunEventData → Option ℕ → RunStatus
  unfolding outcome_for error_for details_for progress_for can_cancel_in source_name_of
      message_for_event is_validation
  status_for_event context event minimum =
      let outcome = outcome_for event event.kind in
      record {
        profile_id = event.profile_id;
        profile_name = context.profile_name;
        run_id = event.run_id;
        operation_kind =
            (if is_validation event.operation_kind
              then OperationKind.target_validation
              else OperationKind.backup);
        state = outcome.state;
        phase = outcome.phase;
        message = message_for_event event;
        current_source_name = source_name_of context event.source_id;
        target_name = context.target_name;
        source_index = event.source_index;
        source_count = context.source_count;
        started_at = context.started_at;
        updated_at = now;
        finished_at = (if outcome.finished then some now else none);
        error = error_for event event.kind;
        details = details_for event event.kind;
        can_cancel = can_cancel_in outcome.state;
        progress = progress_for context event minimum;
        exit_code = outcome.exit_code;
      }
