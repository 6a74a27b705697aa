-- ===== src/State/Projection.antt =====
-- src/state/projection/RunStatusProjection.cpp: the sink that turns events into status documents.
-- The two functions that write a document are parameters over a world, and may throw.
use btrfs_backup.Common.{
  Bool, true, false, not, ◌&&◌, ◌||◌, ℕ, if◌then◌else◌, Option, none, some, ◌==◌, list_eq, nat_eq,
  option_eq,
}
use Prim.Native.Nat.{max}
use btrfs_backup.Core.Errors.{Result, ok, err}
use btrfs_backup.Core.Time.{RuntimeTimePoint}
use btrfs_backup.Backup.Snapshot.{SourceId, RunId}
use btrfs_backup.Backup.Actions.{BackupRunActionKind}
use btrfs_backup.Backup.Events.{BackupRunEventKind, OperationKind, BackupRunEvent}
use btrfs_backup.State.RunStatus.{RunStatus}
use btrfs_backup.State.EventData.{BackupRunStatusContext, RunEventData, event_projection_data}
use btrfs_backup.State.Status.{is_run_started, status_for_event}
use btrfs_backup.State.Publication.{
  StatusPublicationPolicy, new_policy, should_publish, record_publication,
}

unfoldable pub should_write_status : BackupRunEventKind → Bool
should_write_status BackupRunEventKind.checkpoint_written = false
should_write_status _ = true

unfoldable pub is_backup_operation : OperationKind → Bool
is_backup_operation OperationKind.backup = true
is_backup_operation _ = false

unfoldable pub should_write_history : BackupRunEventKind → OperationKind → Bool
unfolding is_backup_operation
should_write_history BackupRunEventKind.run_failed operation = is_backup_operation operation
should_write_history BackupRunEventKind.run_completed operation = is_backup_operation operation
should_write_history BackupRunEventKind.run_cancelled operation = is_backup_operation operation
should_write_history _ operation = false

unfoldable pub is_terminal_event : BackupRunEventKind → Bool
is_terminal_event BackupRunEventKind.target_validation_completed = true
is_terminal_event BackupRunEventKind.run_completed = true
is_terminal_event BackupRunEventKind.run_failed = true
is_terminal_event BackupRunEventKind.run_cancelled = true
is_terminal_event _ = false

pub record PendingActionFailure : Type 0 where
  pub run_id : RunId
  pub source_id : SourceId
  pub source_index : ℕ
  pub action_kind : BackupRunActionKind

pub record RunStatusProjection : Type 0 where
  pub publication_policy : StatusPublicationPolicy
  pub run_id : Option RunId
  pub operation_kind : OperationKind
  pub pending_action_failure : Option PendingActionFailure
  pub run_started : Bool
  pub last_overall_progress : Option ℕ
  pub run_bytes_processed : ℕ

unfoldable pub begin_run : RunStatusProjection → RunEventData → RunStatusProjection
unfolding is_run_started
begin_run projection event = record {
  publication_policy = new_policy;
  run_id = some event.run_id;
  operation_kind = event.operation_kind;
  pending_action_failure = none;
  run_started = is_run_started event.kind;
  last_overall_progress = none;
  run_bytes_processed = 0;
}

-- A new run, or the start of a run.
unfoldable pub enter_run : RunStatusProjection → RunEventData → RunStatusProjection
unfolding begin_run is_run_started
enter_run projection event =
    if not (some event.run_id == projection.run_id) || is_run_started event.kind
    then begin_run projection event
    else projection

unfoldable pub operation_after : OperationKind → BackupRunEventKind → OperationKind
operation_after operation BackupRunEventKind.target_validation_completed =
    OperationKind.target_validation
operation_after operation _ = operation

-- The failure that an event leaves to the failure of the run.
unfoldable pub failure_of :
    RunEventData
    → Option SourceId
    → Option BackupRunActionKind
    → Option PendingActionFailure
    → Option PendingActionFailure
failure_of event (some source_id) (some action_kind) before = some (record {
  run_id = event.run_id;
  source_id = source_id;
  source_index = event.source_index;
  action_kind = action_kind;
})
failure_of event _ _ before = before

unfoldable pub pending_after :
    RunEventData → BackupRunEventKind → Option PendingActionFailure → Option PendingActionFailure
unfolding failure_of
pending_after event BackupRunEventKind.action_failed before =
    failure_of event event.source_id event.action_kind before
pending_after event _ before = before

unfoldable pub blamed : RunEventData → Option PendingActionFailure → RunEventData
blamed event none = event
blamed event (some failure) =
    if failure.run_id == event.run_id
    then record event {
      source_id = some failure.source_id;
      source_index = failure.source_index;
      action_kind = some failure.action_kind;
    }
    else event

unfoldable pub is_run_failed : BackupRunEventKind → Bool
is_run_failed BackupRunEventKind.run_failed = true
is_run_failed _ = false

-- The failure of a run is told of the action that failed.
unfoldable pub attributed : RunEventData → Option PendingActionFailure → RunEventData
unfolding blamed is_run_failed
attributed event failure = if is_run_failed event.kind then blamed event failure else event

unfoldable pub settled : BackupRunEventKind → RunStatusProjection → RunStatusProjection
unfolding is_terminal_event
settled kind projection =
    if is_terminal_event kind
    then record projection { pending_action_failure = none; run_started = false }
    else projection

unfoldable pub progress_after : Option ℕ → Option ℕ → Option ℕ
progress_after before none = before
progress_after before (some percent) = some percent

-- The functions `write_current_status` and `write_history_entry`.
pub record StatusWriter (World : Type 0) : Type 0 where
  pub write_current_status : RunStatus → World → Result (Unit {0}) × World
  pub write_history_entry : RunStatus → World → Result (Unit {0}) × World

-- What a call of the sink leaves.
pub record Projected (World : Type 0) : Type 0 where
  pub result : Result (Unit {0})
  pub projection : RunStatusProjection
  pub world : World

module _ (percentage : ℕ → ℕ → ℕ) (now : RuntimeTimePoint) {World : Type 0}
    (writer : StatusWriter World) (context : BackupRunStatusContext) where
  -- The event as it is shown, and the members up to the status.
  unfoldable pub shown_event : RunStatusProjection → RunEventData → RunEventData
  unfolding operation_after attributed
  shown_event projection event =
      attributed
        (record event { operation_kind = operation_after projection.operation_kind event.kind })
        projection.pending_action_failure

  unfoldable pub built_status : RunStatusProjection → RunEventData → RunStatus
  built_status projection event =
      status_for_event percentage now context (shown_event projection event)
        projection.last_overall_progress

  unfoldable pub noted : RunStatusProjection → RunEventData → RunStatusProjection
  unfolding built_status operation_after pending_after progress_after
  noted projection event =
      let status = built_status projection event in
      record projection {
        operation_kind = operation_after projection.operation_kind event.kind;
        pending_action_failure = pending_after event event.kind projection.pending_action_failure;
        run_bytes_processed =
            max projection.run_bytes_processed status.progress.run_processed_bytes;
        last_overall_progress =
            progress_after projection.last_overall_progress status.progress.overall_percent;
      }

  -- The status that is written: at the end of a run it has the bytes of the whole run.
  unfoldable pub shown_status : RunStatusProjection → RunEventData → RunStatus
  unfolding built_status is_terminal_event
  shown_status projection event =
      let status = built_status projection event in
      if is_terminal_event event.kind
      then record status {
        progress = record (status.progress) {
          run_processed_bytes =
              max projection.run_bytes_processed status.progress.run_processed_bytes;
        };
      }
      else status

  unfoldable pub finish : RunStatusProjection → RunEventData → RunStatus → World → Projected World
  unfolding should_write_history settled
  finish projection event status w =
      let (written, w') = writer.write_history_entry status w in
      if should_write_history event.kind projection.operation_kind
      then elim written [
        | ok done ↦ record {
          result = ok tt;
          projection = settled event.kind projection;
          world = w';
        }
        | err e ↦ record { result = err e; projection = projection; world = w' }
      ]
      else record { result = ok tt; projection = settled event.kind projection; world = w }

  unfoldable pub publish : RunStatusProjection → RunEventData → RunStatus → World → Projected World
  unfolding finish is_run_failed
  publish projection event status w =
      let (written, w') = writer.write_current_status status w in
      let published =
        finish
          (record projection {
            publication_policy =
                record_publication projection.publication_policy event.kind status event.elapsed_ms;
          })
          event status w' in
      let passed_over = finish projection event status w in
      if (not (is_run_failed event.kind) || projection.run_started)
        && should_publish projection.publication_policy event.kind status event.elapsed_ms
      then elim written [
        | ok done ↦ published
        | err e ↦ record { result = err e; projection = projection; world = w' }
      ]
      else passed_over

  unfoldable pub project_data : RunStatusProjection → RunEventData → World → Projected World
  unfolding should_write_status enter_run noted shown_status publish
  project_data projection event w =
      if not (should_write_status event.kind)
      then record { result = ok tt; projection = projection; world = w }
      else (let entered = enter_run projection event in
          publish (noted entered event) event (shown_status entered event) w)

  unfoldable pub on_backup_run_event :
      RunStatusProjection → BackupRunEvent → World → Projected World
  unfolding project_data event_projection_data
  on_backup_run_event projection event w = project_data projection (event_projection_data event) w
