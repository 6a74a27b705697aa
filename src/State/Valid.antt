-- ===== src/State/Valid.antt =====
-- src/state/projection/RunStatusBuilder.cpp: every status that is built is a valid one.
use btrfs_backup.Common.{
  true, false, Bool-cases, inl, inr, ℕ, Option, none, some, if◌then◌else◌, ◌≡◌, refl, arith,
}
use btrfs_backup.Core.Errors.{ok}
use btrfs_backup.Core.Time.{RuntimeTimePoint}
use btrfs_backup.Backup.Actions.{BackupRunActionKind}
use btrfs_backup.Backup.Events.{BackupRunEventKind, BackupTransferStage}
use btrfs_backup.State.RunStatus.{
  RunState, RunPhase, RunStatus, validate_run_status, is_terminal_phase, is_terminal_state,
  terminal_phase_matches, has_terminal_error, is_running, is_validating, is_phase_validating,
}
use btrfs_backup.State.EventData.{BackupRunStatusContext, RunEventData}
use btrfs_backup.State.StatusBuilder.{phase_for_action, phase_for_event, is_validation}
use btrfs_backup.State.Status.{
  status_for_event, outcome_for, started_outcome, error_for, can_cancel_in, action_phase,
  transfer_phase,
}

-- The phase of an action is no phase of an end.
phase_for_action-open :
    (kind : BackupRunActionKind) → is_terminal_phase (phase_for_action kind) ≡ false
unfolding is_terminal_phase phase_for_action
phase_for_action-open BackupRunActionKind.recover_pending = refl
phase_for_action-open BackupRunActionKind.cleanup_incoming = refl
phase_for_action-open BackupRunActionKind.before_snapshot_hook = refl
phase_for_action-open BackupRunActionKind.create_snapshot = refl
phase_for_action-open BackupRunActionKind.after_snapshot_hook = refl
phase_for_action-open BackupRunActionKind.send_receive = refl
phase_for_action-open BackupRunActionKind.verify_received = refl
phase_for_action-open BackupRunActionKind.commit_received = refl
phase_for_action-open BackupRunActionKind.apply_remote_retention = refl
phase_for_action-open BackupRunActionKind.apply_local_retention = refl
phase_for_action-open BackupRunActionKind.cleanup_source = refl

action_phase-open :
    (otherwise : RunPhase) (kind : Option BackupRunActionKind)
    → is_terminal_phase otherwise ≡ false
    → is_terminal_phase (action_phase otherwise kind) ≡ false
unfolding action_phase
action_phase-open otherwise none h = h
action_phase-open otherwise (some kind) h = phase_for_action-open kind

transfer_phase-open :
    (stage : BackupTransferStage) → is_terminal_phase (transfer_phase stage) ≡ false
unfolding transfer_phase is_terminal_phase
transfer_phase-open BackupTransferStage.sizing = refl
transfer_phase-open BackupTransferStage.transferring = refl

phase_for_action-failed :
    (kind : BackupRunActionKind)
    → terminal_phase_matches RunState.failed (phase_for_action kind) ≡ true
unfolding terminal_phase_matches phase_for_action
phase_for_action-failed BackupRunActionKind.recover_pending = refl
phase_for_action-failed BackupRunActionKind.cleanup_incoming = refl
phase_for_action-failed BackupRunActionKind.before_snapshot_hook = refl
phase_for_action-failed BackupRunActionKind.create_snapshot = refl
phase_for_action-failed BackupRunActionKind.after_snapshot_hook = refl
phase_for_action-failed BackupRunActionKind.send_receive = refl
phase_for_action-failed BackupRunActionKind.verify_received = refl
phase_for_action-failed BackupRunActionKind.commit_received = refl
phase_for_action-failed BackupRunActionKind.apply_remote_retention = refl
phase_for_action-failed BackupRunActionKind.apply_local_retention = refl
phase_for_action-failed BackupRunActionKind.cleanup_source = refl

action_phase-failed :
    (kind : Option BackupRunActionKind)
    → terminal_phase_matches RunState.failed (action_phase RunPhase.failed kind) ≡ true
unfolding action_phase terminal_phase_matches
action_phase-failed none = refl
action_phase-failed (some kind) = phase_for_action-failed kind

-- The parts of a status that the checks read.
record HasParts (now : RuntimeTimePoint) (event : RunEventData) (kind : BackupRunEventKind)
    (status : RunStatus) : Type 0 where
  state : status.state ≡ (outcome_for event kind).state
  phase : status.phase ≡ (outcome_for event kind).phase
  finished : status.finished_at ≡ (if (outcome_for event kind).finished then some now else none)
  error : status.error ≡ error_for event kind
  can_cancel : status.can_cancel ≡ can_cancel_in (outcome_for event kind).state

valid-HasParts :
    (now : RuntimeTimePoint) (event : RunEventData) (kind : BackupRunEventKind) (status : RunStatus)
    → HasParts now event kind status
    → validate_run_status status ≡ ok tt
unfolding validate_run_status outcome_for error_for can_cancel_in phase_for_event is_terminal_phase
    is_terminal_state terminal_phase_matches has_terminal_error is_running is_validating
    is_phase_validating is_validation started_outcome
valid-HasParts now event BackupRunEventKind.run_started status p =
    elim (Bool-cases (is_validation event.operation_kind)) [
      | inl e ↦ ground arith
      | inr e ↦ ground arith
    ]
valid-HasParts now event BackupRunEventKind.action_started status p = ground (
  arith,
  p.state,
  p.phase,
  p.finished,
  p.error,
  p.can_cancel,
  action_phase-open RunPhase.run_started event.action_kind refl,
)
valid-HasParts now event BackupRunEventKind.action_completed status p = ground (
  arith,
  p.state,
  p.phase,
  p.finished,
  p.error,
  p.can_cancel,
  action_phase-open RunPhase.run_started event.action_kind refl,
)
valid-HasParts now event BackupRunEventKind.action_failed status p = ground (
  arith,
  p.state,
  p.phase,
  p.finished,
  p.error,
  p.can_cancel,
  action_phase-open RunPhase.run_started event.action_kind refl,
)
valid-HasParts now event BackupRunEventKind.checkpoint_written status p = ground (
  arith,
  p.state,
  p.phase,
  p.finished,
  p.error,
  p.can_cancel,
  action_phase-open RunPhase.run_started event.action_kind refl,
)
valid-HasParts now event BackupRunEventKind.transfer_progress status p = ground (
  arith,
  p.state,
  p.phase,
  p.finished,
  p.error,
  p.can_cancel,
  transfer_phase-open event.transfer_stage,
)
valid-HasParts now event BackupRunEventKind.run_failed status p = ground (
  arith,
  p.state,
  p.phase,
  p.finished,
  p.error,
  p.can_cancel,
  action_phase-failed event.action_kind,
)
valid-HasParts now event BackupRunEventKind.source_started status p =
    ground (arith, p.state, p.phase, p.finished, p.error, p.can_cancel)
valid-HasParts now event BackupRunEventKind.source_completed status p =
    ground (arith, p.state, p.phase, p.finished, p.error, p.can_cancel)
valid-HasParts now event BackupRunEventKind.target_validation_completed status p =
    ground (arith, p.state, p.phase, p.finished, p.error, p.can_cancel)
valid-HasParts now event BackupRunEventKind.run_completed status p =
    ground (arith, p.state, p.phase, p.finished, p.error, p.can_cancel)
valid-HasParts now event BackupRunEventKind.run_cancelled status p =
    ground (arith, p.state, p.phase, p.finished, p.error, p.can_cancel)

-- Every status that is built is a valid one, whatever the event, the progress before it and the
-- time.
pub status_for_event-IsValid :
    (percentage : ℕ → ℕ → ℕ) (now : RuntimeTimePoint) (context : BackupRunStatusContext)
    (event : RunEventData) (minimum : Option ℕ)
    → validate_run_status (status_for_event percentage now context event minimum) ≡ ok tt
unfolding status_for_event
status_for_event-IsValid percentage now context event minimum =
    valid-HasParts now event event.kind (status_for_event percentage now context event minimum)
      (record { state = refl; phase = refl; finished = refl; error = refl; can_cancel = refl })
