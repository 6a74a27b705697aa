-- ===== src/State/RunStatus.antt =====
-- src/state/model/RunStatus.hpp and RunStatus.cpp: the status of a run, and what a valid one is.
use btrfs_backup.Common.{
  Bool, true, false, not, ◌&&◌, ℕ, if◌then◌else◌, List, Text, text, Option, none, some,
}
use btrfs_backup.Core.ErrorCode.{ErrorCode}
use btrfs_backup.Core.Errors.{Result, ◌>>◌, throw_if, validation_error}
use btrfs_backup.Core.Time.{RuntimeTimePoint}
use btrfs_backup.Backup.Snapshot.{ProfileId, RunId}

pub data RunState : Type 0 where
  running validating validated succeeded failed cancelled skipped : RunState

pub data RunPhase : Type 0 where
  run_started source_started recover_pending cleanup_incoming before_snapshot_hook create_snapshot
        after_snapshot_hook send_receive sizing transferring verify_received commit_received
        apply_remote_retention apply_local_retention cleanup_source source_completed succeeded
        failed cancelled skipped validating_target validated :
      RunPhase

pub data ProgressAccuracy : Type 0 where
  indeterminate estimated exact : ProgressAccuracy

pub data OperationKind : Type 0 where
  backup target_validation : OperationKind

-- The code makes no detail of the type `std::int64_t`.
pub data RunDetailValue : Type 0 where
  flag : Bool → RunDetailValue
  number : ℕ → RunDetailValue
  words : Text → RunDetailValue

pub record RunProgress : Type 0 where
  pub processed_bytes : ℕ
  pub estimated_bytes : Option ℕ
  pub run_processed_bytes : ℕ
  pub speed_bps : ℕ
  pub eta_seconds : Option ℕ
  pub source_percent : Option ℕ
  pub overall_percent : Option ℕ
  pub accuracy : ProgressAccuracy

pub record RunError : Type 0 where
  pub code : ErrorCode
  pub message : Text
  pub recoverable : Bool
  pub suggested_action : Text

pub record RunStatus : Type 0 where
  pub profile_id : ProfileId
  pub profile_name : Text
  pub run_id : RunId
  pub operation_kind : OperationKind
  pub state : RunState
  pub phase : RunPhase
  pub message : Text
  pub current_source_name : Text
  pub target_name : Text
  pub source_index : ℕ
  pub source_count : ℕ
  pub started_at : RuntimeTimePoint
  pub updated_at : RuntimeTimePoint
  pub finished_at : Option RuntimeTimePoint
  pub error : Option RunError
  pub details : List (Text × RunDetailValue)
  pub can_cancel : Bool
  pub progress : RunProgress
  pub exit_code : ℕ

unfoldable pub is_terminal_state : RunState → Bool
is_terminal_state running = false
is_terminal_state validating = false
is_terminal_state _ = true

-- `phase == ...` for the phases that the checks name.
unfoldable pub is_phase_validated : RunPhase → Bool
is_phase_validated RunPhase.validated = true
is_phase_validated _ = false

unfoldable pub is_phase_succeeded : RunPhase → Bool
is_phase_succeeded RunPhase.succeeded = true
is_phase_succeeded _ = false

unfoldable pub is_phase_cancelled : RunPhase → Bool
is_phase_cancelled RunPhase.cancelled = true
is_phase_cancelled _ = false

unfoldable pub is_phase_skipped : RunPhase → Bool
is_phase_skipped RunPhase.skipped = true
is_phase_skipped _ = false

unfoldable pub is_phase_validating : RunPhase → Bool
is_phase_validating RunPhase.validating_target = true
is_phase_validating _ = false

unfoldable pub terminal_phase_matches : RunState → RunPhase → Bool
unfolding is_phase_validated is_phase_succeeded is_phase_cancelled is_phase_skipped
terminal_phase_matches RunState.validated phase = is_phase_validated phase
terminal_phase_matches RunState.succeeded phase = is_phase_succeeded phase
terminal_phase_matches RunState.failed phase =
    not (is_phase_validated phase)
    && not (is_phase_succeeded phase)
    && not (is_phase_cancelled phase)
    && not (is_phase_skipped phase)
terminal_phase_matches RunState.cancelled phase = is_phase_cancelled phase
terminal_phase_matches RunState.skipped phase = is_phase_skipped phase
terminal_phase_matches RunState.running phase = true
terminal_phase_matches RunState.validating phase = true

unfoldable pub is_terminal_phase : RunPhase → Bool
is_terminal_phase RunPhase.validated = true
is_terminal_phase RunPhase.succeeded = true
is_terminal_phase RunPhase.failed = true
is_terminal_phase RunPhase.cancelled = true
is_terminal_phase RunPhase.skipped = true
is_terminal_phase _ = false

unfoldable pub has_terminal_error : RunState → Bool
has_terminal_error RunState.failed = true
has_terminal_error RunState.cancelled = true
has_terminal_error _ = false

unfoldable pub is_running : RunState → Bool
is_running RunState.running = true
is_running _ = false

unfoldable pub is_validating : RunState → Bool
is_validating RunState.validating = true
is_validating _ = false

abbrev pub has_value {ℓ} : {A : Type ℓ} → Option A → Bool
has_value none = false
has_value (some a) = true

abbrev bool_eq : Bool → Bool → Bool
bool_eq true true = true
bool_eq false false = true
bool_eq _ _ = false

unfoldable pub validate_run_status : RunStatus → Result (Unit {0})
unfolding is_terminal_state terminal_phase_matches is_terminal_phase has_terminal_error is_running
    is_validating is_phase_validating
validate_run_status status = do
  let is_terminal = is_terminal_state status.state
  let terminal_error = has_terminal_error status.state
  throw_if (not (bool_eq is_terminal (has_value status.finished_at))) (
      validation_error (
        if is_terminal
        then text "terminal run status requires finishedAt"
        else text "active run status must not contain finishedAt"))
  throw_if (is_terminal && not (terminal_phase_matches status.state status.phase))
      (validation_error (text "terminal run state and phase do not match"))
  throw_if (is_validating status.state && not (is_phase_validating status.phase))
      (validation_error (text "validating run status requires validatingTarget phase"))
  throw_if (is_running status.state && is_terminal_phase status.phase)
      (validation_error (text "running run status must not use a terminal phase"))
  throw_if (terminal_error && not (has_value status.error))
      (validation_error (text "failed or cancelled run status requires an error"))
  throw_if (is_terminal && not terminal_error && has_value status.error)
      (validation_error (text "successful terminal run status must not contain an error"))
  throw_if (is_terminal && status.can_cancel)
      (validation_error (text "terminal run status cannot be cancelled"))

unfoldable pub run_state_name : RunState → Text
run_state_name RunState.running = text "running"
run_state_name RunState.validating = text "validating"
run_state_name RunState.validated = text "validated"
run_state_name RunState.succeeded = text "succeeded"
run_state_name RunState.failed = text "failed"
run_state_name RunState.cancelled = text "cancelled"
run_state_name RunState.skipped = text "skipped"

unfoldable pub run_phase_name : RunPhase → Text
run_phase_name RunPhase.run_started = text "run-started"
run_phase_name RunPhase.source_started = text "source-started"
run_phase_name RunPhase.recover_pending = text "recover-pending"
run_phase_name RunPhase.cleanup_incoming = text "cleanup-incoming"
run_phase_name RunPhase.before_snapshot_hook = text "before-snapshot-hook"
run_phase_name RunPhase.create_snapshot = text "create-snapshot"
run_phase_name RunPhase.after_snapshot_hook = text "after-snapshot-hook"
run_phase_name RunPhase.send_receive = text "send-receive"
run_phase_name RunPhase.sizing = text "sizing"
run_phase_name RunPhase.transferring = text "transferring"
run_phase_name RunPhase.verify_received = text "verify-received"
run_phase_name RunPhase.commit_received = text "commit-received"
run_phase_name RunPhase.apply_remote_retention = text "apply-remote-retention"
run_phase_name RunPhase.apply_local_retention = text "apply-local-retention"
run_phase_name RunPhase.cleanup_source = text "cleanup-source"
run_phase_name RunPhase.source_completed = text "source-completed"
run_phase_name RunPhase.succeeded = text "succeeded"
run_phase_name RunPhase.failed = text "failed"
run_phase_name RunPhase.cancelled = text "cancelled"
run_phase_name RunPhase.skipped = text "skipped"
run_phase_name RunPhase.validating_target = text "validating-target"
run_phase_name RunPhase.validated = text "validated"

unfoldable pub progress_accuracy_name : ProgressAccuracy → Text
progress_accuracy_name ProgressAccuracy.indeterminate = text "indeterminate"
progress_accuracy_name ProgressAccuracy.estimated = text "estimated"
progress_accuracy_name ProgressAccuracy.exact = text "exact"
