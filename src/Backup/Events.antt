-- ===== src/Backup/Events.antt =====
-- src/backup/model/BackupRunEvent.hpp: the events of a run. A variant is one constructor, its
-- fields in the order of the structure; an `int` that numbers a source is a natural number.
use btrfs_backup.Common.{ℕ, Text, Option, none, some}
use btrfs_backup.Core.ErrorCode.{ErrorCode}
use btrfs_backup.Backup.Snapshot.{SourceId, RunId, ProfileId}
use btrfs_backup.Backup.Actions.{BackupRunActionKind, send_receive}

pub data BackupRunEventKind : Type 0 where
  run_started source_started action_started transfer_progress action_completed action_failed :
      BackupRunEventKind
  checkpoint_written source_completed target_validation_completed run_completed run_failed
        run_cancelled :
      BackupRunEventKind

pub data OperationKind : Type 0 where
  backup target_validation planning : OperationKind

pub data BackupTransferStage : Type 0 where
  sizing transferring : BackupTransferStage

-- What the events of one action share.
pub record ActionPlace : Type 0 where
  pub profile_id : ProfileId
  pub run_id : RunId
  pub source_id : SourceId
  pub source_index : ℕ
  pub action_kind : BackupRunActionKind

-- What the events of one source share.
pub record SourcePlace : Type 0 where
  pub profile_id : ProfileId
  pub run_id : RunId
  pub source_id : SourceId
  pub source_index : ℕ

pub record TransferProgress : Type 0 where
  pub place : SourcePlace
  pub stage : BackupTransferStage
  pub bytes_transferred : ℕ
  pub bytes_produced : ℕ
  pub bytes_total_estimated : ℕ
  pub run_bytes_transferred : ℕ
  pub delta_bytes : ℕ
  pub elapsed_ms : ℕ
  pub speed_bps : ℕ
  pub message : Text

pub record RunFailed : Type 0 where
  pub profile_id : ProfileId
  pub run_id : RunId
  pub error_code : ErrorCode
  pub message : Text
  pub operation_kind : OperationKind

pub record RunCancelled : Type 0 where
  pub profile_id : ProfileId
  pub run_id : RunId
  pub source_id : Option SourceId
  pub source_index : ℕ
  pub action_kind : Option BackupRunActionKind
  pub error_code : Option ErrorCode
  pub message : Text
  pub operation_kind : OperationKind

pub data BackupRunEvent : Type 0 where
  on_run_started : ProfileId → RunId → OperationKind → BackupRunEvent
  on_source_started : SourcePlace → BackupRunEvent
  on_action_started : ActionPlace → BackupRunEvent
  on_transfer_progress : TransferProgress → BackupRunEvent
  on_action_completed : ActionPlace → BackupRunEvent
  on_action_failed : ActionPlace → Option ErrorCode → Text → BackupRunEvent
  on_checkpoint_written : ActionPlace → BackupRunEvent
  on_source_completed : SourcePlace → BackupRunEvent
  on_target_validation_completed : ProfileId → RunId → BackupRunEvent
  on_run_completed : ProfileId → RunId → BackupRunEvent
  on_run_failed : RunFailed → BackupRunEvent
  on_run_cancelled : RunCancelled → BackupRunEvent

unfoldable pub backup_run_event_kind : BackupRunEvent → BackupRunEventKind
backup_run_event_kind (on_run_started p r k) = run_started
backup_run_event_kind (on_source_started s) = source_started
backup_run_event_kind (on_action_started a) = action_started
backup_run_event_kind (on_transfer_progress t) = transfer_progress
backup_run_event_kind (on_action_completed a) = action_completed
backup_run_event_kind (on_action_failed a c m) = action_failed
backup_run_event_kind (on_checkpoint_written a) = checkpoint_written
backup_run_event_kind (on_source_completed s) = source_completed
backup_run_event_kind (on_target_validation_completed p r) = target_validation_completed
backup_run_event_kind (on_run_completed p r) = run_completed
backup_run_event_kind (on_run_failed f) = run_failed
backup_run_event_kind (on_run_cancelled c) = run_cancelled

unfoldable pub backup_run_event_source_id : BackupRunEvent → Option SourceId
backup_run_event_source_id (on_source_started s) = some s.source_id
backup_run_event_source_id (on_action_started a) = some a.source_id
backup_run_event_source_id (on_transfer_progress t) = some t.place.source_id
backup_run_event_source_id (on_action_completed a) = some a.source_id
backup_run_event_source_id (on_action_failed a c m) = some a.source_id
backup_run_event_source_id (on_checkpoint_written a) = some a.source_id
backup_run_event_source_id (on_source_completed s) = some s.source_id
backup_run_event_source_id (on_run_cancelled c) = c.source_id
backup_run_event_source_id _ = none

unfoldable pub backup_run_event_source_index : BackupRunEvent → ℕ
backup_run_event_source_index (on_source_started s) = s.source_index
backup_run_event_source_index (on_action_started a) = a.source_index
backup_run_event_source_index (on_transfer_progress t) = t.place.source_index
backup_run_event_source_index (on_action_completed a) = a.source_index
backup_run_event_source_index (on_action_failed a c m) = a.source_index
backup_run_event_source_index (on_checkpoint_written a) = a.source_index
backup_run_event_source_index (on_source_completed s) = s.source_index
backup_run_event_source_index (on_run_cancelled c) = c.source_index
backup_run_event_source_index _ = 0

unfoldable pub backup_run_event_action_kind : BackupRunEvent → Option BackupRunActionKind
backup_run_event_action_kind (on_action_started a) = some a.action_kind
backup_run_event_action_kind (on_action_completed a) = some a.action_kind
backup_run_event_action_kind (on_action_failed a c m) = some a.action_kind
backup_run_event_action_kind (on_checkpoint_written a) = some a.action_kind
backup_run_event_action_kind (on_transfer_progress t) = some send_receive
backup_run_event_action_kind (on_run_cancelled c) = c.action_kind
backup_run_event_action_kind _ = none

unfoldable pub backup_run_event_operation_kind : BackupRunEvent → OperationKind
backup_run_event_operation_kind (on_run_started p r k) = k
backup_run_event_operation_kind (on_run_failed f) = f.operation_kind
backup_run_event_operation_kind (on_run_cancelled c) = c.operation_kind
backup_run_event_operation_kind (on_target_validation_completed p r) = target_validation
backup_run_event_operation_kind _ = backup

unfoldable pub backup_run_event_profile_id : BackupRunEvent → ProfileId
backup_run_event_profile_id (on_run_started p r k) = p
backup_run_event_profile_id (on_source_started s) = s.profile_id
backup_run_event_profile_id (on_action_started a) = a.profile_id
backup_run_event_profile_id (on_transfer_progress t) = t.place.profile_id
backup_run_event_profile_id (on_action_completed a) = a.profile_id
backup_run_event_profile_id (on_action_failed a c m) = a.profile_id
backup_run_event_profile_id (on_checkpoint_written a) = a.profile_id
backup_run_event_profile_id (on_source_completed s) = s.profile_id
backup_run_event_profile_id (on_target_validation_completed p r) = p
backup_run_event_profile_id (on_run_completed p r) = p
backup_run_event_profile_id (on_run_failed f) = f.profile_id
backup_run_event_profile_id (on_run_cancelled c) = c.profile_id

unfoldable pub backup_run_event_run_id : BackupRunEvent → RunId
backup_run_event_run_id (on_run_started p r k) = r
backup_run_event_run_id (on_source_started s) = s.run_id
backup_run_event_run_id (on_action_started a) = a.run_id
backup_run_event_run_id (on_transfer_progress t) = t.place.run_id
backup_run_event_run_id (on_action_completed a) = a.run_id
backup_run_event_run_id (on_action_failed a c m) = a.run_id
backup_run_event_run_id (on_checkpoint_written a) = a.run_id
backup_run_event_run_id (on_source_completed s) = s.run_id
backup_run_event_run_id (on_target_validation_completed p r) = r
backup_run_event_run_id (on_run_completed p r) = r
backup_run_event_run_id (on_run_failed f) = f.run_id
backup_run_event_run_id (on_run_cancelled c) = c.run_id
