-- ===== src/State/EventData.antt =====
-- src/state/projection/RunStatusBuilder.hpp and .cpp: what a status is built from.
use btrfs_backup.Common.{ℕ, [], Text, Option, none, some}
use btrfs_backup.Core.ErrorCode.{ErrorCode}
use btrfs_backup.Core.Time.{RuntimeTimePoint}
use btrfs_backup.Backup.Snapshot.{SourceId, RunId, ProfileId}
use btrfs_backup.Backup.Actions.{BackupRunActionKind}
use btrfs_backup.Backup.RunPlan.{BySource}
use btrfs_backup.Backup.Events.{
  BackupRunEventKind, OperationKind, BackupTransferStage, transferring, BackupRunEvent,
  on_transfer_progress, on_action_failed, on_run_failed, on_run_cancelled, backup_run_event_kind,
  backup_run_event_operation_kind, backup_run_event_profile_id, backup_run_event_run_id,
  backup_run_event_source_id, backup_run_event_source_index, backup_run_event_action_kind,
}

pub record BackupRunStatusContext : Type 0 where
  pub profile_name : Text
  pub source_count : ℕ
  pub started_at : RuntimeTimePoint
  pub source_names : BySource Text
  pub target_name : Text

pub record RunEventData : Type 0 where
  pub kind : BackupRunEventKind
  pub operation_kind : OperationKind
  pub profile_id : ProfileId
  pub run_id : RunId
  pub source_id : Option SourceId
  pub source_index : ℕ
  pub action_kind : Option BackupRunActionKind
  pub transfer_stage : BackupTransferStage
  pub bytes_transferred : ℕ
  pub bytes_produced : ℕ
  pub bytes_total_estimated : ℕ
  pub run_bytes_transferred : ℕ
  pub delta_bytes : ℕ
  pub elapsed_ms : ℕ
  pub speed_bps : ℕ
  pub error_code : Option ErrorCode
  pub message : Text

-- The parts that every event has.
unfoldable pub common_event_data : BackupRunEvent → RunEventData
common_event_data event = record {
  kind = backup_run_event_kind event;
  operation_kind = backup_run_event_operation_kind event;
  profile_id = backup_run_event_profile_id event;
  run_id = backup_run_event_run_id event;
  source_id = backup_run_event_source_id event;
  source_index = backup_run_event_source_index event;
  action_kind = backup_run_event_action_kind event;
  transfer_stage = transferring;
  bytes_transferred = 0;
  bytes_produced = 0;
  bytes_total_estimated = 0;
  run_bytes_transferred = 0;
  delta_bytes = 0;
  elapsed_ms = 0;
  speed_bps = 0;
  error_code = none;
  message = [];
}

-- What some events add.
unfoldable pub with_event_details : BackupRunEvent → RunEventData → RunEventData
with_event_details (on_transfer_progress progress) data_ = record data_ {
  transfer_stage = progress.stage;
  bytes_transferred = progress.bytes_transferred;
  bytes_produced = progress.bytes_produced;
  bytes_total_estimated = progress.bytes_total_estimated;
  run_bytes_transferred = progress.run_bytes_transferred;
  delta_bytes = progress.delta_bytes;
  elapsed_ms = progress.elapsed_ms;
  speed_bps = progress.speed_bps;
  message = progress.message;
}
with_event_details (on_action_failed place error_code message) data_ = record data_ {
  error_code = error_code;
  message = message;
}
with_event_details (on_run_failed failed) data_ = record data_ {
  error_code = some failed.error_code;
  message = failed.message;
}
with_event_details (on_run_cancelled cancelled) data_ = record data_ {
  error_code = cancelled.error_code;
  message = cancelled.message;
}
with_event_details _ data_ = data_

unfoldable pub event_projection_data : BackupRunEvent → RunEventData
unfolding common_event_data with_event_details
event_projection_data event = with_event_details event (common_event_data event)
