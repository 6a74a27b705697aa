-- ===== src/Backup/Actions.antt =====
-- src/backup/model/BackupRunAction.hpp, BackupRunActions.hpp and .cpp: the actions of a run.
use btrfs_backup.Common.{Bool, ℕ, eqb, Option}
use btrfs_backup.Config.Path.{FilePath}
use btrfs_backup.Config.Profile.{ProfileHookCommand}
use btrfs_backup.Backup.Snapshot.{SourceId, RunId}
use btrfs_backup.Backup.Retention.{RetentionPlan}
use btrfs_backup.Backup.Recovery.{PendingRecoveryPlan}

pub data BackupRunActionKind : Type 0 where
  recover_pending cleanup_incoming before_snapshot_hook create_snapshot after_snapshot_hook :
      BackupRunActionKind
  send_receive verify_received commit_received apply_remote_retention apply_local_retention
        cleanup_source :
      BackupRunActionKind

-- The number of an enumerator.
unfoldable pub kind_number : BackupRunActionKind → ℕ
kind_number recover_pending = 0
kind_number cleanup_incoming = 1
kind_number before_snapshot_hook = 2
kind_number create_snapshot = 3
kind_number after_snapshot_hook = 4
kind_number send_receive = 5
kind_number verify_received = 6
kind_number commit_received = 7
kind_number apply_remote_retention = 8
kind_number apply_local_retention = 9
kind_number cleanup_source = 10

unfoldable pub same_kind : BackupRunActionKind → BackupRunActionKind → Bool
unfolding kind_number
same_kind a b = eqb (kind_number a) (kind_number b)

pub data HookPhase : Type 0 where
  before_snapshot after_snapshot : HookPhase

pub record RecoverPendingAction : Type 0 where
  pub source_id : SourceId
  pub recovery : PendingRecoveryPlan

pub record CleanupIncomingAction : Type 0 where
  pub source_id : SourceId
  pub incoming_directory : FilePath

pub record RunHookAction : Type 0 where
  pub source_id : SourceId
  pub phase : HookPhase
  pub hook : ProfileHookCommand

pub record CreateSnapshotAction : Type 0 where
  pub source_id : SourceId
  pub source : FilePath
  pub snapshot_directory : FilePath
  pub snapshot : FilePath
  pub final_remote_snapshot : FilePath
  pub profile_state_directory : FilePath
  pub run_id : RunId

pub record SendReceiveAction : Type 0 where
  pub source_id : SourceId
  pub snapshot : FilePath
  pub parent : Option FilePath
  pub remote_snapshot_directory : FilePath
  pub incoming_run_directory : FilePath

pub record VerifyReceivedAction : Type 0 where
  pub source_id : SourceId
  pub local_snapshot : FilePath
  pub received_snapshot : FilePath

pub record CommitReceivedAction : Type 0 where
  pub source_id : SourceId
  pub local_snapshot : FilePath
  pub received_snapshot : FilePath
  pub final_snapshot : FilePath

pub record ApplyRetentionAction : Type 0 where
  pub source_id : SourceId
  pub plan : RetentionPlan

pub record CleanupSourceAction : Type 0 where
  pub source_id : SourceId
  pub received_snapshot : FilePath
  pub incoming_run_directory : FilePath
  pub pending_marker : FilePath
  pub profile_state_directory : FilePath

pub data BackupRunAction : Type 0 where
  recover : RecoverPendingAction → BackupRunAction
  cleanup_incoming_of : CleanupIncomingAction → BackupRunAction
  run_hook : RunHookAction → BackupRunAction
  create : CreateSnapshotAction → BackupRunAction
  send : SendReceiveAction → BackupRunAction
  verify : VerifyReceivedAction → BackupRunAction
  commit : CommitReceivedAction → BackupRunAction
  retain_remote : ApplyRetentionAction → BackupRunAction
  retain_local : ApplyRetentionAction → BackupRunAction
  cleanup : CleanupSourceAction → BackupRunAction

abbrev pub hook_kind : HookPhase → BackupRunActionKind
hook_kind before_snapshot = before_snapshot_hook
hook_kind after_snapshot = after_snapshot_hook

unfoldable pub backup_run_action_kind : BackupRunAction → BackupRunActionKind
backup_run_action_kind (recover a) = recover_pending
backup_run_action_kind (cleanup_incoming_of a) = cleanup_incoming
backup_run_action_kind (run_hook a) = hook_kind a.phase
backup_run_action_kind (create a) = create_snapshot
backup_run_action_kind (send a) = send_receive
backup_run_action_kind (verify a) = verify_received
backup_run_action_kind (commit a) = commit_received
backup_run_action_kind (retain_remote a) = apply_remote_retention
backup_run_action_kind (retain_local a) = apply_local_retention
backup_run_action_kind (cleanup a) = cleanup_source

unfoldable pub backup_run_action_source_id : BackupRunAction → SourceId
backup_run_action_source_id (recover a) = a.source_id
backup_run_action_source_id (cleanup_incoming_of a) = a.source_id
backup_run_action_source_id (run_hook a) = a.source_id
backup_run_action_source_id (create a) = a.source_id
backup_run_action_source_id (send a) = a.source_id
backup_run_action_source_id (verify a) = a.source_id
backup_run_action_source_id (commit a) = a.source_id
backup_run_action_source_id (retain_remote a) = a.source_id
backup_run_action_source_id (retain_local a) = a.source_id
backup_run_action_source_id (cleanup a) = a.source_id
