-- ===== src/State/Serialization.antt =====
-- src/state/persistence/BackupRunSerialization.cpp: the published names of actions.
use btrfs_backup.Common.{Text, text}
use btrfs_backup.Backup.Actions.{BackupRunActionKind}

unfoldable pub backup_run_action_kind_name : BackupRunActionKind → Text
backup_run_action_kind_name BackupRunActionKind.recover_pending = text "recover-pending"
backup_run_action_kind_name BackupRunActionKind.cleanup_incoming = text "cleanup-incoming"
backup_run_action_kind_name BackupRunActionKind.before_snapshot_hook = text "before-snapshot-hook"
backup_run_action_kind_name BackupRunActionKind.create_snapshot = text "create-snapshot"
backup_run_action_kind_name BackupRunActionKind.after_snapshot_hook = text "after-snapshot-hook"
backup_run_action_kind_name BackupRunActionKind.send_receive = text "send-receive"
backup_run_action_kind_name BackupRunActionKind.verify_received = text "verify-received"
backup_run_action_kind_name BackupRunActionKind.commit_received = text "commit-received"
backup_run_action_kind_name BackupRunActionKind.apply_remote_retention =
    text "apply-remote-retention"
backup_run_action_kind_name BackupRunActionKind.apply_local_retention = text "apply-local-retention"
backup_run_action_kind_name BackupRunActionKind.cleanup_source = text "cleanup-source"
