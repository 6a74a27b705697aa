-- ===== src/Tests/Transfers.antt =====
-- The ends of sample transfers.
use btrfs_backup.Common.{false, [], none, some, ◌≡◌, ◌↔◌, refl}
use btrfs_backup.Core.ErrorCode.{transfer_consumer_failed}
use btrfs_backup.Core.Errors.{ok}
use btrfs_backup.Backup.Transfer.{
  pos, negsuc, exited, exit_code, TransferResult, transfer_failure_error_code,
  require_transfer_success, transfer_failure_error_code_iff,
}

-- The consumer was killed.
abbrev killed : TransferResult
killed = record {
  producer = exited (pos 0) [];
  consumer = exited (negsuc 8) [];
  bytes_transferred = 5;
  bytes_produced = 9;
  bytes_total_estimated = 9;
  duration_ms = 1;
  average_speed_bps = 5;
  cancelled = false;
}

consumer_named : transfer_failure_error_code killed ≡ some transfer_consumer_failed
unfolding transfer_failure_error_code
consumer_named = refl

passed : require_transfer_success (record killed { consumer = exited (pos 0) [] }) ≡ ok tt
unfolding require_transfer_success
passed = refl

transfer_failure_error_code_iff_example : (transfer_failure_error_code killed ≡ none) ↔ (
    (killed.cancelled ≡ false)
    × (exit_code killed.producer ≡ some (pos 0))
    × (exit_code killed.consumer ≡ some (pos 0)))
transfer_failure_error_code_iff_example = transfer_failure_error_code_iff killed
