-- ===== src/Tests/Runs.antt =====
-- Runs of the executor with sample interfaces.
use btrfs_backup.Common.{false, ℕ, zero, suc, [], ◌∷◌, ◌≡◌, refl}
use btrfs_backup.Core.Errors.{ok, err, coded_operation}
use btrfs_backup.Core.ErrorCode.{transfer_failed}
use btrfs_backup.Backup.Actions.{BackupRunAction, run_hook, before_snapshot}
use btrfs_backup.Backup.RunPlan.{BackupSourceRunPlan, BackupRunPlan}
use btrfs_backup.Backup.Execution.Calls.{RunPorts}
use btrfs_backup.Backup.Execution.Executor.{failed, execute_run}
use btrfs_backup.Backup.Execution.Progress.{planned_items}
use btrfs_backup.Backup.Execution.Results.{Reports, execute_run-Reports}
use btrfs_backup.Tests.Samples.{home, hook, at}

-- The interfaces of a run whose third action fails; the world counts the actions.
abbrev ports : RunPorts ℕ
ports = record {
  cancellation_requested = λ w. (ok false, w);
  execute = λ action place w. (
    elim w [
      | suc (suc zero) ↦ err (record { class = coded_operation transfer_failed; what = [] })
      | _ ↦ ok (record { cancelled = false; bytes_transferred = 8 })
    ],
    suc w,
  );
  write_checkpoint = λ checkpoint w. (ok tt, w);
  on_backup_run_event = λ event w. (ok tt, w);
}

abbrev action : BackupRunAction
action = run_hook (record { source_id = home; phase = before_snapshot; hook = hook })

abbrev source : BackupSourceRunPlan
source = record { source_id = home; actions = action ∷ action ∷ [] }

abbrev plan : BackupRunPlan
plan = record {
  profile_id = b'p' ∷ [];
  run_id = b'1' ∷ [];
  target_mount_point = at [];
  sources = source ∷ source ∷ [];
}

third_fails : (execute_run ports plan 0).result ≡ ok (failed transfer_failed [] 2)
unfolding execute_run btrfs_backup.Core.Errors.is_btrfs_backup_error
    btrfs_backup.Core.Errors.coded_error
third_fails = refl

execute_run-Reports_example :
    Reports plan
      (planned_items plan.sources)
      (execute_run ports plan 0).calls
      (execute_run ports plan 0).result
execute_run-Reports_example = execute_run-Reports ports plan 0
