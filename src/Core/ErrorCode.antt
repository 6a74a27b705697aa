-- ===== src/Core/ErrorCode.antt =====
-- src/core/ErrorCode.hpp and ErrorCode.cpp: the codes of failures and their published names.
use btrfs_backup.Common.{
  ◌≡◌, refl, Option, none, some, Text, text, ◌==◌, ==_iff, list_beq, if◌then◌else◌, arith, list_eq,
  nat_eq,
}

pub data ErrorCode : Type 0 where
  backup_failed : ErrorCode
  backup_cancelled : ErrorCode
  runner_action_failed : ErrorCode
  runner_cancelled : ErrorCode
  runner_profile_busy : ErrorCode
  runner_target_busy : ErrorCode
  runner_stale_run : ErrorCode
  runner_run_mismatch : ErrorCode
  transfer_failed : ErrorCode
  transfer_producer_failed : ErrorCode
  transfer_consumer_failed : ErrorCode
  transfer_producer_consumer_failed : ErrorCode
  hook_before_snapshot_failed : ErrorCode
  hook_before_snapshot_timeout : ErrorCode
  hook_after_snapshot_failed : ErrorCode
  hook_after_snapshot_timeout : ErrorCode
  target_btrfs_uuid_mismatch : ErrorCode
  repository_recovery_required : ErrorCode
  configuration_save_failed : ErrorCode
  configuration_rollback_incomplete : ErrorCode
  credential_mutation_rollback_incomplete : ErrorCode
  configuration_changed : ErrorCode

unfoldable pub error_code_name : ErrorCode → Text
error_code_name backup_failed = text "backup.failed"
error_code_name backup_cancelled = text "backup.cancelled"
error_code_name runner_action_failed = text "runner.action_failed"
error_code_name runner_cancelled = text "runner.cancelled"
error_code_name runner_profile_busy = text "runner.profile_busy"
error_code_name runner_target_busy = text "runner.target_busy"
error_code_name runner_stale_run = text "runner.stale_run"
error_code_name runner_run_mismatch = text "runner.run_mismatch"
error_code_name transfer_failed = text "transfer.failed"
error_code_name transfer_producer_failed = text "transfer.producer_failed"
error_code_name transfer_consumer_failed = text "transfer.consumer_failed"
error_code_name transfer_producer_consumer_failed = text "transfer.producer_consumer_failed"
error_code_name hook_before_snapshot_failed = text "hook.before_snapshot_failed"
error_code_name hook_before_snapshot_timeout = text "hook.before_snapshot_timeout"
error_code_name hook_after_snapshot_failed = text "hook.after_snapshot_failed"
error_code_name hook_after_snapshot_timeout = text "hook.after_snapshot_timeout"
error_code_name target_btrfs_uuid_mismatch = text "target.btrfs_uuid_mismatch"
error_code_name repository_recovery_required = text "repository.recovery_required"
error_code_name configuration_save_failed = text "configuration.save_failed"
error_code_name configuration_rollback_incomplete = text "configuration.rollback_incomplete"
error_code_name credential_mutation_rollback_incomplete =
    text "credential.mutation_rollback_incomplete"
error_code_name configuration_changed = text "configuration.changed"

unfoldable pub error_code_from_name : Text → Option ErrorCode
error_code_from_name name =
    if name == text "backup.failed"
    then some backup_failed
    else if name == text "backup.cancelled"
    then some backup_cancelled
    else if name == text "runner.action_failed"
    then some runner_action_failed
    else if name == text "runner.cancelled"
    then some runner_cancelled
    else if name == text "runner.profile_busy"
    then some runner_profile_busy
    else if name == text "runner.target_busy"
    then some runner_target_busy
    else if name == text "runner.stale_run"
    then some runner_stale_run
    else if name == text "runner.run_mismatch"
    then some runner_run_mismatch
    else if name == text "transfer.failed"
    then some transfer_failed
    else if name == text "transfer.producer_failed"
    then some transfer_producer_failed
    else if name == text "transfer.consumer_failed"
    then some transfer_consumer_failed
    else if name == text "transfer.producer_consumer_failed"
    then some transfer_producer_consumer_failed
    else if name == text "hook.before_snapshot_failed"
    then some hook_before_snapshot_failed
    else if name == text "hook.before_snapshot_timeout"
    then some hook_before_snapshot_timeout
    else if name == text "hook.after_snapshot_failed"
    then some hook_after_snapshot_failed
    else if name == text "hook.after_snapshot_timeout"
    then some hook_after_snapshot_timeout
    else if name == text "target.btrfs_uuid_mismatch"
    then some target_btrfs_uuid_mismatch
    else if name == text "repository.recovery_required"
    then some repository_recovery_required
    else if name == text "configuration.save_failed"
    then some configuration_save_failed
    else if name == text "configuration.rollback_incomplete"
    then some configuration_rollback_incomplete
    else if name == text "credential.mutation_rollback_incomplete"
    then some credential_mutation_rollback_incomplete
    else if name == text "configuration.changed"
    then some configuration_changed
    else none

-- Every published name is read back as the code it was printed from.
pub error_code_from_name-name : (c : ErrorCode) → error_code_from_name (error_code_name c) ≡ some c
unfolding error_code_from_name error_code_name text list_beq
error_code_from_name-name backup_failed = refl
error_code_from_name-name backup_cancelled = refl
error_code_from_name-name runner_action_failed = refl
error_code_from_name-name runner_cancelled = refl
error_code_from_name-name runner_profile_busy = refl
error_code_from_name-name runner_target_busy = refl
error_code_from_name-name runner_stale_run = refl
error_code_from_name-name runner_run_mismatch = refl
error_code_from_name-name transfer_failed = refl
error_code_from_name-name transfer_producer_failed = refl
error_code_from_name-name transfer_consumer_failed = refl
error_code_from_name-name transfer_producer_consumer_failed = refl
error_code_from_name-name hook_before_snapshot_failed = refl
error_code_from_name-name hook_before_snapshot_timeout = refl
error_code_from_name-name hook_after_snapshot_failed = refl
error_code_from_name-name hook_after_snapshot_timeout = refl
error_code_from_name-name target_btrfs_uuid_mismatch = refl
error_code_from_name-name repository_recovery_required = refl
error_code_from_name-name configuration_save_failed = refl
error_code_from_name-name configuration_rollback_incomplete = refl
error_code_from_name-name credential_mutation_rollback_incomplete = refl
error_code_from_name-name configuration_changed = refl

-- What a lookup may answer for a name: nothing, or a code that has this name.
abbrev Answers : Text → Option ErrorCode → Type 0
Answers name r = (c : ErrorCode) → r ≡ some c → error_code_name c ≡ name

Answers-if :
    (name s : Text) (c : ErrorCode) {r : Option ErrorCode}
    → error_code_name c ≡ s
    → Answers name r
    → Answers name (if name == s then some c else r)
Answers-if name s c {r} e rest d h = ground (arith, ==_iff name s, rest d)

from_name-Answers : (name : Text) → Answers name (error_code_from_name name)
unfolding error_code_from_name error_code_name
from_name-Answers name = Answers-if name _ backup_failed refl (
    Answers-if name _ backup_cancelled refl (
      Answers-if name _ runner_action_failed refl (
        Answers-if name _ runner_cancelled refl (
          Answers-if name _ runner_profile_busy refl (
            Answers-if name _ runner_target_busy refl (
              Answers-if name _ runner_stale_run refl (
                Answers-if name _ runner_run_mismatch refl (
                  Answers-if name _ transfer_failed refl (
                    Answers-if name _ transfer_producer_failed refl (
                      Answers-if name _ transfer_consumer_failed refl (
                        Answers-if name _ transfer_producer_consumer_failed refl (
                          Answers-if name _ hook_before_snapshot_failed refl (
                            Answers-if name _ hook_before_snapshot_timeout refl (
                              Answers-if name _ hook_after_snapshot_failed refl (
                                Answers-if name _ hook_after_snapshot_timeout refl (
                                  Answers-if name _ target_btrfs_uuid_mismatch refl (
                                    Answers-if name _ repository_recovery_required refl (
                                      Answers-if name _ configuration_save_failed refl (
                                        Answers-if name _ configuration_rollback_incomplete refl (
                                          Answers-if name _ credential_mutation_rollback_incomplete
                                            refl
                                            (Answers-if name _ configuration_changed refl
                                              (λ c h. cc))))))))))))))))))))))

-- A name that is read as a code is exactly the published name of that code.
pub error_code_name-from_name :
    (name : Text) (c : ErrorCode) → error_code_from_name name ≡ some c → error_code_name c ≡ name
error_code_name-from_name name c = from_name-Answers name c
