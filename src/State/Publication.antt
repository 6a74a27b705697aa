-- ===== src/State/Publication.antt =====
-- src/state/projection/StatusPublicationPolicy.cpp: which statuses are written.
use btrfs_backup.Common.{
  Bool, true, false, not, ◌||◌, ℕ, ◌-◌, eqb, leb, ltb, if◌then◌else◌, Text, Option, none, some,
  ◌==◌, list_eq, nat_eq,
}
use btrfs_backup.Backup.Events.{BackupRunEventKind}
use btrfs_backup.State.RunStatus.{RunPhase, RunStatus}
use btrfs_backup.State.Status.{is_transfer_progress}

abbrev progress_publication_interval_ms : ℕ
progress_publication_interval_ms = 1000

abbrev progress_publication_threshold : ℕ
progress_publication_threshold = 5

pub record PublishedStatus : Type 0 where
  pub phase : RunPhase
  pub source_name : Text
  pub source_index : ℕ
  pub source_percent : Option ℕ
  pub overall_percent : Option ℕ

pub record StatusPublicationPolicy : Type 0 where
  pub published_status : Option PublishedStatus
  pub progress_elapsed_ms : Option ℕ

unfoldable pub phase_number : RunPhase → ℕ
phase_number RunPhase.run_started = 0
phase_number RunPhase.source_started = 1
phase_number RunPhase.recover_pending = 2
phase_number RunPhase.cleanup_incoming = 3
phase_number RunPhase.before_snapshot_hook = 4
phase_number RunPhase.create_snapshot = 5
phase_number RunPhase.after_snapshot_hook = 6
phase_number RunPhase.send_receive = 7
phase_number RunPhase.sizing = 8
phase_number RunPhase.transferring = 9
phase_number RunPhase.verify_received = 10
phase_number RunPhase.commit_received = 11
phase_number RunPhase.apply_remote_retention = 12
phase_number RunPhase.apply_local_retention = 13
phase_number RunPhase.cleanup_source = 14
phase_number RunPhase.source_completed = 15
phase_number RunPhase.succeeded = 16
phase_number RunPhase.failed = 17
phase_number RunPhase.cancelled = 18
phase_number RunPhase.skipped = 19
phase_number RunPhase.validating_target = 20
phase_number RunPhase.validated = 21

-- `std::abs(a - b)`.
abbrev pub distance : ℕ → ℕ → ℕ
distance a b = if leb a b then b - a else a - b

unfoldable pub percentage_changed_by_threshold : Option ℕ → Option ℕ → Bool
percentage_changed_by_threshold none none = false
percentage_changed_by_threshold none (some published) = true
percentage_changed_by_threshold (some current) none = true
percentage_changed_by_threshold (some current) (some published) =
    leb progress_publication_threshold (distance current published)

unfoldable pub interval_passed : Option ℕ → ℕ → Bool
interval_passed none elapsed_ms = true
interval_passed (some before) elapsed_ms =
    ltb elapsed_ms before || leb progress_publication_interval_ms (elapsed_ms - before)

unfoldable pub differs : PublishedStatus → RunStatus → Bool
unfolding phase_number percentage_changed_by_threshold
differs published status =
    not (eqb (phase_number status.phase) (phase_number published.phase))
    || not (status.current_source_name == published.source_name)
    || not (eqb status.source_index published.source_index)
    || percentage_changed_by_threshold status.progress.source_percent published.source_percent
    || percentage_changed_by_threshold status.progress.overall_percent published.overall_percent

unfoldable pub should_publish : StatusPublicationPolicy → BackupRunEventKind → RunStatus → ℕ → Bool
unfolding is_transfer_progress differs interval_passed
should_publish policy kind status elapsed_ms = elim policy.published_status [
  | none ↦ true
  | some published ↦
      not (is_transfer_progress kind)
      || differs published status
      || interval_passed policy.progress_elapsed_ms elapsed_ms
]

unfoldable pub record_publication :
    StatusPublicationPolicy → BackupRunEventKind → RunStatus → ℕ → StatusPublicationPolicy
unfolding is_transfer_progress
record_publication policy kind status elapsed_ms = record {
  published_status = some (record {
    phase = status.phase;
    source_name = status.current_source_name;
    source_index = status.source_index;
    source_percent = status.progress.source_percent;
    overall_percent = status.progress.overall_percent;
  });
  progress_elapsed_ms =
      (if is_transfer_progress kind then some elapsed_ms else policy.progress_elapsed_ms);
}

-- The members after `reset`, as after construction.
abbrev pub new_policy : StatusPublicationPolicy
new_policy = record { published_status = none; progress_elapsed_ms = none }
