-- ===== src/State/Percent.antt =====
-- src/state/projection/RunStatusBuilder.cpp: the bounds of the overall percentage.
use btrfs_backup.Common.{
  Bool-cases, inl, inr, ℕ, ◌≤◌, ◌*◌, ◌+◌, ◌-◌, ◌/◌, leb, ltb, Option, none, some, ◌≡◌, sym, subst,
  arith,
}
use Prim.Native.Nat.{min}
use native.Mathlib.Nat.{div-le_of_le-mul}
use btrfs_backup.Core.Time.{RuntimeTimePoint}
use btrfs_backup.Backup.Snapshot.{SourceId}
use btrfs_backup.Backup.Events.{BackupRunEventKind}
use btrfs_backup.State.EventData.{BackupRunStatusContext, RunEventData}
use btrfs_backup.State.StatusBuilder.{
  estimated_overall_progress, progress_for_kind, progress_of_source, sources_progress,
  current_progress,
}
use btrfs_backup.State.Status.{
  is_run_started, status_for_event, progress_for, at_least, overall_progress_for,
  source_progress_for,
}

-- A percentage that is not above 100, where there is one.
abbrev pub IsPercent : Option ℕ → Type 0
IsPercent none = Unit
IsPercent (some m) = m ≤ 100

div_bound : (n d : ℕ) → n ≤ d * 100 → n / d ≤ 100
div_bound n d h = div-le_of_le-mul d h

current_progress-bound : (progress : Option ℕ) → current_progress progress ≤ 100
unfolding current_progress
current_progress-bound none = omega arith
current_progress-bound (some percent) = omega arith

sources_progress-IsPercent :
    (context : BackupRunStatusContext) (completed percent : ℕ)
    → min completed context.source_count * 100 + percent ≤ context.source_count * 100
    → IsPercent (sources_progress context completed percent)
unfolding sources_progress
sources_progress-IsPercent context completed percent h = div_bound _ context.source_count h

progress_of_source-IsPercent :
    (context : BackupRunStatusContext) (source : Option SourceId) (index : ℕ) (progress : Option ℕ)
    → index ≤ context.source_count
    → IsPercent (progress_of_source context source index progress)
unfolding progress_of_source
progress_of_source-IsPercent context none index progress bound = omega arith
progress_of_source-IsPercent context (some s) index progress bound =
    elim (Bool-cases (ltb 0 index)) [
      | inl later ↦ rw later (
          sources_progress-IsPercent context (index - 1) (current_progress progress)
            (ground (arith, current_progress-bound progress)))
      | inr first ↦ rw first (omega arith)
    ]

progress_for_kind-IsPercent :
    (context : BackupRunStatusContext) (event : RunEventData) (kind : BackupRunEventKind)
    (progress : Option ℕ)
    → event.source_index ≤ context.source_count
    → IsPercent (progress_for_kind context event kind progress)
unfolding progress_for_kind
progress_for_kind-IsPercent context event BackupRunEventKind.run_completed progress bound =
    omega arith
progress_for_kind-IsPercent context event BackupRunEventKind.target_validation_completed progress
      bound =
    omega arith
progress_for_kind-IsPercent context event BackupRunEventKind.source_completed progress bound =
    elim (Bool-cases (ltb 0 event.source_index)) [
      | inl later ↦ rw later (sources_progress-IsPercent context event.source_index 0 (omega arith))
      | inr first ↦
          rw first
            (progress_of_source-IsPercent context event.source_id event.source_index progress bound)
    ]
progress_for_kind-IsPercent context event BackupRunEventKind.transfer_progress none bound = tt
progress_for_kind-IsPercent context event BackupRunEventKind.transfer_progress (some n) bound =
    progress_of_source-IsPercent context event.source_id event.source_index (some n) bound
progress_for_kind-IsPercent context event BackupRunEventKind.run_started progress bound =
    progress_of_source-IsPercent context event.source_id event.source_index progress bound
progress_for_kind-IsPercent context event BackupRunEventKind.source_started progress bound =
    progress_of_source-IsPercent context event.source_id event.source_index progress bound
progress_for_kind-IsPercent context event BackupRunEventKind.action_started progress bound =
    progress_of_source-IsPercent context event.source_id event.source_index progress bound
progress_for_kind-IsPercent context event BackupRunEventKind.action_completed progress bound =
    progress_of_source-IsPercent context event.source_id event.source_index progress bound
progress_for_kind-IsPercent context event BackupRunEventKind.action_failed progress bound =
    progress_of_source-IsPercent context event.source_id event.source_index progress bound
progress_for_kind-IsPercent context event BackupRunEventKind.checkpoint_written progress bound =
    progress_of_source-IsPercent context event.source_id event.source_index progress bound
progress_for_kind-IsPercent context event BackupRunEventKind.run_failed progress bound =
    progress_of_source-IsPercent context event.source_id event.source_index progress bound
progress_for_kind-IsPercent context event BackupRunEventKind.run_cancelled progress bound =
    progress_of_source-IsPercent context event.source_id event.source_index progress bound

estimated-IsPercent :
    (context : BackupRunStatusContext) (event : RunEventData) (progress : Option ℕ)
    → event.source_index ≤ context.source_count
    → IsPercent (estimated_overall_progress context event progress)
unfolding estimated_overall_progress
estimated-IsPercent context event progress bound = elim (Bool-cases (leb context.source_count 0)) [
  | inl empty ↦ rw empty tt
  | inr full ↦ rw full (progress_for_kind-IsPercent context event event.kind progress bound)
]

at_least-IsPercent :
    (kind : BackupRunEventKind) (minimum progress : Option ℕ)
    → IsPercent minimum
    → IsPercent progress
    → IsPercent (at_least kind minimum progress)
unfolding at_least
at_least-IsPercent kind none progress h k = k
at_least-IsPercent kind (some minimum) none h k = tt
at_least-IsPercent kind (some minimum) (some progress) h k =
    elim (Bool-cases (is_run_started kind)) [
      | inl started ↦ rw started k
      | inr later ↦ rw later (omega arith)
    ]

pub overall_percent-eq :
    (percentage : ℕ → ℕ → ℕ) (now : RuntimeTimePoint) (context : BackupRunStatusContext)
    (event : RunEventData) (minimum : Option ℕ)
    → (status_for_event percentage now context event minimum).progress.overall_percent
      ≡ overall_progress_for percentage now context event minimum
unfolding status_for_event progress_for
overall_percent-eq percentage now context event minimum = ground arith

-- The overall percentage of a status is at most 100, where the event is of one of the sources and
-- the percentage before it is at most 100.
pub status_for_event-IsPercent :
    (percentage : ℕ → ℕ → ℕ) (now : RuntimeTimePoint) (context : BackupRunStatusContext)
    (event : RunEventData) (minimum : Option ℕ)
    → event.source_index ≤ context.source_count
    → IsPercent minimum
    → IsPercent (status_for_event percentage now context event minimum).progress.overall_percent
unfolding overall_progress_for
status_for_event-IsPercent percentage now context event minimum bound before =
    subst IsPercent (sym (overall_percent-eq percentage now context event minimum)) (
      at_least-IsPercent event.kind minimum
        (estimated_overall_progress context event (source_progress_for percentage now event)) before
        (estimated-IsPercent context event (source_progress_for percentage now event) bound))
