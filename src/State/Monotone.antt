-- ===== src/State/Monotone.antt =====
-- src/state/projection/RunStatusProjection.cpp: what the members keep over the events of a run.
use btrfs_backup.Common.{
  true, false, subst, Bool-cases, ℕ, ◌≤◌, Never, Option, none, some, ◌≡◌, refl, sym, ap, ◌∙◌, inl,
  inr, arith, ==_iff, list_eq, nat_eq, option_eq,
}
use btrfs_backup.Core.Time.{RuntimeTimePoint}
use btrfs_backup.Backup.Events.{BackupRunEventKind}
use btrfs_backup.State.RunStatus.{RunStatus}
use btrfs_backup.State.EventData.{BackupRunStatusContext, RunEventData}
use btrfs_backup.State.Status.{is_run_started, at_least, overall_progress_for}
use btrfs_backup.State.Percent.{overall_percent-eq}
use btrfs_backup.State.Projection.{
  RunStatusProjection, StatusWriter, enter_run, noted, finish, publish, settled, project_data,
  progress_after, built_status, shown_event, attributed, blamed, PendingActionFailure,
  should_write_status, shown_status,
}

-- A percentage that is there and not below the given one.
abbrev pub IsAtLeast : ℕ → Option ℕ → Type 0
IsAtLeast n none = Never
IsAtLeast n (some m) = n ≤ m

progress_after-IsAtLeast :
    (kind : BackupRunEventKind) (n : ℕ) (progress : Option ℕ)
    → is_run_started kind ≡ false
    → IsAtLeast n (progress_after (some n) (at_least kind (some n) progress))
unfolding progress_after at_least
progress_after-IsAtLeast kind n none h = omega arith
progress_after-IsAtLeast kind n (some m) h = rw h (omega arith)

attributed-kind :
    (event : RunEventData) (failure : Option PendingActionFailure)
    → (attributed event failure).kind ≡ event.kind
unfolding attributed blamed
attributed-kind event none = ground arith
attributed-kind event (some failure) = ground arith

enter_run-same :
    (projection : RunStatusProjection) (event : RunEventData)
    → projection.run_id ≡ some event.run_id
    → is_run_started event.kind ≡ false
    → enter_run projection event ≡ projection
unfolding enter_run
enter_run-same projection event same running =
    ground (arith, ==_iff (some event.run_id) projection.run_id)

module _ (percentage : ℕ → ℕ → ℕ) (now : RuntimeTimePoint) {World : Type 0}
    (writer : StatusWriter World) (context : BackupRunStatusContext) where
  -- Writing changes no progress.
  finish-last :
      (projection : RunStatusProjection) (event : RunEventData) (status : RunStatus) (w : World)
      → (finish percentage now writer context projection event status
          w).projection.last_overall_progress
        ≡ projection.last_overall_progress
  unfolding finish settled
  finish-last projection event status w = ground arith

  publish-last :
      (projection : RunStatusProjection) (event : RunEventData) (status : RunStatus) (w : World)
      → (publish percentage now writer context projection event status
          w).projection.last_overall_progress
        ≡ projection.last_overall_progress
  unfolding publish
  publish-last projection event status w =
      ground (arith, finish-last projection event status w, finish-last _ event status _)

  noted-last :
      (projection : RunStatusProjection) (event : RunEventData)
      → (noted percentage now writer context projection event).last_overall_progress
        ≡ progress_after projection.last_overall_progress (
            overall_progress_for percentage now context
              (shown_event percentage now writer context projection event)
              projection.last_overall_progress)
  unfolding noted built_status
  noted-last projection event = ap (progress_after projection.last_overall_progress) (
      overall_percent-eq percentage now context
        (shown_event percentage now writer context projection event)
        projection.last_overall_progress)

  shown_event-kind :
      (projection : RunStatusProjection) (event : RunEventData)
      → (shown_event percentage now writer context projection event).kind ≡ event.kind
  unfolding shown_event
  shown_event-kind projection event = attributed-kind _ projection.pending_action_failure

  noted-IsAtLeast :
      (projection : RunStatusProjection) (event : RunEventData) (n : ℕ)
      → is_run_started event.kind ≡ false
      → projection.last_overall_progress ≡ some n
      → IsAtLeast n (noted percentage now writer context projection event).last_overall_progress
  unfolding overall_progress_for shown_event
  noted-IsAtLeast projection event n running last =
      let shown = shown_event percentage now writer context projection event in
      rw (noted-last, last)
        (progress_after-IsAtLeast shown.kind n _
          (ap is_run_started (shown_event-kind projection event) ∙ running))

  project_data-last :
      (projection : RunStatusProjection) (event : RunEventData) (w : World)
      → should_write_status event.kind ≡ true
      → (project_data percentage now writer context projection event
          w).projection.last_overall_progress
        ≡ (noted percentage now writer context
            (enter_run projection event)
            event).last_overall_progress
  unfolding project_data
  project_data-last projection event w shown = ground (
    arith,
    publish-last (noted percentage now writer context (enter_run projection event) event) event
        (shown_status percentage now writer context (enter_run projection event) event) w,
  )

  project_data-skipped :
      (projection : RunStatusProjection) (event : RunEventData) (w : World)
      → should_write_status event.kind ≡ false
      → (project_data percentage now writer context projection event w).projection ≡ projection
  unfolding project_data
  project_data-skipped projection event w skipped = rw skipped refl

  -- Within a run the overall progress never falls: an event of the current run that is not its
  -- start leaves a progress that is not below the one before, whether or not the documents can be
  -- written.
  pub project_data_monotone :
      (projection : RunStatusProjection) (event : RunEventData) (w : World) (n : ℕ)
      → projection.run_id ≡ some event.run_id
      → is_run_started event.kind ≡ false
      → projection.last_overall_progress ≡ some n
      → IsAtLeast n
          (project_data percentage now writer context projection event
            w).projection.last_overall_progress
  project_data_monotone projection event w n same running last =
      elim (Bool-cases (should_write_status event.kind)) [
        | inr skipped ↦
            subst (IsAtLeast n)
              (sym (
                ap (λ (p : RunStatusProjection). p.last_overall_progress)
                  (project_data-skipped projection event w skipped)
                ∙ last))
              (omega arith)
        | inl shown ↦
            subst (IsAtLeast n)
              (sym (
                project_data-last projection event w shown
                ∙ ap
                    (λ (p : RunStatusProjection).
                      (noted percentage now writer context p event).last_overall_progress)
                    (enter_run-same projection event same running)))
              (noted-IsAtLeast projection event n running last)
      ]
