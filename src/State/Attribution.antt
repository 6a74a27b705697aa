-- ===== src/State/Attribution.antt =====
-- src/state/projection/RunStatusProjection.cpp: which action the failure of a run is told of.
use btrfs_backup.Common.{
  true, false, ℕ, text, [], ◌∷◌, Option, some, ◌≡◌, refl, sym, ap, ap₂, ◌∙◌, subst, arith, ==_iff,
  list_eq, nat_eq, option_eq,
}
use btrfs_backup.Core.Time.{RuntimeTimePoint}
use btrfs_backup.Backup.Snapshot.{SourceId, RunId}
use btrfs_backup.Backup.Actions.{BackupRunActionKind}
use btrfs_backup.Backup.RunPlan.{value_or}
use btrfs_backup.Backup.Events.{BackupRunEventKind}
use btrfs_backup.State.RunStatus.{RunStatus, words}
use btrfs_backup.State.Serialization.{backup_run_action_kind_name}
use btrfs_backup.State.EventData.{BackupRunStatusContext, RunEventData}
use btrfs_backup.State.StatusBuilder.{phase_for_action}
use btrfs_backup.State.Status.{
  status_for_event, is_run_started, outcome_for, action_phase, details_for, action_details,
}
use btrfs_backup.State.Projection.{
  RunStatusProjection, StatusWriter, PendingActionFailure, begin_run, enter_run, noted, finish,
  publish, settled, project_data, built_status, shown_event, shown_status, attributed, blamed,
  is_run_failed, pending_after, failure_of, should_write_status, is_terminal_event, operation_after,
}

-- The failure of an action that an event tells.
record IsFailureOf (failed : RunEventData) (source_id : SourceId) (action : BackupRunActionKind)
    : Type 0 where
  kind : failed.kind ≡ BackupRunEventKind.action_failed
  source : failed.source_id ≡ some source_id
  action_kind : failed.action_kind ≡ some action

abbrev failure_at : RunEventData → SourceId → BackupRunActionKind → PendingActionFailure
failure_at failed source_id action = record {
  run_id = failed.run_id;
  source_id = source_id;
  source_index = failed.source_index;
  action_kind = action;
}

-- The members that tell which failure is pending, and for which run.
abbrev kept : RunStatusProjection → Option RunId × Option PendingActionFailure
kept projection = (projection.run_id, projection.pending_action_failure)

enter_run-id :
    (projection : RunStatusProjection) (event : RunEventData)
    → (enter_run projection event).run_id ≡ some event.run_id
unfolding enter_run begin_run
enter_run-id projection event = ground (arith, ==_iff (some event.run_id) projection.run_id)

enter_run-stays :
    (projection : RunStatusProjection) (event : RunEventData)
    → projection.run_id ≡ some event.run_id
    → event.kind ≡ BackupRunEventKind.run_failed
    → enter_run projection event ≡ projection
unfolding enter_run is_run_started
enter_run-stays projection event same failed =
    ground (arith, ==_iff (some event.run_id) projection.run_id)

IsFailureOf-written :
    (event : RunEventData) (source_id : SourceId) (action : BackupRunActionKind)
    → IsFailureOf event source_id action
    → should_write_status event.kind ≡ true
unfolding should_write_status
IsFailureOf-written event source_id action h = rw h.kind refl

IsFailureOf-open :
    (event : RunEventData) (source_id : SourceId) (action : BackupRunActionKind)
    → IsFailureOf event source_id action
    → is_terminal_event event.kind ≡ false
unfolding is_terminal_event
IsFailureOf-open event source_id action h = rw h.kind refl

pending_after-failed :
    (event : RunEventData) (source_id : SourceId) (action : BackupRunActionKind)
    (before : Option PendingActionFailure)
    → IsFailureOf event source_id action
    → pending_after event event.kind before ≡ some (failure_at event source_id action)
unfolding pending_after failure_of
pending_after-failed event source_id action before h =
    ground (arith, h.kind, h.source, h.action_kind)

-- The failure of a run as it is shown.
attributed-failed :
    (event : RunEventData) (failure : PendingActionFailure)
    → event.kind ≡ BackupRunEventKind.run_failed
    → failure.run_id ≡ event.run_id
    → attributed event (some failure) ≡ record event {
      source_id = some failure.source_id;
      source_index = failure.source_index;
      action_kind = some failure.action_kind;
    }
unfolding attributed blamed is_run_failed
attributed-failed event failure ended same = ground (arith, ==_iff failure.run_id event.run_id)

-- What a status tells of a failed action.
abbrev pub Names : RunStatus → SourceId → ℕ → BackupRunActionKind → Type 0
Names status source_id source_index action =
    (status.phase ≡ phase_for_action action)
    × (status.source_index ≡ source_index)
    × (status.details
        ≡ (text "sourceId", words source_id)
          ∷ (text "action", words (backup_run_action_kind_name action))
          ∷ [])

outcome_for-failed :
    (event : RunEventData) (kind : BackupRunEventKind) (action : BackupRunActionKind)
    → kind ≡ BackupRunEventKind.run_failed
    → event.action_kind ≡ some action
    → (outcome_for event kind).phase ≡ phase_for_action action
unfolding outcome_for action_phase
outcome_for-failed event kind action ended a = rw (ended, a) refl

details_for-failed :
    (event : RunEventData) (kind : BackupRunEventKind) (source_id : SourceId)
    (action : BackupRunActionKind)
    → kind ≡ BackupRunEventKind.run_failed
    → event.source_id ≡ some source_id
    → event.action_kind ≡ some action
    → details_for event kind
      ≡ (text "sourceId", words source_id)
        ∷ (text "action", words (backup_run_action_kind_name action))
        ∷ []
unfolding details_for action_details value_or
details_for-failed event kind source_id action ended s a = rw (ended, s, a) refl

status_for_event-failed :
    (percentage : ℕ → ℕ → ℕ) (now : RuntimeTimePoint) (context : BackupRunStatusContext)
    (event : RunEventData) (minimum : Option ℕ) (source_id : SourceId)
    (action : BackupRunActionKind)
    → event.kind ≡ BackupRunEventKind.run_failed
    → event.source_id ≡ some source_id
    → event.action_kind ≡ some action
    → Names
        (status_for_event percentage now context event minimum)
        source_id
        event.source_index
        action
unfolding status_for_event
status_for_event-failed percentage now context event minimum source_id action ended s a = (
  outcome_for-failed event event.kind action ended a,
  refl,
  details_for-failed event event.kind source_id action ended s a,
)

module _ (percentage : ℕ → ℕ → ℕ) (now : RuntimeTimePoint) {World : Type 0}
    (writer : StatusWriter World) (context : BackupRunStatusContext) where
  finish-kept :
      (projection : RunStatusProjection) (event : RunEventData) (status : RunStatus) (w : World)
      → is_terminal_event event.kind ≡ false
      → kept (finish percentage now writer context projection event status w).projection
        ≡ kept projection
  unfolding finish settled
  finish-kept projection event status w open_ = ground arith

  publish-kept :
      (projection : RunStatusProjection) (event : RunEventData) (status : RunStatus) (w : World)
      → is_terminal_event event.kind ≡ false
      → kept (publish percentage now writer context projection event status w).projection
        ≡ kept projection
  unfolding publish
  publish-kept projection event status w open_ =
      ground
        (arith, finish-kept projection event status w open_, finish-kept _ event status _ open_)

  project_data-entered :
      (projection : RunStatusProjection) (event : RunEventData) (w : World)
      → should_write_status event.kind ≡ true
      → is_terminal_event event.kind ≡ false
      → kept (project_data percentage now writer context projection event w).projection
        ≡ kept (noted percentage now writer context (enter_run projection event) event)
  unfolding project_data
  project_data-entered projection event w shown open_ = ground (
    arith,
    publish-kept (noted percentage now writer context (enter_run projection event) event) event
        (shown_status percentage now writer context (enter_run projection event) event) w open_,
  )

  project_data-kept :
      (projection : RunStatusProjection) (failed : RunEventData) (w : World) (source_id : SourceId)
      (action : BackupRunActionKind)
      → IsFailureOf failed source_id action
      → kept (project_data percentage now writer context projection failed w).projection
        ≡ (some failed.run_id, some (failure_at failed source_id action))
  unfolding noted
  project_data-kept projection failed w source_id action h =
      project_data-entered projection failed w (IsFailureOf-written failed source_id action h)
        (IsFailureOf-open failed source_id action h)
      ∙ ap₂ (λ (r : Option RunId) (f : Option PendingActionFailure). (r, f))
          (enter_run-id projection failed)
          (pending_after-failed failed source_id action
            (enter_run projection failed).pending_action_failure h)

  shown_event-failed :
      (projection : RunStatusProjection) (ended : RunEventData) (failure : PendingActionFailure)
      → projection.pending_action_failure ≡ some failure
      → ended.kind ≡ BackupRunEventKind.run_failed
      → failure.run_id ≡ ended.run_id
      → shown_event percentage now writer context projection ended ≡ record ended {
        operation_kind = operation_after projection.operation_kind ended.kind;
        source_id = some failure.source_id;
        source_index = failure.source_index;
        action_kind = some failure.action_kind;
      }
  unfolding shown_event
  shown_event-failed projection ended failure pending end same =
      let shown = record ended {
        operation_kind = operation_after projection.operation_kind ended.kind;
      } in
      ap (attributed shown) pending ∙ attributed-failed shown failure end same

  -- The status of the failure of a run, where the failure of an action is pending.
  built_status-failed :
      (projection : RunStatusProjection) (ended : RunEventData) (failure : PendingActionFailure)
      → projection.pending_action_failure ≡ some failure
      → ended.kind ≡ BackupRunEventKind.run_failed
      → failure.run_id ≡ ended.run_id
      → Names
          (built_status percentage now writer context projection ended)
          failure.source_id
          failure.source_index
          failure.action_kind
  unfolding built_status
  built_status-failed projection ended failure pending end same =
      subst
        (λ (e : RunEventData).
          Names (status_for_event percentage now context e projection.last_overall_progress)
            failure.source_id failure.source_index failure.action_kind)
        (sym (shown_event-failed projection ended failure pending end same))
        (status_for_event-failed percentage now context
          (record ended {
            operation_kind = operation_after projection.operation_kind ended.kind;
            source_id = some failure.source_id;
            source_index = failure.source_index;
            action_kind = some failure.action_kind;
          })
          projection.last_overall_progress failure.source_id failure.action_kind end refl refl)

  -- When an action has failed, the failure of the run of it is told of that action: the status of
  -- the next event, the end of the same run, has the phase of the action, and names its source,
  -- its place and the action.
  pub run_failed-attribution :
      (projection : RunStatusProjection) (failed ended : RunEventData) (w : World)
      (source_id : SourceId) (action : BackupRunActionKind)
      → failed.kind ≡ BackupRunEventKind.action_failed
      → failed.source_id ≡ some source_id
      → failed.action_kind ≡ some action
      → ended.kind ≡ BackupRunEventKind.run_failed
      → ended.run_id ≡ failed.run_id
      → (let after = (project_data percentage now writer context projection failed w).projection in
          Names
            (built_status percentage now writer context (enter_run after ended) ended)
            source_id
            failed.source_index
            action)
  run_failed-attribution projection failed ended w source_id action k s a e same =
      let after = (project_data percentage now writer context projection failed w).projection in
      let members =
        project_data-kept projection failed w source_id action
          (record { kind = k; source = s; action_kind = a }) in
      let stays =
        enter_run-stays after ended
          (ap (λ (m : Option RunId × Option PendingActionFailure). m.0) members
            ∙ ap some (sym same))
          e in
      built_status-failed (enter_run after ended) ended (failure_at failed source_id action)
        (ap (λ (p : RunStatusProjection). p.pending_action_failure) stays
          ∙ ap (λ (m : Option RunId × Option PendingActionFailure). m.1) members)
        e (sym same)
