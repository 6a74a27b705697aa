-- ===== src/Backup/Execution/Executor.antt =====
-- src/backup/execution/BackupRunExecutor.cpp and BackupRunCheckpointPolicy.cpp.
use btrfs_backup.Common.{
  Bool, true, false, ℕ, suc, ◌+◌, ◌%◌, ◌^◌, if◌then◌else◌, List, [], ◌∷◌, Text, Option, none, some,
  ◌==◌, list_eq, nat_eq,
}
use btrfs_backup.Core.Errors.{
  ErrorClass, operation_cancelled, Error, ok, err, is_btrfs_backup_error, coded_error,
}
use btrfs_backup.Core.ErrorCode.{ErrorCode, runner_cancelled, backup_failed}
use btrfs_backup.Backup.Snapshot.{SourceId}
use btrfs_backup.Backup.Actions.{BackupRunActionKind, BackupRunAction, backup_run_action_kind}
use btrfs_backup.Backup.RunPlan.{BackupSourceRunPlan, BackupRunPlan}
use btrfs_backup.Backup.Events.{
  BackupRunEvent, ActionPlace, SourcePlace, backup, on_source_started, on_action_started,
  on_action_completed, on_action_failed, on_checkpoint_written, on_source_completed, on_run_failed,
  on_run_cancelled,
}
use btrfs_backup.Backup.Execution.Calls.{
  BackupRunCheckpoint, RunPorts, polled, announced, executed, checkpointed, Run, made, give, ◌>>=◌,
  ◌>>◌, try_catch,
}

pub data BackupRunExecutionResult : Type 0 where
  completed : ℕ → BackupRunExecutionResult
  cancelled : ℕ → BackupRunExecutionResult
  failed : ErrorCode → Text → ℕ → BackupRunExecutionResult

unfoldable pub run_error_code : Error → ErrorCode
run_error_code error = elim (coded_error error.class) [ some code ↦ code | none ↦ backup_failed ]

-- The loop over the sources, from the given index.
unfoldable pub index_from : ℕ → List BackupSourceRunPlan → SourceId → ℕ
index_from i [] source_id = 0
index_from i (source ∷ rest) source_id =
    if source.source_id == source_id then suc i else index_from (suc i) rest source_id

unfoldable pub source_index_for_event : BackupRunPlan → SourceId → ℕ
unfolding index_from
source_index_for_event plan source_id = index_from 0 plan.sources source_id

unfoldable pub action_place : BackupRunPlan → SourceId → BackupRunActionKind → ActionPlace
unfolding source_index_for_event
action_place plan source_id action_kind = record {
  profile_id = plan.profile_id;
  run_id = plan.run_id;
  source_id = source_id;
  source_index = source_index_for_event plan source_id;
  action_kind = action_kind;
}

unfoldable pub source_place : BackupRunPlan → SourceId → SourcePlace
unfolding source_index_for_event
source_place plan source_id = record {
  profile_id = plan.profile_id;
  run_id = plan.run_id;
  source_id = source_id;
  source_index = source_index_for_event plan source_id;
}

unfoldable pub checkpoint_of :
    BackupRunPlan → BackupSourceRunPlan → BackupRunAction → BackupRunCheckpoint
checkpoint_of plan source action = record {
  profile_id = plan.profile_id;
  run_id = plan.run_id;
  source_id = source.source_id;
  action_kind = backup_run_action_kind action;
}

-- What the body of the action loop leaves: the run goes on with the bytes of the action, or the
-- function returns.
pub data ActionStep : Type 0 where
  transferred : ℕ → ActionStep
  stopped : BackupRunExecutionResult → ActionStep

-- What a loop leaves: `actions_completed` and `completed_run_bytes`, or the function's result.
pub data Progress : Type 0 where
  going : ℕ → ℕ → Progress
  returned : BackupRunExecutionResult → Progress

module _ {World : Type 0} (ports : RunPorts World) (plan : BackupRunPlan) where
  unfoldable pub emit : BackupRunEvent → Run World (Unit {0})
  emit event = made (announced event) (ports.on_backup_run_event event)

  unfoldable pub emit_cancelled :
      BackupSourceRunPlan
      → Option BackupRunActionKind
      → Option ErrorCode
      → Text
      → Run World (Unit {0})
  unfolding emit source_index_for_event
  emit_cancelled source action_kind error_code message = emit (
      on_run_cancelled (record {
        profile_id = plan.profile_id;
        run_id = plan.run_id;
        source_id = some source.source_id;
        source_index = source_index_for_event plan source.source_id;
        action_kind = action_kind;
        error_code = error_code;
        message = message;
        operation_kind = backup;
      }))

  unfoldable pub emit_action_failure :
      BackupSourceRunPlan → BackupRunActionKind → Error → Run World (Unit {0})
  unfolding emit run_error_code action_place
  emit_action_failure source action_kind error = emit (
      on_action_failed (action_place plan source.source_id action_kind)
        (some (run_error_code error)) error.what)

  unfoldable pub after_success : BackupSourceRunPlan → BackupRunAction → Run World (Unit {0})
  unfolding emit action_place checkpoint_of
  after_success source action = do
    made (checkpointed (checkpoint_of plan source action))
        (ports.write_checkpoint (checkpoint_of plan source action))
    emit
        (on_checkpoint_written (action_place plan source.source_id (backup_run_action_kind action)))

  -- `if (cancellation requested) { emit_cancelled; return cancelled; }`.
  unfoldable pub unless_requested :
      BackupSourceRunPlan → ℕ → Run World Progress → Bool → Run World Progress
  unfolding emit_cancelled
  unless_requested source actions_completed continue true = do
    emit_cancelled source none none []
    give (ok (returned (cancelled actions_completed)))
  unless_requested source actions_completed continue false = continue

  unfoldable pub poll : BackupSourceRunPlan → ℕ → Run World Progress → Run World Progress
  unfolding unless_requested
  poll source actions_completed continue =
      made polled ports.cancellation_requested
      >>= unless_requested source actions_completed continue

  -- The three `catch` clauses, in their order.
  unfoldable pub catch_class :
      BackupSourceRunPlan → BackupRunActionKind → ℕ → Error → ErrorClass → Run World ActionStep
  unfolding emit emit_cancelled emit_action_failure run_error_code
  catch_class source action_kind actions_completed error operation_cancelled = do
    emit_cancelled source (some action_kind) (some runner_cancelled) error.what
    give (ok (stopped (cancelled actions_completed)))
  catch_class source action_kind actions_completed error class =
      elim (is_btrfs_backup_error class) [
        | true ↦ (do
          emit_action_failure source action_kind error
          emit (
              on_run_failed (record {
                profile_id = plan.profile_id;
                run_id = plan.run_id;
                error_code = run_error_code error;
                message = error.what;
                operation_kind = backup;
              }))
          give (ok (stopped (failed (run_error_code error) error.what actions_completed))))
        | false ↦ (do emit_action_failure source action_kind error; give (err error))
      ]

  unfoldable pub catch_action :
      BackupSourceRunPlan → BackupRunActionKind → ℕ → Error → Run World ActionStep
  unfolding catch_class
  catch_action source action_kind actions_completed error =
      catch_class source action_kind actions_completed error error.class

  -- What the body of the `try` does with `action_result`.
  unfoldable pub attempted :
      BackupSourceRunPlan → BackupRunAction → ℕ → Bool → ℕ → Run World ActionStep
  unfolding emit_cancelled
  attempted source action actions_completed true bytes = do
    emit_cancelled source (some (backup_run_action_kind action)) none []
    give (ok (stopped (cancelled actions_completed)))
  attempted source action actions_completed false bytes = give (ok (transferred bytes))

  -- The body of the `try`.
  unfoldable pub try_action : BackupSourceRunPlan → BackupRunAction → ℕ → ℕ → Run World ActionStep
  unfolding attempted source_index_for_event
  try_action source action actions_completed completed_run_bytes = do
    result ← made (executed action) (
        ports.execute action (record {
          plan = plan;
          source = source;
          source_index = source_index_for_event plan source.source_id;
          completed_run_bytes = completed_run_bytes;
        }))
    attempted source action actions_completed result.cancelled result.bytes_transferred

  -- What follows the `try`.
  unfoldable pub after_action :
      BackupSourceRunPlan → BackupRunAction → ℕ → ℕ → ActionStep → Run World Progress
  unfolding emit after_success action_place
  after_action source action actions_completed completed_run_bytes (stopped result) =
      give (ok (returned result))
  after_action source action actions_completed completed_run_bytes (transferred bytes) = do
    emit (on_action_completed (action_place plan source.source_id (backup_run_action_kind action)))
    after_success source action
    give (ok (going (suc actions_completed) ((completed_run_bytes + bytes) % 2 ^ 64)))

  -- One turn of the loop over the actions of a source.
  unfoldable pub run_action : BackupSourceRunPlan → BackupRunAction → ℕ → ℕ → Run World Progress
  unfolding emit poll try_action catch_action after_action action_place
  run_action source action actions_completed completed_run_bytes = poll source actions_completed (do
    emit (on_action_started (action_place plan source.source_id (backup_run_action_kind action)))
    step ←
        try_catch (try_action source action actions_completed completed_run_bytes)
          (catch_action source (backup_run_action_kind action) actions_completed)
    after_action source action actions_completed completed_run_bytes step)

  -- A loop goes on with what a turn leaves, unless the function has returned.
  abbrev pub go_on : Progress → (ℕ → ℕ → Run World Progress) → Run World Progress
  go_on (going actions_completed bytes) next = next actions_completed bytes
  go_on (returned result) next = give (ok (returned result))

  unfoldable pub run_actions :
      BackupSourceRunPlan → List BackupRunAction → ℕ → ℕ → Run World Progress
  unfolding run_action
  run_actions source [] actions_completed bytes = give (ok (going actions_completed bytes))
  run_actions source (action ∷ rest) actions_completed bytes = do
    progress ← run_action source action actions_completed bytes
    go_on progress (run_actions source rest)

  unfoldable pub complete_source : BackupSourceRunPlan → ℕ → ℕ → Run World Progress
  unfolding emit source_place
  complete_source source actions_completed bytes = do
    emit (on_source_completed (source_place plan source.source_id))
    give (ok (going actions_completed bytes))

  -- One turn of the loop over the sources.
  unfoldable pub run_source : BackupSourceRunPlan → ℕ → ℕ → Run World Progress
  unfolding emit poll source_place run_actions complete_source
  run_source source actions_completed bytes = poll source actions_completed (do
    emit (on_source_started (source_place plan source.source_id))
    progress ← run_actions source source.actions actions_completed bytes
    go_on progress (complete_source source))

  unfoldable pub run_sources : List BackupSourceRunPlan → ℕ → ℕ → Run World Progress
  unfolding run_source
  run_sources [] actions_completed bytes = give (ok (going actions_completed bytes))
  run_sources (source ∷ rest) actions_completed bytes = do
    progress ← run_source source actions_completed bytes
    go_on progress (run_sources rest)

  unfoldable pub result_of : Progress → BackupRunExecutionResult
  result_of (going actions_completed bytes) = completed actions_completed
  result_of (returned result) = result

  unfoldable pub execute_run : Run World BackupRunExecutionResult
  unfolding run_sources result_of
  execute_run = do progress ← run_sources plan.sources 0 0; give (ok (result_of progress))
