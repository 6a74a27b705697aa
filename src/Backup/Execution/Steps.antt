-- ===== src/Backup/Execution/Steps.antt =====
-- src/backup/execution/BackupRunExecutor.cpp: one action and its `catch` clauses.
use btrfs_backup.Common.{Bool, true, false, ℕ, List, [], ◌∷◌, ◌++◌, Never, ◌≡◌, refl, ap, arith}
use mathlib.Core.List.{append-nil}
use btrfs_backup.Core.Errors.{
  ErrorClass, validation, system_operation, coded_validation, coded_operation, recovery_required,
  operation_cancelled, logic, other, is_btrfs_backup_error, Error, Result, ok, err,
}
use btrfs_backup.Backup.Actions.{BackupRunAction, backup_run_action_kind}
use btrfs_backup.Backup.RunPlan.{BackupSourceRunPlan, BackupRunPlan}
use btrfs_backup.Backup.Events.{BackupRunEvent}
use btrfs_backup.Backup.Execution.Calls.{
  BackupRunCheckpoint, RunPorts, Call, polled, announced, executed, checkpointed, Ran, Run, give,
  following, handling, ◌>>=◌, ◌>>◌, try_catch,
}
use btrfs_backup.Backup.Execution.Executor.{
  BackupRunExecutionResult, completed, cancelled, failed, ActionStep, stopped, emit, emit_cancelled,
  emit_action_failure, attempted, catch_class, catch_action, try_action,
}

-- The actions that were carried out, in order.
unfoldable pub executed_actions : List Call → List BackupRunAction
executed_actions [] = []
executed_actions (executed action ∷ rest) = action ∷ executed_actions rest
executed_actions (_ ∷ rest) = executed_actions rest

-- The checkpoints that were written, in order.
unfoldable pub written_checkpoints : List Call → List BackupRunCheckpoint
written_checkpoints [] = []
written_checkpoints (checkpointed checkpoint ∷ rest) = checkpoint ∷ written_checkpoints rest
written_checkpoints (_ ∷ rest) = written_checkpoints rest

pub executed_actions-append :
    (xs ys : List Call) → executed_actions (xs ++ ys) ≡ executed_actions xs ++ executed_actions ys
unfolding executed_actions
executed_actions-append [] ys = refl
executed_actions-append (polled ∷ xs) ys = executed_actions-append xs ys
executed_actions-append (announced e ∷ xs) ys = executed_actions-append xs ys
executed_actions-append (executed a ∷ xs) ys = ap (◌∷◌ a) (executed_actions-append xs ys)
executed_actions-append (checkpointed c ∷ xs) ys = executed_actions-append xs ys

pub written_checkpoints-append :
    (xs ys : List Call)
    → written_checkpoints (xs ++ ys) ≡ written_checkpoints xs ++ written_checkpoints ys
unfolding written_checkpoints
written_checkpoints-append [] ys = refl
written_checkpoints-append (polled ∷ xs) ys = written_checkpoints-append xs ys
written_checkpoints-append (announced e ∷ xs) ys = written_checkpoints-append xs ys
written_checkpoints-append (executed a ∷ xs) ys = written_checkpoints-append xs ys
written_checkpoints-append (checkpointed c ∷ xs) ys = ap (◌∷◌ c) (written_checkpoints-append xs ys)

-- The function returned early, with the given count.
unfoldable pub IsStop : ℕ → BackupRunExecutionResult → Type 0
IsStop n (completed m) = Never
IsStop n (cancelled m) = m ≡ n
IsStop n (failed c t m) = m ≡ n

unfoldable pub StopsAt : ℕ → Result ActionStep → Type 0
unfolding IsStop
StopsAt n (ok (stopped r)) = IsStop n r
StopsAt n _ = Unit {0}

-- A part of a turn that carries out the given actions and writes no checkpoint.
pub record IsStep {World : Type 0} (n : ℕ) (actions : List BackupRunAction)
    (ran : Ran World ActionStep) : Type 0 where
  pub carried : executed_actions ran.calls ≡ actions
  pub none_written : written_checkpoints ran.calls ≡ []
  pub stop : StopsAt n ran.result

module _ {World : Type 0} (ports : RunPorts World) (plan : BackupRunPlan) where
  emit-IsStep :
      (n : ℕ) (event : BackupRunEvent) (k : Unit {0} → Run World ActionStep) (w : World)
      → ((w' : World) → IsStep n [] (k tt w'))
      → IsStep n [] ((emit ports plan event >>= k) w)
  unfolding executed_actions written_checkpoints StopsAt emit
  emit-IsStep n event k w h = emitted (ports.on_backup_run_event event w).0
    where
      emitted :
          (r : Result (Unit {0}))
          → IsStep n [] (following (announced event ∷ []) r (ports.on_backup_run_event event w).1 k)
      emitted (ok tt) =
          let s = h (ports.on_backup_run_event event w).1 in
          record { carried = s.carried; none_written = s.none_written; stop = s.stop }
      emitted (err e) = record { carried = refl; none_written = refl; stop = tt }

  give-IsStep : (n : ℕ) (r : Result ActionStep) (w : World) → StopsAt n r → IsStep n [] (give r w)
  unfolding executed_actions written_checkpoints
  give-IsStep n r w s = record { carried = refl; none_written = refl; stop = s }

  failure-IsStep :
      (source : BackupSourceRunPlan) (action : BackupRunAction) (n : ℕ) (error : Error)
      (event : BackupRunEvent) (r : Result ActionStep) (w : World)
      → StopsAt n r
      → IsStep n [] (
          (emit_action_failure ports plan source (backup_run_action_kind action) error
              >> (emit ports plan event >> give r))
            w)
  unfolding emit_action_failure
  failure-IsStep source action n error event r w s =
      emit-IsStep n _ _ w (λ w'. emit-IsStep n _ _ w' (λ w''. give-IsStep n r w'' s))

  rethrow-IsStep :
      (source : BackupSourceRunPlan) (action : BackupRunAction) (n : ℕ) (error : Error) (w : World)
      → IsStep n [] (
          (emit_action_failure ports plan source (backup_run_action_kind action) error
              >> give (err error))
            w)
  unfolding emit_action_failure StopsAt
  rethrow-IsStep source action n error w = emit-IsStep n _ _ w (λ w'. give-IsStep n _ w' tt)

  catch_class-IsStep :
      (source : BackupSourceRunPlan) (action : BackupRunAction) (n : ℕ) (error : Error)
      (class : ErrorClass) (w : World)
      → IsStep n [] (catch_class ports plan source (backup_run_action_kind action) n error class w)
  unfolding catch_class StopsAt IsStop emit_cancelled is_btrfs_backup_error
  catch_class-IsStep source action n error operation_cancelled w =
      emit-IsStep n _ _ w (λ w'. give-IsStep n _ w' refl)
  catch_class-IsStep source action n error logic w = rethrow-IsStep source action n error w
  catch_class-IsStep source action n error other w = rethrow-IsStep source action n error w
  catch_class-IsStep source action n error validation w =
      failure-IsStep source action n error _ _ w refl
  catch_class-IsStep source action n error system_operation w =
      failure-IsStep source action n error _ _ w refl
  catch_class-IsStep source action n error (coded_validation c) w =
      failure-IsStep source action n error _ _ w refl
  catch_class-IsStep source action n error (coded_operation c) w =
      failure-IsStep source action n error _ _ w refl
  catch_class-IsStep source action n error (recovery_required c) w =
      failure-IsStep source action n error _ _ w refl

  carried-IsStep :
      {A : Type 0} (n : ℕ) (action : BackupRunAction) (r : Result A) (w : World)
      (k : A → Run World ActionStep)
      → ((a : A) → IsStep n [] (k a w))
      → IsStep n (action ∷ []) (following (executed action ∷ []) r w k)
  unfolding executed_actions written_checkpoints StopsAt
  carried-IsStep n action (ok a) w k h = record {
    carried = ap (◌∷◌ action) (h a).carried;
    none_written = (h a).none_written;
    stop = (h a).stop;
  }
  carried-IsStep n action (err e) w k h = record { carried = refl; none_written = refl; stop = tt }

  attempted-IsStep :
      (source : BackupSourceRunPlan) (action : BackupRunAction) (n : ℕ) (b : Bool) (bytes : ℕ)
      (w : World)
      → IsStep n [] (attempted ports plan source action n b bytes w)
  unfolding attempted StopsAt IsStop emit_cancelled
  attempted-IsStep source action n true bytes w =
      emit-IsStep n _ _ w (λ w'. give-IsStep n _ w' refl)
  attempted-IsStep source action n false bytes w = give-IsStep n _ w tt

  try_action-IsStep :
      (source : BackupSourceRunPlan) (action : BackupRunAction) (n bytes : ℕ) (w : World)
      → IsStep n (action ∷ []) (try_action ports plan source action n bytes w)
  unfolding try_action
  try_action-IsStep source action n bytes w =
      carried-IsStep n action _ _ _
        (λ result. attempted-IsStep source action n result.cancelled result.bytes_transferred _)

  handling-IsStep :
      (n : ℕ) (actions : List BackupRunAction) (calls : List Call) (r : Result ActionStep)
      (w : World) (handler : Error → Run World ActionStep)
      → IsStep n actions (record { calls = calls; result = r; world = w })
      → ((error : Error) → IsStep n [] (handler error w))
      → IsStep n actions (handling calls r w handler)
  unfolding StopsAt
  handling-IsStep n actions calls (ok step) w handler s h = record {
    carried = s.carried;
    none_written = s.none_written;
    stop = s.stop;
  }
  handling-IsStep n actions calls (err e) w handler s h = record {
    carried = ground (
      arith,
      executed_actions-append calls (handler e w).calls,
      s.carried,
      (h e).carried,
      append-nil actions,
    );
    none_written = ground (
      arith,
      written_checkpoints-append calls (handler e w).calls,
      s.none_written,
      (h e).none_written,
    );
    stop = (h e).stop;
  }

  pub caught-IsStep :
      (source : BackupSourceRunPlan) (action : BackupRunAction) (n bytes : ℕ) (w : World)
      → IsStep n (action ∷ []) (
          try_catch
            (try_action ports plan source action n bytes)
            (catch_action ports plan source (backup_run_action_kind action) n)
            w)
  unfolding catch_action
  caught-IsStep source action n bytes w =
      let body = try_action ports plan source action n bytes w in
      handling-IsStep n (action ∷ []) body.calls body.result body.world _
        (try_action-IsStep source action n bytes w)
        (λ e. catch_class-IsStep source action n e e.class body.world)
