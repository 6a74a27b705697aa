-- ===== src/Backup/Execution/Results.antt =====
-- src/backup/execution/BackupRunExecutor.cpp: what the result of a run says of its calls.
use btrfs_backup.Common.{List, sym}
use btrfs_backup.Core.Errors.{Result, ok, err}
use btrfs_backup.Backup.RunPlan.{BackupRunPlan}
use mathlib.Core.Path.{subst}
use mathlib.Core.List.{append-nil}
use btrfs_backup.Backup.Execution.Calls.{RunPorts, Call, following, give}
use btrfs_backup.Backup.Execution.Executor.{
  BackupRunExecutionResult, completed, cancelled, failed, Progress, going, returned, run_sources,
  result_of, execute_run,
}
use btrfs_backup.Backup.Execution.Steps.{IsStop}
use btrfs_backup.Backup.Execution.Progress.{Item, planned_items, Ends, IsPartial, IsFull, IsCut}
use btrfs_backup.Backup.Execution.Loops.{HasEnds, run_sources-HasEnds}

-- What a result says of the calls, for the items of the plan.
unfoldable pub Reports :
    BackupRunPlan → List Item → List Call → Result BackupRunExecutionResult → Type 0
Reports plan items calls (ok (completed n)) = IsFull plan 0 items calls n
Reports plan items calls (ok (cancelled n)) = IsPartial plan 0 items calls (cancelled n)
Reports plan items calls (ok (failed c t n)) = IsPartial plan 0 items calls (failed c t n)
Reports plan items calls (err e) = IsCut items calls

stopped-Reports :
    (plan : BackupRunPlan) (items : List Item) (calls : List Call) (r : BackupRunExecutionResult)
    → IsPartial plan 0 items calls r
    → Reports plan items calls (ok r)
unfolding Reports IsStop
stopped-Reports plan items calls (completed n) p = elim p.stop [ ]
stopped-Reports plan items calls (cancelled n) p = p
stopped-Reports plan items calls (failed c t n) p = p

-- Whatever the interfaces do: a run that completes carried out every action of the plan in its
-- order, wrote one checkpoint for each and counts them all; a run that is cancelled or fails with
-- count n carried out a prefix of the actions, at most one more than n of them, and wrote the
-- checkpoints of the first n exactly; and a run that an exception leaves carried out a prefix.
pub execute_run-Reports :
    {World : Type 0} (ports : RunPorts World) (plan : BackupRunPlan) (w : World)
    → Reports plan
        (planned_items plan.sources)
        (execute_run ports plan w).calls
        (execute_run ports plan w).result
unfolding execute_run HasEnds Reports Ends result_of
execute_run-Reports {World = World} ports plan w =
    let ran = run_sources ports plan plan.sources 0 0 w in
    returning ran.calls ran.result ran.world (run_sources-HasEnds ports plan plan.sources 0 0 w)
  where
    returning :
        (calls : List Call) (r : Result Progress) (w' : World)
        → Ends plan 0 (planned_items plan.sources) calls r
        → Reports plan
            (planned_items plan.sources)
            (following calls r w' (λ progress. give (ok (result_of ports plan progress)))).calls
            (following calls r w' (λ progress. give (ok (result_of ports plan progress)))).result
    returning calls (ok (going m bytes)) w' f =
        subst (λ c. IsFull plan 0 (planned_items plan.sources) c m) (sym (append-nil calls)) f
    returning calls (ok (returned r)) w' p =
        subst (λ c. Reports plan (planned_items plan.sources) c (ok r)) (sym (append-nil calls))
          (stopped-Reports plan (planned_items plan.sources) calls r p)
    returning calls (err e) w' c = c
