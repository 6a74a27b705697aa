-- ===== src/Backup/Execution/Loops.antt =====
-- src/backup/execution/BackupRunExecutor.cpp: the two loops, and how far they get.
use btrfs_backup.Common.{Bool, true, false, ℕ, suc, ◌+◌, ◌%◌, ◌^◌, List, [], ◌∷◌, ◌++◌, refl, arith}
use mathlib.Core.Path.{subst}
use mathlib.Core.List.{append-nil}
use btrfs_backup.Core.Errors.{Result, ok, err}
use btrfs_backup.Backup.Actions.{BackupRunAction, backup_run_action_kind}
use btrfs_backup.Backup.RunPlan.{BackupSourceRunPlan, BackupRunPlan}
use btrfs_backup.Backup.Events.{BackupRunEvent, on_action_completed, on_checkpoint_written}
use btrfs_backup.Backup.Execution.Calls.{
  BackupRunCheckpoint, RunPorts, Call, polled, announced, checkpointed, Ran, Run, give, following,
  ◌>>=◌, ◌>>◌,
}
use btrfs_backup.Backup.Execution.Executor.{
  cancelled, checkpoint_of, action_place, ActionStep, transferred, stopped, Progress, going,
  returned, emit, emit_cancelled, unless_requested, poll, after_success, after_action, run_action,
  go_on, run_actions, complete_source, run_source, run_sources,
}
use btrfs_backup.Backup.Execution.Steps.{
  executed_actions, written_checkpoints, IsStop, StopsAt, IsStep, caught-IsStep,
}
use btrfs_backup.Backup.Execution.Progress.{
  Item, items_of, planned_items, Ends, IsSettled, Settles, IsPartial-then, IsFull-then, IsCut-then,
  Ends-like, Ends-append-nil, settled-Ends, stopped-Ends, announced-Settles,
}

module _ {World : Type 0} (ports : RunPorts World) (plan : BackupRunPlan) where
  unfoldable pub HasEnds : ℕ → List Item → Ran World Progress → Type 0
  unfolding Ends
  HasEnds n items ran = Ends plan n items ran.calls ran.result

  -- The second part runs where the first part has not returned.
  pub go_on-HasEnds :
      (n : ℕ) (first second : List Item) (m : Run World Progress)
      (next : ℕ → ℕ → Run World Progress) (w : World)
      → HasEnds n first (m w)
      → ((k bytes : ℕ) (w' : World) → HasEnds k second (next k bytes w'))
      → HasEnds n (first ++ second) ((m >>= λ progress. go_on ports plan progress next) w)
  unfolding HasEnds Ends
  go_on-HasEnds n first second m next w = joined (m w).calls (m w).result (m w).world
    where
      joined :
          (calls : List Call) (r : Result Progress) (w' : World)
          → Ends plan n first calls r
          → ((k bytes : ℕ) (w'' : World) → HasEnds k second (next k bytes w''))
          → HasEnds n
              (first ++ second)
              (following calls r w' (λ progress. go_on ports plan progress next))
      joined calls (ok (going k bytes)) w' f h =
          IsFull-then plan n first second calls (next k bytes w').calls k (next k bytes w').result f
            (h k bytes w')
      joined calls (ok (returned r)) w' p h =
          Ends-append-nil plan n (first ++ second) calls (ok (returned r))
            (IsPartial-then plan n first second calls [] r p)
      joined calls (err e) w' c h = IsCut-then plan n first second calls [] c

  -- A call that carries nothing out leads the calls of what follows it.
  emit-HasEnds :
      (n : ℕ) (items : List Item) (event : BackupRunEvent) (k : Unit {0} → Run World Progress)
      (w : World)
      → ((w' : World) → HasEnds n items (k tt w'))
      → HasEnds n items ((emit ports plan event >>= k) w)
  unfolding HasEnds Ends emit executed_actions written_checkpoints
  emit-HasEnds n items event k w h = emitted (ports.on_backup_run_event event w).0
    where
      emitted :
          (r : Result (Unit {0}))
          → HasEnds n items
              (following (announced event ∷ []) r (ports.on_backup_run_event event w).1 k)
      emitted (ok u) =
          let ran = k u (ports.on_backup_run_event event w).1 in
          Ends-like plan n items ran.calls (announced event ∷ ran.calls) ran.result refl refl
            (h (ports.on_backup_run_event event w).1)
      emitted (err e) = record { begun = []; skipped = items; splits = refl; carried = refl }

  give-stop-HasEnds :
      (n : ℕ) (items : List Item) (w : World)
      → HasEnds n items (give (ok (returned (cancelled n))) w)
  unfolding HasEnds Ends executed_actions written_checkpoints IsStop
  give-stop-HasEnds n items w = record {
    done = [];
    current = [];
    skipped = items;
    splits = refl;
    at_most_one = omega arith;
    carried = refl;
    written = refl;
    stop = omega arith;
  }

  unless_requested-HasEnds :
      (source : BackupSourceRunPlan) (n : ℕ) (items : List Item) (continue : Run World Progress)
      (b : Bool) (w : World)
      → ((w' : World) → HasEnds n items (continue w'))
      → HasEnds n items (unless_requested ports plan source n continue b w)
  unfolding unless_requested emit_cancelled
  unless_requested-HasEnds source n items continue true w h =
      emit-HasEnds n items _ _ w (give-stop-HasEnds n items)
  unless_requested-HasEnds source n items continue false w h = h w

  poll-HasEnds :
      (source : BackupSourceRunPlan) (n : ℕ) (items : List Item) (continue : Run World Progress)
      (w : World)
      → ((w' : World) → HasEnds n items (continue w'))
      → HasEnds n items (poll ports plan source n continue w)
  unfolding poll HasEnds Ends executed_actions written_checkpoints
  poll-HasEnds source n items continue w h = polling (ports.cancellation_requested w).0
    where
      polling :
          (r : Result Bool)
          → HasEnds n items (
              following
                (polled ∷ [])
                r
                (ports.cancellation_requested w).1
                (unless_requested ports plan source n continue))
      polling (ok b) =
          let w' = (ports.cancellation_requested w).1 in
          let ran = unless_requested ports plan source n continue b w' in
          Ends-like plan n items ran.calls (polled ∷ ran.calls) ran.result refl refl
            (unless_requested-HasEnds source n items continue b w' h)
      polling (err e) = record { begun = []; skipped = items; splits = refl; carried = refl }

  saved-IsSettled :
      (n bytes : ℕ) (checkpoint : BackupRunCheckpoint) (event : BackupRunEvent)
      (r : Result (Unit {0})) (w : World)
      → IsSettled n checkpoint (
          ((λ w'. following (checkpointed checkpoint ∷ []) r w (λ u. emit ports plan event))
              >> give (ok (going (suc n) bytes)))
            w)
  unfolding Settles emit executed_actions written_checkpoints
  saved-IsSettled n bytes checkpoint event (err e) w = record { carried = refl; settles = tt }
  saved-IsSettled n bytes checkpoint event (ok u) w = told (ports.on_backup_run_event event w).0
    where
      told :
          (r : Result (Unit {0}))
          → IsSettled n checkpoint (
              following
                (checkpointed checkpoint ∷ announced event ∷ [])
                r
                (ports.on_backup_run_event event w).1
                (λ u. give (ok (going (suc n) bytes))))
      told (ok u) = record { carried = refl; settles = (refl, omega arith) }
      told (err e) = record { carried = refl; settles = tt }

  after_action-IsSettled :
      (source : BackupSourceRunPlan) (action : BackupRunAction) (n bytes more : ℕ) (w : World)
      → IsSettled n
          (checkpoint_of plan source action)
          (after_action ports plan source action n bytes (transferred more) w)
  unfolding after_action after_success Settles emit executed_actions written_checkpoints
  after_action-IsSettled source action n bytes more w =
      completed-first (ports.on_backup_run_event event w).0
    where
      event : BackupRunEvent
      event =
          on_action_completed (action_place plan source.source_id (backup_run_action_kind action))

      completed-first :
          (r : Result (Unit {0}))
          → IsSettled n (checkpoint_of plan source action) (
              following (announced event ∷ []) r (ports.on_backup_run_event event w).1 (λ u.
                after_success ports plan source action
                >> give (ok (going (suc n) ((bytes + more) % 2 ^ 64)))))
      completed-first (ok u) =
          let w' = (ports.on_backup_run_event event w).1 in
          let checkpoint = checkpoint_of plan source action in
          let s =
            saved-IsSettled n ((bytes + more) % 2 ^ 64) checkpoint
              (on_checkpoint_written
                (action_place plan source.source_id (backup_run_action_kind action)))
              (ports.write_checkpoint checkpoint w').0 (ports.write_checkpoint checkpoint w').1 in
          record {
            carried = s.carried;
            settles =
                announced-Settles n checkpoint event
                  ((after_success ports plan source action
                      >> give (ok (going (suc n) ((bytes + more) % 2 ^ 64))))
                    w').calls
                  ((after_success ports plan source action
                      >> give (ok (going (suc n) ((bytes + more) % 2 ^ 64))))
                    w').result
                  s.settles;
          }
      completed-first (err e) = record { carried = refl; settles = tt }

  -- What follows the `try` turns what the `try` leaves into the end of the turn.
  after_action-HasEnds :
      (source : BackupSourceRunPlan) (action : BackupRunAction) (n bytes : ℕ) (calls : List Call)
      (r : Result ActionStep) (w : World)
      → IsStep n (action ∷ []) (record { calls = calls; result = r; world = w })
      → HasEnds n
          ((source, action) ∷ [])
          (following calls r w (after_action ports plan source action n bytes))
  unfolding HasEnds StopsAt after_action
  after_action-HasEnds source action n bytes calls (ok (transferred more)) w s =
      let rest = after_action ports plan source action n bytes (transferred more) w in
      let t = after_action-IsSettled source action n bytes more w in
      settled-Ends plan source action n calls rest.calls rest.result s.carried s.none_written
        t.carried t.settles
  after_action-HasEnds source action n bytes calls (ok (stopped r)) w s =
      Ends-append-nil plan n ((source, action) ∷ []) calls (ok (returned r))
        (stopped-Ends plan source action n calls r s.carried s.none_written s.stop)
  after_action-HasEnds source action n bytes calls (err e) w s = record {
    begun = (source, action) ∷ [];
    skipped = [];
    splits = refl;
    carried = s.carried;
  }

  run_action-HasEnds :
      (source : BackupSourceRunPlan) (action : BackupRunAction) (n bytes : ℕ) (w : World)
      → HasEnds n ((source, action) ∷ []) (run_action ports plan source action n bytes w)
  unfolding run_action
  run_action-HasEnds source action n bytes w =
      poll-HasEnds source n ((source, action) ∷ []) _ w (λ w'.
        emit-HasEnds n ((source, action) ∷ []) _ _ w' (λ w''.
          after_action-HasEnds source action n bytes _ _ _
            (caught-IsStep ports plan source action n bytes w'')))

  run_actions-HasEnds :
      (source : BackupSourceRunPlan) (actions : List BackupRunAction) (n bytes : ℕ) (w : World)
      → HasEnds n (items_of source actions) (run_actions ports plan source actions n bytes w)
  unfolding run_actions items_of HasEnds Ends executed_actions written_checkpoints
  run_actions-HasEnds source [] n bytes w = record {
    carried = refl;
    written = refl;
    counted = omega arith;
  }
  run_actions-HasEnds source (action ∷ rest) n bytes w =
      go_on-HasEnds n ((source, action) ∷ []) (items_of source rest)
        (run_action ports plan source action n bytes) (run_actions ports plan source rest) w
        (run_action-HasEnds source action n bytes w)
        (λ k more w'. run_actions-HasEnds source rest k more w')

  complete_source-HasEnds :
      (source : BackupSourceRunPlan) (n bytes : ℕ) (w : World)
      → HasEnds n [] (complete_source ports plan source n bytes w)
  unfolding complete_source HasEnds Ends executed_actions written_checkpoints
  complete_source-HasEnds source n bytes w =
      emit-HasEnds n [] _ _ w
        (λ w'. record { carried = refl; written = refl; counted = omega arith })

  run_source-HasEnds :
      (source : BackupSourceRunPlan) (n bytes : ℕ) (w : World)
      → HasEnds n (items_of source source.actions ++ []) (run_source ports plan source n bytes w)
  unfolding run_source
  run_source-HasEnds source n bytes w =
      let items = items_of source source.actions in
      poll-HasEnds source n (items ++ []) _ w (λ w'. emit-HasEnds n (items ++ []) _ _ w' (λ w''.
        go_on-HasEnds n items [] (run_actions ports plan source source.actions n bytes)
          (complete_source ports plan source) w''
          (run_actions-HasEnds source source.actions n bytes w'')
          (λ k more w₁. complete_source-HasEnds source k more w₁)))

  pub run_sources-HasEnds :
      (sources : List BackupSourceRunPlan) (n bytes : ℕ) (w : World)
      → HasEnds n (planned_items sources) (run_sources ports plan sources n bytes w)
  unfolding run_sources planned_items HasEnds Ends executed_actions written_checkpoints
  run_sources-HasEnds [] n bytes w = record {
    carried = refl;
    written = refl;
    counted = omega arith;
  }
  run_sources-HasEnds (source ∷ rest) n bytes w =
      go_on-HasEnds n (items_of source source.actions) (planned_items rest)
        (run_source ports plan source n bytes) (run_sources ports plan rest) w
        (subst (λ items. HasEnds n items (run_source ports plan source n bytes w))
          (append-nil (items_of source source.actions)) (run_source-HasEnds source n bytes w))
        (λ k more w'. run_sources-HasEnds rest k more w')
