-- ===== src/Backup/Execution/Progress.antt =====
-- src/backup/execution/BackupRunExecutor.cpp: how far a run of the two loops gets.
use btrfs_backup.Common.{
  ℕ, ◌+◌, ◌≤◌, List, [], ◌∷◌, ◌++◌, map, Never, length, length-append, ◌≡◌, refl, sym, ap, ◌∙◌,
  arith,
}
use mathlib.Core.Path.{subst}
use mathlib.Core.List.{append-nil, append_assoc, map-append}
use btrfs_backup.Core.Errors.{Result, ok, err}
use btrfs_backup.Backup.Actions.{BackupRunAction}
use btrfs_backup.Backup.RunPlan.{BackupSourceRunPlan, BackupRunPlan}
use btrfs_backup.Backup.Events.{BackupRunEvent}
use btrfs_backup.Backup.Execution.Calls.{BackupRunCheckpoint, Call, announced, Ran}
use btrfs_backup.Backup.Execution.Executor.{
  BackupRunExecutionResult, checkpoint_of, Progress, going, returned,
}
use btrfs_backup.Backup.Execution.Steps.{
  executed_actions, written_checkpoints, executed_actions-append, written_checkpoints-append,
  IsStop,
}

-- An action of the plan, with its source.
abbrev pub Item : Type 0
Item = BackupSourceRunPlan × BackupRunAction

unfoldable pub items_of : BackupSourceRunPlan → List BackupRunAction → List Item
items_of source [] = []
items_of source (action ∷ rest) = (source, action) ∷ items_of source rest

-- The actions of a plan in the order of the plan.
unfoldable pub planned_items : List BackupSourceRunPlan → List Item
unfolding items_of
planned_items [] = []
planned_items (source ∷ rest) = items_of source source.actions ++ planned_items rest

abbrev pub actions_of : List Item → List BackupRunAction
actions_of = map (λ item. item.1)

abbrev pub checkpoints_of : BackupRunPlan → List Item → List BackupRunCheckpoint
checkpoints_of plan = map (λ item. checkpoint_of plan item.0 item.1)

-- A part of the run that returned early: it finished the items `done`, may have begun one more,
-- and touched none of `skipped`.
pub record IsPartial (plan : BackupRunPlan) (n : ℕ) (items : List Item) (calls : List Call)
    (r : BackupRunExecutionResult) : Type 0 where
  pub done : List Item
  pub current : List Item
  pub skipped : List Item
  pub splits : done ++ (current ++ skipped) ≡ items
  pub at_most_one : length current ≤ 1
  pub carried : executed_actions calls ≡ actions_of (done ++ current)
  pub written : written_checkpoints calls ≡ checkpoints_of plan done
  pub stop : IsStop (n + length done) r

-- A part of the run that finished all its items.
pub record IsFull (plan : BackupRunPlan) (n : ℕ) (items : List Item) (calls : List Call) (m : ℕ)
    : Type 0 where
  pub carried : executed_actions calls ≡ actions_of items
  pub written : written_checkpoints calls ≡ checkpoints_of plan items
  pub counted : m ≡ n + length items

-- A part of the run that an exception left: it began a prefix of the items.
pub record IsCut (items : List Item) (calls : List Call) : Type 0 where
  pub begun : List Item
  pub skipped : List Item
  pub splits : begun ++ skipped ≡ items
  pub carried : executed_actions calls ≡ actions_of begun

unfoldable pub Ends : BackupRunPlan → ℕ → List Item → List Call → Result Progress → Type 0
Ends plan n items calls (ok (going m bytes)) = IsFull plan n items calls m
Ends plan n items calls (ok (returned r)) = IsPartial plan n items calls r
Ends plan n items calls (err e) = IsCut items calls

append_assoc_of : {A : Type 0} (a b c d : List A) → a ++ (b ++ (c ++ d)) ≡ (a ++ (b ++ c)) ++ d
append_assoc_of a b c d = rw (append_assoc, append_assoc)

IsStop-at : (r : BackupRunExecutionResult) {m n : ℕ} → m ≡ n → IsStop m r → IsStop n r
IsStop-at r e s = subst (λ k. IsStop k r) e s

module _ (plan : BackupRunPlan) (n : ℕ) (first second : List Item) (calls next : List Call) where
  pub IsPartial-then :
      (r : BackupRunExecutionResult)
      → IsPartial plan n first calls r
      → IsPartial plan n (first ++ second) calls r
  IsPartial-then r p = record {
    done = p.done;
    current = p.current;
    skipped = p.skipped ++ second;
    splits =
        append_assoc_of p.done p.current p.skipped second ∙ ap (λ items. items ++ second) p.splits;
    at_most_one = p.at_most_one;
    carried = p.carried;
    written = p.written;
    stop = p.stop;
  }

  pub IsCut-then : IsCut first calls → IsCut (first ++ second) calls
  IsCut-then c = record {
    begun = c.begun;
    skipped = c.skipped ++ second;
    splits = sym (append_assoc c.begun c.skipped second) ∙ ap (λ items. items ++ second) c.splits;
    carried = c.carried;
  }

  executed-of :
      (rest : List Item)
      → executed_actions calls ≡ actions_of first
      → executed_actions next ≡ actions_of rest
      → executed_actions (calls ++ next) ≡ actions_of (first ++ rest)
  executed-of rest f e = rw (executed_actions-append, f, e, map-append)

  written-of :
      (rest : List Item)
      → written_checkpoints calls ≡ checkpoints_of plan first
      → written_checkpoints next ≡ checkpoints_of plan rest
      → written_checkpoints (calls ++ next) ≡ checkpoints_of plan (first ++ rest)
  written-of rest f e = rw (written_checkpoints-append, f, e, map-append)

  pub IsFull-then :
      (m : ℕ) (r : Result Progress)
      → IsFull plan n first calls m
      → Ends plan m second next r
      → Ends plan n (first ++ second) (calls ++ next) r
  unfolding Ends
  IsFull-then m (ok (going k bytes)) f e = record {
    carried = executed-of second f.carried e.carried;
    written = written-of second f.written e.written;
    counted = omega (arith, f.counted, e.counted, length-append first second);
  }
  IsFull-then m (ok (returned r)) f e = record {
    done = first ++ e.done;
    current = e.current;
    skipped = e.skipped;
    splits = append_assoc first e.done (e.current ++ e.skipped) ∙ ap (◌++◌ first) e.splits;
    at_most_one = e.at_most_one;
    carried =
        executed-of (e.done ++ e.current) f.carried e.carried
        ∙ ap actions_of (sym (append_assoc first e.done e.current));
    written = written-of e.done f.written e.written;
    stop = IsStop-at r (omega (arith, f.counted, length-append first e.done)) e.stop;
  }
  IsFull-then m (err x) f e = record {
    begun = first ++ e.begun;
    skipped = e.skipped;
    splits = append_assoc first e.begun e.skipped ∙ ap (◌++◌ first) e.splits;
    carried = executed-of e.begun f.carried e.carried;
  }

-- Only the actions and the checkpoints among the calls count.
pub Ends-like :
    (plan : BackupRunPlan) (n : ℕ) (items : List Item) (calls others : List Call)
    (r : Result Progress)
    → executed_actions others ≡ executed_actions calls
    → written_checkpoints others ≡ written_checkpoints calls
    → Ends plan n items calls r
    → Ends plan n items others r
unfolding Ends
Ends-like plan n items calls others (ok (going m bytes)) a c f = record {
  carried = a ∙ f.carried;
  written = c ∙ f.written;
  counted = f.counted;
}
Ends-like plan n items calls others (ok (returned r)) a c p = record {
  done = p.done;
  current = p.current;
  skipped = p.skipped;
  splits = p.splits;
  at_most_one = p.at_most_one;
  carried = a ∙ p.carried;
  written = c ∙ p.written;
  stop = p.stop;
}
Ends-like plan n items calls others (err e) a c p = record {
  begun = p.begun;
  skipped = p.skipped;
  splits = p.splits;
  carried = a ∙ p.carried;
}

-- The calls of a part that is the last.
pub Ends-append-nil :
    (plan : BackupRunPlan) (n : ℕ) (items : List Item) (calls : List Call) (r : Result Progress)
    → Ends plan n items calls r
    → Ends plan n items (calls ++ []) r
Ends-append-nil plan n items calls r h =
    subst (λ c. Ends plan n items c r) (sym (append-nil calls)) h

-- What follows an action that succeeded: its checkpoint, unless an exception leaves.
unfoldable pub Settles : ℕ → BackupRunCheckpoint → List Call → Result Progress → Type 0
Settles n checkpoint calls (ok (going m bytes)) =
    (written_checkpoints calls ≡ checkpoint ∷ []) × (m ≡ n + 1)
Settles n checkpoint calls (ok (returned r)) = Never
Settles n checkpoint calls (err e) = Unit {0}

pub announced-Settles :
    (n : ℕ) (checkpoint : BackupRunCheckpoint) (event : BackupRunEvent) (calls : List Call)
    (r : Result Progress)
    → Settles n checkpoint calls r
    → Settles n checkpoint (announced event ∷ calls) r
unfolding Settles written_checkpoints
announced-Settles n checkpoint event calls (ok (going m bytes)) s = s
announced-Settles n checkpoint event calls (ok (returned r)) s = s
announced-Settles n checkpoint event calls (err e) s = s

-- An action that was carried out, and what settles it.
pub settled-Ends :
    (plan : BackupRunPlan) (source : BackupSourceRunPlan) (action : BackupRunAction) (n : ℕ)
    (calls next : List Call) (r : Result Progress)
    → executed_actions calls ≡ action ∷ []
    → written_checkpoints calls ≡ []
    → executed_actions next ≡ []
    → Settles n (checkpoint_of plan source action) next r
    → Ends plan n ((source, action) ∷ []) (calls ++ next) r
unfolding Settles Ends
settled-Ends plan source action n calls next (ok (going m bytes)) a b c s = record {
  carried = rw (executed_actions-append, a, c);
  written = rw (written_checkpoints-append, b, s.0);
  counted = s.1;
}
settled-Ends plan source action n calls next (ok (returned r)) a b c s = elim s [ ]
settled-Ends plan source action n calls next (err e) a b c s = record {
  begun = (source, action) ∷ [];
  skipped = [];
  splits = refl;
  carried = rw (executed_actions-append, a, c);
}

-- An action that was begun, and the return of the function.
pub stopped-Ends :
    (plan : BackupRunPlan) (source : BackupSourceRunPlan) (action : BackupRunAction) (n : ℕ)
    (calls : List Call) (r : BackupRunExecutionResult)
    → executed_actions calls ≡ action ∷ []
    → written_checkpoints calls ≡ []
    → IsStop n r
    → Ends plan n ((source, action) ∷ []) calls (ok (returned r))
unfolding Ends
stopped-Ends plan source action n calls r a b s = record {
  done = [];
  current = (source, action) ∷ [];
  skipped = [];
  splits = refl;
  at_most_one = omega arith;
  carried = a;
  written = b;
  stop = IsStop-at r (omega arith) s;
}

pub record IsSettled {World : Type 0} (n : ℕ) (checkpoint : BackupRunCheckpoint)
    (ran : Ran World Progress) : Type 0 where
  pub carried : executed_actions ran.calls ≡ []
  pub settles : Settles n checkpoint ran.calls ran.result
