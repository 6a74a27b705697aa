-- ===== src/Restore/Guarantee.antt =====
-- src/restore/RestoreEngine.cpp: what `RestoreExecutor::execute` promises of the trees.
use btrfs_backup.Common.{
  Bool, false, Bool-cases, inl, inr, ◌||◌, is_empty, Option, none, some, [], ◌∷◌, Text, ◌≡◌, ◌≢◌,
  ◌⊎◌, refl, sym, ◌∙◌, arith,
}
use btrfs_backup.Config.Path.{FilePath}
use btrfs_backup.Restore.Failure.{rollback_incomplete, RestoreFailure, Attempt, thrown, returned}
use btrfs_backup.Restore.Operations.{RestoreOperations}
use btrfs_backup.Restore.Plan.{RestorePlan}
use btrfs_backup.Restore.Engine.{
  Transaction, RestoreResult, settle, recover, roll_back, attempt, execute, opened,
}
use btrfs_backup.Restore.Tree.{RestoreLaws, IsApart, Ends}
use btrfs_backup.Restore.Outcome.{CanUndo, is_some-none}
use btrfs_backup.Restore.Commit.{Achieved, attempt-Achieved}
use btrfs_backup.Restore.Rollback.{IsHalfRemoved, IsAsBefore, Undone, Explained, roll_back-Undone}

or-right : (a : Bool) {b : Bool} → (a || b) ≡ false → b ≡ false
or-right a h = ground arith

is_empty-false : (message : Text) → message ≢ [] → is_empty message ≡ false
is_empty-false [] h = elim (h refl) [ ]
is_empty-false (c ∷ cs) h = refl

module _ {World Tree : Type 0} (operations : RestoreOperations World) (Watched : FilePath → Type 0)
    (tree_at : World → FilePath → Option Tree) (IsCopy : FilePath → Option Tree → Type 0)
    (plan : RestorePlan) (start : World) where
  -- What a restore has done, by how it ended.
  abbrev pub Promises : Attempt RestoreResult × World → Type 0
  Promises (returned result, w) = Achieved operations Watched tree_at IsCopy plan start result w
  Promises (thrown e, w) =
      (e.code ≡ some rollback_incomplete)
      ⊎ (IsAsBefore operations Watched tree_at IsCopy plan start w
          ⊎ IsHalfRemoved operations Watched tree_at IsCopy plan start w)

  settle-Promises :
      (failure : RestoreFailure) (end_ : Attempt (Unit {0}) × Transaction World)
      → Ends
          (Undone operations Watched tree_at IsCopy plan start)
          (Explained operations Watched tree_at IsCopy plan start)
          end_
      → Promises (settle operations plan failure end_)
  unfolding settle
  settle-Promises failure (returned done, t) h = inr h
  settle-Promises failure (thrown e, t) h = inl (rw (is_empty-false e.what h) refl)

  module _ (laws : RestoreLaws operations Watched tree_at IsCopy)
      (apart : IsApart Watched plan) where
    recover-Promises :
        tree_at start plan.previous ≡ none
        → (end_ : Attempt RestoreResult × Transaction World)
        → Ends
            (λ result t. Achieved operations Watched tree_at IsCopy plan start result t.world)
            (CanUndo operations Watched tree_at IsCopy plan start)
            end_
        → Promises (recover operations plan end_)
    unfolding recover
    recover-Promises free (returned result, t) h = h
    recover-Promises free (thrown e, t) h =
        settle-Promises e (roll_back operations plan t)
          (roll_back-Undone operations Watched tree_at IsCopy plan start laws apart free e t h)

    previous_free :
        (operations.exists plan.staging start || operations.exists plan.previous start) ≡ false
        → tree_at start plan.previous ≡ none
    previous_free h = is_some-none (tree_at start plan.previous) (
        sym (laws.exists_lem plan.previous start apart.previous)
        ∙ or-right (operations.exists plan.staging start) h)

    -- A restore that returns has a verified copy at the destination, nothing at its own two paths,
    -- and all other watched paths as they were; it replaced a tree only where the plan allows that.
    -- A drill that returns has changed no watched path but the staging path, where nothing is left.
    -- A restore that throws leaves all watched paths but the staging path as they were, or says that
    -- the rollback is not complete, or has put back what a removal that failed, after the commit,
    -- left of the tree that was at the destination. So far as the operations obey their laws and
    -- the three paths of the plan are watched and different.
    pub execute-Promises : Promises (execute operations plan start)
    unfolding execute
    execute-Promises = elim (Bool-cases (operations.cancellation_requested start)) [
      | inl asked ↦ rw asked (inr (inl (λ q _ _. refl)))
      | inr not_asked ↦
          elim (Bool-cases
            (operations.exists plan.staging start || operations.exists plan.previous start)) [
              | inl there ↦ rw (not_asked, there) (inr (inl (λ q _ _. refl)))
              | inr free ↦
                  rw (not_asked, free)
                    (recover-Promises (previous_free free) (attempt operations plan (opened start))
                      (attempt-Achieved operations Watched tree_at IsCopy plan start laws apart
                        (previous_free free)))
            ]
    ]
