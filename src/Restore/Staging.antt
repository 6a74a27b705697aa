-- ===== src/Restore/Staging.antt =====
-- src/restore/RestoreEngine.cpp: the copy below the staging path changes nothing else.
use btrfs_backup.Common.{Bool-cases, inl, inr, Option, ◌≡◌, ◌≢◌, refl, ◌∙◌}
use btrfs_backup.Config.Path.{FilePath}
use btrfs_backup.Restore.Failure.{RestoreFailure, Attempt, thrown, returned}
use btrfs_backup.Restore.Operations.{RestoreStatistics, checking_space, copying, RestoreOperations}
use btrfs_backup.Restore.Plan.{RestorePlan}
use btrfs_backup.Restore.Engine.{
  Transaction, Step, ◌>>=◌, call, throw_if_cancelled, create_root, stage, is_subvolume,
}
use btrfs_backup.Restore.Tree.{RestoreLaws, Ends, >>=-Ends, IsUntouched}

module _ {World Tree : Type 0} (operations : RestoreOperations World) (Watched : FilePath → Type 0)
    (tree_at : World → FilePath → Option Tree) (IsCopy : FilePath → Option Tree → Type 0)
    (laws : RestoreLaws operations Watched tree_at IsCopy) (plan : RestorePlan) (start : World)
    (watched : Watched plan.staging) where
  abbrev Kept : {A : Type 0} → A → Transaction World → Type 0
  Kept a t = IsUntouched Watched tree_at plan start t

  abbrev Failed : RestoreFailure → Transaction World → Type 0
  Failed e t = IsUntouched Watched tree_at plan start t

  -- A call that changes the staging tree at most.
  call-IsUntouched :
      {A : Type 0} (operation : World → Attempt A × World) (t : Transaction World)
      → ((w : World) (q : FilePath)
          → Watched q
          → q ≢ plan.staging
          → tree_at (operation w).1 q ≡ tree_at w q)
      → IsUntouched Watched tree_at plan start t
      → Ends Kept Failed (call operation t)
  call-IsUntouched {A} operation t frame h =
      go (operation t.world) (λ q v apart. frame t.world q v apart)
    where
      go :
          (end_ : Attempt A × World)
          → ((q : FilePath) → Watched q → q ≢ plan.staging → tree_at end_.1 q ≡ tree_at t.world q)
          → Ends Kept Failed (end_.0, record t { world = end_.1 })
      go (returned a, w) kept = record {
        not_committed = h.not_committed;
        not_moved = h.not_moved;
        same = λ q v apart. kept q v apart ∙ h.same q v apart;
      }
      go (thrown e, w) kept = record {
        not_committed = h.not_committed;
        not_moved = h.not_moved;
        same = λ q v apart. kept q v apart ∙ h.same q v apart;
      }

  throw_if_cancelled-Ends :
      (Q : Transaction World → Type 0) (t : Transaction World)
      → Q t
      → IsUntouched Watched tree_at plan start t
      → Ends (λ (_ : Unit {0}). Q) Failed (throw_if_cancelled operations plan t)
  unfolding throw_if_cancelled
  throw_if_cancelled-Ends Q t q h = elim (Bool-cases (operations.cancellation_requested t.world)) [
    | inl asked ↦ rw asked h
    | inr not_asked ↦ rw not_asked q
  ]

  create_root-Ends :
      (t : Transaction World)
      → IsUntouched Watched tree_at plan start t
      → Ends Kept Failed (create_root operations plan t)
  unfolding create_root
  create_root-Ends t h = elim (Bool-cases (is_subvolume plan.kind)) [
    | inl yes_ ↦ rw yes_ (
        call-IsUntouched (operations.create_subvolume_root plan.staging) t
          (λ w q. laws.subvolume_root_frame plan.staging w q watched) h)
    | inr no_ ↦ rw no_ (
        call-IsUntouched (operations.prepare_copy_root plan.source plan.staging) t
          (λ w q. laws.copy_root_frame plan.source plan.staging w q watched) h)
  ]

  -- What holds when the copy is verified.
  abbrev pub Staged : RestoreStatistics → Transaction World → Type 0
  Staged statistics t =
      IsUntouched Watched tree_at plan start t × IsCopy plan.source (tree_at t.world plan.staging)

  copy-Staged :
      (t : Transaction World)
      → IsUntouched Watched tree_at plan start t
      → Ends Staged Failed (call (operations.copy_and_verify plan.source plan.staging) t)
  copy-Staged t h =
      go (operations.copy_and_verify plan.source plan.staging t.world)
        (λ q v apart. laws.copy_frame plan.source plan.staging t.world q watched v apart)
        (λ s w e. laws.copy_verified plan.source plan.staging t.world w s watched e)
    where
      go :
          (end_ : Attempt RestoreStatistics × World)
          → ((q : FilePath) → Watched q → q ≢ plan.staging → tree_at end_.1 q ≡ tree_at t.world q)
          → ((s : RestoreStatistics) (w : World)
              → end_ ≡ (returned s, w)
              → IsCopy plan.source (tree_at w plan.staging))
          → Ends Staged Failed (end_.0, record t { world = end_.1 })
      go (returned a, w) kept verified = (
        record {
          not_committed = h.not_committed;
          not_moved = h.not_moved;
          same = λ q v apart. kept q v apart ∙ h.same q v apart;
        },
        verified a w refl,
      )
      go (thrown e, w) kept verified = record {
        not_committed = h.not_committed;
        not_moved = h.not_moved;
        same = λ q v apart. kept q v apart ∙ h.same q v apart;
      }

  kept :
      {A : Type 0} (first : Step World A) (next : A → Step World RestoreStatistics)
      (t : Transaction World)
      → Ends Kept Failed (first t)
      → ((a : A) (t' : Transaction World)
          → IsUntouched Watched tree_at plan start t'
          → Ends Staged Failed (next a t'))
      → Ends Staged Failed ((first >>= next) t)
  kept first next t h k = >>=-Ends Kept Failed Staged first next t h k

  pub stage-Staged :
      (t : Transaction World)
      → IsUntouched Watched tree_at plan start t
      → Ends Staged Failed (stage operations plan t)
  unfolding stage
  stage-Staged t h =
      kept _ _ t
        (call-IsUntouched (operations.phase checking_space) t
          (λ w q v _. laws.phase_frame checking_space w q v) h)
        (λ _ t₁ h₁.
          kept _ _ t₁
            (call-IsUntouched (operations.ensure_sufficient_space plan.source plan.staging) t₁
              (λ w q v _. laws.space_frame plan.source plan.staging w q v) h₁)
            (λ _ t₂ h₂.
              kept _ _ t₂
                (throw_if_cancelled-Ends (IsUntouched Watched tree_at plan start) t₂ h₂ h₂)
                (λ _ t₃ h₃.
                  kept _ _ t₃
                    (call-IsUntouched (operations.phase copying) t₃
                      (λ w q v _. laws.phase_frame copying w q v) h₃)
                    (λ _ t₄ h₄. kept _ _ t₄ (create_root-Ends t₄ h₄) (λ _ t₅ h₅.
                      kept _ _ t₅
                        (record {
                          not_committed = h₅.not_committed;
                          not_moved = h₅.not_moved;
                          same = h₅.same;
                        })
                        (λ _ t₆ h₆.
                          >>=-Ends Staged Failed Staged _ _ t₆ (copy-Staged t₆ h₆) (λ s t₇ h₇.
                            >>=-Ends (λ _. Staged s) Failed Staged _ _ t₇
                              (throw_if_cancelled-Ends (Staged s) t₇ h₇ h₇.0) (λ _ t₈ h₈. h₈))))))))
