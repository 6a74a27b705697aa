-- ===== src/Restore/Commit.antt =====
-- src/restore/RestoreEngine.cpp: what the commit of a restore leaves.
use btrfs_backup.Common.{
  Bool, true, false, Bool-cases, inl, inr, if◌then◌else◌, Option, none, ◌≡◌, ◌≢◌, ◌⊎◌, refl, sym,
  ap, ◌∙◌, subst,
}
use btrfs_backup.Config.Path.{FilePath}
use btrfs_backup.Restore.Failure.{RestoreFailure, Attempt, thrown, returned}
use btrfs_backup.Restore.Operations.{RestoreStatistics, RestoreOperations}
use btrfs_backup.Restore.Plan.{RestorePlan, ExistingDestinationPolicy}
use btrfs_backup.Restore.Engine.{
  Transaction, call, return, is_drill, remove_previous, commit, discard, attempt, RestoreResult,
  opened,
}
use btrfs_backup.Restore.Tree.{
  RestoreLaws, IsApart, Ends, >>=-Ends, call-Ends, Ends-weaken, IsUntouched,
}
use btrfs_backup.Restore.Staging.{Staged, stage-Staged}
use btrfs_backup.Restore.Outcome.{
  CanUndo, IsReady, IsRestored, move_frame, remove_frame, move_failed-IsUntouched,
  move_failed-IsAside, set_aside_existing-IsReady,
}

module _ {World Tree : Type 0} (operations : RestoreOperations World) (Watched : FilePath → Type 0)
    (tree_at : World → FilePath → Option Tree) (IsCopy : FilePath → Option Tree → Type 0)
    (plan : RestorePlan) (start : World) where
  -- Whether something was set aside, and what is left of it.
  abbrev Leaves : Transaction World → Type 0
  Leaves t =
      ((t.previous_moved ≡ false)
        × (tree_at t.world plan.previous ≡ tree_at start plan.previous)
        × (tree_at start plan.destination ≡ none))
      ⊎ ((t.previous_moved ≡ true)
          × (tree_at t.world plan.previous ≡ tree_at start plan.destination)
          × (plan.existing_destination ≡ ExistingDestinationPolicy.replace))

  -- The copy is at the destination.
  record IsPlaced (t : Transaction World) : Type 0 where
    copy : IsCopy plan.source (tree_at t.world plan.destination)
    staging : tree_at t.world plan.staging ≡ none
    same :
        (q : FilePath)
        → Watched q
        → q ≢ plan.staging
        → q ≢ plan.destination
        → q ≢ plan.previous
        → tree_at t.world q ≡ tree_at start q
    leaves : Leaves t

  -- What the body leaves when it ends.
  pub record IsDiscarded (w : World) : Type 0 where
    pub staging : tree_at w plan.staging ≡ none
    pub same : (q : FilePath) → Watched q → q ≢ plan.staging → tree_at w q ≡ tree_at start q

  abbrev pub Achieved : RestoreResult → World → Type 0
  Achieved result w =
      ((is_drill plan.kind ≡ true) × (result.committed ≡ false) × IsDiscarded w)
      ⊎ ((is_drill plan.kind ≡ false)
          × (result.committed ≡ true)
          × IsRestored operations Watched tree_at IsCopy plan start w)

  module _ (laws : RestoreLaws operations Watched tree_at IsCopy) (apart : IsApart Watched plan)
      (free : tree_at start plan.previous ≡ none) where
    destination_staging : plan.destination ≢ plan.staging
    destination_staging e = apart.staging_destination (sym e)

    destination_previous : plan.destination ≢ plan.previous
    destination_previous e = apart.previous_destination (sym e)

    previous_staging : plan.previous ≢ plan.staging
    previous_staging e = apart.staging_previous (sym e)

    place-IsPlaced :
        (t : Transaction World)
        → IsReady operations Watched tree_at IsCopy plan start tt t
        → Ends
            (λ (_ : Unit {0}). IsPlaced)
            (CanUndo operations Watched tree_at IsCopy plan start)
            (call (operations.move plan.staging plan.destination) t)
    place-IsPlaced t (copy, ready) =
        call-Ends _ _ (operations.move plan.staging plan.destination) t
          (λ _ w e. record {
            copy =
                subst (IsCopy plan.source)
                  (sym (
                    laws.move_target plan.staging plan.destination t.world w apart.staging
                      apart.destination e apart.staging_destination))
                  copy;
            staging =
                laws.move_source plan.staging plan.destination t.world w apart.staging
                  apart.destination e apart.staging_destination;
            same = λ q v s d k.
                move_frame operations Watched tree_at IsCopy plan start laws apart plan.staging
                  plan.destination q (returned tt) w t.world apart.staging apart.destination v e s d
                ∙ elim ready [ inl (h, _) ↦ h.same q v s | inr h ↦ h.same q v s d k ];
            leaves = elim ready [
              | inl (h, empty) ↦ inl (
                h.not_moved,
                move_frame operations Watched tree_at IsCopy plan start laws apart plan.staging
                      plan.destination plan.previous (returned tt) w t.world apart.staging
                      apart.destination apart.previous e previous_staging apart.previous_destination
                    ∙ h.same plan.previous apart.previous previous_staging,
                sym (h.same plan.destination apart.destination destination_staging) ∙ empty,
              )
              | inr h ↦ inr (
                h.moved,
                move_frame operations Watched tree_at IsCopy plan start laws apart plan.staging
                      plan.destination plan.previous (returned tt) w t.world apart.staging
                      apart.destination apart.previous e previous_staging apart.previous_destination
                    ∙ h.previous,
                h.replaced,
              )
            ];
          })
          (λ e w eq. elim ready [
            | inl (h, _) ↦ inl (
                move_failed-IsUntouched operations Watched tree_at IsCopy plan start laws apart
                  plan.staging plan.destination t e w apart.staging apart.destination h eq)
            | inr h ↦ inr (
                inl (
                  move_failed-IsAside operations Watched tree_at IsCopy plan start laws apart
                    plan.staging plan.destination t e w apart.staging apart.destination h eq))
          ])

    remove_previous-if :
        (t : Transaction World) (moved : Bool)
        → t.previous_moved ≡ moved
        → remove_previous operations plan t
          ≡ (if moved then call (operations.remove_owned_tree plan.previous) t else return tt t)
    unfolding remove_previous
    remove_previous-if t moved h =
        ap
          (λ (b : Bool).
            if b then call (operations.remove_owned_tree plan.previous) t else return tt t)
          h

    abbrev Ended : Attempt (Unit {0}) × Transaction World → Type 0
    Ended =
        Ends (λ (_ : Unit {0}) t'. IsRestored operations Watched tree_at IsCopy plan start t'.world)
          (CanUndo operations Watched tree_at IsCopy plan start)

    remove_previous-IsRestored :
        (t : Transaction World)
        → t.committed ≡ true
        → IsPlaced t
        → Ended (remove_previous operations plan t)
    remove_previous-IsRestored t committed h = elim h.leaves [
      | inl (stays, previous, empty) ↦
          subst Ended (sym (remove_previous-if t false stays)) (record {
            copy = h.copy;
            staging = h.staging;
            previous = previous ∙ free;
            replaced = inl empty;
            same = h.same;
          })
      | inr (moved, set_aside, replaced) ↦ subst Ended (sym (remove_previous-if t true moved)) (
          call-Ends _ _ (operations.remove_owned_tree plan.previous) t
            (λ _ w e. record {
              copy =
                  subst (IsCopy plan.source)
                    (sym (
                      remove_frame operations Watched tree_at IsCopy plan start laws apart
                        plan.previous plan.destination (returned tt) w t.world apart.previous
                        apart.destination e destination_previous))
                    h.copy;
              staging =
                  remove_frame operations Watched tree_at IsCopy plan start laws apart plan.previous
                    plan.staging (returned tt) w t.world apart.previous apart.staging e
                    apart.staging_previous
                  ∙ h.staging;
              previous = laws.remove_done plan.previous t.world w apart.previous e;
              replaced = inr replaced;
              same = λ q v s d k.
                  remove_frame operations Watched tree_at IsCopy plan start laws apart plan.previous
                    q (returned tt) w t.world apart.previous v e k
                  ∙ h.same q v s d k;
            })
            (λ e w eq. inr (
              inr (record {
                committed = committed;
                moved = moved;
                removal = record {
                  before = t.world;
                  failure = e;
                  failed = eq;
                  set_aside = set_aside;
                  copy = h.copy;
                };
              }))))
    ]

    abbrev Undoable : RestoreFailure → Transaction World → Type 0
    Undoable = CanUndo operations Watched tree_at IsCopy plan start

    abbrev Done : RestoreResult → Transaction World → Type 0
    Done result t = Achieved result t.world

    -- The flags tell nothing of the trees.
    IsPlaced-flags :
        (t : Transaction World) (created committed : Bool)
        → IsPlaced t
        → IsPlaced (record t { staging_created = created; committed = committed })
    IsPlaced-flags t created committed h = record {
      copy = h.copy;
      staging = h.staging;
      same = h.same;
      leaves = h.leaves;
    }

    commit-Achieved :
        (statistics : RestoreStatistics) (t : Transaction World)
        → is_drill plan.kind ≡ false
        → Staged operations Watched tree_at IsCopy laws plan start apart.staging statistics t
        → Ends Done Undoable (commit operations plan statistics t)
    unfolding commit
    commit-Achieved statistics t kind (h, copy) =
        >>=-Ends (IsReady operations Watched tree_at IsCopy plan start) Undoable Done _ _ t
          (set_aside_existing-IsReady operations Watched tree_at IsCopy plan start laws apart t h
            copy)
          (λ _ t₁ ready.
            >>=-Ends (λ _. IsPlaced) Undoable Done _ _ t₁ (place-IsPlaced t₁ ready)
              (λ _ t₂ placed.
                >>=-Ends (λ _. IsPlaced) Undoable Done _ _ t₂
                  (IsPlaced-flags t₂ false t₂.committed placed)
                  (λ _ t₃ p₃.
                    >>=-Ends (λ _ t'. IsPlaced t' × (t'.committed ≡ true)) Undoable Done _ _ t₃
                      (IsPlaced-flags t₃ t₃.staging_created true p₃, refl)
                      (λ _ t₄ (p₄, c₄).
                        >>=-Ends
                          (λ _ t'. IsRestored operations Watched tree_at IsCopy plan start t'.world)
                          Undoable Done _ _ t₄ (remove_previous-IsRestored t₄ c₄ p₄)
                          (λ _ t₅ restored. inr (kind, refl, restored))))))

    discard-Achieved :
        (statistics : RestoreStatistics) (t : Transaction World)
        → is_drill plan.kind ≡ true
        → Staged operations Watched tree_at IsCopy laws plan start apart.staging statistics t
        → Ends Done Undoable (discard operations plan statistics t)
    unfolding discard
    discard-Achieved statistics t kind (h, copy) =
        >>=-Ends (λ _ t'. IsDiscarded t'.world) Undoable Done _ _ t
          (call-Ends _ _ (operations.remove_owned_tree plan.staging) t
            (λ _ w e. record {
              staging = laws.remove_done plan.staging t.world w apart.staging e;
              same = λ q v s.
                  remove_frame operations Watched tree_at IsCopy plan start laws apart plan.staging
                    q (returned tt) w t.world apart.staging v e s
                  ∙ h.same q v s;
            })
            (λ e w eq. inl (record {
              not_committed = h.not_committed;
              not_moved = h.not_moved;
              same = λ q v s.
                  remove_frame operations Watched tree_at IsCopy plan start laws apart plan.staging
                    q (thrown e) w t.world apart.staging v eq s
                  ∙ h.same q v s;
            })))
          (λ _ t₁ discarded. inl (kind, refl, discarded))

    pub attempt-Achieved : Ends Done Undoable (attempt operations plan (opened start))
    unfolding attempt
    attempt-Achieved =
        >>=-Ends (Staged operations Watched tree_at IsCopy laws plan start apart.staging) Undoable
          Done _ _ (opened start)
          (Ends-weaken (Staged operations Watched tree_at IsCopy laws plan start apart.staging)
            (λ _. IsUntouched Watched tree_at plan start) Undoable _ (λ _ _ h. inl h)
            (stage-Staged operations Watched tree_at IsCopy laws plan start apart.staging
              (opened start)
              (record { not_committed = refl; not_moved = refl; same = λ q _ _. refl })))
          (λ s t h. elim (Bool-cases (is_drill plan.kind)) [
            | inl kind ↦ rw kind (discard-Achieved s t kind h)
            | inr kind ↦ rw kind (commit-Achieved s t kind h)
          ])
