-- ===== src/Restore/Rollback.antt =====
-- src/restore/RestoreEngine.cpp: what the rollback of a restore leaves.
use btrfs_backup.Common.{
  Bool, true, false, Bool-cases, inl, inr, ◌&&◌, Option, none, [], ◌≡◌, ◌≢◌, ◌⊎◌, refl, sym, ap,
  ◌∙◌, arith, ◌==◌, ==_iff,
}
use btrfs_backup.Config.Path.{FilePath, path_eq}
use btrfs_backup.Restore.Failure.{RestoreFailure, returned}
use btrfs_backup.Restore.Operations.{RestoreOperations}
use btrfs_backup.Restore.Plan.{RestorePlan}
use btrfs_backup.Restore.Engine.{Transaction, call, undo_commit, undo_move, undo_staging, roll_back}
use btrfs_backup.Restore.Tree.{
  RestoreLaws, IsApart, Ends, >>=-Ends, call-Ends, IsUntouched, IsAside,
}
use btrfs_backup.Restore.Outcome.{CanUndo, RemovalFailed, move_frame, remove_frame, is_some-none}

false-true : {b : Bool} → b ≡ false → b ≡ true → ⊥
false-true h k = cc

and-right : {a b : Bool} → a ≡ true → (a && b) ≡ false → b ≡ false
and-right h k = ground arith

module _ {World Tree : Type 0} (operations : RestoreOperations World) (Watched : FilePath → Type 0)
    (tree_at : World → FilePath → Option Tree) (IsCopy : FilePath → Option Tree → Type 0)
    (plan : RestorePlan) (start : World) where
  -- The destination has what a removal that failed has left of the tree that was there.
  pub record IsHalfRemoved (w : World) : Type 0 where
    pub after : World
    pub removal : RemovalFailed operations Watched tree_at IsCopy plan start after
    pub destination : tree_at w plan.destination ≡ tree_at after plan.previous

  -- The copy is gone, and what is left of that tree is still aside.
  record IsLeftAside (t : Transaction World) : Type 0 where
    after : World
    removal : RemovalFailed operations Watched tree_at IsCopy plan start after
    moved : t.previous_moved ≡ true
    destination : tree_at t.world plan.destination ≡ none
    previous : tree_at t.world plan.previous ≡ tree_at after plan.previous

  -- All is as at the start, but for the staging tree.
  abbrev pub IsAsBefore : World → Type 0
  IsAsBefore w = (q : FilePath) → Watched q → q ≢ plan.staging → tree_at w q ≡ tree_at start q

  abbrev pub Undone : Unit {0} → Transaction World → Type 0
  Undone _ t = IsAsBefore t.world ⊎ IsHalfRemoved t.world

  -- The failure of a rollback says why.
  abbrev pub Explained : RestoreFailure → Transaction World → Type 0
  Explained e t = e.what ≢ []

  abbrev Uncommitted : Unit {0} → Transaction World → Type 0
  Uncommitted _ t =
      IsUntouched Watched tree_at plan start t
      ⊎ (IsAside Watched tree_at plan start t ⊎ IsLeftAside t)

  module _ (laws : RestoreLaws operations Watched tree_at IsCopy) (apart : IsApart Watched plan)
      (free : tree_at start plan.previous ≡ none) where
    removes-Ends :
        (p : FilePath) (t : Transaction World) (Q : Unit {0} → Transaction World → Type 0)
        → Watched p
        → ((w : World)
            → operations.remove_owned_tree p t.world ≡ (returned tt, w)
            → Q tt (record t { world = w }))
        → Ends Q Explained (call (operations.remove_owned_tree p) t)
    removes-Ends p t Q u done =
        call-Ends Q Explained (operations.remove_owned_tree p) t (λ _ w e. done w e)
          (λ e w eq. laws.remove_failed p t.world w e u eq)

    undo_commit-Uncommitted :
        (e : RestoreFailure) (t : Transaction World)
        → CanUndo operations Watched tree_at IsCopy plan start e t
        → Ends Uncommitted Explained (undo_commit operations plan t)
    unfolding undo_commit
    undo_commit-Uncommitted e t (inl h) = simp h.not_committed (inl h)
    undo_commit-Uncommitted e t (inr (inl h)) = simp h.not_committed (inr (inl h))
    undo_commit-Uncommitted e t (inr (inr h)) =
        elim (Bool-cases (t.committed && operations.exists plan.destination t.world)) [
          | inl there ↦ simp there (
              removes-Ends plan.destination t Uncommitted apart.destination (λ w eq. inr (
                inr (record {
                  after = t.world;
                  removal = h.removal;
                  moved = h.moved;
                  destination = laws.remove_done plan.destination t.world w apart.destination eq;
                  previous =
                      remove_frame operations Watched tree_at IsCopy plan start laws apart
                        plan.destination plan.previous (returned tt) w t.world apart.destination
                        apart.previous eq apart.previous_destination;
                }))))
          | inr gone ↦ simp gone (
              inr (
                inr (record {
                  after = t.world;
                  removal = h.removal;
                  moved = h.moved;
                  destination = is_some-none (tree_at t.world plan.destination) (
                      sym (laws.exists_lem plan.destination t.world apart.destination)
                      ∙ and-right h.committed gone);
                  previous = refl;
                })))
        ]

    -- A path of the plan, or another one.
    move_back-IsAsBefore :
        (t : Transaction World) (w : World)
        → IsAside Watched tree_at plan start t
        → tree_at w plan.destination ≡ tree_at t.world plan.previous
        → tree_at w plan.previous ≡ none
        → ((q : FilePath)
            → Watched q
            → q ≢ plan.previous
            → q ≢ plan.destination
            → tree_at w q ≡ tree_at t.world q)
        → IsAsBefore w
    move_back-IsAsBefore t w h destination previous same q v staging =
        elim (Bool-cases (q == plan.destination)) [
          | inl here ↦
              let e = (==_iff q plan.destination).0 here in
              ap (tree_at w) e ∙ destination ∙ h.previous ∙ sym (ap (tree_at start) e)
          | inr elsewhere ↦ elim (Bool-cases (q == plan.previous)) [
            | inl here ↦
                let e = (==_iff q plan.previous).0 here in
                ap (tree_at w) e ∙ previous ∙ sym free ∙ sym (ap (tree_at start) e)
            | inr other ↦
                let d = λ (e : q ≡ plan.destination).
                  false-true elsewhere ((==_iff q plan.destination).1 e) in
                let p =
                  λ (e : q ≡ plan.previous). false-true other ((==_iff q plan.previous).1 e) in
                same q v p d ∙ h.same q v staging d p
          ]
        ]

    undo_move-Undone :
        (t : Transaction World)
        → Uncommitted tt t
        → Ends Undone Explained (undo_move operations plan t)
    unfolding undo_move
    undo_move-Undone t (inl h) = simp h.not_moved (inl h.same)
    undo_move-Undone t (inr (inl h)) =
        elim (Bool-cases (t.previous_moved && operations.exists plan.previous t.world)) [
          | inl there ↦ simp there (
              call-Ends Undone Explained (operations.move plan.previous plan.destination) t
                (λ _ w e. inl (
                  move_back-IsAsBefore t w h
                    (laws.move_target plan.previous plan.destination t.world w apart.previous
                      apart.destination e apart.previous_destination)
                    (laws.move_source plan.previous plan.destination t.world w apart.previous
                      apart.destination e apart.previous_destination)
                    (λ q v p d.
                      move_frame operations Watched tree_at IsCopy plan start laws apart
                        plan.previous plan.destination q (returned tt) w t.world apart.previous
                        apart.destination v e p d)))
                (λ e w eq.
                  (laws.move_failed plan.previous plan.destination t.world w e apart.previous
                    apart.destination eq).0))
          | inr gone ↦
              let empty = is_some-none (tree_at t.world plan.previous) (
                sym (laws.exists_lem plan.previous t.world apart.previous)
                ∙ and-right h.moved gone) in
              simp gone (
                inl (
                  move_back-IsAsBefore t t.world h (h.destination ∙ sym empty) empty
                    (λ q v p d. refl)))
        ]
    undo_move-Undone t (inr (inr h)) =
        elim (Bool-cases (t.previous_moved && operations.exists plan.previous t.world)) [
          | inl there ↦ simp there (
              call-Ends Undone Explained (operations.move plan.previous plan.destination) t
                (λ _ w e. inr (record {
                  after = h.after;
                  removal = h.removal;
                  destination =
                      laws.move_target plan.previous plan.destination t.world w apart.previous
                        apart.destination e apart.previous_destination
                      ∙ h.previous;
                }))
                (λ e w eq.
                  (laws.move_failed plan.previous plan.destination t.world w e apart.previous
                    apart.destination eq).0))
          | inr gone ↦
              let empty = is_some-none (tree_at t.world plan.previous) (
                sym (laws.exists_lem plan.previous t.world apart.previous)
                ∙ and-right h.moved gone) in
              simp gone (
                inr (record {
                  after = h.after;
                  removal = h.removal;
                  destination = h.destination ∙ sym empty ∙ h.previous;
                }))
        ]

    undo_staging-Undone :
        (t : Transaction World)
        → Undone tt t
        → Ends Undone Explained (undo_staging operations plan t)
    unfolding undo_staging
    undo_staging-Undone t h =
        elim (Bool-cases (t.staging_created && operations.exists plan.staging t.world)) [
          | inl there ↦ simp there (
              removes-Ends plan.staging t Undone apart.staging (λ w e. elim h [
                | inl same ↦ inl (λ q v s.
                    remove_frame operations Watched tree_at IsCopy plan start laws apart
                      plan.staging q (returned tt) w t.world apart.staging v e s
                    ∙ same q v s)
                | inr left ↦ inr (record {
                  after = left.after;
                  removal = left.removal;
                  destination =
                      remove_frame operations Watched tree_at IsCopy plan start laws apart
                        plan.staging plan.destination (returned tt) w t.world apart.staging
                        apart.destination e
                        (λ (eq : plan.destination ≡ plan.staging).
                          apart.staging_destination (sym eq))
                      ∙ left.destination;
                })
              ]))
          | inr gone ↦ simp gone h
        ]

    pub roll_back-Undone :
        (e : RestoreFailure) (t : Transaction World)
        → CanUndo operations Watched tree_at IsCopy plan start e t
        → Ends Undone Explained (roll_back operations plan t)
    unfolding roll_back
    roll_back-Undone e t h =
        >>=-Ends Uncommitted Explained Undone _ _ t (undo_commit-Uncommitted e t h) (λ _ t₁ h₁.
          >>=-Ends Undone Explained Undone _ _ t₁ (undo_move-Undone t₁ h₁)
            (λ _ t₂ h₂. undo_staging-Undone t₂ h₂))
