-- ===== src/Restore/Outcome.antt =====
-- src/restore/RestoreEngine.cpp: what the body of the transaction leaves, however it ends.
use btrfs_backup.Common.{
  true, false, Bool-cases, inl, inr, Option, none, some, ◌≡◌, ◌≢◌, ◌⊎◌, refl, sym, ap, ◌∙◌, subst,
}
use btrfs_backup.Config.Path.{FilePath}
use btrfs_backup.Restore.Failure.{RestoreFailure, Attempt, thrown, returned}
use btrfs_backup.Restore.Operations.{RestoreOperations}
use btrfs_backup.Restore.Plan.{RestorePlan, ExistingDestinationPolicy}
use btrfs_backup.Restore.Engine.{Transaction, is_replace, set_aside, set_aside_existing}
use btrfs_backup.Restore.Tree.{
  RestoreLaws, IsApart, Ends, >>=-Ends, call-Ends, IsUntouched, IsAside, is_some,
}

is_replace-eq :
    (policy : ExistingDestinationPolicy)
    → is_replace policy ≡ true
    → policy ≡ ExistingDestinationPolicy.replace
unfolding is_replace
is_replace-eq ExistingDestinationPolicy.replace h = refl
is_replace-eq ExistingDestinationPolicy.fail h = cc

pub is_some-none : {A : Type 0} (found : Option A) → is_some found ≡ false → found ≡ none
is_some-none none h = refl
is_some-none (some a) h = cc

module _ {World Tree : Type 0} (operations : RestoreOperations World) (Watched : FilePath → Type 0)
    (tree_at : World → FilePath → Option Tree) (IsCopy : FilePath → Option Tree → Type 0)
    (plan : RestorePlan) (start : World) where
  -- The removal of what was set aside fails, where the copy is at the destination.
  pub record RemovalFailed (after : World) : Type 0 where
    pub before : World
    pub failure : RestoreFailure
    pub failed : operations.remove_owned_tree plan.previous before ≡ (thrown failure, after)
    pub set_aside : tree_at before plan.previous ≡ tree_at start plan.destination
    pub copy : IsCopy plan.source (tree_at before plan.destination)

  pub record IsGone (t : Transaction World) : Type 0 where
    pub committed : t.committed ≡ true
    pub moved : t.previous_moved ≡ true
    pub removal : RemovalFailed t.world

  abbrev pub CanUndo : RestoreFailure → Transaction World → Type 0
  CanUndo e t =
      IsUntouched Watched tree_at plan start t ⊎ (IsAside Watched tree_at plan start t ⊎ IsGone t)

  -- Before the copy is moved to the destination: nothing is there.
  abbrev pub IsReady : Unit {0} → Transaction World → Type 0
  IsReady _ t =
      IsCopy plan.source (tree_at t.world plan.staging)
      × ((IsUntouched Watched tree_at plan start t × (tree_at t.world plan.destination ≡ none))
          ⊎ IsAside Watched tree_at plan start t)

  -- The copy is at the destination.
  pub record IsRestored (w : World) : Type 0 where
    pub copy : IsCopy plan.source (tree_at w plan.destination)
    pub staging : tree_at w plan.staging ≡ none
    pub previous : tree_at w plan.previous ≡ none
    pub replaced :
        (tree_at start plan.destination ≡ none)
        ⊎ (plan.existing_destination ≡ ExistingDestinationPolicy.replace)
    pub same :
        (q : FilePath)
        → Watched q
        → q ≢ plan.staging
        → q ≢ plan.destination
        → q ≢ plan.previous
        → tree_at w q ≡ tree_at start q

  module _ (laws : RestoreLaws operations Watched tree_at IsCopy)
      (apart : IsApart Watched plan) where
    -- What stands at a path that a call leaves alone.
    pub frame :
        {A : Type 0} (q : FilePath) (end_ : Attempt A × World) (a : Attempt A) (w before : World)
        → end_ ≡ (a, w)
        → tree_at end_.1 q ≡ tree_at before q
        → tree_at w q ≡ tree_at before q
    frame {A} q end_ a w before e h = sym (ap (λ (x : Attempt A × World). tree_at x.1 q) e) ∙ h

    pub move_frame :
        (p q r : FilePath) (a : Attempt (Unit {0})) (w before : World)
        → Watched p
        → Watched q
        → Watched r
        → operations.move p q before ≡ (a, w)
        → r ≢ p
        → r ≢ q
        → tree_at w r ≡ tree_at before r
    move_frame p q r a w before u v x e hp hq =
        frame r (operations.move p q before) a w before e (laws.move_frame p q before r u v x hp hq)

    pub remove_frame :
        (p r : FilePath) (a : Attempt (Unit {0})) (w before : World)
        → Watched p
        → Watched r
        → operations.remove_owned_tree p before ≡ (a, w)
        → r ≢ p
        → tree_at w r ≡ tree_at before r
    remove_frame p r a w before u v e h =
        frame r (operations.remove_owned_tree p before) a w before e
          (laws.remove_frame p before r u v h)

    set_aside-done :
        (t : Transaction World) (w : World)
        → IsUntouched Watched tree_at plan start t
        → IsCopy plan.source (tree_at t.world plan.staging)
        → plan.existing_destination ≡ ExistingDestinationPolicy.replace
        → operations.move plan.destination plan.previous t.world ≡ (returned tt, w)
        → IsReady tt (record t { world = w; previous_moved = true })
    set_aside-done t w h copy replaced e =
        let moved_apart =
          λ (eq : plan.destination ≡ plan.previous). apart.previous_destination (sym eq) in
        let staging_apart =
          λ (eq : plan.destination ≡ plan.staging). apart.staging_destination (sym eq) in
        (
          subst (IsCopy plan.source)
              (sym (
                move_frame plan.destination plan.previous plan.staging (returned tt) w t.world
                  apart.destination apart.previous apart.staging e apart.staging_destination
                  apart.staging_previous))
              copy,
          inr (record {
            not_committed = h.not_committed;
            moved = refl;
            replaced = replaced;
            destination =
                laws.move_source plan.destination plan.previous t.world w apart.destination
                  apart.previous e moved_apart;
            previous =
                laws.move_target plan.destination plan.previous t.world w apart.destination
                  apart.previous e moved_apart
                ∙ h.same plan.destination apart.destination staging_apart;
            same = λ q v s d p.
                move_frame plan.destination plan.previous q (returned tt) w t.world
                  apart.destination apart.previous v e d p
                ∙ h.same q v s;
          }),
        )

    -- A move that fails changes nothing.
    pub move_failed-IsUntouched :
        (p q : FilePath) (t : Transaction World) (e : RestoreFailure) (w : World)
        → Watched p
        → Watched q
        → IsUntouched Watched tree_at plan start t
        → operations.move p q t.world ≡ (thrown e, w)
        → IsUntouched Watched tree_at plan start (record t { world = w })
    move_failed-IsUntouched p q t e w u x h eq = record {
      not_committed = h.not_committed;
      not_moved = h.not_moved;
      same = λ r v s. (laws.move_failed p q t.world w e u x eq).1 r v ∙ h.same r v s;
    }

    pub move_failed-IsAside :
        (p q : FilePath) (t : Transaction World) (e : RestoreFailure) (w : World)
        → Watched p
        → Watched q
        → IsAside Watched tree_at plan start t
        → operations.move p q t.world ≡ (thrown e, w)
        → IsAside Watched tree_at plan start (record t { world = w })
    move_failed-IsAside p q t e w u x h eq =
        let kept = (laws.move_failed p q t.world w e u x eq).1 in
        record {
          not_committed = h.not_committed;
          moved = h.moved;
          replaced = h.replaced;
          destination = kept plan.destination apart.destination ∙ h.destination;
          previous = kept plan.previous apart.previous ∙ h.previous;
          same = λ r v s d k. kept r v ∙ h.same r v s d k;
        }

    set_aside-IsReady :
        (t : Transaction World)
        → IsUntouched Watched tree_at plan start t
        → IsCopy plan.source (tree_at t.world plan.staging)
        → Ends IsReady CanUndo (set_aside operations plan t)
    unfolding set_aside
    set_aside-IsReady t h copy = elim (Bool-cases (is_replace plan.existing_destination)) [
      | inl replaces ↦ rw replaces (
          >>=-Ends (λ _ t'. IsReady tt (record t' { previous_moved = true })) CanUndo IsReady _ _ t
            (call-Ends _ CanUndo (operations.move plan.destination plan.previous) t
              (λ _ w e.
                set_aside-done t w h copy (is_replace-eq plan.existing_destination replaces) e)
              (λ e w eq. inl (
                move_failed-IsUntouched plan.destination plan.previous t e w apart.destination
                  apart.previous h eq)))
            (λ _ t' ready. ready))
      | inr fails ↦ rw fails (inl h)
    ]

    pub set_aside_existing-IsReady :
        (t : Transaction World)
        → IsUntouched Watched tree_at plan start t
        → IsCopy plan.source (tree_at t.world plan.staging)
        → Ends IsReady CanUndo (set_aside_existing operations plan t)
    unfolding set_aside_existing
    set_aside_existing-IsReady t h copy =
        elim (Bool-cases (operations.exists plan.destination t.world)) [
          | inl there ↦ rw there (set_aside-IsReady t h copy)
          | inr gone ↦ rw gone (
            copy,
            inl (
              h,
              is_some-none _
                  (sym (laws.exists_lem plan.destination t.world apart.destination) ∙ gone),
            ),
          )
        ]
