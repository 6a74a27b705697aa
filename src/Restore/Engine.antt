-- ===== src/Restore/Engine.antt =====
-- src/restore/RestoreEngine.cpp: a restore as a transaction. A step of the body of `execute` may
-- throw, and leaves its local flags and the world either way.
use btrfs_backup.Common.{Bool, true, false, ◌&&◌, ◌||◌, if◌then◌else◌, is_empty, Text, text, ◌++◌}
use btrfs_backup.Restore.Failure.{
  cancelled, destination_unsafe, destination_exists, rollback_incomplete, RestoreFailure,
  restore_error, Attempt, thrown, returned,
}
use btrfs_backup.Restore.Operations.{RestoreStatistics, checking_space, copying, RestoreOperations}
use btrfs_backup.Restore.Plan.{RestoreKind, ExistingDestinationPolicy, RestorePlan}

pub record RestoreResult : Type 0 where
  pub transaction_id : Text
  pub statistics : RestoreStatistics
  pub drill : Bool
  pub committed : Bool

-- The local variables of `execute`, and the world.
pub record Transaction (World : Type 0) : Type 0 where
  pub staging_created : Bool
  pub previous_moved : Bool
  pub committed : Bool
  pub world : World

abbrev pub Step : Type 0 → Type 0 → Type 0
Step World A = Transaction World → Attempt A × Transaction World

infixl 5 ◌>>=◌ ◌>>◌
unfoldable pub ◌>>=◌ : {World A B : Type 0} → Step World A → (A → Step World B) → Step World B
◌>>=◌ first next t =
    let (result, t') = first t in elim result [ returned a ↦ next a t' | thrown e ↦ (thrown e, t') ]

abbrev pub ◌>>◌ : {World A B : Type 0} → Step World A → Step World B → Step World B
first >> second = first >>= λ _. second

unfoldable pub is_subvolume : RestoreKind → Bool
is_subvolume RestoreKind.subvolume = true
is_subvolume _ = false

unfoldable pub is_drill : RestoreKind → Bool
is_drill RestoreKind.drill = true
is_drill _ = false

unfoldable pub is_replace : ExistingDestinationPolicy → Bool
is_replace ExistingDestinationPolicy.replace = true
is_replace ExistingDestinationPolicy.fail = false

module _ {World : Type 0} where
  -- A call that changes the world.
  abbrev pub call : {A : Type 0} → (World → Attempt A × World) → Step World A
  call operation t = let (result, world) = operation t.world in (result, record t { world = world })

  abbrev pub return : {A : Type 0} → A → Step World A
  return a t = (returned a, t)

  abbrev pub throw : {A : Type 0} → RestoreFailure → Step World A
  throw e t = (thrown e, t)

  abbrev pub set_staging_created : Bool → Step World (Unit {0})
  set_staging_created b t = (returned tt, record t { staging_created = b })

  abbrev pub set_previous_moved : Bool → Step World (Unit {0})
  set_previous_moved b t = (returned tt, record t { previous_moved = b })

  abbrev pub set_committed : Bool → Step World (Unit {0})
  set_committed b t = (returned tt, record t { committed = b })

  -- The transaction at the start of the `try`.
  abbrev pub opened : World → Transaction World
  opened w = record {
    staging_created = false;
    previous_moved = false;
    committed = false;
    world = w;
  }

module _ {World : Type 0} (operations : RestoreOperations World) (plan : RestorePlan) where
  unfoldable pub throw_if_cancelled : Step World (Unit {0})
  throw_if_cancelled t =
      if operations.cancellation_requested t.world
      then throw (restore_error cancelled (text "restore was cancelled")) t
      else return tt t

  unfoldable pub create_root : Step World (Unit {0})
  unfolding is_subvolume
  create_root =
      if is_subvolume plan.kind
      then call (operations.create_subvolume_root plan.staging)
      else call (operations.prepare_copy_root plan.source plan.staging)

  -- Up to the copy that is verified.
  unfoldable pub stage : Step World RestoreStatistics
  unfolding throw_if_cancelled create_root
  stage = do
    call (operations.phase checking_space)
    call (operations.ensure_sufficient_space plan.source plan.staging)
    throw_if_cancelled
    call (operations.phase copying)
    create_root
    set_staging_created true
    statistics ← call (operations.copy_and_verify plan.source plan.staging)
    throw_if_cancelled
    return statistics

  -- What stands at the destination goes out of the way.
  unfoldable pub set_aside : Step World (Unit {0})
  unfolding is_replace
  set_aside =
      if is_replace plan.existing_destination
      then (do call (operations.move plan.destination plan.previous); set_previous_moved true)
      else throw
          (restore_error destination_exists (text "restore destination appeared before commit"))

  unfoldable pub set_aside_existing : Step World (Unit {0})
  unfolding set_aside
  set_aside_existing t =
      if operations.exists plan.destination t.world then set_aside t else return tt t

  unfoldable pub remove_previous : Step World (Unit {0})
  remove_previous t =
      if t.previous_moved then call (operations.remove_owned_tree plan.previous) t else return tt t

  unfoldable pub commit : RestoreStatistics → Step World RestoreResult
  unfolding set_aside_existing remove_previous
  commit statistics = do
    set_aside_existing
    call (operations.move plan.staging plan.destination)
    set_staging_created false
    set_committed true
    remove_previous
    return (record {
      transaction_id = plan.transaction_id;
      statistics = statistics;
      drill = false;
      committed = true;
    })

  unfoldable pub discard : RestoreStatistics → Step World RestoreResult
  discard statistics = do
    call (operations.remove_owned_tree plan.staging)
    return (record {
      transaction_id = plan.transaction_id;
      statistics = statistics;
      drill = true;
      committed = false;
    })

  -- The body of the `try`.
  unfoldable pub attempt : Step World RestoreResult
  unfolding stage discard commit is_drill
  attempt =
      stage >>= λ statistics. if is_drill plan.kind then discard statistics else commit statistics

  unfoldable pub undo_commit : Step World (Unit {0})
  undo_commit t =
      if t.committed && operations.exists plan.destination t.world
      then call (operations.remove_owned_tree plan.destination) t
      else return tt t

  unfoldable pub undo_move : Step World (Unit {0})
  undo_move t =
      if t.previous_moved && operations.exists plan.previous t.world
      then call (operations.move plan.previous plan.destination) t
      else return tt t

  unfoldable pub undo_staging : Step World (Unit {0})
  undo_staging t =
      if t.staging_created && operations.exists plan.staging t.world
      then call (operations.remove_owned_tree plan.staging) t
      else return tt t

  -- The body of the `catch (...)`.
  unfoldable pub roll_back : Step World (Unit {0})
  unfolding undo_commit undo_move undo_staging
  roll_back = do undo_commit; undo_move; undo_staging

  -- The failure is thrown on, or the one of the rollback.
  unfoldable pub settle :
      RestoreFailure → Attempt (Unit {0}) × Transaction World → Attempt RestoreResult × World
  settle failure (returned done, t) = (thrown failure, t.world)
  settle failure (thrown e, t) = (
    thrown (
        if is_empty e.what
        then failure
        else restore_error rollback_incomplete (text "restore rollback incomplete: " ++ e.what)),
    t.world,
  )

  unfoldable pub recover : Attempt RestoreResult × Transaction World → Attempt RestoreResult × World
  unfolding settle roll_back
  recover (returned result, t) = (returned result, t.world)
  recover (thrown failure, t) = settle failure (roll_back t)

  unfoldable pub execute : World → Attempt RestoreResult × World
  unfolding attempt recover
  execute w =
      if operations.cancellation_requested w
      then (thrown (restore_error cancelled (text "restore was cancelled")), w)
      else if operations.exists plan.staging w || operations.exists plan.previous w
      then (
        thrown
            (restore_error destination_unsafe (text "restore transaction artifacts already exist")),
        w,
      )
      else recover (attempt (opened w))
