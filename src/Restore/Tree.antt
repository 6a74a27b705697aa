-- ===== src/Restore/Tree.antt =====
-- src/restore/RestoreOperations.hpp: what the engine relies on of the operations, as laws about
-- the tree that stands at each path, and what is known of a transaction between its steps.
use btrfs_backup.Common.{Bool, true, false, Option, none, some, [], ◌≡◌, ◌≢◌, refl}
use btrfs_backup.Config.Path.{FilePath}
use btrfs_backup.Restore.Failure.{RestoreFailure, Attempt, thrown, returned}
use btrfs_backup.Restore.Operations.{RestoreStatistics, RestorePhase, RestoreOperations}
use btrfs_backup.Restore.Plan.{RestorePlan, ExistingDestinationPolicy}
use btrfs_backup.Restore.Engine.{Transaction, Step, ◌>>=◌, call}

abbrev pub is_some : {A : Type 0} → Option A → Bool
is_some none = false
is_some (some a) = true

-- The laws speak of the watched paths, of which no two reach a common file or directory: none lies
-- within another or is a second name of it. What stands at a watched path is its whole tree. A
-- call on one of them leaves the trees at the others alone, succeeds or not; a move is a rename,
-- which does all or nothing; the failures say why. `IsCopy` is what a verified copy of a source
-- is, which is a read-only snapshot and does not change.
pub record RestoreLaws {World Tree : Type 0} (operations : RestoreOperations World)
    (Watched : FilePath → Type 0) (tree_at : World → FilePath → Option Tree)
    (IsCopy : FilePath → Option Tree → Type 0) : Type 0 where
  pub exists_lem :
      (p : FilePath) (w : World) → Watched p → operations.exists p w ≡ is_some (tree_at w p)
  pub phase_frame :
      (phase : RestorePhase) (w : World) (q : FilePath)
      → Watched q
      → tree_at (operations.phase phase w).1 q ≡ tree_at w q
  pub space_frame :
      (source p : FilePath) (w : World) (q : FilePath)
      → Watched q
      → tree_at (operations.ensure_sufficient_space source p w).1 q ≡ tree_at w q
  pub copy_root_frame :
      (source p : FilePath) (w : World) (q : FilePath)
      → Watched p
      → Watched q
      → q ≢ p
      → tree_at (operations.prepare_copy_root source p w).1 q ≡ tree_at w q
  pub subvolume_root_frame :
      (p : FilePath) (w : World) (q : FilePath)
      → Watched p
      → Watched q
      → q ≢ p
      → tree_at (operations.create_subvolume_root p w).1 q ≡ tree_at w q
  pub copy_frame :
      (source p : FilePath) (w : World) (q : FilePath)
      → Watched p
      → Watched q
      → q ≢ p
      → tree_at (operations.copy_and_verify source p w).1 q ≡ tree_at w q
  pub copy_verified :
      (source p : FilePath) (w w' : World) (statistics : RestoreStatistics)
      → Watched p
      → operations.copy_and_verify source p w ≡ (returned statistics, w')
      → IsCopy source (tree_at w' p)
  pub move_target :
      (p q : FilePath) (w w' : World)
      → Watched p
      → Watched q
      → operations.move p q w ≡ (returned tt, w')
      → p ≢ q
      → tree_at w' q ≡ tree_at w p
  pub move_source :
      (p q : FilePath) (w w' : World)
      → Watched p
      → Watched q
      → operations.move p q w ≡ (returned tt, w')
      → p ≢ q
      → tree_at w' p ≡ none
  pub move_frame :
      (p q : FilePath) (w : World) (r : FilePath)
      → Watched p
      → Watched q
      → Watched r
      → r ≢ p
      → r ≢ q
      → tree_at (operations.move p q w).1 r ≡ tree_at w r
  pub move_failed :
      (p q : FilePath) (w w' : World) (e : RestoreFailure)
      → Watched p
      → Watched q
      → operations.move p q w ≡ (thrown e, w')
      → (e.what ≢ []) × ((r : FilePath) → Watched r → tree_at w' r ≡ tree_at w r)
  pub remove_done :
      (p : FilePath) (w w' : World)
      → Watched p
      → operations.remove_owned_tree p w ≡ (returned tt, w')
      → tree_at w' p ≡ none
  pub remove_frame :
      (p : FilePath) (w : World) (q : FilePath)
      → Watched p
      → Watched q
      → q ≢ p
      → tree_at (operations.remove_owned_tree p w).1 q ≡ tree_at w q
  pub remove_failed :
      (p : FilePath) (w w' : World) (e : RestoreFailure)
      → Watched p
      → operations.remove_owned_tree p w ≡ (thrown e, w')
      → e.what ≢ []

-- The three paths of a plan are watched, and different.
pub record IsApart (Watched : FilePath → Type 0) (plan : RestorePlan) : Type 0 where
  pub staging : Watched plan.staging
  pub destination : Watched plan.destination
  pub previous : Watched plan.previous
  pub staging_destination : plan.staging ≢ plan.destination
  pub staging_previous : plan.staging ≢ plan.previous
  pub previous_destination : plan.previous ≢ plan.destination

-- How a step ends.
abbrev pub Ends :
    {World A : Type 0}
    → (A → Transaction World → Type 0)
    → (RestoreFailure → Transaction World → Type 0)
    → Attempt A × Transaction World
    → Type 0
Ends Q R (returned a, t) = Q a t
Ends Q R (thrown e, t) = R e t

pub >>=-Ends :
    {World A B : Type 0} (Q : A → Transaction World → Type 0)
    (R : RestoreFailure → Transaction World → Type 0) (Q' : B → Transaction World → Type 0)
    (first : Step World A) (next : A → Step World B) (t : Transaction World)
    → Ends Q R (first t)
    → ((a : A) (t' : Transaction World) → Q a t' → Ends Q' R (next a t'))
    → Ends Q' R ((first >>= next) t)
unfolding ◌>>=◌
>>=-Ends {World} {A} {B} Q R Q' first next t h k = go (first t) h
  where
    go :
        (end_ : Attempt A × Transaction World)
        → Ends Q R end_
        → Ends Q' R (elim end_.0 [ returned a ↦ next a end_.1 | thrown e ↦ (thrown e, end_.1) ])
    go (returned a, t') q = k a t' q
    go (thrown e, t') r = r

pub Ends-weaken :
    {World A : Type 0} (Q : A → Transaction World → Type 0)
    (R R' : RestoreFailure → Transaction World → Type 0) (end_ : Attempt A × Transaction World)
    → ((e : RestoreFailure) (t : Transaction World) → R e t → R' e t)
    → Ends Q R end_
    → Ends Q R' end_
Ends-weaken Q R R' (returned a, t) weaker h = h
Ends-weaken Q R R' (thrown e, t) weaker h = weaker e t h

pub call-Ends :
    {World A : Type 0} (Q : A → Transaction World → Type 0)
    (R : RestoreFailure → Transaction World → Type 0) (operation : World → Attempt A × World)
    (t : Transaction World)
    → ((a : A) (w : World) → operation t.world ≡ (returned a, w) → Q a (record t { world = w }))
    → ((e : RestoreFailure) (w : World)
        → operation t.world ≡ (thrown e, w)
        → R e (record t { world = w }))
    → Ends Q R (call operation t)
call-Ends {World} {A} Q R operation t = go (operation t.world)
  where
    go :
        (end_ : Attempt A × World)
        → ((a : A) (w : World) → end_ ≡ (returned a, w) → Q a (record t { world = w }))
        → ((e : RestoreFailure) (w : World) → end_ ≡ (thrown e, w) → R e (record t { world = w }))
        → Ends Q R (end_.0, record t { world = end_.1 })
    go (returned a, w) done failed = done a w refl
    go (thrown e, w) done failed = failed e w refl

module _ {World Tree : Type 0} (Watched : FilePath → Type 0)
    (tree_at : World → FilePath → Option Tree) (plan : RestorePlan) (start : World) where
  -- Nothing but the staging tree is changed.
  pub record IsUntouched (t : Transaction World) : Type 0 where
    pub not_committed : t.committed ≡ false
    pub not_moved : t.previous_moved ≡ false
    pub same : (q : FilePath) → Watched q → q ≢ plan.staging → tree_at t.world q ≡ tree_at start q

  -- What stood at the destination is out of the way, and nothing is there.
  pub record IsAside (t : Transaction World) : Type 0 where
    pub not_committed : t.committed ≡ false
    pub moved : t.previous_moved ≡ true
    pub replaced : plan.existing_destination ≡ ExistingDestinationPolicy.replace
    pub destination : tree_at t.world plan.destination ≡ none
    pub previous : tree_at t.world plan.previous ≡ tree_at start plan.destination
    pub same :
        (q : FilePath)
        → Watched q
        → q ≢ plan.staging
        → q ≢ plan.destination
        → q ≢ plan.previous
        → tree_at t.world q ≡ tree_at start q
