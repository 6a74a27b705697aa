-- ===== src/Backup/Execution/Calls.antt =====
-- What the run executor reaches through its interfaces: IBackupRunEventSink, CancellationToken,
-- IBackupActionExecutor and IBackupRunCheckpointStore (src/backup/ports and src/core). They are
-- parameters over a world of their own; a part of the executor is a function of the world that
-- gives the calls it made, in order, a result or the exception thrown, and the world after it.
use btrfs_backup.Common.{Bool, ℕ, List, [], ◌∷◌, ◌++◌}
use btrfs_backup.Core.Errors.{Error, Result, ok, err}
use btrfs_backup.Backup.Snapshot.{SourceId, RunId, ProfileId}
use btrfs_backup.Backup.Actions.{BackupRunActionKind, BackupRunAction}
use btrfs_backup.Backup.RunPlan.{BackupSourceRunPlan, BackupRunPlan}
use btrfs_backup.Backup.Events.{BackupRunEvent}

pub record BackupRunCheckpoint : Type 0 where
  pub profile_id : ProfileId
  pub run_id : RunId
  pub source_id : SourceId
  pub action_kind : BackupRunActionKind

-- The context of one action, less the two objects that the world stands for.
pub record BackupActionExecutionContext : Type 0 where
  pub plan : BackupRunPlan
  pub source : BackupSourceRunPlan
  pub source_index : ℕ
  pub completed_run_bytes : ℕ

pub record BackupActionExecutionResult : Type 0 where
  pub cancelled : Bool
  pub bytes_transferred : ℕ

pub record RunPorts (World : Type 0) : Type 0 where
  pub cancellation_requested : World → Result Bool × World
  pub execute :
      BackupRunAction
      → BackupActionExecutionContext
      → World
      → Result BackupActionExecutionResult × World
  pub write_checkpoint : BackupRunCheckpoint → World → Result (Unit {0}) × World
  pub on_backup_run_event : BackupRunEvent → World → Result (Unit {0}) × World

pub data Call : Type 0 where
  polled : Call
  announced : BackupRunEvent → Call
  executed : BackupRunAction → Call
  checkpointed : BackupRunCheckpoint → Call

pub record Ran (World A : Type 0) : Type 0 where
  pub calls : List Call
  pub result : Result A
  pub world : World

abbrev pub Run : Type 0 → Type 0 → Type 0
Run World A = World → Ran World A

module _ {World : Type 0} where
  abbrev pub made : {A : Type 0} → Call → (World → Result A × World) → Run World A
  made call port w = record { calls = call ∷ []; result = (port w).0; world = (port w).1 }

  abbrev pub give : {A : Type 0} → Result A → Run World A
  give r w = record { calls = []; result = r; world = w }

  abbrev pub following :
      {A B : Type 0} → List Call → Result A → World → (A → Run World B) → Ran World B
  following calls (ok a) w k = record {
    calls = calls ++ (k a w).calls;
    result = (k a w).result;
    world = (k a w).world;
  }
  following calls (err e) w k = record { calls = calls; result = err e; world = w }

  infixl 5 ◌>>=◌ ◌>>◌
  abbrev pub ◌>>=◌ : {A B : Type 0} → Run World A → (A → Run World B) → Run World B
  (m >>= k) w = following (m w).calls (m w).result (m w).world k

  abbrev pub ◌>>◌ : {A B : Type 0} → Run World A → Run World B → Run World B
  m >> k = m >>= λ _. k

  abbrev pub handling :
      {A : Type 0} → List Call → Result A → World → (Error → Run World A) → Ran World A
  handling calls (ok a) w handler = record { calls = calls; result = ok a; world = w }
  handling calls (err e) w handler = record {
    calls = calls ++ (handler e w).calls;
    result = (handler e w).result;
    world = (handler e w).world;
  }

  -- `try { body } catch ...`.
  abbrev pub try_catch : {A : Type 0} → Run World A → (Error → Run World A) → Run World A
  try_catch body handler w = handling (body w).calls (body w).result (body w).world handler
