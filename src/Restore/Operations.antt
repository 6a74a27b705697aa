-- ===== src/Restore/Operations.antt =====
-- src/restore/RestoreOperations.hpp and core/Cancellation.hpp: what the engine calls, over a world.
-- The two sinks of the engine's caller are among it; one that is empty does nothing.
use btrfs_backup.Common.{Bool, ℕ}
use btrfs_backup.Config.Path.{FilePath}
use btrfs_backup.Restore.Failure.{Attempt}

pub record RestoreStatistics : Type 0 where
  pub files : ℕ
  pub directories : ℕ
  pub bytes : ℕ

pub data RestorePhase : Type 0 where
  checking_space : RestorePhase
  copying : RestorePhase

pub record RestoreOperations (World : Type 0) : Type 0 where
  pub exists : FilePath → World → Bool
  pub ensure_sufficient_space : FilePath → FilePath → World → Attempt (Unit {0}) × World
  pub prepare_copy_root : FilePath → FilePath → World → Attempt (Unit {0}) × World
  pub create_subvolume_root : FilePath → World → Attempt (Unit {0}) × World
  pub copy_and_verify : FilePath → FilePath → World → Attempt RestoreStatistics × World
  pub move : FilePath → FilePath → World → Attempt (Unit {0}) × World
  pub remove_owned_tree : FilePath → World → Attempt (Unit {0}) × World
  pub cancellation_requested : World → Bool
  pub phase : RestorePhase → World → Attempt (Unit {0}) × World
