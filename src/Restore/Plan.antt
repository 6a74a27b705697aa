-- ===== src/Restore/Plan.antt =====
-- src/restore/RestorePlan.hpp and .cpp: the plan of a restore.
use btrfs_backup.Common.{Bool, Text}
use btrfs_backup.Config.Path.{FilePath}

pub data RestoreKind : Type 0 where
  files : RestoreKind
  subvolume : RestoreKind
  drill : RestoreKind

pub data ExistingDestinationPolicy : Type 0 where
  fail : ExistingDestinationPolicy
  replace : ExistingDestinationPolicy

pub record RestorePlan : Type 0 where
  pub transaction_id : Text
  pub snapshot_id : Text
  pub snapshot_uuid : Text
  pub source : FilePath
  pub destination : FilePath
  pub staging : FilePath
  pub previous : FilePath
  pub kind : RestoreKind
  pub existing_destination : ExistingDestinationPolicy
  pub destination_exists : Bool
