-- ===== src/Config/Profile.antt =====
-- src/config/domain/Profile.hpp: the profile of a backup. Paths are those that the checks of
-- Validation.antt let through, and UUIDs and identifiers are texts.
use btrfs_backup.Common.{Bool, ℕ, List, Text}
use btrfs_backup.Config.Path.{FilePath}

pub data TargetActivation : Type 0 where
  ask_password : TargetActivation
  key_file : FilePath → TargetActivation

pub record ProfileTarget : Type 0 where
  pub device : FilePath
  pub luks_uuid : Text
  pub btrfs_uuid : Text
  pub partition_uuid : Text
  pub serial : Text
  pub mapper_name : Text
  pub mount_point : FilePath
  pub activation : TargetActivation

pub record ProfilePaths : Type 0 where
  pub remote_root : FilePath
  pub incoming_root : FilePath

pub record ProfileSettings : Type 0 where
  pub daily_limit : Bool
  pub incremental_required : Bool
  pub keep_failed_local_snapshot : Bool
  pub auto_eject : Bool
  pub remote_retention : ℕ
  pub local_retention : ℕ
  pub minimum_target_free_bytes : ℕ
  pub minimum_local_free_bytes : ℕ

-- The time-out is in seconds.
pub record ProfileHookCommand : Type 0 where
  pub program : FilePath
  pub arguments : List Text
  pub timeout : ℕ

pub record ProfileHooks : Type 0 where
  pub before_snapshot : List ProfileHookCommand
  pub after_snapshot : List ProfileHookCommand

pub record ProfileSource : Type 0 where
  pub id : Text
  pub name : Text
  pub enabled : Bool
  pub subvolume : FilePath
  pub local_snapshot_dir : FilePath
  pub remote_subdir : FilePath
  pub remote_retention : ℕ
  pub local_retention : ℕ

pub record Profile : Type 0 where
  pub configuration_generation : Text
  pub id : Text
  pub name : Text
  pub enabled : Bool
  pub target : ProfileTarget
  pub paths : ProfilePaths
  pub settings : ProfileSettings
  pub hooks : ProfileHooks
  pub sources : List ProfileSource
