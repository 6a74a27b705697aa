-- ===== src/Restore/Failure.antt =====
-- src/restore/RestoreError.hpp: the exceptions of a restore, and code that throws them.
use btrfs_backup.Common.{Option, some, Text}

pub data RestoreErrorCode : Type 0 where
  repository_not_found : RestoreErrorCode
  repository_metadata_invalid : RestoreErrorCode
  repository_format_unsupported : RestoreErrorCode
  catalog_invalid : RestoreErrorCode
  snapshot_not_found : RestoreErrorCode
  snapshot_identity_mismatch : RestoreErrorCode
  path_invalid : RestoreErrorCode
  path_traversal : RestoreErrorCode
  symlink_rejected : RestoreErrorCode
  mount_boundary_rejected : RestoreErrorCode
  destination_exists : RestoreErrorCode
  destination_unsafe : RestoreErrorCode
  insufficient_space : RestoreErrorCode
  cancelled : RestoreErrorCode
  copy_failed : RestoreErrorCode
  verification_failed : RestoreErrorCode
  cleanup_incomplete : RestoreErrorCode
  rollback_incomplete : RestoreErrorCode

-- An exception: `code` is there for a `RestoreError`.
pub record RestoreFailure : Type 0 where
  pub code : Option RestoreErrorCode
  pub what : Text

abbrev pub restore_error : RestoreErrorCode → Text → RestoreFailure
restore_error code message = record { code = some code; what = message }

-- What a function gives that may throw.
pub data Attempt (A : Type 0) : Type 0 where
  thrown : RestoreFailure → Attempt A
  returned : A → Attempt A
