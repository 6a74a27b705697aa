-- ===== src/Tests/Samples.antt =====
-- Sample data for the runs of the other files.
use btrfs_backup.Common.{Bool, true, false, ℕ, List, [], ◌∷◌, Text, ◌≡◌, refl}
use btrfs_backup.Core.Errors.{Error, Result, ok, err}
use btrfs_backup.Config.Path.{FilePath}
use btrfs_backup.Config.Profile.{ask_password, ProfileHookCommand, ProfileSource, Profile}
use btrfs_backup.Backup.Snapshot.{local_side, remote_side, SnapshotInfo}
use btrfs_backup.Backup.RunPlan.SourcePlan.{SourcePlanContext}

abbrev pub home : Text
home = b'h' ∷ []

abbrev pub at : List Text → FilePath
at names = record { absolute = true; names = names }

abbrev pub local_dir : FilePath
local_dir = at ((b'l' ∷ []) ∷ [])

abbrev pub remote_dir : FilePath
remote_dir = at ((b'r' ∷ []) ∷ [])

-- A local snapshot with the given time stamp, which is also its UUID.
abbrev pub local_at : ℕ → SnapshotInfo
local_at time = record {
  side = local_side;
  source_id = home;
  name = b'h' ∷ time ∷ [];
  timestamp = time;
  sequence = 0;
  path = at ((b'l' ∷ []) ∷ (b'h' ∷ time ∷ []) ∷ []);
  readonly = true;
  uuid = record { value = time ∷ [] };
  received_uuid = record { value = [] };
}

-- The snapshot of the target that was received from it.
abbrev pub remote_at : ℕ → SnapshotInfo
remote_at time = record {
  side = remote_side;
  source_id = home;
  name = b'h' ∷ time ∷ [];
  timestamp = time;
  sequence = 0;
  path = at ((b'r' ∷ []) ∷ (b'h' ∷ time ∷ []) ∷ []);
  readonly = true;
  uuid = record { value = 7 ∷ time ∷ [] };
  received_uuid = record { value = time ∷ [] };
}

abbrev pub hook : ProfileHookCommand
hook = record { program = at ((b'x' ∷ []) ∷ []); arguments = []; timeout = 10 }

abbrev pub home_source : ProfileSource
home_source = record {
  id = home;
  name = home;
  enabled = true;
  subvolume = at (home ∷ []);
  local_snapshot_dir = local_dir;
  remote_subdir = record { absolute = false; names = (b's' ∷ []) ∷ [] };
  remote_retention = 2;
  local_retention = 1;
}

abbrev pub profile : Profile
profile = record {
  configuration_generation = [];
  id = b'p' ∷ [];
  name = b'p' ∷ [];
  enabled = true;
  target = record {
    device = at ((b'd' ∷ []) ∷ []);
    luks_uuid = [];
    btrfs_uuid = [];
    partition_uuid = [];
    serial = [];
    mapper_name = [];
    mount_point = at ((b'm' ∷ []) ∷ []);
    activation = ask_password;
  };
  paths = record {
    remote_root = at ((b'm' ∷ []) ∷ (b'r' ∷ []) ∷ []);
    incoming_root = at ((b'm' ∷ []) ∷ (b'i' ∷ []) ∷ []);
  };
  settings = record {
    daily_limit = false;
    incremental_required = false;
    keep_failed_local_snapshot = false;
    auto_eject = false;
    remote_retention = 2;
    local_retention = 1;
    minimum_target_free_bytes = 0;
    minimum_local_free_bytes = 0;
  };
  hooks = record { before_snapshot = hook ∷ []; after_snapshot = [] };
  sources = home_source ∷ [];
}

abbrev pub context : SourcePlanContext
context = record {
  profile = profile;
  local_inventory = (home, local_at 5 ∷ local_at 3 ∷ []) ∷ [];
  remote_inventory = (home, remote_at 3 ∷ remote_at 5 ∷ []) ∷ [];
  pending_markers = [];
  pending_snapshots = [];
  profile_state_dir = at ((b'v' ∷ []) ∷ []);
  run_id = b'1' ∷ [];
  snapshot_timestamp = 1000000000;
}

abbrev pub is_ok {ℓ} : {A : Type ℓ} → Result A → Bool
is_ok (ok a) = true
is_ok (err e) = false

-- The value of a result that succeeds.
pub value_of {ℓ} : {A : Type ℓ} (r : Result A) → is_ok r ≡ true → (a : A) × (r ≡ ok a)
value_of (ok a) h = (a, refl)
value_of (err e) h = cc

pub error_of {ℓ} : {A : Type ℓ} (r : Result A) → is_ok r ≡ false → (e : Error) × (r ≡ err e)
error_of (err e) h = (e, refl)
error_of (ok a) h = cc
