-- ===== src/Backup/RunPlan.antt =====
-- src/backup/model/BackupRunPlan.hpp and .cpp: the plan of a run, source by source.
pub mod SourcePlan
pub mod Names
pub mod Order
pub mod Sources
use btrfs_backup.Common.{
  Bool, true, false, not, ◌&&◌, ◌||◌, ℕ, zero, suc, eqb, if◌then◌else◌, List, [], ◌∷◌, ◌++◌, map,
  Text, text, Option, none, some, any, filter, padded, ◌==◌, list_eq, nat_eq,
}
use btrfs_backup.Core.Errors.{Result, ok, err, ◌>>=◌, ◌>>◌, throw_if, validation_error}
use btrfs_backup.Core.Time.{RuntimeTimePoint, format_utc_snapshot_timestamp}
use btrfs_backup.Config.Path.{
  FilePath, empty_path, path_text, path_empty, path_append, child, path_eq,
}
use btrfs_backup.Config.Validation.{path_is_within}
use btrfs_backup.Config.Profile.{Profile, ProfileSource, ProfileHookCommand}
use btrfs_backup.Backup.Snapshot.{
  SourceId, RunId, ProfileId, SnapshotSide, local_side, remote_side, SnapshotInfo, SnapshotName,
  SnapshotMetadata, parse_snapshot_name,
}
use btrfs_backup.Backup.Parent.{
  IncrementalParentSelection, full_transfer, incremental_transfer, select_incremental_parent,
}
use btrfs_backup.Backup.Retention.{RetentionPlan, plan_count_retention}
use btrfs_backup.Backup.Recovery.{
  PendingMarker, PendingRecoveryPlan, required, local_deletion, remote_deletion,
  plan_pending_recovery,
}
use btrfs_backup.Backup.Actions.{
  BackupRunAction, BackupRunActionKind, HookPhase, before_snapshot, after_snapshot,
  before_snapshot_hook, after_snapshot_hook, same_kind, backup_run_action_kind,
  backup_run_action_source_id, recover, cleanup_incoming_of, run_hook, create, send, verify, commit,
  retain_remote, retain_local, cleanup,
}

-- A `std::map` from sources.
abbrev pub BySource {ℓ} : Type ℓ → Type ℓ
BySource A = List (SourceId × A)

unfoldable pub find_source {ℓ} : {A : Type ℓ} → BySource A → SourceId → Option A
find_source [] source_id = none
find_source ((key, value) ∷ rest) source_id =
    if key == source_id then some value else find_source rest source_id

-- `find(...) == end() ? otherwise : found->second`.
unfoldable pub value_or {ℓ} : {A : Type ℓ} → Option A → A → A
value_or none otherwise = otherwise
value_or (some value) otherwise = value

unfoldable pub snapshots_for : BySource (List SnapshotInfo) → SourceId → List SnapshotInfo
unfolding find_source value_or
snapshots_for inventories source_id = value_or (find_source inventories source_id) []

unfoldable pub pending_marker_for :
    BySource (Option PendingMarker) → SourceId → Option PendingMarker
unfolding find_source value_or
pending_marker_for markers source_id = value_or (find_source markers source_id) none

unfoldable pub pending_snapshot_for :
    BySource (Option SnapshotMetadata) → SourceId → Option SnapshotMetadata
unfolding find_source value_or
pending_snapshot_for snapshots source_id = value_or (find_source snapshots source_id) none

unfoldable pub name_exists : List SnapshotInfo → Text → Bool
name_exists snapshots name = any (λ snapshot. snapshot.name == name) snapshots

unfoldable pub base_name : SourceId → RuntimeTimePoint → Text
base_name source_id timestamp = source_id ++ (text "-" ++ format_utc_snapshot_timestamp timestamp)

unfoldable pub sequence_name : Text → ℕ → Text
sequence_name base sequence = base ++ b'-' ∷ padded 2 sequence

-- The loop over the sequence numbers, with the rounds that are left.
unfoldable pub first_free : Text → List SnapshotInfo → ℕ → ℕ → Option Text
first_free base local_snapshots zero sequence = none
first_free base local_snapshots (suc left) sequence =
    let candidate = sequence_name base sequence in
    let rest = first_free base local_snapshots left (suc sequence) in
    if not (name_exists local_snapshots candidate) then some candidate else rest

unfoldable pub named_or_error : SourceId → RuntimeTimePoint → Option Text → Result Text
named_or_error source_id timestamp (some name) = ok name
named_or_error source_id timestamp none = err (
    validation_error (
      text "could not allocate snapshot name for "
      ++ source_id
      ++ text " at "
      ++ format_utc_snapshot_timestamp timestamp))

unfoldable pub planned_snapshot_name : SourceId → RuntimeTimePoint → List SnapshotInfo → Result Text
planned_snapshot_name source_id timestamp local_snapshots =
    let base = base_name source_id timestamp in
    if not (name_exists local_snapshots base)
    then ok base
    else named_or_error source_id timestamp (first_free base local_snapshots 99 1)

unfoldable pub projected_info :
    SnapshotSide
    → SourceId
    → Text
    → RuntimeTimePoint
    → FilePath
    → Option SnapshotName
    → Result SnapshotInfo
projected_info side source_id name timestamp path none =
    err (validation_error (text "planned snapshot name is invalid: " ++ name))
projected_info side source_id name timestamp path (some parsed) = ok (record {
  side = side;
  source_id = source_id;
  name = name;
  timestamp = timestamp;
  sequence = parsed.sequence;
  path = path;
  readonly = true;
  uuid = record { value = [] };
  received_uuid = record { value = [] };
})

unfoldable pub projected_snapshot :
    SnapshotSide → SourceId → Text → RuntimeTimePoint → FilePath → Result SnapshotInfo
projected_snapshot side source_id name timestamp path =
    projected_info side source_id name timestamp path (parse_snapshot_name name source_id)

pub record BackupSourceRunPlan : Type 0 where
  pub source_id : SourceId
  pub actions : List BackupRunAction

unfoldable pub is_hook : BackupRunActionKind → Bool
is_hook before_snapshot_hook = true
is_hook after_snapshot_hook = true
is_hook _ = false

-- The loop of the constructor, with the kinds seen so far.
unfoldable pub check_actions :
    SourceId → List BackupRunActionKind → List BackupRunAction → Result (Unit {0})
check_actions source_id singleton_actions [] = ok tt
check_actions source_id singleton_actions (action ∷ rest) =
    let kind = backup_run_action_kind action in
    let after_hook = check_actions source_id singleton_actions rest in
    let after_new = check_actions source_id (kind ∷ singleton_actions) rest in
    if not (backup_run_action_source_id action == source_id)
    then err
        (validation_error (text "backup source plan contains an action for a different source"))
    else if is_hook kind
    then after_hook
    else if any (same_kind kind) singleton_actions
    then err (validation_error (text "backup source plan contains a duplicate action kind"))
    else after_new

unfoldable pub make_source_run_plan : SourceId → List BackupRunAction → Result BackupSourceRunPlan
make_source_run_plan source_id actions = do
  check_actions source_id [] actions
  ok (record { source_id = source_id; actions = actions })

pub record BackupRunPlan : Type 0 where
  pub profile_id : ProfileId
  pub run_id : RunId
  pub target_mount_point : FilePath
  pub sources : List BackupSourceRunPlan
