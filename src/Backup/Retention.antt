-- ===== src/Backup/Retention.antt =====
-- src/backup/model/RetentionPlan.cpp: which snapshots a retention count keeps.
pub mod Bounds
use btrfs_backup.Common.{
  Bool, not, ◌||◌, ℕ, ◌-◌, eqb, leb, ltb, if◌then◌else◌, List, [], Text, text_lt, length, take,
  drop, filter, sort, ◌==◌, list_eq, nat_eq,
}
use btrfs_backup.Config.Path.{path_text}
use btrfs_backup.Backup.Snapshot.{SourceId, SnapshotInfo}

pub record RetentionPlan : Type 0 where
  pub source_id : SourceId
  pub keep_count : ℕ
  pub keep : List SnapshotInfo
  pub delete_snapshots : List SnapshotInfo

unfoldable pub oldest_first : SnapshotInfo → SnapshotInfo → Bool
oldest_first left right =
    if not (eqb left.timestamp right.timestamp)
    then ltb left.timestamp right.timestamp
    else if not (eqb left.sequence right.sequence)
    then ltb left.sequence right.sequence
    else text_lt (path_text left.path) (path_text right.path)

-- The snapshots of the source, oldest first.
unfoldable pub matching_snapshots : SourceId → List SnapshotInfo → List SnapshotInfo
matching_snapshots source_id snapshots =
    sort oldest_first (filter (λ snapshot. snapshot.source_id == source_id) snapshots)

unfoldable pub split_matching : SourceId → ℕ → List SnapshotInfo → RetentionPlan
split_matching source_id keep_count matching =
    let delete_count = length matching - keep_count in
    if eqb keep_count 0 || leb (length matching) keep_count
    then record {
      source_id = source_id;
      keep_count = keep_count;
      keep = matching;
      delete_snapshots = [];
    }
    else record {
      source_id = source_id;
      keep_count = keep_count;
      keep = drop delete_count matching;
      delete_snapshots = take delete_count matching;
    }

unfoldable pub plan_count_retention : SourceId → List SnapshotInfo → ℕ → RetentionPlan
plan_count_retention source_id snapshots keep_count =
    split_matching source_id keep_count (matching_snapshots source_id snapshots)
