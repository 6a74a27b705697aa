-- ===== src/Tests/Parents.antt =====
-- Incremental parents of sample inventories.
use btrfs_backup.Common.{
  true, false, ◌≤◌, ◌&&◌, List, [], ◌∷◌, none, ◌≡◌, refl, inl, inr, ◌⊎◌, any, ◌==◌, list_eq, nat_eq,
  list_beq, filter, sort, find,
}
use btrfs_backup.Config.Path.{path_eq}
use btrfs_backup.Core.Errors.{Error, ok, err}
use btrfs_backup.Backup.Snapshot.{SnapshotInfo, uuid_matches}
use btrfs_backup.Backup.Parent.{
  incremental_transfer, full_transfer, newest_first, select_incremental_parent, is_current,
}
use btrfs_backup.Backup.Parent.Pairs.{IsParentPair}
use btrfs_backup.Backup.Parent.Ambiguity.{IsAmbiguous}
use btrfs_backup.Backup.Parent.Answers.{
  select_incremental_parent-IsParentPair, select_incremental_parent_newest,
  select_incremental_parent_full, select_incremental_parent_error,
}
use btrfs_backup.Tests.Samples.{home, local_at, remote_at, error_of}

abbrev locals : List SnapshotInfo
locals = local_at 3 ∷ local_at 5 ∷ local_at 9 ∷ []

abbrev remotes : List SnapshotInfo
remotes = remote_at 5 ∷ remote_at 3 ∷ []

newest_common :
    select_incremental_parent home locals remotes none true
    ≡ ok (incremental_transfer (local_at 5) (remote_at 5))
unfolding select_incremental_parent btrfs_backup.Backup.Parent.index_remotes
    btrfs_backup.Backup.Parent.index_remote list_beq btrfs_backup.Backup.Parent.insert_remote find
    btrfs_backup.Backup.Parent.is_entry_of btrfs_backup.Backup.Parent.selection_of
    btrfs_backup.Backup.Parent.choose_parent sort filter btrfs_backup.Backup.Parent.is_candidate
    newest_first btrfs_backup.Backup.Parent.matching_remote uuid_matches
newest_common = refl

nothing_common :
    select_incremental_parent home (local_at 9 ∷ []) remotes none false ≡ ok full_transfer
unfolding select_incremental_parent btrfs_backup.Backup.Parent.index_remotes
    btrfs_backup.Backup.Parent.index_remote list_beq btrfs_backup.Backup.Parent.insert_remote find
    btrfs_backup.Backup.Parent.is_entry_of btrfs_backup.Backup.Parent.selection_of
    btrfs_backup.Backup.Parent.choose_parent sort filter btrfs_backup.Backup.Parent.is_candidate
    btrfs_backup.Backup.Parent.matching_remote uuid_matches
nothing_common = refl

refused : (e : Error) × (select_incremental_parent home [] remotes none true ≡ err e)
unfolding select_incremental_parent btrfs_backup.Backup.Parent.index_remotes
    btrfs_backup.Backup.Parent.index_remote list_beq btrfs_backup.Backup.Parent.insert_remote find
    btrfs_backup.Backup.Parent.is_entry_of btrfs_backup.Backup.Parent.selection_of
    btrfs_backup.Backup.Parent.choose_parent sort filter
refused = error_of (select_incremental_parent home [] remotes none true) refl

select_incremental_parent-IsParentPair_example :
    IsParentPair home locals remotes none (local_at 5) (remote_at 5)
select_incremental_parent-IsParentPair_example =
    select_incremental_parent-IsParentPair home locals remotes none true (local_at 5) (remote_at 5)
      newest_common

older_pair : IsParentPair home locals remotes none (local_at 3) (remote_at 3)
unfolding is_current uuid_matches list_beq
older_pair = record {
  local_in = inl refl;
  local_source = refl;
  local_readonly = refl;
  local_earlier = refl;
  remote_in = inr (inl refl);
  remote_source = refl;
  remote_readonly = refl;
  same_contents = refl;
}

select_incremental_parent_newest_example :
    (newest_first (local_at 3) (local_at 5) ≡ false) × (3 ≤ 5)
select_incremental_parent_newest_example =
    select_incremental_parent_newest home locals remotes none true (local_at 5) (remote_at 5)
      (local_at 3) (remote_at 3) newest_common older_pair

select_incremental_parent_full_example :
    ((l r : SnapshotInfo) → ¬ IsParentPair home (local_at 9 ∷ []) remotes none l r)
    × ((false && any (λ r. r.source_id == home) remotes) ≡ false)
select_incremental_parent_full_example =
    select_incremental_parent_full home (local_at 9 ∷ []) remotes none false nothing_common

select_incremental_parent_error_example :
    IsAmbiguous home remotes
    ⊎ ((l r : SnapshotInfo) → ¬ IsParentPair home [] remotes none l r)
      × (true ≡ true)
      × (any (λ r. r.source_id == home) remotes ≡ true)
select_incremental_parent_error_example =
    select_incremental_parent_error home [] remotes none true refused.0 refused.1
