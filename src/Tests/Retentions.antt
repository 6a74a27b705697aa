-- ===== src/Tests/Retentions.antt =====
-- Retention plans of a sample inventory.
use btrfs_backup.Common.{
  true, false, ◌≤◌, List, [], ◌∷◌, ◌++◌, ◌≡◌, refl, inl, inr, ◌⊎◌, Perm, length, filter, eqb,
  if◌then◌else◌, In, ◌==◌, list_eq, nat_eq,
}
use btrfs_backup.Backup.Snapshot.{SnapshotInfo}
use btrfs_backup.Backup.Retention.{oldest_first, matching_snapshots, plan_count_retention}
use btrfs_backup.Backup.Retention.Bounds.{
  plan_count_retention-perm, plan_count_retention_counts, plan_count_retention_oldest,
  plan_count_retention_newest,
}
use btrfs_backup.Tests.Samples.{home, local_at}

abbrev inventory : List SnapshotInfo
inventory = local_at 9 ∷ local_at 3 ∷ local_at 5 ∷ []

deleted_two : plan_count_retention home inventory 1 ≡ record {
  source_id = home;
  keep_count = 1;
  keep = local_at 9 ∷ [];
  delete_snapshots = local_at 3 ∷ local_at 5 ∷ [];
}
unfolding plan_count_retention btrfs_backup.Backup.Retention.split_matching matching_snapshots
    btrfs_backup.Common.sort filter btrfs_backup.Common.list_beq oldest_first
deleted_two = refl

plan_count_retention-perm_example :
    Perm
      ((plan_count_retention home inventory 1).delete_snapshots
        ++ (plan_count_retention home inventory 1).keep)
      (filter (λ s. s.source_id == home) inventory)
plan_count_retention-perm_example = plan_count_retention-perm home inventory 1

plan_count_retention_counts_example : length (plan_count_retention home inventory 1).keep ≡ 1
unfolding filter btrfs_backup.Common.list_beq
plan_count_retention_counts_example = plan_count_retention_counts home inventory 1

plan_count_retention_oldest_example : (oldest_first (local_at 9) (local_at 3) ≡ false) × (3 ≤ 9)
unfolding plan_count_retention btrfs_backup.Backup.Retention.split_matching matching_snapshots
    btrfs_backup.Common.sort filter btrfs_backup.Common.list_beq oldest_first
plan_count_retention_oldest_example =
    plan_count_retention_oldest home inventory 1 (local_at 3) (local_at 9) (inl refl) (inl refl)

newest_there :
    (o : SnapshotInfo)
    → In o inventory
    → o.source_id ≡ home
    → (o ≡ local_at 9) ⊎ (oldest_first o (local_at 9) ≡ true)
unfolding oldest_first
newest_there o (inl e) s = inl e
newest_there o (inr (inl e)) s = inr (rw e refl)
newest_there o (inr (inr (inl e))) s = inr (rw e refl)
newest_there o (inr (inr (inr m))) s = elim m [ ]

plan_count_retention_newest_example : In (local_at 9) (plan_count_retention home inventory 1).keep
plan_count_retention_newest_example =
    plan_count_retention_newest home inventory 1 (local_at 9) (inl refl) refl newest_there
