-- ===== src/Backup/Snapshot/Order.antt =====
-- The comparator of src/backup/model/SnapshotInventory.cpp is one that `std::sort` accepts.
use btrfs_backup.Common.{arith, IsStrictWeak, text_lt_asymm, text_lt_trans}
use btrfs_backup.Config.Path.{path_text}
use btrfs_backup.Backup.Snapshot.{metadata_sort_key_less}

pub metadata_sort_key_less-IsStrictWeak : IsStrictWeak metadata_sort_key_less
unfolding metadata_sort_key_less
metadata_sort_key_less-IsStrictWeak = record {
  asymm = λ a b h. ground (arith, text_lt_asymm (path_text a.path) (path_text b.path));
  trans = λ a b c h k.
      ground (arith, text_lt_trans (path_text a.path) (path_text b.path) (path_text c.path));
}
