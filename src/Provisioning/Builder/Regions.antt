-- ===== src/Provisioning/Builder/Regions.antt =====
-- The layout of a device before and after a preparation, as
-- src/provisioning/DevicePreparationPlanBuilder.cpp predicts it.
use btrfs_backup.Common.{
  Bool, true, false, ℕ, ◌+◌, ◌-◌, ◌/◌, if◌then◌else◌, eqb, ltb, map, List, [], ◌∷◌, ◌++◌, Text,
  text, none, some, ◌==◌, list_eq, nat_eq,
}
use btrfs_backup.Backup.RunPlan.{value_or}
use btrfs_backup.Provisioning.Topology.{
  UnallocatedRegion, StorageRegion, partition, unallocated, StorageDevice,
}
use btrfs_backup.Provisioning.Plan.{
  PredictedRegionKind, predicted_partition, predicted_free, backup_partition,
  PredictedStorageRegion, StorageLayout, PlannedPartitionGeometry,
}

unfoldable pub predicted_region : StorageRegion → PredictedStorageRegion
unfolding value_or
predicted_region (partition p) = record {
  id = p.candidate_id;
  kind = predicted_partition;
  start_sector = p.start_sector;
  sector_count = p.sector_count;
  partition_number = some p.partition_number;
  display_path = p.identity.display_path;
  partition_label = value_or p.partition_label [];
  filesystem_type = p.filesystem.type_;
  geometry_exact = true;
  encrypted = false;
  changed = false;
  data_will_be_erased = false;
}
predicted_region (unallocated r) = record {
  id = r.id;
  kind = predicted_free;
  start_sector = r.start_sector;
  sector_count = r.sector_count;
  partition_number = none;
  display_path = [];
  partition_label = [];
  filesystem_type = [];
  geometry_exact = true;
  encrypted = false;
  changed = false;
  data_will_be_erased = false;
}

unfoldable pub current_layout : StorageDevice → StorageLayout
unfolding predicted_region
current_layout device = record {
  device_id = device.candidate_id;
  size_bytes = device.size_bytes;
  logical_sector_size = device.logical_sector_size;
  partition_table_type = device.partition_table.type_;
  regions = map predicted_region device.regions;
}

-- The region of the backup partition.
unfoldable pub target_region : PlannedPartitionGeometry → PredictedStorageRegion
target_region geometry = record {
  id = text "planned-backup-partition";
  kind = backup_partition;
  start_sector = geometry.start_sector;
  sector_count = geometry.sector_count;
  partition_number = some geometry.partition_number;
  display_path = [];
  partition_label = text "btrfs-backup";
  filesystem_type = text "btrfs";
  geometry_exact = true;
  encrypted = true;
  changed = true;
  data_will_be_erased = false;
}

unfoldable pub is_partition_kind : PredictedRegionKind → Bool
is_partition_kind predicted_partition = true
is_partition_kind _ = false

unfoldable pub erased_region : PredictedStorageRegion → PredictedStorageRegion
unfolding is_partition_kind
erased_region region = record region { data_will_be_erased = is_partition_kind region.kind }

unfoldable pub whole_device_sectors : StorageDevice → ℕ
whole_device_sectors device =
    if eqb device.logical_sector_size 0 then 0 else device.size_bytes / device.logical_sector_size

-- Changes the first region with an identifier, which the regions of a device have.
unfoldable pub change_first :
    (PredictedStorageRegion → PredictedStorageRegion)
    → Text
    → List PredictedStorageRegion
    → List PredictedStorageRegion
change_first change id [] = []
change_first change id (region ∷ regions) =
    if region.id == id then change region ∷ regions else region ∷ change_first change id regions

abbrev pub to_be_erased : PredictedStorageRegion → PredictedStorageRegion
to_be_erased region = record region { data_will_be_erased = true }

unfoldable pub reformatted : PredictedStorageRegion → PredictedStorageRegion
reformatted region = record region {
  kind = backup_partition;
  filesystem_type = text "btrfs";
  partition_label = text "btrfs-backup";
  encrypted = true;
  changed = true;
}

unfoldable pub free_part : Text → ℕ → ℕ → PredictedStorageRegion
free_part id start_sector sector_count = record {
  id = id;
  kind = predicted_free;
  start_sector = start_sector;
  sector_count = sector_count;
  partition_number = none;
  display_path = [];
  partition_label = [];
  filesystem_type = [];
  geometry_exact = true;
  encrypted = false;
  changed = false;
  data_will_be_erased = false;
}

unfoldable pub leading_free :
    UnallocatedRegion → PlannedPartitionGeometry → List PredictedStorageRegion
unfolding free_part
leading_free free_region geometry =
    if ltb free_region.start_sector geometry.start_sector
    then free_part (free_region.id ++ text ":before") free_region.start_sector
        (geometry.start_sector - free_region.start_sector)
      ∷ []
    else []

unfoldable pub trailing_free :
    UnallocatedRegion → PlannedPartitionGeometry → List PredictedStorageRegion
unfolding free_part
trailing_free free_region geometry =
    let partition_end = geometry.start_sector + geometry.sector_count in
    let free_end = free_region.start_sector + free_region.sector_count in
    if ltb partition_end free_end
    then free_part (free_region.id ++ text ":after") partition_end (free_end - partition_end) ∷ []
    else []

-- What takes the place of the free region.
unfoldable pub replacements :
    UnallocatedRegion → PlannedPartitionGeometry → List PredictedStorageRegion
unfolding leading_free target_region trailing_free
replacements free_region geometry =
    leading_free free_region geometry
    ++ (target_region geometry ∷ trailing_free free_region geometry)

-- `erase` of the first region with an identifier and `insert` at its place.
unfoldable pub replace_first :
    List PredictedStorageRegion → Text → List PredictedStorageRegion → List PredictedStorageRegion
replace_first new id [] = []
replace_first new id (region ∷ regions) =
    if region.id == id then new ++ regions else region ∷ replace_first new id regions
