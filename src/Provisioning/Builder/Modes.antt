-- ===== src/Provisioning/Builder/Modes.antt =====
-- src/provisioning/DevicePreparationPlanBuilder.cpp: the plan of each mode.
use btrfs_backup.Common.{
  not, ◌||◌, ℕ, ◌+◌, ◌-◌, eqb, ltb, leb, is_empty, map, List, [], ◌∷◌, Text, text, none, some,
  list_eq, nat_eq,
}
use btrfs_backup.Core.Errors.{Result, ok, throw_if, validation_error, ◌>>=◌, ◌>>◌}
use btrfs_backup.Provisioning.Topology.{
  table_type_beq, gpt, SafetyBlocker, ExistingPartition, UnallocatedRegion, StorageDevice,
  StorageTopology,
}
use btrfs_backup.Provisioning.Plan.{
  PlannedPartitionGeometry, backup_partition_table, erase_device_signatures,
  erase_partition_signatures, create_gpt_partition_table, create_backup_partition, format_luks2,
  open_luks_mapping, format_btrfs, verify_prepared_target, publish_profile, SafetyWarning,
  erase_whole_device, reformat_existing_partition, create_partition_in_unallocated_space,
  adopt_existing_target, DevicePreparationPlan, whole_device_scope, existing_partition_scope,
  unallocated_region_scope, adoption_scope, validate,
}
use btrfs_backup.Provisioning.Builder.Regions.{
  change_first, current_layout, erased_region, reformatted, replace_first, replacements,
  target_region, to_be_erased, whole_device_sectors,
}

abbrev pub warnings_of : List SafetyBlocker → List SafetyWarning
warnings_of [] = []
warnings_of (blocker ∷ blockers) =
    record { code = blocker.code; detail = blocker.detail } ∷ warnings_of blockers

-- The plan, where it passes its checks.
abbrev pub validated : DevicePreparationPlan → Result DevicePreparationPlan
validated plan = validate plan >> ok plan

unfoldable pub erase_whole_device_plan :
    StorageTopology → StorageDevice → Text → PlannedPartitionGeometry → Result DevicePreparationPlan
unfolding whole_device_sectors current_layout erased_region target_region whole_device_scope
erase_whole_device_plan topology device plan_id geometry = do
  throw_if
      (eqb geometry.partition_number 0
        || eqb geometry.sector_count 0
        || leb (whole_device_sectors device) geometry.start_sector
        || ltb (whole_device_sectors device - geometry.start_sector) geometry.sector_count)
      (validation_error (text "planned whole-device partition geometry is invalid"))
  scope ← whole_device_scope device.candidate_id
  validated (record {
    id = plan_id;
    topology_generation = topology.generation;
    mode = erase_whole_device;
    device_id = device.candidate_id;
    partition_id = none;
    free_region_id = none;
    inspection_id = none;
    before = record (current_layout device) {
      regions = map erased_region (current_layout device).regions;
    };
    after = record {
      device_id = device.candidate_id;
      size_bytes = device.size_bytes;
      logical_sector_size = device.logical_sector_size;
      partition_table_type = gpt;
      regions = target_region geometry ∷ [];
    };
    operations =
        backup_partition_table device.candidate_id
        ∷ erase_device_signatures device.candidate_id
        ∷ create_gpt_partition_table device.candidate_id
        ∷ create_backup_partition device.candidate_id none (some geometry)
        ∷ format_luks2 none
        ∷ open_luks_mapping
        ∷ format_btrfs
        ∷ verify_prepared_target
        ∷ publish_profile
        ∷ [];
    warnings =
        record { code = text "erase-whole-device"; detail = device.identity.display_path }
        ∷ warnings_of device.blockers;
    destructive_scope = scope;
  })

unfoldable pub reformat_partition_plan :
    StorageTopology → StorageDevice → ExistingPartition → Text → Result DevicePreparationPlan
unfolding current_layout change_first reformatted existing_partition_scope
reformat_partition_plan topology device target plan_id = do
  scope ← existing_partition_scope device.candidate_id target.candidate_id
  validated (record {
    id = plan_id;
    topology_generation = topology.generation;
    mode = reformat_existing_partition;
    device_id = device.candidate_id;
    partition_id = some target.candidate_id;
    free_region_id = none;
    inspection_id = none;
    before = record (current_layout device) {
      regions = change_first to_be_erased target.candidate_id (current_layout device).regions;
    };
    after = record (current_layout device) {
      regions = change_first reformatted target.candidate_id (current_layout device).regions;
    };
    operations =
        erase_partition_signatures target.candidate_id
        ∷ format_luks2 (some target.candidate_id)
        ∷ open_luks_mapping
        ∷ format_btrfs
        ∷ verify_prepared_target
        ∷ publish_profile
        ∷ [];
    warnings =
        record { code = text "erase-existing-partition"; detail = target.identity.display_path }
        ∷ warnings_of target.blockers;
    destructive_scope = scope;
  })

-- `std::numeric_limits<std::uint64_t>::max()`.
unfoldable pub uint64_max : ℕ
uint64_max = 18446744073709551615

-- The sums are 64-bit, and do not wrap where they are made.
unfoldable pub create_partition_in_free_space_plan :
    StorageTopology
    → StorageDevice
    → UnallocatedRegion
    → Text
    → PlannedPartitionGeometry
    → Result DevicePreparationPlan
unfolding current_layout replacements replace_first unallocated_region_scope table_type_beq
create_partition_in_free_space_plan topology device free_region plan_id geometry = do
  throw_if (not (table_type_beq device.partition_table.type_ gpt))
      (validation_error (text "creating a backup partition requires GPT"))
  throw_if
      (not free_region.suitable_for_backup_partition
        || not (is_empty free_region.blockers)
        || eqb free_region.sector_count 0)
      (validation_error (text "unallocated region is not suitable for a backup partition"))
  throw_if
      (eqb geometry.sector_count 0
        || eqb geometry.partition_number 0
        || ltb (uint64_max - free_region.sector_count) free_region.start_sector
        || ltb (uint64_max - geometry.sector_count) geometry.start_sector)
      (validation_error (text "planned partition geometry is invalid"))
  throw_if
      (ltb geometry.start_sector free_region.start_sector
        || ltb (free_region.start_sector + free_region.sector_count)
            (geometry.start_sector + geometry.sector_count))
      (validation_error (text "planned partition geometry exceeds the selected free region"))
  scope ← unallocated_region_scope device.candidate_id free_region.id
  validated (record {
    id = plan_id;
    topology_generation = topology.generation;
    mode = create_partition_in_unallocated_space;
    device_id = device.candidate_id;
    partition_id = none;
    free_region_id = some free_region.id;
    inspection_id = none;
    before = current_layout device;
    after = record (current_layout device) {
      regions =
          replace_first (replacements free_region geometry) free_region.id
            (current_layout device).regions;
    };
    operations =
        backup_partition_table device.candidate_id
        ∷ create_backup_partition device.candidate_id (some free_region.id) (some geometry)
        ∷ format_luks2 none
        ∷ open_luks_mapping
        ∷ format_btrfs
        ∷ verify_prepared_target
        ∷ publish_profile
        ∷ [];
    warnings =
        record {
          code = text "create-partition-in-unallocated-space";
          detail = device.identity.display_path;
        }
        ∷ [];
    destructive_scope = scope;
  })

unfoldable pub adopt_existing_target_plan :
    StorageTopology → StorageDevice → ExistingPartition → Text → Text → Result DevicePreparationPlan
unfolding current_layout adoption_scope
adopt_existing_target_plan topology device target plan_id inspection_id = do
  throw_if (not target.suitable_for_adoption || is_empty inspection_id)
      (validation_error (text "storage partition requires a valid existing target inspection"))
  scope ← adoption_scope device.candidate_id target.candidate_id
  validated (record {
    id = plan_id;
    topology_generation = topology.generation;
    mode = adopt_existing_target;
    device_id = device.candidate_id;
    partition_id = some target.candidate_id;
    free_region_id = none;
    inspection_id = some inspection_id;
    before = current_layout device;
    after = current_layout device;
    operations = verify_prepared_target ∷ publish_profile ∷ [];
    warnings = [];
    destructive_scope = scope;
  })
