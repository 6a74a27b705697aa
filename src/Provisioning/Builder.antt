-- ===== src/Provisioning/Builder.antt =====
-- src/provisioning/DevicePreparationPlanBuilder.cpp: the plan for a candidate of a topology.
use btrfs_backup.Common.{
  Bool, true, false, not, ◌||◌, ℕ, ◌+◌, ◌-◌, ◌/◌, if◌then◌else◌, eqb, ltb, leb, find, is_empty, map,
  List, [], ◌∷◌, ◌++◌, Text, text, Option, none, some, ◌==◌, list_eq, nat_eq,
}
use btrfs_backup.Core.Errors.{Result, ok, err, throw_if, validation_error, ◌>>=◌, ◌>>◌}
use btrfs_backup.Backup.RunPlan.{value_or}
use btrfs_backup.Provisioning.Topology.{
  table_type_beq, gpt, SafetyBlocker, ExistingPartition, UnallocatedRegion, StorageRegion,
  partition, unallocated, StorageDevice, StorageTopology, partitions, free_regions,
}
use btrfs_backup.Provisioning.Plan.{
  PredictedRegionKind, predicted_partition, predicted_free, backup_partition,
  PredictedStorageRegion, StorageLayout, PlannedPartitionGeometry, backup_partition_table,
  erase_device_signatures, erase_partition_signatures, create_gpt_partition_table,
  create_backup_partition, format_luks2, open_luks_mapping, format_btrfs, verify_prepared_target,
  publish_profile, SafetyWarning, ProvisioningMode, erase_whole_device, reformat_existing_partition,
  create_partition_in_unallocated_space, adopt_existing_target, DevicePreparationPlan,
  whole_device_scope, existing_partition_scope, unallocated_region_scope, adoption_scope, validate,
}
mod Regions
mod Modes
unfoldable pub use Regions.*
unfoldable pub use Modes.*

-- The first partition with an identifier, and its device.
unfoldable pub find_partition :
    List StorageDevice → Text → Option (StorageDevice × ExistingPartition)
unfolding find partitions
find_partition [] id = none
find_partition (device ∷ devices) id =
    let rest = find_partition devices id in
    elim (find (λ (p : ExistingPartition). p.candidate_id == id) (partitions device.regions)) [
      | some p ↦ some (device, p)
      | none ↦ rest
    ]

-- The first free region with an identifier, and its device.
unfoldable pub find_free_region :
    List StorageDevice → Text → Option (StorageDevice × UnallocatedRegion)
unfolding find free_regions
find_free_region [] id = none
find_free_region (device ∷ devices) id =
    let rest = find_free_region devices id in
    elim (find (λ (r : UnallocatedRegion). r.id == id) (free_regions device.regions)) [
      | some r ↦ some (device, r)
      | none ↦ rest
    ]

-- What a mode asks for, of the candidate that is selected.
unfoldable pub build_erase :
    StorageTopology → Text → Text → Option PlannedPartitionGeometry → Result DevicePreparationPlan
unfolding find erase_whole_device_plan
build_erase topology id plan_id none =
    err (validation_error (text "planned whole-device partition geometry is required"))
build_erase topology id plan_id (some geometry) =
    elim (find (λ (d : StorageDevice). d.candidate_id == id) topology.devices) [
      | none ↦ err (validation_error (text "storage device candidate is unavailable"))
      | some device ↦ erase_whole_device_plan topology device plan_id geometry
    ]

unfoldable pub build_reformat : StorageTopology → Text → Text → Result DevicePreparationPlan
unfolding find_partition reformat_partition_plan
build_reformat topology id plan_id = elim (find_partition topology.devices id) [
  | none ↦ err (validation_error (text "storage partition candidate is unavailable"))
  | some (device, target) ↦ reformat_partition_plan topology device target plan_id
]

unfoldable pub build_adoption :
    StorageTopology → Text → Text → Option Text → Result DevicePreparationPlan
unfolding find_partition adopt_existing_target_plan
build_adoption topology id plan_id none =
    err (validation_error (text "existing target inspection identifier is required"))
build_adoption topology id plan_id (some inspection_id) =
    elim (find_partition topology.devices id) [
      | none ↦ err (validation_error (text "storage partition candidate is unavailable"))
      | some (device, target) ↦
          adopt_existing_target_plan topology device target plan_id inspection_id
    ]

unfoldable pub build_creation :
    StorageTopology → Text → Text → Option PlannedPartitionGeometry → Result DevicePreparationPlan
unfolding find_free_region create_partition_in_free_space_plan
build_creation topology id plan_id none =
    err (validation_error (text "planned partition geometry is required"))
build_creation topology id plan_id (some geometry) = elim (find_free_region topology.devices id) [
  | none ↦ err (validation_error (text "unallocated storage region candidate is unavailable"))
  | some (device, region) ↦
      create_partition_in_free_space_plan topology device region plan_id geometry
]

unfoldable pub build_mode :
    StorageTopology
    → Text
    → ProvisioningMode
    → Text
    → Option Text
    → Option PlannedPartitionGeometry
    → Result DevicePreparationPlan
unfolding build_erase build_reformat build_adoption build_creation
build_mode topology id erase_whole_device plan_id inspection_id geometry =
    build_erase topology id plan_id geometry
build_mode topology id reformat_existing_partition plan_id inspection_id geometry =
    build_reformat topology id plan_id
build_mode topology id adopt_existing_target plan_id inspection_id geometry =
    build_adoption topology id plan_id inspection_id
build_mode topology id create_partition_in_unallocated_space plan_id inspection_id geometry =
    build_creation topology id plan_id geometry

unfoldable pub build :
    StorageTopology
    → Text
    → Text
    → ProvisioningMode
    → Text
    → Option Text
    → Option PlannedPartitionGeometry
    → Result DevicePreparationPlan
unfolding build_mode
build topology expected_generation id mode plan_id inspection_id geometry = do
  throw_if (is_empty topology.generation || not (topology.generation == expected_generation))
      (validation_error (text "storage topology generation changed"))
  throw_if (is_empty plan_id)
      (validation_error (text "device preparation plan identifier is empty"))
  build_mode topology id mode plan_id inspection_id geometry
