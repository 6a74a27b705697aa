-- ===== src/Provisioning/Approval/Conditions.antt =====
-- The conditions that src/provisioning/StorageSafetyInspector.cpp checks, without the blockers.
use btrfs_backup.Common.{
  Bool, false, not, ◌&&◌, all, is_empty, List, Text, Option, none, some, eqb, ◌==◌, list_eq, nat_eq,
  option_eq,
}
use btrfs_backup.Provisioning.Topology.{
  table_beq, filesystem_beq, ExistingPartition, UnallocatedRegion, StorageDevice, StorageTopology,
  partitions,
}
use btrfs_backup.Provisioning.Plan.{DestructiveScopeKind, DevicePreparationPlan}
use btrfs_backup.Provisioning.Inspector.{
  same_identity, expected_device, current_device, expected_partition, current_partition,
  expected_free_region, current_free_region, same_place, is_adoption,
}

-- Nothing uses a partition.
abbrev pub is_idle : ExistingPartition → Bool
is_idle p =
    is_empty p.blockers
    && is_empty p.mount_points
    && not p.active_swap
    && is_empty p.holders
    && not p.configured_backup_target

-- A partition is at its place, with what was on it, and idle.
abbrev pub is_intact : ExistingPartition → Option ExistingPartition → Bool
is_intact expected none = false
is_intact expected (some current) =
    same_place expected current
    && filesystem_beq expected.filesystem current.filesystem
    && is_idle current

abbrev pub is_same_device : StorageDevice → StorageDevice → Bool → Bool
is_same_device expected current require_writable =
    same_identity expected.identity current.identity
    && eqb expected.logical_sector_size current.logical_sector_size
    && eqb expected.physical_sector_size current.physical_sector_size
    && table_beq expected.partition_table current.partition_table
    && not (require_writable && current.read_only)
    && is_empty current.blockers

-- The partitions that the topology of the plan has on a device are still there, and intact.
abbrev pub are_intact : StorageDevice → List ExistingPartition → Bool
are_intact current ps =
    all (λ (p : ExistingPartition). is_intact p (current_partition current p)) ps

-- Every partition of a device is idle, those of the plan too.
abbrev pub is_device_intact : StorageDevice → StorageDevice → Bool
is_device_intact expected current =
    all (λ (p : ExistingPartition). is_intact p (some p)) (partitions current.regions)
    && are_intact current (partitions expected.regions)

abbrev pub is_region_suitable : Option UnallocatedRegion → Bool
is_region_suitable none = false
is_region_suitable (some region) = is_empty region.blockers && region.suitable_for_backup_partition

abbrev pub is_planned_region_suitable :
    StorageDevice → StorageDevice → Option UnallocatedRegion → Bool
is_planned_region_suitable expected current none = false
is_planned_region_suitable expected current (some region) =
    is_region_suitable (current_free_region current region) && is_device_intact expected current

-- The free space of a plan is still there, and the partitions beside it are intact.
abbrev pub is_free_space_intact : StorageDevice → StorageDevice → Option Text → Bool
is_free_space_intact expected current none = false
is_free_space_intact expected current (some id) =
    is_planned_region_suitable expected current (expected_free_region expected id)

abbrev pub is_target_there : StorageDevice → Option ExistingPartition → Bool
is_target_there current none = false
is_target_there current (some expected) = is_intact expected (current_partition current expected)

-- The partition of a plan is still there, and intact.
abbrev pub is_target_intact : StorageDevice → StorageDevice → Option Text → Bool
is_target_intact expected current none = false
is_target_intact expected current (some id) =
    is_target_there current (expected_partition expected id)

abbrev pub is_scope_intact :
    Bool → StorageDevice → StorageDevice → DevicePreparationPlan → DestructiveScopeKind → Bool
is_scope_intact generation_changed expected current plan DestructiveScopeKind.whole_device =
    not generation_changed && is_device_intact expected current
is_scope_intact generation_changed expected current plan DestructiveScopeKind.unallocated_region =
    not generation_changed && is_free_space_intact expected current plan.free_region_id
is_scope_intact generation_changed expected current plan DestructiveScopeKind.existing_partition =
    is_target_intact expected current plan.partition_id
is_scope_intact generation_changed expected current plan DestructiveScopeKind.no_scope =
    is_adoption plan.mode && is_target_intact expected current plan.partition_id

-- The device of a plan, as it is now.
abbrev pub is_found_intact :
    Bool → StorageDevice → Option StorageDevice → DevicePreparationPlan → Bool
is_found_intact changed expected none plan = false
is_found_intact changed expected (some current) plan =
    is_same_device expected current (not (is_adoption plan.mode))
    && is_scope_intact changed expected current plan plan.destructive_scope.kind

abbrev pub approves_planned :
    StorageTopology → StorageTopology → DevicePreparationPlan → Option StorageDevice → Bool
approves_planned expected current plan none = false
approves_planned expected current plan (some device) =
    is_found_intact (not (expected.generation == current.generation)) device
      (current_device current device) plan

-- The condition that the inspection checks, without its blockers.
abbrev pub approves : StorageTopology → StorageTopology → DevicePreparationPlan → Bool
approves expected current plan =
    approves_planned expected current plan (expected_device expected plan.device_id)
