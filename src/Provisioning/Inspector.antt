-- ===== src/Provisioning/Inspector.antt =====
-- src/provisioning/StorageSafetyInspector.cpp: what forbids a device preparation, at a topology
-- that was read again. A function takes the blockers found so far.
use btrfs_backup.Common.{
  Bool, true, false, not, ◌&&◌, ◌||◌, if◌then◌else◌, any, find, List, [], ◌∷◌, ◌++◌, Text, text,
  Option, none, some, eqb, ◌==◌, list_eq, nat_eq, option_eq,
}
use btrfs_backup.Provisioning.Topology.{
  SafetyBlocker, blocker_beq, StableBlockDeviceIdentity, table_beq, filesystem_beq,
  ExistingPartition, UnallocatedRegion, StorageDevice, StorageTopology, partitions, free_regions,
}
use btrfs_backup.Provisioning.Plan.{ProvisioningMode, DestructiveScopeKind, DevicePreparationPlan}

abbrev pub Blockers : Type 0
Blockers = List SafetyBlocker

unfoldable pub add_blocker : Blockers → Text → Text → Blockers
unfolding any blocker_beq
add_blocker result code detail =
    let blocker : SafetyBlocker = record { code = code; detail = detail } in
    if any (blocker_beq blocker) result then result else result ++ blocker ∷ []

unfoldable pub add_blockers : Blockers → Blockers → Blockers
unfolding add_blocker
add_blockers result [] = result
add_blockers result (blocker ∷ blockers) =
    add_blockers (add_blocker result blocker.code blocker.detail) blockers

-- One blocker for each of the details.
unfoldable pub add_each : Blockers → Text → List Text → Blockers
unfolding add_blocker
add_each result code [] = result
add_each result code (detail ∷ details) = add_each (add_blocker result code detail) code details

abbrev pub add_if : Bool → Blockers → Text → Text → Blockers
add_if true result code detail = add_blocker result code detail
add_if false result code detail = result

unfoldable pub same_identity : StableBlockDeviceIdentity → StableBlockDeviceIdentity → Bool
same_identity expected current =
    expected.display_path == current.display_path
    && expected.major_minor == current.major_minor
    && expected.sysfs_path == current.sysfs_path
    && expected.wwn == current.wwn
    && expected.serial == current.serial
    && expected.serial_short == current.serial_short
    && eqb expected.size_bytes current.size_bytes

unfoldable pub expected_device : StorageTopology → Text → Option StorageDevice
unfolding find
expected_device topology id =
    find (λ (device : StorageDevice). device.candidate_id == id) topology.devices

unfoldable pub current_device : StorageTopology → StorageDevice → Option StorageDevice
unfolding find
current_device topology expected =
    find (λ (device : StorageDevice). device.identity.major_minor == expected.identity.major_minor)
      topology.devices

unfoldable pub expected_partition : StorageDevice → Text → Option ExistingPartition
unfolding find partitions
expected_partition device id =
    find (λ (p : ExistingPartition). p.candidate_id == id) (partitions device.regions)

unfoldable pub current_partition : StorageDevice → ExistingPartition → Option ExistingPartition
unfolding find partitions
current_partition device expected =
    find (λ (p : ExistingPartition). eqb p.partition_number expected.partition_number)
      (partitions device.regions)

unfoldable pub expected_free_region : StorageDevice → Text → Option UnallocatedRegion
unfolding find free_regions
expected_free_region device id =
    find (λ (r : UnallocatedRegion). r.id == id) (free_regions device.regions)

unfoldable pub current_free_region : StorageDevice → UnallocatedRegion → Option UnallocatedRegion
unfolding find free_regions
current_free_region device expected =
    find
      (λ (r : UnallocatedRegion).
        eqb r.start_sector expected.start_sector && eqb r.sector_count expected.sector_count)
      (free_regions device.regions)

unfoldable pub inspect_device_identity : Blockers → StorageDevice → StorageDevice → Bool → Blockers
unfolding add_blockers same_identity table_beq
inspect_device_identity result expected current require_writable =
    let r₁ =
      add_if (not (same_identity expected.identity current.identity)) result
        (text "block-device-identity-changed") expected.identity.display_path in
    let r₂ =
      add_if
        (not (eqb expected.logical_sector_size current.logical_sector_size)
          || not (eqb expected.physical_sector_size current.physical_sector_size))
        r₁ (text "sector-size-changed") expected.identity.display_path in
    let r₃ =
      add_if (not (table_beq expected.partition_table current.partition_table)) r₂
        (text "partition-table-changed") expected.identity.display_path in
    let r₄ =
      add_if (require_writable && current.read_only) r₃ (text "read-only-device")
        current.identity.display_path in
    add_blockers r₄ current.blockers

unfoldable pub same_place : ExistingPartition → ExistingPartition → Bool
unfolding same_identity
same_place expected current =
    same_identity expected.identity current.identity
    && expected.partition_uuid == current.partition_uuid
    && eqb expected.partition_number current.partition_number
    && eqb expected.start_sector current.start_sector
    && eqb expected.sector_count current.sector_count

unfoldable pub inspect_partition_state : Blockers → ExistingPartition → ExistingPartition → Blockers
unfolding add_blockers add_each same_place filesystem_beq
inspect_partition_state result expected current =
    let r₁ =
      add_if (not (same_place expected current)) result (text "partition-identity-changed")
        expected.identity.display_path in
    let r₂ =
      add_if (not (filesystem_beq expected.filesystem current.filesystem)) r₁
        (text "partition-signature-changed") expected.identity.display_path in
    let r₃ = add_blockers r₂ current.blockers in
    let r₄ = add_each r₃ (text "mounted-filesystem") current.mount_points in
    let r₅ = add_if current.active_swap r₄ (text "active-swap") current.identity.display_path in
    let r₆ = add_each r₅ (text "block-holder") current.holders in
    add_if current.configured_backup_target r₆ (text "configured-backup-target")
      current.identity.display_path

-- The first loop over the regions of a device.
unfoldable pub inspect_current : Blockers → List ExistingPartition → Blockers
unfolding inspect_partition_state
inspect_current result [] = result
inspect_current result (p ∷ ps) = inspect_current (inspect_partition_state result p p) ps

unfoldable pub inspect_child : Blockers → ExistingPartition → Option ExistingPartition → Blockers
unfolding inspect_partition_state
inspect_child result expected none =
    add_blocker result (text "block-partition-missing") expected.identity.display_path
inspect_child result expected (some current) = inspect_partition_state result expected current

-- The second loop.
unfoldable pub inspect_expected : Blockers → StorageDevice → List ExistingPartition → Blockers
unfolding inspect_child current_partition
inspect_expected result current [] = result
inspect_expected result current (p ∷ ps) =
    inspect_expected (inspect_child result p (current_partition current p)) current ps

-- Both loops.
unfoldable pub inspect_all : Blockers → StorageDevice → StorageDevice → Blockers
unfolding inspect_current inspect_expected
inspect_all result expected current =
    inspect_expected (inspect_current result (partitions current.regions)) current
      (partitions expected.regions)

unfoldable pub inspect_free_region : Blockers → Option UnallocatedRegion → Blockers
unfolding add_blockers
inspect_free_region result none = add_blocker result (text "unallocated-region-changed") []
inspect_free_region result (some current) =
    add_if (not current.suitable_for_backup_partition) (add_blockers result current.blockers)
      (text "unallocated-region-unsuitable") []

unfoldable pub inspect_planned_region :
    Blockers → StorageDevice → StorageDevice → Option UnallocatedRegion → Blockers
unfolding inspect_free_region current_free_region inspect_all
inspect_planned_region result expected current none =
    add_blocker result (text "planned-free-region-missing") []
inspect_planned_region result expected current (some region) =
    inspect_all (inspect_free_region result (current_free_region current region)) expected current

unfoldable pub inspect_unallocated :
    Blockers → StorageDevice → StorageDevice → Option Text → Blockers
unfolding inspect_planned_region expected_free_region
inspect_unallocated result expected current none =
    add_blocker result (text "planned-free-region-missing") []
inspect_unallocated result expected current (some id) =
    inspect_planned_region result expected current (expected_free_region expected id)

unfoldable pub inspect_target : Blockers → StorageDevice → Option ExistingPartition → Blockers
unfolding inspect_child current_partition
inspect_target result current none = add_blocker result (text "planned-partition-missing") []
inspect_target result current (some expected) =
    inspect_child result expected (current_partition current expected)

unfoldable pub inspect_partition : Blockers → StorageDevice → StorageDevice → Option Text → Blockers
unfolding inspect_target expected_partition
inspect_partition result expected current none =
    add_blocker result (text "unsupported-destructive-scope") []
inspect_partition result expected current (some id) =
    inspect_target result current (expected_partition expected id)

unfoldable pub is_adoption : ProvisioningMode → Bool
is_adoption ProvisioningMode.adopt_existing_target = true
is_adoption _ = false

-- What the scope of the plan asks, where the device is found.
unfoldable pub inspect_scope :
    Blockers
    → Bool
    → StorageDevice
    → StorageDevice
    → DevicePreparationPlan
    → DestructiveScopeKind
    → Blockers
unfolding inspect_all inspect_unallocated inspect_partition is_adoption
inspect_scope result generation_changed expected current plan DestructiveScopeKind.whole_device =
    inspect_all (add_if generation_changed result (text "topology-generation-changed") []) expected
      current
inspect_scope result generation_changed expected current plan
      DestructiveScopeKind.unallocated_region =
    inspect_unallocated (add_if generation_changed result (text "topology-generation-changed") [])
      expected current plan.free_region_id
inspect_scope result generation_changed expected current plan
      DestructiveScopeKind.existing_partition =
    inspect_partition result expected current plan.partition_id
inspect_scope result generation_changed expected current plan DestructiveScopeKind.no_scope =
    if is_adoption plan.mode
    then inspect_partition result expected current plan.partition_id
    else add_blocker result (text "unsupported-destructive-scope") []

unfoldable pub inspect_found :
    Bool → StorageDevice → Option StorageDevice → DevicePreparationPlan → Blockers
unfolding inspect_device_identity inspect_scope
inspect_found generation_changed expected none plan =
    add_blocker [] (text "block-device-missing") expected.identity.display_path
inspect_found generation_changed expected (some current) plan =
    inspect_scope (inspect_device_identity [] expected current (not (is_adoption plan.mode)))
      generation_changed expected current plan plan.destructive_scope.kind

unfoldable pub inspect_planned :
    StorageTopology → StorageTopology → DevicePreparationPlan → Option StorageDevice → Blockers
unfolding inspect_found current_device
inspect_planned expected current plan none = add_blocker [] (text "planned-device-missing") []
inspect_planned expected current plan (some device) =
    inspect_found (not (expected.generation == current.generation)) device
      (current_device current device) plan

unfoldable pub inspect : StorageTopology → StorageTopology → DevicePreparationPlan → Blockers
unfolding inspect_planned expected_device
inspect expected current plan =
    inspect_planned expected current plan (expected_device expected plan.device_id)
