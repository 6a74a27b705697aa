-- ===== src/Provisioning/Erasure.antt =====
-- src/provisioning/DevicePreparationPlanBuilder.cpp: what the operations of a built plan may touch.
mod Operations
mod Candidates
use btrfs_backup.Common.{
  Bool, not, ◌||◌, ◌-◌, ◌+◌, find, find-some, is_empty, All, In, ◌∷◌, Text, text, Option, none,
  some, ◌==◌, ==_iff, list_eq, nat_eq, ◌≡◌, ◌≢◌, ◌⊎◌, refl, sym, ap, ◌∙◌, subst,
}
use btrfs_backup.Core.Errors.{ok, err, validation_error, ◌>>=◌, ◌>>◌}
use btrfs_backup.Provisioning.Topology.{
  ExistingPartition, UnallocatedRegion, StorageDevice, StorageTopology, partitions, free_regions,
}
use btrfs_backup.Provisioning.Plan.{
  PlannedPartitionGeometry, ProvisioningMode, erase_whole_device, reformat_existing_partition,
  create_partition_in_unallocated_space, adopt_existing_target, no_scope, whole_device,
  existing_partition, unallocated_region, DestructiveScope, destructive_scope,
  DevicePreparationPlan,
}
use btrfs_backup.Provisioning.Builder.{
  erase_whole_device_plan, reformat_partition_plan, create_partition_in_free_space_plan,
  adopt_existing_target_plan, find_partition, find_free_region, build_erase, build_reformat,
  build_adoption, build_creation, build_mode, build,
}
use btrfs_backup.Provisioning.Erasure.Candidates.{find_partition-some, find_free_region-some}
use btrfs_backup.Provisioning.Erasure.Operations.{
  IsCovered, IsWithin, checked_then, erase_whole_device_plan-IsWithin,
  reformat_partition_plan-IsWithin, create_partition_in_free_space_plan-IsWithin,
  adopt_existing_target_plan-IsWithin,
}

-- What a scope of a mode names: the selected candidate, which the topology has.
abbrev pub IsSelected : StorageTopology → Text → DestructiveScope → ProvisioningMode → Type 0
IsSelected topology id scope erase_whole_device =
    (scope.kind ≡ whole_device)
    × (device : StorageDevice) × In device topology.devices
    × (device.candidate_id ≡ id)
    × (scope.device_id ≡ id)
IsSelected topology id scope reformat_existing_partition =
    (scope.kind ≡ existing_partition)
    × (device : StorageDevice) × (target : ExistingPartition) × In device topology.devices
    × In target (partitions device.regions)
    × (target.candidate_id ≡ id)
    × (scope.device_id ≡ device.candidate_id)
    × (scope.partition_id ≡ some id)
IsSelected topology id scope create_partition_in_unallocated_space =
    (scope.kind ≡ unallocated_region)
    × (device : StorageDevice) × (region : UnallocatedRegion) × In device topology.devices
    × In region (free_regions device.regions)
    × (region.id ≡ id)
    × (scope.device_id ≡ device.candidate_id)
    × (scope.free_region_id ≡ some id)
IsSelected topology id scope adopt_existing_target =
    (scope.kind ≡ no_scope)
    × (device : StorageDevice) × (target : ExistingPartition) × In device topology.devices
    × In target (partitions device.regions)
    × (target.candidate_id ≡ id)
    × (scope.device_id ≡ device.candidate_id)
    × (scope.partition_id ≡ some id)

-- The scope of a plan names the candidate, and covers every operation of the plan.
abbrev pub Covers :
    StorageTopology → Text → ProvisioningMode → DevicePreparationPlan → DestructiveScope → Type 0
Covers topology id mode plan scope =
    (plan.mode ≡ mode)
    × (plan.device_id ≡ scope.device_id)
    × IsSelected topology id scope mode
    × All (IsCovered scope) plan.operations

covers :
    (topology : StorageTopology) (id : Text) (mode : ProvisioningMode) (scope : DestructiveScope)
    (plan : DevicePreparationPlan)
    → IsWithin mode scope plan
    → IsSelected topology id scope mode
    → Covers topology id mode plan plan.destructive_scope
covers topology id mode scope plan h selected =
    subst (Covers topology id mode plan) (sym h.1) (h.0, h.2, selected, h.3)

build_erase-Covers :
    (topology : StorageTopology) (id plan_id : Text) (geometry : Option PlannedPartitionGeometry)
    (plan : DevicePreparationPlan)
    → build_erase topology id plan_id geometry ≡ ok plan
    → Covers topology id erase_whole_device plan plan.destructive_scope
unfolding build_erase
build_erase-Covers topology id plan_id none plan h = cc
build_erase-Covers topology id plan_id (some geometry) plan h =
    go (find named topology.devices) refl h
  where
    named : StorageDevice → Bool
    named d = d.candidate_id == id

    go :
        (found : Option StorageDevice)
        → find named topology.devices ≡ found
        → elim found [
          | none ↦ err (validation_error (text "storage device candidate is unavailable"))
          | some device ↦ erase_whole_device_plan topology device plan_id geometry
        ]
          ≡ ok plan
        → Covers topology id erase_whole_device plan plan.destructive_scope
    go none e k = cc
    go (some device) e k =
        let (m, same) = find-some named device topology.devices e in
        let here = (==_iff device.candidate_id id).0 same in
        covers topology id erase_whole_device _ plan
          (erase_whole_device_plan-IsWithin topology device plan_id geometry plan k)
          (refl, device, m, here, here)

build_reformat-Covers :
    (topology : StorageTopology) (id plan_id : Text) (plan : DevicePreparationPlan)
    → build_reformat topology id plan_id ≡ ok plan
    → Covers topology id reformat_existing_partition plan plan.destructive_scope
unfolding build_reformat
build_reformat-Covers topology id plan_id plan h = go (find_partition topology.devices id) refl h
  where
    go :
        (found : Option (StorageDevice × ExistingPartition))
        → find_partition topology.devices id ≡ found
        → elim found [
          | none ↦ err (validation_error (text "storage partition candidate is unavailable"))
          | some (device, target) ↦ reformat_partition_plan topology device target plan_id
        ]
          ≡ ok plan
        → Covers topology id reformat_existing_partition plan plan.destructive_scope
    go none e k = cc
    go (some (device, target)) e k =
        let found = find_partition-some topology.devices id device target e in
        covers topology id reformat_existing_partition _ plan
          (reformat_partition_plan-IsWithin topology device target plan_id plan k)
          (refl, device, target, found.0, found.1, found.2, refl, ap some found.2)

build_adoption-Covers :
    (topology : StorageTopology) (id plan_id : Text) (inspection_id : Option Text)
    (plan : DevicePreparationPlan)
    → build_adoption topology id plan_id inspection_id ≡ ok plan
    → Covers topology id adopt_existing_target plan plan.destructive_scope
unfolding build_adoption
build_adoption-Covers topology id plan_id none plan h = cc
build_adoption-Covers topology id plan_id (some inspection_id) plan h =
    go (find_partition topology.devices id) refl h
  where
    go :
        (found : Option (StorageDevice × ExistingPartition))
        → find_partition topology.devices id ≡ found
        → elim found [
          | none ↦ err (validation_error (text "storage partition candidate is unavailable"))
          | some (device, target) ↦
              adopt_existing_target_plan topology device target plan_id inspection_id
        ]
          ≡ ok plan
        → Covers topology id adopt_existing_target plan plan.destructive_scope
    go none e k = cc
    go (some (device, target)) e k =
        let found = find_partition-some topology.devices id device target e in
        covers topology id adopt_existing_target _ plan
          (adopt_existing_target_plan-IsWithin topology device target plan_id inspection_id plan k)
          (refl, device, target, found.0, found.1, found.2, refl, ap some found.2)

build_creation-Covers :
    (topology : StorageTopology) (id plan_id : Text) (geometry : Option PlannedPartitionGeometry)
    (plan : DevicePreparationPlan)
    → build_creation topology id plan_id geometry ≡ ok plan
    → Covers topology id create_partition_in_unallocated_space plan plan.destructive_scope
unfolding build_creation
build_creation-Covers topology id plan_id none plan h = cc
build_creation-Covers topology id plan_id (some geometry) plan h =
    go (find_free_region topology.devices id) refl h
  where
    go :
        (found : Option (StorageDevice × UnallocatedRegion))
        → find_free_region topology.devices id ≡ found
        → elim found [
          | none ↦
              err (validation_error (text "unallocated storage region candidate is unavailable"))
          | some (device, region) ↦
              create_partition_in_free_space_plan topology device region plan_id geometry
        ]
          ≡ ok plan
        → Covers topology id create_partition_in_unallocated_space plan plan.destructive_scope
    go none e k = cc
    go (some (device, region)) e k =
        let found = find_free_region-some topology.devices id device region e in
        covers topology id create_partition_in_unallocated_space _ plan
          (create_partition_in_free_space_plan-IsWithin topology device region plan_id geometry plan
            k)
          (refl, device, region, found.0, found.1, found.2, refl, ap some found.2)

build_mode-Covers :
    (topology : StorageTopology) (id : Text) (mode : ProvisioningMode) (plan_id : Text)
    (inspection_id : Option Text) (geometry : Option PlannedPartitionGeometry)
    (plan : DevicePreparationPlan)
    → build_mode topology id mode plan_id inspection_id geometry ≡ ok plan
    → Covers topology id mode plan plan.destructive_scope
unfolding build_mode
build_mode-Covers topology id erase_whole_device plan_id inspection_id geometry plan h =
    build_erase-Covers topology id plan_id geometry plan h
build_mode-Covers topology id reformat_existing_partition plan_id inspection_id geometry plan h =
    build_reformat-Covers topology id plan_id plan h
build_mode-Covers topology id adopt_existing_target plan_id inspection_id geometry plan h =
    build_adoption-Covers topology id plan_id inspection_id plan h
build_mode-Covers topology id create_partition_in_unallocated_space plan_id inspection_id geometry
      plan h =
    build_creation-Covers topology id plan_id geometry plan h

-- A plan that is built is of the mode that was asked for. Its destructive scope is of the kind of
-- that mode and names the selected candidate, which the topology has: the device, or the partition
-- or free space and the device that it is on. The scope covers every operation of the plan: the
-- signatures of a device and its table are only replaced where the scope is that whole device; the
-- signatures of a partition are only erased, and an existing partition only formatted, where it is
-- the one of the scope; a partition is only created on the device of the scope; and nothing is
-- erased, created or formatted by a plan for an adoption.
pub build-Covers :
    (topology : StorageTopology) (expected_generation id : Text) (mode : ProvisioningMode)
    (plan_id : Text) (inspection_id : Option Text) (geometry : Option PlannedPartitionGeometry)
    (plan : DevicePreparationPlan)
    → build topology expected_generation id mode plan_id inspection_id geometry ≡ ok plan
    → Covers topology id mode plan plan.destructive_scope
unfolding build
build-Covers topology expected_generation id mode plan_id inspection_id geometry plan h =
    let current =
      checked_then
        (is_empty topology.generation || not (topology.generation == expected_generation)) _ _ h in
    build_mode-Covers topology id mode plan_id inspection_id geometry plan
      (checked_then (is_empty plan_id) _ _ current)
