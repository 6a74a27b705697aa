-- ===== src/Provisioning/Safety.antt =====
-- src/provisioning/StorageSafetyInspector.cpp: what an inspection without a blocker excludes.
use btrfs_backup.Common.{
  Bool, true, false, not, ◌&&◌, all, In, is_empty, List, [], ◌∷◌, Text, Option, none, some, eqb_iff,
  ◌==◌, list_eq, nat_eq, ◌≡◌, refl, sym, ap, ◌∙◌, ◌⊎◌, inl, inr, arith,
}
use btrfs_backup.Provisioning.Topology.{
  ExistingPartition, StorageDevice, StorageTopology, UnallocatedRegion, partitions, filesystem_beq,
}
use btrfs_backup.Provisioning.Plan.{
  DestructiveScopeKind, whole_device, unallocated_region, existing_partition, no_scope,
  DevicePreparationPlan,
}
use btrfs_backup.Provisioning.Inspector.{
  expected_free_region, same_place, expected_device, current_device, expected_partition,
  current_partition, inspect, is_adoption,
}
use btrfs_backup.Provisioning.Approval.{
  is_planned_region_suitable, is_target_there, is_idle, is_intact, is_same_device, is_device_intact,
  are_intact, is_target_intact, is_scope_intact, is_free_space_intact, is_found_intact,
  approves_planned, inspect-approves,
}

-- Nothing uses a partition: it is not mounted, no swap space, held by no other device and no
-- target of another profile.
pub record IsUnused (p : ExistingPartition) : Type 0 where
  pub mount_points : p.mount_points ≡ []
  pub active_swap : p.active_swap ≡ false
  pub holders : p.holders ≡ []
  pub configured : p.configured_backup_target ≡ false

is_empty-eq : {A : Type 0} (xs : List A) → is_empty xs ≡ true → xs ≡ []
is_empty-eq [] h = refl
is_empty-eq (x ∷ xs) h = cc

is_idle-IsUnused : (p : ExistingPartition) → is_idle p ≡ true → IsUnused p
is_idle-IsUnused p h = record {
  mount_points = is_empty-eq p.mount_points (ground arith);
  active_swap = ground arith;
  holders = is_empty-eq p.holders (ground arith);
  configured = ground arith;
}

all-In :
    {A : Type 0} (test : A → Bool) (x : A) (xs : List A)
    → all test xs ≡ true
    → In x xs
    → test x ≡ true
unfolding all
all-In test x [] h m = elim m [ ]
all-In test x (y ∷ xs) h (inl e) = ap test e ∙ ground arith
all-In test x (y ∷ xs) h (inr m) = all-In test x xs (ground arith) m

-- A scope that takes the whole device, or a part of it that no partition has.
abbrev pub IsOpenScope : DestructiveScopeKind → Type 0
IsOpenScope kind = (kind ≡ whole_device) ⊎ (kind ≡ unallocated_region)

region_suitable-device :
    (expected current : StorageDevice) (region : Option UnallocatedRegion)
    → is_planned_region_suitable expected current region ≡ true
    → is_device_intact expected current ≡ true
region_suitable-device expected current none h = cc
region_suitable-device expected current (some region) h = ground arith

free_space_intact-device :
    (expected current : StorageDevice) (id : Option Text)
    → is_free_space_intact expected current id ≡ true
    → is_device_intact expected current ≡ true
free_space_intact-device expected current none h = cc
free_space_intact-device expected current (some id) h =
    region_suitable-device expected current (expected_free_region expected id) h

scope_intact-device :
    (changed : Bool) (expected current : StorageDevice) (plan : DevicePreparationPlan)
    (kind : DestructiveScopeKind)
    → IsOpenScope kind
    → is_scope_intact changed expected current plan kind ≡ true
    → is_device_intact expected current ≡ true
scope_intact-device changed expected current plan whole_device open_ h = ground arith
scope_intact-device changed expected current plan unallocated_region open_ h =
    free_space_intact-device expected current plan.free_region_id (ground arith)
scope_intact-device changed expected current plan existing_partition open_ h = elim open_ [
  | inl e ↦ cc
  | inr e ↦ cc
]
scope_intact-device changed expected current plan no_scope open_ h = elim open_ [
  | inl e ↦ cc
  | inr e ↦ cc
]

-- What an approval says of the devices that are found.
approves-found :
    (expected current : StorageTopology) (plan : DevicePreparationPlan)
    (planned found : StorageDevice)
    → inspect expected current plan ≡ []
    → expected_device expected plan.device_id ≡ some planned
    → current_device current planned ≡ some found
    → is_found_intact (not (expected.generation == current.generation)) planned (some found) plan
      ≡ true
approves-found expected current plan planned found clear e c =
    let changed = not (expected.generation == current.generation) in
    ap (λ (o : Option StorageDevice). is_found_intact changed planned o plan) (sym c)
    ∙ ap (λ (o : Option StorageDevice). approves_planned expected current plan o) (sym e)
    ∙ sym (inspect-approves expected current plan)
    ∙ ap is_empty clear

both_right : (a : Bool) {b : Bool} → (a && b) ≡ true → b ≡ true
both_right a h = ground arith

both_left : {a : Bool} (b : Bool) → (a && b) ≡ true → a ≡ true
both_left b h = ground arith

scope_intact-target :
    (changed : Bool) (expected current : StorageDevice) (plan : DevicePreparationPlan)
    (kind : DestructiveScopeKind)
    → (kind ≡ existing_partition) ⊎ (kind ≡ no_scope)
    → is_scope_intact changed expected current plan kind ≡ true
    → is_target_intact expected current plan.partition_id ≡ true
scope_intact-target changed expected current plan existing_partition scope h = h
scope_intact-target changed expected current plan no_scope scope h = ground arith
scope_intact-target changed expected current plan whole_device scope h = elim scope [
  | inl e ↦ cc
  | inr e ↦ cc
]
scope_intact-target changed expected current plan unallocated_region scope h = elim scope [
  | inl e ↦ cc
  | inr e ↦ cc
]

is_intact-there :
    (target : ExistingPartition) (found : Option ExistingPartition)
    → is_intact target found ≡ true
    → (now : ExistingPartition) × (found ≡ some now)
      × (now.start_sector ≡ target.start_sector)
      × (now.sector_count ≡ target.sector_count)
      × (filesystem_beq target.filesystem now.filesystem ≡ true)
      × IsUnused now
unfolding same_place
is_intact-there target none h = cc
is_intact-there target (some now) h = (
  now,
  refl,
  ground (arith, eqb_iff target.start_sector now.start_sector),
  ground (arith, eqb_iff target.sector_count now.sector_count),
  ground arith,
  is_idle-IsUnused now (ground arith),
)

-- An inspection without a blocker, for a plan that takes the whole device or free space of it:
-- no partition that the device has now is mounted, swapped to, held or the target of a profile.
pub inspect-IsUnused :
    (expected current : StorageTopology) (plan : DevicePreparationPlan)
    (planned found : StorageDevice) (p : ExistingPartition)
    → inspect expected current plan ≡ []
    → expected_device expected plan.device_id ≡ some planned
    → current_device current planned ≡ some found
    → IsOpenScope plan.destructive_scope.kind
    → In p (partitions found.regions)
    → IsUnused p
inspect-IsUnused expected current plan planned found p clear e c open_ m =
    let intact =
      scope_intact-device (not (expected.generation == current.generation)) planned found plan
        plan.destructive_scope.kind open_
        (both_right (is_same_device planned found (not (is_adoption plan.mode)))
          (approves-found expected current plan planned found clear e c)) in
    is_idle-IsUnused p (
      ground (
        arith,
        all-In (λ (q : ExistingPartition). is_intact q (some q)) p (partitions found.regions)
            (both_left (are_intact found (partitions planned.regions)) intact) m,
      ))

-- An inspection without a blocker, for a plan that takes a partition or adopts one: the device
-- has a partition with the number of the one that the plan names, which is at the same sectors
-- with the same file system, and which nothing uses.
pub inspect-target :
    (expected current : StorageTopology) (plan : DevicePreparationPlan)
    (planned found : StorageDevice) (id : Text) (target : ExistingPartition)
    → inspect expected current plan ≡ []
    → expected_device expected plan.device_id ≡ some planned
    → current_device current planned ≡ some found
    → (plan.destructive_scope.kind ≡ existing_partition) ⊎ (plan.destructive_scope.kind ≡ no_scope)
    → plan.partition_id ≡ some id
    → expected_partition planned id ≡ some target
    → (now : ExistingPartition) × (current_partition found target ≡ some now)
      × (now.start_sector ≡ target.start_sector)
      × (now.sector_count ≡ target.sector_count)
      × (filesystem_beq target.filesystem now.filesystem ≡ true)
      × IsUnused now
inspect-target expected current plan planned found id target clear e c scope i t =
    let intact =
      scope_intact-target (not (expected.generation == current.generation)) planned found plan
        plan.destructive_scope.kind scope
        (both_right (is_same_device planned found (not (is_adoption plan.mode)))
          (approves-found expected current plan planned found clear e c)) in
    is_intact-there target (current_partition found target) (
      ap (λ (o : Option ExistingPartition). is_target_there found o) (sym t)
      ∙ ap (λ (o : Option Text). is_target_intact planned found o) (sym i)
      ∙ intact)
