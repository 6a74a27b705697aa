-- ===== src/Provisioning/Approval.antt =====
-- src/provisioning/StorageSafetyInspector.cpp: when no blocker is found, as one condition.
use btrfs_backup.Common.{
  Bool, true, false, not, ◌&&◌, any, all, is_empty, List, [], ◌∷◌, Text, text, Option, none, some,
  eqb, ◌==◌, list_eq, nat_eq, option_eq, ◌≡◌, refl, ◌∙◌, arith,
}
use btrfs_backup.Provisioning.Topology.{
  table_beq, filesystem_beq, ExistingPartition, UnallocatedRegion, StorageDevice, StorageTopology,
  partitions,
}
use btrfs_backup.Provisioning.Plan.{DestructiveScopeKind, DevicePreparationPlan}
use btrfs_backup.Provisioning.Inspector.{
  Blockers, add_blocker, add_blockers, add_each, add_if, same_identity, expected_device,
  current_device, expected_partition, current_partition, expected_free_region, current_free_region,
  inspect_device_identity, same_place, inspect_partition_state, inspect_current, inspect_child,
  inspect_expected, inspect_all, inspect_free_region, inspect_planned_region, inspect_unallocated,
  inspect_target, inspect_partition, is_adoption, inspect_scope, inspect_found, inspect_planned,
  inspect,
}
mod Conditions
pub use Conditions.*

add_blocker-filled :
    (result : Blockers) (code detail : Text) → is_empty (add_blocker result code detail) ≡ false
unfolding add_blocker any
add_blocker-filled [] code detail = refl
add_blocker-filled (b ∷ result) code detail = ground arith

add_if-empty :
    (test : Bool) (result : Blockers) (code detail : Text)
    → is_empty (add_if test result code detail) ≡ (is_empty result && not test)
add_if-empty true result code detail = ground (arith, add_blocker-filled result code detail)
add_if-empty false result code detail = ground arith

add_blockers-empty :
    (result blockers : Blockers)
    → is_empty (add_blockers result blockers) ≡ (is_empty result && is_empty blockers)
unfolding add_blockers
add_blockers-empty result [] = ground arith
add_blockers-empty result (b ∷ blockers) =
    add_blockers-empty (add_blocker result b.code b.detail) blockers
    ∙ ground (arith, add_blocker-filled result b.code b.detail)

add_each-empty :
    (result : Blockers) (code : Text) (details : List Text)
    → is_empty (add_each result code details) ≡ (is_empty result && is_empty details)
unfolding add_each
add_each-empty result code [] = ground arith
add_each-empty result code (d ∷ details) =
    add_each-empty (add_blocker result code d) code details
    ∙ ground (arith, add_blocker-filled result code d)

ruleset blocker_rules = (add_if-empty, add_blockers-empty, add_each-empty, add_blocker-filled)

inspect_partition_state-empty :
    (result : Blockers) (expected current : ExistingPartition)
    → is_empty (inspect_partition_state result expected current)
      ≡ (is_empty result && is_intact expected (some current))
unfolding inspect_partition_state
inspect_partition_state-empty result expected current = simp (blocker_rules) (ground arith)

inspect_device_identity-empty :
    (result : Blockers) (expected current : StorageDevice) (require_writable : Bool)
    → is_empty (inspect_device_identity result expected current require_writable)
      ≡ (is_empty result && is_same_device expected current require_writable)
unfolding inspect_device_identity
inspect_device_identity-empty result expected current require_writable =
    simp (blocker_rules) (ground arith)

inspect_current-empty :
    (result : Blockers) (ps : List ExistingPartition)
    → is_empty (inspect_current result ps)
      ≡ (is_empty result && all (λ (p : ExistingPartition). is_intact p (some p)) ps)
unfolding inspect_current all
inspect_current-empty result [] = ground arith
inspect_current-empty result (p ∷ ps) =
    inspect_current-empty (inspect_partition_state result p p) ps
    ∙ ground (arith, inspect_partition_state-empty result p p)

inspect_child-empty :
    (result : Blockers) (expected : ExistingPartition) (current : Option ExistingPartition)
    → is_empty (inspect_child result expected current)
      ≡ (is_empty result && is_intact expected current)
unfolding inspect_child
inspect_child-empty result expected none = ground (
  arith,
  add_blocker-filled result (text "block-partition-missing") expected.identity.display_path,
)
inspect_child-empty result expected (some current) =
    inspect_partition_state-empty result expected current

inspect_expected-empty :
    (result : Blockers) (current : StorageDevice) (ps : List ExistingPartition)
    → is_empty (inspect_expected result current ps) ≡ (is_empty result && are_intact current ps)
unfolding inspect_expected all
inspect_expected-empty result current [] = ground arith
inspect_expected-empty result current (p ∷ ps) =
    inspect_expected-empty (inspect_child result p (current_partition current p)) current ps
    ∙ ground (arith, inspect_child-empty result p (current_partition current p))

inspect_all-empty :
    (result : Blockers) (expected current : StorageDevice)
    → is_empty (inspect_all result expected current)
      ≡ (is_empty result && is_device_intact expected current)
unfolding inspect_all
inspect_all-empty result expected current =
    inspect_expected-empty (inspect_current result (partitions current.regions)) current
      (partitions expected.regions)
    ∙ ground (arith, inspect_current-empty result (partitions current.regions))

inspect_free_region-empty :
    (result : Blockers) (current : Option UnallocatedRegion)
    → is_empty (inspect_free_region result current)
      ≡ (is_empty result && is_region_suitable current)
unfolding inspect_free_region
inspect_free_region-empty result none =
    ground (arith, add_blocker-filled result (text "unallocated-region-changed") [])
inspect_free_region-empty result (some current) = simp (blocker_rules) (ground arith)

inspect_planned_region-empty :
    (result : Blockers) (expected current : StorageDevice) (region : Option UnallocatedRegion)
    → is_empty (inspect_planned_region result expected current region)
      ≡ (is_empty result && is_planned_region_suitable expected current region)
unfolding inspect_planned_region
inspect_planned_region-empty result expected current none =
    ground (arith, add_blocker-filled result (text "planned-free-region-missing") [])
inspect_planned_region-empty result expected current (some region) =
    inspect_all-empty (inspect_free_region result (current_free_region current region)) expected
      current
    ∙ ground (arith, inspect_free_region-empty result (current_free_region current region))

inspect_unallocated-empty :
    (result : Blockers) (expected current : StorageDevice) (id : Option Text)
    → is_empty (inspect_unallocated result expected current id)
      ≡ (is_empty result && is_free_space_intact expected current id)
unfolding inspect_unallocated
inspect_unallocated-empty result expected current none =
    ground (arith, add_blocker-filled result (text "planned-free-region-missing") [])
inspect_unallocated-empty result expected current (some id) =
    inspect_planned_region-empty result expected current (expected_free_region expected id)

inspect_target-empty :
    (result : Blockers) (current : StorageDevice) (expected : Option ExistingPartition)
    → is_empty (inspect_target result current expected)
      ≡ (is_empty result && is_target_there current expected)
unfolding inspect_target
inspect_target-empty result current none =
    ground (arith, add_blocker-filled result (text "planned-partition-missing") [])
inspect_target-empty result current (some expected) =
    inspect_child-empty result expected (current_partition current expected)

inspect_partition-empty :
    (result : Blockers) (expected current : StorageDevice) (id : Option Text)
    → is_empty (inspect_partition result expected current id)
      ≡ (is_empty result && is_target_intact expected current id)
unfolding inspect_partition
inspect_partition-empty result expected current none =
    ground (arith, add_blocker-filled result (text "unsupported-destructive-scope") [])
inspect_partition-empty result expected current (some id) =
    inspect_target-empty result current (expected_partition expected id)

inspect_scope-empty :
    (result : Blockers) (changed : Bool) (expected current : StorageDevice)
    (plan : DevicePreparationPlan) (kind : DestructiveScopeKind)
    → is_empty (inspect_scope result changed expected current plan kind)
      ≡ (is_empty result && is_scope_intact changed expected current plan kind)
unfolding inspect_scope
inspect_scope-empty result changed expected current plan DestructiveScopeKind.whole_device =
    inspect_all-empty (add_if changed result (text "topology-generation-changed") []) expected
      current
    ∙ ground (arith, add_if-empty changed result (text "topology-generation-changed") [])
inspect_scope-empty result changed expected current plan DestructiveScopeKind.unallocated_region =
    inspect_unallocated-empty (add_if changed result (text "topology-generation-changed") [])
      expected current plan.free_region_id
    ∙ ground (arith, add_if-empty changed result (text "topology-generation-changed") [])
inspect_scope-empty result changed expected current plan DestructiveScopeKind.existing_partition =
    inspect_partition-empty result expected current plan.partition_id
inspect_scope-empty result changed expected current plan DestructiveScopeKind.no_scope = ground (
  arith,
  inspect_partition-empty result expected current plan.partition_id,
  add_blocker-filled result (text "unsupported-destructive-scope") [],
)

pub inspect_found-empty :
    (changed : Bool) (expected : StorageDevice) (current : Option StorageDevice)
    (plan : DevicePreparationPlan)
    → is_empty (inspect_found changed expected current plan)
      ≡ is_found_intact changed expected current plan
unfolding inspect_found
inspect_found-empty changed expected none plan =
    add_blocker-filled [] (text "block-device-missing") expected.identity.display_path
inspect_found-empty changed expected (some current) plan =
    inspect_scope-empty (inspect_device_identity [] expected current (not (is_adoption plan.mode)))
      changed expected current plan plan.destructive_scope.kind
    ∙ ground
        (arith, inspect_device_identity-empty [] expected current (not (is_adoption plan.mode)))

inspect_planned-empty :
    (expected current : StorageTopology) (plan : DevicePreparationPlan)
    (device : Option StorageDevice)
    → is_empty (inspect_planned expected current plan device)
      ≡ approves_planned expected current plan device
unfolding inspect_planned
inspect_planned-empty expected current plan none =
    add_blocker-filled [] (text "planned-device-missing") []
inspect_planned-empty expected current plan (some device) =
    inspect_found-empty (not (expected.generation == current.generation)) device
      (current_device current device) plan

pub inspect-approves :
    (expected current : StorageTopology) (plan : DevicePreparationPlan)
    → is_empty (inspect expected current plan) ≡ approves expected current plan
unfolding inspect
inspect-approves expected current plan =
    inspect_planned-empty expected current plan (expected_device expected plan.device_id)
