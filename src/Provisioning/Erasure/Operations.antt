-- ===== src/Provisioning/Erasure/Operations.antt =====
-- src/provisioning/DevicePreparationPlanBuilder.cpp: the operations of the plan of each mode are
-- covered by the scope of the plan.
use btrfs_backup.Common.{
  Bool, true, false, not, ◌||◌, eqb, ltb, leb, ◌-◌, ◌+◌, is_empty, All, inl, inr, Text, Option,
  none, some, list_eq, nat_eq, ◌≡◌, ◌≢◌, ◌⊎◌, refl, sym, subst,
}
use btrfs_backup.Core.Errors.{Error, Result, ok, throw_if, ◌>>◌, >>=-eq-ok}
use btrfs_backup.Provisioning.Topology.{
  ExistingPartition, UnallocatedRegion, StorageDevice, StorageTopology, table_type_beq, gpt,
}
use btrfs_backup.Provisioning.Plan.{
  PlannedPartitionGeometry, PlannedStorageOperation, backup_partition_table,
  erase_device_signatures, erase_partition_signatures, create_gpt_partition_table,
  create_backup_partition, format_luks2, open_luks_mapping, format_btrfs, verify_prepared_target,
  publish_profile, ProvisioningMode, erase_whole_device, reformat_existing_partition,
  create_partition_in_unallocated_space, adopt_existing_target, DestructiveScopeKind, no_scope,
  whole_device, existing_partition, unallocated_region, DestructiveScope, destructive_scope,
  DevicePreparationPlan, whole_device_scope, existing_partition_scope, unallocated_region_scope,
  adoption_scope, validate,
}
use btrfs_backup.Provisioning.Builder.{
  validated, erase_whole_device_plan, reformat_partition_plan, create_partition_in_free_space_plan,
  uint64_max, whole_device_sectors, adopt_existing_target_plan,
}

-- Whether the destructive scope of a plan covers what an operation writes to.
abbrev pub IsCovered : DestructiveScope → PlannedStorageOperation → Type 0
IsCovered scope (backup_partition_table device_id) = device_id ≡ scope.device_id
IsCovered scope (erase_device_signatures device_id) =
    (scope.kind ≡ whole_device) × (device_id ≡ scope.device_id)
IsCovered scope (create_gpt_partition_table device_id) =
    (scope.kind ≡ whole_device) × (device_id ≡ scope.device_id)
IsCovered scope (erase_partition_signatures partition_id) =
    (scope.kind ≡ existing_partition) × (scope.partition_id ≡ some partition_id)
IsCovered scope (create_backup_partition device_id free_region_id geometry) =
    (device_id ≡ scope.device_id)
    × (scope.free_region_id ≡ free_region_id)
    × ((scope.kind ≡ whole_device) ⊎ (scope.kind ≡ unallocated_region))
IsCovered scope (format_luks2 partition_id) =
    (scope.kind ≢ no_scope) × (scope.partition_id ≡ partition_id)
IsCovered scope open_luks_mapping = scope.kind ≢ no_scope
IsCovered scope format_btrfs = scope.kind ≢ no_scope
IsCovered scope verify_prepared_target = Unit
IsCovered scope publish_profile = Unit

-- Every operation of a plan is covered, the scope being the one that is given.
abbrev pub IsWithin : ProvisioningMode → DestructiveScope → DevicePreparationPlan → Type 0
IsWithin mode scope plan =
    (plan.mode ≡ mode)
    × (plan.destructive_scope ≡ scope)
    × (plan.device_id ≡ scope.device_id)
    × All (IsCovered scope) plan.operations

abbrev pub scope_of : DestructiveScopeKind → Text → Option Text → Option Text → DestructiveScope
scope_of kind device_id partition_id free_region_id = record {
  kind = kind;
  device_id = device_id;
  partition_id = partition_id;
  free_region_id = free_region_id;
}

pub checked_then :
    {B : Type 0} (test : Bool) (e : Error) (rest : Result B) {b : B}
    → (throw_if test e >> rest) ≡ ok b
    → rest ≡ ok b
checked_then true e rest h = cc
checked_then false e rest h = h

destructive_scope-eq-ok :
    (kind : DestructiveScopeKind) (device_id : Text) (partition_id free_region_id : Option Text)
    (scope : DestructiveScope)
    → destructive_scope kind device_id partition_id free_region_id ≡ ok scope
    → scope_of kind device_id partition_id free_region_id ≡ scope
unfolding destructive_scope
destructive_scope-eq-ok kind device_id partition_id free_region_id scope h =
    let same = checked_then (is_empty device_id) _ _ h in cc

-- A plan that is made with a scope and passes its checks.
within :
    (mode : ProvisioningMode) (given scope : DestructiveScope) (made plan : DevicePreparationPlan)
    → validated made ≡ ok plan
    → given ≡ scope
    → (given ≡ scope → IsWithin mode given made)
    → IsWithin mode given plan
within mode given scope made plan h same covered =
    let (done, checked, equal) = >>=-eq-ok (validate made) (λ _. ok made) h in
    let e : made ≡ plan = cc in subst (IsWithin mode given) e (covered same)

device_kind : whole_device ≢ no_scope
device_kind h = cc

partition_kind : existing_partition ≢ no_scope
partition_kind h = cc

region_kind : unallocated_region ≢ no_scope
region_kind h = cc

pub erase_whole_device_plan-IsWithin :
    (topology : StorageTopology) (device : StorageDevice) (plan_id : Text)
    (geometry : PlannedPartitionGeometry) (plan : DevicePreparationPlan)
    → erase_whole_device_plan topology device plan_id geometry ≡ ok plan
    → IsWithin erase_whole_device (scope_of whole_device device.candidate_id none none) plan
unfolding erase_whole_device_plan whole_device_scope
erase_whole_device_plan-IsWithin topology device plan_id geometry plan h =
    let sized =
      checked_then
        (eqb geometry.partition_number 0
          || eqb geometry.sector_count 0
          || leb (whole_device_sectors device) geometry.start_sector
          || ltb (whole_device_sectors device - geometry.start_sector) geometry.sector_count)
        _ _ h in
    let (scope, scoped, made) = >>=-eq-ok (whole_device_scope device.candidate_id) _ sized in
    within erase_whole_device (scope_of whole_device device.candidate_id none none) scope _ plan
      made (destructive_scope-eq-ok whole_device device.candidate_id none none scope scoped)
      (λ same. (
        refl,
        sym same,
        refl,
        (
          refl,
          (
            (refl, refl),
            (
              (refl, refl),
              (
                (refl, refl, inl refl),
                ((device_kind, refl), (device_kind, (device_kind, (tt, (tt, tt))))),
              ),
            ),
          ),
        ),
      ))

pub reformat_partition_plan-IsWithin :
    (topology : StorageTopology) (device : StorageDevice) (target : ExistingPartition)
    (plan_id : Text) (plan : DevicePreparationPlan)
    → reformat_partition_plan topology device target plan_id ≡ ok plan
    → IsWithin reformat_existing_partition
        (scope_of existing_partition device.candidate_id (some target.candidate_id) none)
        plan
unfolding reformat_partition_plan existing_partition_scope
reformat_partition_plan-IsWithin topology device target plan_id plan h =
    let id = some target.candidate_id in
    let (scope, scoped, made) =
      >>=-eq-ok (existing_partition_scope device.candidate_id target.candidate_id) _ h in
    within reformat_existing_partition (scope_of existing_partition device.candidate_id id none)
      scope _ plan made
      (destructive_scope-eq-ok existing_partition device.candidate_id id none scope
        (checked_then _ _ _ scoped))
      (λ same. (
        refl,
        sym same,
        refl,
        (
          (refl, refl),
          ((partition_kind, refl), (partition_kind, (partition_kind, (tt, (tt, tt))))),
        ),
      ))

pub create_partition_in_free_space_plan-IsWithin :
    (topology : StorageTopology) (device : StorageDevice) (region : UnallocatedRegion)
    (plan_id : Text) (geometry : PlannedPartitionGeometry) (plan : DevicePreparationPlan)
    → create_partition_in_free_space_plan topology device region plan_id geometry ≡ ok plan
    → IsWithin create_partition_in_unallocated_space
        (scope_of unallocated_region device.candidate_id none (some region.id))
        plan
unfolding create_partition_in_free_space_plan unallocated_region_scope
create_partition_in_free_space_plan-IsWithin topology device region plan_id geometry plan h =
    let id = some region.id in
    let table = checked_then (not (table_type_beq device.partition_table.type_ gpt)) _ _ h in
    let suitable =
      checked_then
        (not region.suitable_for_backup_partition
          || not (is_empty region.blockers)
          || eqb region.sector_count 0)
        _ _ table in
    let sized =
      checked_then
        (eqb geometry.sector_count 0
          || eqb geometry.partition_number 0
          || ltb (uint64_max - region.sector_count) region.start_sector
          || ltb (uint64_max - geometry.sector_count) geometry.start_sector)
        _ _ suitable in
    let placed =
      checked_then
        (ltb geometry.start_sector region.start_sector
          || ltb (region.start_sector + region.sector_count)
              (geometry.start_sector + geometry.sector_count))
        _ _ sized in
    let (scope, scoped, made) =
      >>=-eq-ok (unallocated_region_scope device.candidate_id region.id) _ placed in
    within create_partition_in_unallocated_space
      (scope_of unallocated_region device.candidate_id none id) scope _ plan made
      (destructive_scope-eq-ok unallocated_region device.candidate_id none id scope
        (checked_then _ _ _ scoped))
      (λ same. (
        refl,
        sym same,
        refl,
        (
          refl,
          (
            (refl, refl, inr refl),
            ((region_kind, refl), (region_kind, (region_kind, (tt, (tt, tt))))),
          ),
        ),
      ))

pub adopt_existing_target_plan-IsWithin :
    (topology : StorageTopology) (device : StorageDevice) (target : ExistingPartition)
    (plan_id inspection_id : Text) (plan : DevicePreparationPlan)
    → adopt_existing_target_plan topology device target plan_id inspection_id ≡ ok plan
    → IsWithin adopt_existing_target
        (scope_of no_scope device.candidate_id (some target.candidate_id) none)
        plan
unfolding adopt_existing_target_plan adoption_scope
adopt_existing_target_plan-IsWithin topology device target plan_id inspection_id plan h =
    let id = some target.candidate_id in
    let inspected =
      checked_then (not target.suitable_for_adoption || is_empty inspection_id) _ _ h in
    let (scope, scoped, made) =
      >>=-eq-ok (adoption_scope device.candidate_id target.candidate_id) _ inspected in
    within adopt_existing_target (scope_of no_scope device.candidate_id id none) scope _ plan made
      (destructive_scope-eq-ok no_scope device.candidate_id id none scope
        (checked_then _ _ _ scoped))
      (λ same. (refl, sym same, refl, (tt, (tt, tt))))
