-- ===== src/Provisioning/Plan.antt =====
-- src/provisioning/DevicePreparationPlan.hpp and .cpp: the plan of a device preparation, and what it
-- may erase.
use btrfs_backup.Common.{
  Bool, List, ℕ, true, false, not, ◌||◌, is_empty, if◌then◌else◌, Text, text, Option, none, some,
  ◌==◌, list_eq, nat_eq, option_eq,
}
use btrfs_backup.Provisioning.Topology.{PartitionTableType}
use btrfs_backup.Core.Errors.{Result, ok, validation_error, throw_if, ◌>>◌}

pub data PredictedRegionKind : Type 0 where
  predicted_partition : PredictedRegionKind
  predicted_free : PredictedRegionKind
  backup_partition : PredictedRegionKind

pub record PredictedStorageRegion : Type 0 where
  pub id : Text
  pub kind : PredictedRegionKind
  pub start_sector : ℕ
  pub sector_count : ℕ
  pub partition_number : Option ℕ
  pub display_path : Text
  pub partition_label : Text
  pub filesystem_type : Text
  pub geometry_exact : Bool
  pub encrypted : Bool
  pub changed : Bool
  pub data_will_be_erased : Bool

pub record StorageLayout : Type 0 where
  pub device_id : Text
  pub size_bytes : ℕ
  pub logical_sector_size : ℕ
  pub partition_table_type : PartitionTableType
  pub regions : List PredictedStorageRegion

pub record PlannedPartitionGeometry : Type 0 where
  pub start_sector : ℕ
  pub sector_count : ℕ
  pub partition_number : ℕ

pub data PlannedStorageOperation : Type 0 where
  backup_partition_table : Text → PlannedStorageOperation
  erase_device_signatures : Text → PlannedStorageOperation
  erase_partition_signatures : Text → PlannedStorageOperation
  create_gpt_partition_table : Text → PlannedStorageOperation
  create_backup_partition :
      Text → Option Text → Option PlannedPartitionGeometry → PlannedStorageOperation
  format_luks2 : Option Text → PlannedStorageOperation
  open_luks_mapping : PlannedStorageOperation
  format_btrfs : PlannedStorageOperation
  verify_prepared_target : PlannedStorageOperation
  publish_profile : PlannedStorageOperation

pub record SafetyWarning : Type 0 where
  pub code : Text
  pub detail : Text

pub data ProvisioningMode : Type 0 where
  erase_whole_device : ProvisioningMode
  reformat_existing_partition : ProvisioningMode
  create_partition_in_unallocated_space : ProvisioningMode
  adopt_existing_target : ProvisioningMode

pub data DestructiveScopeKind : Type 0 where
  no_scope : DestructiveScopeKind
  whole_device : DestructiveScopeKind
  existing_partition : DestructiveScopeKind
  unallocated_region : DestructiveScopeKind

pub record DestructiveScope : Type 0 where
  pub kind : DestructiveScopeKind
  pub device_id : Text
  pub partition_id : Option Text
  pub free_region_id : Option Text

pub record DevicePreparationPlan : Type 0 where
  pub id : Text
  pub topology_generation : Text
  pub mode : ProvisioningMode
  pub device_id : Text
  pub partition_id : Option Text
  pub free_region_id : Option Text
  pub inspection_id : Option Text
  pub before : StorageLayout
  pub after : StorageLayout
  pub operations : List PlannedStorageOperation
  pub warnings : List SafetyWarning
  pub destructive_scope : DestructiveScope

abbrev pub require_identifier : Text → Text → Result (Unit {0})
require_identifier value message = throw_if (is_empty value) (validation_error message)

-- The constructor of the class.
unfoldable pub destructive_scope :
    DestructiveScopeKind → Text → Option Text → Option Text → Result DestructiveScope
destructive_scope kind device_id partition_id free_region_id = do
  require_identifier device_id (text "destructive scope device identifier is empty")
  ok (record {
    kind = kind;
    device_id = device_id;
    partition_id = partition_id;
    free_region_id = free_region_id;
  })

unfoldable pub whole_device_scope : Text → Result DestructiveScope
unfolding destructive_scope
whole_device_scope device_id = destructive_scope whole_device device_id none none

unfoldable pub existing_partition_scope : Text → Text → Result DestructiveScope
unfolding destructive_scope
existing_partition_scope device_id partition_id = do
  require_identifier partition_id (text "destructive scope partition identifier is empty")
  destructive_scope existing_partition device_id (some partition_id) none

unfoldable pub unallocated_region_scope : Text → Text → Result DestructiveScope
unfolding destructive_scope
unallocated_region_scope device_id free_region_id = do
  require_identifier free_region_id (text "destructive scope free-region identifier is empty")
  destructive_scope unallocated_region device_id none (some free_region_id)

unfoldable pub adoption_scope : Text → Text → Result DestructiveScope
unfolding destructive_scope
adoption_scope device_id partition_id = do
  require_identifier partition_id (text "adoption scope partition identifier is empty")
  destructive_scope no_scope device_id (some partition_id) none

abbrev pub has_value : {A : Type 0} → Option A → Bool
has_value none = false
has_value (some a) = true

unfoldable pub scope_kind_beq : DestructiveScopeKind → DestructiveScopeKind → Bool
scope_kind_beq no_scope no_scope = true
scope_kind_beq whole_device whole_device = true
scope_kind_beq existing_partition existing_partition = true
scope_kind_beq unallocated_region unallocated_region = true
scope_kind_beq _ _ = false

-- An identifier that is there and empty.
abbrev pub names_nothing : Option Text → Bool
names_nothing none = false
names_nothing (some value) = is_empty value

-- What contradicts the mode of a plan, and the message about it.
unfoldable pub contradiction : DevicePreparationPlan → ProvisioningMode → Bool × Text
unfolding scope_kind_beq
contradiction plan erase_whole_device = (
  has_value plan.partition_id
      || has_value plan.free_region_id
      || has_value plan.inspection_id
      || not (scope_kind_beq plan.destructive_scope.kind whole_device),
  text "whole-device preparation plan has a contradictory target",
)
contradiction plan reformat_existing_partition = (
  not (has_value plan.partition_id)
      || has_value plan.free_region_id
      || has_value plan.inspection_id
      || not (scope_kind_beq plan.destructive_scope.kind existing_partition)
      || not (plan.destructive_scope.partition_id == plan.partition_id),
  text "partition preparation plan has a contradictory target",
)
contradiction plan create_partition_in_unallocated_space = (
  has_value plan.partition_id
      || not (has_value plan.free_region_id)
      || has_value plan.inspection_id
      || not (scope_kind_beq plan.destructive_scope.kind unallocated_region)
      || not (plan.destructive_scope.free_region_id == plan.free_region_id),
  text "free-space preparation plan has a contradictory target",
)
contradiction plan adopt_existing_target = (
  not (has_value plan.partition_id)
      || has_value plan.free_region_id
      || not (has_value plan.inspection_id)
      || names_nothing plan.inspection_id
      || not (scope_kind_beq plan.destructive_scope.kind no_scope)
      || not (plan.destructive_scope.partition_id == plan.partition_id),
  text "adoption preparation plan has a contradictory target",
)

unfoldable pub validate : DevicePreparationPlan → Result (Unit {0})
unfolding contradiction
validate plan = do
  require_identifier plan.id (text "device preparation plan identifier is empty")
  require_identifier plan.topology_generation
      (text "device preparation topology generation is empty")
  require_identifier plan.device_id (text "device preparation device identifier is empty")
  throw_if (not (plan.destructive_scope.device_id == plan.device_id))
      (validation_error (text "device preparation scope selects a different device"))
  throw_if (contradiction plan plan.mode).0 (validation_error (contradiction plan plan.mode).1)

unfoldable pub provisioning_mode_name : ProvisioningMode → Text
provisioning_mode_name erase_whole_device = text "erase-whole-device"
provisioning_mode_name reformat_existing_partition = text "reformat-existing-partition"
provisioning_mode_name create_partition_in_unallocated_space =
    text "create-partition-in-unallocated-space"
provisioning_mode_name adopt_existing_target = text "adopt-existing-target"

unfoldable pub provisioning_mode_from_name : Text → Option ProvisioningMode
provisioning_mode_from_name name =
    if name == text "erase-whole-device"
    then some erase_whole_device
    else if name == text "reformat-existing-partition"
    then some reformat_existing_partition
    else if name == text "create-partition-in-unallocated-space"
    then some create_partition_in_unallocated_space
    else if name == text "adopt-existing-target"
    then some adopt_existing_target
    else none
