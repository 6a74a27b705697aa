-- ===== src/Provisioning/Topology.antt =====
-- src/provisioning/StorageTopology.hpp: the block devices that were found.
use btrfs_backup.Common.{
  Bool, true, false, ◌&&◌, ℕ, List, [], ◌∷◌, Text, Option, ◌==◌, list_eq, nat_eq,
}

pub data PartitionTableType : Type 0 where
  no_table : PartitionTableType
  gpt : PartitionTableType
  mbr : PartitionTableType
  unsupported : PartitionTableType

unfoldable pub table_type_beq : PartitionTableType → PartitionTableType → Bool
table_type_beq PartitionTableType.no_table PartitionTableType.no_table = true
table_type_beq PartitionTableType.gpt PartitionTableType.gpt = true
table_type_beq PartitionTableType.mbr PartitionTableType.mbr = true
table_type_beq PartitionTableType.unsupported PartitionTableType.unsupported = true
table_type_beq _ _ = false

pub record SafetyBlocker : Type 0 where
  pub code : Text
  pub detail : Text

unfoldable pub blocker_beq : SafetyBlocker → SafetyBlocker → Bool
blocker_beq a b = a.code == b.code && a.detail == b.detail

pub record StableBlockDeviceIdentity : Type 0 where
  pub display_path : Text
  pub major_minor : Text
  pub sysfs_path : Text
  pub wwn : Text
  pub serial : Text
  pub serial_short : Text
  pub size_bytes : ℕ

pub record PartitionTableDescription : Type 0 where
  pub type_ : PartitionTableType
  pub identifier : Text

unfoldable pub table_beq : PartitionTableDescription → PartitionTableDescription → Bool
unfolding table_type_beq
table_beq a b = table_type_beq a.type_ b.type_ && a.identifier == b.identifier

pub record FilesystemDescription : Type 0 where
  pub type_ : Text
  pub version : Text
  pub label : Text
  pub uuid : Text

unfoldable pub filesystem_beq : FilesystemDescription → FilesystemDescription → Bool
filesystem_beq a b =
    a.type_ == b.type_ && a.version == b.version && a.label == b.label && a.uuid == b.uuid

pub record ExistingPartition : Type 0 where
  pub candidate_id : Text
  pub identity : StableBlockDeviceIdentity
  pub partition_uuid : Option Text
  pub partition_label : Option Text
  pub partition_number : ℕ
  pub start_sector : ℕ
  pub sector_count : ℕ
  pub filesystem : FilesystemDescription
  pub mount_points : List Text
  pub holders : List Text
  pub active_swap : Bool
  pub blockers : List SafetyBlocker
  pub configured_backup_target : Bool
  pub suitable_for_reformat : Bool
  pub suitable_for_adoption : Bool

pub record UnallocatedRegion : Type 0 where
  pub id : Text
  pub start_sector : ℕ
  pub sector_count : ℕ
  pub blockers : List SafetyBlocker
  pub suitable_for_backup_partition : Bool

pub data StorageRegion : Type 0 where
  partition : ExistingPartition → StorageRegion
  unallocated : UnallocatedRegion → StorageRegion

pub record StorageDevice : Type 0 where
  pub candidate_id : Text
  pub identity : StableBlockDeviceIdentity
  pub display_name : Text
  pub transport : Text
  pub size_bytes : ℕ
  pub logical_sector_size : ℕ
  pub physical_sector_size : ℕ
  pub removable : Bool
  pub read_only : Bool
  pub hotplug : Bool
  pub system_device : Bool
  pub partition_table : PartitionTableDescription
  pub filesystem : FilesystemDescription
  pub regions : List StorageRegion
  pub mount_points : List Text
  pub holders : List Text
  pub active_swap : Bool
  pub blockers : List SafetyBlocker

pub record StorageTopology : Type 0 where
  pub generation : Text
  pub devices : List StorageDevice

-- `std::get_if<ExistingPartition>` over the regions.
unfoldable pub partitions : List StorageRegion → List ExistingPartition
partitions [] = []
partitions (partition p ∷ regions) = p ∷ partitions regions
partitions (unallocated r ∷ regions) = partitions regions

-- `std::get_if<UnallocatedRegion>` over the regions.
unfoldable pub free_regions : List StorageRegion → List UnallocatedRegion
free_regions [] = []
free_regions (partition p ∷ regions) = free_regions regions
free_regions (unallocated r ∷ regions) = r ∷ free_regions regions
