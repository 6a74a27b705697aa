-- ===== src/Tests/Preparations.antt =====
-- The check before a device preparation at a sample topology.
use btrfs_backup.Common.{
  Bool, true, false, ℕ, In, [], ◌∷◌, List, Text, text, Option, none, some, ◌≡◌, ◌≢◌, ◌==◌, ==_iff,
  list_eq, nat_eq, ◌⊎◌, inl, inr, refl, arith,
}
use btrfs_backup.Core.Errors.{ok}
use btrfs_backup.Provisioning.Topology.{
  no_table, gpt, UnallocatedRegion, unallocated, StableBlockDeviceIdentity, FilesystemDescription,
  filesystem_beq, ExistingPartition, partition, StorageDevice, StorageTopology,
}
use btrfs_backup.Provisioning.Plan.{
  ProvisioningMode, erase_whole_device, reformat_existing_partition, DestructiveScopeKind,
  whole_device, existing_partition, DevicePreparationPlan, StorageLayout, PlannedPartitionGeometry,
  create_partition_in_unallocated_space, unallocated_region, backup_partition_table,
  create_backup_partition, format_luks2, open_luks_mapping, format_btrfs, verify_prepared_target,
  publish_profile,
}
use btrfs_backup.Provisioning.Builder.{
  predicted_region, current_layout, target_region, free_part, build,
}
use btrfs_backup.Provisioning.Layout.{
  KeepsPartitions, create_partition_in_free_space_plan-KeepsPartitions,
}
use btrfs_backup.Provisioning.Inspector.{current_partition, inspect}
use btrfs_backup.Provisioning.Safety.{IsUnused, inspect-IsUnused, inspect-target}
use btrfs_backup.Provisioning.Erasure.{Covers, build-Covers}

abbrev id : Text
id = b'd' ∷ []

abbrev part_id : Text
part_id = b'p' ∷ []

abbrev identity : Text → StableBlockDeviceIdentity
identity path = record {
  display_path = path;
  major_minor = 8 ∷ [];
  sysfs_path = [];
  wwn = [];
  serial = [];
  serial_short = [];
  size_bytes = 9;
}

abbrev filesystem : FilesystemDescription
filesystem = record { type_ = []; version = []; label = []; uuid = [] }

abbrev target : ExistingPartition
target = record {
  candidate_id = part_id;
  identity = identity part_id;
  partition_uuid = none;
  partition_label = none;
  partition_number = 1;
  start_sector = 4;
  sector_count = 5;
  filesystem = filesystem;
  mount_points = [];
  holders = [];
  active_swap = false;
  blockers = [];
  configured_backup_target = false;
  suitable_for_reformat = true;
  suitable_for_adoption = false;
}

abbrev device : StorageDevice
device = record {
  candidate_id = id;
  identity = identity id;
  display_name = [];
  transport = [];
  size_bytes = 9;
  logical_sector_size = 1;
  physical_sector_size = 1;
  removable = true;
  read_only = false;
  hotplug = true;
  system_device = false;
  partition_table = record { type_ = no_table; identifier = [] };
  filesystem = filesystem;
  regions = partition target ∷ [];
  mount_points = [];
  holders = [];
  active_swap = false;
  blockers = [];
}

abbrev topology : StorageTopology
topology = record { generation = 1 ∷ []; devices = device ∷ [] }

-- The same, with the partition mounted.
abbrev mounted : StorageTopology
mounted = record {
  generation = 1 ∷ [];
  devices =
      record device { regions = partition (record target { mount_points = (7 ∷ []) ∷ [] }) ∷ [] }
      ∷ [];
}

abbrev layout : StorageLayout
layout = record {
  device_id = id;
  size_bytes = 9;
  logical_sector_size = 1;
  partition_table_type = no_table;
  regions = [];
}

abbrev erasing : DevicePreparationPlan
erasing = record {
  id = 1 ∷ [];
  topology_generation = 1 ∷ [];
  mode = erase_whole_device;
  device_id = id;
  partition_id = none;
  free_region_id = none;
  inspection_id = none;
  before = layout;
  after = layout;
  operations = [];
  warnings = [];
  destructive_scope = record {
    kind = whole_device;
    device_id = id;
    partition_id = none;
    free_region_id = none;
  };
}

abbrev reformatting : DevicePreparationPlan
reformatting = record {
  id = 1 ∷ [];
  topology_generation = 1 ∷ [];
  mode = reformat_existing_partition;
  device_id = id;
  partition_id = some part_id;
  free_region_id = none;
  inspection_id = none;
  before = layout;
  after = layout;
  operations = [];
  warnings = [];
  destructive_scope = record {
    kind = existing_partition;
    device_id = id;
    partition_id = some part_id;
    free_region_id = none;
  };
}

inspect-IsUnused_example : IsUnused target
unfolding inspect btrfs_backup.Common.list_beq
inspect-IsUnused_example =
    inspect-IsUnused topology topology erasing device device target refl refl refl (inl refl)
      (inl refl)

inspect-target_example :
    (now : ExistingPartition) × (current_partition device target ≡ some now)
    × (now.start_sector ≡ target.start_sector)
    × (now.sector_count ≡ target.sector_count)
    × (filesystem_beq target.filesystem now.filesystem ≡ true)
    × IsUnused now
unfolding inspect btrfs_backup.Common.list_beq
inspect-target_example =
    inspect-target topology topology reformatting device device part_id target refl refl refl
      (inl refl) refl refl

-- A mounted partition is in the way.
mounted_blocked :
    inspect topology mounted erasing
    ≡ record { code = text "mounted-filesystem"; detail = 7 ∷ [] } ∷ []
unfolding inspect btrfs_backup.Common.list_beq text
mounted_blocked = refl

abbrev free : UnallocatedRegion
free = record {
  id = b'f' ∷ [];
  start_sector = 20;
  sector_count = 10;
  blockers = [];
  suitable_for_backup_partition = true;
}

-- A device with a partition and free space.
abbrev roomy : StorageDevice
roomy = record device {
  partition_table = record { type_ = gpt; identifier = [] };
  regions = partition target ∷ unallocated free ∷ [];
}

abbrev geometry : PlannedPartitionGeometry
geometry = record { start_sector = 22; sector_count = 5; partition_number = 2 }

abbrev creating : DevicePreparationPlan
creating = record {
  id = 1 ∷ [];
  topology_generation = 1 ∷ [];
  mode = create_partition_in_unallocated_space;
  device_id = id;
  partition_id = none;
  free_region_id = some free.id;
  inspection_id = none;
  before = current_layout roomy;
  after = record (current_layout roomy) {
    regions =
        predicted_region (partition target)
        ∷ free_part (text "f:before") 20 2
        ∷ target_region geometry
        ∷ free_part (text "f:after") 27 3
        ∷ [];
  };
  operations =
      backup_partition_table id
      ∷ create_backup_partition id (some free.id) (some geometry)
      ∷ format_luks2 none
      ∷ open_luks_mapping
      ∷ format_btrfs
      ∷ verify_prepared_target
      ∷ publish_profile
      ∷ [];
  warnings = record { code = text "create-partition-in-unallocated-space"; detail = id } ∷ [];
  destructive_scope = record {
    kind = unallocated_region;
    device_id = id;
    partition_id = none;
    free_region_id = some free.id;
  };
}

-- The planner finds the free space.
built :
    build
      (record { generation = 1 ∷ []; devices = roomy ∷ [] })
      (1 ∷ [])
      free.id
      create_partition_in_unallocated_space
      (1 ∷ [])
      none
      (some geometry)
    ≡ ok creating
unfolding build btrfs_backup.Common.list_beq btrfs_backup.Provisioning.Builder.uint64_max
    btrfs_backup.Provisioning.Plan.validate text
built = refl

build-Covers_example :
    Covers
      (record { generation = 1 ∷ []; devices = roomy ∷ [] })
      free.id
      create_partition_in_unallocated_space
      creating
      creating.destructive_scope
build-Covers_example =
    build-Covers (record { generation = 1 ∷ []; devices = roomy ∷ [] }) (1 ∷ []) free.id
      create_partition_in_unallocated_space (1 ∷ []) none (some geometry) creating built

name_apart : {b : Bool} → b ≡ true → b ≡ false → ⊥
name_apart h k = cc

other_name : part_id ≢ free.id
unfolding btrfs_backup.Common.list_beq
other_name e = name_apart ((==_iff part_id free.id).1 e) refl

create_partition_in_free_space_plan-KeepsPartitions_example :
    KeepsPartitions roomy free geometry creating
unfolding btrfs_backup.Provisioning.Topology.partitions btrfs_backup.Common.find
    btrfs_backup.Provisioning.Topology.free_regions btrfs_backup.Common.list_beq
    btrfs_backup.Provisioning.Builder.create_partition_in_free_space_plan
    btrfs_backup.Provisioning.Builder.uint64_max btrfs_backup.Provisioning.Plan.validate text
create_partition_in_free_space_plan-KeepsPartitions_example =
    create_partition_in_free_space_plan-KeepsPartitions topology roomy free (1 ∷ []) geometry
      creating (other_name, tt) refl refl
