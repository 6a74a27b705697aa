-- ===== src/Provisioning/Erasure/Candidates.antt =====
-- src/provisioning/DevicePreparationPlanBuilder.cpp: the candidates that `build` finds.
use btrfs_backup.Common.{
  Bool, find, find-some, In, inl, inr, List, [], ◌∷◌, Text, Option, none, some, ◌==◌, ==_iff,
  list_eq, nat_eq, ◌≡◌, refl, sym, ap, ◌∙◌, subst,
}
use btrfs_backup.Provisioning.Topology.{
  ExistingPartition, UnallocatedRegion, StorageDevice, partitions, free_regions,
}
use btrfs_backup.Provisioning.Builder.{find_partition, find_free_region}

pub find_partition-some :
    (devices : List StorageDevice) (id : Text) (device : StorageDevice) (target : ExistingPartition)
    → find_partition devices id ≡ some (device, target)
    → In device devices × In target (partitions device.regions) × (target.candidate_id ≡ id)
unfolding find_partition
find_partition-some [] id device target h = cc
find_partition-some (d ∷ devices) id device target h =
    go (find named (partitions d.regions)) refl (find_partition-some devices id device target) h
  where
    named : ExistingPartition → Bool
    named x = x.candidate_id == id

    go :
        (found : Option ExistingPartition)
        → find named (partitions d.regions) ≡ found
        → (find_partition devices id ≡ some (device, target)
            → In device devices
              × In target (partitions device.regions)
              × (target.candidate_id ≡ id))
        → elim found [ some x ↦ some (d, x) | none ↦ find_partition devices id ]
          ≡ some (device, target)
        → In device (d ∷ devices)
          × In target (partitions device.regions)
          × (target.candidate_id ≡ id)
    go none e rest k = let found = rest k in (inr found.0, found.1, found.2)
    go (some x) e rest k =
        let (m, same) = find-some named x (partitions d.regions) e in
        let device_same : d ≡ device = cc in
        let same_target : x ≡ target = cc in
        (
          inl (sym device_same),
          subst (λ (y : ExistingPartition). In y (partitions device.regions)) same_target
              (subst (λ (y : StorageDevice). In x (partitions y.regions)) device_same m),
          sym (ap (λ (y : ExistingPartition). y.candidate_id) same_target)
              ∙ (==_iff x.candidate_id id).0 same,
        )

pub find_free_region-some :
    (devices : List StorageDevice) (id : Text) (device : StorageDevice) (region : UnallocatedRegion)
    → find_free_region devices id ≡ some (device, region)
    → In device devices × In region (free_regions device.regions) × (region.id ≡ id)
unfolding find_free_region
find_free_region-some [] id device region h = cc
find_free_region-some (d ∷ devices) id device region h =
    go (find named (free_regions d.regions)) refl (find_free_region-some devices id device region) h
  where
    named : UnallocatedRegion → Bool
    named x = x.id == id

    go :
        (found : Option UnallocatedRegion)
        → find named (free_regions d.regions) ≡ found
        → (find_free_region devices id ≡ some (device, region)
            → In device devices × In region (free_regions device.regions) × (region.id ≡ id))
        → elim found [ some x ↦ some (d, x) | none ↦ find_free_region devices id ]
          ≡ some (device, region)
        → In device (d ∷ devices) × In region (free_regions device.regions) × (region.id ≡ id)
    go none e rest k = let found = rest k in (inr found.0, found.1, found.2)
    go (some x) e rest k =
        let (m, same) = find-some named x (free_regions d.regions) e in
        let device_same : d ≡ device = cc in
        let same_region : x ≡ region = cc in
        (
          inl (sym device_same),
          subst (λ (y : UnallocatedRegion). In y (free_regions device.regions)) same_region
              (subst (λ (y : StorageDevice). In x (free_regions y.regions)) device_same m),
          sym (ap (λ (y : UnallocatedRegion). y.id) same_region) ∙ (==_iff x.id id).0 same,
        )
