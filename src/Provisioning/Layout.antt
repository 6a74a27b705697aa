-- ===== src/Provisioning/Layout.antt =====
-- src/provisioning/DevicePreparationPlanBuilder.cpp: the layout that a new partition leads to.
use btrfs_backup.Common.{
  Bool, true, false, not, ◌||◌, Bool-cases, inl, inr, ℕ, ◌+◌, ◌-◌, ◌≤◌, eqb, ltb, find, is_empty,
  All, In, In-append_left, In-append_right, map, List, [], ◌∷◌, ◌++◌, Text, some, ◌==◌, ==_iff,
  list_eq, nat_eq, ◌≡◌, ◌≢◌, refl, sym, ap, ◌∙◌, subst, arith,
}
use btrfs_backup.Core.Errors.{Error, Result, ok, throw_if, ◌>>◌, >>=-eq-ok}
use btrfs_backup.Provisioning.Topology.{
  table_type_beq, gpt, ExistingPartition, UnallocatedRegion, StorageRegion, partition, unallocated,
  StorageDevice, StorageTopology, partitions, free_regions,
}
use btrfs_backup.Provisioning.Plan.{
  predicted_partition, predicted_free, PredictedStorageRegion, PlannedPartitionGeometry,
  DevicePreparationPlan, unallocated_region_scope, validate,
}
use btrfs_backup.Provisioning.Builder.{
  predicted_region, current_layout, target_region, validated, leading_free, trailing_free,
  free_part, replacements, replace_first, create_partition_in_free_space_plan, uint64_max,
}

-- The sectors of all regions.
abbrev pub total_sectors : List PredictedStorageRegion → ℕ
total_sectors [] = 0
total_sectors (region ∷ regions) = region.sector_count + total_sectors regions

total_sectors-append :
    (a b : List PredictedStorageRegion) → total_sectors (a ++ b) ≡ total_sectors a + total_sectors b
total_sectors-append [] b = omega arith
total_sectors-append (r ∷ a) b = omega (arith, total_sectors-append a b)

abbrev named : Text → PredictedStorageRegion → Bool
named id region = region.id == id

total_sectors-replace_first :
    (new : List PredictedStorageRegion) (id : Text) (regions : List PredictedStorageRegion)
    (old : PredictedStorageRegion)
    → find (named id) regions ≡ some old
    → total_sectors (replace_first new id regions) + old.sector_count
      ≡ total_sectors regions + total_sectors new
unfolding replace_first find
total_sectors-replace_first new id [] old h = ground arith
total_sectors-replace_first new id (r ∷ regions) old h = elim (Bool-cases (r.id == id)) [
  | inl here ↦
      let same : r ≡ old = ground arith in
      rw here (
        omega (
          arith,
          total_sectors-append new regions,
          ap (λ (q : PredictedStorageRegion). q.sector_count) same,
        ))
  | inr there ↦
      let later : find (named id) regions ≡ some old = ground arith in
      rw there (omega (arith, total_sectors-replace_first new id regions old later))
]

In-replace_first :
    (new : List PredictedStorageRegion) (id : Text) (regions : List PredictedStorageRegion)
    (r : PredictedStorageRegion)
    → In r regions
    → r.id ≢ id
    → In r (replace_first new id regions)
unfolding replace_first
In-replace_first new id [] r m h = elim m [ ]
In-replace_first new id (q ∷ regions) r m h = elim (Bool-cases (q.id == id)) [
  | inl here ↦ rw here (elim m [
    | inl e ↦ elim (h (ap (λ (p : PredictedStorageRegion). p.id) e ∙ (==_iff q.id id).0 here)) [ ]
    | inr n ↦ In-append_right r new regions n
  ])
  | inr there ↦
      rw there (elim m [ inl e ↦ inl e | inr n ↦ inr (In-replace_first new id regions r n h) ])
]

-- No partition has an identifier.
abbrev pub IsFreeName : Text → List ExistingPartition → Type 0
IsFreeName id ps = All (λ p. p.candidate_id ≢ id) ps

find-predicted_region :
    (id : Text) (regions : List StorageRegion) (free : UnallocatedRegion)
    → IsFreeName id (partitions regions)
    → find (λ (r : UnallocatedRegion). r.id == id) (free_regions regions) ≡ some free
    → find (named id) (map predicted_region regions) ≡ some (predicted_region (unallocated free))
unfolding partitions free_regions find predicted_region
find-predicted_region id [] free names h = ground arith
find-predicted_region id (partition p ∷ regions) free names h =
    ground
      (arith, ==_iff p.candidate_id id, names.0, find-predicted_region id regions free names.1 h)
find-predicted_region id (unallocated r ∷ regions) free names h = elim (Bool-cases (r.id == id)) [
  | inl here ↦ grind arith
  | inr there ↦ ground (arith, find-predicted_region id regions free names)
]

kinds_apart : predicted_free ≡ predicted_partition → ⊥
kinds_apart h = cc

In_partition-id :
    (id : Text) (regions : List StorageRegion) (r : PredictedStorageRegion)
    → IsFreeName id (partitions regions)
    → In r (map predicted_region regions)
    → r.kind ≡ predicted_partition
    → r.id ≢ id
unfolding partitions predicted_region
In_partition-id id [] r names m k e = elim m [ ]
In_partition-id id (partition p ∷ regions) r names (inl same) k e =
    names.0 (sym (ap (λ (q : PredictedStorageRegion). q.id) same) ∙ e)
In_partition-id id (unallocated u ∷ regions) r names (inl same) k e =
    kinds_apart (sym (ap (λ (q : PredictedStorageRegion). q.kind) same) ∙ k)
In_partition-id id (partition p ∷ regions) r names (inr m) k e =
    In_partition-id id regions r names.1 m k e
In_partition-id id (unallocated u ∷ regions) r names (inr m) k e =
    In_partition-id id regions r names m k e

total_sectors-replacements :
    (free : UnallocatedRegion) (geometry : PlannedPartitionGeometry)
    → free.start_sector ≤ geometry.start_sector
    → geometry.start_sector + geometry.sector_count ≤ free.start_sector + free.sector_count
    → total_sectors (replacements free geometry) ≡ free.sector_count
unfolding replacements leading_free trailing_free target_region free_part
total_sectors-replacements free geometry h k = ground arith

same_sectors :
    (new : List PredictedStorageRegion) (free : UnallocatedRegion)
    (regions : List PredictedStorageRegion)
    → find (named free.id) regions ≡ some (predicted_region (unallocated free))
    → total_sectors new ≡ free.sector_count
    → total_sectors (replace_first new free.id regions) ≡ total_sectors regions
unfolding predicted_region
same_sectors new free regions first count = omega (
  arith,
  count,
  total_sectors-replace_first new free.id regions (predicted_region (unallocated free)) first,
)

-- What is new is there, where there is a region to replace.
In_new-replace_first :
    (new : List PredictedStorageRegion) (id : Text) (regions : List PredictedStorageRegion)
    (r old : PredictedStorageRegion)
    → find (named id) regions ≡ some old
    → In r new
    → In r (replace_first new id regions)
unfolding replace_first find
In_new-replace_first new id [] r old h m = ground arith
In_new-replace_first new id (q ∷ regions) r old h m = elim (Bool-cases (q.id == id)) [
  | inl here ↦ rw here (In-append_left r new regions m)
  | inr there ↦
      let later : find (named id) regions ≡ some old = ground arith in
      rw there (inr (In_new-replace_first new id regions r old later m))
]

In-replacements :
    (free : UnallocatedRegion) (geometry : PlannedPartitionGeometry)
    → In (target_region geometry) (replacements free geometry)
unfolding replacements
In-replacements free geometry =
    In-append_right (target_region geometry) (leading_free free geometry)
      (target_region geometry ∷ trailing_free free geometry) (inl refl)

checked_then :
    {B : Type 0} (test : Bool) (e : Error) (rest : Result B) {b : B}
    → (throw_if test e >> rest) ≡ ok b
    → (test ≡ false) × (rest ≡ ok b)
checked_then true e rest h = cc
checked_then false e rest h = (refl, h)

validated-eq-ok :
    (made plan : DevicePreparationPlan)
    → validated made ≡ ok plan
    → (validate made ≡ ok tt) × (made ≡ plan)
validated-eq-ok made plan h =
    let (done, checked, same) = >>=-eq-ok (validate made) (λ _. ok made) h in (checked, cc)

-- What a plan for a new partition promises: its checks pass, the partition is within the free
-- region, the regions have as many sectors as before, and every partition that was on the device
-- is there as it was.
pub record KeepsPartitions (device : StorageDevice) (free : UnallocatedRegion)
    (geometry : PlannedPartitionGeometry) (plan : DevicePreparationPlan) : Type 0 where
  pub valid : validate plan ≡ ok tt
  pub begins : free.start_sector ≤ geometry.start_sector
  pub ends : geometry.start_sector + geometry.sector_count ≤ free.start_sector + free.sector_count
  pub sectors : total_sectors plan.after.regions ≡ total_sectors plan.before.regions
  pub target : In (target_region geometry) plan.after.regions
  pub kept :
      (r : PredictedStorageRegion)
      → In r (map predicted_region device.regions)
      → r.kind ≡ predicted_partition
      → In r plan.after.regions

-- A plan for a new partition in free space, where no partition of the device has the identifier of
-- the free region: it passes its own checks, the new partition is within the free region and among
-- the regions afterwards, the regions have as many sectors as before, and every partition that the
-- device has is among them unchanged.
pub create_partition_in_free_space_plan-KeepsPartitions :
    (topology : StorageTopology) (device : StorageDevice) (free : UnallocatedRegion)
    (plan_id : Text) (geometry : PlannedPartitionGeometry) (plan : DevicePreparationPlan)
    → IsFreeName free.id (partitions device.regions)
    → find (λ (r : UnallocatedRegion). r.id == free.id) (free_regions device.regions) ≡ some free
    → create_partition_in_free_space_plan topology device free plan_id geometry ≡ ok plan
    → KeepsPartitions device free geometry plan
unfolding create_partition_in_free_space_plan current_layout
create_partition_in_free_space_plan-KeepsPartitions topology device free plan_id geometry plan names
      found h =
    let table = checked_then (not (table_type_beq device.partition_table.type_ gpt)) _ _ h in
    let suitable =
      checked_then
        (not free.suitable_for_backup_partition
          || not (is_empty free.blockers)
          || eqb free.sector_count 0)
        _ _ table.1 in
    let sized =
      checked_then
        (eqb geometry.sector_count 0
          || eqb geometry.partition_number 0
          || ltb (uint64_max - free.sector_count) free.start_sector
          || ltb (uint64_max - geometry.sector_count) geometry.start_sector)
        _ _ suitable.1 in
    let placed =
      checked_then
        (ltb geometry.start_sector free.start_sector
          || ltb (free.start_sector + free.sector_count)
              (geometry.start_sector + geometry.sector_count))
        _ _ sized.1 in
    let (scope, scoped, checked) =
      >>=-eq-ok (unallocated_region_scope device.candidate_id free.id) _ placed.1 in
    let (valid, same) = validated-eq-ok _ plan checked in
    let begins : free.start_sector ≤ geometry.start_sector = ground (arith, placed.0) in
    let ends_ : geometry.start_sector + geometry.sector_count
        ≤ free.start_sector + free.sector_count =
      ground (arith, placed.0) in
    let regions = map predicted_region device.regions in
    let first = find-predicted_region free.id device.regions free names found in
    subst (KeepsPartitions device free geometry) same (record {
      valid = valid;
      begins = begins;
      ends = ends_;
      sectors =
          same_sectors (replacements free geometry) free regions first
            (total_sectors-replacements free geometry begins ends_);
      target =
          In_new-replace_first (replacements free geometry) free.id regions _ _ first
            (In-replacements free geometry);
      kept = λ r m k.
          In-replace_first (replacements free geometry) free.id regions r m
            (In_partition-id free.id device.regions r names m k);
    })
