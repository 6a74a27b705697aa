-- ===== src/Backup/RunPlan/Names.antt =====
-- The snapshot names that src/backup/model/BackupRunPlan.cpp gives out.
use btrfs_backup.Common.{
  true, false, ℕ, zero, suc, ◌+◌, ◌≤◌, ◌<◌, List, ◌≡◌, ◌⊎◌, inl, inr, refl, Text, Option, none,
  some, Bool-cases, arith, sym,
}
use native.Mathlib.Decide.{ℕ_discrete}
use btrfs_backup.Core.Errors.{Error, ok, err}
use btrfs_backup.Core.Time.{RuntimeTimePoint}
use btrfs_backup.Backup.Snapshot.{SourceId, SnapshotInfo}
use btrfs_backup.Backup.RunPlan.{
  name_exists, base_name, sequence_name, first_free, named_or_error, planned_snapshot_name,
}

module _ (base : Text) (locals : List SnapshotInfo) where
  abbrev pub IsTaken : ℕ → Type 0
  IsTaken k = name_exists locals (sequence_name base k) ≡ true

  -- The least free number among those that are tried.
  pub record IsFirstFree (sequence left : ℕ) (name : Text) : Type 0 where
    pub number : ℕ
    pub from : sequence ≤ number
    pub below : number < sequence + left
    pub named : name ≡ sequence_name base number
    pub free : name_exists locals name ≡ false
    pub earlier_taken : (j : ℕ) → sequence ≤ j → j < number → IsTaken j

  first_free-IsFirstFree :
      (left sequence : ℕ) (name : Text)
      → first_free base locals left sequence ≡ some name
      → IsFirstFree sequence left name
  unfolding first_free
  first_free-IsFirstFree zero sequence name h = cc
  first_free-IsFirstFree (suc left) sequence name h =
      elim (Bool-cases (name_exists locals (sequence_name base sequence))) [
        | inr free ↦
            let e : sequence_name base sequence ≡ name = ground arith in
            record {
              number = sequence;
              from = omega arith;
              below = omega arith;
              named = sym e;
              free = rw (← e) free;
              earlier_taken = λ j a b. absurd (omega arith);
            }
        | inl taken ↦
            let r = first_free-IsFirstFree left (suc sequence) name (ground arith) in
            record {
              number = r.number;
              from = omega (arith, r.from);
              below = omega (arith, r.below);
              named = r.named;
              free = r.free;
              earlier_taken = λ j a b. elim (ℕ_discrete sequence j) [
                | yes e ↦ rw (← e) taken
                | no n ↦ r.earlier_taken j (omega arith) b
              ];
            }
      ]

  first_free-none :
      (left sequence : ℕ)
      → first_free base locals left sequence ≡ none
      → (j : ℕ) → sequence ≤ j
      → j < sequence + left
      → IsTaken j
  unfolding first_free
  first_free-none zero sequence h j a b = absurd (omega arith)
  first_free-none (suc left) sequence h j a b =
      elim (Bool-cases (name_exists locals (sequence_name base sequence))) [
        | inr free ↦ absurd (ground arith)
        | inl taken ↦ elim (ℕ_discrete sequence j) [
          | yes e ↦ rw (← e) taken
          | no n ↦ first_free-none left (suc sequence) (ground arith) j (omega arith) (omega arith)
        ]
      ]

module _ (source_id : SourceId) (timestamp : RuntimeTimePoint) (locals : List SnapshotInfo) where
  abbrev base : Text
  base = base_name source_id timestamp

  -- A planned name is no name of a local snapshot: it is the name of the time stamp alone if that
  -- is free, and else the first free one with a number from 1 to 99.
  pub planned_snapshot_name_free :
      (name : Text)
      → planned_snapshot_name source_id timestamp locals ≡ ok name
      → (name ≡ base) × (name_exists locals name ≡ false)
        ⊎ (name_exists locals base ≡ true) × IsFirstFree base locals 1 99 name
  unfolding planned_snapshot_name named_or_error
  planned_snapshot_name_free name h = elim (Bool-cases (name_exists locals base)) [
    | inr free ↦ let e : base ≡ name = ground arith in inl (sym e, rw (← e) free)
    | inl taken ↦ inr (taken, first_free-IsFirstFree base locals 99 1 name (named _ (ground arith)))
  ]
    where
      named : (o : Option Text) → named_or_error source_id timestamp o ≡ ok name → o ≡ some name
      named none e = ground arith
      named (some n) e = ground arith

  -- An error is thrown only if the name of the time stamp and all 99 names with a number are
  -- taken.
  pub planned_snapshot_name_error :
      (e : Error)
      → planned_snapshot_name source_id timestamp locals ≡ err e
      → (name_exists locals base ≡ true) × ((j : ℕ) → 1 ≤ j → j ≤ 99 → IsTaken base locals j)
  unfolding planned_snapshot_name named_or_error
  planned_snapshot_name_error e h = elim (Bool-cases (name_exists locals base)) [
    | inr free ↦ absurd (ground arith)
    | inl taken ↦ (
      taken,
      λ j a b. first_free-none base locals 99 1 (refused _ (ground arith)) j a (omega arith),
    )
  ]
    where
      refused : (o : Option Text) → named_or_error source_id timestamp o ≡ err e → o ≡ none
      refused none f = refl
      refused (some n) f = ground arith
