-- ===== src/Backup/Parent/Answers.antt =====
-- What src/backup/model/IncrementalParent.cpp answers, on every branch.
use btrfs_backup.Common.{
  Bool, true, false, ◌≤◌, ◌&&◌, List, [], ◌≡◌, ◌⊎◌, inl, inr, Option, any, sort-IsSorted, ◌==◌,
  list_eq, nat_eq, arith,
}
use btrfs_backup.Core.Errors.{Result, Error, ok, err, >>=-eq-ok, >>=-eq-err}
use btrfs_backup.Config.Path.{FilePath, path_eq}
use btrfs_backup.Backup.Snapshot.{SourceId, SnapshotInfo}
use btrfs_backup.Backup.Parent.{
  RemoteTable, index_remotes, newest_first, choose_parent, selection_of, select_incremental_parent,
  incremental_transfer, full_transfer, IncrementalParentSelection,
}
use btrfs_backup.Backup.Parent.Table.{IsTableOf, index_remotes-IsTableOf}
use btrfs_backup.Backup.Parent.Pairs.{
  IsParentPair, candidates, choice-pair, choice-newest, no-choice,
}
use btrfs_backup.Backup.Parent.Ambiguity.{IsAmbiguous, index_remotes-IsAmbiguous}
use btrfs_backup.Backup.Parent.Choice.{IsChoice, choose_parent-IsChoice, newest_first-IsStrictWeak}

module _ (source_id : SourceId) (locals remotes : List SnapshotInfo) (current : Option FilePath)
    (must : Bool) where
  abbrev answer : Result IncrementalParentSelection
  answer = select_incremental_parent source_id locals remotes current must

  abbrev PairOf : SnapshotInfo → SnapshotInfo → Type 0
  PairOf l r = IsParentPair source_id locals remotes current l r

  -- What is known where the first loop succeeds.
  record Indexed (a : IncrementalParentSelection) : Type 0 where
    seen : Bool × RemoteTable
    table : IsTableOf source_id remotes (false, []) seen
    selected :
        selection_of source_id
          (seen.0 && must)
          (choose_parent seen.1 (candidates source_id locals remotes current))
        ≡ ok a

  answer-Indexed : (a : IncrementalParentSelection) → answer ≡ ok a → Indexed a
  unfolding select_incremental_parent
  answer-Indexed a h =
      let (seen, i, s) = >>=-eq-ok (index_remotes source_id (false, []) remotes) _ {b = a} h in
      record {
        seen = seen;
        table = index_remotes-IsTableOf source_id (false, []) seen remotes i;
        selected = s;
      }

  chosen :
      (l r : SnapshotInfo) (i : Indexed (incremental_transfer l r))
      → IsChoice i.seen.1 (candidates source_id locals remotes current) l r
  unfolding selection_of
  chosen l r i =
      choose_parent-IsChoice i.seen.1 (candidates source_id locals remotes current) l r
        (sort-IsSorted newest_first newest_first-IsStrictWeak _) (ground (arith, i.selected))

  -- An incremental transfer is planned only between a local snapshot and a snapshot of the target
  -- that are both read-only, both of the source and equal in contents by their UUIDs; the local
  -- one is not the snapshot that the run is about to make.
  pub select_incremental_parent-IsParentPair :
      (l r : SnapshotInfo) → answer ≡ ok (incremental_transfer l r) → PairOf l r
  select_incremental_parent-IsParentPair l r h =
      let i = answer-Indexed (incremental_transfer l r) h in
      choice-pair source_id locals remotes current i.seen i.table l r (chosen l r i)

  -- No pair that would do has a local snapshot that comes before the planned one in the order
  -- from newest to oldest, nor one with a later time stamp.
  pub select_incremental_parent_newest :
      (l r l' r' : SnapshotInfo)
      → answer ≡ ok (incremental_transfer l r)
      → PairOf l' r'
      → (newest_first l' l ≡ false) × (l'.timestamp ≤ l.timestamp)
  unfolding newest_first
  select_incremental_parent_newest l r l' r' h p =
      let i = answer-Indexed (incremental_transfer l r) h in
      let e =
        choice-newest source_id locals remotes current i.seen i.table l r l' r' (chosen l r i) p in
      (e, ground arith)

  -- A full transfer is planned only if no pair would do; where incremental transfers are
  -- required, only if the target has no snapshot of the source at all.
  pub select_incremental_parent_full :
      answer ≡ ok full_transfer
      → ((l r : SnapshotInfo) → ¬ PairOf l r)
        × ((must && any (λ r. r.source_id == source_id) remotes) ≡ false)
  unfolding selection_of
  select_incremental_parent_full h =
      let i = answer-Indexed full_transfer h in
      (
        no-choice source_id locals remotes current i.seen i.table (ground (arith, i.selected)),
        ground (arith, i.selected, i.table.exist),
      )

  -- An error is thrown only for one of two reasons: two usable snapshots of the target share a
  -- received UUID at different paths, or incremental transfers are required, the target has
  -- snapshots of the source, and no pair would do.
  pub select_incremental_parent_error :
      (e : Error)
      → answer ≡ err e
      → IsAmbiguous source_id remotes
        ⊎ ((l r : SnapshotInfo) → ¬ PairOf l r)
          × (must ≡ true)
          × (any (λ r. r.source_id == source_id) remotes ≡ true)
  unfolding select_incremental_parent selection_of
  select_incremental_parent_error e h =
      elim (>>=-eq-err (index_remotes source_id (false, []) remotes) finish h) [
        | inl f ↦ inl (
            index_remotes-IsAmbiguous source_id remotes (false, []) remotes e (λ x m. elim m [ ])
              (λ r m. m) f)
        | inr (seen, i, f) ↦
            let t = index_remotes-IsTableOf source_id (false, []) seen remotes i in
            inr (
              no-choice source_id locals remotes current seen t (ground arith),
              ground arith,
              ground (arith, t.exist),
            )
      ]
    where
      finish : Bool × RemoteTable → Result IncrementalParentSelection
      finish seen =
          selection_of source_id (seen.0 && must)
            (choose_parent seen.1 (candidates source_id locals remotes current))
