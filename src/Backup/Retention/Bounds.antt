-- ===== src/Backup/Retention/Bounds.antt =====
-- What src/backup/model/RetentionPlan.cpp deletes and what it keeps.
use btrfs_backup.Common.{
  Bool, true, false, ℕ, ◌-◌, ◌≤◌, List, [], ◌∷◌, ◌++◌, ◌≡◌, ◌⊎◌, inl, inr, refl, sym, ap, ◌∙◌, Perm,
  length, take-append-drop, length-drop, filter, sort, sort-perm, length-sort, sort-IsSorted,
  IsSorted, IsStrictWeak, All_of-In, In, In-append_right, In-append_left, text_lt_asymm,
  text_lt_trans, arith, ◌==◌, list_eq, nat_eq, In_of-filter, In_of-sort, ==_iff, In-sort, In-filter,
  In-append, if◌then◌else◌, eqb,
}
use Prim.Native.Nat.{min}
use mathlib.Core.Path.{subst}
use mathlib.Core.Bool.{false≢true}
use btrfs_backup.Config.Path.{path_text}
use btrfs_backup.Backup.Snapshot.{SourceId, SnapshotInfo}
use btrfs_backup.Backup.Retention.{
  RetentionPlan, oldest_first, matching_snapshots, split_matching, plan_count_retention,
}

pub oldest_first-IsStrictWeak : IsStrictWeak oldest_first
unfolding oldest_first
oldest_first-IsStrictWeak = record {
  asymm = λ a b h. ground (arith, text_lt_asymm (path_text a.path) (path_text b.path));
  trans = λ a b c h k.
      ground (arith, text_lt_trans (path_text a.path) (path_text b.path) (path_text c.path));
}

module _ (source_id : SourceId) (keep_count : ℕ) (matching : List SnapshotInfo) where
  abbrev split : RetentionPlan
  split = split_matching source_id keep_count matching

  split-append : split.delete_snapshots ++ split.keep ≡ matching
  unfolding split_matching
  split-append = ground (arith, take-append-drop (length matching - keep_count) matching)

  split_counts :
      length split.keep
      ≡ (if eqb keep_count 0 then length matching else min keep_count (length matching))
  unfolding split_matching
  split_counts = ground (arith, length-drop (length matching - keep_count) matching)

  split_none_kept : split.keep ≡ [] → split.delete_snapshots ≡ []
  unfolding split_matching
  split_none_kept h =
      ground (arith, ap length h, length-drop (length matching - keep_count) matching)

IsSorted-append :
    (lt : SnapshotInfo → SnapshotInfo → Bool) (xs ys : List SnapshotInfo) (x y : SnapshotInfo)
    → IsSorted lt (xs ++ ys)
    → In x xs
    → In y ys
    → lt y x ≡ false
IsSorted-append lt [] ys x y s m k = elim m [ ]
IsSorted-append lt (z ∷ xs) ys x y s (inl e) k =
    rw e (All_of-In (λ w. lt w z ≡ false) y (xs ++ ys) s.0 (In-append_right y xs ys k))
IsSorted-append lt (z ∷ xs) ys x y s (inr m) k = IsSorted-append lt xs ys x y s.1 m k

module _ (source_id : SourceId) (snapshots : List SnapshotInfo) (keep_count : ℕ) where
  abbrev plan : RetentionPlan
  plan = plan_count_retention source_id snapshots keep_count

  abbrev of_source : List SnapshotInfo
  of_source = filter (λ (s : SnapshotInfo). s.source_id == source_id) snapshots

  plan-append : plan.delete_snapshots ++ plan.keep ≡ sort oldest_first of_source
  unfolding plan_count_retention matching_snapshots
  plan-append = split-append source_id keep_count (matching_snapshots source_id snapshots)

  -- Deleted and kept snapshots together are exactly the snapshots of the source, each as often
  -- as it was given.
  pub plan_count_retention-perm : Perm (plan.delete_snapshots ++ plan.keep) of_source
  plan_count_retention-perm = rw plan-append (sort-perm oldest_first of_source)

  -- With a count above zero that many snapshots are kept, or all if there are fewer; a count of
  -- zero keeps all.
  pub plan_count_retention_counts :
      length plan.keep
      ≡ (if eqb keep_count 0 then length of_source else min keep_count (length of_source))
  unfolding plan_count_retention matching_snapshots
  plan_count_retention_counts =
      split_counts source_id keep_count (matching_snapshots source_id snapshots)
      ∙ rw (length-sort oldest_first of_source)

  -- No kept snapshot comes before a deleted one in the order from oldest to newest, and none has
  -- an earlier time stamp than a deleted one.
  pub plan_count_retention_oldest :
      (d k : SnapshotInfo)
      → In d plan.delete_snapshots
      → In k plan.keep
      → (oldest_first k d ≡ false) × (d.timestamp ≤ k.timestamp)
  unfolding oldest_first
  plan_count_retention_oldest d k m n =
      let e =
        IsSorted-append oldest_first plan.delete_snapshots plan.keep d k
          (rw plan-append (sort-IsSorted oldest_first oldest_first-IsStrictWeak of_source)) m n in
      (e, ground arith)

  given :
      (d : SnapshotInfo)
      → In d (plan.delete_snapshots ++ plan.keep)
      → In d snapshots × (d.source_id ≡ source_id)
  given d m =
      let (i, e) =
        In_of-filter (λ (s : SnapshotInfo). s.source_id == source_id) d snapshots
          (In_of-sort oldest_first d of_source (rw plan-append at m)) in
      (i, (==_iff d.source_id source_id).0 e)

  plan_count_retention_kept :
      (d : SnapshotInfo) → In d plan.keep → In d snapshots × (d.source_id ≡ source_id)
  plan_count_retention_kept d m = given d (In-append_right d plan.delete_snapshots plan.keep m)

  -- The deleted snapshots were given, and are of the source.
  pub plan_count_retention_deleted :
      (d : SnapshotInfo) → In d plan.delete_snapshots → In d snapshots × (d.source_id ≡ source_id)
  plan_count_retention_deleted d m = given d (In-append_left d plan.delete_snapshots plan.keep m)

  some_kept :
      (d : SnapshotInfo) (ks : List SnapshotInfo)
      → plan.keep ≡ ks
      → In d plan.delete_snapshots
      → (k : SnapshotInfo) × In k plan.keep
  unfolding plan_count_retention
  some_kept d [] h m =
      elim (subst (In d)
        (split_none_kept source_id keep_count (matching_snapshots source_id snapshots) h) m) [ ]
  some_kept d (k ∷ ks) h m = (k, rw h (inl refl))

  -- A snapshot of the source that is newer than every other one is kept.
  pub plan_count_retention_newest :
      (s : SnapshotInfo)
      → In s snapshots
      → s.source_id ≡ source_id
      → ((o : SnapshotInfo)
          → In o snapshots
          → o.source_id ≡ source_id
          → (o ≡ s) ⊎ (oldest_first o s ≡ true))
      → In s plan.keep
  unfolding some_kept oldest_first
  plan_count_retention_newest s m e newest =
      elim (In-append s plan.delete_snapshots plan.keep split_in) [
        | inl deleted ↦
            let (k, n) = some_kept s plan.keep refl deleted in
            let (i, o) = plan_count_retention_kept k n in
            elim (newest k i o) [
              | inl same ↦ rw same at n
              | inr older ↦
                  absurd (false≢true (sym (plan_count_retention_oldest s k deleted n).0 ∙ older))
            ]
        | inr kept ↦ kept
      ]
    where
      split_in : In s (plan.delete_snapshots ++ plan.keep)
      split_in = rw plan-append (
          In-sort oldest_first s of_source (
            In-filter (λ (o : SnapshotInfo). o.source_id == source_id) s snapshots m
              ((==_iff s.source_id source_id).1 e)))
