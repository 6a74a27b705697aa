-- ===== src/Backup/Parent/Pairs.antt =====
-- The pairs of snapshots that src/backup/model/IncrementalParent.cpp chooses among.
use btrfs_backup.Common.{
  Bool, true, false, List, [], ◌≡◌, inl, inr, sym, Option, none, filter, In, In-filter,
  In_of-filter, In-sort, In_of-sort, sort, ==_iff, list_eq, nat_eq, arith, ◌∙◌,
}
use mathlib.Core.Bool.{false≢true}
use btrfs_backup.Config.Path.{FilePath, path_eq}
use btrfs_backup.Backup.Snapshot.{SourceId, SnapshotInfo, uuid_matches}
use btrfs_backup.Backup.Parent.{RemoteTable, newest_first, is_candidate, is_current, choose_parent}
use btrfs_backup.Backup.Parent.Table.{is_usable, IsTableOf, Entry}
use btrfs_backup.Backup.Parent.Choice.{IsChoice, choose_parent-none}

-- A local and a remote snapshot between which an incremental transfer is possible.
pub record IsParentPair (source_id : SourceId) (locals remotes : List SnapshotInfo)
    (current : Option FilePath) (l r : SnapshotInfo) : Type 0 where
  pub local_in : In l locals
  pub local_source : l.source_id ≡ source_id
  pub local_readonly : l.readonly ≡ true
  pub local_earlier : is_current current l.path ≡ false
  pub remote_in : In r remotes
  pub remote_source : r.source_id ≡ source_id
  pub remote_readonly : r.readonly ≡ true
  pub same_contents : uuid_matches l.uuid r.received_uuid ≡ true

is_candidate_iff :
    (source_id : SourceId) (current : Option FilePath) (l : SnapshotInfo)
    → is_candidate source_id current l ≡ true
    → (l.source_id ≡ source_id) × (l.readonly ≡ true) × (is_current current l.path ≡ false)
unfolding is_candidate
is_candidate_iff source_id current l h = ground (arith, ==_iff l.source_id source_id)

is_usable_iff :
    (source_id : SourceId) (r : SnapshotInfo)
    → is_usable source_id r ≡ true
    → (r.source_id ≡ source_id) × (r.readonly ≡ true)
unfolding is_usable
is_usable_iff source_id r h = ground (arith, ==_iff r.source_id source_id)

module _ (source_id : SourceId) (locals remotes : List SnapshotInfo)
    (current : Option FilePath) where
  abbrev pub candidates : List SnapshotInfo
  candidates = sort newest_first (filter (is_candidate source_id current) locals)

  In_of-candidates :
      (l : SnapshotInfo) → In l candidates → In l locals × (is_candidate source_id current l ≡ true)
  In_of-candidates l m = In_of-filter _ l locals (In_of-sort newest_first l _ m)

  pair-candidate :
      (l r : SnapshotInfo) → IsParentPair source_id locals remotes current l r → In l candidates
  unfolding is_candidate uuid_matches
  pair-candidate l r p = In-sort newest_first l _ (
      In-filter _ l locals p.local_in (
        ground (
          arith,
          p.local_source,
          p.local_readonly,
          p.local_earlier,
          p.same_contents,
          ==_iff l.source_id source_id,
        )))

  pair-usable :
      (l r : SnapshotInfo)
      → IsParentPair source_id locals remotes current l r
      → is_usable source_id r ≡ true
  unfolding is_usable uuid_matches
  pair-usable l r p =
      ground
        (arith, p.remote_source, p.remote_readonly, p.same_contents, ==_iff r.source_id source_id)

  uuid_matches-same :
      (l r : SnapshotInfo) (e : Entry)
      → e.0.value ≡ r.received_uuid.value
      → uuid_matches l.uuid r.received_uuid ≡ true
      → uuid_matches l.uuid e.0 ≡ true
  unfolding uuid_matches
  uuid_matches-same l r e s h = rw s h

  module _ (seen : Bool × RemoteTable) (t : IsTableOf source_id remotes (false, []) seen) where
    pub choice-pair :
        (l r : SnapshotInfo)
        → IsChoice seen.1 candidates l r
        → IsParentPair source_id locals remotes current l r
    choice-pair l r c = elim (t.sound c.entry c.entry_in) [
      | inl old ↦ elim old [ ]
      | inr (m, u, v) ↦
          let (a, b) = In_of-candidates l c.local_in in
          let (s, ro, ne) = is_candidate_iff source_id current l b in
          let (rs, rr) = is_usable_iff source_id c.entry.1 v in
          rw (← c.of_entry) (record {
            local_in = a;
            local_source = s;
            local_readonly = ro;
            local_earlier = ne;
            remote_in = m;
            remote_source = rs;
            remote_readonly = rr;
            same_contents = rw u at c.matches;
          })
    ]

    pub choice-newest :
        (l r l' r' : SnapshotInfo)
        → IsChoice seen.1 candidates l r
        → IsParentPair source_id locals remotes current l' r'
        → newest_first l' l ≡ false
    choice-newest l r l' r' c p =
        let (e, m, rep) = t.complete r' p.remote_in (pair-usable l' r' p) in
        c.newest l' e (pair-candidate l' r' p) m
          (uuid_matches-same l' r' e rep.same_uuid p.same_contents)

    pub no-choice :
        choose_parent seen.1 candidates ≡ none
        → (l r : SnapshotInfo) → ¬ IsParentPair source_id locals remotes current l r
    no-choice h l r p =
        let (e, m, rep) = t.complete r p.remote_in (pair-usable l r p) in
        false≢true (
          sym (choose_parent-none seen.1 candidates h l e (pair-candidate l r p) m)
          ∙ uuid_matches-same l r e rep.same_uuid p.same_contents)
