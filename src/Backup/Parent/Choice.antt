-- ===== src/Backup/Parent/Choice.antt =====
-- The parent that src/backup/model/IncrementalParent.cpp chooses is the newest common snapshot.
use btrfs_backup.Common.{
  true, false, List, [], ◌∷◌, ◌≡◌, inl, inr, refl, sym, none, some, In, IsSorted, IsStrictWeak,
  All_of-In, list_eq, nat_eq, arith, Option-cases, Bool-cases, find-some, find-none, ◌∙◌,
  text_lt_asymm, text_lt_trans,
}
use mathlib.Core.Bool.{false≢true}
use btrfs_backup.Config.Path.{path_text}
use btrfs_backup.Backup.Snapshot.{SnapshotInfo, uuid_matches}
use btrfs_backup.Backup.Parent.{RemoteTable, newest_first, matching_remote, choose_parent}
use btrfs_backup.Backup.Parent.Table.{Entry}

pub newest_first-IsStrictWeak : IsStrictWeak newest_first
unfolding newest_first
newest_first-IsStrictWeak = record {
  asymm = λ a b h. ground (arith, text_lt_asymm (path_text b.path) (path_text a.path));
  trans = λ a b c h k.
      ground (arith, text_lt_trans (path_text c.path) (path_text b.path) (path_text a.path));
}

newest_first_irrefl : (a : SnapshotInfo) → newest_first a a ≡ false
newest_first_irrefl a = elim (Bool-cases (newest_first a a)) [
  | inl e ↦ newest_first-IsStrictWeak.asymm a a e
  | inr e ↦ e
]

-- The chosen candidate is in the list with its entry, and no candidate with an entry is newer.
pub record IsChoice (table : RemoteTable) (candidates : List SnapshotInfo) (l r : SnapshotInfo)
    : Type 0 where
  pub local_in : In l candidates
  pub entry : Entry
  pub entry_in : In entry table
  pub of_entry : entry.1 ≡ r
  pub matches : uuid_matches l.uuid entry.0 ≡ true
  pub newest :
      (other : SnapshotInfo) (e : Entry)
      → In other candidates
      → In e table
      → uuid_matches other.uuid e.0 ≡ true
      → newest_first other l ≡ false

unmatched :
    (table : RemoteTable) (l : SnapshotInfo) (e : Entry)
    → matching_remote table l ≡ none
    → In e table
    → uuid_matches l.uuid e.0 ≡ false
unfolding matching_remote
unmatched table l e h m = find-none (λ x. uuid_matches l.uuid x.0) e table h m

matched :
    (table : RemoteTable) (l : SnapshotInfo) (e : Entry)
    → matching_remote table l ≡ some e
    → In e table × (uuid_matches l.uuid e.0 ≡ true)
unfolding matching_remote
matched table l e h = find-some (λ x. uuid_matches l.uuid x.0) e table h

pub choose_parent-IsChoice :
    (table : RemoteTable) (candidates : List SnapshotInfo) (l r : SnapshotInfo)
    → IsSorted newest_first candidates
    → choose_parent table candidates ≡ some (l, r)
    → IsChoice table candidates l r
unfolding choose_parent
choose_parent-IsChoice table [] l r s h = cc
choose_parent-IsChoice table (c ∷ cs) l r s h = elim (Option-cases (matching_remote table c)) [
  | inl miss ↦
      let i = choose_parent-IsChoice table cs l r s.1 (ground arith) in
      record {
        local_in = inr i.local_in;
        entry = i.entry;
        entry_in = i.entry_in;
        of_entry = i.of_entry;
        matches = i.matches;
        newest = λ other e m k u. elim m [
          | inl first ↦ absurd (false≢true (sym (unmatched table c e miss k) ∙ rw first at u))
          | inr later ↦ i.newest other e later k u
        ];
      }
  | inr (entry, hit) ↦
      let both : (c ≡ l) × (entry.1 ≡ r) = ground arith in
      rw (← both.0) (record {
        local_in = inl refl;
        entry = entry;
        entry_in = (matched table c entry hit).0;
        of_entry = both.1;
        matches = (matched table c entry hit).1;
        newest = λ other e m k u. elim m [
          | inl first ↦ rw first (newest_first_irrefl c)
          | inr later ↦ All_of-In (λ y. newest_first y c ≡ false) other cs s.0 later
        ];
      })
]

-- With no choice, no candidate matches any entry.
pub choose_parent-none :
    (table : RemoteTable) (candidates : List SnapshotInfo)
    → choose_parent table candidates ≡ none
    → (l : SnapshotInfo) (e : Entry) → In l candidates
    → In e table
    → uuid_matches l.uuid e.0 ≡ false
unfolding choose_parent
choose_parent-none table [] h l e m k = elim m [ ]
choose_parent-none table (c ∷ cs) h l e m k = elim (Option-cases (matching_remote table c)) [
  | inr (entry, hit) ↦ absurd (ground arith)
  | inl miss ↦ elim m [
    | inl first ↦ rw first (unmatched table c e miss k)
    | inr later ↦ choose_parent-none table cs (ground arith) l e later k
  ]
]
