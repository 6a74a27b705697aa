-- ===== src/Tests/Restores.antt =====
-- A restore over a small store, and the laws that the store obeys.
use btrfs_backup.Common.{
  ◌&&◌, ◌++◌, Bool, true, false, IsSorted, In, All, text, Bool-cases, inl, inr, ℕ, if◌then◌else◌,
  Option, none, some, [], ◌∷◌, List, Text, ◌≡◌, ◌≢◌, ◌⊎◌, refl, sym, ap, ◌∙◌, subst, arith, ◌==◌,
  ==_iff, ==_refl, list_eq, nat_eq, list_beq,
}
use btrfs_backup.Config.Path.{FilePath, path_eq, path_beq, parse_path}
use btrfs_backup.Restore.Failure.{
  RestoreFailure, restore_error, RestoreErrorCode, Attempt, thrown, returned,
}
use btrfs_backup.Restore.Operations.{RestoreStatistics, RestoreOperations}
use btrfs_backup.Restore.Plan.{RestoreKind, ExistingDestinationPolicy, RestorePlan}
use btrfs_backup.Restore.Engine.{execute}
use btrfs_backup.Restore.Tree.{RestoreLaws, IsApart, is_some}
use btrfs_backup.Restore.Guarantee.{Promises, execute-Promises}
use btrfs_backup.Restore.Catalog.{
  CatalogSnapshot, RepositoryIdentity, RepositoryCatalog, is_incomplete, newer_first, snapshot,
}
use btrfs_backup.Restore.Catalog.Lookup.{
  IsPlain, repository_catalog-snapshot, validate_relative_path-IsPlain,
}
use btrfs_backup.Tests.Samples.{at}

-- What stands at each path: a number for the file or directory of that name.
abbrev Store : Type 0
Store = List Text → Option ℕ

-- A tree: what stands at each path from its root.
abbrev Tree : Type 0
Tree = List Text → Option ℕ

abbrev nothing : Tree
nothing s = none

abbrev below : List Text → List Text → Bool
below [] q = true
below (n ∷ p) [] = false
below (n ∷ p) (m ∷ q) = m == n && below p q

abbrev without : List Text → List Text → List Text
without [] q = q
without (n ∷ p) [] = []
without (n ∷ p) (m ∷ q) = without p q

-- The whole tree at a path is put in place of what stood there.
abbrev put : List Text → Tree → Store → Store
put p tree w q = if below p q then tree (without p q) else w q

abbrev slice : Store → List Text → Tree
slice w p s = w (p ++ s)

abbrev shown : Tree → Option Tree
shown tree = elim (tree []) [ none ↦ none | some _ ↦ some tree ]

abbrev tree_at : Store → FilePath → Option Tree
tree_at w p = shown (slice w p.names)

abbrev IsTop : List Text → Type 0
IsTop [] = ⊥
IsTop (n ∷ []) = Unit
IsTop (n ∷ m ∷ p) = ⊥

-- The paths below the root: none of them is within another.
abbrev Watched : FilePath → Type 0
Watched p = (p.absolute ≡ true) × IsTop p.names

names_apart : (p q : FilePath) → Watched p → Watched q → q ≢ p → q.names ≢ p.names
names_apart p q u v h e = h (λ i. record { absolute = (v.0 ∙ sym u.0) i; names = e i })

put-here : (p : List Text) (tree : Tree) (w : Store) → IsTop p → slice (put p tree w) p ≡ tree
put-here [] tree w top = elim top [ ]
put-here (n ∷ m ∷ p) tree w top = elim top [ ]
put-here (n ∷ []) tree w top = λ i s. here s i
  where
    here : (s : List Text) → slice (put (n ∷ []) tree w) (n ∷ []) s ≡ tree s
    here s = rw (==_refl n) refl

put-elsewhere :
    (p : List Text) (tree : Tree) (w : Store) (q : List Text)
    → IsTop p
    → IsTop q
    → q ≢ p
    → slice (put p tree w) q ≡ slice w q
put-elsewhere [] tree w q u v h = elim u [ ]
put-elsewhere (n ∷ k ∷ p) tree w q u v h = elim u [ ]
put-elsewhere (n ∷ []) tree w [] u v h = elim v [ ]
put-elsewhere (n ∷ []) tree w (m ∷ k ∷ q) u v h = elim v [ ]
put-elsewhere (n ∷ []) tree w (m ∷ []) u v h = λ i s. elsewhere s i
  where
    apart_names : (m == n) ≡ false
    apart_names = elim (Bool-cases (m == n)) [
      | inl same ↦ elim (h (ap (λ k. k ∷ []) ((==_iff m n).0 same))) [ ]
      | inr other ↦ other
    ]

    elsewhere : (s : List Text) → slice (put (n ∷ []) tree w) (m ∷ []) s ≡ slice w (m ∷ []) s
    elsewhere s = rw apart_names refl

-- What a path shows that is left alone, and what one shows that a tree was put at.
left :
    (p : FilePath) (tree : Tree) (w : Store) (q : FilePath)
    → Watched p
    → Watched q
    → q ≢ p
    → tree_at (put p.names tree w) q ≡ tree_at w q
left p tree w q u v h =
    ap shown (put-elsewhere p.names tree w q.names u.1 v.1 (names_apart p q u v h))

placed :
    (p : FilePath) (tree : Tree) (w : Store)
    → Watched p
    → tree_at (put p.names tree w) p ≡ shown tree
placed p tree w u = ap shown (put-here p.names tree w u.1)

abbrev statistics : RestoreStatistics
statistics = record { files = 1; directories = 0; bytes = 3 }

-- The source: a directory with files.
abbrev copied : Tree
copied [] = some 1
copied (n ∷ []) = some 7
copied (n ∷ m ∷ s) = none

abbrev root : Tree
root [] = some 1
root (n ∷ s) = none

abbrev operations : RestoreOperations Store
operations = record {
  exists = λ p w. is_some (w p.names);
  ensure_sufficient_space = λ source p w. (returned tt, w);
  prepare_copy_root = λ source p w. (returned tt, put p.names root w);
  create_subvolume_root = λ p w. (returned tt, put p.names root w);
  copy_and_verify = λ source p w. (returned statistics, put p.names copied w);
  move = λ p q w. (returned tt, put p.names nothing (put q.names (slice w p.names) w));
  remove_owned_tree = λ p w. (returned tt, put p.names nothing w);
  cancellation_requested = λ w. false;
  phase = λ phase w. (returned tt, w);
}

abbrev IsCopy : FilePath → Option Tree → Type 0
IsCopy source tree = tree ≡ some copied

exists-shown : (p : List Text) (w : Store) → IsTop p → is_some (w p) ≡ is_some (shown (slice w p))
exists-shown [] w top = elim top [ ]
exists-shown (n ∷ m ∷ p) w top = elim top [ ]
exists-shown (n ∷ []) w top = rooted (slice w (n ∷ [])) (w (n ∷ [])) refl
  where
    rooted :
        (tree : Tree) (found : Option ℕ) → tree [] ≡ found → is_some found ≡ is_some (shown tree)
    rooted tree none e =
        subst
          (λ (x : Option ℕ).
            false ≡ is_some {A = Tree} (elim x [ none ↦ none | some _ ↦ some tree ]))
          (sym e) refl
    rooted tree (some k) e =
        subst
          (λ (x : Option ℕ).
            true ≡ is_some {A = Tree} (elim x [ none ↦ none | some _ ↦ some tree ]))
          (sym e) refl

false-true : {b : Bool} → b ≡ false → b ≡ true → ⊥
false-true h k = cc

ended :
    {A : Type 0} {a : A} {e : RestoreFailure} {w w' : Store}
    → ◌≡◌ {A = Attempt A × Store} (returned a, w) (thrown e, w')
    → ⊥
ended h = cc

operations_lem : RestoreLaws operations Watched tree_at IsCopy
operations_lem = record {
  exists_lem = λ p w u. exists-shown p.names w u.1;
  phase_frame = λ phase w q v. refl;
  space_frame = λ source p w q v. refl;
  copy_root_frame = λ source p w q u v h. left p root w q u v h;
  subvolume_root_frame = λ p w q u v h. left p root w q u v h;
  copy_frame = λ source p w q u v h. left p copied w q u v h;
  copy_verified = λ source p w w' s u e.
      sym (ap (λ (x : Attempt RestoreStatistics × Store). tree_at x.1 p) e) ∙ placed p copied w u;
  move_target = λ p q w w' u v e h.
      sym (ap (λ (x : Attempt (Unit {0}) × Store). tree_at x.1 q) e)
      ∙ left p nothing (put q.names (slice w p.names) w) q u v (λ eq. h (sym eq))
      ∙ placed q (slice w p.names) w v;
  move_source = λ p q w w' u v e h.
      sym (ap (λ (x : Attempt (Unit {0}) × Store). tree_at x.1 p) e)
      ∙ placed p nothing (put q.names (slice w p.names) w) u;
  move_frame = λ p q w r u v x hp hq.
      left p nothing (put q.names (slice w p.names) w) r u x hp
      ∙ left q (slice w p.names) w r v x hq;
  move_failed = λ p q w w' e u v eq. elim (ended eq) [ ];
  remove_done = λ p w w' u e.
      sym (ap (λ (x : Attempt (Unit {0}) × Store). tree_at x.1 p) e) ∙ placed p nothing w u;
  remove_frame = λ p w q u v h. left p nothing w q u v h;
  remove_failed = λ p w w' e u eq. elim (ended eq) [ ];
}

abbrev name : Text → FilePath
name n = at (n ∷ [])

abbrev plan : RestorePlan
plan = record {
  transaction_id = b't' ∷ [];
  snapshot_id = b's' ∷ [];
  snapshot_uuid = b'u' ∷ [];
  source = name (b'x' ∷ []);
  destination = name (b'd' ∷ []);
  staging = name (b'a' ∷ []);
  previous = name (b'p' ∷ []);
  kind = RestoreKind.files;
  existing_destination = ExistingDestinationPolicy.replace;
  destination_exists = true;
}

apart : (p q : FilePath) → (p == q) ≡ false → p ≢ q
apart p q h e = false-true h ((==_iff p q).1 e)

plan-IsApart : IsApart Watched plan
unfolding path_beq list_beq
plan-IsApart = record {
  staging = (refl, tt);
  destination = (refl, tt);
  previous = (refl, tt);
  staging_destination = apart plan.staging plan.destination refl;
  staging_previous = apart plan.staging plan.previous refl;
  previous_destination = apart plan.previous plan.destination refl;
}

-- A directory with a file at the destination.
abbrev old : Tree
old [] = some 1
old (n ∷ []) = some 3
old (n ∷ m ∷ s) = none

abbrev start : Store
start = put plan.destination.names old nothing

execute-Promises_example :
    Promises operations Watched tree_at IsCopy plan start (execute operations plan start)
execute-Promises_example =
    execute-Promises operations Watched tree_at IsCopy plan start operations_lem plan-IsApart

-- A store where the removal of what was set aside fails half way.
abbrev torn : RestoreOperations Store
torn = record operations {
  remove_owned_tree = λ p w.
      if p == plan.previous
      then (
        thrown (restore_error RestoreErrorCode.cleanup_incomplete (b'x' ∷ [])),
        put p.names root w,
      )
      else (returned tt, put p.names nothing w);
}

-- The restore fails, and of the old tree the directory is at the destination, without its file.
execute_torn :
    ((execute torn plan start).0
      ≡ thrown (restore_error RestoreErrorCode.cleanup_incomplete (b'x' ∷ [])))
    × ((execute torn plan start).1 plan.destination.names ≡ some 1)
    × ((execute torn plan start).1 (plan.destination.names ++ (b'f' ∷ []) ∷ []) ≡ none)
unfolding execute path_beq list_beq btrfs_backup.Restore.Engine.◌>>=◌
execute_torn = (refl, refl, refl)

abbrev catalog_snapshot : ℕ → CatalogSnapshot
catalog_snapshot n = record {
  snapshot_id = n ∷ [];
  host_id = b'h' ∷ [];
  profile_id = b'p' ∷ [];
  source_id = b's' ∷ [];
  repository_path = name (b'r' ∷ []);
  created_at = n;
  uuid = n ∷ [];
  received_uuid = [];
  parent_uuid = [];
  verified = true;
}

abbrev identity : RepositoryIdentity
identity = record {
  repository_id = b'i' ∷ [];
  target_filesystem_uuid = b'u' ∷ [];
  created_at = 1;
  features = [];
}

abbrev entries : List CatalogSnapshot
entries = catalog_snapshot 2 ∷ catalog_snapshot 3 ∷ []

abbrev catalog : RepositoryCatalog
catalog = record {
  root = name (b'r' ∷ []);
  identity = identity;
  generation = 4;
  snapshots = catalog_snapshot 3 ∷ catalog_snapshot 2 ∷ [];
}

repository_catalog-snapshot_example :
    IsSorted newer_first catalog.snapshots
    × ((entry : CatalogSnapshot)
        → In entry entries
        → (is_incomplete entry ≡ false) × (snapshot catalog entry.snapshot_id ≡ returned entry))
unfolding btrfs_backup.Restore.Catalog.repository_catalog btrfs_backup.Common.any list_beq
repository_catalog-snapshot_example =
    repository_catalog-snapshot (name (b'r' ∷ [])) identity 4 entries catalog refl

abbrev relative : FilePath
relative = record { absolute = false; names = (b'a' ∷ []) ∷ (b'b' ∷ []) ∷ [] }

validate_relative_path-IsPlain_example :
    (relative ≡ parse_path (text ".")) ⊎ ((relative.absolute ≡ false) × All IsPlain relative.names)
unfolding btrfs_backup.Restore.Catalog.validate_relative_path btrfs_backup.Common.any path_beq
    parse_path text list_beq btrfs_backup.Config.Path.elements
    btrfs_backup.Config.Path.lexically_normal
validate_relative_path-IsPlain_example =
    validate_relative_path-IsPlain (b'a' ∷ b'/' ∷ b'b' ∷ []) relative refl
