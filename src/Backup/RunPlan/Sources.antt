-- ===== src/Backup/RunPlan/Sources.antt =====
-- Which sources src/backup/model/BackupRunPlan.cpp plans, and what holds of each plan.
use btrfs_backup.Common.{
  true, false, List, [], ◌∷◌, map, ◌≡◌, inl, inr, refl, sym, ap, ◌∙◌, some, arith, any, filter, In,
  ◌==◌, list_eq, nat_eq, Bool-cases,
}
use mathlib.Core.Path.{ap₂}
use btrfs_backup.Core.Errors.{Result, ok, >>=-eq-ok, ok-injective, ◌>>=◌}
use btrfs_backup.Config.Profile.{ProfileSource}
use btrfs_backup.Backup.Snapshot.{SourceId, SnapshotInfo, SnapshotSide, local_side, remote_side}
use btrfs_backup.Backup.Parent.{IncrementalParentSelection, select_incremental_parent}
use btrfs_backup.Backup.Retention.{plan_count_retention}
use btrfs_backup.Backup.RunPlan.{BackupSourceRunPlan, BackupRunPlan, snapshots_for}
use btrfs_backup.Backup.RunPlan.Order.{make_source_run_plan-ordered}
use btrfs_backup.Backup.RunPlan.SourcePlan.{
  SourcePlanContext, PlannedSourcePaths, plan_source_paths, recovery_of, projected_snapshots,
  ordered_source_actions, build_source_run_plan, build_sources, build_backup_run_plan,
}

-- The parts that a plan of a source is made of.
pub record IsBuiltFrom (source : ProfileSource) (context : SourcePlanContext)
    (plan : BackupSourceRunPlan) : Type 0 where
  pub paths : PlannedSourcePaths
  pub parent : IncrementalParentSelection
  pub local_projected : List SnapshotInfo
  pub remote_projected : List SnapshotInfo
  pub paths_planned :
      plan_source_paths source context (snapshots_for context.local_inventory source.id) ≡ ok paths
  pub parent_selected :
      select_incremental_parent source.id
        (snapshots_for context.local_inventory source.id)
        (snapshots_for context.remote_inventory source.id)
        (some paths.local_snapshot)
        context.profile.settings.incremental_required
      ≡ ok parent
  pub locals_projected :
      projected_snapshots
        (snapshots_for context.local_inventory source.id)
        (recovery_of source context paths)
        local_side
        source.id
        paths
        context.snapshot_timestamp
      ≡ ok local_projected
  pub remotes_projected :
      projected_snapshots
        (snapshots_for context.remote_inventory source.id)
        (recovery_of source context paths)
        remote_side
        source.id
        paths
        context.snapshot_timestamp
      ≡ ok remote_projected
  pub source_planned : plan.source_id ≡ source.id
  pub actions_planned :
      plan.actions
      ≡ ordered_source_actions source context paths
          (recovery_of source context paths)
          parent
          (plan_count_retention source.id local_projected source.local_retention)
          (plan_count_retention source.id remote_projected source.remote_retention)

-- A plan of a source that is built is made of what the planning functions give: the paths, the
-- parent, the retentions on the projected inventories, and the ordered actions over them.
pub build_source_run_plan-IsBuiltFrom :
    (source : ProfileSource) (context : SourcePlanContext) (plan : BackupSourceRunPlan)
    → build_source_run_plan source context ≡ ok plan
    → IsBuiltFrom source context plan
unfolding build_source_run_plan
build_source_run_plan-IsBuiltFrom source context plan h =
    let locals = snapshots_for context.local_inventory source.id in
    let remotes = snapshots_for context.remote_inventory source.id in
    let (paths, p, h₁) = >>=-eq-ok (plan_source_paths source context locals) _ {b = plan} h in
    let (parent, q, h₂) =
      >>=-eq-ok
        (select_incremental_parent source.id locals remotes (some paths.local_snapshot)
          context.profile.settings.incremental_required)
        _ {b = plan} h₁ in
    let project = λ (snapshots : List SnapshotInfo) (side : SnapshotSide).
      projected_snapshots snapshots (recovery_of source context paths) side source.id paths
        context.snapshot_timestamp in
    let (ls, l, h₃) = >>=-eq-ok (project locals local_side) _ {b = plan} h₂ in
    let (rs, r, h₄) = >>=-eq-ok (project remotes remote_side) _ {b = plan} h₃ in
    let made =
      make_source_run_plan-ordered source context paths (recovery_of source context paths) parent
        (plan_count_retention source.id ls source.local_retention)
        (plan_count_retention source.id rs source.remote_retention) in
    let e = ok-injective (sym made ∙ h₄) in
    record {
      paths = paths;
      parent = parent;
      local_projected = ls;
      remote_projected = rs;
      paths_planned = p;
      parent_selected = q;
      locals_projected = l;
      remotes_projected = r;
      source_planned = sym (ap (λ (x : BackupSourceRunPlan). x.source_id) e);
      actions_planned = sym (ap (λ (x : BackupSourceRunPlan). x.actions) e);
    }

abbrev enabled_ids : List ProfileSource → List SourceId
enabled_ids sources =
    map (λ (s : ProfileSource). s.id) (filter (λ (s : ProfileSource). s.enabled) sources)

-- No identifier stands twice, nor is any of those seen.
abbrev AreFresh : List SourceId → List SourceId → Type 0
AreFresh seen [] = Unit
AreFresh seen (id ∷ ids) = (any (λ s. s == id) seen ≡ false) × AreFresh (id ∷ seen) ids

pub record ArePlans (context : SourcePlanContext) (seen : List SourceId)
    (sources : List ProfileSource) (plans : List BackupSourceRunPlan) : Type 0 where
  pub same_order : map (λ (p : BackupSourceRunPlan). p.source_id) plans ≡ enabled_ids sources
  pub fresh : AreFresh seen (enabled_ids sources)
  pub built :
      (p : BackupSourceRunPlan)
      → In p plans
      → (s : ProfileSource) × In s sources × (s.enabled ≡ true) × IsBuiltFrom s context p

build_sources-ArePlans :
    (context : SourcePlanContext) (seen : List SourceId) (sources : List ProfileSource)
    (plans : List BackupSourceRunPlan)
    → build_sources context seen sources ≡ ok plans
    → ArePlans context seen sources plans
unfolding build_sources filter
build_sources-ArePlans context seen [] plans h =
    let e : [] ≡ plans = ok-injective h in
    rw (← e) (record { same_order = refl; fresh = tt; built = λ p m. elim m [ ] })
build_sources-ArePlans context seen (s ∷ rest) plans h = elim (Bool-cases s.enabled) [
  | inr off ↦
      let r = build_sources-ArePlans context seen rest plans (ground arith) in
      record {
        same_order = rw off r.same_order;
        fresh = rw off r.fresh;
        built = λ p m. let (x, i, n, b) = r.built p m in (x, inr i, n, b);
      }
  | inl on ↦ elim (Bool-cases (any (λ (x : SourceId). x == s.id) seen)) [
    | inl dup ↦ absurd (ground arith)
    | inr new ↦
        let h₁ : (build_source_run_plan s context >>= finish) ≡ ok plans = simp (on, new) at h in
        let (p, b, h₂) = >>=-eq-ok (build_source_run_plan s context) finish {b = plans} h₁ in
        let (ps, later, h₃) =
          >>=-eq-ok (build_sources context (s.id ∷ seen) rest) _ {b = plans} h₂ in
        let r = build_sources-ArePlans context (s.id ∷ seen) rest ps later in
        let e = ok-injective h₃ in
        let f = build_source_run_plan-IsBuiltFrom s context p b in
        rw (← e) (record {
          same_order = rw on (ap₂ ◌∷◌ f.source_planned r.same_order);
          fresh = rw on (new, r.fresh);
          built = λ q m. elim m [
            | inl first ↦ (s, inl refl, on, rw first f)
            | inr more ↦ let (x, i, n, b) = r.built q more in (x, inr i, n, b)
          ];
        })
  ]
]
  where
    finish : BackupSourceRunPlan → Result (List BackupSourceRunPlan)
    finish plan = build_sources context (s.id ∷ seen) rest >>= λ plans. ok (plan ∷ plans)

-- A run plan that is built has exactly one plan for each enabled source of the profile, in the
-- order of the profile; no enabled source stands twice; and each of the plans is made of the
-- parts that the planning functions give for an enabled source.
pub build_backup_run_plan-ArePlans :
    (context : SourcePlanContext) (plan : BackupRunPlan)
    → build_backup_run_plan context ≡ ok plan
    → ArePlans context [] context.profile.sources plan.sources
unfolding build_backup_run_plan
build_backup_run_plan-ArePlans context plan h =
    let (sources, b, h₁) =
      >>=-eq-ok (build_sources context [] context.profile.sources) _ {b = plan} h in
    rw (← ap (λ (p : BackupRunPlan). p.sources) (ok-injective h₁))
      (build_sources-ArePlans context [] context.profile.sources sources b)
