-- ===== src/Restore/Drain/Plans.antt =====
-- What `build_plan` promises: resources that no run owns, while no run is running.
use backup_sentinel.Prelude.{ℕ, String, ◌≡◌, refl, sym, false, Option, none, some, List, [], ◌∷◌}
use backup_sentinel.Restore.Effect.{World, Act, pure, raise, query, continue, ◌>>=◌}
use backup_sentinel.Restore.Planner.{Candidate, Config, Sandbox, sandbox_alloc}
use backup_sentinel.Restore.Alloc.{Allocation, allocate}
use backup_sentinel.Restore.Effect.Leads.{Leads, bind-Leads, Runs-Leads, if-Leads}
use backup_sentinel.Restore.Alloc.Fresh.{IsFresh, allocate-IsFresh}
use backup_sentinel.Restore.Planner.Build.{
  Planned, ready, no_resources, not_runnable, Orchestra, Place, on_one, spread, nowhere, plan_with,
  host_entries, known_stores, plan_storage, is_container, ordered_storages, planned_at, no_host,
  plan_sandbox, plan_snapshot, plan_source, build_plan,
}
use backup_sentinel.Restore.Runs.{Db, active_and_held_runs, has_active_run}
use backup_sentinel.Restore.Match.{HostEntry, Snapshot}
use backup_sentinel.Restore.Types.{Status}
use backup_sentinel.Restore.Worker.{RunPlan}
use backup_sentinel.Restore.Effect.Runs.{IsOver, Runs, pure-Runs, attempt-Runs, bind-Runs}
use backup_sentinel.Restore.Runs.Owned.{Later-idle}
use backup_sentinel.Restore.Worker.Laws.{Later, here, Later-trans}

-- Others may act on the database meanwhile; it ends.
pub record IsQuiet {H A : Type 0} (m : Act H A) : Type 0 where
  pub later : (w : World H) → Later w.db (m w).0.db
  pub over : (w : World H) → IsOver (m w).1

-- What the pass relies on before it starts a run.
pub record IsOrchestra {H : Type 0} (o : Orchestra H) : Type 0 where
  pub tables : IsQuiet o.tables
  pub queue_paused : IsQuiet o.queue_paused
  pub running_storage : IsQuiet o.running_storage
  pub connections : IsQuiet o.connections
  pub list_pbs_storages : IsQuiet o.list_pbs_storages
  pub list_snapshots : (storage : String) (vmid : ℕ) → IsQuiet (o.list_snapshots storage vmid)
  pub free_resources : IsQuiet o.free_resources
  pub notify : (vm_id : ℕ) (result : Status) (w : World H) → IsOver (o.notify vm_id result w).1

abbrev pub Takes : RunPlan → Allocation → Type 0
Takes plan a =
    (plan.restore_vmid ≡ a.restore_vmid)
    × (plan.helper_vmid ≡ a.helper_vmid)
    × (plan.vlan_tag ≡ a.vlan_tag)
    × (plan.mgmt_ip ≡ some a.mgmt_ip)

-- A table from which the other processes led to the one of now.
pub record WasFresh (config : Config) (a : Allocation) (db : Db) : Type 0 where
  pub made : Db
  pub since : Later made db
  pub fresh : IsFresh config.ranges (active_and_held_runs made) a

-- No run is running, and the plan takes resources of the configured ranges that were free when it was
-- made.
pub record IsReady {H : Type 0} (config : Config) (plan : RunPlan) (w : World H) : Type 0 where
  pub idle : has_active_run w.db ≡ false
  pub allocation : Allocation
  pub takes : Takes plan allocation
  pub fresh : WasFresh config allocation w.db

abbrev pub IsClosed : {H : Type 0} → (World H → Type 0) → Type 0
IsClosed {H} P = (w w' : World H) → Later w.db w'.db → P w → P w'

abbrev pub Idle : {H : Type 0} → World H → Type 0
Idle w = has_active_run w.db ≡ false

abbrev pub IdleFresh : {H : Type 0} → Config → Allocation → World H → Type 0
IdleFresh config a w = (has_active_run w.db ≡ false) × WasFresh config a w.db

pub Idle-IsClosed : {H : Type 0} → IsClosed (Idle {H = H})
Idle-IsClosed w w' l e = Later-idle w.db w'.db l e

pub IdleFresh-IsClosed :
    {H : Type 0} (config : Config) (a : Allocation) → IsClosed (IdleFresh {H = H} config a)
IdleFresh-IsClosed config a w w' l h = (
  Idle-IsClosed w w' l h.0,
  record { made = h.1.made; since = Later-trans h.1.since l; fresh = h.1.fresh },
)

pub IsQuiet-Runs :
    {H A : Type 0} {P : World H → Type 0} (m : Act H A) → IsClosed P → IsQuiet m → Runs P m
IsQuiet-Runs m closed q = record { at = λ w h. (closed w (m w).0 (q.later w) h, q.over w) }

-- what a plan promises where it is made
abbrev pub PlanPost : {H : Type 0} → Config → Planned → World H → Type 0
PlanPost config (ready plan) w = (a : Allocation) × (Takes plan a × IdleFresh config a w)
PlanPost config no_resources w = Idle w
PlanPost config (not_runnable reason) w = Idle w

module _ {H : Type 0} (o : Orchestra H) (laws : IsOrchestra o) (config : Config) where
  known_stores-Runs : (P : World H → Type 0) → IsClosed P → Runs P (known_stores o config)
  unfolding known_stores
  known_stores-Runs P closed =
      attempt-Runs [] _ (bind-Runs _ _ (IsQuiet-Runs _ closed laws.free_resources) λ r. pure-Runs _)

  host_entries-Runs : (P : World H → Type 0) → IsClosed P → Runs P (host_entries o)
  unfolding host_entries
  host_entries-Runs P closed =
      bind-Runs _ _ (IsQuiet-Runs _ closed laws.connections) λ conns.
        bind-Runs _ _ (IsQuiet-Runs _ closed laws.list_pbs_storages) λ storages. pure-Runs _

  planned_at-PlanPost :
      (c : Candidate) (entry : HostEntry) (snap : Snapshot) (a : Allocation) (box : Sandbox)
      (at : Place) (w : World H)
      → IdleFresh config a w
      → PlanPost config (planned_at config c entry snap a box at) w
  unfolding plan_with
  planned_at-PlanPost c entry snap a box (nowhere reason) w h = h.0
  planned_at-PlanPost c entry snap a box (on_one s) w h = (a, ((refl, refl, refl, refl), h))
  planned_at-PlanPost c entry snap a box (spread s m) w h = (a, ((refl, refl, refl, refl), h))

  plan_storage-Leads :
      (c : Candidate) (entry : HostEntry) (snap : Snapshot) (a : Allocation) (box : Sandbox)
      (storages : List String) (w : World H)
      → IdleFresh config a w
      → Leads (PlanPost config) (plan_storage o config c entry snap a box storages) w
  unfolding plan_storage pure
  plan_storage-Leads c entry snap a box [] w h = h.0
  plan_storage-Leads c entry snap a box (top ∷ storages) w h =
      let P = IdleFresh config a in
      let closed = IdleFresh-IsClosed config a in
      bind-Leads (PlanPost config) (λ _. P) _ _ w (Runs-Leads P _ w (known_stores-Runs P closed) h)
        λ stores w1 h1.
          bind-Leads (PlanPost config) (λ _. P) _ _ w1
            (Runs-Leads P _ w1 (IsQuiet-Runs _ closed laws.tables) h1)
            λ tables w2 h2. planned_at-PlanPost c entry snap a box _ w2 h2

  plan_sandbox-Leads :
      (c : Candidate) (entry : HostEntry) (snap : Snapshot) (a : Option Allocation) (w : World H)
      → Idle w
      → a ≡ allocate config.ranges (active_and_held_runs w.db)
      → Leads (PlanPost config) (plan_sandbox o config c entry snap a) w
  unfolding plan_sandbox pure raise
  plan_sandbox-Leads c entry snap none w h e = h
  plan_sandbox-Leads c entry snap (some a) w h e =
      let fresh = allocate-IsFresh config.ranges (active_and_held_runs w.db) a (sym e) in
      elim (sandbox_alloc c.probe_primary_ip (some a.mgmt_ip) config)
        as (λ b.
          Leads (PlanPost config)
            (elim b [
              | none ↦ raise no_host
              | some box ↦ plan_storage o config c entry snap a box (ordered_storages config)
            ])
            w) [
              | none ↦ tt
              | some box ↦
                  plan_storage-Leads c entry snap a box (ordered_storages config) w
                    (h, record { made = w.db; since = here w.db; fresh = fresh })
            ]

  plan_snapshot-Leads :
      (c : Candidate) (entry : HostEntry) (snap : Option Snapshot) (w : World H)
      → Idle w
      → Leads (PlanPost config) (plan_snapshot o config c entry snap) w
  unfolding plan_snapshot pure query ◌>>=◌ continue
  plan_snapshot-Leads c entry none w h = h
  plan_snapshot-Leads c entry (some snap) w h = plan_sandbox-Leads c entry snap _ w h refl

  plan_source-Leads :
      (c : Candidate) (entry : Option HostEntry) (w : World H)
      → Idle w
      → Leads (PlanPost config) (plan_source o config c entry) w
  unfolding plan_source pure
  plan_source-Leads c none w h = h
  plan_source-Leads c (some entry) w h =
      bind-Leads (PlanPost config) (λ _. Idle) _ _ w
        (Runs-Leads Idle _ w
          (IsQuiet-Runs _ Idle-IsClosed (laws.list_snapshots entry.storage c.vmid)) h)
        λ snaps w1 h1. plan_snapshot-Leads c entry _ w1 h1

  pub build_plan-Leads :
      (c : Candidate) (w : World H) → Idle w → Leads (PlanPost config) (build_plan o config c) w
  unfolding build_plan pure
  build_plan-Leads c w h =
      if-Leads (PlanPost config) (is_container c.guest_type) _ _ w (λ e. h)
        λ e.
          bind-Leads (PlanPost config) (λ _. Idle) _ _ w
            (Runs-Leads Idle _ w (IsQuiet-Runs _ Idle-IsClosed laws.tables) h)
            λ tables w1 h1.
              bind-Leads (PlanPost config) (λ _. Idle) _ _ w1
                (Runs-Leads Idle _ w1 (host_entries-Runs Idle Idle-IsClosed) h1)
                λ entries w2 h2. plan_source-Leads c _ w2 h2
