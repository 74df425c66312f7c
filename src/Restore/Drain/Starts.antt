-- ===== src/Restore/Drain/Starts.antt =====
-- What a pass of `drain` over the queue gives to the run that it starts.
use backup_sentinel.Restore.Runs.Owned.{any-update_where}
use backup_sentinel.Prelude.{
  if◌then◌else◌, if◌then◌else◌, ℕ, String, refl, Bool, true, false, ◌||◌, Option, none, some, List,
  [], ◌∷◌, arith,
}
use backup_sentinel.Restore.Runs.{has_active_run, list_queued_runs}
use backup_sentinel.Restore.Drain.{
  Verdict, next_run, stop_here, broke, dequeue, is_busy, resources_now, fits_disk_now, fits_ram_now,
  start_planned, check_busy, check_ram, try_planned, try_candidate, try_run, drain_runs, drain_once,
}
use backup_sentinel.Restore.Effect.{
  Outcome, returned, raised, diverged, World, Act, pure, query, transact, continue, ◌>>=◌,
}
use backup_sentinel.Restore.Planner.{Config, candidate_for_vm}
use backup_sentinel.Restore.Alloc.{Allocation}
use backup_sentinel.Restore.Types.{Status, Checks, Run}
use backup_sentinel.Restore.Worker.{RunPlan}
use backup_sentinel.Restore.Effect.Runs.{IsOver, Runs, pure-Runs, attempt-Runs, bind-Runs}
use backup_sentinel.Restore.Effect.Leads.{
  Post, Leads, bind-Leads, if-Leads, RunsAt-Post, Runs-Leads,
}
use backup_sentinel.Restore.Drain.Plans.{
  IsOrchestra, Takes, IsReady, IsClosed, Idle, IdleFresh, Idle-IsClosed, IdleFresh-IsClosed,
  IsQuiet-Runs, PlanPost, build_plan-Leads,
}
use backup_sentinel.Restore.Runs.Results.{finish, record_run_result}
use backup_sentinel.Restore.Planner.Build.{Planned, ready, no_resources, not_runnable, Orchestra}

-- A run that is dequeued is over: no run begins to run.
dequeue-Idle :
    {H : Type 0} (run : Run) (checks : Option Checks) (w : World H)
    → Idle w
    → Leads (λ _. Idle) (dequeue run checks) w
unfolding dequeue transact record_run_result finish has_active_run
dequeue-Idle run checks w h = any-update_where _ _ _ w.db.runs (λ r e. refl) h

-- The next run is looked at only while no run is running.
abbrev VerdictPost : {H : Type 0} → Verdict → World H → Type 0
VerdictPost next_run w = Idle w
VerdictPost stop_here w = Unit
VerdictPost broke w = Unit

module _ {H : Type 0} (o : Orchestra H) (laws : IsOrchestra o) (config : Config)
    (begin : RunPlan → ℕ → List String → Act H Status) (hosts : List String)
    (ends : (plan : RunPlan) (run_id : ℕ) (w : World H)
      → IsReady config plan w
      → IsOver (begin plan run_id hosts w).1) where
  resources_now-Runs : (P : World H → Type 0) → IsClosed P → Runs P (resources_now o)
  unfolding resources_now
  resources_now-Runs P closed =
      attempt-Runs none _
        (bind-Runs _ _ (IsQuiet-Runs _ closed laws.free_resources) λ r. pure-Runs _)

  fits_disk_now-Runs :
      (P : World H → Type 0) (plan : RunPlan) → IsClosed P → Runs P (fits_disk_now o plan)
  unfolding fits_disk_now
  fits_disk_now-Runs P plan closed =
      bind-Runs _ _ (resources_now-Runs P closed)
        λ r. bind-Runs _ _ (IsQuiet-Runs _ closed laws.tables) λ tables. pure-Runs _

  fits_ram_now-Runs :
      (P : World H → Type 0) (plan : RunPlan) → IsClosed P → Runs P (fits_ram_now o plan)
  unfolding fits_ram_now
  fits_ram_now-Runs P plan closed = bind-Runs _ _ (resources_now-Runs P closed) λ r. pure-Runs _

  start_planned-Leads :
      (run : Run) (plan : RunPlan) (w : World H)
      → IsReady config plan w
      → Leads VerdictPost (start_planned o config begin hosts run plan) w
  unfolding start_planned pure
  start_planned-Leads run plan w ready_now =
      bind-Leads VerdictPost (λ _ _. Unit) _ _ w
        (RunsAt-Post (λ _. Unit) (begin plan run.id hosts w) tt (ends plan run.id w ready_now))
        λ result w1 _.
          bind-Leads VerdictPost (λ _ _. Unit) _ _ w1
            (RunsAt-Post (λ _. Unit) (o.notify run.vm_id result w1) tt
              (laws.notify run.vm_id result w1))
            λ _ _ _. tt

  check_busy-Leads :
      (run : Run) (plan : RunPlan) (a : Allocation) (w : World H)
      → Takes plan a
      → IdleFresh config a w
      → Leads VerdictPost (check_busy o config begin hosts run plan) w
  unfolding check_busy pure
  check_busy-Leads run plan a w takes h =
      bind-Leads VerdictPost (λ _. IdleFresh config a) _ _ w
        (Runs-Leads _ _ w (IsQuiet-Runs _ (IdleFresh-IsClosed config a) laws.running_storage) h)
        λ busy w1 h1.
          if-Leads VerdictPost (is_busy busy plan) _ _ w1 (λ _. h1.0)
            λ _.
              start_planned-Leads run plan w1
                (record { idle = h1.0; allocation = a; takes = takes; fresh = h1.1 })

  try_planned-Leads :
      (run : Run) (planned : Planned) (w : World H)
      → PlanPost config planned w
      → Leads VerdictPost (try_planned o config begin hosts run planned) w
  unfolding try_planned check_ram pure
  try_planned-Leads run (not_runnable reason) w h =
      bind-Leads VerdictPost (λ _. Idle) _ _ w (dequeue-Idle run _ w h) λ _ _ h1. h1
  try_planned-Leads run no_resources w h = tt
  try_planned-Leads run (ready plan) w (a, (takes, h)) =
      let P = IdleFresh config a in
      let closed = IdleFresh-IsClosed config a in
      bind-Leads VerdictPost (λ _. P) _ _ w (Runs-Leads P _ w (fits_disk_now-Runs P plan closed) h)
        λ fits w1 h1.
          if-Leads VerdictPost fits _ _ w1
            (λ _.
              bind-Leads VerdictPost (λ _. P) _ _ w1
                (Runs-Leads P _ w1 (fits_ram_now-Runs P plan closed) h1)
                λ fits_too w2 h2.
                  if-Leads VerdictPost fits_too _ _ w2
                    (λ _. check_busy-Leads run plan a w2 takes h2) (λ _. h2.0))
            (λ _. h1.0)

  try_run-Leads :
      (run : Run) (w : World H) → Idle w → Leads VerdictPost (try_run o config begin hosts run) w
  unfolding try_run try_candidate pure
  try_run-Leads run w h =
      bind-Leads VerdictPost (λ _. Idle) _ _ w
        (Runs-Leads Idle _ w (IsQuiet-Runs _ Idle-IsClosed laws.tables) h)
        λ tables w1 h1.
          elim (candidate_for_vm tables run.vm_id)
            as (λ c. Leads VerdictPost (try_candidate o config begin hosts run c) w1) [
              | none ↦
                  bind-Leads VerdictPost (λ _. Idle) _ _ w1 (dequeue-Idle run none w1 h1)
                    λ _ _ h2. h2
              | some c ↦
                  bind-Leads VerdictPost (PlanPost config) _ _ w1
                    (build_plan-Leads o laws config c w1 h1)
                    λ planned w2 h2. try_planned-Leads run planned w2 h2
            ]

  after_verdict :
      (verdict : Verdict) (runs : List Run) (w : World H)
      → VerdictPost verdict w
      → (Idle w → IsOver (drain_runs o config begin hosts runs w).1)
      → Leads
          (λ (_ : Bool) _. Unit)
          (elim verdict [
            | next_run ↦ drain_runs o config begin hosts runs
            | stop_here ↦ pure false
            | broke ↦ pure true
          ])
          w
  unfolding pure
  after_verdict next_run runs w h k =
      RunsAt-Post (λ _. Unit) (drain_runs o config begin hosts runs w) tt (k h)
  after_verdict stop_here runs w h k = tt
  after_verdict broke runs w h k = tt

  Post-IsOver : {A : Type 0} (r : World H × Outcome A) → Post (λ _ _. Unit) r → IsOver r.1
  Post-IsOver (w, returned a) h = tt
  Post-IsOver (w, raised f) h = tt
  Post-IsOver (w, diverged) h = h

  drain_runs-IsOver :
      (runs : List Run) (w : World H) → Idle w → IsOver (drain_runs o config begin hosts runs w).1
  unfolding drain_runs pure
  drain_runs-IsOver [] w h = tt
  drain_runs-IsOver (run ∷ runs) w h =
      Post-IsOver (drain_runs o config begin hosts (run ∷ runs) w) (
        bind-Leads (λ (_ : Bool) _. Unit) VerdictPost _ _ w (try_run-Leads run w h)
          λ verdict w1 h1. after_verdict verdict runs w1 h1 (drain_runs-IsOver runs w1))

  pub drain_once-IsOver : (w : World H) → IsOver (drain_once o config begin hosts w).1
  unfolding drain_once query pure ◌>>=◌ continue
  drain_once-IsOver w = Post-IsOver (drain_once o config begin hosts w) (
      bind-Leads (λ (_ : Bool) _. Unit) (λ _ _. Unit) o.queue_paused
        (λ paused. do
          active ← query has_active_run
          if paused || active
              then pure false
              else query list_queued_runs >>= drain_runs o config begin hosts)
        w (RunsAt-Post (λ _. Unit) (o.queue_paused w) tt (laws.queue_paused.over w))
        λ paused w1 _.
          if-Leads (λ (_ : Bool) _. Unit) (paused || has_active_run w1.db) (pure false)
            (query list_queued_runs >>= drain_runs o config begin hosts) w1 (λ _. tt)
            λ idle.
              RunsAt-Post (λ _. Unit) (drain_runs o config begin hosts (list_queued_runs w1.db) w1)
                tt (drain_runs-IsOver (list_queued_runs w1.db) w1 (ground (arith, idle))))
