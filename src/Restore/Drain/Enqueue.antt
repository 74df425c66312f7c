-- ===== src/Restore/Drain/Enqueue.antt =====
-- Queueing what is due keeps the table sound.
use backup_sentinel.Prelude.{
  All-filter, nat_eq, if◌then◌else◌, Bool-cases, ==-ne, any, filter, All, any-append, ℕ, ◌+◌, ◌≡◌,
  sym, ◌≢◌, inl, inr, Bool, true, false, not, ◌&&◌, List, [], ◌∷◌, arith,
}
use backup_sentinel.Prelude.Sort.{insert_by, sort_by, All-sort_by, All-insert_by}
use backup_sentinel.Restore.Runs.{Vm, Db, create_run, live_run_of, new_run}
use backup_sentinel.Restore.Match.{HostEntry, is_auto_restorable}
use backup_sentinel.Restore.Effect.{World, pure, transact, continue, ◌>>=◌}
use backup_sentinel.Restore.Planner.{Tables, vm_backup_locations}
use backup_sentinel.Restore.Runs.Invariant.{IsSound, create_run-IsSound}
use backup_sentinel.Restore.Runs.Results.{is_due, vm_by_id, due_auto_restore_candidates}
use backup_sentinel.Restore.Planner.Build.{Orchestra, is_container}
use backup_sentinel.Restore.Drain.{enqueue_each}
use backup_sentinel.Restore.Types.{scheduled}

-- No two VMs have the same id.
abbrev pub DistinctVms : List Vm → Type 0
DistinctVms [] = Unit
DistinctVms (v ∷ vms) = All (λ u. u.id ≢ v.id) vms × DistinctVms vms

DistinctVms-filter : (p : Vm → Bool) (vms : List Vm) → DistinctVms vms → DistinctVms (filter p vms)
DistinctVms-filter p [] h = tt
DistinctVms-filter p (v ∷ vms) h =
    elim (p v) as (λ b. DistinctVms (if b then v ∷ filter p vms else filter p vms)) [
      | true ↦ (All-filter (λ u. u.id ≢ v.id) p vms h.0, DistinctVms-filter p vms h.1)
      | false ↦ DistinctVms-filter p vms h.1
    ]

DistinctVms-insert_by :
    (leq : Vm → Vm → Bool) (v : Vm) (vms : List Vm)
    → All (λ u. u.id ≢ v.id) vms
    → DistinctVms vms
    → DistinctVms (insert_by leq v vms)
unfolding insert_by
DistinctVms-insert_by leq v [] h k = (tt, tt)
DistinctVms-insert_by leq v (u ∷ vms) h k =
    elim (leq v u) as (λ b. DistinctVms (if b then v ∷ u ∷ vms else u ∷ insert_by leq v vms)) [
      | true ↦ (h, k)
      | false ↦ (
        All-insert_by leq (λ x. x.id ≢ u.id) v vms (λ e. h.0 (sym e)) k.0,
        DistinctVms-insert_by leq v vms h.1 k.1,
      )
    ]

DistinctVms-sort_by :
    (leq : Vm → Vm → Bool) (vms : List Vm) → DistinctVms vms → DistinctVms (sort_by leq vms)
unfolding sort_by
DistinctVms-sort_by leq [] h = tt
DistinctVms-sort_by leq (v ∷ vms) h =
    DistinctVms-insert_by leq v (sort_by leq vms) (All-sort_by leq (λ u. u.id ≢ v.id) vms h.0)
      (DistinctVms-sort_by leq vms h.1)

-- No live run of the VM.
abbrev Free : Db → Vm → Type 0
Free db v = any (live_run_of v.id) db.runs ≡ false

due-Free : (db : Db) (vms : List Vm) → All (Free db) (filter (is_due db) vms)
unfolding is_due
due-Free db [] = tt
due-Free db (v ∷ vms) = elim (Bool-cases (is_due db v)) [
  | inl e ↦ rw e (ground (arith, e), due-Free db vms)
  | inr e ↦ rw e (due-Free db vms)
]

create_run-Free :
    (db : Db) (v : Vm) (vms : List Vm)
    → All (λ u. u.id ≢ v.id) vms
    → All (Free db) vms
    → All (Free (create_run v.id scheduled db).0) vms
unfolding create_run new_run
create_run-Free db v [] h k = tt
create_run-Free db v (u ∷ vms) h k = (
  ground (
    arith,
    h.0,
    k.0,
    any-append (live_run_of u.id) db.runs (new_run db v.id scheduled ∷ []),
    ==-ne v.id u.id (λ e. h.0 (sym e)),
  ),
  create_run-Free db v vms h.1 k.1,
)

module _ {H : Type 0} (o : Orchestra H) (tables : Tables) (entries : List HostEntry) where
  enqueue_each-keeps :
      (vms : List Vm) (n : ℕ) (w : World H)
      → DistinctVms vms
      → All (Free w.db) vms
      → IsSound w.db
      → IsSound (enqueue_each o tables entries vms n w).0.db
  unfolding enqueue_each pure transact ◌>>=◌ continue
  enqueue_each-keeps [] n w d f s = s
  enqueue_each-keeps (v ∷ vms) n w d f s =
      elim (Bool-cases (
        not (is_container v.guest_type)
        && is_auto_restorable (vm_backup_locations tables v.id) entries)) [
          | inl e ↦ rw e (
              enqueue_each-keeps vms (n + 1) (record w { db = (create_run v.id scheduled w.db).0 })
                d.1 (create_run-Free w.db v vms d.0 f.1)
                (create_run-IsSound v.id scheduled w.db s f.0))
          | inr e ↦ rw e (enqueue_each-keeps vms n w d.1 f.1 s)
        ]

  -- The VMs that are due are queued without giving any a second live run, from any table in which run
  -- ids are fresh and distinct and each VM has at most one live run, when the VMs have distinct ids.
  pub enqueue_each-IsSound :
      (w : World H)
      → DistinctVms w.db.vms
      → IsSound w.db
      → IsSound (enqueue_each o tables entries (due_auto_restore_candidates w.db) 0 w).0.db
  unfolding due_auto_restore_candidates
  enqueue_each-IsSound w d s =
      enqueue_each-keeps (due_auto_restore_candidates w.db) 0 w
        (DistinctVms-sort_by vm_by_id _ (DistinctVms-filter (is_due w.db) w.db.vms d))
        (All-sort_by vm_by_id (Free w.db) _ (due-Free w.db w.db.vms)) s
