-- ===== src/Restore/Worker/Pipeline/Ends.antt =====
-- How a run ends, whatever the restore server does and other processes do meanwhile.
use backup_sentinel.Prelude.{
  if◌then◌else◌, Bool-cases, ◌==◌, any, filter, ℕ, ◌≤◌, String, ◌≡◌, refl, ap, ◌∙◌, inl, inr, true,
  false, not, ◌&&◌, none, some, List, [], ◌∷◌, arith, nat_eq, string_eq,
}
use backup_sentinel.Restore.Runs.{
  Db, create_run, get_run, reorder_queue, delete_run, request_cancel,
}
use backup_sentinel.Restore.Effect.{Outcome, returned, World, pure, transact, continue, ◌>>=◌, ◌>>◌}
use backup_sentinel.Restore.Types.{
  Result, Status, held, finished, Checks, Run, is_queued, is_running, counts_as_test,
}
use backup_sentinel.Restore.Worker.{RunPlan, Server, now, update}
use backup_sentinel.Restore.Effect.Returns.{after-bind}
use backup_sentinel.Restore.Runs.Recorded.{IsEvidence, record_run_result-IsRecorded}
use backup_sentinel.Restore.Runs.Invariant.{
  write_all-id, sets_status, write_all-status, any-filter_updatable,
}
use backup_sentinel.Restore.Runs.Fields.{
  Field, helper_vmid_to, mgmt_ip_to, is_updatable, write, write_all, update_run,
}
use backup_sentinel.Restore.Runs.Results.{
  insert_test, or_else, Extras, finish, record_run_result, set_vm_next_run, schedule_retry,
}
use backup_sentinel.Restore.Runs.Rows.{
  IsStartedRow, update_where-IsStartedRow, append-IsStartedRow, filter-IsStartedRow,
  reorder_from-IsStartedRow, find_run-update,
}
use backup_sentinel.Restore.Worker.Laws.{
  created, after, updated, Meanwhile, ticked, asked_to_cancel, deleted, queue_reordered,
  next_run_set, documented, ended, Later, here, IsSteady, IsServer,
}
use backup_sentinel.Restore.Worker.Ending.{
  is_failure, outcome_extras, record_result, hold, schedule_next, close, finalize,
}
use backup_sentinel.Restore.Worker.Pipeline.{start_run, pipeline, execute}
use backup_sentinel.Restore.Worker.Pipeline.Steady.{pipeline-Returns}
use backup_sentinel.Restore.Worker.Ending.Steady.{teardown-Returns, discard_helper-Returns}

-- The row of the run is there, and does not wait in the queue.
abbrev pub Underway : {H : Type 0} → ℕ → World H → Type 0
Underway run_id w = IsStartedRow run_id w.db.runs

updated-IsStartedRow :
    (run_id i : ℕ) (fields : List Field) (db : Db)
    → any sets_status fields ≡ false
    → IsStartedRow run_id db.runs
    → IsStartedRow run_id (update_run i fields db).runs
unfolding update_run
updated-IsStartedRow run_id i fields db quiet =
    let cols = filter is_updatable fields in
    update_where-IsStartedRow run_id (λ r. r.id == i) (write_all cols) db.runs (write_all-id cols)
      (λ r t e. ap is_queued (write_all-status cols r (any-filter_updatable fields quiet)) ∙ e)

ended-IsStartedRow :
    (run_id i vm_id : ℕ) (result : Result) (duration : ℕ) (extras : Extras) (db : Db)
    → is_queued (or_else extras.status (finished result)) ≡ false
    → IsStartedRow run_id db.runs
    → IsStartedRow run_id (record_run_result i vm_id result duration extras db).0.runs
unfolding record_run_result finish insert_test
ended-IsStartedRow run_id i vm_id result duration extras db waits h =
    elim (Bool-cases (counts_as_test result)) [
      | inl t ↦ rw t (
          update_where-IsStartedRow run_id (λ r. r.id == i) _ db.runs (λ r. refl) (λ r t e. waits)
            h)
      | inr f ↦ rw f (
          update_where-IsStartedRow run_id (λ r. r.id == i) _ db.runs (λ r. refl) (λ r t e. waits)
            h)
    ]

-- Nothing that others do takes a run that has started away or puts it back in the queue.
Meanwhile-Underway :
    (run_id : ℕ) (a b : Db)
    → Meanwhile a b
    → IsStartedRow run_id a.runs
    → IsStartedRow run_id b.runs
unfolding create_run request_cancel delete_run reorder_queue set_vm_next_run
Meanwhile-Underway run_id _ _ (ticked db n) h = h
Meanwhile-Underway run_id _ _ (created db vm_id trigger) h = append-IsStartedRow run_id db.runs _ h
Meanwhile-Underway run_id _ _ (asked_to_cancel db i) h =
    update_where-IsStartedRow run_id (λ r. r.id == i && is_running r.status)
      (λ r. record r { cancel_requested = true }) db.runs (λ r. refl) (λ r t e. e) h
Meanwhile-Underway run_id _ _ (deleted db i) h =
    filter-IsStartedRow run_id (λ r. not (r.id == i && is_queued r.status)) db.runs
      (λ r e. ground (arith, e)) h
Meanwhile-Underway run_id _ _ (queue_reordered db ids) h =
    reorder_from-IsStartedRow run_id 0 ids db.runs 0 h
Meanwhile-Underway run_id _ _ (next_run_set db vm_id due) h = h
Meanwhile-Underway run_id _ _ (documented db row) h = h
Meanwhile-Underway run_id _ _ (updated db i fields quiet) h =
    updated-IsStartedRow run_id i fields db quiet h
Meanwhile-Underway run_id _ _ (ended db i vm_id result duration extras waits stops) h =
    ended-IsStartedRow run_id i vm_id result duration extras db waits h

Later-Underway :
    (run_id : ℕ) (a b : Db) → Later a b → IsStartedRow run_id a.runs → IsStartedRow run_id b.runs
Later-Underway run_id _ _ (here db) h = h
Later-Underway run_id _ _ (after {a} {b} {c} m l) h =
    Later-Underway run_id b c l (Meanwhile-Underway run_id a b m h)

pub Underway-IsSteady :
    {H : Type 0} (s : Server H) (run_id : ℕ) → IsSteady s run_id (Underway run_id)
Underway-IsSteady s run_id = record {
  later = λ w w' l c k h. Later-Underway run_id w.db w'.db l h;
  tracks = λ w t h. h;
  updates = λ w fields quiet h. updated-IsStartedRow run_id run_id fields w.db quiet h;
}

-- The row of the run, the status returned and the tests when a run is over.
pub record IsEnded {H : Type 0} (plan : RunPlan) (run_id : ℕ) (out : World H × Outcome Status)
    : Type 0 where
  pub run : Run
  pub result : Result
  pub found : get_run run_id out.0.db ≡ some run
  pub returns : out.1 ≡ returned run.status
  pub result_is : run.result ≡ some result
  pub status_is :
      run.status ≡ (if plan.hold_on_failure && is_failure result then held else finished result)
  pub frees : run.status ≡ held → (run.helper_vmid ≡ none) × (run.mgmt_ip ≡ none)
  pub evidence :
      IsEvidence (counts_as_test result) plan.vm_id result run.restore_test_id out.0.db.tests

module _ {H : Type 0} (s : Server H) {run_id : ℕ} (plan : RunPlan) where
  -- From where the teardown leaves the world.
  closed-IsEnded :
      (result : Result) (checks : Checks) (duration : ℕ) (log : String) (w : World H)
      → Underway run_id w
      → (plan.hold_on_failure && is_failure result) ≡ false
      → IsEnded plan run_id (
          (do
            record_result s plan run_id result duration (outcome_extras checks log none)
            schedule_next s plan result
            pure (finished result))
            w)
  unfolding record_result schedule_next transact set_vm_next_run schedule_retry get_run pure ◌>>=◌
      continue
  closed-IsEnded result checks duration log w u lets_go =
      let d =
        record_run_result-IsRecorded run_id plan.vm_id duration (outcome_extras checks log none)
          w.db u.0 u.1 result in
      elim (Bool-cases (is_failure result)) [
        | inl f ↦ rw f (record {
          run = d.row;
          result = result;
          found = d.found;
          returns = rw d.status_is refl;
          result_is = d.result_is;
          status_is = rw lets_go d.status_is;
          frees = λ h. absurd (ground (arith, h, d.status_is));
          evidence = d.evidence;
        })
        | inr f ↦ rw f (record {
          run = d.row;
          result = result;
          found = d.found;
          returns = rw d.status_is refl;
          result_is = d.result_is;
          status_is = rw lets_go d.status_is;
          frees = λ h. absurd (ground (arith, h, d.status_is));
          evidence = d.evidence;
        })
      ]

  -- From where the helper is discarded.
  held-IsEnded :
      (result : Result) (checks : Checks) (duration : ℕ) (log : String) (w : World H)
      → Underway run_id w
      → (plan.hold_on_failure && is_failure result) ≡ true
      → IsEnded plan run_id (
          (do
            record_result s plan run_id result duration (outcome_extras checks log (some held))
            update run_id (helper_vmid_to none ∷ mgmt_ip_to none ∷ [])
            pure held)
            w)
  unfolding record_result update update_run write_all write is_updatable transact get_run pure ◌>>=◌
      continue
  held-IsEnded result checks duration log w u holds =
      let d =
        record_run_result-IsRecorded run_id plan.vm_id duration
          (outcome_extras checks log (some held)) w.db u.0 u.1 result in
      record {
        run = record d.row { helper_vmid = none; mgmt_ip = none };
        result = result;
        found =
            find_run-update run_id (λ r. record r { helper_vmid = none; mgmt_ip = none }) _ d.row
              (λ _. refl) d.found;
        returns = rw d.status_is refl;
        result_is = d.result_is;
        status_is = rw holds d.status_is;
        frees = λ h. (refl, refl);
        evidence = d.evidence;
      }

start_run-Underway :
    {H : Type 0} (s : Server H) (run_id : ℕ) (plan : RunPlan) (w : World H) (r : Run)
    → get_run run_id w.db ≡ some r
    → Underway run_id (start_run s plan run_id w).0
unfolding start_run transact update_run is_updatable write write_all get_run
start_run-Underway s run_id plan w r found =
    (_, find_run-update run_id _ w.db.runs r (λ _. refl) found, refl)

pub now-returns :
    {H : Type 0} (s : Server H) (w : World H) → now s w ≡ (w, returned (s.monotonic w.host))
unfolding now
now-returns s w = refl

start_run-returns :
    {H : Type 0} (s : Server H) (run_id : ℕ) (plan : RunPlan) (w : World H)
    → (start_run s plan run_id w).1 ≡ returned tt
unfolding start_run transact
start_run-returns s run_id plan w = refl

module _ {H : Type 0} {s : Server H} {run_id : ℕ} (laws : IsServer s) (plan : RunPlan) where
  pub finalize-IsEnded :
      (result : Result) (checks : Checks) (duration : ℕ) (log : String) (w : World H)
      → Underway run_id w
      → IsEnded plan run_id (finalize s plan run_id result checks duration log w)
  unfolding finalize close hold
  finalize-IsEnded result checks duration log w u =
      let p = Underway-IsSteady s run_id in
      elim (Bool-cases (plan.hold_on_failure && is_failure result)) [
        | inl holds ↦
            let (u', (_, left)) = (discard_helper-Returns laws p plan).at w u in
            rw holds (
              after-bind (IsEnded plan run_id) _ _ w _ left
                (held-IsEnded s plan result checks duration log _ u' holds))
        | inr lets_go ↦
            let (u', (_, torn)) = (teardown-Returns laws p plan).at w u in
            rw lets_go (
              after-bind (IsEnded plan run_id) _ _ w _ torn
                (closed-IsEnded s plan result checks duration log _ u' lets_go))
      ]

  -- Where every method of the server ends, its restore and its polls too, and meanwhile no other
  -- process deletes the row of the run or puts a run that has started back in the queue, a run that is
  -- executed, whose row is there, with an interval of at least a second, ends: `execute` returns, and
  -- returns the status that its row has, even if the recovery of stuck runs has ended the row
  -- meanwhile. The row has the result, its status is the result or `held`, and a held row has given its
  -- helper and address back. For a result that counts as a test the row names the last of the tests,
  -- which is one of its VM with the result, and for any other none.
  pub execute-IsEnded :
      (hosts : List String) (w : World H) (r : Run)
      → 1 ≤ plan.interval
      → get_run run_id w.db ≡ some r
      → IsEnded plan run_id (execute s plan run_id hosts w)
  unfolding execute
  execute-IsEnded hosts w r positive found =
      let p = Underway-IsSteady s run_id in
      let Q = IsEnded plan run_id in
      let w' = (start_run s plan run_id w).0 in
      let u = start_run-Underway s run_id plan w r found in
      let (u', (ran, over)) = (pipeline-Returns laws p plan hosts positive).at w' u in
      let w'' = (pipeline s plan run_id hosts w').0 in
      after-bind Q (now s) _ w (s.monotonic w.host) (ap (λ x. x.1) (now-returns s w)) (
        rw (now-returns s w) (
          after-bind Q (start_run s plan run_id) _ w tt (start_run-returns s run_id plan w) (
            after-bind Q (pipeline s plan run_id hosts) _ w' ran over (
              after-bind Q (now s) _ w'' (s.monotonic w''.host) (ap (λ x. x.1) (now-returns s w''))
                (rw (now-returns s w'')
                  (finalize-IsEnded ran.result ran.checks _ ran.log_text w'' u'))))))
