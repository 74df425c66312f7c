-- ===== src/Restore/Runs/Owned.antt =====
-- That others start no run.
use backup_sentinel.Prelude.{
  Bool-cases, ◌==◌, any, filter, ℕ, suc, ◌≡◌, refl, ap, ◌∙◌, inl, inr, Bool, true, false, ◌&&◌,
  some, List, [], ◌∷◌, ◌++◌, arith, nat_eq, string_eq,
}
use backup_sentinel.Restore.Runs.{
  Db, new_run, create_run, update_where, set_order, reorder_from, reorder_queue, has_active_run,
  delete_run, request_cancel,
}
use backup_sentinel.Restore.Types.{Run, is_queued, is_running, counts_as_test}
use backup_sentinel.Restore.Runs.Invariant.{write_all-status, any-filter_updatable}
use backup_sentinel.Restore.Runs.Fields.{is_updatable, write_all, update_run}
use backup_sentinel.Restore.Runs.Results.{insert_test, finish, record_run_result, set_vm_next_run}
use backup_sentinel.Restore.Worker.Laws.{
  created, after, updated, Meanwhile, ticked, asked_to_cancel, deleted, queue_reordered,
  next_run_set, documented, ended, Later, here,
}

any-append_one :
    (p : Run → Bool) (runs : List Run) (r : Run)
    → p r ≡ false
    → any p runs ≡ false
    → any p (runs ++ r ∷ []) ≡ false
any-append_one p [] r e h = ground (arith, e)
any-append_one p (s ∷ runs) r e h = ground (arith, e, any-append_one p runs r)

pub any-update_where :
    (p q : Run → Bool) (f : Run → Run) (runs : List Run)
    → ((r : Run) → p r ≡ false → p (f r) ≡ false)
    → any p runs ≡ false
    → any p (update_where q f runs) ≡ false
unfolding update_where
any-update_where p q f [] h e = refl
any-update_where p q f (r ∷ runs) h e = ground (arith, h r, any-update_where p q f runs h)

any-filter :
    (p q : Run → Bool) (runs : List Run) → any p runs ≡ false → any p (filter q runs) ≡ false
any-filter p q [] h = refl
any-filter p q (r ∷ runs) h = ground (arith, any-filter p q runs)

abbrev runs_now : Run → Bool
runs_now r = is_running r.status

-- Reordering touches queued rows alone.
reorder_from-idle :
    (position : ℕ) (ids : List ℕ) (runs : List Run) (n : ℕ)
    → any runs_now runs ≡ false
    → any runs_now (reorder_from position ids runs n).0 ≡ false
unfolding reorder_from set_order
reorder_from-idle position [] runs n h = h
reorder_from-idle position (i ∷ ids) runs n h = reorder_from-idle (suc position) ids _ _ (
    any-update_where runs_now (λ r. r.id == i && is_queued r.status)
      (λ r. record r { sort_order = some position }) runs (λ r e. e) h)

Meanwhile-idle :
    (a b : Db) → Meanwhile a b → any runs_now a.runs ≡ false → any runs_now b.runs ≡ false
unfolding create_run new_run request_cancel delete_run reorder_queue set_vm_next_run update_run
    record_run_result insert_test finish
Meanwhile-idle _ _ (ticked db n) h = h
Meanwhile-idle _ _ (created db vm_id trigger) h = any-append_one runs_now db.runs _ refl h
Meanwhile-idle _ _ (asked_to_cancel db i) h =
    any-update_where runs_now (λ r. r.id == i && is_running r.status)
      (λ r. record r { cancel_requested = true }) db.runs (λ r e. e) h
Meanwhile-idle _ _ (deleted db i) h = any-filter runs_now _ db.runs h
Meanwhile-idle _ _ (queue_reordered db ids) h = reorder_from-idle 0 ids db.runs 0 h
Meanwhile-idle _ _ (next_run_set db vm_id due) h = h
Meanwhile-idle _ _ (documented db row) h = h
Meanwhile-idle _ _ (updated db i fields quiet) h =
    let cols = filter is_updatable fields in
    any-update_where runs_now (λ r. r.id == i) (write_all cols) db.runs
      (λ r e. ap is_running (write_all-status cols r (any-filter_updatable fields quiet)) ∙ e) h
Meanwhile-idle _ _ (ended db i vm_id result duration extras waits stops) h =
    elim (Bool-cases (counts_as_test result)) [
      | inl t ↦ rw t (any-update_where runs_now (λ r. r.id == i) _ db.runs (λ r e. stops) h)
      | inr f ↦ rw f (any-update_where runs_now (λ r. r.id == i) _ db.runs (λ r e. stops) h)
    ]

-- While others act no run begins to run.
pub Later-idle : (a b : Db) → Later a b → has_active_run a ≡ false → has_active_run b ≡ false
unfolding has_active_run
Later-idle _ _ (here db) h = h
Later-idle _ _ (after {a} {b} {c} m l) h = Later-idle b c l (Meanwhile-idle a b m h)
