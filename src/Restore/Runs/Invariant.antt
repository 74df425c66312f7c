-- ===== src/Restore/Runs/Invariant.antt =====
-- What the operations of the runs table keep.
use backup_sentinel.Prelude.{
  if◌then◌else◌, Bool-cases, ◌==◌, any, filter, All, count, All-append, ℕ, suc, ◌+◌, ◌≤◌, ◌<◌, ◌≡◌,
  refl, ◌∙◌, ◌≢◌, inl, inr, Bool, true, false, ◌&&◌, ◌||◌, Option, none, some, List, [], ◌∷◌, ◌++◌,
  arith, nat_eq, string_eq,
}
use backup_sentinel.Restore.Types.{
  Trigger, Run, Result, is_running, passed, limited, failed, error, cancelled,
}
use backup_sentinel.Restore.Runs.Results.{Extras, record_run_result, finish}
use backup_sentinel.Restore.Runs.{
  Db, new_run, create_run, live_run_of, enqueue_if_never_passed, update_where, passed_run_of,
  request_cancel,
}
use backup_sentinel.Restore.Runs.Fields.{
  Field, status_to, is_updatable, write, write_all, update_run,
}

-- Ids are fresh and distinct, and no VM has two runs that are queued, running or held.
abbrev pub DistinctIds : List Run → Type 0
DistinctIds [] = Unit
DistinctIds (r ∷ runs) = All (λ s. s.id ≢ r.id) runs × DistinctIds runs

pub record IsSound (db : Db) : Type 0 where
  pub below : All (λ r. r.id < db.next_run_id) db.runs
  pub distinct : DistinctIds db.runs
  pub one_live : (vm_id : ℕ) → count (live_run_of vm_id) db.runs ≤ 1

count-append : (p : Run → Bool) (xs ys : List Run) → count p (xs ++ ys) ≡ count p xs + count p ys
count-append p [] ys = omega arith
count-append p (x ∷ xs) ys = ground (arith, count-append p xs ys)

count-any : (p : Run → Bool) (runs : List Run) → any p runs ≡ false → count p runs ≡ 0
count-any p [] h = refl
count-any p (r ∷ runs) h = ground (arith, count-any p runs)

-- An update that makes no row satisfy `p` anew leaves no more rows that do.
count-update_where :
    (p q : Run → Bool) (f : Run → Run) (runs : List Run)
    → ((r : Run) → q r ≡ true → p (f r) ≡ true → p r ≡ true)
    → count p (update_where q f runs) ≤ count p runs
unfolding update_where
count-update_where p q f [] h = omega arith
count-update_where p q f (r ∷ runs) h = ground (arith, h r, count-update_where p q f runs h)

All-update_where {κ} :
    (P : Run → Type κ) (q : Run → Bool) (f : Run → Run) (runs : List Run)
    → ((r : Run) → P r → P (f r))
    → All P runs
    → All P (update_where q f runs)
unfolding update_where
All-update_where P q f [] h k = tt
All-update_where P q f (r ∷ runs) h k =
    elim (q r)
      as (λ b. All P (if b then f r ∷ update_where q f runs else r ∷ update_where q f runs)) [
        | true ↦ (h r k.0, All-update_where P q f runs h k.1)
        | false ↦ (k.0, All-update_where P q f runs h k.1)
      ]

DistinctIds-update_where :
    (q : Run → Bool) (f : Run → Run) (runs : List Run)
    → ((r : Run) → (f r).id ≡ r.id)
    → DistinctIds runs
    → DistinctIds (update_where q f runs)
unfolding update_where
DistinctIds-update_where q f [] h k = tt
DistinctIds-update_where q f (r ∷ runs) h k =
    elim (q r)
      as (λ b. DistinctIds (if b then f r ∷ update_where q f runs else r ∷ update_where q f runs)) [
        | true ↦ (
          All-update_where (λ s. s.id ≢ (f r).id) q f runs (λ s n. rw (h s) n) (rw (h r) k.0),
          DistinctIds-update_where q f runs h k.1,
        )
        | false ↦ (
          All-update_where (λ s. s.id ≢ r.id) q f runs (λ s n. rw (h s) n) k.0,
          DistinctIds-update_where q f runs h k.1,
        )
      ]

-- Updates of rows keep the table sound if they keep the ids and revive no row.
IsSound-update_where :
    (db : Db) (q : Run → Bool) (f : Run → Run)
    → ((r : Run) → (f r).id ≡ r.id)
    → ((r : Run) (vm_id : ℕ)
        → q r ≡ true
        → live_run_of vm_id (f r) ≡ true
        → live_run_of vm_id r ≡ true)
    → IsSound db
    → IsSound (record db { runs = update_where q f db.runs })
IsSound-update_where db q f keeps revives s = record {
  below = All-update_where (λ r. r.id < db.next_run_id) q f db.runs (λ r n. rw (keeps r) n) s.below;
  distinct = DistinctIds-update_where q f db.runs keeps s.distinct;
  one_live = λ vm_id. ground (
    arith,
    s.one_live vm_id,
    count-update_where (live_run_of vm_id) q f db.runs (λ r. revives r vm_id),
  );
}

DistinctIds-append :
    (runs : List Run) (r : Run)
    → DistinctIds runs
    → All (λ s. s.id < r.id) runs
    → DistinctIds (runs ++ r ∷ [])
DistinctIds-append [] r h k = (tt, tt)
DistinctIds-append (s ∷ runs) r h k = (
  All-append (λ t. t.id ≢ s.id) runs (r ∷ []) h.0 (omega (arith, k.0), tt),
  DistinctIds-append runs r h.1 k.1,
)

All-weaken : (n : ℕ) (runs : List Run) → All (λ r. r.id < n) runs → All (λ r. r.id < suc n) runs
All-weaken n [] h = tt
All-weaken n (r ∷ runs) h = (omega (arith, h.0), All-weaken n runs h.1)

-- A new run for a VM that has no live run keeps the table sound.
pub create_run-IsSound :
    (vm_id : ℕ) (trigger : Trigger) (db : Db)
    → IsSound db
    → any (live_run_of vm_id) db.runs ≡ false
    → IsSound (create_run vm_id trigger db).0
unfolding create_run
create_run-IsSound vm_id trigger db s free = record {
  below =
      All-append (λ r. r.id < suc db.next_run_id) db.runs (new_run db vm_id trigger ∷ [])
        (All-weaken db.next_run_id db.runs s.below) (omega arith, tt);
  distinct = DistinctIds-append db.runs (new_run db vm_id trigger) s.distinct s.below;
  one_live = λ v. ground (
    arith,
    s.one_live v,
    count-append (live_run_of v) db.runs (new_run db vm_id trigger ∷ []),
    count-any (live_run_of vm_id) db.runs free,
  );
}

-- Queueing a VM that was never restored keeps the table sound, whatever it holds of the VM.
enqueue_if_never_passed-IsSound :
    (vm_id : ℕ) (trigger : Trigger) (db : Db)
    → IsSound db
    → IsSound (enqueue_if_never_passed vm_id trigger db).0
unfolding enqueue_if_never_passed
enqueue_if_never_passed-IsSound vm_id trigger db s =
    elim (Bool-cases (any (live_run_of vm_id) db.runs || any (passed_run_of vm_id) db.runs)) [
      | inl skip ↦ rw skip s
      | inr free ↦ rw free (create_run-IsSound vm_id trigger db s (ground (arith, free)))
    ]

-- Cancelling is a flag on running rows: it keeps the table sound.
request_cancel-IsSound : (run_id : ℕ) (db : Db) → IsSound db → IsSound (request_cancel run_id db).0
unfolding request_cancel
request_cancel-IsSound run_id db s =
    IsSound-update_where db (λ r. r.id == run_id && is_running r.status)
      (λ r. record r { cancel_requested = true }) (λ r. refl) (λ r vm_id q live. live) s

pub write_all-id : (fields : List Field) (r : Run) → (write_all fields r).id ≡ r.id
unfolding write_all write
write_all-id [] r = refl
write_all-id (f ∷ fields) r = write_all-id fields (write f r) ∙ ground arith

write_all-vm_id : (fields : List Field) (r : Run) → (write_all fields r).vm_id ≡ r.vm_id
unfolding write_all write
write_all-vm_id [] r = refl
write_all-vm_id (f ∷ fields) r = write_all-vm_id fields (write f r) ∙ ground arith

-- The update sets no status, or the run it is for is live before.
abbrev pub sets_status : Field → Bool
sets_status (status_to _) = true
sets_status _ = false

pub write_all-status :
    (fields : List Field) (r : Run)
    → any sets_status fields ≡ false
    → (write_all fields r).status ≡ r.status
unfolding write_all write
write_all-status [] r h = refl
write_all-status (f ∷ fields) r h =
    write_all-status fields (write f r) (ground (arith, h)) ∙ ground (arith, h)

pub any-filter_updatable :
    (fields : List Field)
    → any sets_status fields ≡ false
    → any sets_status (filter is_updatable fields) ≡ false
any-filter_updatable [] h = refl
any-filter_updatable (f ∷ fields) h = ground (arith, any-filter_updatable fields)

-- Progress updates, which set no status, keep the table sound.
update_run-IsSound :
    (run_id : ℕ) (fields : List Field) (db : Db)
    → any sets_status fields ≡ false
    → IsSound db
    → IsSound (update_run run_id fields db)
unfolding update_run
update_run-IsSound run_id fields db quiet s =
    let cols = filter is_updatable fields in
    IsSound-update_where db (λ r. r.id == run_id) (write_all cols) (write_all-id cols)
      (λ r vm_id q live. ground (
        arith,
        live,
        write_all-vm_id cols r,
        write_all-status cols r (any-filter_updatable fields quiet),
      ))
      s

finish-IsSound :
    (run_id : ℕ) (result : Result) (duration : ℕ) (test_id : Option ℕ) (extras : Extras) (db : Db)
    → extras.status ≡ none
    → IsSound db
    → IsSound (record db {
      runs =
          update_where
            (λ r. r.id == run_id)
            (finish result duration test_id db.clock extras)
            db.runs;
    })
unfolding finish
finish-IsSound run_id result duration test_id extras db over s =
    IsSound-update_where db (λ r. r.id == run_id) (finish result duration test_id db.clock extras)
      (λ r. refl) (λ r vm_id q live. ground (arith, over, live)) s

-- Recording the result of a run that is over frees its VM and keeps the table sound.
record_run_result-IsSound :
    (run_id vm_id : ℕ) (result : Result) (duration : ℕ) (extras : Extras) (db : Db)
    → extras.status ≡ none
    → IsSound db
    → IsSound (record_run_result run_id vm_id result duration extras db).0
unfolding record_run_result
record_run_result-IsSound run_id vm_id passed duration extras db over s =
    let t = finish-IsSound run_id passed duration (some db.next_test_id) extras db over s in
    record { below = t.below; distinct = t.distinct; one_live = t.one_live }
record_run_result-IsSound run_id vm_id limited duration extras db over s =
    let t = finish-IsSound run_id limited duration (some db.next_test_id) extras db over s in
    record { below = t.below; distinct = t.distinct; one_live = t.one_live }
record_run_result-IsSound run_id vm_id failed duration extras db over s =
    finish-IsSound run_id failed duration none extras db over s
record_run_result-IsSound run_id vm_id error duration extras db over s =
    finish-IsSound run_id error duration none extras db over s
record_run_result-IsSound run_id vm_id cancelled duration extras db over s =
    finish-IsSound run_id cancelled duration none extras db over s
