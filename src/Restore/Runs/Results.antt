-- ===== src/Restore/Runs/Results.antt =====
-- The end of a run and the scheduling of the next one (app/db_restore.py).
use backup_sentinel.Prelude.{
  ltb, leb, if◌then◌else◌, tests, ◌==◌, any, filter, ℕ, suc, ◌+◌, ◌*◌, ◌/◌, ◌%◌, max, String, Bool,
  true, not, ◌&&◌, Option, none, some, List, [], ◌∷◌, ◌++◌, nat_eq, string_eq,
}
use backup_sentinel.Prelude.Sort.{insert_by, sort_by}
use backup_sentinel.Restore.Runs.{
  TestRow, Cadence, month, quarter, half_year, year, Vm, Db, live_run_of, update_where,
}
use backup_sentinel.Restore.Types.{Result, Status, finished, Checks, Run, counts_as_test}

-- Python's `round(seconds / 60)`: to the nearest minute, and a half to the even one.
unfoldable pub round_minutes : ℕ → ℕ
round_minutes seconds =
    let minutes = seconds / 60 in
    let rest = seconds % 60 in
    if ltb rest 30 then minutes else if ltb 30 rest then minutes + 1 else minutes + minutes % 2

abbrev pub seconds_per_day : ℕ
seconds_per_day = 86400

-- `NOW()::date`, as the number of the day
abbrev pub today : Db → ℕ
today db = db.clock / seconds_per_day

unfoldable pub insert_test : ℕ → Result → ℕ → String → Db → Db
unfolding round_minutes
insert_test vm_id result duration evidence_note db = record db {
  tests =
      db.tests
      ++ record {
        id = db.next_test_id;
        vm_id = vm_id;
        tested_at = today db;
        result = result;
        duration_minutes = round_minutes duration;
        evidence_note = evidence_note;
      }
        ∷ [];
  next_test_id = suc db.next_test_id;
}

abbrev pub or_else {ℓ} : {A : Type ℓ} → Option A → A → A
or_else none d = d
or_else (some a) d = a

abbrev or_old {ℓ} : {A : Type ℓ} → Option A → Option A → Option A
or_old none old = old
or_old (some a) old = some a

-- the keyword arguments of `record_run_result` with a default
pub record Extras : Type 0 where
  pub evidence_note : String
  pub checks : Option Checks
  pub log : Option String
  pub status : Option Status

abbrev pub no_extras : Extras
no_extras = record { evidence_note = ""; checks = none; log = none; status = none }

unfoldable pub finish : Result → ℕ → Option ℕ → ℕ → Extras → Run → Run
finish result duration test_id now extras r = record r {
  status = or_else extras.status (finished result);
  result = some result;
  finished_at = some now;
  duration_seconds = some duration;
  restore_test_id = test_id;
  checks = or_old extras.checks r.checks;
  log = or_old extras.log r.log;
}

unfoldable pub record_run_result : ℕ → ℕ → Result → ℕ → Extras → Db → Db × Option ℕ
unfolding insert_test finish
record_run_result run_id vm_id result duration extras db =
    let counted = counts_as_test result in
    let test_id : Option ℕ = if counted then some db.next_test_id else none in
    let db' = if counted then insert_test vm_id result duration extras.evidence_note db else db in
    (
      record db' {
        runs =
            update_where (λ r. r.id == run_id) (finish result duration test_id db.clock extras)
              db.runs;
      },
      test_id,
    )

unfoldable pub update_policy : ℕ → Option ℕ → List Vm → List Vm
update_policy vm_id due [] = []
update_policy vm_id due (v ∷ vms) =
    let rest = update_policy vm_id due vms in
    if v.id == vm_id && v.has_policy then record v { next_run_at = due } ∷ rest else v ∷ rest

unfoldable pub set_vm_next_run : ℕ → Option ℕ → Db → Db
unfolding update_policy
set_vm_next_run vm_id due db = record db { vms = update_policy vm_id due db.vms }

unfoldable pub schedule_retry : ℕ → ℕ → Db → Db
unfolding set_vm_next_run
schedule_retry vm_id retry_days db =
    set_vm_next_run vm_id (some (db.clock + retry_days * seconds_per_day)) db

abbrev pub cadence_days : Cadence → ℕ
cadence_days month = 30
cadence_days quarter = 91
cadence_days half_year = 182
cadence_days year = 365

abbrev max_day : ℕ → Option ℕ → Option ℕ
max_day day none = some day
max_day day (some other) = some (max day other)

-- `SELECT MAX(tested_at) FROM restore_tests rt WHERE rt.vm_id = v.id`
unfoldable pub last_tested : ℕ → List TestRow → Option ℕ
last_tested vm_id [] = none
last_tested vm_id (t ∷ tests) =
    let rest = last_tested vm_id tests in
    if t.vm_id == vm_id then max_day t.tested_at rest else rest

abbrev pub cadence_due : ℕ → ℕ → Option ℕ → Bool
cadence_due day days none = true
cadence_due day days (some last) = leb (last + days) day

abbrev pub due_at : ℕ → Option ℕ → Bool → Bool
due_at now none cadence = cadence
due_at now (some at) cadence = leb at now

-- the `WHERE` of `_DUE_CANDIDATE_SQL`
unfoldable pub is_due : Db → Vm → Bool
unfolding last_tested
is_due db v =
    v.has_policy
    && v.auto_restore_enabled
    && not (any (live_run_of v.id) db.runs)
    && due_at db.clock v.next_run_at
        (cadence_due (today db) (cadence_days v.restore_cadence) (last_tested v.id db.tests))

abbrev pub vm_by_id : Vm → Vm → Bool
vm_by_id a b = leb a.id b.id

unfoldable pub due_auto_restore_candidates : Db → List Vm
unfolding sort_by insert_by is_due
due_auto_restore_candidates db = sort_by vm_by_id (filter (is_due db) db.vms)
