-- ===== src/Restore/Runs/Recorded.antt =====
-- What `record_run_result` of app/db_restore.py leaves in the row of the run and in the tests.
use backup_sentinel.Prelude.{
  ◌==◌, ℕ, ◌≡◌, refl, Bool, true, false, Option, none, some, List, [], ◌∷◌, ◌++◌, arith, nat_eq,
  string_eq,
}
use backup_sentinel.Restore.Runs.{TestRow, Db, find_run, update_where}
use backup_sentinel.Restore.Types.{
  Result, passed, limited, failed, error, cancelled, finished, Run, counts_as_test,
}
use backup_sentinel.Restore.Runs.Results.{insert_test, Extras, finish, record_run_result}
use backup_sentinel.Restore.Runs.Rows.{find_run-update}

-- The id is that of the last of the tests, which is one of the VM with the result; or there is none.
abbrev pub IsEvidence : Bool → ℕ → Result → Option ℕ → List TestRow → Type 0
IsEvidence false vm_id result test_id tests = test_id ≡ none
IsEvidence true vm_id result test_id tests =
    (earlier : List TestRow) × (t : TestRow) × (tests ≡ earlier ++ t ∷ [])
    × (test_id ≡ some t.id)
    × (t.vm_id ≡ vm_id)
    × (t.result ≡ result)

pub record IsRecorded (run_id vm_id : ℕ) (result : Result) (extras : Extras) (db' : Db)
    : Type 0 where
  pub row : Run
  pub found : find_run run_id db'.runs ≡ some row
  pub status_is : row.status ≡ elim extras.status [ none ↦ finished result | some st ↦ st ]
  pub result_is : row.result ≡ some result
  pub evidence : IsEvidence (counts_as_test result) vm_id result row.restore_test_id db'.tests

module _ (run_id vm_id : ℕ) (duration : ℕ) (extras : Extras) (db : Db) (r : Run)
    (found_r : find_run run_id db.runs ≡ some r) where
  abbrev row_with : Result → Option ℕ → Run
  row_with result test_id = finish result duration test_id db.clock extras r

  found_with :
      (result : Result) (test_id : Option ℕ)
      → find_run run_id (
          update_where
            (λ r. r.id == run_id)
            (finish result duration test_id db.clock extras)
            db.runs)
        ≡ some (row_with result test_id)
  unfolding finish
  found_with result test_id =
      find_run-update run_id (finish result duration test_id db.clock extras) db.runs r (λ _. refl)
        found_r

  status_with :
      (result : Result) (test_id : Option ℕ)
      → (row_with result test_id).status
        ≡ elim extras.status [ none ↦ finished result | some st ↦ st ]
  unfolding finish
  status_with result test_id = ground arith

  pub record_run_result-IsRecorded :
      (result : Result)
      → IsRecorded run_id vm_id result extras
          (record_run_result run_id vm_id result duration extras db).0
  unfolding record_run_result insert_test finish
  record_run_result-IsRecorded passed = record {
    row = row_with passed (some db.next_test_id);
    found = found_with passed (some db.next_test_id);
    status_is = status_with passed (some db.next_test_id);
    result_is = refl;
    evidence = (db.tests, _, refl, refl, refl, refl);
  }
  record_run_result-IsRecorded limited = record {
    row = row_with limited (some db.next_test_id);
    found = found_with limited (some db.next_test_id);
    status_is = status_with limited (some db.next_test_id);
    result_is = refl;
    evidence = (db.tests, _, refl, refl, refl, refl);
  }
  record_run_result-IsRecorded failed = record {
    row = row_with failed none;
    found = found_with failed none;
    status_is = status_with failed none;
    result_is = refl;
    evidence = refl;
  }
  record_run_result-IsRecorded error = record {
    row = row_with Result.error none;
    found = found_with Result.error none;
    status_is = status_with Result.error none;
    result_is = refl;
    evidence = refl;
  }
  record_run_result-IsRecorded cancelled = record {
    row = row_with cancelled none;
    found = found_with cancelled none;
    status_is = status_with cancelled none;
    result_is = refl;
    evidence = refl;
  }
