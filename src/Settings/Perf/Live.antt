-- ===== src/Settings/Perf/Live.antt =====
-- The live state of the write test: its record while it runs, and nothing of it after its end.
use backup_sentinel.Prelude.{
  leb, leb→le, Bool-cases, ◌==◌, ==-ne, length, ℕ, ◌≤◌, String, ◌≡◌, refl, sym, ap, ◌∙◌, ◌≢◌, inl,
  inr, Option, none, some, List, [], ◌∷◌, ◌++◌, arith, nat_eq, string_eq,
}
use backup_sentinel.Prelude.Dict.{get, put, get-put, get-put_self}
use backup_sentinel.Restore.Worker.{now}
use backup_sentinel.Settings.Perf.{
  running_key, progress_key, cancel_key, series_cap, Progress, FioSample, PerfResult, Benchmark,
  measured, benchmark_cancelled, benchmark_failed, or_blank, setting, running_storage,
  cancel_asked_of, reset_live, last_of, add_rate, folded, get_progress, store_progress, finish_test,
}
use backup_sentinel.Settings.Table.{Settings, save_settings, get-get_settings_dict}

running_storage_lem : (s : Settings) → running_storage s ≡ or_blank (get running_key s)
unfolding running_storage
running_storage_lem s = ap or_blank (get-get_settings_dict running_key running_key s refl)

cancel_asked_of_lem : (s : Settings) → cancel_asked_of s ≡ or_blank (get cancel_key s)
unfolding cancel_asked_of
cancel_asked_of_lem s = ap or_blank (get-get_settings_dict cancel_key cancel_key s refl)

progress_lem : (s : Settings) → setting progress_key s ≡ or_blank (get progress_key s)
progress_lem s = ap or_blank (get-get_settings_dict progress_key progress_key s refl)

length-last_of : (n : ℕ) (xs : List ℕ) → length (last_of n xs) ≤ n
length-last_of n [] = omega arith
length-last_of n (x ∷ xs) = elim (Bool-cases (leb (length (x ∷ xs)) n)) [
  | inl e ↦ rw e (leb→le _ n e)
  | inr e ↦ rw e (length-last_of n xs)
]

length-folded :
    (now : String) (sample : FioSample) (p : Progress)
    → length p.series ≤ series_cap
    → length (folded now sample p).series ≤ series_cap
unfolding folded
length-folded now sample p h =
    elim sample.rate_bps as (λ r. length (add_rate r p.series) ≤ series_cap) [
      | none ↦ h
      | some rate ↦ length-last_of series_cap (p.series ++ rate ∷ [])
    ]

folded-storage :
    (now : String) (sample : FioSample) (p : Progress) → (folded now sample p).storage ≡ p.storage
unfolding folded
folded-storage now sample p = refl

module _ (dumps : Progress → String) (loads : String → Option Progress) (now : String) where
  -- A test runs: its record is that of the storage, with no more rates than are kept.
  pub record IsLive (s : Settings) (p : Progress) : Type 0 where
    pub stored : get_progress dumps loads now s ≡ some p
    pub of_running : p.storage ≡ running_storage s
    pub bounded : length p.series ≤ series_cap

  saved-get_progress :
      (s : Settings) (p : Progress)
      → loads (dumps p) ≡ some p
      → dumps p ≢ ""
      → get_progress dumps loads now (save_settings ((progress_key, dumps p) ∷ []) s) ≡ some p
  unfolding get_progress save_settings
  saved-get_progress s p json ne =
      let e : setting progress_key (put progress_key (dumps p) s) ≡ dumps p =
        progress_lem (put progress_key (dumps p) s)
        ∙ ap or_blank (get-put_self progress_key (dumps p) s) in
      rw (e, ==-ne (dumps p) "" ne, json) refl

  saved-running_storage :
      (s : Settings) (raw : String)
      → running_storage (save_settings ((progress_key, raw) ∷ []) s) ≡ running_storage s
  unfolding save_settings
  saved-running_storage s raw =
      running_storage_lem (put progress_key raw s) ∙ rw get-put (sym (running_storage_lem s))

  -- While a test runs, a sample of any storage leaves the record of the test that runs, of its
  -- storage and with at most 150 rates, if `json` reads the record back that it writes.
  pub store_progress-IsLive :
      (storage : String) (sample : FioSample) (s : Settings) (p : Progress)
      → IsLive s p
      → loads (dumps (folded now sample p)) ≡ some (folded now sample p)
      → dumps (folded now sample p) ≢ ""
      → (q : Progress) × IsLive (store_progress dumps loads now storage sample s) q
  unfolding store_progress
  store_progress-IsLive storage sample s p live json ne =
      rw live.stored (elim (Bool-cases (p.storage == storage)) [
        | inr stale ↦ rw stale (p, live)
        | inl same ↦ rw same (
          folded now sample p,
          record {
            stored = saved-get_progress s (folded now sample p) json ne;
            of_running =
                folded-storage now sample p ∙ live.of_running ∙ sym (saved-running_storage s _);
            bounded = length-folded now sample p live.bounded;
          },
        )
      ])

-- What the table holds when no test runs.
pub record IsIdle (s : Settings) : Type 0 where
  pub no_storage : running_storage s ≡ ""
  pub no_progress : setting progress_key s ≡ ""
  pub no_cancel : cancel_asked_of s ≡ ""

reset_live-IsIdle : (s : Settings) → IsIdle (reset_live s)
unfolding reset_live save_settings
reset_live-IsIdle s = record {
  no_storage = running_storage_lem _ ∙ rw (get-put, get-put, get-put) refl;
  no_progress = progress_lem _ ∙ rw (get-put, get-put) refl;
  no_cancel = cancel_asked_of_lem _ ∙ rw get-put refl;
}

module _ (dumps : PerfResult → String) (now : String) where
  -- However the benchmark ends, measured, cancelled or failed, no test runs afterwards, and no
  -- progress and no request to cancel are left.
  pub finish_test-IsIdle :
      (storage : String) (end : Benchmark) (s : Settings)
      → IsIdle (finish_test dumps now storage end s)
  unfolding finish_test
  finish_test-IsIdle storage (measured bps) s = reset_live-IsIdle _
  finish_test-IsIdle storage benchmark_cancelled s = reset_live-IsIdle s
  finish_test-IsIdle storage (benchmark_failed message) s = reset_live-IsIdle _
