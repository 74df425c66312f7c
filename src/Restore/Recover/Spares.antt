-- ===== src/Restore/Recover/Spares.antt =====
-- Which runs `recover_stuck_runs` leaves alone.
use backup_sentinel.Prelude.{
  Bool-cases, ==-ne, contains, ℕ, ◌+◌, ◌<◌, ◌≡◌, refl, ap, ◌∙◌, fun_ext, ◌≢◌, inl, inr, Bool, true,
  false, some, List, [], ◌∷◌, arith, nat_eq, string_eq,
}
use backup_sentinel.Restore.Recover.{is_fresh, is_present, is_alive, check_run, recover_each}
use backup_sentinel.Restore.Effect.{Outcome, returned, World, Act, pure, continue, ◌>>=◌}
use backup_sentinel.Restore.Planner.{Config}
use backup_sentinel.Restore.Types.{Run}
use backup_sentinel.Restore.Effect.Returns.{bind-returned}
use backup_sentinel.Restore.Planner.Build.{Orchestra}

-- A run that began less than 180 seconds ago, or whose restored VM is on the host.
pub data IsSpared (now : ℕ) (present : List ℕ) (run : Run) : Type 0 where
  is_recent :
      (started : ℕ) → run.started_at ≡ some started → now < started + 180 → IsSpared now present run
  on_host :
      (vmid : ℕ)
      → run.restore_vmid ≡ some vmid
      → vmid ≢ 0
      → contains present vmid ≡ true
      → IsSpared now present run

-- The second list is the first without some spared runs.
pub data IsWithout (now : ℕ) (present : List ℕ) : List Run → List Run → Type 0 where
  nothing_left : IsWithout now present [] []
  kept_run :
      (run : Run) (runs rest : List Run)
      → IsWithout now present runs rest
      → IsWithout now present (run ∷ runs) (run ∷ rest)
  left_out :
      (run : Run) (runs rest : List Run)
      → IsSpared now present run
      → IsWithout now present runs rest
      → IsWithout now present (run ∷ runs) rest

is_present-on_host :
    (present : List ℕ) (run : Run) (vmid : ℕ)
    → run.restore_vmid ≡ some vmid
    → vmid ≢ 0
    → contains present vmid ≡ true
    → is_present present run ≡ true
is_present-on_host present run vmid e ne there = rw e (rw (==-ne vmid 0 ne) there)

is_fresh-recent :
    (now : ℕ) (run : Run) (started : ℕ)
    → run.started_at ≡ some started
    → now < started + 180
    → is_fresh now run ≡ true
is_fresh-recent now run started e h = rw e (ground (arith, h))

module _ {H : Type 0} (o : Orchestra H) (config : Config) (now : ℕ) (present : List ℕ) where
  check_run-spared :
      (run : Run) (w : World H)
      → IsSpared now present run
      → check_run o config now present run w ≡ (w, returned false)
  unfolding check_run is_alive pure ◌>>=◌ continue
  check_run-spared run w (is_recent started e h) = rw (is_fresh-recent now run started e h) refl
  check_run-spared run w (on_host vmid e ne there) =
      let here = is_present-on_host present run vmid e ne there in
      elim (Bool-cases (is_fresh now run)) [
        | inl fresh ↦ rw fresh refl
        | inr old ↦ rw (old, here) refl
      ]

  -- The recovery does exactly what it does to the list without spared runs, which began less than 180
  -- seconds ago or have their restored VM on the host: these are neither torn down nor ended, they are
  -- not asked to be cancelled, and they do not count as recovered.
  pub recover_each-spares :
      (runs rest : List Run) (n : ℕ) (w : World H)
      → IsWithout now present runs rest
      → recover_each o config now present runs n w ≡ recover_each o config now present rest n w
  unfolding recover_each
  recover_each-spares _ _ n w nothing_left = refl
  recover_each-spares _ _ n w (kept_run run runs rest h) =
      ap (λ (f : Bool → Act H ℕ). (check_run o config now present run >>= f) w)
        (fun_ext λ done. fun_ext λ w'. recover_each-spares runs rest _ w' h)
  recover_each-spares _ _ n w (left_out run runs rest spared h) =
      let e = check_run-spared run w spared in
      bind-returned _ _ w false (ap (λ r. r.1) e)
      ∙ ap (λ (r : World H × Outcome Bool). recover_each o config now present runs n r.0) e
      ∙ recover_each-spares runs rest n w h
