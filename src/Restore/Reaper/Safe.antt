-- ===== src/Restore/Reaper/Safe.antt =====
-- The reaper leaves the guests of running and held runs alone.
use backup_sentinel.Prelude.{
  Bool-cases, ◌==◌, ==-refl, filter, All, contains, ℕ, ◌≡◌, ap, ◌≢◌, ◌⊎◌, inl, inr, true, false,
  some, List, [], ◌∷◌, ◌++◌, arith, nat_eq, string_eq,
}
use backup_sentinel.Restore.Runs.{Db, find_run, get_run, active_and_held_runs}
use backup_sentinel.Restore.Effect.{World, Act}
use backup_sentinel.Restore.Reaper.{select_reaper_targets, destroy_all, reap_kind, reap}
use backup_sentinel.Restore.Types.{Run, owns_environment}
use backup_sentinel.Restore.Worker.{Guest, qemu, lxc, owned_vmids_of, owned_vmids}
use backup_sentinel.Restore.Effect.Runs.{IsOver, Runs, pure-Runs, bind-Runs}

-- no vmid that is owned
abbrev pub Spares : List ℕ → List ℕ → Type 0
Spares owned vmids = All (λ v. contains owned v ≡ false) vmids

select-Spares : (guests owned : List ℕ) → Spares owned (select_reaper_targets guests owned)
unfolding select_reaper_targets
select-Spares [] owned = tt
select-Spares (g ∷ guests) owned = elim (Bool-cases (contains owned g)) [
  | inl o ↦ rw o (select-Spares guests owned)
  | inr f ↦ rw f (f, select-Spares guests owned)
]

-- A guest that belongs to the environment of the run.
abbrev pub IsGuestOf : Run → ℕ → Type 0
IsGuestOf r v = (r.restore_vmid ≡ some v) ⊎ (r.helper_vmid ≡ some v)

owned_vmids_of-own :
    (r : Run) (runs : List Run) (v : ℕ)
    → IsGuestOf r v
    → contains (owned_vmids_of (r ∷ runs)) v ≡ true
unfolding owned_vmids_of
owned_vmids_of-own r runs v (inl e) = rw e (ground (arith, ==-refl v))
owned_vmids_of-own r runs v (inr e) = ground (arith, ==-refl v, e)

owned_vmids_of-more :
    (r : Run) (runs : List Run) (v : ℕ)
    → contains (owned_vmids_of runs) v ≡ true
    → contains (owned_vmids_of (r ∷ runs)) v ≡ true
unfolding owned_vmids_of
owned_vmids_of-more r runs v h = ground (arith, h)

own_filtered :
    (s : Run) (runs : List Run) (v : ℕ)
    → owns_environment s.status ≡ true
    → IsGuestOf s v
    → contains (owned_vmids_of (filter (λ r. owns_environment r.status) (s ∷ runs))) v ≡ true
own_filtered s runs v o g = rw o (owned_vmids_of-own s _ v g)

more_filtered :
    (s : Run) (runs : List Run) (v : ℕ)
    → contains (owned_vmids_of (filter (λ r. owns_environment r.status) runs)) v ≡ true
    → contains (owned_vmids_of (filter (λ r. owns_environment r.status) (s ∷ runs))) v ≡ true
more_filtered s runs v h = elim (Bool-cases (owns_environment s.status)) [
  | inl o ↦ rw o (owned_vmids_of-more s _ v h)
  | inr n ↦ rw n h
]

owned_of_found :
    (run_id : ℕ) (runs : List Run) (r : Run) (v : ℕ)
    → find_run run_id runs ≡ some r
    → owns_environment r.status ≡ true
    → IsGuestOf r v
    → contains (owned_vmids_of (filter (λ r. owns_environment r.status) runs)) v ≡ true
unfolding find_run
owned_of_found run_id [] r v f o g = absurd (cc f)
owned_of_found run_id (s ∷ runs) r v f o g = elim (Bool-cases (s.id == run_id)) [
  | inl t ↦ let same : r ≡ s = cc (rw t at f) in own_filtered s runs v (rw same at o) (rw same at g)
  | inr n ↦ more_filtered s runs v (owned_of_found run_id runs r v (rw n at f) o g)
]

-- What is so of a guest stays so when another is destroyed and when the guests are listed, and each
-- of these comes to an end.
pub record IsApart {H : Type 0} (guests_of : Guest → Act H (List ℕ))
    (destroy : ℕ → Guest → Act H Unit) (v : ℕ) (P : World H → Type 0) : Type 0 where
  pub lists : (kind : Guest) → Runs P (guests_of kind)
  pub others : (u : ℕ) (kind : Guest) → u ≢ v → Runs P (destroy u kind)

owned≢spared :
    (owned : List ℕ) (u v : ℕ) → contains owned u ≡ false → contains owned v ≡ true → u ≢ v
owned≢spared owned u v free taken e = absurd (cc (free, taken, ap (contains owned) e))

module _ {H : Type 0} {guests_of : Guest → Act H (List ℕ)} {destroy : ℕ → Guest → Act H Unit}
    {v : ℕ} {P : World H → Type 0} (apart : IsApart guests_of destroy v P) (owned : List ℕ)
    (taken : contains owned v ≡ true) where
  destroy_all-Runs :
      (kind : Guest) (targets destroyed : List ℕ)
      → Spares owned targets
      → Runs P (destroy_all guests_of destroy kind targets destroyed)
  unfolding destroy_all
  destroy_all-Runs kind [] destroyed t = pure-Runs destroyed
  destroy_all-Runs kind (u ∷ targets) destroyed t =
      bind-Runs _ _ (apart.others u kind (owned≢spared owned u v t.0 taken))
        λ _. destroy_all-Runs kind targets (destroyed ++ u ∷ []) t.1

  reap_kind-Runs :
      (kind : Guest) (destroyed : List ℕ)
      → Runs P (reap_kind guests_of destroy owned kind destroyed)
  unfolding reap_kind
  reap_kind-Runs kind destroyed =
      bind-Runs _ _ (apart.lists kind)
        λ guests. destroy_all-Runs kind _ destroyed (select-Spares guests owned)

  reap-Runs : Runs P (reap guests_of destroy owned)
  unfolding reap
  reap-Runs = bind-Runs _ _ (reap_kind-Runs qemu []) λ destroyed. reap_kind-Runs lxc destroyed

-- Where the listing of guests and the destruction of any other guest end and leave what is so of a
-- guest of a running or held run, a sweep with the vmids that runs own ends and leaves it too, whether
-- it returns or raises and whatever the host lists.
pub reap-spares :
    {H : Type 0} (guests_of : Guest → Act H (List ℕ)) (destroy : ℕ → Guest → Act H Unit) (db : Db)
    (w : World H) (run_id : ℕ) (r : Run) (v : ℕ) (P : World H → Type 0)
    → IsApart guests_of destroy v P
    → get_run run_id db ≡ some r
    → owns_environment r.status ≡ true
    → IsGuestOf r v
    → P w
    → P (reap guests_of destroy (owned_vmids db) w).0
      × IsOver (reap guests_of destroy (owned_vmids db) w).1
unfolding owned_vmids active_and_held_runs get_run
reap-spares guests_of destroy db w run_id r v P apart found o g h =
    (reap-Runs apart (owned_vmids db) (owned_of_found run_id db.runs r v found o g)).at w h
