-- ===== src/Restore/Guests/Found.antt =====
-- Which restore task is found for a guest.
use backup_sentinel.Prelude.{
  ltb, if◌then◌else◌, Bool-cases, ◌==◌, filter, All, ℕ, ◌≤◌, String, ◌≡◌, refl, inl, inr, Bool,
  true, false, Option, none, some, List, [], ◌∷◌, arith, nat_eq, string_eq,
}
use backup_sentinel.Restore.Guests.{
  TaskEntry, GuestApi, is_set, is_running_restore, latest_from, upid_of_latest,
  find_running_restore_upid,
}
use backup_sentinel.Restore.Effect.{
  returned, World, pure, handled, try_except, continue, attempt, ◌>>=◌,
}

-- The task is one of the list.
pub data IsListed (task : TaskEntry) : List TaskEntry → Type 0 where
  first_listed : (tasks : List TaskEntry) → IsListed task (task ∷ tasks)
  later_listed :
      (t : TaskEntry) (tasks : List TaskEntry) → IsListed task tasks → IsListed task (t ∷ tasks)

-- `task` is one of the tasks and restores the guest, and none of them that does started later.
pub record IsLatestRestore (vmid : ℕ) (tasks : List TaskEntry) (task : TaskEntry) : Type 0 where
  pub listed : IsListed task tasks
  pub restores : is_running_restore vmid task ≡ true
  pub no_later : All (λ t. is_running_restore vmid t ≡ true → t.starttime ≤ task.starttime) tasks

abbrev pub IsAnswer : ℕ → List TaskEntry → Option String → Type 0
IsAnswer vmid tasks none = All (λ t. is_running_restore vmid t ≡ true → ⊥) tasks
IsAnswer vmid tasks (some upid) =
    (task : TaskEntry) × (IsLatestRestore vmid tasks task × (task.upid ≡ some upid))

latest_from-best :
    (best : TaskEntry) (tasks : List TaskEntry)
    → best.starttime ≤ (latest_from best tasks).starttime
unfolding latest_from
latest_from-best best [] = omega arith
latest_from-best best (task ∷ tasks) = elim (Bool-cases (ltb best.starttime task.starttime)) [
  | inl t ↦ rw (t, latest_from) (let h = latest_from-best task tasks in ground arith)
  | inr f ↦ rw (f, latest_from) (latest_from-best best tasks)
]

-- the one that goes on as the best
abbrev later : TaskEntry → TaskEntry → TaskEntry
later best task = if ltb best.starttime task.starttime then task else best

later-second : (best task : TaskEntry) → task.starttime ≤ (later best task).starttime
later-second best task = elim (Bool-cases (ltb best.starttime task.starttime)) [
  | inl t ↦ rw t (omega arith)
  | inr f ↦ rw f (ground arith)
]

latest_from-latest :
    (best : TaskEntry) (tasks : List TaskEntry)
    → All (λ t. t.starttime ≤ (latest_from best tasks).starttime) tasks
unfolding latest_from
latest_from-latest best [] = tt
latest_from-latest best (task ∷ tasks) =
    let next = later best task in
    let h = latest_from-best next tasks in
    let k = later-second best task in (omega arith, latest_from-latest next tasks)

latest_from-one :
    (P : TaskEntry → Type 0) (best : TaskEntry) (tasks : List TaskEntry)
    → P best
    → All P tasks
    → P (latest_from best tasks)
unfolding latest_from
latest_from-one P best [] h hs = h
latest_from-one P best (task ∷ tasks) h hs = elim (Bool-cases (ltb best.starttime task.starttime)) [
  | inl t ↦ rw (t, latest_from) (latest_from-one P task tasks hs.0 hs.1)
  | inr f ↦ rw (f, latest_from) (latest_from-one P best tasks h hs.1)
]

past_second :
    (best task : TaskEntry) (tasks : List TaskEntry) {found : TaskEntry}
    → IsListed found (best ∷ tasks)
    → IsListed found (best ∷ task ∷ tasks)
past_second best task tasks (first_listed _) = first_listed (task ∷ tasks)
past_second best task tasks (later_listed _ _ h) =
    later_listed best (task ∷ tasks) (later_listed task tasks h)

IsListed-or_first :
    (p : TaskEntry → Bool) (task t : TaskEntry) (tasks : List TaskEntry)
    → (IsListed task (filter p tasks) → IsListed task tasks)
    → IsListed task (t ∷ filter p tasks)
    → IsListed task (t ∷ tasks)
IsListed-or_first p task t tasks rest (first_listed _) = first_listed tasks
IsListed-or_first p task t tasks rest (later_listed _ _ h) = later_listed t tasks (rest h)

latest_from-IsListed :
    (best : TaskEntry) (tasks : List TaskEntry) → IsListed (latest_from best tasks) (best ∷ tasks)
unfolding latest_from
latest_from-IsListed best [] = first_listed []
latest_from-IsListed best (task ∷ tasks) = elim (Bool-cases (ltb best.starttime task.starttime)) [
  | inl t ↦ rw (t, latest_from) (later_listed best (task ∷ tasks) (latest_from-IsListed task tasks))
  | inr f ↦ rw (f, latest_from) (past_second best task tasks (latest_from-IsListed best tasks))
]

filter-IsListed :
    (p : TaskEntry → Bool) (task : TaskEntry) (tasks : List TaskEntry)
    → IsListed task (filter p tasks)
    → IsListed task tasks
filter-IsListed p task [] h = elim h [ ]
filter-IsListed p task (t ∷ tasks) h = elim (Bool-cases (p t)) [
  | inl e ↦ IsListed-or_first p task t tasks (filter-IsListed p task tasks) (rw e at h)
  | inr n ↦ later_listed t tasks (filter-IsListed p task tasks (rw n at h))
]

passes-filter :
    (p : TaskEntry → Bool) (tasks : List TaskEntry) → All (λ t. p t ≡ true) (filter p tasks)
passes-filter p [] = tt
passes-filter p (task ∷ tasks) = elim (Bool-cases (p task)) [
  | inl t ↦ rw t (t, passes-filter p tasks)
  | inr f ↦ rw f (passes-filter p tasks)
]

All-of_filter :
    (P : TaskEntry → Type 0) (p : TaskEntry → Bool) (tasks : List TaskEntry)
    → All P (filter p tasks)
    → All (λ t. p t ≡ true → P t) tasks
All-of_filter P p [] h = tt
All-of_filter P p (task ∷ tasks) h = elim (Bool-cases (p task)) [
  | inl t ↦ let (q, qs) = rw t at h in (λ _. q, All-of_filter P p tasks qs)
  | inr f ↦ (λ t. absurd (ground (arith, t, f)), All-of_filter P p tasks (rw f at h))
]

upid-is_set : (found : Option String) → is_set found ≡ true → (upid : String) × (found ≡ some upid)
upid-is_set none h = absurd (cc h)
upid-is_set (some upid) h = (upid, refl)

upid-restores :
    (vmid : ℕ) (task : TaskEntry)
    → is_running_restore vmid task ≡ true
    → (upid : String) × (task.upid ≡ some upid)
unfolding is_running_restore
upid-restores vmid task h = upid-is_set task.upid (ground arith)

upid_of_latest-IsAnswer_of :
    (vmid : ℕ) (tasks kept : List TaskEntry)
    → filter (is_running_restore vmid) tasks ≡ kept
    → All (λ t. is_running_restore vmid t ≡ true) kept
    → IsAnswer vmid tasks (upid_of_latest kept)
unfolding upid_of_latest
upid_of_latest-IsAnswer_of vmid tasks [] e runs =
    All-of_filter (λ _. ⊥) (is_running_restore vmid) tasks (rw e tt)
upid_of_latest-IsAnswer_of vmid tasks (task ∷ kept) e runs =
    let latest = latest_from task kept in
    let restores =
      latest_from-one (λ t. is_running_restore vmid t ≡ true) task kept runs.0 runs.1 in
    let (upid, named) = upid-restores vmid latest restores in
    let no_later =
      All-of_filter (λ t. t.starttime ≤ latest.starttime) (is_running_restore vmid) tasks
        (rw e (latest_from-best task kept, latest_from-latest task kept)) in
    let listed =
      filter-IsListed (is_running_restore vmid) latest tasks
        (rw e (latest_from-IsListed task kept)) in
    rw named (latest, (record { listed = listed; restores = restores; no_later = no_later }, named))

upid_of_latest-IsAnswer :
    (vmid : ℕ) (tasks : List TaskEntry)
    → IsAnswer vmid tasks (upid_of_latest (filter (is_running_restore vmid) tasks))
upid_of_latest-IsAnswer vmid tasks =
    upid_of_latest-IsAnswer_of vmid tasks _ refl (passes-filter (is_running_restore vmid) tasks)

-- Where the host lists the active tasks of a guest on a named node, the restore task found for the
-- guest is a listed one that is running and restores it, and no listed one that does started later;
-- none is found only where no task listed restores it.
pub find_running_restore_upid-IsAnswer :
    {H : Type 0} (api : GuestApi H) (vmid : ℕ) (node : String) (w w' : World H)
    (tasks : List TaskEntry)
    → (node == "") ≡ false
    → api.list_tasks node vmid w ≡ (w', returned tasks)
    → (answer : Option String) × (IsAnswer vmid tasks answer
        × (find_running_restore_upid api vmid (some node) w ≡ (w', returned answer)))
unfolding find_running_restore_upid attempt try_except handled ◌>>=◌ continue pure
find_running_restore_upid-IsAnswer api vmid node w w' tasks e listed =
    let answer = upid_of_latest (filter (is_running_restore vmid) tasks) in
    (answer, (upid_of_latest-IsAnswer vmid tasks, rw e (rw listed refl)))
