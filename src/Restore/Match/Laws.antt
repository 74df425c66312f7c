-- ===== src/Restore/Match/Laws.antt =====
-- The match is the first entry at one of the VM's locations; the snapshot is the newest complete one.
use backup_sentinel.Prelude.{
  ltb, Bool-cases, any, all, filter, All, all-filter, contains, ℕ, ◌≤◌, String, ◌≡◌, refl, ap, inl,
  inr, Bool, true, false, Option, none, some, List, [], ◌∷◌, ◌++◌, arith, nat_eq, string_eq,
}
use backup_sentinel.Restore.Match.{
  HostEntry, match_source, is_auto_restorable, Snapshot, time_of, newest, pick_latest_complete,
  newest_of,
}

record IsFirstMatch (vm_locations : List String) (entries : List HostEntry) (entry : HostEntry)
    : Type 0 where
  pub before : List HostEntry
  pub after : List HostEntry
  pub split : entries ≡ before ++ entry ∷ after
  pub matches : contains vm_locations entry.location ≡ true
  pub none_before : any (λ e. contains vm_locations e.location) before ≡ false

-- The entry that `match_source` returns is at one of the VM's locations, and no entry before it is.
match_source-IsFirstMatch :
    (vm_locations : List String) (entries : List HostEntry) (entry : HostEntry)
    → match_source vm_locations entries ≡ some entry
    → IsFirstMatch vm_locations entries entry
unfolding match_source
match_source-IsFirstMatch locs [] entry e = cc e
match_source-IsFirstMatch locs (x ∷ entries) entry e =
    elim (Bool-cases (contains locs x.location)) [
      | inl here ↦
          let same : x ≡ entry = cc (rw here at e) in
          record {
            before = [];
            after = entries;
            split = rw same;
            matches = rw same at here;
            none_before = refl;
          }
      | inr not_here ↦
          let rest = match_source-IsFirstMatch locs entries entry (rw not_here at e) in
          record {
            before = x ∷ rest.before;
            after = rest.after;
            split = ap (λ l. x ∷ l) rest.split;
            matches = rest.matches;
            none_before = ground (arith, rest.none_before);
          }
    ]

-- A VM is auto-restorable exactly when one of the entries is at one of its locations.
pub is_auto_restorable-eq-any :
    (vm_locations : List String) (entries : List HostEntry)
    → is_auto_restorable vm_locations entries ≡ any (λ e. contains vm_locations e.location) entries
unfolding is_auto_restorable
is_auto_restorable-eq-any locs [] = refl
is_auto_restorable-eq-any locs (x ∷ entries) =
    ground (arith, is_auto_restorable-eq-any locs entries)

newest-bound :
    (best : Snapshot) (rest : List Snapshot) (n : ℕ)
    → time_of (newest best rest) ≤ n
    → (time_of best ≤ n) × All (λ s. time_of s ≤ n) rest
unfolding newest
newest-bound best [] n h = (h, tt)
newest-bound best (s ∷ rest) n h = elim (Bool-cases (ltb (time_of best) (time_of s))) [
  | inl later ↦
      let (bound, all_bound) = newest-bound s rest n (rw later at h) in
      (ground (arith, bound, later), (bound, all_bound))
  | inr not_later ↦
      let (bound, all_bound) = newest-bound best rest n (rw not_later at h) in
      (bound, (ground (arith, bound, not_later), all_bound))
]

newest-listed :
    (p : Snapshot → Bool) (best : Snapshot) (rest : List Snapshot)
    → p best ≡ true
    → all p rest ≡ true
    → p (newest best rest) ≡ true
unfolding newest
newest-listed p best [] h k = h
newest-listed p best (s ∷ rest) h k = elim (Bool-cases (ltb (time_of best) (time_of s))) [
  | inl later ↦ rw later (newest-listed p s rest (ground (arith, k)) (ground (arith, k)))
  | inr not_later ↦ rw not_later (newest-listed p best rest h (ground (arith, k)))
]

bound_of_filter :
    (n : ℕ) (snapshots : List Snapshot)
    → All (λ s. time_of s ≤ n) (filter (λ s. s.complete) snapshots)
    → All (λ (s : Snapshot). s.complete ≡ true → time_of s ≤ n) snapshots
bound_of_filter n [] h = tt
bound_of_filter n (s ∷ snapshots) h = elim (Bool-cases s.complete) [
  | inl c ↦ let k = rw c at h in ((λ _. k.0), bound_of_filter n snapshots k.1)
  | inr c ↦ ((λ c'. cc (c, c')), bound_of_filter n snapshots (rw c at h))
]

-- What is promised of the snapshot picked, or of there being none.
abbrev pub IsLatest : List Snapshot → Option Snapshot → Type 0
IsLatest snapshots none = All (λ (s : Snapshot). s.complete ≡ false) snapshots
IsLatest snapshots (some best) =
    (best.complete ≡ true)
    × All (λ (s : Snapshot). s.complete ≡ true → time_of s ≤ time_of best) snapshots

none_complete :
    (snapshots : List Snapshot)
    → filter (λ s. s.complete) snapshots ≡ []
    → All (λ (s : Snapshot). s.complete ≡ false) snapshots
none_complete [] e = tt
none_complete (s ∷ snapshots) e = elim (Bool-cases s.complete) [
  | inl c ↦ cc (rw c at e)
  | inr c ↦ (c, none_complete snapshots (rw c at e))
]

IsLatest-newest_of :
    (snapshots complete : List Snapshot)
    → filter (λ s. s.complete) snapshots ≡ complete
    → IsLatest snapshots (newest_of complete)
IsLatest-newest_of snapshots [] e = none_complete snapshots e
IsLatest-newest_of snapshots (s ∷ rest) e =
    let listed = rw e at (all-filter (λ (x : Snapshot). x.complete) snapshots) in
    let (bound, all_bound) = newest-bound s rest (time_of (newest s rest)) (omega arith) in
    (
      newest-listed (λ x. x.complete) s rest (ground (arith, listed)) (ground (arith, listed)),
      bound_of_filter (time_of (newest s rest)) snapshots (rw e (bound, all_bound)),
    )

-- The snapshot picked is complete and none that is complete is newer; none is picked only when none
-- is complete.
pub pick_latest_complete-IsLatest :
    (snapshots : List Snapshot) → IsLatest snapshots (pick_latest_complete snapshots)
unfolding pick_latest_complete
pick_latest_complete-IsLatest snapshots =
    IsLatest-newest_of snapshots (filter (λ s. s.complete) snapshots) refl
