-- ===== src/Restore/Pack/Restores.antt =====
-- A failed `place` leaves the search state as it found it.
use backup_sentinel.Prelude.{
  if◌then◌else◌, Option-cases, ◌==◌, All, ℕ, ◌+◌, ◌-◌, ◌≤◌, String, ◌≡◌, refl, sym, ◌≢◌, inl, inr,
  Bool, false, none, some, List, [], ◌∷◌, arith, nat_eq, string_eq,
}
use backup_sentinel.Prelude.Dict.{
  get, get-put, get-put_self, get-put_ne, remove-put, put-put, put-get_self,
}
use backup_sentinel.Restore.Pack.{Packing, room, assign, release, try_storages, place}

-- The disks' names are distinct.
abbrev pub Distinct : List (String × ℕ) → Type 0
Distinct [] = Unit
Distinct (d ∷ ds) = All (λ (x : String × ℕ). x.0 ≢ d.0) ds × Distinct ds

-- None of the disks is placed yet.
abbrev pub Unplaced : List (String × ℕ) → Packing → Type 0
Unplaced ds p = All (λ (d : String × ℕ). get d.0 p.result ≡ none) ds

abbrev pub Known : List String → Packing → Type 0
Known names p = All (λ n. get n p.remaining ≢ none) names

pub room-assign :
    (dev : String) (size : ℕ) (name m : String) (p : Packing)
    → room m (assign dev size name p) ≡ (if name == m then room name p - size else room m p)
unfolding assign
room-assign dev size name m p = ground (arith, get-put name m (room name p - size) p.remaining)

pub get-assign :
    (dev : String) (size : ℕ) (name d : String) (p : Packing)
    → get d (assign dev size name p).result ≡ (if dev == d then some name else get d p.result)
unfolding assign
get-assign dev size name d p = get-put dev d name p.result

release-assign_of :
    (dev : String) (size : ℕ) (name : String) (p : Packing) (v : ℕ)
    → get name p.remaining ≡ some v
    → size ≤ v
    → get dev p.result ≡ none
    → release dev size name (assign dev size name p) ≡ p
unfolding assign release
release-assign_of dev size name p v e fits fresh =
    let whole : v - size + size ≡ v = omega arith in
    simp (
      put-put,
      get-put_self,
      e,
      whole,
      put-get_self name v p.remaining e,
      remove-put dev name p.result fresh,
    )

-- Taking a placement back is exact.
pub release-assign :
    (dev : String) (size : ℕ) (name : String) (p : Packing)
    → size ≤ room name p
    → get name p.remaining ≢ none
    → get dev p.result ≡ none
    → release dev size name (assign dev size name p) ≡ p
release-assign dev size name p fits known fresh = elim (Option-cases (get name p.remaining)) [
  | inl e ↦ absurd (known e)
  | inr (v, e) ↦ release-assign_of dev size name p v e (rw e at fits) fresh
]

pub Known-assign :
    (names : List String) (dev : String) (size : ℕ) (name : String) (p : Packing)
    → Known names p
    → Known names (assign dev size name p)
unfolding assign
Known-assign [] dev size name p k = tt
Known-assign (n ∷ names) dev size name p k = (
  λ e. ground (arith, get-put name n (room name p - size) p.remaining, k.0),
  Known-assign names dev size name p k.1,
)

pub Unplaced-assign :
    (ds : List (String × ℕ)) (dev : String) (size : ℕ) (name : String) (p : Packing)
    → All (λ (x : String × ℕ). x.0 ≢ dev) ds
    → Unplaced ds p
    → Unplaced ds (assign dev size name p)
unfolding assign
Unplaced-assign [] dev size name p h u = tt
Unplaced-assign (d ∷ ds) dev size name p h u = (
  rw (get-put_ne dev d.0 name p.result (λ e. h.0 (sym e))) u.0,
  Unplaced-assign ds dev size name p h.1 u.1,
)

-- The loop gives the state back when it fails, if `next` does so after each assignment.
try_storages-restores :
    (names : List String) (next : Packing → Bool × Packing) (dev : String) (size : ℕ) (p : Packing)
    → Known names p
    → get dev p.result ≡ none
    → ((name : String)
        → (next (assign dev size name p)).0 ≡ false
        → (next (assign dev size name p)).1 ≡ assign dev size name p)
    → (try_storages names next dev size p).0 ≡ false
    → (try_storages names next dev size p).1 ≡ p
unfolding try_storages
try_storages-restores [] next dev size p k fresh back failed = refl
try_storages-restores (name ∷ names) next dev size p k fresh back failed = ground (
  arith,
  back name,
  release-assign dev size name p,
  k.0,
  try_storages-restores names next dev size p k.1 fresh back,
)

-- Backtracking is exact: where no placement is found, the free space and the assignment are as
-- they were before the search.
pub place-restores :
    (names : List String) (ds : List (String × ℕ)) (p : Packing)
    → Known names p
    → Distinct ds
    → Unplaced ds p
    → (place names ds p).0 ≡ false
    → (place names ds p).1 ≡ p
unfolding place
place-restores names [] p k distinct fresh failed = refl
place-restores names ((dev, size) ∷ ds) p k distinct fresh failed =
    try_storages-restores names (place names ds) dev size p k fresh.0
      (λ name.
        place-restores names ds (assign dev size name p) (Known-assign names dev size name p k)
          distinct.1 (Unplaced-assign ds dev size name p distinct.0 fresh.1))
      failed
