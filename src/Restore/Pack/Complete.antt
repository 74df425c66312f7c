-- ===== src/Restore/Pack/Complete.antt =====
-- The search finds a placement wherever there is one.
use backup_sentinel.Restore.Pack.{Packing, room, assign, try_storages, place}
use backup_sentinel.Restore.Pack.Restores.{
  Distinct, Unplaced, Known, room-assign, release-assign, Known-assign, Unplaced-assign,
  place-restores,
}
use backup_sentinel.Restore.Pack.Sound.{Restoring}
use backup_sentinel.Prelude.{
  if◌then◌else◌, ◌==◌, ==-refl, ==→≡, All, sum_of, contains, ℕ, ◌≤◌, String, ◌≡◌, refl, Bool, true,
  none, List, [], ◌∷◌, arith, nat_eq, string_eq,
}
use backup_sentinel.Prelude.Dict.{get}

-- The bytes that a choice of storages puts onto one of them.
abbrev pub wanted : (String → String) → String → List (String × ℕ) → ℕ
wanted choice name ds = sum_of (λ (d : String × ℕ). if choice d.0 == name then d.1 else 0) ds

-- A choice of a listed storage for each disk that fits the free space.
pub record FitsRoom (names : List String) (ds : List (String × ℕ)) (p : Packing)
    (choice : String → String) : Type 0 where
  pub listed : All (λ (d : String × ℕ). contains names (choice d.0) ≡ true) ds
  pub fits : (name : String) → wanted choice name ds ≤ room name p

try_storages_complete :
    (names : List String) (next : Packing → Bool × Packing) (dev : String) (size : ℕ) (p : Packing)
    (target : String)
    → Known names p
    → get dev p.result ≡ none
    → Restoring next dev size p
    → contains names target ≡ true
    → size ≤ room target p
    → (next (assign dev size target p)).0 ≡ true
    → (try_storages names next dev size p).0 ≡ true
unfolding try_storages
try_storages_complete [] next dev size p target k fresh back listed fits found = cc listed
try_storages_complete (n ∷ names) next dev size p target k fresh back listed fits found = ground (
  arith,
  back n,
  release-assign dev size n p,
  k.0,
  ==→≡ n target,
  try_storages_complete names next dev size p target k.1 fresh back,
)

FitsRoom-assign :
    (names : List String) (ds : List (String × ℕ)) (dev : String) (size : ℕ) (p : Packing)
    (choice : String → String)
    → FitsRoom names ((dev, size) ∷ ds) p choice
    → FitsRoom names ds (assign dev size (choice dev) p) choice
FitsRoom-assign names ds dev size p choice f = record {
  listed = f.listed.1;
  fits = λ m.
      ground (
        arith,
        f.fits m,
        room-assign dev size (choice dev) m p,
        string_eq.equal_iff (choice dev) m,
      );
}

-- If some choice of listed storages fits the free space, the search succeeds.
pub place_complete :
    (names : List String) (ds : List (String × ℕ)) (p : Packing) (choice : String → String)
    → Known names p
    → Distinct ds
    → Unplaced ds p
    → FitsRoom names ds p choice
    → (place names ds p).0 ≡ true
unfolding place
place_complete names [] p choice k distinct fresh f = refl
place_complete names ((dev, size) ∷ ds) p choice k distinct fresh f =
    try_storages_complete names (place names ds) dev size p (choice dev) k fresh.0
      (λ name.
        place-restores names ds (assign dev size name p) (Known-assign names dev size name p k)
          distinct.1 (Unplaced-assign ds dev size name p distinct.0 fresh.1))
      f.listed.0 (ground (arith, f.fits (choice dev), ==-refl (choice dev)))
      (place_complete names ds (assign dev size (choice dev) p) choice
        (Known-assign names dev size (choice dev) p k) distinct.1
        (Unplaced-assign ds dev size (choice dev) p distinct.0 fresh.1)
        (FitsRoom-assign names ds dev size p choice f))
