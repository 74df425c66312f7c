-- ===== src/Restore/Pack/Sound.antt =====
-- What a successful `place` has done.
use backup_sentinel.Prelude.{
  leb, if◌then◌else◌, leb→le, Bool-cases, ◌==◌, ==-refl, ==-ne, All, sum_of, contains, ℕ, ◌+◌, ◌≤◌,
  String, ◌≡◌, ◌∙◌, ◌≢◌, inl, inr, Bool, true, false, Option, none, some, List, [], ◌∷◌, arith,
  nat_eq, string_eq,
}
use backup_sentinel.Prelude.Dict.{Dict, get}
use backup_sentinel.Restore.Pack.{Packing, room, assign, try_storages, place}
use backup_sentinel.Restore.Pack.Restores.{
  Distinct, Unplaced, Known, room-assign, get-assign, release-assign, Known-assign, Unplaced-assign,
  place-restores,
}

abbrev pub share : String → Option String → ℕ → ℕ
share name none size = 0
share name (some target) size = if target == name then size else 0

-- The bytes that an assignment puts onto one storage.
abbrev pub load : String → List (String × ℕ) → Dict String String → ℕ
load name ds m = sum_of (λ (d : String × ℕ). share name (get d.0 m) d.1) ds

-- `dev` is assigned to one of the storages.
abbrev pub Placed : List String → Dict String String → String → Type 0
Placed names m dev = (name : String) × (get dev m ≡ some name) × (contains names name ≡ true)

-- From `p` to `q` the disks `ds` have been placed, and nothing else has changed.
pub record Places (names : List String) (ds : List (String × ℕ)) (p q : Packing) : Type 0 where
  pub placed : All (λ (d : String × ℕ). Placed names q.result d.0) ds
  pub accounts : (name : String) → room name q + load name ds q.result ≡ room name p
  pub others :
      (dev : String) → All (λ (d : String × ℕ). d.0 ≢ dev) ds → get dev q.result ≡ get dev p.result

-- What a successful loop has done: it has chosen a storage with room, and gone on from there.
record Chosen (names : List String) (next : Packing → Bool × Packing) (dev : String) (size : ℕ)
    (p q : Packing) : Type 0 where
  name : String
  listed : contains names name ≡ true
  fits : size ≤ room name p
  continued : next (assign dev size name p) ≡ (true, q)

Chosen-cons :
    {names : List String} {next : Packing → Bool × Packing} {dev : String} {size : ℕ}
    {p q : Packing} (n : String)
    → Chosen names next dev size p q
    → Chosen (n ∷ names) next dev size p q
Chosen-cons n c = record {
  name = c.name;
  listed = ground (arith, c.listed);
  fits = c.fits;
  continued = c.continued;
}

-- `back`: what does not lead to a placement is taken back
abbrev pub Restoring : (Packing → Bool × Packing) → String → ℕ → Packing → Type 0
Restoring next dev size p =
    (name : String)
    → (next (assign dev size name p)).0 ≡ false
    → (next (assign dev size name p)).1 ≡ assign dev size name p

try_storages-Chosen :
    (names : List String) (next : Packing → Bool × Packing) (dev : String) (size : ℕ)
    (p q : Packing)
    → Known names p
    → get dev p.result ≡ none
    → Restoring next dev size p
    → try_storages names next dev size p ≡ (true, q)
    → Chosen names next dev size p q
unfolding try_storages
try_storages-Chosen [] next dev size p q k fresh back e = absurd (ground (arith, e))
try_storages-Chosen (n ∷ names) next dev size p q k fresh back e =
    elim (Bool-cases (leb size (room n p))) [
      | inr full ↦
          Chosen-cons n (try_storages-Chosen names next dev size p q k.1 fresh back (ground arith))
      | inl fits ↦ elim (Bool-cases (next (assign dev size n p)).0) [
        | inl done ↦ record {
          name = n;
          listed = ground (arith, ==-refl n);
          fits = leb→le size (room n p) fits;
          continued = ground arith;
        }
        | inr failed ↦ Chosen-cons n (
            try_storages-Chosen names next dev size p q k.1 fresh back
              (ground (arith, back n, release-assign dev size n p, k.0)))
      ]
    ]

-- One placement before the others.
Places-cons :
    (names : List String) (ds : List (String × ℕ)) (dev : String) (size : ℕ) (p q : Packing)
    (name : String)
    → contains names name ≡ true
    → size ≤ room name p
    → All (λ (x : String × ℕ). x.0 ≢ dev) ds
    → Places names ds (assign dev size name p) q
    → Places names ((dev, size) ∷ ds) p q
Places-cons names ds dev size p q name listed fits distinct rest = record {
  placed = ((name, here, listed), rest.placed);
  accounts = λ m.
      ground
        (arith, here, rest.accounts m, room-assign dev size name m p, string_eq.equal_iff name m);
  others = λ d h. rest.others d h.1 ∙ rw (get-assign, ==-ne dev d h.0);
}
  where
    here : get dev q.result ≡ some name
    here = rest.others dev distinct ∙ rw (get-assign, ==-refl dev)

-- A successful search has placed every disk on a listed storage, and each storage's free space has
-- gone down by exactly the bytes placed there.
pub place-Places :
    (names : List String) (ds : List (String × ℕ)) (p q : Packing)
    → Known names p
    → Distinct ds
    → Unplaced ds p
    → place names ds p ≡ (true, q)
    → Places names ds p q
unfolding place
place-Places names [] p q k distinct fresh e =
    let same : p ≡ q = cc e in
    record { placed = tt; accounts = λ n. rw same (omega arith); others = λ d h. rw same }
place-Places names ((dev, size) ∷ ds) p q k distinct fresh e =
    let c =
      try_storages-Chosen names (place names ds) dev size p q k fresh.0
        (λ name.
          place-restores names ds (assign dev size name p) (Known-assign names dev size name p k)
            distinct.1 (Unplaced-assign ds dev size name p distinct.0 fresh.1))
        e in
    Places-cons names ds dev size p q c.name c.listed c.fits distinct.0 (
      place-Places names ds (assign dev size c.name p) q (Known-assign names dev size c.name p k)
        distinct.1 (Unplaced-assign ds dev size c.name p distinct.0 fresh.1) c.continued)
