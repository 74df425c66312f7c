-- ===== src/Restore/Pack/Plan.antt =====
-- `pack_disks` and `plan_distribution` against the question that they answer: is there an
-- assignment of whole disks to storages that fits?
use backup_sentinel.Prelude.{
  if◌then◌else◌, Option-cases, ◌==◌, All, contains, All-of_contains, ℕ, ◌≤◌, String, ◌≡◌, refl, sym,
  ◌≢◌, inl, inr, Bool, true, false, Option, none, some, List, [], ◌∷◌, arith, nat_eq, string_eq,
}
use backup_sentinel.Prelude.Dict.{Dict, get, from_items, from_items-has}
use backup_sentinel.Prelude.Sort.{
  insert_by, sort_by, sum_of-sort_by, All-sort_by, All-insert_by, All-sort_by_inv,
}
use backup_sentinel.Restore.Pack.{
  Packing, amount, start, storage_names, larger_first, place, pack_disks, Decision, ok, retry,
  impossible, plan_distribution, pairs_of,
}
use backup_sentinel.Restore.Pack.Complete.{wanted, place_complete}
use backup_sentinel.Restore.Pack.Restores.{Distinct, Unplaced, Known}
use backup_sentinel.Restore.Pack.Sound.{load, share, Placed, place-Places}

-- The bytes that a storage offers.
abbrev pub capacity : String → List (String × ℕ) → ℕ
capacity name storages = amount (get name (from_items storages))

-- `mapping` puts each disk onto one of the storages, and no storage holds more than it offers.
pub record IsPacking (disks storages : List (String × ℕ)) (mapping : Dict String String)
    : Type 0 where
  pub placed : All (λ (d : String × ℕ). Placed (storage_names storages) mapping d.0) disks
  pub fits : (name : String) → load name disks mapping ≤ capacity name storages

abbrev pub Feasible : List (String × ℕ) → List (String × ℕ) → Type 0
Feasible disks storages = (mapping : Dict String String) × IsPacking disks storages mapping

Distinct-insert_by :
    (d : String × ℕ) (ds : List (String × ℕ))
    → All (λ (x : String × ℕ). x.0 ≢ d.0) ds
    → Distinct ds
    → Distinct (insert_by larger_first d ds)
unfolding insert_by
Distinct-insert_by d [] h k = (tt, tt)
Distinct-insert_by d (x ∷ ds) h k =
    elim (larger_first d x)
      as (λ b. Distinct (if b then d ∷ x ∷ ds else x ∷ insert_by larger_first d ds)) [
        | true ↦ (h, k)
        | false ↦ (
          All-insert_by larger_first (λ (y : String × ℕ). y.0 ≢ x.0) d ds (λ e. h.0 (sym e)) k.0,
          Distinct-insert_by d ds h.1 k.1,
        )
      ]

Distinct-sort_by : (ds : List (String × ℕ)) → Distinct ds → Distinct (sort_by larger_first ds)
unfolding sort_by
Distinct-sort_by [] h = tt
Distinct-sort_by (d ∷ ds) h =
    Distinct-insert_by d (sort_by larger_first ds)
      (All-sort_by larger_first (λ (x : String × ℕ). x.0 ≢ d.0) ds h.0) (Distinct-sort_by ds h.1)

Unplaced-start : (ds storages : List (String × ℕ)) → Unplaced ds (start storages)
unfolding get
Unplaced-start [] storages = tt
Unplaced-start (d ∷ ds) storages = (refl, Unplaced-start ds storages)

Known-start : (storages : List (String × ℕ)) → Known (storage_names storages) (start storages)
Known-start storages =
    All-of_contains (λ n. get n (from_items storages) ≢ none) (storage_names storages)
      (λ n m. from_items-has n storages m)

abbrev mapping_of : Bool × Packing → Option (Dict String String)
mapping_of r = if r.0 then some r.1.result else none

mapping_of-eq-some :
    (r : Bool × Packing) (mapping : Dict String String)
    → mapping_of r ≡ some mapping
    → (r ≡ (true, r.1)) × (mapping ≡ r.1.result)
mapping_of-eq-some (true, p) mapping e = (refl, cc e)
mapping_of-eq-some (false, p) mapping e = cc e

-- A mapping that `pack_disks` returns is a packing: every disk on a listed storage, and no storage
-- over its capacity.
pub pack_disks-IsPacking :
    (disks storages : List (String × ℕ)) (mapping : Dict String String)
    → Distinct disks
    → pack_disks disks storages ≡ some mapping
    → IsPacking disks storages mapping
unfolding pack_disks
pack_disks-IsPacking [] storages mapping distinct e = record {
  placed = tt;
  fits = λ n. omega arith;
}
pack_disks-IsPacking (d ∷ ds) storages mapping distinct e =
    let order = sort_by larger_first (d ∷ ds) in
    let r = place (storage_names storages) order (start storages) in
    let (done, same) = mapping_of-eq-some r mapping e in
    let q =
      place-Places (storage_names storages) order (start storages) r.1 (Known-start storages)
        (Distinct-sort_by (d ∷ ds) distinct) (Unplaced-start order storages) done in
    rw same (record {
      placed =
          All-sort_by_inv larger_first
            (λ (x : String × ℕ). Placed (storage_names storages) r.1.result x.0) (d ∷ ds) q.placed;
      fits = λ n. omega (
        arith,
        q.accounts n,
        sum_of-sort_by larger_first (λ (x : String × ℕ). share n (get x.0 r.1.result) x.1) (d ∷ ds),
      );
    })

or_empty : Option String → String
or_empty none = ""
or_empty (some name) = name

wanted-eq-load :
    (names : List String) (name : String) (ds : List (String × ℕ)) (mapping : Dict String String)
    → All (λ (d : String × ℕ). Placed names mapping d.0) ds
    → wanted (λ dev. or_empty (get dev mapping)) name ds ≡ load name ds mapping
unfolding or_empty
wanted-eq-load names name [] mapping h = refl
wanted-eq-load names name ((dev, size) ∷ ds) mapping ((target, at, listed), rest) =
    ground (arith, at, wanted-eq-load names name ds mapping rest)

listed_of_Placed :
    (names : List String) (ds : List (String × ℕ)) (mapping : Dict String String)
    → All (λ (d : String × ℕ). Placed names mapping d.0) ds
    → All (λ (d : String × ℕ). contains names (or_empty (get d.0 mapping)) ≡ true) ds
unfolding or_empty
listed_of_Placed names [] mapping h = tt
listed_of_Placed names ((dev, size) ∷ ds) mapping ((target, at, listed), rest) =
    (rw at listed, listed_of_Placed names ds mapping rest)

-- If there is a packing, `pack_disks` returns one.
pub pack_disks_complete :
    (disks storages : List (String × ℕ))
    → Distinct disks
    → Feasible disks storages
    → pack_disks disks storages ≢ none
unfolding pack_disks
pack_disks_complete [] storages distinct f e = cc e
pack_disks_complete (d ∷ ds) storages distinct (mapping, packing) e =
    let order = sort_by larger_first (d ∷ ds) in
    let names = storage_names storages in
    let choice = λ (dev : String). or_empty (get dev mapping) in
    let found =
      place_complete names order (start storages) choice (Known-start storages)
        (Distinct-sort_by (d ∷ ds) distinct) (Unplaced-start order storages)
        (record {
          listed =
              All-sort_by larger_first (λ (x : String × ℕ). contains names (choice x.0) ≡ true)
                (d ∷ ds) (listed_of_Placed names (d ∷ ds) mapping packing.placed);
          fits = λ n. omega (
            arith,
            packing.fits n,
            wanted-eq-load names n (d ∷ ds) mapping packing.placed,
            sum_of-sort_by larger_first (λ (x : String × ℕ). if choice x.0 == n then x.1 else 0)
                (d ∷ ds),
          );
        }) in
    ground (arith, found, e)

-- What each decision claims: the mapping is a packing into the free space; or there is none, but
-- there is one into the capacities; or there is none into either.
abbrev pub Answers : List (String × ℕ) → List (String × ℕ) → List (String × ℕ) → Decision → Type 0
Answers disks avail total (ok mapping) = IsPacking disks avail mapping
Answers disks avail total retry = ¬ Feasible disks avail × Feasible disks total
Answers disks avail total impossible = ¬ Feasible disks avail × ¬ Feasible disks total

-- For disks with distinct names, the decision of `plan_distribution` is right in all three cases.
pub plan_distribution-Answers :
    (disks : List (String × Option ℕ)) (avail total : List (String × ℕ))
    → Distinct (pairs_of disks)
    → Answers (pairs_of disks) avail total (plan_distribution disks avail total)
unfolding plan_distribution
plan_distribution-Answers disks avail total distinct =
    elim (Option-cases (pack_disks (pairs_of disks) avail)) [
      | inr (mapping, now) ↦
          rw now (pack_disks-IsPacking (pairs_of disks) avail mapping distinct now)
      | inl full ↦
          let never_now = λ (f : Feasible (pairs_of disks) avail).
            pack_disks_complete (pairs_of disks) avail distinct f full in
          elim (Option-cases (pack_disks (pairs_of disks) total)) [
            | inr (mapping, later) ↦
                rw (full, later)
                  (
                    never_now,
                    (mapping, pack_disks-IsPacking (pairs_of disks) total mapping distinct later),
                  )
            | inl never ↦
                rw (full, never)
                  (never_now, λ f. pack_disks_complete (pairs_of disks) total distinct f never)
          ]
    ]
