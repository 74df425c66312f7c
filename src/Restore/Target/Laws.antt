-- ===== src/Restore/Target/Laws.antt =====
-- The choice of a target storage, and what fitting leaves free.
use backup_sentinel.Prelude.{
  Bool-cases, any, ℕ, ◌+◌, ◌/◌, ◌≤◌, String, ◌≡◌, refl, inl, inr, Bool, true, false, Option, none,
  some, List, [], ◌∷◌, arith, nat_eq, string_eq,
}
use backup_sentinel.Prelude.Dict.{Dict}
use backup_sentinel.Restore.Target.{
  Choice, chosen, wait, too_big, has_room, may_hold, first_with_room, choose_target_storage,
  choose_from,
}
use backup_sentinel.Restore.Worker.{ram_reserve_min_bytes, ram_reserve_bytes, fits_ram, known}

-- Of the storages in the operator's order, `storage` is the first with room.
pub data IsFirstWithRoom (avail_by : Dict String (Option ℕ)) (needed : ℕ) (storage : String)
    : List String → Type 0 where
  first :
      (storages : List String)
      → has_room avail_by needed storage ≡ true
      → IsFirstWithRoom avail_by needed storage (storage ∷ storages)
  passed_over :
      (s : String) (storages : List String)
      → has_room avail_by needed s ≡ false
      → IsFirstWithRoom avail_by needed storage storages
      → IsFirstWithRoom avail_by needed storage (s ∷ storages)

-- What a choice says of the free space and of the capacities.
abbrev pub Justified :
    List String → Dict String (Option ℕ) → Dict String (Option ℕ) → ℕ → Choice → Type 0
Justified storages avail_by total_by needed (chosen s) = IsFirstWithRoom avail_by needed s storages
Justified storages avail_by total_by needed (wait s) =
    (any (has_room avail_by needed) storages ≡ false)
    × (any (may_hold total_by needed) storages ≡ true)
Justified storages avail_by total_by needed too_big =
    (any (has_room avail_by needed) storages ≡ false)
    × (any (may_hold total_by needed) storages ≡ false)

first_with_room-IsFirstWithRoom :
    (avail_by : Dict String (Option ℕ)) (needed : ℕ) (storages : List String) (s : String)
    → first_with_room avail_by needed storages ≡ some s
    → IsFirstWithRoom avail_by needed s storages
unfolding first_with_room
first_with_room-IsFirstWithRoom avail_by needed [] s e = absurd (cc e)
first_with_room-IsFirstWithRoom avail_by needed (x ∷ storages) s e =
    elim (Bool-cases (has_room avail_by needed x)) [
      | inl t ↦ let same : x ≡ s = cc (rw t at e) in rw⁻¹ same (first storages t)
      | inr n ↦
          passed_over x storages n
            (first_with_room-IsFirstWithRoom avail_by needed storages s (rw n at e))
    ]

first_with_room-none :
    (avail_by : Dict String (Option ℕ)) (needed : ℕ) (storages : List String)
    → first_with_room avail_by needed storages ≡ none
    → any (has_room avail_by needed) storages ≡ false
unfolding first_with_room
first_with_room-none avail_by needed [] e = refl
first_with_room-none avail_by needed (x ∷ storages) e =
    elim (Bool-cases (has_room avail_by needed x)) [
      | inl t ↦ absurd (cc (rw t at e))
      | inr n ↦ rw n (first_with_room-none avail_by needed storages (rw n at e))
    ]

choose_from-Justified :
    (top : String) (storages : List String) (avail_by total_by : Dict String (Option ℕ)) (n : ℕ)
    (found : Option String) (any_big : Bool)
    → first_with_room avail_by n storages ≡ found
    → any (may_hold total_by n) storages ≡ any_big
    → Justified storages avail_by total_by n (choose_from found top any_big)
choose_from-Justified top storages avail_by total_by n (some s) any_big f b =
    first_with_room-IsFirstWithRoom avail_by n storages s f
choose_from-Justified top storages avail_by total_by n none true f b =
    (first_with_room-none avail_by n storages f, b)
choose_from-Justified top storages avail_by total_by n none false f b =
    (first_with_room-none avail_by n storages f, b)

known_of_positive : (n : ℕ) → 1 ≤ n → known (some n) ≡ some n
known_of_positive n h = ground (arith, h)

-- For a known size the storage chosen is the first in order with room now; a wait means that none
-- has room now and one may hold the guest by its capacity; the guest is too big only when no
-- storage has room and every one is known to be too small.
pub choose_target_storage-Justified :
    (top : String) (storages : List String) (avail_by total_by : Dict String (Option ℕ)) (n : ℕ)
    → 1 ≤ n
    → Justified
        (top ∷ storages)
        avail_by
        total_by
        n
        (choose_target_storage top storages avail_by total_by (some n))
unfolding choose_target_storage
choose_target_storage-Justified top storages avail_by total_by n positive =
    rw (known_of_positive n positive)
      (choose_from-Justified top (top ∷ storages) avail_by total_by n _ _ refl refl)

-- Where the free RAM, the RAM and the need are known, a guest that fits leaves the host a tenth of
-- its RAM, and at least 10 GiB.
fits_ram-reserve :
    (free total needed : ℕ)
    → 1 ≤ needed
    → fits_ram (some free) (some total) (some needed) ≡ true
    → (needed + total / 10 ≤ free) × (needed + ram_reserve_min_bytes ≤ free)
unfolding fits_ram ram_reserve_bytes
fits_ram-reserve free total needed positive h = ground (arith, h)
