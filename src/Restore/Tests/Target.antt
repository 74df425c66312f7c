-- ===== src/Restore/Tests/Target.antt =====
-- The target storage and the fit of a guest on small hosts.
use backup_sentinel.Prelude.{ℕ, String, ◌≡◌, refl, Option, some, [], ◌∷◌, arith, nat_eq, string_eq}
use backup_sentinel.Prelude.Dict.{Dict, get}
use backup_sentinel.Restore.Target.{chosen, wait, too_big, first_with_room, choose_target_storage}
use backup_sentinel.Restore.Target.Laws.{Justified, choose_target_storage-Justified}

abbrev free_space : Dict String (Option ℕ)
free_space = ("fast", some 10) ∷ ("slow", some 90) ∷ []

abbrev capacities : Dict String (Option ℕ)
capacities = ("fast", some 50) ∷ ("slow", some 100) ∷ []

falls_back :
    choose_target_storage "fast" ("slow" ∷ []) free_space capacities (some 60) ≡ chosen "slow"
unfolding choose_target_storage first_with_room get
falls_back = refl

waits_for_room :
    choose_target_storage "fast" ("slow" ∷ []) free_space capacities (some 95) ≡ wait "fast"
unfolding choose_target_storage first_with_room get
waits_for_room = refl

never_fits : choose_target_storage "fast" ("slow" ∷ []) free_space capacities (some 200) ≡ too_big
unfolding choose_target_storage first_with_room get
never_fits = refl

choose_target_storage-Justified_example :
    Justified
      ("fast" ∷ "slow" ∷ [])
      free_space
      capacities
      60
      (choose_target_storage "fast" ("slow" ∷ []) free_space capacities (some 60))
choose_target_storage-Justified_example =
    choose_target_storage-Justified "fast" ("slow" ∷ []) free_space capacities 60 (omega arith)
