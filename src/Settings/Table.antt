-- ===== src/Settings/Table.antt =====
-- `get_settings_dict` and `save_settings` of app/db_settings.py: the table `app_settings`.
use backup_sentinel.Prelude.{
  nat_beq, filter, String, ◌≡◌, refl, ◌∙◌, Bool, true, false, ◌&&◌, ◌||◌, [], ◌∷◌, nat_eq,
  string_eq,
}
use backup_sentinel.Prelude.Dict.{get-filter, Dict, get, put}
use Prim.Native.Char.{code}

abbrev pub Settings : Type 0
Settings = Dict String String

-- `key LIKE prefix || '%'`, for a prefix without `%` and `\`: `_` stands for any character
abbrev pub like_from : String → String → Bool
like_from String.[] key = true
like_from (String.◌∷◌ p prefix) String.[] = false
like_from (String.◌∷◌ p prefix) (String.◌∷◌ c key) =
    (nat_beq (code p) b'_' || nat_beq (code p) (code c)) && like_from prefix key

unfoldable pub get_settings_dict : String → Settings → Settings
get_settings_dict prefix settings =
    filter (λ (row : String × String). like_from prefix row.0) settings

-- the loop of inserts or updates
unfoldable pub save_settings : Dict String String → Settings → Settings
save_settings [] settings = settings
save_settings ((key, value) ∷ rows) settings = save_settings rows (put key value settings)

-- A key of the prefix is found among the rows read as in the table.
pub get-get_settings_dict :
    (prefix key : String) (settings : Settings)
    → like_from prefix key ≡ true
    → get key (get_settings_dict prefix settings) ≡ get key settings
unfolding get_settings_dict
get-get_settings_dict prefix key settings h = get-filter (like_from prefix) key settings ∙ rw h refl
