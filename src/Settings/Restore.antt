-- ===== src/Settings/Restore.antt =====
-- app/services/restore_config.py: the configuration of the restore host, in the table of settings. A
-- configuration is a dictionary of fields; `json` and the encryption of app/services/crypto.py are
-- parameters.
pub mod Kept
pub mod Reload
pub mod Saved
use backup_sentinel.Prelude.{
  if◌then◌else◌, ◌==◌, filter, contains, ℕ, String, Bool, true, false, not, Option, none, some, [],
  ◌∷◌, nat_eq, string_eq,
}
use backup_sentinel.Prelude.Dict.{Dict, get, put}
use backup_sentinel.Settings.Crypto.{encrypt, decrypt}
use backup_sentinel.Settings.Table.{Settings, get_settings_dict, save_settings}

-- A field: a text, a number, or another value that this code does not look at.
pub data Value (J : Type 0) : Type 0 where
  text : String → Value J
  number : ℕ → Value J
  other : J → Value J

-- What `load` comes to: a configuration, `None`, or a raise where the JSON cannot be read.
pub data Loaded (C : Type 0) : Type 0 where
  loaded : C → Loaded C
  not_configured : Loaded C
  unreadable : Loaded C

abbrev pub config_key : String
config_key = "restore_server.config"

abbrev pub token_key : String
token_key = "restore_server.token_secret"

abbrev pub ssh_key_key : String
ssh_key_key = "restore_server.ssh_private_key"

abbrev pub paused_key : String
paused_key = "restore_server.queue_paused"

abbrev pub is_secret : String → Bool
is_secret field = contains ("token_secret" ∷ "ssh_private_key" ∷ []) field

-- `is_configured`
unfoldable pub is_configured : Settings → Bool
is_configured settings = elim (get config_key (get_settings_dict config_key settings)) [
  | none ↦ false
  | some raw ↦ not (raw == "")
]

abbrev pub is_one : Option String → Bool
is_one none = false
is_one (some value) = value == "1"

unfoldable pub queue_paused : Settings → Bool
queue_paused settings = is_one (get paused_key (get_settings_dict paused_key settings))

unfoldable pub set_queue_paused : Bool → Settings → Settings
set_queue_paused paused settings =
    save_settings ((paused_key, (if paused then "1" else "0")) ∷ []) settings

abbrev pub or_text : Option String → String
or_text none = ""
or_text (some t) = t

abbrev pub Fields : Type 0 → Type 0
Fields J = Dict String (Value J)

module _ {J : Type 0} where
  -- `cfg.get(field, "")` of a field that is a text
  abbrev pub text_of : Option (Value J) → String
  text_of none = ""
  text_of (some (text t)) = t
  text_of (some (number n)) = ""
  text_of (some (other j)) = ""

  -- `not cfg.get(field)`
  abbrev pub is_unset : Option (Value J) → Bool
  is_unset none = true
  is_unset (some (text t)) = t == ""
  is_unset (some (number n)) = n == 0
  is_unset (some (other j)) = false

  unfoldable pub non_secret : Fields J → Fields J
  non_secret cfg = filter (λ (item : String × Value J). not (is_secret item.0)) cfg

  -- `existing.get(field, "")`
  abbrev pub or_empty : Option (Value J) → Value J
  or_empty none = text ""
  or_empty (some v) = v

  unfoldable pub keep_field : Fields J → String → Fields J → Fields J
  keep_field existing field cfg =
      if is_unset (get field cfg) then put field (or_empty (get field existing)) cfg else cfg

  -- the loop over `_KEEP_IF_EMPTY`
  unfoldable pub keep_stored : Fields J → Fields J → Fields J
  unfolding keep_field
  keep_stored existing cfg =
      keep_field existing "ssh_host_key"
        (keep_field existing "ssh_private_key" (keep_field existing "token_secret" cfg))

module _ {J : Type 0} (dumps : Fields J → String) (loads : String → Option (Fields J))
    (encrypt decrypt : String → String) where
  unfoldable pub persist : Fields J → Settings → Settings
  persist cfg settings =
      save_settings
        ((config_key, dumps (non_secret cfg))
          ∷ (token_key, encrypt (text_of (get "token_secret" cfg)))
          ∷ (ssh_key_key, encrypt (text_of (get "ssh_private_key" cfg)))
          ∷ [])
        settings

  -- the secrets, and the defaults of the two fields that the form does not have
  abbrev pub completed : String → String → Fields J → Fields J
  completed token ssh_key cfg = put "probe_interval_seconds" (number 5) (
      put "probe_first_delay_seconds" (number 10)
        (put "ssh_private_key" (text ssh_key) (put "token_secret" (text token) cfg)))

  abbrev pub read_config : Settings → Option (Fields J) → Loaded (Fields J)
  read_config rows none = unreadable
  read_config rows (some cfg) = loaded (
      completed (decrypt (or_text (get token_key rows))) (decrypt (or_text (get ssh_key_key rows)))
        cfg)

  abbrev pub read_raw : Settings → Option String → Loaded (Fields J)
  read_raw rows none = not_configured
  read_raw rows (some raw) = if raw == "" then not_configured else read_config rows (loads raw)

  unfoldable pub load : Settings → Loaded (Fields J)
  load settings =
      let rows = get_settings_dict "restore_server." settings in read_raw rows (get config_key rows)

  abbrev pub saved_over : Fields J → Settings → Loaded (Fields J) → Option (Fields J × Settings)
  saved_over cfg settings (loaded existing) =
      some (keep_stored existing cfg, persist (keep_stored existing cfg) settings)
  saved_over cfg settings not_configured =
      some (keep_stored [] cfg, persist (keep_stored [] cfg) settings)
  saved_over cfg settings unreadable = none

  -- of a payload that is validated already; `none` where it raises
  unfoldable pub save : Fields J → Settings → Option (Fields J × Settings)
  unfolding load persist keep_stored
  save cfg settings = saved_over cfg settings (load settings)

  abbrev with_host_key : String → Settings → Loaded (Fields J) → Option Settings
  with_host_key line settings (loaded cfg) =
      some (persist (put "ssh_host_key" (text line) cfg) settings)
  with_host_key line settings not_configured = some settings
  with_host_key line settings unreadable = none

  unfoldable pub set_host_key : String → Settings → Option Settings
  unfolding load persist
  set_host_key line settings = with_host_key line settings (load settings)

-- The configuration for the pages: no secret, and whether each is set.
pub record PublicConfig (C : Type 0) : Type 0 where
  pub fields : C
  pub has_token_secret : Bool
  pub has_ssh_private_key : Bool

unfoldable pub public_config : {J : Type 0} → Loaded (Fields J) → Loaded (PublicConfig (Fields J))
public_config (loaded cfg) = loaded (record {
  fields = non_secret cfg;
  has_token_secret = not (is_unset (get "token_secret" cfg));
  has_ssh_private_key = not (is_unset (get "ssh_private_key" cfg));
})
public_config not_configured = not_configured
public_config unreadable = unreadable
