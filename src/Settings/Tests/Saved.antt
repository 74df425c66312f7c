-- ===== src/Settings/Tests/Saved.antt =====
-- A form without the token and the host key, saved over a configuration that has both.
use backup_sentinel.Prelude.{
  ==_false→≢, String, ◌≡◌, refl, sym, true, Option, none, some, [], ◌∷◌, nat_eq, string_eq,
}
use backup_sentinel.Prelude.Dict.{get, put}
use backup_sentinel.Settings.Restore.{
  load, text, loaded, config_key, token_key, ssh_key_key, paused_key, queue_paused, Fields,
  non_secret, save,
}
use backup_sentinel.Settings.Crypto.{encrypt, decrypt, IsFernet}
use backup_sentinel.Settings.Table.{Settings, get_settings_dict, save_settings}
use backup_sentinel.Settings.Restore.Saved.{load-save}
use backup_sentinel.Settings.Restore.Kept.{existing_of}
use backup_sentinel.Settings.Restore.Reload.{IsReload}

-- a cipher that puts a character in front
abbrev seal : String → Option String
seal plain = some (String.◌∷◌ "#" plain)

abbrev unseal : String → Option String
unseal String.[] = none
unseal (String.◌∷◌ c rest) = some rest

seal-IsFernet : IsFernet true seal unseal
seal-IsFernet = record {
  token = λ plain cipher e k.
      let empty : String.◌∷◌ "#" plain ≡ String.[] = cc (e, k) in absurd (cc empty);
  reads = λ plain cipher e. let same : String.◌∷◌ "#" plain ≡ cipher = cc e in rw (sym same) refl;
  refuses = λ plain e. absurd (cc e);
}

abbrev json_fields : Fields Unit
json_fields = ("ssh_host", text "pve") ∷ ("ssh_host_key", text "pve ssh-ed25519 AAAA") ∷ []

abbrev dumps : Fields Unit → String
dumps fields = "{}"

abbrev loads : String → Option (Fields Unit)
loads raw = some json_fields

abbrev before_form : Settings
before_form =
    (config_key, "{}") ∷ (token_key, "#old") ∷ (ssh_key_key, "#id") ∷ (paused_key, "1") ∷ []

abbrev form : Fields Unit
form =
    ("ssh_host", text "pve")
    ∷ ("ssh_host_key", text "")
    ∷ ("token_secret", text "")
    ∷ ("ssh_private_key", text "new")
    ∷ []

abbrev kept_form : Fields Unit
kept_form =
    ("ssh_host", text "pve")
    ∷ ("ssh_host_key", text "pve ssh-ed25519 AAAA")
    ∷ ("token_secret", text "old")
    ∷ ("ssh_private_key", text "new")
    ∷ []

abbrev after_form : Settings
after_form =
    (config_key, "{}") ∷ (token_key, "#old") ∷ (ssh_key_key, "#new") ∷ (paused_key, "1") ∷ []

saves :
    save dumps loads (encrypt true seal unseal) (decrypt true seal unseal) form before_form
    ≡ some (kept_form, after_form)
unfolding save get put encrypt decrypt non_secret save_settings get_settings_dict
saves = refl

load-save_example :
    (found : Fields Unit) × ((load dumps loads
          (encrypt true seal unseal)
          (decrypt true seal unseal)
          after_form
        ≡ loaded found)
      × IsReload
          (existing_of
            (load dumps loads (encrypt true seal unseal) (decrypt true seal unseal) before_form))
          form
          found
      × (queue_paused after_form ≡ queue_paused before_form))
unfolding get non_secret
load-save_example =
    load-save dumps loads true seal unseal seal-IsFernet form before_form (kept_form, after_form) ""
      "new" saves refl refl refl (==_false→≢ "{}" "" refl)
