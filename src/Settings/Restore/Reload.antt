-- ===== src/Settings/Restore/Reload.antt =====
-- What `load` finds after `save`.
use backup_sentinel.Prelude.{
  if◌then◌else◌, Bool-cases, ◌==◌, ==→≡, ==-ne, String, ◌≡◌, refl, sym, ◌∙◌, ◌≢◌, inl, inr, true,
  false, Option, none, some, arith, nat_eq, string_eq,
}
use backup_sentinel.Prelude.Dict.{get, get-put, get-put_self}
use backup_sentinel.Settings.Restore.{
  load, text_of, text, number, Loaded, loaded, not_configured, unreadable, config_key, token_key,
  ssh_key_key, Fields, non_secret, or_empty, keep_stored, persist, completed, read_config, read_raw,
  saved_over,
}
use backup_sentinel.Settings.Table.{
  Settings, like_from, get_settings_dict, save_settings, get-get_settings_dict,
}
use backup_sentinel.Settings.Restore.Kept.{
  is_timing, is_kept, get-non_secret, existing_of, kept_value, get-keep_stored,
}

-- What `load` makes of the fields that were saved.
pub record IsReload {J : Type 0} (existing cfg found : Fields J) : Type 0 where
  pub kept :
      (field : String) → is_timing field ≡ false → get field found ≡ kept_value existing cfg field
  pub first_delay : get "probe_first_delay_seconds" found ≡ some (number 10)
  pub interval : get "probe_interval_seconds" found ≡ some (number 5)

module _ {J : Type 0} (dumps : Fields J → String) (loads : String → Option (Fields J))
    (encrypt decrypt : String → String) (reads : (t : String) → decrypt (encrypt t) ≡ t) where
  abbrev L : Settings → Loaded (Fields J)
  L = load dumps loads encrypt decrypt

  abbrev P : Fields J → Settings → Settings
  P = persist dumps loads encrypt decrypt

  persist-config :
      (cfg : Fields J) (s : Settings) → get config_key (P cfg s) ≡ some (dumps (non_secret cfg))
  unfolding persist save_settings
  persist-config cfg s = rw (get-put, get-put, get-put) refl

  persist-token :
      (cfg : Fields J) (s : Settings)
      → get token_key (P cfg s) ≡ some (encrypt (text_of (get "token_secret" cfg)))
  unfolding persist save_settings
  persist-token cfg s = rw (get-put, get-put) refl

  persist-ssh_key :
      (cfg : Fields J) (s : Settings)
      → get ssh_key_key (P cfg s) ≡ some (encrypt (text_of (get "ssh_private_key" cfg)))
  unfolding persist save_settings
  persist-ssh_key cfg s = rw get-put refl

  read :
      (key : String) (s : Settings)
      → like_from "restore_server." key ≡ true
      → get key (get_settings_dict "restore_server." s) ≡ get key s
  read key s h = get-get_settings_dict "restore_server." key s h

  pub load-persist :
      (cfg : Fields J) (s : Settings)
      → loads (dumps (non_secret cfg)) ≡ some (non_secret cfg)
      → dumps (non_secret cfg) ≢ ""
      → L (P cfg s)
        ≡ loaded (
            completed dumps loads encrypt decrypt
              (text_of (get "token_secret" cfg))
              (text_of (get "ssh_private_key" cfg))
              (non_secret cfg))
  unfolding load
  load-persist cfg s json ne =
      let a = read config_key (P cfg s) refl ∙ persist-config cfg s in
      let b = read token_key (P cfg s) refl ∙ persist-token cfg s in
      let c = read ssh_key_key (P cfg s) refl ∙ persist-ssh_key cfg s in
      rw (a, ==-ne (dumps (non_secret cfg)) "" ne, json, b, c, reads, reads) refl

  -- the secrets are texts
  abbrev pub AreTexts : Fields J → Type 0
  AreTexts cfg =
      (or_empty (get "token_secret" cfg) ≡ text (text_of (get "token_secret" cfg)))
      × (or_empty (get "ssh_private_key" cfg) ≡ text (text_of (get "ssh_private_key" cfg)))

  completed-AreTexts :
      (a b : String) (cfg : Fields J) → AreTexts (completed dumps loads encrypt decrypt a b cfg)
  completed-AreTexts a b cfg =
      (rw (get-put, get-put, get-put, get-put_self) refl, rw (get-put, get-put, get-put_self) refl)

  read_config-AreTexts :
      (rows : Settings) (o : Option (Fields J))
      → AreTexts (existing_of (read_config dumps loads encrypt decrypt rows o))
  unfolding get
  read_config-AreTexts rows none = (refl, refl)
  read_config-AreTexts rows (some cfg) = completed-AreTexts _ _ cfg

  read_raw-AreTexts :
      (rows : Settings) (o : Option String)
      → AreTexts (existing_of (read_raw dumps loads encrypt decrypt rows o))
  unfolding get
  read_raw-AreTexts rows none = (refl, refl)
  read_raw-AreTexts rows (some raw) =
      elim (raw == "")
        as (λ b. AreTexts (
          existing_of (
            if b
            then not_configured
            else read_config dumps loads encrypt decrypt rows (loads raw)))) [
              | true ↦ (refl, refl)
              | false ↦ read_config-AreTexts rows (loads raw)
            ]

  pub load-AreTexts : (s : Settings) → AreTexts (existing_of (L s))
  unfolding load
  load-AreTexts s =
      let rows = get_settings_dict "restore_server." s in
      read_raw-AreTexts rows (get config_key rows)

  kept_text :
      (existing cfg : Fields J) (field t : String)
      → is_kept field ≡ true
      → get field cfg ≡ some (text t)
      → or_empty (get field existing) ≡ text (text_of (get field existing))
      → some (text (text_of (kept_value existing cfg field))) ≡ kept_value existing cfg field
  kept_text existing cfg field t k h texts =
      rw (k, h) (elim (Bool-cases (t == "")) [ inl e ↦ rw (e, texts) refl | inr e ↦ rw e refl ])

  get-completed :
      (a b field : String) (cfg : Fields J)
      → is_timing field ≡ false
      → get field (completed dumps loads encrypt decrypt a b (non_secret cfg)) ≡ (
          if "ssh_private_key" == field
          then some (text b)
          else if "token_secret" == field
          then some (text a)
          else get field cfg)
  get-completed a b field cfg h =
      let x : ("probe_first_delay_seconds" == field) ≡ false = ground (arith, h) in
      let y : ("probe_interval_seconds" == field) ≡ false = ground (arith, h) in
      rw (get-put, y, get-put, x, get-put, get-put, get-non_secret) (ground arith)

  -- each field of `completed` over the kept fields
  pub completed-kept :
      (existing cfg : Fields J) (token ssh_key : String)
      → AreTexts existing
      → get "token_secret" cfg ≡ some (text token)
      → get "ssh_private_key" cfg ≡ some (text ssh_key)
      → let saved = keep_stored existing cfg in
        IsReload existing cfg (
          completed dumps loads encrypt decrypt
            (text_of (get "token_secret" saved))
            (text_of (get "ssh_private_key" saved))
            (non_secret saved))
  completed-kept existing cfg token ssh_key texts t k = record {
    kept = λ field h.
        get-completed _ _ field (keep_stored existing cfg) h
        ∙ rw (get-keep_stored, get-keep_stored, get-keep_stored)
            (elim (Bool-cases ("ssh_private_key" == field)) [
              | inl e ↦
                  let same = ==→≡ "ssh_private_key" field e in
                  rw (sym same) (kept_text existing cfg "ssh_private_key" ssh_key refl k texts.1)
              | inr n ↦ rw n (elim (Bool-cases ("token_secret" == field)) [
                | inl e ↦
                    let same = ==→≡ "token_secret" field e in
                    rw (sym same) (kept_text existing cfg "token_secret" token refl t texts.0)
                | inr m ↦ rw m refl
              ])
            ]);
    first_delay = rw (get-put, get-put_self) refl;
    interval = get-put_self _ _ _;
  }

  -- what `save` answers
  pub saved_over-kept :
      (cfg : Fields J) (s : Settings) (r : Loaded (Fields J)) (saved : Fields J × Settings)
      → saved_over dumps loads encrypt decrypt cfg s r ≡ some saved
      → saved ≡ (keep_stored (existing_of r) cfg, P (keep_stored (existing_of r) cfg) s)
  saved_over-kept cfg s (loaded existing) saved e = cc e
  saved_over-kept cfg s not_configured saved e = cc e
  saved_over-kept cfg s unreadable saved e = absurd (cc e)
