-- ===== src/Settings/Restore/Saved.antt =====
-- A configuration that is saved is found again, with the secrets encrypted in between.
use backup_sentinel.Prelude.{
  String, ◌≡◌, refl, sym, ap, ◌∙◌, ◌≢◌, Bool, Option, some, nat_eq, string_eq,
}
use backup_sentinel.Prelude.Dict.{get, get-put}
use backup_sentinel.Settings.Restore.{
  text_of, load, text, loaded, paused_key, is_one, queue_paused, Fields, non_secret, keep_stored,
  persist, completed, save,
}
use backup_sentinel.Settings.Crypto.{encrypt, decrypt, IsFernet, decrypt-encrypt}
use backup_sentinel.Settings.Table.{Settings, save_settings, get-get_settings_dict}
use backup_sentinel.Settings.Restore.Kept.{existing_of}
use backup_sentinel.Settings.Restore.Reload.{
  IsReload, load-persist, load-AreTexts, completed-kept, saved_over-kept,
}

module _ {J : Type 0} (dumps : Fields J → String) (loads : String → Option (Fields J))
    (has_key : Bool) (fernet_encrypt fernet_decrypt : String → Option String)
    (laws : IsFernet has_key fernet_encrypt fernet_decrypt) where
  abbrev pub enc : String → String
  enc = encrypt has_key fernet_encrypt fernet_decrypt

  abbrev pub dec : String → String
  dec = decrypt has_key fernet_encrypt fernet_decrypt

  reads : (t : String) → dec (enc t) ≡ t
  reads = decrypt-encrypt has_key fernet_encrypt fernet_decrypt laws

  queue_paused_lem : (s : Settings) → queue_paused s ≡ is_one (get paused_key s)
  unfolding queue_paused
  queue_paused_lem s = ap is_one (get-get_settings_dict paused_key paused_key s refl)

  persist-paused :
      (cfg : Fields J) (s : Settings)
      → get paused_key (persist dumps loads enc dec cfg s) ≡ get paused_key s
  unfolding persist save_settings
  persist-paused cfg s = rw (get-put, get-put, get-put) refl

  persist-queue_paused :
      (cfg : Fields J) (s : Settings)
      → queue_paused (persist dumps loads enc dec cfg s) ≡ queue_paused s
  persist-queue_paused cfg s =
      queue_paused_lem (persist dumps loads enc dec cfg s)
      ∙ ap is_one (persist-paused cfg s)
      ∙ sym (queue_paused_lem s)

  -- Where the payload is saved and `json` reads the fields back that it wrote, `load` finds each
  -- field of the payload, or, for a secret or the host key that was left empty, what was loaded
  -- before; the timing of the probes has its defaults, and the pause of the queue stays.
  pub load-save :
      (cfg : Fields J) (s : Settings) (saved : Fields J × Settings) (token ssh_key : String)
      → save dumps loads enc dec cfg s ≡ some saved
      → get "token_secret" cfg ≡ some (text token)
      → get "ssh_private_key" cfg ≡ some (text ssh_key)
      → loads (dumps (non_secret saved.0)) ≡ some (non_secret saved.0)
      → dumps (non_secret saved.0) ≢ ""
      → (found : Fields J) × ((load dumps loads enc dec saved.1 ≡ loaded found)
          × IsReload (existing_of (load dumps loads enc dec s)) cfg found
          × (queue_paused saved.1 ≡ queue_paused s))
  unfolding save
  load-save cfg s saved token ssh_key done t k json ne =
      let existing = existing_of (load dumps loads enc dec s) in
      let kept = keep_stored existing cfg in
      let e =
        saved_over-kept dumps loads enc dec reads cfg s (load dumps loads enc dec s) saved done in
      (
        completed dumps loads enc dec (text_of (get "token_secret" kept))
            (text_of (get "ssh_private_key" kept)) (non_secret kept),
        (
          ap (λ x. load dumps loads enc dec x.1) e
              ∙ load-persist dumps loads enc dec reads kept s (rw e at json) (rw e at ne),
          completed-kept dumps loads enc dec reads existing cfg token ssh_key
              (load-AreTexts dumps loads enc dec reads s) t k,
          ap (λ x. queue_paused x.1) e ∙ persist-queue_paused kept s,
        ),
      )
