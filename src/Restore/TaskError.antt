-- ===== src/Restore/TaskError.antt =====
-- `backup_error_hint` and `classify_task_error` of app/services/restore_server.py: what is said of a
-- task that failed.
use text.Mathlib.Text.{starts_with}
use backup_sentinel.Prelude.{
  if◌then◌else◌, ◌==◌, any, String, string_append, Bool, ◌||◌, List, [], ◌∷◌, nat_eq, string_eq,
}
use backup_sentinel.Prelude.Dict.{keys}
use backup_sentinel.Prelude.Text.{strip, lower}
use backup_sentinel.Restore.Names.{first_chars}

abbrev pub mentions : String → String → Bool
mentions String.[] key = key == ""
mentions (String.◌∷◌ c text) key =
    let rest = mentions text key in starts_with (String.◌∷◌ c text) key || rest

abbrev mentions_any : List String → String → Bool
mentions_any keys text = any (mentions text) keys

unfoldable pub backup_error_hint : String → String
backup_error_hint text =
    let t = lower text in
    if mentions_any ("decrypt" ∷ "encryption key" ∷ "wrong key" ∷ []) t
    then string_append
        "backup decryption failed — the PBS encryption key on the restore host does not match "
        "this backup's key (check the datastore/namespace key)"
    else if mentions_any
        ("permission" ∷ "access denied" ∷ "not allowed" ∷ "403 forbidden" ∷ "no permission" ∷ []) t
    then "permission denied reading the backup — check the PBS user's rights on this datastore/namespace"
    else if mentions_any
        ("fingerprint" ∷ "certificate verify" ∷ "self signed" ∷ "self-signed" ∷ "tls error" ∷ []) t
    then "PBS server certificate could not be verified (fingerprint/cert mismatch)"
    else if mentions_any
        ("connection refused" ∷ "timed out" ∷ "no route to host" ∷ "could not resolve" ∷ []) t
    then "could not reach the PBS server (connection/DNS)"
    else ""

abbrev detail_of : String → String → String
detail_of exit_status log_tail =
    first_chars 600 (if strip log_tail == "" then strip exit_status else strip log_tail)

unfoldable pub classify_task_error : String → String → String
unfolding backup_error_hint
classify_task_error exit_status log_tail =
    let hint = backup_error_hint log_tail in
    let detail = detail_of exit_status log_tail in
    if hint == ""
    then string_append "restore task failed: " detail
    else string_append hint (string_append ": " detail)
