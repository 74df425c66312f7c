-- ===== src/Restore/Destroy.antt =====
-- `destroy` of app/services/restore_server.py, with `unlock` and `_is_running`, over the calls of
-- the API and of the root shell of the restore host.
pub mod Laws
use backup_sentinel.Prelude.{
  if◌then◌else◌, ◌==◌, ℕ, zero, suc, String, Bool, false, Option, none, some, nat_eq, string_eq,
}
use backup_sentinel.Restore.Effect.{Act, pure, ◌>>◌, attempt, ◌>>=◌}
use backup_sentinel.Restore.Worker.{Guest}

pub record HostApi (H : Type 0) : Type 0 where
  -- `self.node()`
  pub node : Act H String
  -- `qm unlock`, `pct unlock`
  pub shell_unlock : Guest → ℕ → Act H Unit
  -- the requests of a guest by its node: `status/stop`, `status/current` with the status that the
  -- answer has, if any, and the deletion
  pub post_stop : String → Guest → ℕ → Act H Unit
  pub get_status : String → Guest → ℕ → Act H (Option String)
  pub delete_guest : String → Guest → ℕ → Act H Unit
  pub sleep : ℕ → Act H Unit

abbrev pub says_running : Option String → Bool
says_running none = false
says_running (some status) = status == "running"

module _ {H : Type 0} (api : HostApi H) (vmid : ℕ) (kind : Guest) where
  unfoldable pub unlock : Act H Unit
  unlock = attempt tt (api.shell_unlock kind vmid)

  unfoldable pub is_running : Act H Bool
  is_running =
      attempt false
        (do node ← api.node; status ← api.get_status node kind vmid; pure (says_running status))

  -- the `for` loop, with the attempts that are left
  unfoldable pub await_down : ℕ → Act H Unit
  await_down zero = pure tt
  await_down (suc attempts) = do
    still ← is_running
    if still then api.sleep 1 >> await_down attempts else pure tt

  unfoldable pub destroy : Act H Unit
  destroy = do
    node ← api.node
    unlock
    attempt tt (api.post_stop node kind vmid)
    await_down 30
    api.delete_guest node kind vmid
