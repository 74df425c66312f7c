-- ===== src/Restore/Reaper.antt =====
-- `reap` of app/services/restore_server.py: it destroys what no run owns. `guests_of` lists the
-- guests of a kind on the host, `destroy` is the method of that name.
pub mod Safe
use backup_sentinel.Prelude.{filter, contains, ℕ, not, List, [], ◌∷◌, ◌++◌, nat_eq, string_eq}
use backup_sentinel.Restore.Effect.{Act, pure, ◌>>=◌, ◌>>◌}
use backup_sentinel.Restore.Worker.{Guest, qemu, lxc, owned_vmids}

unfoldable pub select_reaper_targets : List ℕ → List ℕ → List ℕ
select_reaper_targets guests owned_vmids = filter (λ g. not (contains owned_vmids g)) guests

module _ {H : Type 0} (guests_of : Guest → Act H (List ℕ)) (destroy : ℕ → Guest → Act H Unit) where
  -- the inner loop, with the vmids destroyed so far
  unfoldable pub destroy_all : Guest → List ℕ → List ℕ → Act H (List ℕ)
  destroy_all kind [] destroyed = pure destroyed
  destroy_all kind (vmid ∷ targets) destroyed = do
    destroy vmid kind
    destroy_all kind targets (destroyed ++ vmid ∷ [])

  unfoldable pub reap_kind : List ℕ → Guest → List ℕ → Act H (List ℕ)
  reap_kind owned_vmids kind destroyed = do
    guests ← guests_of kind
    destroy_all kind (select_reaper_targets guests owned_vmids) destroyed

  unfoldable pub reap : List ℕ → Act H (List ℕ)
  reap owned_vmids = do
    destroyed ← reap_kind owned_vmids qemu []
    reap_kind owned_vmids lxc destroyed
