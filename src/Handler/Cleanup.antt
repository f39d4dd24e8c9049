-- ===== src/Handler/Cleanup.antt =====
-- dockerplugin/handler: what the handlers undo when a step fails.
use common_host_libs.Prelude.{
  ◌≡◌, refl, ap, ◌∙◌, false, true, List, [], ◌∷◌, Option, none, some, String, ◌⊎◌, inl, inr, arith,
}
use common_host_libs.Prelude.Text.{Text}
use common_host_libs.Model.{Volume}
use common_host_libs.Handler.{
  PluginRequest, Device, Mount, then_run, Chapi, Provider, get_volume_info,
}
use common_host_libs.Handler.Attached.{is_current_host_attached_iscsi, is_current_host_attached_fc}
use common_host_libs.Handler.Mounting.{
  is_harmless, unmount_all, cleanup_stale_mounts, is_free, stale_of, stale_on,
}
use common_host_libs.Handler.Creating.{
  cleanup_create, create_file_system_on_volume, volume_driver_create, formatted, responded,
  get_file_system_type_from_request,
}

module _ {W : Type 0} (chapi : Chapi W) (provider : Provider W) where
  responded-none : (o : Option Text) (w : W) → o ≡ none → (responded chapi provider o w).0 ≡ none
  responded-none none w e = refl
  responded-none (some m) w e = ground (arith, e)

  cleanup_create-none :
      (v : Volume) (r : PluginRequest) (device : Option Device) (w : W)
      → ((d : Device) (u : W) → (chapi.delete_device d u).0 ≡ none)
      → ((u : W) → (provider.nimble_detach v r u).0 ≡ none)
      → (cleanup_create chapi provider v r device w).0 ≡ none
  unfolding cleanup_create
  cleanup_create-none v r none w p q = responded-none _ _ (q w)
  cleanup_create-none v r (some d) w p q = responded-none _ _ (p _ _)

  -- If the file system of a new volume cannot be made and no step of the cleanup behind that fails, the
  -- handler reads the text of a nil error and panics, whatever the first error was.
  pub volume_driver_create_panics :
      (v u : Volume) (mount_point : String) (r : PluginRequest) (device : Option Device) (m : Text)
      (w w' : W)
      → create_file_system_on_volume chapi provider
          (record v { connection_mode = "manual" })
          mount_point
          (get_file_system_type_from_request r)
          w
        ≡ (some ((device, some m), u), w')
      → ((d : Device) (x : W) → (chapi.delete_device d x).0 ≡ none)
      → ((x : W) → (provider.nimble_detach u r x).0 ≡ none)
      → (volume_driver_create chapi provider v mount_point r w).0 ≡ none
  unfolding volume_driver_create
  volume_driver_create_panics v u mount_point r device m w w' e p q =
      ap (λ x. (then_run x (λ y. formatted chapi provider y.1 r y.0)).0) e
      ∙ cleanup_create-none u r device w' p q

  -- Where a mount cannot be unmounted, and the error does not have both of the texts that the code looks
  -- for, the loop over the mounts panics at its log line.
  pub unmount_all_panics :
      (m : Mount) (ms : List Mount) (v : Volume) (device : Device) (w : W) (e : Text)
      → (chapi.unmount m w).0 ≡ some e
      → is_harmless e ≡ false
      → unmount_all chapi provider (m ∷ ms) v device w ≡ (none, (chapi.unmount m w).1)
  unfolding unmount_all
  unmount_all_panics m ms v device w e p q = rw (p, q) refl

  stale_on_attached :
      (r : PluginRequest) (v : Volume) (mounts : List Mount) (d : Option Device) (w : W)
      → is_free chapi provider r v ≡ false
      → (stale_on chapi provider r v mounts d w).1 ≡ w
  stale_on_attached r v mounts none w q = refl
  stale_on_attached r v mounts (some d) w q = rw q refl

  stale_of_attached :
      (r : PluginRequest) (v : Volume) (mounts : List Mount) (w : W)
      → is_free chapi provider r v ≡ false
      → ((stale_of chapi provider r v mounts w).1 ≡ w)
        ⊎ ((stale_of chapi provider r v mounts w).1 ≡ (chapi.get_device_from_volume v w).1)
  stale_of_attached r v [] w q = inl refl
  stale_of_attached r v (m ∷ ms) w q = inr (
      stale_on_attached r v (m ∷ ms) (chapi.get_device_from_volume v w).0
        (chapi.get_device_from_volume v w).1 q)

  -- The state behind the two questions for the volume and its mounts.
  abbrev pub asked : PluginRequest → Volume → W → W
  asked r v w = (chapi.get_mounts v.serial_number (get_volume_info provider r w).1).1

  cleanup_stale_mounts_found :
      (r : PluginRequest) (v : Volume) (w : W)
      → (get_volume_info provider r w).0 ≡ some v
      → cleanup_stale_mounts chapi provider r w
        ≡ stale_of chapi provider r v
            (chapi.get_mounts v.serial_number (get_volume_info provider r w).1).0
            (asked r v w)
  unfolding cleanup_stale_mounts
  cleanup_stale_mounts_found r v w p = rw (cleanup_stale_mounts, p) refl

  -- If the volume is in use and this host is attached to it by iSCSI or by FC, cleanupStaleMounts
  -- unmounts and deletes nothing: it asks for the volume, for its mounts and, at most, for its device.
  pub cleanup_stale_mounts_attached :
      (r : PluginRequest) (v : Volume) (w : W)
      → (get_volume_info provider r w).0 ≡ some v
      → v.in_use ≡ true
      → (is_current_host_attached_iscsi v r.host ≡ true)
        ⊎ (is_current_host_attached_fc v r.host ≡ true)
      → ((cleanup_stale_mounts chapi provider r w).1 ≡ asked r v w)
        ⊎ ((cleanup_stale_mounts chapi provider r w).1
            ≡ (chapi.get_device_from_volume v (asked r v w)).1)
  cleanup_stale_mounts_attached r v w p u a = rw (cleanup_stale_mounts_found r v w p) (
      stale_of_attached r v (chapi.get_mounts v.serial_number (get_volume_info provider r w).1).0
        (asked r v w) (free_attached a))
    where
      free_attached :
          (is_current_host_attached_iscsi v r.host ≡ true)
            ⊎ (is_current_host_attached_fc v r.host ≡ true)
          → is_free chapi provider r v ≡ false
      free_attached (inl e) = ground (arith, u, e)
      free_attached (inr e) = ground (arith, u, e)
