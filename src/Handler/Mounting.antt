-- ===== src/Handler/Mounting.antt =====
-- dockerplugin/handler/mount.go: mountVolumeOnHost, cleanupStaleMounts and cleanupMountFailure.
use common_host_libs.Prelude.{
  Bool, false, not, ◌&&◌, ◌||◌, List, [], ◌∷◌, ◌++◌, Option, none, some, String, str_eq,
  if◌then◌else◌,
}
use common_host_libs.Prelude.Text.{Text, codes, contains, to_lower, text_eq}
use common_host_libs.Model.{Volume}
use common_host_libs.Handler.{
  PluginRequest, Device, Mount, M, ◌>>=◌, pure, panic, call, Chapi, Provider, get_volume_info,
}
use common_host_libs.Handler.Attached.{is_current_host_attached_iscsi, is_current_host_attached_fc}

pub record MountResponse : Type 0 where
  pub mount_point : String
  pub err : Text

-- A mount at the place whose device has neither failed nor a conflict of its LUN ID.
abbrev pub is_sound : Option Device → Bool
is_sound none = false
is_sound (some d) = not (str_eq d.state "failed") && not (str_eq d.state "lunidconflict")

abbrev pub is_mounted : String → List Mount → Bool
is_mounted place [] = false
is_mounted place (m ∷ ms) = (str_eq m.mountpoint place && is_sound m.device) || is_mounted place ms

abbrev pub mount_result : String → Option Text → MountResponse
mount_result place none = record { mount_point = place; err = [] }
mount_result place (some m) = record { mount_point = ""; err = m }

-- The errors of an unmount that do not matter.
abbrev pub is_harmless : Text → Bool
is_harmless m =
    contains (to_lower m) (codes "not mounted")
    && contains (to_lower m) (codes "no such file or directory")

module _ {W : Type 0} (chapi : Chapi W) (provider : Provider W) where
  -- The directory is that of plugin.MountDir with the name of the volume.
  unfoldable pub mount_volume_on_host :
      List Mount → Volume → (mount_point directory : String) → M W MountResponse
  mount_volume_on_host mounts v mount_point directory =
      if is_mounted mount_point mounts
      then pure (record { mount_point = mount_point; err = [] })
      else (do
        e ← call (chapi.attach_and_mount_device v directory)
        pure (mount_result mount_point e))

  abbrev delete_in_scope : Volume → Device → M W (Unit {0})
  delete_in_scope v device =
      if str_eq v.access_protocol "fc" || str_eq v.target_scope "group"
      then (do e ← call (chapi.delete_device device); pure tt)
      else pure tt

  abbrev after_unmount : Option Text → Volume → Device → M W (Option Text) → M W (Option Text)
  after_unmount none v device later = do u ← delete_in_scope v device; later
  after_unmount (some m) v device later =
      if is_harmless m then (do u ← delete_in_scope v device; later) else panic

  -- The loop over the mounts; the log line on a failed unmount calls a method of `err`, which is nil.
  unfoldable pub unmount_all : List Mount → Volume → Device → M W (Option Text)
  unmount_all [] v device = pure none
  unmount_all (m ∷ ms) v device = do
    e ← call (chapi.unmount m)
    after_unmount e v device (unmount_all ms v device)

  abbrev pub is_free : PluginRequest → Volume → Bool
  is_free r v =
      not v.in_use
      || (not (is_current_host_attached_iscsi v r.host)
          && not (is_current_host_attached_fc v r.host))

  -- The error leaves out the mounts, which the code prints too.
  abbrev pub stale_on : PluginRequest → Volume → List Mount → Option Device → M W (Option Text)
  stale_on r v mounts none =
      pure
        (some (codes "unable to retrieve device for existing mounts for volume " ++ codes v.name))
  stale_on r v mounts (some device) = if is_free r v then unmount_all mounts v device else pure none

  abbrev pub stale_of : PluginRequest → Volume → List Mount → M W (Option Text)
  stale_of r v [] = pure none
  stale_of r v (m ∷ ms) = do d ← call (chapi.get_device_from_volume v); stale_on r v (m ∷ ms) d

  unfoldable pub cleanup_stale_mounts : PluginRequest → M W (Option Text)
  cleanup_stale_mounts r = do
    info ← call (get_volume_info provider r)
    elim info [
      | none ↦
          pure
            (some (codes "unable to find volume " ++ (codes r.name ++ codes ", failing request")))
      | some v ↦ (do mounts ← call (chapi.get_mounts v.serial_number); stale_of r v mounts)
    ]

  -- Offline, and later delete, the device if there is one; errors are only logged.
  abbrev offline : Option Device → M W (Option Text)
  offline none = pure none
  offline (some d) = call (chapi.offline_device d)

  abbrev delete : Option Device → M W (Option Text)
  delete none = pure none
  delete (some d) = call (chapi.delete_device d)

  unfoldable pub cleanup_mount_failure : Volume → String → PluginRequest → M W (Option Text)
  cleanup_mount_failure v mount_point r = do
    device ← call (chapi.get_device_from_volume v)
    removed ← call (chapi.remove_all mount_point)
    elim removed [
      | some m ↦ pure (some m)
      | none ↦ (do
        (response, e) ← call (provider.unmount_volume r)
        elim e [
          | some m ↦ pure (some m)
          | none ↦ if text_eq response.message (codes "donotunmount") then pure none else (do
            e1 ← offline device
            e2 ← call (provider.nimble_detach v r)
            e3 ← delete device
            pure none)
        ])
    ]
