-- ===== src/Handler/Creating.antt =====
-- dockerplugin/handler/create.go and mount.go: VolumeDriverCreate once the provider has made a volume,
-- and what is read of the options.
use common_host_libs.Prelude.{
  Bool, true, false, ◌||◌, List, [], ◌∷◌, ◌++◌, Option, none, some, String, lookup, insert,
  if◌then◌else◌,
}
use common_host_libs.Prelude.Text.{Text, codes, text_eq, to_lower, trim_space, is_nil}
use common_host_libs.Model.{Volume}
use common_host_libs.Handler.{
  string, parts, other, PluginRequest, Device, M, ◌>>=◌, pure, panic, call, Chapi, Provider,
}

abbrev pub has_key : String → PluginRequest → Bool
has_key key r = elim (lookup key r.opts) [ none ↦ false | some v ↦ true ]

unfoldable pub is_valid_delayed_create_opt : PluginRequest → Bool
is_valid_delayed_create_opt r =
    has_key "cloneOf" r || (has_key "importVolAsClone" r || has_key "importVol" r)

-- A value that is no string, or blank, gives the default.
unfoldable pub get_file_system_type_from_request : PluginRequest → Text
get_file_system_type_from_request r = elim (lookup "filesystem" r.opts) [
  | some (string s) ↦ (if is_nil (trim_space s) then codes "xfs" else s)
  | some (parts ss) ↦ codes "xfs"
  | some other ↦ codes "xfs"
  | none ↦ codes "xfs"
]

abbrev pub is_listed : Text → List Text → Bool
is_listed s [] = false
is_listed s (t ∷ ts) = text_eq t s || is_listed s ts

-- plugin.SupportedFileSystems of Linux
abbrev pub supported_file_systems : List Text
supported_file_systems =
    codes "xfs" ∷ codes "btrfs" ∷ codes "ext2" ∷ codes "ext3" ∷ codes "ext4" ∷ []

-- isValidFilesystem; `none` is the failure of its type assertion.
unfoldable pub is_valid_filesystem : PluginRequest → Option Bool
is_valid_filesystem r = elim (lookup "filesystem" r.opts) [
  | none ↦ some true
  | some (string s) ↦ some (is_listed (to_lower s) supported_file_systems)
  | some (parts ss) ↦ none
  | some other ↦ none
]

module _ {W : Type 0} (chapi : Chapi W) (provider : Provider W) where
  -- What AttachDevice has left when it fails: its first device, unless the slice is nil.
  abbrev attach_failed : Option (List Device) → Text → M W (Option Device × Option Text)
  attach_failed none m = pure (none, some m)
  attach_failed (some []) m = panic
  attach_failed (some (d ∷ ds)) m = pure (some d, some m)

  -- The volume without its file system's mount, whose directory is removed.
  abbrev made : Device → String → Option Text → M W (Option Device × Option Text)
  made d mount_point (some m) = pure (none, some m)
  made d mount_point none = do e ← call (chapi.remove_all mount_point); pure (some d, none)

  abbrev set_up : Device → Volume → Option Text → M W (Option Device × Option Text)
  set_up d v (some m) =
      pure (none, some (codes "unable to setup filesystem for device, err(" ++ (m ++ codes ")")))
  set_up d v none = do e ← call (chapi.unmount_device v); made d v.mount_point e

  -- With the volume, whose mount point is set as soon as there is a device.
  abbrev attached :
      Volume
      → String
      → Text
      → Option (List Device) × Option Text
      → M W ((Option Device × Option Text) × Volume)
  attached v mount_point fs (ds, some m) = do x ← attach_failed ds m; pure (x, v)
  attached v mount_point fs (none, none) =
      pure ((none, some (codes "unable to retrieve volume / device ")), v)
  attached v mount_point fs (some [], none) =
      pure ((none, some (codes "unable to retrieve volume / device ")), v)
  attached v mount_point fs (some (d ∷ ds), none) = do
    e ← call (chapi.setup_filesystem d (record v { mount_point = mount_point }) fs)
    x ← set_up d (record v { mount_point = mount_point }) e
    pure (x, record v { mount_point = mount_point })

  -- createFileSystemOnVolume for one volume, which is to be mounted at its mount_point.
  unfoldable pub create_file_system_on_volume :
      Volume → String → Text → M W ((Option Device × Option Text) × Volume)
  create_file_system_on_volume v mount_point fs = do
    a ← call (chapi.attach_device v)
    attached v mount_point fs a

  -- The device has the target scope of the volume.
  abbrev pub scoped : Volume → Device → Device
  scoped v d = record d { target_scope = v.target_scope }

  abbrev offline_scoped : Volume → Option Device → M W (Option Text)
  offline_scoped v none = pure none
  offline_scoped v (some d) = call (chapi.offline_device (scoped v d))

  -- The error behind the removal of the device, if there is one, and of the detachment otherwise.
  abbrev last_error : Volume → Option Device → Option Text → M W (Option Text)
  last_error v none e = pure e
  last_error v (some d) e = call (chapi.delete_device (scoped v d))

  -- The response: its text is that of `err`, which the steps of the cleanup have overwritten.
  abbrev pub responded : Option Text → M W Text
  responded none = panic
  responded (some m) = pure m

  abbrev by_force : PluginRequest → PluginRequest
  by_force r = record r { opts = insert "destroyOnRm" other r.opts }

  abbrev removed : PluginRequest → M W (Unit {0})
  removed r = do x ← call (provider.remove_volume (by_force r)); pure tt

  -- The cleanup behind a volume whose file system could not be made.
  unfoldable pub cleanup_create : Volume → PluginRequest → Option Device → M W Text
  cleanup_create v r device = do
    e1 ← offline_scoped v device
    e2 ← call (provider.nimble_detach v r)
    e3 ← last_error v device e2
    u ← removed r
    responded e3

  abbrev prefixed : String → Text → Text
  prefixed s m = codes s ++ m

  abbrev deleted : Option Text → M W Text
  deleted none = pure []
  deleted (some m) = pure (prefixed "unable to detach volume from host " m)

  abbrev detached : Volume → Device → Option Text → M W Text
  detached v d (some m) = pure (prefixed "unable to detach volume from array " m)
  detached v d none = do e ← call (chapi.delete_device (scoped v d)); deleted e

  abbrev went_offline : Volume → PluginRequest → Device → Option Text → M W Text
  went_offline v r d (some m) = pure (prefixed "unable to detach volume from host " m)
  went_offline v r d none = do e ← call (provider.nimble_detach v r); detached v d e

  -- A file system that is made without a device cannot be.
  abbrev pub formatted : Volume → PluginRequest → Option Device × Option Text → M W Text
  formatted v r (d, some m) = cleanup_create v r d
  formatted v r (none, none) = panic
  formatted v r (some d, none) = do
    e ← call (chapi.offline_device (scoped v d))
    went_offline v r d e

  -- VolumeDriverCreate behind a response with a new volume whose creation is not delayed: the error of
  -- the response, which is empty on success.
  unfoldable pub volume_driver_create : Volume → String → PluginRequest → M W Text
  volume_driver_create v mount_point r = do
    (x, v') ←
        create_file_system_on_volume (record v { connection_mode = "manual" }) mount_point
          (get_file_system_type_from_request r)
    formatted v' r x
