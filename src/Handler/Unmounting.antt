-- ===== src/Handler/Unmounting.antt =====
-- dockerplugin/handler/unmount.go and remove.go: VolumeDriverUnmount and VolumeDriverRemove once the
-- request and the clients are there. A handler gives the error of its response, which is empty on
-- success. The lock of the volume's name and the channel that bounds the requests are left out.
use common_host_libs.Prelude.{not, [], ◌∷◌, Option, none, some, str_eq, if◌then◌else◌}
use common_host_libs.Prelude.Text.{Text, codes, text_eq, contains, is_nil}
use common_host_libs.Handler.{
  string, PluginRequest, VolumeUnmountResponse, Device, M, ◌>>=◌, pure, call, Chapi, Provider,
}

module _ {W : Type 0} (chapi : Chapi W) (provider : Provider W) where
  abbrev for_destruction : PluginRequest → PluginRequest
  for_destruction r = record r { preferences = ("destroyOnDetach", string (codes "true")) ∷ [] }

  -- The last step: the error of the request itself is only logged.
  abbrev destroyed : PluginRequest → VolumeUnmountResponse → M W Text
  destroyed r response =
      if text_eq response.message (codes "destroyondetach")
      then (do x ← call (provider.remove_volume (for_destruction r)); pure x.0)
      else pure []

  abbrev after_delete : PluginRequest → VolumeUnmountResponse → Option Text → M W Text
  after_delete r response none = destroyed r response
  after_delete r response (some m) =
      if contains m (codes "object was not found on the system")
      then destroyed r response
      else pure m

  abbrev after_detach :
      PluginRequest → VolumeUnmountResponse → Option Device → Option Text → M W Text
  after_detach r response device (some m) = pure m
  after_detach r response none none = destroyed r response
  after_detach r response (some d) none = do
    e ← call (chapi.delete_device d)
    after_delete r response e

  abbrev pub detach_step : PluginRequest → VolumeUnmountResponse → Option Device → M W Text
  detach_step r response device = do
    e ← call (provider.nimble_detach response.volume r)
    after_detach r response device e

  -- An error of the offlining counts only for a volume of group scope.
  abbrev after_offline : PluginRequest → VolumeUnmountResponse → Device → Option Text → M W Text
  after_offline r response d none = detach_step r response (some d)
  after_offline r response d (some m) =
      if str_eq response.volume.target_scope "group"
      then pure m
      else detach_step r response (some d)

  abbrev pub offline_step : PluginRequest → VolumeUnmountResponse → Option Device → M W Text
  offline_step r response none = detach_step r response none
  offline_step r response (some d) = do
    e ← call (chapi.offline_device d)
    after_offline r response d e

  abbrev after_unmount : PluginRequest → VolumeUnmountResponse → Option Text → M W Text
  after_unmount r response (some m) = pure m
  after_unmount r response none = do
    device ← call (chapi.get_device_from_volume response.volume)
    offline_step r response device

  abbrev answered : PluginRequest → VolumeUnmountResponse × Option Text → M W Text
  answered r (response, e) = if not (is_nil response.err) then pure response.err else elim e [
    | some m ↦ pure m
    | none ↦
        if text_eq response.message (codes "donotunmount")
        then pure []
        else (do x ← call (chapi.unmount_device response.volume); after_unmount r response x)
  ]

  unfoldable pub volume_driver_unmount : PluginRequest → M W Text
  volume_driver_unmount r = do x ← call (provider.unmount_volume r); answered r x
