-- ===== src/Handler/Waiting.antt =====
-- dockerplugin/handler/mount.go and remove.go: processMountConflictDelay and processDeleteConflictDelay,
-- which poll the provider on each tick of a clock until a timeout, and VolumeDriverRemove behind the
-- latter. Which channel a select finds ready next is a list of events; the maps that hold the status of
-- a volume are a parameter, as in Storage.
use common_host_libs.Prelude.{
  ℕ, Bool, true, false, not, List, [], ◌∷◌, Option, none, some, Dict, lookup, if◌then◌else◌,
}
use common_host_libs.Prelude.Text.{Text, is_nil}
use common_host_libs.Model.{MapRef, Volume, FcSession, IscsiSession}
use common_host_libs.Handler.{
  PluginRequest, VolumeResponse, Device, M, ◌>>=◌, pure, panic, call, Chapi, Provider,
  get_volume_info,
}
use common_host_libs.Handler.Attached.{is_current_host_attached_iscsi, is_current_host_attached_fc}

pub data Event : Type 0 where
  tick timeout : Event

-- Whether a loop has returned, or waits for another event.
pub data Wait : Type 0 where
  returned waiting : Wait

-- A value in a status map: a Boolean, or a value of another type.
pub data Status : Type 0 where
  flag : Bool → Status
  something : Status

abbrev pub status_of : (ℕ → Dict Status) → MapRef → Option Status
status_of maps none = none
status_of maps (some a) = lookup "inUse" (maps a)

module _ {W : Type 0} (chapi : Chapi W) (provider : Provider W) (r : PluginRequest) where
  -- What is asked on a tick: the sessions of one protocol, FC first.
  abbrev pub attached_in : List FcSession → List IscsiSession → Volume → Bool
  attached_in (s ∷ ss) is v = is_current_host_attached_fc v r.host
  attached_in [] (s ∷ ss) v = is_current_host_attached_iscsi v r.host
  attached_in [] [] v = false

  abbrev pub is_attached : Volume → Bool
  is_attached v = attached_in v.fc_sessions v.iscsi_sessions v

  -- Whether the wait for other hosts ends with what a tick has shown; `none` is an error.
  abbrev pub is_over : Option Volume → Bool
  is_over none = false
  is_over (some v) = if v.in_use then is_attached v else true

  abbrev reset : M W Wait
  reset w = (some returned, provider.remove_mount_conflict_metadata r w)

  unfoldable pub poll_mount : List Event → M W Wait
  poll_mount [] = pure waiting
  poll_mount (timeout ∷ es) = reset
  poll_mount (tick ∷ es) = do
    info ← call (provider.nimble_volume_info r)
    if is_over info then pure returned else poll_mount es

  unfoldable pub process_mount_conflict_delay : List Event → M W Wait
  process_mount_conflict_delay es = do
    info ← call (provider.nimble_volume_info r)
    elim info [
      | none ↦ pure returned
      | some v ↦ (if v.in_use then poll_mount es else pure returned)
    ]

  module _ (maps : ℕ → Dict Status) where
    -- A volume that is not found is nil, and has no status.
    abbrev on_tick : Option Volume → M W Wait → M W Wait
    on_tick none later = panic
    on_tick (some v) later = elim (status_of maps v.status) [
      | none ↦ pure returned
      | some something ↦ later
      | some (flag b) ↦ (if b then later else pure returned)
    ]

    unfoldable pub process_delete_conflict_delay : List Event → M W Wait
    process_delete_conflict_delay [] = pure waiting
    process_delete_conflict_delay (timeout ∷ es) = pure returned
    process_delete_conflict_delay (tick ∷ es) = do
      info ← call (get_volume_info provider r)
      on_tick info (process_delete_conflict_delay es)

    abbrev offline_best : Option Device → M W (Option Text)
    offline_best none = pure none
    offline_best (some d) = call (chapi.offline_device d)

    abbrev delete_best : Option Device → M W (Option Text)
    delete_best none = pure none
    delete_best (some d) = call (chapi.delete_device d)

    abbrev remove_result : Text × Option Text → Text
    remove_result (m, none) = m
    remove_result (m, some e) = e

    -- The host and the array, and then the volume itself; `some` of the error of the response.
    abbrev remove_steps : Volume → M W (Option Text)
    remove_steps v = do
      e ← call (chapi.unmount_device v)
      elim e [
        | some m ↦ pure (some m)
        | none ↦ (do
          device ← call (chapi.get_device_from_volume v)
          e1 ← offline_best device
          e2 ← call (provider.nimble_detach v r)
          e3 ← delete_best device
          x ← call (provider.remove_volume r)
          pure (some (remove_result x)))
      ]

    abbrev delayed : Volume → Wait → M W (Option Text)
    delayed v waiting = pure none
    delayed v returned = remove_steps v

    -- Only a volume that is in use is waited for.
    abbrev removal : List Event → Volume → M W (Option Text)
    removal es v = elim (status_of maps v.status) [
      | none ↦ remove_steps v
      | some something ↦ remove_steps v
      | some (flag b) ↦
          if b then (do wait ← process_delete_conflict_delay es; delayed v wait) else remove_steps v
    ]

    abbrev found : List Event → VolumeResponse × Option Text → M W (Option Text)
    found es (response, e) =
        if not (is_nil response.err) then pure (some response.err) else elim e [
          | some m ↦ pure (some m)
          | none ↦ elim response.volume [ none ↦ panic | some v ↦ removal es v ]
        ]

    -- `none` is a handler that still waits.
    unfoldable pub volume_driver_remove : List Event → M W (Option Text)
    volume_driver_remove es = do x ← call (provider.get r); found es x
