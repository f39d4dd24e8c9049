-- ===== src/Handler/Delays.antt =====
-- dockerplugin/handler/mount.go and remove.go: how the polling of the provider ends.
use common_host_libs.Prelude.{
  ℕ, zero, suc, ◌≡◌, refl, ap, ◌∙◌, ◌≢◌, ◌⊎◌, inl, inr, Bool, true, false, if◌then◌else◌, List, [],
  ◌∷◌, Option, none, some, Dict,
}
use common_host_libs.Model.{Volume, FcSession, IscsiSession}
use common_host_libs.Handler.{PluginRequest, Chapi, Provider, get_volume_info}
use common_host_libs.Handler.Attached.{is_current_host_attached_fc, is_current_host_attached_iscsi}
use common_host_libs.Handler.Waiting.{
  Event, tick, returned, Status, attached_in, is_attached, is_over, poll_mount,
  process_mount_conflict_delay, process_delete_conflict_delay,
}

abbrev pub ticks : ℕ → List Event → List Event
ticks zero es = es
ticks (suc n) es = tick ∷ ticks n es

module _ {W : Type 0} (chapi : Chapi W) (provider : Provider W) (r : PluginRequest) where
  -- This host is not attached: by FC, and, where there is no FC session, not by iSCSI either.
  abbrev pub NotAttached : Volume → Type 0
  NotAttached v =
      (is_current_host_attached_fc v r.host ≡ false)
      × ((v.fc_sessions ≢ []) ⊎ (is_current_host_attached_iscsi v r.host ≡ false))

  -- A request for the volume has failed, or has found it in use and not attached to this host.
  abbrev pub IsBusy : Option Volume → Type 0
  IsBusy none = Unit {0}
  IsBusy (some v) = (v.in_use ≡ true) × NotAttached v

  -- From the state w, that many requests in a row find the volume so, and lead to the other state.
  abbrev pub StaysBusy : ℕ → W → W → Type 0
  StaysBusy zero w w' = w ≡ w'
  StaysBusy (suc n) w w' =
      IsBusy (provider.nimble_volume_info r w).0
      × StaysBusy n (provider.nimble_volume_info r w).1 w'

  attached_in-NotAttached :
      (fs : List FcSession) (is : List IscsiSession) (v : Volume)
      → is_current_host_attached_fc v r.host ≡ false
      → (fs ≢ []) ⊎ (is_current_host_attached_iscsi v r.host ≡ false)
      → attached_in chapi provider r fs is v ≡ false
  attached_in-NotAttached (f ∷ fs) is v h k = h
  attached_in-NotAttached [] (i ∷ is) v h (inl k) = absurd (k refl)
  attached_in-NotAttached [] (i ∷ is) v h (inr k) = k
  attached_in-NotAttached [] [] v h k = refl

  is_over-IsBusy : (o : Option Volume) → IsBusy o → is_over chapi provider r o ≡ false
  is_over-IsBusy none h = refl
  is_over-IsBusy (some v) (u, (h, k)) =
      ap (λ (b : Bool). if b then is_attached chapi provider r v else true) u
      ∙ attached_in-NotAttached v.fc_sessions v.iscsi_sessions v h k

  poll_mount-ticks :
      (n : ℕ) (es : List Event) (w w' : W)
      → StaysBusy n w w'
      → poll_mount chapi provider r (ticks n es) w ≡ poll_mount chapi provider r es w'
  unfolding poll_mount
  poll_mount-ticks zero es w w' b = ap (poll_mount chapi provider r es) b
  poll_mount-ticks (suc n) es w w' b =
      rw (poll_mount, is_over-IsBusy (provider.nimble_volume_info r w).0 b.0)
        (poll_mount-ticks n es (provider.nimble_volume_info r w).1 w' b.1)

  process_mount_conflict_delay-ticks :
      (v : Volume) (n : ℕ) (es : List Event) (w w' : W)
      → (provider.nimble_volume_info r w).0 ≡ some v
      → v.in_use ≡ true
      → StaysBusy n (provider.nimble_volume_info r w).1 w'
      → process_mount_conflict_delay chapi provider r (ticks n es) w
        ≡ poll_mount chapi provider r es w'
  unfolding process_mount_conflict_delay
  process_mount_conflict_delay-ticks v n es w w' p u b =
      rw (process_mount_conflict_delay, p, u)
        (poll_mount-ticks n es (provider.nimble_volume_info r w).1 w' b)

  -- A tick behind such ticks that shows the volume to be free, or attached to this host, ends the wait
  -- without that request.
  pub process_mount_conflict_delay_over :
      (v : Volume) (n : ℕ) (es : List Event) (w w' : W)
      → (provider.nimble_volume_info r w).0 ≡ some v
      → v.in_use ≡ true
      → StaysBusy n (provider.nimble_volume_info r w).1 w'
      → is_over chapi provider r (provider.nimble_volume_info r w').0 ≡ true
      → process_mount_conflict_delay chapi provider r (ticks n (tick ∷ es)) w
        ≡ (some returned, (provider.nimble_volume_info r w').1)
  unfolding poll_mount
  process_mount_conflict_delay_over v n es w w' p u b o =
      process_mount_conflict_delay-ticks v n (tick ∷ es) w w' p u b ∙ rw (poll_mount, o) refl

  -- A tick on which the volume is not found makes the wait for its deletion read a nil volume and panic.
  pub process_delete_conflict_delay_missing :
      (maps : ℕ → Dict Status) (es : List Event) (w : W)
      → (get_volume_info provider r w).0 ≡ none
      → process_delete_conflict_delay chapi provider r maps (tick ∷ es) w
        ≡ (none, (get_volume_info provider r w).1)
  unfolding process_delete_conflict_delay
  process_delete_conflict_delay_missing maps es w p = rw (process_delete_conflict_delay, p) refl
