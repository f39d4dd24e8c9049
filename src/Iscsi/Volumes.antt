-- ===== src/Iscsi/Volumes.antt =====
-- linux/iscsi.go: the login to the targets of a volume.
use common_host_libs.Prelude.{not, List, [], ◌∷◌, ◌++◌, length, ltb, if◌then◌else◌}
use common_host_libs.Prelude.Text.{Text, codes, text_eq, joined}
use common_host_libs.Prelude.Effects.{M, ◌>>=◌, pure, fail, wrap}
use common_host_libs.Iscsi.{IscsiTarget, Iface, ChapInfo, Volume, Host, target_names}
use common_host_libs.Iscsi.Targets.{get_iscsi_nodes_from_iscsiadm}
use common_host_libs.Iscsi.Discovery.{get_reachable_discovery_portals, perform_discovery}
use common_host_libs.Iscsi.Login.{chap_of, update_chap_user, update_chap_password, login_to_target}
use common_host_libs.Iscsi.Ifaces.{get_ifaces}

module _ {W : Type 0} (host : Host W) where
  -- The logins to the targets of a volume, the error of each of which would end the loop.
  unfoldable pub login_to_all :
      List IscsiTarget → List Text → List Iface → ChapInfo → Text → M W (Unit {0})
  login_to_all targets [] ifaces chap mode = pure tt
  login_to_all targets (iqn ∷ iqns) ifaces chap mode = do
    x ←
        wrap (λ m. codes "unable to login to target: " ++ (iqn ++ (codes ", Error: " ++ m)))
          (login_to_target host targets iqn ifaces chap mode)
    login_to_all targets iqns ifaces chap mode

  abbrev pub login_at : Volume → List Text → M W (Unit {0})
  login_at v [] = fail (
      codes "none of the discovery portals provided [["
      ++ (joined v.discovery_ips ++ codes "]] are reachable"))
  login_at v (p ∷ ps) = do
    targets ← perform_discovery host (p ∷ ps)
    ifaces ←
        wrap (λ m. codes "unable to retrieve iSCSI bound ifaces. Error: " ++ m) (get_ifaces host)
    login_to_all targets (target_names v) ifaces (chap_of v.chap) v.connection_mode

  unfoldable pub login_to_volume : Volume → M W (Unit {0})
  login_to_volume v = do
    portals ←
        get_reachable_discovery_portals host v.discovery_ips (not (ltb 1 (length (target_names v))))
    login_at v portals

  unfoldable pub chap_updated : Text → ChapInfo → List IscsiTarget → M W (Unit {0})
  chap_updated name chap [] = pure tt
  chap_updated name chap (t ∷ ts) =
      let later = chap_updated name chap ts in
      if text_eq t.name name
      then (do
        e ← update_chap_user host t chap.name
        e' ← update_chap_password host t chap.password
        later)
      else later

  unfoldable pub chap_updated_all : List Text → ChapInfo → List IscsiTarget → M W (Unit {0})
  chap_updated_all [] chap nodes = pure tt
  chap_updated_all (name ∷ names) chap nodes = do
    x ← chap_updated name chap nodes
    chap_updated_all names chap nodes

  unfoldable pub update_chap_for_logged_in_targets : Volume → M W (Unit {0})
  update_chap_for_logged_in_targets v = do
    nodes ← get_iscsi_nodes_from_iscsiadm host
    chap_updated_all (target_names v) (chap_of v.chap) nodes
