-- ===== src/Iscsi/Unnamed.antt =====
-- linux/iscsi.go, HandleIscsiDiscovery: a volume whose one target stands in Iqn.
use common_host_libs.Prelude.{◌≡◌, refl, ap, ◌∙◌, false, true, List, [], ◌∷◌, ◌++◌}
use common_host_libs.Prelude.Text.{Text, codes, text_eq, to_lower}
use common_host_libs.Prelude.Effects.{ok, then_run, pure, wrapped}
use common_host_libs.Iscsi.{Host, Volume, target_names}
use common_host_libs.Iscsi.Targets.{
  get_logged_in_iscsi_targets, are_targets_logged_in, get_iscsi_nodes_from_iscsiadm, all_in,
}
use common_host_libs.Iscsi.Login.{chap_of}
use common_host_libs.Iscsi.Handling.{
  rescanned, backend_handled, primary_volume, handle_iscsi_discovery_for_backend,
  secondaries_handled, handle_iscsi_discovery,
}
use common_host_libs.Iscsi.Volumes.{update_chap_for_logged_in_targets, chap_updated_all}

module _ {W : Type 0} (host : Host W) where
  no_targets :
      (w w1 : W) (ts : List Text)
      → get_logged_in_iscsi_targets host w ≡ (ok ts, w1)
      → are_targets_logged_in host [] w ≡ (ok true, w1)
  unfolding are_targets_logged_in
  no_targets w w1 ts e = ap (λ r. then_run r (λ l. pure (all_in host [] l))) e

  abbrev pub nodes_read : W → W
  nodes_read w = (host.exec (codes "iscsiadm") (codes "-m" ∷ codes "node" ∷ []) w).1

  rescanned_not :
      (u : Volume) (w : W)
      → text_eq (to_lower u.target_scope) (codes "group") ≡ false
      → rescanned host u w ≡ (ok tt, w)
  rescanned_not u w g = rw g refl

  chap_updated_none :
      (u : Volume) (w : W)
      → target_names u ≡ []
      → update_chap_for_logged_in_targets host u w ≡ (ok tt, nodes_read w)
  unfolding update_chap_for_logged_in_targets get_iscsi_nodes_from_iscsiadm chap_updated_all
  chap_updated_none u w i =
      ap
        (λ names.
          then_run (get_iscsi_nodes_from_iscsiadm host w)
            (chap_updated_all host names (chap_of u.chap)))
        i

  backend_unnamed :
      (u : Volume) (w w1 : W) (ts : List Text)
      → target_names u ≡ []
      → text_eq (to_lower u.target_scope) (codes "group") ≡ false
      → get_logged_in_iscsi_targets host w ≡ (ok ts, w1)
      → handle_iscsi_discovery_for_backend host u w ≡ (ok tt, nodes_read w1)
  unfolding handle_iscsi_discovery_for_backend
  backend_unnamed u w w1 ts i g e =
      ap
        (λ r.
          then_run
            (wrapped r (λ m. codes "unable to determine already logged-in targets, err " ++ m))
            (backend_handled host u))
        (ap (λ names. are_targets_logged_in host names w) i ∙ no_targets w w1 ts e)
      ∙ (ap (λ r. then_run r (λ x. rescanned host u)) (chap_updated_none u w1 i)
          ∙ rescanned_not u (nodes_read w1) g)

  -- Where Iqns is empty, there is no secondary backend and the scope is not that of a group,
  -- HandleIscsiDiscovery logs in to nothing, whatever Iqn is: once the sessions have been read it
  -- succeeds, and the one command that it runs is iscsiadm -m node.
  pub handle_iscsi_discovery_iqn :
      (v : Volume) (w w1 : W) (ts : List Text)
      → v.iqns ≡ []
      → v.secondary_backends ≡ []
      → text_eq (to_lower v.target_scope) (codes "group") ≡ false
      → get_logged_in_iscsi_targets host w ≡ (ok ts, w1)
      → handle_iscsi_discovery host v w ≡ (ok tt, nodes_read w1)
  unfolding handle_iscsi_discovery secondaries_handled
  handle_iscsi_discovery_iqn v w w1 ts i s g e =
      ap (λ r. then_run r (λ x. secondaries_handled host v v.secondary_backends))
        (backend_unnamed (primary_volume host v) w w1 ts i g e)
      ∙ ap (λ l. secondaries_handled host v l (nodes_read w1)) s
