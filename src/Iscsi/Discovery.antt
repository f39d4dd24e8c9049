-- ===== src/Iscsi/Discovery.antt =====
-- linux/iscsi.go: the discovery portals and what a discovery gives.
use common_host_libs.Prelude.{
  Bool, true, false, List, [], ◌∷◌, ◌++◌, Option, none, some, ◌⊎◌, inl, inr, if◌then◌else◌,
}
use common_host_libs.Prelude.Text.{Text, codes}
use common_host_libs.Prelude.Effects.{M, ◌>>=◌, pure, fail, call, attempt}
use common_host_libs.Iscsi.{Host, IscsiTarget, is_reachable}
use common_host_libs.Iscsi.Targets.{remove_duplicate_targets}

-- The variables of PerformDiscovery: isDiscoveryIpReachable, err and outList.
pub record Search : Type 0 where
  pub reachable : Bool
  pub err : Option Text
  pub outs : List Text

abbrev pub new_search : Search
new_search = record { reachable = false; err = none; outs = [] }

abbrev pub discovery_args : Text → List Text
discovery_args ip =
    codes "-m"
    ∷ codes "discovery"
    ∷ codes "-t"
    ∷ codes "st"
    ∷ codes "-p"
    ∷ ip
    ∷ codes "-o"
    ∷ codes "new"
    ∷ []

abbrev pub no_reachable_ip : Text
no_reachable_ip =
    codes
      "no reachable discovery ip found. Please sanity check host OS and array IP configuration, network, netmask and gateway."

module _ {W : Type 0} (host : Host W) where
  abbrev pub reachable_or_not : Bool ⊎ Text → Bool
  reachable_or_not (inl b) = b
  reachable_or_not (inr m) = false

  unfoldable pub get_reachable_discovery_portals : List Text → Bool → M W (List Text)
  get_reachable_discovery_portals [] virtual_portal = pure []
  get_reachable_discovery_portals (ip ∷ ips) virtual_portal =
      let later = get_reachable_discovery_portals ips virtual_portal in
      do
        r ← attempt (is_reachable host [] ip)
        if reachable_or_not r
            then (if virtual_portal then pure (ip ∷ []) else (do rest ← later; pure (ip ∷ rest)))
            else later

  abbrev pub searched : Search → Text × Option Text → Search
  searched s (out, none) = record { reachable = true; err = none; outs = s.outs ++ (out ∷ []) }
  searched s (out, some m) = record { reachable = true; err = some m; outs = s.outs }

  -- A round of the loop behind the test of its portal.
  abbrev pub search_at : Text → Search → Bool ⊎ Text → M W Search
  search_at ip s (inr m) = pure (record { reachable = false; err = some m; outs = s.outs })
  search_at ip s (inl false) = pure (record { reachable = false; err = none; outs = s.outs })
  search_at ip s (inl true) = do
    r ← call (host.exec (codes "iscsiadm") (discovery_args ip))
    pure (searched s r)

  unfoldable pub search_all : List Text → Search → M W Search
  search_all [] s = pure s
  search_all (ip ∷ ips) s = do
    r ← attempt (is_reachable host [] ip)
    s' ← search_at ip s r
    search_all ips s'

  abbrev pub all_nodes : List Text → List IscsiTarget
  all_nodes [] = []
  all_nodes (out ∷ outs) = host.nodes_in out ++ all_nodes outs

  abbrev pub discovered : Search → M W (List IscsiTarget)
  discovered s =
      if s.reachable
      then elim (s.err) [
        | some m ↦ fail m
        | none ↦ pure (remove_duplicate_targets (all_nodes s.outs))
      ]
      else fail no_reachable_ip

  unfoldable pub perform_discovery : List Text → M W (List IscsiTarget)
  perform_discovery ips = do s ← search_all ips new_search; discovered s
