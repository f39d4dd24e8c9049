-- ===== src/Iscsi/Unreachable.antt =====
-- linux/iscsi.go, PerformDiscovery: the last portal decides.
use common_host_libs.Prelude.{
  ◌≡◌, refl, ap, sym, ◌∙◌, false, List, [], ◌∷◌, ◌++◌, ◌⊎◌, inl, inr, Bool, true, arith,
}
use common_host_libs.Prelude.Text.{Text}
use common_host_libs.Prelude.Effects.{ok, failed, then_run, ◌>>=◌, attempt}
use common_host_libs.Prelude.Ensures.{bind-same, bind-bind}
use common_host_libs.Iscsi.{Host, is_reachable}
use common_host_libs.Iscsi.Discovery.{
  Search, new_search, no_reachable_ip, reachable_or_not, search_at, search_all, discovered,
  perform_discovery,
}

module _ {W : Type 0} (host : Host W) where
  search_all-append :
      (ips js : List Text) (s : Search) (w : W)
      → search_all host (ips ++ js) s w ≡ (search_all host ips s >>= search_all host js) w
  unfolding search_all
  search_all-append [] js s w = refl
  search_all-append (ip ∷ ips) js s w =
      bind-same (attempt (is_reachable host [] ip))
        (λ r. search_at host ip s r >>= search_all host (ips ++ js))
        (λ r. (search_at host ip s r >>= search_all host ips) >>= search_all host js) w
        (λ r u.
          bind-same (search_at host ip s r) (search_all host (ips ++ js))
            (λ s'. search_all host ips s' >>= search_all host js) u
            (λ s' u'. search_all-append ips js s' u')
          ∙ sym (bind-bind (search_at host ip s r) (search_all host ips) (search_all host js) u))
      ∙ sym (
          bind-bind (attempt (is_reachable host [] ip))
            (λ r. search_at host ip s r >>= search_all host ips) (search_all host js) w)

  discovered_unreachable :
      (ip : Text) (s : Search) (r : Bool ⊎ Text) (w : W)
      → reachable_or_not host r ≡ false
      → then_run (then_run (search_at host ip s r w) (search_all host [])) (discovered host)
        ≡ (failed no_reachable_ip, w)
  unfolding search_all
  discovered_unreachable ip s (inr m) w p = refl
  discovered_unreachable ip s (inl false) w p = refl
  discovered_unreachable ip s (inl true) w p = ground (arith, p)

  -- If the last of the portals cannot be reached, or not be pinged at all, PerformDiscovery fails with the
  -- error that none can be reached, whatever the portals before it have answered.
  pub perform_discovery_unreachable :
      (ips : List Text) (ip : Text) (s : Search) (r : Bool ⊎ Text) (w w1 w2 : W)
      → search_all host ips new_search w ≡ (ok s, w1)
      → attempt (is_reachable host [] ip) w1 ≡ (ok r, w2)
      → reachable_or_not host r ≡ false
      → perform_discovery host (ips ++ (ip ∷ [])) w ≡ (failed no_reachable_ip, w2)
  unfolding perform_discovery search_all
  perform_discovery_unreachable ips ip s r w w1 w2 e q p =
      ap (λ x. then_run x (discovered host))
        (search_all-append ips (ip ∷ []) new_search w
          ∙ (ap (λ x. then_run x (search_all host (ip ∷ []))) e
              ∙ ap (λ x. then_run x (λ y. search_at host ip s y >>= search_all host [])) q))
      ∙ discovered_unreachable ip s r w2 p
