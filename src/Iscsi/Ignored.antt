-- ===== src/Iscsi/Ignored.antt =====
-- linux/iscsi.go: errors that nobody sees.
use common_host_libs.Prelude.{
  ◌≡◌, refl, Bool, Bool-cases, Option-cases, true, false, ◌||◌, List, [], ◌∷◌, ◌++◌, Option, none,
  some, inl, inr,
}
use common_host_libs.Prelude.Text.{Text, codes, text_eq, is_nil}
use common_host_libs.Prelude.Effects.{ok, ◌>>=◌, pure, call, attempt, wrap}
use common_host_libs.Prelude.NoPanic.{
  NoPanic, bind-NoPanic, attempt-NoPanic, pure-NoPanic, fail-NoPanic, call-NoPanic, called-NoPanic,
  attempted-ok, wrapped-ok, bind-ok,
}
use common_host_libs.Iscsi.{
  IscsiTarget, Iface, ChapInfo, Host, is_reachable, pinged, dialled, iscsiadm,
}
use common_host_libs.Iscsi.Login.{
  update_chap_user, update_chap_password, update_connection_mode, login_by_ifaces, login_by,
  mode_updated, add_ended, add_login, added, add_target, login_to_target, usable, node_args,
  update_args, update_text,
}
use common_host_libs.Iscsi.Volumes.{login_to_all}

module _ {W : Type 0} (host : Host W) where
  dialled-NoPanic : (o : Option Text) → NoPanic (dialled host o)
  dialled-NoPanic none = pure-NoPanic true
  dialled-NoPanic (some m) = pure-NoPanic false

  pinged-NoPanic : (i t : Text) (b : Bool) → NoPanic (pinged host i t b)
  pinged-NoPanic i t true = pure-NoPanic true
  pinged-NoPanic i t false =
      bind-NoPanic (call (host.dial i t)) (dialled host) (call-NoPanic (host.dial i t))
        dialled-NoPanic

  is_reachable-NoPanic : (i t : Text) → NoPanic (is_reachable host i t)
  unfolding is_reachable
  is_reachable-NoPanic i t w = elim (Option-cases (host.new_pinger t w)) [
    | inl p ↦ rw p (
        bind-NoPanic (call (host.ping i t)) (pinged host i t) (call-NoPanic (host.ping i t))
          (pinged-NoPanic i t) w)
    | inr (m, p) ↦ rw p (fail-NoPanic m w)
  ]

  login_by_ifaces-NoPanic :
      (t : IscsiTarget) (is : List Iface) → NoPanic (login_by_ifaces host t is)
  unfolding login_by_ifaces
  login_by_ifaces-NoPanic t [] = pure-NoPanic tt
  login_by_ifaces-NoPanic t (i ∷ is) =
      bind-NoPanic (attempt (is_reachable host i.network_interface.address_v4 t.address)) _
        (attempt-NoPanic (is_reachable host i.network_interface.address_v4 t.address)
          (is_reachable-NoPanic i.network_interface.address_v4 t.address))
        (λ r. elim (Bool-cases (usable host r)) [
          | inl p ↦ rw p (
              called-NoPanic
                (iscsiadm host (node_args t (codes "--login" ∷ codes "-I" ∷ i.name ∷ [])))
                (λ e. login_by_ifaces host t is) (λ e. login_by_ifaces-NoPanic t is))
          | inr p ↦ rw p (login_by_ifaces-NoPanic t is)
        ])

  login_by-NoPanic :
      (t : IscsiTarget) (is : List Iface) (e : Option Text) → NoPanic (login_by host t is e)
  login_by-NoPanic t [] e = call-NoPanic (iscsiadm host (node_args t (codes "--login" ∷ [])))
  login_by-NoPanic t (i ∷ is) e =
      bind-NoPanic (login_by_ifaces host t (i ∷ is)) (λ x. pure e)
        (login_by_ifaces-NoPanic t (i ∷ is)) (λ x. pure-NoPanic e)

  mode_updated-NoPanic : (t : IscsiTarget) (mode : Text) → NoPanic (mode_updated host t mode)
  unfolding update_connection_mode
  mode_updated-NoPanic t mode = elim (Bool-cases (is_nil mode)) [
    | inl p ↦ rw p (pure-NoPanic tt)
    | inr p ↦
        elim (Bool-cases (text_eq mode (codes "automatic") || text_eq mode (codes "manual"))) [
          | inl q ↦
              rw (p, q)
                (called-NoPanic (iscsiadm host (update_args t (codes "node.startup") mode))
                  (λ e. pure tt) (λ e. pure-NoPanic tt))
          | inr q ↦ rw (p, q) (pure-NoPanic tt)
        ]
  ]

  added-NoPanic : (t : IscsiTarget) (e : Option Text) → NoPanic (added host t e)
  added-NoPanic t none = pure-NoPanic tt
  added-NoPanic t (some m) =
      fail-NoPanic
        (codes "Unable to add login to iscsi target " ++ (t.name ++ (codes ". Error: " ++ m)))

  add_login-NoPanic :
      (t : IscsiTarget) (is : List Iface) (mode : Text) (e : Option Text)
      → NoPanic (add_login host t is mode e)
  add_login-NoPanic t is mode e =
      bind-NoPanic (login_by host t is e) (add_ended host t mode) (login_by-NoPanic t is e) (λ e'.
        bind-NoPanic (mode_updated host t mode) (λ y. added host t e') (mode_updated-NoPanic t mode)
          (λ y. added-NoPanic t e'))

  update_chap_password-NoPanic :
      (t : IscsiTarget) (password : Text) → NoPanic (update_chap_password host t password)
  unfolding update_chap_password
  update_chap_password-NoPanic t password =
      called-NoPanic (iscsiadm host (update_args t (codes "node.session.auth.password") password))
        (λ e. pure (update_text (codes "password") t e))
        (λ e. pure-NoPanic (update_text (codes "password") t e))

  update_chap_user-NoPanic :
      (t : IscsiTarget) (user : Text) → NoPanic (update_chap_user host t user)
  unfolding update_chap_user
  update_chap_user-NoPanic t user =
      called-NoPanic (iscsiadm host (update_args t (codes "node.session.auth.username") user))
        (λ e. pure (update_text (codes "username") t e))
        (λ e. pure-NoPanic (update_text (codes "username") t e))

  add_target-NoPanic :
      (t : IscsiTarget) (is : List Iface) (chap : ChapInfo) (mode : Text)
      → NoPanic (add_target host t is chap mode)
  unfolding add_target
  add_target-NoPanic t is chap mode =
      bind-NoPanic (update_chap_user host t chap.name)
        (λ x. update_chap_password host t chap.password >>= add_login host t is mode)
        (update_chap_user-NoPanic t chap.name)
        (λ x.
          bind-NoPanic (update_chap_password host t chap.password) (add_login host t is mode)
            (update_chap_password-NoPanic t chap.password) (add_login-NoPanic t is mode))

  login_to_target-ok :
      (ts : List IscsiTarget) (iqn : Text) (is : List Iface) (chap : ChapInfo) (mode : Text) (w : W)
      → (login_to_target host ts iqn is chap mode w).0 ≡ ok tt
  unfolding login_to_target
  login_to_target-ok [] iqn is chap mode w = refl
  login_to_target-ok (t ∷ ts) iqn is chap mode w = elim (Bool-cases (text_eq t.name iqn)) [
    | inl p ↦ rw p (
        attempted-ok {W = W} {A = Unit {0}} (add_target host t is chap mode)
          (login_to_target host ts iqn is chap mode) tt w (add_target-NoPanic t is chap mode)
          (login_to_target-ok ts iqn is chap mode))
    | inr p ↦ rw p (login_to_target-ok ts iqn is chap mode w)
  ]

  -- The loop of loginToVolume over the names of targets never ends in an error, whatever the logins did.
  pub login_to_all-ok :
      (ts : List IscsiTarget) (iqns : List Text) (is : List Iface) (chap : ChapInfo) (mode : Text)
      (w : W)
      → (login_to_all host ts iqns is chap mode w).0 ≡ ok tt
  unfolding login_to_all
  login_to_all-ok ts [] is chap mode w = refl
  login_to_all-ok ts (iqn ∷ iqns) is chap mode w =
      bind-ok (wrap _ (login_to_target host ts iqn is chap mode))
        (λ x. login_to_all host ts iqns is chap mode) w
        (wrapped-ok (login_to_target host ts iqn is chap mode w) _
          (login_to_target-ok ts iqn is chap mode w))
        (login_to_all-ok ts iqns is chap mode)
