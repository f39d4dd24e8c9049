-- ===== src/Iscsi/Login.antt =====
-- linux/iscsi.go: the login to a target.
use common_host_libs.Prelude.{
  Bool, true, ◌||◌, List, [], ◌∷◌, ◌++◌, Option, none, some, ◌⊎◌, inl, inr, if◌then◌else◌,
}
use common_host_libs.Prelude.Text.{Text, codes, text_eq, is_nil}
use common_host_libs.Prelude.Effects.{M, ◌>>=◌, pure, fail, call, attempt}
use common_host_libs.Iscsi.{IscsiTarget, Iface, ChapInfo, Host, iscsiadm, is_reachable}

abbrev pub node_args : IscsiTarget → List Text → List Text
node_args t rest =
    codes "--mode"
    ∷ codes "node"
    ∷ codes "--targetname"
    ∷ t.name
    ∷ codes "--portal"
    ∷ t.address
    ∷ rest

abbrev pub update_args : IscsiTarget → (name value : Text) → List Text
update_args t name value =
    node_args t (codes "--op" ∷ codes "update" ∷ codes "-n" ∷ name ∷ codes "-v" ∷ value ∷ [])

abbrev pub update_text : Text → IscsiTarget → Option Text → Option Text
update_text what t none = none
update_text what t (some m) = some (
    codes "Unable to update chap "
    ++ (what ++ (codes " for node " ++ (t.name ++ (codes " error " ++ m)))))

-- The name and the password of a volume's CHAP, empty where it has none.
abbrev pub chap_of : Option ChapInfo → ChapInfo
chap_of none = record { name = []; password = [] }
chap_of (some c) = c

module _ {W : Type 0} (host : Host W) where
  unfoldable pub update_chap_user : IscsiTarget → Text → M W (Option Text)
  update_chap_user t user = do
    e ← call (iscsiadm host (update_args t (codes "node.session.auth.username") user))
    pure (update_text (codes "username") t e)

  unfoldable pub update_chap_password : IscsiTarget → Text → M W (Option Text)
  update_chap_password t password = do
    e ← call (iscsiadm host (update_args t (codes "node.session.auth.password") password))
    pure (update_text (codes "password") t e)

  unfoldable pub update_connection_mode : IscsiTarget → Text → M W (Unit {0})
  update_connection_mode t mode =
      if text_eq mode (codes "automatic") || text_eq mode (codes "manual")
      then (do e ← call (iscsiadm host (update_args t (codes "node.startup") mode)); pure tt)
      else pure tt

  -- An iface from which the target cannot be pinged for some error is used all the same.
  abbrev pub usable : Bool ⊎ Text → Bool
  usable (inl b) = b
  usable (inr m) = true

  -- The errors of these logins are only logged.
  unfoldable pub login_by_ifaces : IscsiTarget → List Iface → M W (Unit {0})
  login_by_ifaces t [] = pure tt
  login_by_ifaces t (i ∷ is) =
      let later = login_by_ifaces t is in
      do
        r ← attempt (is_reachable host i.network_interface.address_v4 t.address)
        if usable r
            then (do
              e ← call (iscsiadm host (node_args t (codes "--login" ∷ codes "-I" ∷ i.name ∷ [])))
              later)
            else later

  -- The variable `err` behind the logins: with ifaces it still holds that of the password.
  abbrev pub login_by : IscsiTarget → List Iface → Option Text → M W (Option Text)
  login_by t [] e = call (iscsiadm host (node_args t (codes "--login" ∷ [])))
  login_by t (i ∷ is) e = do x ← login_by_ifaces t (i ∷ is); pure e

  abbrev pub mode_updated : IscsiTarget → Text → M W (Unit {0})
  mode_updated t mode = if is_nil mode then pure tt else update_connection_mode t mode

  abbrev pub added : IscsiTarget → Option Text → M W (Unit {0})
  added t none = pure tt
  added t (some m) =
      fail (codes "Unable to add login to iscsi target " ++ (t.name ++ (codes ". Error: " ++ m)))

  -- addTarget behind the logins, and behind the CHAP password.
  abbrev pub add_ended : IscsiTarget → Text → Option Text → M W (Unit {0})
  add_ended t mode e = do y ← mode_updated t mode; added t e

  abbrev pub add_login : IscsiTarget → List Iface → Text → Option Text → M W (Unit {0})
  add_login t ifaces mode e = do e' ← login_by t ifaces e; add_ended t mode e'

  unfoldable pub add_target : IscsiTarget → List Iface → ChapInfo → Text → M W (Unit {0})
  add_target t ifaces chap mode = do
    x ← update_chap_user t chap.name
    e ← update_chap_password t chap.password
    add_login t ifaces mode e

  -- loginToTarget: what addTarget returns is at most logged.
  unfoldable pub login_to_target :
      List IscsiTarget → Text → List Iface → ChapInfo → Text → M W (Unit {0})
  login_to_target [] iqn ifaces chap mode = pure tt
  login_to_target (t ∷ ts) iqn ifaces chap mode =
      let later = login_to_target ts iqn ifaces chap mode in
      if text_eq t.name iqn then (do r ← attempt (add_target t ifaces chap mode); later) else later
