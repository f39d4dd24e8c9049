-- ===== src/Handler/Attached.antt =====
-- dockerplugin/handler/mount.go: isCurrentHostAttachedIscsi and isCurrentHostAttachedFC.
use common_host_libs.Prelude.{
  Bool, false, not, ◌&&◌, ◌||◌, ◌==◌, List, [], ◌∷◌, ◌++◌, none, some, String, str_eq,
  if◌then◌else◌,
}
use common_host_libs.Prelude.Text.{Text, codes, text_eq, trim_space}
use common_host_libs.Model.{
  Volume, IscsiSession, FcSession, NetworkInterface, initiator_name_str, initiator_wwpn_str,
}
use common_host_libs.Handler.{Initiator, Host}

-- The names of the host's initiators of one type.
abbrev pub inits : String → List Initiator → List Text
inits type [] = []
inits type (i ∷ is) = if str_eq i.type type then i.init ++ inits type is else inits type is

-- Some text of the list is the given one, up to white space around it.
abbrev pub is_among : Text → List Text → Bool
is_among s [] = false
is_among s (t ∷ ts) = text_eq (trim_space s) (trim_space t) || is_among s ts

abbrev pub addresses : List NetworkInterface → List Text
addresses [] = []
addresses (n ∷ ns) = codes n.address_v4 ∷ addresses ns

abbrev pub iscsi_session_of : List Text → List NetworkInterface → IscsiSession → Bool
iscsi_session_of names networks session =
    is_among (codes (initiator_name_str session)) names
    || (not (str_eq session.initiator_ip "")
        && is_among (codes session.initiator_ip) (addresses networks))

abbrev pub any : {A : Type 0} → (A → Bool) → List A → Bool
any p [] = false
any p (x ∷ xs) = p x || any p xs

unfoldable pub is_current_host_attached_iscsi : Volume → Host → Bool
is_current_host_attached_iscsi v host = elim host.initiators [
  | none ↦ false
  | some is ↦ any (iscsi_session_of (inits "iscsi" is) host.network_interfaces) v.iscsi_sessions
]

-- strings.Replace(s, ":", "", -1)
abbrev pub without_colons : Text → Text
without_colons [] = []
without_colons (c ∷ s) = if c == b':' then without_colons s else c ∷ without_colons s

abbrev pub fc_session_of : List Text → FcSession → Bool
fc_session_of names session = is_among (without_colons (codes (initiator_wwpn_str session))) names

unfoldable pub is_current_host_attached_fc : Volume → Host → Bool
is_current_host_attached_fc v host = elim host.initiators [
  | none ↦ false
  | some is ↦ any (fc_session_of (inits "fc" is)) v.fc_sessions
]
