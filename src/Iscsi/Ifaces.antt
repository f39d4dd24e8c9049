-- ===== src/Iscsi/Ifaces.antt =====
-- linux/iscsi.go: the ifaces that are bound to network interfaces.
use common_host_libs.Prelude.{
  Bool, false, List, [], ◌∷◌, ◌++◌, Option, none, some, ◌⊎◌, inl, inr, if◌then◌else◌,
}
use common_host_libs.Prelude.Text.{Text, codes, text_eq, trim_space}
use common_host_libs.Prelude.Effects.{M, ◌>>=◌, pure, fail, look, wrap}
use common_host_libs.Iscsi.{NetworkInterface, Iface, DirError, not_exist, other, Host}

module _ {W : Type 0} (host : Host W) where
  abbrev pub is_there : Bool ⊎ Text → Bool
  is_there (inl b) = b
  is_there (inr m) = false

  abbrev pub error_of : Bool ⊎ Text → M W Text
  error_of (inl b) = pure []
  error_of (inr m) = fail m

  unfoldable pub get_iscsi_ifaces_path : M W Text
  get_iscsi_ifaces_path w =
      if is_there (host.file_exists (codes "/var/lib/iscsi/ifaces") w)
      then pure (codes "/var/lib/iscsi/ifaces") w
      else if is_there (host.file_exists (codes "/etc/iscsi/ifaces") w)
      then pure (codes "/etc/iscsi/ifaces") w
      else error_of (host.file_exists (codes "/etc/iscsi/ifaces") w) w

  abbrev pub network_named : Text → List NetworkInterface → Option NetworkInterface
  network_named name [] = none
  network_named name (n ∷ ns) = if text_eq n.name name then some n else network_named name ns

  -- The iface of a file, with the first line that names a network.
  abbrev pub iface_of : Text → List NetworkInterface → List Text → List Iface
  iface_of file networks [] = []
  iface_of file networks (line ∷ lines) = elim (network_named (trim_space line) networks) [
    | none ↦ []
    | some n ↦ record { name = file; network_interface = n } ∷ []
  ]

  abbrev pub ifaces_of : Text → List NetworkInterface → List Text → W → List Iface
  ifaces_of path networks [] w = []
  ifaces_of path networks (f ∷ fs) w =
      iface_of f networks (host.bound_network (path ++ (b'/' ∷ f)) w)
      ++ ifaces_of path networks fs w

  abbrev pub bound_to : Text → List Text → List NetworkInterface ⊎ Text → M W (List Iface)
  bound_to path files (inr m) =
      fail (codes "Unable to get the network interfaces on host: Error: " ++ m)
  bound_to path files (inl networks) = look (ifaces_of path networks files)

  abbrev pub ifaces_in : Text → List Text ⊎ DirError → M W (List Iface)
  ifaces_in path (inr (not_exist m)) = pure []
  ifaces_in path (inr (other m)) = fail m
  ifaces_in path (inl []) = pure []
  ifaces_in path (inl (f ∷ fs)) = do
    networks ← look host.network_interfaces
    bound_to path (f ∷ fs) networks

  unfoldable pub get_ifaces : M W (List Iface)
  get_ifaces = do
    path ←
        wrap (λ m. codes "Unable to get the iscsi ifaces from the host. Error: " ++ m)
          get_iscsi_ifaces_path
    files ← look (host.read_dir path)
    ifaces_in path files
