-- ===== src/Iscsi.antt =====
-- linux/iscsi.go: discovery of iSCSI targets, the login to them and the rescan of the host.
-- What these call of the system are the fields of Host, functions on its state W. A command gives its
-- output and, if it failed, the error. `new_pinger`, `ping` and `dial` are the steps of go-ping and of
-- net that isReachable takes, `nodes_in` the regular expression of package regexp on the output of
-- iscsiadm, `bound_network` the pattern of an iface's file (util.FileGetStringsWithPattern), and
-- `network_interfaces` the enumeration in linux/network.go. iscsiMutex is held around each discovery and
-- login, which do not call one another, and is left out, as is logging.
pub mod Targets
pub mod Login
pub mod Ifaces
pub mod Volumes
pub mod Rescan
pub mod Handling
pub mod Discovery
pub mod Unique
pub mod Ignored
pub mod Unreachable
pub mod Unnamed
mod Tests
use common_host_libs.Prelude.{
  ℕ, Bool, true, false, not, ◌&&◌, ◌||◌, List, [], ◌∷◌, ◌++◌, Option, none, some, ◌⊎◌, inl, inr,
  if◌then◌else◌,
}
use common_host_libs.Prelude.Text.{Text, codes, text_eq, contains, is_nil}
use common_host_libs.Prelude.Effects.{M, ◌>>=◌, pure, fail, call, look}

-- A target's address is that of its portal.
pub record IscsiTarget : Type 0 where
  pub name : Text
  pub address : Text
  pub port : Text

pub record NetworkInterface : Type 0 where
  pub name : Text
  pub address_v4 : Text

pub record Iface : Type 0 where
  pub name : Text
  pub network_interface : NetworkInterface

pub record ChapInfo : Type 0 where
  pub name : Text
  pub password : Text

-- model.SecondaryLunInfo; the lun as strconv.Itoa prints it.
pub record SecondaryLunInfo : Type 0 where
  pub lun_id : Text
  pub target_names : List Text
  pub discovery_ips : List Text

-- The fields of model.Volume that are read here, the secondary array's details decoded.
pub record Volume : Type 0 where
  pub serial_number : Text
  pub lun_id : Text
  pub iqn : Text
  pub iqns : List Text
  pub target_scope : Text
  pub discovery_ips : List Text
  pub chap : Option ChapInfo
  pub connection_mode : Text
  pub secondary_backends : List SecondaryLunInfo

-- The error of a directory that cannot be read: it does not exist, or another one.
pub data DirError : Type 0 where
  not_exist : Text → DirError
  other : Text → DirError

pub record Host (W : Type 0) : Type 0 where
  pub exec : Text → List Text → W → (Text × Option Text) × W
  pub new_pinger : Text → W → Option Text
  pub ping : (initiator target : Text) → W → Bool × W
  pub dial : (initiator target : Text) → W → Option Text × W
  pub file_exists : Text → W → Bool ⊎ Text
  pub read_dir : Text → W → List Text ⊎ DirError
  pub read_file : Text → W → Text ⊎ Text
  pub write_file : (path content : Text) → W → Option Text × W
  pub bound_network : Text → W → List Text
  pub network_interfaces : W → List NetworkInterface ⊎ Text
  pub nodes_in : Text → List IscsiTarget

-- Volume.TargetNames
abbrev pub target_names : Volume → List Text
target_names v = if is_nil v.iqn then v.iqns else v.iqn ∷ []

-- FileExists where its error is not read: what cannot be looked at is taken to exist.
abbrev pub exists_of : Bool ⊎ Text → Bool
exists_of (inl b) = b
exists_of (inr m) = true

module _ {W : Type 0} (host : Host W) where
  -- iscsiadm, whose output is not read.
  abbrev pub iscsiadm : List Text → W → Option Text × W
  iscsiadm args w = let ((out, e), w') = host.exec (codes "iscsiadm") args w in (e, w')

  abbrev pub dialled : Option Text → M W Bool
  dialled none = pure true
  dialled (some m) = pure false

  abbrev pub pinged : (initiator target : Text) → Bool → M W Bool
  pinged initiator target true = pure true
  pinged initiator target false = do e ← call (host.dial initiator target); dialled e

  unfoldable pub is_reachable : (initiator target : Text) → M W Bool
  is_reachable initiator target = do
    e ← look (host.new_pinger target)
    elim e [
      | some m ↦ fail m
      | none ↦ (do reached ← call (host.ping initiator target); pinged initiator target reached)
    ]
