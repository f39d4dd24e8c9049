-- ===== src/Handler.antt =====
-- dockerplugin/handler: the requests of Docker that the volume plugin serves, the parts that decide.
-- The operations of the CHAPI client and of the container provider that a handler calls are the fields
-- of Chapi and Provider: functions on a state W of the host and the array. Logging is left out.
pub mod Networks
pub mod Filtering
pub mod Attached
pub mod Mounting
pub mod Creating
pub mod Cleanup
pub mod Unmounting
pub mod Waiting
pub mod Delays
mod Tests
use common_host_libs.Prelude.{ℕ, Bool, List, Option, none, some, String}
use common_host_libs.Prelude.Text.{Text}
use common_host_libs.Model.{NetworkInterface, Volume}

-- A value of a request's options; %v prints each part of a list, here as a text.
pub data Value : Type 0 where
  string : Text → Value
  parts : List Text → Value
  other : Value

-- model.Initiator and model.Host, of which the handlers read this.
pub record Initiator : Type 0 where
  pub type : String
  pub init : List Text

pub record Host : Type 0 where
  pub network_interfaces : List NetworkInterface
  pub initiators : Option (List Initiator)

pub record PluginRequest : Type 0 where
  pub name : String
  pub opts : List (String × Value)
  pub preferences : List (String × Value)
  pub host : Host

-- VolumeResponse, and VolumeUnmountResponse; one with no error has a volume.
pub record VolumeResponse : Type 0 where
  pub err : Text
  pub volume : Option Volume

pub record VolumeUnmountResponse : Type 0 where
  pub err : Text
  pub volume : Volume
  pub message : Text

pub record Device : Type 0 where
  pub state : String
  pub target_scope : String

pub record Mount : Type 0 where
  pub mountpoint : String
  pub device : Option Device

-- A call that may fail or stop in a nil dereference or an index out of range.
pub data Result {ℓ} (A : Type ℓ) : Type ℓ where
  ok : A → Result A
  err : Text → Result A
  panics : Result A

-- A handler on the state of the host and the array; no result is a panic.
abbrev pub M : Type 0 → Type 0 → Type 0
M W A = W → Option A × W

abbrev pub then_run : {W A B : Type 0} → Option A × W → (A → M W B) → Option B × W
then_run (some a, w) f = f a w
then_run (none, w) f = (none, w)

infixl 5 ◌>>=◌
abbrev pub ◌>>=◌ : {W A B : Type 0} → M W A → (A → M W B) → M W B
◌>>=◌ m f w = then_run (m w) f

abbrev pub pure : {W A : Type 0} → A → M W A
pure a w = (some a, w)

abbrev pub panic : {W A : Type 0} → M W A
panic w = (none, w)

-- A call of another component, which does not panic.
abbrev pub call : {W A : Type 0} → (W → A × W) → M W A
call f w = let (a, w') = f w in (some a, w')

-- The CHAPI client, and os.RemoveAll; a function that gives an `Option Text` gives its error, if any.
pub record Chapi (W : Type 0) : Type 0 where
  pub get_mounts : String → W → List Mount × W
  pub get_device_from_volume : Volume → W → Option Device × W
  pub unmount : Mount → W → Option Text × W
  pub attach_device : Volume → W → (Option (List Device) × Option Text) × W
  pub setup_filesystem : Device → Volume → Text → W → Option Text × W
  pub unmount_device : Volume → W → Option Text × W
  pub attach_and_mount_device : Volume → String → W → Option Text × W
  pub offline_device : Device → W → Option Text × W
  pub delete_device : Device → W → Option Text × W
  pub remove_all : String → W → Option Text × W

-- The requests to the container provider, with the error of DoJSON: VolumeDriver.Get, Unmount and Remove,
-- NimbleDetach, nimbleGetVolumeInfo and the update that sets a volume's mountConflictDelay to 0.
pub record Provider (W : Type 0) : Type 0 where
  pub get : PluginRequest → W → (VolumeResponse × Option Text) × W
  pub unmount_volume : PluginRequest → W → (VolumeUnmountResponse × Option Text) × W
  pub remove_volume : PluginRequest → W → (Text × Option Text) × W
  pub nimble_detach : Volume → PluginRequest → W → Option Text × W
  pub nimble_volume_info : PluginRequest → W → Option Volume × W
  pub remove_mount_conflict_metadata : PluginRequest → W → W

-- getVolumeInfo; its error is not read by those who call it.
abbrev pub volume_of : VolumeResponse × Option Text → Option Volume
volume_of (r, none) = r.volume
volume_of (r, some m) = none

abbrev pub get_volume_info : {W : Type 0} → Provider W → PluginRequest → W → Option Volume × W
get_volume_info provider r w = let (x, w') = provider.get r w in (volume_of x, w')
