-- ===== src/Csp.antt =====
-- storageprovider/csp/container_storage_provider.go: the client of a container storage provider (CSP).
-- Session has the login and the requests with their token, the other children the operations. JSON and
-- HTTP are those of Connectivity; Json has the encoding and the decoders of the data of this client, W
-- is the state of the network and the CSP. loginMutex is held around one login and is left out.
-- Texts that are sent or built are lists of character codes, the fields of the model are strings.
pub mod Session
pub mod Groups
pub mod Volumes
pub mod Snapshots
pub mod Clone
pub mod Relogin
pub mod Endless
pub mod Expired
pub mod Settled
pub mod Recovery
pub mod Logins
pub mod Messages
mod Tests
use common_host_libs.Prelude.{
  ℕ, zero, suc, Bool, true, false, List, [], ◌∷◌, ◌++◌, Option, none, some, String, if◌then◌else◌,
  ◌⊎◌,
}
use common_host_libs.Prelude.Int.{ℤ}
use common_host_libs.Prelude.Text.{Text, codes, decimal}
use common_host_libs.Connectivity.{Decoded, Encoded, Net}
use common_host_libs.Model.{Volume, Snapshot, VolumeGroup, SnapshotGroup}

pub record Credentials : Type 0 where
  pub username : Text
  pub password : Text
  pub backend : Text
  pub service_port : ℤ
  pub context_path : Text
  pub service_name : Text
  pub csp_client_timeout : ℤ

pub record ErrorObject : Type 0 where
  pub code : Text
  pub message : Text

-- The list may hold nil pointers.
abbrev pub ErrorsPayload : Type 0
ErrorsPayload = List (Option ErrorObject)

-- model.Token, without the ID that is neither set nor read here.
pub record Token : Type 0 where
  pub username : Text
  pub password : Text
  pub array_ip : Text
  pub session_token : Text

-- An error of this client, or the gRPC error of CreateSnapshot.
pub data CspError : Type 0 where
  text : Text → CspError
  resource_exhausted : CspError

-- What is sent. An object with a Config comes with what the map holds; V is the type of its values.
pub data Payload (V Node : Type 0) : Type 0 where
  token_payload : Token → Payload V Node
  node_payload : Node → Payload V Node
  volume_payload : Volume → Option (List (String × V)) → Payload V Node
  snapshot_payload : Snapshot → Option (List (String × V)) → Payload V Node
  volume_group_payload : VolumeGroup → Option (List (String × V)) → Payload V Node
  snapshot_group_payload : SnapshotGroup → Payload V Node
  publish_payload : (host_uuid access_protocol : String) → Payload V Node

-- A target that is a pointer is `none` for nil. The two `redecode` are jsonutil.Decode, and `as_string`
-- is the type assertion `.(string)`.
pub record Json (Body V Node Info : Type 0) : Type 0 where
  pub encode : Payload V Node → Encoded Body
  pub errors : Body → Decoded (Option ErrorsPayload)
  pub token : Body → Decoded (Option Token)
  pub volume : Body → Decoded (Option Volume)
  pub volumes : Body → Decoded (List (Option Volume))
  pub snapshot : Body → Decoded (Option Snapshot)
  pub snapshots : Body → Decoded (List (Option Snapshot))
  pub volume_group : Body → Decoded (Option VolumeGroup)
  pub snapshot_group : Body → Decoded (Option SnapshotGroup)
  pub publish_info : Body → Decoded (Option Info)
  pub zero_info : Info
  pub redecode_volume : Option Volume → Volume ⊎ Text
  pub redecode_snapshot : Option Snapshot → Snapshot ⊎ Text
  pub as_string : V → Option String

-- The token of the provider, and the world.
pub record State (W : Type 0) : Type 0 where
  pub auth_token : Text
  pub world : W

-- `endless` is a call of invoke that ran out of its fuel.
pub data Outcome (A : Type 0) : Type 0 where
  ok : A → Outcome A
  panics : Outcome A
  endless : Outcome A

abbrev pub M : Type 0 → Type 0 → Type 0
M W A = State W → Outcome A × State W

abbrev pub then_run : {W A B : Type 0} → Outcome A × State W → (A → M W B) → Outcome B × State W
then_run (ok a, s) f = f a s
then_run (panics, s) f = (panics, s)
then_run (endless, s) f = (endless, s)

infixl 5 ◌>>=◌
abbrev pub ◌>>=◌ : {W A B : Type 0} → M W A → (A → M W B) → M W B
◌>>=◌ m f s = then_run (m s) f

abbrev pub pure : {W A : Type 0} → A → M W A
pure a s = (ok a, s)

abbrev pub panic : {W A : Type 0} → M W A
panic s = (panics, s)

-- handleError: its text, `none` where an error object is nil.
abbrev pub error_string : ErrorsPayload → Option Text
error_string [] = some []
error_string (none ∷ es) = none
error_string (some e ∷ es) = elim (error_string es) [
  | none ↦ none
  | some rest ↦ some (
      codes "Error code ("
      ++ (e.code ++ (codes ") and message (" ++ (e.message ++ (codes ")" ++ rest)))))
]

abbrev pub failed_text : ℕ → Text → Text
failed_text status errors =
    codes "Request failed with status code "
    ++ (decimal 20 status ++ (codes " and errors " ++ errors))

abbrev pub handle_error : {W : Type 0} → ℕ → ErrorsPayload → M W CspError
handle_error status es = elim (error_string es) [
  | none ↦ panic
  | some errors ↦ pure (text (failed_text status errors))
]
