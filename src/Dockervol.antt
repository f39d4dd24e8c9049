-- ===== src/Dockervol.antt =====
-- docker/dockervol/dockervol.go: the client of a Docker volume plugin.
-- The plugin is a service behind an HTTP connection: `call` sends it an action, a path and a request and
-- gives its response and, if the call failed, the error; W is the state of the host and the plugin.
-- `errorf` is fmt.Errorf of a text alone, and `sleep` is time.Sleep in seconds. An option's value has
-- any type A. The options are listed, each key once; the caller's map is the same one and loses the
-- keys that are deleted here.
pub mod Unmounting
pub mod Options
mod Tests
use common_host_libs.Prelude.{
  ℕ, zero, suc, ◌-◌, Bool, true, false, not, ◌&&◌, ◌||◌, List, [], ◌∷◌, ◌++◌, Option, none, some,
  if◌then◌else◌,
}
use common_host_libs.Prelude.Text.{Text, codes, text_eq, contains, is_nil, to_lower, has_prefix}

-- A Request or a MountRequest.
pub data Payload {ℓ} (A : Type ℓ) : Type ℓ where
  request : (name : Text) (opts : List (Text × A)) → Payload A
  mount_request : (name id : Text) → Payload A

-- DockerVolume without its status, which the client only passes on.
pub record DockerVolume : Type 0 where
  pub name : Text
  pub mountpoint : Text

-- What the responses hold: the volume's name, its mount point, the volumes of a list, the scope of the
-- capabilities and the error's text.
pub record Response : Type 0 where
  pub volume_name : Text
  pub mountpoint : Text
  pub volumes : List DockerVolume
  pub scope : Text
  pub err : Text

pub data Result {ℓ} (A : Type ℓ) : Type ℓ where
  ok : A → Result A
  err : Text → Result A

abbrev pub name_required : Text
name_required = codes "name is required"

-- `key == "name" || (dvp.stripK8sOpts && strings.HasPrefix(key, "kubernetes.io"))`
abbrev pub is_dropped : Bool → Text → Bool
is_dropped strip_k8s_opts key =
    text_eq key (codes "name") || (strip_k8s_opts && has_prefix key (codes "kubernetes.io"))

abbrev pub kept_options {ℓ} : {A : Type ℓ} → Bool → List (Text × A) → List (Text × A)
kept_options strip [] = []
kept_options strip ((key, value) ∷ options) =
    if is_dropped strip key
    then kept_options strip options
    else (key, value) ∷ kept_options strip options

-- The test of Unmount for an error that is worth another try.
abbrev pub is_worth_retry : Text → Bool
is_worth_retry msg =
    not (contains (to_lower msg) (codes "not mounted"))
    || not (contains (to_lower msg) (codes "no such file or directory"))

-- dockerlt.Plugin
pub record Plugin : Type 0 where
  pub id : Text
  pub name : Text
  pub enabled : Bool
  pub socket : Text

abbrev pub socket_path : Plugin → Text
socket_path p = codes "/run/docker/plugins/" ++ (p.id ++ (b'/' ∷ p.socket))

-- The loop of getV2PluginSocket over the plugins that Docker lists: a path, and the error beside it.
unfoldable pub find_socket : Text → List Plugin → Text × Option Text
find_socket name [] = ([], some (codes "unable to find V2 plugin named " ++ name))
find_socket name (p ∷ rest) =
    let later = find_socket name rest in
    if text_eq name p.name || text_eq (name ++ codes ":latest") p.name
    then (
      socket_path p,
      if p.enabled
          then none
          else some
              (codes "found Docker V2 Plugin named " ++ (name ++ codes ", but it is disabled")),
    )
    else later

-- getV2PluginSocket, from what Docker answers.
abbrev pub get_v2_plugin_socket : Text → Result (List Plugin) → Text × Option Text
get_v2_plugin_socket name (ok plugins) = find_socket name plugins
get_v2_plugin_socket name (err m) =
    ([], some (codes "failed to get V2 plugins from docker. error=" ++ m))

-- What Unmount returns for its last try.
abbrev pub last_error : Result Text → Option Text
last_error (ok m) = none
last_error (err m) = if is_worth_retry m then some m else none

-- What a round of Unmount comes to, by what the later rounds would give.
abbrev pub concluded {ℓ} : {W : Type ℓ} → Result Text → W → Option Text × W → Option Text × W
concluded (ok m) w later = (none, w)
concluded (err m) w later = if is_worth_retry m then later else (none, w)

module _ {A : Type 0} {W : Type 0}
    (call : Text → Text → Payload A → W → (Response × Option Text) × W) (errorf : Text → Text)
    (sleep : ℕ → W → W) where
  -- driverErrorCheck
  abbrev pub driver_error_check : Response → Option Text
  driver_error_check res = if is_nil res.err then none else some (errorf res.err)

  -- driverRun, and driverErrorCheck if there was no error.
  unfoldable pub checked_call : Text → Text → Payload A → W → Result Response × W
  checked_call action path payload w =
      let ((res, e), w') = call action path payload w in
      elim e [
        | some m ↦ (err m, w')
        | none ↦ elim (driver_error_check res) [ some m ↦ (err m, w') | none ↦ (ok res, w') ]
      ]

  abbrev pub sent : Text → Bool → W → List (Text × A) → Result Text × W
  sent name is_update w options =
      let payload = request name options in
      let (r, w') =
        if is_update
        then checked_call (codes "PUT") (codes "/VolumeDriver.Update") payload w
        else checked_call (codes "POST") (codes "/VolumeDriver.Create") payload w in
      elim r [ ok res ↦ (ok res.volume_name, w') | err m ↦ (err m, w') ]

  pub create_or_update : Bool → Text → List (Text × A) → Bool → W → Result Text × W
  create_or_update strip_k8s_opts name options is_update w =
      if is_nil name
      then (err name_required, w)
      else sent name is_update w (kept_options strip_k8s_opts options)

  unfoldable pub mounter : Text → Text → Text → W → Result Text × W
  mounter name mount_id path w =
      if is_nil name
      then (err name_required, w)
      else (let (r, w') = checked_call (codes "POST") path (mount_request name mount_id) w in
          elim r [ ok res ↦ (ok res.mountpoint, w') | err m ↦ (err m, w') ])

  -- Get
  abbrev pub get : Text → W → Result Response × W
  get name w = checked_call (codes "POST") (codes "/VolumeDriver.Get") (request name []) w

  -- List
  abbrev pub list : W → Result (List DockerVolume) × W
  list w =
      let (r, w') = checked_call (codes "POST") (codes "/VolumeDriver.List") (request [] []) w in
      elim r [ ok res ↦ (ok res.volumes, w') | err m ↦ (err m, w') ]

  -- Capabilities, whose response has no error to check.
  abbrev pub capabilities : W → Result Text × W
  capabilities w =
      let ((res, e), w') =
        call (codes "POST") (codes "/VolumeDriver.Capabilities") (request [] []) w in
      elim e [ some m ↦ (err m, w') | none ↦ (ok res.scope, w') ]

  -- Mount, whose loop always ends in its first round.
  unfoldable pub mount : Text → Text → W → Result Text × W
  mount name mount_id w = mounter name mount_id (codes "/VolumeDriver.Mount") w

  -- The loop of Unmount with the tries that are left, and those that are done.
  pub unmount_rounds : ℕ → ℕ → Text → Text → W → Option Text × W
  unmount_rounds zero tries name mount_id w =
      let (r, w') = mounter name mount_id (codes "/VolumeDriver.Unmount") w in (last_error r, w')
  unmount_rounds (suc left) tries name mount_id w =
      let (r, w') = mounter name mount_id (codes "/VolumeDriver.Unmount") w in
      concluded r w' (unmount_rounds left (suc tries) name mount_id (sleep (suc tries) w'))

  -- Unmount, with maxTries of 3.
  pub unmount : Text → Text → W → Option Text × W
  unmount name mount_id w = unmount_rounds 3 0 name mount_id w

  -- Delete
  unfoldable pub delete : Text → Text → (Text → A) → W → Option Text × W
  delete name manager_name value w =
      if is_nil name
      then (some name_required, w)
      else (let opts =
            if is_nil manager_name then [] else (codes "manager", value manager_name) ∷ [] in
          let (r, w') =
            checked_call (codes "POST") (codes "/VolumeDriver.Remove") (request name opts) w in
          elim r [ ok res ↦ (none, w') | err m ↦ (some m, w') ])
