-- ===== src/Multipath.antt =====
-- linux/multipath.go: what is read from multipathd and told to device mapper.
-- A command is run by a function `exec` on the state W of the host, which is a parameter: it gives the
-- output and, if the command failed, the error; `sleep` is time.Sleep in seconds. multipathMutex is held
-- around one command at a time and is left out. A serial number is made of letters and digits, so that
-- the regular expression around it finds the lines that contain it.
pub mod Paths
pub mod Retry
pub mod Maps
mod Tests
use common_host_libs.Prelude.{
  ℕ, zero, suc, Bool, true, false, not, ◌&&◌, ◌||◌, List, [], ◌∷◌, ◌++◌, Option, none, some,
  get_elem?, length, leb, if◌then◌else◌,
}
use common_host_libs.Prelude.Text.{Text, codes, text_eq, contains, is_nil, fields, lines, joined}

pub record PathInfo : Type 0 where
  pub uuid : Text
  pub device : Text
  pub dm_state : Text
  pub hcil : Text
  pub chk_state : Text

-- The fields of model.Device that are read or set here.
pub record Device : Type 0 where
  pub serial_number : Text
  pub minor : Text
  pub mpath_name : Text
  pub alt_full_path_name : Text
  pub state : Text

-- An index out of range panics.
pub data Result {ℓ} (A : Type ℓ) : Type ℓ where
  ok : A → Result A
  err : Text → Result A
  panics : Result A

abbrev pub active : Text
active = codes "active"

abbrev pub ready : Text
ready = codes "ready"

abbrev pub is_multipath_timeout_error : Text → Bool
is_multipath_timeout_error msg =
    contains msg (codes "timeout") || contains msg (codes "receiving packet")

abbrev pub drop_first : Text → Text
drop_first [] = []
drop_first (c ∷ s) = s

-- The PathInfo of a line's fields, `none` where an index is out of range.
abbrev pub path_of : List Text → Option PathInfo
path_of (uuid ∷ device ∷ dm_state ∷ hcil ∷ dev_state ∷ chk_state ∷ rest) = some (record {
  uuid = drop_first uuid;
  device = device;
  dm_state = dm_state;
  hcil = hcil;
  chk_state = chk_state;
})
path_of _ = none

-- The test for an active path, `none` where an index is out of range.
abbrev pub wanted : Bool → List Text → Option Bool
wanted false entry = some true
wanted true entry =
    if leb 5 (length entry)
    then elim (get_elem? entry 2) [
      | none ↦ none
      | some dm_state ↦
          (if text_eq dm_state active
            then elim (get_elem? entry 5) [
              | none ↦ none
              | some chk_state ↦ some (text_eq chk_state ready)
            ]
            else some false)
    ]
    else some false

-- One round of the loop over the lines: the paths that a line adds.
unfoldable pub paths_of_line : Text → Bool → Text → Option (List PathInfo)
paths_of_line serial need_active line =
    if contains line serial
    then elim (wanted need_active (fields line)) [
      | none ↦ none
      | some false ↦ some []
      | some true ↦ elim (path_of (fields line)) [ none ↦ none | some p ↦ some (p ∷ []) ]
    ]
    else some []

unfoldable pub paths_of_lines : Text → Bool → List Text → Option (List PathInfo)
paths_of_lines serial need_active [] = some []
paths_of_lines serial need_active (line ∷ rest) = elim (paths_of_line serial need_active line) [
  | none ↦ none
  | some ps ↦ elim (paths_of_lines serial need_active rest) [
    | none ↦ none
    | some qs ↦ some (ps ++ qs)
  ]
]

abbrev pub any_ready : List PathInfo → Bool
any_ready [] = false
any_ready (p ∷ ps) = text_eq p.chk_state ready || any_ready ps

-- The last loop: the device's state once a path is ready, if active paths were asked for.
abbrev pub set_state : Device → Bool → List PathInfo → Device
set_state dev need_active ps =
    if need_active && any_ready ps then record dev { state = active } else dev

-- The lines that contain the serial number.
abbrev pub matching : Text → List Text → List Text
matching serial [] = []
matching serial (line ∷ rest) =
    if contains line serial then line ∷ matching serial rest else matching serial rest

abbrev pub timeout_text : List Text → Text → Text
timeout_text args out =
    codes "failed to get multipathd [" ++ (joined args ++ (codes "], out " ++ out))

abbrev pub show_paths_format : List Text
show_paths_format =
    codes "show" ∷ codes "paths" ∷ codes "format" ∷ codes "%w %d %t %i %o %T %z %s %m" ∷ []

abbrev pub gathered : Device → Bool → Result (List Text) → Result (List PathInfo) × Device
gathered dev need_active panics = (panics, dev)
gathered dev need_active (err m) = (err m, dev)
gathered dev need_active (ok found) = elim (paths_of_lines dev.serial_number need_active found) [
  | none ↦ (panics, dev)
  | some ps ↦ (ok ps, set_state dev need_active ps)
]

abbrev pub is_timeout : Result (List PathInfo) → Bool
is_timeout (err m) = is_multipath_timeout_error m
is_timeout _ = false

module _ {W : Type 0} (exec : Text → List Text → W → (Text × Option Text) × W)
    (sleep : ℕ → W → W) where
  unfoldable pub multipathd_show_cmd : List Text → Text → W → Result (List Text) × W
  multipathd_show_cmd args serial w =
      let ((out, e), w') = exec (codes "multipathd") args w in
      elim e [
        | some m ↦ (err m, w')
        | none ↦
            (if is_multipath_timeout_error out
              then (err (timeout_text args out), w')
              else (ok (matching serial (lines out)), w'))
      ]

  unfoldable pub multipathd_show_paths : Text → W → Result (List Text) × W
  multipathd_show_paths serial w = multipathd_show_cmd show_paths_format serial w

  unfoldable pub multipath_get_paths_of_device :
      Device → Bool → W → (Result (List PathInfo) × Device) × W
  multipath_get_paths_of_device dev need_active w =
      let (found, w') = multipathd_show_paths dev.serial_number w in
      (gathered dev need_active found, w')

  -- The loop of retryGetPathOfDevice with the tries that are left.
  pub retry_rounds : ℕ → Device → Bool → W → (Result (List PathInfo) × Device) × W
  retry_rounds zero dev need_active w = multipath_get_paths_of_device dev need_active w
  retry_rounds (suc left) dev need_active w =
      let ((r, dev'), w') = multipath_get_paths_of_device dev need_active w in
      let later = retry_rounds left dev' need_active (sleep 5 w') in
      if is_timeout r then later else ((r, dev'), w')

  -- retryGetPathOfDevice, with its own maxTries of 5.
  pub retry_get_path_of_device : Device → Bool → W → (Result (List PathInfo) × Device) × W
  retry_get_path_of_device dev need_active w = retry_rounds 5 dev need_active w

  -- The error of a command, `none` if it worked.
  unfoldable pub multipath_disable_queuing : Device → W → Option Text × W
  multipath_disable_queuing dev w =
      let ((out, e), w') =
        exec (codes "dmsetup")
          (codes "message" ∷ dev.mpath_name ∷ codes "0" ∷ codes "fail_if_no_path" ∷ []) w in
      elim e [
        | some m ↦ (some m, w')
        | none ↦
            (if not (is_nil out) && contains out (codes "No such device or address")
              then (
                some (
                    codes "failed to disable queuing for "
                    ++ (dev.mpath_name ++ (codes ". Error: " ++ out))),
                w',
              )
              else (none, w'))
      ]
