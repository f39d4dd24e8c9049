-- ===== src/Multipath/Maps.antt =====
-- linux/multipath.go and linux/device.go: the map of a multipath device, its name and its removal.
-- `read_first_line` is util.FileReadFirstLine, which reads a file of the host.
use common_host_libs.Prelude.{
  ℕ, Bool, not, ◌&&◌, List, [], ◌∷◌, ◌++◌, Option, none, some, if◌then◌else◌,
}
use common_host_libs.Prelude.Text.{Text, codes, contains, is_nil}
use common_host_libs.Multipath.{Device, Result, multipathd_show_cmd}

abbrev pub dm_name_file : Text → Text
dm_name_file minor = codes "/sys/block/dm-" ++ (minor ++ codes "/dm/name")

-- The answer of dmsetup to the removal of a map, where the command itself worked.
abbrev pub is_removal_error : Text → Bool
is_removal_error out =
    not (is_nil out)
    && (not (contains out (codes "ok")) && not (contains out (codes "No such device or address")))

module _ {W : Type 0} (exec : Text → List Text → W → (Text × Option Text) × W)
    (read_first_line : Text → W → (Text × Option Text) × W) (sleep : ℕ → W → W) where
  unfoldable pub multipathd_show_maps : Text → W → Result (List Text) × W
  multipathd_show_maps serial w =
      multipathd_show_cmd exec sleep
        (codes "show" ∷ codes "maps" ∷ codes "format" ∷ codes "%w %d %n %s" ∷ []) serial w

  -- MultipathdReconfigure, with its output and its error.
  unfoldable pub multipathd_reconfigure : W → (Text × Option Text) × W
  multipathd_reconfigure w =
      let ((out, e), w') = exec (codes "multipathd") (codes "reconfigure" ∷ []) w in
      elim e [
        | none ↦ ((out, none), w')
        | some m ↦ (
          (
            out,
            some
                (codes "unable to reconfigure multipathd settings, Error: " ++ (m ++ (b' ' ∷ out))),
          ),
          w',
        )
      ]

  -- getMpathName, with the device that it changes.
  unfoldable pub get_mpath_name : Device → W → ((Text × Option Text) × Device) × W
  get_mpath_name dev w =
      if is_nil dev.mpath_name
      then (let ((name, e), w') = read_first_line (dm_name_file dev.minor) w in
          elim e [
            | some m ↦ ((([], some m), dev), w')
            | none ↦ (((name, none), record dev { mpath_name = name }), w')
          ])
      else (((dev.mpath_name, none), dev), w)

  -- setAltFullPathName
  unfoldable pub set_alt_full_path_name : Device → W → (Option Text × Device) × W
  set_alt_full_path_name dev w =
      let (((name, e), dev'), w') = get_mpath_name dev w in
      elim e [
        | some m ↦ ((some m, dev'), w')
        | none ↦ ((none, record dev' { alt_full_path_name = codes "/dev/mapper/" ++ name }), w')
      ]

  abbrev pub removed : Device → W → Option Text × W
  removed dev w =
      let ((out, e), w') =
        exec (codes "dmsetup") (codes "remove" ∷ codes "--force" ∷ dev.mpath_name ∷ []) w in
      elim e [
        | some m ↦ (
          some (
              codes "failed to remove multipath map for "
              ++ (dev.mpath_name ++ (codes ". Error: " ++ m))),
          w',
        )
        | none ↦
            (if is_removal_error out
              then (
                some (
                    codes "failed to remove device map for "
                    ++ (dev.mpath_name ++ (codes ". Error: " ++ out))),
                w',
              )
              else (none, w'))
      ]

  -- multipathRemoveDmDevice
  unfoldable pub multipath_remove_dm_device : Device → W → (Option Text × Device) × W
  multipath_remove_dm_device dev w =
      if is_nil dev.mpath_name
      then (let ((e, dev'), w') = set_alt_full_path_name dev w in
          elim e [
            | some m ↦ ((some m, dev'), w')
            | none ↦ (let (r, w'') = removed dev' w' in ((r, dev'), w''))
          ])
      else (let (r, w') = removed dev w in ((r, dev), w'))
