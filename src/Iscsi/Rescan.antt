-- ===== src/Iscsi/Rescan.antt =====
-- linux/iscsi.go: the rescan of the host.
use common_host_libs.Prelude.{
  not, ◌&&◌, List, [], ◌∷◌, ◌++◌, Option, none, some, inl, inr, if◌then◌else◌,
}
use common_host_libs.Prelude.Text.{Text, codes, is_nil}
use common_host_libs.Prelude.Effects.{M, ◌>>=◌, pure, fail, call, look}
use common_host_libs.Iscsi.{Host, exists_of}
use common_host_libs.Iscsi.Targets.{dir_text}

module _ {W : Type 0} (host : Host W) where
  abbrev pub scan_path : Text → Text
  scan_path iscsi_host = codes "/sys/class/scsi_host/" ++ (iscsi_host ++ codes "/scan")

  abbrev pub scan_line : Text → Text
  scan_line lun_id = if is_nil lun_id then codes "- - -" else codes "- - " ++ lun_id

  abbrev pub scanned : Text → M W (Unit {0}) → Option Text → M W (Unit {0})
  scanned iscsi_host later none = later
  scanned iscsi_host later (some m) =
      fail
        (codes "unable to rescan for scsi devices on host " ++ (iscsi_host ++ (codes " err " ++ m)))

  unfoldable pub rescan_iscsi_hosts : List Text → Text → M W (Unit {0})
  rescan_iscsi_hosts [] lun_id = pure tt
  rescan_iscsi_hosts (h ∷ hs) lun_id =
      let later = rescan_iscsi_hosts hs lun_id in
      do
        exists ← look (host.file_exists (scan_path h))
        if not (is_nil h) && exists_of exists
            then (do e ← call (host.write_file (scan_path h) (scan_line lun_id)); scanned h later e)
            else later

  unfoldable pub get_iscsi_hosts : M W (List Text)
  get_iscsi_hosts w =
      if exists_of (host.file_exists (codes "/sys/class/iscsi_host/") w)
      then elim (host.read_dir (codes "/sys/class/iscsi_host/") w) [
        | inl files ↦ pure files w
        | inr e ↦ fail (codes "unable to get list of iscsi hosts, error " ++ dir_text host e) w
      ]
      else fail (codes "no iscsi hosts found") w

  unfoldable pub rescan_iscsi : Text → M W (Unit {0})
  rescan_iscsi lun_id = do hosts ← get_iscsi_hosts; rescan_iscsi_hosts hosts lun_id
