-- ===== src/Dockervol/Tests.antt =====
-- docker/dockervol/dockervol.go with small plugins.
use common_host_libs.Prelude.{
  ℕ, ◌+◌, ◌≡◌, refl, true, [], ◌∷◌, Option, none, ltb, if◌then◌else◌, List,
}
use common_host_libs.Prelude.Text.{Text, codes, text_eq}
use common_host_libs.Dockervol.{
  Plugin, find_socket, get_v2_plugin_socket, list, capabilities, get, Payload, Response, ok,
  checked_call, mounter, mount, delete,
}

abbrev answer : Text → Response
answer e = record {
  volume_name = codes "db";
  mountpoint = codes "/mnt/db";
  volumes = [];
  scope = codes "global";
  err = e;
}

abbrev errorf : Text → Text
errorf s = s

abbrev sleep : ℕ → ℕ → ℕ
sleep seconds now = now + seconds

-- A plugin that is busy for two seconds; the state is the time.
abbrev busy : Text → Text → Payload ℕ → ℕ → (Response × Option Text) × ℕ
busy action path payload now =
    if ltb now 2 then ((answer (codes "busy"), none), now) else ((answer [], none), now)

abbrev not_mounted : Text → Text → Payload ℕ → ℕ → (Response × Option Text) × ℕ
not_mounted action path payload now = ((answer (codes "Volume is not mounted"), none), now)

mounted : (mount busy errorf sleep (codes "db") (codes "7") 5).0 ≡ ok (codes "/mnt/db")
unfolding mount mounter checked_call
mounted = refl

deleted : (delete busy errorf sleep (codes "db") (codes "7") (λ s. 1) 5).0 ≡ none
unfolding delete checked_call
deleted = refl

got : (get busy errorf sleep (codes "db") 5).0 ≡ ok (answer [])
unfolding checked_call
got = refl

abbrev plugins : List Plugin
plugins =
    record { id = codes "1"; name = codes "other"; enabled = true; socket = codes "a.sock" }
    ∷ record {
      id = codes "2";
      name = codes "nimble:latest";
      enabled = true;
      socket = codes "n.sock";
    }
    ∷ []

socket :
    get_v2_plugin_socket (codes "nimble") (ok plugins)
    ≡ (codes "/run/docker/plugins/2/n.sock", none)
unfolding find_socket text_eq
socket = refl

listed : (list busy errorf sleep 5).0 ≡ ok []
unfolding checked_call
listed = refl

global_scope : (capabilities busy errorf sleep 0).0 ≡ ok (codes "global")
global_scope = refl
