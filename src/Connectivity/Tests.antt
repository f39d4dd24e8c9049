-- ===== src/Connectivity/Tests.antt =====
-- connectivity/client.go: exchanges with a server that is down for a while.
use common_host_libs.Prelude.{ℕ, ◌+◌, [], Option, none, some, ltb, if◌then◌else◌}
use common_host_libs.Prelude.Text.{Text, codes}
use common_host_libs.Connectivity.{HttpRequest, answered, failed, Net, Request, Targets}

-- The world has the seconds that have gone by; the server is up from the third on, and no exchange
-- takes any time.
abbrev net : Net Text ℕ
net = record {
  exchange = λ h w. (
    if ltb w 3
        then failed (codes "connection refused")
        else answered 200 (codes "200 OK") (codes "hello"),
    w,
  );
  invalid = λ a p. none;
  sleep = λ n w. w + n;
}

abbrev get : HttpRequest Text
get = record { action = codes "GET"; path = codes "/v"; header = []; body = none }

abbrev text_request : Request Text Text (Option Text)
text_request = record {
  action = codes "GET";
  path = codes "v";
  header = [];
  payload = none;
  response = some (λ b. record { value = some b; error = none });
  response_error = none;
}

abbrev blank : Targets Text (Option Text)
blank = record { response = []; response_error = none }
