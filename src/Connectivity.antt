-- ===== src/Connectivity.antt =====
-- connectivity/client.go: one exchange of JSON over HTTP, with its retries.
-- Net is what stands behind the client and is not part of this repository: `exchange` is http.Client.Do
-- on a request, W the state of the network and the servers, `invalid` the error of http.NewRequest and
-- `sleep` time.Sleep in seconds. What a body holds is read by decoders, which stand for encoding/json:
-- a body may give a value and an error both, since json may fill a part of its target. The caller's
-- variables behind Response and ResponseError are the Targets.
pub mod Attempts
pub mod Answers
mod Tests
use common_host_libs.Prelude.{
  ℕ, zero, suc, ◌-◌, Bool, true, false, not, ◌&&◌, ◌||◌, List, [], ◌∷◌, ◌++◌, Option, none, some,
  ◌==◌, if◌then◌else◌,
}
use common_host_libs.Prelude.Text.{Text, codes, contains, has_prefix, to_lower}

abbrev pub Headers : Type 0
Headers = List (Text × Text)

-- What Decode does to its target, with its error; the end of an empty body is no error.
pub record Decoded {ℓ} (A : Type ℓ) : Type ℓ where
  pub value : Option A
  pub error : Option Text

-- A payload as encoding/json encodes it.
pub data Encoded {ℓ} (Body : Type ℓ) : Type ℓ where
  encoded : Body → Encoded Body
  encode_error : Text → Encoded Body

pub record HttpRequest {ℓ} (Body : Type ℓ) : Type ℓ where
  pub action : Text
  pub path : Text
  pub header : Headers
  pub body : Option Body

pub data HttpResult {ℓ} (Body : Type ℓ) : Type ℓ where
  answered : (status : ℕ) (status_text : Text) (body : Body) → HttpResult Body
  failed : Text → HttpResult Body

pub record Net (Body W : Type 0) : Type 0 where
  pub exchange : HttpRequest Body → W → HttpResult Body × W
  pub invalid : Text → Text → Option Text
  pub sleep : ℕ → W → W

-- connectivity.Request: `none` is nil, and a decoder knows the type of the target.
pub record Request (Body A E : Type 0) : Type 0 where
  pub action : Text
  pub path : Text
  pub header : Headers
  pub payload : Option (Encoded Body)
  pub response : Option (Body → Decoded A)
  pub response_error : Option (Body → Decoded E)

pub record Targets (A E : Type 0) : Type 0 where
  pub response : A
  pub response_error : E

abbrev pub ok_status : ℕ
ok_status = 200

-- 502, 503 and 504
abbrev pub is_parsable_error : ℕ → Bool
is_parsable_error status = not (status == 502 || (status == 503 || status == 504))

abbrev pub is_success : ℕ → Bool
is_success status = status == 200 || (status == 201 || status == 204)

abbrev pub is_timeout : Text → Bool
is_timeout msg = contains (to_lower msg) (codes "timeout")

-- The path that DoJSON writes into the request.
abbrev pub full_path : Text → Text → Text
full_path prefix path =
    if has_prefix path (codes "/") then prefix ++ path else prefix ++ (b'/' ∷ path)

abbrev pub or_kept : {A : Type 0} → Option A → A → A
or_kept none a = a
or_kept (some b) a = b

-- decode; with no destination there is nothing to decode.
abbrev pub decode : {Body A : Type 0} → Body → Option (Body → Decoded A) → Decoded A
decode body none = record { value = none; error = none }
decode body (some dec) = dec body

-- What DoJSON leaves: the request and the targets that it has changed, the status and the error.
pub record Answer (Body A E : Type 0) : Type 0 where
  pub request : Request Body A E
  pub targets : Targets A E
  pub status : ℕ
  pub err : Option Text

abbrev pub status_error : {Body : Type 0} → HttpRequest Body → Text → Text
status_error r status_text =
    codes "status code was "
    ++ (status_text ++ (codes " for request: action=" ++ (r.action ++ (codes " path=" ++ r.path))))

-- The headers of an HTTP request; those of the request come behind the client's own.
abbrev pub json_headers : Headers
json_headers =
    (codes "Accept", codes "application/json")
    ∷ (codes "Content-Type", codes "application/json")
    ∷ []

module _ {Body A E : Type 0} where
  abbrev pub http_request : Request Body A E → Option Body → HttpRequest Body
  http_request r body = record {
    action = r.action;
    path = r.path;
    header = json_headers ++ r.header;
    body = body;
  }

  -- The answer to a response with a status that is not a success. A decoding error replaces the
  -- request's own ResponseError, and leaves the caller's variable.
  abbrev pub refused :
      Request Body A E → Targets A E → HttpRequest Body → ℕ → Text → Body → Answer Body A E
  refused r t h status status_text body =
      if is_parsable_error status
      then (let d = decode body r.response_error in
          let t' : Targets A E = record t { response_error = or_kept d.value t.response_error } in
          elim d.error [
            | some m ↦ record {
              request = record r { response_error = none };
              targets = t';
              status = status;
              err = some m;
            }
            | none ↦ record {
              request = r;
              targets = t';
              status = status;
              err = some (status_error h status_text);
            }
          ])
      else record {
        request = r;
        targets = t;
        status = status;
        err = some (status_error h status_text);
      }

  abbrev pub accepted : Request Body A E → Targets A E → ℕ → Body → Answer Body A E
  accepted r t status body =
      let d = decode body r.response in
      record {
        request = r;
        targets = record t { response = or_kept d.value t.response };
        status = status;
        err = d.error;
      }

  unfoldable pub answer_of :
      Request Body A E → Targets A E → HttpRequest Body → HttpResult Body → Answer Body A E
  answer_of r t h (failed m) = record { request = r; targets = t; status = 0; err = some m }
  answer_of r t h (answered status status_text body) =
      if is_success status then accepted r t status body else refused r t h status status_text body

-- What one exchange leads to: its result, or the rounds behind it.
abbrev pub concluded :
    {Body W : Type 0} → HttpResult Body × W → HttpResult Body × W → HttpResult Body × W
concluded (answered status status_text body, w) later = (answered status status_text body, w)
concluded (failed m, w) later = if is_timeout m then (failed m, w) else later

module _ {Body W : Type 0} (net : Net Body W) where
  -- The loop of doWithRetry with the tries that are left, and those that are done.
  unfoldable pub do_rounds : ℕ → ℕ → HttpRequest Body → W → HttpResult Body × W
  do_rounds zero tries h w = net.exchange h w
  do_rounds (suc left) tries h w =
      concluded (net.exchange h w)
        (do_rounds left (suc tries) h (net.sleep (suc tries) (net.exchange h w).1))

  -- doWithRetry, with its own maxTries of 3.
  unfoldable pub do_with_retry : HttpRequest Body → W → HttpResult Body × W
  do_with_retry h w = do_rounds 3 0 h w

  module _ {A E : Type 0} where
    -- The exchange itself, once the path is set and the payload is encoded.
    unfoldable pub sent : Request Body A E → Targets A E → Option Body → W → Answer Body A E × W
    sent r t body w = elim (net.invalid r.action r.path) [
      | some m ↦ (record { request = r; targets = t; status = 0; err = some m }, w)
      | none ↦
          (let (result, w') = do_with_retry (http_request r body) w in
            (answer_of r t (http_request r body) result, w'))
    ]

    -- DoJSON of the client with this prefix.
    unfoldable pub do_json : Text → Request Body A E → Targets A E → W → Answer Body A E × W
    do_json prefix r t w =
        let r' : Request Body A E = record r { path = full_path prefix r.path } in
        elim r.payload [
          | none ↦ sent r' t none w
          | some (encoded body) ↦ sent r' t (some body) w
          | some (encode_error m) ↦
              (record { request = r'; targets = t; status = 0; err = some m }, w)
        ]
