-- ===== src/Csp/Volumes.antt =====
-- storageprovider/csp/container_storage_provider.go: the operations on volumes, but for their cloning.
use common_host_libs.Prelude.{
  ℕ, Bool, List, [], ◌∷◌, ◌++◌, Option, none, some, String, ◌==◌, if◌then◌else◌, ◌⊎◌, inl, inr,
  lookup, erase,
}
use common_host_libs.Prelude.Int.{ℤ}
use common_host_libs.Prelude.Text.{Text, codes}
use common_host_libs.Connectivity.{Net, ok_status}
use common_host_libs.Model.{Volume, zero_volume}
use common_host_libs.Csp.{
  Credentials, CspError, text, volume_payload, publish_payload, Json, M, ◌>>=◌, pure, panic,
  handle_error,
}
use common_host_libs.Csp.Session.{Reply}
use common_host_libs.Csp.Groups.{api, object_path, request, object_result, invoked, told}

abbrev pub decoding_error : String → Text → CspError
decoding_error kind m =
    text (codes "Error while decoding the " ++ (codes kind ++ (codes " response, err: " ++ m)))

abbrev pub decode_all : {A : Type 0} → (Option A → A ⊎ Text) → List (Option A) → List A ⊎ Text
decode_all f [] = inl []
decode_all f (x ∷ xs) = elim (f x) [
  | inr m ↦ inr m
  | inl a ↦ elim (decode_all f xs) [ inr m ↦ inr m | inl rest ↦ inl (a ∷ rest) ]
]

-- The entries of a list response, unless one cannot be decoded.
abbrev pub all_result :
    {A : Type 0} → String → List A ⊎ Text → Option CspError → List A × Option CspError
all_result kind (inl as') err = (as', err)
all_result kind (inr m) err = ([], some (decoding_error kind m))

-- `if errorResponse != nil { return nil, handleError(status, errorResponse) }`, and the rest.
abbrev pub unless_refused :
    {W A B : Type 0} → Reply A → B → M W (B × Option CspError) → M W (B × Option CspError)
unless_refused r nothing rest = elim r.targets.response_error [
  | none ↦ rest
  | some es ↦ (do e ← handle_error r.status es; pure (nothing, some e))
]

-- The error that goes along with a list: that of the request if it is empty, and otherwise that of the
-- last decoding.
abbrev pub err_of : {A : Type 0} → Reply (List A) → Option CspError
err_of r = elim r.targets.response [ [] ↦ r.err | x ∷ xs ↦ none ]

-- The one object of a list response.
abbrev pub first_result :
    {A : Type 0}
    → String
    → (Option A → A ⊎ Text)
    → String
    → List (Option A)
    → Option A × Option CspError
first_result kind f name [] = (
  none,
  some (
      text (
        codes "Could not find "
        ++ (codes kind ++ (codes " named " ++ (codes name ++ codes " in json response"))))),
)
first_result kind f name (x ∷ xs) = elim (f x) [
  | inl a ↦ (some a, none)
  | inr m ↦ (none, some (decoding_error kind m))
]

module _ {Body W V Node Info : Type 0} (net : Net Body W) (json : Json Body V Node Info)
    (creds : Credentials) (prefix : Text) (fuel : ℕ) where
  unfoldable pub create_volume :
      String → String → ℤ → Option (List (String × V)) → M W (Option Volume × Option CspError)
  create_volume name description size opts = do
    r ←
        invoked net json creds prefix fuel
          (request json (codes "POST") (api "volumes")
            (some (
              volume_payload
                (record zero_volume { name = name; size = size; description = description }) opts))
            (some json.volume))
          (some zero_volume)
    object_result r

  unfoldable pub delete_volume : String → Bool → M W (Option CspError)
  delete_volume id force =
      told net json creds prefix fuel (codes "DELETE")
        (object_path "volumes" id
          ++ (codes "?force=" ++ (if force then codes "true" else codes "false")))
        none

  unfoldable pub publish_volume : String → String → String → M W (Option Info × Option CspError)
  publish_volume id host_uuid access_protocol = do
    r ←
        invoked net json creds prefix fuel
          (request json (codes "PUT") (object_path "volumes" id ++ codes "/actions/publish")
            (some (publish_payload host_uuid access_protocol)) (some json.publish_info))
          (some json.zero_info)
    object_result r

  unfoldable pub unpublish_volume : String → String → M W (Option CspError)
  unpublish_volume id host_uuid =
      told net json creds prefix fuel (codes "PUT")
        (object_path "volumes" id ++ codes "/actions/unpublish")
        (some (publish_payload host_uuid ""))

  unfoldable pub expand_volume : String → ℤ → M W (Option Volume × Option CspError)
  expand_volume id request_bytes = do
    r ←
        invoked net json creds prefix fuel
          (request json (codes "PUT") (object_path "volumes" id)
            (some (volume_payload (record zero_volume { id = id; size = request_bytes }) none))
            (some json.volume))
          (some zero_volume)
    object_result r

  abbrev edited : Volume → Option (List (String × V)) → M W (Option Volume × Option CspError)
  edited v opts = do
    r ←
        invoked net json creds prefix fuel
          (request json (codes "PUT") (object_path "volumes" v.id) (some (volume_payload v opts))
            (some json.volume))
          (some zero_volume)
    object_result r

  -- An option that is a part of the volume itself, taken out of the map; a value that is no string
  -- fails its type assertion.
  abbrev taken :
      String
      → (String → Volume → Volume)
      → Volume × List (String × V)
      → Option (Volume × List (String × V))
  taken key into (v, opts) = elim (lookup key opts) [
    | none ↦ some (v, opts)
    | some value ↦ elim (json.as_string value) [
      | none ↦ none
      | some s ↦ some (into s v, erase key opts)
    ]
  ]

  abbrev described : String → Volume → Volume
  described s v = record v { description = s }

  abbrev grouped : String → Volume → Volume
  grouped s v = record v { volume_group_id = s }

  -- EditVolume; `none` is a nil map.
  unfoldable pub edit_volume :
      String → Option (List (String × V)) → M W (Option Volume × Option CspError)
  edit_volume id none = edited (record zero_volume { id = id }) none
  edit_volume id (some opts) =
      elim (taken "description" described (record zero_volume { id = id }, opts)) [
        | none ↦ panic
        | some x ↦ elim (taken "volumeGroupId" grouped x) [
          | none ↦ panic
          | some (v, rest) ↦ edited v (some rest)
        ]
      ]

  abbrev got : Reply (Option Volume) → M W (Option Volume × Option CspError)
  got r =
      if r.status == ok_status
      then pure (r.targets.response, none)
      else if r.status == 404
      then pure (none, none)
      else unless_refused r none (pure (none, r.err))

  unfoldable pub get_volume : String → M W (Option Volume × Option CspError)
  get_volume id = do
    r ←
        invoked net json creds prefix fuel
          (request json (codes "GET") (object_path "volumes" id) none (some json.volume))
          (some zero_volume)
    got r

  abbrev got_by_name : String → Reply (List (Option Volume)) → M W (Option Volume × Option CspError)
  got_by_name name r =
      if r.status == 404
      then pure (none, none)
      else unless_refused r none
          (pure (first_result "volume" json.redecode_volume name r.targets.response))

  unfoldable pub get_volume_by_name : String → M W (Option Volume × Option CspError)
  get_volume_by_name name = do
    r ←
        invoked net json creds prefix fuel
          (request json (codes "GET") (api "volumes?name=" ++ codes name) none (some json.volumes))
          []
    got_by_name name r

  unfoldable pub get_volumes : M W (List Volume × Option CspError)
  get_volumes = do
    r ←
        invoked net json creds prefix fuel
          (request json (codes "GET") (api "volumes") none (some json.volumes)) []
    unless_refused r []
        (pure (all_result "volume" (decode_all json.redecode_volume r.targets.response) (err_of r)))
