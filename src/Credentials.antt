-- ===== src/Credentials.antt =====
-- storageprovider/storage_provider.go: CreateCredentials. Go reads a map in any order: the secrets are
-- listed in the order in which they are read, and each key stands in the list once.
pub mod Order
mod Tests
use common_host_libs.Prelude.{
  ℕ, Bool, true, false, not, ◌&&◌, ◌||◌, List, [], ◌∷◌, Option, none, some, String, str_eq, ◌⊎◌,
  inl, inr, if◌then◌else◌,
}
use common_host_libs.Prelude.Int.{ℤ, pos}
use common_host_libs.Prelude.Decimal.{atoi}
use common_host_libs.Prelude.Text.{Text, is_nil}
use common_host_libs.Csp.{Credentials}
use common_host_libs.Csp.Session.{is_zero}

pub data CredentialsError : Type 0 where
  no_secrets : CredentialsError
  bad_port : Text → CredentialsError
  missing : String → CredentialsError

abbrev pub zero_credentials : Credentials
zero_credentials = record {
  username = [];
  password = [];
  backend = [];
  service_port = pos 0;
  context_path = [];
  service_name = [];
  csp_client_timeout = pos 0;
}

-- The keys in front of that of the port, and those behind it.
abbrev pub with_text : String → Text → Credentials → Credentials
with_text key value c =
    let c1 : Credentials = if str_eq key "backend" then record c { backend = value } else c in
    let c2 : Credentials = if str_eq key "username" then record c1 { username = value } else c1 in
    if str_eq key "password" then record c2 { password = value } else c2

abbrev pub with_rest : String → Text → Credentials → Credentials
with_rest key value c =
    let c1 : Credentials =
      if str_eq key "serviceName" then record c { service_name = value } else c in
    if str_eq key "path" then record c1 { context_path = value } else c1

-- One round of the loop.
abbrev pub with_secret : String → Text → Credentials → Credentials ⊎ CredentialsError
with_secret key value c =
    if str_eq key "servicePort"
    then elim (atoi value) [
      | none ↦ inr (bad_port value)
      | some port ↦
          inl (with_rest key value (record (with_text key value c) { service_port = port }))
    ]
    else inl (with_rest key value (with_text key value c))

unfoldable pub populate : List (String × Text) → Credentials → Credentials ⊎ CredentialsError
populate [] c = inl c
populate ((key, value) ∷ secrets) c = elim (with_secret key value c) [
  | inr e ↦ inr e
  | inl c' ↦ populate secrets c'
]

-- The checks behind the loop.
abbrev pub checked : Credentials → Credentials ⊎ CredentialsError
checked c =
    if is_nil c.username
    then inr (missing "username")
    else if is_nil c.password
    then inr (missing "password")
    else if is_nil c.backend
    then inr (missing "backend IP")
    else if not (is_nil c.service_name) && is_zero c.service_port
    then inr (missing "port")
    else if not (is_nil c.service_name) && is_zero c.csp_client_timeout
    then inl (record c { csp_client_timeout = pos 60 })
    else inl c

abbrev pub checked_sum : Credentials ⊎ CredentialsError → Credentials ⊎ CredentialsError
checked_sum (inl c) = checked c
checked_sum (inr e) = inr e

unfoldable pub create_credentials : List (String × Text) → Credentials ⊎ CredentialsError
create_credentials [] = inr no_secrets
create_credentials (secret ∷ secrets) = checked_sum (populate (secret ∷ secrets) zero_credentials)
