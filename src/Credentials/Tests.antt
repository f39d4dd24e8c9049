-- ===== src/Credentials/Tests.antt =====
-- storageprovider/storage_provider.go: the secrets of one provider in two orders.
use common_host_libs.Prelude.{
  ◌≡◌, refl, subst, Bool-cases, List, [], ◌∷◌, String, inl, inr, eq_iff, str_eq, lookup,
}
use common_host_libs.Prelude.Decimal.{atoi}
use common_host_libs.Prelude.Text.{Text, codes}
use common_host_libs.Credentials.{create_credentials, populate, missing, bad_port}
use common_host_libs.Credentials.Order.{create_credentials_order}

abbrev secrets : List (String × Text)
secrets =
    ("username", codes "admin")
    ∷ ("password", codes "secret")
    ∷ ("backend", codes "10.0.0.1")
    ∷ ("servicePort", codes "8080")
    ∷ []

abbrev shuffled : List (String × Text)
shuffled =
    ("servicePort", codes "8080")
    ∷ ("username", codes "admin")
    ∷ ("password", codes "secret")
    ∷ ("backend", codes "10.0.0.1")
    ∷ []

same_secrets : (k : String) → lookup k secrets ≡ lookup k shuffled
same_secrets k = elim (Bool-cases (str_eq "servicePort" k)) [
  | inl p ↦ subst (λ j. lookup j secrets ≡ lookup j shuffled) ((eq_iff "servicePort" k).0 p) refl
  | inr p ↦ rw p refl
]

create_credentials_order_example : create_credentials secrets ≡ create_credentials shuffled
create_credentials_order_example =
    create_credentials_order secrets shuffled (refl, (refl, (refl, (refl, tt))))
      (refl, (refl, (refl, (refl, tt)))) same_secrets

port_test : create_credentials (("servicePort", codes "80a") ∷ []) ≡ inr (bad_port (codes "80a"))
unfolding create_credentials populate atoi
port_test = refl

backend_test :
    create_credentials (("username", codes "u") ∷ ("password", codes "p") ∷ [])
    ≡ inr (missing "backend IP")
unfolding create_credentials populate
backend_test = refl
