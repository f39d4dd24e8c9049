-- ===== src/Credentials/Order.antt =====
-- storageprovider/storage_provider.go: CreateCredentials does not depend on the order of the secrets.
use common_host_libs.Prelude.{
  ◌≡◌, refl, sym, ap, subst, ◌∙◌, false, List, [], ◌∷◌, Option, none, some, String, str_eq, eq_iff,
  ◌⊎◌, inl, inr, lookup, arith, Bool-cases, Option-cases,
}
use text.Mathlib.TextPositions.{eq_refl}
use common_host_libs.Prelude.Decimal.{atoi}
use common_host_libs.Prelude.Text.{Text}
use common_host_libs.Csp.{Credentials}
use common_host_libs.Credentials.{
  CredentialsError, bad_port, zero_credentials, populate, checked_sum, create_credentials,
}

abbrev or_kept : Option Text → Text → Text
or_kept none s = s
or_kept (some t) s = t

-- The credentials with each text that the secrets have.
abbrev fields : List (String × Text) → Credentials → Credentials
fields s c = record {
  username = or_kept (lookup "username" s) c.username;
  password = or_kept (lookup "password" s) c.password;
  backend = or_kept (lookup "backend" s) c.backend;
  service_port = c.service_port;
  context_path = or_kept (lookup "path" s) c.context_path;
  service_name = or_kept (lookup "serviceName" s) c.service_name;
  csp_client_timeout = c.csp_client_timeout;
}

abbrev with_port : Option Text → Credentials → Credentials ⊎ CredentialsError
with_port none c = inl c
with_port (some v) c = elim (atoi v) [
  | none ↦ inr (bad_port v)
  | some port ↦ inl (record c { service_port = port })
]

-- The secrets looked up one by one.
abbrev looked_up : List (String × Text) → Credentials → Credentials ⊎ CredentialsError
looked_up s c = with_port (lookup "servicePort" s) (fields s c)

-- Each key stands in the list once, as in a map.
abbrev pub HasDistinctKeys : List (String × Text) → Type 0
HasDistinctKeys [] = Unit
HasDistinctKeys ((k, v) ∷ s) = (lookup k s ≡ none) × HasDistinctKeys s

module _ (v : Text) (s : List (String × Text))
    (h : (c : Credentials) → populate s c ≡ looked_up s c) (c : Credentials) where
  -- The loop and the lookups agree if they do on the other secrets.
  abbrev Agrees : String → Type 0
  Agrees k = lookup k s ≡ none → populate ((k, v) ∷ s) c ≡ looked_up ((k, v) ∷ s) c

  kept_text :
      (k : String) (f : Text → Credentials) → lookup k s ≡ none → f (or_kept (lookup k s) v) ≡ f v
  kept_text k f e = rw e refl

  Agrees-text :
      (Agrees "backend")
      × (Agrees "username")
      × (Agrees "password")
      × (Agrees "serviceName")
      × (Agrees "path")
  unfolding populate
  Agrees-text = (
    λ e.
        h (record c { backend = v })
        ∙ ap (with_port (lookup "servicePort" s))
            (kept_text "backend" (λ u. record (fields s c) { backend = u }) e),
    λ e.
        h (record c { username = v })
        ∙ ap (with_port (lookup "servicePort" s))
            (kept_text "username" (λ u. record (fields s c) { username = u }) e),
    λ e.
        h (record c { password = v })
        ∙ ap (with_port (lookup "servicePort" s))
            (kept_text "password" (λ u. record (fields s c) { password = u }) e),
    λ e.
        h (record c { service_name = v })
        ∙ ap (with_port (lookup "servicePort" s))
            (kept_text "serviceName" (λ u. record (fields s c) { service_name = u }) e),
    λ e.
        h (record c { context_path = v })
        ∙ ap (with_port (lookup "servicePort" s))
            (kept_text "path" (λ u. record (fields s c) { context_path = u }) e),
  )

  Agrees-port : Agrees "servicePort"
  unfolding populate
  Agrees-port e = elim (Option-cases (atoi v)) [
    | inl p ↦ rw (populate, looked_up, with_port, p) refl
    | inr (port, p) ↦
        rw (populate, p)
          (h (record c { service_port = port }) ∙ rw (e, looked_up, with_port, p) refl)
  ]

  Agrees-other :
      (k : String)
      → str_eq k "backend" ≡ false
      → str_eq k "username" ≡ false
      → str_eq k "password" ≡ false
      → str_eq k "servicePort" ≡ false
      → str_eq k "serviceName" ≡ false
      → str_eq k "path" ≡ false
      → Agrees k
  unfolding populate
  Agrees-other k p q r t u w e = rw (populate, p, q, r, t, u, w) (h c)

  Agrees-if : (k j : String) → Agrees j → (str_eq k j ≡ false → Agrees k) → Agrees k
  Agrees-if k j a b = elim (Bool-cases (str_eq k j)) [
    | inl p ↦ subst Agrees (sym ((eq_iff k j).0 p)) a
    | inr p ↦ b p
  ]

  agree_all : (k : String) → Agrees k
  agree_all k =
      let (b, u, p, n, t) = Agrees-text in
      Agrees-if k "backend" b (λ e1. Agrees-if k "username" u (λ e2. Agrees-if k "password" p (λ e3.
        Agrees-if k "servicePort" Agrees-port (λ e4.
          Agrees-if k "serviceName" n
            (λ e5. Agrees-if k "path" t (λ e6. Agrees-other k e1 e2 e3 e4 e5 e6))))))

populate-looked_up :
    (s : List (String × Text)) (c : Credentials) → HasDistinctKeys s → populate s c ≡ looked_up s c
unfolding populate
populate-looked_up [] c d = refl
populate-looked_up ((k, v) ∷ s) c d = agree_all v s (λ c'. populate-looked_up s c' d.1) c k d.0

looked_up_same :
    (s t : List (String × Text))
    → ((k : String) → lookup k s ≡ lookup k t)
    → looked_up s zero_credentials ≡ looked_up t zero_credentials
looked_up_same s t h =
    rw (h "servicePort", h "username", h "password", h "backend", h "path", h "serviceName") refl

-- Two lists of the same secrets, with each key once, give the same credentials or the same error.
pub create_credentials_order :
    (s t : List (String × Text))
    → HasDistinctKeys s
    → HasDistinctKeys t
    → ((k : String) → lookup k s ≡ lookup k t)
    → create_credentials s ≡ create_credentials t
unfolding create_credentials
create_credentials_order [] [] d e h = refl
create_credentials_order [] ((k, v) ∷ t) d e h = ground (arith, h k, eq_refl k)
create_credentials_order ((k, v) ∷ s) [] d e h = ground (arith, h k, eq_refl k)
create_credentials_order ((k, v) ∷ s) ((j, u) ∷ t) d e h = ap checked_sum (
    populate-looked_up ((k, v) ∷ s) zero_credentials d
    ∙ (looked_up_same ((k, v) ∷ s) ((j, u) ∷ t) h
        ∙ sym (populate-looked_up ((j, u) ∷ t) zero_credentials e)))
