-- ===== src/Csp/Messages.antt =====
-- storageprovider/csp/container_storage_provider.go: the error that CreateSnapshot makes of a message.
use common_host_libs.Prelude.{
  ℕ, ◌≡◌, refl, sym, ap, subst, ◌∙◌, true, List, String, [], ◌∷◌, ◌++◌, Option, none, some, arith,
  ◌⊎◌, inl, inr, Option-cases,
}
use mathlib.Core.Option.{some-injective}
use common_host_libs.Prelude.Text.{Text, codes, contains, strip_prefix, decimal}
use common_host_libs.Connectivity.{Net}
use common_host_libs.Model.{Snapshot, zero_snapshot}
use common_host_libs.Csp.{
  Credentials, ErrorObject, ErrorsPayload, resource_exhausted, snapshot_payload, Json, State,
  Outcome, ok, then_run, error_string, failed_text,
}
use common_host_libs.Csp.Session.{Reply}
use common_host_libs.Csp.Groups.{api, request, invoked}
use common_host_libs.Csp.Snapshots.{created, create_snapshot}

-- The text of an error object with that of the others behind it.
abbrev entry : ErrorObject → Text → Text
entry e rest =
    codes "Error code ("
    ++ (e.code ++ (codes ") and message (" ++ (e.message ++ (codes ")" ++ rest))))

strip_prefix-append :
    (p s t r : Text) → strip_prefix p s ≡ some r → strip_prefix p (s ++ t) ≡ some (r ++ t)
strip_prefix-append [] s t r h = ground (arith, h)
strip_prefix-append (a ∷ p) [] t r h = ground (arith, h)
strip_prefix-append (a ∷ p) (c ∷ s) t r h = ground (arith, h, strip_prefix-append p s t r)

strip_prefix-contains : (p s r : Text) → strip_prefix p s ≡ some r → contains s p ≡ true
strip_prefix-contains p [] r h = rw (contains, h) refl
strip_prefix-contains p (c ∷ s) r h = rw (contains, h) refl

contains_later : (c : ℕ) (s p : Text) → contains s p ≡ true → contains (c ∷ s) p ≡ true
contains_later c s p h = elim (Option-cases (strip_prefix p (c ∷ s))) [
  | inl e ↦ rw (contains, e) h
  | inr (r, e) ↦ strip_prefix-contains p (c ∷ s) r e
]

contains_left : (s t p : Text) → contains s p ≡ true → contains (s ++ t) p ≡ true
contains_left [] t p h = elim (Option-cases (strip_prefix p [])) [
  | inl e ↦ ground (arith, h, e)
  | inr (r, e) ↦ strip_prefix-contains p t (r ++ t) (strip_prefix-append p [] t r e)
]
contains_left (c ∷ s) t p h = elim (Option-cases (strip_prefix p (c ∷ s))) [
  | inl e ↦
      let k : contains (c ∷ s) p ≡ contains s p = rw (contains, e) refl in
      contains_later c (s ++ t) p (contains_left s t p (sym k ∙ h))
  | inr (r, e) ↦
      strip_prefix-contains p (c ∷ (s ++ t)) (r ++ t) (strip_prefix-append p (c ∷ s) t r e)
]

contains_right : (s t p : Text) → contains t p ≡ true → contains (s ++ t) p ≡ true
contains_right [] t p h = h
contains_right (c ∷ s) t p h = contains_later c (s ++ t) p (contains_right s t p h)

-- The message of one of the error objects has the text p.
abbrev pub Mentions : Text → ErrorsPayload → Type 0
Mentions p [] = ⊥
Mentions p (none ∷ es) = Mentions p es
Mentions p (some e ∷ es) = (contains e.message p ≡ true) ⊎ Mentions p es

entry_later :
    (e : ErrorObject) (rest p : Text)
    → contains (e.message ++ (codes ")" ++ rest)) p ≡ true
    → contains (entry e rest) p ≡ true
entry_later e rest p h =
    contains_right (codes "Error code (") _ p
      (contains_right e.code _ p (contains_right (codes ") and message (") _ p h))

error_string-Mentions :
    (es : ErrorsPayload) (m p : Text)
    → error_string es ≡ some m
    → Mentions p es
    → contains m p ≡ true
error_string-Mentions [] m p h k = elim k [ ]
error_string-Mentions (none ∷ es) m p h k = ground (arith, h)
error_string-Mentions (some e ∷ es) m p h k = elim (Option-cases (error_string es)) [
  | inl q ↦ ground (arith, h, q)
  | inr (rest, q) ↦
      let i : error_string (some e ∷ es) ≡ some (entry e rest) = rw (error_string, q) refl in
      subst (λ t. contains t p ≡ true) (some-injective _ _ (sym i ∙ h))
        (entry_later e rest p (elim k [
          | inl x ↦ contains_left e.message _ p x
          | inr x ↦
              contains_right e.message _ p
                (contains_right (codes ")") rest p (error_string-Mentions es rest p q x))
        ]))
]

failed_text-contains :
    (status : ℕ) (m p : Text) → contains m p ≡ true → contains (failed_text status m) p ≡ true
failed_text-contains status m p h =
    contains_right (codes "Request failed with status code ") _ p
      (contains_right (decimal 20 status) _ p (contains_right (codes " and errors ") m p h))

module _ {Body W V Node Info : Type 0} (net : Net Body W) (json : Json Body V Node Info)
    (creds : Credentials) (prefix : Text) (fuel : ℕ) (name description source : String)
    (opts : Option (List (String × V))) (s s' : State W) where
  abbrev pub snapshot_reply : Outcome (Reply (Option Snapshot)) × State W
  snapshot_reply =
      invoked net json creds prefix fuel
        (request json (codes "POST") (api "snapshots")
          (some (
            snapshot_payload
              (record zero_snapshot { name = name; volume_id = source; description = description })
              opts))
          (some json.snapshot))
        (some zero_snapshot) s

  -- If CreateSnapshot is refused with errors of which one has a message with the text insufficient
  -- storage space, at whatever place, it returns the gRPC error ResourceExhausted.
  pub create_snapshot_no_space :
      (r : Reply (Option Snapshot)) (es : ErrorsPayload) (m : Text)
      → snapshot_reply ≡ (ok r, s')
      → r.targets.response_error ≡ some es
      → error_string es ≡ some m
      → Mentions (codes "insufficient storage space") es
      → create_snapshot net json creds prefix fuel name description source opts s
        ≡ (ok (none, some resource_exhausted), s')
  unfolding create_snapshot
  create_snapshot_no_space r es m a p q k =
      ap (λ x. then_run x (created net json creds prefix fuel)) a
      ∙ rw (p, created, q, failed_text-contains r.status m _ (error_string-Mentions es m _ q k))
          refl
