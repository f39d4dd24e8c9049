-- ===== src/Connectivity/Answers.antt =====
-- connectivity/client.go: what DoJSON leaves in the caller's variables, and the errors it returns.
use common_host_libs.Prelude.{
  ℕ, ◌≡◌, refl, sym, ap, ◌∙◌, Bool, true, false, Option, none, some, arith, ◌⊎◌, inl, inr,
  Option-cases, Bool-cases, if◌then◌else◌,
}
use common_host_libs.Prelude.Text.{Text}
use common_host_libs.Connectivity.{
  Net, encoded, encode_error, HttpResult, answered, failed, HttpRequest, Request, Targets,
  is_success, is_parsable_error, accepted, refused, decode, or_kept, status_error, answer_of,
  http_request, full_path, do_with_retry, sent, do_json,
}

module _ {Body A E : Type 0} where
  refused_errors :
      (r : Request Body A E) (t : Targets A E) (h : HttpRequest Body) (status : ℕ) (m : Text)
      (body : Body)
      → ((refused r t h status m body).targets.response_error ≡ t.response_error)
        ⊎ ((refused r t h status m body).targets.response_error
            ≡ or_kept (decode body r.response_error).value t.response_error)
  refused_errors r t h status m body = elim (Bool-cases (is_parsable_error status)) [
    | inl p ↦ elim (Option-cases (decode body r.response_error).error) [
      | inl q ↦ inr (rw (p, q) refl)
      | inr (x, q) ↦ inr (rw (p, q) refl)
    ]
    | inr p ↦ inl (rw p refl)
  ]

  refused_kept :
      (r : Request Body A E) (t : Targets A E) (h : HttpRequest Body) (status : ℕ) (m : Text)
      (body : Body)
      → r.response_error ≡ none
      → (refused r t h status m body).targets.response_error ≡ t.response_error
  refused_kept r t h status m body e = elim (refused_errors r t h status m body) [
    | inl p ↦ p
    | inr p ↦ p ∙ ap (λ d. or_kept (decode body d).value t.response_error) e
  ]

  answer_of-kept :
      (r : Request Body A E) (t : Targets A E) (h : HttpRequest Body) (result : HttpResult Body)
      → r.response_error ≡ none
      → (answer_of r t h result).targets.response_error ≡ t.response_error
  unfolding answer_of
  answer_of-kept r t h (failed m) e = refl
  answer_of-kept r t h (answered status m body) e = elim (Bool-cases (is_success status)) [
    | inl p ↦ rw p refl
    | inr p ↦ rw p (refused_kept r t h status m body e)
  ]

  refused_err :
      (r : Request Body A E) (t : Targets A E) (h : HttpRequest Body) (status : ℕ) (m : Text)
      (body : Body)
      → (x : Text) × ((refused r t h status m body).err ≡ some x)
  refused_err r t h status m body = elim (Bool-cases (is_parsable_error status)) [
    | inl p ↦ elim (Option-cases (decode body r.response_error).error) [
      | inl q ↦ (status_error h m, rw (p, q) refl)
      | inr (x, q) ↦ (x, rw (p, q) refl)
    ]
    | inr p ↦ (status_error h m, rw p refl)
  ]

  answer_of-success :
      (r : Request Body A E) (t : Targets A E) (h : HttpRequest Body) (result : HttpResult Body)
      → (answer_of r t h result).err ≡ none
      → is_success (answer_of r t h result).status ≡ true
  unfolding answer_of
  answer_of-success r t h (failed m) e = ground arith
  answer_of-success r t h (answered status m body) e = accepted_if (is_success status) refl e
    where
      accepted_if :
          (b : Bool)
          → is_success status ≡ b
          → (if b then accepted r t status body else refused r t h status m body).err ≡ none
          → is_success (if b then accepted r t status body else refused r t h status m body).status
            ≡ true
      accepted_if true p k = p
      accepted_if false p k =
          let (x, q) = refused_err r t h status m body in ground (arith, sym q ∙ k)

module _ {Body W A E : Type 0} (net : Net Body W) (prefix : Text) (r : Request Body A E)
    (t : Targets A E) (w : W) where
  abbrev with_path : Request Body A E
  with_path = record r { path = full_path prefix r.path }

  -- DoJSON stops with an error before it sends anything, or its answer is that to what came back.
  abbrev Stopped : Type 0
  Stopped =
      (m : Text) × (do_json net prefix r t w
        ≡ (record { request = with_path; targets = t; status = 0; err = some m }, w))

  abbrev Answered : Type 0
  Answered =
      (h : HttpRequest Body) × (do_json net prefix r t w
        ≡ (answer_of with_path t h (do_with_retry net h w).0, (do_with_retry net h w).1))

  sent-cases :
      (body : Option Body)
      → do_json net prefix r t w ≡ sent net with_path t body w
      → Stopped ⊎ Answered
  unfolding sent
  sent-cases body e = elim (Option-cases (net.invalid r.action (full_path prefix r.path))) [
    | inl p ↦ inr (http_request with_path body, e ∙ rw (sent, p) refl)
    | inr (m, p) ↦ inl (m, e ∙ rw (sent, p) refl)
  ]

  do_json-cases : Stopped ⊎ Answered
  unfolding do_json
  do_json-cases = elim (Option-cases r.payload) [
    | inl p ↦ sent-cases none (rw p refl)
    | inr (encoded body, p) ↦ sent-cases (some body) (rw p refl)
    | inr (encode_error m, p) ↦ inl (m, rw p refl)
  ]

  -- A caller's variable for errors stays as it is when the request has no ResponseError.
  pub do_json-kept :
      r.response_error ≡ none
      → (do_json net prefix r t w).0.targets.response_error ≡ t.response_error
  do_json-kept e = elim do_json-cases [
    | inl (m, p) ↦ ap (λ a. a.0.targets.response_error) p
    | inr (h, p) ↦
        ap (λ a. a.0.targets.response_error) p
        ∙ answer_of-kept with_path t h (do_with_retry net h w).0 e
  ]

  -- DoJSON returns no error only with the status 200, 201 or 204.
  pub do_json-success :
      (do_json net prefix r t w).0.err ≡ none
      → is_success (do_json net prefix r t w).0.status ≡ true
  do_json-success e = elim do_json-cases [
    | inl (m, p) ↦ ground (arith, sym e ∙ ap (λ a. a.0.err) p)
    | inr (h, p) ↦
        ap (λ a. is_success a.0.status) p
        ∙ answer_of-success with_path t h (do_with_retry net h w).0 (sym (ap (λ a. a.0.err) p) ∙ e)
  ]
