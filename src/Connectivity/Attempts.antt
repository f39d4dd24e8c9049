-- ===== src/Connectivity/Attempts.antt =====
-- connectivity/client.go: the attempts of doWithRetry.
use common_host_libs.Prelude.{
  ℕ, zero, suc, ◌≡◌, ◌≤◌, refl, sym, ap, subst, ◌∙◌, Bool, true, false, not, arith, ◌⊎◌, inl, inr,
}
use common_host_libs.Connectivity.{
  HttpRequest, HttpResult, answered, failed, Net, is_timeout, concluded, do_rounds, do_with_retry,
}

-- The failures that are tried again.
abbrev pub is_retried : {Body : Type 0} → HttpResult Body → Bool
is_retried (answered status status_text body) = false
is_retried (failed m) = not (is_timeout m)

concluded_stop :
    {Body W : Type 0} (r later : HttpResult Body × W)
    → is_retried r.0 ≡ false
    → concluded r later ≡ r
concluded_stop (answered status m body, w) later e = refl
concluded_stop (failed m, w) later e = ground (arith, e)

concluded_again :
    {Body W : Type 0} (r later : HttpResult Body × W)
    → is_retried r.0 ≡ true
    → concluded r later ≡ later
concluded_again (answered status m body, w) later e = ground (arith, e)
concluded_again (failed m, w) later e = ground (arith, e)

module _ {Body W : Type 0} (net : Net Body W) (h : HttpRequest Body) where
  -- From the state w, behind as many tries as are done, n exchanges in a row fail without a timeout and
  -- lead to the other state, with a sleep after each: as many seconds as there are failed ones by then.
  abbrev pub FailsFor : ℕ → ℕ → W → W → Type 0
  FailsFor zero tries w w' = w ≡ w'
  FailsFor (suc n) tries w w' =
      (is_retried (net.exchange h w).0 ≡ true)
      × FailsFor n (suc tries) (net.sleep (suc tries) (net.exchange h w).1) w'

  abbrev rounds : ℕ → ℕ → W → HttpResult Body × W
  rounds left tries w = do_rounds net left tries h w

  rounds_first :
      (left n tries : ℕ) (w w' : W)
      → n ≤ left
      → FailsFor n tries w w'
      → (is_retried (net.exchange h w').0 ≡ false) ⊎ (n ≡ left)
      → rounds left tries w ≡ net.exchange h w'
  unfolding do_rounds
  rounds_first zero zero tries w w' l t e = ap (net.exchange h) t
  rounds_first zero (suc n) tries w w' l t e = ground arith
  rounds_first (suc left) zero tries w w' l t (inl f) =
      concluded_stop (net.exchange h w)
        (rounds left (suc tries) (net.sleep (suc tries) (net.exchange h w).1))
        (subst (λ v. is_retried (net.exchange h v).0 ≡ false) (sym t) f)
      ∙ ap (net.exchange h) t
  rounds_first (suc left) zero tries w w' l t (inr e) = ground (arith, e)
  rounds_first (suc left) (suc n) tries w w' l t e =
      let later = net.sleep (suc tries) (net.exchange h w).1 in
      concluded_again (net.exchange h w) (rounds left (suc tries) later) t.0
      ∙ rounds_first left n (suc tries) later w' (omega (arith, l)) t.1
          (elim e [ inl f ↦ inl f | inr k ↦ inr (omega (arith, k)) ])

  -- After at most three exchanges that fail, none of them with a timeout, and sleeps of 1, 2 and 3
  -- seconds behind them, the next exchange gives the result of doWithRetry if it does not fail so too
  -- or is the fourth.
  pub do_with_retry_first :
      (n : ℕ) (w w' : W)
      → n ≤ 3
      → FailsFor n 0 w w'
      → (is_retried (net.exchange h w').0 ≡ false) ⊎ (n ≡ 3)
      → do_with_retry net h w ≡ net.exchange h w'
  unfolding do_with_retry
  do_with_retry_first n w w' l t e = rounds_first 3 n 0 w w' l t e
