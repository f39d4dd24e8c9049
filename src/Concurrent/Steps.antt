-- ===== src/Concurrent/Steps.antt =====
-- Each step of MapMutex (concurrent/concurrent.go) keeps its invariant.
use common_host_libs.Prelude.{
  ℕ, ◌≡◌, ◌≢◌, refl, ap, subst, List, some, String, eq_iff, lookup, get_elem?, set, arith, inl, inr,
}
use common_host_libs.Concurrent.{MLock, store, Session, idle, waiting, holding, System}
use common_host_libs.Concurrent.Sessions.{
  use_of, hold_of, users, holders, total-set, get_elem?-set_cases,
}
use common_host_libs.Concurrent.Invariant.{IsConsistent}

-- A session of the key `name`, or an idle one, counts for no other key.
abbrev pub Concerned : String → Session → Type 0
Concerned name x = (m : String) → name ≢ m → (use_of m x ≡ 0) × (hold_of m x ≡ 0)

pub idle-Concerned : (name : String) → Concerned name idle
idle-Concerned name m d = (refl, refl)

pub waiting-Concerned : (name : String) (p : ℕ) → Concerned name (waiting name p)
waiting-Concerned name p m d = (ground (arith, eq_iff name m), refl)

pub holding-Concerned : (name : String) → Concerned name (holding name)
holding-Concerned name m d = (ground (arith, eq_iff name m), ground (arith, eq_iff name m))

pub use_of_self : (m : String) (p : ℕ) → use_of m (waiting m p) ≡ 1
use_of_self m p = ground (arith, eq_iff m m)

pub use_of_holding : (m : String) → use_of m (holding m) ≡ 1
use_of_holding m = ground (arith, eq_iff m m)

pub hold_of_holding : (m : String) → hold_of m (holding m) ≡ 1
hold_of_holding m = ground (arith, eq_iff m m)

pub store_self : (h : ℕ → MLock) (p : ℕ) (l : MLock) → store h p l p ≡ l
store_self h p l = ground arith

pub store_ne : (h : ℕ → MLock) (p q : ℕ) (l : MLock) → p ≢ q → store h p l q ≡ h q
store_ne h p q l d = ground arith

module _ (name : String) (xs : List Session) (i : ℕ) (x y : Session) (at : get_elem? xs i ≡ some x)
    (cx : Concerned name x) (cy : Concerned name y) where
  pub users-set_other : (m : String) → name ≢ m → users m (set xs i y) ≡ users m xs
  users-set_other m d = omega (arith, total-set (use_of m) xs i x y at, (cx m d).0, (cy m d).0)

  pub holders-set_other : (m : String) → name ≢ m → holders m (set xs i y) ≡ holders m xs
  holders-set_other m d = omega (arith, total-set (hold_of m) xs i x y at, (cx m d).1, (cy m d).1)

  pub waits-set_other :
      (j : ℕ) (m : String) (p : ℕ)
      → name ≢ m
      → get_elem? (set xs i y) j ≡ some (waiting m p)
      → get_elem? xs j ≡ some (waiting m p)
  waits-set_other j m p d e = elim (get_elem?-set_cases xs i j y (waiting m p) e) [
    | inl w ↦ absurd (omega (arith, use_of_self m p, ap (use_of m) w, (cy m d).0))
    | inr old ↦ old
  ]

module _ (s : System) (h : IsConsistent s) (name : String) where
  -- Two keys have two entries.
  pub ne_address :
      (m : String) (p q : ℕ)
      → name ≢ m
      → lookup name s.shared.lock_map ≡ some p
      → lookup m s.shared.lock_map ≡ some q
      → p ≢ q
  ne_address m p q d e f same =
      d (h.apart name m q (subst (λ z. lookup name s.shared.lock_map ≡ some z) same e) f)
