-- ===== src/Concurrent/Sessions.antt =====
-- Counts of the sessions of a MapMutex (concurrent/concurrent.go) under a change of one of them.
use common_host_libs.Prelude.{
  ℕ, zero, suc, ◌+◌, ◌≤◌, ◌<◌, ◌≡◌, ◌≢◌, ◌⊎◌, inl, inr, Bool-cases, refl, List, [], ◌∷◌, some,
  String, str_eq, eq_iff, get_elem?, set, arith, if◌then◌else◌,
}
use common_host_libs.Concurrent.{Session, idle, waiting, holding}

abbrev pub total : (Session → ℕ) → List Session → ℕ
total f [] = 0
total f (x ∷ xs) = f x + total f xs

-- Whether a session waits for the key or holds it, as 0 or 1; whether it holds it.
abbrev pub use_of : String → Session → ℕ
use_of n idle = 0
use_of n (waiting m p) = if str_eq m n then 1 else 0
use_of n (holding m) = if str_eq m n then 1 else 0

abbrev pub hold_of : String → Session → ℕ
hold_of n (holding m) = if str_eq m n then 1 else 0
hold_of n _ = 0

abbrev pub users : String → List Session → ℕ
users n = total (use_of n)

abbrev pub holders : String → List Session → ℕ
holders n = total (hold_of n)

pub total-set :
    (f : Session → ℕ) (xs : List Session) (i : ℕ) (x y : Session)
    → get_elem? xs i ≡ some x
    → total f (set xs i y) + f x ≡ total f xs + f y
total-set f [] i x y h = absurd (ground arith)
total-set f (z ∷ xs) zero x y h = ground arith
total-set f (z ∷ xs) (suc i) x y h = omega (arith, total-set f xs i x y h)

pub total-ge :
    (f : Session → ℕ) (xs : List Session) (i : ℕ) (x : Session)
    → get_elem? xs i ≡ some x
    → f x ≤ total f xs
total-ge f [] i x h = absurd (ground arith)
total-ge f (z ∷ xs) zero x h = ground arith
total-ge f (z ∷ xs) (suc i) x h = omega (arith, total-ge f xs i x h)

pub total_pair :
    (f : Session → ℕ) (xs : List Session) (i j : ℕ) (x y : Session)
    → get_elem? xs i ≡ some x
    → get_elem? xs j ≡ some y
    → i ≢ j
    → f x + f y ≤ total f xs
total_pair f [] i j x y h k d = absurd (ground arith)
total_pair f (z ∷ xs) zero zero x y h k d = absurd (d refl)
total_pair f (z ∷ xs) zero (suc j) x y h k d = ground (arith, total-ge f xs j y k)
total_pair f (z ∷ xs) (suc i) zero x y h k d = ground (arith, total-ge f xs i x h)
total_pair f (z ∷ xs) (suc i) (suc j) x y h k d =
    omega (arith, total_pair f xs i j x y h k (λ e. d (omega arith)))

-- A count that is not 0 has a session behind it.
pub holders_pos :
    (n : String) (xs : List Session)
    → 0 < holders n xs
    → (i : ℕ) × (get_elem? xs i ≡ some (holding n))
holders_pos n [] h = absurd (omega arith)
holders_pos n (holding m ∷ xs) h = elim (Bool-cases (str_eq m n)) [
  | inl e ↦ (0, ground (arith, eq_iff m n))
  | inr e ↦ let (i, r) = holders_pos n xs (ground arith) in (suc i, r)
]
holders_pos n (idle ∷ xs) h = let (i, e) = holders_pos n xs (omega arith) in (suc i, e)
holders_pos n (waiting m p ∷ xs) h = let (i, e) = holders_pos n xs (omega arith) in (suc i, e)

pub get_elem?-set_cases :
    (xs : List Session) (i j : ℕ) (y z : Session)
    → get_elem? (set xs i y) j ≡ some z
    → (z ≡ y) ⊎ (get_elem? xs j ≡ some z)
get_elem?-set_cases [] i j y z h = inr h
get_elem?-set_cases (x ∷ xs) zero zero y z h = inl (ground arith)
get_elem?-set_cases (x ∷ xs) zero (suc j) y z h = inr h
get_elem?-set_cases (x ∷ xs) (suc i) zero y z h = inr h
get_elem?-set_cases (x ∷ xs) (suc i) (suc j) y z h = get_elem?-set_cases xs i j y z h

hold_of-le-use_of : (n : String) (x : Session) → hold_of n x ≤ use_of n x
hold_of-le-use_of n idle = omega arith
hold_of-le-use_of n (waiting m p) = omega arith
hold_of-le-use_of n (holding m) = omega arith

pub holders-le-users : (n : String) (xs : List Session) → holders n xs ≤ users n xs
holders-le-users n [] = omega arith
holders-le-users n (x ∷ xs) = omega (arith, hold_of-le-use_of n x, holders-le-users n xs)
