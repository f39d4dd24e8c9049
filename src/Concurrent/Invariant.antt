-- ===== src/Concurrent/Invariant.antt =====
-- The invariant of MapMutex (concurrent/concurrent.go): an entry counts the sessions that wait for
-- its key or hold it, its mutex is locked while one of them holds it, and a key without an entry
-- has no such session.
use common_host_libs.Prelude.{
  ℕ, ◌≤◌, ◌<◌, ◌≡◌, ◌≢◌, sym, subst, ◌∙◌, true, false, none, some, String, str_eq, eq_iff, lookup,
  get_elem?, arith, Bool-cases, inl, inr,
}
use common_host_libs.Concurrent.{waiting, System}
use common_host_libs.Concurrent.Sessions.{users, holders}

pub record IsEntry (s : System) (n : String) (p : ℕ) : Type 0 where
  pub allocated : p < s.shared.next
  pub counted : (s.shared.heap p).count ≡ users n s.sessions
  pub used : 1 ≤ users n s.sessions
  pub locked : (s.shared.heap p).mutex ≡ true → holders n s.sessions ≡ 1
  pub unlocked : (s.shared.heap p).mutex ≡ false → holders n s.sessions ≡ 0

pub record IsConsistent (s : System) : Type 0 where
  pub entry : (n : String) (p : ℕ) → lookup n s.shared.lock_map ≡ some p → IsEntry s n p
  pub absent : (n : String) → lookup n s.shared.lock_map ≡ none → users n s.sessions ≡ 0
  pub apart :
      (n m : String) (p : ℕ)
      → lookup n s.shared.lock_map ≡ some p
      → lookup m s.shared.lock_map ≡ some p
      → n ≡ m
  pub waits :
      (i : ℕ) (n : String) (p : ℕ)
      → get_elem? s.sessions i ≡ some (waiting n p)
      → lookup n s.shared.lock_map ≡ some p

-- A change that concerns one key: what it leaves alone, and what it owes for that key.
pub record Concerns (name : String) (s t : System) : Type 0 where
  pub same_lookup :
      (m : String) → name ≢ m → lookup m t.shared.lock_map ≡ lookup m s.shared.lock_map
  pub same_heap :
      (m : String) (q : ℕ)
      → name ≢ m
      → lookup m s.shared.lock_map ≡ some q
      → t.shared.heap q ≡ s.shared.heap q
  pub same_users : (m : String) → name ≢ m → users m t.sessions ≡ users m s.sessions
  pub same_holders : (m : String) → name ≢ m → holders m t.sessions ≡ holders m s.sessions
  pub next_grows : s.shared.next ≤ t.shared.next
  pub own_entry : (p : ℕ) → lookup name t.shared.lock_map ≡ some p → IsEntry t name p
  pub own_absent : lookup name t.shared.lock_map ≡ none → users name t.sessions ≡ 0
  pub own_apart :
      (m : String) (q : ℕ)
      → name ≢ m
      → lookup m s.shared.lock_map ≡ some q
      → lookup name t.shared.lock_map ≢ some q
  pub own_waits :
      (i p : ℕ)
      → get_elem? t.sessions i ≡ some (waiting name p)
      → lookup name t.shared.lock_map ≡ some p
  pub same_waits :
      (i : ℕ) (m : String) (p : ℕ)
      → name ≢ m
      → get_elem? t.sessions i ≡ some (waiting m p)
      → get_elem? s.sessions i ≡ some (waiting m p)

ne_of : (a b : String) → str_eq a b ≡ false → a ≢ b
ne_of a b h e = ground (arith, eq_iff a b)

module _ (name : String) (s t : System) (h : IsConsistent s) (c : Concerns name s t) where
  other-IsEntry :
      (n : String) (p : ℕ) → name ≢ n → lookup n t.shared.lock_map ≡ some p → IsEntry t n p
  other-IsEntry n p d e =
      let e' = sym (c.same_lookup n d) ∙ e in
      let old = h.entry n p e' in
      let heap = c.same_heap n p d e' in
      record {
        allocated = omega (arith, old.allocated, c.next_grows);
        counted = ground (arith, c.same_users n d);
        used = omega (arith, old.used, c.same_users n d);
        locked = λ l. ground (arith, c.same_holders n d);
        unlocked = λ l. ground (arith, c.same_holders n d);
      }

  keeps-IsEntry : (n : String) (p : ℕ) → lookup n t.shared.lock_map ≡ some p → IsEntry t n p
  keeps-IsEntry n p e = elim (Bool-cases (str_eq name n)) [
    | inl same ↦
        subst (λ k. lookup k t.shared.lock_map ≡ some p → IsEntry t k p) ((eq_iff name n).0 same)
          (c.own_entry p) e
    | inr other ↦ other-IsEntry n p (ne_of name n other) e
  ]

  keeps_absent : (n : String) → lookup n t.shared.lock_map ≡ none → users n t.sessions ≡ 0
  keeps_absent n e = elim (Bool-cases (str_eq name n)) [
    | inl same ↦
        subst (λ k. lookup k t.shared.lock_map ≡ none → users k t.sessions ≡ 0)
          ((eq_iff name n).0 same) c.own_absent e
    | inr other ↦
        let d = ne_of name n other in c.same_users n d ∙ h.absent n (sym (c.same_lookup n d) ∙ e)
  ]

  own_alone :
      (n m : String) (p : ℕ)
      → name ≡ n
      → name ≢ m
      → lookup n t.shared.lock_map ≡ some p
      → lookup m t.shared.lock_map ≡ some p
      → n ≡ m
  own_alone n m p same d e f = absurd (
      c.own_apart m p d (sym (c.same_lookup m d) ∙ f)
        (subst (λ k. lookup k t.shared.lock_map ≡ some p) (sym same) e))

  keeps_apart :
      (n m : String) (p : ℕ)
      → lookup n t.shared.lock_map ≡ some p
      → lookup m t.shared.lock_map ≡ some p
      → n ≡ m
  keeps_apart n m p e f = elim (Bool-cases (str_eq name n)) [
    | inl a ↦ elim (Bool-cases (str_eq name m)) [
      | inl b ↦ sym ((eq_iff name n).0 a) ∙ (eq_iff name m).0 b
      | inr b ↦ own_alone n m p ((eq_iff name n).0 a) (ne_of name m b) e f
    ]
    | inr a ↦ elim (Bool-cases (str_eq name m)) [
      | inl b ↦ sym (own_alone m n p ((eq_iff name m).0 b) (ne_of name n a) f e)
      | inr b ↦
          h.apart n m p (sym (c.same_lookup n (ne_of name n a)) ∙ e)
            (sym (c.same_lookup m (ne_of name m b)) ∙ f)
    ]
  ]

  keeps_waits :
      (i : ℕ) (n : String) (p : ℕ)
      → get_elem? t.sessions i ≡ some (waiting n p)
      → lookup n t.shared.lock_map ≡ some p
  keeps_waits i n p e = elim (Bool-cases (str_eq name n)) [
    | inl same ↦
        subst
          (λ k. get_elem? t.sessions i ≡ some (waiting k p) → lookup k t.shared.lock_map ≡ some p)
          ((eq_iff name n).0 same) (c.own_waits i p) e
    | inr other ↦
        let d = ne_of name n other in c.same_lookup n d ∙ h.waits i n p (c.same_waits i n p d e)
  ]

  -- A change that pays what it owes for its own key keeps the invariant for all keys.
  pub Concerns-IsConsistent : IsConsistent t
  Concerns-IsConsistent = record {
    entry = keeps-IsEntry;
    absent = keeps_absent;
    apart = keeps_apart;
    waits = keeps_waits;
  }
