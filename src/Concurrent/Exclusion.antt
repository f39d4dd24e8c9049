-- ===== src/Concurrent/Exclusion.antt =====
-- What MapMutex (concurrent/concurrent.go) promises to any interleaving of its callers.
use native.Mathlib.Decide.{ℕ_discrete}
use common_host_libs.Prelude.{
  ℕ, ◌-◌, ◌≤◌, ◌≡◌, ◌≢◌, refl, ap, subst, false, List, [], ◌∷◌, none, some, String, lookup, erase,
  if◌then◌else◌, get_elem?, set, arith, ◌==◌, Bool-cases, Option-cases, inl, inr, ◌⊎◌,
}
use common_host_libs.Concurrent.{
  MapMutex, store, new_map_mutex, Session, idle, waiting, holding, lock, acquire, unlock, System,
  Step, enter, proceed, leave, Reach, start, next_step, AllIdle,
}
use common_host_libs.Concurrent.Sessions.{
  use_of, hold_of, users, holders, total_pair, total-ge, holders_pos, holders-le-users,
}
use common_host_libs.Concurrent.Invariant.{IsConsistent, Concerns-IsConsistent}
use common_host_libs.Concurrent.Steps.{use_of_self, hold_of_holding}
use common_host_libs.Concurrent.Entering.{joined, joined-Concerns, created, created-Concerns}
use common_host_libs.Concurrent.Proceeding.{acquired, acquired-Concerns}
use common_host_libs.Concurrent.Leaving.{
  held_found, held_locked, departed, departed-Concerns, removed, removed-Concerns,
}

-- The state that Unlock leaves where it finds an entry and a locked mutex.
abbrev pub unlocked_at : MapMutex → String → ℕ → MapMutex
unlocked_at m name p =
    let count = (m.heap p).count - 1 in
    record m {
      lock_map = if count == 0 then erase name m.lock_map else m.lock_map;
      heap = store m.heap p (record { mutex = false; count = count });
    }

module _ (s : System) (h : IsConsistent s) (i : ℕ) (name : String) where
  enter-IsConsistent :
      get_elem? s.sessions i ≡ some idle
      → IsConsistent (record {
        shared = (lock s.shared name).0;
        sessions = set s.sessions i (lock s.shared name).1;
      })
  unfolding lock
  enter-IsConsistent at = elim (Option-cases (lookup name s.shared.lock_map)) [
    | inl e ↦
        rw (e, lock)
          (Concerns-IsConsistent name s (created s h i name at e) h
            (created-Concerns s h i name at e))
    | inr (p, e) ↦
        rw (e, lock)
          (Concerns-IsConsistent name s (joined s h i name p at e) h
            (joined-Concerns s h i name p at e))
  ]

  proceed-IsConsistent :
      (p : ℕ) (m : MapMutex)
      → get_elem? s.sessions i ≡ some (waiting name p)
      → acquire s.shared p ≡ some m
      → IsConsistent (record { shared = m; sessions = set s.sessions i (holding name) })
  unfolding acquire
  proceed-IsConsistent p m at done = elim (Bool-cases (s.shared.heap p).mutex) [
    | inl e ↦ absurd (ground arith)
    | inr e ↦
        subst
          (λ z. IsConsistent (record { shared = z; sessions = set s.sessions i (holding name) }))
          (ground arith)
          (Concerns-IsConsistent name s (acquired s h i name p at) h
            (acquired-Concerns s h i name p at e))
  ]

  leave-IsConsistent :
      (m : MapMutex)
      → get_elem? s.sessions i ≡ some (holding name)
      → unlock s.shared name ≡ some m
      → IsConsistent (record { shared = m; sessions = set s.sessions i idle })
  unfolding unlock
  leave-IsConsistent m at done = elim (Option-cases (lookup name s.shared.lock_map)) [
    | inl e ↦ absurd (held_found s h i name 0 at e)
    | inr (p, e) ↦
        let locked = held_locked s h i name p at e in
        elim (Bool-cases ((s.shared.heap p).count - 1 == 0)) [
          | inl last ↦
              subst (λ z. IsConsistent (record { shared = z; sessions = set s.sessions i idle }))
                (ground arith)
                (Concerns-IsConsistent name s (removed s h i name p at) h
                  (removed-Concerns s h i name p at e last))
          | inr more ↦
              subst (λ z. IsConsistent (record { shared = z; sessions = set s.sessions i idle }))
                (ground arith)
                (Concerns-IsConsistent name s (departed s h i name p at) h
                  (departed-Concerns s h i name p at e more))
        ]
  ]

Step-IsConsistent : {s t : System} → Step s t → IsConsistent s → IsConsistent t
Step-IsConsistent {s} (enter i name at) h = enter-IsConsistent s h i name at
Step-IsConsistent {s} (proceed i name p m at done) h = proceed-IsConsistent s h i name p m at done
Step-IsConsistent {s} (leave i name m at done) h = leave-IsConsistent s h i name m at done

AllIdle-users : (n : String) (xs : List Session) → AllIdle xs → users n xs ≡ 0
AllIdle-users n [] a = refl
AllIdle-users n (x ∷ xs) a = omega (arith, ap (use_of n) a.0, AllIdle-users n xs a.1)

start-IsConsistent :
    (xs : List Session)
    → AllIdle xs
    → IsConsistent (record { shared = new_map_mutex; sessions = xs })
unfolding new_map_mutex
start-IsConsistent xs a = record {
  entry = λ n p e. absurd (ground arith);
  absent = λ n e. AllIdle-users n xs a;
  apart = λ n m p e f. absurd (ground arith);
  waits = λ i n p e. absurd (
      omega
        (arith, AllIdle-users n xs a, use_of_self n p, total-ge (use_of n) xs i (waiting n p) e));
}

-- In each state that sessions can reach, an entry of the map counts the sessions that wait for its
-- key or hold it, its mutex is locked exactly while one of them holds it, no two keys share an
-- entry, a key with no entry has no such session, and who waits does so at the key's entry.
pub Reach-IsConsistent : {s : System} → Reach s → IsConsistent s
Reach-IsConsistent (start xs a) = start-IsConsistent xs a
Reach-IsConsistent (next_step r st) = Step-IsConsistent st (Reach-IsConsistent r)

holders-le-one : (s : System) (n : String) → IsConsistent s → holders n s.sessions ≤ 1
holders-le-one s n h = elim (Option-cases (lookup n s.shared.lock_map)) [
  | inl e ↦ omega (arith, h.absent n e, holders-le-users n s.sessions)
  | inr (p, e) ↦ elim (Bool-cases (s.shared.heap p).mutex) [
    | inl l ↦ omega (arith, (h.entry n p e).locked l)
    | inr l ↦ omega (arith, (h.entry n p e).unlocked l)
  ]
]

-- Mutual exclusion: in no state that can be reached do two sessions hold one key.
pub mutual_exclusion :
    {s : System} (i j : ℕ) (n : String)
    → Reach s
    → get_elem? s.sessions i ≡ some (holding n)
    → get_elem? s.sessions j ≡ some (holding n)
    → i ≡ j
mutual_exclusion {s} i j n r e f = elim (ℕ_discrete i j) [
  | yes same ↦ same
  | no d ↦ absurd (
      omega (
        arith,
        total_pair (hold_of n) s.sessions i j (holding n) (holding n) e f d,
        hold_of_holding n,
        holders-le-one s n (Reach-IsConsistent r),
      ))
]

-- No lost wake-up: a session that waits finds its mutex unlocked, so that it can go on, or there
-- is a session that holds the key and is yet to unlock it.
pub waiting_progress :
    {s : System} (i p : ℕ) (n : String)
    → Reach s
    → get_elem? s.sessions i ≡ some (waiting n p)
    → (acquire s.shared p ≢ none) ⊎ ((j : ℕ) × (get_elem? s.sessions j ≡ some (holding n)))
unfolding acquire
waiting_progress {s} i p n r e =
    let h = Reach-IsConsistent r in
    let entry = h.entry n p (h.waits i n p e) in
    elim (Bool-cases (s.shared.heap p).mutex) [
      | inl l ↦ inr (holders_pos n s.sessions (omega (arith, entry.locked l)))
      | inr l ↦ inl (ground arith)
    ]

-- A session that holds a key can always unlock it: Unlock finds the entry and a locked mutex, and
-- leaves the mutex at that address unlocked, so the fatal error of sync does not happen.
pub holding_unlocks :
    {s : System} (i : ℕ) (n : String)
    → Reach s
    → get_elem? s.sessions i ≡ some (holding n)
    → (p : ℕ) × (m : MapMutex) × (lookup n s.shared.lock_map ≡ some p)
      × (unlock s.shared n ≡ some m)
      × ((m.heap p).mutex ≡ false)
unfolding unlock
holding_unlocks {s} i n r at =
    let h = Reach-IsConsistent r in
    elim (Option-cases (lookup n s.shared.lock_map)) [
      | inl e ↦ absurd (held_found s h i n 0 at e)
      | inr (p, e) ↦
          let locked = held_locked s h i n p at e in
          (p, unlocked_at s.shared n p, e, ground arith, ground arith)
    ]

-- The map does not leak: once every session is idle again, it has no entry.
pub idle_no_entry :
    {s : System} (n : String) → Reach s → AllIdle s.sessions → lookup n s.shared.lock_map ≡ none
idle_no_entry {s} n r a =
    let h = Reach-IsConsistent r in
    elim (Option-cases (lookup n s.shared.lock_map)) [
      | inl e ↦ e
      | inr (p, e) ↦ absurd (omega (arith, (h.entry n p e).used, AllIdle-users n s.sessions a))
    ]
