-- ===== src/Concurrent/Leaving.antt =====
-- Unlock of MapMutex (concurrent/concurrent.go).
use mathlib.Core.Option.{some-injective}
use common_host_libs.Prelude.{
  ℕ, ◌+◌, ◌-◌, ◌≡◌, ◌≢◌, refl, sym, subst, ◌∙◌, true, false, none, some, String, lookup, erase,
  lookup-erase_self, lookup-erase_ne, get_elem?, set, arith, ◌==◌, Bool-cases, inl, inr,
}
use common_host_libs.Concurrent.{MLock, store, idle, waiting, holding, System}
use common_host_libs.Concurrent.Sessions.{
  use_of, hold_of, users, holders, total-set, total-ge, get_elem?-set_cases,
}
use common_host_libs.Concurrent.Invariant.{IsEntry, IsConsistent, Concerns}
use common_host_libs.Concurrent.Steps.{
  users-set_other, holders-set_other, waits-set_other, ne_address, idle-Concerned,
  holding-Concerned, use_of_self, use_of_holding, hold_of_holding, store_ne,
}

module _ (s : System) (h : IsConsistent s) (i : ℕ) (name : String) where
  module _ (p : ℕ) (at : get_elem? s.sessions i ≡ some (holding name)) where
    -- A key that a session holds has an entry, and its mutex is locked.
    pub held_found : lookup name s.shared.lock_map ≢ none
    held_found e = absurd (
        omega (
          arith,
          total-ge (use_of name) s.sessions i (holding name) at,
          use_of_holding name,
          h.absent name e,
        ))

    pub held_locked : lookup name s.shared.lock_map ≡ some p → (s.shared.heap p).mutex ≡ true
    held_locked e = elim (Bool-cases (s.shared.heap p).mutex) [
      | inl locked ↦ locked
      | inr free ↦ absurd (
          omega (
            arith,
            total-ge (hold_of name) s.sessions i (holding name) at,
            hold_of_holding name,
            (h.entry name p e).unlocked free,
          ))
    ]

    abbrev pub left : MLock
    left = record { mutex = false; count = (s.shared.heap p).count - 1 }

    abbrev pub departed : System
    departed = record {
      shared = record s.shared { heap = store s.shared.heap p left };
      sessions = set s.sessions i idle;
    }

    abbrev pub removed : System
    removed = record {
      shared = record s.shared {
        lock_map = erase name s.shared.lock_map;
        heap = store s.shared.heap p left;
      };
      sessions = set s.sessions i idle;
    }

    module _ (found : lookup name s.shared.lock_map ≡ some p) where
      moved : users name (set s.sessions i idle) + 1 ≡ users name s.sessions
      moved =
          omega (
            arith,
            total-set (use_of name) s.sessions i (holding name) idle at,
            use_of_holding name,
          )

      held : holders name (set s.sessions i idle) ≡ 0
      held = omega (
        arith,
        total-set (hold_of name) s.sessions i (holding name) idle at,
        hold_of_holding name,
        (h.entry name p found).locked (held_locked found),
      )

      departed-IsEntry : ((s.shared.heap p).count - 1 == 0) ≡ false → IsEntry departed name p
      departed-IsEntry more =
          let old = h.entry name p found in
          record {
            allocated = old.allocated;
            counted = ground (arith, old.counted, moved);
            used = ground (arith, old.counted, moved);
            locked = λ l. absurd (ground arith);
            unlocked = λ l. held;
          }

      pub departed-Concerns : ((s.shared.heap p).count - 1 == 0) ≡ false → Concerns name s departed
      departed-Concerns more =
          let w = holding-Concerned name in
          let k = idle-Concerned name in
          record {
            same_lookup = λ m d. refl;
            same_heap =
                λ m q d e. store_ne s.shared.heap p q left (ne_address s h name m p q d found e);
            same_users = users-set_other name s.sessions i _ _ at w k;
            same_holders = holders-set_other name s.sessions i _ _ at w k;
            next_grows = omega arith;
            own_entry = λ q e.
                subst (λ z. IsEntry departed name z) (some-injective p q (sym found ∙ e))
                  (departed-IsEntry more);
            own_absent = λ e. absurd (ground arith);
            own_apart = λ m q d e f. d (h.apart name m q f e);
            own_waits = λ j q e. elim (get_elem?-set_cases s.sessions i j _ _ e) [
              | inl other ↦ absurd (ground arith)
              | inr old ↦ h.waits j name q old
            ];
            same_waits = waits-set_other name s.sessions i _ _ at w k;
          }

      pub removed-Concerns : ((s.shared.heap p).count - 1 == 0) ≡ true → Concerns name s removed
      removed-Concerns last =
          let w = holding-Concerned name in
          let k = idle-Concerned name in
          let gone = lookup-erase_self name s.shared.lock_map in
          let old = h.entry name p found in
          let none_left : users name (set s.sessions i idle) ≡ 0 =
            ground (arith, old.counted, moved) in
          record {
            same_lookup = λ m d. lookup-erase_ne name m s.shared.lock_map d;
            same_heap =
                λ m q d e. store_ne s.shared.heap p q left (ne_address s h name m p q d found e);
            same_users = users-set_other name s.sessions i _ _ at w k;
            same_holders = holders-set_other name s.sessions i _ _ at w k;
            next_grows = omega arith;
            own_entry = λ q e. absurd (ground arith);
            own_absent = λ e. none_left;
            own_apart = λ m q d e f. ground arith;
            own_waits = λ j q e. absurd (
                omega (
                  arith,
                  none_left,
                  use_of_self name q,
                  total-ge (use_of name) (set s.sessions i idle) j (waiting name q) e,
                ));
            same_waits = waits-set_other name s.sessions i _ _ at w k;
          }
