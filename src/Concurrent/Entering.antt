-- ===== src/Concurrent/Entering.antt =====
-- Lock of MapMutex (concurrent/concurrent.go) up to its wait.
use mathlib.Core.Option.{some-injective}
use common_host_libs.Prelude.{
  ℕ, suc, ◌+◌, ◌≡◌, refl, sym, subst, ◌∙◌, true, none, some, String, lookup, insert,
  lookup-insert_self, lookup-insert_ne, get_elem?, set, arith, inl, inr,
}
use common_host_libs.Concurrent.{store, idle, waiting, holding, System}
use common_host_libs.Concurrent.Sessions.{
  use_of, hold_of, total-set, get_elem?-set_cases, holders-le-users,
}
use common_host_libs.Concurrent.Invariant.{IsEntry, IsConsistent, Concerns}
use common_host_libs.Concurrent.Steps.{
  users-set_other, holders-set_other, waits-set_other, ne_address, idle-Concerned,
  waiting-Concerned, holding-Concerned, use_of_self, use_of_holding, hold_of_holding, store_ne,
}

module _ (s : System) (h : IsConsistent s) (i : ℕ) (name : String) where
  module _ (p : ℕ) (at : get_elem? s.sessions i ≡ some idle)
      (found : lookup name s.shared.lock_map ≡ some p) where
    abbrev pub joined : System
    joined = record {
      shared = record s.shared {
        heap =
            store s.shared.heap p
              (record (s.shared.heap p) { count = (s.shared.heap p).count + 1 });
      };
      sessions = set s.sessions i (waiting name p);
    }

    joined-IsEntry : IsEntry joined name p
    joined-IsEntry =
        let old = h.entry name p found in
        let moved = total-set (use_of name) s.sessions i idle (waiting name p) at in
        let held = total-set (hold_of name) s.sessions i idle (waiting name p) at in
        let one = use_of_self name p in
        record {
          allocated = old.allocated;
          counted = ground (arith, old.counted, moved, one);
          used = omega (arith, old.used, moved, one);
          locked = λ l. ground (arith, held, old.locked);
          unlocked = λ l. ground (arith, held, old.unlocked);
        }

    pub joined-Concerns : Concerns name s joined
    joined-Concerns =
        let w = waiting-Concerned name p in
        let k = idle-Concerned name in
        record {
          same_lookup = λ m d. refl;
          same_heap = λ m q d e. store_ne s.shared.heap p q _ (ne_address s h name m p q d found e);
          same_users = users-set_other name s.sessions i _ _ at k w;
          same_holders = holders-set_other name s.sessions i _ _ at k w;
          next_grows = omega arith;
          own_entry = λ q e.
              subst (λ z. IsEntry joined name z) (some-injective p q (sym found ∙ e))
                joined-IsEntry;
          own_absent = λ e. absurd (ground arith);
          own_apart = λ m q d e f. d (h.apart name m q f e);
          own_waits = λ j q e. elim (get_elem?-set_cases s.sessions i j _ _ e) [
            | inl same ↦ found ∙ ground arith
            | inr old ↦ h.waits j name q old
          ];
          same_waits = waits-set_other name s.sessions i _ _ at k w;
        }

  module _ (at : get_elem? s.sessions i ≡ some idle)
      (missing : lookup name s.shared.lock_map ≡ none) where
    abbrev pub created : System
    created = record {
      shared = record s.shared {
        lock_map = insert name s.shared.next s.shared.lock_map;
        heap = store s.shared.heap s.shared.next (record { mutex = true; count = 1 });
        next = suc s.shared.next;
      };
      sessions = set s.sessions i (holding name);
    }

    created-IsEntry : IsEntry created name s.shared.next
    created-IsEntry =
        let moved = total-set (use_of name) s.sessions i idle (holding name) at in
        let held = total-set (hold_of name) s.sessions i idle (holding name) at in
        let unused = h.absent name missing in
        let unheld = holders-le-users name s.sessions in
        let one = use_of_holding name in
        let one' = hold_of_holding name in
        record {
          allocated = omega arith;
          counted = ground (arith, moved, one, unused);
          used = omega (arith, moved, one, unused);
          locked = λ l. omega (arith, held, one', unused, unheld);
          unlocked = λ l. absurd (ground arith);
        }

    pub created-Concerns : Concerns name s created
    created-Concerns =
        let w = holding-Concerned name in
        let k = idle-Concerned name in
        let below = λ (m : String) (q : ℕ) (e : lookup m s.shared.lock_map ≡ some q).
          (h.entry m q e).allocated in
        record {
          same_lookup = λ m d. lookup-insert_ne name m s.shared.next s.shared.lock_map d;
          same_heap = λ m q d e.
              store_ne s.shared.heap s.shared.next q _ (λ x. absurd (omega (arith, below m q e)));
          same_users = users-set_other name s.sessions i _ _ at k w;
          same_holders = holders-set_other name s.sessions i _ _ at k w;
          next_grows = omega arith;
          own_entry = λ q e.
              subst (λ z. IsEntry created name z)
                (some-injective s.shared.next q
                  (sym (lookup-insert_self name s.shared.next s.shared.lock_map) ∙ e))
                created-IsEntry;
          own_absent =
              λ e. absurd (ground (arith, lookup-insert_self name s.shared.next s.shared.lock_map));
          own_apart = λ m q d e f.
              ground (arith, lookup-insert_self name s.shared.next s.shared.lock_map, below m q e);
          own_waits = λ j q e. elim (get_elem?-set_cases s.sessions i j _ _ e) [
            | inl other ↦ absurd (ground arith)
            | inr old ↦ absurd (ground (arith, h.waits j name q old))
          ];
          same_waits = waits-set_other name s.sessions i _ _ at k w;
        }
