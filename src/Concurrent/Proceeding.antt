-- ===== src/Concurrent/Proceeding.antt =====
-- The wait of Lock of MapMutex (concurrent/concurrent.go) ends.
use mathlib.Core.Option.{some-injective}
use common_host_libs.Prelude.{
  ℕ, ◌≡◌, refl, sym, subst, ◌∙◌, true, false, some, String, get_elem?, set, arith, inl, inr,
}
use common_host_libs.Concurrent.{store, waiting, holding, System}
use common_host_libs.Concurrent.Sessions.{use_of, hold_of, total-set, get_elem?-set_cases}
use common_host_libs.Concurrent.Invariant.{IsEntry, IsConsistent, Concerns}
use common_host_libs.Concurrent.Steps.{
  users-set_other, holders-set_other, waits-set_other, ne_address, waiting-Concerned,
  holding-Concerned, use_of_self, use_of_holding, hold_of_holding, store_ne,
}

module _ (s : System) (h : IsConsistent s) (i : ℕ) (name : String) where
  module _ (p : ℕ) (at : get_elem? s.sessions i ≡ some (waiting name p)) where
    abbrev pub acquired : System
    acquired = record {
      shared = record s.shared {
        heap = store s.shared.heap p (record (s.shared.heap p) { mutex = true });
      };
      sessions = set s.sessions i (holding name);
    }

    acquired-IsEntry : (s.shared.heap p).mutex ≡ false → IsEntry acquired name p
    acquired-IsEntry free =
        let old = h.entry name p (h.waits i name p at) in
        let moved = total-set (use_of name) s.sessions i (waiting name p) (holding name) at in
        let held = total-set (hold_of name) s.sessions i (waiting name p) (holding name) at in
        record {
          allocated = old.allocated;
          counted = ground (arith, old.counted, moved, use_of_self name p, use_of_holding name);
          used = omega (arith, old.used, moved, use_of_self name p, use_of_holding name);
          locked = λ _. omega (arith, held, hold_of_holding name, old.unlocked free);
          unlocked = λ l. absurd (ground arith);
        }

    pub acquired-Concerns : (s.shared.heap p).mutex ≡ false → Concerns name s acquired
    acquired-Concerns free =
        let found = h.waits i name p at in
        let w = waiting-Concerned name p in
        let k = holding-Concerned name in
        record {
          same_lookup = λ m d. refl;
          same_heap = λ m q d e. store_ne s.shared.heap p q _ (ne_address s h name m p q d found e);
          same_users = users-set_other name s.sessions i _ _ at w k;
          same_holders = holders-set_other name s.sessions i _ _ at w k;
          next_grows = omega arith;
          own_entry = λ q e.
              subst (λ z. IsEntry acquired name z) (some-injective p q (sym found ∙ e))
                (acquired-IsEntry free);
          own_absent = λ e. absurd (ground arith);
          own_apart = λ m q d e f. d (h.apart name m q f e);
          own_waits = λ j q e. elim (get_elem?-set_cases s.sessions i j _ _ e) [
            | inl other ↦ absurd (ground arith)
            | inr old ↦ h.waits j name q old
          ];
          same_waits = waits-set_other name s.sessions i _ _ at w k;
        }
