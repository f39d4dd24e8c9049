-- ===== src/Concurrent/Tests.antt =====
-- Two callers that contend for one key, and the theorems in the states that they reach.
use common_host_libs.Prelude.{
  ℕ, ◌≡◌, ◌≢◌, ◌⊎◌, refl, false, [], ◌∷◌, none, some, lookup, get_elem?, set,
}
use common_host_libs.Concurrent.{
  MapMutex, new_map_mutex, idle, waiting, holding, lock, acquire, unlock, System, enter, leave,
  Reach, start, next_step, AllIdle,
}
use common_host_libs.Concurrent.Invariant.{IsConsistent}
use common_host_libs.Concurrent.Exclusion.{
  Reach-IsConsistent, mutual_exclusion, unlocked_at, waiting_progress, holding_unlocks,
  idle_no_entry,
}

abbrev resting : System
resting = record { shared = new_map_mutex; sessions = idle ∷ idle ∷ [] }

abbrev locked_by : System → ℕ → System
locked_by s i = record {
  shared = (lock s.shared "v").0;
  sessions = set s.sessions i (lock s.shared "v").1;
}

-- The first caller holds the key; then the second one waits for it.
abbrev first_in : System
first_in = locked_by resting 0

abbrev contended : System
contended = locked_by first_in 1

resting_is_reached : Reach resting
resting_is_reached = start (idle ∷ idle ∷ []) (refl, (refl, tt))

contended_is_reached : Reach contended
unfolding lock new_map_mutex
contended_is_reached =
    next_step (next_step resting_is_reached (enter 0 "v" refl)) (enter 1 "v" refl)

contended_sessions : contended.sessions ≡ holding "v" ∷ waiting "v" 0 ∷ []
unfolding lock new_map_mutex
contended_sessions = refl

contended_counts : (contended.shared.heap 0).count ≡ 2
unfolding lock new_map_mutex
contended_counts = refl

-- The second caller cannot go on before the first one has unlocked.
contended_blocks : acquire contended.shared 0 ≡ none
unfolding acquire lock new_map_mutex
contended_blocks = refl

first_holds : get_elem? contended.sessions 0 ≡ some (holding "v")
unfolding lock new_map_mutex
first_holds = refl

second_waits : get_elem? contended.sessions 1 ≡ some (waiting "v" 0)
unfolding lock new_map_mutex
second_waits = refl

Reach-IsConsistent_example : IsConsistent contended
Reach-IsConsistent_example = Reach-IsConsistent contended_is_reached

mutual_exclusion_example : ◌≡◌ {A = ℕ} 0 0
mutual_exclusion_example = mutual_exclusion 0 0 "v" contended_is_reached first_holds first_holds

waiting_progress_example :
    (acquire contended.shared 0 ≢ none)
    ⊎ ((j : ℕ) × (get_elem? contended.sessions j ≡ some (holding "v")))
waiting_progress_example = waiting_progress 1 0 "v" contended_is_reached second_waits

holding_unlocks_example :
    (p : ℕ) × (m : MapMutex) × (lookup "v" contended.shared.lock_map ≡ some p)
    × (unlock contended.shared "v" ≡ some m)
    × ((m.heap p).mutex ≡ false)
holding_unlocks_example = holding_unlocks 0 "v" contended_is_reached first_holds

-- The first caller locks the key and unlocks it.
abbrev gone : System
gone = record {
  shared = unlocked_at first_in.shared "v" 0;
  sessions = set first_in.sessions 0 idle;
}

gone_is_reached : Reach gone
unfolding lock unlock new_map_mutex
gone_is_reached =
    next_step (next_step resting_is_reached (enter 0 "v" refl))
      (leave 0 "v" (unlocked_at first_in.shared "v" 0) refl refl)

gone_is_idle : AllIdle gone.sessions
unfolding lock new_map_mutex
gone_is_idle = (refl, (refl, tt))

idle_no_entry_example : lookup "v" gone.shared.lock_map ≡ none
idle_no_entry_example = idle_no_entry "v" gone_is_reached gone_is_idle
