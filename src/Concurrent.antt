-- ===== src/Concurrent.antt =====
-- concurrent/concurrent.go: MapMutex, which locks keys by a mutex each, made on demand and removed
-- when its last user leaves.
-- The mutexes live on a heap, since a caller that waits keeps its pointer while the map may change.
-- bigLock is held from start to end of each section of Lock and Unlock but for the wait on the
-- little lock, so each section is one step: `lock` up to that wait, the wait itself (`acquire`), and
-- `unlock`. A call in progress is a Session; a goroutine with several keys has several.
pub mod Sessions
pub mod Invariant
pub mod Steps
pub mod Entering
pub mod Proceeding
pub mod Leaving
pub mod Exclusion
mod Tests
use common_host_libs.Prelude.{
  ℕ, suc, ◌+◌, ◌-◌, ◌≡◌, Bool, true, false, List, [], ◌∷◌, Option, none, some, String, Dict, lookup,
  insert, erase, get_elem?, set, ◌==◌, if◌then◌else◌,
}

-- `mutex` is whether the sync.Mutex is locked.
pub record MLock : Type 0 where
  pub mutex : Bool
  pub count : ℕ

-- `heap` gives the mLock at each address below `next`, the first free one.
pub record MapMutex : Type 0 where
  pub lock_map : Dict ℕ
  pub heap : ℕ → MLock
  pub next : ℕ

pub new_map_mutex : MapMutex
new_map_mutex = record { lock_map = []; heap = λ _. record { mutex = false; count = 0 }; next = 0 }

abbrev pub store : (ℕ → MLock) → ℕ → MLock → ℕ → MLock
store h p l q = if p == q then l else h q

-- Where a call of Lock stands when it lets go of bigLock.
pub data Session : Type 0 where
  idle : Session
  waiting : String → ℕ → Session
  holding : String → Session

-- Lock up to the wait: an entry gains a user that waits; a new entry is made locked.
pub lock : MapMutex → String → MapMutex × Session
lock m name = elim (lookup name m.lock_map) [
  | some p ↦ (
    record m { heap = store m.heap p (record (m.heap p) { count = (m.heap p).count + 1 }) },
    waiting name p,
  )
  | none ↦ (
    record m {
      lock_map = insert name m.next m.lock_map;
      heap = store m.heap m.next (record { mutex = true; count = 1 });
      next = suc m.next;
    },
    holding name,
  )
]

-- `littleLock.mutex.Lock()` returns: only from an unlocked mutex.
pub acquire : MapMutex → ℕ → Option MapMutex
acquire m p =
    if (m.heap p).mutex
    then none
    else some (record m { heap = store m.heap p (record (m.heap p) { mutex = true }) })

-- Unlock; `none` is the fatal error of sync for the unlock of a mutex that is not locked.
pub unlock : MapMutex → String → Option MapMutex
unlock m name = elim (lookup name m.lock_map) [
  | none ↦ some m
  | some p ↦
      (let left = (m.heap p).count - 1 in
        if (m.heap p).mutex
        then some (record m {
          lock_map = if left == 0 then erase name m.lock_map else m.lock_map;
          heap = store m.heap p (record { mutex = false; count = left });
        })
        else none)
]

pub record System : Type 0 where
  pub shared : MapMutex
  pub sessions : List Session

-- The interleavings of the sessions. Each unlocks the key that it has locked.
pub data Step (s : System) : System → Type 0 where
  enter :
      (i : ℕ) (name : String)
      → get_elem? s.sessions i ≡ some idle
      → Step s (record {
        shared = (lock s.shared name).0;
        sessions = set s.sessions i (lock s.shared name).1;
      })
  proceed :
      (i : ℕ) (name : String) (p : ℕ) (m : MapMutex)
      → get_elem? s.sessions i ≡ some (waiting name p)
      → acquire s.shared p ≡ some m
      → Step s (record { shared = m; sessions = set s.sessions i (holding name) })
  leave :
      (i : ℕ) (name : String) (m : MapMutex)
      → get_elem? s.sessions i ≡ some (holding name)
      → unlock s.shared name ≡ some m
      → Step s (record { shared = m; sessions = set s.sessions i idle })

abbrev pub AllIdle : List Session → Type 0
AllIdle [] = Unit
AllIdle (x ∷ xs) = (x ≡ idle) × AllIdle xs

pub data Reach : System → Type 0 where
  start :
      (xs : List Session) → AllIdle xs → Reach (record { shared = new_map_mutex; sessions = xs })
  next_step : {s t : System} → Reach s → Step s t → Reach t
