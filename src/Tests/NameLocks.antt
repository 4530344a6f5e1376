-- ===== src/Tests/NameLocks.antt =====
-- internal/server/name_locks.go: two goroutines and one name.
use mini.Prelude.{
  ◌≡◌, ◌<◌, refl, ◌⊎◌, ◌↔◌, ℕ, Bytes, codes, none, some, true, false, bytes_eq, arith,
}
use mini.Prelude.Map.{lookup, insert}
use mini.Server.NameLocks.{
  entry_locked, begin_lock, try_lock, drop_reference, idle, waiting, holding, System, moved,
  with_held, init, calls_lock, acquires, unlocks, drops, releasing, Reach, start, later,
}
use mini.Server.NameLocks.Safety.{
  Holds, Holder, mutual_exclusion, no_lock_left, no_deadlock, try_lock-none,
}

abbrev name : Bytes
name = codes "a"

-- Goroutine 0 holds the lock and goroutine 1 waits for it.
abbrev called : System
called = moved init 0 (begin_lock init.shared name).1 (waiting name (begin_lock init.shared name).0)

abbrev owned : System
owned = moved called 0 (with_held called.shared 0 true) (holding name 0)

abbrev contended : System
contended =
    moved owned 1 (begin_lock owned.shared name).1 (waiting name (begin_lock owned.shared name).0)

owned-reached : Reach 2 owned
unfolding begin_lock entry_locked lookup
owned-reached =
    later (later start (calls_lock 0 name (omega arith) refl))
      (acquires 0 name 0 (omega arith) refl refl)

contended-reached : Reach 2 contended
contended-reached = later owned-reached (calls_lock 1 name (omega arith) refl)

mutual_exclusion_example : ◌≡◌ {A = ℕ} 0 0
mutual_exclusion_example =
    mutual_exclusion contended-reached 0 0 name 0 0 (omega arith) (omega arith) refl refl

no_deadlock_example :
    (lookup contended.shared.locks name ≡ some 0)
    × ((contended.shared.held 0 ≡ false) ⊎ Holds 2 contended name 0)
unfolding begin_lock entry_locked lookup insert bytes_eq
no_deadlock_example = no_deadlock contended-reached 1 name 0 (omega arith) refl

try_lock-none_example : ((try_lock contended.shared name).0 ≡ none) ↔ Holder 2 contended name
try_lock-none_example = try_lock-none contended-reached name

try_lock_runs :
    ((try_lock contended.shared name).0 ≡ none)
    × ((try_lock contended.shared (codes "b")).0 ≡ some 1)
unfolding try_lock begin_lock entry_locked lookup insert bytes_eq
try_lock_runs = (refl, refl)

abbrev unlocked : System
unlocked = moved owned 0 (with_held owned.shared 0 false) (releasing name 0)

abbrev finished : System
finished = moved unlocked 0 (drop_reference unlocked.shared name 0) idle

finished-reached : Reach 2 finished
finished-reached =
    later (later owned-reached (unlocks 0 name 0 (omega arith) refl))
      (drops 0 name 0 (omega arith) refl)

no_lock_left_example : lookup finished.shared.locks name ≡ none
no_lock_left_example = no_lock_left finished-reached name finished_quiet
  where
    finished_quiet : (i : ℕ) → i < 2 → finished.thread i ≡ idle
    finished_quiet i lt = ground arith
