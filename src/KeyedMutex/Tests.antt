-- ===== src/KeyedMutex/Tests.antt =====
-- A run of two threads on one key: one holds it while the other waits.
use golagram.Base.{ℕ, ◌≡◌, ◌≢◌, refl, some, none, get_elem?, arith, false, ◌≤◌}
use golagram.Base.Assoc.{lookup}
use golagram.Fsm.{StorageKey, storage_key}
use golagram.KeyedMutex.{
  RefCountedMutex, holding, KeyedMutex, new_keyed_mutex, idle_threads, lock_enter, lock_acquire,
  unlock_enter, enters, acquires, Reachable, start, step,
}
use golagram.KeyedMutex.Counts.{count}
use golagram.KeyedMutex.Invariant.{uses_key, refs_of}
use golagram.KeyedMutex.Exclusion.{Reachable-exclusive, Reachable-counted}

abbrev user_key : StorageKey
user_key = record { chat_id = 5; user_id = 7; thread_id = 0 }

abbrev at_start : KeyedMutex
at_start = new_keyed_mutex (idle_threads 2)

abbrev one_waits : KeyedMutex
one_waits = lock_enter 0 user_key at_start

abbrev both_wait : KeyedMutex
both_wait = lock_enter 1 user_key one_waits

abbrev one_holds : KeyedMutex
one_holds = lock_acquire 0 user_key 0 both_wait

one_holds-Reachable : Reachable 2 one_holds
unfolding lock_enter lookup
one_holds-Reachable =
    step both_wait one_holds
      (step one_waits both_wait (step at_start one_waits start (enters at_start 0 user_key refl))
        (enters one_waits 1 user_key refl))
      (acquires both_wait 0 user_key 0 refl refl)

two_references : refs_of (lookup user_key one_holds.locks) ≡ 2
unfolding lookup lock_acquire lock_enter golagram.Base.Assoc.insert
two_references = refl

Reachable-exclusive_example : get_elem? one_holds.threads 1 ≢ some (holding user_key 0)
unfolding lock_acquire lock_enter
Reachable-exclusive_example =
    Reachable-exclusive 2 one_holds 0 1 user_key 0 0 one_holds-Reachable (omega arith) refl

Reachable-counted_example :
    ((key : StorageKey)
      → refs_of (lookup key one_holds.locks) ≡ count (uses_key key) one_holds.threads)
    × (((key : StorageKey) (l : RefCountedMutex) → lookup key one_holds.locks ≡ some l → 1 ≤ l.refs)
        × ((t : ℕ) (key : StorageKey) (a : ℕ)
            → get_elem? one_holds.threads t ≡ some (holding key a)
            → (k' : KeyedMutex) × (unlock_enter t key one_holds ≡ some k')))
Reachable-counted_example = Reachable-counted 2 one_holds one_holds-Reachable
