-- ===== src/KeyedMutex.antt =====
-- keyed_mutex.go: one lock per storage key, with reference counts, as the atomic steps of threads.
pub mod Counts
pub mod Invariant
pub mod Exclusion
mod Tests
use golagram.Base.{
  ℕ, zero, suc, ◌≡◌, ◌+◌, ◌-◌, List, [], ◌∷◌, Bool, true, false, Option, some, none, if◌then◌else◌,
  ◌==◌, get_elem?,
}
use golagram.Base.Assoc.{lookup, insert, erase}
use golagram.Fsm.{StorageKey, storage_key}

-- A refCountedMutex. A thread keeps its pointer also after the map has dropped it; the address
-- stands for the pointer.
pub record RefCountedMutex : Type 0 where
  pub address : ℕ
  pub refs : ℕ

-- What a thread is doing with the locks: nothing, standing between the two halves of Lock, holding
-- a key, or standing between the two halves of Unlock.
pub data Phase : Type 0 where
  idle : Phase
  waiting : StorageKey → ℕ → Phase
  holding : StorageKey → ℕ → Phase
  leaving : StorageKey → ℕ → Phase

-- The map, which of the inner mutexes are locked, the next fresh address, and the threads.
pub record KeyedMutex : Type 0 where
  pub locks : List (StorageKey × RefCountedMutex)
  pub locked : ℕ → Bool
  pub fresh : ℕ
  pub threads : List Phase

abbrev pub set_at {ℓ} : {A : Type ℓ} → ℕ → A → List A → List A
set_at t y [] = []
set_at zero y (x ∷ xs) = y ∷ xs
set_at (suc t) y (x ∷ xs) = x ∷ set_at t y xs

abbrev pub new_keyed_mutex : List Phase → KeyedMutex
new_keyed_mutex threads = record { locks = []; locked = λ a. false; fresh = 0; threads = threads }

unfoldable pub set_locked : ℕ → Bool → (ℕ → Bool) → ℕ → Bool
set_locked a b locked c = if a == c then b else locked c

-- The mutex that Lock uses: the one of the map, or a new one.
unfoldable pub mutex_or_new : Option RefCountedMutex → ℕ → RefCountedMutex
mutex_or_new (some l) fresh = l
mutex_or_new none fresh = record { address = fresh; refs = 0 }

unfoldable pub fresh_after : Option RefCountedMutex → ℕ → ℕ
fresh_after (some l) fresh = fresh
fresh_after none fresh = suc fresh

-- Lock, under k.mu: the reference is counted before the thread waits.
unfoldable pub lock_enter : ℕ → StorageKey → KeyedMutex → KeyedMutex
unfolding mutex_or_new
lock_enter t key k =
    let l = mutex_or_new (lookup key k.locks) k.fresh in
    record k {
      locks = insert key (record l { refs = suc l.refs }) k.locks;
      fresh = fresh_after (lookup key k.locks) k.fresh;
      threads = set_at t (waiting key l.address) k.threads;
    }

-- Lock, l.mu.Lock() returning.
unfoldable pub lock_acquire : ℕ → StorageKey → ℕ → KeyedMutex → KeyedMutex
lock_acquire t key a k = record k {
  locked = set_locked a true k.locked;
  threads = set_at t (holding key a) k.threads;
}

-- The map after a reference is given back.
unfoldable pub released :
    StorageKey
    → RefCountedMutex
    → List (StorageKey × RefCountedMutex)
    → List (StorageKey × RefCountedMutex)
released key l locks =
    if l.refs - 1 == 0 then erase key locks else insert key (record l { refs = l.refs - 1 }) locks

unfoldable pub leave_with : ℕ → StorageKey → KeyedMutex → Option RefCountedMutex → Option KeyedMutex
leave_with t key k none = none
leave_with t key k (some l) = some (record k {
  locks = released key l k.locks;
  threads = set_at t (leaving key l.address) k.threads;
})

-- Unlock, under k.mu; none where the map has no mutex, where the source dereferences nil.
unfoldable pub unlock_enter : ℕ → StorageKey → KeyedMutex → Option KeyedMutex
unlock_enter t key k = leave_with t key k (lookup key k.locks)

-- Unlock, l.mu.Unlock().
unfoldable pub unlock_leave : ℕ → ℕ → KeyedMutex → KeyedMutex
unlock_leave t a k = record k {
  locked = set_locked a false k.locked;
  threads = set_at t idle k.threads;
}

-- One atomic step of one thread. A thread unlocks only what it holds.
pub data Step : KeyedMutex → KeyedMutex → Type 0 where
  enters :
      (k : KeyedMutex) (t : ℕ) (key : StorageKey)
      → get_elem? k.threads t ≡ some idle
      → Step k (lock_enter t key k)
  acquires :
      (k : KeyedMutex) (t : ℕ) (key : StorageKey) (a : ℕ)
      → get_elem? k.threads t ≡ some (waiting key a)
      → k.locked a ≡ false
      → Step k (lock_acquire t key a k)
  unlocks :
      (k k' : KeyedMutex) (t : ℕ) (key : StorageKey) (a : ℕ)
      → get_elem? k.threads t ≡ some (holding key a)
      → unlock_enter t key k ≡ some k'
      → Step k k'
  leaves :
      (k : KeyedMutex) (t : ℕ) (key : StorageKey) (a : ℕ)
      → get_elem? k.threads t ≡ some (leaving key a)
      → Step k (unlock_leave t a k)

-- Reached from a new keyed mutex and n idle threads.
abbrev pub idle_threads : ℕ → List Phase
idle_threads zero = []
idle_threads (suc n) = idle ∷ idle_threads n

pub data Reachable (n : ℕ) : KeyedMutex → Type 0 where
  start : Reachable n (new_keyed_mutex (idle_threads n))
  step : (k k' : KeyedMutex) → Reachable n k → Step k k' → Reachable n k'
