-- ===== src/Fsm/Expiry.antt =====
-- Sliding expiry of MemoryStorage: what a sweep removes, and that every operation restarts the
-- clock of its key.
use golagram.Base.{
  ℕ, ◌≡◌, ◌≢◌, ◌∙◌, ◌+◌, ◌-◌, ◌≤◌, refl, Option, none, some, if◌then◌else◌, ltb, not, Bool-cases,
  Option-cases, inl, inr, arith,
}
use golagram.Base.Assoc.{
  lookup, insert, erase, Unique, lookup-insert, lookup-erase, lookup-retain, insert-Unique,
  erase-Unique, beq_refl,
}
use golagram.Fsm.{StorageKey, storage_key}
use golagram.Fsm.Memory.{
  Data, DataError, Outcome-cases, FsmEntry, Entries, Command, write_state, read_state, write_data,
  read_data, patch_data, forget, error_reply, entry_at, touched, evict_expired, set_state,
  get_state, set_data, get_data, update_data, clear, merged, copy_data, run,
}

module _ {V : Type 0} where
  -- What a sweep leaves of an entry.
  unfoldable pub swept : ℕ → ℕ → Option (FsmEntry V) → Option (FsmEntry V)
  swept ttl now none = none
  swept ttl now (some e) = if ltb ttl (now - e.last_access) then none else some e

  swept-keep :
      (ttl now : ℕ) (o : Option (FsmEntry V))
      → elim o [
        | some e ↦ if not (ltb ttl (now - e.last_access)) then some e else none
        | none ↦ none
      ]
        ≡ swept ttl now o
  unfolding swept
  swept-keep ttl now none = refl
  swept-keep ttl now (some e) = elim (Bool-cases (ltb ttl (now - e.last_access))) [
    | inl h ↦ rw h refl
    | inr h ↦ rw h refl
  ]

  -- In a map whose keys are distinct, a sweep removes exactly the entries that were idle for longer
  -- than the ttl, and leaves every other entry as it is.
  pub lookup-evict_expired :
      (ttl now : ℕ) (key : StorageKey) (m : Entries V)
      → Unique m
      → lookup key (evict_expired ttl now m) ≡ swept ttl now (lookup key m)
  unfolding evict_expired
  lookup-evict_expired ttl now key m h =
      lookup-retain (λ e. not (ltb ttl (now - e.last_access))) key m h
      ∙ swept-keep ttl now (lookup key m)

  -- An entry that is there was last accessed at the time.
  abbrev pub AccessedAt : ℕ → Option (FsmEntry V) → Type 0
  AccessedAt now none = Unit
  AccessedAt now (some e) = e.last_access ≡ now

  AccessedAt-insert :
      (now : ℕ) (key : StorageKey) (e : FsmEntry V) (m : Entries V)
      → e.last_access ≡ now
      → AccessedAt now (lookup key (insert key e m))
  AccessedAt-insert now key e m h = rw (lookup-insert key key e m, beq_refl storage_key key) h

  AccessedAt-erase :
      (now : ℕ) (key : StorageKey) (m : Entries V) → AccessedAt now (lookup key (erase key m))
  AccessedAt-erase now key m = rw (lookup-erase key key m, beq_refl storage_key key) tt

  entry_at-last_access :
      (key : StorageKey) (now : ℕ) (m : Entries V) → (entry_at key now m).last_access ≡ now
  unfolding entry_at touched
  entry_at-last_access key now m = elim (Option-cases (lookup key m)) [
    | inl h ↦ rw h refl
    | inr h ↦ rw h.1 refl
  ]

  swept-AccessedAt :
      (ttl seen now : ℕ) (o : Option (FsmEntry V))
      → AccessedAt seen o
      → now ≤ seen + ttl
      → swept ttl now o ≡ o
  unfolding swept
  swept-AccessedAt ttl seen now none h q = refl
  swept-AccessedAt ttl seen now (some e) h q = ground arith

  -- The key an operation is called on.
  unfoldable pub key_of : Command V → StorageKey
  key_of (write_state key s) = key
  key_of (read_state key) = key
  key_of (write_data key d) = key
  key_of (read_data key) = key
  key_of (patch_data key d) = key
  key_of (forget key) = key

module _ {V Encoded : Type 0} (marshal : Data V → Option Encoded)
    (unmarshal : Encoded → Option (Data V)) where
  run-AccessedAt :
      (cmd : Command V) (now : ℕ) (m : Entries V)
      → ((e : DataError) → (run marshal unmarshal cmd now m).0 ≢ error_reply e)
      → AccessedAt now (lookup (key_of cmd) (run marshal unmarshal cmd now m).1)
  unfolding run key_of set_state get_state set_data get_data update_data clear
  run-AccessedAt (write_state key s) now m ok =
      AccessedAt-insert now key _ m (entry_at-last_access key now m)
  run-AccessedAt (read_state key) now m ok = elim (Option-cases (lookup key m)) [
    | inl h ↦ rw (h, get_state) (rw h tt)
    | inr h ↦ rw (h.1, get_state) (AccessedAt-insert now key _ m refl)
  ]
  run-AccessedAt (write_data key d) now m ok =
      elim (Outcome-cases (copy_data marshal unmarshal d)) [
        | inl h ↦
            rw (h.1, set_data) (AccessedAt-insert now key _ m (entry_at-last_access key now m))
        | inr h ↦ absurd (ok h.0 (rw (h.1, set_data) refl))
      ]
  run-AccessedAt (read_data key) now m ok = elim (Option-cases (lookup key m)) [
    | inl h ↦ rw (h, get_data) (rw h tt)
    | inr h ↦ rw (h.1, get_data) (AccessedAt-insert now key _ m refl)
  ]
  run-AccessedAt (patch_data key d) now m ok =
      elim (Outcome-cases (copy_data marshal unmarshal (merged (entry_at key now m).data_map d))) [
        | inl h ↦
            rw (h.1, update_data) (AccessedAt-insert now key _ m (entry_at-last_access key now m))
        | inr h ↦
            rw (h.1, update_data) (AccessedAt-insert now key _ m (entry_at-last_access key now m))
      ]
  run-AccessedAt (forget key) now m ok = AccessedAt-erase now key m

  run-Unique :
      (cmd : Command V) (now : ℕ) (m : Entries V)
      → Unique m
      → Unique (run marshal unmarshal cmd now m).1
  unfolding run key_of set_state get_state set_data get_data update_data clear
  run-Unique (write_state key s) now m h = insert-Unique key _ m h
  run-Unique (read_state key) now m h = elim (Option-cases (lookup key m)) [
    | inl q ↦ rw (q, get_state) h
    | inr q ↦ rw (q.1, get_state) (insert-Unique key _ m h)
  ]
  run-Unique (write_data key d) now m h = elim (Outcome-cases (copy_data marshal unmarshal d)) [
    | inl q ↦ rw (q.1, set_data) (insert-Unique key _ m h)
    | inr q ↦ rw (q.1, set_data) h
  ]
  run-Unique (read_data key) now m h = elim (Option-cases (lookup key m)) [
    | inl q ↦ rw (q, get_data) h
    | inr q ↦ rw (q.1, get_data) (insert-Unique key _ m h)
  ]
  run-Unique (patch_data key d) now m h =
      elim (Outcome-cases (copy_data marshal unmarshal (merged (entry_at key now m).data_map d))) [
        | inl q ↦ rw (q.1, update_data) (insert-Unique key _ m h)
        | inr q ↦ rw (q.1, update_data) (insert-Unique key _ m h)
      ]
  run-Unique (forget key) now m h = erase-Unique key m h

  -- In a map whose keys are distinct: after any storage operation that does not fail, reads included,
  -- a sweep no later than the ttl after it leaves the entry of the operation's key as the operation
  -- left it.
  pub evict_expired-run :
      (cmd : Command V) (ttl seen now : ℕ) (m : Entries V)
      → Unique m
      → ((e : DataError) → (run marshal unmarshal cmd seen m).0 ≢ error_reply e)
      → now ≤ seen + ttl
      → lookup (key_of cmd) (evict_expired ttl now (run marshal unmarshal cmd seen m).1)
        ≡ lookup (key_of cmd) (run marshal unmarshal cmd seen m).1
  evict_expired-run cmd ttl seen now m h ok q =
      lookup-evict_expired ttl now (key_of cmd) _ (run-Unique cmd seen m h)
      ∙ swept-AccessedAt ttl seen now _ (run-AccessedAt cmd seen m ok) q
