-- ===== src/Fsm/Memory.antt =====
-- fsm_memory.go: the in-process storage. The clock is an argument, in nanoseconds; encoding/json is
-- a parameter: the encoding of a map, and the map that an encoding decodes to.
use golagram.Base.{ℕ, ◌≡◌, ◌⊎◌, inl, inr, refl, ◌-◌, List, [], ◌∷◌, not, Option, some, none, ltb}
use golagram.Base.Assoc.{lookup, insert, erase, merge, retain, text_key}
use golagram.Fsm.{State, no_state, StorageKey, storage_key}

-- A data map, its values of a type V.
abbrev pub Data : Type 0 → Type 0
Data V = List (List ℕ × V)

pub data DataError : Type 0 where
  not_marshalable : DataError
  round_trip_failed : DataError

pub data Outcome (A : Type 0) : Type 0 where
  returned : A → Outcome A
  failed : DataError → Outcome A

pub Outcome-cases :
    {A : Type 0} (o : Outcome A) → ((a : A) × (o ≡ returned a)) ⊎ ((e : DataError) × (o ≡ failed e))
Outcome-cases (returned a) = inl (a, refl)
Outcome-cases (failed e) = inr (e, refl)

pub record FsmEntry (V : Type 0) : Type 0 where
  pub state : State
  pub data_map : Data V
  pub last_access : ℕ

abbrev pub Entries : Type 0 → Type 0
Entries V = List (StorageKey × FsmEntry V)

-- The operations of FSMStorage, with the key each is called on.
pub data Command (V : Type 0) : Type 0 where
  write_state : StorageKey → State → Command V
  read_state : StorageKey → Command V
  write_data : StorageKey → Data V → Command V
  read_data : StorageKey → Command V
  patch_data : StorageKey → Data V → Command V
  forget : StorageKey → Command V

pub data Reply (V : Type 0) : Type 0 where
  done : Reply V
  state_reply : State → Reply V
  data_reply : Data V → Reply V
  error_reply : DataError → Reply V

module _ {V : Type 0} where
  unfoldable pub evict_expired : ℕ → ℕ → Entries V → Entries V
  evict_expired ttl now entries = retain (λ e. not (ltb ttl (now - e.last_access))) entries

  -- The entry of a key, made when it is not there, with the clock of this access.
  unfoldable pub touched : ℕ → Option (FsmEntry V) → FsmEntry V
  touched now (some e) = record e { last_access = now }
  touched now none = record { state = no_state; data_map = []; last_access = now }

  unfoldable pub entry_at : StorageKey → ℕ → Entries V → FsmEntry V
  unfolding touched
  entry_at key now entries = touched now (lookup key entries)

  unfoldable pub set_state : StorageKey → State → ℕ → Entries V → Entries V
  set_state key s now entries = insert key (record (entry_at key now entries) { state = s }) entries

  unfoldable pub get_state : StorageKey → ℕ → Entries V → State × Entries V
  get_state key now entries = elim (lookup key entries) [
    | some e ↦ (e.state, insert key (record e { last_access = now }) entries)
    | none ↦ (no_state, entries)
  ]

  unfoldable pub clear : StorageKey → Entries V → Entries V
  clear key entries = erase key entries

  unfoldable pub merged : Data V → Data V → Data V
  merged old partial = merge (merge [] old) partial

module _ {V Encoded : Type 0} (marshal : Data V → Option Encoded)
    (unmarshal : Encoded → Option (Data V)) where
  unfoldable pub decoded_map : Option (Data V) → Outcome (Data V)
  decoded_map none = failed round_trip_failed
  decoded_map (some d) = returned d

  unfoldable pub decoded : Option Encoded → Outcome (Data V)
  unfolding decoded_map
  decoded none = failed not_marshalable
  decoded (some t) = decoded_map (unmarshal t)

  unfoldable pub copy_data : Data V → Outcome (Data V)
  unfolding decoded
  copy_data [] = returned []
  copy_data (x ∷ d) = decoded (marshal (x ∷ d))

  unfoldable pub reply_of : Outcome (Data V) → Reply V
  reply_of (returned d) = data_reply d
  reply_of (failed e) = error_reply e

  unfoldable pub set_data : StorageKey → Data V → ℕ → Entries V → Reply V × Entries V
  set_data key d now entries = elim (copy_data d) [
    | failed e ↦ (error_reply e, entries)
    | returned copied ↦
        (done, insert key (record (entry_at key now entries) { data_map = copied }) entries)
  ]

  unfoldable pub get_data : StorageKey → ℕ → Entries V → Reply V × Entries V
  unfolding reply_of
  get_data key now entries = elim (lookup key entries) [
    | none ↦ (data_reply [], entries)
    | some e ↦
        (reply_of (copy_data e.data_map), insert key (record e { last_access = now }) entries)
  ]

  -- The entry is made, and its clock set, before the data can be refused.
  unfoldable pub update_data : StorageKey → Data V → ℕ → Entries V → Reply V × Entries V
  unfolding reply_of
  update_data key partial now entries =
      let e = entry_at key now entries in
      elim (copy_data (merged e.data_map partial)) [
        | failed err ↦ (error_reply err, insert key e entries)
        | returned copied ↦
            (reply_of (copy_data copied), insert key (record e { data_map = copied }) entries)
      ]

  unfoldable pub run : Command V → ℕ → Entries V → Reply V × Entries V
  run (write_state key s) now entries = (done, set_state key s now entries)
  run (read_state key) now entries = let r = get_state key now entries in (state_reply r.0, r.1)
  run (write_data key d) now entries = set_data key d now entries
  run (read_data key) now entries = get_data key now entries
  run (patch_data key d) now entries = update_data key d now entries
  run (forget key) now entries = (done, clear key entries)
