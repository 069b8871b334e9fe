-- ===== src/Fsm/Refine.antt =====
-- The specification of MemoryStorage without expiry: a function from keys to conversations, where
-- an absent conversation is the empty one, and no clock.
use golagram.Base.{
  ℕ, ◌≡◌, ◌∙◌, sym, ap, refl, List, [], ◌∷◌, Option, none, some, if◌then◌else◌, Bool-cases,
  Option-cases, inl, inr, ◌++◌, text_eq,
}
use golagram.Base.Assoc.{lookup, insert, merge, text_key}
use mathlib.Core.Path.{ap₂}
use golagram.Fsm.{State, no_state, StorageKey, storage_key, key_beq}
use golagram.Fsm.Memory.{
  Data, Outcome, Outcome-cases, returned, failed, FsmEntry, Entries, Command, write_state,
  read_state, write_data, read_data, patch_data, forget, Reply, done, state_reply, data_reply,
  error_reply, entry_at, touched, set_state, get_state, set_data, get_data, update_data, clear,
  merged, copy_data, decoded, decoded_map, reply_of, run, not_marshalable, round_trip_failed,
}
use golagram.Fsm.Views.{
  Conversations, conversation, view, assign, no_conversations, view-touch, view-retouch,
  entry_at-data, view-write, view-set_state, view-clear,
}

-- A map written key by key: a pair behind another of its key replaces it in its place.
written_pair : {V : Type 0} → List ℕ × V → Data V → Data V
unfolding text_eq
written_pair (k, v) [] = (k, v) ∷ []
written_pair (k, v) ((j, w) ∷ d) =
    let rest = written_pair (k, v) d in if text_eq j k then (j, v) ∷ d else (j, w) ∷ rest

written_all : {V : Type 0} → Data V → Data V → Data V
unfolding written_pair
written_all d [] = d
written_all d (p ∷ ps) = written_all (written_pair p d) ps

-- Old data with new data written over it.
unfoldable pub overlaid : {V : Type 0} → Data V → Data V → Data V
unfolding written_all
overlaid old new = written_all [] (old ++ new)

written_pair-insert :
    {V : Type 0} (k : List ℕ) (v : V) (d : Data V) → written_pair (k, v) d ≡ insert k v d
unfolding written_pair insert
written_pair-insert k v [] = refl
written_pair-insert k v ((j, w) ∷ d) = rw (written_pair-insert k v d) refl

written_all-merge :
    {V : Type 0} (m old new : Data V) → written_all m (old ++ new) ≡ merge (merge m old) new
unfolding written_all merge
written_all-merge m [] [] = refl
written_all-merge m [] ((k, v) ∷ new) =
    ap (λ q. written_all q new) (written_pair-insert k v m)
    ∙ written_all-merge (insert k v m) [] new
written_all-merge m ((k, v) ∷ old) new =
    ap (λ q. written_all q (old ++ new)) (written_pair-insert k v m)
    ∙ written_all-merge (insert k v m) old new

merged-overlaid : {V : Type 0} (old new : Data V) → merged old new ≡ overlaid old new
unfolding merged overlaid
merged-overlaid old new = sym (written_all-merge [] old new)

module _ {V Encoded : Type 0} (marshal : Data V → Option Encoded)
    (unmarshal : Encoded → Option (Data V)) where
  -- What a storage keeps of data: the map that its JSON decodes to, an empty map as it is.
  unfoldable pub through_json : Data V → Outcome (Data V)
  through_json [] = returned []
  through_json (x ∷ d) = elim (marshal (x ∷ d)) [
    | none ↦ failed not_marshalable
    | some t ↦ elim (unmarshal t) [ none ↦ failed round_trip_failed | some c ↦ returned c ]
  ]

  copy_data-through_json : (d : Data V) → copy_data marshal unmarshal d ≡ through_json d
  unfolding copy_data through_json decoded decoded_map
  copy_data-through_json [] = refl
  copy_data-through_json (x ∷ d) = elim (Option-cases (marshal (x ∷ d))) [
    | inl h ↦ rw (h, through_json) refl
    | inr (t, h) ↦ elim (Option-cases (unmarshal t)) [
      | inl u ↦ rw (h, u, through_json) refl
      | inr (c, u) ↦ rw (h, u, through_json) refl
    ]
  ]

  copied-through_json :
      (d : Data V) (o : Outcome (Data V)) → copy_data marshal unmarshal d ≡ o → through_json d ≡ o
  copied-through_json d o h = sym (copy_data-through_json d) ∙ h

  copied-overlaid :
      (old new : Data V) (o : Outcome (Data V))
      → copy_data marshal unmarshal (merged old new) ≡ o
      → through_json (overlaid old new) ≡ o
  copied-overlaid old new o h =
      ap through_json (sym (merged-overlaid old new)) ∙ copied-through_json (merged old new) o h

  -- What a storage promises, without a clock: the stored data is returned as it is.
  unfoldable pub spec_run : Command V → Conversations V → Reply V × Conversations V
  unfolding through_json overlaid
  spec_run (write_state key s) m = (done, assign key (s, (m key).1) m)
  spec_run (read_state key) m = (state_reply (m key).0, m)
  spec_run (write_data key d) m = elim (through_json d) [
    | returned c ↦ (done, assign key ((m key).0, c) m)
    | failed e ↦ (error_reply e, m)
  ]
  spec_run (read_data key) m = (data_reply (m key).1, m)
  spec_run (patch_data key d) m = elim (through_json (overlaid (m key).1 d)) [
    | returned c ↦ (data_reply c, assign key ((m key).0, c) m)
    | failed e ↦ (error_reply e, m)
  ]
  spec_run (forget key) m = (done, assign key (no_state, []) m)

  -- Decoding gives data that encodes and decodes to itself.
  abbrev pub Stable : Type 0
  Stable =
      (d c : Data V) (t : Encoded)
      → marshal d ≡ some t
      → unmarshal t ≡ some c
      → (t' : Encoded) × ((marshal c ≡ some t') × (unmarshal t' ≡ some c))

  abbrev pub Canonical : Conversations V → Type 0
  Canonical m = (key : StorageKey) → copy_data marshal unmarshal (m key).1 ≡ returned (m key).1

  decoded_map-returned :
      (o : Option (Data V)) (c : Data V) → decoded_map marshal unmarshal o ≡ returned c → o ≡ some c
  unfolding decoded_map
  decoded_map-returned none c e = cc
  decoded_map-returned (some d) c e = cc

  decoded-twice :
      Stable
      → (d c : Data V) (o : Option Encoded) → marshal d ≡ o
      → decoded marshal unmarshal o ≡ returned c
      → decoded marshal unmarshal (marshal c) ≡ returned c
  unfolding decoded
  decoded-twice stable d c none h e = cc
  decoded-twice stable d c (some t) h e =
      let (t', (m', u')) = stable d c t h (decoded_map-returned (unmarshal t) c e) in
      ap (decoded marshal unmarshal) m' ∙ ap (decoded_map marshal unmarshal) u'

  returned-nil : (d : Data V) → [] ≡ d → copy_data marshal unmarshal d ≡ returned d
  unfolding copy_data
  returned-nil [] h = refl
  returned-nil (x ∷ d) h = cc

  copy_data-twice :
      Stable
      → (d c : Data V) → copy_data marshal unmarshal d ≡ returned c
      → copy_data marshal unmarshal c ≡ returned c
  unfolding copy_data
  copy_data-twice stable [] c e = returned-nil c cc
  copy_data-twice stable (x ∷ d) [] e = refl
  copy_data-twice stable (x ∷ d) (y ∷ c) e =
      decoded-twice stable (x ∷ d) (y ∷ c) (marshal (x ∷ d)) refl e

  stored-Canonical :
      (key : StorageKey) (m : Entries V) (e : FsmEntry V)
      → Canonical (view m)
      → lookup key m ≡ some e
      → copy_data marshal unmarshal e.data_map ≡ returned e.data_map
  unfolding view conversation
  stored-Canonical key m e canon h =
      ap (λ o. copy_data marshal unmarshal (conversation o).1) (sym h)
      ∙ (canon key ∙ ap (λ o. returned (conversation o).1) h)

  run-spec_run :
      Stable
      → (cmd : Command V) (now : ℕ) (m : Entries V) → Canonical (view m)
      → ((run marshal unmarshal cmd now m).0 ≡ (spec_run cmd (view m)).0)
        × (view (run marshal unmarshal cmd now m).1 ≡ (spec_run cmd (view m)).1)
  unfolding run spec_run set_state get_state set_data get_data update_data clear view conversation
      entry_at touched
  run-spec_run stable (write_state key s) now m canon = (refl, view-set_state key s now m)
  run-spec_run stable (read_state key) now m canon = elim (Option-cases (lookup key m)) [
    | inl h ↦ rw (h, get_state) (refl, refl)
    | inr h ↦ rw (h.1, get_state) (refl, view-retouch key now m h.0 h.1)
  ]
  run-spec_run stable (write_data key d) now m canon =
      elim (Outcome-cases (copy_data marshal unmarshal d)) [
        | inl h ↦
            rw (h.1, copied-through_json d _ h.1, spec_run, set_data)
              (refl, view-write key now m h.0)
        | inr h ↦ rw (h.1, copied-through_json d _ h.1, spec_run, set_data) (refl, refl)
      ]
  run-spec_run stable (read_data key) now m canon = elim (Option-cases (lookup key m)) [
    | inl h ↦ rw (h, get_data) (refl, refl)
    | inr h ↦
        (let c = stored-Canonical key m h.0 canon h.1 in
          rw (h.1, get_data) (ap (reply_of marshal unmarshal) c, view-retouch key now m h.0 h.1))
  ]
  run-spec_run stable (patch_data key d) now m canon =
      let same = entry_at-data key now m in
      elim (Outcome-cases (copy_data marshal unmarshal (merged (view m key).1 d))) [
        | inl h ↦
            rw (same, update_data, spec_run)
              (rw (h.1, copied-overlaid (view m key).1 d _ h.1, spec_run)
                (
                  ap (reply_of marshal unmarshal)
                      (copy_data-twice stable (merged (view m key).1 d) h.0 h.1),
                  view-write key now m h.0,
                ))
        | inr h ↦
            rw (same, update_data, spec_run)
              (rw (h.1, copied-overlaid (view m key).1 d _ h.1, spec_run)
                (refl, view-touch key now m))
      ]
  run-spec_run stable (forget key) now m canon = (refl, view-clear key m)

  Canonical-assign :
      (key : StorageKey) (s : State) (c : Data V) (m : Conversations V)
      → Canonical m
      → copy_data marshal unmarshal c ≡ returned c
      → Canonical (assign key (s, c) m)
  unfolding assign
  Canonical-assign key s c m canon h j = elim (Bool-cases (key_beq key j)) [
    | inl q ↦ rw q h
    | inr q ↦ rw q (canon j)
  ]

  spec_run-Canonical :
      Stable → (cmd : Command V) (m : Conversations V) → Canonical m → Canonical (spec_run cmd m).1
  unfolding spec_run
  spec_run-Canonical stable (write_state key s) m canon =
      Canonical-assign key s (m key).1 m canon (canon key)
  spec_run-Canonical stable (read_state key) m canon = canon
  spec_run-Canonical stable (write_data key d) m canon =
      elim (Outcome-cases (copy_data marshal unmarshal d)) [
        | inl h ↦
            rw (copied-through_json d _ h.1, spec_run)
              (Canonical-assign key (m key).0 h.0 m canon (copy_data-twice stable d h.0 h.1))
        | inr h ↦ rw (copied-through_json d _ h.1, spec_run) canon
      ]
  spec_run-Canonical stable (read_data key) m canon = canon
  spec_run-Canonical stable (patch_data key d) m canon =
      elim (Outcome-cases (copy_data marshal unmarshal (merged (m key).1 d))) [
        | inl h ↦
            rw (copied-overlaid (m key).1 d _ h.1, spec_run)
              (Canonical-assign key (m key).0 h.0 m canon (copy_data-twice stable _ h.0 h.1))
        | inr h ↦ rw (copied-overlaid (m key).1 d _ h.1, spec_run) canon
      ]
  spec_run-Canonical stable (forget key) m canon =
      Canonical-assign key no_state [] m canon (unfold copy_data in refl)

  unfoldable pub run_all : List (ℕ × Command V) → Entries V → List (Reply V)
  run_all [] m = []
  run_all ((now, cmd) ∷ cmds) m =
      let (reply, m') = run marshal unmarshal cmd now m in reply ∷ run_all cmds m'

  unfoldable pub spec_all : List (ℕ × Command V) → Conversations V → List (Reply V)
  spec_all [] m = []
  spec_all ((now, cmd) ∷ cmds) m = let (reply, m') = spec_run cmd m in reply ∷ spec_all cmds m'

  run_all-view :
      Stable
      → (cmds : List (ℕ × Command V)) (m : Entries V) → Canonical (view m)
      → run_all cmds m ≡ spec_all cmds (view m)
  unfolding run_all spec_all
  run_all-view stable [] m canon = refl
  run_all-view stable ((now, cmd) ∷ cmds) m canon =
      let (same_reply, same_view) = run-spec_run stable cmd now m canon in
      ap₂ (λ r rs. r ∷ rs) same_reply
        (run_all-view stable cmds _ (rw same_view (spec_run-Canonical stable cmd (view m) canon))
          ∙ ap (spec_all cmds) same_view)

  -- Without expiry, and for a JSON encoding whose decoded data encodes and decodes to itself, every
  -- sequence of storage operations on a new MemoryStorage gives the replies of the specification:
  -- conversations are independent, a read returns what was last written, as its JSON decodes, an
  -- update writes its pairs over the stored ones, key by key, and keeps the other keys, a refused
  -- write changes nothing, no read fails, and no reply depends on the clock.
  pub run_all-spec_all :
      Stable → (cmds : List (ℕ × Command V)) → run_all cmds [] ≡ spec_all cmds no_conversations
  unfolding no_conversations view conversation lookup
  run_all-spec_all stable cmds = run_all-view stable cmds [] (λ key. unfold copy_data in refl)
