-- ===== src/Fsm/Views.antt =====
-- The conversations that the entries of MemoryStorage stand for, and what its writes do to them.
use golagram.Base.{
  ℕ, ◌≡◌, ◌∙◌, sym, ap, refl, [], Option, none, some, if◌then◌else◌, Bool-cases, inl, inr,
}
use golagram.Base.Assoc.{lookup, insert, erase, text_key, lookup-insert, lookup-erase}
use mathlib.Core.Path.{fun_ext}
use golagram.Fsm.{State, no_state, StorageKey, storage_key, key_beq, key_beq_iff}
use golagram.Fsm.Memory.{Data, FsmEntry, Entries, entry_at, touched, set_state, clear}

abbrev pub Conversations : Type 0 → Type 0
Conversations V = StorageKey → State × Data V

module _ {V : Type 0} where
  unfoldable pub conversation : Option (FsmEntry V) → State × Data V
  conversation none = (no_state, [])
  conversation (some e) = (e.state, e.data_map)

  unfoldable pub view : Entries V → Conversations V
  view entries key = conversation (lookup key entries)

  unfoldable pub assign : StorageKey → State × Data V → Conversations V → Conversations V
  assign key c m j = if key_beq key j then c else m j

  unfoldable pub no_conversations : Conversations V
  no_conversations key = (no_state, [])

  view-insert :
      (key : StorageKey) (e : FsmEntry V) (m : Entries V)
      → view (insert key e m) ≡ assign key (e.state, e.data_map) (view m)
  unfolding view assign conversation
  view-insert key e m = fun_ext (λ j. elim (Bool-cases (key_beq key j)) [
    | inl h ↦ rw (lookup-insert key j e m, h) refl
    | inr h ↦ rw (lookup-insert key j e m, h) refl
  ])

  view-erase :
      (key : StorageKey) (m : Entries V) → view (erase key m) ≡ assign key (no_state, []) (view m)
  unfolding view assign conversation
  view-erase key m = fun_ext (λ j. elim (Bool-cases (key_beq key j)) [
    | inl h ↦ rw (lookup-erase key j m, h) refl
    | inr h ↦ rw (lookup-erase key j m, h) refl
  ])

  assign-same : (key : StorageKey) (m : Conversations V) → assign key (m key) m ≡ m
  unfolding assign
  assign-same key m = fun_ext (λ j. elim (Bool-cases (key_beq key j)) [
    | inl h ↦ (let same : key ≡ j = (key_beq_iff key j).0 h in rw h (rw same refl))
    | inr h ↦ rw h refl
  ])

  conversation-touched :
      (now : ℕ) (o : Option (FsmEntry V)) → conversation (some (touched now o)) ≡ conversation o
  unfolding touched conversation
  conversation-touched now none = refl
  conversation-touched now (some e) = refl

  -- Writing the entry back with another clock changes no conversation.
  pub view-touch :
      (key : StorageKey) (now : ℕ) (m : Entries V)
      → view (insert key (entry_at key now m) m) ≡ view m
  unfolding entry_at view conversation
  view-touch key now m =
      view-insert key (entry_at key now m) m
      ∙ (ap (λ c. assign key c (view m)) {y = view m key} (conversation-touched now (lookup key m))
          ∙ assign-same key (view m))

  pub view-retouch :
      (key : StorageKey) (now : ℕ) (m : Entries V) (e : FsmEntry V)
      → lookup key m ≡ some e
      → view (insert key (record e { last_access = now }) m) ≡ view m
  unfolding entry_at touched
  view-retouch key now m e h =
      ap (λ t. view (insert key (touched now t) m)) (sym h) ∙ view-touch key now m

  pub entry_at-data :
      (key : StorageKey) (now : ℕ) (m : Entries V) → (entry_at key now m).data_map ≡ (view m key).1
  unfolding entry_at view conversation
  entry_at-data key now m =
      ap (λ (c : State × Data V). c.1) (conversation-touched now (lookup key m))

  entry_at-state :
      (key : StorageKey) (now : ℕ) (m : Entries V) → (entry_at key now m).state ≡ (view m key).0
  unfolding entry_at view conversation
  entry_at-state key now m =
      ap (λ (c : State × Data V). c.0) (conversation-touched now (lookup key m))

  -- Writing an entry with new data.
  pub view-write :
      (key : StorageKey) (now : ℕ) (m : Entries V) (c : Data V)
      → view (insert key (record (entry_at key now m) { data_map = c }) m)
        ≡ assign key ((view m key).0, c) (view m)
  view-write key now m c =
      view-insert key _ m ∙ ap (λ t. assign key (t, c) (view m)) (entry_at-state key now m)

  pub view-set_state :
      (key : StorageKey) (s : State) (now : ℕ) (m : Entries V)
      → view (set_state key s now m) ≡ assign key (s, (view m key).1) (view m)
  unfolding set_state entry_at view conversation touched
  view-set_state key s now m =
      view-insert key _ m
      ∙ ap (λ (c : State × Data V). assign key (s, c.1) (view m))
          (conversation-touched now (lookup key m))

  pub view-clear :
      (key : StorageKey) (m : Entries V) → view (clear key m) ≡ assign key (no_state, []) (view m)
  unfolding clear
  view-clear key m = view-erase key m

  pub assign_self :
      (key : StorageKey) (c : State × Data V) (m : Conversations V) → assign key c m key ≡ c
  unfolding assign
  assign_self key c m = rw ((key_beq_iff key key).1 refl) refl
