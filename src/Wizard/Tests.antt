-- ===== src/Wizard/Tests.antt =====
-- The walk of a wizard of two steps over MemoryStorage, which fills the wizard's storage.
use golagram.Base.{ℕ, ◌≡◌, ◌∙◌, ◌≤◌, refl, ap, [], ◌∷◌, none, codes, get_or}
use golagram.Fsm.{State, no_state, StorageKey, state_of_group}
use golagram.Fsm.Memory.{Data, Entries, set_state, clear}
use golagram.Fsm.Views.{view, view-set_state, view-clear, assign_self}
use golagram.Wizard.{Conversation, Wizard, add_step, run_hook}
use golagram.Wizard.Walk.{IsStore, KeepsView, EndsAt, walk, walk-EndsAt}

-- An FSMContext over MemoryStorage; its calls do not fail. The error type is ℕ.
abbrev memory_conversation : StorageKey → ℕ → Conversation (Entries ℕ) ℕ
memory_conversation key now = record {
  put_state = λ st m. (none, set_state key st now m);
  wipe = λ m. (none, clear key m);
}

abbrev view_at : StorageKey → Entries ℕ → State × Data ℕ
view_at key m = view m key

memory_conversation-IsStore :
    (key : StorageKey) (now : ℕ) → IsStore (memory_conversation key now) (view_at key) []
memory_conversation-IsStore key now = record {
  set_fine = λ st m. refl;
  set_view = λ st m.
      ap (λ v. v key) (view-set_state key st now m) ∙ assign_self key (st, (view m key).1) (view m);
  clear_fine = λ m. refl;
  clear_view = λ m. ap (λ v. v key) (view-clear key m) ∙ assign_self key (no_state, []) (view m);
}

abbrev user_key : StorageKey
user_key = record { chat_id = 5; user_id = 7; thread_id = 0 }

abbrev empty_wizard : Wizard (Entries ℕ) ℕ
empty_wizard = record {
  group = codes "reg";
  states = [];
  on_enter = none;
  on_exit = none;
  on_cancel = none;
}

abbrev register_wizard : Wizard (Entries ℕ) ℕ
register_wizard = record empty_wizard { states = codes "reg:name" ∷ codes "reg:age" ∷ [] }

steps_sample :
    (add_step
      (λ i. codes "step")
      (codes "age")
      (add_step (λ i. codes "step") (codes "name") empty_wizard).1).1
    ≡ register_wizard
unfolding add_step state_of_group
steps_sample = refl

no_hook-KeepsView : KeepsView (memory_conversation user_key 1) (view_at user_key) [] (run_hook none)
unfolding run_hook
no_hook-KeepsView m = (refl, refl)

walk-EndsAt_example :
    ((i : ℕ)
      → i ≤ 1
      → EndsAt
          (memory_conversation user_key 1)
          (view_at user_key)
          []
          (get_or register_wizard.states i no_state, [])
          (walk (memory_conversation user_key 1) register_wizard 9 i []))
    × EndsAt
        (memory_conversation user_key 1)
        (view_at user_key)
        []
        (no_state, [])
        (walk (memory_conversation user_key 1) register_wizard 9 2 [])
walk-EndsAt_example =
    walk-EndsAt (memory_conversation user_key 1) (view_at user_key) [] register_wizard 9
      (memory_conversation-IsStore user_key 1) no_hook-KeepsView no_hook-KeepsView [] 1 refl
