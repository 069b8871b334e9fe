-- ===== src/Fsm/Tests.antt =====
-- Runs of the storage, and its theorems at concrete conversations. A value is a number and its
-- encoding the map itself; the map of one number 13 does not encode.
use golagram.Base.{
  Bool, false, ap, ◌∙◌, Bool-cases, ◌↔◌, true, inl, inr, sym, some_inj, ℕ, ◌≡◌, refl, List, [], ◌∷◌,
  Option, none, some, codes, arith, if◌then◌else◌, ◌==◌,
}
use golagram.Base.Assoc.{lookup}
use golagram.Fsm.{
  State, no_state, StorageKey, storage_key, state_of_group, group_contains, KeyStrategy, apply,
}
use golagram.Fsm.Memory.{
  Data, DataError, not_marshalable, Entries, FsmEntry, Command, write_state, read_state, write_data,
  read_data, patch_data, forget, Reply, done, state_reply, data_reply, error_reply, evict_expired,
  run,
}
use golagram.Fsm.Views.{no_conversations}
use golagram.Fsm.Refine.{Stable, run_all, spec_all, run_all-spec_all}
use golagram.Fsm.Expiry.{lookup-evict_expired, evict_expired-run, swept, key_of}
use golagram.Fsm.Keys.{SameConversation, apply-SameConversation}

abbrev encode_numbers : Data ℕ → Option (Data ℕ)
encode_numbers [] = some []
encode_numbers ((k, v) ∷ d) = if v == 13 then none else some ((k, v) ∷ d)

refused-same : (b : Bool) (d t : Data ℕ) → (if b then none else some d) ≡ some t → d ≡ t
refused-same true d t h = cc
refused-same false d t h = some_inj h

encode_numbers-same : (d t : Data ℕ) → encode_numbers d ≡ some t → d ≡ t
encode_numbers-same [] t h = some_inj h
encode_numbers-same ((k, v) ∷ d) t h = refused-same (v == 13) ((k, v) ∷ d) t h

encode_numbers-Stable : Stable encode_numbers some
encode_numbers-Stable d c t h e = (
  t,
  (
    ap encode_numbers (sym (some_inj e))
        ∙ (ap encode_numbers (sym (encode_numbers-same d t h)) ∙ h),
    e,
  ),
)

abbrev user_key : StorageKey
user_key = record { chat_id = 5; user_id = 7; thread_id = 0 }

abbrev conversation_commands : List (ℕ × Command ℕ)
conversation_commands =
    (1, write_state user_key (codes "reg:name"))
    ∷ (2, write_data user_key ((codes "a", 1) ∷ []))
    ∷ (3, patch_data user_key ((codes "b", 2) ∷ []))
    ∷ (4, write_data user_key ((codes "c", 13) ∷ []))
    ∷ (5, read_data user_key)
    ∷ (6, forget user_key)
    ∷ (7, read_state user_key)
    ∷ []

abbrev conversation_replies : List (Reply ℕ)
conversation_replies =
    done
    ∷ done
    ∷ data_reply ((codes "a", 1) ∷ (codes "b", 2) ∷ [])
    ∷ error_reply not_marshalable
    ∷ data_reply ((codes "a", 1) ∷ (codes "b", 2) ∷ [])
    ∷ done
    ∷ state_reply no_state
    ∷ []

conversation_run : run_all encode_numbers some conversation_commands [] ≡ conversation_replies
unfolding run_all run golagram.Fsm.Memory.set_data golagram.Fsm.Memory.update_data
    golagram.Fsm.Memory.get_data golagram.Fsm.Memory.get_state golagram.Fsm.Memory.copy_data
    golagram.Fsm.Memory.merged lookup golagram.Base.Assoc.merge golagram.Fsm.Memory.clear
    golagram.Base.Assoc.insert golagram.Base.Assoc.erase golagram.Fsm.Memory.entry_at
    golagram.Fsm.Memory.set_state golagram.Base.text_eq
conversation_run = refl

run_all-spec_all_example :
    run_all encode_numbers some conversation_commands []
    ≡ spec_all encode_numbers some conversation_commands no_conversations
run_all-spec_all_example =
    run_all-spec_all encode_numbers some encode_numbers-Stable conversation_commands

abbrev one_entry : Entries ℕ
one_entry = (user_key, record { state = codes "reg:name"; data_map = []; last_access = 10 }) ∷ []

lookup-evict_expired_example :
    lookup user_key (evict_expired 60 90 one_entry) ≡ swept 60 90 (lookup user_key one_entry)
unfolding lookup
lookup-evict_expired_example = lookup-evict_expired 60 90 user_key one_entry (refl, tt)

evict_expired-run_example :
    lookup user_key
      (evict_expired 60 90 (run encode_numbers some (read_state user_key) 40 one_entry).1)
    ≡ lookup user_key (run encode_numbers some (read_state user_key) 40 one_entry).1
unfolding key_of run lookup
evict_expired-run_example =
    evict_expired-run encode_numbers some (read_state user_key) 60 40 90 one_entry (refl, tt)
      (λ e q. cc) (omega arith)

apply-SameConversation_example :
    (apply KeyStrategy.chat 5 7 0 ≡ apply KeyStrategy.chat 5 8 1)
    ↔ SameConversation KeyStrategy.chat 5 7 0 5 8 1
apply-SameConversation_example = apply-SameConversation KeyStrategy.chat 5 7 0 5 8 1
