-- ===== src/Fsm.antt =====
-- fsm.go: states, state groups, and the keys that conversations are stored under.
pub mod Memory
pub mod Keys
pub mod Views
pub mod Refine
pub mod Expiry
mod Tests
use golagram.Base.{
  ℕ, ◌≡◌, ◌↔◌, List, [], ◌∷◌, ◌++◌, Bool, true, ◌&&◌, ◌==◌, ==_iff, Option, some, none, codes,
  arith, refl,
}
use golagram.Base.Assoc.{Eq}
use golagram.Strings.{has_prefix}

-- State and StateGroup are strings.
abbrev pub State : Type 0
State = List ℕ

abbrev pub no_state : State
no_state = []

unfoldable pub state_of_group : List ℕ → List ℕ → State
state_of_group group name = group ++ b':' ∷ name

unfoldable pub group_contains : List ℕ → State → Bool
group_contains group state = has_prefix state (group ++ b':' ∷ [])

-- An int64 stands as its bit pattern, of which the code uses only equality and 0.
pub record StorageKey : Type 0 where
  pub chat_id : ℕ
  pub user_id : ℕ
  pub thread_id : ℕ

pub data KeyStrategy : Type 0 where
  chat_user : KeyStrategy
  chat : KeyStrategy
  global_user : KeyStrategy
  user_in_topic : KeyStrategy

unfoldable pub apply : KeyStrategy → ℕ → ℕ → ℕ → StorageKey
apply KeyStrategy.chat_user chat_id user_id thread_id = record {
  chat_id = chat_id;
  user_id = user_id;
  thread_id = 0;
}
apply KeyStrategy.chat chat_id user_id thread_id = record {
  chat_id = chat_id;
  user_id = 0;
  thread_id = 0;
}
apply KeyStrategy.global_user chat_id user_id thread_id = record {
  chat_id = 0;
  user_id = user_id;
  thread_id = 0;
}
apply KeyStrategy.user_in_topic chat_id user_id thread_id = record {
  chat_id = chat_id;
  user_id = user_id;
  thread_id = thread_id;
}

abbrev pub key_beq : StorageKey → StorageKey → Bool
key_beq a b = a.chat_id == b.chat_id && a.user_id == b.user_id && a.thread_id == b.thread_id

pub key_beq_iff : (a b : StorageKey) → (key_beq a b ≡ true) ↔ (a ≡ b)
key_beq_iff a b = ground arith

instance abbrev pub storage_key : Eq StorageKey
storage_key = record { beq = key_beq; beq_iff = key_beq_iff }
