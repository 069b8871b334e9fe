-- ===== src/Wizard.antt =====
-- wizard.go: a wizard's states and its moves between them. The FSMContext of a handler is a record
-- of the two operations that a wizard calls, each of which can fail.
pub mod Walk
mod Tests
use golagram.Base.{
  ℕ, zero, suc, List, [], ◌∷◌, ◌++◌, Option, some, none, if◌then◌else◌, leb, length, get_or,
  get_elem?,
}
use golagram.Fsm.{State, no_state, state_of_group}
use golagram.Router.{HandlerFunc}

pub record Conversation (S E : Type 0) : Type 0 where
  pub put_state : State → HandlerFunc S E
  pub wipe : HandlerFunc S E

pub record Wizard (S E : Type 0) : Type 0 where
  pub group : List ℕ
  pub states : List State
  pub on_enter : Option (HandlerFunc S E)
  pub on_exit : Option (HandlerFunc S E)
  pub on_cancel : Option (HandlerFunc S E)

abbrev pub step_name : List ℕ → List ℕ → List ℕ
step_name [] default_name = default_name
step_name (c ∷ name) default_name = c ∷ name

module _ {S E : Type 0} where
  -- if err := first(); err != nil { return err }, and then the rest
  unfoldable pub proceed : Option E → S → HandlerFunc S E → Option E × S
  proceed none s rest = rest s
  proceed (some e) s rest = (some e, s)

  unfoldable pub chain : HandlerFunc S E → HandlerFunc S E → HandlerFunc S E
  unfolding proceed
  chain first rest s = let (err, s') = first s in proceed err s' rest

  unfoldable pub run_hook : Option (HandlerFunc S E) → HandlerFunc S E
  run_hook none s = (none, s)
  run_hook (some hook) s = hook s

  -- The index and the state of a new step; the name behind "step" is formatted by a parameter.
  unfoldable pub add_step : (ℕ → List ℕ) → List ℕ → Wizard S E → ℕ × Wizard S E
  add_step default_name name w = (
    length w.states,
    record w {
      states =
          w.states ++ state_of_group w.group (step_name name (default_name (length w.states))) ∷ [];
    },
  )

module _ {S E : Type 0} (c : Conversation S E) (w : Wizard S E) where
  unfoldable pub exit : HandlerFunc S E
  unfolding chain run_hook
  exit = chain c.wipe (run_hook w.on_exit)

  unfoldable pub cancel_hook : Option (HandlerFunc S E) → Option (HandlerFunc S E)
  cancel_hook none = w.on_exit
  cancel_hook (some hook) = some hook

  unfoldable pub cancel : HandlerFunc S E
  unfolding chain run_hook cancel_hook
  cancel = chain c.wipe (run_hook (cancel_hook w.on_cancel))

  -- The error of a wizard without steps is a parameter.
  unfoldable pub enter_at : E → List State → HandlerFunc S E
  unfolding chain run_hook
  enter_at no_steps [] s = (some no_steps, s)
  enter_at no_steps (first ∷ others) s =
      chain c.wipe (chain (c.put_state first) (run_hook w.on_enter)) s

  unfoldable pub enter : E → HandlerFunc S E
  unfolding enter_at
  enter no_steps = enter_at no_steps w.states

  -- Next of the step at an index; the index behind it is in range when it is used.
  unfoldable pub next : ℕ → HandlerFunc S E
  next i =
      if leb (length w.states) (suc i) then exit else c.put_state (get_or w.states (suc i) no_state)

  unfoldable pub back : ℕ → HandlerFunc S E
  back zero s = (none, s)
  back (suc i) s = c.put_state (get_or w.states i no_state) s

  unfoldable pub go_to_state : Option State → Option (HandlerFunc S E)
  go_to_state none = none
  go_to_state (some state) = some (c.put_state state)

  -- GoTo; none where the source panics.
  unfoldable pub go_to : ℕ → Option (HandlerFunc S E)
  unfolding go_to_state
  go_to i = go_to_state (get_elem? w.states i)
