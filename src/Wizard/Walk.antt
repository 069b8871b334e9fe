-- ===== src/Wizard/Walk.antt =====
-- A wizard that is entered and advanced walks through its steps and ends the conversation.
use golagram.Base.{
  ℕ, zero, suc, ◌≡◌, ◌∙◌, ◌≤◌, ◌<◌, refl, ap, List, [], ◌∷◌, true, false, Option, none, leb, length,
  get_or, arith,
}
use golagram.Fsm.{State, no_state}
use golagram.Router.{HandlerFunc}
use golagram.Wizard.{
  Conversation, Wizard, proceed, chain, run_hook, exit, enter_at, enter, next, back,
}

-- Enter, then Next of step 0, of step 1 and so on.
unfoldable pub walk : {S E : Type 0} → Conversation S E → Wizard S E → E → ℕ → S → Option E × S
walk c w no_steps zero s = enter c w no_steps s
walk c w no_steps (suc i) s = next c w i (walk c w no_steps i s).1

module _ {S E D : Type 0} (c : Conversation S E) (view : S → State × D) (no_data : D) where
  -- A storage on which no call fails, seen as the conversation's state and data.
  pub record IsStore : Type 0 where
    pub set_fine : (st : State) (s : S) → (c.put_state st s).0 ≡ none
    pub set_view : (st : State) (s : S) → view (c.put_state st s).1 ≡ (st, (view s).1)
    pub clear_fine : (s : S) → (c.wipe s).0 ≡ none
    pub clear_view : (s : S) → view (c.wipe s).1 ≡ (no_state, no_data)

  -- A hook that does not fail and leaves the conversation as it is.
  abbrev pub KeepsView : HandlerFunc S E → Type 0
  KeepsView hook = (s : S) → ((hook s).0 ≡ none) × (view (hook s).1 ≡ view s)

  -- The result is fine, and its conversation is the given one.
  abbrev pub EndsAt : State × D → Option E × S → Type 0
  EndsAt v r = (r.0 ≡ none) × (view r.1 ≡ v)

  module _ (w : Wizard S E) (no_steps : E) (store : IsStore)
      (enter_keeps : KeepsView (run_hook w.on_enter))
      (exit_keeps : KeepsView (run_hook w.on_exit)) where
    chain-EndsAt :
        (first rest : HandlerFunc S E) (v v' : State × D) (s : S)
        → EndsAt v (first s)
        → ((t : S) → view t ≡ v → EndsAt v' (rest t))
        → EndsAt v' (chain first rest s)
    unfolding chain proceed
    chain-EndsAt first rest v v' s h k = rw h.0 (k (first s).1 h.1)

    hook-EndsAt :
        (hook : HandlerFunc S E) (v : State × D)
        → KeepsView hook
        → (t : S) → view t ≡ v
        → EndsAt v (hook t)
    hook-EndsAt hook v keeps t e = ((keeps t).0, (keeps t).1 ∙ e)

    exit-EndsAt : (s : S) → EndsAt (no_state, no_data) (exit c w s)
    unfolding exit
    exit-EndsAt s =
        chain-EndsAt c.wipe (run_hook w.on_exit) (no_state, no_data) (no_state, no_data) s
          (store.clear_fine s, store.clear_view s)
          (hook-EndsAt (run_hook w.on_exit) (no_state, no_data) exit_keeps)

    set-EndsAt : (st : State) (d : D) (s : S) → (view s).1 ≡ d → EndsAt (st, d) (c.put_state st s)
    set-EndsAt st d s e = (store.set_fine st s, store.set_view st s ∙ ap (λ x. (st, x)) e)

    enter-EndsAt :
        (s : S) (states : List State)
        → 1 ≤ length states
        → EndsAt (get_or states 0 no_state, no_data) (enter_at c w no_steps states s)
    unfolding enter_at
    enter-EndsAt s [] h = absurd (omega arith)
    enter-EndsAt s (first ∷ others) h =
        chain-EndsAt c.wipe (chain (c.put_state first) (run_hook w.on_enter)) (no_state, no_data)
          (first, no_data) s (store.clear_fine s, store.clear_view s)
          (λ t e.
            chain-EndsAt (c.put_state first) (run_hook w.on_enter) (first, no_data) (first, no_data)
              t (set-EndsAt first no_data t (ap (λ (x : State × D). x.1) e))
              (hook-EndsAt (run_hook w.on_enter) (first, no_data) enter_keeps))

    walk-state :
        (i : ℕ) (s : S)
        → i < length w.states
        → EndsAt (get_or w.states i no_state, no_data) (walk c w no_steps i s)
    unfolding walk enter next
    walk-state zero s h = enter-EndsAt s w.states (omega arith)
    walk-state (suc i) s h =
        let (fine, at) = walk-state i s (omega arith) in
        let more : leb (length w.states) (suc i) ≡ false = ground arith in
        rw more (set-EndsAt _ no_data (walk c w no_steps i s).1 (ap (λ (x : State × D). x.1) at))

    -- On a storage on which no call fails, for a wizard with steps whose enter and exit hooks do not
    -- fail and leave the conversation alone: after Enter and i calls of Next, each by the current
    -- step, the conversation is in the state of step i with no data, for every step i, and one more
    -- Next of the last step clears it.
    pub walk-EndsAt :
        (s : S) (last : ℕ)
        → length w.states ≡ suc last
        → ((i : ℕ)
            → i ≤ last
            → EndsAt (get_or w.states i no_state, no_data) (walk c w no_steps i s))
          × EndsAt (no_state, no_data) (walk c w no_steps (suc last) s)
    unfolding walk next
    walk-EndsAt s last h = (
      λ i q. walk-state i s (omega arith),
      (let over : leb (length w.states) (suc last) ≡ true = ground arith in
          rw over (exit-EndsAt (walk c w no_steps last s).1)),
    )

  module _ (w : Wizard S E) (store : IsStore) where
    -- On a storage on which no call fails: Next of a step that is not the last, and Back of the step
    -- it leads to, put the conversation in the state of the first of the two steps and keep its
    -- data; and Back of the first step changes nothing.
    back-EndsAt :
        (i : ℕ) (s : S)
        → suc i < length w.states
        → EndsAt (get_or w.states i no_state, (view s).1) (back c w (suc i) (next c w i s).1)
          × (back c w zero s ≡ (none, s))
    unfolding back next
    back-EndsAt i s h =
        let more : leb (length w.states) (suc i) ≡ false = ground arith in
        let there = store.set_view (get_or w.states (suc i) no_state) s in
        (
          rw more (
            store.set_fine _ _,
            store.set_view _ _ ∙ ap (λ (x : State × D). (get_or w.states i no_state, x.1)) there,
          ),
          refl,
        )
