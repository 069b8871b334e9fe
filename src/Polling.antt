-- ===== src/Polling.antt =====
-- bot.go: the loop of Run that polls getUpdates and queues what it gets, and skipPendingUpdates. What
-- getUpdates answers is a parameter, as is the moment at which the context is canceled. Identifiers
-- of updates are natural numbers below 2^63 - 1, which int64 holds without wrapping.
pub mod Server
pub mod Queued
mod Tests
use golagram.Base.{
  ℕ, zero, suc, ◌+◌, ◌*◌, Bool, true, false, List, [], ◌∷◌, ◌++◌, Option, none, some, if◌then◌else◌,
}
use golagram.Backoff.{Backoff, new_backoff, next_delay, reset, second}

-- When ctx is done, as seen from a round of the loop.
pub data Moment : Type 0 where
  not_yet : Moment
  before_poll : Moment
  during_poll : Moment
  during_wait : Moment
  after_queued : ℕ → Moment

abbrev poll_backoff_min : ℕ
poll_backoff_min = second

abbrev poll_backoff_max : ℕ
poll_backoff_max = 30 * second

-- The loop's variables, the offsets that getUpdates was asked for, the waits after failures, and
-- what was sent to the channel.
pub record Loop {ℓ} (U : Type ℓ) : Type ℓ where
  pub offset : ℕ
  pub backoff : Backoff
  pub asked : List ℕ
  pub waits : List ℕ
  pub queue : List U
  pub stopped : Bool

-- How many updates of an answer are queued before ctx is done.
abbrev pub room : Moment → Option ℕ
room (after_queued n) = some n
room _ = none

abbrev pub ends_wait : Moment → Bool
ends_wait during_wait = true
ends_wait _ = false

module _ {ℓ} {U : Type ℓ} where
  unfoldable pub started : ℕ → Loop U
  unfolding new_backoff
  started offset = record {
    offset = offset;
    backoff = new_backoff poll_backoff_min poll_backoff_max;
    asked = [];
    waits = [];
    queue = [];
    stopped = false;
  }

  -- A failure of getUpdates.
  unfoldable pub after_failure : Moment → Loop U → Loop U
  unfolding next_delay
  after_failure during_poll l = record l { stopped = true }
  after_failure moment l =
      let next = next_delay l.backoff in
      record l { backoff = next.1; waits = l.waits ++ next.0 ∷ []; stopped = ends_wait moment }

  module _ (update_id : U → ℕ) where
    -- `for _, update := range updates`
    unfoldable pub enqueue : List U → Option ℕ → Loop U → Loop U
    enqueue [] limit l = l
    enqueue (u ∷ us) (some zero) l = record l { stopped = true }
    enqueue (u ∷ us) (some (suc n)) l =
        enqueue us (some n) (record l { queue = l.queue ++ u ∷ []; offset = update_id u + 1 })
    enqueue (u ∷ us) none l =
        enqueue us none (record l { queue = l.queue ++ u ∷ []; offset = update_id u + 1 })

    -- The rest of the round, behind the first select.
    unfoldable pub handle_answer : Option (List U) → Moment → Loop U → Loop U
    unfolding after_failure enqueue reset
    handle_answer none moment l = after_failure moment l
    handle_answer (some us) moment l =
        enqueue us (room moment) (record l { backoff = reset l.backoff })

    unfoldable pub skip_to : List U → ℕ
    skip_to [] = 0
    skip_to (u ∷ []) = update_id u + 1
    skip_to (u ∷ v ∷ us) = skip_to (v ∷ us)

    -- The answer of getUpdates in round t to an offset; none is an error.
    module _ (get_updates : ℕ → ℕ → Option (List U)) where
      unfoldable pub poll_round : ℕ → Moment → Loop U → Loop U
      unfolding handle_answer
      poll_round t before_poll l = record l { stopped = true }
      poll_round t moment l =
          handle_answer (get_updates t l.offset) moment
            (record l { asked = l.asked ++ l.offset ∷ [] })

      -- The loop from round t, for as many rounds as there are moments.
      unfoldable pub poll_loop : ℕ → List Moment → Loop U → Loop U
      unfolding poll_round
      poll_loop t [] l = l
      poll_loop t (m ∷ ms) l =
          let rest = poll_loop (suc t) ms (poll_round t m l) in if l.stopped then l else rest

      -- skipPendingUpdates, of the answer to the offset -1; none is its error.
      unfoldable pub skip_pending_updates : Option (List U) → Option ℕ
      unfolding skip_to
      skip_pending_updates none = none
      skip_pending_updates (some us) = some (skip_to us)

      -- Run behind its startup hooks, with the drop of pending updates or without it.
      unfoldable pub run : Bool → Option (List U) → List Moment → Option (Loop U)
      unfolding poll_loop skip_pending_updates started
      run true last ms = elim (skip_pending_updates last) [
        | none ↦ none
        | some offset ↦ some (poll_loop 0 ms (started offset))
      ]
      run false last ms = some (poll_loop 0 ms (started 0))
