-- ===== src/Health/Tests.antt =====
-- Three updates: one that a handler takes, one of an unknown kind, one whose handler panics.
use golagram.Base.{
  ℕ, ◌≡◌, refl, true, List, [], ◌∷◌, Option, none, some, codes, ◌==◌, if◌then◌else◌,
}
use golagram.Health.{Attempt, returned, panicked, new_health_monitor, dispatch_ctx}
use golagram.Health.Counts.{Balanced, dispatch_all, dispatch_all-Balanced}

-- The state is the number of updates that the router still takes; an error is its text.
abbrev countdown : ℕ → Attempt ℕ (List ℕ)
countdown n = if n == 3 then returned true none 2 else panicked (codes "boom") n

abbrev no_reply : List ℕ → Option (ℕ → Option (List ℕ) × ℕ)
no_reply e = none

abbrev three_updates : List (ℕ × List ℕ)
three_updates = (10, codes "message") ∷ (11, []) ∷ (12, codes "message") ∷ []

two_errors :
    ((dispatch_all (λ e. e) no_reply none (some countdown) three_updates (new_health_monitor 9) 3).0
    ).errors_count
    ≡ 2
unfolding dispatch_all new_health_monitor dispatch_ctx
two_errors = refl

dispatch_all-Balanced_example :
    Balanced
      (dispatch_all
        (λ e. e)
        no_reply
        none
        (some countdown)
        three_updates
        (new_health_monitor 9)
        3).0
dispatch_all-Balanced_example =
    dispatch_all-Balanced (λ e. e) no_reply none (some countdown) three_updates 9 3
