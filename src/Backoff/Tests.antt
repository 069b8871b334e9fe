-- ===== src/Backoff/Tests.antt =====
-- Runs of a backoff, and its theorem at concrete delays.
use golagram.Base.{◌≡◌, ◌^◌, min, max, refl, arith}
use golagram.Backoff.{new_backoff, next_delay, reset}
use golagram.Backoff.Delays.{delay_after, doubled, after_nexts, lowest, delay_after-new_backoff}

third_delay : delay_after 2 (new_backoff 3 10) ≡ 10
unfolding delay_after new_backoff next_delay golagram.Backoff.int_min golagram.Backoff.used_max
    golagram.Backoff.used_min
third_delay = refl

-- Beyond 2^62 nanoseconds the doubling wraps to a negative duration, which the cap lets through.
wrapped_delay : delay_after 1 (new_backoff (2 ^ 62) (2 ^ 62)) ≡ 2 ^ 63
unfolding delay_after new_backoff next_delay golagram.Backoff.int_min golagram.Backoff.used_max
    golagram.Backoff.used_min
wrapped_delay = refl

delay_after-new_backoff_example :
    (delay_after 2 (new_backoff 3 10) ≡ min (doubled 2 (lowest 3)) (max (lowest 3) 10))
    × (delay_after 2 (reset (after_nexts 5 (new_backoff 3 10))) ≡ delay_after 2 (new_backoff 3 10))
delay_after-new_backoff_example = delay_after-new_backoff 3 10 2 5 (omega arith) (omega arith)
