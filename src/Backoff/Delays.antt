-- ===== src/Backoff/Delays.antt =====
-- The delays that a backoff gives in turn.
use golagram.Base.{
  ℕ, zero, suc, ◌≡◌, ◌≤◌, ◌<◌, ◌*◌, ◌%◌, ◌^◌, min, max, sym, ap, ◌∙◌, refl, if◌then◌else◌, ltb,
  arith,
}
use mathlib.Core.Path.{ap₂}
use golagram.Backoff.{
  Backoff, int_less, int_min, used_min, used_max, new_backoff, next_delay, reset,
}

-- The n-th of the next delays, from 0.
unfoldable pub delay_after : ℕ → Backoff → ℕ
delay_after zero b = (next_delay b).0
delay_after (suc n) b = delay_after n (next_delay b).1

-- A delay doubled n times.
unfoldable pub doubled : ℕ → ℕ → ℕ
doubled zero d = d
doubled (suc n) d = doubled n (d * 2)

int_min-small : (a b : ℕ) → a < 2 ^ 63 → b < 2 ^ 63 → int_min a b ≡ min a b
unfolding int_min int_less
int_min-small a b ha hb = ground arith

double-min : (d m : ℕ) → min (min d m * 2) m ≡ min (d * 2) m
double-min d m = omega arith

doubled-min : (n d m : ℕ) → min (doubled n (min d m)) m ≡ min (doubled n d) m
unfolding doubled
doubled-min zero d m = omega arith
doubled-min (suc n) d m =
    sym (doubled-min n (min d m * 2) m)
    ∙ (ap (λ x. min (doubled n x) m) (double-min d m) ∙ doubled-min n (d * 2) m)

record IsSmall (b : Backoff) : Type 0 where
  max_small : b.max_delay < 2 ^ 62
  current_le : b.current ≤ b.max_delay

next_current :
    (b : Backoff) → IsSmall b → (next_delay b).1.current ≡ min (b.current * 2) b.max_delay
unfolding next_delay
next_current b h =
    let small = h.max_small in
    let le = h.current_le in
    let whole : b.current * 2 % 2 ^ 64 ≡ b.current * 2 = omega arith in
    rw whole (int_min-small (b.current * 2) b.max_delay (omega arith) (omega arith))

delay_after-doubled :
    (n : ℕ) (b : Backoff) → IsSmall b → delay_after n b ≡ min (doubled n b.current) b.max_delay
unfolding delay_after
delay_after-doubled zero b h = let le = h.current_le in unfold doubled next_delay in omega arith
delay_after-doubled (suc n) b h =
    let now = next_current b h in
    let small = h.max_small in
    let next_small : IsSmall (next_delay b).1 =
      unfold next_delay in record { max_small = small; current_le = omega arith } in
    delay_after-doubled n (next_delay b).1 next_small
    ∙ (unfold next_delay doubled in
        ap (λ x. min (doubled n x) b.max_delay) now ∙ doubled-min n (b.current * 2) b.max_delay)

-- After a number of Next calls.
unfoldable pub after_nexts : ℕ → Backoff → Backoff
after_nexts zero b = b
after_nexts (suc m) b = after_nexts m (next_delay b).1

-- The minimum and the maximum that a new backoff uses.
abbrev pub lowest : ℕ → ℕ
lowest lo = if ltb 0 lo then lo else 1000000000

new_backoff-lowest :
    (lo hi : ℕ)
    → lo < 2 ^ 62
    → hi < 2 ^ 62
    → ((new_backoff lo hi).current ≡ lowest lo)
      × ((new_backoff lo hi).max_delay ≡ max (lowest lo) hi)
unfolding new_backoff used_min used_max int_less
new_backoff-lowest lo hi a b = (ground arith, ground arith)

after_nexts-kept :
    (m : ℕ) (b : Backoff)
    → ((after_nexts m b).min_delay ≡ b.min_delay) × ((after_nexts m b).max_delay ≡ b.max_delay)
unfolding after_nexts next_delay
after_nexts-kept zero b = (refl, refl)
after_nexts-kept (suc m) b = after_nexts-kept m (next_delay b).1

reset-after_nexts : (m : ℕ) (b : Backoff) → reset (after_nexts m b) ≡ reset b
unfolding reset
reset-after_nexts m b =
    let (lo, hi) = after_nexts-kept m b in
    ap₂ (λ x y. record { min_delay = x; max_delay = y; current = x }) lo hi

reset-new_backoff : (lo hi : ℕ) → reset (new_backoff lo hi) ≡ new_backoff lo hi
unfolding reset new_backoff
reset-new_backoff lo hi = refl

-- For a minimum and a maximum from 0 to below 2^62 nanoseconds: the n-th delay of a new backoff is the
-- minimum, a second where none is given, doubled n times, and at most the larger of the minimum and
-- the maximum; and after any number of calls of Next, Reset starts the same delays again.
pub delay_after-new_backoff :
    (lo hi n m : ℕ)
    → lo < 2 ^ 62
    → hi < 2 ^ 62
    → (delay_after n (new_backoff lo hi) ≡ min (doubled n (lowest lo)) (max (lowest lo) hi))
      × (delay_after n (reset (after_nexts m (new_backoff lo hi)))
          ≡ delay_after n (new_backoff lo hi))
delay_after-new_backoff lo hi n m a b =
    let (cur, top) = new_backoff-lowest lo hi a b in
    let below : (new_backoff lo hi).max_delay < 2 ^ 62 = rw top (ground arith) in
    let small : IsSmall (new_backoff lo hi) = record {
      max_small = below;
      current_le = omega arith;
    } in
    (
      delay_after-doubled n (new_backoff lo hi) small ∙ ap₂ (λ x y. min (doubled n x) y) cur top,
      ap (delay_after n) (reset-after_nexts m (new_backoff lo hi) ∙ reset-new_backoff lo hi),
    )
