-- ===== src/Backoff.antt =====
-- backoff.go: delays that double up to a maximum. A time.Duration is an int64, here the natural
-- number of its 64 bits in two's complement.
pub mod Delays
mod Tests
use golagram.Base.{ℕ, ◌+◌, ◌*◌, ◌%◌, ◌^◌, Bool, List, [], ◌∷◌, if◌then◌else◌, ltb}

-- a < b of int64: the patterns compare after the sign bit is flipped.
unfoldable pub int_less : ℕ → ℕ → Bool
int_less a b = ltb ((a + 2 ^ 63) % 2 ^ 64) ((b + 2 ^ 63) % 2 ^ 64)

-- min(a, b) of int64
unfoldable pub int_min : ℕ → ℕ → ℕ
unfolding int_less
int_min a b = if int_less b a then b else a

pub record Backoff : Type 0 where
  pub min_delay : ℕ
  pub max_delay : ℕ
  pub current : ℕ

abbrev pub second : ℕ
second = 1000000000

-- The minimum that is used: a second where none above zero is given.
unfoldable pub used_min : ℕ → ℕ
used_min lo = if int_less 0 lo then lo else second

unfoldable pub used_max : ℕ → ℕ → ℕ
used_max lo hi = if int_less hi lo then lo else hi

unfoldable pub new_backoff : ℕ → ℕ → Backoff
new_backoff lo hi = record {
  min_delay = used_min lo;
  max_delay = used_max (used_min lo) hi;
  current = used_min lo;
}

unfoldable pub next_delay : Backoff → ℕ × Backoff
next_delay b = (b.current, record b { current = int_min (b.current * 2 % 2 ^ 64) b.max_delay })

unfoldable pub reset : Backoff → Backoff
reset b = record b { current = b.min_delay }
