-- ===== src/Health.antt =====
-- health.go and the dispatch of one update in bot.go: the counters, which are int64 and wrap. A time
-- is a number; each method holds the monitor's lock from its first line to its last.
pub mod Counts
pub mod Dispatched
mod Tests
use golagram.Base.{
  ℕ, ◌+◌, ◌%◌, ◌^◌, Bool, true, false, List, [], ◌∷◌, Option, none, some, if◌then◌else◌, codes,
}
use golagram.Base.Assoc.{lookup, insert, text_key}
use golagram.Router.{ErrorHandlerFunc}

abbrev pub KindCounts : Type 0
KindCounts = List (List ℕ × ℕ)

pub record HealthMonitor : Type 0 where
  pub status : List ℕ
  pub start_time : ℕ
  pub updates_dispatched : ℕ
  pub handlers_matched : ℕ
  pub updates_unmatched : ℕ
  pub errors_count : ℕ
  pub last_error : List ℕ
  pub last_error_time : Option ℕ
  pub dispatched_by_kind : KindCounts
  pub matched_by_kind : KindCounts
  pub unmatched_by_kind : KindCounts

unfoldable pub new_health_monitor : ℕ → HealthMonitor
new_health_monitor now = record {
  status = codes "starting";
  start_time = now;
  updates_dispatched = 0;
  handlers_matched = 0;
  updates_unmatched = 0;
  errors_count = 0;
  last_error = [];
  last_error_time = none;
  dispatched_by_kind = [];
  matched_by_kind = [];
  unmatched_by_kind = [];
}

unfoldable pub set_status : List ℕ → HealthMonitor → HealthMonitor
set_status status hm = record hm { status = status }

-- n++ of an int64
abbrev pub next_count : ℕ → ℕ
next_count n = (n + 1) % 2 ^ 64

abbrev pub or_zero : Option ℕ → ℕ
or_zero none = 0
or_zero (some n) = n

-- m[kind], and m[kind]++
unfoldable pub count_of : List ℕ → KindCounts → ℕ
unfolding lookup
count_of kind m = or_zero (lookup kind m)

unfoldable pub count_kind : List ℕ → KindCounts → KindCounts
unfolding insert count_of
count_kind kind m = insert kind (next_count (count_of kind m)) m

unfoldable pub increment_dispatched : List ℕ → HealthMonitor → HealthMonitor
unfolding count_kind
increment_dispatched kind hm = record hm {
  updates_dispatched = next_count hm.updates_dispatched;
  dispatched_by_kind = count_kind kind hm.dispatched_by_kind;
}

unfoldable pub increment_matched : List ℕ → HealthMonitor → HealthMonitor
unfolding count_kind
increment_matched kind hm = record hm {
  handlers_matched = next_count hm.handlers_matched;
  matched_by_kind = count_kind kind hm.matched_by_kind;
}

unfoldable pub increment_unmatched : List ℕ → HealthMonitor → HealthMonitor
unfolding count_kind
increment_unmatched kind hm = record hm {
  updates_unmatched = next_count hm.updates_unmatched;
  unmatched_by_kind = count_kind kind hm.unmatched_by_kind;
}

-- A recorded error is its text.
unfoldable pub record_error : Option (List ℕ) → ℕ → HealthMonitor → HealthMonitor
record_error none now hm = hm
record_error (some text) now hm = record hm {
  errors_count = next_count hm.errors_count;
  last_error = text;
  last_error_time = some now;
}

-- What a run of the router comes to: it returns, or a handler panics with a state behind it.
pub data Attempt (S E : Type 0) : Type 0 where
  returned : Bool → Option E → S → Attempt S E
  panicked : E → S → Attempt S E

abbrev pub or_unknown : List ℕ → List ℕ
or_unknown [] = codes "unknown"
or_unknown (c ∷ kind) = c ∷ kind

-- `embed` is resolveWebhookReply where AsWebhookReply finds a reply in the error: the error of its API
-- call, if it makes one that fails, and the state behind it. `error_text` is the error's Error().
module _ {S E : Type 0} (error_text : E → List ℕ) (embed : E → Option (S → Option E × S)) where
  unfoldable pub safe_dispatch : Attempt S E → Bool × Option E × S
  safe_dispatch (returned matched err s) = (matched, err, s)
  safe_dispatch (panicked e s) = (true, some e, s)

  -- An error handler of the bot, or the log, which leaves the state alone.
  abbrev pub call_handler : Option (ErrorHandlerFunc S E) → E → S → S
  call_handler none e s = s
  call_handler (some h) e s = h e s

  unfoldable pub handle_error :
      Option (ErrorHandlerFunc S E) → ℕ → Option E → HealthMonitor → S → HealthMonitor × S
  unfolding record_error
  handle_error eh now none hm s = (hm, s)
  handle_error eh now (some e) hm s =
      (record_error (some (error_text e)) now hm, call_handler eh e s)

  abbrev pub resolve :
      Option (ErrorHandlerFunc S E)
      → ℕ
      → Option (S → Option E × S)
      → E
      → HealthMonitor
      → S
      → HealthMonitor × S
  unfolding handle_error
  resolve eh now none e hm s = handle_error eh now (some e) hm s
  resolve eh now (some reply) e hm s = let (err, s') = reply s in handle_error eh now err hm s'

  abbrev pub settle :
      Option (ErrorHandlerFunc S E) → ℕ → Option E → HealthMonitor → S → HealthMonitor × S
  unfolding resolve
  settle eh now none hm s = (hm, s)
  settle eh now (some e) hm s = resolve eh now (embed e) e hm s

  abbrev pub settle_matched :
      Option (ErrorHandlerFunc S E)
      → ℕ
      → List ℕ
      → Bool × Option E × S
      → HealthMonitor
      → HealthMonitor × S
  unfolding settle increment_matched increment_unmatched
  settle_matched eh now kind (matched, err, s) hm =
      let counted = settle eh now err (increment_matched kind hm) s in
      if matched then counted else (increment_unmatched kind hm, s)

  -- dispatchCtx behind its lock, `router` being the run of the bot's router, if it has one.
  unfoldable pub dispatch_ctx :
      Option (ErrorHandlerFunc S E)
      → Option (S → Attempt S E)
      → ℕ
      → List ℕ
      → HealthMonitor
      → S
      → HealthMonitor × S
  unfolding settle_matched safe_dispatch increment_dispatched increment_unmatched
  dispatch_ctx eh none now kind hm s =
      (increment_unmatched (or_unknown kind) (increment_dispatched (or_unknown kind) hm), s)
  dispatch_ctx eh (some router) now kind hm s =
      settle_matched eh now (or_unknown kind) (safe_dispatch (router s))
        (increment_dispatched (or_unknown kind) hm)
