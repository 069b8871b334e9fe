-- ===== src/Health/Counts.antt =====
-- Every dispatched update is counted once as matched or unmatched.
use golagram.Base.{
  ℕ, ◌≡◌, ap, ◌+◌, ◌%◌, ◌^◌, refl, Bool, true, false, List, [], ◌∷◌, Option, none, some,
  if◌then◌else◌, text_eq, text_eq_iff, Bool-cases, inl, inr, arith,
}
use golagram.Base.Assoc.{lookup, text_key, lookup-insert}
use golagram.Router.{ErrorHandlerFunc}
use golagram.Health.{
  HealthMonitor, new_health_monitor, next_count, or_zero, count_of, count_kind, KindCounts,
  increment_dispatched, increment_matched, increment_unmatched, record_error, Attempt,
  safe_dispatch, handle_error, resolve, settle, settle_matched, or_unknown, dispatch_ctx,
}

-- Modulo the wrap of an int64, in all and for each kind.
pub record Balanced (hm : HealthMonitor) : Type 0 where
  pub in_all :
      (hm.handlers_matched + hm.updates_unmatched) % 2 ^ 64 ≡ hm.updates_dispatched % 2 ^ 64
  pub by_kind :
      (kind : List ℕ)
      → (count_of kind hm.matched_by_kind + count_of kind hm.unmatched_by_kind) % 2 ^ 64
        ≡ count_of kind hm.dispatched_by_kind % 2 ^ 64

count_of-count_kind :
    (k kind : List ℕ) (m : KindCounts)
    → count_of k (count_kind kind m)
      ≡ (if text_eq kind k then next_count (count_of k m) else count_of k m)
unfolding count_of count_kind
count_of-count_kind k kind m =
    let inserted = lookup-insert kind k (next_count (count_of kind m)) m in
    elim (Bool-cases (text_eq kind k)) [
      | inl e ↦
          rw (inserted, e) (ap (λ q. next_count (or_zero (lookup q m))) ((text_eq_iff kind k).0 e))
      | inr e ↦ rw (inserted, e) refl
    ]

step_left :
    (a b c : ℕ)
    → (a + b) % 2 ^ 64 ≡ c % 2 ^ 64
    → (next_count a + b) % 2 ^ 64 ≡ next_count c % 2 ^ 64
step_left a b c h = ground arith

step_right :
    (a b c : ℕ)
    → (a + b) % 2 ^ 64 ≡ c % 2 ^ 64
    → (a + next_count b) % 2 ^ 64 ≡ next_count c % 2 ^ 64
step_right a b c h = ground arith

increment_matched-Balanced :
    (kind : List ℕ) (hm : HealthMonitor)
    → Balanced hm
    → Balanced (increment_matched kind (increment_dispatched kind hm))
unfolding increment_matched increment_dispatched
increment_matched-Balanced kind hm b = record {
  in_all = step_left hm.handlers_matched hm.updates_unmatched hm.updates_dispatched b.in_all;
  by_kind = λ k.
      rw
        (
          count_of-count_kind k kind hm.matched_by_kind,
          count_of-count_kind k kind hm.dispatched_by_kind,
        )
        (elim (Bool-cases (text_eq kind k)) [
          | inl e ↦ rw e (step_left _ _ _ (b.by_kind k))
          | inr e ↦ rw e (b.by_kind k)
        ]);
}

increment_unmatched-Balanced :
    (kind : List ℕ) (hm : HealthMonitor)
    → Balanced hm
    → Balanced (increment_unmatched kind (increment_dispatched kind hm))
unfolding increment_unmatched increment_dispatched
increment_unmatched-Balanced kind hm b = record {
  in_all = step_right hm.handlers_matched hm.updates_unmatched hm.updates_dispatched b.in_all;
  by_kind = λ k.
      rw
        (
          count_of-count_kind k kind hm.unmatched_by_kind,
          count_of-count_kind k kind hm.dispatched_by_kind,
        )
        (elim (Bool-cases (text_eq kind k)) [
          | inl e ↦ rw e (step_right _ _ _ (b.by_kind k))
          | inr e ↦ rw e (b.by_kind k)
        ]);
}

module _ {S E : Type 0} (error_text : E → List ℕ) (embed : E → Option (S → Option E × S)) where
  handle_error-Balanced :
      (eh : Option (ErrorHandlerFunc S E)) (now : ℕ) (err : Option E) (hm : HealthMonitor) (s : S)
      → Balanced hm
      → Balanced (handle_error error_text embed eh now err hm s).0
  unfolding handle_error record_error
  handle_error-Balanced eh now none hm s b = b
  handle_error-Balanced eh now (some e) hm s b = record { in_all = b.in_all; by_kind = b.by_kind }

  settle-Balanced :
      (eh : Option (ErrorHandlerFunc S E)) (now : ℕ) (err : Option E) (hm : HealthMonitor) (s : S)
      → Balanced hm
      → Balanced (settle error_text embed eh now err hm s).0
  unfolding settle resolve
  settle-Balanced eh now none hm s b = b
  settle-Balanced eh now (some e) hm s b = resolved (embed e)
    where
      resolved :
          (reply : Option (S → Option E × S))
          → Balanced (resolve error_text embed eh now reply e hm s).0
      resolved none = handle_error-Balanced eh now (some e) hm s b
      resolved (some reply) = handle_error-Balanced eh now (reply s).0 hm (reply s).1 b

  settle_matched-Balanced :
      (eh : Option (ErrorHandlerFunc S E)) (now : ℕ) (kind : List ℕ) (matched : Bool)
      (err : Option E) (s : S) (hm : HealthMonitor)
      → Balanced hm
      → Balanced
          (settle_matched error_text embed eh now kind
            (matched, err, s)
            (increment_dispatched kind hm)).0
  unfolding settle_matched
  settle_matched-Balanced eh now kind true err s hm b =
      settle-Balanced eh now err _ s (increment_matched-Balanced kind hm b)
  settle_matched-Balanced eh now kind false err s hm b = increment_unmatched-Balanced kind hm b

  dispatch_ctx-Balanced :
      (eh : Option (ErrorHandlerFunc S E)) (router : Option (S → Attempt S E)) (now : ℕ)
      (kind : List ℕ) (hm : HealthMonitor) (s : S)
      → Balanced hm
      → Balanced (dispatch_ctx error_text embed eh router now kind hm s).0
  unfolding dispatch_ctx
  dispatch_ctx-Balanced eh none now kind hm s b =
      increment_unmatched-Balanced (or_unknown kind) hm b
  dispatch_ctx-Balanced eh (some router) now kind hm s b =
      let run = safe_dispatch error_text embed (router s) in
      settle_matched-Balanced eh now (or_unknown kind) run.0 run.1 run.2 hm b

  -- The dispatch of updates one after the other, each with its kind, at its time.
  unfoldable pub dispatch_all :
      Option (ErrorHandlerFunc S E)
      → Option (S → Attempt S E)
      → List (ℕ × List ℕ)
      → HealthMonitor
      → S
      → HealthMonitor × S
  unfolding dispatch_ctx
  dispatch_all eh router [] hm s = (hm, s)
  dispatch_all eh router ((now, kind) ∷ updates) hm s =
      let (hm', s') = dispatch_ctx error_text embed eh router now kind hm s in
      dispatch_all eh router updates hm' s'

  dispatch_all_kept :
      (eh : Option (ErrorHandlerFunc S E)) (router : Option (S → Attempt S E))
      (updates : List (ℕ × List ℕ)) (hm : HealthMonitor) (s : S)
      → Balanced hm
      → Balanced (dispatch_all eh router updates hm s).0
  unfolding dispatch_all
  dispatch_all_kept eh router [] hm s b = b
  dispatch_all_kept eh router ((now, kind) ∷ updates) hm s b =
      dispatch_all_kept eh router updates _ _ (dispatch_ctx-Balanced eh router now kind hm s b)

  -- After any sequence of dispatched updates, from a new monitor, with handlers that match or not,
  -- fail, panic or reply: the updates counted as matched and as unmatched are those counted as
  -- dispatched, in all and for each kind, up to the wrap of an int64.
  pub dispatch_all-Balanced :
      (eh : Option (ErrorHandlerFunc S E)) (router : Option (S → Attempt S E))
      (updates : List (ℕ × List ℕ)) (start : ℕ) (s : S)
      → Balanced (dispatch_all eh router updates (new_health_monitor start) s).0
  unfolding new_health_monitor count_of
  dispatch_all-Balanced eh router updates start s =
      dispatch_all_kept eh router updates (new_health_monitor start) s
        (record { in_all = refl; by_kind = λ k. refl })
