-- ===== src/Health/Dispatched.antt =====
-- dispatchCtx (bot.go): one update is counted as dispatched, and what the router, the resolution of
-- a reply and the error handler keep of the state, the dispatch keeps.
use golagram.Base.{
  ℕ, ◌≡◌, refl, Bool, true, false, List, Option, none, some, Option-cases, inl, inr,
}
use golagram.Router.{ErrorHandlerFunc}
use golagram.Health.{
  HealthMonitor, next_count, increment_dispatched, increment_matched, increment_unmatched,
  record_error, Attempt, safe_dispatch, call_handler, handle_error, resolve, settle, settle_matched,
  or_unknown, dispatch_ctx,
}

module _ {S E : Type 0} (error_text : E → List ℕ) (embed : E → Option (S → Option E × S)) where
  handle_error-counted :
      (eh : Option (ErrorHandlerFunc S E)) (now : ℕ) (err : Option E) (hm : HealthMonitor) (s : S)
      → (handle_error error_text embed eh now err hm s).0.updates_dispatched ≡ hm.updates_dispatched
  unfolding handle_error record_error
  handle_error-counted eh now none hm s = refl
  handle_error-counted eh now (some e) hm s = refl

  settle-counted :
      (eh : Option (ErrorHandlerFunc S E)) (now : ℕ) (err : Option E) (hm : HealthMonitor) (s : S)
      → (settle error_text embed eh now err hm s).0.updates_dispatched ≡ hm.updates_dispatched
  unfolding settle resolve
  settle-counted eh now none hm s = refl
  settle-counted eh now (some e) hm s = elim (Option-cases (embed e)) [
    | inl h ↦ rw h (handle_error-counted eh now (some e) hm s)
    | inr (reply, h) ↦ rw h (handle_error-counted eh now (reply s).0 hm (reply s).1)
  ]

  settle_matched-counted :
      (eh : Option (ErrorHandlerFunc S E)) (now : ℕ) (kind : List ℕ) (hm : HealthMonitor)
      (out : Bool × Option E × S)
      → (settle_matched error_text embed eh now kind out hm).0.updates_dispatched
        ≡ hm.updates_dispatched
  unfolding settle_matched increment_matched increment_unmatched
  settle_matched-counted eh now kind hm (true, err, s) =
      settle-counted eh now err (increment_matched kind hm) s
  settle_matched-counted eh now kind hm (false, err, s) = refl

  pub dispatch_ctx-counted :
      (eh : Option (ErrorHandlerFunc S E)) (router : Option (S → Attempt S E)) (now : ℕ)
      (kind : List ℕ) (hm : HealthMonitor) (s : S)
      → (dispatch_ctx error_text embed eh router now kind hm s).0.updates_dispatched
        ≡ next_count hm.updates_dispatched
  unfolding dispatch_ctx increment_dispatched increment_unmatched
  dispatch_ctx-counted eh none now kind hm s = refl
  dispatch_ctx-counted eh (some router) now kind hm s =
      settle_matched-counted eh now (or_unknown kind) (increment_dispatched (or_unknown kind) hm)
        (safe_dispatch error_text embed (router s))

  module _ (P : S → Type 0)
      (replies : (e : E) (reply : S → Option E × S)
        → embed e ≡ some reply
        → (s : S) → P s
        → P (reply s).1)
      (eh : Option (ErrorHandlerFunc S E))
      (handled : (e : E) (s : S) → P s → P (call_handler error_text embed eh e s)) where
    handle_error-kept :
        (now : ℕ) (err : Option E) (hm : HealthMonitor) (s : S)
        → P s
        → P (handle_error error_text embed eh now err hm s).1
    unfolding handle_error
    handle_error-kept now none hm s p = p
    handle_error-kept now (some e) hm s p = handled e s p

    settle-kept :
        (now : ℕ) (err : Option E) (hm : HealthMonitor) (s : S)
        → P s
        → P (settle error_text embed eh now err hm s).1
    unfolding settle resolve
    settle-kept now none hm s p = p
    settle-kept now (some e) hm s p = elim (Option-cases (embed e)) [
      | inl h ↦ rw h (handle_error-kept now (some e) hm s p)
      | inr (reply, h) ↦
          rw h (handle_error-kept now (reply s).0 hm (reply s).1 (replies e reply h s p))
    ]

    settle_matched-kept :
        (now : ℕ) (kind : List ℕ) (hm : HealthMonitor) (out : Bool × Option E × S)
        → P out.2
        → P (settle_matched error_text embed eh now kind out hm).1
    unfolding settle_matched increment_matched increment_unmatched
    settle_matched-kept now kind hm (true, err, s) p =
        settle-kept now err (increment_matched kind hm) s p
    settle_matched-kept now kind hm (false, err, s) p = p

    pub dispatch_ctx-kept :
        (router : S → Attempt S E) (now : ℕ) (kind : List ℕ) (hm : HealthMonitor) (s : S)
        → P (safe_dispatch error_text embed (router s)).2
        → P (dispatch_ctx error_text embed eh (some router) now kind hm s).1
    unfolding dispatch_ctx
    dispatch_ctx-kept router now kind hm s p =
        settle_matched-kept now (or_unknown kind) (increment_dispatched (or_unknown kind) hm)
          (safe_dispatch error_text embed (router s)) p
