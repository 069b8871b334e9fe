-- ===== src/Router/Tests.antt =====
-- A tree of routers at work, and the theorems about dispatch for it.
use golagram.Base.{
  ◌+◌, ℕ, ◌≡◌, refl, Bool, true, false, List, [], ◌∷◌, Option, none, some, codes, text_eq, inr,
}
use golagram.Router.{
  Filter, HandlerFunc, MiddlewareFunc, ErrorHandlerFunc, Route, Router, router, Routes, no_routes,
  leaf, sub, dispatch, registered,
}
use golagram.Update.{Update, Poll}
use golagram.Update.Kinds.{
  UpdateKind, kind_name, kind_of, present, update_with, message_kind, callback_query_kind,
}
use golagram.Update.Kinds
use golagram.Router.Allowed.{used_update_kinds, dispatch-used_update_kinds}
use golagram.Router.Include.{Includes, append_sub, include, reaches, panicked}
use golagram.Router.Include.Paths.{Among, Reach}
use golagram.Router.Include.Acyclic.{Built, fresh, grown, IsDecided, include-terminates}
use golagram.Router.Flat.{flatten, run_entries, dispatch-run_entries}

-- The state is the log of what ran, newest first; the error `true` is ErrSkipHandler.
abbrev is_skip : Bool → Bool
is_skip e = e

abbrev set_flags : ℕ → List ℕ → List ℕ
set_flags n s = s

abbrev always : Filter (List ℕ)
always s = (true, s)

abbrev never : Filter (List ℕ)
never s = (false, s)

abbrev returning : ℕ → Option Bool → HandlerFunc (List ℕ) Bool
returning n err s = (err, n ∷ s)

abbrev logging : ℕ → MiddlewareFunc (List ℕ) Bool
logging n h s = h (n ∷ s)

abbrev on_error : ErrorHandlerFunc (List ℕ) Bool
on_error e s = 99 ∷ s

abbrev route : Filter (List ℕ) → HandlerFunc (List ℕ) Bool → Route (List ℕ) Bool
route f h = record {
  kind = codes "message";
  condition = f;
  handler = h;
  flags = 0;
  allow_webhook_reply = false;
}

abbrev inner : Router (List ℕ) Bool
inner = router (logging 10 ∷ []) [] none (
    leaf (route always (returning 1 (some true)))
      (leaf (route always (returning 2 (some false))) no_routes))

abbrev outer : Router (List ℕ) Bool
outer = router (logging 20 ∷ []) [] (some on_error) (
    leaf (route never (returning 3 none))
      (sub inner (leaf (route always (returning 4 none)) no_routes)))

-- The first handler declines, the second fails, and the outer router handles its error.
dispatch-outer : dispatch is_skip set_flags outer [] ≡ (true, none, 99 ∷ 2 ∷ 10 ∷ 1 ∷ 10 ∷ [])
unfolding dispatch golagram.Router.settled golagram.Router.try_leaf golagram.Router.handle_or_bubble
    golagram.Router.try_sub golagram.Router.skips
dispatch-outer = refl

dispatch-run_entries_example :
    dispatch is_skip set_flags outer [] ≡ run_entries is_skip set_flags (flatten outer) []
dispatch-run_entries_example =
    dispatch-run_entries is_skip set_flags outer (refl, ((refl, tt), tt)) []

-- A router for messages that includes one for callback queries, on a Ctx that is its update.
abbrev registration : UpdateKind → Route Update Bool
unfolding kind_name registered present
registration k = record {
  kind = kind_name k;
  condition = registered (present k) [];
  handler = λ u. (none, u);
  flags = 0;
  allow_webhook_reply = false;
}

abbrev shop : Router Update Bool
unfolding registration
shop = router [] [] none (
    leaf (registration message_kind)
      (sub (router [] [] none (leaf (registration callback_query_kind) no_routes)) no_routes))

abbrev some_poll : Poll
some_poll = record { id = codes "p1" }

dispatch-used_update_kinds_example :
    dispatch is_skip (λ n u. u) shop (update_with 5 (Kinds.poll_payload some_poll))
    ≡ (false, none, update_with 5 (Kinds.poll_payload some_poll))
unfolding shop registration kind_name used_update_kinds flatten text_eq kind_of
dispatch-used_update_kinds_example =
    dispatch-used_update_kinds is_skip (λ n u. u) (λ u. u) shop
      (codes "callback_query" ∷ codes "message" ∷ []) 5 (Kinds.poll_payload some_poll)
      (update_with 5 (Kinds.poll_payload some_poll)) (refl, ((refl, tt), tt))
      (
        inr (message_kind, ([], (refl, λ s. refl))),
        (inr (callback_query_kind, ([], (refl, λ s. refl))), tt),
      )
      refl refl refl

-- Router 0 includes router 1; including 0 in 1 would close a cycle.
abbrev pair : Includes
pair = append_sub 0 1 (λ x. [])

pair-Built : Built pair
unfolding include reaches
pair-Built = grown (λ x. false) 1 0 1 (λ x. []) pair fresh refl

cycle_refused : include (λ x. false) 2 1 (some 0) pair ≡ panicked
unfolding include reaches
cycle_refused = refl

include-terminates_example :
    ((x : ℕ) → ((y : ℕ) × (Among y (pair x) × Reach pair y x)) → ⊥)
    × ((enough : ℕ) × ((more : ℕ)
          → IsDecided pair 1 0 (include (λ x. false) (enough + more) 1 (some 0) pair)))
include-terminates_example = include-terminates (λ x. false) pair 1 0 refl pair-Built
