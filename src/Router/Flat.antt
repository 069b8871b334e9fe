-- ===== src/Router/Flat.antt =====
-- The specification of dispatch: the tree read as one list of leaves in registration order, each
-- with the middleware of its own router and the error handlers from its router outwards.
use golagram.Base.{
  ℕ, ◌≡◌, ◌∙◌, sym, ap, refl, Bool, true, false, List, [], ◌∷◌, ◌++◌, Option, none, some,
  if◌then◌else◌, Bool-cases, inl, inr, map,
}
use mathlib.Core.Path.{fun_ext, ap₂}
use golagram.Router.{
  HandlerFunc, MiddlewareFunc, ErrorHandlerFunc, Dispatcher, Route, Router, router, Routes,
  no_routes, leaf, sub, wrap, handle_or_bubble, skips, try_leaf, try_sub, settled, dispatch,
  dispatch_routes,
}

pub record Entry (S E : Type 0) : Type 0 where
  pub route : Route S E
  pub wrapped : HandlerFunc S E
  pub error_handlers : List (Option (ErrorHandlerFunc S E))

module _ {S E : Type 0} where
  -- A router further out sees the error last.
  abbrev pub under : Option (ErrorHandlerFunc S E) → Entry S E → Entry S E
  under eh e = record e { error_handlers = e.error_handlers ++ eh ∷ [] }

  unfoldable mutual
    pub flatten : Router S E → List (Entry S E)
    flatten (router mws outers eh routes) = flatten_routes mws eh routes

    pub flatten_routes :
        List (MiddlewareFunc S E) → Option (ErrorHandlerFunc S E) → Routes S E → List (Entry S E)
    flatten_routes mws eh no_routes = []
    flatten_routes mws eh (leaf rt rest) =
        record { route = rt; wrapped = wrap mws rt.handler; error_handlers = eh ∷ [] }
        ∷ flatten_routes mws eh rest
    flatten_routes mws eh (sub r rest) = map (under eh) (flatten r) ++ flatten_routes mws eh rest

  -- No router of the tree has outer middleware.
  abbrev mutual
    pub NoOuter : Router S E → Type 0
    NoOuter (router mws outers eh routes) = (outers ≡ []) × NoOuterRoutes routes

    pub NoOuterRoutes : Routes S E → Type 0
    NoOuterRoutes no_routes = Unit
    NoOuterRoutes (leaf rt rest) = NoOuterRoutes rest
    NoOuterRoutes (sub r rest) = NoOuter r × NoOuterRoutes rest

module _ {S E : Type 0} (is_skip : E → Bool) (set_flags : ℕ → S → S) where
  -- An error on its way out, through the error handlers from the inside.
  unfoldable pub bubble : List (Option (ErrorHandlerFunc S E)) → Option E → S → Option E × S
  bubble [] err s = (err, s)
  bubble (eh ∷ ehs) err s =
      let (err', s') = handle_or_bubble is_skip set_flags eh err s in bubble ehs err' s'

  -- The first leaf whose condition holds and whose handler does not decline decides.
  unfoldable pub run_entries : List (Entry S E) → Dispatcher S E
  unfolding bubble
  run_entries [] s = (false, none, s)
  run_entries (e ∷ es) s =
      let (holds, s1) = e.route.condition s in
      let (err, s2) = e.wrapped (set_flags e.route.flags s1) in
      let skipped = run_entries es s2 in
      let missed = run_entries es s1 in
      let (err', s3) = bubble e.error_handlers err s2 in
      if holds then if skips is_skip set_flags err then skipped else (true, err', s3) else missed

  bubble-snoc :
      (ehs : List (Option (ErrorHandlerFunc S E))) (eh : Option (ErrorHandlerFunc S E))
      (err : Option E) (s : S)
      → bubble (ehs ++ eh ∷ []) err s
        ≡ (let (err', s') = bubble ehs err s in handle_or_bubble is_skip set_flags eh err' s')
  unfolding bubble
  bubble-snoc [] eh err s = refl
  bubble-snoc (h ∷ ehs) eh err s = bubble-snoc ehs eh _ _

  run_entries-under :
      (eh : Option (ErrorHandlerFunc S E)) (es fs : List (Entry S E)) (s : S)
      → run_entries (map (under eh) es ++ fs) s
        ≡ try_sub is_skip set_flags eh (run_entries es) (run_entries fs) s
  unfolding run_entries try_sub
  run_entries-under eh [] fs s = refl
  run_entries-under eh (e ∷ es) fs s = elim (Bool-cases (e.route.condition s).0) [
    | inl h ↦
        elim (Bool-cases (
          skips is_skip set_flags
            (e.wrapped (set_flags e.route.flags (e.route.condition s).1)).0)) [
              | inl k ↦ rw (h, k) (run_entries-under eh es fs _)
              | inr k ↦
                  rw (h, k)
                    (ap (λ (q : Option E × S). (true, q.0, q.1))
                      (bubble-snoc e.error_handlers eh _ _))
            ]
    | inr h ↦ rw h (run_entries-under eh es fs _)
  ]

  handle_or_bubble_idem :
      (eh : Option (ErrorHandlerFunc S E)) (err : Option E) (s : S)
      → (let (err', s') = handle_or_bubble is_skip set_flags eh err s in
          handle_or_bubble is_skip set_flags eh err' s')
        ≡ handle_or_bubble is_skip set_flags eh err s
  unfolding handle_or_bubble
  handle_or_bubble_idem eh none s = refl
  handle_or_bubble_idem none (some e) s = refl
  handle_or_bubble_idem (some h) (some e) s = refl

  settled-try_leaf :
      (mws : List (MiddlewareFunc S E)) (eh : Option (ErrorHandlerFunc S E)) (rt : Route S E)
      (rest : Dispatcher S E) (s : S)
      → ((t : S) → settled is_skip set_flags eh rest t ≡ rest t)
      → settled is_skip set_flags eh (try_leaf is_skip set_flags mws eh rt rest) s
        ≡ try_leaf is_skip set_flags mws eh rt rest s
  unfolding settled try_leaf
  settled-try_leaf mws eh rt rest s ih = elim (Bool-cases (rt.condition s).0) [
    | inl h ↦
        elim (Bool-cases (
          skips is_skip set_flags
            (wrap mws rt.handler (set_flags rt.flags (rt.condition s).1)).0)) [
              | inl k ↦ rw (h, k) (ih _)
              | inr k ↦
                  rw (h, k)
                    (ap (λ (q : Option E × S). (true, q.0, q.1)) (handle_or_bubble_idem eh _ _))
            ]
    | inr h ↦ rw h (ih _)
  ]

  settled-try_sub :
      (eh : Option (ErrorHandlerFunc S E)) (attempt rest : Dispatcher S E) (s : S)
      → ((t : S) → settled is_skip set_flags eh rest t ≡ rest t)
      → settled is_skip set_flags eh (try_sub is_skip set_flags eh attempt rest) s
        ≡ try_sub is_skip set_flags eh attempt rest s
  unfolding settled try_sub
  settled-try_sub eh attempt rest s ih = elim (Bool-cases (attempt s).0) [
    | inl h ↦ rw h (ap (λ (q : Option E × S). (true, q.0, q.1)) (handle_or_bubble_idem eh _ _))
    | inr h ↦ rw h (ih _)
  ]

  -- The outer application of a router's own error handler in dispatch changes nothing.
  settled-dispatch_routes :
      (mws : List (MiddlewareFunc S E)) (eh : Option (ErrorHandlerFunc S E)) (rs : Routes S E)
      (s : S)
      → settled is_skip set_flags eh (dispatch_routes is_skip set_flags mws eh rs) s
        ≡ dispatch_routes is_skip set_flags mws eh rs s
  unfolding dispatch_routes
  settled-dispatch_routes mws eh no_routes s = unfold settled handle_or_bubble in refl
  settled-dispatch_routes mws eh (leaf rt rest) s =
      settled-try_leaf mws eh rt _ s (settled-dispatch_routes mws eh rest)
  settled-dispatch_routes mws eh (sub r rest) s =
      settled-try_sub eh _ _ s (settled-dispatch_routes mws eh rest)

  run_entries-nil : (s : S) → (false, none, s) ≡ run_entries [] s
  unfolding run_entries
  run_entries-nil s = refl

  leaf-flat :
      (mws : List (MiddlewareFunc S E)) (eh : Option (ErrorHandlerFunc S E)) (rt : Route S E)
      (rest : Dispatcher S E) (es : List (Entry S E)) (s : S)
      → ((t : S) → rest t ≡ run_entries es t)
      → try_leaf is_skip set_flags mws eh rt rest s
        ≡ run_entries
            (record { route = rt; wrapped = wrap mws rt.handler; error_handlers = eh ∷ [] } ∷ es)
            s
  unfolding try_leaf run_entries
  leaf-flat mws eh rt rest es s ih = elim (Bool-cases (rt.condition s).0) [
    | inl h ↦
        elim (Bool-cases (
          skips is_skip set_flags
            (wrap mws rt.handler (set_flags rt.flags (rt.condition s).1)).0)) [
              | inl k ↦ rw (h, k) (ih _)
              | inr k ↦ rw (h, k) refl
            ]
    | inr h ↦ rw h (ih _)
  ]

  mutual
    unfolding dispatch_routes flatten_routes

    dispatch-flat :
        (r : Router S E)
        → NoOuter r
        → (s : S) → dispatch is_skip set_flags r s ≡ run_entries (flatten r) s
    dispatch-flat (router mws outers eh routes) h s =
        rw h.0 (settled-dispatch_routes mws eh routes s ∙ routes-flat mws eh routes h.1 s)

    routes-flat :
        (mws : List (MiddlewareFunc S E)) (eh : Option (ErrorHandlerFunc S E)) (rs : Routes S E)
        → NoOuterRoutes rs
        → (s : S)
        → dispatch_routes is_skip set_flags mws eh rs s ≡ run_entries (flatten_routes mws eh rs) s
    routes-flat mws eh no_routes h s = run_entries-nil s
    routes-flat mws eh (leaf rt rest) h s = leaf-flat mws eh rt _ _ s (routes-flat mws eh rest h)
    routes-flat mws eh (sub r rest) h s =
        ap₂ (λ d e. try_sub is_skip set_flags eh d e s) (fun_ext (dispatch-flat r h.0))
          (fun_ext (routes-flat mws eh rest h.1))
        ∙ sym (run_entries-under eh (flatten r) (flatten_routes mws eh rest) s)

  -- Without outer middleware a dispatch runs the leaves of the whole tree in registration order, as
  -- if they stood in one list: the first whose condition holds and whose handler does not return
  -- ErrSkipHandler decides, wrapped in the middleware of its own router only, and its error passes
  -- the error handlers from its own router outwards.
  pub dispatch-run_entries :
      (r : Router S E)
      → NoOuter r
      → (s : S) → dispatch is_skip set_flags r s ≡ run_entries (flatten r) s
  dispatch-run_entries r h s = dispatch-flat r h s
