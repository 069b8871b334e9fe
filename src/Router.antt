-- ===== src/Router.antt =====
-- router.go: the tree of routers and its dispatch. `S` is the state that handlers and filters read
-- and change (the Ctx and the world behind it), `E` the type of errors; a nil error is `none`.
pub mod Flat
pub mod Allowed
pub mod Include
mod Tests
use golagram.Base.{ℕ, Bool, true, false, List, [], ◌∷◌, Option, none, some, if◌then◌else◌}

abbrev pub Filter : Type 0 → Type 0
Filter S = S → Bool × S

abbrev pub HandlerFunc : Type 0 → Type 0 → Type 0
HandlerFunc S E = S → Option E × S

abbrev pub MiddlewareFunc : Type 0 → Type 0 → Type 0
MiddlewareFunc S E = HandlerFunc S E → HandlerFunc S E

abbrev pub ErrorHandlerFunc : Type 0 → Type 0 → Type 0
ErrorHandlerFunc S E = E → S → S

-- What a dispatch attempt returns: matched, err, and the state after it.
abbrev pub Dispatcher : Type 0 → Type 0 → Type 0
Dispatcher S E = S → Bool × Option E × S

abbrev pub OuterMiddlewareFunc : Type 0 → Type 0 → Type 0
OuterMiddlewareFunc S E = Dispatcher S E → Dispatcher S E

-- A route with a handler. `kind` is Telegram's name of an update's field; `flags` numbers the flag maps.
pub record Route (S E : Type 0) : Type 0 where
  pub kind : List ℕ
  pub condition : Filter S
  pub handler : HandlerFunc S E
  pub flags : ℕ
  pub allow_webhook_reply : Bool

mutual
  pub data Router (S E : Type 0) : Type 0 where
    router :
        List (MiddlewareFunc S E)
        → List (OuterMiddlewareFunc S E)
        → Option (ErrorHandlerFunc S E)
        → Routes S E
        → Router S E

  pub data Routes (S E : Type 0) : Type 0 where
    no_routes : Routes S E
    leaf : Route S E → Routes S E → Routes S E
    sub : Router S E → Routes S E → Routes S E

-- `for i := len(mws) - 1; i >= 0; i-- { h = mws[i](h) }`: the first registered is outermost.
pub wrap {ℓ} : {A : Type ℓ} → List (A → A) → A → A
wrap [] h = h
wrap (mw ∷ mws) h = mw (wrap mws h)

module _ {S E : Type 0} (is_skip : E → Bool) (set_flags : ℕ → S → S) where
  unfoldable pub handle_or_bubble : Option (ErrorHandlerFunc S E) → Option E → S → Option E × S
  handle_or_bubble eh none s = (none, s)
  handle_or_bubble none (some e) s = (some e, s)
  handle_or_bubble (some h) (some e) s = (none, h e s)

  -- errors.Is(hErr, ErrSkipHandler)
  unfoldable pub skips : Option E → Bool
  skips none = false
  skips (some e) = is_skip e

  -- One leaf, `rest` being the routes behind it.
  unfoldable pub try_leaf :
      List (MiddlewareFunc S E)
      → Option (ErrorHandlerFunc S E)
      → Route S E
      → Dispatcher S E
      → Dispatcher S E
  unfolding wrap
  try_leaf mws eh rt rest s =
      let (holds, s1) = rt.condition s in
      let (err, s2) = wrap mws rt.handler (set_flags rt.flags s1) in
      let skipped = rest s2 in
      let missed = rest s1 in
      let (err', s3) = handle_or_bubble eh err s2 in
      if holds then if skips err then skipped else (true, err', s3) else missed

  unfoldable pub try_sub :
      Option (ErrorHandlerFunc S E) → Dispatcher S E → Dispatcher S E → Dispatcher S E
  try_sub eh attempt rest s =
      let (matched, err, s1) = attempt s in
      let missed = rest s1 in
      let (err', s2) = handle_or_bubble eh err s1 in if matched then (true, err', s2) else missed

  unfoldable pub settled : Option (ErrorHandlerFunc S E) → Dispatcher S E → Dispatcher S E
  settled eh next s =
      let (matched, err, s1) = next s in
      let (err', s2) = handle_or_bubble eh err s1 in (matched, err', s2)

  unfoldable mutual
    unfolding wrap

    pub dispatch : Router S E → Dispatcher S E
    dispatch (router mws outers eh routes) =
        settled eh (wrap outers (dispatch_routes mws eh routes))

    pub dispatch_routes :
        List (MiddlewareFunc S E) → Option (ErrorHandlerFunc S E) → Routes S E → Dispatcher S E
    dispatch_routes mws eh no_routes = λ s. (false, none, s)
    dispatch_routes mws eh (leaf rt rest) = try_leaf mws eh rt (dispatch_routes mws eh rest)
    dispatch_routes mws eh (sub r rest) = try_sub eh (dispatch r) (dispatch_routes mws eh rest)

abbrev pub Finder : Type 0 → Type 0 → Type 0
Finder S E = S → Option (Route S E) × S

module _ {S E : Type 0} where
  unfoldable pub first_of_leaf : Route S E → Finder S E → Finder S E
  first_of_leaf rt rest s =
      let (holds, s1) = rt.condition s in
      let missed = rest s1 in if holds then (some rt, s1) else missed

  unfoldable pub or_else : Option (Route S E) → S → Finder S E → Option (Route S E) × S
  or_else none s rest = rest s
  or_else (some rt) s rest = (some rt, s)

  -- The route that a dispatch would run: conditions are evaluated, no handler is.
  unfoldable mutual
    unfolding or_else

    pub first_matching_route : Router S E → Finder S E
    first_matching_route (router mws outers eh routes) = first_of_routes routes

    pub first_of_routes : Routes S E → Finder S E
    first_of_routes no_routes = λ s. (none, s)
    first_of_routes (leaf rt rest) = first_of_leaf rt (first_of_routes rest)
    first_of_routes (sub r rest) =
        λ s. let (found, s1) = first_matching_route r s in or_else found s1 (first_of_routes rest)

  unfoldable pub allows : Option (Route S E) → Bool
  allows none = false
  allows (some rt) = rt.allow_webhook_reply

  unfoldable pub matching_allows_webhook_reply : Router S E → S → Bool
  unfolding allows
  matching_allows_webhook_reply r s = allows (first_matching_route r s).0

module _ {S : Type 0} where
  -- register: the kind's payload is present, then the filters run in order (AND).
  unfoldable pub all_filters : List (Filter S) → Filter S
  all_filters [] s = (true, s)
  all_filters (f ∷ fs) s =
      let (holds, s1) = f s in let rest = all_filters fs s1 in if holds then rest else (false, s1)

  unfoldable pub registered : (S → Bool) → List (Filter S) → Filter S
  unfolding all_filters
  registered present fs s = let rest = all_filters fs s in if present s then rest else (false, s)
