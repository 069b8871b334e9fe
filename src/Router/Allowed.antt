-- ===== src/Router/Allowed.antt =====
-- UsedUpdateKinds, from which the bot asks Telegram for the updates of some kinds only, and that no
-- route would take any other. The iteration over the map of kinds is a list of them.
use golagram.Base.{
  ℕ, ◌≡◌, ◌∙◌, ◌⊎◌, inl, inr, ap, sym, refl, Bool, false, ◌||◌, List, [], ◌∷◌, ◌++◌, map, Option,
  none, some, some_inj, none_ne_some, if◌then◌else◌, codes, text_eq, text_eq_iff, All, Bool-cases,
  arith,
}
use golagram.Update.{Update}
use golagram.Update.Kinds.{
  UpdateKind, kind_name, present, Payload, update_with, kind_of, kind-update_with,
}
use golagram.Filters.{any_text}
use golagram.Router.{
  Filter, ErrorHandlerFunc, MiddlewareFunc, Router, router, Routes, no_routes, leaf, sub, dispatch,
  registered,
}
use golagram.Router.Flat.{
  Entry, under, flatten, flatten_routes, NoOuter, run_entries, dispatch-run_entries,
}

abbrev pub update_catch_all_kind : List ℕ
update_catch_all_kind = codes "*"

-- seen[kind] = true
abbrev pub add_kind : List ℕ → List (List ℕ) → List (List ℕ)
add_kind kind seen = if any_text seen kind then seen else kind ∷ seen

-- nil, no restriction, is none.
abbrev pub unless_catch_all : List (List ℕ) → Option (List (List ℕ))
unless_catch_all seen = if any_text seen update_catch_all_kind then none else some seen

any_text-add_kind :
    (kind k : List ℕ) (seen : List (List ℕ))
    → any_text (add_kind kind seen) k ≡ (text_eq k kind || any_text seen k)
any_text-add_kind kind k seen = elim (Bool-cases (any_text seen kind)) [
  | inl e ↦ rw e (elim (Bool-cases (text_eq k kind)) [
    | inl f ↦ rw f (ap (any_text seen) ((text_eq_iff k kind).0 f) ∙ e)
    | inr f ↦ rw f refl
  ])
  | inr e ↦ rw e refl
]

text_eq_comm : (s t : List ℕ) → text_eq s t ≡ text_eq t s
text_eq_comm s t = ground (arith, text_eq_iff s t, text_eq_iff t s)

module _ {S E : Type 0} where
  unfoldable mutual
    pub collect_used_update_kinds : Router S E → List (List ℕ) → List (List ℕ)
    collect_used_update_kinds (router mws outers eh routes) seen = collect_routes routes seen

    pub collect_routes : Routes S E → List (List ℕ) → List (List ℕ)
    collect_routes no_routes seen = seen
    collect_routes (leaf rt rest) seen = collect_routes rest (add_kind rt.kind seen)
    collect_routes (sub r rest) seen = collect_routes rest (collect_used_update_kinds r seen)

  unfoldable pub used_update_kinds : Router S E → Option (List (List ℕ))
  unfolding collect_used_update_kinds
  used_update_kinds r = unless_catch_all (collect_used_update_kinds r [])

  -- A leaf of one of the kinds has the kind.
  has_kind : List (Entry S E) → List ℕ → Bool
  has_kind [] kind = false
  has_kind (e ∷ es) kind = text_eq kind e.route.kind || has_kind es kind

  has_kind-append :
      (es fs : List (Entry S E)) (kind : List ℕ)
      → has_kind (es ++ fs) kind ≡ (has_kind es kind || has_kind fs kind)
  unfolding has_kind
  has_kind-append [] fs kind = refl
  has_kind-append (e ∷ es) fs kind = ground (arith, has_kind-append es fs kind)

  has_kind-under :
      (eh : Option (ErrorHandlerFunc S E)) (es : List (Entry S E)) (kind : List ℕ)
      → has_kind (map (under eh) es) kind ≡ has_kind es kind
  unfolding has_kind
  has_kind-under eh [] kind = refl
  has_kind-under eh (e ∷ es) kind =
      ap (λ b. text_eq kind e.route.kind || b) (has_kind-under eh es kind)

  mutual
    unfolding collect_used_update_kinds collect_routes flatten flatten_routes has_kind

    collect_router :
        (r : Router S E) (seen : List (List ℕ)) (k : List ℕ)
        → any_text (collect_used_update_kinds r seen) k
          ≡ (has_kind (flatten r) k || any_text seen k)
    collect_router (router mws outers eh routes) seen k = collect_leaves mws eh routes seen k

    collect_leaves :
        (mws : List (MiddlewareFunc S E)) (eh : Option (ErrorHandlerFunc S E)) (rs : Routes S E)
        (seen : List (List ℕ)) (k : List ℕ)
        → any_text (collect_routes rs seen) k
          ≡ (has_kind (flatten_routes mws eh rs) k || any_text seen k)
    collect_leaves mws eh no_routes seen k = refl
    collect_leaves mws eh (leaf rt rest) seen k = ground (
      arith,
      collect_leaves mws eh rest (add_kind rt.kind seen) k,
      any_text-add_kind rt.kind k seen,
    )
    collect_leaves mws eh (sub r rest) seen k = ground (
      arith,
      collect_leaves mws eh rest (collect_used_update_kinds r seen) k,
      collect_router r seen k,
      has_kind-append (map (under eh) (flatten r)) (flatten_routes mws eh rest) k,
      has_kind-under eh (flatten r) k,
    )

either_false : {a b : Bool} → (a || b) ≡ false → (a ≡ false) × (b ≡ false)
either_false {a} {b} h = ground arith

used_kinds_cases :
    (seen kinds : List (List ℕ))
    → unless_catch_all seen ≡ some kinds
    → (any_text seen update_catch_all_kind ≡ false) × (seen ≡ kinds)
used_kinds_cases seen kinds h = elim (Bool-cases (any_text seen update_catch_all_kind)) [
  | inl e ↦ absurd (none_ne_some (rw e at h))
  | inr e ↦ (e, some_inj (rw e at h))
]

-- The leaf is a registration for a kind of update, with any filters, or a catch-all.
abbrev pub IsBuilt : {S E : Type 0} → (S → Update) → Entry S E → Type 0
IsBuilt {S} update_of e =
    (e.route.kind ≡ update_catch_all_kind)
    ⊎ ((k : UpdateKind) × ((fs : List (Filter S)) × ((e.route.kind ≡ kind_name k)
            × ((s : S) → e.route.condition s ≡ registered (λ t. present k (update_of t)) fs s))))

module _ {S E : Type 0} (is_skip : E → Bool) (set_flags : ℕ → S → S) (update_of : S → Update) where
  condition-missing :
      (e : Entry S E) (i : ℕ) (p : Payload) (s : S)
      → IsBuilt update_of e
      → update_of s ≡ update_with i p
      → text_eq update_catch_all_kind e.route.kind ≡ false
      → text_eq (kind_name (kind_of p)) e.route.kind ≡ false
      → e.route.condition s ≡ (false, s)
  unfolding registered
  condition-missing e i p s (inl all) u star other =
      let same = (text_eq_iff update_catch_all_kind e.route.kind).1 (sym all) in cc
  condition-missing e i p s (inr (k, (fs, (named, cond)))) u star other =
      let absent : present k (update_of s) ≡ false =
        ap (present k) u
        ∙ ((kind-update_with i p).1 k
            ∙ (text_eq_comm (kind_name k) (kind_name (kind_of p))
                ∙ (ap (text_eq (kind_name (kind_of p))) (sym named) ∙ other))) in
      cond s ∙ rw absent refl

  run_entries-missing :
      (es : List (Entry S E)) (i : ℕ) (p : Payload) (s : S)
      → All (IsBuilt update_of) es
      → update_of s ≡ update_with i p
      → has_kind es update_catch_all_kind ≡ false
      → has_kind es (kind_name (kind_of p)) ≡ false
      → run_entries is_skip set_flags es s ≡ (false, none, s)
  unfolding run_entries has_kind
  run_entries-missing [] i p s built u star other = refl
  run_entries-missing (e ∷ es) i p s (b, built) u star other =
      let no_star : (text_eq update_catch_all_kind e.route.kind ≡ false)
          × (has_kind es update_catch_all_kind ≡ false) =
        either_false star in
      let no_other = either_false other in
      rw (condition-missing e i p s b u no_star.0 no_other.0)
        (run_entries-missing es i p s built u no_star.1 no_other.1)

  -- For a tree of routers without outer middleware whose leaves are registrations: an update with one
  -- payload, of a kind that UsedUpdateKinds does not name where it names some kinds, is taken by no
  -- route, and the dispatch leaves the state as it is.
  pub dispatch-used_update_kinds :
      (r : Router S E) (kinds : List (List ℕ)) (i : ℕ) (p : Payload) (s : S)
      → NoOuter r
      → All (IsBuilt update_of) (flatten r)
      → update_of s ≡ update_with i p
      → used_update_kinds r ≡ some kinds
      → any_text kinds (kind_name (kind_of p)) ≡ false
      → dispatch is_skip set_flags r s ≡ (false, none, s)
  unfolding used_update_kinds
  dispatch-used_update_kinds r kinds i p s plain built u used absent =
      let seen = collect_used_update_kinds r [] in
      let (no_star, same) = used_kinds_cases seen kinds used in
      let star = either_false (sym (collect_router r [] update_catch_all_kind) ∙ no_star) in
      let other = either_false (
        sym (collect_router r [] (kind_name (kind_of p)))
        ∙ (ap (λ ks. any_text ks (kind_name (kind_of p))) same ∙ absent)) in
      dispatch-run_entries is_skip set_flags r plain s
      ∙ run_entries-missing (flatten r) i p s built u star.0 other.0
