-- ===== src/Router/Include.antt =====
-- Include and its test for cycles, on the graph of routers: a router is a number, and `Includes` are
-- the routers that each includes, in order. The test runs on fuel.
pub mod Paths
pub mod Acyclic
use golagram.Base.{
  ℕ, zero, suc, Bool, true, false, List, [], ◌∷◌, ◌++◌, Option, none, some, ◌==◌, if◌then◌else◌,
}

abbrev pub Includes : Type 0
Includes = ℕ → List ℕ

-- A round of the loop; none is a test that is still running.
abbrev pub or_further : Option Bool → Option Bool → Option Bool
or_further none rest = none
or_further (some true) rest = some true
or_further (some false) rest = rest

unfoldable pub any_reaches : (ℕ → Option Bool) → List ℕ → Option Bool
any_reaches sub_reaches [] = some false
any_reaches sub_reaches (sub ∷ subs) = or_further (sub_reaches sub) (any_reaches sub_reaches subs)

unfoldable pub reaches : ℕ → Includes → ℕ → ℕ → Option Bool
unfolding any_reaches
reaches zero g r target = none
reaches (suc fuel) g r target =
    let further = any_reaches (λ sub. reaches fuel g sub target) (g r) in
    if r == target then some true else further

pub data Inclusion : Type 0 where
  running : Inclusion
  panicked : Inclusion
  included : Includes → Inclusion

-- r.routes = append(r.routes, route{sub: sub})
abbrev pub append_sub : ℕ → ℕ → Includes → Includes
append_sub r sub g = λ x. if x == r then g x ++ sub ∷ [] else g x

abbrev pub include_unless : Option Bool → ℕ → ℕ → Includes → Inclusion
include_unless none r sub g = running
include_unless (some true) r sub g = panicked
include_unless (some false) r sub g = included (append_sub r sub g)

-- Include's test for a cycle and what follows it.
unfoldable pub include_mutable : ℕ → ℕ → ℕ → Includes → Inclusion
unfolding reaches
include_mutable fuel r sub g = include_unless (reaches fuel g sub r) r sub g

-- r.Include(sub), where nil is none and a frozen router panics.
unfoldable pub include : (ℕ → Bool) → ℕ → ℕ → Option ℕ → Includes → Inclusion
unfolding include_mutable
include frozen fuel r none g = panicked
include frozen fuel r (some sub) g = if frozen r then panicked else include_mutable fuel r sub g
