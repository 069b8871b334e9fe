-- ===== src/Split/Point.antt =====
-- Where splitPoint of format.go puts the end of a chunk.
use golagram.Base.{
  max, le_of_test, lt_of_test, ℕ, zero, suc, ◌+◌, ◌-◌, ◌≤◌, ◌<◌, ◌≡◌, ◌≢◌, ◌⊎◌, inl, inr, refl,
  Bool, true, false, List, [], ◌∷◌, Option, none, some, leb, ◌==◌, Bool-cases, All, length, arith,
}
use golagram.Split.{
  Entity, is_split_space, unit, note_space, last_break_from, last_break, cuts_avoidable,
  retreat_pass, retreat, entity_start_before, settle, window_edge, split_point,
}

-- Position r of (start, p] is p or stands behind a space or a newline.
pub record IsBreak (u : List ℕ) (start p r : ℕ) : Type 0 where
  pub after : start < r
  pub within : r ≤ p
  pub seam : (r ≡ p) ⊎ (is_split_space (unit u (r - 1)) ≡ true)

abbrev NotedIsBreak : List ℕ → ℕ → ℕ → Option ℕ → Type 0
NotedIsBreak u start p none = Unit
NotedIsBreak u start p (some i) = IsBreak u start p i

-- Behind a space or a newline at index k.
IsBreak-behind :
    (u : List ℕ) (start p n : ℕ)
    → start + suc n ≤ p
    → is_split_space (unit u (start + n)) ≡ true
    → IsBreak u start p (start + suc n)
IsBreak-behind u start p n hn s =
    let e : start + suc n - 1 ≡ start + n = omega arith in
    record { after = omega arith; within = hn; seam = inr (rw e s) }

space_is_split : (c : ℕ) → (c == b' ') ≡ true → is_split_space c ≡ true
unfolding is_split_space
space_is_split c h = ground arith

newline_is_split : (c : ℕ) → (c == b'\n') ≡ true → is_split_space c ≡ true
unfolding is_split_space
newline_is_split c h = ground arith

note_space-NotedIsBreak :
    (u : List ℕ) (start p : ℕ) (last_space : Option ℕ) (i : ℕ)
    → NotedIsBreak u start p last_space
    → IsBreak u start p i
    → NotedIsBreak u start p (note_space last_space i)
note_space-NotedIsBreak u start p none i g b = b
note_space-NotedIsBreak u start p (some j) i g b = g

last_break_from-IsBreak :
    (u : List ℕ) (start p n : ℕ) (last_space : Option ℕ)
    → start < p
    → start + n ≤ p
    → NotedIsBreak u start p last_space
    → IsBreak u start p (last_break_from u start p n last_space)
unfolding last_break_from
last_break_from-IsBreak u start p zero none h hn g = record {
  after = h;
  within = omega arith;
  seam = inl refl;
}
last_break_from-IsBreak u start p zero (some i) h hn g = g
last_break_from-IsBreak u start p (suc n) last_space h hn g =
    elim (Bool-cases (unit u (start + n) == b'\n')) [
      | inl e ↦ rw e (IsBreak-behind u start p n hn (newline_is_split _ e))
      | inr e ↦ rw e (elim (Bool-cases (unit u (start + n) == b' ')) [
        | inl s ↦ rw s (
            last_break_from-IsBreak u start p n (note_space last_space (start + suc n)) h
              (omega arith)
              (note_space-NotedIsBreak u start p last_space _ g
                (IsBreak-behind u start p n hn (space_is_split _ s))))
        | inr s ↦ rw s (last_break_from-IsBreak u start p n last_space h (omega arith) g)
      ])
    ]

pub last_break-IsBreak :
    (u : List ℕ) (start p : ℕ) → start < p → IsBreak u start p (last_break u start p)
unfolding last_break
last_break-IsBreak u start p h =
    last_break_from-IsBreak u start p (p - start) none h (omega arith) tt

true_ne_false : true ≢ false
true_ne_false e = cc

leb_of_lt : (a b : ℕ) → a < b → leb b a ≡ false
leb_of_lt a b h = ground arith

ne_of_test : (a b : ℕ) → (a == b) ≡ false → a ≢ b
ne_of_test a b h = ground arith

cuts_avoidable_bounds :
    (start limit q : ℕ) (e : Entity)
    → cuts_avoidable start limit q e ≡ true
    → (start < e.offset) × (e.offset < q)
unfolding cuts_avoidable
cuts_avoidable_bounds start limit q e h = ground arith

-- One pass over the entities never moves right, stays behind start, moves only to the start of an
-- entity, and reports no move only if no entity would move it.
abbrev pub Uncut : ℕ → ℕ → ℕ → List Entity → Type 0
Uncut start limit q es = All (λ e. cuts_avoidable start limit q e ≡ false) es

pub record PassResult (es : List Entity) (start limit q : ℕ) (moved : Bool) (r : ℕ × Bool)
    : Type 0 where
  pub after : start < r.0
  pub within : r.0 ≤ q
  pub still : r.1 ≡ false → (r.0 ≡ q) × (moved ≡ false) × Uncut start limit q es
  pub lower : r.1 ≡ true → (moved ≡ true) ⊎ (r.0 < q)

pub retreat_pass-PassResult :
    (es : List Entity) (start limit q : ℕ) (moved : Bool)
    → start < q
    → PassResult es start limit q moved (retreat_pass es start limit q moved)
unfolding retreat_pass
retreat_pass-PassResult [] start limit q moved h = ground arith
retreat_pass-PassResult (e ∷ es) start limit q moved h =
    elim (Bool-cases (cuts_avoidable start limit q e)) [
      | inl c ↦
          let b = cuts_avoidable_bounds start limit q e c in
          let r = retreat_pass-PassResult es start limit e.offset true b.0 in
          rw c (record {
            after = r.after;
            within = omega (arith, r.within);
            still = λ s. absurd (true_ne_false (r.still s).1);
            lower = λ s. inr (omega (arith, r.within));
          })
      | inr c ↦
          let r = retreat_pass-PassResult es start limit q moved h in
          rw c (record {
            after = r.after;
            within = r.within;
            still = λ s. ((r.still s).0, (r.still s).1, (c, (r.still s).2));
            lower = r.lower;
          })
    ]

retreat-after-le :
    (fuel : ℕ) (es : List Entity) (start limit q : ℕ)
    → start < q
    → (start < retreat fuel es start limit q) × (retreat fuel es start limit q ≤ q)
unfolding retreat
retreat-after-le zero es start limit q h = (h, omega arith)
retreat-after-le (suc fuel) es start limit q h =
    let r = retreat_pass-PassResult es start limit q false h in
    let next =
      retreat-after-le fuel es start limit (retreat_pass es start limit q false).0 r.after in
    elim (Bool-cases (retreat_pass es start limit q false).1) [
      | inl m ↦ rw m (next.0, omega (arith, r.within))
      | inr m ↦ rw m (h, omega arith)
    ]

-- With more fuel than q the loop ends because no entity moves the position any more.
retreat-Uncut :
    (fuel : ℕ) (es : List Entity) (start limit q : ℕ)
    → start < q
    → q < fuel
    → Uncut start limit (retreat fuel es start limit q) es
unfolding retreat
retreat-Uncut zero es start limit q h f = absurd (omega arith)
retreat-Uncut (suc fuel) es start limit q h f =
    let r = retreat_pass-PassResult es start limit q false h in
    let q' = (retreat_pass es start limit q false).0 in
    elim (Bool-cases (retreat_pass es start limit q false).1) [
      | inl m ↦ rw m (
          retreat-Uncut fuel es start limit q' r.after
            (elim (r.lower m) [ inl c ↦ cc | inr l ↦ omega arith ]))
      | inr m ↦ rw m ((r.still m).2)
    ]

pub record Settled (u : List ℕ) (es : List Entity) (start limit w r : ℕ) : Type 0 where
  pub after : start < r
  pub within : r ≤ w
  pub uncut : Uncut start limit r es

settle-Settled :
    (fuel : ℕ) (u : List ℕ) (es : List Entity) (start limit w p : ℕ)
    → start < p
    → p ≤ w
    → p < fuel
    → Settled u es start limit w (settle fuel u es start limit w p)
unfolding settle entity_start_before
settle-Settled zero u es start limit w p h hw f = absurd (omega arith)
settle-Settled (suc fuel) u es start limit w p h hw f =
    let b = last_break-IsBreak u start p h in
    let i = last_break u start p in
    let a = retreat-after-le (suc i) es start limit i b.after in
    let q = retreat (suc i) es start limit i in
    let gone : leb q start ≡ false = leb_of_lt start q a.0 in
    elim (Bool-cases (q == p)) [
      | inl e ↦
          rw (gone, e)
            (record {
              after = a.0;
              within = omega (arith, b.within);
              uncut = retreat-Uncut (suc i) es start limit i b.after (omega arith);
            })
      | inr e ↦
          rw (gone, e)
            (settle-Settled fuel u es start limit w q a.0 (omega (arith, b.within))
              (omega (arith, b.within, ne_of_test q p e)))
    ]

pub window_edge_bounds :
    (u : List ℕ) (start limit : ℕ)
    → 0 < limit
    → start + limit < length u
    → (start < window_edge u start limit)
      × (window_edge u start limit ≤ length u)
      × (window_edge u start limit ≤ start + max 2 limit)
unfolding window_edge
window_edge_bounds u start limit h l = ground arith

-- A position does not stand inside an entity, or that cannot be moved whole into the next chunk, as it
-- begins no later than this one or is longer than the limit.
abbrev pub LeavesWhole : ℕ → ℕ → ℕ → Entity → Type 0
LeavesWhole start limit q e =
    ((q ≤ e.offset) ⊎ (e.offset + e.length_units ≤ q))
    ⊎ ((e.offset ≤ start) ⊎ (limit < e.length_units))

Uncut-LeavesWhole :
    (start limit q : ℕ) (es : List Entity)
    → Uncut start limit q es
    → All (LeavesWhole start limit q) es
unfolding cuts_avoidable
Uncut-LeavesWhole start limit q [] h = tt
Uncut-LeavesWhole start limit q (e ∷ es) h =
    (left_whole start limit q e h.0, Uncut-LeavesWhole start limit q es h.1)
  where
    left_whole :
        (start limit q : ℕ) (e : Entity)
        → cuts_avoidable start limit q e ≡ false
        → LeavesWhole start limit q e
    left_whole start limit q e h = ground arith

-- The end of a chunk: behind its start, inside the text, and never inside an entity that could be
-- moved whole into the next chunk.
pub record IsSplit (u : List ℕ) (es : List Entity) (start limit r : ℕ) : Type 0 where
  pub after : start < r
  pub within : r ≤ length u
  pub fits : r ≤ start + max 2 limit
  pub whole : (r ≡ length u) ⊎ All (LeavesWhole start limit r) es

-- For a start inside the text and a limit that is positive, with any entities: the split point lies
-- behind the start and inside the text, within the limit or, where that is one, two units, and, unless
-- it is the end of the text, inside no entity that could be moved whole into the next chunk.
pub split_point-IsSplit :
    (u : List ℕ) (es : List Entity) (start limit : ℕ)
    → start < length u
    → 0 < limit
    → IsSplit u es start limit (split_point u es start limit)
unfolding split_point
split_point-IsSplit u es start limit h l = elim (Bool-cases (leb (length u) (start + limit))) [
  | inl e ↦ rw e (record {
    after = h;
    within = omega arith;
    fits = (let short = le_of_test _ _ e in omega arith);
    whole = inl refl;
  })
  | inr e ↦
      let w = window_edge u start limit in
      let b = window_edge_bounds u start limit l (lt_of_test _ _ e) in
      let s = settle-Settled (suc w) u es start limit w w b.0 (omega arith) (omega arith) in
      rw e (record {
        after = s.after;
        within = omega (arith, s.within);
        fits = omega (arith, s.within, b.2);
        whole = inr (Uncut-LeavesWhole start limit _ es s.uncut);
      })
]
