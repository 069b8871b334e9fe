-- ===== src/Broadcast/Accounted.antt =====
-- What Broadcast (broadcast.go) accounts for, however its workers interleave.
use golagram.Base.{
  ℕ, suc, ◌+◌, ◌≤◌, ◌<◌, ◌≡◌, refl, ap, List, [], ◌∷◌, ◌++◌, Option, none, some, ◌==◌,
  if◌then◌else◌, Bool-cases, inl, inr, All, All-append, length, length-append, arith,
}
use golagram.Broadcast.{
  SendError, is_blocked_by_user, BroadcastResult, BroadcastProgress, resolve, progress_of, Answers,
  send_one, Broadcasting, begin, hold, finish, Move, feed, complete, give_up, Moves, done, step,
}

-- How often a chat stands in a list.
unfoldable pub count : ℕ → List ℕ → ℕ
count x [] = 0
count x (y ∷ ys) = if x == y then suc (count x ys) else count x ys

count-append : (x : ℕ) (ys zs : List ℕ) → count x (ys ++ zs) ≡ count x ys + count x zs
unfolding count
count-append x [] zs = omega arith
count-append x (y ∷ ys) zs = elim (Bool-cases (x == y)) [
  | inl e ↦ rw e (omega (arith, count-append x ys zs))
  | inr e ↦ rw e (count-append x ys zs)
]

count-one : (x y : ℕ) (zs : List ℕ) → count x (y ∷ zs) ≡ count x (y ∷ []) + count x zs
unfolding count
count-one x y zs = elim (Bool-cases (x == y)) [
  | inl e ↦ rw e (omega arith)
  | inr e ↦ rw e (omega arith)
]

count-nil : (x : ℕ) → count x [] ≡ 0
unfolding count
count-nil x = refl

-- The numbers that a progress callback is given fit together.
abbrev pub IsCoherent : ℕ → BroadcastProgress → Type 0
IsCoherent total p =
    (p.total ≡ total) × (p.sent + p.failed + p.remaining ≡ total) × (p.blocked ≤ p.failed)

pub record IsAccounted (concurrency : ℕ) (chat_ids : List ℕ) (s : Broadcasting) : Type 0 where
  pub chats :
      (x : ℕ)
      → count x s.resolved + count x s.held + count x s.unfed + count x s.dropped ≡ count x chat_ids
  pub numbers :
      length s.resolved + length s.held + length s.unfed + length s.dropped ≡ length chat_ids
  pub outcomes : s.result.sent + s.result.failed ≡ length s.resolved
  pub blocked : length s.result.blocked ≤ s.result.failed
  pub workers : length s.held ≤ concurrency
  pub reported : length s.progress ≡ length s.resolved
  pub coherent : All (IsCoherent (length chat_ids)) s.progress

resolve_numbers :
    (id : ℕ) (o : Option SendError) (r : BroadcastResult)
    → length r.blocked ≤ r.failed
    → ((resolve id o r).sent + (resolve id o r).failed ≡ suc (r.sent + r.failed))
      × (length (resolve id o r).blocked ≤ (resolve id o r).failed)
unfolding resolve
resolve_numbers id none r h = (omega arith, h)
resolve_numbers id (some err) r h = elim (Bool-cases (is_blocked_by_user err)) [
  | inl e ↦ rw e (omega arith, omega (arith, length-append r.blocked (id ∷ [])))
  | inr e ↦ rw e (omega arith, omega arith)
]

module _ (concurrency : ℕ) (chat_ids : List ℕ) where
  hold-IsAccounted :
      (s : Broadcasting) (id : ℕ) (rest : List ℕ)
      → s.unfed ≡ id ∷ rest
      → length s.held < concurrency
      → IsAccounted concurrency chat_ids s
      → IsAccounted concurrency chat_ids (hold s id rest)
  hold-IsAccounted s id rest e l h = record {
    chats = λ x.
        omega
          (arith, h.chats x, ap (count x) e, count-one x id rest, count-append x s.held (id ∷ []));
    numbers = omega (arith, h.numbers, ap length e, length-append s.held (id ∷ []));
    outcomes = h.outcomes;
    blocked = h.blocked;
    workers = omega (arith, length-append s.held (id ∷ []));
    reported = h.reported;
    coherent = h.coherent;
  }

  give_up-IsAccounted :
      (s : Broadcasting)
      → IsAccounted concurrency chat_ids s
      → IsAccounted concurrency chat_ids (record s { unfed = []; dropped = s.dropped ++ s.unfed })
  give_up-IsAccounted s h = record {
    chats = λ x. omega (arith, h.chats x, count-append x s.dropped s.unfed, count-nil x);
    numbers = omega (arith, h.numbers, length-append s.dropped s.unfed);
    outcomes = h.outcomes;
    blocked = h.blocked;
    workers = h.workers;
    reported = h.reported;
    coherent = h.coherent;
  }

  finish-IsAccounted :
      (s : Broadcasting) (before behind : List ℕ) (id : ℕ) (a : Answers)
      → s.held ≡ before ++ id ∷ behind
      → IsAccounted concurrency chat_ids s
      → IsAccounted concurrency chat_ids (finish (length chat_ids) s before id behind a)
  unfolding finish progress_of
  finish-IsAccounted s before behind id a e h =
      let n = resolve_numbers id (send_one a).0 s.result h.blocked in
      let held = ap length e in
      record {
        chats = λ x. omega (
          arith,
          h.chats x,
          ap (count x) e,
          count-append x before (id ∷ behind),
          count-append x before behind,
          count-one x id behind,
          count-append x s.resolved (id ∷ []),
        );
        numbers = omega (
          arith,
          h.numbers,
          held,
          length-append before (id ∷ behind),
          length-append before behind,
          length-append s.resolved (id ∷ []),
        );
        outcomes = omega (arith, n.0, h.outcomes, length-append s.resolved (id ∷ []));
        blocked = n.1;
        workers = omega (
          arith,
          h.workers,
          held,
          length-append before (id ∷ behind),
          length-append before behind,
        );
        reported = omega (
          arith,
          h.reported,
          length-append s.resolved (id ∷ []),
          length-append s.progress
              (progress_of (length chat_ids) (resolve id (send_one a).0 s.result) ∷ []),
        );
        coherent = All-append _ s.progress _ h.coherent (
          (
            refl,
            omega (arith, n.0, h.outcomes, h.numbers, held, length-append before (id ∷ behind)),
            n.1,
          ),
          tt,
        );
      }

  Move-IsAccounted :
      (s t : Broadcasting)
      → Move concurrency (length chat_ids) s t
      → IsAccounted concurrency chat_ids s
      → IsAccounted concurrency chat_ids t
  Move-IsAccounted s t (feed _ id rest e l) h = hold-IsAccounted s id rest e l h
  Move-IsAccounted s t (complete _ before behind id a e) h =
      finish-IsAccounted s before behind id a e h
  Move-IsAccounted s t (give_up _) h = give_up-IsAccounted s h

  Moves_from-IsAccounted :
      (s t : Broadcasting)
      → Moves concurrency (length chat_ids) s t
      → IsAccounted concurrency chat_ids s
      → IsAccounted concurrency chat_ids t
  Moves_from-IsAccounted s t (done _) h = h
  Moves_from-IsAccounted s r (step _ t _ before last) h =
      Move-IsAccounted t r last (Moves_from-IsAccounted s t before h)

-- Whatever the workers, the pacer and the send function do, in any interleaving and also when the
-- context is canceled: each chat of the list is resolved, held by a worker, still to be fed or given
-- up, exactly as often as the list has it; every resolved chat is counted once, as sent or as failed,
-- and reported once; at most `concurrency` chats are held at a time; no more chats are blocked than
-- failed; and the numbers of every report add up to the total.
pub Moves-IsAccounted :
    (concurrency : ℕ) (chat_ids : List ℕ) (s : Broadcasting)
    → Moves concurrency (length chat_ids) (begin chat_ids) s
    → IsAccounted concurrency chat_ids s
Moves-IsAccounted concurrency chat_ids s h =
    Moves_from-IsAccounted concurrency chat_ids (begin chat_ids) s h (record {
      chats = λ x. omega (arith, count-nil x);
      numbers = omega arith;
      outcomes = omega arith;
      blocked = omega arith;
      workers = omega arith;
      reported = refl;
      coherent = tt;
    })
