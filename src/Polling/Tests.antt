-- ===== src/Polling/Tests.antt =====
-- Run's loop against a server of four updates.
use golagram.Base.{
  ℕ, ◌≡◌, refl, List, [], ◌∷◌, ◌++◌, Option, none, some, All, take, if◌then◌else◌, ◌==◌, Bool-cases,
  inl, inr, sym, some_inj, none_ne_some, arith,
}
use golagram.Polling.{Moment, not_yet, after_queued, started, poll_loop}
use golagram.Polling.Server.{pending, Serves}
use golagram.Polling.Queued.{Confirmed, poll_loop-queued}

abbrev same : ℕ → ℕ
same n = n

abbrev updates : List ℕ
updates = 5 ∷ 6 ∷ 8 ∷ 9 ∷ []

-- Two updates at a time; the second poll fails.
abbrev two_each : ℕ → ℕ → Option (List ℕ)
unfolding pending
two_each t offset = if t == 1 then none else some (take 2 (pending same offset updates))

abbrev moments : List Moment
moments = not_yet ∷ not_yet ∷ after_queued 1 ∷ []

queued_three : (poll_loop same two_each 0 moments (started 0)).queue ≡ 5 ∷ 6 ∷ 8 ∷ []
unfolding poll_loop started two_each
queued_three = refl

abbrev two_each-Serves : Serves same updates two_each
unfolding two_each
two_each-Serves = record {
  in_order = λ t offset us h. elim (Bool-cases (t == 1)) [
    | inl e ↦ let wrong = rw e at h in absurd (none_ne_some wrong)
    | inr e ↦ let same_part = rw e at h in (2, sym (some_inj same_part))
  ];
}

poll_loop-queued_example :
    ((poll_loop same two_each 0 moments (started 0)).queue
        ++ pending same (poll_loop same two_each 0 moments (started 0)).offset updates
      ≡ pending same 0 updates)
    × All
        (Confirmed same updates
          (omega arith, (omega arith, (omega arith, tt)))
          0
          (poll_loop same two_each 0 moments (started 0)).queue)
        (poll_loop same two_each 0 moments (started 0)).asked
poll_loop-queued_example =
    poll_loop-queued same updates (omega arith, (omega arith, (omega arith, tt))) two_each
      two_each-Serves 0 moments
