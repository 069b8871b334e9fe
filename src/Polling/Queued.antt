-- ===== src/Polling/Queued.antt =====
-- What the loop of Run (bot.go) queues and confirms.
use golagram.Base.{
  ℕ, zero, suc, ◌+◌, ◌≡◌, refl, sym, ap, ◌∙◌, Bool, true, false, List, [], ◌∷◌, ◌++◌, append_assoc,
  append-nil, Option, none, some, inl, inr, All, All-append, if◌then◌else◌, Option-cases, take,
}
use golagram.Polling.{
  Moment, not_yet, before_poll, during_poll, during_wait, after_queued, Loop, room, started,
  after_failure, enqueue, handle_answer, poll_round, poll_loop,
}
use golagram.Polling.Server.{Ascending, pending, Serves, pending-skip}

take-cons {ℓ} :
    {A : Type ℓ} (x : A) (xs : List A) (n : ℕ) (ys : List A)
    → x ∷ xs ≡ take n ys
    → (m : ℕ) × (rest : List A) × (ys ≡ x ∷ rest) × (xs ≡ take m rest)
take-cons x xs zero ys h = absurd (cc)
take-cons x xs (suc n) [] h = absurd (cc)
take-cons x xs (suc n) (y ∷ ys) h = let same : y ≡ x = cc in (n, ys, ap (λ t. t ∷ ys) same, cc)

module _ {ℓ} {U : Type ℓ} (update_id : U → ℕ) (stream : List U)
    (ascending : Ascending update_id stream) where
  -- What stands in the channel and what the server still holds are the updates from `first` on.
  abbrev Kept : ℕ → Loop U → Type ℓ
  Kept first l = l.queue ++ pending update_id l.offset stream ≡ pending update_id first stream

  -- The updates that asking for an offset confirms stand at the front of the queue.
  abbrev pub Confirmed : ℕ → List U → ℕ → Type ℓ
  Confirmed first queue offset =
      (old new : List U) × (queue ≡ old ++ new)
      × (old ++ pending update_id offset stream ≡ pending update_id first stream)

  record Polled (first : ℕ) (l : Loop U) : Type ℓ where
    kept : Kept first l
    confirmed : All (Confirmed first l.queue) l.asked

  Confirmed-more :
      (first : ℕ) (queue more : List U) (offsets : List ℕ)
      → All (Confirmed first queue) offsets
      → All (Confirmed first (queue ++ more)) offsets
  Confirmed-more first queue more [] h = tt
  Confirmed-more first queue more (o ∷ offsets) h = (
    (h.0.0, h.0.1 ++ more, ap (λ t. t ++ more) h.0.2 ∙ append_assoc h.0.0 h.0.1 more, h.0.3),
    Confirmed-more first queue more offsets h.1,
  )

  -- Queueing the first update that is pending.
  queue_one :
      (first : ℕ) (u : U) (rest : List U) (l : Loop U)
      → pending update_id l.offset stream ≡ u ∷ rest
      → Polled first l
      → Polled first (record l { queue = l.queue ++ u ∷ []; offset = update_id u + 1 })
  queue_one first u rest l h p = record {
    kept =
        append_assoc l.queue (u ∷ []) _
        ∙ ap (λ t. l.queue ++ u ∷ t) (pending-skip update_id stream l.offset u rest ascending h)
        ∙ ap (λ t. l.queue ++ t) (sym h)
        ∙ p.kept;
    confirmed = Confirmed-more first l.queue (u ∷ []) l.asked p.confirmed;
  }

  enqueue-Polled :
      (first : ℕ) (us : List U) (n : ℕ) (limit : Option ℕ) (l : Loop U)
      → us ≡ take n (pending update_id l.offset stream)
      → Polled first l
      → Polled first (enqueue update_id us limit l)
  unfolding enqueue
  enqueue-Polled first [] n limit l h p = p
  enqueue-Polled first (u ∷ us) n (some zero) l h p = record {
    kept = p.kept;
    confirmed = p.confirmed;
  }
  enqueue-Polled first (u ∷ us) n (some (suc m)) l h p =
      let c = take-cons u us n _ h in
      let next = pending-skip update_id stream l.offset u c.1 ascending c.2 in
      enqueue-Polled first us c.0 (some m) _ (c.3 ∙ ap (take c.0) (sym next))
        (queue_one first u c.1 l c.2 p)
  enqueue-Polled first (u ∷ us) n none l h p =
      let c = take-cons u us n _ h in
      let next = pending-skip update_id stream l.offset u c.1 ascending c.2 in
      enqueue-Polled first us c.0 none _ (c.3 ∙ ap (take c.0) (sym next))
        (queue_one first u c.1 l c.2 p)

  started-Polled : (first : ℕ) → Polled first (started first)
  unfolding started
  started-Polled first = record { kept = refl; confirmed = tt }

  module _ (get_updates : ℕ → ℕ → Option (List U))
      (serves : Serves update_id stream get_updates) where
    asked-Polled :
        (first : ℕ) (l : Loop U)
        → Polled first l
        → Polled first (record l { asked = l.asked ++ l.offset ∷ [] })
    asked-Polled first l p = record {
      kept = p.kept;
      confirmed =
          All-append _ l.asked (l.offset ∷ []) p.confirmed
            ((l.queue, [], sym (append-nil l.queue), p.kept), tt);
    }

    after_failure-Polled :
        (first : ℕ) (m : Moment) (l : Loop U) → Polled first l → Polled first (after_failure m l)
    unfolding after_failure
    after_failure-Polled first during_poll l p = record { kept = p.kept; confirmed = p.confirmed }
    after_failure-Polled first not_yet l p = record { kept = p.kept; confirmed = p.confirmed }
    after_failure-Polled first before_poll l p = record { kept = p.kept; confirmed = p.confirmed }
    after_failure-Polled first during_wait l p = record { kept = p.kept; confirmed = p.confirmed }
    after_failure-Polled first (after_queued n) l p = record {
      kept = p.kept;
      confirmed = p.confirmed;
    }

    answer-Polled :
        (first t : ℕ) (m : Moment) (l : Loop U)
        → Polled first l
        → Polled first (
            handle_answer update_id
              (get_updates t l.offset)
              m
              (record l { asked = l.asked ++ l.offset ∷ [] }))
    unfolding handle_answer
    answer-Polled first t m l p = elim (Option-cases (get_updates t l.offset)) [
      | inl e ↦ rw e (after_failure-Polled first m _ (asked-Polled first l p))
      | inr e ↦
          let s = serves.in_order t l.offset e.0 e.1 in
          let a = asked-Polled first l p in
          rw (e.1) (
            enqueue-Polled first e.0 s.0 (room m) _ s.1
              (record { kept = a.kept; confirmed = a.confirmed }))
    ]

    poll_round-Polled :
        (first t : ℕ) (m : Moment) (l : Loop U)
        → Polled first l
        → Polled first (poll_round update_id get_updates t m l)
    unfolding poll_round
    poll_round-Polled first t before_poll l p = record { kept = p.kept; confirmed = p.confirmed }
    poll_round-Polled first t not_yet l p = answer-Polled first t not_yet l p
    poll_round-Polled first t during_poll l p = answer-Polled first t during_poll l p
    poll_round-Polled first t during_wait l p = answer-Polled first t during_wait l p
    poll_round-Polled first t (after_queued n) l p = answer-Polled first t (after_queued n) l p

    Polled-either :
        (first : ℕ) (b : Bool) (l r : Loop U)
        → Polled first l
        → Polled first r
        → Polled first (if b then l else r)
    Polled-either first true l r p q = p
    Polled-either first false l r p q = q

    poll_loop-Polled :
        (first t : ℕ) (ms : List Moment) (l : Loop U)
        → Polled first l
        → Polled first (poll_loop update_id get_updates t ms l)
    unfolding poll_loop
    poll_loop-Polled first t [] l p = p
    poll_loop-Polled first t (m ∷ ms) l p =
        Polled-either first l.stopped l _ p
          (poll_loop-Polled first (suc t) ms _ (poll_round-Polled first t m l p))

    -- The server's updates have ascending identifiers, and each answer of getUpdates that succeeds is
    -- some of them, from the first at the offset on, without a gap. Then after any rounds of Run's
    -- loop, with failures of getUpdates and whenever the context is canceled, also while an answer is
    -- being queued: what was sent to the channel, followed by what a next call would get, is exactly
    -- the updates from the first offset on, so that none is lost, repeated or out of order; and each
    -- offset that getUpdates was asked for confirms only updates that stood in the channel before.
    pub poll_loop-queued :
        (first : ℕ) (ms : List Moment)
        → ((poll_loop update_id get_updates 0 ms (started first)).queue
              ++ pending update_id
                  (poll_loop update_id get_updates 0 ms (started first)).offset
                  stream
            ≡ pending update_id first stream)
          × All
              (Confirmed first (poll_loop update_id get_updates 0 ms (started first)).queue)
              (poll_loop update_id get_updates 0 ms (started first)).asked
    poll_loop-queued first ms =
        let p = poll_loop-Polled first 0 ms (started first) (started-Polled first) in
        (p.kept, p.confirmed)
