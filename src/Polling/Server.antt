-- ===== src/Polling/Server.antt =====
-- What the loop of Run (bot.go) relies on in getUpdates, by the documentation of the Bot API: updates
-- come in the order of their identifiers, and those below the offset are forgotten.
use golagram.Base.{
  ℕ, ◌+◌, ◌≤◌, ◌<◌, ◌≡◌, refl, sym, ◌∙◌, true, false, List, [], ◌∷◌, Option, some, inl, inr, leb,
  if◌then◌else◌, Bool-cases, take, arith,
}

module _ {ℓ} {U : Type ℓ} (update_id : U → ℕ) where
  -- The identifiers ascend.
  abbrev pub Ascending : List U → Type 0
  Ascending [] = Unit
  Ascending (u ∷ []) = Unit
  Ascending (u ∷ v ∷ us) = (update_id u < update_id v) × Ascending (v ∷ us)

  -- The updates of a stream from an offset on.
  unfoldable pub pending : ℕ → List U → List U
  pending offset [] = []
  pending offset (u ∷ us) = if leb offset (update_id u) then u ∷ us else pending offset us

  -- Each answer is a part of the stream that begins at the offset.
  pub record Serves (stream : List U) (get_updates : ℕ → ℕ → Option (List U)) : Type ℓ where
    pub in_order :
        (t offset : ℕ) (us : List U)
        → get_updates t offset ≡ some us
        → (n : ℕ) × (us ≡ take n (pending offset stream))

  pending-all :
      (offset : ℕ) (u : U) (us : List U) → offset ≤ update_id u → pending offset (u ∷ us) ≡ u ∷ us
  unfolding pending
  pending-all offset u us h = let e : leb offset (update_id u) ≡ true = ground arith in rw e refl

  pending-next : (u : U) (us : List U) → Ascending (u ∷ us) → pending (update_id u + 1) us ≡ us
  unfolding pending
  pending-next u [] a = refl
  pending-next u (v ∷ us) a =
      let e : leb (update_id u + 1) (update_id v) ≡ true = ground (arith, a.0) in rw e refl

  Ascending-tail : (u : U) (us : List U) → Ascending (u ∷ us) → Ascending us
  Ascending-tail u [] a = tt
  Ascending-tail u (v ∷ us) a = a.1

  pending-head :
      (stream : List U) (offset : ℕ) (u : U) (us : List U)
      → pending offset stream ≡ u ∷ us
      → offset ≤ update_id u
  unfolding pending
  pending-head [] offset u us h = cc
  pending-head (v ∷ vs) offset u us h = elim (Bool-cases (leb offset (update_id v))) [
    | inl e ↦
        let same : v ≡ u = (let k : v ∷ vs ≡ u ∷ us = rw e at h in cc) in
        rw same at (let l : offset ≤ update_id v = ground arith in l)
    | inr e ↦ pending-head vs offset u us (rw e at h)
  ]

  -- Asking behind the first update that is pending leaves the others pending.
  pub pending-skip :
      (stream : List U) (offset : ℕ) (u : U) (us : List U)
      → Ascending stream
      → pending offset stream ≡ u ∷ us
      → pending (update_id u + 1) stream ≡ us
  unfolding pending
  pending-skip [] offset u us a h = cc
  pending-skip (v ∷ vs) offset u us a h = elim (Bool-cases (leb offset (update_id v))) [
    | inl e ↦
        let k : v ∷ vs ≡ u ∷ us = rw e at h in
        let same : v ≡ u = cc in
        let rest : vs ≡ us = cc in
        let f : leb (update_id u + 1) (update_id v) ≡ false = rw (sym same) (ground arith) in
        rw f ((rw same at (pending-next v vs a)) ∙ rest)
    | inr e ↦
        let above = pending-head vs offset u us (rw e at h) in
        let f : leb (update_id u + 1) (update_id v) ≡ false = ground arith in
        rw f (pending-skip vs offset u us (Ascending-tail v vs a) (rw e at h))
  ]
