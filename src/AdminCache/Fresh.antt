-- ===== src/AdminCache/Fresh.antt =====
-- An answer of the filter is never older than the ttl, and a failure never makes an administrator.
use golagram.Base.{
  ℕ, ◌≡◌, ◌≤◌, ◌+◌, refl, ap, List, [], ◌∷◌, Bool, true, false, Option, some, none, if◌then◌else◌,
  ltb, All, arith, Bool-cases, inl, inr, sym, ◌∙◌, some_inj, none_ne_some,
}
use mathlib.Core.Path.{subst}
use golagram.Base.Assoc.{lookup, insert, retain}
use golagram.AdminCache.{
  AdminKey, admin_key, admin_key_beq, admin_key_beq_iff, AdminCacheEntry, AdminEntries, evict_stale,
  unexpired, cache_get, cache_set, remember, ask_bot, answer_from, filter_is_admin,
}

-- The filter on an update, or a sweep.
pub data CacheCall : Type 0 where
  check : Option AdminKey → CacheCall
  sweep : CacheCall

module _ (member : ℕ → AdminKey → Option Bool) (ttl : ℕ) where
  -- GetChatMember gave the answer for the key at a time up to now, and at most the ttl before it.
  abbrev pub Told : ℕ → AdminKey → Bool → Type 0
  Told now key answer = (t : ℕ) × ((member t key ≡ some answer) × ((t ≤ now) × (now ≤ t + ttl)))

  -- An entry holds an answer of a time up to now, and expires the ttl after it.
  abbrev pub IsSound : ℕ → AdminKey × AdminCacheEntry → Type 0
  IsSound now e =
      (t : ℕ) × ((member t e.0 ≡ some e.1.is_admin) × ((t ≤ now) × (e.1.expires_at ≡ t + ttl)))

  All-later : (now d : ℕ) (m : AdminEntries) → All (IsSound now) m → All (IsSound (now + d)) m
  All-later now d [] h = tt
  All-later now d (e ∷ m) ((t, (a, (b, c))), h) = ((t, (a, (omega arith, c))), All-later now d m h)

  All-retain :
      (now : ℕ) (keep : AdminCacheEntry → Bool) (m : AdminEntries)
      → All (IsSound now) m
      → All (IsSound now) (retain keep m)
  unfolding retain
  All-retain now keep [] h = tt
  All-retain now keep ((k, e) ∷ m) h = elim (Bool-cases (keep e)) [
    | inl q ↦ rw q (h.0, All-retain now keep m h.1)
    | inr q ↦ rw q (All-retain now keep m h.1)
  ]

  All-insert :
      (now : ℕ) (key : AdminKey) (v : AdminCacheEntry) (m : AdminEntries)
      → IsSound now (key, v)
      → All (IsSound now) m
      → All (IsSound now) (insert key v m)
  unfolding insert
  All-insert now key v [] new h = (new, tt)
  All-insert now key v ((j, w) ∷ m) new h = elim (Bool-cases (admin_key_beq j key)) [
    | inl q ↦ (let e : j ≡ key = (admin_key_beq_iff j key).0 q in rw q ((rw e new), h.1))
    | inr q ↦ rw q (h.0, All-insert now key v m new h.1)
  ]

  All-lookup :
      (now : ℕ) (key : AdminKey) (v : AdminCacheEntry) (m : AdminEntries)
      → All (IsSound now) m
      → lookup key m ≡ some v
      → IsSound now (key, v)
  unfolding lookup
  All-lookup now key v [] h e = cc
  All-lookup now key v ((j, w) ∷ m) h e = elim (Bool-cases (admin_key_beq j key)) [
    | inl q ↦
        (let same : j ≡ key = (admin_key_beq_iff j key).0 q in
          let found : some w ≡ some v = sym (ap (λ b. if b then some w else lookup key m) q) ∙ e in
          subst (λ x. IsSound now (x, v)) same
            (subst (λ x. IsSound now (j, x)) (some_inj found) h.0))
    | inr q ↦ All-lookup now key v m h.1 (sym (ap (λ b. if b then some w else lookup key m) q) ∙ e)
  ]

  unexpired-Told :
      (now : ℕ) (key : AdminKey) (answer : Bool) (o : Option AdminCacheEntry)
      → ((v : AdminCacheEntry) → o ≡ some v → IsSound now (key, v))
      → unexpired now o ≡ some answer
      → Told now key answer
  unfolding unexpired
  unexpired-Told now key answer none sound e = cc
  unexpired-Told now key answer (some v) sound e = elim (Bool-cases (ltb v.expires_at now)) [
    | inl q ↦ absurd (none_ne_some (sym (ap (λ b. if b then none else some v.is_admin) q) ∙ e))
    | inr q ↦
        (let (t, (told, (before, expiry))) = sound v refl in
          let same : v.is_admin ≡ answer =
            some_inj (sym (ap (λ b. if b then none else some v.is_admin) q) ∙ e) in
          (t, (told ∙ ap some same, (before, ground arith))))
  ]

  -- What one call of the filter gives.
  IsTold : ℕ → AdminKey → Bool × AdminEntries → Type 0
  IsTold now key r = ((r.0 ≡ true) → Told now key true) × All (IsSound now) r.1

  remember-IsTold :
      (now : ℕ) (key : AdminKey) (o : Option Bool) (m : AdminEntries)
      → member now key ≡ o
      → All (IsSound now) m
      → IsTold now key (remember key o ttl now m)
  unfolding remember cache_set IsTold
  remember-IsTold now key none m e h = (λ q. cc, h)
  remember-IsTold now key (some b) m e h = (
    λ q. (now, (e ∙ ap some q, (omega arith, omega arith))),
    All-insert now key _ m (now, (e, (omega arith, refl))) h,
  )

  answer_from-IsTold :
      (now : ℕ) (key : AdminKey) (o : Option Bool) (m : AdminEntries)
      → cache_get key now m ≡ o
      → All (IsSound now) m
      → IsTold now key (answer_from o (some member) key ttl now m)
  unfolding answer_from ask_bot
  answer_from-IsTold now key none m e h = remember-IsTold now key (member now key) m refl h
  answer_from-IsTold now key (some b) m e h =
      unfold IsTold cache_get in
      (
        λ q.
            unexpired-Told now key true (lookup key m) (λ v f. All-lookup now key v m h f)
              (e ∙ ap some q),
        h,
      )

  -- The answers of a sequence of calls, each with the time since the call before it.
  unfoldable pub answers :
      ℕ → List (ℕ × CacheCall) → AdminEntries → List (ℕ × (Option AdminKey × Bool))
  answers clock [] m = []
  answers clock ((d, sweep) ∷ calls) m = answers (clock + d) calls (evict_stale (clock + d) m)
  answers clock ((d, check key) ∷ calls) m =
      let (b, m') = filter_is_admin (some member) key ttl (clock + d) m in
      (clock + d, (key, b)) ∷ answers (clock + d) calls m'

  -- An answer is negative, or was told for the update's own chat and sender.
  abbrev pub IsJustified : ℕ × (Option AdminKey × Bool) → Type 0
  IsJustified (now, (none, b)) = b ≡ false
  IsJustified (now, (some key, b)) = (b ≡ true) → Told now key true

  answers_sound :
      (clock : ℕ) (calls : List (ℕ × CacheCall)) (m : AdminEntries)
      → All (IsSound clock) m
      → All IsJustified (answers clock calls m)
  unfolding answers filter_is_admin IsTold
  answers_sound clock [] m h = tt
  answers_sound clock ((d, sweep) ∷ calls) m h =
      answers_sound (clock + d) calls (evict_stale (clock + d) m)
        (unfold evict_stale in All-retain (clock + d) _ m (All-later clock d m h))
  answers_sound clock ((d, check none) ∷ calls) m h =
      (refl, answers_sound (clock + d) calls m (All-later clock d m h))
  answers_sound clock ((d, check (some key)) ∷ calls) m h =
      let told =
        answer_from-IsTold (clock + d) key (cache_get key (clock + d) m) m refl
          (All-later clock d m h) in
      (told.0, answers_sound (clock + d) calls _ told.1)

  -- For every sequence of filter calls and sweeps on a new cache, at times that do not go back: the
  -- filter answers yes only where GetChatMember said, for the chat and the sender of the update and
  -- at most the ttl ago, that the sender is an administrator; an update without them gets a no.
  pub answers-IsJustified :
      (clock : ℕ) (calls : List (ℕ × CacheCall)) → All IsJustified (answers clock calls [])
  answers-IsJustified clock calls = answers_sound clock calls [] tt
