-- ===== src/Api/Redacted.antt =====
-- Why no error of the client (internal/api/client.go) shows the bot's token.
use golagram.Base.{
  ℕ, zero, suc, ◌-◌, ◌≡◌, refl, Bool, true, false, ◌&&◌, ◌||◌, List, [], ◌∷◌, ◌++◌, ◌==◌,
  Bool-cases, inl, inr, length, codes, arith,
}
use golagram.Strings.{has_prefix, Lacks}
use golagram.Strconv.{is_digit}
use golagram.Api.{redact_from, sanitize_token}

-- strings.Contains(s, t)
unfoldable pub contains_text : List ℕ → List ℕ → Bool
unfolding has_prefix
contains_text [] t = has_prefix [] t
contains_text (c ∷ s) t = has_prefix (c ∷ s) t || contains_text s t

module _ (d : ℕ) (token : List ℕ) where
  -- What the redacted text begins with, the text began with, for a part without "<".
  has_prefix-redact_from :
      (s p : List ℕ)
      → Lacks b'<' p
      → has_prefix (redact_from (d ∷ token) 0 s) p ≡ true
      → has_prefix s p ≡ true
  unfolding redact_from has_prefix
  has_prefix-redact_from s [] l h = refl
  has_prefix-redact_from [] (q ∷ p) l h = h
  has_prefix-redact_from (c ∷ s) (q ∷ p) l h = elim (Bool-cases (has_prefix (c ∷ s) (d ∷ token))) [
    | inl e ↦
        let k : has_prefix (codes "<TOKEN>" ++ redact_from (d ∷ token) (length (d ∷ token) - 1) s)
              (q ∷ p)
            ≡ true =
          rw e at h in
        absurd (l.0 (ground arith))
    | inr e ↦
        let k : (c == q && has_prefix (redact_from (d ∷ token) 0 s) p) ≡ true = rw e at h in
        ground (arith, has_prefix-redact_from s p l.1)
  ]

  -- A text that begins with no digit does not begin with a token that does.
  not_prefix :
      (c : ℕ) (s : List ℕ)
      → is_digit d ≡ true
      → is_digit c ≡ false
      → has_prefix (c ∷ s) (d ∷ token) ≡ false
  unfolding has_prefix
  not_prefix c s h k = elim (Bool-cases (c == d)) [
    | inl e ↦
        let same : c ≡ d = ground arith in absurd (let wrong : is_digit c ≡ true = rw same h in cc)
    | inr e ↦ rw e refl
  ]

  contains_text-other :
      (c : ℕ) (s : List ℕ)
      → is_digit d ≡ true
      → is_digit c ≡ false
      → contains_text s (d ∷ token) ≡ false
      → contains_text (c ∷ s) (d ∷ token) ≡ false
  unfolding contains_text
  contains_text-other c s h k f = rw (not_prefix c s h k, f) refl

  contains_text-mark :
      (s : List ℕ)
      → is_digit d ≡ true
      → contains_text s (d ∷ token) ≡ false
      → contains_text (codes "<TOKEN>" ++ s) (d ∷ token) ≡ false
  contains_text-mark s h f = contains_text-other b'<' _ h refl (
      contains_text-other b'T' _ h refl (
        contains_text-other b'O' _ h refl (
          contains_text-other b'K' _ h refl (
            contains_text-other b'E' _ h refl
              (contains_text-other b'N' _ h refl (contains_text-other b'>' s h refl f))))))

  no_prefix :
      (c : ℕ) (s : List ℕ)
      → Lacks b'<' (d ∷ token)
      → has_prefix (c ∷ s) (d ∷ token) ≡ false
      → has_prefix (c ∷ redact_from (d ∷ token) 0 s) (d ∷ token) ≡ false
  unfolding has_prefix
  no_prefix c s l h = ground (arith, has_prefix-redact_from s token l.1)

  contains_text-redact_from :
      (skip : ℕ) (s : List ℕ)
      → is_digit d ≡ true
      → Lacks b'<' (d ∷ token)
      → contains_text (redact_from (d ∷ token) skip s) (d ∷ token) ≡ false
  unfolding contains_text redact_from has_prefix
  contains_text-redact_from skip [] h l = refl
  contains_text-redact_from (suc skip) (c ∷ s) h l = contains_text-redact_from skip s h l
  contains_text-redact_from zero (c ∷ s) h l = elim (Bool-cases (has_prefix (c ∷ s) (d ∷ token))) [
    | inl e ↦
        rw e (contains_text-mark _ h (contains_text-redact_from (length (d ∷ token) - 1) s h l))
    | inr e ↦ rw (e, no_prefix c s l e) (contains_text-redact_from zero s h l)
  ]

-- A token begins with a digit, and "<" is no character of it, as in every token that ValidateToken
-- accepts. Then the URL of an error, as the client reports it, does not contain the token, wherever
-- and however often the URL had it.
pub sanitize_token-contains_text :
    (d : ℕ) (token url : List ℕ)
    → is_digit d ≡ true
    → Lacks b'<' (d ∷ token)
    → contains_text (sanitize_token (d ∷ token) url) (d ∷ token) ≡ false
unfolding sanitize_token
sanitize_token-contains_text d token url h l = contains_text-redact_from d token 0 url h l
