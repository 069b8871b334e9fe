-- ===== src/CallbackData/Tags.antt =====
-- The HMAC tag behind a payload: what verifies, and that a tag which was appended does.
use golagram.Base.{
  ℕ, ◌≡◌, ◌≢◌, ◌∙◌, inl, inr, ap, sym, ◌<◌, refl, true, false, List, [], ◌∷◌, ◌++◌, Option, none,
  some, ◌==◌, ==_iff, All, arith, length, take, All-take, length-take, text_eq_iff, Bool-cases,
  some_inj, none_ne_some,
}
use golagram.Strings.{Lacks}
use golagram.Base64.{decode}
use golagram.Base64.RoundTrip.{IsUrlText, encode-IsUrlText, decode-encode}
use golagram.CallbackData.{
  last_cut, cut_behind, tag_of, hmac_tag, signed_with, tag_matches, untagged, verified,
}

last_cut-Lacks : (s : List ℕ) → Lacks b':' s → last_cut s ≡ none
unfolding last_cut
last_cut-Lacks [] h = refl
last_cut-Lacks (c ∷ s) h = rw (last_cut-Lacks s h.1) (ground (arith, h.0))

last_cut-append : (p t : List ℕ) → Lacks b':' t → last_cut (p ++ b':' ∷ t) ≡ some (p, t)
unfolding last_cut
last_cut-append [] t h = rw (last_cut-Lacks t h) refl
last_cut-append (c ∷ p) t h = rw (last_cut-append p t h) refl

true_ne_false : true ≢ false
true_ne_false h = cc

-- A cut at the last separator, or that there is none.
abbrev CutOf : List ℕ → Option (List ℕ × List ℕ) → Type 0
CutOf s none = Lacks b':' s
CutOf s (some (p, t)) = (s ≡ p ++ b':' ∷ t) × Lacks b':' t

cut_behind-CutOf :
    (c : ℕ) (s : List ℕ) (o : Option (List ℕ × List ℕ))
    → CutOf s o
    → CutOf (c ∷ s) (cut_behind c s o)
cut_behind-CutOf c s none h = elim (Bool-cases (c == b':')) [
  | inl e ↦ rw e (ap (λ d. d ∷ s) ((==_iff c b':').0 e), h)
  | inr e ↦ rw e ((λ d. absurd (true_ne_false (sym ((==_iff c b':').1 d) ∙ e))), h)
]
cut_behind-CutOf c s (some (p, t)) h = (ap (λ r. c ∷ r) h.0, h.1)

last_cut-CutOf : (s : List ℕ) → CutOf s (last_cut s)
unfolding last_cut
last_cut-CutOf [] = tt
last_cut-CutOf (c ∷ s) = cut_behind-CutOf c s (last_cut s) (last_cut-CutOf s)

IsUrlText-Lacks : (s : List ℕ) → IsUrlText s → Lacks b':' s
IsUrlText-Lacks [] h = tt
IsUrlText-Lacks (c ∷ s) h = (ground (arith, h.0), IsUrlText-Lacks s h.1)

module _ (mac : List ℕ → List ℕ → List ℕ) (format_float : ℕ → List ℕ)
    (parse_float : List ℕ → Option ℕ) where
  tag_matches_sound :
      (secret payload : List ℕ) (o : Option (List ℕ))
      → tag_matches mac format_float parse_float secret payload o ≡ true
      → o ≡ some (tag_of mac format_float parse_float secret payload)
  tag_matches_sound secret payload none h = cc
  tag_matches_sound secret payload (some want) h =
      let same = text_eq_iff (tag_of mac format_float parse_float secret payload) want in
      ground (arith, same)

  -- The payload that Unpack reads under a secret stands before its own tag, and that tag is the
  -- encoding of its MAC's first bytes.
  untagged_sound :
      (secret text payload : List ℕ) (o : Option (List ℕ × List ℕ))
      → CutOf text o
      → untagged mac format_float parse_float secret o ≡ some payload
      → (tag : List ℕ) × ((text ≡ payload ++ b':' ∷ tag)
          × (decode tag ≡ some (tag_of mac format_float parse_float secret payload)))
  untagged_sound secret text payload none c h = cc
  untagged_sound secret text payload (some (p, t)) c h =
      elim (Bool-cases (tag_matches mac format_float parse_float secret p (decode t))) [
        | inl e ↦ matching secret text payload p t c e (some_inj (rw e at h))
        | inr e ↦ absurd (none_ne_some (rw e at h))
      ]
    where
      matching :
          (secret text payload p t : List ℕ)
          → CutOf text (some (p, t))
          → tag_matches mac format_float parse_float secret p (decode t) ≡ true
          → p ≡ payload
          → (tag : List ℕ) × ((text ≡ payload ++ b':' ∷ tag)
              × (decode tag ≡ some (tag_of mac format_float parse_float secret payload)))
      matching secret text payload p t c e same = (
        t,
        (
          c.0 ∙ ap (λ q. q ++ b':' ∷ t) same,
          tag_matches_sound secret p (decode t) e
              ∙ ap (λ q. some (tag_of mac format_float parse_float secret q)) same,
        ),
      )

  -- What verifies under a secret is the data up to a tag, which decodes to the payload's own.
  pub verified_sound :
      (secret text payload : List ℕ)
      → verified mac format_float parse_float (some secret) text ≡ some payload
      → (tag : List ℕ) × ((text ≡ payload ++ b':' ∷ tag)
          × (decode tag ≡ some (tag_of mac format_float parse_float secret payload)))
  unfolding verified
  verified_sound secret text payload h =
      untagged_sound secret text payload (last_cut text) (last_cut-CutOf text) h

module _ (mac : List ℕ → List ℕ → List ℕ) (format_float : ℕ → List ℕ)
    (parse_float : List ℕ → Option ℕ)
    (mac_bytes : (secret payload : List ℕ) → All (λ b. b < 256) (mac secret payload))
    (mac_length : (secret payload : List ℕ) → length (mac secret payload) ≡ 32) where
  tag_matches-encode :
      (secret packed : List ℕ)
      → tag_matches mac format_float parse_float secret packed
          (decode (hmac_tag mac format_float parse_float secret packed))
        ≡ true
  unfolding hmac_tag tag_of
  tag_matches-encode secret packed =
      rw
        (
          decode-encode (take 8 (mac secret packed))
              (All-take (λ b. b < 256) 8 (mac secret packed) (mac_bytes secret packed)),
          length-take 8 (mac secret packed),
          mac_length secret packed,
          (text_eq_iff (take 8 (mac secret packed)) (take 8 (mac secret packed))).1 refl,
        )
        refl

  tag-Lacks :
      (secret packed : List ℕ) → Lacks b':' (hmac_tag mac format_float parse_float secret packed)
  unfolding hmac_tag tag_of
  tag-Lacks secret packed = IsUrlText-Lacks _ (
      encode-IsUrlText (take 8 (mac secret packed))
        (All-take (λ b. b < 256) 8 (mac secret packed) (mac_bytes secret packed)))

  -- What stands before a tag that was appended verifies.
  pub verified-signed_with :
      (o : Option (List ℕ)) (packed : List ℕ)
      → verified mac format_float parse_float o (signed_with mac format_float parse_float o packed)
        ≡ some packed
  unfolding verified
  verified-signed_with none packed = refl
  verified-signed_with (some secret) packed =
      ap (untagged mac format_float parse_float secret) (
        last_cut-append packed (hmac_tag mac format_float parse_float secret packed)
          (tag-Lacks secret packed))
      ∙ rw (tag_matches-encode secret packed) refl
