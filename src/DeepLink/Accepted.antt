-- ===== src/DeepLink/Accepted.antt =====
-- Which payloads a deep link carries, and that the handler reads them back.
use golagram.Base.{
  ℕ, ◌≡◌, ◌≢◌, ◌↔◌, inr, ◌∙◌, ap, ◌≤◌, ◌<◌, refl, true, false, List, [], ◌∷◌, Option, none, some,
  All, arith, length,
}
use golagram.Base64.{encode, decode}
use golagram.Base64.RoundTrip.{IsUrlChar, IsUrlText, encode-IsUrlText, decode-encode, length-encode}
use golagram.DeepLink.{
  LinkError, encode_start_payload, strip_padding, drop_pad, decode_start_payload, check_characters,
  validate_start_payload, link_of, link_unless, deep_link,
}

-- Telegram's rule for a payload.
abbrev pub IsStartPayload : List ℕ → Type 0
IsStartPayload payload = (payload ≢ []) × ((length payload ≤ 64) × IsUrlText payload)

check_characters_iff : (payload : List ℕ) → (check_characters payload ≡ none) ↔ IsUrlText payload
unfolding check_characters
check_characters_iff [] = (λ h. tt, λ h. refl)
check_characters_iff (c ∷ payload) = ground (arith, check_characters_iff payload)

validate_start_payload_iff :
    (payload : List ℕ) → (validate_start_payload payload ≡ none) ↔ IsStartPayload payload
unfolding validate_start_payload
validate_start_payload_iff [] = (λ h. cc, λ h. absurd (h.0 refl))
validate_start_payload_iff (c ∷ payload) = ground (arith, check_characters_iff (c ∷ payload))

drop_pad-url : (c : ℕ) (s : List ℕ) → IsUrlChar c → drop_pad c s ≡ c ∷ s
drop_pad-url c [] h = ground arith
drop_pad-url c (d ∷ s) h = refl

strip_padding-IsUrlText : (s : List ℕ) → IsUrlText s → strip_padding s ≡ s
unfolding strip_padding
strip_padding-IsUrlText [] h = refl
strip_padding-IsUrlText (c ∷ s) h =
    ap (drop_pad c) (strip_padding-IsUrlText s h.1) ∙ drop_pad-url c s h.0

link_unless_iff :
    (o : Option LinkError) (link : List ℕ) → (link_unless o link ≡ inr link) ↔ (o ≡ none)
link_unless_iff none link = (λ h. refl, λ h. refl)
link_unless_iff (some e) link = (λ h. cc, λ h. cc)

deep_link-plain :
    (username param payload : List ℕ)
    → username ≢ []
    → (deep_link username param payload false ≡ inr (link_of username param payload))
      ↔ IsStartPayload payload
unfolding deep_link
deep_link-plain [] param payload h = absurd (h refl)
deep_link-plain (u ∷ username) param payload h =
    let link =
      link_unless_iff (validate_start_payload payload) (link_of (u ∷ username) param payload) in
    let valid = validate_start_payload_iff payload in
    (λ e. valid.0 (link.0 e), λ e. link.1 (valid.1 e))

deep_link-wrapped :
    (username param raw : List ℕ)
    → username ≢ []
    → (deep_link username param raw true ≡ inr (link_of username param (encode_start_payload raw)))
      ↔ IsStartPayload (encode_start_payload raw)
unfolding deep_link
deep_link-wrapped [] param raw h = absurd (h refl)
deep_link-wrapped (u ∷ username) param raw h =
    deep_link-plain (u ∷ username) param (encode_start_payload raw) h

encode-IsStartPayload :
    (raw : List ℕ)
    → All (λ b. b < 256) raw
    → IsStartPayload (encode_start_payload raw) ↔ ((raw ≢ []) × (length raw ≤ 48))
unfolding encode_start_payload encode
encode-IsStartPayload [] h = (λ e. absurd (e.0 refl), λ e. absurd (e.0 refl))
encode-IsStartPayload (b ∷ raw) h = (
  λ e. (cc, omega (arith, e.1, length-encode (b ∷ raw))),
  λ e. (
    λ n. encode-empty n,
    (omega (arith, e.1, length-encode (b ∷ raw)), encode-IsUrlText (b ∷ raw) h),
  ),
)
  where
    encode-empty : encode (b ∷ raw) ≡ [] → ⊥
    encode-empty n = omega (arith, ap length n, length-encode (b ∷ raw))

-- For a bot with a username: a link is made of a payload as it is exactly when Telegram takes the
-- payload, 1 to 64 characters of its alphabet; a link is made of an encoded text of bytes exactly
-- when it has 1 to 48 of them, and DecodeStartPayload reads the text back.
deep_link-decode_start_payload :
    (username param raw : List ℕ)
    → username ≢ []
    → All (λ b. b < 256) raw
    → ((deep_link username param raw false ≡ inr (link_of username param raw)) ↔ IsStartPayload raw)
      × (((deep_link username param raw true
              ≡ inr (link_of username param (encode_start_payload raw)))
            ↔ ((raw ≢ []) × (length raw ≤ 48)))
          × (decode_start_payload (encode_start_payload raw) ≡ some raw))
unfolding decode_start_payload encode_start_payload
deep_link-decode_start_payload username param raw named bytes =
    let wrapped = deep_link-wrapped username param raw named in
    let fits = encode-IsStartPayload raw bytes in
    (
      deep_link-plain username param raw named,
      (
        (λ e. fits.0 (wrapped.0 e), λ e. wrapped.1 (fits.1 e)),
        ap decode (strip_padding-IsUrlText (encode raw) (encode-IsUrlText raw bytes))
            ∙ decode-encode raw bytes,
      ),
    )
