-- ===== src/Base64/RoundTrip.antt =====
-- Decoding what was encoded gives the bytes back, and the encoding uses the URL alphabet.
use golagram.Base.{
  ℕ, ◌≡◌, ◌⊎◌, ◌∙◌, ap, ◌||◌, ◌+◌, ◌*◌, ◌/◌, ◌%◌, ◌≤◌, ◌<◌, refl, false, List, [], ◌∷◌, map, some,
  ◌==◌, All, arith, length,
}
use golagram.Base64.{char64, value64, sextets, encode, values, bytes_of, bytes_of_values, decode}

-- A to Z, a to z, 0 to 9, - and _.
abbrev pub IsUrlChar : ℕ → Type 0
IsUrlChar c =
    ((b'A' ≤ c) × (c ≤ b'Z'))
    ⊎ (((b'a' ≤ c) × (c ≤ b'z')) ⊎ (((b'0' ≤ c) × (c ≤ b'9')) ⊎ ((c ≡ b'-') ⊎ (c ≡ b'_'))))

abbrev pub IsUrlText : List ℕ → Type 0
IsUrlText = All IsUrlChar

abbrev Bytes : List ℕ → Type 0
Bytes = All (λ b. b < 256)

abbrev Sextets : List ℕ → Type 0
Sextets = All (λ v. v < 64)

char64-IsUrlChar : (v : ℕ) → v < 64 → IsUrlChar (char64 v)
unfolding char64
char64-IsUrlChar v h = ground arith

value64-char64 : (v : ℕ) → v < 64 → value64 (char64 v) ≡ some v
unfolding char64 value64
value64-char64 v h = ground arith

sextets-Sextets : (s : List ℕ) → Bytes s → Sextets (sextets s)
unfolding sextets
sextets-Sextets [] h = tt
sextets-Sextets (a ∷ []) h = (omega arith, (omega arith, tt))
sextets-Sextets (a ∷ b ∷ []) h = (omega arith, (omega arith, (omega arith, tt)))
sextets-Sextets (a ∷ b ∷ c ∷ s) (ha, (hb, (hc, hs))) =
    (omega arith, (omega arith, (omega arith, (omega arith, sextets-Sextets s hs))))

map-IsUrlText : (vs : List ℕ) → Sextets vs → IsUrlText (map char64 vs)
map-IsUrlText [] h = tt
map-IsUrlText (v ∷ vs) h = (char64-IsUrlChar v h.0, map-IsUrlText vs h.1)

pub encode-IsUrlText : (s : List ℕ) → Bytes s → IsUrlText (encode s)
unfolding encode
encode-IsUrlText s h = map-IsUrlText (sextets s) (sextets-Sextets s h)

char64_no_line_end : (v : ℕ) → v < 64 → ((char64 v == 10) || (char64 v == 13)) ≡ false
unfolding char64
char64_no_line_end v h = ground arith

values-map : (vs : List ℕ) → Sextets vs → values (map char64 vs) ≡ some vs
unfolding values
values-map [] h = refl
values-map (v ∷ vs) h = rw (char64_no_line_end v h.0, value64-char64 v h.0, values-map vs h.1) refl

first_byte : (a r : ℕ) → r < 16 → a / 4 * 4 + (a % 4 * 16 + r) / 16 ≡ a
first_byte a r h = omega arith

second_byte :
    (a b r : ℕ) → b < 256 → r < 4 → (a % 4 * 16 + b / 16) % 16 * 16 + (b % 16 * 4 + r) / 4 ≡ b
second_byte a b r h k = omega arith

third_byte : (b c : ℕ) → c < 256 → (b % 16 * 4 + c / 64) % 4 * 64 + c % 64 ≡ c
third_byte b c h = omega arith

bytes_of-sextets : (s : List ℕ) → Bytes s → bytes_of (sextets s) ≡ some s
unfolding bytes_of sextets
bytes_of-sextets [] h = refl
bytes_of-sextets (a ∷ []) h = ap (λ x. some (x ∷ [])) (omega arith)
bytes_of-sextets (a ∷ b ∷ []) (ha, (hb, _)) =
    λ i. some (first_byte a (b / 16) (omega arith) i ∷ last i ∷ [])
  where
    last : (a % 4 * 16 + b / 16) % 16 * 16 + b % 16 * 4 / 4 ≡ b
    last = omega arith
bytes_of-sextets (a ∷ b ∷ c ∷ s) (ha, (hb, (hc, hs))) =
    rw
      (
        bytes_of-sextets s hs,
        first_byte a (b / 16) (omega arith),
        second_byte a b (c / 64) hb (omega arith),
        third_byte b c hc,
      )
      refl

pub decode-encode : (s : List ℕ) → Bytes s → decode (encode s) ≡ some s
unfolding decode encode
decode-encode s h =
    ap bytes_of_values (values-map (sextets s) (sextets-Sextets s h)) ∙ bytes_of-sextets s h

-- Three bytes take four characters; one or two take one more than they are.
pub length-encode : (s : List ℕ) → length (encode s) ≡ (length s * 4 + 2) / 3
unfolding encode sextets
length-encode [] = omega arith
length-encode (a ∷ []) = omega arith
length-encode (a ∷ b ∷ []) = omega arith
length-encode (a ∷ b ∷ c ∷ s) = omega (arith, length-encode s)
