-- ===== src/Utf16/Laws.antt =====
-- How encoding and decoding of UTF-16 go together, and which cuts keep characters whole.
use golagram.Base.{
  ℕ, zero, suc, ◌+◌, ◌-◌, ◌/◌, ◌%◌, ◌<◌, ◌≡◌, ◌≢◌, refl, ap, ◌∙◌, Bool, true, false, ◌&&◌, List, [],
  ◌∷◌, ◌++◌, ltb, Bool-cases, All, All-append, inl, inr, length, get_or, length-append, arith,
}
use golagram.Utf16.{
  is_high_surrogate, is_low_surrogate, is_scalar, encode_rune, encode, decode, decode_unit,
  decode_pair, replacement,
}

-- The last unit is a high surrogate.
abbrev pub ends_high : List ℕ → Bool
ends_high [] = false
ends_high (c ∷ []) = is_high_surrogate c
ends_high (c ∷ d ∷ s) = ends_high (d ∷ s)

ends_high-tail : (c : ℕ) (s : List ℕ) → ends_high (c ∷ s) ≡ false → ends_high s ≡ false
ends_high-tail c [] h = refl
ends_high-tail c (d ∷ s) h = h

-- A cut that is not behind a high surrogate keeps every character whole.
pub decode-append : (a b : List ℕ) → ends_high a ≡ false → decode (a ++ b) ≡ decode a ++ decode b
unfolding decode
decode-append [] b h = refl
decode-append (c ∷ []) [] h = refl
decode-append (c ∷ []) (d ∷ b) h = rw h
decode-append (c ∷ d ∷ a) b h = elim (Bool-cases (is_high_surrogate c && is_low_surrogate d)) [
  | inl e ↦ rw (e, decode-append a b (ends_high-tail d a h))
  | inr e ↦ rw (e, decode-append (d ∷ a) b h)
]

-- Every high surrogate is followed by a low one.
abbrev pub Paired : List ℕ → Type 0
Paired [] = Unit
Paired (c ∷ []) = is_high_surrogate c ≡ false
Paired (c ∷ d ∷ s) = (is_high_surrogate c ≡ true → is_low_surrogate d ≡ true) × Paired (d ∷ s)

Paired-cons : (c : ℕ) (s : List ℕ) → is_high_surrogate c ≡ false → Paired s → Paired (c ∷ s)
Paired-cons c [] h p = h
Paired-cons c (d ∷ s) h p = (λ e. cc, p)

zero_not_high : is_high_surrogate 0 ≢ true
unfolding is_high_surrogate
zero_not_high h = cc

pub Paired-get_or :
    (u : List ℕ) (i : ℕ)
    → Paired u
    → is_high_surrogate (get_or u i 0) ≡ true
    → is_low_surrogate (get_or u (suc i) 0) ≡ true
Paired-get_or [] i p h = absurd (zero_not_high h)
Paired-get_or (c ∷ []) zero p h = cc
Paired-get_or (c ∷ []) (suc i) p h = absurd (zero_not_high h)
Paired-get_or (c ∷ d ∷ s) zero p h = p.0 h
Paired-get_or (c ∷ d ∷ s) (suc i) p h = Paired-get_or (d ∷ s) i p.1 h

-- A rune is written as one unit that is no high surrogate, or as a pair that decodes to it.
data Written (r : ℕ) : Type 0 where
  single :
      (c : ℕ)
      → encode_rune r ≡ c ∷ []
      → is_high_surrogate c ≡ false
      → (is_scalar r ≡ true → decode_unit c ≡ r)
      → Written r
  pair :
      (c d : ℕ)
      → encode_rune r ≡ c ∷ d ∷ []
      → is_high_surrogate c ≡ true
      → is_low_surrogate d ≡ true
      → is_high_surrogate d ≡ false
      → decode_pair c d ≡ r
      → Written r

-- The units of a pair, for the offset v of a rune behind the basic plane.
pair_units :
    (v : ℕ)
    → v < 0x100000
    → (is_high_surrogate (0xD800 + v / 0x400) ≡ true)
      × (is_low_surrogate (0xDC00 + v % 0x400) ≡ true)
      × (is_high_surrogate (0xDC00 + v % 0x400) ≡ false)
      × (decode_pair (0xD800 + v / 0x400) (0xDC00 + v % 0x400) ≡ v + 0x10000)
unfolding is_high_surrogate is_low_surrogate decode_pair
pair_units v h = ground arith

scalar_unit :
    (r : ℕ)
    → is_scalar r ≡ true
    → ltb r 0x10000 ≡ true
    → (is_high_surrogate r ≡ false) × (decode_unit r ≡ r)
unfolding is_scalar is_high_surrogate is_low_surrogate decode_unit
scalar_unit r h l = ground arith

scalar_offset :
    (r : ℕ)
    → is_scalar r ≡ true
    → ltb r 0x10000 ≡ false
    → (r - 0x10000 < 0x100000) × (r - 0x10000 + 0x10000 ≡ r)
unfolding is_scalar
scalar_offset r h l = ground arith

replacement_not_high : is_high_surrogate replacement ≡ false
unfolding is_high_surrogate
replacement_not_high = refl

encode_rune-Written : (r : ℕ) → Written r
unfolding encode_rune
encode_rune-Written r = elim (Bool-cases (is_scalar r)) [
  | inl s ↦ elim (Bool-cases (ltb r 0x10000)) [
    | inl l ↦ single r (rw (s, l) refl) (scalar_unit r s l).0 (λ _. (scalar_unit r s l).1)
    | inr l ↦
        let o = scalar_offset r s l in
        let u = pair_units (r - 0x10000) o.0 in pair _ _ (rw (s, l) refl) u.0 u.1 u.2 (u.3 ∙ o.1)
  ]
  | inr s ↦ single replacement (rw (s) refl) replacement_not_high (λ h. cc)
]

encode_rune-Paired : (r : ℕ) (s : List ℕ) → Paired s → Paired (encode_rune r ++ s)
encode_rune-Paired r s p = elim (encode_rune-Written r) [
  | single c e h _ ↦ rw e (Paired-cons c s h p)
  | pair c d e _ l h _ ↦ rw e ((λ _. l), Paired-cons d s h p)
]

-- The units of any text are paired.
pub encode-Paired : (rs : List ℕ) → Paired (encode rs)
unfolding encode
encode-Paired [] = tt
encode-Paired (r ∷ rs) = encode_rune-Paired r (encode rs) (encode-Paired rs)

decode-encode_rune :
    (r : ℕ)
    → is_scalar r ≡ true
    → (decode (encode_rune r) ≡ r ∷ []) × (ends_high (encode_rune r) ≡ false)
unfolding decode
decode-encode_rune r h = elim (encode_rune-Written r) [
  | single c e n d ↦ rw e (ap (λ x. x ∷ []) (d h), n)
  | pair c d e n l m q ↦ rw e (rw (n, l) (ap (λ x. x ∷ []) q), m)
]

-- Decoding gives back every text of scalar values.
pub decode-encode : (rs : List ℕ) → All (λ r. is_scalar r ≡ true) rs → decode (encode rs) ≡ rs
unfolding encode decode
decode-encode [] h = refl
decode-encode (r ∷ rs) h =
    let e = decode-encode_rune r h.0 in
    rw (decode-append (encode_rune r) (encode rs) e.1, e.0, decode-encode rs h.1) refl

-- A 16-bit code unit.
abbrev pub IsUnits : List ℕ → Type 0
IsUnits = All (λ c. c < 0x10000)

encode_rune-IsUnits : (r : ℕ) → IsUnits (encode_rune r)
unfolding encode_rune is_scalar
encode_rune-IsUnits r = ground arith

pub encode-IsUnits : (rs : List ℕ) → IsUnits (encode rs)
unfolding encode
encode-IsUnits [] = tt
encode-IsUnits (r ∷ rs) =
    All-append _ (encode_rune r) (encode rs) (encode_rune-IsUnits r) (encode-IsUnits rs)

length-encode_rune_small : (r : ℕ) → r < 0x10000 → length (encode_rune r) ≡ 1
unfolding encode_rune is_scalar
length-encode_rune_small r h = ground arith

decode_unit-small : (c : ℕ) → c < 0x10000 → decode_unit c < 0x10000
unfolding decode_unit
decode_unit-small c h = ground arith

length-encode_rune_pair :
    (c d : ℕ)
    → (is_high_surrogate c && is_low_surrogate d) ≡ true
    → length (encode_rune (decode_pair c d)) ≡ 2
unfolding encode_rune is_scalar decode_pair is_high_surrogate is_low_surrogate
length-encode_rune_pair c d h = ground arith

length-encode-unit :
    (c : ℕ) (s : List ℕ)
    → c < 0x10000
    → length (encode (decode_unit c ∷ s)) ≡ suc (length (encode s))
unfolding encode
length-encode-unit c s h = omega (
  arith,
  length-append {0} (encode_rune (decode_unit c)) (encode s),
  length-encode_rune_small (decode_unit c) (decode_unit-small c h),
)

length-encode-pair :
    (c d : ℕ) (s : List ℕ)
    → (is_high_surrogate c && is_low_surrogate d) ≡ true
    → length (encode (decode_pair c d ∷ s)) ≡ suc (suc (length (encode s)))
unfolding encode
length-encode-pair c d s h = omega (
  arith,
  length-append {0} (encode_rune (decode_pair c d)) (encode s),
  length-encode_rune_pair c d h,
)

length-encode-nil : length (encode []) ≡ 0
unfolding encode
length-encode-nil = refl

-- Decoding any units, and encoding again, keeps the length.
pub length-encode-decode : (s : List ℕ) → IsUnits s → length (encode (decode s)) ≡ length s
unfolding decode
length-encode-decode [] h = length-encode-nil
length-encode-decode (c ∷ []) h = length-encode-unit c [] h.0 ∙ ap suc length-encode-nil
length-encode-decode (c ∷ d ∷ s) h = elim (Bool-cases (is_high_surrogate c && is_low_surrogate d)) [
  | inl e ↦
      rw e
        (length-encode-pair c d (decode s) e ∙ ap (λ n. suc (suc n)) (length-encode-decode s h.1.1))
  | inr e ↦
      rw e (length-encode-unit c (decode (d ∷ s)) h.0 ∙ ap suc (length-encode-decode (d ∷ s) h.1))
]
