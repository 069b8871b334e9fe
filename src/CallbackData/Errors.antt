-- ===== src/CallbackData/Errors.antt =====
-- What Pack refuses.
use golagram.Base.{
  ℕ, ◌≡◌, ◌↔◌, ◌⊎◌, inl, inr, ap, ◌<◌, refl, true, List, [], ◌∷◌, Option, ltb, arith, length,
  Bool-cases, if◌then◌else◌,
}
use golagram.Strings.{contains, join}
use golagram.CallbackData.{
  FieldKind, FieldType, string_field, bool_field, float_field, uint_field, int_field, Payload,
  CallbackData, PackError, contains_separator, too_long, format_field, cons_part_of, format_fields,
  signed_with, checked_length, pack_parts, pack,
}
use golagram.CallbackData.Fields.{HasSeparator, fine}

abbrev pub Refused : {B : Type 0} → PackError → PackError ⊎ B → Type 0
Refused e r = r ≡ inl e

cons_part_of_iff :
    (s : List ℕ) (rest : PackError ⊎ List (List ℕ))
    → Refused contains_separator (cons_part_of (inr s) rest) ↔ Refused contains_separator rest
cons_part_of_iff s (inl e) = (λ h. cc, λ h. cc)
cons_part_of_iff s (inr parts) = (λ h. cc, λ h. cc)

other_part :
    {P : Type 0} (s : List ℕ) (rest : PackError ⊎ List (List ℕ))
    → (Refused contains_separator rest ↔ P)
    → Refused contains_separator (cons_part_of (inr s) rest) ↔ P
other_part s rest (to, from) =
    let (head, back) = cons_part_of_iff s rest in (λ h. to (head h), λ p. back (from p))

string_part :
    {P : Type 0} (s : List ℕ) (rest : PackError ⊎ List (List ℕ))
    → (Refused contains_separator rest ↔ P)
    → Refused contains_separator
        (cons_part_of (if contains s b':' then inl contains_separator else inr s) rest)
      ↔ ((contains s b':' ≡ true) ⊎ P)
string_part s rest known = elim (Bool-cases (contains s b':')) [
  | inl e ↦ (λ h. inl e, λ h. rw e refl)
  | inr e ↦ rw e (
    λ h. inr ((other_part s rest known).0 h),
    λ h. elim h [ inl k ↦ cc | inr k ↦ (other_part s rest known).1 k ],
  )
]

string_too_long :
    (s : List ℕ) → Refused too_long (if contains s b':' then inl contains_separator else inr s) → ⊥
string_too_long s h = elim (Bool-cases (contains s b':')) [
  | inl e ↦ (let no = rw e at h in cc)
  | inr e ↦ (let no = rw e at h in cc)
]

cons_part_of-Refused :
    (r : PackError ⊎ List ℕ) (rest : PackError ⊎ List (List ℕ))
    → Refused too_long (cons_part_of r rest)
    → Refused too_long r ⊎ Refused too_long rest
cons_part_of-Refused (inl e) rest h = inl (cc)
cons_part_of-Refused (inr s) (inl e) h = inr (cc)
cons_part_of-Refused (inr s) (inr parts) h = cc

inl_of : {B : Type 0} {e f : PackError} → Refused {B = B} f (inl e) → e ≡ f
inl_of h = cc

inr_of : {a b : List (List ℕ)} → inr a ≡ fine b → a ≡ b
inr_of h = cc

checked_length_iff :
    (s : List ℕ)
    → (Refused too_long (checked_length s) ↔ (64 < length s))
      × (Refused contains_separator (checked_length s) → ⊥)
checked_length_iff s = elim (Bool-cases (ltb 64 (length s))) [
  | inl e ↦ rw e ((λ h. ground arith, λ h. refl), λ h. cc)
  | inr e ↦ rw e ((λ h. cc, λ h. ground arith), λ h. cc)
]

module _ (mac : List ℕ → List ℕ → List ℕ) (format_float : ℕ → List ℕ)
    (parse_float : List ℕ → Option ℕ) where
  format_fields-HasSeparator :
      (ks : List FieldKind) (v : Payload ks)
      → Refused contains_separator (format_fields mac format_float parse_float ks v)
        ↔ HasSeparator ks v
  unfolding format_fields format_field
  format_fields-HasSeparator [] v = (λ h. cc, λ h. absurd h)
  format_fields-HasSeparator (string_field ∷ ks) (s, v) =
      string_part s (format_fields mac format_float parse_float ks v)
        (format_fields-HasSeparator ks v)
  format_fields-HasSeparator (bool_field ∷ ks) (x, v) =
      other_part _ (format_fields mac format_float parse_float ks v)
        (format_fields-HasSeparator ks v)
  format_fields-HasSeparator (float_field ∷ ks) (x, v) =
      other_part _ (format_fields mac format_float parse_float ks v)
        (format_fields-HasSeparator ks v)
  format_fields-HasSeparator (uint_field w ∷ ks) (x, v) =
      other_part _ (format_fields mac format_float parse_float ks v)
        (format_fields-HasSeparator ks v)
  format_fields-HasSeparator (int_field w ∷ ks) (x, v) =
      other_part _ (format_fields mac format_float parse_float ks v)
        (format_fields-HasSeparator ks v)

  pack_parts_iff :
      (cd : CallbackData) (r : PackError ⊎ List (List ℕ))
      → Refused contains_separator (pack_parts mac format_float parse_float cd r)
        ↔ Refused contains_separator r
  pack_parts_iff cd (inl e) = (λ h. cc, λ h. cc)
  pack_parts_iff cd (inr parts) = (λ h. absurd ((checked_length_iff _).1 h), λ h. cc)

  one_part_too_long :
      (k : FieldKind) (x : FieldType k)
      → Refused too_long (format_field mac format_float parse_float k x)
      → ⊥
  unfolding format_field
  one_part_too_long string_field s h = string_too_long s h
  one_part_too_long bool_field x h = cc
  one_part_too_long float_field x h = cc
  one_part_too_long (uint_field w) x h = cc
  one_part_too_long (int_field w) x h = cc

  format_fields_not_too_long :
      (ks : List FieldKind) (v : Payload ks)
      → Refused too_long (format_fields mac format_float parse_float ks v)
      → ⊥
  unfolding format_fields
  format_fields_not_too_long [] v h = cc
  format_fields_not_too_long (k ∷ ks) (x, v) h =
      elim (cons_part_of-Refused (format_field mac format_float parse_float k x)
        (format_fields mac format_float parse_float ks v) h) [
          | inl e ↦ one_part_too_long k x e
          | inr e ↦ format_fields_not_too_long ks v e
        ]

  pack_parts_too_long :
      (cd : CallbackData) (r : PackError ⊎ List (List ℕ))
      → (Refused too_long r → ⊥)
      → Refused too_long (pack_parts mac format_float parse_float cd r) ↔ (
          (parts : List (List ℕ)) × ((r ≡ inr parts)
            × (64
                < length (
                    signed_with mac format_float parse_float cd.hmac_secret
                      (join (cd.prefix ∷ parts) b':')))))
  pack_parts_too_long cd (inl e) never = (λ h. absurd (never (ap inl (inl_of h))), λ h. cc)
  pack_parts_too_long cd (inr parts) never =
      let (to, from) = (checked_length_iff _).0 in
      (λ h. (parts, (refl, to h)), λ (ps, (e, h)). from (rw (inr_of e) h))

-- Pack fails for the separator exactly when a string field of the payload has it; and it fails for
-- the length exactly when its fields are printed and the joined parts, with the tag that the schema
-- asks for, have more than 64 bytes.
pub pack-HasSeparator :
    (mac : List ℕ → List ℕ → List ℕ) (format_float : ℕ → List ℕ) (parse_float : List ℕ → Option ℕ)
    (cd : CallbackData) (v : Payload cd.fields)
    → (Refused contains_separator (pack mac format_float parse_float cd v)
        ↔ HasSeparator cd.fields v)
      × (Refused too_long (pack mac format_float parse_float cd v) ↔ (
          (parts : List (List ℕ)) × ((format_fields mac format_float parse_float cd.fields v
              ≡ inr parts)
            × (64
                < length (
                    signed_with mac format_float parse_float cd.hmac_secret
                      (join (cd.prefix ∷ parts) b':'))))))
unfolding pack
pack-HasSeparator mac format_float parse_float cd v =
    let fields = format_fields mac format_float parse_float cd.fields v in
    let (to, from) = pack_parts_iff mac format_float parse_float cd fields in
    let (has, refused) = format_fields-HasSeparator mac format_float parse_float cd.fields v in
    (
      (λ h. has (to h), λ h. from (refused h)),
      pack_parts_too_long mac format_float parse_float cd fields
          (format_fields_not_too_long mac format_float parse_float cd.fields v),
    )
