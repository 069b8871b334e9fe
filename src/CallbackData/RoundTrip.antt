-- ===== src/CallbackData/RoundTrip.antt =====
-- Unpack reads back what Pack wrote, the filters take it, and a secret keeps other data out.
use golagram.Base.{
  ℕ, ◌≡◌, ◌∙◌, ◌⊎◌, inl, inr, ap, sym, ◌≤◌, ◌<◌, ◌^◌, refl, Bool, true, false, List, [], ◌∷◌, ◌++◌,
  append_assoc, Option, none, some, ltb, ==_refl, All, arith, length, text_eq_iff, Bool-cases,
}
use golagram.Strings.{Lacks, join, has_prefix}
use golagram.Strings.Laws.{split-join}
use golagram.Fsm.Keys.{has_prefix-snoc}
use golagram.Base64.{decode}
use golagram.CallbackData.{
  FieldKind, Payload, CallbackData, PackError, too_long, format_fields, tag_of, hmac_tag,
  signed_with, checked_length, pack_parts, pack, verified, parse_fields, unpack_payload, unpack,
  schema_filter, filter_where, holds_of,
}
use golagram.CallbackData.Fields.{is_nan, IsPayload, fine, parse_fields-format_fields}
use golagram.CallbackData.Tags.{verified-signed_with, verified_sound}

checked_length-inr :
    (packed s : List ℕ) → checked_length packed ≡ fine s → (packed ≡ s) × (length s ≤ 64)
checked_length-inr packed s h = elim (Bool-cases (ltb 64 (length packed))) [
  | inl e ↦ absurd (refused (rw e at h))
  | inr e ↦ (let same : packed ≡ s = fine_inj (rw e at h) in (same, rw (sym same) (ground arith)))
]
  where
    refused : {s : List ℕ} → inl too_long ≡ fine s → ⊥
    refused h = cc

    fine_inj : {s t : List ℕ} → fine s ≡ fine t → s ≡ t
    fine_inj h = cc

-- The data starts with the prefix, and with a separator where something follows.
abbrev StartsWith : List ℕ → List ℕ → Type 0
StartsWith p s = (s ≡ p) ⊎ ((rest : List ℕ) × (s ≡ p ++ b':' ∷ rest))

join-StartsWith : (p : List ℕ) (ps : List (List ℕ)) → StartsWith p (join (p ∷ ps) b':')
unfolding join
join-StartsWith p [] = inl refl
join-StartsWith p (q ∷ ps) = inr (join (q ∷ ps) b':', refl)

append-StartsWith : (p s tag : List ℕ) → StartsWith p s → StartsWith p (s ++ b':' ∷ tag)
append-StartsWith p s tag (inl e) = inr (tag, ap (λ t. t ++ b':' ∷ tag) e)
append-StartsWith p s tag (inr (rest, e)) =
    inr
      (rest ++ b':' ∷ tag, ap (λ t. t ++ b':' ∷ tag) e ∙ append_assoc p (b':' ∷ rest) (b':' ∷ tag))

schema_filter-StartsWith :
    (cd : CallbackData) (s : List ℕ) → StartsWith cd.prefix s → schema_filter cd s ≡ true
unfolding schema_filter
schema_filter-StartsWith cd s (inl e) = rw ((text_eq_iff s cd.prefix).1 e) refl
schema_filter-StartsWith cd s (inr (rest, e)) =
    let h : has_prefix s (cd.prefix ++ b':' ∷ []) ≡ true =
      ap (λ t. has_prefix t (cd.prefix ++ b':' ∷ [])) e ∙ has_prefix-snoc cd.prefix rest b':' in
    ground (arith, h)

module _ (mac : List ℕ → List ℕ → List ℕ) (format_float : ℕ → List ℕ)
    (parse_float : List ℕ → Option ℕ) where
  pack_parts-inr :
      (cd : CallbackData) (r : PackError ⊎ List (List ℕ)) (s : List ℕ)
      → pack_parts mac format_float parse_float cd r ≡ fine s
      → (parts : List (List ℕ)) × ((r ≡ fine parts)
          × ((signed_with mac format_float parse_float cd.hmac_secret
                  (join (cd.prefix ∷ parts) b':')
                ≡ s)
              × (length s ≤ 64)))
  pack_parts-inr cd (inl e) s h = cc
  pack_parts-inr cd (inr parts) s h = (parts, (refl, checked_length-inr _ s h))

  signed_with-StartsWith :
      (o : Option (List ℕ)) (p : List ℕ) (ps : List (List ℕ))
      → StartsWith p (signed_with mac format_float parse_float o (join (p ∷ ps) b':'))
  signed_with-StartsWith none p ps = join-StartsWith p ps
  signed_with-StartsWith (some secret) p ps =
      append-StartsWith p (join (p ∷ ps) b':') (hmac_tag mac format_float parse_float secret _)
        (join-StartsWith p ps)

  unpack_payload-join :
      (cd : CallbackData) (v : Payload cd.fields) (parts : List (List ℕ))
      → All (Lacks b':') (cd.prefix ∷ parts)
      → length parts ≡ length cd.fields
      → parse_fields mac format_float parse_float cd.fields parts ≡ some v
      → unpack_payload mac format_float parse_float cd (some (join (cd.prefix ∷ parts) b':'))
        ≡ inr v
  unpack_payload-join cd v parts lacks count back =
      rw
        (
          split-join cd.prefix parts b':' lacks,
          (text_eq_iff cd.prefix cd.prefix).1 refl,
          count,
          ==_refl (length cd.fields),
          back,
        )
        refl

  unpack_payload-verified :
      (cd : CallbackData) (secret text : List ℕ) (v : Payload cd.fields) (o : Option (List ℕ))
      → verified mac format_float parse_float (some secret) text ≡ o
      → unpack_payload mac format_float parse_float cd o ≡ inr v
      → (payload : List ℕ) × ((tag : List ℕ) × ((text ≡ payload ++ b':' ∷ tag)
            × ((decode tag ≡ some (tag_of mac format_float parse_float secret payload))
                × (unpack_payload mac format_float parse_float cd (some payload) ≡ inr v))))
  unpack_payload-verified cd secret text v none e h = cc
  unpack_payload-verified cd secret text v (some payload) e h =
      let (tag, (split_at, same)) =
        verified_sound mac format_float parse_float secret text payload e in
      (payload, (tag, (split_at, (same, h))))

-- For a schema with a secret: data is read only where it is a payload and, behind a separator, a tag
-- that decodes to the first eight bytes of the payload's MAC, and the fields read are the payload's
-- under the schema without a secret.
pub unpack-tag_of :
    (mac : List ℕ → List ℕ → List ℕ) (format_float : ℕ → List ℕ) (parse_float : List ℕ → Option ℕ)
    (prefix : List ℕ) (fields : List FieldKind) (secret text : List ℕ) (v : Payload fields)
    → unpack mac format_float parse_float
        (record { prefix = prefix; fields = fields; hmac_secret = some secret })
        text
      ≡ inr v
    → (payload : List ℕ) × ((tag : List ℕ) × ((text ≡ payload ++ b':' ∷ tag)
          × ((decode tag ≡ some (tag_of mac format_float parse_float secret payload))
              × (unpack mac format_float parse_float
                    (record { prefix = prefix; fields = fields; hmac_secret = none })
                    payload
                  ≡ inr v))))
unfolding unpack verified
unpack-tag_of mac format_float parse_float prefix fields secret text v h =
    unpack_payload-verified mac format_float parse_float
      (record { prefix = prefix; fields = fields; hmac_secret = some secret }) secret text v
      (verified mac format_float parse_float (some secret) text) refl h

-- Where the HMAC has 32 bytes, the printed form of a float64 that is not NaN has no separator and is
-- read back, and the prefix has no separator: data that Pack makes of a payload has at most 64 bytes,
-- Unpack reads the payload back from it, Filter takes it, and FilterWhere takes it exactly when the
-- predicate holds of the payload.
pub unpack-pack :
    (mac : List ℕ → List ℕ → List ℕ) (format_float : ℕ → List ℕ) (parse_float : List ℕ → Option ℕ)
    (mac_bytes : (secret payload : List ℕ) → All (λ b. b < 256) (mac secret payload))
    (mac_length : (secret payload : List ℕ) → length (mac secret payload) ≡ 32)
    (float_back : (f : ℕ) → f < 2 ^ 64 → is_nan f ≡ false → parse_float (format_float f) ≡ some f)
    (float_chars : (f : ℕ) → Lacks b':' (format_float f)) (cd : CallbackData)
    (v : Payload cd.fields) (s : List ℕ) (pred : Payload cd.fields → Bool)
    → Lacks b':' cd.prefix
    → IsPayload cd.fields v
    → pack mac format_float parse_float cd v ≡ inr s
    → (unpack mac format_float parse_float cd s ≡ inr v)
      × ((length s ≤ 64)
          × ((schema_filter cd s ≡ true)
              × (filter_where mac format_float parse_float cd pred s ≡ pred v)))
unfolding unpack pack filter_where
unpack-pack mac format_float parse_float mac_bytes mac_length float_back float_chars cd v s pred
      prefixed fits h =
    let (parts, (formatted, (signed, small))) =
      pack_parts-inr mac format_float parse_float cd
        (format_fields mac format_float parse_float cd.fields v) s h in
    let (back, (chars, count)) =
      parse_fields-format_fields mac format_float parse_float float_back float_chars cd.fields v
        parts fits formatted in
    let verifies =
      ap (verified mac format_float parse_float cd.hmac_secret) (sym signed)
      ∙ verified-signed_with mac format_float parse_float mac_bytes mac_length cd.hmac_secret
          (join (cd.prefix ∷ parts) b':') in
    let read =
      ap (unpack_payload mac format_float parse_float cd) verifies
      ∙ unpack_payload-join mac format_float parse_float cd v parts (prefixed, chars) count back in
    let starts =
      signed_with-StartsWith mac format_float parse_float cd.hmac_secret cd.prefix parts in
    (
      read,
      (
        small,
        (
          ap (schema_filter cd) (sym signed) ∙ schema_filter-StartsWith cd _ starts,
          ap (holds_of pred) read,
        ),
      ),
    )
