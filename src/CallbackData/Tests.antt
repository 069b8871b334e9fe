-- ===== src/CallbackData/Tests.antt =====
-- The data of a button that buys three of item 42, signed and unsigned.
use golagram.Base.{
  ℕ, zero, suc, ◌≡◌, ◌≤◌, ◌<◌, ◌+◌, ◌%◌, ◌↔◌, inl, inr, refl, true, List, [], ◌∷◌, ◌++◌, ltb, none,
  some, All, arith, codes, length, text_eq,
}
use golagram.Strings.{join, contains, split}
use golagram.Strconv.{format_uint, parse_uint, format_int, parse_int}
use golagram.Strconv.RoundTrip.{parse_uint-format_uint, format_uint-Lacks}
use golagram.Base64.{encode, decode}
use golagram.CallbackData.{
  FieldKind, string_field, int_field, bits8, bits64, Payload, CallbackData, contains_separator,
  too_long, tampered, pack, unpack, schema_filter, filter_where, tag_of, format_fields, signed_with,
}
use golagram.CallbackData.Fields.{HasSeparator}
use golagram.CallbackData.RoundTrip.{unpack-tag_of, unpack-pack}
use golagram.CallbackData.Errors.{Refused, pack-HasSeparator}

-- Stands for the HMAC: the number of bytes of the payload, 32 times.
abbrev repeat : ℕ → ℕ → List ℕ
repeat zero b = []
repeat (suc n) b = b ∷ repeat n b

abbrev toy_mac : List ℕ → List ℕ → List ℕ
toy_mac secret payload = repeat 32 ((length payload + length secret) % 256)

toy_mac_bytes : (secret payload : List ℕ) → All (λ b. b < 256) (toy_mac secret payload)
toy_mac_bytes secret payload = ground arith

abbrev buy_fields : List FieldKind
buy_fields = int_field bits64 ∷ int_field bits8 ∷ string_field ∷ []

abbrev buy_item : Payload buy_fields
buy_item = (42, (253, (codes "red", tt)))

abbrev buy_callback : CallbackData
buy_callback = record { prefix = codes "buy"; fields = buy_fields; hmac_secret = none }

abbrev signed_callback : CallbackData
signed_callback = record buy_callback { hmac_secret = some (codes "key") }

abbrev packed_item : List ℕ
packed_item = codes "buy:42:-3:red"

packed_buy_item : pack toy_mac format_uint parse_uint buy_callback buy_item ≡ inr packed_item
unfolding pack contains join format_int encode
packed_buy_item = refl

signed_item :
    pack toy_mac format_uint parse_uint signed_callback buy_item
    ≡ inr (codes "buy:42:-3:red:EBAQEBAQEBA")
unfolding pack contains join format_int encode
signed_item = refl

other_item :
    unpack toy_mac format_uint parse_uint signed_callback (codes "buy:43:-3:red7:EBAQEBAQEBA")
    ≡ inl tampered
unfolding unpack split text_eq parse_int decode
other_item = refl

-- A number beyond the field's width loses its higher bits.
number_cut :
    unpack toy_mac format_uint parse_uint buy_callback (codes "buy:1:300:red")
    ≡ inr (1, (44, (codes "red", tt)))
unfolding unpack split text_eq parse_int decode
number_cut = refl

unpack-pack_example :
    (unpack toy_mac format_uint parse_uint signed_callback (codes "buy:42:-3:red:EBAQEBAQEBA")
      ≡ inr buy_item)
    × ((length (codes "buy:42:-3:red:EBAQEBAQEBA") ≤ 64)
        × ((schema_filter signed_callback (codes "buy:42:-3:red:EBAQEBAQEBA") ≡ true)
            × (filter_where toy_mac format_uint parse_uint signed_callback
                  (λ v. ltb 1 v.0)
                  (codes "buy:42:-3:red:EBAQEBAQEBA")
                ≡ true)))
unpack-pack_example =
    unpack-pack toy_mac format_uint parse_uint toy_mac_bytes (λ secret payload. refl)
      (λ f h n. parse_uint-format_uint f h) (λ f. format_uint-Lacks f b':' (omega arith))
      signed_callback buy_item (codes "buy:42:-3:red:EBAQEBAQEBA") (λ v. ltb 1 v.0) (ground arith)
      (ground arith) signed_item

unpack-tag_of_example :
    (payload : List ℕ) × ((tag : List ℕ) × ((codes "buy:42:-3:red:EBAQEBAQEBA"
          ≡ payload ++ b':' ∷ tag)
        × ((decode tag ≡ some (tag_of toy_mac format_uint parse_uint (codes "key") payload))
            × (unpack toy_mac format_uint parse_uint buy_callback payload ≡ inr buy_item))))
unpack-tag_of_example =
    unpack-tag_of toy_mac format_uint parse_uint (codes "buy") buy_fields (codes "key")
      (codes "buy:42:-3:red:EBAQEBAQEBA") buy_item unpack-pack_example.0

pack-HasSeparator_example :
    (Refused contains_separator (pack toy_mac format_uint parse_uint buy_callback buy_item)
      ↔ HasSeparator buy_fields buy_item)
    × (Refused too_long (pack toy_mac format_uint parse_uint buy_callback buy_item) ↔ (
        (parts : List (List ℕ)) × ((format_fields toy_mac format_uint parse_uint buy_fields buy_item
            ≡ inr parts)
          × (64
              < length (
                  signed_with toy_mac format_uint parse_uint none
                    (join (codes "buy" ∷ parts) b':'))))))
pack-HasSeparator_example = pack-HasSeparator toy_mac format_uint parse_uint buy_callback buy_item
