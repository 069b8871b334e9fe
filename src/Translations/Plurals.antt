-- ===== src/Translations/Plurals.antt =====
-- The Slavic plural rule by the last two digits.
use golagram.Base.{ℕ, ◌≡◌, ◌≢◌, ◌↔◌, ◌⊎◌, inl, inr, ◌≤◌, ◌<◌, ◌-◌, ◌%◌, ◌^◌, arith}
use golagram.Translations.{one, few, other, slavic_plural}

slavic_of_count :
    (n : ℕ)
    → n < 2 ^ 63
    → ((slavic_plural n ≡ one) ↔ ((n % 10 ≡ 1) × (n % 100 ≢ 11)))
      × (((slavic_plural n ≡ few)
            ↔ (((2 ≤ n % 10) × (n % 10 ≤ 4)) × ((n % 100 < 12) ⊎ (14 < n % 100))))
          × (slavic_plural n ≢ other))
unfolding slavic_plural
slavic_of_count n h = ground arith

slavic_negative : (n : ℕ) → 1 ≤ n → n < 2 ^ 63 → slavic_plural (2 ^ 64 - n) ≡ slavic_plural n
unfolding slavic_plural
slavic_negative n low high = ground arith

-- For a count of 1 to 2^63 - 1, and its negative: the Slavic rule gives "one" exactly where the last
-- digit is 1 but the last two are not 11, "few" exactly where the last digit is 2 to 4 but the last
-- two are not 12 to 14, and never "other".
slavic_plural_iff :
    (n m : ℕ)
    → 1 ≤ n
    → n < 2 ^ 63
    → (m ≡ n) ⊎ (m ≡ 2 ^ 64 - n)
    → ((slavic_plural m ≡ one) ↔ ((n % 10 ≡ 1) × (n % 100 ≢ 11)))
      × (((slavic_plural m ≡ few)
            ↔ (((2 ≤ n % 10) × (n % 10 ≤ 4)) × ((n % 100 < 12) ⊎ (14 < n % 100))))
          × (slavic_plural m ≢ other))
slavic_plural_iff n m low high (inl e) = rw e (slavic_of_count n high)
slavic_plural_iff n m low high (inr e) = rw (e, slavic_negative n low high) (slavic_of_count n high)
