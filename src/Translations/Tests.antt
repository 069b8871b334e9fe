-- ===== src/Translations/Tests.antt =====
-- A shop in English and Russian.
use golagram.Base.{ℕ, ◌≡◌, ◌≢◌, ◌⊎◌, inl, true, none, refl, List, [], ◌∷◌, ◌++◌, codes, text_eq}
use golagram.Base.Assoc.{lookup, text_key}
use golagram.Translations.{
  I18n, Messages, new_i18n, add, base_lang, message_in, translate, translate_n, rule_or,
}
use golagram.Translations.Fallback.{IsShown, has_subtag, translate-add}

-- Stands for fmt.Sprintf: the arguments behind the template.
abbrev toy_sprintf : List ℕ → List (List ℕ) → List ℕ
toy_sprintf template [] = template
toy_sprintf template (a ∷ args) = toy_sprintf (template ++ a) args

abbrev english : Messages
english = (codes "cart", codes "Cart: ") ∷ (codes "apples.other", codes "apples") ∷ []

abbrev russian : Messages
russian = (codes "apples.few", codes "яблока") ∷ []

abbrev shop : I18n
unfolding new_i18n add
shop = add (codes "ru") russian (new_i18n (codes "en"))

-- 22 is few in Russian; the cart falls back to English.
few_apples :
    translate_n toy_sprintf (add (codes "en") english shop) (codes "ru-RU") (codes "apples") 22 []
    ≡ codes "яблока"
unfolding translate_n shop add text_eq rule_or
few_apples = refl

-- Messages for a locale with a region of its own, which is also the default one.
abbrev british_shop : I18n
unfolding new_i18n
british_shop = new_i18n (codes "en-GB")

translate-add_example :
    IsShown toy_sprintf british_shop
      (codes "en-GB")
      english
      (codes "cart")
      (codes "Cart: ")
      (codes "3" ∷ [])
      (codes "en-GB")
    × (((subtag : List ℕ)
          → IsShown toy_sprintf british_shop
              (codes "en-GB")
              english
              (codes "cart")
              (codes "Cart: ")
              (codes "3" ∷ [])
              (codes "en-GB" ++ b'-' ∷ subtag)
            ⊎ ((has_subtag (codes "en-GB") ≡ true)
                ⊎ (message_in british_shop (codes "cart") (codes "en-GB" ++ b'-' ∷ subtag) ≢ none)))
        × (((l : List ℕ)
              → IsShown toy_sprintf british_shop
                  (codes "en-GB")
                  english
                  (codes "cart")
                  (codes "Cart: ")
                  (codes "3" ∷ [])
                  l
                ⊎ ((message_in british_shop (codes "cart") l ≢ none)
                    ⊎ ((message_in british_shop (codes "cart") (base_lang l) ≢ none)
                        ⊎ (british_shop.default_locale ≢ codes "en-GB"))))
            × ((l : List ℕ) (more : List (List ℕ))
                → translate toy_sprintf
                    (add (codes "en-GB") english british_shop)
                    l
                    (codes "apples.few")
                    more
                  ≡ translate toy_sprintf british_shop l (codes "apples.few") more)))
unfolding lookup text_eq
translate-add_example =
    translate-add toy_sprintf british_shop (codes "en-GB") english (codes "cart") (codes "Cart: ")
      (codes "apples.few") (codes "3" ∷ []) b'-' (λ h. cc) (refl, (refl, tt)) refl refl (inl refl)
