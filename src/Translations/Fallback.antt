-- ===== src/Translations/Fallback.antt =====
-- What a translator shows after Add.
use golagram.Base.{
  ℕ, ◌≡◌, ◌≢◌, ◌∙◌, ap, sym, refl, false, List, [], ◌∷◌, none, some, inl, inr, if◌then◌else◌,
  text_eq, text_eq_iff, Bool-cases, Option-cases, none_ne_some, ◌⊎◌, ◌==◌, ◌||◌, ◌++◌, Bool, true,
  arith,
}
use golagram.Base.Assoc.{lookup, insert, merge, text_key, lookup-insert, Unique}
use golagram.Translations.{
  I18n, Messages, or_empty, add, base_lang, message_in, or_next, resolve, translate, shown,
  format_template,
}

lookup-merge :
    (k : List ℕ) (m new : Messages)
    → Unique new
    → lookup k (merge m new) ≡ or_next (lookup k new) (lookup k m)
unfolding merge lookup
lookup-merge k m [] h = refl
lookup-merge k m ((j, v) ∷ new) h =
    lookup-merge k (insert j v m) new h.1 ∙ elim (Bool-cases (text_eq j k)) [
      | inl e ↦
          (let absent : lookup k new ≡ none =
              ap (λ q. lookup q new) (sym ((text_eq_iff j k).0 e)) ∙ h.0 in
            rw (lookup-insert j k v m, e, absent) refl)
      | inr e ↦ rw (lookup-insert j k v m, e) refl
    ]

text_eq-nil : (s : List ℕ) → s ≢ [] → text_eq s [] ≡ false
unfolding text_eq
text_eq-nil [] h = absurd (h refl)
text_eq-nil (c ∷ s) h = refl

message_in-add :
    (t : I18n) (locale : List ℕ) (new : Messages) (key l : List ℕ)
    → locale ≢ []
    → Unique new
    → message_in (add locale new t) key l ≡ (
        if text_eq locale l
        then or_next (lookup key new) (message_in t key l)
        else message_in t key l)
unfolding message_in add
message_in-add t locale new key [] some_locale h = rw (text_eq-nil locale some_locale) refl
message_in-add t locale new key (c ∷ l) some_locale h =
    let old = or_empty (lookup locale t.messages) in
    let inserted = lookup-insert locale (c ∷ l) (merge old new) t.messages in
    elim (Bool-cases (text_eq locale (c ∷ l))) [
      | inl e ↦
          rw (inserted, e)
            (lookup-merge key old new h
              ∙ ap (λ q. or_next (lookup key new) (lookup key (or_empty (lookup q t.messages))))
                  ((text_eq_iff locale (c ∷ l)).0 e))
      | inr e ↦ rw (inserted, e) refl
    ]

message_in-own :
    (t : I18n) (locale : List ℕ) (new : Messages) (key template : List ℕ)
    → locale ≢ []
    → Unique new
    → lookup key new ≡ some template
    → message_in (add locale new t) key locale ≡ some template
message_in-own t locale new key template some_locale h found =
    message_in-add t locale new key locale some_locale h
    ∙ rw ((text_eq_iff locale locale).1 refl, found) refl

message_in-other :
    (t : I18n) (locale : List ℕ) (new : Messages) (key l : List ℕ)
    → locale ≢ []
    → Unique new
    → lookup key new ≡ none
    → message_in (add locale new t) key l ≡ message_in t key l
message_in-other t locale new key l some_locale h absent =
    message_in-add t locale new key l some_locale h
    ∙ elim (Bool-cases (text_eq locale l)) [ inl e ↦ rw (e, absent) refl | inr e ↦ rw e refl ]

resolve-regional :
    (t : I18n) (locale regional : List ℕ) (new : Messages) (key template : List ℕ)
    → locale ≢ []
    → Unique new
    → lookup key new ≡ some template
    → base_lang regional ≡ locale
    → message_in t key regional ≡ none
    → resolve (add locale new t) regional key ≡ some template
unfolding resolve
resolve-regional t locale regional new key template some_locale h found based own =
    let base = message_in-own t locale new key template some_locale h found in
    elim (Bool-cases (text_eq locale regional)) [
      | inl e ↦ rw (message_in-add t locale new key regional some_locale h, e, found) refl
      | inr e ↦
          rw (message_in-add t locale new key regional some_locale h, e, own, based, base) refl
    ]

resolve-own :
    (t : I18n) (locale : List ℕ) (new : Messages) (key template : List ℕ)
    → locale ≢ []
    → Unique new
    → lookup key new ≡ some template
    → resolve (add locale new t) locale key ≡ some template
unfolding resolve
resolve-own t locale new key template some_locale h found =
    rw (message_in-own t locale new key template some_locale h found) refl

message_in-default :
    (t : I18n) (locale : List ℕ) (new : Messages) (key : List ℕ)
    → locale ≢ []
    → Unique new
    → lookup key new ≡ none
    → message_in (add locale new t) key (add locale new t).default_locale
      ≡ message_in t key t.default_locale
unfolding add
message_in-default t locale new key some_locale h absent =
    message_in-other t locale new key t.default_locale some_locale h absent

resolve-other :
    (t : I18n) (locale : List ℕ) (new : Messages) (key l : List ℕ)
    → locale ≢ []
    → Unique new
    → lookup key new ≡ none
    → resolve (add locale new t) l key ≡ resolve t l key
unfolding resolve
resolve-other t locale new key l some_locale h absent =
    rw
      (
        message_in-other t locale new key l some_locale h absent,
        message_in-other t locale new key (base_lang l) some_locale h absent,
        message_in-default t locale new key some_locale h absent,
      )
      refl

abbrev pub IsSeparator : ℕ → Type 0
IsSeparator sep = (sep ≡ b'-') ⊎ (sep ≡ b'_')

-- A locale with a region or another subtag, like en-US.
pub has_subtag : List ℕ → Bool
has_subtag [] = false
has_subtag (c ∷ locale) = c == b'-' || (c == b'_' || has_subtag locale)

base_lang-append :
    (locale subtag : List ℕ) (sep : ℕ)
    → IsSeparator sep
    → has_subtag locale ≡ false
    → base_lang (locale ++ sep ∷ subtag) ≡ locale
unfolding base_lang has_subtag
base_lang-append [] subtag sep h plain = ground arith
base_lang-append (c ∷ locale) subtag sep h plain =
    ground (arith, base_lang-append locale subtag sep h)

message_in-added :
    (t : I18n) (locale : List ℕ) (new : Messages) (key template l : List ℕ)
    → locale ≢ []
    → Unique new
    → lookup key new ≡ some template
    → message_in t key l ≡ none
    → (message_in (add locale new t) key l ≡ some template)
      ⊎ (message_in (add locale new t) key l ≡ none)
message_in-added t locale new key template l some_locale h found own =
    elim (Bool-cases (text_eq locale l)) [
      | inl e ↦ inl (message_in-add t locale new key l some_locale h ∙ rw (e, found) refl)
      | inr e ↦ inr (message_in-add t locale new key l some_locale h ∙ rw (e, own) refl)
    ]

added_default :
    (t : I18n) (locale : List ℕ) (new : Messages) (key template : List ℕ)
    → locale ≢ []
    → Unique new
    → lookup key new ≡ some template
    → t.default_locale ≡ locale
    → message_in (add locale new t) key (add locale new t).default_locale ≡ some template
unfolding add
added_default t locale new key template some_locale h found default =
    ap (message_in (add locale new t) key) default
    ∙ message_in-own t locale new key template some_locale h found

resolve-default :
    (t : I18n) (locale : List ℕ) (new : Messages) (key template l : List ℕ)
    → locale ≢ []
    → Unique new
    → lookup key new ≡ some template
    → message_in t key l ≡ none
    → message_in t key (base_lang l) ≡ none
    → t.default_locale ≡ locale
    → resolve (add locale new t) l key ≡ some template
unfolding resolve
resolve-default t locale new key template l some_locale h found own based default =
    let last : message_in (add locale new t) key (add locale new t).default_locale ≡ some template =
      added_default t locale new key template some_locale h found default in
    elim (message_in-added t locale new key template l some_locale h found own) [
      | inl e ↦ rw e refl
      | inr e ↦
          elim (message_in-added t locale new key template (base_lang l) some_locale h found
            based) [ inl f ↦ rw (e, f) refl | inr f ↦ rw (e, f) last ]
    ]

module _ {A : Type 0} (sprintf : List ℕ → List A → List ℕ) (t : I18n) (locale : List ℕ)
    (new : Messages) (key template : List ℕ) (args : List A) where
  -- Translate shows the template in a locale.
  abbrev pub IsShown : List ℕ → Type 0
  IsShown l =
      translate sprintf (add locale new t) l key args ≡ format_template sprintf template args

  module _ (some_locale : locale ≢ []) (unique : Unique new)
      (found : lookup key new ≡ some template) where
    show : (l : List ℕ) → resolve (add locale new t) l key ≡ some template → IsShown l
    unfolding translate
    show l h = ap (λ o. shown sprintf o key args) h

    IsShown-regional :
        (sep : ℕ) (subtag : List ℕ)
        → IsSeparator sep
        → IsShown (locale ++ sep ∷ subtag)
          ⊎ ((has_subtag locale ≡ true) ⊎ (message_in t key (locale ++ sep ∷ subtag) ≢ none))
    IsShown-regional sep subtag h =
        let regional = locale ++ sep ∷ subtag in
        elim (Bool-cases (has_subtag locale)) [
          | inl e ↦ inr (inl e)
          | inr e ↦ elim (Option-cases (message_in t key regional)) [
            | inl own ↦ inl (
                show regional (
                  resolve-regional t locale regional new key template some_locale unique found
                    (base_lang-append locale subtag sep h e) own))
            | inr own ↦ inr (inr (λ q. absurd (none_ne_some (sym q ∙ own.1))))
          ]
        ]

    IsShown-default :
        (l : List ℕ)
        → IsShown l
          ⊎ ((message_in t key l ≢ none)
              ⊎ ((message_in t key (base_lang l) ≢ none) ⊎ (t.default_locale ≢ locale)))
    IsShown-default l = elim (Option-cases (message_in t key l)) [
      | inr own ↦ inr (inl (λ q. absurd (none_ne_some (sym q ∙ own.1))))
      | inl own ↦ elim (Option-cases (message_in t key (base_lang l))) [
        | inr base ↦ inr (inr (inl (λ q. absurd (none_ne_some (sym q ∙ base.1)))))
        | inl base ↦ elim (Bool-cases (text_eq t.default_locale locale)) [
          | inl e ↦ inl (
              show l (
                resolve-default t locale new key template l some_locale unique found own base
                  ((text_eq_iff _ _).0 e)))
          | inr e ↦ inr (inr (inr (λ q. let yes = (text_eq_iff t.default_locale locale).1 q in cc)))
        ]
      ]
    ]

-- After Add, to a locale that is not empty, of messages with one template for a key, Translate shows
-- the template, formatted with the arguments if there are any: for the locale; where the locale has no
-- subtag of its own, for it with any subtag behind a - or _, unless that had a message of its own; and,
-- where the locale is the default one, for each locale that had no message of its own nor one of its
-- base language. A key that the new messages lack is shown in every locale as before.
pub translate-add :
    {A : Type 0} (sprintf : List ℕ → List A → List ℕ) (t : I18n) (locale : List ℕ) (new : Messages)
    (key template absent : List ℕ) (args : List A) (sep : ℕ)
    → locale ≢ []
    → Unique new
    → lookup key new ≡ some template
    → lookup absent new ≡ none
    → IsSeparator sep
    → IsShown sprintf t locale new key template args locale
      × (((subtag : List ℕ)
            → IsShown sprintf t locale new key template args (locale ++ sep ∷ subtag)
              ⊎ ((has_subtag locale ≡ true) ⊎ (message_in t key (locale ++ sep ∷ subtag) ≢ none)))
          × (((l : List ℕ)
                → IsShown sprintf t locale new key template args l
                  ⊎ ((message_in t key l ≢ none)
                      ⊎ ((message_in t key (base_lang l) ≢ none) ⊎ (t.default_locale ≢ locale))))
              × ((l : List ℕ) (more : List A)
                  → translate sprintf (add locale new t) l absent more
                    ≡ translate sprintf t l absent more)))
unfolding translate
translate-add sprintf t locale new key template absent args sep some_locale h found lacks is_sep = (
  show sprintf t locale new key template args some_locale h found locale
      (resolve-own t locale new key template some_locale h found),
  (
    λ subtag.
        IsShown-regional sprintf t locale new key template args some_locale h found sep subtag
          is_sep,
    (
      λ l. IsShown-default sprintf t locale new key template args some_locale h found l,
      λ l more.
          ap (λ o. shown sprintf o absent more)
            (resolve-other t locale new absent l some_locale h lacks),
    ),
  ),
)
