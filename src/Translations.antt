-- ===== src/Translations.antt =====
-- i18n.go: the built-in translator, its fallback chain and its plural rules. fmt.Sprintf on arguments
-- of a type `A` and encoding/json are parameters; an int is the bit pattern of an int64.
pub mod Fallback
pub mod Plurals
mod Tests
use golagram.Base.{
  ℕ, ◌+◌, ◌-◌, ◌%◌, ◌^◌, Bool, true, false, not, ◌&&◌, ◌||◌, List, [], ◌∷◌, ◌++◌, Option, none,
  some, leb, ltb, ◌==◌, if◌then◌else◌, codes, text_eq,
}
use golagram.Base.Assoc.{lookup, insert, merge, text_key}

pub data PluralCategory : Type 0 where
  one : PluralCategory
  few : PluralCategory
  many : PluralCategory
  other : PluralCategory

-- The string of a PluralCategory.
unfoldable pub category_text : PluralCategory → List ℕ
category_text one = codes "one"
category_text few = codes "few"
category_text many = codes "many"
category_text other = codes "other"

abbrev pub PluralRule : Type 0
PluralRule = ℕ → PluralCategory

abbrev pub Messages : Type 0
Messages = List (List ℕ × List ℕ)

pub record I18n : Type 0 where
  pub default_locale : List ℕ
  pub messages : List (List ℕ × Messages)
  pub plural_rules : List (List ℕ × PluralRule)

unfoldable pub new_i18n : List ℕ → I18n
new_i18n default_locale = record {
  default_locale = default_locale;
  messages = [];
  plural_rules = [];
}

-- A missing map reads like an empty one.
abbrev pub or_empty : Option Messages → Messages
or_empty none = []
or_empty (some m) = m

-- Add: the new messages are written over the locale's old ones.
unfoldable pub add : List ℕ → Messages → I18n → I18n
unfolding lookup insert merge
add locale new t = record t {
  messages = insert locale (merge (or_empty (lookup locale t.messages)) new) t.messages;
}

-- AddJSON: what json.Unmarshal answers, none being an error, which leaves the translator alone.
unfoldable pub add_json : List ℕ → Option Messages → I18n → Bool × I18n
unfolding add
add_json locale none t = (false, t)
add_json locale (some new) t = (true, add locale new t)

-- strings.IndexAny(locale, "-_") and locale[:i]
unfoldable pub base_lang : List ℕ → List ℕ
base_lang [] = []
base_lang (c ∷ locale) = if c == b'-' || c == b'_' then [] else c ∷ base_lang locale

unfoldable pub set_plural_rule : List ℕ → PluralRule → I18n → I18n
unfolding insert base_lang
set_plural_rule locale rule t = record t {
  plural_rules = insert (base_lang locale) rule t.plural_rules;
}

-- The round of lookup's loop for one locale, `rest` being the locales behind it.
unfoldable pub message_in : I18n → List ℕ → List ℕ → Option (List ℕ)
unfolding lookup
message_in t key [] = none
message_in t key (c ∷ locale) = lookup key (or_empty (lookup (c ∷ locale) t.messages))

abbrev pub or_next : Option (List ℕ) → Option (List ℕ) → Option (List ℕ)
or_next none rest = rest
or_next (some template) rest = some template

-- Go's I18n.lookup
unfoldable pub resolve : I18n → List ℕ → List ℕ → Option (List ℕ)
unfolding message_in base_lang
resolve t locale key =
    or_next (message_in t key locale)
      (or_next (message_in t key (base_lang locale)) (message_in t key t.default_locale))

unfoldable pub default_plural : PluralRule
default_plural n = if n == 1 || n == 2 ^ 64 - 1 then one else other

-- By n % 10 and n % 100.
abbrev pub slavic_case : ℕ → ℕ → PluralCategory
slavic_case mod10 mod100 =
    if mod10 == 1 && not (mod100 == 11)
    then one
    else if leb 2 mod10 && (leb mod10 4 && (ltb mod100 12 || ltb 14 mod100))
    then few
    else many

-- The negation of the lowest int64 is itself; its remainders are -8, which is no case of the switch.
unfoldable pub slavic_plural : PluralRule
slavic_plural n =
    let m = if leb (2 ^ 63) n then 2 ^ 64 - n else n in
    if leb (2 ^ 63) m then many else slavic_case (m % 10) (m % 100)

abbrev pub is_slavic : List ℕ → Bool
is_slavic base =
    text_eq base (codes "ru")
    || (text_eq base (codes "uk")
        || (text_eq base (codes "be")
            || (text_eq base (codes "sr")
                || (text_eq base (codes "hr") || text_eq base (codes "bs")))))

abbrev pub rule_or : Option PluralRule → List ℕ → PluralRule
unfolding slavic_plural default_plural
rule_or (some rule) base = rule
rule_or none base = if is_slavic base then slavic_plural else default_plural

unfoldable pub plural_rule : I18n → List ℕ → PluralRule
unfolding base_lang lookup
plural_rule t locale = rule_or (lookup (base_lang locale) t.plural_rules) (base_lang locale)

module _ {A : Type 0} (sprintf : List ℕ → List A → List ℕ) where
  abbrev pub format_template : List ℕ → List A → List ℕ
  format_template template [] = template
  format_template template (a ∷ args) = sprintf template (a ∷ args)

  abbrev pub shown : Option (List ℕ) → List ℕ → List A → List ℕ
  shown none key args = key
  shown (some template) key args = format_template template args

  unfoldable pub translate : I18n → List ℕ → List ℕ → List A → List ℕ
  unfolding resolve
  translate t locale key args = shown (resolve t locale key) key args

  abbrev pub dotted : List ℕ → PluralCategory → List ℕ
  dotted key category = key ++ b'.' ∷ category_text category

  -- The keys that TranslateN tries, and the first that resolves.
  unfoldable pub translate_n : I18n → List ℕ → List ℕ → ℕ → List A → List ℕ
  unfolding resolve plural_rule category_text
  translate_n t locale key n args =
      shown
        (or_next (resolve t locale (dotted key (plural_rule t locale n)))
          (or_next (resolve t locale (dotted key other)) (resolve t locale key)))
        key args
