-- ===== src/Escape/RoundTrip.antt =====
-- Readers of the two parse modes, and what they make of an escaped text.
use golagram.Base.{
  ℕ, ◌≡◌, refl, ◌∙◌, Bool, true, false, ◌||◌, List, [], ◌∷◌, ◌++◌, Option, none, some, codes,
  text_eq, ◌==◌, ==_iff, if◌then◌else◌, Bool-cases, inl, inr, arith, leb, ◌&&◌,
}
use mathlib.Core.Option
use golagram.Escape.{
  backslash, html_replacement, escape_html, member, markdown_reserved, code_reserved, link_reserved,
  escape_reserved, escape_markdown_v2, escape_markdown_v2_code, escape_markdown_v2_link,
}

-- Where an escaped text stands in MarkdownV2.
pub data Place : Type 0 where
  regular_text : Place
  code_span : Place
  link_url : Place

-- The characters that Telegram's description of MarkdownV2 reserves at a place, but the backslash.
abbrev pub reserved_at : Place → List ℕ
reserved_at regular_text = codes "_*[]()~`>#+-=|{}.!"
reserved_at code_span = codes "`"
reserved_at link_url = codes ")"

among : ℕ → List ℕ → Bool
among c [] = false
among c (d ∷ ds) = c == d || among c ds

-- A backslash may stand before a character with a code from 1 to 126.
abbrev can_be_quoted : ℕ → Bool
can_be_quoted c = leb 1 c && leb c 126

-- Plain text as a reader of MarkdownV2 takes it: a backslash gives the character behind it, and a
-- reserved character that stands alone is refused. `quoted` says that a backslash stands before.
pub read_markdown : Place → Bool → List ℕ → Option (List ℕ)
unfolding among
read_markdown place true [] = none
read_markdown place false [] = some []
read_markdown place true (c ∷ s) =
    let rest = Option.map (λ t. c ∷ t) (read_markdown place false s) in
    if can_be_quoted c then rest else none
read_markdown place false (c ∷ s) =
    let quoted = read_markdown place true s in
    let plain = Option.map (λ t. c ∷ t) (read_markdown place false s) in
    if c == backslash then quoted else if among c (reserved_at place) then none else plain

-- A table of the escapers has all these characters, and all characters of it can be quoted.
has_all : List ℕ → List ℕ → Bool
unfolding member
has_all table [] = true
has_all table (d ∷ ds) = member d table && has_all table ds

all_quotable : List ℕ → Bool
all_quotable [] = true
all_quotable (d ∷ ds) = can_be_quoted d && all_quotable ds

member-among :
    (c : ℕ) (table ds : List ℕ)
    → has_all table ds ≡ true
    → among c ds ≡ true
    → member c table ≡ true
unfolding has_all among
member-among c table [] h m = cc
member-among c table (d ∷ ds) h m = ground (arith, member-among c table ds, ==_iff c d)

quotable-member :
    (c : ℕ) (table : List ℕ)
    → all_quotable table ≡ true
    → member c table ≡ true
    → can_be_quoted c ≡ true
unfolding all_quotable member
quotable-member c [] h m = cc
quotable-member c (d ∷ table) h m = ground (arith, quotable-member c table, ==_iff c d)

-- A table that serves at a place.
record IsTableFor (place : Place) (table : List ℕ) : Type 0 where
  quotes_backslash : member backslash table ≡ true
  quotes_reserved : has_all table (reserved_at place) ≡ true
  quotable : all_quotable table ≡ true

not_backslash :
    (c : ℕ) (table : List ℕ)
    → member backslash table ≡ true
    → member c table ≡ false
    → (c == backslash) ≡ false
not_backslash c table h m = elim (Bool-cases (c == backslash)) [
  | inl e ↦ let q : c ≡ backslash = (==_iff c backslash).0 e in cc (rw q at m)
  | inr e ↦ e
]

not_reserved :
    (place : Place) (c : ℕ) (table : List ℕ)
    → IsTableFor place table
    → member c table ≡ false
    → among c (reserved_at place) ≡ false
not_reserved place c table h m = elim (Bool-cases (among c (reserved_at place))) [
  | inl e ↦ let quoted = member-among c table (reserved_at place) h.quotes_reserved e in cc
  | inr e ↦ e
]

read-escape_reserved :
    (place : Place) (table s : List ℕ)
    → IsTableFor place table
    → read_markdown place false (escape_reserved table s) ≡ some s
unfolding read_markdown escape_reserved
read-escape_reserved place table [] h = refl
read-escape_reserved place table (c ∷ s) h =
    let ih = read-escape_reserved place table s h in
    elim (Bool-cases (member c table)) [
      | inl m ↦ rw m (rw (ih, quotable-member c table h.quotable m) refl)
      | inr m ↦ rw m (
          rw (not_backslash c table h.quotes_backslash m)
            (rw (not_reserved place c table h m) (rw ih refl)))
    ]

-- A reader gets back every text that was escaped for the place where it stands: regular text, the
-- inside of a code span, and the URL of a link. The reader refuses a character that Telegram reserves
-- at the place where it stands alone, and a backslash before a character that none may stand before.
pub read-escape_markdown :
    (s : List ℕ)
    → (read_markdown regular_text false (escape_markdown_v2 s) ≡ some s)
      × (read_markdown code_span false (escape_markdown_v2_code s) ≡ some s)
      × (read_markdown link_url false (escape_markdown_v2_link s) ≡ some s)
unfolding member has_all all_quotable escape_markdown_v2 escape_markdown_v2_code
    escape_markdown_v2_link
read-escape_markdown s =
    let regular : IsTableFor regular_text markdown_reserved = record {
      quotes_backslash = refl;
      quotes_reserved = refl;
      quotable = refl;
    } in
    let code : IsTableFor code_span code_reserved = record {
      quotes_backslash = refl;
      quotes_reserved = refl;
      quotable = refl;
    } in
    let link : IsTableFor link_url link_reserved = record {
      quotes_backslash = refl;
      quotes_reserved = refl;
      quotable = refl;
    } in
    (
      read-escape_reserved regular_text markdown_reserved s regular,
      read-escape_reserved code_span code_reserved s code,
      read-escape_reserved link_url link_reserved s link,
    )

-- The character that an entity of this name stands for.
entity_char : List ℕ → Option ℕ
unfolding text_eq
entity_char name =
    if text_eq name (codes "amp")
    then some b'&'
    else if text_eq name (codes "lt")
    then some b'<'
    else if text_eq name (codes "gt")
    then some b'>'
    else none

prepend : Option ℕ → Option (List ℕ) → Option (List ℕ)
prepend none t = none
prepend (some c) none = none
prepend (some c) (some t) = some (c ∷ t)

-- Plain text as a reader of HTML takes it: the three entities stand for their characters; any other
-- entity, and a bare angle bracket, is refused. The first argument is the entity's name so far.
pub read_html : Option (List ℕ) → List ℕ → Option (List ℕ)
unfolding entity_char prepend
read_html none [] = some []
read_html (some name) [] = none
read_html none (c ∷ s) =
    let entity = read_html (some []) s in
    let plain = prepend (some c) (read_html none s) in
    if c == b'&' then entity else if c == b'<' || c == b'>' then none else plain
read_html (some name) (c ∷ s) =
    let closed = prepend (entity_char name) (read_html none s) in
    let more = read_html (some (name ++ c ∷ [])) s in if c == b';' then closed else more

read_html-replacement :
    (c : ℕ) (s : List ℕ)
    → read_html none (html_replacement c ++ s) ≡ prepend (some c) (read_html none s)
unfolding read_html html_replacement
read_html-replacement c s = elim (Bool-cases (c == b'&')) [
  | inl e ↦ ground (arith, (==_iff c b'&').0 e)
  | inr a ↦ elim (Bool-cases (c == b'<')) [
    | inl e ↦ ground (arith, (==_iff c b'<').0 e)
    | inr l ↦ elim (Bool-cases (c == b'>')) [
      | inl e ↦ ground (arith, (==_iff c b'>').0 e)
      | inr g ↦ rw (a, l, g) (rw (a, l, g) refl)
    ]
  ]
]

-- A reader of HTML gets back every text that was escaped: no ampersand and no angle bracket of it
-- is taken for markup.
pub read_html-escape_html : (s : List ℕ) → read_html none (escape_html s) ≡ some s
unfolding escape_html
read_html-escape_html [] = unfold read_html in refl
read_html-escape_html (c ∷ s) =
    read_html-replacement c (escape_html s) ∙ rw (read_html-escape_html s) (unfold prepend in refl)
