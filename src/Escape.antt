-- ===== src/Escape.antt =====
-- format.go: EscapeHTML and the MarkdownV2 escapers. A strings.Replacer whose patterns are single
-- characters rewrites a text character by character.
pub mod RoundTrip
mod Tests
use golagram.Base.{ℕ, Bool, false, ◌||◌, List, [], ◌∷◌, ◌++◌, codes, ◌==◌, if◌then◌else◌}

abbrev pub backslash : ℕ
backslash = b'\\'

unfoldable pub html_replacement : ℕ → List ℕ
html_replacement c =
    if c == b'&'
    then codes "&amp;"
    else if c == b'<'
    then codes "&lt;"
    else if c == b'>'
    then codes "&gt;"
    else c ∷ []

unfoldable pub escape_html : List ℕ → List ℕ
unfolding html_replacement
escape_html [] = []
escape_html (c ∷ s) = html_replacement c ++ escape_html s

-- The characters that a table of the source replaces by themselves behind a backslash.
member : ℕ → List ℕ → Bool
member c [] = false
member c (d ∷ ds) = c == d || member c ds

abbrev pub markdown_reserved : List ℕ
markdown_reserved = codes "\\_*[]()~`>#+-=|{}.!"

abbrev pub code_reserved : List ℕ
code_reserved = codes "\\`"

abbrev pub link_reserved : List ℕ
link_reserved = codes "\\)"

escape_reserved : List ℕ → List ℕ → List ℕ
unfolding member
escape_reserved reserved [] = []
escape_reserved reserved (c ∷ s) =
    let rest = escape_reserved reserved s in
    if member c reserved then backslash ∷ c ∷ rest else c ∷ rest

pub escape_markdown_v2 : List ℕ → List ℕ
unfolding escape_reserved
escape_markdown_v2 = escape_reserved markdown_reserved

pub escape_markdown_v2_code : List ℕ → List ℕ
unfolding escape_reserved
escape_markdown_v2_code = escape_reserved code_reserved

pub escape_markdown_v2_link : List ℕ → List ℕ
unfolding escape_reserved
escape_markdown_v2_link = escape_reserved link_reserved
