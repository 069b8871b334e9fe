-- ===== src/Escape/Tests.antt =====
-- Runs of the escapers, and their theorems at concrete texts.
use golagram.Base.{◌≡◌, refl, false, none, some, codes}
use golagram.Escape.{
  escape_html, escape_markdown_v2, escape_markdown_v2_code, escape_markdown_v2_link,
}
use golagram.Escape.RoundTrip.{
  regular_text, code_span, link_url, read_markdown, read-escape_markdown, read_html,
  read_html-escape_html,
}

html_sample : escape_html (codes "a<b & c") ≡ codes "a&lt;b &amp; c"
unfolding escape_html
html_sample = refl

markdown_sample : escape_markdown_v2 (codes "a_b.c\\") ≡ codes "a\\_b\\.c\\\\"
unfolding escape_markdown_v2
markdown_sample = refl

code_sample : escape_markdown_v2_code (codes "a_`") ≡ codes "a_\\`"
unfolding escape_markdown_v2_code
code_sample = refl

read-escape_markdown_example :
    (read_markdown regular_text false (escape_markdown_v2 (codes "1.5_x")) ≡ some (codes "1.5_x"))
    × (read_markdown code_span false (escape_markdown_v2_code (codes "1.5_x"))
        ≡ some (codes "1.5_x"))
    × (read_markdown link_url false (escape_markdown_v2_link (codes "1.5_x"))
        ≡ some (codes "1.5_x"))
read-escape_markdown_example = read-escape_markdown (codes "1.5_x")

read_html-escape_html_example : read_html none (escape_html (codes "<&>")) ≡ some (codes "<&>")
read_html-escape_html_example = read_html-escape_html (codes "<&>")
