-- ===== src/Format.antt =====
-- format_entities.go and entity_text.go: the tree of formatted text with its renderer, and the way
-- back from a text and its entities to pieces of text. A text is the list of its runes. An int64
-- stands as its bit pattern, a natural number below 2^64.
pub mod Positions
pub mod Rendered
pub mod Bounds
pub mod Segments
pub mod Covering
pub mod Coverage
mod Tests
use golagram.Base.{
  ℕ, zero, suc, ◌+◌, ◌-◌, ◌%◌, min, Bool, true, false, not, ◌&&◌, ◌||◌, List, [], ◌∷◌, ◌++◌, Option,
  none, ltb, leb, ◌==◌, if◌then◌else◌, length, slice, codes, text_eq,
}
use golagram.Utf16.{is_high_surrogate, encode, decode, utf16_len}
use golagram.Split.{unit}
use golagram.Update.{User}

-- What a Node holds besides its children; a kind of "" is plain text.
pub record Style : Type 0 where
  pub kind : List ℕ
  pub text : List ℕ
  pub url : List ℕ
  pub user : Option User
  pub language : List ℕ
  pub custom_emoji_id : List ℕ

-- A Node is a leaf where its children are nil.
mutual
  pub data Node : Type 0 where
    leaf : Style → Node
    group : Style → Nodes → Node

  pub data Nodes : Type 0 where
    end : Nodes
    child : Node → Nodes → Nodes

pub record MessageEntity : Type 0 where
  pub kind : List ℕ
  pub offset : ℕ
  pub length_units : ℕ
  pub url : List ℕ
  pub user : Option User
  pub language : List ℕ
  pub custom_emoji_id : List ℕ

abbrev plain : Style
plain = record { kind = []; text = []; url = []; user = none; language = []; custom_emoji_id = [] }

-- An argument of the constructors; any other type panics.
pub data Part : Type 0 where
  string_part : List ℕ → Part
  node_part : Node → Part

pub nodes_from : List Part → Nodes
nodes_from [] = end
nodes_from (string_part s ∷ parts) = child (leaf (record plain { text = s })) (nodes_from parts)
nodes_from (node_part n ∷ parts) = child n (nodes_from parts)

pub wrap : List ℕ → List Part → Node
unfolding nodes_from
wrap kind parts = group (record plain { kind = kind }) (nodes_from parts)

unfoldable pub text : List Part → Node
unfolding nodes_from
text parts = group plain (nodes_from parts)

unfoldable pub bold : List Part → Node
unfolding wrap
bold = wrap (codes "bold")

unfoldable pub italic : List Part → Node
unfolding wrap
italic = wrap (codes "italic")

pub underline : List Part → Node
unfolding wrap
underline = wrap (codes "underline")

pub strikethrough : List Part → Node
unfolding wrap
strikethrough = wrap (codes "strikethrough")

pub spoiler : List Part → Node
unfolding wrap
spoiler = wrap (codes "spoiler")

pub blockquote : List Part → Node
unfolding wrap
blockquote = wrap (codes "blockquote")

pub expandable_blockquote : List Part → Node
unfolding wrap
expandable_blockquote = wrap (codes "expandable_blockquote")

pub code : List ℕ → Node
code s = leaf (record plain { kind = codes "code"; text = s })

pub pre : List ℕ → List ℕ → Node
pre s language = leaf (record plain { kind = codes "pre"; text = s; language = language })

unfoldable pub text_link : List ℕ → List ℕ → Node
text_link s url = leaf (record plain { kind = codes "text_link"; text = s; url = url })

pub mention : List ℕ → Option User → Node
mention s user = leaf (record plain { kind = codes "text_mention"; text = s; user = user })

unfoldable pub custom_emoji : List ℕ → List ℕ → Node
custom_emoji s id =
    leaf (record plain { kind = codes "custom_emoji"; text = s; custom_emoji_id = id })

-- n.kind == ""
abbrev pub is_plain : Style → Bool
unfolding text_eq
is_plain s = text_eq s.kind []

-- int64(n)
abbrev pub int64 : ℕ → ℕ
int64 n = n % 0x10000000000000000

abbrev pub leaf_entity : Style → ℕ → MessageEntity
unfolding utf16_len
leaf_entity s offset = record {
  kind = s.kind;
  offset = int64 offset;
  length_units = int64 (utf16_len s.text);
  url = s.url;
  user = s.user;
  language = s.language;
  custom_emoji_id = s.custom_emoji_id;
}

abbrev pub group_entity : Style → ℕ → ℕ → MessageEntity
group_entity s offset units = record {
  kind = s.kind;
  offset = int64 offset;
  length_units = int64 units;
  url = [];
  user = none;
  language = [];
  custom_emoji_id = [];
}

-- render_all is the loop over the children, from the position pos; its result ends with the
-- position behind them.
unfoldable mutual
  unfolding utf16_len

  pub render_at : Node → ℕ → List ℕ × List MessageEntity
  render_at (leaf s) offset =
      if is_plain s then (s.text, []) else (s.text, leaf_entity s offset ∷ [])
  render_at (group s nodes) offset =
      let inner = render_all nodes offset in
      if is_plain s
      then (inner.0, inner.1)
      else (inner.0, group_entity s offset (inner.2 - offset) ∷ inner.1)

  pub render_all : Nodes → ℕ → List ℕ × List MessageEntity × ℕ
  render_all end pos = ([], [], pos)
  render_all (child n nodes) pos =
      let first = render_at n pos in
      let rest = render_all nodes (pos + utf16_len first.0) in
      (first.0 ++ rest.0, first.1 ++ rest.1, rest.2)

unfoldable pub render : Node → List ℕ × List MessageEntity
unfolding render_at
render n = render_at n 0

-- The order of int64, and the sum, which wraps around.
abbrev pub is_negative : ℕ → Bool
is_negative a = leb 0x8000000000000000 a

unfoldable pub signed_le : ℕ → ℕ → Bool
signed_le a b =
    if is_negative a then not (is_negative b) || leb a b else not (is_negative b) && leb a b

abbrev pub add64 : ℕ → ℕ → ℕ
add64 a b = (a + b) % 0x10000000000000000

abbrev pub entity_stop : MessageEntity → ℕ
entity_stop e = add64 e.offset e.length_units

unfoldable pub slice_utf16 : List ℕ → ℕ → ℕ → List ℕ
unfolding signed_le
slice_utf16 s start stop =
    if is_negative start || not (signed_le stop (length (encode s))) || not (signed_le start stop)
    then []
    else decode (slice (encode s) start stop)

-- EntityText, of a message whose text or caption is s.
unfoldable pub entity_text : List ℕ → MessageEntity → List ℕ
unfolding slice_utf16
entity_text s e = slice_utf16 s e.offset (entity_stop e)

-- The two clamps of a bound.
abbrev clamp : ℕ → ℕ → ℕ
clamp a top = if is_negative a then 0 else min a top

unfoldable pub clip_range : ℕ → ℕ → ℕ → ℕ × ℕ
clip_range start stop top =
    let s = clamp start top in let t = clamp stop top in if leb s t then (s, t) else (t, t)

unfoldable pub snap_out_of_surrogate : List ℕ → ℕ → ℕ
snap_out_of_surrogate u b =
    if ltb 0 b && ltb b (length u) && is_high_surrogate (unit u (b - 1)) then b - 1 else b

-- The set of boundaries as its ascending list.
unfoldable pub add_bound : ℕ → List ℕ → List ℕ
add_bound b [] = b ∷ []
add_bound b (c ∷ cs) = if ltb b c then b ∷ c ∷ cs else if b == c then c ∷ cs else c ∷ add_bound b cs

unfoldable pub entity_boundaries : List MessageEntity → List ℕ → List ℕ
unfolding add_bound clip_range snap_out_of_surrogate
entity_boundaries [] u = add_bound (length u) (0 ∷ [])
entity_boundaries (e ∷ es) u =
    let clipped = clip_range e.offset (entity_stop e) (length u) in
    add_bound (snap_out_of_surrogate u clipped.1)
      (add_bound (snap_out_of_surrogate u clipped.0) (entity_boundaries es u))

-- The entity covers [start, stop) in full.
abbrev pub covers : MessageEntity → ℕ → ℕ → Bool
covers e start stop = signed_le e.offset start && signed_le stop (entity_stop e)

unfoldable pub covering_entities : List MessageEntity → ℕ → ℕ → List MessageEntity
unfolding signed_le
covering_entities [] start stop = []
covering_entities (e ∷ es) start stop =
    let rest = covering_entities es start stop in if covers e start stop then e ∷ rest else rest

pub record EntitySegment : Type 0 where
  pub text : List ℕ
  pub entities : List MessageEntity

-- The loop over the pairs of neighbouring boundaries, the first one being start.
unfoldable pub segments_from : List ℕ → List MessageEntity → ℕ → List ℕ → List EntitySegment
unfolding covering_entities
segments_from u es start [] = []
segments_from u es start (stop ∷ bounds) =
    let rest = segments_from u es stop bounds in
    if leb stop start
    then rest
    else record { text = decode (slice u start stop); entities = covering_entities es start stop }
      ∷ rest

abbrev pub segments_of : List ℕ → List MessageEntity → List ℕ → List EntitySegment
segments_of u es [] = []
segments_of u es (start ∷ bounds) = segments_from u es start bounds

unfoldable pub entity_segments : List ℕ → List MessageEntity → List EntitySegment
unfolding entity_boundaries segments_from
entity_segments s es =
    let u = encode s in
    let segments = segments_of u es (entity_boundaries es u) in
    if length u == 0 then [] else segments
