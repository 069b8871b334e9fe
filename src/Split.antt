-- ===== src/Split.antt =====
-- format.go, SplitTextWithEntities and its helpers. A text is the list of its runes, `u` the list
-- of its UTF-16 code units, and a position an index into `u`. Offsets and lengths of entities are
-- the non-negative numbers of the wire format.
pub mod Point
pub mod Seams
pub mod Boundary
pub mod Chunks
pub mod Correct
mod Tests
use golagram.Base.{
  ℕ, zero, suc, ◌+◌, ◌-◌, min, max, Bool, true, false, ◌&&◌, ◌||◌, List, [], ◌∷◌, map, Option, none,
  some, ltb, leb, ◌==◌, if◌then◌else◌, length, get_or, slice,
}
use golagram.Utf16.{is_high_surrogate, encode, decode}

-- An entity: its kind, where it starts and how many units it covers.
pub record Entity : Type 0 where
  pub kind : ℕ
  pub offset : ℕ
  pub length_units : ℕ

pub record TextChunk : Type 0 where
  pub text : List ℕ
  pub entities : List Entity

abbrev pub max_text_length : ℕ
max_text_length = 4096

abbrev pub entity_end : Entity → ℕ
entity_end e = e.offset + e.length_units

unfoldable pub is_split_space : ℕ → Bool
is_split_space c = c == b' ' || c == b'\n' || c == b'\r' || c == b'\t'

-- u[i]
abbrev pub unit : List ℕ → ℕ → ℕ
unit u i = get_or u i 0

-- The first space seen from the right is kept.
abbrev pub note_space : Option ℕ → ℕ → Option ℕ
note_space none i = some i
note_space (some j) i = some j

abbrev pub break_or : Option ℕ → ℕ → ℕ
break_or none p = p
break_or (some i) p = i

-- The loop of lastBreak at i = start + n.
last_break_from : List ℕ → ℕ → ℕ → ℕ → Option ℕ → ℕ
last_break_from u start p zero last_space = break_or last_space p
last_break_from u start p (suc n) last_space =
    let rest =
      last_break_from u start p n (
        if unit u (start + n) == b' ' then note_space last_space (start + suc n) else last_space) in
    if unit u (start + n) == b'\n' then start + suc n else rest

pub last_break : List ℕ → ℕ → ℕ → ℕ
unfolding last_break_from
last_break u start p = last_break_from u start p (p - start) none

-- The entity strictly contains q, starts inside the chunk, and fits a chunk of its own.
unfoldable pub cuts_avoidable : ℕ → ℕ → ℕ → Entity → Bool
cuts_avoidable start limit q e =
    ltb e.offset q && ltb q (entity_end e) && ltb start e.offset && leb e.length_units limit

-- One pass over the entities: the position, and whether it moved.
pub retreat_pass : List Entity → ℕ → ℕ → ℕ → Bool → ℕ × Bool
retreat_pass [] start limit q moved = (q, moved)
retreat_pass (e ∷ es) start limit q moved =
    if cuts_avoidable start limit q e
    then retreat_pass es start limit e.offset true
    else retreat_pass es start limit q moved

-- `for { ... }`: a pass that moves lowers q, so q + 1 passes are enough.
retreat : ℕ → List Entity → ℕ → ℕ → ℕ → ℕ
retreat zero es start limit q = q
retreat (suc fuel) es start limit q =
    let again = retreat fuel es start limit (retreat_pass es start limit q false).0 in
    if (retreat_pass es start limit q false).1 then again else q

pub entity_start_before : List Entity → ℕ → ℕ → ℕ → ℕ
unfolding retreat
entity_start_before es start q limit = retreat (suc q) es start limit q

-- The loop of splitPoint: the window [start, p) shrinks until a break survives the entities.
settle : ℕ → List ℕ → List Entity → ℕ → ℕ → ℕ → ℕ → ℕ
settle zero u es start limit w p = w
settle (suc fuel) u es start limit w p =
    let q = entity_start_before es start (last_break u start p) limit in
    let again = settle fuel u es start limit w q in
    if leb q start then w else if q == p then q else again

-- The window's edge, moved off a surrogate pair.
unfoldable pub window_edge : List ℕ → ℕ → ℕ → ℕ
window_edge u start limit =
    if is_high_surrogate (unit u (start + limit - 1))
    then if start + limit - 1 == start then start + 2 else start + limit - 1
    else start + limit

pub split_point : List ℕ → List Entity → ℕ → ℕ → ℕ
unfolding settle
split_point u es start limit =
    let w = window_edge u start limit in
    let p = settle (suc w) u es start limit w w in
    if leb (length u) (start + limit) then length u else p

-- `for cut > start && isSplitSpace(u[cut-1]) { cut-- }` at cut = start + n.
pub trim_end : List ℕ → ℕ → ℕ → ℕ
trim_end u start zero = start
trim_end u start (suc n) =
    let rest = trim_end u start n in
    if is_split_space (unit u (start + n)) then rest else start + suc n

-- `for start < len(u) && isSplitSpace(u[start]) { start++ }` with n = len(u) - start rounds left.
pub skip_spaces : List ℕ → ℕ → ℕ → ℕ
skip_spaces u zero start = start
skip_spaces u (suc n) start =
    let rest = skip_spaces u n (suc start) in if is_split_space (unit u start) then rest else start

pub clip_entities : List Entity → ℕ → ℕ → List Entity
clip_entities [] start end = []
clip_entities (e ∷ es) start end =
    let off = max e.offset start in
    let stop = min (entity_end e) end in
    let rest = clip_entities es start end in
    if leb stop off
    then rest
    else record e { offset = off - start; length_units = stop - off } ∷ rest

-- The loop of SplitTextWithEntities from position start.
pub chunks_from : ℕ → List ℕ → List Entity → ℕ → ℕ → List TextChunk
unfolding trim_end skip_spaces
chunks_from zero u es limit start = []
chunks_from (suc fuel) u es limit start =
    let end = split_point u es start limit in
    let cut = trim_end u start (end - start) in
    let next = skip_spaces u (length u - end) end in
    let rest = chunks_from fuel u es limit next in
    if ltb start (length u)
    then if ltb start cut
      then record { text = decode (slice u start cut); entities = clip_entities es start cut }
        ∷ rest
      else rest
    else []

-- The optional limit: absent or not positive means Telegram's own.
abbrev pub chunk_limit : Option ℕ → ℕ
chunk_limit none = max_text_length
chunk_limit (some l) = if ltb 0 l then l else max_text_length

pub split_text_with_entities : List ℕ → List Entity → Option ℕ → List TextChunk
unfolding chunks_from
split_text_with_entities [] es limit = []
split_text_with_entities (r ∷ rs) es limit =
    let u = encode (r ∷ rs) in chunks_from (suc (length u)) u es (chunk_limit limit) 0

-- SplitText: the chunks of a text without entities.
pub split_text : List ℕ → Option ℕ → List (List ℕ)
unfolding split_text_with_entities
split_text text limit = map (λ (c : TextChunk). c.text) (split_text_with_entities text [] limit)
